-- ===== src/Buffer.antt =====
-- omx.c: the input and the output buffers of a component, one-way linked lists of headers through
-- `pAppPrivate`. The loops that walk a list run on fuel; a list that does not end in time, as a
-- cycle would, counts as a call that never returns.
pub mod Chain
pub mod Input
pub mod Output
pub mod Done
pub mod Count
pub mod Race
mod Tests
use omxtranscode.Base.{
  ℕ, zero, suc, ◌+◌, ◌≡◌, Bool, true, false, ◌&&◌, ◌||◌, not, Option, none, some, List, [], ◌∷◌,
  ◌==◌, if◌then◌else◌, ltb, take, Outcome, ok, exits, blocks, fault, and_then, Cmd, ◌>>=◌, ◌>>◌,
  pure, get, modify, stop, to_i64,
}
use omxtranscode.ListApi.{ListApi}
use omxtranscode.PacketQueue.{Ptr, Packet, PacketQueue, packet_queue_add_item}
use omxtranscode.Ticks.{omx_to_pts}
use omxtranscode.Omx.{
  BufferHeader, Heap, Component, Part, CondVar, buf_in_notempty_cv, buf_out_notempty_cv, Machine,
  set_component,
}

unfoldable pub write : Heap → Ptr → Option BufferHeader → Heap
write h a b x = if x == a then b else h x

-- `*p`: undefined at `NULL` and where there is no header.
unfoldable pub load : Ptr → Heap → Outcome BufferHeader
load p h = if p == 0 then fault else elim (h p) [ none ↦ fault | some b ↦ ok b ]

unfoldable pub set_next : Ptr → Ptr → Heap → Outcome Heap
set_next p q h = and_then (load p h) λ b. ok (write h p (some (record b { p_app_private = q })))

-- `while (ret && ret->nFilledLen > 0) ret = ret->pAppPrivate;`
unfoldable pub find_empty : ℕ → Heap → Ptr → Outcome Ptr
find_empty zero h ret = blocks
find_empty (suc k) h ret =
    if ret == 0
    then ok 0
    else and_then (load ret h)
        λ b. elim (b.n_filled_len == 0) [ true ↦ ok ret | false ↦ find_empty k h b.p_app_private ]

abbrev pub with_component : Part → (Component → Component) → Machine → Machine
with_component p change m = set_component p (change (m.component p)) m

-- One round of `retry`, up to the wait: 0 stands for no empty buffer.
unfoldable pub try_input : ℕ → Part → Cmd Machine Ptr
try_input k p m = and_then (find_empty k m.heap (m.component p).in_buffers) λ ret.
    if ret == 0
    then ok (0, with_component p (λ c. record c { buf_in_notempty = 0 }) m)
    else ok (ret, m)

-- The list holds what the other threads do in each wait on the condition variable. `retrying` is
-- false in the inner loop, which waits while `buf_in_notempty` is 0; a call that has used up the
-- list still waits.
unfoldable pub input_loop : ℕ → Part → Bool → List (Machine → Machine) → Cmd Machine Ptr
input_loop k p retrying [] m =
    if retrying || not ((m.component p).buf_in_notempty == 0)
    then and_then (try_input k p m) (λ r. if r.0 == 0 then blocks else ok r)
    else blocks
input_loop k p retrying (w ∷ ws) m =
    if retrying || not ((m.component p).buf_in_notempty == 0)
    then and_then (try_input k p m)
        (λ r. elim (r.0 == 0) [ true ↦ input_loop k p false ws (w r.1) | false ↦ ok r ])
    else (let waited = input_loop k p false ws (w m) in waited)

unfoldable pub omx_get_next_input_buffer : ℕ → Part → List (Machine → Machine) → Cmd Machine Ptr
omx_get_next_input_buffer k p ws = input_loop k p true ws

-- `while (ret && ret->pAppPrivate != NULL) { prev = ret; ret = ret->pAppPrivate; }`, as the pair of
-- `prev` and `ret`.
unfoldable pub find_last : ℕ → Heap → Ptr → Ptr → Outcome (Ptr × Ptr)
find_last zero h prev ret = blocks
find_last (suc k) h prev ret =
    if ret == 0
    then ok (prev, 0)
    else and_then (load ret h) λ b. elim (b.p_app_private == 0) [
      | true ↦ ok (prev, ret)
      | false ↦ find_last k h ret b.p_app_private
    ]

-- The last buffer `ret` leaves the list: the head of the list or the `next` of `prev` skips it.
unfoldable pub unlink_last : Part → Ptr → Ptr → Machine → Outcome Machine
unlink_last p prev ret m = and_then (load ret m.heap) λ b.
    and_then
      (if prev == 0
        then ok (with_component p (λ c. record c { out_buffers = b.p_app_private }) m)
        else and_then (set_next prev b.p_app_private m.heap) (λ h. ok (record m { heap = h })))
      λ m'. and_then (set_next ret 0 m'.heap) λ h. ok (record m' { heap = h })

-- One round of the `do` loop, behind the inner wait: 0 stands for an empty list. `prev` comes from
-- the rounds before.
unfoldable pub try_output : ℕ → Part → Ptr → Cmd Machine (Ptr × Ptr)
try_output k p prev m = and_then (find_last k m.heap prev (m.component p).out_buffers) λ r.
    if r.1 == 0
    then ok (r, with_component p (λ c. record c { buf_out_notempty = 0 }) m)
    else and_then (unlink_last p r.0 r.1 m) (λ m'. ok (r, m'))

-- Again with the other threads' work in each wait.
unfoldable pub output_loop : ℕ → Part → Ptr → List (Machine → Machine) → Cmd Machine Ptr
output_loop k p prev [] m = elim ((m.component p).buf_out_notempty == 0) [
  | true ↦ blocks
  | false ↦
      and_then (try_output k p prev m)
        λ r. elim (r.0.1 == 0) [ true ↦ blocks | false ↦ ok (r.0.1, r.1) ]
]
output_loop k p prev (w ∷ ws) m = elim ((m.component p).buf_out_notempty == 0) [
  | true ↦ output_loop k p prev ws (w m)
  | false ↦
      and_then (try_output k p prev m)
        λ r. elim (r.0.1 == 0) [ true ↦ output_loop k p r.0.0 ws (w r.1) | false ↦ ok (r.0.1, r.1) ]
]

unfoldable pub omx_get_next_output_buffer : ℕ → Part → List (Machine → Machine) → Cmd Machine Ptr
omx_get_next_output_buffer k p ws = output_loop k p 0 ws

-- `omx_get_free_buffer_count`
unfoldable pub count_loop : ℕ → Heap → Ptr → ℕ → Outcome ℕ
count_loop zero h buf n = blocks
count_loop (suc k) h buf n =
    if buf == 0
    then ok n
    else and_then (load buf h)
        λ b. count_loop k h b.p_app_private (if b.n_filled_len == 0 then n + 1 else n)

unfoldable pub omx_get_free_buffer_count : ℕ → Part → Machine → Outcome ℕ
omx_get_free_buffer_count k p m = count_loop k m.heap (m.component p).in_buffers 0

-- `omx_empty_buffer_done`: the machine after the callback.
unfoldable pub omx_empty_buffer_done : Part → Machine → Machine
omx_empty_buffer_done p m =
    if (m.component p).buf_in_notempty == 0
    then record (with_component p (λ c. record c { buf_in_notempty = 1 }) m) {
      signals = (p, buf_in_notempty_cv) ∷ m.signals;
    }
    else m

-- The packet that the encoder callback queues: `fresh` is the struct as `malloc` returns it, at its
-- address, and `block` the memory for the bytes.
unfoldable pub encoded_packet : Packet → Ptr → BufferHeader → Packet
encoded_packet fresh block b = record fresh {
  data_length = b.n_filled_len;
  flags = b.n_flags;
  pts = to_i64 (omx_to_pts b.n_time_stamp);
  payload = block;
  bytes = take b.n_filled_len b.p_buffer;
}

-- `buf` follows the last buffer `current`, or is the list if there is none.
unfoldable pub append_after : Part → (current buf : Ptr) → Machine → Outcome Machine
append_after p current buf m =
    if current == 0
    then ok (with_component p (λ c. record c { out_buffers = buf }) m)
    else and_then (set_next current buf m.heap) (λ h. ok (record m { heap = h }))

unfoldable pub mark_out_notempty : Part → Machine → Machine
mark_out_notempty p m =
    if (m.component p).buf_out_notempty == 0
    then record (with_component p (λ c. record c { buf_out_notempty = 1 }) m) {
      signals = (p, buf_out_notempty_cv) ∷ m.signals;
    }
    else m

-- The buffer goes back to the end of the output list.
unfoldable pub return_buffer : ℕ → Part → Ptr → Machine → Outcome Machine
return_buffer k p buf m = and_then (load buf m.heap) λ b.
    let m1 = record m { heap = write m.heap buf (some (record b { n_filled_len = 0 })) } in
    and_then (find_last k m1.heap 0 (m.component p).out_buffers) λ r.
      and_then (append_after p r.1 buf m1) λ m2.
        and_then (set_next buf 0 m2.heap) λ h. ok (mark_out_notempty p (record m2 { heap = h }))

module _ (api : ListApi Packet) where
  open api use {Head}

  -- `omx_encoder_fill_buffer_done`, on the encoded queue and the machine.
  unfoldable pub omx_encoder_fill_buffer_done :
      ℕ
      → Part
      → (fresh : Packet) (block buf : Ptr) → PacketQueue Head
      → Machine
      → Outcome (PacketQueue Head × Machine)
  omx_encoder_fill_buffer_done k p fresh block buf q m = and_then (load buf m.heap) λ b.
      and_then (return_buffer k p buf m)
        λ m'. ok ((packet_queue_add_item api q (some (encoded_packet fresh block b))).0, m')
