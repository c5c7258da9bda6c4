-- ===== src/Buffer/Done.antt =====
-- The callbacks of omx.c that give buffers back: `omx_empty_buffer_done` and
-- `omx_encoder_fill_buffer_done`.
use omxtranscode.Base.{
  ℕ, ◌<◌, ◌≡◌, ◌∙◌, ◌≢◌, refl, true, false, some, List, [], ◌∷◌, ◌++◌, arith, ◌==◌, length,
  length-append, take, to_i64, ◌+◌, Outcome, ok, exits, blocks, fault, and_then, inl, inr,
  Bool-cases,
}
use omxtranscode.PacketQueue.{Ptr}
use omxtranscode.Omx.{BufferHeader, Heap, Part, Machine}
use omxtranscode.Omx.Wait.{same_part_refl}
use omxtranscode.Buffer.{
  write, return_buffer, append_after, mark_out_notempty, encoded_packet,
  omx_encoder_fill_buffer_done, omx_get_next_output_buffer,
}
use omxtranscode.ListApi.{ListApi}
use omxtranscode.Ticks.{omx_to_pts}
use omxtranscode.PacketQueue.{Packet, PacketQueue, contents}
use omxtranscode.PacketQueue.Order.{add_item-contents}
use omxtranscode.Buffer.Chain.{
  Chain, has, Distinct, last_pair, Chain-write, write_self, write-other, load-ok, set_next-ok,
  find_last-pair, last-found, last-in, has-apart, ==_sym,
}
use omxtranscode.Buffer.Output.{IsOutput, Returned, next_output-last}

-- A heap in which the last buffer of a list is followed by `z`.
pub link-append :
    (h g : Heap) (prev p a : Ptr) (bs : List Ptr) (z : Ptr) (b c : BufferHeader)
    → Chain h p (a ∷ bs)
    → Distinct (a ∷ bs)
    → g (last_pair prev (a ∷ bs)).1 ≡ some (record b { p_app_private = z })
    → ((x : Ptr) → has x (a ∷ bs) ≡ true → (x == (last_pair prev (a ∷ bs)).1) ≡ false → g x ≡ h x)
    → z ≢ 0
    → g z ≡ some c
    → c.p_app_private ≡ 0
    → Chain g p (a ∷ (bs ++ z ∷ []))
link-append h g prev p a [] z b c ch d last same ne at end =
    (ch.0, ch.1, (record b { p_app_private = z }, last, (refl, ne, (c, at, end))))
link-append h g prev p a (a' ∷ bs) z b c ch d last same ne at end =
    let y = (last_pair a (a' ∷ bs)).1 in
    let apart : (a == y) ≡ false = has-apart a y (a' ∷ bs) d.0 (last-in a a' bs) in
    (
      ch.0,
      ch.1,
      (
        ch.2.0,
        same a (ground arith) apart ∙ ch.2.1,
        link-append h g a ch.2.0.p_app_private a' bs z b c ch.2.2 d.1 last
            (λ x i x_ne. same x (ground arith) x_ne) ne at end,
      ),
    )

-- `z` is the last buffer of the list, with the bytes and flags that it had and a length of 0, and
-- the flag `buf_out_notempty` is set. Buffers outside the list are as they were.
pub record Given (p : Part) (m : Machine) (bs : List Ptr) (z : Ptr) (m' : Machine) : Type 0 where
  pub chain : Chain m'.heap (m'.component p).out_buffers (bs ++ z ∷ [])
  pub header : BufferHeader
  pub held : m.heap z ≡ some header
  pub emptied : m'.heap z ≡ some (record header { n_filled_len = 0; p_app_private = 0 })
  pub others : (x : Ptr) → has x bs ≡ false → (x == z) ≡ false → m'.heap x ≡ m.heap x
  pub flag : (m'.component p).buf_out_notempty ≢ 0

abbrev pub GivenBack : Part → Machine → List Ptr → Ptr → Outcome Machine → Type 0
GivenBack p m bs z (ok m') = Given p m bs z m'
GivenBack p m bs z _ = ⊥

-- Setting the flag changes neither the heap nor the list.
marked :
    (p : Part) (m m' : Machine) (bs : List Ptr) (z : Ptr) (b : BufferHeader)
    → Chain m'.heap (m'.component p).out_buffers (bs ++ z ∷ [])
    → m.heap z ≡ some b
    → m'.heap z ≡ some (record b { n_filled_len = 0; p_app_private = 0 })
    → ((x : Ptr) → has x bs ≡ false → (x == z) ≡ false → m'.heap x ≡ m.heap x)
    → Given p m bs z (mark_out_notempty p m')
unfolding mark_out_notempty
marked p m m' bs z b c e e' others = elim (Bool-cases ((m'.component p).buf_out_notempty == 0)) [
  | inl clear ↦ rw clear (record {
    chain = rw (same_part_refl p) c;
    header = b;
    held = e;
    emptied = e';
    others = others;
    flag = rw (same_part_refl p) (omega arith);
  })
  | inr set ↦ rw set (record {
    chain = c;
    header = b;
    held = e;
    emptied = e';
    others = others;
    flag = ground arith;
  })
]

module _ (k : ℕ) (p : Part) (m : Machine) (z : Ptr) (b : BufferHeader) where
  -- into an empty list
  give-nil :
      IsOutput p m []
      → z ≢ 0
      → m.heap z ≡ some b
      → 0 < k
      → GivenBack p m [] z (return_buffer k p z m)
  unfolding return_buffer append_after
  give-nil o ne e fuel =
      let h = write m.heap z (some (record b { n_filled_len = 0 })) in
      rw
        (
          load-ok m.heap z b ne e,
          find_last-pair h k 0 (m.component p).out_buffers [] o.chain fuel,
          set_next-ok h z 0 (record b { n_filled_len = 0 }) ne (write_self m.heap z _),
        )
        (marked p m _ [] z b (rw (same_part_refl p) (refl, ne, (_, write_self h z _, refl))) e
          (write_self h z _) λ x i x_ne. write-other h z x _ x_ne ∙ write-other m.heap z x _ x_ne)

  -- behind the last buffer of a list
  give-cons :
      (a : Ptr) (bs : List Ptr)
      → IsOutput p m (a ∷ bs)
      → has z (a ∷ bs) ≡ false
      → z ≢ 0
      → m.heap z ≡ some b
      → length (a ∷ bs) < k
      → GivenBack p m (a ∷ bs) z (return_buffer k p z m)
  unfolding return_buffer append_after
  give-cons a bs o out ne e fuel =
      let head = (m.component p).out_buffers in
      let y = (last_pair 0 (a ∷ bs)).1 in
      let h = write m.heap z (some (record b { n_filled_len = 0 })) in
      let c =
        Chain-write m.heap head z (some (record b { n_filled_len = 0 })) (a ∷ bs) o.chain out in
      let end = last-found h 0 head a bs c in
      let h' = write h y (some (record end.2.0 { p_app_private = z })) in
      let g = write h' z (some (record b { n_filled_len = 0; p_app_private = 0 })) in
      let apart = has-apart z y (a ∷ bs) out end.1 in
      let some_y : (y == 0) ≡ false = ground (arith, end.0) in
      let at_z = write-other h y z _ apart ∙ write_self m.heap z _ in
      rw
        (
          load-ok m.heap z b ne e,
          find_last-pair h k 0 head (a ∷ bs) c fuel,
          some_y,
          set_next-ok h y z end.2.0 end.0 end.2.1,
          set_next-ok h' z 0 (record b { n_filled_len = 0 }) ne at_z,
        )
        (marked p m _ (a ∷ bs) z b
          (link-append h g 0 head a bs z end.2.0 _ c o.distinct
            (write-other h' z y _ (==_sym y z ∙ apart) ∙ write_self h y _)
            (λ x i x_ne.
              write-other h' z x _ (==_sym x z ∙ has-apart z x (a ∷ bs) out i)
              ∙ write-other h y x _ x_ne)
            ne (write_self h' z _) refl)
          e (write_self h' z _)
          λ x i x_ne.
            write-other h' z x _ x_ne
            ∙ write-other h y x _ (has-apart x y (a ∷ bs) i end.1)
            ∙ write-other m.heap z x _ x_ne)

-- The output list is `bs`, distinct headers, and `z` is a header outside it. The encoder's
-- callback, with fuel for the list, puts `z` behind the list: it becomes `bs` and then `z`, with
-- `z` marked as holding no data, the headers outside `bs` and `z` are as they were, and the flag
-- `buf_out_notempty` is set.
pub return_buffer-Given :
    (k : ℕ) (p : Part) (m : Machine) (bs : List Ptr) (z : Ptr) (b : BufferHeader)
    → IsOutput p m bs
    → has z bs ≡ false
    → z ≢ 0
    → m.heap z ≡ some b
    → length bs < k
    → GivenBack p m bs z (return_buffer k p z m)
return_buffer-Given k p m [] z b o out ne e fuel = give-nil k p m z b o ne e fuel
return_buffer-Given k p m (a ∷ bs) z b o out ne e fuel = give-cons k p m z b a bs o out ne e fuel

pub Distinct-append :
    (bs : List Ptr) (z : Ptr) → Distinct bs → has z bs ≡ false → Distinct (bs ++ z ∷ [])
Distinct-append [] z d out = ground arith
Distinct-append (a ∷ bs) z d out =
    (has-append a bs z (==_sym a z ∙ ground arith) d.0, Distinct-append bs z d.1 (ground arith))
  where
    has-append :
        (x : Ptr) (l : List Ptr) (y : Ptr)
        → (x == y) ≡ false
        → has x l ≡ false
        → has x (l ++ y ∷ []) ≡ false
    has-append x [] y e o = ground arith
    has-append x (c ∷ l) y e o = ground (arith, has-append x l y e)

Given-at :
    (k : ℕ) (p : Part) (m m' : Machine) (bs : List Ptr) (z : Ptr) (b : BufferHeader)
    → IsOutput p m bs
    → has z bs ≡ false
    → z ≢ 0
    → m.heap z ≡ some b
    → length bs < k
    → return_buffer k p z m ≡ ok m'
    → Given p m bs z m'
Given-at k p m m' bs z b o out ne e fuel done =
    rw done at (return_buffer-Given k p m bs z b o out ne e fuel)

-- The output list is `bs`, distinct headers, and `z` is a header outside it. After the callback
-- has given `z` back, the next `omx_get_next_output_buffer` on that component, with fuel for the
-- list, hands `z` out again and leaves the list that the callback found: the list is a stack.
pub return-next_output :
    (k : ℕ) (p : Part) (later : List (Machine → Machine)) (m m' : Machine) (bs : List Ptr) (z : Ptr)
    (b : BufferHeader)
    → IsOutput p m bs
    → has z bs ≡ false
    → z ≢ 0
    → m.heap z ≡ some b
    → length bs + 1 < k
    → return_buffer k p z m ≡ ok m'
    → Returned p m' bs z (omx_get_next_output_buffer k p later m')
return-next_output k p later m m' bs z b o out ne e fuel done =
    let g = Given-at k p m m' bs z b o out ne e (omega arith) done in
    next_output-last k p [] later m' bs z tt g.flag
      (record { chain = g.chain; distinct = Distinct-append bs z o.distinct out })
      (omega (arith, length-append bs (z ∷ [])))

module _ (api : ListApi Packet) where
  open api use {Head}

  abbrev pub Queued :
      Part
      → PacketQueue Head
      → Machine
      → List Ptr
      → Ptr
      → Packet
      → Outcome (PacketQueue Head × Machine)
      → Type 0
  Queued p q m bs z packet (ok (q', m')) =
      (contents api q' ≡ contents api q ++ packet ∷ []) × Given p m bs z m'
  Queued p q m bs z packet _ = ⊥

  queue_end :
      (p : Part) (q q' : PacketQueue Head) (m : Machine) (bs : List Ptr) (z : Ptr) (packet : Packet)
      (r : Outcome Machine)
      → contents api q' ≡ contents api q ++ packet ∷ []
      → GivenBack p m bs z r
      → Queued p q m bs z packet (and_then r λ m'. ok (q', m'))
  queue_end p q q' m bs z packet (ok m') e g = (e, g)
  queue_end p q q' m bs z packet (exits n) e g = g
  queue_end p q q' m bs z packet blocks e g = g
  queue_end p q q' m bs z packet fault e g = g

  -- The output list is `bs`, distinct headers, and the buffer `z` is a header outside it.
  -- `omx_encoder_fill_buffer_done`, with fuel for the list, queues one packet, last, whose bytes
  -- are the filled part of the buffer, with the buffer's flags and time stamp, and gives the
  -- buffer back empty, at the end of the list.
  pub encoder_fill_buffer_done-Queued :
      (k : ℕ) (p : Part) (fresh : Packet) (block : Ptr) (q : PacketQueue Head) (m : Machine)
      (bs : List Ptr) (z : Ptr) (b : BufferHeader)
      → IsOutput p m bs
      → has z bs ≡ false
      → z ≢ 0
      → m.heap z ≡ some b
      → length bs < k
      → Queued p q m bs z
          (record fresh {
            payload = block;
            bytes = take b.n_filled_len b.p_buffer;
            data_length = b.n_filled_len;
            flags = b.n_flags;
            pts = to_i64 (omx_to_pts b.n_time_stamp);
          })
          (omx_encoder_fill_buffer_done api k p fresh block z q m)
  unfolding omx_encoder_fill_buffer_done encoded_packet
  encoder_fill_buffer_done-Queued k p fresh block q m bs z b o out ne e fuel =
      rw (load-ok m.heap z b ne e) (
        queue_end p q _ m bs z _ (return_buffer k p z m) (add_item-contents api q _)
          (return_buffer-Given k p m bs z b o out ne e fuel))
