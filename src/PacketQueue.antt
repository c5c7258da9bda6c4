-- ===== src/PacketQueue.antt =====
-- packet_queue.h and packet_queue.c: the blocking queue that the threads share, over an abstract
-- kernel list. Each function is what it does under the mutex, in one step.
pub mod Order
pub mod Wait
pub mod Memory
pub mod Refines
pub mod Threads
pub mod Plain
mod Tests
use omxtranscode.Base.{
  ℕ, ◌≡◌, Bool, true, false, ◌&&◌, not, Option, none, some, List, [], ◌∷◌, ◌++◌, ◌==◌,
  if◌then◌else◌, length, ℤ, pos, ◌+ℤ◌, ◌-ℤ◌,
}
use omxtranscode.ListApi.{ListApi}

-- An address; 0 is `NULL`.
abbrev pub Ptr : Type 0
Ptr = ℕ

-- `block` is the address of the struct itself and `payload` the pointer `data`; `bytes` are what
-- it points to.
pub record Packet : Type 0 where
  pub block : Ptr
  pub payload : Ptr
  pub bytes : List ℕ
  pub data_length : ℕ
  pub pts : ℤ
  pub dts : ℤ
  pub duration : ℤ
  pub flags : ℕ

-- `Head` is the embedded list head.
pub record PacketQueue (Head : Type 0) : Type 0 where
  pub queue : Head
  pub queue_count : ℤ
  pub first_packet : ℤ
  pub queue_finished : ℕ

-- The addresses that `free` is called on.
unfoldable pub packet_queue_free_packet : Option Packet → ℕ → List Ptr
packet_queue_free_packet none free_data = []
packet_queue_free_packet (some item) free_data =
    (if not (item.payload == 0) && (free_data == 1) then item.payload ∷ [] else [])
    ++ item.block ∷ []

module _ (api : ListApi Packet) where
  open api use {
    Head, entries, init_list_head, list_empty, next_entry, list_add_tail, list_del,
    list_for_each_safe,
  }

  -- `first_packet` keeps what the memory held.
  unfoldable pub packet_queue_init : PacketQueue Head → PacketQueue Head
  packet_queue_init q = record q { queue = init_list_head; queue_count = pos 0; queue_finished = 0 }

  -- The new queue, and whether the condition variable is signalled.
  unfoldable pub packet_queue_add_item : PacketQueue Head → Option Packet → PacketQueue Head × Bool
  packet_queue_add_item q none = (q, false)
  packet_queue_add_item q (some packet) = (
    record q { queue = list_add_tail packet q.queue; queue_count = q.queue_count +ℤ pos 1 },
    list_empty q.queue,
  )

  -- The lines that both readers share once there is an entry.
  unfoldable pub unlink_first : PacketQueue Head → Packet × PacketQueue Head
  unlink_first q = (
    next_entry q.queue,
    record q {
      queue = list_del (next_entry q.queue) q.queue;
      queue_count = q.queue_count -ℤ pos 1;
    },
  )

  -- The `while` loop runs over what the other threads do to the queue in each wait on the
  -- condition variable; `none` is a call that still waits when these are used up.
  unfoldable pub packet_queue_get_next_item :
      List (PacketQueue Head → PacketQueue Head)
      → PacketQueue Head
      → Option (Packet × PacketQueue Head)
  packet_queue_get_next_item [] q = if list_empty q.queue then none else some (unlink_first q)
  packet_queue_get_next_item (w ∷ ws) q =
      let waited = packet_queue_get_next_item ws (w q) in
      if list_empty q.queue then waited else some (unlink_first q)

  unfoldable pub packet_queue_get_next_item_asynch :
      PacketQueue Head → Option Packet × PacketQueue Head
  packet_queue_get_next_item_asynch q =
      if list_empty q.queue
      then (none, q)
      else (let (item, rest) = unlink_first q in (some item, rest))

  flush_loop : List Packet → Head → Head × List Ptr
  flush_loop [] head = (head, [])
  flush_loop (current ∷ rest) head =
      let (head', freed) = flush_loop rest (list_del current head) in
      (head', packet_queue_free_packet (some current) 1 ++ freed)

  -- The emptied queue, and what is freed.
  unfoldable pub packet_queue_flush : PacketQueue Head → PacketQueue Head × List Ptr
  unfolding flush_loop
  packet_queue_flush q =
      let (head, freed) = flush_loop (list_for_each_safe q.queue) q.queue in
      (record q { queue = head; queue_count = pos 0 }, freed)

  -- What the queue holds, first come first.
  abbrev pub contents : PacketQueue Head → List Packet
  contents q = entries q.queue

  -- The count is the number of packets.
  abbrev pub IsCounted : PacketQueue Head → Type 0
  IsCounted q = q.queue_count ≡ pos (length (entries q.queue))
