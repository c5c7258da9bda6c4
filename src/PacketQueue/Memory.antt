-- ===== src/PacketQueue/Memory.antt =====
-- What `packet_queue_flush` empties and frees.
use omxtranscode.Base.{◌≡◌, refl, List, [], ◌∷◌, ◌++◌, arith}
use omxtranscode.ListApi.{ListApi}
use omxtranscode.PacketQueue.{
  Ptr, Packet, PacketQueue, packet_queue_free_packet, flush_loop, packet_queue_flush, contents,
  IsCounted,
}
use omxtranscode.Base.{some, if◌then◌else◌, ◌==◌}

-- A packet's allocations: its bytes, unless there are none, and the struct.
abbrev pub owned : Packet → List Ptr
owned p = if p.payload == 0 then p.block ∷ [] else p.payload ∷ p.block ∷ []

abbrev pub owned_all : List Packet → List Ptr
owned_all [] = []
owned_all (p ∷ ps) = owned p ++ owned_all ps

free_packet-owned : (p : Packet) → packet_queue_free_packet (some p) 1 ≡ owned p
unfolding packet_queue_free_packet
free_packet-owned p = ground arith

module _ (api : ListApi Packet) where
  open api use {Head, entries, entries-del_first, for_each-entries}

  flush_loop-all :
      (ps : List Packet) (head : Head)
      → entries head ≡ ps
      → (entries (flush_loop api ps head).0 ≡ []) × ((flush_loop api ps head).1 ≡ owned_all ps)
  unfolding flush_loop
  flush_loop-all [] head e = (e, refl)
  flush_loop-all (p ∷ ps) head e = ground (
    arith,
    flush_loop-all ps (api.list_del p head) (entries-del_first head p ps e),
    free_packet-owned p,
  )

  -- `packet_queue_flush` empties the queue, sets its count to 0 and frees what each of its packets
  -- owns, once and in order: the bytes, where there are any, and then the struct.
  pub flush-owned :
      (q : PacketQueue Head)
      → let (q', freed) = packet_queue_flush api q in
        (contents api q' ≡ []) × IsCounted api q' × (freed ≡ owned_all (contents api q))
  unfolding packet_queue_flush
  flush-owned q =
      ground (arith, for_each-entries q.queue, flush_loop-all (entries q.queue) q.queue refl)
