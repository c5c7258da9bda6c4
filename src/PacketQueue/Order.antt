-- ===== src/PacketQueue/Order.antt =====
-- Each operation of packet_queue.c as an operation on the list of packets, first come first, and
-- the count that goes with it.
use omxtranscode.Base.{
  ◌≡◌, refl, Option, none, some, List, [], ◌∷◌, ◌++◌, arith, length-append, ◌+ℤ◌, ◌-ℤ◌,
}
use omxtranscode.ListApi.{ListApi}
use omxtranscode.PacketQueue.{
  Packet, PacketQueue, packet_queue_init, packet_queue_add_item, unlink_first,
  packet_queue_get_next_item_asynch, contents, IsCounted,
}

module _ (api : ListApi Packet) where
  open api use {
    Head, entries, entries-init, list_empty-nil, list_empty-cons, next_entry-cons, entries-add_tail,
    entries-del_first,
  }

  -- A new queue is empty, counts 0 and is not finished.
  pub init-empty :
      (q : PacketQueue Head)
      → let q' = packet_queue_init api q in
        (contents api q' ≡ []) × IsCounted api q' × (q'.queue_finished ≡ 0)
  unfolding packet_queue_init
  init-empty q = (entries-init, ground (arith, entries-init), refl)

  pub add_item-contents :
      (q : PacketQueue Head) (p : Packet)
      → contents api (packet_queue_add_item api q (some p)).0 ≡ contents api q ++ p ∷ []
  unfolding packet_queue_add_item
  add_item-contents q p = entries-add_tail p q.queue

  pub add_item-IsCounted :
      (q : PacketQueue Head) (p : Option Packet)
      → IsCounted api q
      → IsCounted api (packet_queue_add_item api q p).0
  unfolding packet_queue_add_item ◌+ℤ◌
  add_item-IsCounted q none c = c
  add_item-IsCounted q (some p) c =
      ground (arith, entries-add_tail p q.queue, length-append (entries q.queue) (p ∷ []))

  -- The two halves of taking the first packet.
  pub unlink_first-cons :
      (q : PacketQueue Head) (p : Packet) (ps : List Packet)
      → contents api q ≡ p ∷ ps
      → ((unlink_first api q).0 ≡ p) × (contents api (unlink_first api q).1 ≡ ps)
  unfolding unlink_first
  unlink_first-cons q p ps e = (
    next_entry-cons q.queue p ps e,
    rw (next_entry-cons q.queue p ps e) (entries-del_first q.queue p ps e),
  )

  pub unlink_first-IsCounted :
      (q : PacketQueue Head) (p : Packet) (ps : List Packet)
      → contents api q ≡ p ∷ ps
      → IsCounted api q
      → IsCounted api (unlink_first api q).1
  unfolding unlink_first ◌-ℤ◌
  unlink_first-IsCounted q p ps e c =
      ground (arith, entries-del_first q.queue p ps e, next_entry-cons q.queue p ps e)

  -- `packet_queue_get_next_item_asynch` takes the first packet, or says that there is none.
  pub asynch-nil :
      (q : PacketQueue Head)
      → contents api q ≡ []
      → packet_queue_get_next_item_asynch api q ≡ (none, q)
  unfolding packet_queue_get_next_item_asynch
  asynch-nil q e = rw (list_empty-nil q.queue e)

  pub asynch-cons :
      (q : PacketQueue Head) (p : Packet) (ps : List Packet)
      → contents api q ≡ p ∷ ps
      → packet_queue_get_next_item_asynch api q ≡ (some p, (unlink_first api q).1)
  unfolding packet_queue_get_next_item_asynch
  asynch-cons q p ps e =
      rw (list_empty-cons q.queue p ps e) (ground (arith, unlink_first-cons q p ps e))
