-- ===== src/PacketQueue/Wait.antt =====
-- The blocking read `packet_queue_get_next_item`, through any number of waits.
use omxtranscode.Base.{◌≡◌, none, some, List, [], ◌∷◌, ◌++◌, arith}
use omxtranscode.ListApi.{ListApi}
use omxtranscode.PacketQueue.{
  Packet, PacketQueue, unlink_first, packet_queue_get_next_item, contents,
}
use omxtranscode.PacketQueue.Order.{unlink_first-cons}

module _ (api : ListApi Packet) where
  open api use {Head, list_empty-nil, list_empty-cons}

  -- The queue after the other threads' work in the waits `ws`.
  abbrev pub after :
      List (PacketQueue Head → PacketQueue Head) → PacketQueue Head → PacketQueue Head
  after [] q = q
  after (w ∷ ws) q = after ws (w q)

  -- The queue is empty before each of the waits.
  abbrev pub StaysEmpty : List (PacketQueue Head → PacketQueue Head) → PacketQueue Head → Type 0
  StaysEmpty [] q = Unit {0}
  StaysEmpty (w ∷ ws) q = (contents api q ≡ []) × StaysEmpty ws (w q)

  -- If the queue is empty before each of the waits `ws`, and holds the packets `p ∷ ps` after
  -- them, then `packet_queue_get_next_item` returns `p` after exactly these waits, whatever would
  -- happen in later ones, and leaves `ps`.
  pub get_next_item-first :
      (ws later : List (PacketQueue Head → PacketQueue Head)) (q : PacketQueue Head) (p : Packet)
      (ps : List Packet)
      → StaysEmpty ws q
      → contents api (after ws q) ≡ p ∷ ps
      → (packet_queue_get_next_item api (ws ++ later) q
          ≡ some (p, (unlink_first api (after ws q)).1))
        × (contents api (unlink_first api (after ws q)).1 ≡ ps)
  unfolding packet_queue_get_next_item
  get_next_item-first [] [] q p ps h e =
      rw (list_empty-cons q.queue p ps e) (ground (arith, unlink_first-cons api q p ps e))
  get_next_item-first [] (w ∷ later) q p ps h e =
      rw (list_empty-cons q.queue p ps e) (ground (arith, unlink_first-cons api q p ps e))
  get_next_item-first (w ∷ ws) later q p ps h e =
      rw (list_empty-nil q.queue h.0) (get_next_item-first ws later (w q) p ps h.1 e)

  -- `packet_queue_get_next_item`, with a queue that is empty before each wait and after the last,
  -- still waits.
  pub get_next_item-waits :
      (ws : List (PacketQueue Head → PacketQueue Head)) (q : PacketQueue Head)
      → StaysEmpty ws q
      → contents api (after ws q) ≡ []
      → packet_queue_get_next_item api ws q ≡ none
  unfolding packet_queue_get_next_item
  get_next_item-waits [] q h e = rw (list_empty-nil q.queue e)
  get_next_item-waits (w ∷ ws) q h e =
      rw (list_empty-nil q.queue h.0) (get_next_item-waits ws (w q) h.1 e)
