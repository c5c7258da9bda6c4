-- ===== src/PacketQueue/Threads.antt =====
-- A producer and the one consumer of a queue, under every interleaving: the mutex makes each of
-- the steps below atomic, and `pthread_cond_signal` wakes the consumer if it sleeps.
use omxtranscode.Base.{
  ◌≡◌, ◌∙◌, refl, sym, Bool, true, false, ◌&&◌, not, some, List, [], ◌∷◌, ◌++◌, arith, append_assoc,
}
use omxtranscode.ListApi.{ListApi}
use omxtranscode.PacketQueue.{Packet, PacketQueue, packet_queue_add_item, unlink_first, contents}
use omxtranscode.PacketQueue.Order.{add_item-contents, unlink_first-cons}

module _ (api : ListApi Packet) where
  open api use {Head, list_empty, list_empty-nil, list_empty-cons}

  -- `asleep` says that the consumer is in `pthread_cond_wait`; `sent` and `got` are the packets
  -- so far, first come first.
  pub record Shared : Type 0 where
    pub queue : PacketQueue Head
    pub asleep : Bool
    pub sent : List Packet
    pub got : List Packet

  -- `packet_queue_add_item` by the producer.
  unfoldable pub produce : Packet → Shared → Shared
  produce p s =
      let (q, signal) = packet_queue_add_item api s.queue (some p) in
      record { queue = q; asleep = s.asleep && not signal; sent = s.sent ++ p ∷ []; got = s.got }

  -- The consumer's read with an entry in the queue.
  unfoldable pub consume : Shared → Shared
  consume s = let (p, q) = unlink_first api s.queue in record s { queue = q; got = s.got ++ p ∷ [] }

  pub data Step : Shared → Shared → Type 0 where
    produces : (s : Shared) (p : Packet) → Step s (produce p s)
    -- the test of the loop fails or holds, for a consumer that is awake
    consumes :
        (s : Shared) → s.asleep ≡ false → list_empty s.queue.queue ≡ false → Step s (consume s)
    sleeps :
        (s : Shared)
        → s.asleep ≡ false
        → list_empty s.queue.queue ≡ true
        → Step s (record s { asleep = true })
    -- a wait may end with no signal
    wakes : (s : Shared) → Step s (record s { asleep = false })

  pub data Reach (start : Shared) : Shared → Type 0 where
    here : Reach start start
    next : {s t : Shared} → Reach start s → Step s t → Reach start t

  -- A sleeping consumer has nothing to read, and what was sent is what was got and what waits.
  pub record Inv (s : Shared) : Type 0 where
    pub idle : s.asleep ≡ true → contents api s.queue ≡ []
    pub order : s.sent ≡ s.got ++ contents api s.queue

  empty-cases :
      (h : Head) (ps : List Packet) → api.entries h ≡ ps → list_empty h ≡ true → api.entries h ≡ []
  empty-cases h [] e t = e
  empty-cases h (p ∷ ps) e t = cc (list_empty-cons h p ps e)

  produce-asleep :
      (s : Shared) (p : Packet)
      → Inv s
      → (produce p s).asleep ≡ true
      → contents api (produce p s).queue ≡ []
  unfolding produce packet_queue_add_item
  produce-asleep s p inv h = ground (arith, inv.idle, list_empty-nil s.queue.queue)

  produce-Inv : (s : Shared) (p : Packet) → Inv s → Inv (produce p s)
  unfolding produce
  produce-Inv s p inv = record {
    idle = produce-asleep s p inv;
    order =
        rw (inv.order, add_item-contents api s.queue p)
          (append_assoc s.got (contents api s.queue) (p ∷ []));
  }

  consume-Inv :
      (s : Shared) (ps : List Packet)
      → contents api s.queue ≡ ps
      → s.asleep ≡ false
      → list_empty s.queue.queue ≡ false
      → Inv s
      → Inv (consume s)
  unfolding consume
  consume-Inv s [] e a n inv = cc (list_empty-nil s.queue.queue e)
  consume-Inv s (p ∷ ps) e a n inv =
      let first = unlink_first-cons api s.queue p ps e in
      record {
        idle = λ h. cc (a, h);
        order = rw (first.0, first.1) (inv.order ∙ rw e (sym (append_assoc s.got (p ∷ []) ps)));
      }

  Step-Inv : {s t : Shared} → Step s t → Inv s → Inv t
  Step-Inv (produces s p) inv = produce-Inv s p inv
  Step-Inv (consumes s a n) inv = consume-Inv s (contents api s.queue) refl a n inv
  Step-Inv (sleeps s a e) inv = record {
    idle = λ _. empty-cases s.queue.queue _ refl e;
    order = inv.order;
  }
  Step-Inv (wakes s) inv = record { idle = λ h. cc; order = inv.order }

  Reach-Inv : {start s : Shared} → Inv start → Reach start s → Inv s
  Reach-Inv inv here = inv
  Reach-Inv inv (next r st) = Step-Inv st (Reach-Inv inv r)

  -- No wake-up is lost, although `packet_queue_add_item` signals only if the queue was
  -- empty: from a state with an awake consumer, in which the packets sent are those got and then
  -- those in the queue, a producer and one consumer reach only states in which a sleeping
  -- consumer has an empty queue, and the packets sent are still those got, in order, and then
  -- those in the queue.
  pub no_lost_wakeup :
      (start s : Shared)
      → start.asleep ≡ false
      → start.sent ≡ start.got ++ contents api start.queue
      → Reach start s
      → (s.asleep ≡ true → contents api s.queue ≡ []) × (s.sent ≡ s.got ++ contents api s.queue)
  no_lost_wakeup start s awake order r =
      let inv = Reach-Inv (record { idle = λ h. cc (awake, h); order = order }) r in
      (inv.idle, inv.order)
