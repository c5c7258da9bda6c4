-- ===== src/PacketQueue/Refines.antt =====
-- packet_queue.c refines a first-in first-out list: the results of any sequence of calls.
use omxtranscode.Base.{◌≡◌, ◌∙◌, refl, ap, Option, none, some, List, [], ◌∷◌, ◌++◌, arith}
use omxtranscode.ListApi.{ListApi}
use omxtranscode.PacketQueue.{
  Packet, PacketQueue, packet_queue_add_item, packet_queue_get_next_item_asynch, packet_queue_flush,
  contents, IsCounted,
}
use omxtranscode.PacketQueue.Order.{
  add_item-contents, add_item-IsCounted, unlink_first-cons, unlink_first-IsCounted, asynch-nil,
  asynch-cons,
}
use omxtranscode.PacketQueue.Memory.{flush-owned}

pub data Call : Type 0 where
  add : Option Packet → Call
  take : Call
  flush : Call

-- The abstract queue.
pub record Fifo : Type 0 where
  pub items : List Packet
  pub taken : List (Option Packet)

abbrev pub fifo_step : Fifo → Call → Fifo
fifo_step f (add none) = f
fifo_step f (add (some p)) = record f { items = f.items ++ p ∷ [] }
fifo_step f flush = record f { items = [] }
fifo_step f take = elim f.items [
  | [] ↦ record f { taken = none ∷ f.taken }
  | p ∷ ps ↦ record { items = ps; taken = some p ∷ f.taken }
]

abbrev pub fifo_run : Fifo → List Call → Fifo
fifo_run f [] = f
fifo_run f (c ∷ cs) = fifo_run (fifo_step f c) cs

module _ (api : ListApi Packet) where
  open api use {Head}

  -- The queue, and the results of the reads so far, last first.
  pub record History : Type 0 where
    pub queue : PacketQueue Head
    pub taken : List (Option Packet)

  unfoldable pub call : History → Call → History
  call h (add p) = record h { queue = (packet_queue_add_item api h.queue p).0 }
  call h flush = record h { queue = (packet_queue_flush api h.queue).0 }
  call h take =
      let (item, rest) = packet_queue_get_next_item_asynch api h.queue in
      record { queue = rest; taken = item ∷ h.taken }

  unfoldable pub run : History → List Call → History
  run h [] = h
  run h (c ∷ cs) = run (call h c) cs

  abbrev pub view : History → Fifo
  view h = record { items = contents api h.queue; taken = h.taken }

  add-none : (q : PacketQueue Head) → (packet_queue_add_item api q none).0 ≡ q
  unfolding packet_queue_add_item
  add-none q = refl

  take-view :
      (h : History) (ps : List Packet)
      → contents api h.queue ≡ ps
      → view (call h take) ≡ fifo_step (view h) take
  unfolding call
  take-view h [] e = rw e (ground (arith, asynch-nil api h.queue e))
  take-view h (p ∷ ps) e =
      rw e (ground (arith, asynch-cons api h.queue p ps e, unlink_first-cons api h.queue p ps e))

  call-view : (h : History) (c : Call) → view (call h c) ≡ fifo_step (view h) c
  unfolding call
  call-view h (add none) =
      ap (λ q. record { items = contents api q; taken = h.taken }) (add-none h.queue)
  call-view h (add (some p)) = rw (add_item-contents api h.queue p)
  call-view h flush = rw (flush-owned api h.queue).0
  call-view h take = take-view h (contents api h.queue) refl

  take-IsCounted :
      (h : History) (ps : List Packet)
      → contents api h.queue ≡ ps
      → IsCounted api h.queue
      → IsCounted api (call h take).queue
  unfolding call
  take-IsCounted h [] e c = rw (asynch-nil api h.queue e) c
  take-IsCounted h (p ∷ ps) e c =
      rw (asynch-cons api h.queue p ps e) (unlink_first-IsCounted api h.queue p ps e c)

  call-IsCounted : (h : History) (c : Call) → IsCounted api h.queue → IsCounted api (call h c).queue
  unfolding call
  call-IsCounted h (add p) c = add_item-IsCounted api h.queue p c
  call-IsCounted h flush c = (flush-owned api h.queue).1
  call-IsCounted h take c = take-IsCounted h (contents api h.queue) refl c

  -- If `queue_count` is the number of packets in the queue, so it is after every sequence of
  -- calls.
  pub run-IsCounted :
      (h : History) (cs : List Call) → IsCounted api h.queue → IsCounted api (run h cs).queue
  unfolding run
  run-IsCounted h [] c = c
  run-IsCounted h (x ∷ cs) c = run-IsCounted (call h x) cs (call-IsCounted h x c)

  -- From a queue of any content, every sequence of calls gives the results of the abstract
  -- first-in first-out queue, and leaves the content that it leaves.
  pub run-fifo : (h : History) (cs : List Call) → view (run h cs) ≡ fifo_run (view h) cs
  unfolding run
  run-fifo h [] = refl
  run-fifo h (c ∷ cs) = run-fifo (call h c) cs ∙ ap (λ f. fifo_run f cs) (call-view h c)
