-- ===== src/Encode/Arrivals.antt =====
-- The packets that the outer loop of `decode_thread` takes from its queue while other threads add to
-- it.
use omxtranscode.Base.{
  ℕ, zero, suc, ◌≤◌, ◌≡◌, ◌≢◌, ◌∙◌, refl, true, false, List, [], ◌∷◌, ◌++◌, arith, length, blocks,
}
use omxtranscode.ListApi.{ListApi}
use omxtranscode.PacketQueue.{Packet, PacketQueue, unlink_first, contents, IsCounted}
use omxtranscode.PacketQueue.Order.{unlink_first-cons, unlink_first-IsCounted}
use omxtranscode.PacketQueue.Wait.{after, StaysEmpty, get_next_item-waits}
use omxtranscode.Omx.{Machine}
use omxtranscode.Encode.{Setting, Decoder, has_more, decode_loop}

module _ (set : Setting) (api : ListApi Packet) where
  open api use {Head}

  pub finished : (q : PacketQueue Head) → (unlink_first api q).1.queue_finished ≡ q.queue_finished
  unfolding unlink_first
  finished q = refl

  pub more-cons :
      (q : PacketQueue Head) (p : Packet) (ps : List Packet)
      → contents api q ≡ p ∷ ps
      → IsCounted api q
      → has_more set api q ≡ true
  unfolding has_more
  more-cons q p ps e c = ground (arith, c, e)

  pub more-nil :
      (q : PacketQueue Head)
      → contents api q ≡ []
      → IsCounted api q
      → q.queue_finished ≡ 1
      → has_more set api q ≡ false
  unfolding has_more
  more-nil q e c f = ground (arith, c, e)

  module _ (arrivals : ℕ → List (PacketQueue Head → PacketQueue Head))
      (during : ℕ → PacketQueue Head → PacketQueue Head) where
    -- The loop, with `n` packets to go behind this one, goes on and gets `p` after the waits `ws`.
    pub record Gives (n : ℕ) (q : PacketQueue Head) (p : Packet) : Type 0 where
      pub more : has_more set api q ≡ true
      pub ws : List (PacketQueue Head → PacketQueue Head)
      pub later : List (PacketQueue Head → PacketQueue Head)
      pub split : arrivals n ≡ ws ++ later
      pub empty : StaysEmpty api ws q
      pub rest : List Packet
      pub first : contents api (after api ws q) ≡ p ∷ rest

    -- The queue, and what the other threads do to it, give the loop the packets, and then the end.
    abbrev pub Feeds : List Packet → ℕ → PacketQueue Head → Type 0
    Feeds [] n q = (contents api q ≡ []) × IsCounted api q × (q.queue_finished ≡ 1)
    Feeds (p ∷ ps) zero q = ⊥
    Feeds (p ∷ ps) (suc n) q =
        (g : Gives n q p) × Feeds ps n (during n (unlink_first api (after api g.ws q)).1)

    -- A finished queue that no one adds to gives what it holds.
    pub finished-Feeds :
        (ps : List Packet) (n : ℕ) (q : PacketQueue Head)
        → ((i : ℕ) (r : PacketQueue Head) → during i r ≡ r)
        → contents api q ≡ ps
        → IsCounted api q
        → q.queue_finished ≡ 1
        → length ps ≤ n
        → Feeds ps n q
    finished-Feeds [] n q alone e c f fuel = (e, c, f)
    finished-Feeds (p ∷ ps) zero q alone e c f fuel = absurd (omega arith)
    finished-Feeds (p ∷ ps) (suc n) q alone e c f fuel = (
      record {
        more = more-cons q p ps e c;
        ws = [];
        later = arrivals n;
        split = refl;
        empty = tt;
        rest = ps;
        first = e;
      },
      rw (alone n (unlink_first api q).1) (
          finished-Feeds ps n (unlink_first api q).1 alone (unlink_first-cons api q p ps e).1
            (unlink_first-IsCounted api q p ps e c) (finished q ∙ f) (omega arith)),
    )

    more-unfinished : (q : PacketQueue Head) → q.queue_finished ≢ 1 → has_more set api q ≡ true
    unfolding has_more
    more-unfinished q f = ground (arith, f)

    -- If the queue is empty and not yet finished when the outer loop of `decode_thread` tests it, and the other
    -- threads add no packet from then on, the loop waits for ever, also if they mark the queue
    -- finished meanwhile.
    pub decode_loop-blocks :
        (k : ℕ) (env : ℕ → ℕ → List (Machine → Machine)) (n : ℕ) (d : Decoder set api)
        → d.input_video_queue.queue_finished ≢ 1
        → StaysEmpty api (arrivals n) d.input_video_queue
        → contents api (after api (arrivals n) d.input_video_queue) ≡ []
        → decode_loop set api k arrivals during env (suc n) d ≡ blocks
    unfolding decode_loop
    decode_loop-blocks k env n d f empty still = rw (
      decode_loop,
      more-unfinished d.input_video_queue f,
      get_next_item-waits api (arrivals n) d.input_video_queue empty still,
    )
