-- ===== src/Encode/Stream.antt =====
-- The outer loop of `decode_thread`: the packets of the queue reach the decoder, and are freed.
use omxtranscode.Base.{
  ℕ, zero, suc, ◌≡◌, ◌∙◌, refl, sym, ap, false, some, List, [], ◌∷◌, ◌++◌, append_assoc, arith,
  length, Outcome, ok, exits, blocks, fault, and_then, take,
}
use omxtranscode.ListApi.{ListApi}
use omxtranscode.PacketQueue.{
  Ptr, Packet, PacketQueue, packet_queue_free_packet, unlink_first, contents, IsCounted,
}
use omxtranscode.PacketQueue.Wait.{after, get_next_item-first}
use omxtranscode.Encode.Arrivals.{Gives, Feeds, more-nil}
use omxtranscode.Omx.{BufferHeader, Machine}
use omxtranscode.Ports.Alloc.{Accepts}
use omxtranscode.Encode.{Feeder, Setting, feed_loop, Decoder, has_more, decode_loop}
use omxtranscode.Encode.Chunks.{sent_bytes}
use omxtranscode.Encode.Feed.{after_sent, Supplies, Fed, feed_loop-Fed}

-- The packets' lengths are those of their bytes.
abbrev pub AreWhole : List Packet → Type 0
AreWhole [] = Unit {0}
AreWhole (p ∷ ps) = (length p.bytes ≡ p.data_length) × AreWhole ps

abbrev pub all_bytes : List Packet → List ℕ
all_bytes [] = []
all_bytes (p ∷ ps) = p.bytes ++ all_bytes ps

-- The bytes and the struct of each packet, freed.
abbrev pub freeing : List Packet → List Ptr → List Ptr
freeing [] log = log
freeing (p ∷ ps) log = freeing ps (packet_queue_free_packet (some p) 1 ++ log)

after_sent-append :
    (xs ys sent : List BufferHeader)
    → after_sent (xs ++ ys) sent ≡ after_sent ys (after_sent xs sent)
after_sent-append [] ys sent = refl
after_sent-append (x ∷ xs) ys sent = after_sent-append xs ys (x ∷ sent)

sent_bytes-append :
    (xs ys : List BufferHeader) → sent_bytes (xs ++ ys) ≡ sent_bytes xs ++ sent_bytes ys
sent_bytes-append [] ys = refl
sent_bytes-append (x ∷ xs) ys =
    let held = take x.n_filled_len x.p_buffer in
    ap (λ l. held ++ l) (sent_bytes-append xs ys)
    ∙ sym (append_assoc held (sent_bytes xs) (sent_bytes ys))

module _ (set : Setting) (api : ListApi Packet) where
  open api use {Head}

  module _ (IsFine : Machine → Type 0) where
    -- `d'` is `d` with the packets `ps` decoded, and nothing left.
    pub record DecodedTo (ps : List Packet) (d d' : Decoder set api) : Type 0 where
      pub pieces : List BufferHeader
      pub bytes : sent_bytes pieces ≡ all_bytes ps
      pub handed : d'.feeder.sent ≡ after_sent pieces d.feeder.sent
      pub remaining : contents api d'.input_video_queue ≡ []
      pub released : d'.freed ≡ freeing ps d.freed
      pub fine : IsFine d'.feeder.machine

    abbrev pub Decodes : List Packet → Decoder set api → Outcome (Decoder set api) → Type 0
    Decodes ps d (ok d') = DecodedTo ps d d'
    Decodes ps d _ = ⊥

  abbrev load_packet : Packet → Decoder set api → Feeder
  load_packet p d = record d.feeder { p = p.bytes; bytes_left = p.data_length }

  -- The decoder behind its first packet.
  abbrev behind : PacketQueue Head → Packet → Decoder set api → Feeder → Decoder set api
  behind q p d s = record {
    input_video_queue = q;
    feeder = s;
    freed = packet_queue_free_packet (some p) 1 ++ d.freed;
  }

  module _ (k : ℕ) (arrivals : ℕ → List (PacketQueue Head → PacketQueue Head))
      (during : ℕ → PacketQueue Head → PacketQueue Head)
      (env : ℕ → ℕ → List (Machine → Machine)) where
    decode_loop-cons :
        (n : ℕ) (d : Decoder set api) (p : Packet)
        (g : Gives set api arrivals during n d.input_video_queue p)
        → let q = during n (unlink_first api (after api g.ws d.input_video_queue)).1 in
          decode_loop set api k arrivals during env (suc n) d
          ≡ and_then
              (feed_loop set k (env n) p.data_length p (load_packet p d))
              (λ s. decode_loop set api k arrivals during env n (behind q p d s))
    unfolding decode_loop
    decode_loop-cons n d p g = rw (
      decode_loop,
      g.more,
      g.split,
      (get_next_item-first api g.ws g.later d.input_video_queue p g.rest g.empty g.first).0,
    )

    decode_loop-nil :
        (n : ℕ) (d : Decoder set api)
        → has_more set api d.input_video_queue ≡ false
        → decode_loop set api k arrivals during env n d ≡ ok d
    unfolding decode_loop
    decode_loop-nil zero d e = rw (decode_loop, e)
    decode_loop-nil (suc n) d e = rw (decode_loop, e)

    module _ (IsFine : Machine → Type 0) (accepts : Accepts set.il) where
      decoded_nil :
          (n : ℕ) (d : Decoder set api)
          → contents api d.input_video_queue ≡ []
          → IsCounted api d.input_video_queue
          → d.input_video_queue.queue_finished ≡ 1
          → IsFine d.feeder.machine
          → Decodes IsFine [] d (decode_loop set api k arrivals during env n d)
      decoded_nil n d e c f fine =
          rw (decode_loop-nil n d (more-nil set api d.input_video_queue e c f)) (record {
            pieces = [];
            bytes = refl;
            handed = refl;
            remaining = e;
            released = refl;
            fine = fine;
          })

      -- The first packet's pieces go before those of the rest.
      decoded_rest :
          (q : PacketQueue Head) (d : Decoder set api) (p : Packet) (ps : List Packet) (s : Feeder)
          (xs : List BufferHeader) (o : Outcome (Decoder set api))
          → sent_bytes xs ≡ p.bytes
          → s.sent ≡ after_sent xs d.feeder.sent
          → Decodes IsFine ps (behind q p d s) o
          → Decodes IsFine (p ∷ ps) d o
      decoded_rest q d p ps s xs (ok d') e h t = record {
        pieces = xs ++ t.pieces;
        bytes =
            sent_bytes-append xs t.pieces
            ∙ ap (λ l. l ++ sent_bytes t.pieces) e
            ∙ ap (λ l. p.bytes ++ l) t.bytes;
        handed =
            t.handed
            ∙ ap (after_sent t.pieces) h
            ∙ sym (after_sent-append xs t.pieces d.feeder.sent);
        remaining = t.remaining;
        released = t.released;
        fine = t.fine;
      }
      decoded_rest q d p ps s xs (exits n) e h t = t
      decoded_rest q d p ps s xs blocks e h t = t
      decoded_rest q d p ps s xs fault e h t = t

      decoded_cons :
          (q : PacketQueue Head) (n : ℕ) (d : Decoder set api) (p : Packet) (ps : List Packet)
          (o : Outcome Feeder)
          → Fed set k (env n) IsFine p accepts (load_packet p d) o
          → ((s : Feeder)
              → IsFine s.machine
              → Decodes IsFine ps
                  (behind q p d s)
                  (decode_loop set api k arrivals during env n (behind q p d s)))
          → Decodes IsFine
              (p ∷ ps)
              d
              (and_then o λ s. decode_loop set api k arrivals during env n (behind q p d s))
      decoded_cons q n d p ps (ok s) t go =
          decoded_rest q d p ps s t.pieces _ t.joined t.handed (go s t.fine)
      decoded_cons q n d p ps (exits c) t go = t
      decoded_cons q n d p ps blocks t go = t
      decoded_cons q n d p ps fault t go = t

      -- If OpenMAX accepts every call, in each round there comes a buffer that takes data and the
      -- configuration of the pipeline ends, and the queue, with what other threads add to it while
      -- the loop waits or feeds, gives the packets `ps`, each as long as its bytes, and is
      -- finished and empty when the loop tests it behind them, then the outer loop of `decode_thread`
      -- ends after these packets. The buffers handed to the decoder hold their bytes, in order and
      -- complete; the queue is empty, and each packet has been freed once with its bytes.
      pub decode_loop-Decodes :
          (supply : (i n : ℕ) (m : Machine) → IsFine m → Supplies set k (env i) IsFine n m)
          (ps : List Packet) (n : ℕ) (d : Decoder set api)
          → IsFine d.feeder.machine
          → Feeds set api arrivals during ps n d.input_video_queue
          → AreWhole ps
          → Decodes IsFine ps d (decode_loop set api k arrivals during env n d)
      decode_loop-Decodes supply [] n d fine h whole = decoded_nil n d h.0 h.1 h.2 fine
      decode_loop-Decodes supply (p ∷ ps) zero d fine h whole = absurd h
      decode_loop-Decodes supply (p ∷ ps) (suc n) d fine h whole =
          let q = during n (unlink_first api (after api h.0.ws d.input_video_queue)).1 in
          rw (decode_loop-cons n d p h.0) (
            decoded_cons q n d p ps _
              (feed_loop-Fed set k (env n) IsFine p accepts (supply n) p.data_length
                (load_packet p d) fine whole.0 (omega arith))
              λ s fine'. decode_loop-Decodes supply ps n (behind q p d s) fine' h.1 whole.1)
