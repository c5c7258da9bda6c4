-- ===== src/Transcode/Video.antt =====
-- The video of the input file on its way through demux.c and encode.c.
use omxtranscode.Base.{
  ℕ, ◌≡◌, ◌∙◌, refl, sym, ap, true, ◌&&◌, List, [], ◌∷◌, ◌++◌, append_assoc, if◌then◌else◌, Outcome,
  ok, exits, blocks, fault, Yields, Bool-cases, inl, inr,
}
use omxtranscode.ListApi.{ListApi}
use omxtranscode.PacketQueue.{Packet, PacketQueue, contents}
use omxtranscode.Omx.{BufferHeader, Machine}
use omxtranscode.Ports.Alloc.{Accepts}
use omxtranscode.Demux.{Frame, Source}
use omxtranscode.Demux.Step.{is_video, has_stamp, video_of}
use omxtranscode.Demux.Flow.{Turn, System, play}
use omxtranscode.Demux.Bounds.{AreShort, play-AreShort}
use omxtranscode.Demux.Progress.{IsStart, play-Delivered}
use omxtranscode.Encode.{Setting, Decoder, decode_loop}
use omxtranscode.Encode.Chunks.{sent_bytes}
use omxtranscode.Encode.Feed.{Supplies, after_sent}
use omxtranscode.Encode.Arrivals.{finished-Feeds}
use omxtranscode.Encode.Stream.{AreWhole, all_bytes, Decodes, decode_loop-Decodes}

-- The bytes of the video frames that have a time stamp, in the order of the file.
abbrev pub video_bytes : Source → List (Frame × Packet) → List ℕ
video_bytes c [] = []
video_bytes c ((frame, fresh) ∷ frames) =
    if is_video c frame && has_stamp c frame
    then frame.bytes ++ video_bytes c frames
    else video_bytes c frames

video_of-bytes :
    (c : Source) (frames : List (Frame × Packet))
    → all_bytes (video_of c frames) ≡ video_bytes c frames
video_of-bytes c [] = refl
video_of-bytes c ((frame, fresh) ∷ frames) =
    elim (Bool-cases (is_video c frame && has_stamp c frame)) [
      | inl e ↦ rw e (ap (λ l. frame.bytes ++ l) (video_of-bytes c frames))
      | inr e ↦ rw e (video_of-bytes c frames)
    ]

video_of-AreWhole : (c : Source) (frames : List (Frame × Packet)) → AreWhole (video_of c frames)
video_of-AreWhole c [] = tt
video_of-AreWhole c ((frame, fresh) ∷ frames) =
    elim (Bool-cases (is_video c frame && has_stamp c frame)) [
      | inl e ↦ rw e (refl, video_of-AreWhole c frames)
      | inr e ↦ rw e (video_of-AreWhole c frames)
    ]

all_bytes-append : (xs ys : List Packet) → all_bytes (xs ++ ys) ≡ all_bytes xs ++ all_bytes ys
all_bytes-append [] ys = refl
all_bytes-append (x ∷ xs) ys =
    ap (λ l. x.bytes ++ l) (all_bytes-append xs ys)
    ∙ sym (append_assoc x.bytes (all_bytes xs) (all_bytes ys))

AreWhole-append : (xs ys : List Packet) → AreWhole (xs ++ ys) → AreWhole ys
AreWhole-append [] ys h = h
AreWhole-append (x ∷ xs) ys h = AreWhole-append xs ys h.1

module _ (set : Setting) (api : ListApi Packet) (c : Source) where
  open api use {Head}

  -- The decoder has got the rest of the file's video in `d'`, whose loop started as `d`, `taken`
  -- having been taken before.
  pub record IsTranscoded (frames : List (Frame × Packet)) (taken : List Packet)
      (d d' : Decoder set api) : Type 0 where
    pub pieces : List BufferHeader
    pub bytes : all_bytes taken ++ sent_bytes pieces ≡ video_bytes c frames
    pub handed : d'.feeder.sent ≡ after_sent pieces d.feeder.sent
    pub remaining : contents api d'.input_video_queue ≡ []

  module _ (k : ℕ) (arrivals : ℕ → List (PacketQueue Head → PacketQueue Head))
      (env : ℕ → ℕ → List (Machine → Machine)) where
    transcoded :
        (IsFine : Machine → Type 0) (frames : List (Frame × Packet)) (taken queued : List Packet)
        (d : Decoder set api) (o : Outcome (Decoder set api))
        → taken ++ queued ≡ video_of c frames
        → Decodes set api IsFine queued d o
        → Yields (IsTranscoded frames taken d) o
    transcoded IsFine frames taken queued d (ok d') e h = record {
      pieces = h.pieces;
      bytes =
          ap (λ l. all_bytes taken ++ l) h.bytes
          ∙ sym (all_bytes-append taken queued)
          ∙ ap all_bytes e
          ∙ video_of-bytes c frames;
      handed = h.handed;
      remaining = h.remaining;
    }
    transcoded IsFine frames taken queued d (exits n) e h = h
    transcoded IsFine frames taken queued d blocks e h = h
    transcoded IsFine frames taken queued d fault e h = h

    -- From a start of the demultiplexer with counted queues of at most 101 packets and nothing in
    -- them, in every order of its steps and those of the consumers: if `extract_streams` has ended,
    -- and OpenMAX accepts every call, and in each round there comes a buffer that takes data and the
    -- configuration of the pipeline ends, then the outer loop of `decode_thread`, on the video queue
    -- as it is then and for 101 packets, ends. The bytes of the video packets taken before, and then
    -- those in the buffers handed to the decoder, are the bytes of the file's video frames with a
    -- time stamp, in order and complete, and the queue is empty.
    pub video-IsTranscoded :
        (IsFine : Machine → Type 0) (accepts : Accepts set.il)
        (supply : (i n : ℕ) (m : Machine) → IsFine m → Supplies set k (env i) IsFine n m)
        (ts : List Turn) (s : System api c) (frames : List (Frame × Packet)) (d : Decoder set api)
        → IsStart api c s frames
        → AreShort api c s.demux
        → (play api c ts s).demux.ended ≡ true
        → d.input_video_queue ≡ (play api c ts s).demux.input_video_queue
        → IsFine d.feeder.machine
        → Yields
            (IsTranscoded frames (play api c ts s).taken_video d)
            (decode_loop set api k arrivals (λ n q. q) env 101 d)
    video-IsTranscoded IsFine accepts supply ts s frames d start short ended same fine =
        let end = play-Delivered api c ts s frames start ended in
        let bound = (play-AreShort api c ts s short).video in
        let queued = contents api (play api c ts s).demux.input_video_queue in
        let taken = (play api c ts s).taken_video in
        transcoded IsFine frames taken queued d _ end.video (
          decode_loop-Decodes set api k arrivals (λ n q. q) env IsFine accepts supply queued 101 d
            fine
            (finished-Feeds set api arrivals (λ n q. q) queued 101 d.input_video_queue (λ i q. refl)
              (ap (contents api) same) (rw same bound.counted) (rw same end.video_finished)
              bound.short)
            (AreWhole-append taken queued (rw end.video (video_of-AreWhole c frames))))
