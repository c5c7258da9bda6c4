-- ===== src/Output/Closing.antt =====
-- How `writer_thread` ends, and which calls it makes on the output file besides the frames.
use omxtranscode.Base.{
  Holds-map, Yields-map, Yields-Holds, Yields, Bool, true, false, ℕ, ◌≡◌, ap, refl, not, some, List,
  [], ◌∷◌, arith, if◌then◌else◌, length, has_flag, Holds, Holds-next, Holds-unit,
}
use omxtranscode.External.{BufferFlags}
use omxtranscode.ListApi.{ListApi}
use omxtranscode.PacketQueue.{Packet}
use omxtranscode.Omx.{Machine, Il, video_encode}
use omxtranscode.Buffer.{omx_encoder_fill_buffer_done}
use omxtranscode.Mux.{Av}
use omxtranscode.Output.{Muxer}
use omxtranscode.Output.Frees.{onto, FreesEach, freeing, freeing-FreesEach, free_streams-onto}
use omxtranscode.Output.Ending.{IsDue}
use omxtranscode.Output.Thread.{
  FileCall, avformat_write_header, av_write_trailer, avio_close, av_free_context, avcodec_close,
  Phase, waits_running, tests, hands_output, writes_audio, writes_video, ended, OutputFile, Session,
  free_streams, close_output, write_audio, write_video, hand_output, writer_step, Turn, writer_turn,
  encoder_turn, audio_turn, finish_turn, machine_turn, take_turn, run_writer,
}

module _ (muxer : Muxer) (file : OutputFile) (v a : ℕ) where
  -- All of the clean-up, with the file closed if it was opened; the calls are last first.
  pub record AreComplete (calls : List FileCall) : Type 0 where
    pub frees : List FileCall
    pub each : FreesEach (length file.output_context.streams) frees
    pub order :
        calls
        ≡ av_free_context
          ∷ (let freed = onto frees (
                avcodec_close a
                ∷ avcodec_close v
                ∷ av_write_trailer
                ∷ avformat_write_header
                ∷ []) in
              if file.output_context.opened then avio_close ∷ freed else freed)

  -- The calls on the file: the header alone until the end, and then all of the clean-up.
  abbrev pub CalledAt : Phase → List FileCall → Type 0
  CalledAt ended calls = AreComplete calls
  CalledAt _ calls = calls ≡ avformat_write_header ∷ []

  abbrev pub AreCalled : {Head : Type 0} → Session Head → Type 0
  AreCalled s = CalledAt s.phase s.calls

  -- The file has both streams, and is open unless its format needs no file.
  pub record IsWhole : Type 0 where
    pub has_video : file.video_stream ≡ some v
    pub has_audio : file.audio_stream ≡ some a
    pub is_open :
        file.output_context.opened
        ≡ not (has_flag file.output_context.format_flags muxer.avfmt_nofile)

  closing-AreComplete :
      (no_file : Bool)
      → file.output_context.opened ≡ not no_file
      → let freed =
          free_streams
            (length file.output_context.streams)
            (avcodec_close a ∷ avcodec_close v ∷ av_write_trailer ∷ avformat_write_header ∷ []) in
        AreComplete (av_free_context ∷ (if no_file then freed else avio_close ∷ freed))
  closing-AreComplete true e = record {
    frees = freeing (length file.output_context.streams);
    each = freeing-FreesEach (length file.output_context.streams);
    order = rw e (ap (λ l. av_free_context ∷ l) (free_streams-onto _ _));
  }
  closing-AreComplete false e = record {
    frees = freeing (length file.output_context.streams);
    each = freeing-FreesEach (length file.output_context.streams);
    order = rw e (ap (λ l. av_free_context ∷ avio_close ∷ l) (free_streams-onto _ _));
  }

  abbrev pub HasEnded : {Head : Type 0} → Session Head → Type 0
  HasEnded s = (s.phase ≡ ended) × AreCalled s

  module _ (whole : IsWhole) {Head : Type 0} where
    close-HasEnded :
        (s : Session Head)
        → s.calls ≡ avformat_write_header ∷ []
        → Yields HasEnded (close_output muxer file s)
    unfolding close_output
    close-HasEnded s e =
        simp (close_output, whole.has_video, whole.has_audio, e)
          (
            refl,
            closing-AreComplete (has_flag file.output_context.format_flags muxer.avfmt_nofile)
                whole.is_open,
          )

    close-AreCalled :
        (s : Session Head)
        → s.calls ≡ avformat_write_header ∷ []
        → Holds AreCalled (close_output muxer file s)
    close-AreCalled s e =
        Yields-Holds AreCalled _
          (Yields-map HasEnded AreCalled _ (close-HasEnded s e) (λ s' h. h.1))

module _ (av : Av) (muxer : Muxer) (f : BufferFlags) (il : Il) (file : OutputFile)
    (api : ListApi Packet) (v a : ℕ) (whole : IsWhole muxer file v a) where
  open api use {Head}

  abbrev Called : Session Head → Type 0
  Called = AreCalled muxer file v a

  writer_step-Called :
      (k : ℕ) (ws : List (Machine → Machine)) (p : Phase) (s : Session Head)
      → s.phase ≡ p
      → CalledAt muxer file v a p s.calls
      → Holds Called (writer_step api av muxer f il file k ws p s)
  unfolding writer_step hand_output write_audio write_video
  writer_step-Called k ws waits_running s e c = grind (arith, e, c)
  writer_step-Called k ws tests s e c = grind (arith, close-AreCalled muxer file v a whole s c)
  writer_step-Called k ws hands_output s e c = grind (arith, c)
  writer_step-Called k ws writes_audio s e c = grind (arith, c)
  writer_step-Called k ws writes_video s e c = grind (arith, c)
  writer_step-Called k ws ended s e c = rw e c

  take_turn-Called :
      (k : ℕ) (t : Turn api av muxer f il file) (s : Session Head)
      → Called s
      → Holds Called (take_turn api av muxer f il file k t s)
  unfolding take_turn
  take_turn-Called k (writer_turn ws) s c = writer_step-Called k ws s.phase s refl c
  take_turn-Called k (encoder_turn fresh block buf) s c =
      Holds-next (λ r. Unit {0}) Called
        (omx_encoder_fill_buffer_done api k video_encode fresh block buf
          s.writer.encoded_video_queue s.machine)
        _ (Holds-unit _) (λ r u. c)
  take_turn-Called k (audio_turn p) s c = c
  take_turn-Called k finish_turn s c = c
  take_turn-Called k (machine_turn change) s c = c

  run-Called :
      (k : ℕ) (ts : List (Turn api av muxer f il file)) (s : Session Head)
      → Called s
      → Holds Called (run_writer api av muxer f il file k ts s)
  unfolding run_writer
  run-Called k [] s c = c
  run-Called k (t ∷ ts) s c =
      Holds-next Called Called (take_turn api av muxer f il file k t s) _ (take_turn-Called k t s c)
        (λ s1 c1. run-Called k ts s1 c1)

  -- A thread that is due to end does so with its next step.
  abbrev pub EndsNext : ℕ → Session Head → Type 0
  EndsNext k s =
      IsDue s
      → (ws : List (Machine → Machine))
      → Yields (HasEnded muxer file v a) (take_turn api av muxer f il file k (writer_turn ws) s)

  test-HasEnded :
      (k : ℕ) (ws : List (Machine → Machine)) (p : Phase) (s : Session Head)
      → p ≡ tests
      → IsDue s
      → CalledAt muxer file v a p s.calls
      → Yields (HasEnded muxer file v a) (writer_step api av muxer f il file k ws p s)
  unfolding writer_step
  test-HasEnded k ws tests s e due c =
      grind (arith, due.eos, due.finished, close-HasEnded muxer file v a whole s c)
  test-HasEnded k ws waits_running s e due c = absurd (cc)
  test-HasEnded k ws hands_output s e due c = absurd (cc)
  test-HasEnded k ws writes_audio s e due c = absurd (cc)
  test-HasEnded k ws writes_video s e due c = absurd (cc)
  test-HasEnded k ws ended s e due c = absurd (cc)

  Called-EndsNext : (k : ℕ) (s : Session Head) → Called s → EndsNext k s
  unfolding take_turn
  Called-EndsNext k s c due ws = test-HasEnded k ws s.phase s due.at due c

  -- For an output file with both streams, which is open unless its format needs no file, and a thread
  -- that has called the header alone: after any run that does not fail, in any order, the calls on
  -- the file other than frames are the header alone until the thread has ended, and then also the
  -- trailer, the closing of both codecs, then for each output stream in turn the freeing of its codec
  -- context and of the stream, once each, the closing of the file just if it was opened, and the
  -- freeing of the context, in this order. If the run leaves the thread about to test its loop, with
  -- the encoder's last buffer delivered and the input finished, its next step does not fail, ends it,
  -- and makes all of these calls.
  pub run_writer-AreCalled :
      (k : ℕ) (ts : List (Turn api av muxer f il file)) (s : Session Head)
      → AreCalled muxer file v a s
      → Holds
          (λ s'. AreCalled muxer file v a s' × EndsNext k s')
          (run_writer api av muxer f il file k ts s)
  run_writer-AreCalled k ts s c =
      Holds-map Called _ (run_writer api av muxer f il file k ts s) (run-Called k ts s c)
        (λ s' c'. (c', Called-EndsNext k s' c'))
