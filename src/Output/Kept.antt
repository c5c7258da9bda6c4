-- ===== src/Output/Kept.antt =====
-- The audio of the output file over any run of the writer thread.
use omxtranscode.Base.{
  Holds, Holds-next, Holds-map, Holds-unit, ℕ, ◌≡◌, ◌≢◌, ◌∙◌, refl, sym, ap, true, false, Option,
  none, some, List, [], ◌∷◌, ◌++◌, append-nil, append_assoc, arith, ◌==◌, if◌then◌else◌, Bool-cases,
  inl, inr, ◌&&◌, not,
}
use omxtranscode.External.{BufferFlags}
use omxtranscode.ListApi.{ListApi}
use omxtranscode.PacketQueue.{
  Packet, packet_queue_add_item, packet_queue_get_next_item_asynch, contents,
}
use omxtranscode.PacketQueue.Order.{unlink_first-cons}
use omxtranscode.Omx.{Machine, Il, video_encode}
use omxtranscode.Buffer.{omx_encoder_fill_buffer_done}
use omxtranscode.Mux.{
  Av, AvPacket, Streams, MuxState, CodecContext, Writer, write_audio_frame, write_video_frame,
  mux_packet, video_packet, is_some,
}
use omxtranscode.Mux.Audio.{with_audio, audio_frame, audio-nil, audio-cons}
use omxtranscode.Output.{Muxer}
use omxtranscode.Output.Thread.{
  Phase, waits_running, tests, hands_output, writes_audio, writes_video, ended, OutputFile, Session,
  ends_nal, close_output, write_audio, write_video, hand_output, writer_step, Turn, writer_turn,
  encoder_turn, audio_turn, finish_turn, machine_turn, take_turn, run_writer,
}

-- The frames of the audio stream, last first.
abbrev pub audio_part : Streams → List AvPacket → List AvPacket
audio_part st [] = []
audio_part st (frame ∷ log) =
    if frame.stream_index == st.audio_index then frame ∷ audio_part st log else audio_part st log

-- Video frames do not have the index of the audio stream, nor have the blank packets that are written
-- for a part of a NAL unit, whose index is 0.
pub record AreApart (st : Streams) : Type 0 where
  pub from_video : st.video_index ≢ st.audio_index
  pub from_blank : 0 ≢ st.audio_index

module _ (av : Av) (st : Streams) (api : ListApi Packet) where
  open api use {Head, entries-add_tail}

  record IsVideo (w w' : Writer Head) : Type 0 where
    frames : audio_part st w'.written ≡ audio_part st w.written
    queue : w'.processed_audio_queue ≡ w.processed_audio_queue

  -- `w'` is `w` with `taken` written, while `arrived` has come.
  pub record IsKept (arrived : List Packet) (w w' : Writer Head) : Type 0 where
    pub taken : List Packet
    pub order :
        contents api w.processed_audio_queue ++ arrived
        ≡ taken ++ contents api w'.processed_audio_queue
    pub frames : audio_part st w'.written ≡ with_audio av st taken (audio_part st w.written)

  IsKept-refl : (w w' : Writer Head) → IsVideo w w' → IsKept [] w w'
  IsKept-refl w w' v = record {
    taken = [];
    order = append-nil _ ∙ ap (contents api) (sym v.queue);
    frames = v.frames;
  }

  with_audio-append :
      (xs ys : List Packet) (log : List AvPacket)
      → with_audio av st (xs ++ ys) log ≡ with_audio av st ys (with_audio av st xs log)
  with_audio-append [] ys log = refl
  with_audio-append (x ∷ xs) ys log = with_audio-append xs ys (audio_frame av st x ∷ log)

  IsKept-trans :
      (a b : List Packet) (w w1 w2 : Writer Head)
      → IsKept a w w1
      → IsKept b w1 w2
      → IsKept (a ++ b) w w2
  IsKept-trans a b w w1 w2 h k = record {
    taken = h.taken ++ k.taken;
    order =
        sym (append_assoc _ a b)
        ∙ ap (λ l. l ++ b) h.order
        ∙ append_assoc h.taken _ b
        ∙ ap (λ l. h.taken ++ l) k.order
        ∙ sym (append_assoc h.taken k.taken _);
    frames =
        k.frames
        ∙ ap (with_audio av st k.taken) h.frames
        ∙ sym (with_audio-append h.taken k.taken _);
  }

  write_audio-IsKept :
      (w : Writer Head) (l : List Packet)
      → contents api w.processed_audio_queue ≡ l
      → IsKept [] w (write_audio_frame api av st w)
  write_audio-IsKept w [] e =
      rw (audio-nil api av st w e) (IsKept-refl w w (record { frames = refl; queue = refl }))
  write_audio-IsKept w (p ∷ ps) e = record {
    taken = p ∷ [];
    order =
        append-nil _
        ∙ e
        ∙ rw (audio-cons api av st w p ps e)
            (ap (λ l. p ∷ l) (sym (unlink_first-cons api w.processed_audio_queue p ps e).1));
    frames =
        rw (audio-cons api av st w p ps e)
          (rw (let same : (st.audio_index == st.audio_index) ≡ true = ground arith in same) refl);
  }

  add-IsKept :
      (w : Writer Head) (p : Packet)
      → IsKept (p ∷ []) w (record w {
        processed_audio_queue = (packet_queue_add_item api w.processed_audio_queue (some p)).0;
      })
  unfolding packet_queue_add_item
  add-IsKept w p = record {
    taken = [];
    order = sym (entries-add_tail p w.processed_audio_queue.queue);
    frames = refl;
  }

module _ (av : Av) (f : BufferFlags) (st : Streams) (apart : AreApart st) where
  mux_packet-Other :
      (p : Packet) (s : MuxState) (c : List CodecContext)
      → Holds (λ r. (r.0.stream_index == st.audio_index) ≡ false) (mux_packet av f st p s c)
  unfolding mux_packet video_packet
  mux_packet-Other p s c =
      let other : (st.video_index == st.audio_index) ≡ false = ground (arith, apart.from_video) in
      let blank : (0 == st.audio_index) ≡ false = ground (arith, apart.from_blank) in
      grind (arith, other, blank)

  module _ (api : ListApi Packet) where
    open api use {Head}

    write_video_frame-IsVideo :
        (w : Writer Head) → Holds (IsVideo av st api w) (write_video_frame api av f st w)
    unfolding write_video_frame
    write_video_frame-IsVideo w = grind (arith, mux_packet-Other)

module _ (av : Av) (muxer : Muxer) (f : BufferFlags) (il : Il) (file : OutputFile)
    (api : ListApi Packet) where
  open api use {Head}

  -- The audio packets that a run brings.
  abbrev pub arrivals : List (Turn api av muxer f il file) → List Packet
  arrivals [] = []
  arrivals (audio_turn p ∷ ts) = p ∷ arrivals ts
  arrivals (t ∷ ts) = arrivals ts

  abbrev pub Keeps : List Packet → Session Head → Session Head → Type 0
  Keeps arrived s s' = IsKept av file.streams api arrived s.writer s'.writer

  module _ (apart : AreApart file.streams) where
    none_taken :
        (s s' : Session Head) → IsVideo av file.streams api s.writer s'.writer → Keeps [] s s'
    none_taken s s' v = IsKept-refl av file.streams api s.writer s'.writer v

    same_frames :
        (s s' : Session Head)
        → s'.writer.written ≡ s.writer.written
        → s'.writer.processed_audio_queue ≡ s.writer.processed_audio_queue
        → Keeps [] s s'
    same_frames s s' e q =
        none_taken s s' (record { frames = ap (audio_part file.streams) e; queue = q })

    audio-Keeps : (s : Session Head) → Holds (Keeps [] s) (write_audio api av muxer f il file s)
    unfolding write_audio
    audio-Keeps s = grind (arith, write_audio-IsKept av file.streams api s.writer _ refl)

    video-Keeps : (s : Session Head) → Holds (Keeps [] s) (write_video api av muxer f il file s)
    unfolding write_video
    video-Keeps s =
        elim (Bool-cases (
          ends_nal api av muxer f il file
            (packet_queue_get_next_item_asynch api s.writer.encoded_video_queue).0
          && not (is_some file.video_stream))) [
            | inl null ↦ rw (write_video, null) tt
            | inr there ↦
                rw (write_video, there)
                  (Holds-next _ (Keeps [] s) (write_video_frame api av f file.streams s.writer) _
                    (write_video_frame-IsVideo av f file.streams apart api s.writer)
                    (λ w v. none_taken s (record s { phase = tests; writer = w }) v))
          ]

    close-Keeps : (s : Session Head) → Holds (Keeps [] s) (close_output muxer file s)
    unfolding close_output
    close-Keeps s = go file.video_stream file.audio_stream refl refl
      where
        go :
            (v a : Option ℕ)
            → file.video_stream ≡ v
            → file.audio_stream ≡ a
            → Holds (Keeps [] s) (close_output muxer file s)
        go none a e e' = rw (close_output, e) tt
        go (some v) none e e' = rw (close_output, e, e') tt
        go (some v) (some a) e e' =
            simp (close_output, e, e') (record { taken = []; order = append-nil _; frames = refl })

    hand-Keeps :
        (k : ℕ) (ws : List (Machine → Machine)) (s : Session Head)
        → Holds (Keeps [] s) (hand_output api av muxer f il file k ws s)
    unfolding hand_output
    hand-Keeps k ws s = grind (arith, same_frames)

    writer_step-Keeps :
        (k : ℕ) (ws : List (Machine → Machine)) (p : Phase) (s : Session Head)
        → Holds (Keeps [] s) (writer_step api av muxer f il file k ws p s)
    unfolding writer_step
    writer_step-Keeps k ws waits_running s = grind (arith, same_frames)
    writer_step-Keeps k ws tests s = grind (arith, same_frames, close-Keeps)
    writer_step-Keeps k ws hands_output s = hand-Keeps k ws s
    writer_step-Keeps k ws writes_audio s = audio-Keeps s
    writer_step-Keeps k ws writes_video s = video-Keeps s
    writer_step-Keeps k ws ended s = same_frames s s refl refl

    take_turn-Keeps :
        (k : ℕ) (t : Turn api av muxer f il file) (s : Session Head)
        → Holds (Keeps (arrivals (t ∷ [])) s) (take_turn api av muxer f il file k t s)
    unfolding take_turn
    take_turn-Keeps k (writer_turn ws) s = writer_step-Keeps k ws s.phase s
    take_turn-Keeps k (encoder_turn fresh block buf) s =
        Holds-next (λ r. Unit {0}) (Keeps [] s)
          (omx_encoder_fill_buffer_done api k video_encode fresh block buf
            s.writer.encoded_video_queue s.machine)
          _ (Holds-unit _)
          (λ r u.
            same_frames s
              (record s { machine = r.1; writer = record s.writer { encoded_video_queue = r.0 } })
              refl refl)
    take_turn-Keeps k (audio_turn p) s = add-IsKept av file.streams api s.writer p
    take_turn-Keeps k finish_turn s = record { taken = []; order = append-nil _; frames = refl }
    take_turn-Keeps k (machine_turn change) s =
        same_frames s (record s { machine = change s.machine }) refl refl

    arrivals-cons :
        (t : Turn api av muxer f il file) (ts : List (Turn api av muxer f il file))
        → arrivals (t ∷ ts) ≡ arrivals (t ∷ []) ++ arrivals ts
    arrivals-cons (writer_turn ws) ts = refl
    arrivals-cons (encoder_turn fresh block buf) ts = refl
    arrivals-cons (audio_turn p) ts = refl
    arrivals-cons finish_turn ts = refl
    arrivals-cons (machine_turn change) ts = refl

    -- If the audio stream's index is neither 0 nor that of the video stream: whatever the order of the
    -- writer's steps, the encoder's callbacks and the packets from `demux_thread`, in a run that does not
    -- fail the frames of the audio stream written meanwhile are those of the audio packets that were queued or
    -- arrived, in order, each once; the packets without a frame are still in the queue, in order.
    pub run_writer-Keeps :
        (k : ℕ) (ts : List (Turn api av muxer f il file)) (s : Session Head)
        → Holds (Keeps (arrivals ts) s) (run_writer api av muxer f il file k ts s)
    unfolding run_writer
    run_writer-Keeps k [] s = same_frames s s refl refl
    run_writer-Keeps k (t ∷ ts) s = rw (arrivals-cons t ts) (
        Holds-next _ (Keeps (arrivals (t ∷ []) ++ arrivals ts) s)
          (take_turn api av muxer f il file k t s) _ (take_turn-Keeps k t s)
          (λ s1 first.
            Holds-map (Keeps (arrivals ts) s1) (Keeps (arrivals (t ∷ []) ++ arrivals ts) s)
              (run_writer api av muxer f il file k ts s1) (run_writer-Keeps k ts s1)
              (λ s2 later.
                IsKept-trans av file.streams api (arrivals (t ∷ [])) (arrivals ts) s.writer
                  s1.writer s2.writer first later)))
