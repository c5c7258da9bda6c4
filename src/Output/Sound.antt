-- ===== src/Output/Sound.antt =====
-- What the writer thread holds of an incomplete NAL unit and of the parameter sets, over any run.
use omxtranscode.Base.{
  ℕ, Holds, Holds-next, Holds-unit, List, [], ◌∷◌, ◌≡◌, refl, Option, none, some, arith, ◌&&◌, not,
  Bool-cases, inl, inr,
}
use omxtranscode.External.{BufferFlags}
use omxtranscode.ListApi.{ListApi}
use omxtranscode.PacketQueue.{Packet, packet_queue_get_next_item_asynch}
use omxtranscode.Omx.{Machine, Il, video_encode}
use omxtranscode.Buffer.{omx_encoder_fill_buffer_done}
use omxtranscode.Mux.{Av, write_audio_frame, write_video_frame, is_some}
use omxtranscode.Mux.Sound.{IsSound, write_video_frame-IsSound}
use omxtranscode.Output.{Muxer}
use omxtranscode.Output.Thread.{
  Phase, waits_running, tests, hands_output, writes_audio, writes_video, ended, OutputFile, Session,
  ends_nal, close_output, write_audio, write_video, hand_output, writer_step, Turn, writer_turn,
  encoder_turn, audio_turn, finish_turn, machine_turn, take_turn, run_writer,
}

module _ (av : Av) (muxer : Muxer) (f : BufferFlags) (il : Il) (file : OutputFile)
    (api : ListApi Packet) where
  open api use {Head}

  abbrev pub Sound : Session Head → Type 0
  Sound s = IsSound s.writer.mux

  audio-Sound : (s : Session Head) → Sound s → Holds Sound (write_audio api av muxer f il file s)
  unfolding write_audio write_audio_frame
  audio-Sound s h = grind arith

  video-Sound : (s : Session Head) → Sound s → Holds Sound (write_video api av muxer f il file s)
  unfolding write_video
  video-Sound s h =
      elim (Bool-cases (
        ends_nal api av muxer f il file
          (packet_queue_get_next_item_asynch api s.writer.encoded_video_queue).0
        && not (is_some file.video_stream))) [
          | inl null ↦ rw (write_video, null) tt
          | inr there ↦
              rw (write_video, there)
                (Holds-next _ Sound (write_video_frame api av f file.streams s.writer) _
                  (write_video_frame-IsSound api av f file.streams s.writer h) (λ w v. v))
        ]

  close-Sound : (s : Session Head) → Sound s → Holds Sound (close_output muxer file s)
  unfolding close_output
  close-Sound s h = go file.video_stream file.audio_stream refl refl
    where
      go :
          (v a : Option ℕ)
          → file.video_stream ≡ v
          → file.audio_stream ≡ a
          → Holds Sound (close_output muxer file s)
      go none a e e' = rw (close_output, e) tt
      go (some v) none e e' = rw (close_output, e, e') tt
      go (some v) (some a) e e' =
          simp (close_output, e, e')
            (record { buffered = h.buffered; inside = h.inside; sps = tt; pps = tt })

  hand-Sound :
      (k : ℕ) (ws : List (Machine → Machine)) (s : Session Head)
      → Sound s
      → Holds Sound (hand_output api av muxer f il file k ws s)
  unfolding hand_output
  hand-Sound k ws s h = grind arith

  writer_step-Sound :
      (k : ℕ) (ws : List (Machine → Machine)) (p : Phase) (s : Session Head)
      → Sound s
      → Holds Sound (writer_step api av muxer f il file k ws p s)
  unfolding writer_step
  writer_step-Sound k ws waits_running s h = grind arith
  writer_step-Sound k ws tests s h = grind (arith, close-Sound s h)
  writer_step-Sound k ws hands_output s h = hand-Sound k ws s h
  writer_step-Sound k ws writes_audio s h = audio-Sound s h
  writer_step-Sound k ws writes_video s h = video-Sound s h
  writer_step-Sound k ws ended s h = h

  take_turn-Sound :
      (k : ℕ) (t : Turn api av muxer f il file) (s : Session Head)
      → Sound s
      → Holds Sound (take_turn api av muxer f il file k t s)
  unfolding take_turn
  take_turn-Sound k (writer_turn ws) s h = writer_step-Sound k ws s.phase s h
  take_turn-Sound k (encoder_turn fresh block buf) s h =
      Holds-next (λ r. Unit {0}) Sound
        (omx_encoder_fill_buffer_done api k video_encode fresh block buf
          s.writer.encoded_video_queue s.machine)
        _ (Holds-unit _) (λ r u. h)
  take_turn-Sound k (audio_turn p) s h = h
  take_turn-Sound k finish_turn s h = h
  take_turn-Sound k (machine_turn change) s h = h

  -- If what the writer holds is sound at the start, it is so after every run that does not fail,
  -- in whatever order the writer's steps, the encoder's callbacks and the other threads come: the
  -- bytes collected of a NAL unit are `buf_offset` many and fit in one megabyte (a run that copies
  -- more, which the code does not prevent, fails here), and the sizes of the parameter sets that are
  -- held are those of their bytes.
  pub run_writer-IsSound :
      (k : ℕ) (ts : List (Turn api av muxer f il file)) (s : Session Head)
      → IsSound s.writer.mux
      → Holds (λ s'. IsSound s'.writer.mux) (run_writer api av muxer f il file k ts s)
  unfolding run_writer
  run_writer-IsSound k [] s h = h
  run_writer-IsSound k (t ∷ ts) s h =
      Holds-next Sound Sound (take_turn api av muxer f il file k t s) _ (take_turn-Sound k t s h)
        (λ s1 h1. run_writer-IsSound k ts s1 h1)
