-- ===== src/Mux/Audio.antt =====
-- The audio frames that `write_audio_frame` hands to the output file.
use omxtranscode.Base.{
  ℕ, zero, suc, ◌≡◌, refl, some, List, [], ◌∷◌, arith, take, drop, take-all, drop-all,
}
use omxtranscode.ListApi.{ListApi}
use omxtranscode.PacketQueue.{Ptr, Packet, unlink_first, contents}
use omxtranscode.PacketQueue.Order.{asynch-nil, asynch-cons, unlink_first-cons}
use omxtranscode.Mux.Frames.{free_struct}
use omxtranscode.Mux.{
  Av, Streams, AvPacket, Writer, avpacket_destruct, blank_packet, write_audio_frame,
}

-- The frame for an audio packet: its bytes, and its times in the time base of the output stream.
abbrev pub audio_frame : Av → Streams → Packet → AvPacket
audio_frame av st p =
    let start = av.av_init_packet blank_packet in
    record {
      payload = some p.bytes;
      size = p.data_length;
      stream_index = st.audio_index;
      flags = start.flags;
      pts = av.av_rescale_q p.pts st.input_audio_time_base st.audio_time_base;
      dts = av.av_rescale_q p.dts st.input_audio_time_base st.audio_time_base;
      duration = p.duration;
      destruct = avpacket_destruct;
    }

-- The frames for packets, and the addresses of their structs, on top of what was logged before.
abbrev pub with_audio : Av → Streams → List Packet → List AvPacket → List AvPacket
with_audio av st [] log = log
with_audio av st (p ∷ ps) log = with_audio av st ps (audio_frame av st p ∷ log)

abbrev pub with_structs : List Packet → List Ptr → List Ptr
with_structs [] log = log
with_structs (p ∷ ps) log = with_structs ps (p.block ∷ log)

module _ (api : ListApi Packet) (av : Av) (st : Streams) where
  open api use {Head}

  pub write_audio_frames : ℕ → Writer Head → Writer Head
  write_audio_frames zero w = w
  write_audio_frames (suc n) w = write_audio_frames n (write_audio_frame api av st w)

  -- `w'` is `w` with `ps` written, and `rest` still queued.
  pub record AudioWritten (w : Writer Head) (ps rest : List Packet) (w' : Writer Head)
      : Type 0 where
    pub frames : w'.written ≡ with_audio av st ps w.written
    pub released : w'.freed ≡ with_structs ps w.freed
    pub remaining : contents api w'.processed_audio_queue ≡ rest
    pub same_mux : w'.mux ≡ w.mux
    pub same_video : w'.encoded_video_queue ≡ w.encoded_video_queue

  pub audio-nil :
      (w : Writer Head)
      → contents api w.processed_audio_queue ≡ []
      → write_audio_frame api av st w ≡ w
  unfolding write_audio_frame
  audio-nil w e = rw (
    write_audio_frame,
    asynch-nil api w.processed_audio_queue e,
    asynch-nil api w.processed_audio_queue e,
  )

  pub audio-cons :
      (w : Writer Head) (p : Packet) (ps : List Packet)
      → contents api w.processed_audio_queue ≡ p ∷ ps
      → write_audio_frame api av st w ≡ record w {
        processed_audio_queue = (unlink_first api w.processed_audio_queue).1;
        written = audio_frame av st p ∷ w.written;
        freed = p.block ∷ w.freed;
      }
  unfolding write_audio_frame
  audio-cons w p ps e = rw (
    write_audio_frame,
    asynch-cons api w.processed_audio_queue p ps e,
    asynch-cons api w.processed_audio_queue p ps e,
    free_struct p,
  )

  audio_written :
      (n : ℕ) (w : Writer Head) (l : List Packet)
      → contents api w.processed_audio_queue ≡ l
      → AudioWritten w (take n l) (drop n l) (write_audio_frames n w)
  unfolding write_audio_frames
  audio_written zero w l e = record {
    frames = refl;
    released = refl;
    remaining = e;
    same_mux = refl;
    same_video = refl;
  }
  audio_written (suc n) w [] e = rw (audio-nil w e) (
      rw (take-all {A = Packet} n [] (omega arith), drop-all {A = Packet} n [] (omega arith)) at
        (audio_written n w [] e))
  audio_written (suc n) w (p ∷ ps) e =
      let w1 = record w {
        processed_audio_queue = (unlink_first api w.processed_audio_queue).1;
        written = audio_frame av st p ∷ w.written;
        freed = p.block ∷ w.freed;
      } in
      let t = audio_written n w1 ps (unlink_first-cons api w.processed_audio_queue p ps e).1 in
      rw (audio-cons w p ps e) (record {
        frames = t.frames;
        released = t.released;
        remaining = t.remaining;
        same_mux = t.same_mux;
        same_video = t.same_video;
      })

  -- `n` calls of `write_audio_frame` write the first `n` packets of the audio queue, or all if there
  -- are fewer, in order, each as one `AVPacket` with the packet's bytes and its times in the time
  -- base of the output stream; they take just these packets from the queue, free each struct
  -- once and none of the bytes, and leave the video queue and the reassembly as they were.
  pub write_audio_frames-AudioWritten :
      (n : ℕ) (w : Writer Head)
      → let l = contents api w.processed_audio_queue in
        AudioWritten w (take n l) (drop n l) (write_audio_frames n w)
  write_audio_frames-AudioWritten n w =
      audio_written n w (contents api w.processed_audio_queue) refl
