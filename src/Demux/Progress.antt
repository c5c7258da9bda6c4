-- ===== src/Demux/Progress.antt =====
-- The end of `extract_streams`: it comes while both consumers take their turns, and then every packet
-- has reached its queue.
use omxtranscode.Base.{
  ◌≡◌, ◌∙◌, refl, ap, sym, Bool, true, false, List, [], ◌∷◌, ◌++◌, arith, length, append-nil,
  if◌then◌else◌,
}
use omxtranscode.ListApi.{ListApi}
use omxtranscode.PacketQueue.{
  Packet, PacketQueue, packet_queue_get_next_item_asynch, unlink_first, contents,
}
use omxtranscode.Demux.{
  Frame, Source, Waiting, nothing, to_video, to_audio, route, Demux, after_read, read_frame,
  queue_packet, extract_streams_step,
}
use omxtranscode.Demux.Step.{video_of, audio_of}
use omxtranscode.Demux.Flow.{
  Turn, demux_turn, video_turn, audio_turn, System, turn, play, all_video, all_audio, play-all,
  play-frames,
}

module _ (api : ListApi Packet) (c : Source) where
  open api use {Head}

  -- Nothing is left to do, and both queues are marked.
  pub record IsDone (d : Demux Head) : Type 0 where
    pub waits : d.waiting ≡ nothing
    pub frames : d.frames ≡ []
    pub video_finished : d.input_video_queue.queue_finished ≡ 1
    pub audio_finished : d.processed_audio_queue.queue_finished ≡ 1

  -- The end comes only then.
  pub record Ends (d : Demux Head) : Type 0 where
    pub done : d.ended ≡ true → IsDone d

  still : (d : Demux Head) → d.ended ≡ false → Ends d
  still d running = record { done = λ h. cc }

  after_read-Ends : (w : Waiting) (d : Demux Head) → d.ended ≡ false → Ends (after_read api c w d)
  unfolding after_read
  after_read-Ends nothing d e = still _ e
  after_read-Ends (to_video p) d e = still _ e
  after_read-Ends (to_audio p) d e = still _ e

  read_frame-Ends :
      (l : List (Frame × Packet)) (d : Demux Head)
      → d.waiting ≡ nothing
      → d.frames ≡ l
      → d.ended ≡ false
      → Ends (read_frame api c l d)
  unfolding read_frame
  read_frame-Ends [] d w e running = record {
    done = λ h. record { waits = w; frames = e; video_finished = refl; audio_finished = refl };
  }
  read_frame-Ends ((frame, fresh) ∷ frames) d w e running =
      after_read-Ends (route c frame fresh) (record d { frames = frames }) running

  Ends-if : (d d' : Demux Head) (b : Bool) → Ends d → Ends d' → Ends (if b then d else d')
  Ends-if d d' true h h' = h
  Ends-if d d' false h h' = h'

  queue_packet-Ends :
      (w : Waiting) (d : Demux Head)
      → d.waiting ≡ w
      → d.ended ≡ false
      → Ends (queue_packet api c w d)
  unfolding queue_packet
  queue_packet-Ends nothing d e running = read_frame-Ends d.frames d e refl running
  queue_packet-Ends (to_video p) d e running =
      still (queue_packet api c (to_video p) d) (ground (arith, running))
  queue_packet-Ends (to_audio p) d e running =
      still (queue_packet api c (to_audio p) d) (ground (arith, running))

  step-Ends : (d : Demux Head) → Ends d → Ends (extract_streams_step api c d)
  unfolding extract_streams_step
  step-Ends d s = by_end d.ended refl
    where
      by_end : (b : Bool) → d.ended ≡ b → Ends (if b then d else queue_packet api c d.waiting d)
      by_end true e = s
      by_end false e = queue_packet-Ends d.waiting d refl e

  taken-finished :
      (q : PacketQueue Head)
      → (packet_queue_get_next_item_asynch api q).1.queue_finished ≡ q.queue_finished
  unfolding packet_queue_get_next_item_asynch unlink_first
  taken-finished q = ground arith

  turn-Ends : (t : Turn) (s : System api c) → Ends s.demux → Ends (turn api c t s).demux
  unfolding turn
  turn-Ends demux_turn s h = step-Ends s.demux h
  turn-Ends video_turn s h = record {
    done = λ e. record {
      waits = (h.done e).waits;
      frames = (h.done e).frames;
      video_finished = taken-finished s.demux.input_video_queue ∙ (h.done e).video_finished;
      audio_finished = (h.done e).audio_finished;
    };
  }
  turn-Ends audio_turn s h = record {
    done = λ e. record {
      waits = (h.done e).waits;
      frames = (h.done e).frames;
      video_finished = (h.done e).video_finished;
      audio_finished = taken-finished s.demux.processed_audio_queue ∙ (h.done e).audio_finished;
    };
  }

  pub play-Ends : (ts : List Turn) (s : System api c) → Ends s.demux → Ends (play api c ts s).demux
  unfolding play
  play-Ends [] s h = h
  play-Ends (t ∷ ts) s h = play-Ends ts (turn api c t s) (turn-Ends t s h)

  -- The thread before its first step, with the file's frames, and nothing queued or taken.
  pub record IsStart (s : System api c) (frames : List (Frame × Packet)) : Type 0 where
    pub to_read : s.demux.frames ≡ frames
    pub idle : s.demux.waiting ≡ nothing
    pub running : s.demux.ended ≡ false
    pub none_freed : s.demux.av_freed ≡ 0
    pub video_empty : contents api s.demux.input_video_queue ≡ []
    pub audio_empty : contents api s.demux.processed_audio_queue ≡ []
    pub no_video : s.taken_video ≡ []
    pub no_audio : s.taken_audio ≡ []

  -- Every packet of the file has been taken or is queued, in the order of the file.
  pub record Delivered (frames : List (Frame × Packet)) (s : System api c) : Type 0 where
    pub video : s.taken_video ++ contents api s.demux.input_video_queue ≡ video_of c frames
    pub audio : s.taken_audio ++ contents api s.demux.processed_audio_queue ≡ audio_of c frames
    pub freed : s.demux.av_freed ≡ length frames
    pub video_finished : s.demux.input_video_queue.queue_finished ≡ 1
    pub audio_finished : s.demux.processed_audio_queue.queue_finished ≡ 1

  end-all :
      (s : System api c)
      → IsDone s.demux
      → (all_video api c s ≡ s.taken_video ++ contents api s.demux.input_video_queue)
        × (all_audio api c s ≡ s.taken_audio ++ contents api s.demux.processed_audio_queue)
  end-all s d =
      rw (d.waits, d.frames)
        (
          ap (λ l. s.taken_video ++ l) (append-nil (contents api s.demux.input_video_queue)),
          ap (λ l. s.taken_audio ++ l) (append-nil (contents api s.demux.processed_audio_queue)),
        )

  start-all :
      (s : System api c) (frames : List (Frame × Packet))
      → IsStart s frames
      → (all_video api c s ≡ video_of c frames) × (all_audio api c s ≡ audio_of c frames)
  start-all s frames st =
      rw (st.no_video, st.no_audio, st.video_empty, st.audio_empty, st.idle, st.to_read)
        (refl, refl)

  -- From a start with nothing queued, taken or waiting, in every order of the steps of the thread
  -- and of the two consumers: once `extract_streams` has ended, both queues are marked finished,
  -- each has received, in the order of the file, exactly the packets for the frames of its stream
  -- that have a time stamp, and each frame that was read has been freed once.
  pub play-Delivered :
      (ts : List Turn) (s : System api c) (frames : List (Frame × Packet))
      → IsStart s frames
      → (play api c ts s).demux.ended ≡ true
      → Delivered frames (play api c ts s)
  play-Delivered ts s frames st e =
      let d = (play-Ends ts s (still s.demux st.running)).done e in
      let all = play-all api c ts s in
      record {
        video = sym (end-all (play api c ts s) d).0 ∙ all.0 ∙ (start-all s frames st).0;
        audio = sym (end-all (play api c ts s) d).1 ∙ all.1 ∙ (start-all s frames st).1;
        freed =
            ground (
              arith,
              d.frames,
              d.waits,
              play-frames api c ts s,
              st.none_freed,
              st.idle,
              st.to_read,
            );
        video_finished = d.video_finished;
        audio_finished = d.audio_finished;
      }
