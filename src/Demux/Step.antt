-- ===== src/Demux/Step.antt =====
-- One step of `extract_streams`: no packet is lost or reordered, and each frame is freed once.
use omxtranscode.Base.{
  same_ℤ, not, ◌&&◌, ◌==◌, negsuc, ℕ, suc, ◌+◌, ◌≡◌, ◌∙◌, refl, ap, sym, Bool, true, false, List,
  [], ◌∷◌, ◌++◌, arith, length, append_assoc, append-nil, if◌then◌else◌,
}
use omxtranscode.ListApi.{ListApi}
use omxtranscode.PacketQueue.{Packet, contents}
use omxtranscode.PacketQueue.Order.{add_item-contents}
use omxtranscode.Demux.{
  input_video_packet, input_audio_packet, Frame, Source, Waiting, nothing, to_video, to_audio,
  route, Demux, after_read, read_frame, queue_packet, extract_streams_step,
}

abbrev pub video_part : Waiting → List Packet
video_part (to_video p) = p ∷ []
video_part _ = []

abbrev pub audio_part : Waiting → List Packet
audio_part (to_audio p) = p ∷ []
audio_part _ = []

abbrev pub frames_due : Waiting → ℕ
frames_due nothing = 0
frames_due _ = 1

-- What the frames of a file become in each queue.
module _ (c : Source) where
  abbrev pub has_stamp : Frame → Bool
  has_stamp frame = not (same_ℤ frame.pts c.av.av_nopts_value)

  abbrev pub is_video : Frame → Bool
  is_video frame = frame.stream_index == c.video_stream.index

  abbrev pub is_audio : Frame → Bool
  is_audio frame = not (is_video frame) && (frame.stream_index == c.audio_stream.index)

  -- A video packet has the frame's bytes and flags, its time stamp in the OpenMAX time base, and a
  -- `DTS` of -1; `duration` is as `malloc` left it.
  abbrev pub video_of : List (Frame × Packet) → List Packet
  video_of [] = []
  video_of ((frame, fresh) ∷ frames) =
      let later = video_of frames in
      if is_video frame && has_stamp frame
      then record {
        block = fresh.block;
        payload = fresh.payload;
        bytes = frame.bytes;
        data_length = length frame.bytes;
        pts = c.av.av_rescale_q frame.pts c.video_stream.time_base c.omx_timebase;
        dts = negsuc 0;
        duration = fresh.duration;
        flags = frame.flags;
      }
        ∷ later
      else later

  -- An audio packet has the frame's bytes and times; `flags` is as `malloc` left it.
  abbrev pub audio_of : List (Frame × Packet) → List Packet
  audio_of [] = []
  audio_of ((frame, fresh) ∷ frames) =
      let later = audio_of frames in
      if is_audio frame && has_stamp frame
      then record {
        block = fresh.block;
        payload = fresh.payload;
        bytes = frame.bytes;
        data_length = length frame.bytes;
        pts = frame.pts;
        dts = frame.dts;
        duration = frame.duration;
        flags = fresh.flags;
      }
        ∷ later
      else later

  route-video_of :
      (frame : Frame) (fresh : Packet) (frames : List (Frame × Packet))
      → video_part (route c frame fresh) ++ video_of frames ≡ video_of ((frame, fresh) ∷ frames)
  unfolding route input_video_packet
  route-video_of frame fresh frames = ground arith

  route-audio_of :
      (frame : Frame) (fresh : Packet) (frames : List (Frame × Packet))
      → audio_part (route c frame fresh) ++ audio_of frames ≡ audio_of ((frame, fresh) ∷ frames)
  unfolding route input_audio_packet
  route-audio_of frame fresh frames = ground arith

module _ (api : ListApi Packet) (c : Source) where
  open api use {Head}

  -- What the thread still has to hand on, queued packets first.
  abbrev pub video_due : Demux Head → List Packet
  video_due d = contents api d.input_video_queue ++ (video_part d.waiting ++ video_of c d.frames)

  abbrev pub audio_due : Demux Head → List Packet
  audio_due d =
      contents api d.processed_audio_queue ++ (audio_part d.waiting ++ audio_of c d.frames)

  -- What one step of the thread keeps: the packets of each queue, and the frames freed or not.
  pub record Kept (d d' : Demux Head) : Type 0 where
    pub video : video_due d' ≡ video_due d
    pub audio : audio_due d' ≡ audio_due d
    pub freed :
        d'.av_freed + (frames_due d'.waiting + length d'.frames)
        ≡ d.av_freed + (frames_due d.waiting + length d.frames)

  -- What is due with the frame that was read as `w'`, and before it was read.
  record Read (w w' : Waiting) (l frames : List (Frame × Packet)) : Type 0 where
    video : video_part w' ++ video_of c frames ≡ video_part w ++ video_of c l
    audio : audio_part w' ++ audio_of c frames ≡ audio_part w ++ audio_of c l
    count : frames_due w + length l ≡ suc (length frames)
    no_video : video_part w ≡ []
    no_audio : audio_part w ≡ []
    none_due : frames_due w ≡ 0

  due-Read :
      (w w' : Waiting) (l : List (Frame × Packet)) (frame : Frame) (fresh : Packet)
      (frames : List (Frame × Packet))
      → w ≡ nothing
      → l ≡ (frame, fresh) ∷ frames
      → route c frame fresh ≡ w'
      → Read w w' l frames
  due-Read w w' l frame fresh frames e1 e2 r =
      rw (e1, e2)
        (record {
          video =
              ap (λ x. video_part x ++ video_of c frames) (sym r)
              ∙ route-video_of c frame fresh frames;
          audio =
              ap (λ x. audio_part x ++ audio_of c frames) (sym r)
              ∙ route-audio_of c frame fresh frames;
          count = omega arith;
          no_video = refl;
          no_audio = refl;
          none_due = refl;
        })

  Kept-Read :
      (d : Demux Head) (frames : List (Frame × Packet)) (w : Waiting)
      → Read d.waiting w d.frames frames
      → Kept d (after_read api c w (record d { frames = frames }))
  unfolding after_read
  Kept-Read d frames nothing r = record {
    video =
        ap (λ x. contents api d.input_video_queue ++ x)
          (ap (λ x. x ++ video_of c frames) r.no_video ∙ r.video);
    audio =
        ap (λ x. contents api d.processed_audio_queue ++ x)
          (ap (λ x. x ++ audio_of c frames) r.no_audio ∙ r.audio);
    freed = omega (arith, r.count, r.none_due);
  }
  Kept-Read d frames (to_video p) r = record {
    video = ap (λ x. contents api d.input_video_queue ++ x) r.video;
    audio = ap (λ x. contents api d.processed_audio_queue ++ x) r.audio;
    freed = omega (arith, r.count);
  }
  Kept-Read d frames (to_audio p) r = record {
    video = ap (λ x. contents api d.input_video_queue ++ x) r.video;
    audio = ap (λ x. contents api d.processed_audio_queue ++ x) r.audio;
    freed = omega (arith, r.count);
  }

  Kept-read_frame :
      (d : Demux Head) (l : List (Frame × Packet))
      → d.waiting ≡ nothing
      → d.frames ≡ l
      → Kept d (read_frame api c l d)
  unfolding read_frame
  Kept-read_frame d [] e1 e2 = record { video = refl; audio = refl; freed = refl }
  Kept-read_frame d ((frame, fresh) ∷ frames) e1 e2 =
      Kept-Read d frames (route c frame fresh)
        (due-Read d.waiting _ d.frames frame fresh frames e1 e2 refl)

  Kept-if : (d d' : Demux Head) (full : Bool) → Kept d d' → Kept d (if full then d else d')
  Kept-if d d' true k = record { video = refl; audio = refl; freed = refl }
  Kept-if d d' false k = k

  -- One packet waits less.
  Kept-added :
      (d : Demux Head) (w : Waiting)
      → d.waiting ≡ w
      → (d' : Demux Head) → d'.waiting ≡ nothing
      → d'.frames ≡ d.frames
      → contents api d'.input_video_queue ≡ contents api d.input_video_queue ++ video_part w
      → contents api d'.processed_audio_queue ≡ contents api d.processed_audio_queue ++ audio_part w
      → d'.av_freed ≡ d.av_freed + frames_due w
      → Kept d d'
  Kept-added d w e d' waits frames video audio freed = record {
    video =
        rw (waits, frames, video, e)
          (append_assoc (contents api d.input_video_queue) (video_part w) (video_of c d.frames));
    audio =
        rw (waits, frames, audio, e)
          (append_assoc (contents api d.processed_audio_queue) (audio_part w)
            (audio_of c d.frames));
    freed = rw (waits, frames, freed, e) (omega arith);
  }

  Kept-queue_packet :
      (d : Demux Head) (w : Waiting) → d.waiting ≡ w → Kept d (queue_packet api c w d)
  unfolding queue_packet
  Kept-queue_packet d nothing e = Kept-read_frame d d.frames e refl
  Kept-queue_packet d (to_video p) e = Kept-if d _ _ (
      Kept-added d (to_video p) e _ refl refl (add_item-contents api d.input_video_queue p)
        (sym (append-nil (contents api d.processed_audio_queue))) (omega arith))
  Kept-queue_packet d (to_audio p) e = Kept-if d _ _ (
      Kept-added d (to_audio p) e _ refl refl (sym (append-nil (contents api d.input_video_queue)))
        (add_item-contents api d.processed_audio_queue p) (omega arith))

  pub step-Kept : (d : Demux Head) → Kept d (extract_streams_step api c d)
  unfolding extract_streams_step
  step-Kept d = Kept-if d _ d.ended (Kept-queue_packet d d.waiting refl)
