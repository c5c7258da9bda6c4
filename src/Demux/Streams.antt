-- ===== src/Demux/Streams.antt =====
-- `init_streams_and_codecs` and the start of `demux_thread`: which streams are read.
use omxtranscode.Base.{
  ◌≡◌, refl, Bool, true, false, ◌&&◌, Option, none, some, List, [], ◌∷◌, if◌then◌else◌, pos, negsuc,
}
use omxtranscode.Mux.{Rational, Av, is_some}
use omxtranscode.PacketQueue.{Packet, PacketQueue}
use omxtranscode.Demux.{
  Frame, DemuxStart, returns, extracts, nothing, MediaType, media_video, media_audio, media_other,
  Stream, Transcoder, find_streams, init_streams_and_codecs, start_demux, demux_thread,
}

abbrev pub same_type : MediaType → MediaType → Bool
same_type media_video media_video = true
same_type media_audio media_audio = true
same_type media_other media_other = true
same_type _ _ = false

-- The last stream of a type, or `before`.
abbrev pub last_of : MediaType → Option Stream → List Stream → Option Stream
last_of t before [] = before
last_of t before (s ∷ streams) =
    last_of t (if same_type s.codec_type t then some s else before) streams

find_streams-last :
    (streams : List Stream) (video audio : Option Stream)
    → find_streams streams video audio
      ≡ (last_of media_video video streams, last_of media_audio audio streams)
unfolding find_streams
find_streams-last [] video audio = refl
find_streams-last (s ∷ streams) video audio = by_type (find_streams-last streams) s.codec_type refl
  where
    by_type :
        ((v a : Option Stream)
          → find_streams streams v a
            ≡ (last_of media_video v streams, last_of media_audio a streams))
        → (t : MediaType) → s.codec_type ≡ t
        → find_streams (s ∷ streams) video audio
          ≡ (last_of media_video video (s ∷ streams), last_of media_audio audio (s ∷ streams))
    by_type rest media_video e = simp (e, rest (some s) audio)
    by_type rest media_audio e = simp (e, rest video (some s))
    by_type rest media_other e = simp (e, rest video audio)

-- `init_streams_and_codecs` finds the last video and the last audio stream, and returns 0 if there
-- are both, -1 otherwise.
pub init_streams-last :
    (streams : List Stream)
    → let video = last_of media_video none streams in
      let audio = last_of media_audio none streams in
      init_streams_and_codecs streams
      ≡ (if is_some video && is_some audio then pos 0 else negsuc 0, video, audio)
unfolding init_streams_and_codecs
init_streams-last streams = rw (find_streams-last streams none none)

module _ {Head : Type 0} (av : Av) (base : Rational) (frames : List (Frame × Packet))
    (t : Transcoder) (video_queue audio_queue : PacketQueue Head) where
  -- What becomes of the thread and the context.
  abbrev pub started : Option Stream → Option Stream → DemuxStart Head
  started (some v) (some a) =
      extracts (record { av = av; omx_timebase = base; video_stream = v; audio_stream = a })
        (record { audio_codec = a.codec; video_stream_index = v.index })
        (record {
          frames = frames;
          waiting = nothing;
          input_video_queue = video_queue;
          processed_audio_queue = audio_queue;
          av_freed = 0;
          ended = false;
        })
  started _ _ = returns t video_queue audio_queue

  start :
      (video audio : Option Stream)
      → start_demux av base frames t video_queue audio_queue
          (if is_some video && is_some audio then pos 0 else negsuc 0)
          video
          audio
        ≡ started video audio
  unfolding start_demux
  start (some v) (some a) = refl
  start none a = refl
  start (some v) none = refl

  -- `demux_thread` goes on to `extract_streams`, from the whole file and the queues as they are, with
  -- the last video and the last audio stream, and hands the audio parameters and the index of the video
  -- stream on to the writer; if either stream is missing, it returns at once and leaves both queues, with
  -- their marks, as they are.
  pub demux_thread-started :
      (streams : List Stream)
      → demux_thread av base frames t video_queue audio_queue streams
        ≡ started (last_of media_video none streams) (last_of media_audio none streams)
  unfolding demux_thread
  demux_thread-started streams =
      rw (init_streams-last streams)
        (start (last_of media_video none streams) (last_of media_audio none streams))
