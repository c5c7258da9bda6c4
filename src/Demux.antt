-- ===== src/Demux.antt =====
-- demux.c: the thread that reads the input file and feeds the video and the audio queue. FFmpeg is
-- a parameter: `frames` is what `av_read_frame` delivers before its first error, each with what
-- `malloc` returns for its packet.
pub mod Streams
pub mod Step
pub mod Flow
pub mod Bounds
pub mod Progress
pub mod Ending
pub mod Sample
mod Tests
use omxtranscode.Base.{
  ℕ, zero, suc, ◌+◌, Bool, true, false, ◌&&◌, Option, none, some, List, [], ◌∷◌, ◌++◌, ◌==◌,
  if◌then◌else◌, length, ℤ, pos, negsuc, ltb_ℤ, same_ℤ,
}
use omxtranscode.ListApi.{ListApi}
use omxtranscode.PacketQueue.{
  Packet, PacketQueue, packet_queue_add_item, packet_queue_get_next_item_asynch,
}
use omxtranscode.Mux.{Rational, Av, is_some}

-- `enum AVMediaType`
pub data MediaType : Type 0 where
  media_video media_audio media_other : MediaType

-- What the program reads of an `AVCodecContext`; also `struct audio_config_t`.
pub record AudioConfig : Type 0 where
  pub codec_id : ℕ
  pub bit_rate : ℕ
  pub channels : ℕ
  pub sample_rate : ℕ
  pub channels_layout : ℕ

-- `AVStream` and the type and the parameters of its codec context.
pub record Stream : Type 0 where
  pub index : ℕ
  pub time_base : Rational
  pub codec_type : MediaType
  pub codec : AudioConfig

-- The `for` loop, on the video and the audio stream found so far.
unfoldable pub find_streams :
    List Stream → Option Stream → Option Stream → Option Stream × Option Stream
find_streams [] video audio = (video, audio)
find_streams (s ∷ streams) video audio = elim s.codec_type [
  | media_video ↦ find_streams streams (some s) audio
  | media_audio ↦ find_streams streams video (some s)
  | media_other ↦ find_streams streams video audio
]

-- The result, and the two streams; a codec context is found with its stream.
unfoldable pub init_streams_and_codecs : List Stream → ℤ × Option Stream × Option Stream
init_streams_and_codecs streams =
    let (video, audio) = find_streams streams none none in
    (if is_some video && is_some audio then pos 0 else negsuc 0, video, audio)

-- An `AVPacket` that has been read; `bytes` are the `size` bytes at `data`.
pub record Frame : Type 0 where
  pub bytes : List ℕ
  pub stream_index : ℕ
  pub flags : ℕ
  pub pts : ℤ
  pub dts : ℤ
  pub duration : ℤ

-- The arguments of `extract_streams` that do not change.
pub record Source : Type 0 where
  pub av : Av
  pub omx_timebase : Rational
  pub video_stream : Stream
  pub audio_stream : Stream

-- What `demux_thread` stores in `struct transcoder_ctx_t`.
pub record Transcoder : Type 0 where
  pub audio_codec : AudioConfig
  pub video_stream_index : ℕ

-- `fresh` is the struct as `malloc` returns it, with the memory for the bytes.
unfoldable pub input_video_packet : Source → Frame → Packet → Packet
input_video_packet c frame fresh = record fresh {
  pts = c.av.av_rescale_q frame.pts c.video_stream.time_base c.omx_timebase;
  dts = negsuc 0;
  data_length = length frame.bytes;
  bytes = frame.bytes;
  flags = frame.flags;
}

unfoldable pub input_audio_packet : Frame → Packet → Packet
input_audio_packet frame fresh = record fresh {
  pts = frame.pts;
  dts = frame.dts;
  duration = frame.duration;
  data_length = length frame.bytes;
  bytes = frame.bytes;
}

-- The packet for which the thread waits until there is room in a queue.
pub data Waiting : Type 0 where
  nothing : Waiting
  to_video to_audio : Packet → Waiting

unfoldable pub route : Source → Frame → Packet → Waiting
route c frame fresh =
    if frame.stream_index == c.video_stream.index
    then if same_ℤ frame.pts c.av.av_nopts_value
      then nothing
      else to_video (input_video_packet c frame fresh)
    else if frame.stream_index == c.audio_stream.index
    then if same_ℤ frame.pts c.av.av_nopts_value
      then nothing
      else to_audio (input_audio_packet frame fresh)
    else nothing

-- The thread in `extract_streams`; `av_freed` counts the calls of `av_free_packet`.
pub record Demux (Head : Type 0) : Type 0 where
  pub frames : List (Frame × Packet)
  pub waiting : Waiting
  pub input_video_queue : PacketQueue Head
  pub processed_audio_queue : PacketQueue Head
  pub av_freed : ℕ
  pub ended : Bool

-- `demux_thread` up to `extract_streams`, with what it leaves in the context: it returns, or it goes on
-- to extract.
pub data DemuxStart (Head : Type 0) : Type 0 where
  returns :
      Transcoder → (input_video_queue processed_audio_queue : PacketQueue Head) → DemuxStart Head
  extracts : Source → Transcoder → Demux Head → DemuxStart Head

module _ {Head : Type 0} (av : Av) (omx_timebase : Rational) (frames : List (Frame × Packet))
    (t : Transcoder) (input_video_queue processed_audio_queue : PacketQueue Head) where
  -- Both streams are there once the result is not negative.
  unfoldable pub start_demux : ℤ → Option Stream → Option Stream → DemuxStart Head
  start_demux result (some video) (some audio) =
      if ltb_ℤ result (pos 0)
      then returns t input_video_queue processed_audio_queue
      else extracts
          (record {
            av = av;
            omx_timebase = omx_timebase;
            video_stream = video;
            audio_stream = audio;
          })
          (record t { audio_codec = audio.codec; video_stream_index = video.index })
          (record {
            frames = frames;
            waiting = nothing;
            input_video_queue = input_video_queue;
            processed_audio_queue = processed_audio_queue;
            av_freed = 0;
            ended = false;
          })
  start_demux result _ _ = returns t input_video_queue processed_audio_queue

  unfoldable pub demux_thread : List Stream → DemuxStart Head
  demux_thread streams =
      let (result, video, audio) = init_streams_and_codecs streams in start_demux result video audio

module _ (api : ListApi Packet) (c : Source) where
  open api use {Head}

  -- A frame without a packet is done with at once.
  unfoldable pub after_read : Waiting → Demux Head → Demux Head
  after_read nothing d = record d { av_freed = suc d.av_freed }
  after_read w d = record d { waiting = w }

  unfoldable pub read_frame : List (Frame × Packet) → Demux Head → Demux Head
  read_frame [] d = record d {
    input_video_queue = record d.input_video_queue { queue_finished = 1 };
    processed_audio_queue = record d.processed_audio_queue { queue_finished = 1 };
    ended = true;
  }
  read_frame ((frame, fresh) ∷ frames) d =
      after_read (route c frame fresh) (record d { frames = frames })

  -- One test of the loop on `queue_count`, and what follows it.
  unfoldable pub queue_packet : Waiting → Demux Head → Demux Head
  queue_packet nothing d = read_frame d.frames d
  queue_packet (to_video p) d =
      if ltb_ℤ (pos 100) d.input_video_queue.queue_count then d else record d {
        waiting = nothing;
        input_video_queue = (packet_queue_add_item api d.input_video_queue (some p)).0;
        av_freed = suc d.av_freed;
      }
  queue_packet (to_audio p) d =
      if ltb_ℤ (pos 100) d.processed_audio_queue.queue_count then d else record d {
        waiting = nothing;
        processed_audio_queue = (packet_queue_add_item api d.processed_audio_queue (some p)).0;
        av_freed = suc d.av_freed;
      }

  -- One step of `extract_streams`.
  unfoldable pub extract_streams_step : Demux Head → Demux Head
  extract_streams_step d = if d.ended then d else queue_packet d.waiting d
