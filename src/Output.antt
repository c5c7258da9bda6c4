-- ===== src/Output.antt =====
-- mux.c: the context of the output file. FFmpeg's part is the parameter `Muxer`; a pointer to an
-- output stream is its place in the list of streams.
pub mod Described
pub mod Streams
pub mod Thread
pub mod Kept
pub mod Sound
pub mod Frees
pub mod Closing
pub mod Ending
pub mod Start
mod Tests
use omxtranscode.Base.{
  ℕ, Bool, true, false, ◌&&◌, not, Option, none, some, List, [], ◌∷◌, ◌++◌, ◌==◌, if◌then◌else◌,
  length, map, ltb_ℤ, ℤ, pos, bit_or, has_flag, Outcome, ok, exits, fault, and_then,
}
use omxtranscode.Mux.{Rational, CodecContext}
use omxtranscode.Demux.{MediaType, media_video, media_audio, media_other}
use omxtranscode.Encode.{encoded_bitrate}
use Prim.Native.String.{String}

-- What the program sets or copies of an `AVCodecContext`.
pub record CodecSettings : Type 0 where
  pub codec_type : MediaType
  pub codec_id : ℕ
  pub codec_tag : ℕ
  pub width : ℕ
  pub height : ℕ
  pub bit_rate : ℕ
  pub sample_rate : ℕ
  pub flags : ℕ
  pub time_base : Rational
  pub extra : CodecContext

-- `AVDictionary`
abbrev pub Metadata : Type 0
Metadata = List (String × String)

-- `AVStream` with its codec context.
pub record AvStream : Type 0 where
  pub index : ℕ
  pub codec : CodecSettings
  pub time_base : Rational
  pub avg_frame_rate : Rational
  pub r_frame_rate : Rational
  pub start_time : ℤ
  pub metadata : Metadata

-- `ctx->input_context`
pub record InputContext : Type 0 where
  pub start_time : ℤ
  pub streams : List AvStream

-- The calls of FFmpeg and its constants. A format is its `flags`; `avformat_new_stream` is given how
-- many streams there are, and `avformat_write_header` is the time base that it sets in a stream.
pub record Muxer : Type 0 where
  pub av_guess_format : String → Option ℕ
  pub avformat_alloc_context : Bool
  pub avcodec_find_encoder : ℕ → Option ℕ
  pub avformat_new_stream : ℕ → Option ℕ → Option AvStream
  pub avcodec_copy_context : CodecSettings → CodecSettings → CodecSettings
  pub av_dict_copy : Metadata → Metadata → Metadata
  pub avio_open : String → ℤ
  pub avformat_write_header : AvStream → Rational
  pub codec_id_h264 : ℕ
  pub nopts_value : ℤ
  pub avfmt_nofile : ℕ
  pub avfmt_globalheader : ℕ
  pub codec_flag_global_header : ℕ

-- What the program sets of an `AVFormatContext`.
pub record OutputContext : Type 0 where
  pub format_flags : ℕ
  pub filename : String
  pub debug : ℕ
  pub start_time_realtime : ℤ
  pub start_time : ℤ
  pub duration : ℕ
  pub bit_rate : ℕ
  pub streams : List AvStream
  pub opened : Bool

-- The first loop: the streams made so far, and the two out-parameters.
pub record Copying : Type 0 where
  pub streams : List AvStream
  pub video_stream : Option ℕ
  pub audio_stream : Option ℕ
  pub audio_copied : Bool

abbrev pub is_audio_type : MediaType → Bool
is_audio_type media_audio = true
is_audio_type _ = false

module _ (av : Muxer) where
  -- A `NULL` for a stream is dereferenced at once.
  new_stream : (codec_id : ℕ) → List AvStream → Outcome AvStream
  new_stream codec_id streams =
      elim (av.avformat_new_stream (length streams) (av.avcodec_find_encoder codec_id)) [
        | none ↦ fault
        | some s ↦ ok s
      ]

  unfoldable pub video_output : (input output : AvStream) → AvStream
  video_output input output = record output {
    codec = record output.codec {
      width = input.codec.width;
      height = input.codec.height;
      codec_id = av.codec_id_h264;
      codec_type = media_video;
      bit_rate = encoded_bitrate;
      time_base = input.codec.time_base;
    };
    avg_frame_rate = input.avg_frame_rate;
    r_frame_rate = input.r_frame_rate;
    start_time = av.nopts_value;
  }

  unfoldable pub audio_output : (input output : AvStream) → AvStream
  audio_output input output = record output {
    codec = record (av.avcodec_copy_context output.codec input.codec) { codec_tag = 0 };
    metadata = av.av_dict_copy output.metadata input.metadata;
  }

  unfoldable pub copy_stream : (video_stream_index : ℕ) → AvStream → Copying → Outcome Copying
  unfolding new_stream
  copy_stream video_stream_index input s =
      if input.index == video_stream_index
      then and_then (new_stream av.codec_id_h264 s.streams) (λ output. ok (record s {
        streams = s.streams ++ video_output input output ∷ [];
        video_stream = some (length s.streams);
      }))
      else if is_audio_type input.codec.codec_type && not s.audio_copied
      then and_then (new_stream input.codec.codec_id s.streams) (λ output. ok (record s {
        streams = s.streams ++ audio_output input output ∷ [];
        audio_stream = some (length s.streams);
        audio_copied = true;
      }))
      else ok s

  unfoldable pub copy_streams : (video_stream_index : ℕ) → List AvStream → Copying → Outcome Copying
  copy_streams video_stream_index [] s = ok s
  copy_streams video_stream_index (input ∷ inputs) s =
      and_then (copy_stream video_stream_index input s)
        λ s'. copy_streams video_stream_index inputs s'

  -- The body of the second loop.
  unfoldable pub complete_stream : (format_flags : ℕ) → AvStream → AvStream
  complete_stream format_flags s = record s {
    codec = record s.codec {
      flags =
          if has_flag format_flags av.avfmt_globalheader
          then bit_or s.codec.flags av.codec_flag_global_header
          else s.codec.flags;
      sample_rate = if s.codec.sample_rate == 0 then 48000 else s.codec.sample_rate;
    };
  }

  unfoldable pub open_output : (output_filename : String) → OutputContext → Outcome OutputContext
  open_output output_filename oc =
      if has_flag oc.format_flags av.avfmt_nofile
      then ok oc
      else if ltb_ℤ (av.avio_open output_filename) (pos 0)
      then exits 1
      else ok (record oc { opened = true })

  -- The fields that are set before the loops, and the streams behind them.
  new_context : (format_flags : ℕ) → InputContext → String → List AvStream → OutputContext
  new_context format_flags input output_filename streams = record {
    format_flags = format_flags;
    filename = output_filename;
    debug = 1;
    start_time_realtime = input.start_time;
    start_time = input.start_time;
    duration = 0;
    bit_rate = 0;
    streams = map (complete_stream format_flags) streams;
    opened = false;
  }

  -- The context, and the places of the video and the audio stream.
  unfoldable pub init_output_context :
      InputContext
      → (video_stream_index : ℕ) (output_filename : String)
      → Outcome (OutputContext × Option ℕ × Option ℕ)
  unfolding new_context
  init_output_context input video_stream_index output_filename =
      elim (av.av_guess_format "mpegts") [
        | none ↦ exits 199
        | some format_flags ↦
            if not av.avformat_alloc_context
            then exits 200
            else (let start : Copying = record {
              streams = [];
              video_stream = none;
              audio_stream = none;
              audio_copied = false;
            } in
                and_then (copy_streams video_stream_index input.streams start) λ s.
                  and_then
                    (open_output output_filename
                      (new_context format_flags input output_filename s.streams))
                    λ oc. ok (oc, s.video_stream, s.audio_stream))
      ]
