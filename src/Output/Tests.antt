-- ===== src/Output/Tests.antt =====
-- The output file for an input with a video and two audio streams.
use omxtranscode.Base.{
  ◌≡◌, ◌↔◌, has_flag, Holds, Yields, false, ℕ, refl, true, none, some, List, [], ◌∷◌, pos, negsuc,
  arith,
}
use omxtranscode.PacketQueue.{Packet, PacketQueue}
use omxtranscode.PacketQueue.Plain.{plain, packet, queue_of}
use omxtranscode.Omx.Sample.{flags, machine, sample_component, willing}
use omxtranscode.Mux.{Rational, Av}
use omxtranscode.Demux.{MediaType, media_video, media_audio, media_other}
use omxtranscode.Output.{
  CodecSettings, AvStream, InputContext, Muxer, OutputContext, init_output_context,
}
use omxtranscode.Output.Thread.{
  avformat_write_header, writes_audio, writes_video, OutputFile, Session, Turn, writer_turn,
  audio_turn, start_writer, run_writer,
}
use omxtranscode.Output.Kept.{Keeps, run_writer-Keeps}
use omxtranscode.Mux.Sound.{IsSound}
use omxtranscode.Output.Sound.{run_writer-IsSound}
use omxtranscode.Output.Start.{IsStarted, start_writer-IsStarted}
use omxtranscode.Output.Closing.{IsWhole, AreCalled, EndsNext, run_writer-AreCalled}
use omxtranscode.Output.Ending.{is_ended, WasDue, run_writer-WasDue}
use omxtranscode.Output.Streams.{IsOutput, init_output_context-IsOutput}

abbrev unit : Rational
unit = record { num = pos 1; den = pos 1 }

abbrev blank_codec : CodecSettings
blank_codec = record {
  codec_type = media_other;
  codec_id = 0;
  codec_tag = 7;
  width = 0;
  height = 0;
  bit_rate = 0;
  sample_rate = 0;
  flags = 0;
  time_base = unit;
  extra = record { extradata = none; extradata_size = 0 };
}

abbrev stream : ℕ → MediaType → AvStream
stream index kind = record {
  index = index;
  codec = record blank_codec { codec_type = kind; sample_rate = index };
  time_base = unit;
  avg_frame_rate = unit;
  r_frame_rate = unit;
  start_time = pos 0;
  metadata = [];
}

abbrev muxer : Muxer
muxer = record {
  av_guess_format = λ name. some 2;
  avformat_alloc_context = true;
  avcodec_find_encoder = λ id. some id;
  avformat_new_stream = λ n encoder. some (stream n media_other);
  avcodec_copy_context = λ to from. from;
  av_dict_copy = λ to from. from;
  avio_open = λ name. pos 0;
  avformat_write_header = λ s. record { num = pos 1; den = pos 90000 };
  codec_id_h264 = 28;
  nopts_value = negsuc 0;
  avfmt_nofile = 1;
  avfmt_globalheader = 2;
  codec_flag_global_header = 4;
}

abbrev input : InputContext
input = record {
  start_time = pos 3;
  streams = stream 0 media_video ∷ stream 1 media_audio ∷ stream 2 media_audio ∷ [];
}

init_output_context-IsOutput_example :
    Yields (IsOutput muxer 2 input 0) (init_output_context muxer input 0 "out.ts")
init_output_context-IsOutput_example =
    init_output_context-IsOutput muxer 2 input 0 "out.ts" (record {
      guesses = refl;
      allocates = refl;
      makes = λ n encoder. (stream n media_other, refl);
      opens = refl;
    })

-- Its context with both streams, and the writer thread before its audio packets.
abbrev context : OutputContext
context = record {
  format_flags = 2;
  filename = "out.ts";
  debug = 1;
  start_time_realtime = pos 3;
  start_time = pos 3;
  duration = 0;
  bit_rate = 0;
  streams = stream 0 media_video ∷ stream 1 media_audio ∷ [];
  opened = true;
}

abbrev plain_av : Av
plain_av = record {
  av_init_packet = λ p. p;
  av_rescale_q = λ t from to. t;
  av_nopts_value = negsuc 0;
  av_pkt_flag_key = 1;
}

abbrev file : OutputFile
file = record {
  output_context = context;
  video_stream = some 0;
  audio_stream = some 1;
  streams = record {
    video_stream_index = 0;
    video_index = 0;
    audio_index = 1;
    omx_timebase = unit;
    video_time_base = unit;
    audio_time_base = unit;
    input_audio_time_base = unit;
  };
}

abbrev finished_audio : PacketQueue (List Packet)
finished_audio = record (queue_of (packet 5 ∷ packet 6 ∷ [])) { queue_finished = 1 }

abbrev session : Session (List Packet)
session = record {
  phase = writes_audio;
  machine = record (machine []) { component = λ p. record sample_component { eos = 1 } };
  writer = record {
    mux = record {
      sps = none;
      sps_size = 0;
      pps = none;
      pps_size = 0;
      buf = none;
      buf_offset = 0;
      pts_offset = pos 0;
      flush_framebuf = false;
    };
    codecs = [];
    encoded_video_queue = queue_of [];
    processed_audio_queue = finished_audio;
    written = [];
    freed = [];
  };
  calls = avformat_write_header ∷ [];
}

abbrev turns : List (Turn plain plain_av muxer flags willing file)
turns =
    writer_turn [] ∷ audio_turn (packet 7) ∷ writer_turn [] ∷ writer_turn [] ∷ writer_turn [] ∷ []

run_writer-Keeps_example :
    Holds
      (Keeps plain_av muxer flags willing file plain (packet 7 ∷ []) session)
      (run_writer plain plain_av muxer flags willing file 3 turns session)
run_writer-Keeps_example =
    run_writer-Keeps plain_av muxer flags willing file plain
      (record { from_video = omega arith; from_blank = omega arith }) 3 turns session

-- Two parts of a NAL unit are there before its video packets are written.
abbrev collecting : Session (List Packet)
collecting = record session {
  phase = writes_video;
  writer = record session.writer { encoded_video_queue = queue_of (packet 1 ∷ packet 2 ∷ []) };
}

run_writer-IsSound_example :
    Holds
      (λ s. IsSound s.writer.mux)
      (run_writer plain plain_av muxer flags willing file 3 turns collecting)
run_writer-IsSound_example =
    run_writer-IsSound plain_av muxer flags willing file plain 3 turns collecting
      (record { buffered = refl; inside = omega arith; sps = tt; pps = tt })

whole : IsWhole muxer file 0 1
unfolding has_flag
whole = record { has_video = refl; has_audio = refl; is_open = refl }

run_writer-AreCalled_example :
    Holds
      (λ s.
        AreCalled muxer file 0 1 s × EndsNext plain_av muxer flags willing file plain 0 1 whole 3 s)
      (run_writer plain plain_av muxer flags willing file 3 turns session)
unfolding has_flag
run_writer-AreCalled_example =
    run_writer-AreCalled plain_av muxer flags willing file plain 0 1 whole 3 turns session refl

-- The thread gets to its test within the run, with the encoder and the input at their ends.
run_writer-WasDue_example :
    Holds
      (λ s.
        (is_ended s.phase ≡ true) ↔ WasDue plain_av muxer flags willing file plain 3 turns session)
      (run_writer plain plain_av muxer flags willing file 3 turns session)
run_writer-WasDue_example =
    run_writer-WasDue plain_av muxer flags willing file plain 3 turns session refl

start_writer-IsStarted_example : Yields (IsStarted muxer) (
    start_writer plain_av muxer input 0 "out.ts" unit unit
      (machine [])
      (queue_of [])
      finished_audio)
start_writer-IsStarted_example =
    start_writer-IsStarted plain_av muxer 2 input 0 "out.ts" unit unit (machine []) (queue_of [])
      finished_audio (stream 0 media_video) (stream 1 media_audio)
      (record {
        guesses = refl;
        allocates = refl;
        makes = λ n encoder. (stream n media_other, refl);
        opens = refl;
      })
      refl refl (omega arith)
