-- ===== src/Mux/Tests.antt =====
-- A NAL unit in two packets, its parameter sets, and the theorems there.
use omxtranscode.Base.{
  Holds, ℕ, ◌≡◌, refl, true, false, none, some, List, [], ◌∷◌, arith, set, pos, ok, has_flag,
}
use omxtranscode.PacketQueue.{Packet}
use omxtranscode.PacketQueue.Plain.{plain, packet, queue_of}
use omxtranscode.Omx.Sample.{flags}
use omxtranscode.Mux.{
  write_video_frame, MuxState, Rational, Av, Streams, CodecContext, Writer, extract_pps_ssp_packet,
  init_stream_extra_data,
}
use omxtranscode.Mux.Parameters.{
  sequence_set, with_set, extra_data, extract-kind, init_extra_data-set,
}
use omxtranscode.Mux.Audio.{AudioWritten, write_audio_frames, write_audio_frames-AudioWritten}
use omxtranscode.Mux.Start.{no_frame_before_parameters}
use omxtranscode.Mux.Frames.{video_frame, Ends, write_video_frames, nal_reassembled}

-- An FFmpeg that leaves the time stamps as they are.
abbrev plain_av : Av
plain_av = record {
  av_init_packet = λ p. p;
  av_rescale_q = λ t from to. t;
  av_nopts_value = pos 0;
  av_pkt_flag_key = 1;
}

abbrev unit : Rational
unit = record { num = pos 1; den = pos 1 }

abbrev streams : Streams
streams = record {
  video_stream_index = 0;
  video_index = 0;
  audio_index = 1;
  omx_timebase = unit;
  video_time_base = unit;
  audio_time_base = unit;
  input_audio_time_base = unit;
}

abbrev sps_unit : List ℕ
sps_unit = 0 ∷ 0 ∷ 0 ∷ 1 ∷ 0x67 ∷ 66 ∷ []

abbrev pps_unit : List ℕ
pps_unit = 0 ∷ 0 ∷ 0 ∷ 1 ∷ 0x68 ∷ []

abbrev state : MuxState
state = record {
  sps = some sps_unit;
  sps_size = 6;
  pps = some pps_unit;
  pps_size = 5;
  buf = none;
  buf_offset = 0;
  pts_offset = pos 0;
  flush_framebuf = false;
}

abbrev codec : CodecContext
codec = record { extradata = none; extradata_size = 0 }

extract-kind_example :
    extract_pps_ssp_packet sps_unit 6 state ≡ ok (true, with_set sequence_set sps_unit state)
extract-kind_example = extract-kind sps_unit state (omega arith)

init_extra_data-set_example :
    init_stream_extra_data (codec ∷ codec ∷ []) state 1
    ≡ ok (set (codec ∷ codec ∷ []) 1 (extra_data codec (some sps_unit) (some pps_unit)))
init_extra_data-set_example =
    init_extra_data-set (codec ∷ codec ∷ []) state 1 codec refl
      (record { sps_fits = refl; pps_fits = refl; sum_fits = omega arith })

-- The two parts of a coded slice.
abbrev start_part : Packet
start_part = record (packet 1) { bytes = 0 ∷ 0 ∷ 0 ∷ []; data_length = 3 }

abbrev last_part : Packet
last_part = record (packet 2) { bytes = 1 ∷ 0x65 ∷ 9 ∷ []; data_length = 3; flags = 0x420 }

abbrev writer : Writer (List Packet)
writer = record {
  mux = state;
  codecs = codec ∷ [];
  encoded_video_queue = queue_of (start_part ∷ last_part ∷ packet 3 ∷ []);
  processed_audio_queue = queue_of [];
  written = [];
  freed = [];
}

nal_reassembled_example :
    Ends plain plain_av flags streams writer
      (start_part ∷ [])
      last_part
      (packet 3 ∷ [])
      (video_frame plain_av flags streams last_part (0 ∷ 0 ∷ 0 ∷ 1 ∷ 0x65 ∷ 9 ∷ []))
      (write_video_frames plain plain_av flags streams 2 writer)
unfolding queue_of has_flag
nal_reassembled_example =
    nal_reassembled plain plain_av flags streams writer (start_part ∷ []) last_part (packet 3 ∷ [])
      (record { has_sps = refl; has_pps = refl; buffers = record { block = refl; offset = refl } })
      refl (refl, refl, tt) refl refl (omega arith) (omega arith) refl

abbrev audio_writer : Writer (List Packet)
audio_writer = record writer { processed_audio_queue = queue_of (packet 5 ∷ packet 6 ∷ []) }

write_audio_frames-AudioWritten_example :
    AudioWritten plain plain_av streams audio_writer
      (packet 5 ∷ packet 6 ∷ [])
      []
      (write_audio_frames plain plain_av streams 3 audio_writer)
unfolding queue_of
write_audio_frames-AudioWritten_example =
    write_audio_frames-AudioWritten plain plain_av streams 3 audio_writer

-- No sequence parameter set has come yet.
abbrev early_writer : Writer (List Packet)
early_writer = record writer { mux = record state { sps = none } }

no_frame_before_parameters_example :
    Holds (λ w'. w'.written ≡ []) (write_video_frame plain plain_av flags streams early_writer)
no_frame_before_parameters_example =
    no_frame_before_parameters plain_av flags streams plain early_writer refl
