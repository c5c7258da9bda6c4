-- ===== src/Demux/Sample.antt =====
-- A file with a video, an audio and an unstamped frame, before its first is read.
use omxtranscode.Base.{ℕ, refl, false, List, [], ◌∷◌, arith, pos, negsuc}
use omxtranscode.PacketQueue.{Packet}
use omxtranscode.PacketQueue.Plain.{plain, packet, queue_of}
use omxtranscode.Mux.{Rational, Av}
use omxtranscode.Demux.{MediaType, media_video, media_audio, Stream, Source, Frame, nothing}
use omxtranscode.Demux.Flow.{System}
use omxtranscode.Demux.Bounds.{AreShort}
use omxtranscode.Demux.Progress.{IsStart}

abbrev pub unit : Rational
unit = record { num = pos 1; den = pos 1 }

-- No time stamp is -1.
abbrev pub plain_av : Av
plain_av = record {
  av_init_packet = λ p. p;
  av_rescale_q = λ t from to. t;
  av_nopts_value = negsuc 0;
  av_pkt_flag_key = 1;
}

abbrev pub stream : ℕ → MediaType → Stream
stream i t = record {
  index = i;
  time_base = unit;
  codec_type = t;
  codec = record {
    codec_id = i;
    bit_rate = 0;
    channels = 2;
    sample_rate = 48;
    channels_layout = 3;
  };
}

abbrev pub source : Source
source = record {
  av = plain_av;
  omx_timebase = unit;
  video_stream = stream 0 media_video;
  audio_stream = stream 1 media_audio;
}

abbrev pub video_frame : Frame
video_frame = record {
  bytes = 5 ∷ 6 ∷ [];
  stream_index = 0;
  flags = 1;
  pts = pos 7;
  dts = pos 7;
  duration = pos 0;
}

abbrev pub file : List (Frame × Packet)
file =
    (video_frame, packet 1)
    ∷ (record video_frame { stream_index = 1 }, packet 2)
    ∷ (record video_frame { pts = negsuc 0 }, packet 3)
    ∷ []

abbrev pub start : System plain source
start = record {
  demux = record {
    frames = file;
    waiting = nothing;
    input_video_queue = queue_of [];
    processed_audio_queue = queue_of [];
    av_freed = 0;
    ended = false;
  };
  taken_video = [];
  taken_audio = [];
}

pub start-AreShort : AreShort plain source start.demux
unfolding queue_of
start-AreShort = record {
  video = record { counted = refl; short = omega arith };
  audio = record { counted = refl; short = omega arith };
}

pub start-IsStart : IsStart plain source start file
unfolding queue_of
start-IsStart = record {
  to_read = refl;
  idle = refl;
  running = refl;
  none_freed = refl;
  video_empty = refl;
  audio_empty = refl;
  no_video = refl;
  no_audio = refl;
}
