-- ===== src/Transcode/Tests.antt =====
-- The video of a file of three frames, one of them taken before the decoder's loop, which configures
-- the pipeline with its first buffer.
use omxtranscode.Base.{inl, refl, Yields, []}
use omxtranscode.PacketQueue.Plain.{plain}
use omxtranscode.Demux.Flow.{play}
use omxtranscode.Demux.Ending.{rounds, rounds-ended}
use omxtranscode.Demux.Sample.{source, file, start-IsStart, start-AreShort}
use omxtranscode.Encode.{Decoder, decode_loop}
use omxtranscode.Encode.Sample.{setting, env}
use omxtranscode.Encode.Changed.{IsFine, supply_changed, start_changed}
use omxtranscode.Transcode.Video.{IsTranscoded, video-IsTranscoded}

abbrev decoder : Decoder setting plain
decoder = record {
  input_video_queue =
      (play plain source (rounds plain source 8)
        omxtranscode.Demux.Sample.start).demux.input_video_queue;
  feeder = start_changed;
  freed = [];
}

video-IsTranscoded_example :
    Yields
      (IsTranscoded setting plain source file
        (play plain source (rounds plain source 8) omxtranscode.Demux.Sample.start).taken_video
        decoder)
      (decode_loop setting plain 3 (λ n. []) (λ n q. q) (λ i. env) 101 decoder)
video-IsTranscoded_example =
    video-IsTranscoded setting plain source 3 (λ n. []) (λ i. env) IsFine (λ log call. refl)
      (λ i. supply_changed) (rounds plain source 8) omxtranscode.Demux.Sample.start file decoder
      start-IsStart start-AreShort
      (rounds-ended plain source omxtranscode.Demux.Sample.start start-AreShort) refl (inl refl)
