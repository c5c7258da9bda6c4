-- ===== src/Demux/Tests.antt =====
-- The theorems at a file with three frames.
use omxtranscode.Base.{some, ◌≡◌, true, List, [], ◌∷◌, pos}
use omxtranscode.PacketQueue.Plain.{plain, queue_of}
use omxtranscode.Demux.{
  returns, init_streams_and_codecs, Transcoder, demux_thread, media_video, media_audio, Stream,
}
use omxtranscode.Demux.Streams.{init_streams-last, demux_thread-started}
use omxtranscode.Demux.Flow.{play}
use omxtranscode.Demux.Bounds.{AreShort, play-AreShort}
use omxtranscode.Demux.Progress.{Delivered, play-Delivered}
use omxtranscode.Demux.Ending.{rounds, rounds-ended}
use omxtranscode.Demux.Sample.{
  unit, plain_av, stream, source, file, start, start-AreShort, start-IsStart,
}

play-AreShort_example :
    AreShort plain source (play plain source (rounds plain source 3) start).demux
play-AreShort_example = play-AreShort plain source (rounds plain source 3) start start-AreShort

rounds-ended_example : (play plain source (rounds plain source 8) start).demux.ended ≡ true
rounds-ended_example = rounds-ended plain source start start-AreShort

play-Delivered_example :
    Delivered plain source file (play plain source (rounds plain source 8) start)
play-Delivered_example =
    play-Delivered plain source (rounds plain source 8) start file start-IsStart
      rounds-ended_example

abbrev streams : List Stream
streams = stream 0 media_video ∷ stream 1 media_audio ∷ []

init_streams-last_example :
    init_streams_and_codecs streams
    ≡ (pos 0, some (stream 0 media_video), some (stream 1 media_audio))
init_streams-last_example = init_streams-last streams

abbrev transcoder : Transcoder
transcoder = record { audio_codec = (stream 5 media_audio).codec; video_stream_index = 0 }

-- There is no audio stream.
demux_thread-started_example :
    demux_thread plain_av unit file transcoder
      (queue_of [])
      (queue_of [])
      (stream 0 media_video ∷ [])
    ≡ returns transcoder (queue_of []) (queue_of [])
demux_thread-started_example =
    demux_thread-started plain_av unit file transcoder (queue_of []) (queue_of [])
      (stream 0 media_video ∷ [])
