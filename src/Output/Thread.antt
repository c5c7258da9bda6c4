-- ===== src/Output/Thread.antt =====
-- `writer_thread`: its start, and the loop as steps that run in any order with what the other threads
-- and the callbacks do to what they share.
use omxtranscode.Base.{
  ℕ, zero, suc, Bool, false, ◌&&◌, ◌||◌, not, Option, none, some, List, [], ◌∷◌, ◌==◌,
  if◌then◌else◌, length, get_elem?, map, pos, has_flag, Outcome, ok, fault, and_then,
}
use omxtranscode.External.{BufferFlags}
use omxtranscode.ListApi.{ListApi}
use omxtranscode.PacketQueue.{
  Ptr, Packet, PacketQueue, packet_queue_add_item, packet_queue_get_next_item_asynch,
}
use omxtranscode.Omx.{video_encode, fill_this_buffer, Machine, Il, oerr}
use omxtranscode.Buffer.{omx_get_next_output_buffer, omx_encoder_fill_buffer_done}
use omxtranscode.Mux.{
  Rational, Av, CodecContext, MuxState, Streams, Writer, write_audio_frame, write_video_frame,
  is_some,
}
use omxtranscode.Output.{AvStream, InputContext, Muxer, OutputContext, init_output_context}
use Prim.Native.String.{String}

-- Calls of FFmpeg on the output file other than those that write a frame.
pub data FileCall : Type 0 where
  avformat_write_header av_write_trailer avio_close av_free_context : FileCall
  avcodec_close av_free_codec av_free_stream : (place : ℕ) → FileCall

-- Where the thread is: before the test of `is_running`, before the test of the loop, and before each
-- of the three calls in its body.
pub data Phase : Type 0 where
  waits_running tests hands_output writes_audio writes_video ended : Phase

-- What does not change behind the start.
pub record OutputFile : Type 0 where
  pub output_context : OutputContext
  pub video_stream : Option ℕ
  pub audio_stream : Option ℕ
  pub streams : Streams

-- The thread and what it shares: the components, and in `writer` the two queues.
pub record Session (Head : Type 0) : Type 0 where
  pub phase : Phase
  pub machine : Machine
  pub writer : Writer Head
  pub calls : List FileCall

-- `struct mux_state_t mux_state = {0}`
abbrev blank_state : MuxState
blank_state = record {
  sps = none;
  sps_size = 0;
  pps = none;
  pps_size = 0;
  buf = none;
  buf_offset = 0;
  pts_offset = pos 0;
  flush_framebuf = false;
}

abbrev av_time_base_q : Rational
av_time_base_q = record { num = pos 1; den = pos 1000000 }

-- `st->index` and `oc->streams[st->index]->time_base`; without a stream the thread does not get to
-- read them.
index_of : List AvStream → Option ℕ → ℕ
index_of streams none = 0
index_of streams (some place) = elim (get_elem? streams place) [ none ↦ 0 | some s ↦ s.index ]

unfoldable pub time_base_of : List AvStream → Option ℕ → Rational
time_base_of streams none = av_time_base_q
time_base_of streams (some place) = elim (get_elem? streams place) [
  | none ↦ av_time_base_q
  | some s ↦ s.time_base
]

-- `codec->extradata` of the output streams.
abbrev codecs_of : List AvStream → List CodecContext
codecs_of streams = map (λ s. s.codec.extra) streams

-- A stream behind `avformat_write_header`, which sets its time base.
unfoldable pub with_header : Muxer → AvStream → AvStream
with_header muxer s = record s { time_base = muxer.avformat_write_header s }

module _ (av : Av) (muxer : Muxer) where
  -- Up to the wait for the encoder. `input_audio_time_base` is that of the input stream that audio
  -- packets come from.
  unfoldable pub start_writer :
      {Head : Type 0}
      → InputContext
      → (video_stream_index : ℕ) (output_filename : String)
        (omx_timebase input_audio_time_base : Rational)
      → Machine
      → (encoded_video_queue processed_audio_queue : PacketQueue Head)
      → Outcome (OutputFile × Session Head)
  unfolding index_of time_base_of
  start_writer input video_stream_index output_filename omx_timebase input_audio_time_base m encoded
        audio =
      and_then (init_output_context muxer input video_stream_index output_filename) λ r.
        elim (get_elem? r.0.streams video_stream_index) [
          | none ↦ fault
          | some s ↦
              let pts_offset = av.av_rescale_q input.start_time av_time_base_q s.time_base in
              let streams = map (with_header muxer) r.0.streams in
              ok (
                record {
                  output_context = record r.0 { streams = streams };
                  video_stream = r.1;
                  audio_stream = r.2;
                  streams = record {
                    video_stream_index = video_stream_index;
                    video_index = index_of streams r.1;
                    audio_index = index_of streams r.2;
                    omx_timebase = omx_timebase;
                    video_time_base = time_base_of streams r.1;
                    audio_time_base = time_base_of streams r.2;
                    input_audio_time_base = input_audio_time_base;
                  };
                },
                record {
                  phase = waits_running;
                  machine = m;
                  writer = record {
                    mux = record blank_state { pts_offset = pts_offset };
                    codecs = codecs_of streams;
                    encoded_video_queue = encoded;
                    processed_audio_queue = audio;
                    written = [];
                    freed = [];
                  };
                  calls = avformat_write_header ∷ [];
                },
              )
        ]

-- The calls that free the first `n` streams with their codec contexts, last first.
unfoldable pub free_streams : ℕ → List FileCall → List FileCall
free_streams zero calls = calls
free_streams (suc n) calls = av_free_stream n ∷ av_free_codec n ∷ free_streams n calls

module _ (muxer : Muxer) (file : OutputFile) where
  -- Behind the loop: the trailer, and what is closed and freed; `none` marks the parameter sets as
  -- freed.
  unfoldable pub close_output : {Head : Type 0} → Session Head → Outcome (Session Head)
  close_output s = elim file.video_stream [
    | none ↦ fault
    | some video ↦ elim file.audio_stream [
      | none ↦ fault
      | some audio ↦
          let closed = avcodec_close audio ∷ avcodec_close video ∷ av_write_trailer ∷ s.calls in
          let freed = free_streams (length file.output_context.streams) closed in
          let disconnected =
            if has_flag file.output_context.format_flags muxer.avfmt_nofile
            then freed
            else avio_close ∷ freed in
          ok (record s {
            phase = ended;
            writer = record s.writer { mux = record s.writer.mux { pps = none; sps = none } };
            calls = av_free_context ∷ disconnected;
          })
    ]
  ]

module _ (api : ListApi Packet) (av : Av) (muxer : Muxer) (f : BufferFlags) (il : Il)
    (file : OutputFile) where
  open api use {Head}

  -- A frame needs the index of its stream, so a `NULL` for the stream is dereferenced.
  unfoldable pub write_audio : Session Head → Outcome (Session Head)
  write_audio s =
      let w = s.writer in
      if is_some (packet_queue_get_next_item_asynch api w.processed_audio_queue).0
        && not (is_some file.audio_stream)
      then fault
      else ok (record s { phase = writes_video; writer = write_audio_frame api av file.streams w })

  -- Only the end of a NAL unit makes a frame.
  unfoldable pub ends_nal : Option Packet → Bool
  ends_nal none = false
  ends_nal (some p) = has_flag p.flags f.endofnal

  unfoldable pub write_video : Session Head → Outcome (Session Head)
  unfolding ends_nal
  write_video s =
      let w = s.writer in
      if ends_nal (packet_queue_get_next_item_asynch api w.encoded_video_queue).0
        && not (is_some file.video_stream)
      then fault
      else and_then (write_video_frame api av f file.streams w)
          (λ w'. ok (record s { phase = tests; writer = w' }))

  unfoldable pub hand_output : ℕ → List (Machine → Machine) → Session Head → Outcome (Session Head)
  hand_output k ws s = and_then (omx_get_next_output_buffer k video_encode ws s.machine) λ r.
      and_then (oerr il (fill_this_buffer (r.1.component video_encode).h r.0) r.1)
        λ e. ok (record s { phase = writes_audio; machine = e.1 })

  -- `ws` is what the other threads do while the thread waits for an output buffer.
  unfoldable pub writer_step :
      ℕ → List (Machine → Machine) → Phase → Session Head → Outcome (Session Head)
  unfolding write_audio write_video hand_output
  writer_step k ws waits_running s =
      if (s.machine.component video_encode).is_running == 0
      then ok s
      else ok (record s { phase = tests })
  writer_step k ws tests s =
      if ((s.machine.component video_encode).eos == 0)
        || (s.writer.processed_audio_queue.queue_finished == 0)
      then ok (record s { phase = hands_output })
      else close_output muxer file s
  writer_step k ws hands_output s = hand_output k ws s
  writer_step k ws writes_audio s = write_audio s
  writer_step k ws writes_video s = write_video s
  writer_step k ws ended s = ok s

  -- A step of the thread, a call of the encoder's callback with what `malloc` returns in it, an audio
  -- packet or the end of the input from `demux_thread`, and whatever changes the components.
  pub data Turn : Type 0 where
    writer_turn : List (Machine → Machine) → Turn
    encoder_turn : (fresh : Packet) (block buf : Ptr) → Turn
    audio_turn : Packet → Turn
    finish_turn : Turn
    machine_turn : (Machine → Machine) → Turn

  unfoldable pub take_turn : ℕ → Turn → Session Head → Outcome (Session Head)
  take_turn k (writer_turn ws) s = writer_step k ws s.phase s
  take_turn k (encoder_turn fresh block buf) s =
      and_then
        (omx_encoder_fill_buffer_done api k video_encode fresh block buf
          s.writer.encoded_video_queue s.machine)
        λ r. ok (record s { machine = r.1; writer = record s.writer { encoded_video_queue = r.0 } })
  take_turn k (audio_turn p) s = ok (record s {
    writer = record s.writer {
      processed_audio_queue = (packet_queue_add_item api s.writer.processed_audio_queue (some p)).0;
    };
  })
  take_turn k finish_turn s = ok (record s {
    writer = record s.writer {
      processed_audio_queue = record s.writer.processed_audio_queue { queue_finished = 1 };
    };
  })
  take_turn k (machine_turn change) s = ok (record s { machine = change s.machine })

  unfoldable pub run_writer : ℕ → List Turn → Session Head → Outcome (Session Head)
  run_writer k [] s = ok s
  run_writer k (t ∷ ts) s = and_then (take_turn k t s) λ s'. run_writer k ts s'
