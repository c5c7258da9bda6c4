-- ===== src/Encode.antt =====
-- encode.c: the thread that feeds the OpenMAX decoder and sets the pipeline up once the components
-- know their formats. The messages on the way are left out.
pub mod Flags
pub mod Chunks
pub mod Feed
pub mod Arrivals
pub mod Stream
pub mod Thread
pub mod Configure
pub mod Sample
pub mod Changed
mod Tests
use omxtranscode.Base.{
  same_ℤ, not, ◌||◌, pos, ℕ, zero, suc, ◌-◌, Bool, true, false, Option, none, some, List, [], ◌∷◌,
  ◌++◌, ◌==◌, if◌then◌else◌, ltb, length, min, take, drop, bit_or, has_flag, to_u64, Outcome, ok,
  blocks, fault, and_then, Cmd, ◌>>=◌, ◌>>◌, get, modify,
}
use omxtranscode.External.{BufferFlags, Commands}
use omxtranscode.ListApi.{ListApi}
use omxtranscode.PacketQueue.{
  Ptr, Packet, PacketQueue, packet_queue_free_packet, packet_queue_get_next_item,
}
use omxtranscode.Ticks.{pts_to_omx}
use omxtranscode.Omx.{
  BufferHeader, Part, video_decode, image_fx, video_encode, is_running_cv, set_parameter,
  setup_tunnel, empty_this_buffer, Machine, Il, oerr,
}
use omxtranscode.Omx.Command.{
  omx_send_command_and_wait0, omx_send_command_and_wait1, omx_send_command_and_wait,
}
use omxtranscode.Buffer.{write, load, with_component, omx_get_next_input_buffer}
use omxtranscode.Ports.{PortDefinition, omx_alloc_buffers}

-- `ENCODED_BITRATE`
abbrev pub encoded_bitrate : ℕ
encoded_bitrate = 2000000

-- `nFlags` of a buffer; `first` is `ctx->first_packet`.
unfoldable pub input_flags : BufferFlags → (key : ℕ) → Packet → (first : ℕ) → (bytes_left : ℕ) → ℕ
input_flags f key p first bytes_left =
    let start = if first == 0 then f.time_unknown else f.starttime in
    let sync = if has_flag p.flags key then bit_or start f.syncframe else start in
    if bytes_left == 0 then bit_or sync f.endofframe else sync

-- `memcpy(input_buffer->pBuffer, p, copy_length)`
unfoldable pub copy_to_buffer : ℕ → List ℕ → BufferHeader → Outcome BufferHeader
copy_to_buffer copy_length p b =
    if ltb (length p) copy_length
    then fault
    else if ltb (length b.p_buffer) copy_length
    then fault
    else ok (record b { p_buffer = take copy_length p ++ drop copy_length b.p_buffer })

-- The thread in the inner loop: what `p` points to, and in `sent` the headers as they were when
-- they were handed to the decoder, last first.
pub record Feeder : Type 0 where
  pub machine : Machine
  pub p : List ℕ
  pub bytes_left : ℕ
  pub first_packet : ℕ
  pub sent : List BufferHeader

-- The constants, and how OpenMAX answers.
pub record Setting : Type 0 where
  pub buffer_flags : BufferFlags
  pub commands : Commands
  pub av_pkt_flag_key : ℕ
  pub il : Il
  pub encoder_output : PortDefinition
  pub encoder_buffers : List (Ptr × BufferHeader)

-- The buffer that the loop fills, from the packet, and the rest of the packet.
unfoldable pub fill_buffer :
    BufferFlags → (key : ℕ) → Packet → Feeder → BufferHeader → Outcome (BufferHeader × Feeder)
fill_buffer f key packet s b =
    let copy_length = min s.bytes_left b.n_alloc_len in
    let bytes_left = s.bytes_left - copy_length in
    and_then (copy_to_buffer copy_length s.p b) λ copied. ok (
      record copied {
        n_filled_len = copy_length;
        n_time_stamp = pts_to_omx (to_u64 packet.pts);
        n_flags = input_flags f key packet s.first_packet bytes_left;
      },
      record s { p = drop copy_length s.p; bytes_left = bytes_left; first_packet = 0 },
    )

module _ (set : Setting) where
  open set use {commands, il}

  send_and_wait : Part → (cmd n_param : ℕ) → Cmd Machine (Unit {0})
  send_and_wait part cmd n_param = omx_send_command_and_wait set.buffer_flags il part cmd n_param 0

  tunnel : (source : Part) (port : ℕ) (sink : Part) (sink_port : ℕ) → Cmd Machine (Unit {0})
  tunnel source port sink sink_port = do
    m ← get
    oerr il (setup_tunnel (m.component source).h port (m.component sink).h sink_port)

  clear_port_settings : Part → Cmd Machine (Unit {0})
  clear_port_settings part =
      modify (with_component part λ c. record c { port_settings_changed = 0 })

  -- The decoder knows its output format.
  unfoldable pub configure_deinterlacer : Cmd Machine (Unit {0})
  unfolding send_and_wait tunnel clear_port_settings
  configure_deinterlacer = do
    clear_port_settings video_decode
    tunnel video_decode 131 image_fx 190
    send_and_wait video_decode commands.port_enable 131
    send_and_wait image_fx commands.port_enable 190
    send_and_wait image_fx commands.state_set commands.executing

  -- The deinterlacer knows its output format: the encoder is configured and started.
  unfoldable pub configure_encoder : Cmd Machine (Unit {0})
  unfolding send_and_wait tunnel clear_port_settings
  configure_encoder = do
    clear_port_settings image_fx
    m ← get
    let encoder = (m.component video_encode).h
    oerr il (set_parameter encoder commands.param_video_port_format 201 (commands.coding_avc ∷ []))
    oerr il (
        set_parameter encoder commands.param_video_bitrate 201
          (commands.control_rate_variable ∷ encoded_bitrate ∷ []))
    tunnel image_fx 191 video_encode 200
    omx_send_command_and_wait0 il video_encode commands.state_set commands.idle 0
    omx_send_command_and_wait0 il video_encode commands.port_enable 201 0
    omx_alloc_buffers il set.encoder_output set.encoder_buffers video_encode 201
    omx_send_command_and_wait1 set.buffer_flags video_encode commands.port_enable 201 0
    omx_send_command_and_wait1 set.buffer_flags video_encode commands.state_set commands.idle 0
    omx_send_command_and_wait0 il image_fx commands.port_enable 191 0
    omx_send_command_and_wait0 il video_encode commands.port_enable 200 0
    omx_send_command_and_wait1 set.buffer_flags video_encode commands.port_enable 200 0
    omx_send_command_and_wait1 set.buffer_flags image_fx commands.port_enable 191 0
    send_and_wait video_encode commands.state_set commands.executing

  -- The encoder has output: the writer may start.
  unfoldable pub start_consumer : Cmd Machine (Unit {0})
  unfolding clear_port_settings
  start_consumer = do
    clear_port_settings video_encode
    modify λ m. record (with_component video_encode (λ c. record c { is_running = 1 }) m) {
      signals = (video_encode, is_running_cv) ∷ m.signals;
    }

  -- `if (port_settings_changed == 1) { … }`
  unfoldable pub if_changed : Part → Cmd Machine (Unit {0}) → Cmd Machine (Unit {0})
  if_changed part change m =
      if (m.component part).port_settings_changed == 1 then change m else ok (tt, m)

  unfoldable pub configure_pipeline : Cmd Machine (Unit {0})
  configure_pipeline = do
    if_changed video_decode configure_deinterlacer
    if_changed image_fx configure_encoder
    if_changed video_encode start_consumer

  -- One round of the inner loop; `ws` is what the other threads do while it waits for a buffer.
  unfoldable pub feed_buffer : ℕ → List (Machine → Machine) → Packet → Feeder → Outcome Feeder
  feed_buffer k ws packet s = and_then (omx_get_next_input_buffer k video_decode ws s.machine) λ r.
      and_then (load r.0 r.1.heap) λ b.
        and_then (fill_buffer set.buffer_flags set.av_pkt_flag_key packet s b) λ filled.
          and_then (configure_pipeline (record r.1 { heap = write r.1.heap r.0 (some filled.0) }))
            λ c. and_then (load r.0 c.1.heap) λ header.
              and_then (oerr il (empty_this_buffer (c.1.component video_decode).h r.0) c.1)
                λ e. ok (record filled.1 { machine = e.1; sent = header ∷ s.sent })

  -- `while (bytes_left > 0)`; `env n` is what the other threads do in the round with `n` left.
  unfoldable pub feed_loop :
      ℕ → (env : ℕ → List (Machine → Machine)) → ℕ → Packet → Feeder → Outcome Feeder
  feed_loop k env zero packet s = if s.bytes_left == 0 then ok s else blocks
  feed_loop k env (suc n) packet s = elim (s.bytes_left == 0) [
    | true ↦ ok s
    | false ↦ and_then (feed_buffer k (env n) packet s) λ s'. feed_loop k env n packet s'
  ]

  -- The end of the stream: an empty buffer with `OMX_BUFFERFLAG_EOS`.
  unfoldable pub finish_stream : ℕ → List (Machine → Machine) → Cmd Machine Ptr
  finish_stream k ws m = and_then (omx_get_next_input_buffer k video_decode ws m) λ r.
      and_then (load r.0 r.1.heap) λ b.
        let last = record b {
          n_filled_len = 0;
          n_flags = bit_or set.buffer_flags.time_unknown set.buffer_flags.eos;
        } in
        let m' = record r.1 { heap = write r.1.heap r.0 (some last) } in
        and_then (oerr il (empty_this_buffer (m'.component video_decode).h r.0) m')
          λ e. ok (r.0, e.1)

  module _ (api : ListApi Packet) where
    open api use {Head}

    -- The thread between two packets, with the addresses that it has freed.
    pub record Decoder : Type 0 where
      pub input_video_queue : PacketQueue Head
      pub feeder : Feeder
      pub freed : List Ptr

    -- `queue_count != 0 || queue_finished != 1`
    unfoldable pub has_more : PacketQueue Head → Bool
    has_more q = not (same_ℤ q.queue_count (pos 0)) || not (q.queue_finished == 1)

    -- The outer loop, for `n` packets at most. `arrivals n` is what other threads do to the queue
    -- while the loop waits for a packet, `during n` what they do to it while the loop feeds that
    -- packet, and `env n` what they do to the components then.
    unfoldable pub decode_loop :
        ℕ
        → (arrivals : ℕ → List (PacketQueue Head → PacketQueue Head))
        → (during : ℕ → PacketQueue Head → PacketQueue Head)
        → (env : ℕ → ℕ → List (Machine → Machine)) → ℕ
        → Decoder
        → Outcome Decoder
    decode_loop k arrivals during env zero d = if has_more d.input_video_queue then blocks else ok d
    decode_loop k arrivals during env (suc n) d = elim (has_more d.input_video_queue) [
      | false ↦ ok d
      | true ↦ elim (packet_queue_get_next_item api (arrivals n) d.input_video_queue) [
        | none ↦ blocks
        | some taken ↦
            and_then
              (feed_loop k (env n) taken.0.data_length taken.0
                (record d.feeder { p = taken.0.bytes; bytes_left = taken.0.data_length }))
              λ s. decode_loop k arrivals during env n (record {
                input_video_queue = during n taken.1;
                feeder = s;
                freed = packet_queue_free_packet (some taken.0) 1 ++ d.freed;
              })
      ]
    ]
