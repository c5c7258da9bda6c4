-- ===== src/Mux.antt =====
-- mux.c: the writer's state and how it turns encoded packets into frames of the output file.
-- FFmpeg is the parameter `Av`. A pointer to a block that only this file uses is an `Option` of the
-- bytes that it points to.
pub mod Nal
pub mod Parameters
pub mod Frames
pub mod Audio
pub mod Start
pub mod Sound
mod Tests
use omxtranscode.Base.{
  ℕ, zero, suc, ◌+◌, ◌%◌, ◌^◌, ◌≡◌, Bool, true, false, ◌&&◌, not, Option, none, some, List, [], ◌∷◌,
  ◌++◌, ◌==◌, if◌then◌else◌, ltb, length, take, drop, get_elem?, set, bit_and, bit_or, has_flag,
  Outcome, ok, fault, and_then, ℤ, pos,
}
use omxtranscode.External.{BufferFlags}
use omxtranscode.ListApi.{ListApi}
use omxtranscode.PacketQueue.{
  Ptr, Packet, PacketQueue, packet_queue_get_next_item_asynch, packet_queue_free_packet,
}

-- `_1mb`, `SPS_PACKET` and `PPS_PACKET`
abbrev pub one_mb : ℕ
one_mb = 0x100000

abbrev pub sps_packet : ℕ
sps_packet = 7

abbrev pub pps_packet : ℕ
pps_packet = 8

pub record MuxState : Type 0 where
  pub sps : Option (List ℕ)
  pub sps_size : ℕ
  pub pps : Option (List ℕ)
  pub pps_size : ℕ
  pub buf : Option (List ℕ)
  pub buf_offset : ℕ
  pub pts_offset : ℤ
  pub flush_framebuf : Bool

-- `AVRational`
pub record Rational : Type 0 where
  pub num : ℤ
  pub den : ℤ

-- The function that frees an `AVPacket`'s bytes.
pub data Destruct : Type 0 where
  no_destruct avpacket_destruct av_destruct_packet : Destruct

-- `AVPacket`
pub record AvPacket : Type 0 where
  pub payload : Option (List ℕ)
  pub size : ℕ
  pub stream_index : ℕ
  pub flags : ℕ
  pub pts : ℤ
  pub dts : ℤ
  pub duration : ℤ
  pub destruct : Destruct

pub record Av : Type 0 where
  pub av_init_packet : AvPacket → AvPacket
  pub av_rescale_q : ℤ → Rational → Rational → ℤ
  pub av_nopts_value : ℤ
  pub av_pkt_flag_key : ℕ

-- The fields of a stream's codec context that the writer changes.
pub record CodecContext : Type 0 where
  pub extradata : Option (List ℕ)
  pub extradata_size : ℕ

abbrev pub is_some {ℓ} : {A : Type ℓ} → Option A → Bool
is_some none = false
is_some (some _) = true

-- `if (!buf) buf = malloc(_1mb);`: nothing of the new block is written.
abbrev pub or_fresh : Option (List ℕ) → List ℕ
or_fresh none = []
or_fresh (some block) = block

-- Reading `n` bytes of a block.
unfoldable pub read_block : ℕ → List ℕ → Outcome (List ℕ)
read_block n bytes = if ltb (length bytes) n then fault else ok (take n bytes)

unfoldable pub read_byte : List ℕ → ℕ → Outcome ℕ
read_byte bytes i = elim (get_elem? bytes i) [ none ↦ fault | some b ↦ ok b ]

-- `pkt->data[0] == 0 && … && pkt->data[3] == 1`: no byte behind the first mismatch is read.
unfoldable pub has_start_code : List ℕ → Outcome Bool
has_start_code bytes = and_then (read_byte bytes 0) λ b0.
    if not (b0 == 0)
    then ok false
    else and_then (read_byte bytes 1) λ b1.
      if not (b1 == 0)
      then ok false
      else and_then (read_byte bytes 2)
          λ b2. if not (b2 == 0) then ok false else and_then (read_byte bytes 3) λ b3. ok (b3 == 1)

-- A parameter set replaces the one held so far.
unfoldable pub store_parameter_set : ℕ → List ℕ → ℕ → MuxState → Outcome (Bool × MuxState)
store_parameter_set packet_type bytes size s =
    if packet_type == sps_packet
    then and_then (read_block size bytes)
        (λ copy. ok (true, record s { sps = some copy; sps_size = size; flush_framebuf = false }))
    else if packet_type == pps_packet
    then and_then (read_block size bytes)
        (λ copy. ok (true, record s { pps = some copy; pps_size = size; flush_framebuf = false }))
    else ok (false, s)

-- `extract_pps_ssp_packet`, given the bytes and the size of the packet.
unfoldable pub extract_pps_ssp_packet : List ℕ → ℕ → MuxState → Outcome (Bool × MuxState)
extract_pps_ssp_packet bytes size s = and_then (has_start_code bytes) λ found.
    if found
    then and_then (read_byte bytes 4) (λ b. store_parameter_set (bit_and b 0x1f) bytes size s)
    else ok (false, s)

-- The sum is an `uint32_t`; a block that is too small for what is copied is overrun.
unfoldable pub join_parameter_sets : List ℕ → ℕ → List ℕ → ℕ → Outcome CodecContext
join_parameter_sets sps sps_size pps pps_size =
    let size = (pps_size + sps_size) % 2 ^ 32 in
    if ltb size (sps_size + pps_size)
    then fault
    else and_then (read_block sps_size sps) λ first.
      and_then (read_block pps_size pps)
        λ second. ok (record { extradata = some (first ++ second); extradata_size = size })

unfoldable pub renew_extra_data : MuxState → CodecContext → Outcome CodecContext
renew_extra_data s c =
    let cleared =
      if is_some c.extradata then record c { extradata = none; extradata_size = 0 } else c in
    elim s.pps [
      | none ↦ ok cleared
      | some pps ↦ elim s.sps [
        | none ↦ ok cleared
        | some sps ↦ join_parameter_sets sps s.sps_size pps s.pps_size
      ]
    ]

-- `codecs` are those of the output streams.
unfoldable pub init_stream_extra_data :
    List CodecContext → MuxState → ℕ → Outcome (List CodecContext)
init_stream_extra_data codecs s video_index = elim (get_elem? codecs video_index) [
  | none ↦ fault
  | some c ↦ and_then (renew_extra_data s c) λ c'. ok (set codecs video_index c')
]

-- `memcpy(&buf[offset], bytes, length)` into the block of one megabyte; the list holds the part of
-- the block that has been written.
unfoldable pub copy_into : ℕ → List ℕ → List ℕ → Outcome (List ℕ)
copy_into offset bytes buf =
    if ltb one_mb (offset + length bytes)
    then fault
    else ok (take offset buf ++ (bytes ++ drop (offset + length bytes) buf))

-- The bytes of `p` go behind those that are buffered.
unfoldable pub buffer_packet : Packet → List ℕ → MuxState → Outcome MuxState
buffer_packet p block s = and_then (read_block p.data_length p.bytes) λ bytes.
    and_then (copy_into s.buf_offset bytes block)
      λ block'. ok (record s { buf = some block'; buf_offset = s.buf_offset + p.data_length })

-- What the writer thread needs of `struct transcoder_ctx_t` and the contexts of FFmpeg; `index` of
-- the two output streams, and `video_stream_index` of the input.
pub record Streams : Type 0 where
  pub video_stream_index : ℕ
  pub video_index : ℕ
  pub audio_index : ℕ
  pub omx_timebase : Rational
  pub video_time_base : Rational
  pub audio_time_base : Rational
  pub input_audio_time_base : Rational

abbrev pub blank_packet : AvPacket
blank_packet = record {
  payload = none;
  size = 0;
  stream_index = 0;
  flags = 0;
  pts = pos 0;
  dts = pos 0;
  duration = pos 0;
  destruct = no_destruct;
}

-- The bytes and the size of the frame that the end of a NAL makes, and the state behind it.
unfoldable pub take_nal : Packet → MuxState → Outcome ((List ℕ × ℕ) × MuxState)
take_nal p s = if s.buf_offset == 0 then ok ((p.bytes, p.data_length), s) else (elim s.buf [
  | none ↦ fault
  | some block ↦ and_then (buffer_packet p block s) λ s'. elim s'.buf [
    | none ↦ fault
    | some nal ↦ ok ((nal, s'.buf_offset), record s' { buf = none; buf_offset = 0 })
  ]
])

-- The frame as `write_video_frame` fills it in.
unfoldable pub video_packet : Av → BufferFlags → Streams → Packet → List ℕ → ℕ → AvPacket
video_packet av f st p nal size =
    let start = av.av_init_packet blank_packet in
    record start {
      payload = some nal;
      size = size;
      stream_index = st.video_index;
      flags =
          if has_flag p.flags f.syncframe
          then bit_or start.flags av.av_pkt_flag_key
          else start.flags;
      pts = av.av_rescale_q p.pts st.omx_timebase st.video_time_base;
      dts = av.av_nopts_value;
      destruct = avpacket_destruct;
    }

-- `written` holds the packets handed to `av_interleaved_write_frame`, last first, and `freed` the
-- addresses freed by the writer.
pub record Writer (Head : Type 0) : Type 0 where
  pub mux : MuxState
  pub codecs : List CodecContext
  pub encoded_video_queue : PacketQueue Head
  pub processed_audio_queue : PacketQueue Head
  pub written : List AvPacket
  pub freed : List Ptr

-- The packet to write, the state and the codec context behind one source packet, and what is freed
-- in it.
unfoldable pub mux_packet :
    Av
    → BufferFlags
    → Streams
    → Packet
    → MuxState
    → List CodecContext
    → Outcome (AvPacket × MuxState × List CodecContext × List Ptr)
mux_packet av f st p s c =
    if not (has_flag p.flags f.endofnal)
    then and_then (buffer_packet p (or_fresh s.buf) s)
        (λ s'. ok (blank_packet, s', c, p.payload ∷ []))
    else (and_then (take_nal p s) λ r.
        let pkt = video_packet av f st p r.0.0 r.0.1 in
        and_then (extract_pps_ssp_packet r.0.0 r.0.1 r.1) λ e.
          if e.0
          then and_then (init_stream_extra_data c e.1 st.video_stream_index)
              (λ c'. ok (pkt, e.1, c', []))
          else ok (pkt, e.1, c, []))

module _ (api : ListApi Packet) (av : Av) (f : BufferFlags) (st : Streams) where
  open api use {Head}

  unfoldable pub write_video_frame : Writer Head → Outcome (Writer Head)
  write_video_frame w =
      let s = record w.mux { flush_framebuf = is_some w.mux.pps && is_some w.mux.sps } in
      let (item, rest) = packet_queue_get_next_item_asynch api w.encoded_video_queue in
      elim item [
        | none ↦ ok (record w { mux = s; encoded_video_queue = rest })
        | some p ↦ and_then (mux_packet av f st p s w.codecs) λ r. ok (record w {
          mux = r.1;
          codecs = r.2;
          encoded_video_queue = rest;
          written = if r.1.flush_framebuf then r.0 ∷ w.written else w.written;
          freed = packet_queue_free_packet (some p) 0 ++ (r.3 ++ w.freed);
        })
      ]

module _ (api : ListApi Packet) (av : Av) (st : Streams) where
  open api use {Head}

  unfoldable pub write_audio_frame : Writer Head → Writer Head
  write_audio_frame w =
      let (item, rest) = packet_queue_get_next_item_asynch api w.processed_audio_queue in
      elim item [
        | none ↦ record w { processed_audio_queue = rest }
        | some p ↦ record w {
          processed_audio_queue = rest;
          written =
              record (av.av_init_packet blank_packet) {
                payload = some p.bytes;
                size = p.data_length;
                stream_index = st.audio_index;
                pts = av.av_rescale_q p.pts st.input_audio_time_base st.audio_time_base;
                dts = av.av_rescale_q p.dts st.input_audio_time_base st.audio_time_base;
                duration = p.duration;
                destruct = avpacket_destruct;
              }
              ∷ w.written;
          freed = packet_queue_free_packet (some p) 0 ++ w.freed;
        }
      ]
