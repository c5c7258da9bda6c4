-- ===== src/Mux/Frames.antt =====
-- The frames that `write_video_frame` hands to the output file.
use omxtranscode.Base.{
  ℕ, zero, suc, ◌+◌, ◌≤◌, ◌≡◌, ◌∙◌, refl, ap, sym, true, false, ◌&&◌, none, some, List, [], ◌∷◌,
  ◌++◌, arith, ◌==◌, if◌then◌else◌, length, length-append, append_assoc, has_flag, Outcome, ok,
  bit_or, exits, blocks, fault, and_then,
}
use omxtranscode.External.{BufferFlags}
use omxtranscode.ListApi.{ListApi}
use omxtranscode.PacketQueue.{Ptr, Packet, packet_queue_free_packet, unlink_first, contents}
use omxtranscode.PacketQueue.Order.{asynch-cons, unlink_first-cons}
use omxtranscode.Mux.{
  MuxState, Av, Streams, AvPacket, CodecContext, Writer, one_mb, is_some, video_packet, mux_packet,
  avpacket_destruct, blank_packet, write_video_frame,
}
use omxtranscode.Mux.Nal.{IsWhole, Buffers, mux_packet-partial, take_nal-append}
use omxtranscode.Mux.Parameters.{kind, frame, extract-kind}

pub free_struct : (p : Packet) → packet_queue_free_packet (some p) 0 ≡ p.block ∷ []
unfolding packet_queue_free_packet
free_struct p = ground arith

-- The bytes of packets, one after another.
abbrev pub joined : List Packet → List ℕ
joined [] = []
joined (p ∷ ps) = p.bytes ++ joined ps

abbrev pub AllPartial : BufferFlags → List Packet → Type 0
AllPartial f [] = Unit {0}
AllPartial f (p ∷ ps) = (has_flag p.flags f.endofnal ≡ false) × IsWhole p × AllPartial f ps

-- The log with one empty frame for each packet.
abbrev pub with_blanks : List Packet → List AvPacket → List AvPacket
with_blanks [] log = log
with_blanks (p ∷ ps) log = with_blanks ps (blank_packet ∷ log)

-- The log of freed addresses with the bytes and the struct of each packet.
abbrev pub with_freed : List Packet → List Ptr → List Ptr
with_freed [] log = log
with_freed (p ∷ ps) log = with_freed ps (p.block ∷ p.payload ∷ log)

-- The state in which the writer handles the next packet.
abbrev pub flushing : MuxState → MuxState
flushing s = record s { flush_framebuf = is_some s.pps && is_some s.sps }

-- The state behind a NAL unit that is no parameter set.
record Behind (s s' : MuxState) : Type 0 where
  same_sps : s'.sps ≡ s.sps
  same_pps : s'.pps ≡ s.pps
  flush : s'.flush_framebuf ≡ (is_some s.pps && is_some s.sps)
  empty : Buffers s' []

Behind-nal :
    (bytes : List ℕ) (s : MuxState)
    → Buffers s bytes
    → Behind s (
        if length bytes == 0
        then flushing s
        else record (flushing s) { buf = none; buf_offset = 0 })
Behind-nal [] s b = record {
  same_sps = refl;
  same_pps = refl;
  flush = refl;
  empty = record { block = b.block; offset = b.offset };
}
Behind-nal (x ∷ bytes) s b =
    rw (let longer : (suc (length bytes) == 0) ≡ false = ground arith in longer) (record {
      same_sps = refl;
      same_pps = refl;
      flush = refl;
      empty = record { block = refl; offset = refl };
    })

module _ (av : Av) (f : BufferFlags) (st : Streams) where
  -- The end of a NAL unit that is no parameter set.
  mux_packet-frame :
      (p : Packet) (s : MuxState) (c : List CodecContext) (bytes : List ℕ)
      → has_flag p.flags f.endofnal ≡ true
      → IsWhole p
      → Buffers s bytes
      → length bytes + length p.bytes ≤ one_mb
      → 5 ≤ length (bytes ++ p.bytes)
      → kind (bytes ++ p.bytes) ≡ frame
      → mux_packet av f st p s c
        ≡ ok (
          video_packet av f st p (bytes ++ p.bytes) (length (bytes ++ p.bytes)),
          if length bytes == 0 then s else record s { buf = none; buf_offset = 0 },
          c,
          [],
        )
  unfolding mux_packet
  mux_packet-frame p s c bytes end w b fits long k =
      rw (end, take_nal-append p s bytes w b fits, extract-kind (bytes ++ p.bytes) _ long, k)

-- The frame for a NAL unit: its bytes and their number, with the mark of a key frame and the time
-- stamp, in the output stream's time base, of the packet that ends it.
abbrev pub video_frame : Av → BufferFlags → Streams → Packet → List ℕ → AvPacket
video_frame av f st last nal =
    let start = av.av_init_packet blank_packet in
    record {
      payload = some nal;
      size = length nal;
      stream_index = st.video_index;
      flags =
          if has_flag last.flags f.syncframe
          then bit_or start.flags av.av_pkt_flag_key
          else start.flags;
      pts = av.av_rescale_q last.pts st.omx_timebase st.video_time_base;
      dts = av.av_nopts_value;
      duration = start.duration;
      destruct = avpacket_destruct;
    }

module _ (api : ListApi Packet) (av : Av) (f : BufferFlags) (st : Streams) where
  open api use {Head}

  -- One call with a packet to handle.
  write_video_frame-cons :
      (w : Writer Head) (p : Packet) (ps : List Packet) (pkt : AvPacket) (s : MuxState)
      (c : List CodecContext) (freed : List Ptr)
      → contents api w.encoded_video_queue ≡ p ∷ ps
      → mux_packet av f st p (flushing w.mux) w.codecs ≡ ok (pkt, s, c, freed)
      → write_video_frame api av f st w
        ≡ ok (record w {
          mux = s;
          codecs = c;
          encoded_video_queue = (unlink_first api w.encoded_video_queue).1;
          written = if s.flush_framebuf then pkt ∷ w.written else w.written;
          freed = p.block ∷ (freed ++ w.freed);
        })
  unfolding write_video_frame
  write_video_frame-cons w p ps pkt s c freed e m = rw (
    write_video_frame,
    asynch-cons api w.encoded_video_queue p ps e,
    m,
    free_struct p,
    asynch-cons api w.encoded_video_queue p ps e,
  )

  -- Calls in a row.
  pub write_video_frames : ℕ → Writer Head → Outcome (Writer Head)
  write_video_frames zero w = ok w
  write_video_frames (suc n) w = and_then (write_video_frame api av f st w) (write_video_frames n)

  -- Both parameter sets are held, and `bytes` are buffered.
  pub record IsReady (w : Writer Head) (bytes : List ℕ) : Type 0 where
    pub has_sps : is_some w.mux.sps ≡ true
    pub has_pps : is_some w.mux.pps ≡ true
    pub buffers : Buffers w.mux bytes

  -- The writer behind a NAL unit that was the frame `pkt`.
  pub record Reassembled (w : Writer Head) (parts : List Packet) (last : Packet)
      (rest : List Packet) (pkt : AvPacket) (w' : Writer Head) : Type 0 where
    pub ready : IsReady w' []
    pub remaining : contents api w'.encoded_video_queue ≡ rest
    pub frames : w'.written ≡ pkt ∷ with_blanks parts w.written
    pub released : w'.freed ≡ last.block ∷ with_freed parts w.freed
    pub same_codecs : w'.codecs ≡ w.codecs

  abbrev pub Ends :
      Writer Head → List Packet → Packet → List Packet → AvPacket → Outcome (Writer Head) → Type 0
  Ends w parts last rest pkt (ok w') = Reassembled w parts last rest pkt w'
  Ends w parts last rest pkt _ = ⊥

  nal_end :
      (w : Writer Head) (last : Packet) (rest : List Packet) (pkt : AvPacket) (s : MuxState)
      {bytes : List ℕ}
      → IsReady w bytes
      → contents api w.encoded_video_queue ≡ last ∷ rest
      → Behind w.mux s
      → Reassembled w [] last rest pkt (record w {
        mux = s;
        encoded_video_queue = (unlink_first api w.encoded_video_queue).1;
        written = if s.flush_framebuf then pkt ∷ w.written else w.written;
        freed = last.block ∷ w.freed;
      })
  nal_end w last rest pkt s r e b = record {
    ready = record {
      has_sps = ap is_some b.same_sps ∙ r.has_sps;
      has_pps = ap is_some b.same_pps ∙ r.has_pps;
      buffers = b.empty;
    };
    remaining = (unlink_first-cons api w.encoded_video_queue last rest e).1;
    frames = ground (arith, b.flush, r.has_sps, r.has_pps);
    released = refl;
    same_codecs = refl;
  }

  nal-last :
      (w : Writer Head) (last : Packet) (rest : List Packet) (bytes : List ℕ)
      → IsReady w bytes
      → contents api w.encoded_video_queue ≡ last ∷ rest
      → has_flag last.flags f.endofnal ≡ true
      → IsWhole last
      → length bytes + length last.bytes ≤ one_mb
      → 5 ≤ length (bytes ++ last.bytes)
      → kind (bytes ++ last.bytes) ≡ frame
      → Ends w [] last rest
          (video_packet av f st last (bytes ++ last.bytes) (length (bytes ++ last.bytes)))
          (write_video_frames 1 w)
  unfolding write_video_frames
  nal-last w last rest bytes r e end whole fits long k =
      rw
        (write_video_frame-cons w last rest _ _ _ _ e (
          mux_packet-frame av f st last (flushing w.mux) w.codecs bytes end whole
            (record { block = r.buffers.block; offset = r.buffers.offset }) fits long k))
        (nal_end w last rest _ _ r e (Behind-nal bytes w.mux r.buffers))

  -- The writer behind a part of a NAL unit.
  after_part : Writer Head → Packet → List ℕ → Writer Head
  after_part w p bytes = record w {
    mux = record (flushing w.mux) {
      buf = some (bytes ++ p.bytes);
      buf_offset = length bytes + length p.bytes;
    };
    encoded_video_queue = (unlink_first api w.encoded_video_queue).1;
    written = blank_packet ∷ w.written;
    freed = p.block ∷ p.payload ∷ w.freed;
  }

  part_step :
      (w : Writer Head) (p : Packet) (ps : List Packet) (bytes : List ℕ)
      → IsReady w bytes
      → contents api w.encoded_video_queue ≡ p ∷ ps
      → has_flag p.flags f.endofnal ≡ false
      → IsWhole p
      → length bytes + length p.bytes ≤ one_mb
      → write_video_frame api av f st w ≡ ok (after_part w p bytes)
  unfolding after_part
  part_step w p ps bytes r e partial whole fits =
      let flush : (is_some w.mux.pps && is_some w.mux.sps) ≡ true =
        ground (arith, r.has_sps, r.has_pps) in
      write_video_frame-cons w p ps _ _ _ _ e (
        mux_packet-partial av f st p (flushing w.mux) w.codecs bytes partial whole
          (record { block = r.buffers.block; offset = r.buffers.offset }) fits)
      ∙ rw flush

  part-IsReady :
      (w : Writer Head) (p : Packet) (bytes : List ℕ)
      → IsReady w bytes
      → IsReady (after_part w p bytes) (bytes ++ p.bytes)
  unfolding after_part
  part-IsReady w p bytes r = record {
    has_sps = r.has_sps;
    has_pps = r.has_pps;
    buffers = record { block = refl; offset = sym (length-append bytes p.bytes) };
  }

  part_remaining :
      (w : Writer Head) (p : Packet) (ps : List Packet) (bytes : List ℕ)
      → contents api w.encoded_video_queue ≡ p ∷ ps
      → contents api (after_part w p bytes).encoded_video_queue ≡ ps
  unfolding after_part
  part_remaining w p ps bytes e = (unlink_first-cons api w.encoded_video_queue p ps e).1

  -- What ends behind a part ends behind the whole.
  behind_part :
      (w : Writer Head) (p : Packet) (bytes : List ℕ) (parts : List Packet) (last : Packet)
      (rest : List Packet) (pkt : AvPacket) (o : Outcome (Writer Head))
      → Ends (after_part w p bytes) parts last rest pkt o
      → Ends w (p ∷ parts) last rest pkt o
  unfolding after_part
  behind_part w p bytes parts last rest pkt (ok w') h = record {
    ready = h.ready;
    remaining = h.remaining;
    frames = h.frames;
    released = h.released;
    same_codecs = h.same_codecs;
  }
  behind_part w p bytes parts last rest pkt (exits _) h = h
  behind_part w p bytes parts last rest pkt blocks h = h
  behind_part w p bytes parts last rest pkt fault h = h

  nal_reassembled_from :
      (w : Writer Head) (parts : List Packet) (last : Packet) (rest : List Packet)
      (bytes nal : List ℕ)
      → IsReady w bytes
      → contents api w.encoded_video_queue ≡ parts ++ last ∷ rest
      → AllPartial f parts
      → has_flag last.flags f.endofnal ≡ true
      → IsWhole last
      → bytes ++ (joined parts ++ last.bytes) ≡ nal
      → length nal ≤ one_mb
      → 5 ≤ length nal
      → kind nal ≡ frame
      → Ends w parts last rest
          (video_packet av f st last nal (length nal))
          (write_video_frames (suc (length parts)) w)
  unfolding write_video_frames
  nal_reassembled_from w [] last rest bytes nal r e partial end whole same fits long k =
      rw (sym same) (
        nal-last w last rest bytes r e end whole
          (omega (arith, ap length same, length-append bytes last.bytes))
          (omega (arith, ap length same)) (ap kind same ∙ k))
  nal_reassembled_from w (p ∷ parts) last rest bytes nal r e partial end whole same fits long k =
      let fits_part : length bytes + length p.bytes ≤ one_mb = omega (
        arith,
        ap length same,
        length-append bytes (p.bytes ++ joined parts ++ last.bytes),
        length-append p.bytes (joined parts ++ last.bytes),
        ap length (append_assoc p.bytes (joined parts) last.bytes),
      ) in
      let regrouped : (bytes ++ p.bytes) ++ (joined parts ++ last.bytes) ≡ nal =
        simp (append_assoc, sym same) in
      rw (part_step w p (parts ++ last ∷ rest) bytes r e partial.0 partial.1 fits_part) (
        behind_part w p bytes parts last rest _ _ (
          nal_reassembled_from (after_part w p bytes) parts last rest (bytes ++ p.bytes) nal
            (part-IsReady w p bytes r) (part_remaining w p (parts ++ last ∷ rest) bytes e) partial.2
            end whole regrouped fits long k))

  -- Both parameter sets are held, nothing is buffered, and the queue starts with the packets
  -- `parts`, which lack the flag of the end of a NAL unit, and `last`, which has it; the length of
  -- each is that of its bytes, and the NAL unit has 5 bytes or more, at most one megabyte, and is
  -- a frame. As many calls of `write_video_frame` as there are packets write one `AVPacket` that
  -- holds the bytes of all of them in order, with their number as its size and with the mark of a key
  -- frame and the time stamp of `last`, behind one empty `AVPacket` for each of `parts`; they leave
  -- nothing buffered, keep the parameter sets, and free each struct once and the bytes of `parts`.
  pub nal_reassembled :
      (w : Writer Head) (parts : List Packet) (last : Packet) (rest : List Packet)
      → IsReady w []
      → contents api w.encoded_video_queue ≡ parts ++ last ∷ rest
      → AllPartial f parts
      → has_flag last.flags f.endofnal ≡ true
      → IsWhole last
      → length (joined parts ++ last.bytes) ≤ one_mb
      → 5 ≤ length (joined parts ++ last.bytes)
      → kind (joined parts ++ last.bytes) ≡ frame
      → let nal = joined parts ++ last.bytes in
        Ends w parts last rest
          (video_frame av f st last nal)
          (write_video_frames (suc (length parts)) w)
  unfolding video_packet
  nal_reassembled w parts last rest r e partial end whole fits long k =
      nal_reassembled_from w parts last rest [] (joined parts ++ last.bytes) r e partial end whole
        refl fits long k
