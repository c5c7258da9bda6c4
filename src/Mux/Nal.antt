-- ===== src/Mux/Nal.antt =====
-- The buffering of partial NAL units in `write_video_frame`.
use omxtranscode.Base.{
  ℕ, suc, ◌+◌, ◌≤◌, ◌≡◌, ◌∙◌, refl, ap, sym, false, Option, none, some, List, [], ◌∷◌, ◌++◌, arith,
  ◌==◌, if◌then◌else◌, ltb, length, length-append, take-all, drop-all, append-nil, has_flag, ok,
}
use omxtranscode.External.{BufferFlags}
use omxtranscode.PacketQueue.{Packet}
use omxtranscode.Mux.{
  MuxState, Av, Streams, CodecContext, one_mb, or_fresh, read_block, copy_into, buffer_packet,
  take_nal, mux_packet, blank_packet,
}

-- The struct's length is that of its bytes.
abbrev pub IsWhole : Packet → Type 0
IsWhole p = length p.bytes ≡ p.data_length

-- `bytes` are buffered.
pub record Buffers (s : MuxState) (bytes : List ℕ) : Type 0 where
  pub block : or_fresh s.buf ≡ bytes
  pub offset : s.buf_offset ≡ length bytes

copy_into-end :
    (bytes new : List ℕ)
    → length bytes + length new ≤ one_mb
    → copy_into (length bytes) new bytes ≡ ok (bytes ++ new)
unfolding copy_into
copy_into-end bytes new fits =
    let test : ltb one_mb (length bytes + length new) ≡ false = ground arith in
    rw (
      test,
      take-all (length bytes) bytes (omega arith),
      drop-all (length bytes + length new) bytes (omega arith),
      append-nil new,
    )

read_block-whole : (p : Packet) → IsWhole p → read_block p.data_length p.bytes ≡ ok p.bytes
unfolding read_block
read_block-whole p w = ground (arith, take-all p.data_length p.bytes)

pub buffer_packet-append :
    (p : Packet) (s : MuxState) (block bytes : List ℕ)
    → IsWhole p
    → block ≡ bytes
    → s.buf_offset ≡ length bytes
    → length bytes + length p.bytes ≤ one_mb
    → buffer_packet p block s
      ≡ ok (record s { buf = some (bytes ++ p.bytes); buf_offset = length bytes + length p.bytes })
unfolding buffer_packet
buffer_packet-append p s block bytes w same offset fits =
    rw (read_block-whole p w, same, offset, copy_into-end bytes p.bytes fits) (ground arith)

-- The end of a NAL takes what is buffered along.
pub take_nal-append :
    (p : Packet) (s : MuxState) (bytes : List ℕ)
    → IsWhole p
    → Buffers s bytes
    → length bytes + length p.bytes ≤ one_mb
    → take_nal p s
      ≡ ok (
        (bytes ++ p.bytes, length (bytes ++ p.bytes)),
        if length bytes == 0 then s else record s { buf = none; buf_offset = 0 },
      )
unfolding take_nal
take_nal-append p s [] w b fits = ground (arith, b.offset)
take_nal-append p s (x ∷ bytes) w b fits =
    rw (let none_left : (suc (length bytes) == 0) ≡ false = ground arith in none_left)
      (buffered s.buf refl)
  where
    buffered :
        (o : Option (List ℕ))
        → s.buf ≡ o
        → take_nal p s
          ≡ ok (
            (x ∷ (bytes ++ p.bytes), suc (length (bytes ++ p.bytes))),
            record s { buf = none; buf_offset = 0 },
          )
    buffered none e = cc (b.block, ap or_fresh e)
    buffered (some block) e =
        let some_offset : (s.buf_offset == 0) ≡ false = ground (arith, b.offset) in
        let same : block ≡ x ∷ bytes = sym (ap or_fresh e) ∙ b.block in
        rw (some_offset, e, buffer_packet-append p s block (x ∷ bytes) w same b.offset fits)
          (ground (arith, length-append bytes p.bytes))

module _ (av : Av) (f : BufferFlags) (st : Streams) where
  -- A packet without the end of a NAL is buffered; its bytes are freed.
  pub mux_packet-partial :
      (p : Packet) (s : MuxState) (c : List CodecContext) (bytes : List ℕ)
      → has_flag p.flags f.endofnal ≡ false
      → IsWhole p
      → Buffers s bytes
      → length bytes + length p.bytes ≤ one_mb
      → mux_packet av f st p s c
        ≡ ok (
          blank_packet,
          record s { buf = some (bytes ++ p.bytes); buf_offset = length bytes + length p.bytes },
          c,
          p.payload ∷ [],
        )
  unfolding mux_packet
  mux_packet-partial p s c bytes partial w b fits =
      rw (partial, buffer_packet-append p s (or_fresh s.buf) bytes w b.block b.offset fits)
