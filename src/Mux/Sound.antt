-- ===== src/Mux/Sound.antt =====
-- What the writer holds between two calls: the block of a NAL unit that is not complete yet, and the
-- parameter sets.
use omxtranscode.Base.{
  ℕ, ◌≡◌, ◌≤◌, ◌+◌, ◌∙◌, refl, sym, ap, false, Option, none, some, List, ◌++◌, arith, Bool, ◌&&◌,
  ◌==◌, bit_and, has_flag, length, take, drop, length-take, length-drop, length-append, Bool-cases,
  inl, inr, Holds, Holds-next, Holds-unit,
}
use omxtranscode.External.{BufferFlags}
use omxtranscode.ListApi.{ListApi}
use omxtranscode.PacketQueue.{Packet, packet_queue_get_next_item_asynch}
use omxtranscode.Mux.{
  Av, MuxState, Streams, Writer, CodecContext, one_mb, or_fresh, read_block, copy_into,
  buffer_packet, take_nal, store_parameter_set, extract_pps_ssp_packet, mux_packet, is_some,
  write_video_frame, init_stream_extra_data, has_start_code, read_byte,
}

-- `n` is the number of bytes, if any are held.
abbrev pub IsSized : Option (List ℕ) → ℕ → Type 0
IsSized none n = Unit {0}
IsSized (some bytes) n = length bytes ≡ n

-- The part of the block that has been written is as long as `buf_offset` and inside the block, and
-- the sizes of the parameter sets that are held are those of their bytes.
pub record IsSound (s : MuxState) : Type 0 where
  pub buffered : length (or_fresh s.buf) ≡ s.buf_offset
  pub inside : s.buf_offset ≤ one_mb
  pub sps : IsSized s.sps s.sps_size
  pub pps : IsSized s.pps s.pps_size

read_block-length : (n : ℕ) (bytes : List ℕ) → Holds (λ b. length b ≡ n) (read_block n bytes)
unfolding read_block
read_block-length n bytes = grind (arith, length-take)

copy_into-length :
    (offset : ℕ) (bytes block : List ℕ)
    → length block ≡ offset
    → Holds
        (λ b. (length b ≡ offset + length bytes) × (offset + length bytes ≤ one_mb))
        (copy_into offset bytes block)
unfolding copy_into
copy_into-length offset bytes block e =
    let stored = take offset block ++ (bytes ++ drop (offset + length bytes) block) in
    let size : length stored ≡ offset + length bytes = omega (
      arith,
      length-append (take offset block) (bytes ++ drop (offset + length bytes) block),
      length-append bytes (drop (offset + length bytes) block),
      length-take offset block,
      length-drop (offset + length bytes) block,
    ) in
    ground (arith, size)

buffer_packet-IsSound :
    (p : Packet) (block : List ℕ) (s : MuxState)
    → IsSound s
    → length block ≡ s.buf_offset
    → Holds IsSound (buffer_packet p block s)
unfolding buffer_packet
buffer_packet-IsSound p block s h buffered =
    Holds-next (λ b. length b ≡ p.data_length) IsSound (read_block p.data_length p.bytes) _
      (read_block-length p.data_length p.bytes)
      λ b e.
        Holds-next (λ c. (length c ≡ s.buf_offset + length b) × (s.buf_offset + length b ≤ one_mb))
          IsSound (copy_into s.buf_offset b block) _
          (copy_into-length s.buf_offset b block buffered)
          λ c l. record {
            buffered = omega (arith, l.0, e);
            inside = omega (arith, l.1, e);
            sps = h.sps;
            pps = h.pps;
          }

take_nal-IsSound : (p : Packet) (s : MuxState) → IsSound s → Holds (λ r. IsSound r.1) (take_nal p s)
unfolding take_nal
take_nal-IsSound p s h = elim (Bool-cases (s.buf_offset == 0)) [
  | inl e ↦ rw e h
  | inr e ↦ by_block e s.buf refl
]
  where
    emptied : (s' : MuxState) → IsSound s' → IsSound (record s' { buf = none; buf_offset = 0 })
    emptied s' k = record { buffered = refl; inside = omega arith; sps = k.sps; pps = k.pps }

    by_block :
        (s.buf_offset == 0) ≡ false
        → (b : Option (List ℕ)) → s.buf ≡ b
        → Holds (λ r. IsSound r.1) (take_nal p s)
    by_block some_offset none e = rw (take_nal, some_offset, e) tt
    by_block some_offset (some block) e =
        rw (take_nal, some_offset, e)
          (Holds-next IsSound (λ r. IsSound r.1) (buffer_packet p block s) _
            (buffer_packet-IsSound p block s h (ap (λ z. length (or_fresh z)) (sym e) ∙ h.buffered))
            λ s' k. grind (arith, emptied s' k))

store-IsSound :
    (packet_type : ℕ) (bytes : List ℕ) (size : ℕ) (s : MuxState)
    → IsSound s
    → Holds (λ r. IsSound r.1) (store_parameter_set packet_type bytes size s)
unfolding store_parameter_set
store-IsSound packet_type bytes size s h =
    let with_sps : (copy : List ℕ)
        → length copy ≡ size
        → IsSound (record s { sps = some copy; sps_size = size; flush_framebuf = false }) =
      λ copy e. record { buffered = h.buffered; inside = h.inside; sps = e; pps = h.pps } in
    let with_pps : (copy : List ℕ)
        → length copy ≡ size
        → IsSound (record s { pps = some copy; pps_size = size; flush_framebuf = false }) =
      λ copy e. record { buffered = h.buffered; inside = h.inside; sps = h.sps; pps = e } in
    elim (Bool-cases (packet_type == 7)) [
      | inl e ↦
          rw (store_parameter_set, e)
            (Holds-next (λ b. length b ≡ size) (λ r. IsSound r.1) (read_block size bytes) _
              (read_block-length size bytes) with_sps)
      | inr e ↦ elim (Bool-cases (packet_type == 8)) [
        | inl e' ↦
            rw (store_parameter_set, e, e')
              (Holds-next (λ b. length b ≡ size) (λ r. IsSound r.1) (read_block size bytes) _
                (read_block-length size bytes) with_pps)
        | inr e' ↦ rw (store_parameter_set, e, e') h
      ]
    ]

extract-IsSound :
    (bytes : List ℕ) (size : ℕ) (s : MuxState)
    → IsSound s
    → Holds (λ r. IsSound r.1) (extract_pps_ssp_packet bytes size s)
unfolding extract_pps_ssp_packet
extract-IsSound bytes size s h =
    Holds-next (λ b. Unit {0}) (λ r. IsSound r.1) (has_start_code bytes) _ (Holds-unit _)
      λ found u. elim (Bool-cases found) [
        | inl e ↦ rw e (
            Holds-next (λ b. Unit {0}) (λ r. IsSound r.1) (read_byte bytes 4) _ (Holds-unit _)
              λ b v. store-IsSound (bit_and b 0x1f) bytes size s h)
        | inr e ↦ rw e h
      ]

mux_packet-IsSound :
    (av : Av) (f : BufferFlags) (st : Streams) (p : Packet) (s : MuxState) (c : List CodecContext)
    → IsSound s
    → Holds (λ r. IsSound r.1) (mux_packet av f st p s c)
unfolding mux_packet
mux_packet-IsSound av f st p s c h = elim (Bool-cases (has_flag p.flags f.endofnal)) [
  | inl e ↦
      rw (mux_packet, e)
        (Holds-next (λ r. IsSound r.1) (λ r. IsSound r.1) (take_nal p s) _ (take_nal-IsSound p s h)
          λ r k.
            Holds-next (λ e. IsSound e.1) (λ r. IsSound r.1)
              (extract_pps_ssp_packet r.0.0 r.0.1 r.1) _ (extract-IsSound r.0.0 r.0.1 r.1 k)
              λ x j. elim (Bool-cases x.0) [
                | inl e' ↦ rw e' (
                    Holds-next (λ c'. Unit {0}) (λ r. IsSound r.1)
                      (init_stream_extra_data c x.1 st.video_stream_index) _ (Holds-unit _)
                      (λ c' v. j))
                | inr e' ↦ rw e' j
              ])
  | inr e ↦
      rw (mux_packet, e)
        (Holds-next IsSound (λ r. IsSound r.1) (buffer_packet p (or_fresh s.buf) s) _
          (buffer_packet-IsSound p (or_fresh s.buf) s h h.buffered) λ s' k. k)
]

module _ (api : ListApi Packet) (av : Av) (f : BufferFlags) (st : Streams) where
  open api use {Head}

  pub write_video_frame-IsSound :
      (w : Writer Head)
      → IsSound w.mux
      → Holds (λ w'. IsSound w'.mux) (write_video_frame api av f st w)
  unfolding write_video_frame
  write_video_frame-IsSound w h =
      go (packet_queue_get_next_item_asynch api w.encoded_video_queue).0 refl
    where
      flushed : (b : Bool) → IsSound (record w.mux { flush_framebuf = b })
      flushed b = record { buffered = h.buffered; inside = h.inside; sps = h.sps; pps = h.pps }

      go :
          (item : Option Packet)
          → (packet_queue_get_next_item_asynch api w.encoded_video_queue).0 ≡ item
          → Holds (λ w'. IsSound w'.mux) (write_video_frame api av f st w)
      go none e = rw (write_video_frame, e) (flushed _)
      go (some p) e =
          rw (write_video_frame, e)
            (Holds-next (λ r. IsSound r.1) (λ (w' : Writer Head). IsSound w'.mux)
              (mux_packet av f st p
                (record w.mux { flush_framebuf = is_some w.mux.pps && is_some w.mux.sps }) w.codecs)
              _ (mux_packet-IsSound av f st p _ w.codecs (flushed _)) λ r k. k)
