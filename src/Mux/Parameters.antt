-- ===== src/Mux/Parameters.antt =====
-- The parameter sets of the H.264 stream: `extract_pps_ssp_packet` and `init_stream_extra_data`.
use omxtranscode.Base.{
  ℕ, ◌+◌, ◌%◌, ◌^◌, ◌≤◌, ◌<◌, ◌≡◌, refl, Bool, true, false, ◌&&◌, Option, none, some, List, ◌∷◌,
  ◌++◌, arith, ◌==◌, if◌then◌else◌, length, length-append, take-all, get_elem?, set, bit_and,
  bit_and-low_five, ok, Bool-cases, inl, inr,
}
use omxtranscode.Mux.{
  MuxState, CodecContext, is_some, read_block, read_byte, has_start_code, store_parameter_set,
  extract_pps_ssp_packet, join_parameter_sets, renew_extra_data, init_stream_extra_data,
}

-- What a NAL unit behind the start code 0 0 0 1 is, by the low five bits of its first byte.
pub data NalKind : Type 0 where
  frame sequence_set picture_set : NalKind

abbrev pub unit_type : ℕ → NalKind
unit_type b = if b % 32 == 7 then sequence_set else if b % 32 == 8 then picture_set else frame

abbrev pub kind : List ℕ → NalKind
kind (b0 ∷ b1 ∷ b2 ∷ b3 ∷ b4 ∷ bytes) =
    if (b0 == 0) && ((b1 == 0) && ((b2 == 0) && (b3 == 1))) then unit_type b4 else frame
kind _ = frame

-- The state behind a NAL unit.
abbrev pub with_set : NalKind → List ℕ → MuxState → MuxState
with_set frame nal s = s
with_set sequence_set nal s = record s {
  sps = some nal;
  sps_size = length nal;
  flush_framebuf = false;
}
with_set picture_set nal s = record s {
  pps = some nal;
  pps_size = length nal;
  flush_framebuf = false;
}

abbrev pub is_set : NalKind → Bool
is_set frame = false
is_set _ = true

read_all : (bytes : List ℕ) → read_block (length bytes) bytes ≡ ok bytes
unfolding read_block
read_all bytes = ground (arith, take-all (length bytes) bytes)

start_code :
    (b0 b1 b2 b3 b4 : ℕ) (bytes : List ℕ)
    → has_start_code (b0 ∷ b1 ∷ b2 ∷ b3 ∷ b4 ∷ bytes)
      ≡ ok ((b0 == 0) && ((b1 == 0) && ((b2 == 0) && (b3 == 1))))
unfolding has_start_code read_byte
start_code b0 b1 b2 b3 b4 bytes = ground arith

stored :
    (b : ℕ) (nal : List ℕ) (s : MuxState)
    → store_parameter_set (bit_and b 0x1f) nal (length nal) s
      ≡ ok (is_set (unit_type b), with_set (unit_type b) nal s)
unfolding store_parameter_set
stored b nal s = ground (arith, bit_and-low_five b, read_all nal)

-- `extract_pps_ssp_packet` on a NAL unit of at least five bytes keeps a parameter set, whole, in
-- the place of the last one and tells of it; it changes nothing for any other unit.
pub extract-kind :
    (nal : List ℕ) (s : MuxState)
    → 5 ≤ length nal
    → extract_pps_ssp_packet nal (length nal) s ≡ ok (is_set (kind nal), with_set (kind nal) nal s)
unfolding extract_pps_ssp_packet read_byte
extract-kind (b0 ∷ b1 ∷ b2 ∷ b3 ∷ b4 ∷ bytes) s h =
    rw (start_code b0 b1 b2 b3 b4 bytes)
      (elim (Bool-cases ((b0 == 0) && ((b1 == 0) && ((b2 == 0) && (b3 == 1))))) [
        | inl found ↦ rw found (stored b4 (b0 ∷ b1 ∷ b2 ∷ b3 ∷ b4 ∷ bytes) s)
        | inr other ↦ rw other
      ])
extract-kind nal s h = absurd (omega arith)

-- The extra data for the parameter sets held: both of them in order, or none.
abbrev pub extra_data : CodecContext → Option (List ℕ) → Option (List ℕ) → CodecContext
extra_data c (some sps) (some pps) = record {
  extradata = some (sps ++ pps);
  extradata_size = length (sps ++ pps);
}
extra_data c _ _ =
    if is_some c.extradata then record { extradata = none; extradata_size = 0 } else c

-- The sizes are those of the parameter sets held, and fit an `uint32_t` together.
abbrev pub LengthOf : Option (List ℕ) → ℕ → Type 0
LengthOf none n = Unit {0}
LengthOf (some l) n = n ≡ length l

pub record AreSized (s : MuxState) : Type 0 where
  pub sps_fits : LengthOf s.sps s.sps_size
  pub pps_fits : LengthOf s.pps s.pps_size
  pub sum_fits : s.sps_size + s.pps_size < 2 ^ 32

join-append :
    (sps pps : List ℕ)
    → length sps + length pps < 2 ^ 32
    → join_parameter_sets sps (length sps) pps (length pps)
      ≡ ok (record { extradata = some (sps ++ pps); extradata_size = length (sps ++ pps) })
unfolding join_parameter_sets
join-append sps pps fits = rw (read_all sps, read_all pps) (ground (arith, length-append sps pps))

size_of : (o : Option (List ℕ)) (l : List ℕ) (n : ℕ) → o ≡ some l → LengthOf o n → n ≡ length l
size_of none l n e h = cc
size_of (some l') l n e h = ground arith

renew-extra_data :
    (sps pps : Option (List ℕ)) (s : MuxState) (c : CodecContext)
    → s.sps ≡ sps
    → s.pps ≡ pps
    → AreSized s
    → renew_extra_data s c ≡ ok (extra_data c sps pps)
unfolding renew_extra_data
renew-extra_data (some sps) (some pps) s c e1 e2 z = ground (
  arith,
  size_of s.sps sps s.sps_size e1 z.sps_fits,
  size_of s.pps pps s.pps_size e2 z.pps_fits,
  join-append sps pps,
)
renew-extra_data none pps s c e1 e2 z = ground arith
renew-extra_data (some sps) none s c e1 e2 z = ground arith

-- If there is a stream at the index, and the sizes are those of the parameter sets held and fit an
-- `uint32_t` together: `init_stream_extra_data` gives the codec context at the index the sequence
-- parameter set and then the picture parameter set once both are held; before, it clears old extra
-- data. No other context changes.
pub init_extra_data-set :
    (codecs : List CodecContext) (s : MuxState) (i : ℕ) (c : CodecContext)
    → get_elem? codecs i ≡ some c
    → AreSized s
    → init_stream_extra_data codecs s i ≡ ok (set codecs i (extra_data c s.sps s.pps))
unfolding init_stream_extra_data
init_extra_data-set codecs s i c e z =
    rw (e, init_stream_extra_data, renew-extra_data s.sps s.pps s c refl refl z)
