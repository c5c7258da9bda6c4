-- ===== src/Ticks.antt =====
-- `pts_to_omx` and `omx_to_pts` of omx.c: a 64-bit time stamp and its two 32-bit halves.
mod Tests
use omxtranscode.Base.{
  ℕ, ◌+◌, ◌*◌, ◌/◌, ◌%◌, ◌^◌, ◌<◌, ◌≡◌, bit_or, arith, ℤ, to_u64, to_i64, IsI64, to_i64-to_u64,
  to_u64-lt, bit_or-shifted, ap, ◌∙◌,
}

-- `OMX_TICKS`
pub record OmxTicks : Type 0 where
  pub n_low_part : ℕ
  pub n_high_part : ℕ

-- The two halves are `OMX_U32`.
unfoldable pub pts_to_omx : ℕ → OmxTicks
pts_to_omx pts = record { n_low_part = pts % 2 ^ 32; n_high_part = pts / 2 ^ 32 % 2 ^ 32 }

unfoldable pub omx_to_pts : OmxTicks → ℕ
omx_to_pts ticks = bit_or (ticks.n_high_part * 2 ^ 32 % 2 ^ 64) ticks.n_low_part

abbrev pub IsTicks : OmxTicks → Type 0
IsTicks t = (t.n_low_part < 2 ^ 32) × (t.n_high_part < 2 ^ 32)

omx_to_pts-sum : (t : OmxTicks) → IsTicks t → omx_to_pts t ≡ t.n_high_part * 2 ^ 32 + t.n_low_part
unfolding omx_to_pts
omx_to_pts-sum t h = ground (arith, bit_or-shifted 32 t.n_high_part t.n_low_part)

-- A 64-bit time stamp survives the way into OpenMAX ticks and back.
pub omx_to_pts-pts_to_omx : (pts : ℕ) → pts < 2 ^ 64 → omx_to_pts (pts_to_omx pts) ≡ pts
unfolding pts_to_omx
omx_to_pts-pts_to_omx pts h = omega (arith, omx_to_pts-sum (pts_to_omx pts) (omega arith))

-- Ticks with 32-bit halves survive the way into a time stamp and back.
pub pts_to_omx-omx_to_pts : (t : OmxTicks) → IsTicks t → pts_to_omx (omx_to_pts t) ≡ t
unfolding pts_to_omx
pts_to_omx-omx_to_pts t h = ground (arith, omx_to_pts-sum t h)

-- A signed 64-bit `PTS` of a packet survives the conversion to `uint64_t`, the way into OpenMAX
-- ticks and back, and the conversion back.
pub pts-round_trip : (pts : ℤ) → IsI64 pts → to_i64 (omx_to_pts (pts_to_omx (to_u64 pts))) ≡ pts
pts-round_trip pts h =
    ap to_i64 (omx_to_pts-pts_to_omx (to_u64 pts) (to_u64-lt pts)) ∙ to_i64-to_u64 pts h
