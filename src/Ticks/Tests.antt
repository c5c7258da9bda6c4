-- ===== src/Ticks/Tests.antt =====
-- The time stamp conversions at concrete values.
use omxtranscode.Base.{◌≡◌, refl, arith, negsuc, to_u64, to_i64}
use omxtranscode.Ticks.{
  OmxTicks, pts_to_omx, omx_to_pts, omx_to_pts-pts_to_omx, pts_to_omx-omx_to_pts, pts-round_trip,
}

abbrev some_ticks : OmxTicks
some_ticks = record { n_low_part = 0xffffffff; n_high_part = 3 }

halves : pts_to_omx 0x3ffffffff ≡ some_ticks
unfolding pts_to_omx
halves = refl

omx_to_pts-pts_to_omx_example : omx_to_pts (pts_to_omx 0x123456789abcdef0) ≡ 0x123456789abcdef0
omx_to_pts-pts_to_omx_example = omx_to_pts-pts_to_omx 0x123456789abcdef0 (omega arith)

pts_to_omx-omx_to_pts_example : pts_to_omx (omx_to_pts some_ticks) ≡ some_ticks
pts_to_omx-omx_to_pts_example = pts_to_omx-omx_to_pts some_ticks (omega arith)

pts-round_trip_example : to_i64 (omx_to_pts (pts_to_omx (to_u64 (negsuc 0)))) ≡ negsuc 0
pts-round_trip_example = pts-round_trip (negsuc 0) (omega arith)
