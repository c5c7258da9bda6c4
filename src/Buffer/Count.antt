-- ===== src/Buffer/Count.antt =====
-- `omx_get_free_buffer_count`
use omxtranscode.Base.{
  ℕ, zero, suc, ◌+◌, ◌<◌, ◌≡◌, ap, ◌∙◌, none, some, List, [], ◌∷◌, arith, ◌==◌, if◌then◌else◌,
  length, ok,
}
use omxtranscode.PacketQueue.{Ptr}
use omxtranscode.Omx.{Heap, Part, Machine}
use omxtranscode.Buffer.{count_loop, omx_get_free_buffer_count}
use omxtranscode.Buffer.Chain.{Chain, load-ok}

-- The number of buffers that hold no data.
abbrev pub free_among : Heap → List Ptr → ℕ
free_among h [] = 0
free_among h (a ∷ bs) =
    let later = free_among h bs in
    elim (h a) [ none ↦ later | some b ↦ if b.n_filled_len == 0 then suc later else later ]

count_loop-free :
    (k : ℕ) (h : Heap) (p : Ptr) (bs : List Ptr) (n : ℕ)
    → Chain h p bs
    → length bs < k
    → count_loop k h p n ≡ ok (n + free_among h bs)
unfolding count_loop
count_loop-free zero h p bs n c fuel = elim fuel [ ]
count_loop-free (suc k) h p [] n c fuel = ground arith
count_loop-free (suc k) h p (a ∷ bs) n c fuel = ground (
  arith,
  load-ok h p c.2.0,
  count_loop-free k h c.2.0.p_app_private bs (if c.2.0.n_filled_len == 0 then n + 1 else n) c.2.2,
)

-- With fuel for the input list, `omx_get_free_buffer_count` is the number of buffers in it that
-- hold no data.
pub free_buffer_count-free :
    (k : ℕ) (p : Part) (m : Machine) (bs : List Ptr)
    → Chain m.heap (m.component p).in_buffers bs
    → length bs < k
    → omx_get_free_buffer_count k p m ≡ ok (free_among m.heap bs)
unfolding omx_get_free_buffer_count
free_buffer_count-free k p m bs c fuel =
    count_loop-free k m.heap (m.component p).in_buffers bs 0 c fuel ∙ ap ok (omega arith)
