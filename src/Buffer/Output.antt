-- ===== src/Buffer/Output.antt =====
-- `omx_get_next_output_buffer`: the last buffer of the list is taken off.
use omxtranscode.Base.{
  ℕ, ◌<◌, ◌≡◌, ◌∙◌, ◌≢◌, refl, true, false, some, List, [], ◌∷◌, ◌++◌, arith, ◌==◌, if◌then◌else◌,
  length, ◌⊎◌, inl, inr, Bool-cases, Outcome, ok, exits, blocks, fault, and_then,
}
use omxtranscode.PacketQueue.{Ptr}
use omxtranscode.Omx.{BufferHeader, Part, Machine}
use omxtranscode.Omx.Wait.{same_part_refl}
use omxtranscode.Buffer.{
  write, unlink_last, try_output, output_loop, omx_get_next_output_buffer, with_component,
}
use omxtranscode.Buffer.Chain.{
  Chain, has, Distinct, butlast, last_pair, butlast-append, last_pair-append, Chain-write,
  write_self, write-other, load-ok, set_next-ok, find_last-pair, last-found, cut-butlast, last-out,
  has-apart,
}

-- The output list of `p` is `bs`, without repetition.
pub record IsOutput (p : Part) (m : Machine) (bs : List Ptr) : Type 0 where
  pub chain : Chain m.heap (m.component p).out_buffers bs
  pub distinct : Distinct bs

-- `z` is off the list and has no successor, `bs` stays; the header of `z` but for its successor,
-- the buffers outside the list and the flag `buf_out_notempty` are as they were.
pub record Taken (p : Part) (m : Machine) (bs : List Ptr) (z : Ptr) (m' : Machine) : Type 0 where
  pub rest : Chain m'.heap (m'.component p).out_buffers bs
  pub header : BufferHeader
  pub held : m.heap z ≡ some header
  pub ended : m'.heap z ≡ some (record header { p_app_private = 0 })
  pub others : (x : Ptr) → has x bs ≡ false → (x == z) ≡ false → m'.heap x ≡ m.heap x
  pub flag : (m'.component p).buf_out_notempty ≡ (m.component p).buf_out_notempty

abbrev pub Unlinked : Part → Machine → List Ptr → Ptr → Outcome Machine → Type 0
Unlinked p m bs z (ok m') = Taken p m bs z m'
Unlinked p m bs z _ = ⊥

-- The only buffer of the list.
unlink-single :
    (p : Part) (m : Machine) (a : Ptr)
    → IsOutput p m (a ∷ [])
    → Unlinked p m [] a (unlink_last p 0 a m)
unfolding unlink_last
unlink-single p m a o =
    let b = o.chain.2.0 in
    let e = o.chain.2.1 in
    rw (load-ok m.heap a b o.chain.1 e, set_next-ok m.heap a 0 b o.chain.1 e)
      (record {
        rest = rw (same_part_refl p) o.chain.2.2;
        header = b;
        held = e;
        ended = write_self m.heap a _;
        others = λ x i ne. write-other m.heap a x _ ne;
        flag = rw (same_part_refl p);
      })

unlink-longer :
    (p : Part) (m : Machine) (a a' : Ptr) (bs : List Ptr)
    → IsOutput p m (a ∷ a' ∷ bs)
    → let r = last_pair 0 (a ∷ a' ∷ bs) in
      Unlinked p m (butlast (a ∷ a' ∷ bs)) r.1 (unlink_last p r.0 r.1 m)
unfolding unlink_last
unlink-longer p m a a' bs o =
    let y = (last_pair 0 (a ∷ a' ∷ bs)).0 in
    let z = (last_pair 0 (a ∷ a' ∷ bs)).1 in
    let end = last-found m.heap 0 (m.component p).out_buffers a (a' ∷ bs) o.chain in
    let cut = cut-butlast m.heap 0 (m.component p).out_buffers a a' bs o.chain o.distinct in
    let out = last-out m.heap 0 a (a' ∷ bs) o.distinct in
    let apart = has-apart z y (butlast (a ∷ a' ∷ bs)) out cut.1 in
    let b = end.2.0 in
    let h = write m.heap y (some (record cut.2.0 { p_app_private = 0 })) in
    let e : h z ≡ some b = write-other m.heap y z _ apart ∙ end.2.1 in
    let some_y : (y == 0) ≡ false = ground (arith, cut.0) in
    rw
      (
        load-ok m.heap z b end.0 end.2.1,
        some_y,
        end.2.2,
        set_next-ok m.heap y 0 cut.2.0 cut.0 cut.2.1,
        set_next-ok h z 0 b end.0 e,
      )
      (record {
        rest = Chain-write h (m.component p).out_buffers z _ (butlast (a ∷ a' ∷ bs)) cut.2.2 out;
        header = b;
        held = end.2.1;
        ended = write_self h z _;
        others = λ x i ne.
            write-other h z x _ ne
            ∙ write-other m.heap y x _ (has-apart x y (butlast (a ∷ a' ∷ bs)) i cut.1);
        flag = refl;
      })

abbrev pub Returned : Part → Machine → List Ptr → Ptr → Outcome (Ptr × Machine) → Type 0
Returned p m bs z (ok (r, m')) = (r ≡ z) × Taken p m bs z m'
Returned p m bs z _ = ⊥

-- A round that has found a buffer is the last one, whatever the next round would do.
found :
    (p : Part) (m : Machine) (bs : List Ptr) (y z : Ptr) (o : Outcome Machine)
    (again : (Ptr × Ptr) × Machine → Outcome (Ptr × Machine))
    → z ≢ 0
    → Unlinked p m bs z o
    → Returned p m bs z (
        and_then {A = (Ptr × Ptr) × Machine}
          (and_then o λ m'. ok ((y, z), m'))
          λ r. elim (r.0.1 == 0) [ true ↦ again r | false ↦ ok (r.0.1, r.1) ])
found p m bs y z (ok m') again ne t = ground (arith, t)
found p m bs y z (exits n) again ne t = absurd t
found p m bs y z blocks again ne t = absurd t
found p m bs y z fault again ne t = absurd t

unlink-last :
    (p : Part) (m : Machine) (a : Ptr) (bs : List Ptr)
    → IsOutput p m (a ∷ bs)
    → let r = last_pair 0 (a ∷ bs) in Unlinked p m (butlast (a ∷ bs)) r.1 (unlink_last p r.0 r.1 m)
unlink-last p m a [] o = unlink-single p m a o
unlink-last p m a (a' ∷ bs) o = unlink-longer p m a a' bs o

try_output-last :
    (k : ℕ) (p : Part) (m : Machine) (a : Ptr) (bs : List Ptr)
    → IsOutput p m (a ∷ bs)
    → length (a ∷ bs) < k
    → try_output k p 0 m
      ≡ and_then
          (unlink_last p (last_pair 0 (a ∷ bs)).0 (last_pair 0 (a ∷ bs)).1 m)
          λ m'. ok (last_pair 0 (a ∷ bs), m')
unfolding try_output
try_output-last k p m a bs o fuel =
    let some_z : ((last_pair 0 (a ∷ bs)).1 == 0) ≡ false =
      ground (arith, (last-found m.heap 0 (m.component p).out_buffers a bs o.chain).0) in
    rw (find_last-pair m.heap k 0 (m.component p).out_buffers (a ∷ bs) o.chain fuel, some_z)

module _ (k : ℕ) (p : Part) where
  round :
      (m : Machine) (a : Ptr) (bs : List Ptr)
      (again : (Ptr × Ptr) × Machine → Outcome (Ptr × Machine))
      → IsOutput p m (a ∷ bs)
      → length (a ∷ bs) < k
      → Returned p m (butlast (a ∷ bs)) (last_pair 0 (a ∷ bs)).1 (
          and_then
            (try_output k p 0 m)
            λ r. elim (r.0.1 == 0) [ true ↦ again r | false ↦ ok (r.0.1, r.1) ])
  round m a bs again o fuel = rw (try_output-last k p m a bs o fuel) (
      found p m _ _ _ (unlink_last p (last_pair 0 (a ∷ bs)).0 (last_pair 0 (a ∷ bs)).1 m) again
        (last-found m.heap 0 (m.component p).out_buffers a bs o.chain).0 (unlink-last p m a bs o))

  ready :
      (ws : List (Machine → Machine)) (m : Machine) (a : Ptr) (bs : List Ptr)
      → ((m.component p).buf_out_notempty == 0) ≡ false
      → IsOutput p m (a ∷ bs)
      → length (a ∷ bs) < k
      → Returned p m (butlast (a ∷ bs)) (last_pair 0 (a ∷ bs)).1 (output_loop k p 0 ws m)
  unfolding output_loop
  ready [] m a bs flag o fuel = rw (flag, output_loop) (round m a bs (λ _. blocks) o fuel)
  ready (w ∷ ws) m a bs flag o fuel =
      rw (flag, output_loop) (round m a bs (λ r. output_loop k p r.0.0 ws (w r.1)) o fuel)

  ready_append :
      (ws : List (Machine → Machine)) (m : Machine) (bs : List Ptr) (z : Ptr)
      → (m.component p).buf_out_notempty ≢ 0
      → IsOutput p m (bs ++ z ∷ [])
      → length (bs ++ z ∷ []) < k
      → Returned p m bs z (output_loop k p 0 ws m)
  ready_append ws m [] z flag o fuel = ready ws m z [] (ground arith) o fuel
  ready_append ws m (a ∷ bs) z flag o fuel =
      rw (butlast-append (a ∷ bs) z, last_pair-append 0 (a ∷ bs) z) at
        (ready ws m a (bs ++ z ∷ []) (ground arith) o fuel)

  -- The machine as the call leaves it to the other threads: a call that finds the list empty
  -- clears the flag.
  abbrev pub at_wait : Machine → Machine
  at_wait m =
      if (m.component p).buf_out_notempty == 0
      then m
      else with_component p (λ c. record c { buf_out_notempty = 0 }) m

  abbrev pub settled : List (Machine → Machine) → Machine → Machine
  settled [] m = m
  settled (w ∷ ws) m = settled ws (w (at_wait m))

  -- Before each wait the flag is clear or the list is empty.
  abbrev pub StaysIdle : List (Machine → Machine) → Machine → Type 0
  StaysIdle [] m = Unit {0}
  StaysIdle (w ∷ ws) m =
      (((m.component p).buf_out_notempty ≡ 0) ⊎ ((m.component p).out_buffers ≡ 0))
      × StaysIdle ws (w (at_wait m))

  wait_once :
      (w : Machine → Machine) (ws : List (Machine → Machine)) (m : Machine)
      → 0 < k
      → ((m.component p).buf_out_notempty ≡ 0) ⊎ ((m.component p).out_buffers ≡ 0)
      → output_loop k p 0 (w ∷ ws) m ≡ output_loop k p 0 ws (w (at_wait m))
  unfolding output_loop try_output
  wait_once w ws m some_fuel idle = elim (Bool-cases ((m.component p).buf_out_notempty == 0)) [
    | inl clear ↦ rw (clear, output_loop)
    | inr set ↦
        let e : (m.component p).out_buffers ≡ 0 = ground (arith, idle) in
        rw (
          set,
          output_loop,
          try_output,
          find_last-pair m.heap k 0 (m.component p).out_buffers [] e some_fuel,
        )
  ]

  -- `omx_get_next_output_buffer` waits while the flag `buf_out_notempty` is clear or the list is
  -- empty. Once the flag is set and the list is `bs` and then `z`, it returns `z`, whatever
  -- other threads would do later, and leaves `bs` as the list, with the header of `z` intact but
  -- for its successor, and the buffers outside the list and the flag as they were.
  pub next_output-last :
      (ws later : List (Machine → Machine)) (m : Machine) (bs : List Ptr) (z : Ptr)
      → StaysIdle ws m
      → ((settled ws m).component p).buf_out_notempty ≢ 0
      → IsOutput p (settled ws m) (bs ++ z ∷ [])
      → length (bs ++ z ∷ []) < k
      → Returned p (settled ws m) bs z (omx_get_next_output_buffer k p (ws ++ later) m)
  unfolding omx_get_next_output_buffer
  next_output-last [] later m bs z idle flag o fuel = ready_append later m bs z flag o fuel
  next_output-last (w ∷ ws) later m bs z idle flag o fuel =
      rw (wait_once w (ws ++ later) m (omega arith) idle.0)
        (next_output-last ws later (w (at_wait m)) bs z idle.1 flag o fuel)
