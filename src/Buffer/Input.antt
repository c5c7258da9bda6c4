-- ===== src/Buffer/Input.antt =====
-- `omx_get_next_input_buffer`: the first buffer of the list that holds no data, which stays in the
-- list.
use omxtranscode.Base.{
  ℕ, ◌<◌, ◌≡◌, ◌∙◌, ◌≢◌, refl, Bool, true, false, ◌||◌, not, some, List, [], ◌∷◌, ◌++◌, arith, ◌==◌,
  if◌then◌else◌, length, ok, ◌⊎◌, inl, inr, Bool-cases,
}
use omxtranscode.PacketQueue.{Ptr}
use omxtranscode.Omx.{BufferHeader, Heap, Part, Machine}
use omxtranscode.Omx.Wait.{same_part_refl}
use omxtranscode.Buffer.{
  try_input, input_loop, omx_get_next_input_buffer, omx_empty_buffer_done, with_component,
}
use omxtranscode.Buffer.Chain.{Chain, first_empty, find_empty-first}

-- Each of the buffers holds data.
abbrev pub AllFilled : Heap → List Ptr → Type 0
AllFilled h [] = Unit {0}
AllFilled h (a ∷ bs) = ((b : BufferHeader) × (h a ≡ some b) × (b.n_filled_len ≢ 0)) × AllFilled h bs

first_empty-filled : (h : Heap) (bs : List Ptr) → AllFilled h bs → first_empty h bs ≡ 0
first_empty-filled h [] f = refl
first_empty-filled h (a ∷ bs) f = ground (arith, first_empty-filled h bs f.1)

first_empty-append :
    (h : Heap) (bs : List Ptr) (a : Ptr) (b : BufferHeader) (cs : List Ptr)
    → AllFilled h bs
    → h a ≡ some b
    → b.n_filled_len ≡ 0
    → first_empty h (bs ++ a ∷ cs) ≡ a
first_empty-append h [] a b cs f e empty = ground arith
first_empty-append h (x ∷ bs) a b cs f e empty =
    ground (arith, first_empty-append h bs a b cs f.1 e empty)

Chain-member :
    (h : Heap) (p : Ptr) (bs : List Ptr) (a : Ptr) (cs : List Ptr)
    → Chain h p (bs ++ a ∷ cs)
    → a ≢ 0
Chain-member h p [] a cs c = c.1
Chain-member h p (x ∷ bs) a cs c = Chain-member h c.2.0.p_app_private bs a cs c.2.2

-- What `omx_empty_buffer_done` leaves: the heap, the list, and a flag that is set.
module _ (p : Part) (m : Machine) where
  done-heap : (omx_empty_buffer_done p m).heap ≡ m.heap
  unfolding omx_empty_buffer_done
  done-heap = ground arith

  done-in_buffers :
      ((omx_empty_buffer_done p m).component p).in_buffers ≡ (m.component p).in_buffers
  unfolding omx_empty_buffer_done
  done-in_buffers = ground (arith, same_part_refl p)

  done-flag : ((omx_empty_buffer_done p m).component p).buf_in_notempty ≢ 0
  unfolding omx_empty_buffer_done
  done-flag = ground (arith, same_part_refl p)

module _ (k : ℕ) (p : Part) where
  -- The call tests the list in this round.
  abbrev active : Bool → Machine → Bool
  active retrying m = retrying || not ((m.component p).buf_in_notempty == 0)

  -- The list of `p`, short enough for the fuel, holds no empty buffer.
  pub record IsFull (m : Machine) : Type 0 where
    pub buffers : List Ptr
    pub chain : Chain m.heap (m.component p).in_buffers buffers
    pub filled : AllFilled m.heap buffers
    pub fuel : length buffers < k

  -- The machine as the call leaves it to the other threads: a round that finds no empty buffer
  -- clears the flag.
  abbrev pub at_wait : Bool → Machine → Machine
  at_wait retrying m =
      if active retrying m then with_component p (λ c. record c { buf_in_notempty = 0 }) m else m

  abbrev pub settled : Bool → List (Machine → Machine) → Machine → Machine
  settled retrying [] m = m
  settled retrying (w ∷ ws) m = settled false ws (w (at_wait retrying m))

  -- In each round that tests the list no buffer is empty.
  abbrev pub StaysFull : Bool → List (Machine → Machine) → Machine → Type 0
  StaysFull retrying [] m = Unit {0}
  StaysFull retrying (w ∷ ws) m =
      ((active retrying m ≡ false) ⊎ IsFull m) × StaysFull false ws (w (at_wait retrying m))

  round-full :
      (m : Machine)
      → IsFull m
      → try_input k p m ≡ ok (0, with_component p (λ c. record c { buf_in_notempty = 0 }) m)
  unfolding try_input
  round-full m f = rw (
    find_empty-first m.heap k (m.component p).in_buffers f.buffers f.chain f.fuel,
    first_empty-filled m.heap f.buffers f.filled,
  )

  wait_once :
      (retrying : Bool) (w : Machine → Machine) (ws : List (Machine → Machine)) (m : Machine)
      → (active retrying m ≡ false) ⊎ IsFull m
      → input_loop k p retrying (w ∷ ws) m ≡ input_loop k p false ws (w (at_wait retrying m))
  unfolding input_loop
  wait_once retrying w ws m (inl e) = rw (e, input_loop)
  wait_once retrying w ws m (inr f) = elim (Bool-cases (active retrying m)) [
    | inl e ↦ rw (e, input_loop, round-full m f)
    | inr e ↦ rw (e, input_loop)
  ]

  try_input-found :
      (m : Machine) (bs : List Ptr) (a : Ptr) (b : BufferHeader) (cs : List Ptr)
      → Chain m.heap (m.component p).in_buffers (bs ++ a ∷ cs)
      → AllFilled m.heap bs
      → m.heap a ≡ some b
      → b.n_filled_len ≡ 0
      → length (bs ++ a ∷ cs) < k
      → try_input k p m ≡ ok (a, m)
  unfolding try_input
  try_input-found m bs a b cs c f held empty fuel =
      rw
        (
          find_empty-first m.heap k (m.component p).in_buffers (bs ++ a ∷ cs) c fuel,
          first_empty-append m.heap bs a b cs f held empty,
        )
        (ground (arith, Chain-member m.heap (m.component p).in_buffers bs a cs c))

  -- The round that finds a buffer.
  round-found :
      (retrying : Bool) (ws : List (Machine → Machine)) (m : Machine) (bs : List Ptr) (a : Ptr)
      (b : BufferHeader) (cs : List Ptr)
      → active retrying m ≡ true
      → Chain m.heap (m.component p).in_buffers (bs ++ a ∷ cs)
      → AllFilled m.heap bs
      → m.heap a ≡ some b
      → b.n_filled_len ≡ 0
      → length (bs ++ a ∷ cs) < k
      → input_loop k p retrying ws m ≡ ok (a, m)
  unfolding input_loop
  round-found retrying [] m bs a b cs e c f held empty fuel =
      rw (e, input_loop, try_input-found m bs a b cs c f held empty fuel)
        (ground (arith, Chain-member m.heap (m.component p).in_buffers bs a cs c))
  round-found retrying (w ∷ ws) m bs a b cs e c f held empty fuel =
      rw (e, input_loop, try_input-found m bs a b cs c f held empty fuel)
        (ground (arith, Chain-member m.heap (m.component p).in_buffers bs a cs c))

  -- In the round behind the waits `ws` the list is tested.
  abbrev pub tests_after : Bool → List (Machine → Machine) → Machine → Bool
  tests_after retrying [] m = active retrying m
  tests_after retrying (w ∷ ws) m = tests_after false ws (w (at_wait retrying m))

  input_loop-first :
      (retrying : Bool) (ws later : List (Machine → Machine)) (m : Machine) (bs : List Ptr)
      (a : Ptr) (b : BufferHeader) (cs : List Ptr)
      → StaysFull retrying ws m
      → tests_after retrying ws m ≡ true
      → let m' = settled retrying ws m in
        Chain m'.heap (m'.component p).in_buffers (bs ++ a ∷ cs)
        → AllFilled m'.heap bs
        → m'.heap a ≡ some b
        → b.n_filled_len ≡ 0
        → length (bs ++ a ∷ cs) < k
        → input_loop k p retrying (ws ++ later) m ≡ ok (a, m')
  input_loop-first retrying [] later m bs a b cs full t c f held empty fuel =
      round-found retrying later m bs a b cs t c f held empty fuel
  input_loop-first retrying (w ∷ ws) later m bs a b cs full t c f held empty fuel =
      wait_once retrying w (ws ++ later) m full.0
      ∙ input_loop-first false ws later (w (at_wait retrying m)) bs a b cs full.1 t c f held empty
          fuel

  -- `omx_get_next_input_buffer` waits as long as the rounds `ws` find each buffer of the list with
  -- data, or are woken with the flag `buf_in_notempty` still clear. In the first round behind them that
  -- tests the list it returns the first buffer `a` that holds no data, whatever other threads
  -- would do later, and changes nothing.
  pub next_input-first :
      (ws later : List (Machine → Machine)) (m : Machine) (bs : List Ptr) (a : Ptr)
      (b : BufferHeader) (cs : List Ptr)
      → StaysFull true ws m
      → tests_after true ws m ≡ true
      → let m' = settled true ws m in
        Chain m'.heap (m'.component p).in_buffers (bs ++ a ∷ cs)
        → AllFilled m'.heap bs
        → m'.heap a ≡ some b
        → b.n_filled_len ≡ 0
        → length (bs ++ a ∷ cs) < k
        → omx_get_next_input_buffer k p (ws ++ later) m ≡ ok (a, m')
  unfolding omx_get_next_input_buffer
  next_input-first = input_loop-first true

  pub next_input-woken :
      (later : List (Machine → Machine)) (m : Machine) (bs : List Ptr) (a : Ptr) (b : BufferHeader)
      (cs : List Ptr) (g : Heap)
      → IsFull m
      → Chain g (m.component p).in_buffers (bs ++ a ∷ cs)
      → AllFilled g bs
      → g a ≡ some b
      → b.n_filled_len ≡ 0
      → length (bs ++ a ∷ cs) < k
      → let w = λ (m : Machine). omx_empty_buffer_done p (record m { heap = g }) in
        omx_get_next_input_buffer k p (w ∷ later) m ≡ ok (a, w (at_wait true m))
  next_input-woken later m bs a b cs g full c f held empty fuel =
      let w = λ (m : Machine). omx_empty_buffer_done p (record m { heap = g }) in
      let waiting = record (at_wait true m) { heap = g } in
      next_input-first (w ∷ []) later m bs a b cs (inr full, tt)
        (ground (arith, done-flag p waiting))
        (rw (done-heap p waiting, done-in_buffers p waiting, same_part_refl p) c)
        (rw (done-heap p waiting) f) (rw (done-heap p waiting) held) empty fuel
