-- ===== src/Buffer/Race.antt =====
-- `omx_get_next_input_buffer` and `omx_empty_buffer_done` in finer steps. OpenMAX empties a header
-- without the mutex, and the callback tests `buf_in_notempty` without it, so both may fall between any
-- two steps of the reader, also while it walks along the list.
use omxtranscode.Base.{
  ◌&&◌, ltb, ℕ, ◌+◌, ◌<◌, ◌≡◌, ◌≢◌, ◌∙◌, ap, Bool, true, false, ◌||◌, arith, ◌==◌, if◌then◌else◌,
  Bool-cases, inl, inr,
}

-- The reader: before it takes the mutex; with the mutex, at a place of the list or, having found no
-- empty buffer, behind it, and before the test of `buf_in_notempty`; in `pthread_cond_wait`; with the
-- buffer at a place.
pub data ReaderAt : Type 0 where
  retries found_none before_test in_wait : ReaderAt
  walks has_buffer : (place : ℕ) → ReaderAt

-- The callback: not running; before its test; before it takes the mutex.
pub data CallbackAt : Type 0 where
  idle called before_lock : CallbackAt

-- The list has `count` headers, of which `is_empty` tells `nFilledLen == 0`. `raced` tells that the
-- callback has read 1 after the reader last took the mutex to search and before it cleared the flag.
pub record Race : Type 0 where
  pub count : ℕ
  pub is_empty : ℕ → Bool
  pub buf_in_notempty : ℕ
  pub reader : ReaderAt
  pub callback : CallbackAt
  pub raced : Bool

-- The reader searches, or has found nothing and not cleared the flag yet.
abbrev pub searches : ReaderAt → Bool
searches (walks i) = true
searches found_none = true
searches _ = false

-- The reader holds the mutex.
abbrev pub is_locked : ReaderAt → Bool
is_locked before_test = true
is_locked r = searches r

abbrev pub change : (place : ℕ) → Bool → (ℕ → Bool) → ℕ → Bool
change place b is_empty j = if j == place then b else is_empty j

pub data RaceStep : Race → Race → Type 0 where
  -- `omx_get_next_input_buffer`
  locks :
      (s : Race) → s.reader ≡ retries → RaceStep s (record s { reader = walks 0; raced = false })
  passes :
      (s : Race) (i : ℕ)
      → s.reader ≡ walks i
      → i < s.count
      → s.is_empty i ≡ false
      → RaceStep s (record s { reader = walks (i + 1) })
  finds :
      (s : Race) (i : ℕ)
      → s.reader ≡ walks i
      → i < s.count
      → s.is_empty i ≡ true
      → RaceStep s (record s { reader = has_buffer i })
  misses : (s : Race) → s.reader ≡ walks s.count → RaceStep s (record s { reader = found_none })
  clears :
      (s : Race)
      → s.reader ≡ found_none
      → RaceStep s (record s { reader = before_test; buf_in_notempty = 0 })
  waits :
      (s : Race)
      → s.reader ≡ before_test
      → s.buf_in_notempty ≡ 0
      → RaceStep s (record s { reader = in_wait })
  leaves :
      (s : Race)
      → s.reader ≡ before_test
      → s.buf_in_notempty ≢ 0
      → RaceStep s (record s { reader = retries })
  -- after a signal or without
  wakes : (s : Race) → s.reader ≡ in_wait → RaceStep s (record s { reader = before_test })
  -- `decode_thread` fills the buffer, hands it to OpenMAX and calls again
  fills :
      (s : Race) (i : ℕ)
      → s.reader ≡ has_buffer i
      → RaceStep s (record s { reader = retries; is_empty = change i false s.is_empty })
  -- OpenMAX empties a buffer, and then calls `omx_empty_buffer_done`
  empties :
      (s : Race) (i : ℕ)
      → s.callback ≡ idle
      → RaceStep s (record s { callback = called; is_empty = change i true s.is_empty })
  reads_zero :
      (s : Race)
      → s.callback ≡ called
      → s.buf_in_notempty ≡ 0
      → RaceStep s (record s { callback = before_lock })
  reads_one :
      (s : Race)
      → s.callback ≡ called
      → s.buf_in_notempty ≢ 0
      → RaceStep s (record s { callback = idle; raced = s.raced || searches s.reader })
  sets :
      (s : Race)
      → s.callback ≡ before_lock
      → is_locked s.reader ≡ false
      → RaceStep s (record s { callback = idle; buf_in_notempty = 1 })

pub data RaceReach (start : Race) : Race → Type 0 where
  here : RaceReach start start
  next : {s t : Race} → RaceReach start s → RaceStep s t → RaceReach start t

-- The places that the reader takes to hold data: those that it has passed, and all of them once it
-- has found none and until the flag tells it to search again.
abbrev is_passed : Race → ℕ → Bool
is_passed s j = elim s.reader [
  | walks i ↦ ltb j i
  | found_none ↦ ltb j s.count
  | before_test ↦ (s.buf_in_notempty == 0) && ltb j s.count
  | in_wait ↦ (s.buf_in_notempty == 0) && ltb j s.count
  | _ ↦ false
]

abbrev is_idle : CallbackAt → Bool
is_idle idle = true
is_idle _ = false

-- Without a race and a callback under way, these places hold data.
IsHeard : Race → Type 0
IsHeard s =
    (j : ℕ)
    → s.raced ≡ false
    → is_idle s.callback ≡ true
    → is_passed s j ≡ true
    → s.is_empty j ≡ false

step-IsHeard : {s t : Race} → RaceStep s t → IsHeard s → IsHeard t
unfolding IsHeard
step-IsHeard (locks s e) h = λ j. ground (arith, e, h j)
step-IsHeard (passes s i e l f) h = λ j not_raced quiet p. elim (Bool-cases (j == i)) [
  | inl same ↦ ap s.is_empty (ground (arith, same)) ∙ f
  | inr other ↦ h j not_raced quiet (ground (arith, e, other, p))
]
step-IsHeard (finds s i e l f) h = λ j. ground (arith, e, h j)
step-IsHeard (misses s e) h = λ j. ground (arith, e, h j)
step-IsHeard (clears s e) h = λ j. ground (arith, e, h j)
step-IsHeard (waits s e e') h = λ j. ground (arith, e, e', h j)
step-IsHeard (leaves s e e') h = λ j. ground (arith, e, e', h j)
step-IsHeard (wakes s e) h = λ j. ground (arith, e, h j)
step-IsHeard (fills s i e) h = λ j. ground (arith, e, h j)
step-IsHeard (empties s i e) h = λ j. ground (arith, e, h j)
step-IsHeard (reads_zero s e e') h = λ j. ground (arith, e, e', h j)
step-IsHeard (reads_one s e e') h = λ j. ground (arith, e, e', h j)
step-IsHeard (sets s e e') h = λ j. ground (arith, e, e', h j)

reach-IsHeard : {start s : Race} → RaceReach start s → IsHeard start → IsHeard s
reach-IsHeard here h = h
reach-IsHeard (next r step) h = step-IsHeard step (reach-IsHeard r h)

-- The reader waits although the buffer at a place of the list is empty, and no callback is under way
-- that would wake it.
pub record IsLost (s : Race) (place : ℕ) : Type 0 where
  pub asleep : s.reader ≡ in_wait
  pub cleared : s.buf_in_notempty ≡ 0
  pub in_list : place < s.count
  pub empty : s.is_empty place ≡ true
  pub no_callback : s.callback ≡ idle

-- From a reader that is about to take the mutex, under every interleaving of its steps with those of
-- the callback and with OpenMAX emptying buffers, also during the walk along the list: the reader
-- waits with an empty buffer in the list, the flag 0 and no callback under way only if a callback has
-- read 1 after the reader last took the mutex to search and before it cleared the flag.
pub lost-raced :
    (start s : Race) (place : ℕ)
    → start.reader ≡ retries
    → RaceReach start s
    → IsLost s place
    → s.raced ≡ true
unfolding IsHeard
lost-raced start s place e r lost =
    let heard = reach-IsHeard r (λ j not_raced quiet passed. ground (arith, e, passed)) place in
    ground (arith, lost.asleep, lost.cleared, lost.in_list, lost.empty, lost.no_callback, heard)
