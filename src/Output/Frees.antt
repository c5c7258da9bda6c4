-- ===== src/Output/Frees.antt =====
-- The loop of `writer_thread` that frees the output streams.
use omxtranscode.Base.{
  ℕ, zero, suc, ◌+◌, ◌<◌, ◌==◌, ◌++◌, length-append, get_elem?, sym, ◌∙◌, ◌≡◌, ap, refl, some, List,
  [], ◌∷◌, arith, length, Bool-cases, inl, inr,
}
use omxtranscode.Output.Described.{get_elem?-append, get_elem?-append_end}
use omxtranscode.Output.Thread.{FileCall, av_free_codec, av_free_stream, free_streams}

-- Calls in the order of time, on top of a log that has the last first.
abbrev pub onto : List FileCall → List FileCall → List FileCall
onto [] log = log
onto (c ∷ cs) log = onto cs (c ∷ log)

onto-append : (xs ys log : List FileCall) → onto (xs ++ ys) log ≡ onto ys (onto xs log)
onto-append [] ys log = refl
onto-append (x ∷ xs) ys log = onto-append xs ys (x ∷ log)

-- These calls free, stream by stream and nothing else, the codec context and the stream at each of
-- the first `n` places.
pub record FreesEach (n : ℕ) (calls : List FileCall) : Type 0 where
  pub number : length calls ≡ n + n
  pub codec : (i : ℕ) → i < n → get_elem? calls (i + i) ≡ some (av_free_codec i)
  pub stream : (i : ℕ) → i < n → get_elem? calls (i + i + 1) ≡ some (av_free_stream i)

pub freeing : ℕ → List FileCall
freeing zero = []
freeing (suc n) = (freeing n ++ av_free_codec n ∷ []) ++ av_free_stream n ∷ []

pub free_streams-onto : (n : ℕ) (log : List FileCall) → free_streams n log ≡ onto (freeing n) log
unfolding free_streams freeing
free_streams-onto zero log = refl
free_streams-onto (suc n) log =
    ap (λ l. av_free_stream n ∷ av_free_codec n ∷ l) (free_streams-onto n log)
    ∙ ap (λ l. av_free_stream n ∷ l) (sym (onto-append (freeing n) (av_free_codec n ∷ []) log))
    ∙ sym (onto-append (freeing n ++ av_free_codec n ∷ []) (av_free_stream n ∷ []) log)

at_end :
    (calls : List FileCall) (c : FileCall) (k : ℕ)
    → k ≡ length calls
    → get_elem? (calls ++ c ∷ []) k ≡ some c
at_end calls c k e = rw e (get_elem?-append_end calls c)

FreesEach-next :
    (n : ℕ) (calls : List FileCall)
    → FreesEach n calls
    → FreesEach (suc n) ((calls ++ av_free_codec n ∷ []) ++ av_free_stream n ∷ [])
FreesEach-next n calls h = record {
  number = omega (
    arith,
    h.number,
    length-append codecs (av_free_stream n ∷ []),
    length-append calls (av_free_codec n ∷ []),
  );
  codec = codec;
  stream = stream;
}
  where
    codecs : List FileCall
    codecs = calls ++ av_free_codec n ∷ []

    codec :
        (i : ℕ)
        → i < suc n
        → get_elem? (codecs ++ av_free_stream n ∷ []) (i + i) ≡ some (av_free_codec i)
    codec i l = elim (Bool-cases (i == n)) [
      | inl e ↦
          let same : i ≡ n = ground (arith, e) in
          rw same (
            get_elem?-append codecs (av_free_stream n ∷ []) (n + n) (av_free_codec n)
              (at_end calls (av_free_codec n) (n + n) (sym h.number)))
      | inr e ↦ get_elem?-append codecs (av_free_stream n ∷ []) (i + i) (av_free_codec i) (
          get_elem?-append calls (av_free_codec n ∷ []) (i + i) (av_free_codec i)
            (h.codec i (ground (arith, e, l))))
    ]

    stream :
        (i : ℕ)
        → i < suc n
        → get_elem? (codecs ++ av_free_stream n ∷ []) (i + i + 1) ≡ some (av_free_stream i)
    stream i l = elim (Bool-cases (i == n)) [
      | inl e ↦
          let same : i ≡ n = ground (arith, e) in
          rw same (
            at_end codecs (av_free_stream n) (n + n + 1)
              (omega (arith, h.number, length-append calls (av_free_codec n ∷ []))))
      | inr e ↦ get_elem?-append codecs (av_free_stream n ∷ []) (i + i + 1) (av_free_stream i) (
          get_elem?-append calls (av_free_codec n ∷ []) (i + i + 1) (av_free_stream i)
            (h.stream i (ground (arith, e, l))))
    ]

pub freeing-FreesEach : (n : ℕ) → FreesEach n (freeing n)
unfolding freeing
freeing-FreesEach zero = record {
  number = refl;
  codec = λ i l. absurd (omega arith);
  stream = λ i l. absurd (omega arith);
}
freeing-FreesEach (suc n) = FreesEach-next n (freeing n) (freeing-FreesEach n)
