-- ===== src/Buffer/Chain.antt =====
-- Lists of buffer headers on the heap, and what the walks along them find.
use omxtranscode.Base.{
  ℕ, zero, suc, ◌<◌, ◌≡◌, ◌≢◌, refl, ap, ◌∙◌, Bool, true, false, ◌||◌, none, some, List, [], ◌∷◌,
  ◌++◌, arith, ◌==◌, if◌then◌else◌, length, ok, Option,
}
use omxtranscode.PacketQueue.{Ptr}
use omxtranscode.Omx.{BufferHeader, Heap}
use omxtranscode.Buffer.{write, load, set_next, find_empty, find_last}

-- From `p` the `pAppPrivate` pointers lead through `bs` to `NULL`.
abbrev pub Chain : Heap → Ptr → List Ptr → Type 0
Chain h p [] = p ≡ 0
Chain h p (a ∷ bs) =
    (p ≡ a) × (a ≢ 0) × ((b : BufferHeader) × (h a ≡ some b) × Chain h b.p_app_private bs)

abbrev pub has : Ptr → List Ptr → Bool
has x [] = false
has x (a ∷ bs) = (x == a) || has x bs

abbrev pub Distinct : List Ptr → Type 0
Distinct [] = Unit {0}
Distinct (a ∷ bs) = (has a bs ≡ false) × Distinct bs

-- The list less its last entry.
abbrev pub butlast : List Ptr → List Ptr
butlast [] = []
butlast (a ∷ []) = []
butlast (a ∷ b ∷ bs) = a ∷ butlast (b ∷ bs)

-- The last two entries, behind `prev`; 0 where there is none.
abbrev pub last_pair : Ptr → List Ptr → Ptr × Ptr
last_pair prev [] = (prev, 0)
last_pair prev (a ∷ []) = (prev, a)
last_pair prev (a ∷ b ∷ bs) = last_pair a (b ∷ bs)

pub butlast-append : (bs : List Ptr) (z : Ptr) → butlast (bs ++ z ∷ []) ≡ bs
butlast-append [] z = refl
butlast-append (a ∷ []) z = refl
butlast-append (a ∷ b ∷ bs) z = ap (λ l. a ∷ l) (butlast-append (b ∷ bs) z)

pub last_pair-append :
    (prev : Ptr) (bs : List Ptr) (z : Ptr) → (last_pair prev (bs ++ z ∷ [])).1 ≡ z
last_pair-append prev [] z = refl
last_pair-append prev (a ∷ []) z = refl
last_pair-append prev (a ∷ b ∷ bs) z = last_pair-append a (b ∷ bs) z

pub Chain-frame :
    (h g : Heap) (p : Ptr) (bs : List Ptr)
    → Chain h p bs
    → ((a : Ptr) → has a bs ≡ true → g a ≡ h a)
    → Chain g p bs
Chain-frame h g p [] c same = c
Chain-frame h g p (a ∷ bs) c same = (
  c.0,
  c.1,
  (
    c.2.0,
    same a (ground arith) ∙ c.2.1,
    Chain-frame h g c.2.0.p_app_private bs c.2.2 λ x i. same x (ground arith),
  ),
)

pub write_self : (h : Heap) (a : Ptr) (b : Option BufferHeader) → write h a b a ≡ b
unfolding write
write_self h a b = ground arith

pub write-other :
    (h : Heap) (a x : Ptr) (b : Option BufferHeader) → (x == a) ≡ false → write h a b x ≡ h x
unfolding write
write-other h a x b ne = ground arith

pub Chain-write :
    (h : Heap) (p x : Ptr) (b : Option BufferHeader) (bs : List Ptr)
    → Chain h p bs
    → has x bs ≡ false
    → Chain (write h x b) p bs
unfolding write
Chain-write h p x b bs c out = Chain-frame h (write h x b) p bs c λ a i. ground arith

has-butlast : (x : Ptr) (bs : List Ptr) → has x (butlast bs) ≡ true → has x bs ≡ true
has-butlast x [] i = i
has-butlast x (a ∷ []) i = cc
has-butlast x (a ∷ a' ∷ bs) i = ground (arith, has-butlast x (a' ∷ bs))

pub has-apart : (a y : Ptr) (bs : List Ptr) → has a bs ≡ false → has y bs ≡ true → (a == y) ≡ false
has-apart a y bs out i = ground arith

pub ==_sym : (a b : ℕ) → (a == b) ≡ (b == a)
==_sym a b = ground arith

pub last-in : (prev a : Ptr) (bs : List Ptr) → has (last_pair prev (a ∷ bs)).1 (a ∷ bs) ≡ true
last-in prev a [] = ground arith
last-in prev a (a' ∷ bs) = ground (arith, last-in a a' bs)

module _ (h : Heap) where
  pub load-ok : (p : Ptr) (b : BufferHeader) → p ≢ 0 → h p ≡ some b → load p h ≡ ok b
  unfolding load
  load-ok p b ne e = ground arith

  -- The first buffer of the list that holds no data, or 0.
  abbrev pub first_empty : List Ptr → Ptr
  first_empty [] = 0
  first_empty (a ∷ bs) =
      let later = first_empty bs in
      elim (h a) [ none ↦ later | some b ↦ if b.n_filled_len == 0 then a else later ]

  pub find_empty-first :
      (k : ℕ) (p : Ptr) (bs : List Ptr)
      → Chain h p bs
      → length bs < k
      → find_empty k h p ≡ ok (first_empty bs)
  unfolding find_empty
  find_empty-first zero p bs c fuel = elim fuel [ ]
  find_empty-first (suc k) p [] c fuel = ground arith
  find_empty-first (suc k) p (a ∷ bs) c fuel =
      ground (arith, load-ok p c.2.0, find_empty-first k c.2.0.p_app_private bs c.2.2)

  pub find_last-pair :
      (k : ℕ) (prev p : Ptr) (bs : List Ptr)
      → Chain h p bs
      → length bs < k
      → find_last k h prev p ≡ ok (last_pair prev bs)
  unfolding find_last
  find_last-pair zero prev p bs c fuel = elim fuel [ ]
  find_last-pair (suc k) prev p [] c fuel = ground arith
  find_last-pair (suc k) prev p (a ∷ []) c fuel = ground (arith, load-ok p c.2.0)
  find_last-pair (suc k) prev p (a ∷ b ∷ bs) c fuel =
      ground (arith, load-ok p c.2.0, find_last-pair k p c.2.0.p_app_private (b ∷ bs) c.2.2)

  -- The last buffer of a list: it is there, in the list, and has no successor.
  pub last-found :
      (prev p a : Ptr) (bs : List Ptr)
      → Chain h p (a ∷ bs)
      → let z = (last_pair prev (a ∷ bs)).1 in
        (z ≢ 0)
        × (has z (a ∷ bs) ≡ true)
        × ((b : BufferHeader) × (h z ≡ some b) × (b.p_app_private ≡ 0))
  last-found prev p a [] c = (c.1, ground arith, (c.2.0, c.2.1, c.2.2))
  last-found prev p a (a' ∷ bs) c =
      let ih = last-found a c.2.0.p_app_private a' bs c.2.2 in (ih.0, ground arith, ih.2)

  -- The buffer before the last one: with its successor set to `NULL` the list ends there.
  pub cut-butlast :
      (prev p a a' : Ptr) (bs : List Ptr)
      → Chain h p (a ∷ a' ∷ bs)
      → Distinct (a ∷ a' ∷ bs)
      → let y = (last_pair prev (a ∷ a' ∷ bs)).0 in
        (y ≢ 0)
        × (has y (butlast (a ∷ a' ∷ bs)) ≡ true)
        × ((b : BufferHeader) × (h y ≡ some b)
            × Chain (write h y (some (record b { p_app_private = 0 }))) p (butlast (a ∷ a' ∷ bs)))
  unfolding write
  cut-butlast prev p a a' [] c d = (
    ground arith,
    ground arith,
    (c.2.0, ground arith, (c.0, c.1, (record c.2.0 { p_app_private = 0 }, ground arith, refl))),
  )
  cut-butlast prev p a a' (a'' ∷ bs) c d =
      let ih = cut-butlast a c.2.0.p_app_private a' a'' bs c.2.2 d.1 in
      let y = (last_pair a (a' ∷ a'' ∷ bs)).0 in
      let apart : (a == y) ≡ false =
        has-apart a y (a' ∷ a'' ∷ bs) d.0 (has-butlast y (a' ∷ a'' ∷ bs) ih.1) in
      (ih.0, ground arith, (ih.2.0, ih.2.1, (c.0, c.1, (c.2.0, rw apart c.2.1, ih.2.2))))

  -- The last buffer is not in the rest of the list.
  pub last-out :
      (prev a : Ptr) (bs : List Ptr)
      → Distinct (a ∷ bs)
      → has (last_pair prev (a ∷ bs)).1 (butlast (a ∷ bs)) ≡ false
  last-out prev a [] d = refl
  last-out prev a (a' ∷ bs) d =
      let z = (last_pair a (a' ∷ bs)).1 in
      rw (==_sym z a, has-apart a z (a' ∷ bs) d.0 (last-in a a' bs), last-out a a' bs d.1)

  pub set_next-ok :
      (p q : Ptr) (b : BufferHeader)
      → p ≢ 0
      → h p ≡ some b
      → set_next p q h ≡ ok (write h p (some (record b { p_app_private = q })))
  unfolding set_next
  set_next-ok p q b ne e = ground (arith, load-ok p b ne e)
