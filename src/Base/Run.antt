-- ===== src/Base/Run.antt =====
-- How a call ends, and state with such an end: `exit(n)`, a call that never returns, or undefined
-- behaviour.
use Prim.Native.Nat.{ℕ}
use mathlib.Core.Path.{◌≡◌, refl}

pub data Outcome (A : Type 0) : Type 0 where
  ok : A → Outcome A
  exits : ℕ → Outcome A
  blocks : Outcome A
  fault : Outcome A

abbrev pub and_then : {A B : Type 0} → Outcome A → (A → Outcome B) → Outcome B
and_then (ok a) k = k a
and_then (exits n) k = exits n
and_then blocks k = blocks
and_then fault k = fault

-- A command on the state `S`.
abbrev pub Cmd : Type 0 → Type 0 → Type 0
Cmd S A = S → Outcome (A × S)

module _ {S A B : Type 0} where
  infixl 5 ◌>>=◌ ◌>>◌
  abbrev pub ◌>>=◌ : Cmd S A → (A → Cmd S B) → Cmd S B
  ◌>>=◌ m k s = and_then (m s) λ r. k r.0 r.1

  abbrev pub ◌>>◌ : Cmd S A → Cmd S B → Cmd S B
  m >> k = m >>= λ _. k

abbrev pub pure : {S A : Type 0} → A → Cmd S A
pure a s = ok (a, s)

abbrev pub get : {S : Type 0} → Cmd S S
get s = ok (s, s)

abbrev pub modify : {S : Type 0} → (S → S) → Cmd S (Unit {0})
modify f s = ok (tt, f s)

abbrev pub stop : {S A : Type 0} → Outcome A → Cmd S A
stop (ok a) s = ok (a, s)
stop (exits n) s = exits n
stop blocks s = blocks
stop fault s = fault

-- What a call that ends leaves; it need not end.
abbrev pub Holds : {A : Type 0} → (A → Type 0) → Outcome A → Type 0
Holds P (ok a) = P a
Holds P _ = Unit {0}

-- The call ends, with a result of which `P` holds.
abbrev pub Yields : {A : Type 0} → (A → Type 0) → Outcome A → Type 0
Yields P (ok a) = P a
Yields P _ = ⊥

pub Holds-next :
    {A B : Type 0} (P : A → Type 0) (Q : B → Type 0) (o : Outcome A) (k : A → Outcome B)
    → Holds P o
    → ((a : A) → P a → Holds Q (k a))
    → Holds Q (and_then o k)
Holds-next P Q (ok a) k h next = next a h
Holds-next P Q (exits n) k h next = tt
Holds-next P Q blocks k h next = tt
Holds-next P Q fault k h next = tt

pub Holds-unit : {A : Type 0} (o : Outcome A) → Holds (λ a. Unit {0}) o
Holds-unit (ok a) = tt
Holds-unit (exits n) = tt
Holds-unit blocks = tt
Holds-unit fault = tt

pub Holds-map :
    {A : Type 0} (P Q : A → Type 0) (o : Outcome A) → Holds P o → ((a : A) → P a → Q a) → Holds Q o
Holds-map P Q (ok a) h next = next a h
Holds-map P Q (exits n) h next = tt
Holds-map P Q blocks h next = tt
Holds-map P Q fault h next = tt

pub Yields-map :
    {A : Type 0} (P Q : A → Type 0) (o : Outcome A)
    → Yields P o
    → ((a : A) → P a → Q a)
    → Yields Q o
Yields-map P Q (ok a) h next = next a h
Yields-map P Q (exits n) h next = h
Yields-map P Q blocks h next = h
Yields-map P Q fault h next = h

pub Yields-next :
    {A B : Type 0} (P : A → Type 0) (Q : B → Type 0) (o : Outcome A) (k : A → Outcome B)
    → Yields P o
    → ((a : A) → P a → Yields Q (k a))
    → Yields Q (and_then o k)
Yields-next P Q (ok a) k h next = next a h
Yields-next P Q (exits n) k h next = h
Yields-next P Q blocks k h next = h
Yields-next P Q fault k h next = h

pub Yields-ok :
    {A : Type 0} (P : A → Type 0) (o : Outcome A) → Yields P o → (a : A) × (o ≡ ok a) × P a
Yields-ok P (ok a) h = (a, refl, h)
Yields-ok P (exits n) h = absurd h
Yields-ok P blocks h = absurd h
Yields-ok P fault h = absurd h

pub Yields-Holds : {A : Type 0} (P : A → Type 0) (o : Outcome A) → Yields P o → Holds P o
Yields-Holds P (ok a) h = h
Yields-Holds P (exits n) h = tt
Yields-Holds P blocks h = tt
Yields-Holds P fault h = tt
