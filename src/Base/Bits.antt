-- ===== src/Base/Bits.antt =====
-- `|` and `&` at variables: a sum of disjoint fields, and flag words. The libraries have only the
-- digit recursion.
use Prim.Native.Nat.{
  ℕ, zero, suc, ◌+◌, ◌*◌, ◌/◌, ◌%◌, ◌^◌, ◌≤◌, ◌<◌, min, max, bit_and, bit_or, digits,
  bit_and-bitwise, bit_or-bitwise,
}
use mathlib.Core.Path.{◌≡◌, refl, ap}
use mathlib.Core.Logic.{◌≢◌}
use mathlib.Core.Bool.{Bool, true, not}
use mathlib.Core.WellFounded
use native.Mathlib.Omega.{arith}
use native.Mathlib.Nat.{pow-suc}
use omxtranscode.Base.Order.{lt_wf}
use omxtranscode.Base.Tests.{◌==◌}

-- One more round of fuel changes nothing.
module _ (low : ℕ → ℕ) (op : ℕ → ℕ → ℕ) where
  fuel_irrelevant : (j k x y : ℕ) → x ≤ j → x ≤ k → digits low op j x y ≡ digits low op k x y
  fuel_irrelevant zero zero x y p q = refl
  fuel_irrelevant zero (suc k) zero y p q = refl
  fuel_irrelevant zero (suc k) (suc x) y p q = absurd (omega arith)
  fuel_irrelevant (suc j) zero zero y p q = refl
  fuel_irrelevant (suc j) zero (suc x) y p q = absurd (omega arith)
  fuel_irrelevant (suc j) (suc k) zero y p q = refl
  fuel_irrelevant (suc j) (suc k) (suc x) y p q =
      omega (arith, fuel_irrelevant j k (suc x / 2) (y / 2) (omega arith) (omega arith))

or_digit : (x y : ℕ) → bit_or x y ≡ 2 * bit_or (x / 2) (y / 2) + max (x % 2) (y % 2)
or_digit zero y = omega (arith, bit_or-bitwise 0 y, bit_or-bitwise 0 (y / 2))
or_digit (suc x) y = omega (
  arith,
  bit_or-bitwise (suc x) y,
  bit_or-bitwise (suc x / 2) (y / 2),
  fuel_irrelevant (λ b. b) max x (suc x / 2) (suc x / 2) (y / 2) (omega arith) (omega arith),
)

and_digit : (x y : ℕ) → bit_and x y ≡ 2 * bit_and (x / 2) (y / 2) + min (x % 2) (y % 2)
and_digit zero y = omega (arith, bit_and-bitwise 0 y, bit_and-bitwise 0 (y / 2))
and_digit (suc x) y = omega (
  arith,
  bit_and-bitwise (suc x) y,
  bit_and-bitwise (suc x / 2) (y / 2),
  fuel_irrelevant (λ b. zero) min x (suc x / 2) (suc x / 2) (y / 2) (omega arith) (omega arith),
)

or_zero : (x : ℕ) → bit_or x 0 ≡ x
or_zero x = WellFounded.induction lt_wf {C = λ k. bit_or k 0 ≡ k} x halve
  where
    halve : (k : ℕ) → ((m : ℕ) → m < k → bit_or m 0 ≡ m) → bit_or k 0 ≡ k
    halve zero ih = bit_or-bitwise 0 0
    halve (suc k) ih = omega (arith, or_digit (suc k) 0, ih (suc k / 2) (omega arith))

-- `high << k | low` is a sum where `low` fits into `k` bits.
pub bit_or-shifted : (k high low : ℕ) → low < 2 ^ k → bit_or (high * 2 ^ k) low ≡ high * 2 ^ k + low
bit_or-shifted zero high low fits =
    omega (arith, ap (λ (t : ℕ). bit_or (high * 1) t) zero_low, or_zero (high * 1))
  where
    zero_low : low ≡ 0
    zero_low = omega arith
bit_or-shifted (suc k) high low fits = ground (
  arith,
  or_digit (high * 2 ^ suc k) low,
  pow-suc 2 k,
  ap (λ (t : ℕ). high * t) (pow-suc 2 k),
  bit_or-shifted k high (low / 2),
)

-- Reading a flag word back after `word |= flag`, bit by bit.
pub bit_and-bit_or :
    (n word flag mask : ℕ)
    → word ≤ n
    → flag ≤ n
    → bit_and (bit_or word flag) mask ≡ bit_or (bit_and word mask) (bit_and flag mask)
bit_and-bit_or zero word flag mask p q =
    ground (arith, bit_or-bitwise 0 0, bit_and-bitwise 0 mask, or_zero (bit_and 0 mask))
bit_and-bit_or (suc n) word flag mask p q = ground (
  arith,
  or_digit word flag,
  and_digit (bit_or word flag) mask,
  and_digit word mask,
  and_digit flag mask,
  or_digit (bit_and word mask) (bit_and flag mask),
  bit_and-bit_or n (word / 2) (flag / 2) (mask / 2),
)

pub and_self : (n x : ℕ) → x ≤ n → bit_and x x ≡ x
and_self zero x p = ground (arith, bit_and-bitwise 0 0)
and_self (suc n) x p = omega (arith, and_digit x x, and_self n (x / 2) (omega arith))

or_lower : (n x y : ℕ) → x ≤ n → y ≤ n → y ≤ bit_or x y
or_lower zero x y p q = omega arith
or_lower (suc n) x y p q =
    omega (arith, or_digit x y, or_lower n (x / 2) (y / 2) (omega arith) (omega arith))

-- `word & flag` as a test.
unfoldable pub has_flag : ℕ → ℕ → Bool
has_flag word flag = not (bit_and word flag == 0)

module _ (word flag : ℕ) where
  distribute :
      (mask : ℕ) → bit_and (bit_or word flag) mask ≡ bit_or (bit_and word mask) (bit_and flag mask)
  distribute mask = bit_and-bit_or (word + flag) word flag mask (omega arith) (omega arith)

  -- A flag that was set with `|=` is found.
  pub has_flag-bit_or_self : flag ≢ 0 → has_flag (bit_or word flag) flag ≡ true
  unfolding has_flag
  has_flag-bit_or_self some_bit = ground (
    arith,
    distribute flag,
    and_self flag flag,
    or_lower (bit_and word flag + flag) (bit_and word flag) flag,
  )

  -- Setting one flag leaves the test of another as it was.
  pub has_flag-bit_or_other :
      (other : ℕ) → bit_and flag other ≡ 0 → has_flag (bit_or word flag) other ≡ has_flag word other
  unfolding has_flag
  has_flag-bit_or_other other apart = ground (arith, distribute other, or_zero (bit_and word other))

and_zero : (n x : ℕ) → x ≤ n → bit_and x 0 ≡ 0
and_zero zero x p = ground (arith, bit_and-bitwise 0 0)
and_zero (suc n) x p = omega (arith, and_digit x 0, and_zero n (x / 2) (omega arith))

-- `x & 0x1f`
pub bit_and-low_five : (x : ℕ) → bit_and x 31 ≡ x % 32
bit_and-low_five x =
    let x1 : ℕ = x / 2 in
    let x2 : ℕ = x1 / 2 in
    let x3 : ℕ = x2 / 2 in
    let x4 : ℕ = x3 / 2 in
    let x5 : ℕ = x4 / 2 in
    omega (
      arith,
      and_digit x 31,
      and_digit x1 15,
      and_digit x2 7,
      and_digit x3 3,
      and_digit x4 1,
      and_zero x5 x5 (omega arith),
    )
