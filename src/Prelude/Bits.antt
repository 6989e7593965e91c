-- ===== src/Prelude/Bits.antt =====
-- `|` of disjoint fields and `&` with a low mask as arithmetic, for every width. Both come from one
-- equation for the lowest digit, by induction on the width.
use Prim.Native.Nat.{
  ℕ, zero, suc, ◌+◌, ◌-◌, ◌*◌, ◌/◌, ◌%◌, ◌^◌, ◌≤◌, ◌<◌, min, max, bit_and, bit_or, digits, bitwise,
  bit_and-bitwise, bit_or-bitwise,
}
use mathlib.Core.Path.{◌≡◌, refl, ap}
use native.Mathlib.Nat.{pow-suc, one-le-pow, le_refl, div-div-eq-div-mul}
use native.Mathlib.Omega.{arith}

-- The fuel of the definition is irrelevant once it covers the number.
digits_enough :
    (z : ℕ → ℕ) (f : ℕ → ℕ → ℕ) (fuel more a b : ℕ)
    → a ≤ fuel
    → a ≤ more
    → digits z f fuel a b ≡ digits z f more a b
digits_enough z f zero zero a b p q = refl
digits_enough z f zero (suc more) zero b p q = refl
digits_enough z f zero (suc more) (suc a) b p q = absurd (omega arith)
digits_enough z f (suc fuel) zero zero b p q = refl
digits_enough z f (suc fuel) zero (suc a) b p q = absurd (omega arith)
digits_enough z f (suc fuel) (suc more) zero b p q = refl
digits_enough z f (suc fuel) (suc more) (suc a) b p q =
    rw (digits_enough z f fuel more (suc a / 2) (b / 2) (omega arith) (omega arith))

lowest_digit :
    (z : ℕ → ℕ) (f : ℕ → ℕ → ℕ) (a b : ℕ)
    → f (suc a % 2) (b % 2) + 2 * bitwise z f (suc a / 2) (b / 2) ≡ bitwise z f (suc a) b
lowest_digit z f a b =
    omega (arith, digits_enough z f a (suc a / 2) (suc a / 2) (b / 2) (omega arith) (le_refl _))

or_digit : (a b : ℕ) → max (a % 2) (b % 2) + 2 * bit_or (a / 2) (b / 2) ≡ bit_or a b
or_digit zero b = simp bit_or-bitwise (omega arith)
or_digit (suc a) b = simp bit_or-bitwise (lowest_digit (λ y. y) max a b)

and_digit : (a b : ℕ) → min (a % 2) (b % 2) + 2 * bit_and (a / 2) (b / 2) ≡ bit_and a b
and_digit zero b = simp bit_and-bitwise (omega arith)
and_digit (suc a) b = simp bit_and-bitwise (lowest_digit (λ y. 0) min a b)

or_zero_below : (bound a : ℕ) → a < bound → bit_or a 0 ≡ a
or_zero_below zero a small = absurd (omega arith)
or_zero_below (suc bound) zero small = refl
or_zero_below (suc bound) (suc a) small =
    omega (arith, or_digit (suc a) 0, or_zero_below bound (suc a / 2) (omega arith))

bit_or-zero : (a : ℕ) → bit_or a 0 ≡ a
bit_or-zero a = or_zero_below (a + 1) a (omega arith)

and_zero_below : (bound a : ℕ) → a < bound → bit_and a 0 ≡ 0
and_zero_below zero a small = absurd (omega arith)
and_zero_below (suc bound) zero small = refl
and_zero_below (suc bound) (suc a) small =
    omega (arith, and_digit (suc a) 0, and_zero_below bound (suc a / 2) (omega arith))

bit_and-zero : (a : ℕ) → bit_and a 0 ≡ 0
bit_and-zero a = and_zero_below (a + 1) a (omega arith)

scale : (q k : ℕ) → q * 2 ^ suc k ≡ 2 * (q * 2 ^ k)
scale q k = omega (arith, ap (λ (t : ℕ). q * t) (pow-suc 2 k))

-- `(q << k) | r` is a sum when `r` fits `k` bits.
pub bit_or_high_low : (k q r : ℕ) → r < 2 ^ k → bit_or (q * 2 ^ k) r ≡ q * 2 ^ k + r
bit_or_high_low zero q r fits = ground (arith, bit_or-zero q)
bit_or_high_low (suc k) q r fits = ground (
  arith,
  or_digit (q * 2 ^ suc k) r,
  scale q k,
  bit_or_high_low k q (r / 2) (omega (arith, pow-suc 2 k)),
)

-- `r | (q << k)`, the operands the other way round.
pub bit_or_low_high : (k q r : ℕ) → r < 2 ^ k → bit_or r (q * 2 ^ k) ≡ r + q * 2 ^ k
bit_or_low_high zero q r fits =
    let e : r ≡ 0 = omega arith in rw e (ground (arith, bit_or-bitwise 0 (q * 1)))
bit_or_low_high (suc k) q r fits = ground (
  arith,
  or_digit r (q * 2 ^ suc k),
  scale q k,
  bit_or_low_high k q (r / 2) (omega (arith, pow-suc 2 k)),
)

and_fields : (k q r : ℕ) → r < 2 ^ k → bit_and (q * 2 ^ k + r) (2 ^ k - 1) ≡ r
and_fields zero q r fits = rw bit_and-zero (omega arith)
and_fields (suc k) q r fits = ground (
  arith,
  and_digit (q * 2 ^ suc k + r) (2 ^ suc k - 1),
  scale q k,
  pow-suc 2 k,
  one-le-pow k 2,
  and_fields k q (r / 2) (omega (arith, pow-suc 2 k)),
)

-- A mask of `k` low bits is the remainder by `2 ^ k`.
pub bit_and_mask : (k a : ℕ) → bit_and a (2 ^ k - 1) ≡ a % 2 ^ k
bit_and_mask k a = ground (arith, one-le-pow k 2, and_fields k (a / 2 ^ k) (a % 2 ^ k))

-- A single bit, as the tests of a flag read it.
pub bit_and_flag : (k a : ℕ) → bit_and a (2 ^ k) ≡ a / 2 ^ k % 2 * 2 ^ k
bit_and_flag zero a = ground (arith, and_digit a 1, bit_and-zero (a / 2))
bit_and_flag (suc k) a = ground (
  arith,
  and_digit a (2 ^ suc k),
  pow-suc 2 k,
  one-le-pow k 2,
  bit_and_flag k (a / 2),
  div-div-eq-div-mul a 2 (2 ^ k),
  scale (a / 2 / 2 ^ k % 2) k,
)
