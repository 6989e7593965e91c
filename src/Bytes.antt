-- ===== src/Bytes.antt =====
-- Little-endian numbers in byte lists, as `from_le_bytes` and `to_le_bytes` read and write them.
use rdwarfs.Prelude.{
  ltb→ge, inr, ltb→lt, inl, ltb, Bool-cases, ge→ltb, ℕ, zero, suc, ◌+◌, ◌*◌, ◌/◌, ◌%◌, ◌^◌, ◌<◌,
  ◌≡◌, refl, ap, List, [], ◌∷◌, length, All, IsByte, arith, Bool, true, false, ◌&&◌, ◌==◌, ap₂,
}
use native.Mathlib.Nat.{pow-suc}

unfoldable pub from_le_bytes : List ℕ → ℕ
from_le_bytes [] = 0
from_le_bytes (b ∷ bs) = b + 256 * from_le_bytes bs

-- The width in bytes, then the number.
unfoldable pub to_le_bytes : ℕ → ℕ → List ℕ
to_le_bytes zero v = []
to_le_bytes (suc n) v = v % 256 ∷ to_le_bytes n (v / 256)

pub length-to_le_bytes : (n v : ℕ) → length (to_le_bytes n v) ≡ n
unfolding to_le_bytes
length-to_le_bytes zero v = refl
length-to_le_bytes (suc n) v = ap suc (length-to_le_bytes n (v / 256))

pub to_le_bytes-IsByte : (n v : ℕ) → All IsByte (to_le_bytes n v)
unfolding to_le_bytes
to_le_bytes-IsByte zero v = tt
to_le_bytes-IsByte (suc n) v = (omega arith, to_le_bytes-IsByte n (v / 256))

pub from_le_bytes-to_le_bytes : (n v : ℕ) → v < 256 ^ n → from_le_bytes (to_le_bytes n v) ≡ v
unfolding from_le_bytes to_le_bytes
from_le_bytes-to_le_bytes zero v h = omega arith
from_le_bytes-to_le_bytes (suc n) v h =
    omega
      (arith, pow-suc 256 n, from_le_bytes-to_le_bytes n (v / 256) (omega (arith, pow-suc 256 n)))

pub to_le_bytes-from_le_bytes :
    (bs : List ℕ) → All IsByte bs → to_le_bytes (length bs) (from_le_bytes bs) ≡ bs
unfolding from_le_bytes to_le_bytes
to_le_bytes-from_le_bytes [] h = refl
to_le_bytes-from_le_bytes (b ∷ bs) h =
    ap₂ ◌∷◌ (low b (from_le_bytes bs) h.0)
      (rw (high b (from_le_bytes bs) h.0) (to_le_bytes-from_le_bytes bs h.1))
  where
    low : (c r : ℕ) → c < 256 → (c + 256 * r) % 256 ≡ c
    low c r l = omega arith

    high : (c r : ℕ) → c < 256 → (c + 256 * r) / 256 ≡ r
    high c r l = omega arith

-- The number fits its width.
pub from_le_bytes-lt : (bs : List ℕ) → All IsByte bs → from_le_bytes bs < 256 ^ length bs
unfolding from_le_bytes
from_le_bytes-lt [] h = omega arith
from_le_bytes-lt (b ∷ bs) h = omega (arith, h.0, from_le_bytes-lt bs h.1, pow-suc 256 (length bs))

-- `==` on byte slices.
unfoldable pub bytes_eq : List ℕ → List ℕ → Bool
bytes_eq [] [] = true
bytes_eq [] (y ∷ ys) = false
bytes_eq (x ∷ xs) [] = false
bytes_eq (x ∷ xs) (y ∷ ys) = (x == y) && bytes_eq xs ys

pub bytes_eq_refl : (xs : List ℕ) → bytes_eq xs xs ≡ true
unfolding bytes_eq
bytes_eq_refl [] = refl
bytes_eq_refl (x ∷ xs) = ground (arith, bytes_eq_refl xs)

pub bytes_eq-eq : (xs ys : List ℕ) → bytes_eq xs ys ≡ true → xs ≡ ys
unfolding bytes_eq
bytes_eq-eq [] [] h = refl
bytes_eq-eq [] (y ∷ ys) h = cc
bytes_eq-eq (x ∷ xs) [] h = cc
bytes_eq-eq (x ∷ xs) (y ∷ ys) h = ground (arith, bytes_eq-eq xs ys)

-- The outcomes of `cmp` on byte slices.
pub data Ordering : Type 0 where
  less equal greater : Ordering

-- The order of one byte, then of the rest.
abbrev pub then_cmp : Bool → Bool → Ordering → Ordering
then_cmp true after rest = less
then_cmp false true rest = greater
then_cmp false false rest = rest

-- Slices are ordered as words are in a dictionary.
unfoldable pub cmp : List ℕ → List ℕ → Ordering
cmp [] [] = equal
cmp [] (y ∷ ys) = less
cmp (x ∷ xs) [] = greater
cmp (x ∷ xs) (y ∷ ys) = then_cmp (ltb x y) (ltb y x) (cmp xs ys)

pub cmp_refl : (xs : List ℕ) → cmp xs xs ≡ equal
unfolding cmp
cmp_refl [] = refl
cmp_refl (x ∷ xs) = rw (ge→ltb x x (omega arith)) (cmp_refl xs)

pub cmp_asym : (xs ys : List ℕ) → cmp xs ys ≡ less → cmp ys xs ≡ greater
unfolding cmp
cmp_asym [] [] h = cc
cmp_asym [] (y ∷ ys) h = refl
cmp_asym (x ∷ xs) [] h = cc
cmp_asym (x ∷ xs) (y ∷ ys) h = elim (Bool-cases (ltb x y)) [
  | inl t ↦ rw (t, ge→ltb y x (omega (arith, ltb→lt x y t))) refl
  | inr f ↦ elim (Bool-cases (ltb y x)) [
    | inl t' ↦ let no_less : greater ≡ less = rw (f, t') at h in cc
    | inr f' ↦ rw (f, f') (cmp_asym xs ys (rw (f, f') at h))
  ]
]

pub cmp-equal : (xs ys : List ℕ) → cmp xs ys ≡ equal → xs ≡ ys
unfolding cmp
cmp-equal [] [] h = refl
cmp-equal [] (y ∷ ys) h = cc
cmp-equal (x ∷ xs) [] h = cc
cmp-equal (x ∷ xs) (y ∷ ys) h = elim (Bool-cases (ltb x y)) [
  | inl t ↦ let no_less : less ≡ equal = rw t at h in cc
  | inr f ↦ elim (Bool-cases (ltb y x)) [
    | inl t' ↦ let no_greater : greater ≡ equal = rw (f, t') at h in cc
    | inr f' ↦
        ap₂ ◌∷◌ (omega (arith, ltb→ge x y f, ltb→ge y x f')) (cmp-equal xs ys (rw (f, f') at h))
  ]
]
