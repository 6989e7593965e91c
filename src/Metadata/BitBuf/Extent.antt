-- ===== src/Metadata/BitBuf/Extent.antt =====
-- What a read returns: the bytes of the buffer make one number, lowest byte first, and a bit extent is
-- a field of its binary digits.
use rdwarfs.Prelude.{
  ℕ, zero, suc, ◌+◌, ◌-◌, ◌*◌, ◌/◌, ◌%◌, ◌^◌, ◌≤◌, ◌<◌, ◌≡◌, ◌⊎◌, refl, sym, ap, subst, ◌∙◌, List,
  [], ◌∷◌, ◌++◌, length, take, drop, get_elem?, some, get_elem?_lt, All, IsByte, All-get_elem?,
  All-take, length-take, length-drop, take-append-drop, u64_mod, arith, ltb, ◌==◌, ==_iff,
  if◌then◌else◌, Bool-cases, inl, inr,
}
use mathlib.Core.Option.{some-injective}
use native.Mathlib.Nat.{div-div-eq-div-mul, mod-lt, mod-eq_of_lt, pow-le-pow_right, lt_of_lt_of_le}
use rdwarfs.Prelude.Bits.{bit_or_low_high, bit_and_mask}
use rdwarfs.Prelude.Powers.{pow_add, pow_bytes, pow_pos, div-pow, mod-pow, add-div_pow}
use rdwarfs.Result.{Error, ok, err, decode, index_lem}
use rdwarfs.Bytes.{from_le_bytes, from_le_bytes-lt}
use rdwarfs.Metadata.BitBuf.{bit_len, accumulate, extract, read_u64}

-- The field of `width` bits at `offset` in the number that the bytes spell.
unfoldable pub extent : List ℕ → ℕ → ℕ → ℕ
extent bytes offset width = from_le_bytes bytes / 2 ^ offset % 2 ^ width

shift_byte : (n : ℕ) → 2 ^ (suc n * 8) ≡ 256 * 2 ^ (n * 8)
shift_byte n = let e : suc n * 8 ≡ 8 + n * 8 = omega arith in rw (e, pow_add 8 (n * 8))

from_le_bytes-append :
    (xs ys : List ℕ)
    → from_le_bytes (xs ++ ys) ≡ from_le_bytes xs + 2 ^ (length xs * 8) * from_le_bytes ys
unfolding from_le_bytes
from_le_bytes-append [] ys = omega arith
from_le_bytes-append (x ∷ xs) ys = omega (
  arith,
  from_le_bytes-append xs ys,
  ap (λ (t : ℕ). t * from_le_bytes ys) (shift_byte (length xs)),
)

take-suc :
    (n m : ℕ) (xs : List ℕ) (b : ℕ)
    → get_elem? xs m ≡ some b
    → take (suc n) (drop m xs) ≡ b ∷ take n (drop (suc m) xs)
take-suc n zero [] b e = cc
take-suc n zero (x ∷ xs) b e = ap (λ t. t ∷ take n xs) (some-injective _ _ e)
take-suc n (suc m) [] b e = cc
take-suc n (suc m) (x ∷ xs) b e = take-suc n m xs b e

-- The loop adds up the bytes that it passes, each at its place.
accumulate-eq :
    (bytes : List ℕ) (byte_off rounds i acc : ℕ)
    → All IsByte bytes
    → acc < 2 ^ (i * 8)
    → byte_off + i + rounds ≤ length bytes
    → accumulate bytes byte_off rounds i acc
      ≡ ok (acc + 2 ^ (i * 8) * from_le_bytes (take rounds (drop (byte_off + i) bytes)))
unfolding accumulate from_le_bytes
accumulate-eq bytes byte_off zero i acc v small h = ap ok (omega arith)
accumulate-eq bytes byte_off (suc rounds) i acc v small h =
    let (b, e) = get_elem?_lt bytes (byte_off + i) (omega arith) in
    let is_byte : IsByte b = All-get_elem? IsByte bytes (byte_off + i) v e in
    let next : byte_off + (i + 1) ≡ suc (byte_off + i) = omega arith in
    let shifted : 2 ^ ((i + 1) * 8) ≡ 256 * 2 ^ (i * 8) =
      ap (λ (n : ℕ). 2 ^ (n * 8)) (let p : i + 1 ≡ suc i = omega arith in p) ∙ shift_byte i in
    let rest : ℕ = from_le_bytes (take rounds (drop (suc (byte_off + i)) bytes)) in
    rw (index_lem bytes (byte_off + i) b e, bit_or_low_high (i * 8) b acc small)
      (accumulate-eq bytes byte_off rounds (i + 1) (acc + b * 2 ^ (i * 8)) v
          (grind (arith, shifted, is_byte)) (omega arith)
        ∙ rw (next, take-suc rounds (byte_off + i) bytes b e)
            (ap ok (omega (arith, ap (λ (t : ℕ). t * rest) shifted))))

-- The number of the buffer, split at two places.
split_number :
    (bytes : List ℕ) (bo span : ℕ)
    → from_le_bytes bytes
      ≡ from_le_bytes (take bo bytes)
        + 2 ^ (length (take bo bytes) * 8)
          * (from_le_bytes (take span (drop bo bytes))
              + 2 ^ (length (take span (drop bo bytes)) * 8)
                * from_le_bytes (drop span (drop bo bytes)))
split_number bytes bo span =
    ap from_le_bytes (sym (take-append-drop bo bytes))
    ∙ from_le_bytes-append (take bo bytes) (drop bo bytes)
    ∙ ap (λ (t : ℕ). from_le_bytes (take bo bytes) + 2 ^ (length (take bo bytes) * 8) * t)
        (ap from_le_bytes (sym (take-append-drop span (drop bo bytes)))
          ∙ from_le_bytes-append (take span (drop bo bytes)) (drop span (drop bo bytes)))

-- A field that lies inside the middle part is a field of that part alone.
middle_field :
    (low middle high p w s n k : ℕ)
    → low < 2 ^ p
    → w ≡ s + (n + k)
    → (low + 2 ^ p * (middle + 2 ^ w * high)) / 2 ^ (p + s) % 2 ^ n ≡ middle / 2 ^ s % 2 ^ n
middle_field low middle high p w s n k small e =
    ap (λ (t : ℕ). (low + 2 ^ p * (middle + 2 ^ w * high)) / t % 2 ^ n) (pow_add p s)
    ∙ ap (λ (t : ℕ). t % 2 ^ n)
        (sym (div-div-eq-div-mul (low + 2 ^ p * (middle + 2 ^ w * high)) (2 ^ p) (2 ^ s))
          ∙ ap (λ (t : ℕ). t / 2 ^ s) (div-pow p low (middle + 2 ^ w * high) small)
          ∙ ap (λ (t : ℕ). (middle + t) / 2 ^ s) regroup
          ∙ add-div_pow s middle (2 ^ n * (2 ^ k * high)))
    ∙ mod-pow n (middle / 2 ^ s) (2 ^ k * high)
  where
    regroup : 2 ^ w * high ≡ 2 ^ s * (2 ^ n * (2 ^ k * high))
    regroup = rw (e, pow_add s (n + k), pow_add n k) (omega arith)

mask-eq : (n : ℕ) → (if n == 64 then u64_mod - 1 else 2 ^ n - 1) ≡ 2 ^ n - 1
mask-eq n = elim (Bool-cases (n == 64)) [
  | inl e ↦ let p : n ≡ 64 = (==_iff n 64).0 e in rw p
  | inr e ↦ rw e
]

fits_u64 : (v n : ℕ) → n ≤ 64 → v < 2 ^ n → v % u64_mod ≡ v
fits_u64 v n h l = mod-eq_of_lt (lt_of_lt_of_le l (pow-le-pow_right (omega arith) h))

-- The bytes that a read collects, as one number.
window : List ℕ → ℕ → ℕ → ℕ
window bytes offset width =
    from_le_bytes (take ((offset % 8 + width + 7) / 8) (drop (offset / 8) bytes))

extent-window :
    (bytes : List ℕ) (offset width : ℕ)
    → All IsByte bytes
    → offset + width ≤ length bytes * 8
    → extent bytes offset width ≡ window bytes offset width / 2 ^ (offset % 8) % 2 ^ width
unfolding extent window
extent-window bytes offset width v fits =
    ap (λ (t : ℕ). t / 2 ^ offset % 2 ^ width) (split_number bytes bo span)
    ∙ ap
        (λ (t : ℕ).
          (low
            + 2 ^ (length (take bo bytes) * 8)
              * (middle + 2 ^ (length (take span (drop bo bytes)) * 8) * high))
          / 2 ^ t
          % 2 ^ width)
        {y = length (take bo bytes) * 8 + offset % 8} (omega (arith, sized))
    ∙ middle_field low middle high (length (take bo bytes) * 8)
        (length (take span (drop bo bytes)) * 8) (offset % 8) width (span * 8 - offset % 8 - width)
        (subst (λ (t : ℕ). low < t) (pow_bytes (length (take bo bytes)))
          (from_le_bytes-lt (take bo bytes) (All-take IsByte bo bytes v)))
        (omega (arith, spanned))
  where
    bo : ℕ
    bo = offset / 8

    span : ℕ
    span = (offset % 8 + width + 7) / 8

    low : ℕ
    low = from_le_bytes (take bo bytes)

    middle : ℕ
    middle = from_le_bytes (take span (drop bo bytes))

    high : ℕ
    high = from_le_bytes (drop span (drop bo bytes))

    sized : length (take bo bytes) ≡ offset / 8
    sized = omega (arith, length-take bo bytes)

    spanned : length (take span (drop bo bytes)) ≡ span
    spanned = omega (arith, length-take span (drop bo bytes), length-drop bo bytes)

pub extract-extent :
    (bytes : List ℕ) (offset width : ℕ)
    → All IsByte bytes
    → width ≤ 64
    → offset + width ≤ length bytes * 8
    → extract bytes offset width ≡ ok (extent bytes offset width)
unfolding extract window
extract-extent bytes offset width v h fits =
    rw
      (
        accumulate-eq bytes (offset / 8) ((offset % 8 + width + 7) / 8) 0 0 v (omega arith)
            (omega arith),
        mask-eq width,
        start,
        bit_and_mask width,
      )
      (ap ok (
        fits_u64 _ width h (mod-lt _ (pow_pos width))
        ∙ sym (extent-window bytes offset width v fits)))
  where
    middle : ℕ
    middle = from_le_bytes (take ((offset % 8 + width + 7) / 8) (drop (offset / 8 + 0) bytes))

    start : 0 + 2 ^ (0 * 8) * middle ≡ window bytes offset width
    start =
        ap
          (λ (t : ℕ).
            0 + 2 ^ (0 * 8) * from_le_bytes (take ((offset % 8 + width + 7) / 8) (drop t bytes)))
          {y = offset / 8} (omega arith)
        ∙ omega arith

-- In bounds, a read of up to 64 bits returns the field of that width in the number that the buffer spells
-- in little-endian order, and a read of no bits returns 0. The end of the read does not overflow.
pub read_u64-extent :
    (bytes : List ℕ) (offset width : ℕ)
    → All IsByte bytes
    → width ≤ 64
    → offset + width ≤ bit_len bytes
    → offset + width < u64_mod
    → read_u64 bytes offset width ≡ ok (if width == 0 then 0 else extent bytes offset width)
unfolding read_u64 bit_len
read_u64-extent bytes offset width v h fits small = elim (Bool-cases (width == 0)) [
  | inl empty ↦ rw empty refl
  | inr some_bits ↦ ground (arith, extract-extent bytes offset width v h (ground arith))
]

-- A read of some bits that is wider than 64 of them, or whose end is past the end of the buffer, is
-- refused with an error, also where that end overflows.
pub read_u64-refused :
    (bytes : List ℕ) (offset width : ℕ)
    → 0 < width
    → (64 < width) ⊎ (bit_len bytes < offset + width)
    → (e : Error) × (read_u64 bytes offset width ≡ err e)
unfolding read_u64 bit_len
read_u64-refused bytes offset width p (inl wide) =
    (decode "frozen2-bitbuf" "requested bits, max is 64", ground arith)
read_u64-refused bytes offset width p (inr over) = elim (Bool-cases (ltb 64 width)) [
  | inl wide ↦ (decode "frozen2-bitbuf" "requested bits, max is 64", ground arith)
  | inr narrow ↦ elim (Bool-cases (ltb (offset + width) u64_mod)) [
    | inl small ↦ (decode "frozen2-bitbuf" "read of bits runs past end", ground arith)
    | inr large ↦ (decode "frozen2-bitbuf" "bit offset overflow", ground arith)
  ]
]
