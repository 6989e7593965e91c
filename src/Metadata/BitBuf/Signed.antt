-- ===== src/Metadata/BitBuf/Signed.antt =====
-- The signed read: the field as a number in two's complement.
use rdwarfs.Prelude.{
  ℕ, zero, suc, ◌+◌, ◌-◌, ◌*◌, ◌/◌, ◌%◌, ◌^◌, ◌≤◌, ◌<◌, ◌≡◌, refl, sym, ap, ◌∙◌, List, All, IsByte,
  false, Bool-cases, inl, inr, bit_and, u64_mod, arith, ltb, ltb→lt, ltb→ge, ge→ltb, ◌==◌, ==_iff,
  if◌then◌else◌,
}
use native.Mathlib.Nat.{
  mod-lt, mod-eq_of_lt, pow-le-pow_right, add-mul-mod_self_left, pow-suc, mul_comm,
}
use rdwarfs.Prelude.Bits.{bit_or_low_high, bit_and_flag}
use rdwarfs.Prelude.Powers.{pow_add, pow_pos}
use rdwarfs.Prelude.Int.{ℤ, pos, negsuc, as_i64}
use rdwarfs.Result.{ok}
use rdwarfs.Metadata.BitBuf.{read_u64, bit_len, read_i64, sign_extend, extended}
use rdwarfs.Metadata.BitBuf.Extent.{extent, read_u64-extent}

-- The integer that `width` bits stand for in two's complement.
unfoldable pub twos_complement : ℕ → ℕ → ℤ
twos_complement raw width =
    if ltb raw (2 ^ (width - 1)) then pos raw else negsuc (2 ^ width - raw - 1)

pred_mul : (a b : ℕ) → 0 < a → (a - 1) * b + b ≡ a * b
pred_mul zero b h = absurd (omega arith)
pred_mul (suc a) b h = let e : suc a - 1 ≡ a = omega arith in rw e (omega arith)

-- The ones above the field.
high_ones : (n k : ℕ) → n + k ≡ 64 → (u64_mod - 1) * 2 ^ n % u64_mod ≡ (2 ^ k - 1) * 2 ^ n
high_ones n k e =
    ap (λ (t : ℕ). t % u64_mod) regroup
    ∙ add-mul-mod_self_left ((2 ^ k - 1) * 2 ^ n) u64_mod (2 ^ n - 1)
    ∙ mod-eq_of_lt (omega (arith, whole, split, pow_pos n))
  where
    whole : u64_mod ≡ 2 ^ n * 2 ^ k
    whole = ap (λ (t : ℕ). 2 ^ t) (sym e) ∙ pow_add n k

    split : (2 ^ k - 1) * 2 ^ n + 2 ^ n ≡ 2 ^ n * 2 ^ k
    split = pred_mul (2 ^ k) (2 ^ n) (pow_pos k) ∙ mul_comm (2 ^ k) (2 ^ n)

    regroup : (u64_mod - 1) * 2 ^ n ≡ (2 ^ k - 1) * 2 ^ n + u64_mod * (2 ^ n - 1)
    regroup = grind (arith, whole, split, pow_pos n)

extended-eq : (raw n k : ℕ) → n + k ≡ 64 → raw < 2 ^ n → extended raw n ≡ u64_mod - 2 ^ n + raw
extended-eq raw n k e h =
    rw (high_ones n k e, bit_or_low_high n (2 ^ k - 1) raw h) (omega (arith, whole, split))
  where
    whole : u64_mod ≡ 2 ^ n * 2 ^ k
    whole = ap (λ (t : ℕ). 2 ^ t) (sym e) ∙ pow_add n k

    split : (2 ^ k - 1) * 2 ^ n + 2 ^ n ≡ 2 ^ n * 2 ^ k
    split = pred_mul (2 ^ k) (2 ^ n) (pow_pos k) ∙ mul_comm (2 ^ k) (2 ^ n)

-- The sign bit of a field.
flag_low : (raw m : ℕ) → raw < 2 ^ m → bit_and raw (2 ^ m) ≡ 0
flag_low raw m h = let q : raw / 2 ^ m ≡ 0 = grind arith in rw (bit_and_flag m raw, q) (omega arith)

flag_high : (raw m : ℕ) → 2 ^ m ≤ raw → raw < 2 ^ suc m → bit_and raw (2 ^ m) ≡ 2 ^ m
flag_high raw m lo hi =
    let q : raw / 2 ^ m ≡ 1 = grind (arith, pow-suc 2 m) in rw (bit_and_flag m raw, q) (omega arith)

sign_extend-eq :
    (raw m : ℕ) → m < 63 → raw < 2 ^ suc m → sign_extend raw (suc m) ≡ twos_complement raw (suc m)
unfolding sign_extend twos_complement
sign_extend-eq raw m h l =
    let down : suc m - 1 ≡ m = omega arith in
    let double : 2 ^ suc m ≡ 2 * 2 ^ m = omega (arith, pow-suc 2 m) in
    let room : 2 ^ suc m ≤ 2 ^ 63 = pow-le-pow_right (omega arith) {j = 63} (omega arith) in
    elim (Bool-cases (ltb raw (2 ^ m))) [
      | inl low ↦
          rw (down, low, flag_low raw m (ltb→lt _ _ low))
            (ground (arith, double, room, ltb→lt raw (2 ^ m) low))
      | inr high ↦
          rw (down, high, flag_high raw m (ltb→ge _ _ high) l)
            (ground (
              arith,
              double,
              room,
              pow_pos m,
              ltb→ge raw (2 ^ m) high,
              extended-eq raw (suc m) (63 - m) (omega arith) l,
            ))
    ]

full_width : (raw : ℕ) → as_i64 raw ≡ twos_complement raw 64
unfolding twos_complement
full_width raw = refl

extent-lt : (bytes : List ℕ) (offset width : ℕ) → extent bytes offset width < 2 ^ width
unfolding extent
extent-lt bytes offset width = mod-lt _ (pow_pos width)

-- In bounds, a signed read of 1 to 64 bits whose end does not overflow returns the field of that width in
-- the number that the buffer spells, read as a two's complement number.
pub read_i64-twos_complement :
    (bytes : List ℕ) (offset width : ℕ)
    → All IsByte bytes
    → 0 < width
    → width ≤ 64
    → offset + width ≤ bit_len bytes
    → offset + width < u64_mod
    → read_i64 bytes offset width ≡ ok (twos_complement (extent bytes offset width) width)
unfolding read_i64
read_i64-twos_complement bytes offset zero v p h fits small = absurd (omega arith)
read_i64-twos_complement bytes offset (suc m) v p h fits small =
    let nonzero : (suc m == 0) ≡ false = ground arith in
    let read : read_u64 bytes offset (suc m) ≡ ok (extent bytes offset (suc m)) =
      rw nonzero at (read_u64-extent bytes offset (suc m) v h fits small) in
    elim (Bool-cases (suc m == 64)) [
      | inl e ↦
          let w : suc m ≡ 64 = (==_iff (suc m) 64).0 e in
          rw (nonzero, ge→ltb 64 (suc m) h, read, e)
            (ap ok (full_width _ ∙ ap (twos_complement (extent bytes offset (suc m))) (sym w)))
      | inr e ↦
          let narrow : m < 63 = ground arith in
          rw (nonzero, ge→ltb 64 (suc m) h, read, e)
            (ap ok (sign_extend-eq _ m narrow (extent-lt bytes offset (suc m))))
    ]
