-- ===== src/Metadata/Thrift/Varint.antt =====
-- The varint reader on what a LEB128 writer writes, the one of the tests of src/metadata/thrift.rs.
use rdwarfs.Prelude.{
  ℕ, zero, suc, ◌+◌, ◌*◌, ◌/◌, ◌%◌, ◌^◌, ◌<◌, ◌≤◌, ◌≡◌, refl, sym, ap, ap₂, ◌∙◌, some, List, [],
  ◌∷◌, ◌++◌, length, ltb, if◌then◌else◌, arith, get_elem?, bit_and, bit_or, append_assoc,
  length-append, lt→ltb, ge→ltb, ltb→ge, ltb→lt, Bool-cases, inl, inr, u64_mod,
  get_elem?-append_right,
}
use native.Mathlib.Nat.{pow-suc}
use rdwarfs.Prelude.Int.{ℤ, pos, negsuc}
use rdwarfs.Prelude.Bits.{bit_and_mask, bit_and_flag, bit_or_low_high}
use rdwarfs.Prelude.Powers.{pow_add}
use rdwarfs.Result.{Result, ok}
use rdwarfs.Metadata.Thrift.{
  ThriftReader, read_byte, varint_loop, read_varint_u64, read_zigzag_i64, zigzag, checked_shl,
}

-- The rounds that are left, and the value: seven bits a byte, and the top bit on all bytes but the last.
unfoldable pub write_varint : ℕ → ℕ → List ℕ
write_varint zero v = []
write_varint (suc rounds) v =
    let rest = write_varint rounds (v / 128) in if ltb v 128 then v ∷ [] else (v % 128 + 128) ∷ rest

-- The reader behind `n` bytes more.
abbrev pub moved : ThriftReader → ℕ → ThriftReader
moved r n = record r { pos = r.pos + n }

next_byte :
    (r : ThriftReader) (before rest : List ℕ) (b : ℕ)
    → r.bytes ≡ before ++ (b ∷ rest)
    → r.pos ≡ length before
    → read_byte r ≡ ok (b, moved r 1)
unfolding read_byte
next_byte r before rest b e p =
    rw
      (
        ap (λ (xs : List ℕ). get_elem? xs r.pos) e
            ∙ get_elem?-append_right before (b ∷ rest) 0 r.pos (omega arith),
        read_byte,
      )
      refl

-- The reader's round, at a byte whose seven bits fit.
module _ (rounds result shift b : ℕ) (small : shift < 64) (low : result < 2 ^ shift)
    (fits : b % 128 * 2 ^ shift < u64_mod) where
  chunk_eq : checked_shl (bit_and b 0x7f) shift ≡ some (b % 128 * 2 ^ shift)
  chunk_eq = rw (lt→ltb shift 64 small, bit_and_mask 7 b) (ap some (omega arith))

  result_eq : bit_or result (b % 128 * 2 ^ shift) ≡ result + b % 128 * 2 ^ shift
  result_eq = bit_or_low_high shift (b % 128) result low

  last_round :
      (r r' : ThriftReader)
      → read_byte r ≡ ok (b, r')
      → b < 128
      → varint_loop (suc rounds) result shift r ≡ ok (result + b % 128 * 2 ^ shift, r')
  unfolding varint_loop
  last_round r r' e h =
      let flag : bit_and b 0x80 ≡ 0 = omega (arith, bit_and_flag 7 b) in
      rw (e, chunk_eq, flag, result_eq) refl

  middle_round :
      (r r' : ThriftReader)
      → read_byte r ≡ ok (b, r')
      → 128 ≤ b
      → b < 256
      → varint_loop (suc rounds) result shift r
        ≡ varint_loop rounds (result + b % 128 * 2 ^ shift) (shift + 7) r'
  unfolding varint_loop
  middle_round r r' e h h' =
      let flag : bit_and b 0x80 ≡ 128 = omega (arith, bit_and_flag 7 b) in
      rw (e, chunk_eq, flag, result_eq) refl

split_at : (v lo hi p : ℕ) → v ≡ lo + hi * 128 → v * p ≡ lo * p + hi * (p * 128)
split_at v lo hi p e = rw e (grind arith)

rounds_left : (rounds v : ℕ) → 128 ≤ v → v < 128 ^ suc rounds → 0 < rounds
rounds_left zero v h k = absurd (omega arith)
rounds_left (suc rounds) v h k = omega arith

split_value : (v p : ℕ) → v * p ≡ v % 128 * p + v / 128 * (p * 128)
split_value v p = split_at v (v % 128) (v / 128) p (omega arith)

low_grows : (lo result p : ℕ) → lo < 128 → result < p → result + lo * p < p * 128
low_grows lo result p h k = grind arith

answer :
    (r : ThriftReader) {a b n k : ℕ}
    → a ≡ b
    → n ≡ k
    → ◌≡◌ {A = Result (ℕ × ThriftReader)}
        (ok (a, record r { pos = n }))
        (ok (b, record r { pos = k }))
answer r e f = ap₂ (λ value at. ok (value, record r { pos = at })) e f

written_last : (rounds v : ℕ) → v < 128 → write_varint (suc rounds) v ≡ v ∷ []
unfolding write_varint
written_last rounds v h = rw (lt→ltb v 128 h) refl

written_more :
    (rounds v : ℕ)
    → 128 ≤ v
    → write_varint (suc rounds) v ≡ (v % 128 + 128) ∷ write_varint rounds (v / 128)
unfolding write_varint
written_more rounds v h = rw (ge→ltb v 128 h) refl

varint_loop-write :
    (rounds v result shift : ℕ) (r : ThriftReader) (before rest : List ℕ)
    → r.bytes ≡ before ++ (write_varint rounds v ++ rest)
    → r.pos ≡ length before
    → 0 < rounds
    → shift + 7 * rounds ≡ 70
    → result < 2 ^ shift
    → v * 2 ^ shift < u64_mod
    → v < 128 ^ rounds
    → varint_loop rounds result shift r
      ≡ ok (result + v * 2 ^ shift, moved r (length (write_varint rounds v)))
varint_loop-write zero v result shift r before rest e p n s low fits small = absurd (omega arith)
varint_loop-write (suc rounds) v result shift r before rest e p n s low fits small =
    elim (Bool-cases (ltb v 128)) [
      | inl last ↦
          let h = ltb→lt v 128 last in
          let seven : v % 128 ≡ v = omega arith in
          let e' = e ∙ ap (λ (xs : List ℕ). before ++ (xs ++ rest)) (written_last rounds v h) in
          last_round rounds result shift v (omega arith) low (rw seven fits) r (moved r 1)
            (next_byte r before rest v e' p) h
          ∙ answer r (ap (λ x. result + x * 2 ^ shift) seven)
              (omega (arith, ap (λ (xs : List ℕ). length xs) (written_last rounds v h)))
      | inr more ↦
          let h = ltb→ge v 128 more in
          let b = v % 128 + 128 in
          let seven : b % 128 ≡ v % 128 = omega arith in
          let w = write_varint rounds (v / 128) in
          let whole = split_value v (2 ^ shift) in
          let e' = e ∙ ap (λ (xs : List ℕ). before ++ (xs ++ rest)) (written_more rounds v h) in
          let wider : 2 ^ (shift + 7) ≡ 2 ^ shift * 128 = pow_add shift 7 in
          middle_round rounds result shift b (omega arith) low (rw seven (omega (arith, whole))) r
            (moved r 1) (next_byte r before (w ++ rest) b e' p) (omega arith) (omega arith)
          ∙ varint_loop-write rounds (v / 128) (result + b % 128 * 2 ^ shift) (shift + 7)
              (moved r 1) (before ++ (b ∷ [])) rest
              (e' ∙ sym (append_assoc before (b ∷ []) (w ++ rest)))
              (omega (arith, length-append before (b ∷ []))) (rounds_left rounds v h small)
              (omega arith)
              (rw (seven, wider) (low_grows (v % 128) result (2 ^ shift) (omega arith) low))
              (rw wider (omega (arith, whole))) (omega (arith, pow-suc 128 rounds))
          ∙ answer r (rw (seven, wider) (omega (arith, whole)))
              (omega (arith, ap (λ (xs : List ℕ). length xs) (written_more rounds v h)))
    ]

-- The encoding of a `u64` as a varint of at most ten bytes, wherever it stands in the input and whatever
-- follows it, is read back as that number, and the reader then stands right behind it.
pub read_varint_u64-write_varint :
    (v : ℕ) (r : ThriftReader) (before rest : List ℕ)
    → v < u64_mod
    → r.bytes ≡ before ++ (write_varint 10 v ++ rest)
    → r.pos ≡ length before
    → read_varint_u64 r ≡ ok (v, moved r (length (write_varint 10 v)))
unfolding read_varint_u64
read_varint_u64-write_varint v r before rest h e p =
    varint_loop-write 10 v 0 0 r before rest e p (omega arith) (omega arith) (omega arith)
      (omega arith) (omega arith)
    ∙ answer r (omega arith) refl

-- `write_zigzag` of the tests: the sign moves to the lowest bit.
unfoldable pub to_zigzag : ℤ → ℕ
to_zigzag (pos n) = 2 * n
to_zigzag (negsuc n) = 2 * n + 1

zigzag-to_zigzag : (z : ℤ) → zigzag (to_zigzag z) ≡ z
unfolding to_zigzag
zigzag-to_zigzag (pos n) =
    let even : 2 * n % 2 ≡ 0 = omega arith in
    let half : 2 * n / 2 ≡ n = omega arith in rw (even, half) refl
zigzag-to_zigzag (negsuc n) =
    let odd : (2 * n + 1) % 2 ≡ 1 = omega arith in
    let half : (2 * n + 1) / 2 ≡ n = omega arith in rw (odd, half) refl

-- An `i64` in zigzag form and written as a varint is read back as the same number.
pub read_zigzag_i64-write :
    (z : ℤ) (r : ThriftReader) (before rest : List ℕ)
    → to_zigzag z < u64_mod
    → r.bytes ≡ before ++ (write_varint 10 (to_zigzag z) ++ rest)
    → r.pos ≡ length before
    → read_zigzag_i64 r ≡ ok (z, moved r (length (write_varint 10 (to_zigzag z))))
unfolding read_zigzag_i64
read_zigzag_i64-write z r before rest h e p =
    rw (read_varint_u64-write_varint (to_zigzag z) r before rest h e p, zigzag-to_zigzag z) refl
