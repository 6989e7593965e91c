-- ===== src/Metadata/Frozen/Bounds.antt =====
-- Reads of a Frozen2 blob stay inside it, and a range's data is found relative to the range itself.
use rdwarfs.Prelude.{
  ℕ, suc, ◌+◌, ◌*◌, ◌-◌, ◌≤◌, ◌<◌, ◌≡◌, refl, true, Option, none, some, List, length, take, drop,
  All, IsByte, ltb, ltb→ge, ◌==◌, checked_add, u64_mod, arith, Bool-cases, inl, inr,
}
use rdwarfs.Prelude.Int.{ℤ, pos, negsuc}
use rdwarfs.Result.{
  ok, Ensures, Ensures-bind, Ensures-if, Ensures-ok_or, Returns, Returns-bind, ok_or-Returns,
  plain_add_lem, slice-Ensures,
}
use rdwarfs.Metadata.BitBuf.{bit_len, read_u64}
use rdwarfs.Metadata.BitBuf.Extent.{read_u64-extent, read_u64-refused}
use rdwarfs.Metadata.Thrift.{in_range}
use rdwarfs.Metadata.Schema as Schema
use rdwarfs.Metadata.Schema.{Field, Layout, field}
use rdwarfs.Metadata.Frozen.{
  Pos, absolute_bit, child, child_at, RangeView, Frozen, read_part, read_range, read_string_bytes,
}

-- A buffer of bytes, of a length that a slice can have.
pub record IsBuffer (bytes : List ℕ) : Type 0 where
  pub bytes_only : All IsByte bytes
  pub short : length bytes < 1152921504606846976

-- A position that a step by an `i16` does not carry past `u64`.
abbrev pub IsSteppable : Pos → Type 0
IsSteppable p = (p.byte + 32768 < u64_mod) × (p.bit + 32768 < u64_mod)

-- Every offset of the layout is an `i16`.
abbrev pub HasOffsets : Layout → Type 0
HasOffsets layout = (id : ℤ) (f : Field) → field layout id ≡ some f → in_range 32768 f.offset ≡ true

read_u64-no_bits : (bytes : List ℕ) (offset : ℕ) → read_u64 bytes offset 0 ≡ ok 0
unfolding read_u64
read_u64-no_bits bytes offset = refl

module _ (bytes : List ℕ) (buffer : IsBuffer bytes) where
  read_u64-Returns : (offset width : ℕ) → Returns (read_u64 bytes offset width)
  unfolding bit_len
  read_u64-Returns offset width = elim (Bool-cases (ltb 64 width)) [
    | inl wide ↦
        let (e, refused) =
          read_u64-refused bytes offset width (ground arith) (inl (ground arith)) in
        rw refused tt
    | inr narrow ↦ elim (Bool-cases (ltb (length bytes * 8) (offset + width))) [
      | inr fits ↦
          rw
            (read_u64-extent bytes offset width buffer.bytes_only (ltb→ge _ _ narrow)
              (ltb→ge _ _ fits) (omega (arith, ltb→ge _ _ fits, buffer.short)))
            tt
      | inl beyond ↦ elim (Bool-cases (width == 0)) [
        | inl nothing ↦
            let zero_bits : width ≡ 0 = ground arith in
            rw (zero_bits, read_u64-no_bits bytes offset) tt
        | inr some_bits ↦
            let (e, refused) =
              read_u64-refused bytes offset width (ground arith) (inr (ground arith)) in
            rw refused tt
      ]
    ]
  ]

child_at-Returns :
    (p : Pos) (offset : ℤ)
    → IsSteppable p
    → in_range 32768 offset ≡ true
    → Returns (child_at p offset)
child_at-Returns p (pos n) h i =
    let small : n < 32768 = ground arith in
    rw (plain_add_lem p.byte n (omega (arith, h.0, small))) tt
child_at-Returns p (negsuc n) h i =
    let small : n < 32768 = ground arith in
    rw (plain_add_lem p.bit (suc n) (omega (arith, h.1, small))) tt

module _ (frozen : Frozen) (buffer : IsBuffer frozen.buf) (p : Pos)
    (steppable : IsSteppable p) where
  read_part-Returns :
      (o : Option Field)
      → ((f : Field) → o ≡ some f → in_range 32768 f.offset ≡ true)
      → Returns (read_part frozen p o)
  unfolding read_part child Schema.layout
  read_part-Returns none offsets = tt
  read_part-Returns (some f) offsets =
      Returns-bind (λ _. Unit {0}) _ _
        (ok_or-Returns (Schema.get frozen.schema.layouts f.layout_id) _)
        λ layout _.
          Returns-bind (λ _. Unit {0}) _ _ (child_at-Returns p f.offset steppable (offsets f refl))
            λ q _. read_u64-Returns frozen.buf buffer (absolute_bit q) layout.bits

  read_range-Ensures :
      (layout : Layout)
      → HasOffsets layout
      → Ensures
          (λ (range : RangeView). (p.byte ≤ range.data_byte) × (range.data_byte < u64_mod))
          (read_range frozen p layout)
  unfolding read_range
  read_range-Ensures layout offsets =
      let P : RangeView → Type 0 =
        λ range. (p.byte ≤ range.data_byte) × (range.data_byte < u64_mod) in
      Ensures-bind (λ _. Unit {0}) P _ _
        (read_part-Returns (field layout (pos 2)) (λ f e. offsets (pos 2) f e))
        λ count _ _.
          Ensures-bind (λ _. Unit {0}) P _ _
            (Ensures-if (λ _. Unit {0}) (count == 0) _ _ (λ _. tt)
              λ _. read_part-Returns (field layout (pos 1)) (λ f e. offsets (pos 1) f e))
            λ distance _ _.
              Ensures-bind (λ b. (b ≡ p.byte + distance) × (b < u64_mod)) P _ _
                (Ensures-ok_or _ (checked_add p.byte distance) _
                  λ b e. (ground arith, ground arith))
                λ b _ h. (omega (arith, h.0), h.1)

  -- The bytes of a range that lies in the buffer, not before the position of the range.
  abbrev pub IsRelative : Layout → List ℕ → Type 0
  IsRelative layout bytes =
      (range : RangeView) × (read_range frozen p layout ≡ ok range)
      × (p.byte ≤ range.data_byte)
      × (range.data_byte + range.count ≤ length frozen.buf)
      × (bytes ≡ take range.count (drop range.data_byte frozen.buf))

  -- Over a buffer of less than 2^60 bytes, from a position at least 2^15 below the end of `u64`, and by a layout
  -- whose offsets are 16-bit, reading the bytes of a string never panics. Where it succeeds the range is
  -- read, begins no earlier than its own position, and ends inside the buffer, and the bytes are those of
  -- the range.
  pub read_string_bytes-IsRelative :
      (layout : Layout)
      → HasOffsets layout
      → Ensures (IsRelative layout) (read_string_bytes frozen p layout)
  unfolding read_string_bytes
  read_string_bytes-IsRelative layout offsets =
      Ensures-bind (λ (range : RangeView). (p.byte ≤ range.data_byte) × (range.data_byte < u64_mod))
        (IsRelative layout) _ _ (read_range-Ensures layout offsets)
        λ range got h.
          Ensures-bind (λ end. end ≡ range.data_byte + range.count) (IsRelative layout) _ _
            (Ensures-ok_or _ (checked_add range.data_byte range.count) _ λ end e. ground arith)
            λ end _ end_is.
              Ensures-if (IsRelative layout) (ltb (length frozen.buf) end) _ _ (λ _. tt)
                λ within.
                  let inside : end ≤ length frozen.buf = ltb→ge _ _ within in
                  let count_is : end - range.data_byte ≡ range.count = omega (arith, end_is) in
                  slice-Ensures (IsRelative layout) frozen.buf range.data_byte end
                    (omega (arith, end_is)) inside
                    (range, got, h.0, omega (arith, end_is, inside), rw count_is refl)
