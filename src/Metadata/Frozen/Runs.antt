-- ===== src/Metadata/Frozen/Runs.antt =====
-- A string of two bytes, one byte behind its range.
use mathlib.Core.Option.{some-injective}
use rdwarfs.Prelude.{inl, inr, ap, sym, none, Bool-cases, ◌≡◌, false, some, [], ◌∷◌, arith}
use rdwarfs.Prelude.Int.{pos, same_int}
use rdwarfs.Result.{Ensures}
use rdwarfs.Metadata.Schema.{Field, Layout, field, get}
use rdwarfs.Metadata.Thrift.{in_range}
use rdwarfs.Metadata.Frozen.{Frozen, root_pos, read_string_bytes}
use rdwarfs.Metadata.Frozen.Bounds.{IsBuffer, HasOffsets, IsRelative, read_string_bytes-IsRelative}

-- Layout 1 is a byte; the range has its distance and its count in its first two bytes.
abbrev byte_layout : Layout
byte_layout = record { size = 0; bits = 8; fields = []; type_name = [] }

abbrev range_layout : Layout
range_layout = record {
  size = 2;
  bits = 0;
  fields =
      (pos 1, record { layout_id = pos 1; offset = pos 0 })
      ∷ (pos 2, record { layout_id = pos 1; offset = pos 1 })
      ∷ [];
  type_name = [];
}

abbrev blob : Frozen
blob = record {
  schema = record {
    file_version = pos 1;
    relax_type_checks = false;
    layouts = (pos 1, byte_layout) ∷ [];
    root_layout = pos 1;
  };
  buf = 3 ∷ 2 ∷ 0 ∷ 104 ∷ 105 ∷ [];
}

blob-IsBuffer : IsBuffer blob.buf
blob-IsBuffer = record {
  bytes_only = (omega arith, (omega arith, (omega arith, (omega arith, (omega arith, tt)))));
  short = omega arith;
}

range_layout-HasOffsets : HasOffsets range_layout
unfolding field get
range_layout-HasOffsets id f e = elim (Bool-cases (same_int (pos 1) id)) [
  | inl t ↦
      let is : some (record { layout_id = pos 1; offset = pos 0 }) ≡ some f = rw t at e in
      ap (λ (x : Field). in_range 32768 x.offset) (sym (some-injective _ _ is))
  | inr n ↦ elim (Bool-cases (same_int (pos 2) id)) [
    | inl t ↦
        let is : some (record { layout_id = pos 1; offset = pos 1 }) ≡ some f = rw (n, t) at e in
        ap (λ (x : Field). in_range 32768 x.offset) (sym (some-injective _ _ is))
    | inr m ↦ let is : none ≡ some f = rw (n, m) at e in cc
  ]
]

read_string_bytes-IsRelative_example :
    Ensures
      (IsRelative blob blob-IsBuffer root_pos (omega arith, omega arith) range_layout)
      (read_string_bytes blob root_pos range_layout)
read_string_bytes-IsRelative_example =
    read_string_bytes-IsRelative blob blob-IsBuffer root_pos (omega arith, omega arith) range_layout
      range_layout-HasOffsets
