-- ===== src/Metadata/Strings/Runs.antt =====
-- A packed table of two strings, without a symbol table.
use rdwarfs.Prelude.{none, true, [], ◌∷◌, length, ◌-◌, arith}
use rdwarfs.Result.{Ensures}
use rdwarfs.Metadata.Strings.{decode_string_table, offsets_of}
use rdwarfs.Metadata.Strings.Whole.{IsWhole, decode_string_table-IsWhole}

decode_string_table-IsWhole_example :
    Ensures
      (IsWhole (length (offsets_of (2 ∷ 1 ∷ []) true) - 1))
      (decode_string_table (b'a' ∷ b'b' ∷ b'c' ∷ []) none (2 ∷ 1 ∷ []) true)
decode_string_table-IsWhole_example =
    decode_string_table-IsWhole (b'a' ∷ b'b' ∷ b'c' ∷ [])
      (omega arith, (omega arith, (omega arith, tt))) none (2 ∷ 1 ∷ []) true
