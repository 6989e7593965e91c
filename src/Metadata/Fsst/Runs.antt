-- ===== src/Metadata/Fsst/Runs.antt =====
-- The decoder's theorems over a table of one symbol.
use rdwarfs.Prelude.{
  ℕ, ◌≡◌, List, [], ◌∷◌, arith, refl, false, replicate, length, take, ◌≤◌, ◌+◌, ◌*◌,
}
use rdwarfs.Result.{ok, Ensures}
use rdwarfs.Metadata.Fsst.{SymTable, parse, decode}
use rdwarfs.Metadata.Fsst.Table.{IsTable, Parsed, parse-IsTable, spans-grow, spans-empty}
use rdwarfs.Metadata.Fsst.Decoding.{decode-Ensures}
use rdwarfs.Metadata.Fsst.Tokens.{
  literal, code, encode, expand, expand_span, expand_all, IsToken, decode-encode,
}

-- Code 0 stands for "ab".
abbrev table : SymTable
table = record {
  symbols = b'a' ∷ b'b' ∷ [];
  spans = (0, 2) ∷ replicate 255 (0, 0);
  zero_terminated = false;
}

table-IsTable : IsTable table
table-IsTable = (
  refl,
  (
    (omega arith, omega arith),
    spans-grow 0 2 (replicate 255 (0, 0)) (omega arith) (spans-empty 255),
  ),
)

-- A header of no symbols.
abbrev empty_table : List ℕ
empty_table = 0 ∷ 0 ∷ 0 ∷ 0 ∷ 0xca ∷ 0x14 ∷ 0x34 ∷ 0x01 ∷ 0 ∷ replicate 8 0

parse-IsTable_example : Ensures (Parsed empty_table) (parse empty_table)
parse-IsTable_example = parse-IsTable empty_table

decode-Ensures_example :
    Ensures
      (λ (done : List ℕ). (take 1 done ≡ b'x' ∷ []) × (length done ≤ 1 + 8 * 3))
      (decode table (0 ∷ 255 ∷ 7 ∷ []) (b'x' ∷ []))
decode-Ensures_example =
    decode-Ensures table (0 ∷ 255 ∷ 7 ∷ []) (b'x' ∷ []) table-IsTable
      (omega arith, (omega arith, (omega arith, tt)))

decode-encode_example : decode table (0 ∷ 255 ∷ 7 ∷ []) [] ≡ ok (b'a' ∷ b'b' ∷ 7 ∷ [])
unfolding encode expand expand_span expand_all IsToken
decode-encode_example =
    decode-encode table (code 0 ∷ literal 7 ∷ []) []
      ((omega arith, ((0, 2), refl, omega arith, omega arith)), (tt, tt))
