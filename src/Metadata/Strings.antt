-- ===== src/Metadata/Strings.antt =====
-- src/metadata/model.rs: the decoding of a compact string table.
pub mod Whole
mod Runs
use rdwarfs.Prelude.{
  ℕ, Bool, ◌||◌, Option, none, some, List, [], ◌∷◌, ◌++◌, length, ltb, if◌then◌else◌, u32_mod,
}
use rdwarfs.Result.{Result, ok, err, ◌>>=◌, slice}
use rdwarfs.Result as Result
use rdwarfs.Metadata.Fsst.{SymTable}
use rdwarfs.Metadata.Fsst as Fsst
use rdwarfs.Metadata.Tables.{StringTable}
use rdwarfs.Fs.Deltas.{inclusive_prefix_sum_u32}

abbrev pub no_strings : StringTable
no_strings = record { bytes = []; offsets = [] }

-- The offsets, which a packed table stores as the lengths of its strings.
unfoldable pub offsets_of : List ℕ → Bool → List ℕ
offsets_of positions packed = if packed then 0 ∷ inclusive_prefix_sum_u32 positions else positions

-- `symtab.map(SymTable::parse)`, without the length of the table.
unfoldable pub table_of : Option (List ℕ) → Result (Option SymTable)
table_of none = ok none
table_of (some bytes) = do (table, used) ← Fsst.parse bytes; ok (some table)

-- A string, decoded behind the ones before it.
unfoldable pub append_string : Option SymTable → List ℕ → List ℕ → Result (List ℕ)
append_string none string out = ok (out ++ string)
append_string (some table) string out = Fsst.decode table string out

-- The loop over `offsets.windows(2)`.
unfoldable pub strings_loop : List ℕ → Option SymTable → List ℕ → StringTable → Result StringTable
strings_loop buffer table [] out = ok out
strings_loop buffer table (start ∷ []) out = ok out
strings_loop buffer table (start ∷ (end ∷ offsets)) out =
    if ltb end start || ltb (length buffer) end
    then err (Result.decode "frozen2-model" "string_table slice out of buffer")
    else do
      string ← slice buffer start end
      bytes ← append_string table string out.bytes
      if ltb (length bytes) u32_mod
          then strings_loop buffer table (end ∷ offsets)
              (record { bytes = bytes; offsets = out.offsets ++ (length bytes ∷ []) })
          else err (Result.decode "frozen2-model" "string table exceeds 4 GiB")

unfoldable pub decode_string_table : List ℕ → Option (List ℕ) → List ℕ → Bool → Result StringTable
decode_string_table buffer symtab positions packed =
    if ltb (length (offsets_of positions packed)) 2 then ok no_strings else do
      table ← table_of symtab
      strings_loop buffer table (offsets_of positions packed)
          (record { bytes = []; offsets = 0 ∷ [] })
