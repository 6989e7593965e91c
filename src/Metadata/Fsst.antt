-- ===== src/Metadata/Fsst.antt =====
-- src/metadata/fsst.rs: the symbol tables of compact string tables, and the decoder of their strings.
pub mod Table
pub mod Decoding
pub mod Tokens
mod Runs
use rdwarfs.Prelude.{
  ℕ, zero, suc, ◌+◌, ◌-◌, ◌*◌, ◌/◌, ◌^◌, ◌<◌, ◌≡◌, Bool, true, false, not, some, none, List, [],
  ◌∷◌, ◌++◌, length, replicate, set, leb, ltb, ◌==◌, if◌then◌else◌, bit_and, checked_add, u32_mod,
}
use rdwarfs.Result.{Result, ok, err, fault, out_of_fuel, ◌>>=◌, ok_or, index, slice, store}
use rdwarfs.Result as Result
use rdwarfs.Bytes.{from_le_bytes}

abbrev pub fsst_esc : ℕ
fsst_esc = 0xff

abbrev pub fsst_version : ℕ
fsst_version = 20190218

abbrev pub header_len : ℕ
header_len = 17

abbrev pub num_codes : ℕ
num_codes = 256

-- A span is an offset into `symbols` and a length.
pub record SymTable : Type 0 where
  pub symbols : List ℕ
  pub spans : List (ℕ × ℕ)
  pub zero_terminated : Bool

-- The variables of the loops of `SymTable::parse`.
pub record Filling : Type 0 where
  pub symbols : List ℕ
  pub spans : List (ℕ × ℕ)
  pub code : ℕ
  pub pos : ℕ

-- The innermost round: one symbol of the given length.
unfoldable pub fill_symbol : List ℕ → ℕ → Filling → Result Filling
fill_symbol bytes symbol_len f =
    if leb num_codes f.code then err (Result.decode "fsst" "too many FSST symbols") else do
      end ← ok_or (checked_add f.pos symbol_len) (Result.decode "fsst" "symbol overflow")
      if ltb (length bytes) end
          then err (Result.decode "fsst" "symbol bytes truncated")
          else if leb u32_mod (length f.symbols)
          then err (Result.decode "fsst" "symbol table too large")
          else do
            symbol ← slice bytes f.pos end
            spans ← store f.spans f.code (length f.symbols, symbol_len)
            ok (record {
              symbols = f.symbols ++ symbol;
              spans = spans;
              code = f.code + 1;
              pos = end;
            })

-- `for _ in 0..count`.
unfoldable pub fill_symbols : ℕ → List ℕ → ℕ → Filling → Result Filling
fill_symbols zero bytes symbol_len f = ok f
fill_symbols (suc count) bytes symbol_len f = do
  f' ← fill_symbol bytes symbol_len f
  fill_symbols count bytes symbol_len f'

-- The slots `l & 7` for `l` from 1 to 8.
abbrev pub slots : List ℕ
slots = 1 ∷ 2 ∷ 3 ∷ 4 ∷ 5 ∷ 6 ∷ 7 ∷ 0 ∷ []

unfoldable pub fill_slots : List ℕ → List ℕ → List ℕ → Filling → Result Filling
fill_slots [] bytes histo f = ok f
fill_slots (slot ∷ rest) bytes histo f = do
  count ← index histo slot
  f' ← fill_symbols count bytes (slot + 1) f
  fill_slots rest bytes histo f'

-- The histogram with one 1-byte symbol less, which code 0 stands for in zero-terminated mode.
unfoldable pub effective_histo : Bool → List ℕ → Result (List ℕ)
effective_histo false histo = ok histo
effective_histo true histo = do ones ← index histo 0; ok (set histo 0 (ones - 1))

-- `SymTable::parse` behind the checks of the header: the table, and the number of bytes it takes.
unfoldable pub parse_symbols : List ℕ → Bool → List ℕ → Result (SymTable × ℕ)
parse_symbols bytes zero_terminated histo = do
  effective ← effective_histo zero_terminated histo
  f ← fill_slots slots bytes effective (record {
    symbols = [];
    spans = replicate num_codes (0, 0);
    code = if zero_terminated then 1 else 0;
    pos = header_len;
  })
  ok (record { symbols = f.symbols; spans = f.spans; zero_terminated = zero_terminated }, f.pos)

unfoldable pub parse : List ℕ → Result (SymTable × ℕ)
parse bytes =
    if ltb (length bytes) header_len
    then err (Result.decode "fsst" "symbol table header too short")
    else do
      version_word ← slice bytes 0 8
      if not (from_le_bytes version_word / 2 ^ 32 == fsst_version)
          then err (Result.decode "fsst" "unexpected FSST version")
          else do
            flags ← index bytes 8
            len_histo ← slice bytes 9 17
            parse_symbols bytes (not (bit_and flags 1 == 0)) len_histo

unfoldable pub symbol : SymTable → ℕ → Result (List ℕ)
symbol table code = do
  (start, len) ← index table.spans code
  slice table.symbols start (start + len)

-- What a code appends to the output.
unfoldable pub append_symbol : List ℕ → ℕ → List ℕ → Result (ℕ × List ℕ)
append_symbol [] i out = err (Result.decode "fsst" "FSST code references unused symbol")
append_symbol (b ∷ bs) i out = ok (i, out ++ (b ∷ bs))

-- One round of `decode`: the next `i`, and the output.
unfoldable pub decode_round : SymTable → List ℕ → ℕ → List ℕ → Result (ℕ × List ℕ)
unfolding symbol append_symbol
decode_round table compressed i out = do
  byte ← index compressed i
  if byte == fsst_esc
      then (if leb (length compressed) (i + 1)
          then err (Result.decode "fsst" "FSST escape at end of input")
          else do literal ← index compressed (i + 1); ok (i + 2, out ++ (literal ∷ [])))
      else do bytes ← symbol table byte; append_symbol bytes (i + 1) out

unfoldable pub decode_loop : ℕ → SymTable → List ℕ → ℕ → List ℕ → Result (List ℕ)
decode_loop zero table compressed i out = fault out_of_fuel
decode_loop (suc fuel) table compressed i out =
    if ltb i (length compressed)
    then (do
      (i', out') ← decode_round table compressed i out
      decode_loop fuel table compressed i' out')
    else ok out

-- Every round takes a byte at least.
unfoldable pub decode : SymTable → List ℕ → List ℕ → Result (List ℕ)
decode table compressed out = decode_loop (length compressed + 1) table compressed 0 out

unfoldable pub decode_to_vec : SymTable → List ℕ → Result (List ℕ)
decode_to_vec table compressed = decode table compressed []
