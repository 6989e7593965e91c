-- ===== src/Metadata/Fsst/Table.antt =====
-- The tables that the parser builds.
use rdwarfs.Prelude.{
  ℕ, zero, suc, ◌+◌, ◌-◌, ◌/◌, ◌^◌, ◌<◌, ◌≤◌, ◌≡◌, refl, ◌∙◌, Bool, true, false, not, some, List,
  [], ◌∷◌, ◌++◌, length, replicate, set, leb, ltb, ◌==◌, checked_add, u32_mod, All, arith,
  length-append, length-take, length-drop, length-set, drop, ltb→ge, leb→gt,
}
use rdwarfs.Result.{
  index, slice, Ensures, Ensures-bind, Ensures-if, Ensures-ok_or, slice-Ensures, index_lt,
  store_lem,
}
use rdwarfs.Bytes.{from_le_bytes}
use rdwarfs.Metadata.Fsst.{
  SymTable, Filling, fill_symbol, fill_symbols, fill_slots, effective_histo, parse_symbols, parse,
  fsst_version, num_codes, header_len, slots,
}

-- A span of at most eight bytes inside `n` symbol bytes.
abbrev pub IsSpan : ℕ → ℕ × ℕ → Type 0
IsSpan n span = (span.0 + span.1 ≤ n) × (span.1 ≤ 8)

-- A table in which every code has a span inside the symbols.
abbrev pub IsTable : SymTable → Type 0
IsTable table = (length table.spans ≡ num_codes) × All (IsSpan (length table.symbols)) table.spans

record IsFilling (bytes : List ℕ) (f : Filling) : Type 0 where
  count : length f.spans ≡ num_codes
  spans : All (IsSpan (length f.symbols)) f.spans
  pos : f.pos ≡ header_len + length f.symbols
  inside : f.pos ≤ length bytes

pub spans-grow :
    (m n : ℕ) (spans : List (ℕ × ℕ)) → m ≤ n → All (IsSpan m) spans → All (IsSpan n) spans
spans-grow m n [] le h = tt
spans-grow m n (s ∷ spans) le h = ((omega (arith, h.0.0, le), h.0.1), spans-grow m n spans le h.1)

All-set :
    (P : ℕ × ℕ → Type 0) (xs : List (ℕ × ℕ)) (i : ℕ) (v : ℕ × ℕ)
    → All P xs
    → P v
    → All P (set xs i v)
All-set P [] i v h p = tt
All-set P (x ∷ xs) zero v h p = (p, h.1)
All-set P (x ∷ xs) (suc i) v h p = (h.0, All-set P xs i v h.1 p)

pub spans-empty : (n : ℕ) → All (IsSpan 0) (replicate n (0, 0))
spans-empty zero = tt
spans-empty (suc n) = ((omega arith, omega arith), spans-empty n)

index-Ensures : (xs : List ℕ) (i : ℕ) → i < length xs → Ensures (λ _. Unit {0}) (index xs i)
index-Ensures xs i h = let (x, e) = index_lt xs i h in rw e tt

checked_add_eq : (a b c : ℕ) → checked_add a b ≡ some c → c ≡ a + b
checked_add_eq a b c h = ground arith

module _ (bytes : List ℕ) where
  filled-IsFilling :
      (symbol_len end : ℕ) (f : Filling) (s : List ℕ)
      → symbol_len ≤ 8
      → IsFilling bytes f
      → end ≡ f.pos + symbol_len
      → end ≤ length bytes
      → length s ≡ symbol_len
      → IsFilling bytes (record {
        symbols = f.symbols ++ s;
        spans = set f.spans f.code (length f.symbols, symbol_len);
        code = f.code + 1;
        pos = end;
      })
  filled-IsFilling symbol_len end f s small h e fits l =
      let grown = length-append f.symbols s in
      record {
        count = length-set f.spans f.code _ ∙ h.count;
        spans =
            All-set (IsSpan (length (f.symbols ++ s))) f.spans f.code _
              (spans-grow (length f.symbols) _ f.spans (omega (arith, grown)) h.spans)
              (omega (arith, grown, l), small);
        pos = omega (arith, grown, h.pos, e, l);
        inside = fits;
      }

  fill_symbol-IsFilling :
      (symbol_len : ℕ) (f : Filling)
      → symbol_len ≤ 8
      → IsFilling bytes f
      → Ensures (IsFilling bytes) (fill_symbol bytes symbol_len f)
  unfolding fill_symbol
  fill_symbol-IsFilling symbol_len f small h =
      Ensures-if (IsFilling bytes) (leb num_codes f.code) _ _ (λ _. tt)
        λ free.
          Ensures-bind (λ end. end ≡ f.pos + symbol_len) (IsFilling bytes) _ _
            (Ensures-ok_or _ (checked_add f.pos symbol_len) _
              λ end. checked_add_eq f.pos symbol_len end)
            λ end _ e.
              Ensures-if (IsFilling bytes) (ltb (length bytes) end) _ _ (λ _. tt)
                λ fits.
                  Ensures-if (IsFilling bytes) (leb u32_mod (length f.symbols)) _ _ (λ _. tt)
                    λ _.
                      Ensures-bind (λ (s : List ℕ). length s ≡ symbol_len) (IsFilling bytes)
                        (slice bytes f.pos end) _
                        (slice-Ensures (λ (s : List ℕ). length s ≡ symbol_len) bytes f.pos end
                          (omega arith) (ltb→ge _ _ fits)
                          (omega (
                            arith,
                            e,
                            ltb→ge _ _ fits,
                            length-take (end - f.pos) (drop f.pos bytes),
                            length-drop f.pos bytes,
                          )))
                        λ s _ l.
                          let code_fits : f.code < length f.spans =
                            omega (arith, h.count, leb→gt _ _ free) in
                          rw (store_lem f.spans f.code (length f.symbols, symbol_len) code_fits)
                            (filled-IsFilling symbol_len end f s small h e (ltb→ge _ _ fits) l)

  fill_symbols-IsFilling :
      (count symbol_len : ℕ) (f : Filling)
      → symbol_len ≤ 8
      → IsFilling bytes f
      → Ensures (IsFilling bytes) (fill_symbols count bytes symbol_len f)
  unfolding fill_symbols
  fill_symbols-IsFilling zero symbol_len f small h = h
  fill_symbols-IsFilling (suc count) symbol_len f small h =
      Ensures-bind (IsFilling bytes) (IsFilling bytes) _ _
        (fill_symbol-IsFilling symbol_len f small h)
        λ g _ k. fill_symbols-IsFilling count symbol_len g small k

  fill_slots-IsFilling :
      (rest histo : List ℕ) (f : Filling)
      → All (λ slot. slot < 8) rest
      → length histo ≡ 8
      → IsFilling bytes f
      → Ensures (IsFilling bytes) (fill_slots rest bytes histo f)
  unfolding fill_slots
  fill_slots-IsFilling [] histo f s l h = h
  fill_slots-IsFilling (slot ∷ rest) histo f s l h =
      Ensures-bind (λ _. Unit) (IsFilling bytes) (index histo slot) _
        (index-Ensures histo slot (omega (arith, s.0, l)))
        λ count _ _.
          Ensures-bind (IsFilling bytes) (IsFilling bytes) _ _
            (fill_symbols-IsFilling count (slot + 1) f (omega (arith, s.0)) h)
            λ g _ k. fill_slots-IsFilling rest histo g s.1 l k

  -- What the parser promises of a table and of the bytes it took.
  unfoldable pub Parsed : SymTable × ℕ → Type 0
  Parsed (table, used) =
      IsTable table × (used ≡ header_len + length table.symbols) × (used ≤ length bytes)

  effective_histo_lem :
      (z : Bool) (histo : List ℕ)
      → length histo ≡ 8
      → Ensures (λ (h : List ℕ). length h ≡ 8) (effective_histo z histo)
  unfolding effective_histo
  effective_histo_lem false histo l = l
  effective_histo_lem true histo l =
      let (ones, e) = index_lt histo 0 (omega arith) in rw (e, length-set histo 0 (ones - 1)) l

  parse_symbols-Parsed :
      (z : Bool) (histo : List ℕ)
      → length histo ≡ 8
      → header_len ≤ length bytes
      → Ensures Parsed (parse_symbols bytes z histo)
  unfolding parse_symbols Parsed
  parse_symbols-Parsed z histo l long =
      Ensures-bind (λ (h : List ℕ). length h ≡ 8) Parsed _ _ (effective_histo_lem z histo l)
        λ effective _ l'.
          Ensures-bind (IsFilling bytes) Parsed _ _
            (fill_slots-IsFilling slots effective _
              (
                omega arith,
                (
                  omega arith,
                  (
                    omega arith,
                    (omega arith, (omega arith, (omega arith, (omega arith, (omega arith, tt))))),
                  ),
                ),
              )
              l'
              (record { count = refl; spans = spans-empty num_codes; pos = refl; inside = long }))
            λ f _ k. ((k.count, k.spans), k.pos, k.inside)

-- On every byte string the parser returns without a fault, and where it accepts one, the table has 256
-- spans, each of at most eight bytes inside the symbols, and the bytes it reports as used are the 17 of
-- the header and those of the symbols, and not more than there are.
pub parse-IsTable : (bytes : List ℕ) → Ensures (Parsed bytes) (parse bytes)
unfolding parse
parse-IsTable bytes =
    Ensures-if (Parsed bytes) (ltb (length bytes) header_len) _ _ (λ _. tt)
      λ long.
        let le = ltb→ge _ _ long in
        Ensures-bind (λ _. Unit {0}) (Parsed bytes) (slice bytes 0 8) _
          (slice-Ensures (λ _. Unit {0}) bytes 0 8 (omega arith) (omega arith) tt)
          λ version _ _.
            Ensures-if (Parsed bytes) (not (from_le_bytes version / 2 ^ 32 == fsst_version)) _ _
              (λ _. tt)
              λ _.
                Ensures-bind (λ _. Unit {0}) (Parsed bytes) (index bytes 8) _
                  (index-Ensures bytes 8 (omega arith))
                  λ flags _ _.
                    Ensures-bind (λ (h : List ℕ). length h ≡ 8) (Parsed bytes) (slice bytes 9 17) _
                      (slice-Ensures (λ (h : List ℕ). length h ≡ 8) bytes 9 17 (omega arith)
                        (omega arith)
                        (omega (arith, length-take 8 (drop 9 bytes), length-drop 9 bytes)))
                      λ histo _ l. parse_symbols-Parsed bytes _ histo l le
