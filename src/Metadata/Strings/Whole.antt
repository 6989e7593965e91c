-- ===== src/Metadata/Strings/Whole.antt =====
-- The string table that a compact one decodes to: each of its strings lies in its bytes.
use rdwarfs.Prelude.{
  length-take, ℕ, ◌+◌, ◌-◌, ◌<◌, ◌≤◌, ◌≡◌, refl, inl, inr, Bool, ◌||◌, true, Option, none, some,
  List, [], ◌∷◌, ◌++◌, length, take, drop, ltb, leb, u32_mod, get_elem?, All, IsByte, arith,
  All-take, All-drop, get_elem?-append_left, get_elem?-append_right, Bool-cases, ltb→lt, ltb→ge,
  length-append, ◌∙◌, ap,
}
use rdwarfs.Result.{Ensures, Ensures-bind, Ensures-if, Ensures-imp, slice-Ensures}
use rdwarfs.Metadata.Fsst.{SymTable}
use rdwarfs.Metadata.Fsst.Table.{IsTable, Parsed, parse-IsTable}
use rdwarfs.Metadata.Fsst.Decoding.{decode-Ensures}
use rdwarfs.Metadata.Tables.{StringTable, table_len, table_get}
use rdwarfs.Metadata.Strings.{
  offsets_of, table_of, append_string, strings_loop, decode_string_table,
}

-- String i lies between two offsets in order, inside the bytes.
abbrev Lies : StringTable → ℕ → Type 0
Lies table i =
    (a : ℕ) × (b : ℕ) × (get_elem? table.offsets i ≡ some a)
    × (get_elem? table.offsets (i + 1) ≡ some b)
    × (a ≤ b)
    × (b ≤ length table.bytes)

-- A table under construction that has n strings: its last offset is the end of its bytes.
record Grown (table : StringTable) (n : ℕ) : Type 0 where
  count : length table.offsets ≡ n + 1
  last : get_elem? table.offsets n ≡ some (length table.bytes)
  lies : (i : ℕ) → i < n → Lies table i

abbrev push : StringTable → List ℕ → StringTable
push table bytes = record { bytes = bytes; offsets = table.offsets ++ (length bytes ∷ []) }

push-earlier :
    (table : StringTable) (bytes : List ℕ) (i : ℕ)
    → i < length table.offsets
    → get_elem? (push table bytes).offsets i ≡ get_elem? table.offsets i
push-earlier table bytes i lt = get_elem?-append_left table.offsets (length bytes ∷ []) i lt

push-last :
    (table : StringTable) (bytes : List ℕ) (k : ℕ)
    → k ≡ length table.offsets
    → get_elem? (push table bytes).offsets k ≡ some (length bytes)
push-last table bytes k e =
    get_elem?-append_right table.offsets (length bytes ∷ []) 0 k (omega arith)

push-Lies :
    (table : StringTable) (n : ℕ) (bytes : List ℕ)
    → Grown table n
    → length table.bytes ≤ length bytes
    → (i : ℕ) → i < n + 1
    → Lies (push table bytes) i
push-Lies table n bytes g longer i lt = elim (Bool-cases (ltb i n)) [
  | inl earlier ↦
      let (a, b, ea, eb, ab, inside) = g.lies i (ltb→lt _ _ earlier) in
      (
        a,
        b,
        push-earlier table bytes i (omega (arith, g.count)) ∙ ea,
        push-earlier table bytes (i + 1) (omega (arith, g.count, ltb→lt _ _ earlier)) ∙ eb,
        ab,
        omega (arith, inside, longer),
      )
  | inr now ↦
      let is : i ≡ n = omega (arith, ltb→ge _ _ now, lt) in
      (
        length table.bytes,
        length bytes,
        push-earlier table bytes i (omega (arith, g.count)) ∙ rw is g.last,
        push-last table bytes (i + 1) (omega (arith, is, g.count)),
        longer,
        omega arith,
      )
]

push-Grown :
    (table : StringTable) (n : ℕ) (bytes : List ℕ)
    → Grown table n
    → length table.bytes ≤ length bytes
    → Grown (push table bytes) (n + 1)
push-Grown table n bytes g longer = record {
  count = omega (arith, g.count, length-append table.offsets (length bytes ∷ []));
  last = push-last table bytes (n + 1) (omega (arith, g.count));
  lies = push-Lies table n bytes g longer;
}

-- A symbol table that the parser accepted, where there is one.
abbrev IsUsable : Option SymTable → Type 0
IsUsable none = Unit
IsUsable (some table) = IsTable table

table_of-IsUsable : (symtab : Option (List ℕ)) → Ensures IsUsable (table_of symtab)
unfolding table_of Parsed
table_of-IsUsable none = tt
table_of-IsUsable (some bytes) =
    Ensures-bind (Parsed bytes) IsUsable _ _ (parse-IsTable bytes) λ parsed _ h. h.0

append_string-longer :
    (table : Option SymTable) (string out : List ℕ)
    → IsUsable table
    → All IsByte string
    → Ensures (λ (bytes : List ℕ). length out ≤ length bytes) (append_string table string out)
unfolding append_string
append_string-longer none string out usable bytes = omega (arith, length-append out string)
append_string-longer (some table) string out usable bytes =
    Ensures-imp _ (λ (done : List ℕ). length out ≤ length done) _
      (λ done _ h.
        omega (arith, ap (λ (xs : List ℕ). length xs) h.0, length-take (length out) done))
      (decode-Ensures table string out usable bytes)

-- A table of n strings, every one of which it answers for.
pub IsWhole : ℕ → StringTable → Type 0
IsWhole n table =
    (table_len table ≡ n)
    × ((i : ℕ) → i < n → (string : List ℕ) × (table_get table i ≡ some string))

Grown-IsWhole : (table : StringTable) (n : ℕ) → Grown table n → IsWhole n table
unfolding IsWhole table_len table_get
Grown-IsWhole table n g = (
  omega (arith, g.count),
  λ i lt.
      let (a, b, ea, eb, ab, inside) = g.lies i lt in
      let ordered : leb a b ≡ true = ground arith in
      let within : leb b (length table.bytes) ≡ true = ground arith in
      (take (b - a) (drop a table.bytes), rw (ea, eb, ordered, within) refl),
)

Grown-at : (table : StringTable) (n k : ℕ) → n ≡ k → Grown table n → Grown table k
Grown-at table n k e g = rw e at g

module _ (buffer : List ℕ) (bytes_only : All IsByte buffer) where
  strings_loop-Grown :
      (table : Option SymTable) (offsets : List ℕ) (out : StringTable) (n : ℕ)
      → IsUsable table
      → Grown out n
      → Ensures
          (λ (done : StringTable). Grown done (n + (length offsets - 1)))
          (strings_loop buffer table offsets out)
  unfolding strings_loop
  strings_loop-Grown table [] out n usable g = Grown-at out n _ (omega arith) g
  strings_loop-Grown table (start ∷ []) out n usable g = Grown-at out n _ (omega arith) g
  strings_loop-Grown table (start ∷ (end ∷ offsets)) out n usable g =
      let Done = λ (done : StringTable). Grown done (n + (length (start ∷ (end ∷ offsets)) - 1)) in
      Ensures-if Done (ltb end start || ltb (length buffer) end) _ _ (λ _. tt)
        λ inside.
          Ensures-bind (All IsByte) Done _ _
            (slice-Ensures (All IsByte) buffer start end (ground (arith, inside))
              (ground (arith, inside))
              (All-take IsByte _ _ (All-drop IsByte start buffer bytes_only)))
            λ string _ string_bytes.
              Ensures-bind (λ (bytes : List ℕ). length out.bytes ≤ length bytes) Done _ _
                (append_string-longer table string out.bytes usable string_bytes)
                λ bytes _ longer.
                  Ensures-if Done (ltb (length bytes) u32_mod) _ _
                    (λ _.
                      Ensures-imp _ Done _ (λ done _ h. Grown-at done _ _ (omega arith) h)
                        (strings_loop-Grown table (end ∷ offsets) (push out bytes) (n + 1) usable
                          (push-Grown out n bytes g longer)))
                    (λ _. tt)

  -- Whatever the index, packed or not, and whatever the symbol table, decoding a compact string table of
  -- bytes never panics. Where it succeeds the table has a string for each offset but the first, and every
  -- index below that number is answered with a string.
  pub decode_string_table-IsWhole :
      (symtab : Option (List ℕ)) (positions : List ℕ) (packed : Bool)
      → Ensures
          (IsWhole (length (offsets_of positions packed) - 1))
          (decode_string_table buffer symtab positions packed)
  unfolding decode_string_table IsWhole table_len
  decode_string_table-IsWhole symtab positions packed =
      let offsets = offsets_of positions packed in
      let Whole = IsWhole (length offsets - 1) in
      Ensures-if Whole (ltb (length offsets) 2) _ _
        (λ short. (ground (arith, short), λ i lt. absurd (ground (arith, short, lt))))
        λ _. Ensures-bind IsUsable Whole _ _ (table_of-IsUsable symtab) λ table _ usable.
          Ensures-imp (λ (done : StringTable). Grown done (0 + (length offsets - 1))) Whole _
            (λ done _ g. Grown-IsWhole done _ (Grown-at done _ _ (omega arith) g))
            (strings_loop-Grown table offsets (record { bytes = []; offsets = 0 ∷ [] }) 0 usable
              (record { count = omega arith; last = refl; lies = λ i lt. absurd (omega arith) }))
