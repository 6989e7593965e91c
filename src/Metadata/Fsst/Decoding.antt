-- ===== src/Metadata/Fsst/Decoding.antt =====
-- What the decoder makes of any string over a table of the parser, and of a string of known tokens.
use rdwarfs.Prelude.{
  ℕ, zero, suc, ◌+◌, ◌-◌, ◌*◌, ◌<◌, ◌≤◌, ◌≡◌, refl, ◌∙◌, ap, sym, List, [], ◌∷◌, ◌++◌, length, leb,
  ltb, ◌==◌, All, IsByte, arith, length-append, length-take, take, drop, ltb→lt, leb→gt,
  All-get_elem?, get_elem?_lt, take_exact, take_all, take-take,
}
use rdwarfs.Result.{
  ok, ◌>>=◌, index, Ensures, Ensures-bind, Ensures-if, slice-Ensures, index_lt, Ensures-imp,
  index_lem,
}
use rdwarfs.Metadata.Fsst.{
  SymTable, fsst_esc, symbol, append_symbol, decode_round, decode_loop, decode,
}
use rdwarfs.Metadata.Fsst.Table.{IsTable, IsSpan}

-- The output after a round or more: the old one and at most eight bytes for each byte read.
IsLonger : List ℕ → ℕ → List ℕ → ℕ → Type 0
IsLonger out i out' i' = (take (length out) out' ≡ out) × (length out' ≤ length out + 8 * (i' - i))

IsLonger-append :
    (out bytes : List ℕ) (i i' : ℕ) → length bytes ≤ 8 * (i' - i) → IsLonger out i (out ++ bytes) i'
unfolding IsLonger
IsLonger-append out bytes i i' h =
    (take_exact out bytes (length out) refl, omega (arith, length-append out bytes, h))

module _ (table : SymTable) (t : IsTable table) where
  symbol-Ensures :
      (code : ℕ) → IsByte code → Ensures (λ (bytes : List ℕ). length bytes ≤ 8) (symbol table code)
  unfolding symbol
  symbol-Ensures code b =
      let (span, e) = get_elem?_lt table.spans code (omega (arith, t.0, b)) in
      let s = All-get_elem? (IsSpan (length table.symbols)) table.spans code t.1 e in
      let lists = λ (bytes : List ℕ). length bytes ≤ 8 in
      rw (index_lem table.spans code span e) (
        slice-Ensures lists table.symbols span.0 (span.0 + span.1) (omega arith) s.0
          (omega (arith, s.1, length-take (span.0 + span.1 - span.0) (drop span.0 table.symbols))))

  module _ (compressed : List ℕ) (bytes : All IsByte compressed) where
    Round : ℕ → List ℕ → ℕ × List ℕ → Type 0
    Round i out (i', out') = (i < i') × (i' ≤ length compressed) × IsLonger out i out' i'

    append_symbol-Ensures :
        (s : List ℕ) (i : ℕ) (out : List ℕ)
        → length s ≤ 8
        → i < length compressed
        → Ensures (Round i out) (append_symbol s (i + 1) out)
    unfolding append_symbol Round
    append_symbol-Ensures [] i out l h = tt
    append_symbol-Ensures (b ∷ bs) i out l h =
        (omega arith, omega arith, IsLonger-append out (b ∷ bs) i (i + 1) (omega arith))

    escaped :
        (i : ℕ) (out : List ℕ)
        → i + 1 < length compressed
        → Ensures
            (Round i out)
            (index compressed (i + 1) >>= λ literal. ok (i + 2, out ++ (literal ∷ [])))
    unfolding Round
    escaped i out h =
        let (literal, e) = index_lt compressed (i + 1) h in
        rw e (omega arith, omega arith, IsLonger-append out (literal ∷ []) i (i + 2) (omega arith))

    decode_round-Ensures :
        (i : ℕ) (out : List ℕ)
        → i < length compressed
        → Ensures (Round i out) (decode_round table compressed i out)
    unfolding decode_round
    decode_round-Ensures i out h =
        let (byte, e) = get_elem?_lt compressed i h in
        let b = All-get_elem? IsByte compressed i bytes e in
        rw (index_lem compressed i byte e) (
          Ensures-if (Round i out) (byte == fsst_esc) _ _
            (λ _.
              Ensures-if (Round i out) (leb (length compressed) (i + 1)) _ _ (λ _. tt)
                λ more. escaped i out (leb→gt _ _ more))
            (λ _.
              Ensures-bind (λ (s : List ℕ). length s ≤ 8) (Round i out) _ _ (symbol-Ensures byte b)
                λ s _ l. append_symbol-Ensures s i out l h))

    Longer-trans :
        (i i' : ℕ) (out out' : List ℕ) (done : List ℕ)
        → Round i out (i', out')
        → IsLonger out' i' done (length compressed)
        → IsLonger out i done (length compressed)
    unfolding Round IsLonger
    Longer-trans i i' out out' done r l = (
      sym (
            take-take (length out) (length out') done
              (omega (arith, length-take (length out) out', ap (λ (xs : List ℕ). length xs) r.2.0)))
          ∙ ap (take (length out)) l.0
          ∙ r.2.0,
      omega (arith, r.0, r.1, r.2.1, l.1),
    )

    decode_loop-Ensures :
        (fuel i : ℕ) (out : List ℕ)
        → i ≤ length compressed
        → length compressed < fuel + i
        → Ensures
            (λ (done : List ℕ). IsLonger out i done (length compressed))
            (decode_loop fuel table compressed i out)
    unfolding decode_loop Round IsLonger
    decode_loop-Ensures zero i out h f = absurd (omega arith)
    decode_loop-Ensures (suc fuel) i out h f =
        let Done = λ (done : List ℕ). IsLonger out i done (length compressed) in
        Ensures-if Done (ltb i (length compressed)) _ _
          (λ more.
            Ensures-bind (Round i out) Done _ _ (decode_round-Ensures i out (ltb→lt _ _ more))
              λ next _ r.
                Ensures-imp (λ (done : List ℕ). IsLonger next.1 next.0 done (length compressed))
                  Done _ (λ done _. Longer-trans i next.0 out next.1 done r)
                  (decode_loop-Ensures fuel next.0 next.1 r.1 (omega (arith, r.0))))
          (λ stop. (take_all out (length out) (omega arith), omega arith))

-- Over a table whose spans lie inside its symbols, the decoder returns on every byte string without a
-- fault, and what it returns is the output it was given followed by at most eight bytes for each byte of
-- the string.
pub decode-Ensures :
    (table : SymTable) (compressed out : List ℕ)
    → IsTable table
    → All IsByte compressed
    → Ensures
        (λ (done : List ℕ).
          (take (length out) done ≡ out) × (length done ≤ length out + 8 * length compressed))
        (decode table compressed out)
unfolding decode IsLonger
decode-Ensures table compressed out t bytes =
    Ensures-imp (λ (done : List ℕ). IsLonger out 0 done (length compressed))
      (λ (done : List ℕ).
        (take (length out) done ≡ out) × (length done ≤ length out + 8 * length compressed))
      _ (λ done _ l. (l.0, omega (arith, l.1)))
      (decode_loop-Ensures table t compressed bytes (length compressed + 1) 0 out (omega arith)
        (omega arith))
