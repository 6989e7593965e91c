-- ===== src/Metadata/Fsst/Tokens.antt =====
-- The decoder on the strings that a compressor writes: codes of symbols, and escaped literals.
use rdwarfs.Prelude.{
  ℕ, zero, suc, ◌+◌, ◌-◌, ◌<◌, ◌≤◌, ◌≡◌, refl, ◌∙◌, ap, sym, false, Option, some, none, List, [],
  ◌∷◌, ◌++◌, length, ◌==◌, All, arith, length-append, length-take, length-drop, get_elem?_inside,
  take, drop, lt→ltb, ge→ltb, get_elem?, get_elem?-append_right, append_assoc, append-nil, gt→leb,
}
use rdwarfs.Result.{ok, index_lem, slice_lem}
use rdwarfs.Metadata.Fsst.{
  SymTable, fsst_esc, symbol, append_symbol, decode_round, decode_loop, decode,
}

pub data Token : Type 0 where
  literal code : ℕ → Token

unfoldable pub encode : List Token → List ℕ
encode [] = []
encode (literal b ∷ ts) = fsst_esc ∷ (b ∷ encode ts)
encode (code c ∷ ts) = c ∷ encode ts

unfoldable pub expand_span : List ℕ → Option (ℕ × ℕ) → List ℕ
expand_span symbols none = []
expand_span symbols (some span) = take span.1 (drop span.0 symbols)

module _ (table : SymTable) where
  -- The bytes that a token stands for: those of the code's span, or the literal.
  unfoldable pub expand : Token → List ℕ
  expand (literal b) = b ∷ []
  expand (code c) = expand_span table.symbols (get_elem? table.spans c)

  unfoldable pub expand_all : List Token → List ℕ
  expand_all [] = []
  expand_all (t ∷ ts) = expand t ++ expand_all ts

  -- A code is no escape, and has a symbol of a byte at least.
  unfoldable pub IsToken : Token → Type 0
  IsToken (literal b) = Unit
  IsToken (code c) =
      (c < fsst_esc)
      × ((span : ℕ × ℕ) × (get_elem? table.spans c ≡ some span)
          × (span.0 + span.1 ≤ length table.symbols)
          × (0 < span.1))

append_symbol_lem :
    (s : List ℕ) (i : ℕ) (out : List ℕ) → 0 < length s → append_symbol s i out ≡ ok (i, out ++ s)
unfolding append_symbol
append_symbol_lem [] i out h = absurd (omega arith)
append_symbol_lem (b ∷ bs) i out h = refl

module _ (table : SymTable) where
  symbol-expand :
      (c : ℕ)
      → IsToken table (code c)
      → (symbol table c ≡ ok (expand table (code c))) × (0 < length (expand table (code c)))
  unfolding symbol expand expand_span IsToken
  symbol-expand c h =
      let (small, (span, e, inside, positive)) = h in
      let len : span.0 + span.1 - span.0 ≡ span.1 = omega arith in
      let x : expand table (code c) ≡ take span.1 (drop span.0 table.symbols) =
        ap (expand_span table.symbols) e in
      (
        rw
            (
              index_lem table.spans c span e,
              slice_lem table.symbols span.0 (span.0 + span.1) (omega arith) inside,
              len,
            )
            (ap ok (sym x)),
        rw x (
            omega (
              arith,
              length-take span.1 (drop span.0 table.symbols),
              length-drop span.0 table.symbols,
            )),
      )

  code_round :
      (compressed : List ℕ) (i c : ℕ) (out : List ℕ)
      → get_elem? compressed i ≡ some c
      → IsToken table (code c)
      → decode_round table compressed i out ≡ ok (i + 1, out ++ expand table (code c))
  unfolding decode_round IsToken
  code_round compressed i c out e h =
      let (symbol_eq, positive) = symbol-expand c h in
      let plain : (c == fsst_esc) ≡ false = ground arith in
      rw (
        index_lem compressed i c e,
        plain,
        symbol_eq,
        append_symbol_lem (expand table (code c)) (i + 1) out positive,
      )

  literal_round :
      (compressed : List ℕ) (i b : ℕ) (out : List ℕ)
      → get_elem? compressed i ≡ some fsst_esc
      → get_elem? compressed (i + 1) ≡ some b
      → decode_round table compressed i out ≡ ok (i + 2, out ++ (b ∷ []))
  unfolding decode_round
  literal_round compressed i b out e f = rw (
    index_lem compressed i fsst_esc e,
    gt→leb (length compressed) (i + 1) (omega (arith, get_elem?_inside compressed (i + 1) b f)),
    index_lem compressed (i + 1) b f,
  )

  loop_step :
      (compressed out out' : List ℕ) (i i' b fuel : ℕ)
      → get_elem? compressed i ≡ some b
      → decode_round table compressed i out ≡ ok (i', out')
      → decode_loop (suc fuel) table compressed i out ≡ decode_loop fuel table compressed i' out'
  unfolding decode_loop
  loop_step compressed out out' i i' b fuel e r =
      rw (lt→ltb i (length compressed) (omega (arith, get_elem?_inside compressed i b e)), r)

  decode_loop-encode :
      (ts : List Token) (before compressed out : List ℕ) (i fuel : ℕ)
      → All (IsToken table) ts
      → compressed ≡ before ++ encode ts
      → i ≡ length before
      → length (encode ts) < fuel
      → decode_loop fuel table compressed i out ≡ ok (out ++ expand_all table ts)
  unfolding encode expand_all expand
  decode_loop-encode ts before compressed out i zero h e j f = absurd (omega arith)
  decode_loop-encode [] before compressed out i (suc fuel) h e j f =
      let all : compressed ≡ before = e ∙ append-nil before in
      let here : i ≡ length compressed = omega (arith, ap (λ (xs : List ℕ). length xs) all) in
      unfold decode_loop in rw (ge→ltb i (length compressed) (omega arith), append-nil out) refl
  decode_loop-encode (literal b ∷ ts) before compressed out i (suc fuel) h e j f =
      let xs = encode (literal b ∷ ts) in
      let escape =
        ap (λ (ys : List ℕ). get_elem? ys i) e
        ∙ get_elem?-append_right before xs 0 i (omega arith) in
      let value =
        ap (λ (ys : List ℕ). get_elem? ys (i + 1)) e
        ∙ get_elem?-append_right before xs 1 (i + 1) (omega arith) in
      let more = before ++ (fsst_esc ∷ (b ∷ [])) in
      loop_step compressed out (out ++ (b ∷ [])) i (i + 2) fsst_esc fuel escape
        (literal_round compressed i b out escape value)
      ∙ decode_loop-encode ts more compressed (out ++ (b ∷ [])) (i + 2) fuel h.1
          (e ∙ sym (append_assoc before (fsst_esc ∷ (b ∷ [])) (encode ts)))
          (omega (arith, length-append before (fsst_esc ∷ (b ∷ [])))) (omega arith)
      ∙ ap ok (append_assoc out (b ∷ []) (expand_all table ts))
  decode_loop-encode (code c ∷ ts) before compressed out i (suc fuel) h e j f =
      let here =
        ap (λ (ys : List ℕ). get_elem? ys i) e
        ∙ get_elem?-append_right before (encode (code c ∷ ts)) 0 i (omega arith) in
      let s = expand table (code c) in
      loop_step compressed out (out ++ s) i (i + 1) c fuel here
        (code_round compressed i c out here h.0)
      ∙ decode_loop-encode ts (before ++ (c ∷ [])) compressed (out ++ s) (i + 1) fuel h.1
          (e ∙ sym (append_assoc before (c ∷ []) (encode ts)))
          (omega (arith, length-append before (c ∷ []))) (omega arith)
      ∙ ap ok (append_assoc out s (expand_all table ts))

-- A string of escaped literals and of codes that stand for symbols of the table decodes to the output it
-- was given followed by the literals and the bytes of the symbols, in their order.
pub decode-encode :
    (table : SymTable) (ts : List Token) (out : List ℕ)
    → All (IsToken table) ts
    → decode table (encode ts) out ≡ ok (out ++ expand_all table ts)
unfolding decode
decode-encode table ts out h =
    decode_loop-encode table ts [] (encode ts) out 0 (length (encode ts) + 1) h refl refl
      (omega arith)
