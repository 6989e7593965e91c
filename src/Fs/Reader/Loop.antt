-- ===== src/Fs/Reader/Loop.antt =====
-- The loop over the chunks of a file: it writes the part of their content that the read wants.
use rdwarfs.Prelude.{
  ℕ, zero, suc, ◌+◌, ◌-◌, ◌≤◌, ◌<◌, ◌≡◌, refl, sym, ◌∙◌, ap, ap₂, List, [], ◌∷◌, ◌++◌, append_assoc,
  append-nil, length, take, drop, All, leb, ◌==◌, min, u64_mod, arith, Bool-cases, inl, inr,
  length-append, length-take, length-drop, take-min, drop_within, drop_past, take-append, get_elem?,
  leb→le, leb→gt,
}
use rdwarfs.Result.{Result, ok, index_lem, plain_sub_lem}
use rdwarfs.Fs.Chunks.{Chunk}
use rdwarfs.Fs.Chunks.Ends.{Ends}
use rdwarfs.Fs.Filesystem.{Filesystem}
use rdwarfs.Fs.Reader.{BlockReader, Progress, logical_len, want_end, copy_chunk, read_loop}
use rdwarfs.Fs.Reader.Content.{
  Serves, piece, content, IsPlaced, length-piece, IsGood, Writes, copy_from-Writes,
}

take-drop-nil : (m n : ℕ) → take {A = ℕ} m (drop n []) ≡ []
take-drop-nil zero n = refl
take-drop-nil (suc m) zero = refl
take-drop-nil (suc m) (suc n) = refl

-- The first bytes behind `n` of two pieces in a row, where `n` is in the first.
take-drop-append :
    (m n : ℕ) (xs ys : List ℕ)
    → n ≤ length xs
    → take m (drop n (xs ++ ys)) ≡ take m (drop n xs) ++ take (m - (length xs - n)) ys
take-drop-append m n xs ys h =
    ap (take m) (drop_within xs ys n h)
    ∙ take-append (drop n xs) ys m
    ∙ ap (λ (k : ℕ). take m (drop n xs) ++ take (m - k) ys) (length-drop n xs)

module _ {Cache : Type 0} (blocks : BlockReader Cache) (fs : Filesystem) (block_bytes : ℕ → List ℕ)
    (Fit : Cache → Type 0) (serves : Serves blocks block_bytes Fit) (offset len : ℕ)
    (small : offset + len < u64_mod) where
  abbrev Good : Progress Cache → Type 0
  Good = IsGood blocks fs block_bytes Fit serves

  abbrev WritesTo : Progress Cache → List ℕ → Result (Progress Cache) → Type 0
  WritesTo = Writes blocks fs block_bytes Fit serves

  end_eq : want_end blocks fs offset len ≡ offset + len
  end_eq = omega (arith, small)

  copy_chunk-Writes :
      (chunk : Chunk) (size cursor chunk_end : ℕ) (p : Progress Cache)
      → IsPlaced fs block_bytes chunk
      → logical_len blocks fs chunk ≡ ok size
      → chunk_end ≡ cursor + size
      → length p.out ≡ min len (cursor - offset)
      → cursor < offset + len
      → offset < chunk_end
      → Good p
      → WritesTo p
          (take (len - length p.out) (drop (offset - cursor) (piece fs block_bytes chunk size)))
          (copy_chunk blocks fs offset len chunk cursor chunk_end p)
  unfolding copy_chunk
  copy_chunk-Writes chunk size cursor chunk_end p placed e end_is done before after good =
      let bytes = piece fs block_bytes chunk size in
      let start = offset - cursor in
      let span = min (offset + len - cursor) (chunk_end - cursor) - start in
      let count = min span (len - length p.out) in
      let count_eq : count ≡ min (size - start) (len - length p.out) =
        omega (arith, done, before, after, end_is) in
      let same : take (len - length p.out) (drop start bytes) ≡ take count (drop start bytes) =
        sym (
          take-min (len - length p.out) (size - start) (drop start bytes) (
            omega
              (arith, length-drop start bytes, length-piece fs block_bytes chunk size placed e)))
        ∙ ap (λ (n : ℕ). take n (drop start bytes)) (sym count_eq) in
      rw
        (
          end_eq,
          plain_sub_lem (offset + len) cursor (omega (arith, before)),
          plain_sub_lem chunk_end cursor (omega (arith, end_is)),
          plain_sub_lem (min (offset + len - cursor) (chunk_end - cursor)) start
              (omega (arith, before, after)),
          same,
        )
        (copy_from-Writes blocks fs block_bytes Fit serves chunk size start count p placed e
          (omega (arith, count_eq, after, end_is)) good)

  -- The chunks and their ends stand in the tables from `i` on.
  abbrev Stands : {A : Type 0} → ℕ → List A → List A → Type 0
  Stands i part whole =
      (j k : ℕ) → k ≡ i + j → j < length part → get_elem? whole k ≡ get_elem? part j

  Stands-tail :
      {A : Type 0} (i : ℕ) (x : A) (part whole : List A)
      → Stands i (x ∷ part) whole
      → Stands (i + 1) part whole
  Stands-tail i x part whole s j k e h = s (suc j) k (omega (arith, e)) (omega (arith, h))

  nothing_left :
      (p : Progress Cache) (m n : ℕ) (xs : List ℕ) → m ≡ 0 → p.out ≡ p.out ++ take m (drop n xs)
  nothing_left p m n xs e = rw e (sym (append-nil p.out))

  -- A chunk that was written reaches as far into the buffer as into the file.
  length-copied :
      (bytes out copied : List ℕ) (cursor e : ℕ)
      → e ≡ cursor + length bytes
      → offset < e
      → cursor < offset + len
      → length out ≡ min len (cursor - offset)
      → copied ≡ out ++ take (len - length out) (drop (offset - cursor) bytes)
      → length copied ≡ min len (e - offset)
  length-copied bytes out copied cursor e end_is after before done wrote =
      let bytes' = drop (offset - cursor) bytes in
      ap (λ (xs : List ℕ). length xs) wrote
      ∙ omega (
        arith,
        length-append out (take (len - length out) bytes'),
        length-take (len - length out) bytes',
        length-drop (offset - cursor) bytes,
        end_is,
        after,
        before,
        done,
      )

  -- What is written of the chunks behind one that was written joins on.
  joined :
      (bytes rest out copied final : List ℕ) (cursor e : ℕ)
      → e ≡ cursor + length bytes
      → offset < e
      → length copied ≡ min len (e - offset)
      → length out ≡ min len (cursor - offset)
      → copied ≡ out ++ take (len - length out) (drop (offset - cursor) bytes)
      → final ≡ copied ++ take (len - length copied) (drop (offset - e) rest)
      → final ≡ out ++ take (len - length out) (drop (offset - cursor) (bytes ++ rest))
  joined bytes rest out copied final cursor e end_is after grown done wrote run =
      let m = len - length out in
      let n = offset - cursor in
      let at_start : offset - e ≡ 0 = omega (arith, after) in
      let left : len - length copied ≡ m - (length bytes - n) =
        omega (arith, grown, done, end_is, after) in
      let tail = take (m - (length bytes - n)) rest in
      run
      ∙ ap₂ (λ (x y : ℕ). copied ++ take x (drop y rest)) left at_start
      ∙ ap (λ (xs : List ℕ). xs ++ tail) wrote
      ∙ append_assoc out (take m (drop n bytes)) tail
      ∙ ap (λ (xs : List ℕ). out ++ xs)
          (sym (take-drop-append m n bytes rest (omega (arith, end_is, after))))

  pub read_loop-Writes :
      (cs : List Chunk) (es : List ℕ) (rounds i cursor : ℕ) (p : Progress Cache)
      → rounds ≡ length cs
      → Stands i cs fs.chunks
      → Stands i es fs.chunk_end
      → Ends fs.chunks fs.hole_block_index fs.block_size fs.large_hole_size cursor cs es
      → All (IsPlaced fs block_bytes) cs
      → length p.out ≡ min len (cursor - offset)
      → Good p
      → WritesTo p
          (take (len - length p.out) (drop (offset - cursor) (content fs block_bytes cs)))
          (read_loop blocks fs offset len rounds i p)
  unfolding read_loop Ends content
  read_loop-Writes [] es zero i cursor p r sc se ends placed done good = (
    p,
    refl,
    rw (take-drop-nil (len - length p.out) (offset - cursor)) (sym (append-nil p.out)),
    good,
  )
  read_loop-Writes [] es (suc rounds) i cursor p r sc se ends placed done good =
      absurd (omega (arith, r))
  read_loop-Writes (c ∷ cs) es zero i cursor p r sc se ends placed done good =
      absurd (omega (arith, r))
  read_loop-Writes (c ∷ cs) [] (suc rounds) i cursor p r sc se ends placed done good = elim ends [ ]
  read_loop-Writes (c ∷ cs) (e ∷ es) (suc rounds) i cursor p r sc se (measured, ends) placed done
        good =
      elim (Bool-cases (length p.out == len)) [
        | inl t ↦
            let full : len - length p.out ≡ 0 = ground arith in
            rw t (p, refl, nothing_left p _ (offset - cursor) _ full, good)
        | inr f ↦
            let (size, sized, end_is) = measured in
            let chunk_at = index_lem fs.chunks i c (sc 0 i (omega arith) (omega arith)) in
            let end_at = index_lem fs.chunk_end i e (se 0 i (omega arith) (omega arith)) in
            let back : e - size ≡ cursor = omega (arith, end_is) in
            let sub = plain_sub_lem e size (omega (arith, end_is)) in
            elim (Bool-cases (leb (want_end blocks fs offset len) cursor)) [
              | inl t ↦
                  let past : offset + len ≤ cursor = omega (arith, leb→le _ _ t, end_eq) in
                  let full : len - length p.out ≡ 0 = omega (arith, done, past) in
                  rw (f, chunk_at, end_at, sized, sub, back, t)
                    (p, refl, nothing_left p _ (offset - cursor) _ full, good)
              | inr g ↦
                  let before : cursor < offset + len = omega (arith, leb→gt _ _ g, end_eq) in
                  let bytes = piece fs block_bytes c size in
                  let long = length-piece fs block_bytes c size placed.0 sized in
                  elim (Bool-cases (leb e offset)) [
                    | inl t ↦
                        let early : e ≤ offset = leb→le _ _ t in
                        let past =
                          drop_past bytes (content fs block_bytes cs) (offset - cursor) (offset - e)
                            (omega (arith, long, early, end_is)) in
                        rw (f, chunk_at, end_at, sized, sub, back, g, t, past)
                          (read_loop-Writes cs es rounds (i + 1) e p (omega (arith, r))
                            (Stands-tail i c cs fs.chunks sc) (Stands-tail i e es fs.chunk_end se)
                            ends placed.1 (omega (arith, done, early, end_is)) good)
                    | inr late ↦
                        let after : offset < e = leb→gt _ _ late in
                        let end_is' : e ≡ cursor + length bytes = omega (arith, end_is, long) in
                        let (q, copied, wrote, good_q) =
                          copy_chunk-Writes c size cursor e p placed.0 sized end_is done before
                            after good in
                        let grown =
                          length-copied bytes p.out q.out cursor e end_is' after before done
                            wrote in
                        let (p', run, out, good') =
                          read_loop-Writes cs es rounds (i + 1) e q (omega (arith, r))
                            (Stands-tail i c cs fs.chunks sc) (Stands-tail i e es fs.chunk_end se)
                            ends placed.1 grown good_q in
                        rw (f, chunk_at, end_at, sized, sub, back, g, late, copied)
                          (
                            p',
                            run,
                            joined bytes (content fs block_bytes cs) p.out q.out p'.out cursor e
                                end_is' after grown done wrote out,
                            good',
                          )
                  ]
            ]
      ]
