-- ===== src/Fs/Reader/Covering.antt =====
-- The chunks that a read visits: those before the offset are left out, and nothing of the read with them.
use rdwarfs.Prelude.{
  length-append, ℕ, ◌+◌, ◌-◌, ◌≤◌, ◌<◌, ◌≡◌, refl, sym, ◌∙◌, ap, some, List, [], ◌∷◌, length, take,
  drop, All, leb, get_elem?, arith, Bool-cases, inl, inr, drop_past, leb→le, get_elem?-drop,
  length-take, length-drop,
}
use rdwarfs.Fs.Chunks.{Chunk}
use rdwarfs.Fs.Chunks.Ends.{Ends, get_elem?-take}
use rdwarfs.Fs.Filesystem.{Filesystem}
use rdwarfs.Fs.Reader.{partition_point}
use rdwarfs.Fs.Reader.Content.{piece, content, IsPlaced, length-piece}

module _ (fs : Filesystem) (block_bytes : ℕ → List ℕ) (offset : ℕ) where
  abbrev EndsFrom : ℕ → List Chunk → List ℕ → Type 0
  EndsFrom = Ends fs.chunks fs.hole_block_index fs.block_size fs.large_hole_size

  abbrev pub skipped : List ℕ → ℕ
  skipped es = partition_point (λ e. leb e offset) es

  -- Where the first chunk that is visited starts, and that nothing is lost.
  pub skipped-content :
      (cs : List Chunk) (es : List ℕ) (cursor : ℕ)
      → EndsFrom cursor cs es
      → All (IsPlaced fs block_bytes) cs
      → cursor ≤ offset
      → (start : ℕ) × (start ≤ offset)
        × EndsFrom start (drop (skipped es) cs) (drop (skipped es) es)
        × (skipped es ≤ length cs)
        × (drop (offset - cursor) (content fs block_bytes cs)
            ≡ drop (offset - start) (content fs block_bytes (drop (skipped es) cs)))
  unfolding Ends content partition_point
  skipped-content [] [] cursor ends placed le = (cursor, le, ends, omega arith, refl)
  skipped-content [] (e ∷ es) cursor ends placed le = elim ends [ ]
  skipped-content (c ∷ cs) [] cursor ends placed le = elim ends [ ]
  skipped-content (c ∷ cs) (e ∷ es) cursor (measured, ends) placed le =
      elim (Bool-cases (leb e offset)) [
        | inl t ↦
            let (size, sized, end_is) = measured in
            let early : e ≤ offset = leb→le _ _ t in
            let (start, before, ends', inside, same) =
              skipped-content cs es e ends placed.1 early in
            let bytes = piece fs block_bytes c size in
            let past =
              drop_past bytes (content fs block_bytes cs) (offset - cursor) (offset - e)
                (omega (arith, length-piece fs block_bytes c size placed.0 sized, early, end_is)) in
            rw (t, sized, past) (start, before, ends', omega (arith, inside), same)
        | inr f ↦ rw f (cursor, le, (measured, ends), omega arith, refl)
      ]

  -- The last end of a file is its length.
  pub last-content :
      (c : Chunk) (cs : List Chunk) (es : List ℕ) (cursor : ℕ)
      → EndsFrom cursor (c ∷ cs) es
      → All (IsPlaced fs block_bytes) (c ∷ cs)
      → get_elem? es (length cs) ≡ some (cursor + length (content fs block_bytes (c ∷ cs)))
  unfolding Ends content
  last-content c cs [] cursor ends placed = elim ends [ ]
  last-content c [] (e ∷ es) cursor (measured, ends) placed =
      let (size, sized, end_is) = measured in
      rw sized (
        ap some (
          omega (
            arith,
            end_is,
            length-append (piece fs block_bytes c size) [],
            length-piece fs block_bytes c size placed.0 sized,
          )))
  last-content c (d ∷ cs) (e ∷ es) cursor (measured, ends) placed =
      let (size, sized, end_is) = measured in
      let rest = content fs block_bytes (d ∷ cs) in
      rw sized (
        last-content d cs es e ends placed.1
        ∙ ap some (
            omega (
              arith,
              end_is,
              length-append (piece fs block_bytes c size) rest,
              length-piece fs block_bytes c size placed.0 sized,
            )))

module _ {A : Type 0} where
  -- A part of a table, from inside a range of it.
  pub part_at :
      (xs : List A) (start count skip j k : ℕ)
      → k ≡ start + skip + j
      → j < length (drop skip (take count (drop start xs)))
      → get_elem? xs k ≡ get_elem? (drop skip (take count (drop start xs))) j
  part_at xs start count skip j k e h = sym (
      get_elem?-drop skip j (skip + j) (take count (drop start xs)) refl
      ∙ get_elem?-take (drop start xs) (skip + j) count (
          omega (
            arith,
            h,
            length-drop skip (take count (drop start xs)),
            length-take count (drop start xs),
          ))
      ∙ get_elem?-drop start (skip + j) k xs (omega (arith, e)))
