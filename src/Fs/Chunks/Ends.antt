-- ===== src/Fs/Chunks/Ends.antt =====
-- The table of ends holds, file by file, the running sums of the lengths of the file's chunks.
use rdwarfs.Prelude.{
  ℕ, zero, suc, ◌+◌, ◌-◌, ◌≤◌, ◌<◌, ◌≡◌, refl, sym, ap, ◌∙◌, Option, some, ◌||◌, List, [], ◌∷◌,
  length, replicate, set, get_elem?, ltb, ◌==◌, checked_add, checked_mul, take, drop, arith,
  length-set, length-replicate, take-take, drop-take, get_elem?_lt,
}
use rdwarfs.Result.{
  store_lem, Result, ok, index, Ensures, Ensures-bind, Ensures-if, Ensures-ok_or, Ensures-imp,
  index_lem,
}
use rdwarfs.Fs.Chunks.{
  Chunk, large_hole_sentinel, add_inline, hole_length, is_hole_chunk, chunk_logical_len, fill_ends,
  fill_slots, build_chunk_ends,
}

module _ {A : Type 0} where
  drop-suc :
      (xs : List A) (i : ℕ) (x : A) → get_elem? xs i ≡ some x → drop i xs ≡ x ∷ drop (i + 1) xs
  drop-suc [] i x e = cc
  drop-suc (y ∷ xs) zero x e = let same : y ≡ x = cc in rw same refl
  drop-suc (y ∷ xs) (suc i) x e =
      let step : suc i + 1 ≡ suc (i + 1) = omega arith in rw step (drop-suc xs i x e)

  get_elem?-set : (xs : List A) (i : ℕ) (v : A) → i < length xs → get_elem? (set xs i v) i ≡ some v
  get_elem?-set [] i v h = absurd (omega arith)
  get_elem?-set (x ∷ xs) zero v h = refl
  get_elem?-set (x ∷ xs) (suc i) v h = get_elem?-set xs i v (omega arith)

  take-set : (xs : List A) (i : ℕ) (v : A) → take i (set xs i v) ≡ take i xs
  take-set [] i v = refl
  take-set (x ∷ xs) zero v = refl
  take-set (x ∷ xs) (suc i) v = ap (λ ys. x ∷ ys) (take-set xs i v)

  pub get_elem?-take : (xs : List A) (i n : ℕ) → i < n → get_elem? (take n xs) i ≡ get_elem? xs i
  get_elem?-take xs i zero h = absurd (omega arith)
  get_elem?-take [] i (suc n) h = refl
  get_elem?-take (x ∷ xs) zero (suc n) h = refl
  get_elem?-take (x ∷ xs) (suc i) (suc n) h = get_elem?-take xs i n (omega arith)

index-Ensures :
    (xs : List Chunk) (i : ℕ) → i < length xs → Ensures (λ x. get_elem? xs i ≡ some x) (index xs i)
index-Ensures xs i h = let (x, e) = get_elem?_lt xs i h in rw (index_lem xs i x e) e

module _ (chunks : List Chunk) (hole_block_index : Option ℕ) (block_size : ℕ)
    (large_hole_size : List ℕ) where
  abbrev len_of : Chunk → Result ℕ
  len_of = chunk_logical_len chunks hole_block_index block_size large_hole_size

  len_of_returns : (chunk : Chunk) → Ensures (λ _. Unit {0}) (len_of chunk)
  unfolding chunk_logical_len hole_length
  len_of_returns chunk =
      Ensures-if (λ _. Unit {0}) (is_hole_chunk hole_block_index chunk) _ _
        (λ _.
          Ensures-if (λ _. Unit {0}) (chunk.offset == large_hole_sentinel) _ _
            (λ _. Ensures-ok_or (λ _. Unit {0}) (get_elem? large_hole_size chunk.size) _ λ _ _. tt)
            (λ _.
              Ensures-ok_or (λ _. Unit {0})
                (add_inline chunk.offset (checked_mul chunk.size block_size)) _ λ _ _. tt))
        (λ _. tt)

  -- The ends of a run of chunks that starts at `cursor`.
  unfoldable pub Ends : ℕ → List Chunk → List ℕ → Type 0
  Ends cursor [] [] = Unit
  Ends cursor [] (e ∷ es) = ⊥
  Ends cursor (c ∷ cs) [] = ⊥
  Ends cursor (c ∷ cs) (e ∷ es) =
      ((len : ℕ) × (chunk_logical_len chunks hole_block_index block_size large_hole_size c ≡ ok len)
        × (e ≡ cursor + len))
      × Ends e cs es

  -- The files of a chunk table: each is a range of the chunks, and its ends are the running sums.
  unfoldable pub AreFiles : List ℕ → List ℕ → Type 0
  AreFiles [] ends = Unit
  AreFiles (start ∷ []) ends = Unit
  AreFiles (start ∷ (end ∷ table)) ends =
      (start ≤ end)
      × (end ≤ length chunks)
      × Ends 0 (take (end - start) (drop start chunks)) (take (end - start) (drop start ends))
      × AreFiles (end ∷ table) ends

  Filled : ℕ → ℕ → ℕ → List ℕ → List ℕ → Type 0
  Filled rounds i cursor ends ends' =
      (length ends' ≡ length chunks)
      × (take i ends' ≡ take i ends)
      × Ends cursor (take rounds (drop i chunks)) (take rounds (drop i ends'))

  -- One chunk more in front of a filled run.
  grown :
      (rounds i cursor next len : ℕ) (ends ends' : List ℕ) (chunk : Chunk)
      → length ends ≡ length chunks
      → get_elem? chunks i ≡ some chunk
      → len_of chunk ≡ ok len
      → next ≡ cursor + len
      → i < length chunks
      → Filled rounds (i + 1) next (set ends i next) ends'
      → Filled (suc rounds) i cursor ends ends'
  unfolding Filled Ends
  grown rounds i cursor next len ends ends' chunk l at measured e inside f =
      let written : get_elem? ends' i ≡ some next =
        sym (get_elem?-take ends' i (i + 1) (omega arith))
        ∙ ap (λ (xs : List ℕ). get_elem? xs i) f.1
        ∙ get_elem?-take (set ends i next) i (i + 1) (omega arith)
        ∙ get_elem?-set ends i next (omega arith) in
      let kept : take i ends' ≡ take i ends =
        sym (take-take i (i + 1) ends' (omega arith))
        ∙ ap (take i) f.1
        ∙ take-take i (i + 1) (set ends i next) (omega arith)
        ∙ take-set ends i next in
      (
        f.0,
        kept,
        rw (drop-suc chunks i chunk at, drop-suc ends' i next written) ((len, measured, e), f.2),
      )

  fill_ends-Filled :
      (rounds i cursor : ℕ) (ends : List ℕ)
      → length ends ≡ length chunks
      → i + rounds ≤ length chunks
      → Ensures
          (Filled rounds i cursor ends)
          (fill_ends chunks hole_block_index block_size large_hole_size rounds i cursor ends)
  unfolding fill_ends
  fill_ends-Filled zero i cursor ends l h = unfold Filled in unfold Ends in (l, refl, tt)
  fill_ends-Filled (suc rounds) i cursor ends l h =
      Ensures-bind (λ chunk. get_elem? chunks i ≡ some chunk) (Filled (suc rounds) i cursor ends) _
        _ (index-Ensures chunks i (omega arith))
        λ chunk _ at.
          Ensures-bind (λ _. Unit {0}) (Filled (suc rounds) i cursor ends) (len_of chunk) _
            (len_of_returns chunk)
            λ len measured _.
              Ensures-bind (λ c. c ≡ cursor + len) (Filled (suc rounds) i cursor ends) _ _
                (Ensures-ok_or _ (checked_add cursor len) _ λ c e. ground arith)
                λ next _ e. rw (store_lem ends i next (omega arith)) (
                  Ensures-imp (Filled rounds (i + 1) next (set ends i next))
                    (Filled (suc rounds) i cursor ends) _
                    (λ ends' _ f.
                      grown rounds i cursor next len ends ends' chunk l at measured e (omega arith)
                        f)
                    (fill_ends-Filled rounds (i + 1) next (set ends i next)
                      (length-set ends i next ∙ l) (omega arith)))

  -- What the slots from `start` on leave behind.
  Slots : List ℕ → List ℕ → List ℕ → Type 0
  Slots [] ends ends' = (length ends' ≡ length chunks) × AreFiles [] ends'
  Slots (start ∷ table) ends ends' =
      (length ends' ≡ length chunks)
      × (take start ends' ≡ take start ends)
      × AreFiles (start ∷ table) ends'

  more-Slots :
      (start end : ℕ) (table ends mid ends' : List ℕ)
      → start ≤ end
      → end ≤ length chunks
      → Filled (end - start) start 0 ends mid
      → Slots (end ∷ table) mid ends'
      → Slots (start ∷ (end ∷ table)) ends ends'
  unfolding Filled Slots AreFiles
  more-Slots start end table ends mid ends' le inside f s =
      let kept : take start ends' ≡ take start ends =
        sym (take-take start end ends' le)
        ∙ ap (take start) s.1
        ∙ take-take start end mid le
        ∙ f.1 in
      let same : take (end - start) (drop start ends') ≡ take (end - start) (drop start mid) =
        sym (drop-take start end (end - start) ends' (omega (arith, le)))
        ∙ ap (drop start) s.1
        ∙ drop-take start end (end - start) mid (omega (arith, le)) in
      (s.0, kept, (le, inside, rw same f.2, s.2))

  fill_slots-Slots :
      (table ends : List ℕ)
      → length ends ≡ length chunks
      → Ensures
          (Slots table ends)
          (fill_slots chunks hole_block_index block_size large_hole_size table ends)
  unfolding fill_slots
  fill_slots-Slots [] ends l = unfold Slots in unfold AreFiles in (l, tt)
  fill_slots-Slots (start ∷ []) ends l = unfold Slots in unfold AreFiles in (l, refl, tt)
  fill_slots-Slots (start ∷ (end ∷ table)) ends l =
      Ensures-if (Slots (start ∷ (end ∷ table)) ends) (ltb end start || ltb (length chunks) end) _ _
        (λ _. tt)
        λ good.
          let le : start ≤ end = ground arith in
          let inside : end ≤ length chunks = ground arith in
          Ensures-bind (Filled (end - start) start 0 ends) (Slots (start ∷ (end ∷ table)) ends) _ _
            (fill_ends-Filled (end - start) start 0 ends l (omega (arith, le, inside)))
            λ mid _ f.
              Ensures-imp (Slots (end ∷ table) mid) (Slots (start ∷ (end ∷ table)) ends) _
                (λ ends' _ s. more-Slots start end table ends mid ends' le inside f s)
                (fill_slots-Slots (end ∷ table) mid (unfold Filled in f.0))

  ends_of :
      (table ends ends' : List ℕ)
      → Slots table ends ends'
      → (length ends' ≡ length chunks) × AreFiles table ends'
  unfolding Slots
  ends_of [] ends ends' s = s
  ends_of (start ∷ table) ends ends' s = (s.0, s.2)

  -- Whatever the chunks and the table, building the ends meets no fault, and where it succeeds there is an
  -- end for every chunk, every two neighbours in the table are a range of the chunks, and the ends of each
  -- such range are the running sums from 0 of the logical lengths of its chunks.
  pub build_chunk_ends-AreFiles :
      (chunk_table : List ℕ)
      → Ensures
          (λ (ends : List ℕ). (length ends ≡ length chunks) × AreFiles chunk_table ends)
          (build_chunk_ends chunks hole_block_index block_size large_hole_size chunk_table)
  unfolding build_chunk_ends Slots
  build_chunk_ends-AreFiles chunk_table =
      Ensures-imp (Slots chunk_table (replicate (length chunks) 0))
        (λ (ends : List ℕ). (length ends ≡ length chunks) × AreFiles chunk_table ends) _
        (λ ends _ s. ends_of chunk_table (replicate (length chunks) 0) ends s)
        (fill_slots-Slots chunk_table (replicate (length chunks) 0)
          (length-replicate (length chunks) 0))

  -- The ends of the file that two neighbours in the table bound.
  pub AreFiles-Ends :
      (table ends : List ℕ) (i start end : ℕ)
      → AreFiles table ends
      → get_elem? table i ≡ some start
      → get_elem? table (i + 1) ≡ some end
      → Ends 0 (take (end - start) (drop start chunks)) (take (end - start) (drop start ends))
  unfolding AreFiles
  AreFiles-Ends [] ends i start end f s e = cc
  AreFiles-Ends (a ∷ []) ends zero start end f s e = cc
  AreFiles-Ends (a ∷ []) ends (suc i) start end f s e = cc
  AreFiles-Ends (a ∷ (b ∷ table)) ends zero start end f s e =
      let first : a ≡ start = cc in let second : b ≡ end = cc in rw (sym first, sym second) f.2
  AreFiles-Ends (a ∷ (b ∷ table)) ends (suc i) start end f s e =
      let next : suc i + 1 ≡ suc (i + 1) = omega arith in
      AreFiles-Ends (b ∷ table) ends i start end f.3 s (rw next at e)
