-- ===== src/Fs/Reader/Content.antt =====
-- What a read of a file writes: a part of the file's content, which its chunks and the blocks determine.
use rdwarfs.Prelude.{
  ℕ, ◌+◌, ◌-◌, ◌≤◌, ◌<◌, ◌≡◌, refl, sym, ◌∙◌, ap, ap₂, false, ◌&&◌, Option, none, some, List, [],
  ◌∷◌, ◌++◌, length, take, drop, replicate, ltb, leb, ◌==◌, if◌then◌else◌, isize_mod, arith,
  Bool-cases, inl, inr, length-take, length-drop, length-replicate, drop-replicate, take-replicate,
  take-drop-take-drop,
}
use rdwarfs.Result.{fault, Result, ok, err, slice, slice_lem}
use rdwarfs.Fs.Chunks.{Chunk, is_hole_chunk, chunk_logical_len}
use rdwarfs.Fs.Filesystem.{Filesystem}
use rdwarfs.Fs.Reader.{BlockReader, Progress, logical_len, fresh_block, block_for, wrote, copy_from}

-- The cache serves every read inside a block with a prefix of the block that covers it, and goes on to.
pub record Serves {Cache : Type 0} (blocks : BlockReader Cache) (block_bytes : ℕ → List ℕ)
    (Fit : Cache → Type 0) : Type 0 where
  pub new : (budget : ℕ) → budget < isize_mod → Fit (blocks.new budget)
  pub decode_block :
      (cache : Cache) (block needed : ℕ)
      → Fit cache
      → 0 < length (block_bytes block)
      → needed ≤ length (block_bytes block)
      → (bytes : List ℕ) × ((cache' : Cache) × (blocks.decode_block cache block needed
            ≡ ok (bytes, cache'))
          × (bytes ≡ take (length bytes) (block_bytes block))
          × (needed ≤ length bytes)
          × Fit cache')

module _ (fs : Filesystem) (block_bytes : ℕ → List ℕ) where
  -- The bytes of a chunk of the given length.
  unfoldable pub piece : Chunk → ℕ → List ℕ
  piece chunk len =
      if is_hole_chunk fs.hole_block_index chunk
      then replicate len 0
      else take len (drop chunk.offset (block_bytes chunk.block))

  abbrev pub piece_of : Chunk → Result ℕ → List ℕ
  piece_of chunk (ok len) = piece chunk len
  piece_of chunk (err e) = []
  piece_of chunk (fault x) = []

  -- The content of a file is that of its chunks, in order.
  unfoldable pub content : List Chunk → List ℕ
  content [] = []
  content (chunk ∷ chunks) =
      piece_of chunk
        (chunk_logical_len fs.chunks fs.hole_block_index fs.block_size fs.large_hole_size chunk)
      ++ content chunks

  -- A chunk that is no hole lies in its block, which is not empty.
  abbrev pub IsPlaced : Chunk → Type 0
  IsPlaced chunk =
      is_hole_chunk fs.hole_block_index chunk ≡ false
      → (0 < length (block_bytes chunk.block))
        × (chunk.offset + chunk.size ≤ length (block_bytes chunk.block))

  pub length-piece :
      (chunk : Chunk) (len : ℕ)
      → IsPlaced chunk
      → chunk_logical_len fs.chunks fs.hole_block_index fs.block_size fs.large_hole_size chunk
        ≡ ok len
      → length (piece chunk len) ≡ len
  unfolding piece chunk_logical_len
  length-piece chunk len placed e = elim (Bool-cases (is_hole_chunk fs.hole_block_index chunk)) [
    | inl t ↦ rw t (length-replicate len 0)
    | inr f ↦
        let same : chunk.size ≡ len = cc (rw f at e) in
        rw f (
          omega (
            arith,
            length-take len (drop chunk.offset (block_bytes chunk.block)),
            length-drop chunk.offset (block_bytes chunk.block),
            (placed f).1,
            same,
          ))
  ]

module _ {Cache : Type 0} (blocks : BlockReader Cache) (fs : Filesystem) (block_bytes : ℕ → List ℕ)
    (Fit : Cache → Type 0) (serves : Serves blocks block_bytes Fit) where
  unfoldable pub IsHeld : Option (ℕ × List ℕ) → Type 0
  IsHeld none = Unit
  IsHeld (some (b, bytes)) = bytes ≡ take (length bytes) (block_bytes b)

  pub record IsGood (p : Progress Cache) : Type 0 where
    pub held : IsHeld p.held
    pub cache : Fit p.cache

  abbrev Served : Progress Cache → ℕ → ℕ → Result (List ℕ × Progress Cache) → Type 0
  Served p block needed m =
      (bytes : List ℕ) × ((p' : Progress Cache) × (m ≡ ok (bytes, p'))
        × (bytes ≡ take (length bytes) (block_bytes block))
        × (needed ≤ length bytes)
        × (p'.out ≡ p.out)
        × IsGood p')

  fresh_block-Served :
      (p : Progress Cache) (block needed : ℕ)
      → IsGood p
      → 0 < length (block_bytes block)
      → needed ≤ length (block_bytes block)
      → Served p block needed (fresh_block blocks fs p block needed)
  unfolding fresh_block IsHeld
  fresh_block-Served p block needed good holds room =
      let (bytes, r1) = serves.decode_block p.cache block needed good.cache holds room in
      let (cache', e, is, covers, fit) = r1 in
      (
        bytes,
        (
          record p { held = some (block, bytes); cache = cache' },
          (rw e refl),
          is,
          covers,
          refl,
          record { held = is; cache = fit },
        ),
      )

  block_for-Served :
      (held : Option (ℕ × List ℕ)) (p : Progress Cache) (block needed : ℕ)
      → IsHeld held
      → IsGood p
      → 0 < length (block_bytes block)
      → needed ≤ length (block_bytes block)
      → Served p block needed (block_for blocks fs held p block needed)
  unfolding block_for IsHeld
  block_for-Served none p block needed h good holds room =
      fresh_block-Served p block needed good holds room
  block_for-Served (some (b, bytes)) p block needed h good holds room =
      elim (Bool-cases ((b == block) && leb needed (length bytes))) [
        | inl t ↦
            let same : b ≡ block = ground arith in
            let covers : needed ≤ length bytes = ground arith in
            rw t (bytes, (p, refl, (rw same at h), covers, refl, good))
        | inr f ↦ rw f (fresh_block-Served p block needed good holds room)
      ]

  -- A step that writes exactly `bytes`.
  abbrev pub Writes : Progress Cache → List ℕ → Result (Progress Cache) → Type 0
  Writes p bytes m = (p' : Progress Cache) × (m ≡ ok p') × (p'.out ≡ p.out ++ bytes) × IsGood p'

  pub copy_from-Writes :
      (chunk : Chunk) (len local_start count : ℕ) (p : Progress Cache)
      → IsPlaced fs block_bytes chunk
      → logical_len blocks fs chunk ≡ ok len
      → local_start + count ≤ len
      → IsGood p
      → Writes p
          (take count (drop local_start (piece fs block_bytes chunk len)))
          (copy_from blocks fs chunk local_start count p)
  unfolding copy_from piece chunk_logical_len IsHeld
  copy_from-Writes chunk len local_start count p placed e inside good =
      elim (Bool-cases (is_hole_chunk fs.hole_block_index chunk)) [
        | inl t ↦
            let zeros : take count (drop local_start (replicate {A = ℕ} len 0))
                ≡ replicate count 0 =
              rw (drop-replicate {A = ℕ} local_start len 0)
                (take-replicate {A = ℕ} count (len - local_start) 0 (omega (arith, inside))) in
            rw (t, zeros)
              (
                wrote blocks fs p (replicate count 0),
                refl,
                refl,
                record { held = good.held; cache = good.cache },
              )
        | inr f ↦
            let same : chunk.size ≡ len = cc (rw f at e) in
            let start = chunk.offset + local_start in
            let (block, r1) =
              block_for-Served p.held p chunk.block (start + count) good.held good (placed f).0
                (omega (arith, (placed f).1, inside, same)) in
            let (p', served, is, covers, kept, good') = r1 in
            let sliced : slice block start (start + count)
                ≡ ok (take (start + count - start) (drop start block)) =
              slice_lem block start (start + count) (omega arith) covers in
            let part : take (start + count - start) (drop start block)
                ≡ take count
                    (drop local_start (take len (drop chunk.offset (block_bytes chunk.block)))) =
              ap₂ (λ (n : ℕ) (xs : List ℕ). take n (drop start xs)) (omega arith) is
              ∙ take-drop-take-drop 0 (length block) start count start (block_bytes chunk.block)
                  covers (omega arith)
              ∙ sym (
                  take-drop-take-drop chunk.offset len local_start count start
                    (block_bytes chunk.block) inside refl) in
            let got =
              take count
                (drop local_start (take len (drop chunk.offset (block_bytes chunk.block)))) in
            let enough : ltb (length block) (start + count) ≡ false = ground arith in
            rw (f, served, enough, sliced, part)
              (
                wrote blocks fs p' got,
                refl,
                ap (λ (xs : List ℕ). xs ++ got) kept,
                record { held = good'.held; cache = good'.cache },
              )
      ]
