-- ===== src/Fs/Reader/Whole.antt =====
-- A read of a file returns the part of its content that was asked for.
use rdwarfs.Prelude.{
  take-min, get_elem?-drop, subst, All-drop, ℕ, suc, ◌+◌, ◌-◌, ◌*◌, ◌<◌, ◌≡◌, refl, sym, ◌∙◌, ap,
  ap₂, none, some, List, [], ◌∷◌, ◌++◌, length, take, drop, All, get_elem?, replicate, min, arith,
  u64_mod, u32_mod, length-take, length-drop, length-replicate, take_all, take_exact, lt→ltb,
  ge→ltb,
}
use rdwarfs.Result.{ok, Ensures-value, slice_lem, index_lem}
use rdwarfs.Fs.Inode.{regular}
use rdwarfs.Fs.Chunks.{Chunk}
use rdwarfs.Fs.Chunks.Ends.{get_elem?-take, Ends, AreFiles-Ends}
use rdwarfs.Fs.Filesystem.{Filesystem, kind, chunk_range, size_of_range, file_size}
use rdwarfs.Fs.Filesystem.Total.{IsSound, InChunks, chunk_range-InChunks}
use rdwarfs.Fs.Reader.{
  isize_mod, BlockReader, chunks_covering, read_into, zeroed, read_at, read_file,
}
use rdwarfs.Fs.Reader.Content.{Serves, content, IsPlaced, IsHeld}
use rdwarfs.Fs.Reader.Loop.{read_loop-Writes}
use rdwarfs.Fs.Reader.Covering.{skipped, skipped-content, last-content, part_at}

-- The chunks of the range that the table records for a file.
abbrev pub chunks_of : Filesystem → ℕ → ℕ → List Chunk
chunks_of fs start end = take (end - start) (drop start fs.chunks)

-- The content of the file whose chunks are a range.
abbrev pub file_bytes : Filesystem → (ℕ → List ℕ) → ℕ → ℕ → List ℕ
file_bytes fs block_bytes start end = content fs block_bytes (chunks_of fs start end)

-- What is left of a buffer whose front is written, with the number of bytes written and a cache.
abbrev pub filled : {Cache : Type 0} → List ℕ → List ℕ → Cache → ℕ × List ℕ × Cache
filled buf bytes cache = (length bytes, bytes ++ drop (length bytes) buf, cache)

module _ {Cache : Type 0} (blocks : BlockReader Cache) (fs : Filesystem) (block_bytes : ℕ → List ℕ)
    (Fit : Cache → Type 0) (serves : Serves blocks block_bytes Fit) (sound : IsSound fs)
    (inode start end : ℕ) (is_file : kind fs inode ≡ ok regular)
    (range : chunk_range fs inode ≡ ok (start, end))
    (placed : All (IsPlaced fs block_bytes) (take (end - start) (drop start fs.chunks))) where
  in_chunks : InChunks fs sound (start, end)
  in_chunks =
      Ensures-value (InChunks fs sound) (chunk_range fs inode) (start, end)
        (chunk_range-InChunks fs sound inode) range

  ends_of_file : List ℕ
  ends_of_file = take (end - start) (drop start fs.chunk_end)

  file-Ends :
      Ends fs.chunks fs.hole_block_index fs.block_size fs.large_hole_size 0
        (chunks_of fs start end)
        ends_of_file
  unfolding ends_of_file
  file-Ends =
      let (le, inside, slot) = in_chunks in
      let (i, first, second) = slot in
      AreFiles-Ends fs.chunks fs.hole_block_index fs.block_size fs.large_hole_size fs.chunk_table
        fs.chunk_end i start end sound.files first second

  covering :
      (offset : ℕ)
      → chunks_covering fs (start, end) offset
        ≡ ok (start + skipped fs block_bytes offset ends_of_file, end)
  unfolding chunks_covering ends_of_file
  covering offset =
      rw (slice_lem fs.chunk_end start end in_chunks.0 (omega (arith, in_chunks.1, sound.ends)))
        refl

  -- In a sound filesystem whose cache serves the blocks, take a regular file whose chunks lie in their
  -- blocks, and a read whose range ends below 2^64. It succeeds: it fills the front of the buffer with the
  -- bytes of the file from the offset on, as many as the buffer holds and the file has, returns their
  -- number, leaves the rest of the buffer as it was, and leaves a cache that serves the blocks too.
  pub read_into-content :
      (offset : ℕ) (buf : List ℕ) (cache : Cache)
      → offset + length buf < u64_mod
      → Fit cache
      → (cache' : Cache) × (read_into blocks fs inode offset buf cache
          ≡ ok (
              filled buf
                (take (length buf) (drop offset (file_bytes fs block_bytes start end)))
                cache'))
        × Fit cache'
  unfolding read_into
  read_into-content offset buf cache small fit =
      let cs = chunks_of fs start end in
      let k = skipped fs block_bytes offset ends_of_file in
      let (le, inside, slot) = in_chunks in
      let (cursor, before, ends, within, same) =
        skipped-content fs block_bytes offset cs ends_of_file 0 file-Ends placed (omega arith) in
      let long : length cs ≡ end - start = omega (
        arith,
        length-take (end - start) (drop start fs.chunks),
        length-drop start fs.chunks,
        inside,
        le,
      ) in
      let (p', run, out, good) =
        read_loop-Writes blocks fs block_bytes Fit serves offset (length buf) small (drop k cs)
          (drop k ends_of_file) (end - (start + k)) (start + k) cursor
          (record { held = none; cache = cache; out = [] })
          (omega (arith, length-drop k cs, long, within, le))
          (λ j i e h. part_at fs.chunks start (end - start) k j i e h)
          (λ j i e h. unfold ends_of_file in part_at fs.chunk_end start (end - start) k j i e h)
          ends (All-drop (IsPlaced fs block_bytes) k cs placed) (omega (arith, before))
          (record { held = unfold IsHeld in tt; cache = fit }) in
      let all : p'.out ≡ take (length buf) (drop offset (content fs block_bytes cs)) =
        out
        ∙ ap₂ (λ (n : ℕ) (xs : List ℕ). take n xs) (omega arith) (sym same)
        ∙ ap (λ (n : ℕ). take (length buf) (drop n (content fs block_bytes cs))) (omega arith) in
      rw (is_file, range, covering offset, run, all) (p'.cache, refl, good.cache)

  length-chunks_of : length (chunks_of fs start end) ≡ end - start
  length-chunks_of =
      let (le, inside, slot) = in_chunks in
      omega (
        arith,
        length-take (end - start) (drop start fs.chunks),
        length-drop start fs.chunks,
        inside,
        le,
      )

  size_of_range-content :
      (cs : List Chunk)
      → chunks_of fs start end ≡ cs
      → size_of_range fs (start, end) ≡ ok (length (file_bytes fs block_bytes start end))
  unfolding size_of_range content ends_of_file
  size_of_range-content [] e =
      let long : 0 ≡ end - start = ap (λ (xs : List Chunk). length xs) (sym e) ∙ length-chunks_of in
      rw (ge→ltb start end (omega (arith, long)), e) refl
  size_of_range-content (c ∷ cs) e =
      let long : suc (length cs) ≡ end - start =
        ap (λ (xs : List Chunk). length xs) (sym e) ∙ length-chunks_of in
      let last : get_elem? ends_of_file (length cs)
          ≡ some (length (content fs block_bytes (c ∷ cs))) =
        last-content fs block_bytes 0 c cs ends_of_file 0
          (subst
            (λ (xs : List Chunk).
              Ends fs.chunks fs.hole_block_index fs.block_size fs.large_hole_size 0 xs ends_of_file)
            e file-Ends)
          (subst (λ (xs : List Chunk). All (IsPlaced fs block_bytes) xs) e placed)
        ∙ ap some (omega arith) in
      let at : get_elem? fs.chunk_end (end - 1) ≡ some (length (content fs block_bytes (c ∷ cs))) =
        sym (get_elem?-drop start (length cs) (end - 1) fs.chunk_end (omega (arith, long)))
        ∙ sym (
            get_elem?-take (drop start fs.chunk_end) (length cs) (end - start)
              (omega (arith, long)))
        ∙ last in
      rw (lt→ltb start end (omega (arith, long)), e) (index_lem fs.chunk_end (end - 1) _ at)

  pub file_size-content : file_size fs inode ≡ ok (length (file_bytes fs block_bytes start end))
  unfolding file_size
  file_size-content = rw (is_file, range) (size_of_range-content (chunks_of fs start end) refl)

  zeroed_lem :
      (available : ℕ)
      → available < isize_mod
      → zeroed blocks fs available ≡ ok (replicate available 0)
  unfolding zeroed
  zeroed_lem available h = rw (lt→ltb _ _ h)

  -- In a sound filesystem whose cache serves the blocks, take a regular file shorter than 2^63 whose chunks
  -- lie in their blocks. A read of any size at any offset below 2^64 succeeds and returns the bytes of the
  -- file from the offset on, as many as were asked for and the file has.
  pub read_at-content :
      (offset size : ℕ) (cache : Cache)
      → offset < u64_mod
      → length (file_bytes fs block_bytes start end) < isize_mod
      → Fit cache
      → (cache' : Cache) × (read_at blocks fs inode offset size cache
          ≡ ok (take size (drop offset (file_bytes fs block_bytes start end)), cache'))
        × Fit cache'
  unfolding read_at
  read_at-content offset size cache small short fit =
      let whole = file_bytes fs block_bytes start end in
      let available = min (length whole - offset) size in
      let buf : List ℕ = replicate available 0 in
      let buf_len : length buf ≡ available = length-replicate available 0 in
      let (cache', run, fit') =
        read_into-content offset buf cache (omega (arith, buf_len, small, short)) fit in
      let wanted : take (length buf) (drop offset whole) ≡ take size (drop offset whole) =
        ap (λ (n : ℕ). take n (drop offset whole)) buf_len
        ∙ take-min size (length whole - offset) (drop offset whole)
            (omega (arith, length-drop offset whole)) in
      let front =
        take_exact (take (length buf) (drop offset whole))
          (drop (length (take (length buf) (drop offset whole))) buf)
          (length (take (length buf) (drop offset whole))) refl in
      let allocated : zeroed blocks fs available ≡ ok buf =
        zeroed_lem available (omega (arith, short)) in
      rw (file_size-content, allocated, run, front, wanted) (cache', refl, fit')

  -- In a sound filesystem whose caches serve the blocks, with a block size below 2^32, reading a whole regular
  -- file, shorter than 2^63 and with its chunks in their blocks, returns its content: that of its chunks, one
  -- after the other.
  pub read_file-content :
      fs.block_size < u32_mod
      → length (file_bytes fs block_bytes start end) < isize_mod
      → read_file blocks fs inode ≡ ok (file_bytes fs block_bytes start end)
  unfolding read_file
  read_file-content blocks_small short =
      let whole = file_bytes fs block_bytes start end in
      let (cache', run, fit) =
        read_at-content 0 (length whole) (blocks.new (2 * fs.block_size)) (omega arith) short
          (serves.new (2 * fs.block_size) (omega (arith, blocks_small))) in
      rw (file_size-content, run) (ap ok (take_all whole (length whole) (omega arith)))
