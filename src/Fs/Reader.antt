-- ===== src/Fs/Reader.antt =====
-- src/fs/read.rs: reads of a file's bytes, chunk by chunk, out of decoded blocks.
--
-- A block may be decoded as a prefix of itself, as far as a read needs it. The buffer that a read fills is
-- filled from its start on, so a read in progress holds the bytes written so far. A chunk's offset and
-- size are `u32`, and so is a block's size, so sums of two of them do not overflow `usize`.
pub mod Content
pub mod Loop
pub mod Covering
pub mod Whole
use rdwarfs.Prelude.{
  isize_mod, ◌||◌, ◌*◌, ℕ, zero, suc, ◌+◌, ◌-◌, Bool, true, false, ◌&&◌, Option, none, some, List,
  [], ◌∷◌, ◌++◌, length, take, drop, replicate, ltb, leb, ◌==◌, if◌then◌else◌, min, saturating_add,
}
use rdwarfs.Result.{panic, fault, Result, ok, err, ◌>>=◌, decode, index, slice, plain_sub}
use rdwarfs.Fs.Inode.{is_regular}
use rdwarfs.Fs.Chunks.{Chunk, is_hole_chunk, chunk_logical_len}
use rdwarfs.Fs.Filesystem.{Filesystem, kind, chunk_range, file_size}

-- What a read asks of the cache: `decode_block` and `resident`, with the cache they leave, and
-- `BlockCache::new`.
pub record BlockReader (Cache : Type 0) : Type 0 where
  pub decode_block : Cache → ℕ → ℕ → Result (List ℕ × Cache)
  pub resident : Cache → ℕ → Option (List ℕ) × Cache
  pub new : ℕ → Cache

-- `partition_point` on a slice whose front passes the test and whose rest does not.
unfoldable pub partition_point : (ℕ → Bool) → List ℕ → ℕ
partition_point passes [] = 0
partition_point passes (x ∷ xs) =
    let rest = partition_point passes xs in if passes x then suc rest else 0

unfoldable pub chunks_covering : Filesystem → ℕ × ℕ → ℕ → Result (ℕ × ℕ)
chunks_covering fs (start, end) offset = do
  ends ← slice fs.chunk_end start end
  ok (start + partition_point (λ e. leb e offset) ends, end)

-- The locals of `read_into` that the loop changes, and the cache.
pub record Progress (Cache : Type 0) : Type 0 where
  pub held : Option (ℕ × List ℕ)
  pub cache : Cache
  pub out : List ℕ

module _ {Cache : Type 0} (blocks : BlockReader Cache) (fs : Filesystem) where
  abbrev pub logical_len : Chunk → Result ℕ
  logical_len = chunk_logical_len fs.chunks fs.hole_block_index fs.block_size fs.large_hole_size

  -- A block out of the cache becomes the one that is held.
  unfoldable pub fresh_block : Progress Cache → ℕ → ℕ → Result (List ℕ × Progress Cache)
  fresh_block p block block_end = do
    (bytes, cache) ← blocks.decode_block p.cache block block_end
    ok (bytes, record p { held = some (block, bytes); cache = cache })

  -- `match &held`.
  unfoldable pub block_for :
      Option (ℕ × List ℕ) → Progress Cache → ℕ → ℕ → Result (List ℕ × Progress Cache)
  block_for none p block block_end = fresh_block p block block_end
  block_for (some (b, bytes)) p block block_end =
      if b == block && leb block_end (length bytes)
      then ok (bytes, p)
      else fresh_block p block block_end

  abbrev pub wrote : Progress Cache → List ℕ → Progress Cache
  wrote p bytes = record p { out = p.out ++ bytes }

  -- `take` bytes of the chunk from `local_start` on.
  unfoldable pub copy_from : Chunk → ℕ → ℕ → Progress Cache → Result (Progress Cache)
  copy_from chunk local_start count p =
      if is_hole_chunk fs.hole_block_index chunk then ok (wrote p (replicate count 0)) else do
        let block_start = chunk.offset + local_start
        let block_end = block_start + count
        (block, p') ← block_for p.held p chunk.block block_end
        if ltb (length block) block_end
            then err (decode "fs" "chunk exceeds block")
            else (do bytes ← slice block block_start block_end; ok (wrote p' bytes))

  module _ (offset len : ℕ) where
    abbrev pub want_end : ℕ
    want_end = saturating_add offset len

    -- The part of the chunk from `cursor` to `chunk_end` that the read wants.
    unfoldable pub copy_chunk : Chunk → ℕ → ℕ → Progress Cache → Result (Progress Cache)
    copy_chunk chunk cursor chunk_end p = do
      let local_start = offset - cursor
      wanted ← plain_sub want_end cursor
      there ← plain_sub chunk_end cursor
      span ← plain_sub (min wanted there) local_start
      copy_from chunk local_start (min span (len - length p.out)) p

    -- The rounds left of the loop over the chunks, at chunk `i`.
    unfoldable pub read_loop : ℕ → ℕ → Progress Cache → Result (Progress Cache)
    read_loop zero i p = ok p
    read_loop (suc rounds) i p = if length p.out == len then ok p else do
      chunk ← index fs.chunks i
      chunk_end ← index fs.chunk_end i
      size ← logical_len chunk
      cursor ← plain_sub chunk_end size
      if leb want_end cursor then ok p else (do
        p' ← if leb chunk_end offset then ok p else copy_chunk chunk cursor chunk_end p
        read_loop rounds (i + 1) p')

  -- How many bytes are written, the buffer with them, and the cache.
  unfoldable pub read_into : ℕ → ℕ → List ℕ → Cache → Result (ℕ × List ℕ × Cache)
  read_into inode offset buf cache = do
    what ← kind fs inode
    if is_regular what
        then (do
          range ← chunk_range fs inode
          (first, end) ← chunks_covering fs range offset
          p ←
              read_loop offset (length buf) (end - first) first
                (record { held = none; cache = cache; out = [] })
          ok (length p.out, p.out ++ drop (length p.out) buf, p.cache))
        else err (decode "fs" "inode is not a regular file")

  -- `vec![0u8; available]` panics on more than `isize::MAX` bytes.
  unfoldable pub zeroed : ℕ → Result (List ℕ)
  zeroed available = if ltb available isize_mod then ok (replicate available 0) else fault panic

  unfoldable pub read_at : ℕ → ℕ → ℕ → Cache → Result (List ℕ × Cache)
  read_at inode offset size cache = do
    file_len ← file_size fs inode
    buf ← zeroed (min (file_len - offset) size)
    (written, out, cache') ← read_into inode offset buf cache
    ok (take written out, cache')

  unfoldable pub read_file : ℕ → Result (List ℕ)
  read_file inode = do
    size ← file_size fs inode
    (out, cache) ← read_at inode 0 size (blocks.new (2 * fs.block_size))
    ok out

  -- The end of `read_borrowed`, with what `resident` answers.
  abbrev pub lent : ℕ → ℕ → Option (List ℕ) × Cache → Result (Option (List ℕ) × Cache)
  lent block_start block_end (none, cache) = err (decode "fs" "block cache lost entry")
  lent block_start block_end (some block, cache) = do
    bytes ← slice block block_start block_end
    ok (some bytes, cache)

  -- The part of `read_borrowed` behind the chunk that is found.
  unfoldable pub borrow_from : ℕ → ℕ → Chunk → ℕ → Cache → Result (Option (List ℕ) × Cache)
  borrow_from offset len chunk chunk_end cache =
      if is_hole_chunk fs.hole_block_index chunk || ltb chunk_end (saturating_add offset len)
      then ok (none, cache)
      else do
        size ← logical_len chunk
        cursor ← plain_sub chunk_end size
        within ← plain_sub offset cursor
        let block_start = chunk.offset + within
        let block_end = block_start + len
        (block, cache') ← blocks.decode_block cache chunk.block block_end
        if ltb (length block) block_end
            then err (decode "fs" "chunk exceeds block")
            else lent block_start block_end (blocks.resident cache' chunk.block)

  unfoldable pub read_borrowed : ℕ → ℕ → ℕ → Cache → Result (Option (List ℕ) × Cache)
  read_borrowed inode offset len cache = do
    what ← kind fs inode
    if is_regular what
        then (if len == 0 then ok (some [], cache) else do
          range ← chunk_range fs inode
          (first, end) ← chunks_covering fs range offset
          if leb end first then ok (none, cache) else (do
            chunk ← index fs.chunks first
            chunk_end ← index fs.chunk_end first
            borrow_from offset len chunk chunk_end cache))
        else err (decode "fs" "inode is not a regular file")
