-- ===== src/Fs/Chunks.antt =====
-- src/fs/read.rs: the chunks of a file, and where each ends within its file.
pub mod Ends
mod Runs
use rdwarfs.Prelude.{
  ℕ, zero, suc, ◌+◌, ◌-◌, ◌≡◌, Bool, true, false, Option, none, some, ◌||◌, List, [], ◌∷◌, length,
  replicate, set, get_elem?, ltb, ◌==◌, if◌then◌else◌, checked_add, checked_mul, u32_mod,
}
use rdwarfs.Result.{store, Result, ok, err, ◌>>=◌, ok_or, index, decode}

-- src/metadata/model.rs.
pub record Chunk : Type 0 where
  pub block : ℕ
  pub offset : ℕ
  pub size : ℕ

abbrev pub large_hole_sentinel : ℕ
large_hole_sentinel = u32_mod - 1

-- `by_blocks.checked_add`, behind the checked product.
unfoldable pub add_inline : ℕ → Option ℕ → Option ℕ
add_inline offset none = none
add_inline offset (some by_blocks) = checked_add by_blocks offset

unfoldable pub hole_length : Chunk → ℕ → List ℕ → Result ℕ
hole_length chunk block_size large_hole_size =
    if chunk.offset == large_hole_sentinel
    then ok_or (get_elem? large_hole_size chunk.size)
        (decode "fs" "large_hole_size index out of range")
    else ok_or (add_inline chunk.offset (checked_mul chunk.size block_size))
        (decode "fs" "hole length overflow")

-- `hole_block_index == Some(block)`.
unfoldable pub is_hole_chunk : Option ℕ → Chunk → Bool
is_hole_chunk none chunk = false
is_hole_chunk (some block) chunk = block == chunk.block

module _ (chunks : List Chunk) (hole_block_index : Option ℕ) (block_size : ℕ)
    (large_hole_size : List ℕ) where
  unfoldable pub chunk_logical_len : Chunk → Result ℕ
  chunk_logical_len chunk =
      if is_hole_chunk hole_block_index chunk
      then hole_length chunk block_size large_hole_size
      else ok chunk.size

  -- The rounds left of `for i in start..end`; `ends` is as long as `chunks`.
  unfoldable pub fill_ends : ℕ → ℕ → ℕ → List ℕ → Result (List ℕ)
  fill_ends zero i cursor ends = ok ends
  fill_ends (suc rounds) i cursor ends = do
    chunk ← index chunks i
    len ← chunk_logical_len chunk
    cursor' ← ok_or (checked_add cursor len) (decode "fs" "file size overflows u64")
    ends' ← store ends i cursor'
    fill_ends rounds (i + 1) cursor' ends'

  -- The loop over `chunk_table.windows(2)`.
  unfoldable pub fill_slots : List ℕ → List ℕ → Result (List ℕ)
  fill_slots [] ends = ok ends
  fill_slots (start ∷ []) ends = ok ends
  fill_slots (start ∷ (end ∷ table)) ends =
      if ltb end start || ltb (length chunks) end
      then err (decode "fs" "chunk range out of bounds")
      else do ends' ← fill_ends (end - start) start 0 ends; fill_slots (end ∷ table) ends'

  unfoldable pub build_chunk_ends : List ℕ → Result (List ℕ)
  build_chunk_ends chunk_table = fill_slots chunk_table (replicate (length chunks) 0)
