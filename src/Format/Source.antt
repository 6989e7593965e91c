-- ===== src/Format/Source.antt =====
-- src/format/source.rs: where the bytes of an image come from.
--
-- The trait is a record of its methods. `read_exact_at` is given the length of the buffer that it
-- fills and returns the bytes; `is_empty` is read off the length. A memory map answers as a vector of
-- its bytes does. What the operating system reads for a `FileSource` is a parameter.
pub mod Backing
mod Runs
use rdwarfs.Prelude.{
  ℕ, ◌+◌, ◌-◌, ◌≤◌, ◌<◌, ◌≡◌, Bool, ◌&&◌, ◌==◌, Option, none, some, List, length, take, drop, leb,
  ltb, if◌then◌else◌, checked_add, checked_end, isize_mod,
}
use rdwarfs.Result.{Result, ok, err, ◌>>=◌, ok_or, slice, plain_add, source_out_of_bounds}

pub record ImageSource : Type 0 where
  pub len : ℕ
  pub read_exact_at : ℕ → ℕ → Result (List ℕ)
  pub as_slice : Option (List ℕ)

unfoldable pub is_empty : ImageSource → Bool
is_empty source = source.len == 0

-- The bounds check of the sources in memory; `usize::try_from` cannot fail at 64 bits.
unfoldable pub slice_at : List ℕ → ℕ → ℕ → Result (List ℕ)
slice_at bytes buf_len offset = do
  end ←
      ok_or (checked_end offset buf_len (length bytes))
        (source_out_of_bounds offset buf_len (length bytes))
  slice bytes offset end

unfoldable pub vec_source : List ℕ → ImageSource
unfolding slice_at
vec_source bytes = record {
  len = length bytes;
  read_exact_at = λ offset buf_len. slice_at bytes buf_len offset;
  as_slice = some bytes;
}

-- `file` is what `FileExt::read_exact_at` answers for an offset and a length.
unfoldable pub file_source : (ℕ → ℕ → Result (List ℕ)) → ℕ → ImageSource
file_source file len = record {
  len = len;
  read_exact_at = λ offset buf_len. do
    end ← ok_or (checked_end offset buf_len len) (source_out_of_bounds offset buf_len len)
    file offset buf_len;
  as_slice = none;
}

-- `bytes.get(start..end)`.
abbrev pub get_range : List ℕ → ℕ → ℕ → Option (List ℕ)
get_range bytes start end =
    if leb start end && leb end (length bytes)
    then some (take (end - start) (drop start bytes))
    else none

-- The part of a contiguous source that a window shows.
unfoldable pub window_slice : Option (List ℕ) → ℕ → ℕ → Option (List ℕ)
window_slice none offset len = none
window_slice (some bytes) offset len = elim (checked_add offset len) [
  | none ↦ none
  | some end ↦ get_range bytes offset end
]

-- `WindowedSource` as a source.
unfoldable pub windowed : ImageSource → ℕ → ℕ → ImageSource
unfolding window_slice
windowed inner offset len = record {
  len = len;
  read_exact_at = λ at buf_len. do
    end ← ok_or (checked_end at buf_len len) (source_out_of_bounds at buf_len len)
    start ← plain_add offset at
    inner.read_exact_at start buf_len;
  as_slice = window_slice inner.as_slice offset len;
}

-- `WindowedSource::new`.
unfoldable pub window : ImageSource → ℕ → ℕ → Result ImageSource
window inner offset len = do
  end ← ok_or (checked_end offset len inner.len) (source_out_of_bounds offset len inner.len)
  ok (windowed inner offset len)

-- The bytes of a range, borrowed where the source is contiguous and read otherwise.
unfoldable pub read_range : ImageSource → ℕ → ℕ → Result (List ℕ)
read_range source offset len = do
  end ← ok_or (checked_add offset len) (source_out_of_bounds offset len source.len)
  if ltb source.len end
      then err (source_out_of_bounds offset len source.len)
      else elim source.as_slice [
        | some bytes ↦ do to ← plain_add offset len; slice bytes offset to
        | none ↦ source.read_exact_at offset len
      ]

-- The interface that clients rely on: the source supplies exactly `bytes`.
pub record Backs (source : ImageSource) (bytes : List ℕ) : Type 0 where
  pub fits : length bytes < isize_mod
  pub len : source.len ≡ length bytes
  pub reads :
      (offset count : ℕ)
      → offset + count ≤ length bytes
      → source.read_exact_at offset count ≡ ok (take count (drop offset bytes))
  pub rejects :
      (offset count : ℕ)
      → length bytes < offset + count
      → source.read_exact_at offset count ≡ err (source_out_of_bounds offset count (length bytes))
  pub contiguous : (whole : List ℕ) → source.as_slice ≡ some whole → whole ≡ bytes
