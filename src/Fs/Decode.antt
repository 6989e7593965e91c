-- ===== src/Fs/Decode.antt =====
-- src/fs/read.rs: the decoding of a block into the cache, which connects the reads of files to the image.
pub mod Serving
mod Runs
use rdwarfs.Prelude.{
  ℕ, Bool, true, false, not, ◌&&◌, Option, none, some, List, get_elem?, leb, if◌then◌else◌, min,
  max,
}
use rdwarfs.Result.{Result, ok, ◌>>=◌, ok_or, decode}
use rdwarfs.Format.Compression.{Compression}
use rdwarfs.Format.Image.{SectionRecord, decompress_section, decompress_section_prefix}
use rdwarfs.Format.Integrity.{Hashes}
use rdwarfs.Format.Source.{ImageSource}
use rdwarfs.Fs.Cache.{borrow_resident, Inner, empty, fetch}
use rdwarfs.Fs.Reader.{BlockReader}

abbrev pub prefix_granularity : ℕ
prefix_granularity = 1048576

abbrev pub prefix_max : ℕ
prefix_max = 4194304

-- The cache and its budget.
pub record BlockCache : Type 0 where
  pub budget : ℕ
  pub inner : Inner

-- The parts of an opened filesystem that decode its blocks, with the codecs.
pub record BlockSource : Type 0 where
  pub hashes : Hashes
  pub source : ImageSource
  pub decompress : Compression → List ℕ → ℕ → Result (List ℕ)
  pub decompress_prefix : Compression → List ℕ → ℕ → Result (Option (List ℕ))
  pub block_records : List SectionRecord
  pub block_size : ℕ

module _ (image : BlockSource) where
  unfoldable pub decode_full : SectionRecord → Result (List ℕ)
  decode_full section =
      decompress_section image.hashes image.source image.decompress section image.block_size

  unfoldable pub decode_prefix : SectionRecord → ℕ → Result (Option (List ℕ))
  decode_prefix section want =
      decompress_section_prefix image.hashes image.source image.decompress_prefix section want

  -- The prefix where the codec has one, or else the whole block.
  unfoldable pub or_full : SectionRecord → Option (List ℕ) → Result (List ℕ)
  or_full section none = decode_full section
  or_full section (some bytes) = ok bytes

  -- The closure that `decode_block` passes to `fetch`.
  unfoldable pub decode_record : ℕ → ℕ → Bool → Result (List ℕ)
  decode_record block needed retry_in_full = do
    section ← ok_or (get_elem? image.block_records block) (decode "fs" "block out of range")
    if not retry_in_full && leb needed (min prefix_max image.block_size)
        then (do
          prefix ← decode_prefix section (min (max needed prefix_granularity) image.block_size)
          or_full section prefix)
        else decode_full section

  unfoldable pub decode_block : BlockCache → ℕ → ℕ → Result (List ℕ × BlockCache)
  decode_block cache block needed = do
    (bytes, inner) ←
        fetch cache.budget block needed image.block_size (decode_record block needed) cache.inner
    ok (bytes, record cache { inner = inner })

  unfoldable pub new : ℕ → BlockCache
  new budget = record { budget = budget; inner = empty }

  -- `BlockCache::resident`.
  unfoldable pub resident : BlockCache → ℕ → Option (List ℕ) × BlockCache
  resident cache block = (
    (borrow_resident block cache.inner).0,
    record cache { inner = (borrow_resident block cache.inner).1 },
  )

  abbrev pub block_reader : BlockReader BlockCache
  block_reader = record { decode_block = decode_block; resident = resident; new = new }
