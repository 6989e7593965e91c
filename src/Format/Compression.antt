-- ===== src/Format/Compression.antt =====
-- src/format/types.rs: the compression algorithm of a section.
use rdwarfs.Prelude.{ℕ, ◌<◌, ◌≡◌, Bool, true, false, ◌==◌, if◌then◌else◌, u16_mod, arith}

pub data Compression : Type 0 where
  none lzma zstd lz4 lz4_hc brotli flac ricepp : Compression
  unknown : ℕ → Compression

unfoldable pub from_u16 : ℕ → Compression
from_u16 value =
    if value == 0
    then none
    else if value == 1
    then lzma
    else if value == 2
    then zstd
    else if value == 3
    then lz4
    else if value == 4
    then lz4_hc
    else if value == 5
    then brotli
    else if value == 6
    then flac
    else if value == 7
    then ricepp
    else unknown value

unfoldable pub as_u16 : Compression → ℕ
as_u16 none = 0
as_u16 lzma = 1
as_u16 zstd = 2
as_u16 lz4 = 3
as_u16 lz4_hc = 4
as_u16 brotli = 5
as_u16 flac = 6
as_u16 ricepp = 7
as_u16 (unknown value) = value

-- The test `compression != Compression::None`.
unfoldable pub is_none : Compression → Bool
is_none none = true
is_none _ = false

abbrev pub IsCanonical : Compression → Type 0
IsCanonical c = (from_u16 (as_u16 c) ≡ c) × (as_u16 c < u16_mod)

pub as_u16-from_u16 : (value : ℕ) → as_u16 (from_u16 value) ≡ value
unfolding as_u16 from_u16
as_u16-from_u16 value = ground arith

pub from_u16-IsCanonical : (value : ℕ) → value < u16_mod → IsCanonical (from_u16 value)
from_u16-IsCanonical value h = (rw (as_u16-from_u16 value), rw (as_u16-from_u16 value) h)
