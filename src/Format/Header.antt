-- ===== src/Format/Header.antt =====
-- src/format/header.rs: the 64-byte section header, its parser and its writer.
--
-- Offset 0 the magic, 6 and 7 the version, 8 the SHA-512/256, 0x28 the XXH3-64, 0x30 the number, 0x34
-- the section type, 0x36 the compression, 0x38 the payload length.
pub mod Parse
pub mod RoundTrip
mod Runs
use rdwarfs.Prelude.{
  ℕ, ◌+◌, ◌≤◌, ◌<◌, ◌≡◌, Bool, not, ◌||◌, List, [], ◌∷◌, ◌++◌, length, All, IsByte, ltb, ◌==◌,
  if◌then◌else◌, saturating_add, u8_mod, u32_mod, u64_mod,
}
use rdwarfs.Result.{
  Result, ok, err, ◌>>=◌, index, slice, truncated_header, bad_magic, unsupported_version,
}
use rdwarfs.Bytes.{from_le_bytes, to_le_bytes, bytes_eq}
use rdwarfs.Format.SectionType
use rdwarfs.Format.SectionType.{SectionType}
use rdwarfs.Format.Compression
use rdwarfs.Format.Compression.{Compression}

-- `*b"DWARFS"`.
abbrev pub magic : List ℕ
magic = b'D' ∷ b'W' ∷ b'A' ∷ b'R' ∷ b'F' ∷ b'S' ∷ []

abbrev pub supported_major : ℕ
supported_major = 2

abbrev pub supported_minor : ℕ
supported_minor = 6

abbrev pub header_len : ℕ
header_len = 64

pub record SectionHeader : Type 0 where
  pub major : ℕ
  pub minor : ℕ
  pub sha512_256 : List ℕ
  pub xxh3_64 : ℕ
  pub number : ℕ
  pub section_type : SectionType
  pub compression : Compression
  pub payload_len : ℕ

-- The fields behind an accepted version.
unfoldable pub parse_fields : List ℕ → ℕ → ℕ → Result SectionHeader
parse_fields bytes major minor = do
  sha512_256 ← slice bytes 0x08 0x28
  xxh3_64 ← slice bytes 0x28 0x30
  number ← slice bytes 0x30 0x34
  st_raw ← slice bytes 0x34 0x36
  cp_raw ← slice bytes 0x36 0x38
  payload_len ← slice bytes 0x38 0x40
  ok (record {
    major = major;
    minor = minor;
    sha512_256 = sha512_256;
    xxh3_64 = from_le_bytes xxh3_64;
    number = from_le_bytes number;
    section_type = SectionType.from_u16 (from_le_bytes st_raw);
    compression = Compression.from_u16 (from_le_bytes cp_raw);
    payload_len = from_le_bytes payload_len;
  })

-- The version check, once the magic has been seen.
unfoldable pub parse_version : List ℕ → Result SectionHeader
parse_version bytes = do
  major ← index bytes 6
  minor ← index bytes 7
  if not (major == supported_major) || ltb supported_minor minor
      then err (unsupported_version major minor)
      else parse_fields bytes major minor

-- The offset only enriches the errors.
unfoldable pub parse : List ℕ → ℕ → Result SectionHeader
unfolding parse_version parse_fields
parse bytes offset = if ltb (length bytes) header_len then err (truncated_header offset) else do
  found ← slice bytes 0 6
  if not (bytes_eq found magic) then err (bad_magic offset) else parse_version bytes

unfoldable pub section_len : SectionHeader → ℕ
section_len h = saturating_add header_len h.payload_len

-- The writer fills a 64-byte buffer field by field; the fields cover it without a gap.
unfoldable pub write : SectionHeader → List ℕ
write h =
    magic
    ++ (h.major
        ∷ h.minor
        ∷ (h.sha512_256
            ++ (to_le_bytes 8 h.xxh3_64
                ++ (to_le_bytes 4 h.number
                    ++ (to_le_bytes 2 (SectionType.as_u16 h.section_type)
                        ++ (to_le_bytes 2 (Compression.as_u16 h.compression)
                            ++ to_le_bytes 8 h.payload_len))))))

-- What the fields of a header can hold when its version is supported.
pub record IsValid (h : SectionHeader) : Type 0 where
  pub major : h.major ≡ supported_major
  pub minor : h.minor ≤ supported_minor
  pub sha_len : length h.sha512_256 ≡ 32
  pub sha_bytes : All IsByte h.sha512_256
  pub xxh3_64 : h.xxh3_64 < u64_mod
  pub number : h.number < u32_mod
  pub section_type : SectionType.IsCanonical h.section_type
  pub compression : Compression.IsCanonical h.compression
  pub payload_len : h.payload_len < u64_mod
