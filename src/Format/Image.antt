-- ===== src/Format/Image.antt =====
-- src/format/image.rs: an image over a source, its sections, and the reads of one section.
--
-- The parallel verification visits the same sections in an order of its own; here they are visited in
-- order. The codecs are the crates that src/compression calls, and a parameter.
pub mod Walking
pub mod Opening
mod Runs
use rdwarfs.Prelude.{
  ℕ, zero, suc, ◌+◌, ◌<◌, ◌≡◌, Bool, true, false, Option, none, some, List, [], ◌∷◌, length, ltb,
  leb, if◌then◌else◌, checked_end,
}
use rdwarfs.Result.{
  Result, ok, err, fault, out_of_fuel, ◌>>=◌, ◌>>◌, ok_or, slice, plain_add, truncated_header,
  truncated_section,
}
use rdwarfs.Format.SectionType
use rdwarfs.Format.SectionType.{SectionType}
use rdwarfs.Format.Compression.{Compression}
use rdwarfs.Format.Header.{SectionHeader, header_len, parse}
use rdwarfs.Format.Header as Header
use rdwarfs.Format.Source.{ImageSource, read_range, window, vec_source}
use rdwarfs.Format.Integrity.{Hashes, verify_xxh3, verify_sha512_256}

pub record SectionRecord : Type 0 where
  pub file_offset : ℕ
  pub header : SectionHeader

unfoldable pub section_len : SectionRecord → ℕ
section_len record_ = Header.section_len record_.header

-- The rest of a round, once the header is parsed.
unfoldable pub record_of : ℕ → ℕ → SectionHeader → Result (SectionRecord × ℕ)
record_of len cursor parsed = do
  next ←
      ok_or (checked_end cursor (Header.section_len parsed) len)
        (truncated_section parsed.number cursor)
  ok (record { file_offset = cursor; header = parsed }, next)

-- One round of `walk_sections`: the section at the cursor, and where the next one starts.
unfoldable pub record_at : ImageSource → ℕ → Result (SectionRecord × ℕ)
record_at source cursor = do
  header_end ← plain_add cursor header_len
  if ltb source.len header_end then err (truncated_header cursor) else do
    header ← source.read_exact_at cursor header_len
    parsed ← parse header cursor
    record_of source.len cursor parsed

unfoldable pub walk_loop : ℕ → ImageSource → ℕ → Result (List SectionRecord)
walk_loop zero source cursor = fault out_of_fuel
walk_loop (suc fuel) source cursor = if leb source.len cursor then ok [] else do
  (section, next) ← record_at source cursor
  sections ← walk_loop fuel source next
  ok (section ∷ sections)

-- Every round moves the cursor on, so a round for each byte and one for the end are enough.
unfoldable pub walk_sections : ImageSource → ℕ → Result (List SectionRecord)
walk_sections source base_offset = walk_loop (source.len + 1) source base_offset

-- `Image::find_section`.
unfoldable pub find_section : List SectionRecord → SectionType → Option SectionRecord
find_section [] kind = none
find_section (s ∷ sections) kind =
    if SectionType.eq s.header.section_type kind then some s else find_section sections kind

unfoldable pub section_bytes : ImageSource → SectionRecord → Result (List ℕ)
unfolding section_len
section_bytes source section = read_range source section.file_offset (section_len section)

unfoldable pub payload_bytes : ImageSource → SectionRecord → Result (List ℕ)
payload_bytes source section = do
  start ← plain_add section.file_offset header_len
  read_range source start section.header.payload_len

module _ (hashes : Hashes) (source : ImageSource) where
  -- `verify_sections` on one section; `deep` adds the slow hash.
  unfoldable pub verify_one : Bool → SectionRecord → Result (Unit {0})
  unfolding section_bytes
  verify_one deep section = do
    bytes ← section_bytes source section
    verify_xxh3 hashes section.header bytes
    if deep then verify_sha512_256 hashes section.header bytes else ok tt

  unfoldable pub verify_sections : Bool → List SectionRecord → Result (Unit {0})
  unfolding verify_one
  verify_sections deep [] = ok tt
  verify_sections deep (s ∷ sections) = do verify_one deep s; verify_sections deep sections

  -- `decompress_section` with the codec of the section.
  unfoldable pub decompress_section :
      (Compression → List ℕ → ℕ → Result (List ℕ)) → SectionRecord → ℕ → Result (List ℕ)
  unfolding section_bytes
  decompress_section decompress section cap = do
    bytes ← section_bytes source section
    verify_xxh3 hashes section.header bytes
    payload ← slice bytes header_len (length bytes)
    decompress section.header.compression payload cap

  unfoldable pub decompress_section_prefix :
      (Compression → List ℕ → ℕ → Result (Option (List ℕ)))
      → SectionRecord
      → ℕ
      → Result (Option (List ℕ))
  unfolding section_bytes
  decompress_section_prefix decompress_prefix section needed = do
    bytes ← section_bytes source section
    verify_xxh3 hashes section.header bytes
    payload ← slice bytes header_len (length bytes)
    decompress_prefix section.header.compression payload needed
