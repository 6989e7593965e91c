-- ===== src/Format/Index.antt =====
-- src/format/index.rs: the optional index of the sections, the last section of an image.
pub mod RoundTrip
mod Runs
use rdwarfs.Prelude.{
  ℕ, zero, suc, ◌+◌, ◌-◌, ◌*◌, ◌/◌, ◌%◌, ◌^◌, ◌<◌, ◌≡◌, Bool, true, false, not, Option, none, some,
  List, [], ◌∷◌, length, take, drop, leb, ltb, ◌==◌, if◌then◌else◌, bit_and, checked_add,
  saturating_add,
}
use rdwarfs.Result.{Result, ok, err, ◌>>=◌, ok_or, or_panic, plain_add, corrupt_section_index}
use rdwarfs.Bytes.{from_le_bytes, to_le_bytes}
use rdwarfs.Format.SectionType
use rdwarfs.Format.SectionType.{SectionType, section_index}
use rdwarfs.Format.Compression
use rdwarfs.Format.Header.{header_len, parse}
use rdwarfs.Format.Source.{ImageSource, read_range}

pub record IndexEntry : Type 0 where
  pub section_type : SectionType
  pub offset_from_base : ℕ

pub record SectionIndex : Type 0 where
  pub entries : List IndexEntry
  pub file_offset : ℕ

abbrev pub offset_mask : ℕ
offset_mask = 2 ^ 48 - 1

-- `((raw >> 48) & 0xFFFF) as u16`.
unfoldable pub type_bits : ℕ → ℕ
type_bits raw = bit_and (raw / 2 ^ 48) 0xffff

-- `raw & OFFSET_MASK`.
unfoldable pub offset_bits : ℕ → ℕ
offset_bits raw = bit_and raw offset_mask

-- The guard of the loop: an offset that is not past the one before.
unfoldable pub is_unsorted : Option ℕ → ℕ → Bool
is_unsorted none off = false
is_unsorted (some p) off = leb off p

-- The rounds left over the chunks of eight bytes, with `prev_offset`.
unfoldable pub entries_loop : ℕ → Option ℕ → List ℕ → Result (List IndexEntry)
entries_loop zero prev_offset payload = ok []
entries_loop (suc count) prev_offset payload =
    let raw = from_le_bytes (take 8 payload) in
    if is_unsorted prev_offset (offset_bits raw)
    then err (corrupt_section_index "entries not strictly sorted by offset")
    else do
      entries ← entries_loop count (some (offset_bits raw)) (drop 8 payload)
      ok (
          record {
            section_type = SectionType.from_u16 (type_bits raw);
            offset_from_base = offset_bits raw;
          }
          ∷ entries)

unfoldable pub last : List IndexEntry → Option IndexEntry
last [] = none
last (e ∷ []) = some e
last (e ∷ (e' ∷ es)) = last (e' ∷ es)

unfoldable pub parse_entries : List ℕ → ℕ → Result SectionIndex
parse_entries payload file_offset =
    if not (length payload % 8 == 0)
    then err (corrupt_section_index "payload length is not a multiple of 8")
    else if length payload / 8 == 0
    then err (corrupt_section_index "index has zero entries")
    else do
      entries ← entries_loop (length payload / 8) none payload
      final ← or_panic (last entries)
      if not (SectionType.eq final.section_type section_index)
          then err (corrupt_section_index "last entry is not the index itself")
          else ok (record { entries = entries; file_offset = file_offset })

-- `SectionIndex::from_source`, behind the test of the marker.
unfoldable pub index_at : ImageSource → ℕ → ℕ → Result SectionIndex
index_at source base_offset entry = do
  header_file_offset ←
      ok_or (checked_add base_offset (offset_bits entry))
        (corrupt_section_index "tail offset overflows file size")
  if ltb source.len (saturating_add header_file_offset header_len)
      then err (corrupt_section_index "tail offset past end of image")
      else do
        header_bytes ← source.read_exact_at header_file_offset header_len
        header ← parse header_bytes header_file_offset
        if not (SectionType.eq header.section_type section_index)
            then err (corrupt_section_index "tail offset does not point to SECTION_INDEX")
            else if not (Compression.is_none header.compression)
            then err (corrupt_section_index "section index must be uncompressed")
            else do
              payload_start ← plain_add header_file_offset header_len
              payload_end ←
                  ok_or (checked_add payload_start header.payload_len)
                    (corrupt_section_index "payload length overflows")
              if not (payload_end == source.len)
                  then err (corrupt_section_index "section index must be the last section")
                  else do
                    payload ← read_range source payload_start header.payload_len
                    parse_entries payload header_file_offset

unfoldable pub from_source : ImageSource → ℕ → Result (Option SectionIndex)
from_source source base_offset = if ltb source.len 8 then ok none else do
  tail ← source.read_exact_at (source.len - 8) 8
  if not (type_bits (from_le_bytes tail) == SectionType.as_u16 section_index)
      then ok none
      else do parsed ← index_at source base_offset (from_le_bytes tail); ok (some parsed)

unfoldable pub find : List IndexEntry → SectionType → Option ℕ
find [] kind = none
find (e ∷ entries) kind =
    if SectionType.eq e.section_type kind then some e.offset_from_base else find entries kind
