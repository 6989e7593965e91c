-- ===== src/Format/Index/RoundTrip.antt =====
-- The index in the layout that its documentation gives, and the parser on it.
use rdwarfs.Prelude.{
  ℕ, ◌+◌, ◌*◌, ◌/◌, ◌%◌, ◌^◌, ◌<◌, ◌≡◌, refl, sym, true, false, Option, none, some, List, [], ◌∷◌,
  ◌++◌, length, take, ◌==◌, arith, length-append, take_exact, drop_past,
}
use rdwarfs.Prelude.Bits.{bit_and_mask}
use rdwarfs.Result.{ok}
use rdwarfs.Bytes.{from_le_bytes, to_le_bytes, length-to_le_bytes, from_le_bytes-to_le_bytes}
use rdwarfs.Format.SectionType
use rdwarfs.Format.SectionType.{SectionType, section_index}
use rdwarfs.Format.Index.{
  IndexEntry, offset_bits, type_bits, is_unsorted, entries_loop, last, parse_entries,
}

-- A row: the type in the top 16 bits, the offset in the bottom 48.
unfoldable pub raw_entry : IndexEntry → ℕ
raw_entry e = e.offset_from_base + 2 ^ 48 * SectionType.as_u16 e.section_type

unfoldable pub encode_entries : List IndexEntry → List ℕ
encode_entries [] = []
encode_entries (e ∷ es) = to_le_bytes 8 (raw_entry e) ++ encode_entries es

-- Rows that an index can hold: types as they are stored, offsets of 48 bits, each past the one before.
abbrev pub IsIndex : Option ℕ → List IndexEntry → Type 0
IsIndex prev [] = Unit
IsIndex prev (e ∷ es) =
    SectionType.IsCanonical e.section_type
    × (e.offset_from_base < 2 ^ 48)
    × (is_unsorted prev e.offset_from_base ≡ false)
    × IsIndex (some e.offset_from_base) es

length-encode : (es : List IndexEntry) → length (encode_entries es) ≡ 8 * length es
unfolding encode_entries
length-encode [] = refl
length-encode (e ∷ es) = omega (
  arith,
  length-append (to_le_bytes 8 (raw_entry e)) (encode_entries es),
  length-to_le_bytes 8 (raw_entry e),
  length-encode es,
)

module _ (e : IndexEntry) (canonical : SectionType.IsCanonical e.section_type)
    (fits : e.offset_from_base < 2 ^ 48) where
  offset_bits-raw : offset_bits (raw_entry e) ≡ e.offset_from_base
  unfolding offset_bits raw_entry
  offset_bits-raw = rw (bit_and_mask 48 (raw_entry e)) (omega arith)

  type_bits-raw : SectionType.from_u16 (type_bits (raw_entry e)) ≡ e.section_type
  unfolding type_bits raw_entry
  type_bits-raw =
      let high : raw_entry e / 2 ^ 48 ≡ SectionType.as_u16 e.section_type = omega arith in
      rw (bit_and_mask 16 (raw_entry e / 2 ^ 48), high, small) canonical.0
    where
      small : SectionType.as_u16 e.section_type % 2 ^ 16 ≡ SectionType.as_u16 e.section_type
      small = omega (arith, canonical.1)

  raw-read :
      (rest : List ℕ) → from_le_bytes (take 8 (to_le_bytes 8 (raw_entry e) ++ rest)) ≡ raw_entry e
  unfolding raw_entry
  raw-read rest =
      rw
        (take_exact (to_le_bytes 8 (raw_entry e)) rest 8 (sym (length-to_le_bytes 8 (raw_entry e))))
        (from_le_bytes-to_le_bytes 8 (raw_entry e) (omega (arith, canonical.1)))

entries_loop-encode :
    (prev : Option ℕ) (es : List IndexEntry)
    → IsIndex prev es
    → entries_loop (length es) prev (encode_entries es) ≡ ok es
unfolding entries_loop encode_entries
entries_loop-encode prev [] h = refl
entries_loop-encode prev (e ∷ es) h =
    let rest = encode_entries es in
    rw
      (
        raw-read e h.0 h.1 rest,
        offset_bits-raw e h.0 h.1,
        h.2,
        type_bits-raw e h.0 h.1,
        drop_past (to_le_bytes 8 (raw_entry e)) rest 8 0
            (omega (arith, length-to_le_bytes 8 (raw_entry e))),
        entries_loop-encode (some e.offset_from_base) es h.3,
      )
      refl

last-some : (es : List IndexEntry) (final : IndexEntry) → last es ≡ some final → 0 < length es
unfolding last
last-some [] final e = cc
last-some (e ∷ es) final e' = omega arith

-- The entries of an index, encoded as rows of eight bytes with the type in the top 16 bits and the offset
-- in the bottom 48, are parsed to the same entries, whatever the offset of the section itself. The entries
-- are those an index can hold: canonical types, offsets below 2^48 in strictly ascending order, and a last
-- entry, which names the index section.
pub parse_entries-encode :
    (es : List IndexEntry) (final : IndexEntry) (file_offset : ℕ)
    → IsIndex none es
    → last es ≡ some final
    → final.section_type ≡ section_index
    → parse_entries (encode_entries es) file_offset
      ≡ ok (record { entries = es; file_offset = file_offset })
unfolding parse_entries SectionType.eq
parse_entries-encode es final file_offset h e t =
    let some_rows = last-some es final e in
    let len = length-encode es in
    let whole : length (encode_entries es) % 8 == 0 ≡ true = ground (arith, len) in
    let count : length (encode_entries es) / 8 ≡ length es = omega (arith, len) in
    let nonzero : length es == 0 ≡ false = ground (arith, some_rows) in
    rw (whole, count, nonzero, entries_loop-encode none es h, e, t) refl
