-- ===== src/Format/Index/Runs.antt =====
-- The parser of the index on two rows.
use rdwarfs.Prelude.{◌≡◌, [], ◌∷◌, arith, refl, none}
use rdwarfs.Result.{ok}
use rdwarfs.Format.SectionType
use rdwarfs.Format.Index.{IndexEntry, parse_entries, last, is_unsorted}
use rdwarfs.Format.Index.RoundTrip.{encode_entries, IsIndex, parse_entries-encode}

abbrev block_row : IndexEntry
block_row = record { section_type = SectionType.block; offset_from_base = 0 }

abbrev index_row : IndexEntry
index_row = record { section_type = SectionType.section_index; offset_from_base = 200 }

rows-IsIndex : IsIndex none (block_row ∷ index_row ∷ [])
unfolding is_unsorted SectionType.from_u16 SectionType.as_u16
rows-IsIndex =
    ((refl, omega arith), omega arith, refl, ((refl, omega arith), omega arith, refl, tt))

parse_entries-encode_example :
    parse_entries (encode_entries (block_row ∷ index_row ∷ [])) 200
    ≡ ok (record { entries = block_row ∷ index_row ∷ []; file_offset = 200 })
unfolding last
parse_entries-encode_example =
    parse_entries-encode (block_row ∷ index_row ∷ []) index_row 200 rows-IsIndex refl refl
