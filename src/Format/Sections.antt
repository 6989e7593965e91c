-- ===== src/Format/Sections.antt =====
-- src/format/sections.rs: the iterator over the sections of an image in memory.
pub mod Walk
pub mod Encoded
mod Runs
use rdwarfs.Prelude.{
  ℕ, zero, suc, ◌+◌, ◌<◌, ◌≡◌, Bool, true, false, ◌||◌, Option, none, some, List, [], ◌∷◌, ◌++◌,
  length, drop, ltb, leb, if◌then◌else◌, checked_end,
}
use rdwarfs.Result.{
  Result, ok, err, fault, out_of_fuel, ◌>>=◌, ok_or, slice, truncated_header, truncated_section,
}
use rdwarfs.Format.Header.{SectionHeader, header_len, parse, section_len}

pub record SectionRef : Type 0 where
  pub file_offset : ℕ
  pub header : SectionHeader
  pub bytes : List ℕ

-- `SectionRef::payload`, whose slice panics on fewer bytes than a header has.
unfoldable pub payload : SectionRef → Result (List ℕ)
payload s = slice s.bytes header_len (length s.bytes)

pub record Sections : Type 0 where
  pub image : List ℕ
  pub cursor : ℕ
  pub done : Bool

unfoldable pub new : List ℕ → ℕ → Sections
new image base_offset = record { image = image; cursor = base_offset; done = false }

-- The rest of a step, once the header is parsed.
unfoldable pub section_of : List ℕ → ℕ → SectionHeader → Result (SectionRef × ℕ)
section_of image here header = do
  end ←
      ok_or (checked_end here (section_len header) (length image))
        (truncated_section header.number here)
  bytes ← slice image here end
  ok (record { file_offset = here; header = header; bytes = bytes }, end)

-- The section whose header starts at `here`, and where it ends.
unfoldable pub section_at : List ℕ → ℕ → Result (SectionRef × ℕ)
unfolding section_of
section_at image here =
    if ltb (length image) (here + header_len) then err (truncated_header here) else do
      header_bytes ← slice image here (here + header_len)
      header ← parse header_bytes here
      section_of image here header

-- `Iterator::next`: an error ends the iteration.
unfoldable pub next : Sections → Option (Result SectionRef) × Sections
next s =
    if s.done || leb (length s.image) s.cursor
    then (none, s)
    else elim (section_at s.image s.cursor) [
      | ok (item, end) ↦ (some (ok item), record s { cursor = end })
      | err e ↦ (some (err e), record s { done = true })
      | fault x ↦ (some (fault x), record s { done = true })
    ]

-- One item, and the rest from the state behind it.
pub continue :
    (Sections → List (Result SectionRef))
    → Option (Result SectionRef) × Sections
    → List (Result SectionRef)
continue rest (none, s) = []
continue rest (some item, s) = item ∷ rest s

-- Every item up to the end of the iteration, in a bounded number of rounds.
unfoldable pub collect : ℕ → Sections → List (Result SectionRef)
unfolding continue
collect zero s = fault out_of_fuel ∷ []
collect (suc fuel) s = continue (collect fuel) (next s)
