-- ===== src/Format/SectionType.antt =====
-- src/format/types.rs: the type of a section.
use rdwarfs.Prelude.{ℕ, ◌<◌, ◌≡◌, ◌↔◌, Bool, true, false, ◌==◌, if◌then◌else◌, u16_mod, arith}

pub data SectionType : Type 0 where
  block metadata_v2_schema metadata_v2 section_index history : SectionType
  unknown : ℕ → SectionType

unfoldable pub from_u16 : ℕ → SectionType
from_u16 value =
    if value == 0
    then block
    else if value == 7
    then metadata_v2_schema
    else if value == 8
    then metadata_v2
    else if value == 9
    then section_index
    else if value == 10
    then history
    else unknown value

unfoldable pub as_u16 : SectionType → ℕ
as_u16 block = 0
as_u16 metadata_v2_schema = 7
as_u16 metadata_v2 = 8
as_u16 section_index = 9
as_u16 history = 10
as_u16 (unknown value) = value

-- The derived `==`.
unfoldable pub eq : SectionType → SectionType → Bool
eq block block = true
eq metadata_v2_schema metadata_v2_schema = true
eq metadata_v2 metadata_v2 = true
eq section_index section_index = true
eq history history = true
eq (unknown a) (unknown b) = a == b
eq _ _ = false

-- A value of the type that stands for the number it is stored as: an unknown type is stored as a
-- number that no known type has.
abbrev pub IsCanonical : SectionType → Type 0
IsCanonical t = (from_u16 (as_u16 t) ≡ t) × (as_u16 t < u16_mod)

-- Every raw value survives the reading of it, known or not.
pub as_u16-from_u16 : (value : ℕ) → as_u16 (from_u16 value) ≡ value
unfolding as_u16 from_u16
as_u16-from_u16 value = ground arith

pub from_u16-IsCanonical : (value : ℕ) → value < u16_mod → IsCanonical (from_u16 value)
from_u16-IsCanonical value h = (rw (as_u16-from_u16 value), rw (as_u16-from_u16 value) h)

pub eq_iff : (a b : SectionType) → (eq a b ≡ true) ↔ (a ≡ b)
unfolding eq
eq_iff a b = ground arith
