-- ===== src/Format/Image/Opening.antt =====
-- src/format/image.rs: opening an image over a source, a window of one, or bytes in memory.
use rdwarfs.Prelude.{
  ℕ, Option, List, ◌≡◌, ◌<◌, ◌≤◌, refl, sym, subst, ◌∙◌, All, IsByte, length, ◌+◌, isize_mod, arith,
}
use rdwarfs.Result.{Result, ok, ◌>>=◌, >>=-eq-ok}
use rdwarfs.Format.Source.Backing.{vec_source-Backs}
use rdwarfs.Format.Detect.Start.{IsStart}
use rdwarfs.Format.Detect.Least.{IsLeast, detect_base_offset-IsLeast}
use rdwarfs.Format.Sections.{new, collect}
use rdwarfs.Format.Image.Walking.{gather, walk_sections-collect}
use rdwarfs.Format.Source.{ImageSource, window, vec_source}
use rdwarfs.Format.Detect.Scan.{detect_base_offset_in}
use rdwarfs.Format.Detect.{detect_base_offset}
use rdwarfs.Format.Index.{SectionIndex}
use rdwarfs.Format.Index
use rdwarfs.Format.Image.{SectionRecord, walk_sections}

pub record Image : Type 0 where
  pub source : ImageSource
  pub base_offset : ℕ
  pub sections : List SectionRecord
  pub section_index : Option SectionIndex

unfoldable pub build : ImageSource → Result Image
build source = do
  base_offset ← detect_base_offset_in source
  sections ← walk_sections source base_offset
  section_index ← Index.from_source source base_offset
  ok (record {
    source = source;
    base_offset = base_offset;
    sections = sections;
    section_index = section_index;
  })

unfoldable pub from_window : ImageSource → ℕ → ℕ → Result Image
from_window source offset len = do shown ← window source offset len; build shown

unfoldable pub from_vec : List ℕ → Result Image
from_vec bytes = build (vec_source bytes)

detected : (bytes : List ℕ) → detect_base_offset_in (vec_source bytes) ≡ detect_base_offset bytes
unfolding detect_base_offset_in vec_source
detected bytes = refl

-- What an opened image over `bytes` is: at the least start of a section, with the sections that the
-- iterator over the bytes finds from there.
pub record IsOpened (bytes : List ℕ) (image : Image) : Type 0 where
  pub start : IsStart bytes image.base_offset
  pub least : (c : ℕ) → c < image.base_offset → ¬ IsStart bytes c
  pub sections :
      gather (collect (length bytes + 1) (new bytes image.base_offset)) ≡ ok image.sections
  pub section_index :
      Index.from_source (vec_source bytes) image.base_offset ≡ ok image.section_index

ok-injective : (i j : Image) → ok i ≡ ok j → i ≡ j
ok-injective i j e = cc

start-inside : (bytes : List ℕ) (c : ℕ) → IsStart bytes c → c ≤ length bytes
unfolding IsStart
start-inside bytes c s = omega (arith, s.0)

-- An image that opens over bytes in memory is based at the least offset at which a section starts, and
-- holds the sections that the iterator over the bytes collects from there, all of them good, and the
-- section index that the parser of the index answers there. The bytes are fewer than 2^63.
pub from_vec-IsOpened :
    (bytes : List ℕ) (image : Image)
    → All IsByte bytes
    → length bytes < isize_mod
    → from_vec bytes ≡ ok image
    → IsOpened bytes image
unfolding from_vec build
from_vec-IsOpened bytes image v f e =
    let (base, e1, rest1) = >>=-eq-ok (detect_base_offset_in (vec_source bytes)) _ e in
    let (sections, e2, rest2) = >>=-eq-ok (walk_sections (vec_source bytes) base) _ rest1 in
    let (section_index, e3, rest3) =
      >>=-eq-ok (Index.from_source (vec_source bytes) base) _ rest2 in
    let found : IsLeast bytes (ok base) =
      subst (IsLeast bytes) (sym (detected bytes) ∙ e1) (detect_base_offset-IsLeast bytes v) in
    let walked =
      sym (
        walk_sections-collect (vec_source bytes) bytes (vec_source-Backs bytes f) base v
          (start-inside bytes base found.0))
      ∙ e2 in
    subst (λ r. IsOpened bytes r) (ok-injective _ _ rest3)
      (record { start = found.0; least = found.1; sections = walked; section_index = e3 })
