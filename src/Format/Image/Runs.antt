-- ===== src/Format/Image/Runs.antt =====
-- Opening and walking an image of one section.
use rdwarfs.Prelude.{◌≡◌, [], ◌∷◌, ◌+◌, arith, length, refl, none}
use rdwarfs.Result.{ok, index, slice}
use rdwarfs.Bytes.{to_le_bytes, from_le_bytes, bytes_eq}
use rdwarfs.Format.SectionType
use rdwarfs.Format.Compression
use rdwarfs.Format.Samples.{sample, sample_image, sample_image-IsByte}
use rdwarfs.Format.Header.{write, parse, parse_version, parse_fields}
use rdwarfs.Format.Header as Header
use rdwarfs.Format.Source.{vec_source, slice_at}
use rdwarfs.Format.Source.Backing.{vec_source-Backs}
use rdwarfs.Format.Sections.{new, collect}
use rdwarfs.Format.Detect.{
  shifted, find_magic, magic_up_to, is_boundary, follows_a_section_boundary, confirmed, judge,
  judge_magic, resume, detect_loop, detect_base_offset,
}
use rdwarfs.Format.Detect.Scan.{detect_base_offset_in}
use rdwarfs.Format.Index as Index
use rdwarfs.Format.Image.{record_of, record_at, walk_loop, walk_sections}
use rdwarfs.Format.Image.Walking.{gather, walk_sections-collect}
use rdwarfs.Format.Image.Opening.{Image, build, from_vec, IsOpened, from_vec-IsOpened}

walk_sections-collect_example :
    walk_sections (vec_source sample_image) 0
    ≡ gather (collect (length sample_image + 1) (new sample_image 0))
unfolding sample_image write to_le_bytes SectionType.as_u16 Compression.as_u16
walk_sections-collect_example =
    walk_sections-collect (vec_source sample_image) sample_image
      (vec_source-Backs sample_image (omega arith)) 0 sample_image-IsByte (omega arith)

abbrev opened : Image
opened = record {
  source = vec_source sample_image;
  base_offset = 0;
  sections = record { file_offset = 0; header = sample } ∷ [];
  section_index = none;
}

sample_opens : from_vec sample_image ≡ ok opened
unfolding from_vec build sample_image write to_le_bytes from_le_bytes bytes_eq SectionType.as_u16
    SectionType.from_u16 Compression.as_u16 Compression.from_u16 index slice parse parse_version
    parse_fields Header.section_len vec_source slice_at shifted find_magic magic_up_to is_boundary
    follows_a_section_boundary confirmed judge judge_magic resume detect_loop detect_base_offset
    detect_base_offset_in Index.from_source Index.type_bits record_of record_at walk_loop
    walk_sections
sample_opens = refl

from_vec-IsOpened_example : IsOpened sample_image opened
unfolding sample_image write to_le_bytes SectionType.as_u16 Compression.as_u16
from_vec-IsOpened_example =
    from_vec-IsOpened sample_image opened sample_image-IsByte (omega arith) sample_opens
