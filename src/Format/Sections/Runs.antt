-- ===== src/Format/Sections/Runs.antt =====
-- The walks' theorems on an image of one section.
use rdwarfs.Prelude.{ℕ, ◌≡◌, ◌++◌, ◌+◌, ◌-◌, List, [], ◌∷◌, arith, length, map, refl}
use rdwarfs.Result.{ok}
use rdwarfs.Bytes.{to_le_bytes}
use rdwarfs.Format.SectionType
use rdwarfs.Format.Compression
use rdwarfs.Format.Samples.{
  sample, sample_payload, sample_image, sample_image-IsByte, sample-IsValid,
}
use rdwarfs.Format.Header.{write}
use rdwarfs.Format.Sections.{new, collect}
use rdwarfs.Format.Sections.Walk.{IsWalk, collect-IsWalk}
use rdwarfs.Format.Sections.Encoded.{Written, encode_section, encode_all, refs, collect-encode_all}

abbrev stub : List ℕ
stub = b'#' ∷ b'!' ∷ []

abbrev written : List Written
written = (sample, sample_payload) ∷ []

collect-encode_all_example :
    collect 2 (new (stub ++ encode_all written) 2) ≡ map ok (refs 2 written)
unfolding encode_all encode_section write to_le_bytes SectionType.as_u16 Compression.as_u16
collect-encode_all_example =
    collect-encode_all written stub ((sample-IsValid, refl), tt) (omega arith)

collect-IsWalk_example :
    IsWalk sample_image 0 (collect (length sample_image - 0 + 1) (new sample_image 0))
collect-IsWalk_example = collect-IsWalk sample_image 0 sample_image-IsByte (omega arith)
