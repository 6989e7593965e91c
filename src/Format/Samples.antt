-- ===== src/Format/Samples.antt =====
-- An image of one section, for the runs of the modules of src/format.
use rdwarfs.Prelude.{
  ℕ, ◌≡◌, Bool, true, ◌&&◌, List, [], ◌∷◌, ◌++◌, All, IsByte, ltb, replicate, arith, refl,
}
use rdwarfs.Bytes.{to_le_bytes}
use rdwarfs.Format.SectionType
use rdwarfs.Format.Compression
use rdwarfs.Format.Header.{SectionHeader, IsValid, write}

abbrev pub sample : SectionHeader
sample = record {
  major = 2;
  minor = 5;
  sha512_256 = replicate 32 7;
  xxh3_64 = 4660;
  number = 3;
  section_type = SectionType.metadata_v2;
  compression = Compression.none;
  payload_len = 4;
}

abbrev pub sample_payload : List ℕ
sample_payload = 9 ∷ 8 ∷ 7 ∷ 6 ∷ []

unfoldable pub sample_image : List ℕ
sample_image = write sample ++ sample_payload

abbrev pub are_bytes : List ℕ → Bool
are_bytes [] = true
are_bytes (b ∷ bs) = ltb b 256 && are_bytes bs

pub are_bytes-All : (bs : List ℕ) → are_bytes bs ≡ true → All IsByte bs
are_bytes-All [] e = tt
are_bytes-All (b ∷ bs) e = (ground arith, are_bytes-All bs (ground arith))

pub sample-IsValid : IsValid sample
unfolding SectionType.from_u16 SectionType.as_u16 Compression.from_u16 Compression.as_u16
sample-IsValid = record {
  major = refl;
  minor = omega arith;
  sha_len = refl;
  sha_bytes = are_bytes-All sample.sha512_256 refl;
  xxh3_64 = omega arith;
  number = omega arith;
  section_type = (refl, omega arith);
  compression = (refl, omega arith);
  payload_len = omega arith;
}

pub sample_image-IsByte : All IsByte sample_image
unfolding sample_image write to_le_bytes SectionType.as_u16 Compression.as_u16
sample_image-IsByte = are_bytes-All sample_image refl
