-- ===== src/Format/Integrity.antt =====
-- src/format/integrity.rs: the two hashes of a section. The hash functions are the crates' sha2 and
-- xxhash-rust, and a parameter here.
pub mod Seal
mod Runs
use rdwarfs.Prelude.{ℕ, ◌+◌, ◌≡◌, List, length, Bool, ◌==◌, if◌then◌else◌}
use rdwarfs.Result.{Result, ok, err, ◌>>=◌, ◌>>◌, slice, integrity_mismatch}
use rdwarfs.Bytes.{bytes_eq}
use rdwarfs.Format.Header.{SectionHeader}

abbrev pub sha_cover_start : ℕ
sha_cover_start = 0x28

abbrev pub xxh_cover_start : ℕ
xxh_cover_start = 0x30

-- `xxh3_64` of xxhash-rust, and `Sha512_256` of sha2 from `new` to `finalize`.
pub record Hashes : Type 0 where
  pub xxh3_64 : List ℕ → ℕ
  pub sha512_256 : List ℕ → List ℕ

module _ (hashes : Hashes) where
  -- `&section_bytes[XXH_COVER_START..]` panics on a section without a header.
  unfoldable pub compute_xxh3 : List ℕ → Result ℕ
  compute_xxh3 section_bytes = do
    covered ← slice section_bytes xxh_cover_start (length section_bytes)
    ok (hashes.xxh3_64 covered)

  unfoldable pub compute_sha512_256 : List ℕ → Result (List ℕ)
  compute_sha512_256 section_bytes = do
    covered ← slice section_bytes sha_cover_start (length section_bytes)
    ok (hashes.sha512_256 covered)

  unfoldable pub verify_xxh3 : SectionHeader → List ℕ → Result (Unit {0})
  unfolding compute_xxh3
  verify_xxh3 header section_bytes = do
    computed ← compute_xxh3 section_bytes
    if computed == header.xxh3_64 then ok tt else err (integrity_mismatch header.number "xxh3")

  unfoldable pub verify_sha512_256 : SectionHeader → List ℕ → Result (Unit {0})
  unfolding compute_sha512_256
  verify_sha512_256 header section_bytes = do
    computed ← compute_sha512_256 section_bytes
    if bytes_eq computed header.sha512_256
        then ok tt
        else err (integrity_mismatch header.number "sha512_256")

  unfoldable pub verify : SectionHeader → List ℕ → Result (Unit {0})
  unfolding verify_xxh3 verify_sha512_256
  verify header section_bytes = do
    verify_xxh3 header section_bytes
    verify_sha512_256 header section_bytes
