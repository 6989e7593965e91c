-- ===== src/Format/Integrity/Runs.antt =====
-- The checks' theorems with two hashes that are functions: a length, and a block of that length.
use rdwarfs.Prelude.{
  ℕ, zero, suc, ◌≡◌, ◌↔◌, ◌++◌, ◌%◌, arith, length, replicate, length-replicate, All, IsByte,
  u64_mod,
}
use rdwarfs.Result.{ok}
use rdwarfs.Bytes.{to_le_bytes}
use rdwarfs.Format.Samples.{sample, sample_payload, sample-IsValid}
use rdwarfs.Format.Header.{write}
use rdwarfs.Format.Integrity.{Hashes, verify}
use rdwarfs.Format.Integrity.Seal.{covered, HasRanges, seal, verify_iff, verify-seal}

abbrev lengths : Hashes
lengths = record {
  xxh3_64 = λ bytes. length bytes % u64_mod;
  sha512_256 = λ bytes. replicate 32 (length bytes % 256);
}

replicate-IsByte : (n b : ℕ) → IsByte b → All IsByte (replicate n b)
replicate-IsByte zero b h = tt
replicate-IsByte (suc n) b h = (h, replicate-IsByte n b h)

lengths-HasRanges : HasRanges lengths
lengths-HasRanges = record {
  xxh3_64 = λ bytes. omega arith;
  sha_len = λ bytes. length-replicate 32 (length bytes % 256);
  sha_bytes = λ bytes. replicate-IsByte 32 (length bytes % 256) (omega arith);
}

verify-seal_example :
    verify lengths
      (seal lengths sample sample_payload)
      (write (seal lengths sample sample_payload) ++ sample_payload)
    ≡ ok tt
verify-seal_example = verify-seal lengths sample sample_payload lengths-HasRanges sample-IsValid

verify_iff_example : (verify lengths sample (write sample ++ sample_payload) ≡ ok tt) ↔ (
    (length (covered sample sample_payload) % u64_mod ≡ 4660)
    × (replicate 32 (length (to_le_bytes 8 4660 ++ covered sample sample_payload) % 256)
        ≡ replicate 32 7))
verify_iff_example = verify_iff lengths sample sample_payload sample-IsValid
