-- ===== src/Format/Integrity/Seal.antt =====
-- What the two checks accept, and that a section sealed with its hashes passes both.
use rdwarfs.Prelude.{
  ℕ, ◌≤◌, ◌<◌, ◌≡◌, refl, ap, ◌↔◌, List, ◌++◌, length, drop, length-append, ◌==◌, if◌then◌else◌,
  arith, u64_mod, All, IsByte,
}
use rdwarfs.Result.{slice_to_end, ok, err, integrity_mismatch}
use rdwarfs.Format.SectionType
use rdwarfs.Format.Compression
use rdwarfs.Bytes.{to_le_bytes, bytes_eq, bytes_eq_refl, bytes_eq-eq}
use rdwarfs.Format.Header.{SectionHeader, header_len, write, IsValid}
use rdwarfs.Format.Header.RoundTrip.{
  length-write, behind_sha, behind_xxh3, after_xxh3, from_number, from_xxh3,
}
use rdwarfs.Format.Integrity.{
  Hashes, sha_cover_start, xxh_cover_start, verify_xxh3, verify_sha512_256, verify,
}

-- What the crates document of their hashes: 64 bits, and 32 bytes.
pub record HasRanges (hashes : Hashes) : Type 0 where
  pub xxh3_64 : (bytes : List ℕ) → hashes.xxh3_64 bytes < u64_mod
  pub sha_len : (bytes : List ℕ) → length (hashes.sha512_256 bytes) ≡ 32
  pub sha_bytes : (bytes : List ℕ) → All IsByte (hashes.sha512_256 bytes)

-- What both hashes are taken of, field by field.
unfoldable pub covered : SectionHeader → List ℕ → List ℕ
covered h payload =
    to_le_bytes 4 h.number
    ++ (to_le_bytes 2 (SectionType.as_u16 h.section_type)
        ++ (to_le_bytes 2 (Compression.as_u16 h.compression)
            ++ (to_le_bytes 8 h.payload_len ++ payload)))

module _ (hashes : Hashes) where
  verify_xxh3_lem :
      (header : SectionHeader) (bytes : List ℕ)
      → header_len ≤ length bytes
      → verify_xxh3 hashes header bytes ≡ (
          if hashes.xxh3_64 (drop xxh_cover_start bytes) == header.xxh3_64
          then ok tt
          else err (integrity_mismatch header.number "xxh3"))
  unfolding verify_xxh3
  verify_xxh3_lem header bytes h = rw (slice_to_end bytes xxh_cover_start (omega arith))

  verify_sha512_256_lem :
      (header : SectionHeader) (bytes : List ℕ)
      → header_len ≤ length bytes
      → verify_sha512_256 hashes header bytes ≡ (
          if bytes_eq (hashes.sha512_256 (drop sha_cover_start bytes)) header.sha512_256
          then ok tt
          else err (integrity_mismatch header.number "sha512_256"))
  unfolding verify_sha512_256
  verify_sha512_256_lem header bytes h = rw (slice_to_end bytes sha_cover_start (omega arith))

  verify-drop :
      (header : SectionHeader) (bytes : List ℕ)
      → header_len ≤ length bytes
      → (verify hashes header bytes ≡ ok tt) ↔ (
          (hashes.xxh3_64 (drop xxh_cover_start bytes) ≡ header.xxh3_64)
          × (hashes.sha512_256 (drop sha_cover_start bytes) ≡ header.sha512_256))
  unfolding verify
  verify-drop header bytes h =
      rw (verify_xxh3_lem header bytes h, verify_sha512_256_lem header bytes h)
        (ground (
          arith,
          bytes_eq-eq (hashes.sha512_256 (drop sha_cover_start bytes)) header.sha512_256,
          bytes_eq_refl (hashes.sha512_256 (drop sha_cover_start bytes)),
        ))

  -- `verify` accepts a written section with a valid header exactly when the recorded XXH3-64 is that of the
  -- section number, the type, the compression, the payload's length and the payload, in that order and
  -- encoding, and the recorded SHA-512/256 is that of the recorded XXH3-64 and the same. The magic and the
  -- version are in neither.
  pub verify_iff :
      (header : SectionHeader) (payload : List ℕ)
      → IsValid header
      → (verify hashes header (write header ++ payload) ≡ ok tt) ↔ (
          (hashes.xxh3_64 (covered header payload) ≡ header.xxh3_64)
          × (hashes.sha512_256 (to_le_bytes 8 header.xxh3_64 ++ covered header payload)
              ≡ header.sha512_256))
  unfolding covered after_xxh3 to_le_bytes
  verify_iff header payload v =
      rw (from_number header payload v, from_xxh3 header payload v) at
        (verify-drop header (write header ++ payload)
          (omega (arith, length-append (write header) payload, length-write header v)))

  -- The hashes of a section, recorded the way a writer must: first the XXH3-64, then the SHA-512/256
  -- over a range that holds it.
  unfoldable pub with_xxh3 : SectionHeader → List ℕ → SectionHeader
  with_xxh3 h payload = record h {
    xxh3_64 = hashes.xxh3_64 (drop xxh_cover_start (write h ++ payload));
  }

  unfoldable pub seal : SectionHeader → List ℕ → SectionHeader
  unfolding with_xxh3
  seal h payload = record (with_xxh3 h payload) {
    sha512_256 = hashes.sha512_256 (drop sha_cover_start (write (with_xxh3 h payload) ++ payload));
  }

  with_xxh3-IsValid :
      (h : SectionHeader) (payload : List ℕ)
      → HasRanges hashes
      → IsValid h
      → IsValid (with_xxh3 h payload)
  unfolding with_xxh3
  with_xxh3-IsValid h payload r v = record {
    major = v.major;
    minor = v.minor;
    sha_len = v.sha_len;
    sha_bytes = v.sha_bytes;
    xxh3_64 = r.xxh3_64 _;
    number = v.number;
    section_type = v.section_type;
    compression = v.compression;
    payload_len = v.payload_len;
  }

  pub seal-IsValid :
      (h : SectionHeader) (payload : List ℕ)
      → HasRanges hashes
      → IsValid h
      → IsValid (seal h payload)
  unfolding seal
  seal-IsValid h payload r v =
      let w = with_xxh3-IsValid h payload r v in
      record {
        major = w.major;
        minor = w.minor;
        sha_len = r.sha_len _;
        sha_bytes = r.sha_bytes _;
        xxh3_64 = w.xxh3_64;
        number = w.number;
        section_type = w.section_type;
        compression = w.compression;
        payload_len = w.payload_len;
      }

  -- A section whose header is sealed with the hashes of its bytes passes both checks, whatever valid header
  -- it had and whatever its payload. The hash functions answer in the ranges of their results.
  pub verify-seal :
      (h : SectionHeader) (payload : List ℕ)
      → HasRanges hashes
      → IsValid h
      → verify hashes (seal h payload) (write (seal h payload) ++ payload) ≡ ok tt
  unfolding seal
  verify-seal h payload r v =
      (verify-drop (seal h payload) (write (seal h payload) ++ payload) long).1 (
        ap hashes.xxh3_64 (behind_xxh3 h (seal h payload) payload v sealed refl),
        ap hashes.sha512_256 (
            behind_sha (with_xxh3 h payload) (seal h payload) payload
              (with_xxh3-IsValid h payload r v) sealed refl),
      )
    where
      sealed : IsValid (seal h payload)
      sealed = seal-IsValid h payload r v

      long : header_len ≤ length (write (seal h payload) ++ payload)
      long = omega (
        arith,
        length-append (write (seal h payload)) payload,
        length-write (seal h payload) sealed,
      )
