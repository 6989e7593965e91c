-- ===== src/Format/Header/RoundTrip.antt =====
-- The writer and the parser are inverse to one another.
use rdwarfs.Prelude.{
  ℕ, ◌+◌, ◌≤◌, ◌≡◌, refl, sym, ap, ◌∙◌, List, ◌∷◌, ◌++◌, length, take, drop, length-append,
  drop_past, take_exact, append_assoc, arith, true, false, not, ◌||◌, ◌==◌, ltb,
}
use rdwarfs.Result.{ok}
use rdwarfs.Bytes.{to_le_bytes, from_le_bytes-to_le_bytes, bytes_eq}
use rdwarfs.Format.SectionType
use rdwarfs.Format.Compression
use rdwarfs.Format.Header.{
  SectionHeader, parse, write, magic, header_len, IsValid, supported_major, supported_minor,
}
use rdwarfs.Format.Header.Parse.{field, header_of, parse_cases}

-- What stands before the hashes, and behind them.
front : SectionHeader → List ℕ
front h = magic ++ (h.major ∷ h.minor ∷ h.sha512_256)

tail : SectionHeader → List ℕ
tail h =
    to_le_bytes 8 h.xxh3_64
    ++ (to_le_bytes 4 h.number
        ++ (to_le_bytes 2 (SectionType.as_u16 h.section_type)
            ++ (to_le_bytes 2 (Compression.as_u16 h.compression) ++ to_le_bytes 8 h.payload_len)))

module _ (h : SectionHeader) (rest : List ℕ) (v : IsValid h) where
  layout : write h ++ rest ≡ front h ++ (tail h ++ rest)
  unfolding write front tail
  layout = rw (append_assoc h.sha512_256)

  length-front : length (front h) ≡ 40
  unfolding front
  length-front = omega (arith, v.sha_len)

  behind : (n k : ℕ) → n ≡ 40 + k → drop n (write h ++ rest) ≡ drop k (tail h ++ rest)
  behind n k e = rw layout (drop_past (front h) (tail h ++ rest) n k (omega (arith, length-front)))

  header_len-le : header_len ≤ length (write h ++ rest)
  unfolding tail to_le_bytes
  header_len-le = rw layout (omega (arith, length-append (front h) (tail h ++ rest), length-front))

  sha_field : field (write h ++ rest) 0x08 0x28 ≡ h.sha512_256
  unfolding front
  sha_field = rw layout (take_exact h.sha512_256 (tail h ++ rest) 32 (sym v.sha_len))

  xxh3_field : field (write h ++ rest) 0x28 0x30 ≡ to_le_bytes 8 h.xxh3_64
  unfolding tail to_le_bytes
  xxh3_field = rw (behind 0x28 0 refl)

  number_field : field (write h ++ rest) 0x30 0x34 ≡ to_le_bytes 4 h.number
  unfolding tail to_le_bytes
  number_field = rw (behind 0x30 8 refl)

  section_type_field :
      field (write h ++ rest) 0x34 0x36 ≡ to_le_bytes 2 (SectionType.as_u16 h.section_type)
  unfolding tail to_le_bytes
  section_type_field = rw (behind 0x34 12 refl)

  compression_field :
      field (write h ++ rest) 0x36 0x38 ≡ to_le_bytes 2 (Compression.as_u16 h.compression)
  unfolding tail to_le_bytes
  compression_field = rw (behind 0x36 14 refl)

  payload_len_field : field (write h ++ rest) 0x38 0x40 ≡ to_le_bytes 8 h.payload_len
  unfolding tail to_le_bytes
  payload_len_field = rw (behind 0x38 16 refl)

  header_of-write : header_of (write h ++ rest) h.major h.minor ≡ h
  header_of-write = rw (
    sha_field,
    xxh3_field,
    number_field,
    section_type_field,
    compression_field,
    payload_len_field,
    from_le_bytes-to_le_bytes 8 h.xxh3_64 v.xxh3_64,
    from_le_bytes-to_le_bytes 4 h.number v.number,
    from_le_bytes-to_le_bytes 2 (SectionType.as_u16 h.section_type) v.section_type.1,
    from_le_bytes-to_le_bytes 2 (Compression.as_u16 h.compression) v.compression.1,
    from_le_bytes-to_le_bytes 8 h.payload_len v.payload_len,
    v.section_type.0,
    v.compression.0,
  )

  accepted : (not (h.major == supported_major) || ltb supported_minor h.minor) ≡ false
  accepted = ground (arith, v.major, v.minor)

-- A valid header is read back as it was written, whatever bytes follow it.
pub parse-write :
    (h : SectionHeader) (rest : List ℕ) (offset : ℕ)
    → IsValid h
    → parse (write h ++ rest) offset ≡ ok h
parse-write h rest offset v =
    parse_cases (write h ++ rest) offset h.major h.minor (header_len-le h rest v)
      (unfold write in refl) (unfold write in refl)
    ∙ rw (prefix_is_magic, accepted h rest v) (ap ok (header_of-write h rest v))
  where
    prefix_is_magic : bytes_eq (take 6 (write h ++ rest)) magic ≡ true
    prefix_is_magic = unfold write bytes_eq in refl

length-tail : (h : SectionHeader) → length (tail h) ≡ 24
unfolding tail to_le_bytes
length-tail h = refl

pub length-write : (h : SectionHeader) → IsValid h → length (write h) ≡ header_len
unfolding write tail to_le_bytes
length-write h v = omega (arith, v.sha_len, length-append h.sha512_256 (tail h), length-tail h)

-- What stands behind the XXH3-64 field.
unfoldable pub after_xxh3 : SectionHeader → List ℕ
after_xxh3 h =
    to_le_bytes 4 h.number
    ++ (to_le_bytes 2 (SectionType.as_u16 h.section_type)
        ++ (to_le_bytes 2 (Compression.as_u16 h.compression) ++ to_le_bytes 8 h.payload_len))

-- The range of the SHA-512/256 holds every field behind it, the other hash included.
pub behind_sha :
    (h g : SectionHeader) (rest : List ℕ)
    → IsValid h
    → IsValid g
    → g ≡ record h { sha512_256 = g.sha512_256 }
    → drop 0x28 (write g ++ rest) ≡ drop 0x28 (write h ++ rest)
unfolding tail
behind_sha h g rest v w e =
    behind g rest w 0x28 0 refl
    ∙ ap (λ (k : SectionHeader). tail k ++ rest) e
    ∙ sym (behind h rest v 0x28 0 refl)

-- The range of the XXH3-64 holds every field behind it and no hash.
pub behind_xxh3 :
    (h g : SectionHeader) (rest : List ℕ)
    → IsValid h
    → IsValid g
    → g ≡ record h { sha512_256 = g.sha512_256; xxh3_64 = g.xxh3_64 }
    → drop 0x30 (write g ++ rest) ≡ drop 0x30 (write h ++ rest)
unfolding tail to_le_bytes after_xxh3
behind_xxh3 h g rest v w e =
    behind g rest w 0x30 8 refl
    ∙ ap (λ (k : SectionHeader). after_xxh3 k ++ rest) e
    ∙ sym (behind h rest v 0x30 8 refl)

pub from_number :
    (h : SectionHeader) (rest : List ℕ)
    → IsValid h
    → drop 0x30 (write h ++ rest) ≡ after_xxh3 h ++ rest
unfolding tail to_le_bytes after_xxh3
from_number h rest v = behind h rest v 0x30 8 refl

pub from_xxh3 :
    (h : SectionHeader) (rest : List ℕ)
    → IsValid h
    → drop 0x28 (write h ++ rest) ≡ to_le_bytes 8 h.xxh3_64 ++ (after_xxh3 h ++ rest)
unfolding tail to_le_bytes after_xxh3
from_xxh3 h rest v = behind h rest v 0x28 0 refl
