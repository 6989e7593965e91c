-- ===== src/Format/Header/Parse.antt =====
-- The header parser on any input: it never indexes out of bounds, what it returns is valid, and it
-- answers each defect with the error for it.
use rdwarfs.Prelude.{
  ℕ, ◌-◌, ◌≤◌, ◌<◌, ◌^◌, ◌≡◌, refl, false, not, ◌||◌, ◌==◌, List, length, take, drop, All, IsByte,
  All-take, All-drop, length-take, length-drop, get_elem?, get_elem?_lt, ltb, ge→ltb, ltb→ge, subst,
  ap, ◌∙◌, Bool-cases, inl, inr, some, arith, if◌then◌else◌,
}
use rdwarfs.Result.{
  ok, err, Ensures, Ensures-if, index_lem, slice_lem, bad_magic, unsupported_version,
}
use rdwarfs.Bytes.{from_le_bytes, from_le_bytes-lt, bytes_eq}
use rdwarfs.Format.SectionType
use rdwarfs.Format.Compression
use rdwarfs.Format.Header.{
  SectionHeader, parse, parse_version, parse_fields, magic, header_len, IsValid, supported_major,
  supported_minor,
}

-- Bytes `from` up to `to`, the range of a field.
abbrev pub field : List ℕ → ℕ → ℕ → List ℕ
field bytes from to = take (to - from) (drop from bytes)

-- The header that the fields of `bytes` spell.
abbrev pub header_of : List ℕ → ℕ → ℕ → SectionHeader
header_of bytes major minor = record {
  major = major;
  minor = minor;
  sha512_256 = field bytes 0x08 0x28;
  xxh3_64 = from_le_bytes (field bytes 0x28 0x30);
  number = from_le_bytes (field bytes 0x30 0x34);
  section_type = SectionType.from_u16 (from_le_bytes (field bytes 0x34 0x36));
  compression = Compression.from_u16 (from_le_bytes (field bytes 0x36 0x38));
  payload_len = from_le_bytes (field bytes 0x38 0x40);
}

pub parse_fields_lem :
    (bytes : List ℕ) (major minor : ℕ)
    → header_len ≤ length bytes
    → parse_fields bytes major minor ≡ ok (header_of bytes major minor)
unfolding parse_fields
parse_fields_lem bytes major minor h = rw (
  slice_lem bytes 0x08 0x28 (omega arith) (omega arith),
  slice_lem bytes 0x28 0x30 (omega arith) (omega arith),
  slice_lem bytes 0x30 0x34 (omega arith) (omega arith),
  slice_lem bytes 0x34 0x36 (omega arith) (omega arith),
  slice_lem bytes 0x36 0x38 (omega arith) (omega arith),
  slice_lem bytes 0x38 0x40 (omega arith) (omega arith),
)

-- What the parser answers, in one equation: its checks in their order.
pub parse_cases :
    (bytes : List ℕ) (offset major minor : ℕ)
    → header_len ≤ length bytes
    → get_elem? bytes 6 ≡ some major
    → get_elem? bytes 7 ≡ some minor
    → parse bytes offset ≡ (
        if not (bytes_eq (take 6 bytes) magic)
        then err (bad_magic offset)
        else if not (major == supported_major) || ltb supported_minor minor
        then err (unsupported_version major minor)
        else ok (header_of bytes major minor))
unfolding parse parse_version
parse_cases bytes offset major minor h e6 e7 = rw (
  ge→ltb (length bytes) header_len h,
  slice_lem bytes 0 6 (omega arith) (omega arith),
  index_lem bytes 6 major e6,
  index_lem bytes 7 minor e7,
  parse_fields_lem bytes major minor h,
)

field-IsByte : (bytes : List ℕ) (from to : ℕ) → All IsByte bytes → All IsByte (field bytes from to)
field-IsByte bytes from to h = All-take IsByte _ _ (All-drop IsByte from bytes h)

pub length-field :
    (bytes : List ℕ) (from to : ℕ) → to ≤ length bytes → length (field bytes from to) ≡ to - from
length-field bytes from to h =
    omega (arith, length-take (to - from) (drop from bytes), length-drop from bytes)

field-lt :
    (bytes : List ℕ) (from to width bound : ℕ)
    → All IsByte bytes
    → to ≤ length bytes
    → to - from ≡ width
    → 256 ^ width ≡ bound
    → from_le_bytes (field bytes from to) < bound
field-lt bytes from to width bound b h e p =
    let fits = from_le_bytes-lt (field bytes from to) (field-IsByte bytes from to b) in
    subst (λ (n : ℕ). from_le_bytes (field bytes from to) < n)
      (ap (λ (n : ℕ). 256 ^ n) (length-field bytes from to h ∙ e) ∙ p) fits

header_of-IsValid :
    (bytes : List ℕ) (major minor : ℕ)
    → All IsByte bytes
    → header_len ≤ length bytes
    → major ≡ supported_major
    → minor ≤ supported_minor
    → IsValid (header_of bytes major minor)
header_of-IsValid bytes major minor b h e p = record {
  major = e;
  minor = p;
  sha_len = length-field bytes 0x08 0x28 (omega arith);
  sha_bytes = field-IsByte bytes 0x08 0x28 b;
  xxh3_64 = field-lt bytes 0x28 0x30 8 _ b (omega arith) refl refl;
  number = field-lt bytes 0x30 0x34 4 _ b (omega arith) refl refl;
  section_type =
      SectionType.from_u16-IsCanonical _ (field-lt bytes 0x34 0x36 2 _ b (omega arith) refl refl);
  compression =
      Compression.from_u16-IsCanonical _ (field-lt bytes 0x36 0x38 2 _ b (omega arith) refl refl);
  payload_len = field-lt bytes 0x38 0x40 8 _ b (omega arith) refl refl;
}

version_ok :
    (major minor : ℕ)
    → (not (major == supported_major) || ltb supported_minor minor) ≡ false
    → (major ≡ supported_major) × (minor ≤ supported_minor)
version_ok major minor h = ground arith

parse_long-IsValid :
    (bytes : List ℕ) (offset : ℕ)
    → All IsByte bytes
    → header_len ≤ length bytes
    → Ensures IsValid (parse bytes offset)
parse_long-IsValid bytes offset b h =
    let (major, e6) = get_elem?_lt bytes 6 (omega arith) in
    let (minor, e7) = get_elem?_lt bytes 7 (omega arith) in
    rw (parse_cases bytes offset major minor h e6 e7) (
      Ensures-if IsValid (not (bytes_eq (take 6 bytes) magic)) _ _ (λ _. tt)
        (λ _.
          Ensures-if IsValid (not (major == supported_major) || ltb supported_minor minor) _ _
            (λ _. tt)
            (λ v.
              let (e, p) = version_ok major minor v in
              header_of-IsValid bytes major minor b h e p)))

-- On every byte string the parser returns without a fault, and a header that it accepts is valid:
-- a supported version, hashes and numbers in the range of their fields.
pub parse-IsValid :
    (bytes : List ℕ) (offset : ℕ) → All IsByte bytes → Ensures IsValid (parse bytes offset)
parse-IsValid bytes offset b = elim (Bool-cases (ltb (length bytes) header_len)) [
  | inl short ↦ unfold parse in rw short tt
  | inr long ↦ parse_long-IsValid bytes offset b (ltb→ge (length bytes) header_len long)
]
