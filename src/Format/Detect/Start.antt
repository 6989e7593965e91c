-- ===== src/Format/Detect/Start.antt =====
-- Where a section starts, and that it starts at a magic.
use rdwarfs.Prelude.{
  ℕ, zero, suc, ◌+◌, ◌<◌, ◌≤◌, ◌≡◌, refl, sym, ap, ◌∙◌, Bool, true, false, Option, none, some, List,
  [], ◌∷◌, length, take, drop, ltb, ◌==◌, checked_add, arith, Bool-cases, Option-cases, inl, inr,
  ltb→ge, length-drop, length-take, take-take, get_elem?_lt,
}
use rdwarfs.Result.{ok, err, Succeeds, Succeeds-if, slice_lem, bad_magic}
use rdwarfs.Bytes.{bytes_eq}
use rdwarfs.Format.Header.{SectionHeader, header_len, magic, parse}
use rdwarfs.Format.Header.Parse.{parse_cases}
use rdwarfs.Format.Detect.{
  shifted, find_magic, magic_up_to, is_boundary, follows_a_section_boundary,
}

-- A section starts at `c`: a header that parses, followed by the end of the image or by a magic.
unfoldable pub IsStart : List ℕ → ℕ → Type 0
IsStart image c =
    (c + header_len ≤ length image)
    × ((header : SectionHeader) × (parse (take header_len (drop c image)) c ≡ ok header)
        × (follows_a_section_boundary image c header ≡ ok true))

-- Where the magic stands, and where it does not.
unfoldable pub has_magic : List ℕ → ℕ → Bool
has_magic xs i = bytes_eq (take 6 (drop i xs)) magic

unfoldable pub IsFirst : List ℕ → Option ℕ → Type 0
IsFirst xs none = (i : ℕ) → has_magic xs i ≡ false
IsFirst xs (some rel) = (i : ℕ) → i < rel → has_magic xs i ≡ false

IsFirst-suc :
    (b : ℕ) (bs : List ℕ) (o : Option ℕ)
    → has_magic (b ∷ bs) 0 ≡ false
    → IsFirst bs o
    → IsFirst (b ∷ bs) (shifted o)
unfolding IsFirst has_magic shifted
IsFirst-suc b bs none e h = behind
  where
    behind : (i : ℕ) → has_magic (b ∷ bs) i ≡ false
    behind zero = e
    behind (suc i) = h i
IsFirst-suc b bs (some rel) e h = behind
  where
    behind : (i : ℕ) → i < suc rel → has_magic (b ∷ bs) i ≡ false
    behind zero l = e
    behind (suc i) l = h i (omega arith)

pub find_magic-IsFirst : (xs : List ℕ) → IsFirst xs (find_magic xs)
unfolding find_magic IsFirst has_magic bytes_eq
find_magic-IsFirst [] = missing
  where
    missing : (i : ℕ) → has_magic [] i ≡ false
    missing zero = refl
    missing (suc i) = refl
find_magic-IsFirst (b ∷ bs) = elim (Bool-cases (bytes_eq (take 6 (b ∷ bs)) magic)) [
  | inl here ↦ rw (here, IsFirst) (λ i l. absurd (omega arith))
  | inr there ↦ rw there (IsFirst-suc b bs (find_magic bs) there (find_magic-IsFirst bs))
]

parse-magic :
    (bytes : List ℕ) (offset : ℕ) (header : SectionHeader)
    → header_len ≤ length bytes
    → parse bytes offset ≡ ok header
    → bytes_eq (take 6 bytes) magic ≡ true
parse-magic bytes offset header h e =
    let (major, e6) = get_elem?_lt bytes 6 (omega arith) in
    let (minor, e7) = get_elem?_lt bytes 7 (omega arith) in
    let cases = parse_cases bytes offset major minor h e6 e7 in
    elim (Bool-cases (bytes_eq (take 6 bytes) magic)) [
      | inl present ↦ present
      | inr absent ↦
          let refused : parse bytes offset ≡ err (bad_magic offset) = rw absent at cases in cc
    ]

pub has_magic-IsStart : (image : List ℕ) (c : ℕ) → IsStart image c → has_magic image c ≡ true
unfolding IsStart has_magic
has_magic-IsStart image c h =
    let (inside, (header, e, follows)) = h in
    let len : header_len ≤ length (take header_len (drop c image)) =
      omega (arith, length-take header_len (drop c image), length-drop c image) in
    ap (λ (xs : List ℕ). bytes_eq xs magic)
      (sym (take-take 6 header_len (drop c image) (omega arith)))
    ∙ parse-magic (take header_len (drop c image)) c header len e

magic_up_to_ok :
    (image : List ℕ) (next : ℕ)
    → Succeeds (λ _. Unit {0}) (magic_up_to image next (checked_add next 6))
magic_up_to_ok image next = elim (Option-cases (checked_add next 6)) [
  | inl e ↦ unfold magic_up_to in rw e tt
  | inr (end, e) ↦
      unfold magic_up_to in
      rw e (
        Succeeds-if (λ _. Unit {0}) (ltb (length image) end) _ _ (λ _. tt)
          λ fits. rw (slice_lem image next end (ground arith) (ltb→ge _ _ fits)) tt)
]

pub is_boundary_ok :
    (image : List ℕ) (o : Option ℕ) → Succeeds (λ _. Unit {0}) (is_boundary image o)
unfolding is_boundary
is_boundary_ok image none = tt
is_boundary_ok image (some next) =
    Succeeds-if (λ _. Unit {0}) (next == length image) _ _ (λ _. tt) λ _. magic_up_to_ok image next
