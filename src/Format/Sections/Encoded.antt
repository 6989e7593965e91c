-- ===== src/Format/Sections/Encoded.antt =====
-- An image written section by section is walked back into those sections.
use rdwarfs.Prelude.{
  ℕ, zero, suc, ◌+◌, ◌<◌, ◌≡◌, refl, ap, ◌∙◌, false, some, List, [], ◌∷◌, ◌++◌, map, append-nil,
  length, All, length-append, ge→ltb, checked_end, checked_end_within, u64_mod, append_assoc, arith,
}
use rdwarfs.Result.{ok, slice, slice_between}
use rdwarfs.Format.Header.{SectionHeader, header_len, parse, section_len, IsValid, write}
use rdwarfs.Format.Header.RoundTrip.{parse-write, length-write}
use rdwarfs.Format.Sections.{SectionRef, new, section_at, collect}
use rdwarfs.Format.Sections.Walk.{collect_ok, collect_end, at}

-- A section to write: its header and its payload.
abbrev pub Written : Type 0
Written = SectionHeader × List ℕ

abbrev pub IsWritten : Written → Type 0
IsWritten (h, payload) = IsValid h × (h.payload_len ≡ length payload)

unfoldable pub encode_section : Written → List ℕ
encode_section (h, payload) = write h ++ payload

unfoldable pub encode_all : List Written → List ℕ
encode_all [] = []
encode_all (s ∷ ss) = encode_section s ++ encode_all ss

-- The sections as the walk is to report them, the first at `here`.
unfoldable pub refs : ℕ → List Written → List SectionRef
refs here [] = []
refs here (s ∷ ss) =
    record { file_offset = here; header = s.0; bytes = encode_section s }
    ∷ refs (here + length (encode_section s)) ss

length-encode_section :
    (s : Written) → IsWritten s → length (encode_section s) ≡ header_len + length s.1
unfolding encode_section
length-encode_section (h, payload) w =
    omega (arith, length-append (write h) payload, length-write h w.0)

section_len-encode :
    (s : Written)
    → IsWritten s
    → length (encode_section s) < u64_mod
    → section_len s.0 ≡ length (encode_section s)
unfolding section_len
section_len-encode s w f = omega (arith, length-encode_section s w, w.1)

-- The section that stands behind `before` is found there.
section_at-encode :
    (before after : List ℕ) (s : Written)
    → IsWritten s
    → length (before ++ (encode_section s ++ after)) < u64_mod
    → section_at (before ++ (encode_section s ++ after)) (length before)
      ≡ ok (
        record { file_offset = length before; header = s.0; bytes = encode_section s },
        length before + length (encode_section s),
      )
unfolding section_at
section_at-encode before after s w f = rw (
  ge→ltb (length image) (length before + header_len) (omega (arith, total, sized)),
  header_there,
  parsed,
  checked,
  slice_between before (encode_section s) after (length before)
      (length before + length (encode_section s)) refl refl,
)
  where
    image : List ℕ
    image = before ++ (encode_section s ++ after)

    total : length image ≡ length before + (length (encode_section s) + length after)
    total = omega (
      arith,
      length-append before (encode_section s ++ after),
      length-append (encode_section s) after,
    )

    sized : length (encode_section s) ≡ header_len + length s.1
    sized = length-encode_section s w

    header_there : slice image (length before) (length before + header_len) ≡ ok (write s.0)
    header_there =
        unfold encode_section in
        rw (append_assoc (write s.0) s.1 after) (
          slice_between before (write s.0) (s.1 ++ after) (length before)
            (length before + header_len) refl (omega (arith, length-write s.0 w.0)))

    parsed : parse (write s.0) (length before) ≡ ok s.0
    parsed = rw (append-nil) at (parse-write s.0 [] (length before) w.0)

    checked :
        checked_end (length before) (section_len s.0) (length image)
        ≡ some (length before + length (encode_section s))
    checked = rw (section_len-encode s w (omega (arith, total))) (
        checked_end_within (length before) (length (encode_section s)) (length image) f
          (omega (arith, total)))

walk_encoded :
    (ss : List Written) (before : List ℕ) (fuel : ℕ)
    → All IsWritten ss
    → length (before ++ encode_all ss) < u64_mod
    → length ss < fuel
    → collect fuel (at (before ++ encode_all ss) (length before)) ≡ map ok (refs (length before) ss)
unfolding encode_all refs
walk_encoded ss before zero w f h = absurd (omega arith)
walk_encoded [] before (suc fuel) w f h =
    collect_end fuel (length before) (before ++ []) false (omega (arith, length-append before []))
walk_encoded (s ∷ ss) before (suc fuel) w f h =
    let behind =
      walk_encoded ss (before ++ encode_section s) fuel w.1
        (rw (append_assoc before (encode_section s) (encode_all ss)) f) (omega arith) in
    collect_ok fuel (length before) (before ++ (encode_section s ++ encode_all ss)) _ _ inside
      (section_at-encode before (encode_all ss) s w.0 f)
    ∙ ap (λ t. ok here ∷ t) (rw (append_assoc before, length-append before) at behind)
  where
    here : SectionRef
    here = record { file_offset = length before; header = s.0; bytes = encode_section s }

    inside : length before < length (before ++ (encode_section s ++ encode_all ss))
    inside = omega (
      arith,
      length-append before (encode_section s ++ encode_all ss),
      length-append (encode_section s) (encode_all ss),
      length-encode_section s w.0,
    )

-- Behind any prefix, the walk over sections written with valid headers and the lengths of their payloads
-- yields them in order, with their offsets, their headers and their bytes, and ends without an error. The
-- image is shorter than 2^64 bytes.
pub collect-encode_all :
    (ss : List Written) (before : List ℕ)
    → All IsWritten ss
    → length (before ++ encode_all ss) < u64_mod
    → collect (length ss + 1) (new (before ++ encode_all ss) (length before))
      ≡ map ok (refs (length before) ss)
unfolding new
collect-encode_all ss before w f = walk_encoded ss before (length ss + 1) w f (omega arith)
