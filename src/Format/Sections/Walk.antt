-- ===== src/Format/Sections/Walk.antt =====
-- The walk over a well-formed image yields its sections, and every step on any image makes progress
-- inside the image.
use rdwarfs.Prelude.{
  ℕ, zero, suc, ◌+◌, ◌-◌, ◌≤◌, ◌<◌, ◌≡◌, refl, ap, ◌∙◌, Bool, true, false, Option, none, some, List,
  [], ◌∷◌, length, take, drop, All, IsByte, All-take, All-drop, ltb, leb, ltb→ge, gt→leb, leb→gt,
  leb→le, checked_end, checked_end-some, if◌then◌else◌, arith, Bool-cases, inl, inr,
}
use rdwarfs.Result.{
  Result, Error, ok, err, fault, Result-cases, Ensures, Ensures-if, Ensures-bind, Ensures-ok_or,
  Ensures-value, slice, slice-Ensures,
}
use rdwarfs.Format.Header.{SectionHeader, header_len, parse, section_len, IsValid}
use rdwarfs.Format.Header.Parse.{parse-IsValid}
use rdwarfs.Format.Sections.{SectionRef, Sections, new, section_at, next, continue, collect}

-- What a step that yields a section has found at `here`: a valid header, and the bytes of the section,
-- which lie inside the image and are as many as the header says.
pub record IsFound (image : List ℕ) (here : ℕ) (found : SectionRef × ℕ) : Type 0 where
  pub offset : found.0.file_offset ≡ here
  pub valid : IsValid found.0.header
  pub bytes : found.0.bytes ≡ take (section_len found.0.header) (drop here image)
  pub end : found.1 ≡ here + section_len found.0.header
  pub within : found.1 ≤ length image

pub section_len-ge : (h : SectionHeader) → header_len ≤ section_len h
unfolding section_len
section_len-ge h = omega arith

-- On every byte string the step at any place returns without a fault.
pub section_at-IsFound :
    (image : List ℕ) (here : ℕ)
    → All IsByte image
    → Ensures (IsFound image here) (section_at image here)
unfolding section_at
section_at-IsFound image here b =
    Ensures-if (IsFound image here) (ltb (length image) (here + header_len)) _ _ (λ _. tt)
      λ long.
        let room : here + header_len ≤ length image = ltb→ge _ _ long in
        Ensures-bind (All IsByte) (IsFound image here) (slice image here (here + header_len)) _
          (slice-Ensures (All IsByte) image here (here + header_len) (omega arith) room
            (All-take IsByte _ _ (All-drop IsByte here image b)))
          λ header_bytes _ hb.
            Ensures-bind IsValid (IsFound image here) (parse header_bytes here) _
              (parse-IsValid header_bytes here hb)
              λ header _ v.
                Ensures-bind (λ end. (end ≡ here + section_len header) × (end ≤ length image))
                  (IsFound image here) _ _
                  (Ensures-ok_or _ (checked_end here (section_len header) (length image)) _
                    (λ end e. checked_end-some here (section_len header) (length image) end e))
                  λ end _ p.
                    Ensures-bind (λ bytes. bytes ≡ take (section_len header) (drop here image))
                      (IsFound image here) (slice image here end) _
                      (slice-Ensures _ image here end (omega arith) p.1
                        (ap (λ (n : ℕ). take n (drop here image)) (omega arith)))
                      λ bytes _ e. record {
                        offset = refl;
                        valid = v;
                        bytes = e;
                        end = p.0;
                        within = p.1;
                      }

-- One round of the loop, by what stands at the cursor.
pub collect_end :
    (fuel cursor : ℕ) (image : List ℕ) (done : Bool)
    → length image ≤ cursor
    → collect (suc fuel) (record { image = image; cursor = cursor; done = done }) ≡ []
unfolding collect next
collect_end fuel cursor image done h = ground arith

collect_done :
    (fuel cursor : ℕ) (image : List ℕ)
    → collect (suc fuel) (record { image = image; cursor = cursor; done = true }) ≡ []
unfolding collect next
collect_done fuel cursor image = refl

abbrev pub at : List ℕ → ℕ → Sections
at image cursor = record { image = image; cursor = cursor; done = false }

next_at :
    (image : List ℕ) (cursor : ℕ)
    → cursor < length image
    → next (at image cursor) ≡ elim (section_at image cursor) [
      | ok (item, end) ↦ (some (ok item), at image end)
      | err e ↦ (some (err e), record { image = image; cursor = cursor; done = true })
      | fault x ↦ (some (fault x), record { image = image; cursor = cursor; done = true })
    ]
unfolding next
next_at image cursor h = ap (λ b. if b then (none, at image cursor) else answer) (gt→leb _ _ h)
  where
    answer : Option (Result SectionRef) × Sections
    answer = elim (section_at image cursor) [
      | ok (item, end) ↦ (some (ok item), at image end)
      | err e ↦ (some (err e), record { image = image; cursor = cursor; done = true })
      | fault x ↦ (some (fault x), record { image = image; cursor = cursor; done = true })
    ]

pub collect_ok :
    (fuel cursor : ℕ) (image : List ℕ) (item : SectionRef) (end : ℕ)
    → cursor < length image
    → section_at image cursor ≡ ok (item, end)
    → collect (suc fuel) (at image cursor) ≡ ok item ∷ collect fuel (at image end)
unfolding collect
collect_ok fuel cursor image item end h e =
    ap (continue (collect fuel)) {y = (some (ok item), at image end)}
      (next_at image cursor h ∙ rw e)

pub collect_err :
    (fuel cursor : ℕ) (image : List ℕ) (x : Error)
    → cursor < length image
    → section_at image cursor ≡ err x
    → collect (suc (suc fuel)) (at image cursor) ≡ err x ∷ []
unfolding collect
collect_err fuel cursor image x h e =
    ap (continue (collect (suc fuel)))
      {y = (some (err x), record { image = image; cursor = cursor; done = true })}
      (next_at image cursor h ∙ rw e)
    ∙ ap (λ t. err x ∷ t) (collect_done fuel cursor image)

-- The items of a walk from `here`: sections that follow one another without a gap, each found in the
-- image, then either the end of the image or one error.
pub data IsWalk (image : List ℕ) : ℕ → List (Result SectionRef) → Type 0 where
  ended : (here : ℕ) → length image ≤ here → IsWalk image here []
  failed : (here : ℕ) (e : Error) → section_at image here ≡ err e → IsWalk image here (err e ∷ [])
  found :
      (here end : ℕ) (item : SectionRef) (rest : List (Result SectionRef))
      → IsFound image here (item, end)
      → IsWalk image end rest
      → IsWalk image here (ok item ∷ rest)

IsWalk-from :
    (fuel cursor : ℕ) (image : List ℕ)
    → All IsByte image
    → cursor ≤ length image
    → length image < fuel + cursor
    → IsWalk image cursor (collect fuel (at image cursor))
IsWalk-from zero cursor image b c h = absurd (omega arith)
IsWalk-from (suc fuel) cursor image b c h = elim (Bool-cases (leb (length image) cursor)) [
  | inl over ↦
      rw (collect_end fuel cursor image false (leb→le _ _ over)) (ended cursor (leb→le _ _ over))
  | inr more ↦ elim (Result-cases (section_at image cursor)) [
    | inl ((item, end), e) ↦
        let f =
          Ensures-value (IsFound image cursor) (section_at image cursor) (item, end)
            (section_at-IsFound image cursor b) e in
        rw (collect_ok fuel cursor image item end (leb→gt _ _ more) e) (
          found cursor end item _ f (
            IsWalk-from fuel end image b f.within
              (omega (arith, f.end, section_len-ge item.header))))
    | inr (inl (x, e)) ↦ failing fuel x e (leb→gt _ _ more) (omega (arith, leb→gt _ _ more))
    | inr (inr (x, e)) ↦ absurd (rw e at (section_at-IsFound image cursor b))
  ]
]
  where
    failing :
        (n : ℕ) (x : Error)
        → section_at image cursor ≡ err x
        → cursor < length image
        → 0 < n
        → IsWalk image cursor (collect (suc n) (at image cursor))
    failing zero x e q p = absurd (omega arith)
    failing (suc n) x e q p = rw (collect_err n cursor image x q e) (failed cursor x e)

-- From a base inside a string of bytes, with one round more than the bytes behind it, the iterator ends
-- without a fault: its items are consecutive valid sections inside the image, and only the last may be an error.
pub collect-IsWalk :
    (image : List ℕ) (base_offset : ℕ)
    → All IsByte image
    → base_offset ≤ length image
    → IsWalk image base_offset (collect (length image - base_offset + 1) (new image base_offset))
unfolding new
collect-IsWalk image base_offset b h =
    IsWalk-from (length image - base_offset + 1) base_offset image b h (omega arith)
