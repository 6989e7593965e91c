-- ===== src/Format/Image/Walking.antt =====
-- The walk over a source agrees with the iterator over its bytes, and the sections that it records
-- can be read back and checked.
use rdwarfs.Prelude.{
  ℕ, zero, suc, ◌+◌, ◌-◌, ◌≤◌, ◌<◌, ◌≡◌, refl, ap, ◌∙◌, false, Bool-cases, Option-cases, inl, inr,
  List, [], ◌∷◌, length, take, drop, All, IsByte, ltb, leb, ltb→ge, leb→gt, leb→le, checked_end,
  checked_end-some, arith,
}
use rdwarfs.Result.{
  Result, Error, ok, err, fault, ◌>>=◌, slice_lem, Result-cases, plain_add_lem, Ensures-value,
}
use rdwarfs.Format.Header.{SectionHeader, header_len, parse}
use rdwarfs.Format.Header as Header
use rdwarfs.Format.Source.{ImageSource, Backs}
use rdwarfs.Format.Sections.{SectionRef, new, section_of, section_at, collect}
use rdwarfs.Format.Sections.Walk.{
  IsFound, section_at-IsFound, section_len-ge, collect_ok, collect_end, collect_err, at,
}
use rdwarfs.Format.Image.{SectionRecord, record_of, record_at, walk_loop, walk_sections}

-- What the walk keeps of a section.
abbrev pub forget : SectionRef → SectionRecord
forget s = record { file_offset = s.file_offset; header = s.header }

-- The items of the iterator up to the first failure, as one result.
unfoldable pub gather : List (Result SectionRef) → Result (List SectionRecord)
gather [] = ok []
gather (item ∷ items) = do s ← item; rest ← gather items; ok (forget s ∷ rest)

abbrev pub forgotten : Result (SectionRef × ℕ) → Result (SectionRecord × ℕ)
forgotten (ok (s, end)) = ok (forget s, end)
forgotten (err e) = err e
forgotten (fault x) = fault x

bind-parsed :
    (bytes : List ℕ) (cursor : ℕ)
    → ((h : SectionHeader)
        → record_of (length bytes) cursor h ≡ forgotten (section_of bytes cursor h))
    → (r : Result SectionHeader)
    → (r >>= record_of (length bytes) cursor) ≡ forgotten (r >>= section_of bytes cursor)
bind-parsed bytes cursor same (ok h) = same h
bind-parsed bytes cursor same (err e) = refl
bind-parsed bytes cursor same (fault x) = refl

module _ (source : ImageSource) (bytes : List ℕ) (b : Backs source bytes) where
  record_of-section_of :
      (cursor : ℕ) (h : SectionHeader)
      → record_of (length bytes) cursor h ≡ forgotten (section_of bytes cursor h)
  unfolding record_of section_of
  record_of-section_of cursor h =
      (elim (Option-cases (checked_end cursor (Header.section_len h) (length bytes))) [
        | inl e ↦ rw e
        | inr (end, e) ↦
            let (same, inside) =
              checked_end-some cursor (Header.section_len h) (length bytes) end e in
            rw (e, slice_lem bytes cursor end (omega arith) inside)
      ])

  -- The two readers do one step alike.
  record_at-section_at :
      (cursor : ℕ)
      → cursor < length bytes
      → record_at source cursor ≡ forgotten (section_at bytes cursor)
  record_at-section_at cursor h = elim (Bool-cases (ltb (length bytes) (cursor + header_len))) [
    | inl short ↦
        unfold record_at section_at in
        rw (plain_add_lem cursor header_len (omega (arith, b.fits)), b.len, short)
    | inr long ↦ read (ltb→ge _ _ long) long
  ]
    where
      exact : cursor + header_len - cursor ≡ header_len
      exact = omega arith

      read :
          cursor + header_len ≤ length bytes
          → ltb (length bytes) (cursor + header_len) ≡ false
          → record_at source cursor ≡ forgotten (section_at bytes cursor)
      read room long =
          unfold record_at section_at in
          rw
            (
              plain_add_lem cursor header_len (omega (arith, b.fits)),
              b.len,
              long,
              b.reads cursor header_len room,
              slice_lem bytes cursor (cursor + header_len) (omega arith) room,
              exact,
            )
            (bind-parsed bytes cursor (record_of-section_of cursor)
              (parse (take header_len (drop cursor bytes)) cursor))

  gather-collect_err :
      (n cursor : ℕ) (x : Error)
      → cursor < length bytes
      → section_at bytes cursor ≡ err x
      → 0 < n
      → gather (collect (suc n) (at bytes cursor)) ≡ err x
  unfolding gather
  gather-collect_err zero cursor x q e p = absurd (omega arith)
  gather-collect_err (suc n) cursor x q e p = rw (collect_err n cursor bytes x q e)

  walk_loop-collect :
      (fuel cursor : ℕ)
      → All IsByte bytes
      → cursor ≤ length bytes
      → length bytes < fuel + cursor
      → walk_loop fuel source cursor ≡ gather (collect fuel (at bytes cursor))
  unfolding walk_loop gather
  walk_loop-collect zero cursor v c h = absurd (omega arith)
  walk_loop-collect (suc fuel) cursor v c h = elim (Bool-cases (leb source.len cursor)) [
    | inl over ↦
        rw (over, collect_end fuel cursor bytes false (omega (arith, b.len, leb→le _ _ over)))
    | inr more ↦
        let inside : cursor < length bytes = omega (arith, b.len, leb→gt _ _ more) in
        rw (more, record_at-section_at cursor inside)
          (elim (Result-cases (section_at bytes cursor)) [
            | inl ((item, end), e) ↦
                let f =
                  Ensures-value (IsFound bytes cursor) (section_at bytes cursor) (item, end)
                    (section_at-IsFound bytes cursor v) e in
                rw (
                  e,
                  collect_ok fuel cursor bytes item end inside e,
                  walk_loop-collect fuel end v f.within
                      (omega (arith, f.end, section_len-ge item.header)),
                )
            | inr (inl (x, e)) ↦ rw (e, gather-collect_err fuel cursor x inside e (omega arith))
            | inr (inr (x, e)) ↦ absurd (rw e at (section_at-IsFound bytes cursor v))
          ])
  ]

  -- Over every source that supplies these bytes, read positionally or in memory, the walk of an image from
  -- a base inside it finds what the iterator over the bytes finds, and fails with the error that ends the
  -- iteration.
  pub walk_sections-collect :
      (base_offset : ℕ)
      → All IsByte bytes
      → base_offset ≤ length bytes
      → walk_sections source base_offset
        ≡ gather (collect (length bytes + 1) (new bytes base_offset))
  unfolding walk_sections new
  walk_sections-collect base_offset v h =
      ap (λ (n : ℕ). walk_loop (n + 1) source base_offset) b.len
      ∙ walk_loop-collect (length bytes + 1) base_offset v h (omega arith)
