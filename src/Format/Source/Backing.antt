-- ===== src/Format/Source/Backing.antt =====
-- The sources of the crate meet their interface, and `read_range` does the same for every one of them.
use rdwarfs.Prelude.{
  ℕ, ◌+◌, ◌-◌, ◌≤◌, ◌<◌, ◌≡◌, refl, sym, ap, ◌∙◌, false, Bool-cases, Option-cases, inl, inr, Option,
  none, some, List, length, take, drop, length-take, length-drop, take-drop-take-drop, leb→le, leb,
  ltb, lt→ltb, ge→ltb, if◌then◌else◌, checked_end_within, checked_end_beyond, u64_mod, isize_mod,
  arith,
}
use mathlib.Core.Option.{some-injective}
use rdwarfs.Result.{ok, err, slice_lem, plain_add_lem, source_out_of_bounds}
use rdwarfs.Format.Source.{
  ImageSource, slice_at, vec_source, window_slice, windowed, window, read_range, Backs,
}

slice_at_within :
    (bytes : List ℕ) (offset count : ℕ)
    → length bytes < u64_mod
    → offset + count ≤ length bytes
    → slice_at bytes count offset ≡ ok (take count (drop offset bytes))
unfolding slice_at
slice_at_within bytes offset count f h = rw (checked_end_within offset count (length bytes) f h) (
    slice_lem bytes offset (offset + count) (omega arith) h
    ∙ ap (λ (n : ℕ). ok (take n (drop offset bytes))) (omega arith))

-- A vector of bytes is a source of them.
pub vec_source-Backs : (bytes : List ℕ) → length bytes < isize_mod → Backs (vec_source bytes) bytes
unfolding vec_source slice_at
vec_source-Backs bytes f = record {
  fits = f;
  len = refl;
  reads = λ offset count h. slice_at_within bytes offset count (omega arith) h;
  rejects = λ offset count h. rw (checked_end_beyond offset count (length bytes) h);
  contiguous = λ whole e. cc;
}

-- The part of `bytes` that a window shows.
abbrev pub shown : List ℕ → ℕ → ℕ → List ℕ
shown bytes offset len = take len (drop offset bytes)

length-shown :
    (bytes : List ℕ) (offset len : ℕ)
    → offset + len ≤ length bytes
    → length (shown bytes offset len) ≡ len
length-shown bytes offset len h =
    omega (arith, length-take len (drop offset bytes), length-drop offset bytes)

window_slice-some :
    (bytes : List ℕ) (offset len : ℕ)
    → length bytes < u64_mod
    → offset + len ≤ length bytes
    → window_slice (some bytes) offset len ≡ some (shown bytes offset len)
unfolding window_slice
window_slice-some bytes offset len f h =
    let exact : offset + len - offset ≡ len = omega arith in ground (arith, exact)

window_slice-eq :
    (contiguous : Option (List ℕ)) (bytes : List ℕ) (offset len : ℕ) (whole : List ℕ)
    → length bytes < u64_mod
    → ((all : List ℕ) → contiguous ≡ some all → all ≡ bytes)
    → offset + len ≤ length bytes
    → window_slice contiguous offset len ≡ some whole
    → whole ≡ shown bytes offset len
unfolding window_slice
window_slice-eq none bytes offset len whole f c h e = cc
window_slice-eq (some all) bytes offset len whole f c h e =
    let same : all ≡ bytes = c all refl in
    let e' : window_slice (some bytes) offset len ≡ some whole = rw same at e in
    some-injective _ _ (sym e' ∙ window_slice-some bytes offset len f h)

-- A window on a range inside a source supplies exactly the bytes of the range, if the source supplies
-- exactly its own.
pub windowed-Backs :
    (inner : ImageSource) (bytes : List ℕ) (offset len : ℕ)
    → Backs inner bytes
    → offset + len ≤ length bytes
    → Backs (windowed inner offset len) (shown bytes offset len)
unfolding windowed
windowed-Backs inner bytes offset len b h = record {
  fits = omega (arith, b.fits, length-shown bytes offset len h);
  len = sym (length-shown bytes offset len h);
  reads = λ at count p.
      let q : at + count ≤ len = omega (arith, length-shown bytes offset len h) in
      rw (
        checked_end_within at count len (omega (arith, b.fits)) q,
        plain_add_lem offset at (omega (arith, b.fits)),
        b.reads (offset + at) count (omega arith),
        take-drop-take-drop offset len at count (offset + at) bytes q refl,
      );
  rejects = λ at count p. rw (
    length-shown bytes offset len h,
    checked_end_beyond at count len (omega (arith, length-shown bytes offset len h)),
  );
  contiguous = λ whole e.
      window_slice-eq inner.as_slice bytes offset len whole (omega (arith, b.fits)) b.contiguous h
        e;
}

-- `WindowedSource::new` on a range inside a source of the bytes succeeds, and the window supplies exactly the bytes
-- of the range.
pub window-Backs :
    (inner : ImageSource) (bytes : List ℕ) (offset len : ℕ)
    → Backs inner bytes
    → offset + len ≤ length bytes
    → (w : ImageSource) × (window inner offset len ≡ ok w) × Backs w (shown bytes offset len)
unfolding window
window-Backs inner bytes offset len b h = (
  windowed inner offset len,
  rw (b.len, checked_end_within offset len (length bytes) (omega (arith, b.fits)) h),
  windowed-Backs inner bytes offset len b h,
)

-- `WindowedSource::new` on a range that leaves a source of the bytes, one that overflows included, is refused.
pub window-refused :
    (inner : ImageSource) (bytes : List ℕ) (offset len : ℕ)
    → Backs inner bytes
    → length bytes < offset + len
    → window inner offset len ≡ err (source_out_of_bounds offset len (length bytes))
unfolding window
window-refused inner bytes offset len b h =
    rw (b.len, checked_end_beyond offset len (length bytes) h)

-- `read_range` answers alike for every source that supplies these bytes, contiguous or not: the bytes of
-- a range inside them, and `SourceOutOfBounds` for any other, a range that overflows included.
pub read_range-Backs :
    (source : ImageSource) (bytes : List ℕ) (offset len : ℕ)
    → Backs source bytes
    → read_range source offset len ≡ (
        if leb (offset + len) (length bytes)
        then ok (take len (drop offset bytes))
        else err (source_out_of_bounds offset len (length bytes)))
unfolding read_range
read_range-Backs source bytes offset len b = elim (Bool-cases (leb (offset + len) (length bytes))) [
  | inl inside ↦ rw inside (within (leb→le _ _ inside))
  | inr outside ↦ rw outside (beyond (leb→gt _ _ outside))
]
  where
    leb→gt : (a c : ℕ) → leb a c ≡ false → c < a
    leb→gt a c h = ground arith

    within :
        offset + len ≤ length bytes
        → read_range source offset len ≡ ok (take len (drop offset bytes))
    within h = elim (Option-cases source.as_slice) [
      | inl none_e ↦
          rw
            (
              lt→ltb (offset + len) u64_mod (omega (arith, b.fits)),
              b.len,
              ge→ltb (length bytes) (offset + len) h,
              none_e,
            )
            (b.reads offset len h)
      | inr (all, some_e) ↦
          rw
            (
              lt→ltb (offset + len) u64_mod (omega (arith, b.fits)),
              b.len,
              ge→ltb (length bytes) (offset + len) h,
              some_e,
              b.contiguous all some_e,
              plain_add_lem offset len (omega (arith, b.fits)),
              slice_lem bytes offset (offset + len) (omega arith) h,
            )
            (ap (λ (n : ℕ). ok (take n (drop offset bytes))) (omega arith))
    ]

    beyond :
        length bytes < offset + len
        → read_range source offset len ≡ err (source_out_of_bounds offset len (length bytes))
    beyond h = elim (Bool-cases (ltb (offset + len) u64_mod)) [
      | inl small ↦ rw (small, b.len, lt→ltb (length bytes) (offset + len) h)
      | inr large ↦ rw (large, b.len)
    ]
