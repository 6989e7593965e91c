-- ===== src/Fs/Cache/Methods.antt =====
-- Every method of the cache keeps its counts and its order in agreement with its blocks.
use rdwarfs.Prelude.{
  ℕ, ◌≡◌, ◌≢◌, refl, sym, ◌∙◌, ap, false, Option, none, some, ◌==◌, arith, Bool-cases, inl, inr,
}
use rdwarfs.Fs.Cache.{
  Entry, loading, ready, Inner, empty, remove, insert, contains, remove_first, touch, keep_loading,
  clear, abandon,
}
use rdwarfs.Fs.Cache.Order.{
  total, contains-remove_other, contains-remove_same, remove_first-Distinct, contains-push_back,
  push_back-Distinct, total-push_back, total-remove_first, total-same,
}
use rdwarfs.Fs.Cache.Kept.{is_ready, held_at, IsCache, held_absent}

pub empty-IsCache : IsCache empty
unfolding empty
empty-IsCache = record { distinct = tt; listed = λ b. refl; counted = refl }

pub touch-IsCache : (block : ℕ) (inner : Inner) → IsCache inner → IsCache (touch block inner)
unfolding touch
touch-IsCache block inner c = elim (Bool-cases (contains block inner.order)) [
  | inr f ↦ rw f c
  | inl t ↦
      let gone = contains-remove_same block inner.order c.distinct in
      rw t (record {
        distinct =
            push_back-Distinct block _ gone (remove_first-Distinct block inner.order c.distinct);
        listed = λ b. elim (Bool-cases (block == b)) [
          | inl same ↦
              let is : b ≡ block = ground arith in
              contains-push_back b block (remove_first block inner.order)
              ∙ rw (same) (ground (arith, sym (c.listed block) ∙ t, is))
          | inr other ↦
              let apart : b ≢ block = ground arith in
              contains-push_back b block (remove_first block inner.order)
              ∙ rw (other, contains-remove_other block b inner.order apart, c.listed b)
                  (ground arith)
        ];
        counted = omega (
          arith,
          c.counted,
          total-remove_first (held_at inner.blocks) block inner.order t,
          total-push_back (held_at inner.blocks) block (remove_first block inner.order),
        );
      })
]

kept_not_ready : (o : Option Entry) → is_ready (keep_loading o) ≡ false
kept_not_ready none = refl
kept_not_ready (some loading) = refl
kept_not_ready (some (ready bytes)) = refl

pub clear-IsCache : (inner : Inner) → IsCache inner → IsCache (clear inner)
unfolding clear
clear-IsCache inner c = record {
  distinct = tt;
  listed = λ b. sym (kept_not_ready (inner.blocks b));
  counted = refl;
}

-- A change of the blocks among those that hold no bytes.
quiet-IsCache :
    (inner inner' : Inner)
    → inner'.order ≡ inner.order
    → inner'.resident ≡ inner.resident
    → ((b : ℕ) → held_at inner'.blocks b ≡ held_at inner.blocks b)
    → ((b : ℕ) → is_ready (inner'.blocks b) ≡ is_ready (inner.blocks b))
    → IsCache inner
    → IsCache inner'
quiet-IsCache inner inner' order resident sizes ready_same c = record {
  distinct = rw order c.distinct;
  listed = λ b. ap (contains b) order ∙ c.listed b ∙ sym (ready_same b);
  counted =
      resident
      ∙ c.counted
      ∙ total-same (held_at inner.blocks) (held_at inner'.blocks) inner.order (λ j _. sym (sizes j))
      ∙ ap (total (held_at inner'.blocks)) (sym order);
}

-- The marker of a decode where no bytes were.
pub loading-IsCache :
    (block : ℕ) (inner : Inner)
    → is_ready (inner.blocks block) ≡ false
    → IsCache inner
    → IsCache (record inner { blocks = insert inner.blocks block loading })
loading-IsCache block inner h c =
    let sizes : (b : ℕ) → held_at (insert inner.blocks block loading) b ≡ held_at inner.blocks b =
      λ b. elim (Bool-cases (b == block)) [
        | inl t ↦
            let is : b ≡ block = ground arith in
            rw t (sym (ap (held_at inner.blocks) is ∙ held_absent (inner.blocks block) h))
        | inr f ↦ rw f refl
      ] in
    let readies : (b : ℕ)
        → is_ready (insert inner.blocks block loading b) ≡ is_ready (inner.blocks b) =
      λ b. elim (Bool-cases (b == block)) [
        | inl t ↦
            let is : b ≡ block = ground arith in
            rw t (sym (ap (λ (x : ℕ). is_ready (inner.blocks x)) is ∙ h))
        | inr f ↦ rw f refl
      ] in
    quiet-IsCache inner (record inner { blocks = insert inner.blocks block loading }) refl refl
      sizes readies c

pub abandon-IsCache :
    (block : ℕ) (inner : Inner)
    → is_ready (inner.blocks block) ≡ false
    → IsCache inner
    → IsCache (abandon block inner)
unfolding abandon
abandon-IsCache block inner h c =
    let sizes : (b : ℕ) → held_at (remove inner.blocks block) b ≡ held_at inner.blocks b = λ b.
      elim (Bool-cases (b == block)) [
        | inl t ↦
            let is : b ≡ block = ground arith in
            rw t (sym (ap (held_at inner.blocks) is ∙ held_absent (inner.blocks block) h))
        | inr f ↦ rw f refl
      ] in
    let readies : (b : ℕ) → is_ready (remove inner.blocks block b) ≡ is_ready (inner.blocks b) =
      λ b. elim (Bool-cases (b == block)) [
        | inl t ↦
            let is : b ≡ block = ground arith in
            rw t (sym (ap (λ (x : ℕ). is_ready (inner.blocks x)) is ∙ h))
        | inr f ↦ rw f refl
      ] in
    quiet-IsCache inner (record inner { blocks = remove inner.blocks block }) refl refl sizes
      readies c

pub touch_blocks : (block : ℕ) (inner : Inner) → (touch block inner).blocks ≡ inner.blocks
unfolding touch
touch_blocks block inner = elim (Bool-cases (contains block inner.order)) [
  | inl t ↦ rw t refl
  | inr f ↦ rw f refl
]

pub touch_resident : (block : ℕ) (inner : Inner) → (touch block inner).resident ≡ inner.resident
unfolding touch
touch_resident block inner = elim (Bool-cases (contains block inner.order)) [
  | inl t ↦ rw t refl
  | inr f ↦ rw f refl
]
