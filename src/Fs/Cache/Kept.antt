-- ===== src/Fs/Cache/Kept.antt =====
-- The counts and the order of the cache agree with its blocks, and every method keeps them so.
use rdwarfs.Prelude.{
  ap₂, subst, ℕ, ◌+◌, ◌-◌, ◌≤◌, ◌≡◌, ◌≢◌, refl, sym, ◌∙◌, ap, Bool, true, false, Option, none, some,
  List, ◌∷◌, length, ◌==◌, arith, Bool-cases, inl, inr,
}
use rdwarfs.Result.{ok, plain_sub_lem}
use rdwarfs.Fs.Cache.{
  Entry, loading, ready, Inner, remove, contains, remove_first, uncount, evict, evict_front,
  displace_entry, displace,
}
use rdwarfs.Fs.Cache.Order.{
  Distinct, total, remove_first-absent, contains-remove_other, contains-remove_same,
  remove_first-Distinct, total-remove_first, total-same,
}

abbrev pub is_ready : Option Entry → Bool
is_ready none = false
is_ready (some loading) = false
is_ready (some (ready bytes)) = true

-- How many bytes an entry holds.
abbrev pub held : Option Entry → ℕ
held none = 0
held (some loading) = 0
held (some (ready bytes)) = length bytes

abbrev pub held_at : (ℕ → Option Entry) → ℕ → ℕ
held_at blocks b = held (blocks b)

-- The order lists the blocks that hold bytes, each once, and the count is that of their bytes.
pub record IsCache (inner : Inner) : Type 0 where
  pub distinct : Distinct inner.order
  pub listed : (b : ℕ) → contains b inner.order ≡ is_ready (inner.blocks b)
  pub counted : inner.resident ≡ total (held_at inner.blocks) inner.order

pub removed_same : (blocks : ℕ → Option Entry) (b : ℕ) → remove blocks b b ≡ none
removed_same blocks b = ground arith

pub removed_other : (blocks : ℕ → Option Entry) (b j : ℕ) → j ≢ b → remove blocks b j ≡ blocks j
removed_other blocks b j h = ground arith

pub held_absent : (o : Option Entry) → is_ready o ≡ false → held o ≡ 0
held_absent none h = refl
held_absent (some loading) h = refl
held_absent (some (ready bytes)) h = cc

-- The cache without a block.
abbrev pub dropped : ℕ → Inner → Inner
dropped block inner = record inner {
  resident = inner.resident - held (inner.blocks block);
  blocks = remove inner.blocks block;
  order = remove_first block inner.order;
}

-- A block's bytes are part of the count.
pub held_counted :
    (block : ℕ) (inner : Inner)
    → IsCache inner
    → inner.resident
      ≡ held (inner.blocks block)
        + total (held_at (remove inner.blocks block)) (remove_first block inner.order)
held_counted block inner c =
    let rest : total (held_at inner.blocks) (remove_first block inner.order)
        ≡ total (held_at (remove inner.blocks block)) (remove_first block inner.order) =
      total-same (held_at inner.blocks) (held_at (remove inner.blocks block))
        (remove_first block inner.order)
        λ j inside.
          let gone = contains-remove_same block inner.order c.distinct in
          let apart : j ≢ block = λ same.
            let inside' : contains block (remove_first block inner.order) ≡ true =
              subst (λ (x : ℕ). contains x (remove_first block inner.order) ≡ true) same inside in
            cc in
          ap held (sym (removed_other inner.blocks block j apart)) in
    elim (Bool-cases (contains block inner.order)) [
      | inl t ↦
          omega
            (arith, c.counted, total-remove_first (held_at inner.blocks) block inner.order t, rest)
      | inr f ↦
          let none_held = held_absent (inner.blocks block) (sym (c.listed block) ∙ f) in
          let same = remove_first-absent block inner.order f in
          let counted : inner.resident
              ≡ total (held_at inner.blocks) (remove_first block inner.order) =
            rw same c.counted in
          omega (arith, counted, none_held, rest)
    ]

pub dropped-IsCache : (block : ℕ) (inner : Inner) → IsCache inner → IsCache (dropped block inner)
dropped-IsCache block inner c = record {
  distinct = remove_first-Distinct block inner.order c.distinct;
  listed = λ b. elim (Bool-cases (b == block)) [
    | inl t ↦
        let same : b ≡ block = ground arith in
        rw (same, removed_same inner.blocks block)
          (contains-remove_same block inner.order c.distinct)
    | inr f ↦
        let apart : b ≢ block = ground arith in
        contains-remove_other block b inner.order apart
        ∙ c.listed b
        ∙ ap is_ready (sym (removed_other inner.blocks block b apart))
  ];
  counted = omega (arith, held_counted block inner c);
}

uncount_lem :
    (o : Option Entry) (resident : ℕ)
    → held o ≤ resident
    → uncount o resident ≡ ok (resident - held o)
uncount_lem none resident h = ap ok (omega arith)
uncount_lem (some loading) resident h = ap ok (omega arith)
uncount_lem (some (ready bytes)) resident h = plain_sub_lem resident (length bytes) h

pub evict_lem :
    (block : ℕ) (inner : Inner) → IsCache inner → evict block inner ≡ ok (dropped block inner)
unfolding evict
evict_lem block inner c =
    rw (uncount_lem (inner.blocks block) inner.resident (omega (arith, held_counted block inner c)))
      refl

pub evict-IsCache : (block : ℕ) (inner : Inner) → IsCache inner → IsCache (dropped block inner)
evict-IsCache block inner c = dropped-IsCache block inner c

pub evict_front_lem :
    (key : ℕ) (order : List ℕ) (inner : Inner)
    → IsCache inner
    → inner.order ≡ key ∷ order
    → evict_front (key ∷ order) inner ≡ ok (true, dropped key inner)
evict_front_lem key order inner c e =
    let front : remove_first key inner.order ≡ order = rw e (ground arith) in
    rw
      (
        uncount_lem (inner.blocks key) inner.resident (omega (arith, held_counted key inner c)),
        front,
      )
      refl

unchanged :
    (block : ℕ) (inner : Inner) (n : ℕ)
    → contains block inner.order ≡ false
    → n ≡ 0
    → record inner { blocks = remove inner.blocks block } ≡ record inner {
      resident = inner.resident - n;
      blocks = remove inner.blocks block;
      order = remove_first block inner.order;
    }
unchanged block inner n absent e =
    ap₂
      (λ (resident : ℕ) (order : List ℕ). record inner {
        resident = resident;
        blocks = remove inner.blocks block;
        order = order;
      })
      (omega (arith, e)) (sym (remove_first-absent block inner.order absent))

displace_entry_lem :
    (o : Option Entry) (block : ℕ) (inner : Inner)
    → contains block inner.order ≡ is_ready o
    → held o ≤ inner.resident
    → displace_entry o block inner
      ≡ ok (record inner {
        resident = inner.resident - held o;
        blocks = remove inner.blocks block;
        order = remove_first block inner.order;
      })
displace_entry_lem none block inner c h = ap ok (unchanged block inner 0 c refl)
displace_entry_lem (some loading) block inner c h = ap ok (unchanged block inner 0 c refl)
displace_entry_lem (some (ready old)) block inner c h =
    rw (plain_sub_lem inner.resident (length old) h) refl

pub displace_lem :
    (block : ℕ) (inner : Inner) → IsCache inner → displace block inner ≡ ok (dropped block inner)
unfolding displace
displace_lem block inner c =
    displace_entry_lem (inner.blocks block) block inner (c.listed block)
      (omega (arith, held_counted block inner c))

abbrev pub is_loading : Option Entry → Bool
is_loading none = false
is_loading (some loading) = true
is_loading (some (ready bytes)) = false

pub ready_not_loading : (o : Option Entry) → is_ready o ≡ true → is_loading o ≡ false
ready_not_loading none h = cc
ready_not_loading (some loading) h = cc
ready_not_loading (some (ready bytes)) h = refl

-- Taking out a block that holds bytes starts or ends no decode.
pub dropped_loading :
    (block : ℕ) (inner : Inner) (b : ℕ)
    → is_ready (inner.blocks block) ≡ true
    → is_loading (remove inner.blocks block b) ≡ is_loading (inner.blocks b)
dropped_loading block inner b h = elim (Bool-cases (b == block)) [
  | inl t ↦
      let same : b ≡ block = ground arith in
      rw (same, removed_same inner.blocks block) (sym (ready_not_loading (inner.blocks block) h))
  | inr f ↦ ap is_loading (removed_other inner.blocks block b (ground arith))
]
