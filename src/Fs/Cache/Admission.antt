-- ===== src/Fs/Cache/Admission.antt =====
-- Publishing a block keeps the cache counted right and within its budget, by giving up the oldest blocks.
use rdwarfs.Prelude.{
  drop, subst, ℕ, zero, suc, ◌+◌, ◌≤◌, ◌<◌, ◌≡◌, ◌≢◌, refl, sym, ◌∙◌, ap, true, false, Option, none,
  some, List, [], ◌∷◌, ◌++◌, length, ltb, ◌==◌, arith, Bool-cases, ◌⊎◌, inl, inr, u64_mod, ltb→ge,
}
use rdwarfs.Result.{ok, plain_add_lem}
use rdwarfs.Fs.Cache.{
  Entry, ready, Inner, remove, insert, contains, remove_first, evict_front, evict_one, make_room,
  admit,
}
use rdwarfs.Fs.Cache.Order.{
  total, contains-push_back, push_back-Distinct, total-push_back, total-same,
}
use rdwarfs.Fs.Cache.Kept.{
  is_ready, held, held_at, IsCache, removed_same, removed_other, dropped, dropped-IsCache,
  evict_front_lem, displace_lem, is_loading, dropped_loading,
}

-- What making room leaves: a cache without some of the oldest blocks, where the bytes fit, or none is left.
pub record IsRoomy (len budget : ℕ) (before after : Inner) : Type 0 where
  pub cache : IsCache after
  pub oldest : (k : ℕ) × (after.order ≡ drop k before.order)
  pub less : after.resident ≤ before.resident
  pub fits : (after.resident + len ≤ budget) ⊎ (after.order ≡ [])
  pub absent : (b : ℕ) → before.blocks b ≡ none → after.blocks b ≡ none
  pub others : (b : ℕ) → (after.blocks b ≡ before.blocks b) ⊎ (after.blocks b ≡ none)
  pub loads : (b : ℕ) → is_loading (after.blocks b) ≡ is_loading (before.blocks b)

already-IsRoomy :
    (len budget : ℕ) (inner : Inner)
    → IsCache inner
    → (inner.resident + len ≤ budget) ⊎ (inner.order ≡ [])
    → IsRoomy len budget inner inner
already-IsRoomy len budget inner c fits = record {
  cache = c;
  oldest = (0, refl);
  less = omega arith;
  fits = fits;
  absent = λ b e. e;
  others = λ b. inl refl;
  loads = λ b. refl;
}

still_there :
    (key : ℕ) (inner after : Inner) (b : ℕ)
    → (after.blocks b ≡ remove inner.blocks key b) ⊎ (after.blocks b ≡ none)
    → (after.blocks b ≡ inner.blocks b) ⊎ (after.blocks b ≡ none)
still_there key inner after b (inr gone) = inr gone
still_there key inner after b (inl kept) = elim (Bool-cases (b == key)) [
  | inl t ↦ inr (rw t at kept)
  | inr f ↦ inl (rw f at kept)
]

behind-IsRoomy :
    (len budget key : ℕ) (rest : List ℕ) (inner after : Inner)
    → IsCache inner
    → inner.order ≡ key ∷ rest
    → IsRoomy len budget (dropped key inner) after
    → IsRoomy len budget inner after
behind-IsRoomy len budget key rest inner after c e r =
    let front : remove_first key inner.order ≡ rest = rw e (ground arith) in
    let is : is_ready (inner.blocks key) ≡ true =
      sym (c.listed key) ∙ ap (contains key) e ∙ ground arith in
    let (k, kept) = r.oldest in
    record {
      cache = r.cache;
      oldest = (suc k, kept ∙ ap (drop k) front ∙ ap (drop (suc k)) (sym e));
      less = omega (arith, r.less);
      fits = r.fits;
      absent = λ b h. r.absent b (ground (arith, h));
      others = λ b. still_there key inner after b (r.others b);
      loads = λ b. r.loads b ∙ dropped_loading key inner b is;
    }

evict_one_nil : (inner : Inner) → inner.order ≡ [] → evict_one inner ≡ ok (false, inner)
unfolding evict_one
evict_one_nil inner e = ap (λ (order : List ℕ). evict_front order inner) e

evict_one_cons :
    (key : ℕ) (rest : List ℕ) (inner : Inner)
    → IsCache inner
    → inner.order ≡ key ∷ rest
    → evict_one inner ≡ ok (true, dropped key inner)
unfolding evict_one
evict_one_cons key rest inner c e =
    ap (λ (order : List ℕ). evict_front order inner) e ∙ evict_front_lem key rest inner c e

make_room-IsRoomy :
    (fuel len budget : ℕ) (inner : Inner) (order : List ℕ)
    → inner.order ≡ order
    → length order < fuel
    → inner.resident + len < u64_mod
    → IsCache inner
    → (after : Inner) × (make_room fuel len budget inner ≡ ok after)
      × IsRoomy len budget inner after
unfolding make_room
make_room-IsRoomy zero len budget inner order e room small c = absurd (omega (arith, room))
make_room-IsRoomy (suc fuel) len budget inner [] e room small c =
    elim (Bool-cases (ltb budget (inner.resident + len))) [
      | inr f ↦
          rw (plain_add_lem inner.resident len small, f)
            (inner, refl, already-IsRoomy len budget inner c (inl (ltb→ge _ _ f)))
      | inl t ↦
          rw (plain_add_lem inner.resident len small, t, evict_one_nil inner e)
            (inner, refl, already-IsRoomy len budget inner c (inr e))
    ]
make_room-IsRoomy (suc fuel) len budget inner (key ∷ rest) e room small c =
    elim (Bool-cases (ltb budget (inner.resident + len))) [
      | inr f ↦
          rw (plain_add_lem inner.resident len small, f)
            (inner, refl, already-IsRoomy len budget inner c (inl (ltb→ge _ _ f)))
      | inl t ↦
          let front : remove_first key inner.order ≡ rest = rw e (ground arith) in
          let (after, run, roomy) =
            make_room-IsRoomy fuel len budget (dropped key inner) rest front (omega (arith, room))
              (omega (arith, small)) (dropped-IsCache key inner c) in
          rw (plain_add_lem inner.resident len small, t, evict_one_cons key rest inner c e, run)
            (after, refl, behind-IsRoomy len budget key rest inner after c e roomy)
    ]

-- What publishing a block leaves.
pub record IsAdmitted (block : ℕ) (bytes : List ℕ) (budget : ℕ) (before after : Inner)
    : Type 0 where
  pub cache : IsCache after
  pub there : after.blocks block ≡ some (ready bytes)
  pub bounded : (after.resident ≤ budget) ⊎ (after.order ≡ block ∷ [])
  pub newest : (k : ℕ) × (after.order ≡ drop k (remove_first block before.order) ++ (block ∷ []))
  pub others : (b : ℕ) → b ≢ block → (after.blocks b ≡ before.blocks b) ⊎ (after.blocks b ≡ none)
  pub loads : (b : ℕ) → b ≢ block → is_loading (after.blocks b) ≡ is_loading (before.blocks b)

pub inserted_same :
    (blocks : ℕ → Option Entry) (b : ℕ) (entry : Entry) → insert blocks b entry b ≡ some entry
inserted_same blocks b entry = ground arith

pub inserted_other :
    (blocks : ℕ → Option Entry) (b : ℕ) (entry : Entry) (j : ℕ)
    → j ≢ b
    → insert blocks b entry j ≡ blocks j
inserted_other blocks b entry j h = ground arith

-- A block that the cache does not hold is put behind the others.
pushed-IsCache :
    (block : ℕ) (bytes : List ℕ) (inner : Inner)
    → IsCache inner
    → inner.blocks block ≡ none
    → IsCache (record inner {
      resident = inner.resident + length bytes;
      order = inner.order ++ (block ∷ []);
      blocks = insert inner.blocks block (ready bytes);
    })
pushed-IsCache block bytes inner c e =
    let absent : contains block inner.order ≡ false = c.listed block ∙ ap is_ready e in
    let blocks' = insert inner.blocks block (ready bytes) in
    let same : total (held_at inner.blocks) inner.order ≡ total (held_at blocks') inner.order =
      total-same (held_at inner.blocks) (held_at blocks') inner.order λ j inside.
        let apart : j ≢ block = λ is.
          let inside' : contains block inner.order ≡ true =
            subst (λ (x : ℕ). contains x inner.order ≡ true) is inside in
          cc in
        ap held (sym (inserted_other inner.blocks block (ready bytes) j apart)) in
    let here : held_at blocks' block ≡ length bytes =
      ap held (inserted_same inner.blocks block (ready bytes)) in
    record {
      distinct = push_back-Distinct block inner.order absent c.distinct;
      listed = λ b. elim (Bool-cases (block == b)) [
        | inl t ↦
            let is : b ≡ block = ground arith in
            rw
              (
                is,
                contains-push_back block block inner.order,
                inserted_same inner.blocks block (ready bytes),
              )
              (ground arith)
        | inr f ↦
            let apart : b ≢ block = ground arith in
            contains-push_back b block inner.order
            ∙ (rw (f, c.listed b, inserted_other inner.blocks block (ready bytes) b apart)
                (ground arith))
      ];
      counted =
          omega (arith, c.counted, same, here, total-push_back (held_at blocks') block inner.order);
    }

-- Into a cache that is counted right and stays below 2^64 bytes, a block is always admitted. The cache it
-- leaves is counted right and holds the block's bytes; it is within the budget, or holds nothing but the
-- block; the block is the most recently used, and of the others only some that were used least recently
-- are gone, while the rest keep their bytes; and which other blocks are being decoded is unchanged. All of
-- this holds at a budget of 0 too, where the block that is admitted stays in the cache alone or with empty
-- ones.
pub admit-IsAdmitted :
    (block : ℕ) (bytes : List ℕ) (budget : ℕ) (inner : Inner)
    → IsCache inner
    → inner.resident + length bytes < u64_mod
    → (after : Inner) × (admit block bytes budget inner ≡ ok after)
      × IsAdmitted block bytes budget inner after
unfolding admit
admit-IsAdmitted block bytes budget inner c small =
    let away = dropped block inner in
    let (roomy, run, r) =
      make_room-IsRoomy (length away.order + 1) (length bytes) budget away away.order refl
        (omega arith) (omega (arith, small)) (dropped-IsCache block inner c) in
    let gone : roomy.blocks block ≡ none = r.absent block (removed_same inner.blocks block) in
    let (k, kept) = r.oldest in
    rw
      (
        displace_lem block inner c,
        run,
        plain_add_lem roomy.resident (length bytes) (omega (arith, r.less, small)),
      )
      (
        _,
        refl,
        record {
          cache = pushed-IsCache block bytes roomy r.cache gone;
          there = inserted_same roomy.blocks block (ready bytes);
          bounded = elim r.fits [
            | inl h ↦ inl h
            | inr e ↦ inr (ap (λ (xs : List ℕ). xs ++ (block ∷ [])) e)
          ];
          newest = (k, ap (λ (xs : List ℕ). xs ++ (block ∷ [])) kept);
          others = λ b apart. elim (still_there block inner roomy b (r.others b)) [
            | inl same ↦ inl (inserted_other roomy.blocks block (ready bytes) b apart ∙ same)
            | inr gone' ↦ inr (inserted_other roomy.blocks block (ready bytes) b apart ∙ gone')
          ];
          loads = λ b apart.
              ap is_loading (inserted_other roomy.blocks block (ready bytes) b apart)
              ∙ r.loads b
              ∙ ap is_loading (removed_other inner.blocks block b apart);
        },
      )
