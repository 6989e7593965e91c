-- ===== src/Fs/Decode/Serving.antt =====
-- The cache over an image whose sections decode serves the reads of files.
use rdwarfs.Prelude.{
  ◌||◌, leb→le, length-take, ℕ, ◌≤◌, ◌<◌, ◌≡◌, ◌≢◌, refl, sym, ◌∙◌, ap, Bool, true, false, not,
  ◌&&◌, Option, none, some, List, length, take, take_all, get_elem?, leb, ◌==◌, min, max, arith,
  Bool-cases, ◌⊎◌, inl, inr, u32_mod, isize_mod,
}
use rdwarfs.Result.{Result, ok, ◌>>=◌}
use rdwarfs.Format.Image.{SectionRecord}
use rdwarfs.Fs.Cache.{
  start_load, finish, empty, look_at, Entry, loading, ready, Inner, insert, enter, fetch, publish,
  mark_whole, touch,
}
use rdwarfs.Fs.Cache.Order.{total}
use rdwarfs.Fs.Cache.Kept.{
  evict-IsCache, held, is_loading, is_ready, held_at, IsCache, dropped, evict_lem, dropped_loading,
}
use rdwarfs.Fs.Cache.Admission.{inserted_other, IsAdmitted, admit-IsAdmitted}
use rdwarfs.Fs.Cache.Methods.{
  touch_resident, touch_blocks, loading-IsCache, empty-IsCache, touch-IsCache,
}
use rdwarfs.Fs.Reader.Content.{Serves}
use rdwarfs.Fs.Decode.{
  BlockCache, BlockSource, prefix_granularity, prefix_max, decode_full, decode_prefix, or_full,
  decode_record, decode_block, new, block_reader,
}

module _ (image : BlockSource) (block_bytes : ℕ → List ℕ) where
  abbrev pub IsPrefix : ℕ → List ℕ → Type 0
  IsPrefix block bytes = bytes ≡ take (length bytes) (block_bytes block)

  -- What the code relies on: every section of a block that holds bytes decodes to them, and a codec that
  -- can decode a prefix gives one, at least as long as was asked for unless the block is shorter.
  pub record Decodes : Type 0 where
    pub block_size : image.block_size < u32_mod
    pub bounded : (block : ℕ) → length (block_bytes block) ≤ image.block_size
    pub listed :
        (block : ℕ)
        → 0 < length (block_bytes block)
        → (section : SectionRecord) × (get_elem? image.block_records block ≡ some section)
    pub full :
        (block : ℕ) (section : SectionRecord)
        → get_elem? image.block_records block ≡ some section
        → decode_full image section ≡ ok (block_bytes block)
    pub prefix :
        (block : ℕ) (section : SectionRecord) (want : ℕ)
        → get_elem? image.block_records block ≡ some section
        → (decode_prefix image section want ≡ ok none)
          ⊎ ((bytes : List ℕ) × (decode_prefix image section want ≡ ok (some bytes))
              × (bytes ≡ take (length bytes) (block_bytes block))
              × (min want (length (block_bytes block)) ≤ length bytes))

  -- What a cache that only this thread uses is between two reads.
  pub record Fit (cache : BlockCache) : Type 0 where
    pub budget : cache.budget < isize_mod
    pub counted : IsCache cache.inner
    pub calm : (b : ℕ) → is_loading (cache.inner.blocks b) ≡ false
    pub faithful :
        (b : ℕ) (bytes : List ℕ)
        → cache.inner.blocks b ≡ some (ready bytes)
        → bytes ≡ take (length bytes) (block_bytes b)
    pub small : cache.inner.resident ≤ max cache.budget image.block_size

  module _ (decodes : Decodes) where
    -- Enough of the block.
    abbrev Covers : ℕ → ℕ → Result (List ℕ) → Type 0
    Covers block needed m =
        (bytes : List ℕ) × (m ≡ ok bytes) × IsPrefix block bytes × (needed ≤ length bytes)

    full-Covers :
        (block needed : ℕ) (section : SectionRecord)
        → get_elem? image.block_records block ≡ some section
        → needed ≤ length (block_bytes block)
        → Covers block needed (decode_full image section)
    full-Covers block needed section e room = (
      block_bytes block,
      decodes.full block section e,
      sym (take_all (block_bytes block) (length (block_bytes block)) (omega arith)),
      room,
    )

    or_full-Covers :
        (block needed want : ℕ) (section : SectionRecord)
        → get_elem? image.block_records block ≡ some section
        → needed ≤ length (block_bytes block)
        → needed ≤ want
        → Covers block needed (decode_prefix image section want >>= or_full image section)
    unfolding or_full
    or_full-Covers block needed want section e room reach =
        elim (decodes.prefix block section want e) [
          | inl absent ↦ rw absent (full-Covers block needed section e room)
          | inr (bytes, got, is, long) ↦ rw got (bytes, refl, is, omega (arith, long, room, reach))
        ]

    decode_record-Covers :
        (block needed : ℕ) (retry_in_full : Bool)
        → 0 < length (block_bytes block)
        → needed ≤ length (block_bytes block)
        → Covers block needed (decode_record image block needed retry_in_full)
    unfolding decode_record
    decode_record-Covers block needed retry_in_full more room =
        let (section, e) = decodes.listed block more in
        elim (Bool-cases (not retry_in_full && leb needed (min prefix_max image.block_size))) [
          | inl t ↦
              rw (e, t)
                (or_full-Covers block needed (min (max needed prefix_granularity) image.block_size)
                  section e room (omega (arith, room, decodes.bounded block)))
          | inr f ↦ rw (e, f) (full-Covers block needed section e room)
        ]

    short : (block : ℕ) (bytes : List ℕ) → IsPrefix block bytes → length bytes ≤ image.block_size
    short block bytes is = omega (
      arith,
      ap (λ (xs : List ℕ). length xs) is,
      length-take (length bytes) (block_bytes block),
      decodes.bounded block,
    )

    -- The block after a publication is the published one, and the others hold what they held.
    published_bytes :
        (block : ℕ) (bytes : List ℕ) (before after : Inner) (budget b : ℕ) (found : List ℕ)
        → IsAdmitted block bytes budget before after
        → IsPrefix block bytes
        → ((j : ℕ) (xs : List ℕ) → j ≢ block → before.blocks j ≡ some (ready xs) → IsPrefix j xs)
        → after.blocks b ≡ some (ready found)
        → IsPrefix b found
    published_bytes block bytes before after budget b found a is faithful e =
        elim (Bool-cases (b == block)) [
          | inl t ↦
              let same : b ≡ block = ground arith in
              let both : found ≡ bytes = cc (ap after.blocks same, e, a.there) in rw (both, same) is
          | inr f ↦
              let apart : b ≢ block = ground arith in
              elim (a.others b apart) [
                | inl kept ↦ faithful b found apart (sym kept ∙ e)
                | inr gone ↦ let clash : none ≡ some (ready found) = sym gone ∙ e in cc
              ]
        ]

    resident_bound :
        (block : ℕ) (bytes : List ℕ) (before after : Inner) (budget : ℕ)
        → IsAdmitted block bytes budget before after
        → IsPrefix block bytes
        → after.resident ≤ max budget image.block_size
    resident_bound block bytes before after budget a is = elim a.bounded [
      | inl within ↦ omega (arith, within)
      | inr alone ↦
          let sum = a.cache.counted ∙ ap (total (held_at after.blocks)) alone in
          let here : held_at after.blocks block ≡ length bytes = ap held a.there in
          omega (arith, sum, here, short block bytes is)
    ]

    -- A decode that covers the read, published into a cache where the block is marked.
    published-Fit :
        (block : ℕ) (bytes : List ℕ) (budget : ℕ) (inner : Inner)
        → Fit (record { budget = budget; inner = inner })
        → is_ready (inner.blocks block) ≡ false
        → IsPrefix block bytes
        → (after : Inner) × (publish block bytes image.block_size budget
              (record inner { blocks = insert inner.blocks block loading })
            ≡ ok after)
          × Fit (record { budget = budget; inner = after })
    unfolding publish
    published-Fit block bytes budget inner fit free is =
        let marked : Inner = record inner {
          blocks = insert inner.blocks block loading;
          decoded_whole =
              mark_whole (leb image.block_size (length bytes)) block inner.decoded_whole;
        } in
        let c = loading-IsCache block inner free fit.counted in
        let marked-IsCache : IsCache marked = record {
          distinct = c.distinct;
          listed = c.listed;
          counted = c.counted;
        } in
        let (after, run, a) =
          admit-IsAdmitted block bytes budget marked marked-IsCache
            (omega (arith, fit.small, fit.budget, decodes.block_size, short block bytes is)) in
        (
          after,
          run,
          record {
            budget = fit.budget;
            counted = a.cache;
            calm = λ b. elim (Bool-cases (b == block)) [
              | inl t ↦
                  let same : b ≡ block = ground arith in
                  ap (λ (x : ℕ). is_loading (after.blocks x)) same ∙ ap is_loading a.there
              | inr f ↦
                  let apart : b ≢ block = ground arith in
                  a.loads b apart
                  ∙ ap is_loading (inserted_other inner.blocks block loading b apart)
                  ∙ fit.calm b
            ];
            faithful = λ b found e.
                published_bytes block bytes marked after budget b found a is
                  (λ j xs apart was.
                    fit.faithful j xs
                      (sym (inserted_other inner.blocks block loading j apart) ∙ was))
                  e;
            small = resident_bound block bytes marked after budget a is;
          },
        )

    touched-Fit :
        (block budget : ℕ) (inner : Inner)
        → Fit (record { budget = budget; inner = inner })
        → Fit (record { budget = budget; inner = touch block inner })
    touched-Fit block budget inner fit =
        let same = touch_blocks block inner in
        record {
          budget = fit.budget;
          counted = touch-IsCache block inner fit.counted;
          calm = λ b. ap (λ (m : ℕ → Option Entry). is_loading (m b)) same ∙ fit.calm b;
          faithful =
              λ b bytes e. fit.faithful b bytes (sym (ap (λ (m : ℕ → Option Entry). m b) same) ∙ e);
          small = omega (arith, touch_resident block inner, fit.small);
        }

    dropped-Fit :
        (block budget : ℕ) (inner : Inner)
        → is_ready (inner.blocks block) ≡ true
        → Fit (record { budget = budget; inner = inner })
        → Fit (record { budget = budget; inner = dropped block inner })
    dropped-Fit block budget inner is fit = record {
      budget = fit.budget;
      counted = evict-IsCache block inner fit.counted;
      calm = λ b. dropped_loading block inner b is ∙ fit.calm b;
      faithful = λ b bytes e. fit.faithful b bytes (ground (arith, e));
      small = omega (arith, fit.small);
    }

    Fetched : ℕ → ℕ → ℕ → Result (List ℕ × Inner) → Type 0
    Fetched block needed budget m =
        (bytes : List ℕ) × ((after : Inner) × (m ≡ ok (bytes, after))
          × IsPrefix block bytes
          × (needed ≤ length bytes)
          × Fit (record { budget = budget; inner = after }))

    load-Fetched :
        (block needed budget : ℕ) (retry_in_full : Bool) (inner : Inner)
        → Fit (record { budget = budget; inner = inner })
        → is_ready (inner.blocks block) ≡ false
        → 0 < length (block_bytes block)
        → needed ≤ length (block_bytes block)
        → Fetched block needed budget (
            finish
              (decode_record image block needed)
              block
              image.block_size
              budget
              (start_load retry_in_full block inner))
    unfolding Fetched
    load-Fetched block needed budget retry_in_full inner fit free more room =
        let (bytes, decoded, is, covers) =
          decode_record-Covers block needed (retry_in_full || inner.decoded_whole block) more
            room in
        let (after, run, fit') = published-Fit block bytes budget inner fit free is in
        rw (decoded, run) (bytes, (after, refl, is, covers, fit'))

    fetch-Fetched :
        (block needed budget : ℕ) (inner : Inner) (o : Option Entry)
        → inner.blocks block ≡ o
        → Fit (record { budget = budget; inner = inner })
        → 0 < length (block_bytes block)
        → needed ≤ length (block_bytes block)
        → Fetched block needed budget (
            look_at o block needed inner
            >>= finish (decode_record image block needed) block image.block_size budget)
    fetch-Fetched block needed budget inner none e fit more room =
        load-Fetched block needed budget false inner fit (ap is_ready e) more room
    fetch-Fetched block needed budget inner (some loading) e fit more room =
        let calm : true ≡ false = sym (ap is_loading e) ∙ fit.calm block in cc
    fetch-Fetched block needed budget inner (some (ready bytes)) e fit more room =
        elim (Bool-cases (leb needed (length bytes))) [
          | inl t ↦
              rw t
                unfold Fetched in
                  (
                    bytes,
                    (
                      touch block inner,
                      refl,
                      fit.faithful block bytes e,
                      leb→le _ _ t,
                      touched-Fit block budget inner fit,
                    ),
                  )
          | inr f ↦
              rw (f, evict_lem block inner fit.counted)
                (load-Fetched block needed budget true (dropped block inner)
                  (dropped-Fit block budget inner (ap is_ready e) fit) (ground arith) more room)
        ]

  -- Over an image whose sections decode to the blocks, with block sizes below 2^32, the cache serves the reads
  -- of files: a new cache does, and a read of any part of a non-empty block succeeds with a prefix of the
  -- block that covers the part, whatever was read, evicted or decoded in part before.
  pub decode_block-Serves : Decodes → Serves (block_reader image) block_bytes Fit
  unfolding decode_block new fetch enter Fetched
  decode_block-Serves decodes = record {
    new = λ budget small. record {
      budget = small;
      counted = empty-IsCache;
      calm = λ b. unfold empty in refl;
      faithful = λ b bytes e. unfold empty in absurd (cc);
      small = unfold empty in omega arith;
    };
    decode_block = λ cache block needed fit more room.
        let (bytes, rest) =
          fetch-Fetched decodes block needed cache.budget cache.inner (cache.inner.blocks block)
            refl fit more room in
        let (after, run, is, covers, fit') = rest in
        rw run (bytes, (record cache { inner = after }, refl, is, covers, fit'));
  }
