-- ===== src/Fs/Cache/Threads/Awake.antt =====
-- No block is decoded twice at the same time, and no thread sleeps with nobody to wake it.
use rdwarfs.Prelude.{
  ℕ, ◌+◌, ◌<◌, ◌≡◌, ◌≢◌, refl, sym, ◌∙◌, ap, subst, Bool, true, false, Option, none, some, List,
  length, leb, arith, Bool-cases, ◌⊎◌, inl, inr, u64_mod,
}
use rdwarfs.Result.{ok, ok_injective}
use rdwarfs.Fs.Cache.{
  Entry, loading, ready, Inner, empty, keep_loading, clear, Outcome, hit, wait, load, start_load,
  look_at, enter, mark_whole, publish, abandon,
}
use rdwarfs.Fs.Cache.Kept.{
  is_ready, is_loading, IsCache, dropped, evict_lem, evict-IsCache, dropped_loading,
}
use rdwarfs.Fs.Cache.Admission.{IsAdmitted, admit-IsAdmitted, inserted_same, inserted_other}
use rdwarfs.Fs.Cache.Methods.{
  empty-IsCache, touch-IsCache, touch_blocks, clear-IsCache, loading-IsCache, abandon-IsCache,
}
use rdwarfs.Fs.Cache.Threads.{
  idle, asking, asleep, decoding, notifying, System, start, set_thread, behind, woken, Step, ask,
  look, succeed, give_up, notify, wake, forget, Reachable, begin, after,
}
use rdwarfs.Fs.Cache.Threads.Agrees.{
  set_other, loads_in, Agrees, Changes, moved-Agrees, started-Agrees, ended-Agrees, notified-Agrees,
  same-Agrees,
}

pub record IsSafe (s : System) : Type 0 where
  pub cache : IsCache s.inner
  pub agrees : Agrees (λ b. is_loading (s.inner.blocks b)) s.threads

-- What a look at a block does to the markers.
abbrev Marks : ℕ → Inner → Outcome × Inner → Type 0
Marks block before (hit bytes, inner) =
    IsCache inner × ((b : ℕ) → loads_in inner b ≡ loads_in before b)
Marks block before (wait, inner) =
    IsCache inner
    × ((b : ℕ) → loads_in inner b ≡ loads_in before b)
    × (loads_in before block ≡ true)
Marks block before (load retry_in_full, inner) =
    IsCache inner
    × (loads_in before block ≡ false)
    × Changes (loads_in before) (loads_in inner) block true

load-Marks :
    (block : ℕ) (retry_in_full : Bool) (before inner : Inner)
    → IsCache inner
    → is_ready (inner.blocks block) ≡ false
    → loads_in before block ≡ false
    → ((b : ℕ) → loads_in inner b ≡ loads_in before b)
    → Marks block before (start_load retry_in_full block inner)
load-Marks block retry_in_full before inner c free unmarked same = (
  loading-IsCache block inner free c,
  unmarked,
  (
    ap is_loading (inserted_same inner.blocks block loading),
    λ b apart. ap is_loading (inserted_other inner.blocks block loading b apart) ∙ same b,
  ),
)

look-Marks :
    (block needed : ℕ) (before : Inner) (o : Option Entry) (r : Outcome × Inner)
    → before.blocks block ≡ o
    → IsCache before
    → look_at o block needed before ≡ ok r
    → Marks block before r
look-Marks block needed before none r e c run =
    subst (Marks block before) (ok_injective _ _ run)
      (load-Marks block false before before c (ap is_ready e) (ap is_loading e) λ b. refl)
look-Marks block needed before (some loading) r e c run =
    subst (Marks block before) (ok_injective _ _ run) (c, (λ b. refl), ap is_loading e)
look-Marks block needed before (some (ready bytes)) r e c run =
    elim (Bool-cases (leb needed (length bytes))) [
      | inl t ↦ subst (Marks block before) (ok_injective _ _ (rw t at run)) (
        touch-IsCache block before c,
        λ b. ap (λ (m : ℕ → Option Entry). is_loading (m b)) (touch_blocks block before),
      )
      | inr f ↦
          let run' : ok (start_load true block (dropped block before)) ≡ ok r =
            rw (f, evict_lem block before c) at run in
          subst (Marks block before) (ok_injective _ _ run') (
            load-Marks block true before (dropped block before) (evict-IsCache block before c)
              (ground arith) (ap is_loading e) λ b. dropped_loading block before b (ap is_ready e))
    ]

look-IsSafe :
    (s : System) (i block needed : ℕ) (outcome : Outcome) (inner : Inner)
    → s.threads i ≡ asking block needed
    → Marks block s.inner (outcome, inner)
    → IsSafe s
    → IsSafe
        (record { inner = inner; threads = set_thread s.threads i (behind outcome block needed) })
look-IsSafe s i block needed (hit bytes) inner at (c, same) safe = record {
  cache = c;
  agrees = same-Agrees (loads_in s.inner) (loads_in inner) _ same (
      moved-Agrees (loads_in s.inner) s.threads i (asking block needed) idle at (λ b e. cc)
        (λ e. cc) (λ b e. cc) (λ b n e. absurd (cc)) safe.agrees);
}
look-IsSafe s i block needed wait inner at (c, same, is) safe = record {
  cache = c;
  agrees = same-Agrees (loads_in s.inner) (loads_in inner) _ same (
      moved-Agrees (loads_in s.inner) s.threads i (asking block needed) (asleep block needed) at
        (λ b e. cc) (λ e. cc) (λ b e. cc)
        (λ b n e. let block_is : block ≡ b = cc in ap (loads_in s.inner) (sym block_is) ∙ is)
        safe.agrees);
}
look-IsSafe s i block needed (load retry_in_full) inner at (c, free, changes) safe = record {
  cache = c;
  agrees =
      started-Agrees (loads_in s.inner) (loads_in inner) s.threads i block needed at free changes
        safe.agrees;
}

loading_not_ready : (o : Option Entry) → is_loading o ≡ true → is_ready o ≡ false
loading_not_ready none e = cc
loading_not_ready (some loading) e = refl
loading_not_ready (some (ready bytes)) e = cc

kept_loading : (o : Option Entry) → is_loading (keep_loading o) ≡ is_loading o
kept_loading none = refl
kept_loading (some loading) = refl
kept_loading (some (ready bytes)) = refl

succeed-IsSafe :
    (budget : ℕ) (s : System) (i block whole : ℕ) (bytes : List ℕ) (inner : Inner)
    → s.threads i ≡ decoding block
    → s.inner.resident + length bytes < u64_mod
    → publish block bytes whole budget s.inner ≡ ok inner
    → IsSafe s
    → IsSafe (record { inner = inner; threads = set_thread s.threads i notifying })
unfolding publish
succeed-IsSafe budget s i block whole bytes inner at small run safe =
    let before : Inner = record s.inner {
      decoded_whole = mark_whole (leb whole (length bytes)) block s.inner.decoded_whole;
    } in
    let c : IsCache before = record {
      distinct = safe.cache.distinct;
      listed = safe.cache.listed;
      counted = safe.cache.counted;
    } in
    let (next, run', a) = admit-IsAdmitted block bytes budget before c small in
    let same : next ≡ inner = ok_injective _ _ (sym run' ∙ run) in
    let a' : IsAdmitted block bytes budget before inner =
      subst (IsAdmitted block bytes budget before) same a in
    record {
      cache = a'.cache;
      agrees =
          ended-Agrees (loads_in s.inner) (loads_in inner) s.threads i block at
            (ap is_loading a'.there, a'.loads) safe.agrees;
    }

step-IsSafe : (budget : ℕ) (s t : System) → Step budget s t → IsSafe s → IsSafe t
unfolding enter abandon clear
step-IsSafe budget s t (ask s' i block needed at) safe = record {
  cache = safe.cache;
  agrees =
      moved-Agrees (loads_in s.inner) s.threads i idle (asking block needed) at (λ b e. cc)
        (λ e. cc) (λ b e. cc) (λ b n e. absurd (cc)) safe.agrees;
}
step-IsSafe budget s t (look s' i block needed outcome inner at run) safe =
    look-IsSafe s i block needed outcome inner at
      (look-Marks block needed s.inner (s.inner.blocks block) (outcome, inner) refl safe.cache run)
      safe
step-IsSafe budget s t (succeed s' i block whole bytes inner at small run) safe =
    succeed-IsSafe budget s i block whole bytes inner at small run safe
step-IsSafe budget s t (give_up s' i block at) safe = record {
  cache =
      abandon-IsCache block s.inner
        (loading_not_ready (s.inner.blocks block) (safe.agrees.marked i block at)) safe.cache;
  agrees =
      ended-Agrees (loads_in s.inner) (loads_in (abandon block s.inner)) s.threads i block at
        (ground arith, λ b apart. ground (arith, apart)) safe.agrees;
}
step-IsSafe budget s t (notify s' i at) safe = record {
  cache = safe.cache;
  agrees = notified-Agrees (loads_in s.inner) s.threads i at safe.agrees;
}
step-IsSafe budget s t (wake s' i block needed at) safe = record {
  cache = safe.cache;
  agrees =
      moved-Agrees (loads_in s.inner) s.threads i (asleep block needed) (asking block needed) at
        (λ b e. cc) (λ e. cc) (λ b e. cc) (λ b n e. absurd (cc)) safe.agrees;
}
step-IsSafe budget s t (forget s') safe = record {
  cache = clear-IsCache s.inner safe.cache;
  agrees =
      same-Agrees (loads_in s.inner) (loads_in (clear s.inner)) s.threads
        (λ b. kept_loading (s.inner.blocks b)) safe.agrees;
}

start-IsSafe : IsSafe start
unfolding start empty
start-IsSafe = record {
  cache = empty-IsCache;
  agrees = record {
    loader = λ b e. absurd (cc);
    marked = λ i b e. absurd (cc);
    alone = λ i j b e f. absurd (cc);
    awaited = λ i b n e. absurd (cc);
  };
}

pub Reachable-IsSafe : (budget : ℕ) (s : System) → Reachable budget s → IsSafe s
Reachable-IsSafe budget s begin = start-IsSafe
Reachable-IsSafe budget s (after r t reach step) =
    step-IsSafe budget r s step (Reachable-IsSafe budget r reach)

-- However many threads fetch blocks from a cache, in whatever order they take its lock, and whenever it is
-- cleared or a decode fails, no two of them decode the same block at the same time.
pub Reachable-alone :
    (budget : ℕ) (s : System) (i j block : ℕ)
    → Reachable budget s
    → s.threads i ≡ decoding block
    → s.threads j ≡ decoding block
    → i ≡ j
Reachable-alone budget s i j block reach e f =
    (Reachable-IsSafe budget s reach).agrees.alone i j block e f

-- What the thread does that a sleeper waits for: it ends a decode, which publishes without a fault whatever
-- was decoded, or it wakes the sleepers; and its notification makes the sleeper look again.
abbrev pub Rouses : ℕ → System → ℕ → ℕ → ℕ → ℕ → Type 0
Rouses budget s block needed i j =
    ((s.threads j ≡ decoding block) ⊎ (s.threads j ≡ notifying))
    × ((whole : ℕ) (bytes : List ℕ)
        → s.inner.resident + length bytes < u64_mod
        → (inner : Inner) × (publish block bytes whole budget s.inner ≡ ok inner))
    × (woken (set_thread s.threads j idle i) ≡ asking block needed)

publishes :
    (budget block whole : ℕ) (bytes : List ℕ) (inner : Inner)
    → IsCache inner
    → inner.resident + length bytes < u64_mod
    → (after' : Inner) × (publish block bytes whole budget inner ≡ ok after')
unfolding publish
publishes budget block whole bytes inner c small =
    let (next, run, a) =
      admit-IsAdmitted block bytes budget
        (record inner {
          decoded_whole = mark_whole (leb whole (length bytes)) block inner.decoded_whole;
        })
        (record { distinct = c.distinct; listed = c.listed; counted = c.counted }) small in
    (next, run)

rouses :
    (budget : ℕ) (s : System) (i j block needed : ℕ)
    → IsSafe s
    → s.threads i ≡ asleep block needed
    → (s.threads j ≡ decoding block) ⊎ (s.threads j ≡ notifying)
    → i ≢ j
    → Rouses budget s block needed i j
rouses budget s i j block needed safe e what apart = (
  what,
  (λ whole bytes small. publishes budget block whole bytes s.inner safe.cache small),
  ap woken (set_other s.threads j idle i apart ∙ e),
)

-- In every state that threads on one cache can reach, a thread that sleeps on a block has another thread to
-- rouse it: one that is decoding the block, whose publication cannot fault while memory stays below 2^64
-- bytes, or one that is about to notify; and its notification sends the sleeper back to look.
pub Reachable-awaited :
    (budget : ℕ) (s : System) (i block needed : ℕ)
    → Reachable budget s
    → s.threads i ≡ asleep block needed
    → (j : ℕ) × (i ≢ j) × Rouses budget s block needed i j
Reachable-awaited budget s i block needed reach e =
    let safe = Reachable-IsSafe budget s reach in
    elim (safe.agrees.awaited i block needed e) [
      | inl (j, d) ↦
          let apart : i ≢ j = λ same.
            let clash : asleep block needed ≡ decoding block = sym e ∙ ap s.threads same ∙ d in
            cc in
          (j, apart, rouses budget s i j block needed safe e (inl d) apart)
      | inr (j, w) ↦
          let apart : i ≢ j = λ same.
            let clash : asleep block needed ≡ notifying = sym e ∙ ap s.threads same ∙ w in cc in
          (j, apart, rouses budget s i j block needed safe e (inr w) apart)
    ]
