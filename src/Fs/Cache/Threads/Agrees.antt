-- ===== src/Fs/Cache/Threads/Agrees.antt =====
-- What the markers of a cache say of the threads, and how the moves of a thread keep it true.
use rdwarfs.Prelude.{
  ℕ, ◌≡◌, ◌≢◌, sym, ◌∙◌, ap, Bool, true, false, ◌==◌, arith, Bool-cases, ◌⊎◌, inl, inr,
}
use rdwarfs.Fs.Cache.{Inner}
use rdwarfs.Fs.Cache.Kept.{is_loading}
use rdwarfs.Fs.Cache.Threads.{Thread, idle, asking, asleep, decoding, notifying, set_thread, woken}

abbrev pub loads_in : Inner → ℕ → Bool
loads_in inner b = is_loading (inner.blocks b)

-- The markers in the cache are those of the threads that decode, one for each block, and a sleeper's block
-- is being decoded, or the sleepers are about to be woken.
pub record Agrees (loads : ℕ → Bool) (threads : ℕ → Thread) : Type 0 where
  pub loader : (b : ℕ) → loads b ≡ true → (i : ℕ) × (threads i ≡ decoding b)
  pub marked : (i b : ℕ) → threads i ≡ decoding b → loads b ≡ true
  pub alone : (i j b : ℕ) → threads i ≡ decoding b → threads j ≡ decoding b → i ≡ j
  pub awaited :
      (i b n : ℕ)
      → threads i ≡ asleep b n
      → ((j : ℕ) × (threads j ≡ decoding b)) ⊎ ((j : ℕ) × (threads j ≡ notifying))

set_same : (threads : ℕ → Thread) (i : ℕ) (t : Thread) → set_thread threads i t i ≡ t
set_same threads i t = ground arith

pub set_other :
    (threads : ℕ → Thread) (i : ℕ) (t : Thread) (j : ℕ)
    → j ≢ i
    → set_thread threads i t j ≡ threads j
set_other threads i t j h = ground arith

set_cases :
    (threads : ℕ → Thread) (i : ℕ) (t : Thread) (j : ℕ) (u : Thread)
    → set_thread threads i t j ≡ u
    → ((j ≡ i) × (t ≡ u)) ⊎ ((j ≢ i) × (threads j ≡ u))
set_cases threads i t j u e = elim (Bool-cases (j == i)) [
  | inl same ↦ inl (ground arith, rw same at e)
  | inr other ↦ inr (ground arith, rw other at e)
]

-- Where a thread stood, its like stands if it is not the one that moved.
still :
    (threads : ℕ → Thread) (i : ℕ) (t : Thread) (j : ℕ) (u old : Thread)
    → threads i ≡ old
    → (old ≡ u → ⊥)
    → threads j ≡ u
    → set_thread threads i t j ≡ u
still threads i t j u old at apart e =
    set_other threads i t j (λ same. apart (sym at ∙ ap threads (sym same) ∙ e)) ∙ e

-- A thread that neither decodes nor is about to wake moves to where it does neither.
pub moved-Agrees :
    (loads : ℕ → Bool) (threads : ℕ → Thread) (i : ℕ) (old t : Thread)
    → threads i ≡ old
    → ((b : ℕ) → old ≡ decoding b → ⊥)
    → (old ≡ notifying → ⊥)
    → ((b : ℕ) → t ≡ decoding b → ⊥)
    → ((b n : ℕ) → t ≡ asleep b n → loads b ≡ true)
    → Agrees loads threads
    → Agrees loads (set_thread threads i t)
moved-Agrees loads threads i old t at no_decoder no_waker no_new sleeps g = record {
  loader = λ b l.
      let (j, e) = g.loader b l in (j, still threads i t j (decoding b) old at (no_decoder b) e);
  marked = λ j b e. elim (set_cases threads i t j (decoding b) e) [
    | inl (same, new) ↦ absurd (no_new b new)
    | inr (apart, e') ↦ g.marked j b e'
  ];
  alone = λ j k b e f. elim (set_cases threads i t j (decoding b) e) [
    | inl (same, new) ↦ absurd (no_new b new)
    | inr (apart, e') ↦ elim (set_cases threads i t k (decoding b) f) [
      | inl (same, new) ↦ absurd (no_new b new)
      | inr (apart', f') ↦ g.alone j k b e' f'
    ]
  ];
  awaited = λ j b n e. elim (set_cases threads i t j (asleep b n) e) [
    | inl (same, new) ↦
        let (k, d) = g.loader b (sleeps b n new) in
        inl (k, still threads i t k (decoding b) old at (no_decoder b) d)
    | inr (apart, e') ↦ elim (g.awaited j b n e') [
      | inl (k, d) ↦ inl (k, still threads i t k (decoding b) old at (no_decoder b) d)
      | inr (k, w) ↦ inr (k, still threads i t k notifying old at no_waker w)
    ]
  ];
}

-- The markers change for one block alone.
abbrev pub Changes : (ℕ → Bool) → (ℕ → Bool) → ℕ → Bool → Type 0
Changes loads loads' block to = (loads' block ≡ to) × ((b : ℕ) → b ≢ block → loads' b ≡ loads b)

-- A thread that was asking starts to decode a block that no thread decoded.
pub started-Agrees :
    (loads loads' : ℕ → Bool) (threads : ℕ → Thread) (i block needed : ℕ)
    → threads i ≡ asking block needed
    → loads block ≡ false
    → Changes loads loads' block true
    → Agrees loads threads
    → Agrees loads' (set_thread threads i (decoding block))
started-Agrees loads loads' threads i block needed at free c g =
    let t = decoding block in
    let keeps : (j : ℕ) (u : Thread)
        → (asking block needed ≡ u → ⊥)
        → threads j ≡ u
        → set_thread threads i t j ≡ u =
      λ j u apart e. still threads i t j u (asking block needed) at apart e in
    let nobody : (j : ℕ) → threads j ≡ decoding block → ⊥ =
      λ j e. let clash : true ≡ false = sym (g.marked j block e) ∙ free in cc in
    record {
      loader = λ b l. elim (Bool-cases (b == block)) [
        | inl same ↦
            let is : b ≡ block = ground arith in (i, set_same threads i t ∙ ap decoding (sym is))
        | inr other ↦
            let (j, e) = g.loader b (sym (c.1 b (ground arith)) ∙ l) in
            (j, keeps j (decoding b) (λ x. cc) e)
      ];
      marked = λ j b e. elim (set_cases threads i t j (decoding b) e) [
        | inl (same, new) ↦ let is : block ≡ b = cc in ap loads' (sym is) ∙ c.0
        | inr (apart, e') ↦ elim (Bool-cases (b == block)) [
          | inl is' ↦ let is : b ≡ block = ground arith in absurd (nobody j (e' ∙ ap decoding is))
          | inr other ↦ c.1 b (ground arith) ∙ g.marked j b e'
        ]
      ];
      alone = λ j k b e f. elim (set_cases threads i t j (decoding b) e) [
        | inl (same, new) ↦ elim (set_cases threads i t k (decoding b) f) [
          | inl (same', new') ↦ same ∙ sym same'
          | inr (apart', f') ↦ absurd (nobody k (f' ∙ sym new))
        ]
        | inr (apart, e') ↦ elim (set_cases threads i t k (decoding b) f) [
          | inl (same', new') ↦ absurd (nobody j (e' ∙ sym new'))
          | inr (apart', f') ↦ g.alone j k b e' f'
        ]
      ];
      awaited = λ j b n e. elim (set_cases threads i t j (asleep b n) e) [
        | inl (same, new) ↦ absurd (cc)
        | inr (apart, e') ↦ elim (g.awaited j b n e') [
          | inl (k, d) ↦ inl (k, keeps k (decoding b) (λ x. cc) d)
          | inr (k, w) ↦ inr (k, keeps k notifying (λ x. cc) w)
        ]
      ];
    }

-- A thread that decoded a block is about to wake the sleepers, and the block is not marked any more.
pub ended-Agrees :
    (loads loads' : ℕ → Bool) (threads : ℕ → Thread) (i block : ℕ)
    → threads i ≡ decoding block
    → Changes loads loads' block false
    → Agrees loads threads
    → Agrees loads' (set_thread threads i notifying)
ended-Agrees loads loads' threads i block at c g =
    let t = notifying in
    let keeps : (j : ℕ) (u : Thread)
        → (decoding block ≡ u → ⊥)
        → threads j ≡ u
        → set_thread threads i t j ≡ u =
      λ j u apart e. still threads i t j u (decoding block) at apart e in
    record {
      loader = λ b l.
          let apart : b ≢ block =
            λ same. let clash : true ≡ false = sym l ∙ ap loads' same ∙ c.0 in cc in
          let (j, e) = g.loader b (sym (c.1 b apart) ∙ l) in
          (j, keeps j (decoding b) (λ x. apart (cc)) e);
      marked = λ j b e. elim (set_cases threads i t j (decoding b) e) [
        | inl (same, new) ↦ absurd (cc)
        | inr (apart, e') ↦
            let other : b ≢ block = λ same. apart (g.alone j i block (e' ∙ ap decoding same) at) in
            c.1 b other ∙ g.marked j b e'
      ];
      alone = λ j k b e f. elim (set_cases threads i t j (decoding b) e) [
        | inl (same, new) ↦ absurd (cc)
        | inr (apart, e') ↦ elim (set_cases threads i t k (decoding b) f) [
          | inl (same', new') ↦ absurd (cc)
          | inr (apart', f') ↦ g.alone j k b e' f'
        ]
      ];
      awaited = λ j b n e. inr (i, set_same threads i t);
    }

woken_decoding : (t : Thread) (b : ℕ) → woken t ≡ decoding b → t ≡ decoding b
woken_decoding idle b e = cc
woken_decoding (asking c n) b e = cc
woken_decoding (asleep c n) b e = cc
woken_decoding (decoding c) b e = e
woken_decoding notifying b e = cc

woken_asleep : (t : Thread) (b n : ℕ) → woken t ≡ asleep b n → ⊥
woken_asleep idle b n e = cc
woken_asleep (asking c m) b n e = cc
woken_asleep (asleep c m) b n e = cc
woken_asleep (decoding c) b n e = cc
woken_asleep notifying b n e = cc

-- Behind a notification nobody sleeps.
pub notified-Agrees :
    (loads : ℕ → Bool) (threads : ℕ → Thread) (i : ℕ)
    → threads i ≡ notifying
    → Agrees loads threads
    → Agrees loads (λ j. woken (set_thread threads i idle j))
notified-Agrees loads threads i at g =
    let was : (j b : ℕ)
        → woken (set_thread threads i idle j) ≡ decoding b
        → threads j ≡ decoding b =
      λ j b e. elim (set_cases threads i idle j (decoding b) (woken_decoding _ b e)) [
        | inl (same, new) ↦ absurd (cc)
        | inr (apart, e') ↦ e'
      ] in
    record {
      loader = λ b l.
          let (j, e) = g.loader b l in
          (j, ap woken (still threads i idle j (decoding b) notifying at (λ x. cc) e));
      marked = λ j b e. g.marked j b (was j b e);
      alone = λ j k b e f. g.alone j k b (was j b e) (was k b f);
      awaited = λ j b n e. absurd (woken_asleep _ b n e);
    }

-- The same markers, said otherwise.
pub same-Agrees :
    (loads loads' : ℕ → Bool) (threads : ℕ → Thread)
    → ((b : ℕ) → loads' b ≡ loads b)
    → Agrees loads threads
    → Agrees loads' threads
same-Agrees loads loads' threads same g = record {
  loader = λ b l. g.loader b (sym (same b) ∙ l);
  marked = λ i b e. same b ∙ g.marked i b e;
  alone = g.alone;
  awaited = g.awaited;
}
