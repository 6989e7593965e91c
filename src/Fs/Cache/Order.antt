-- ===== src/Fs/Cache/Order.antt =====
-- Lists without repetition: a member taken out, or put behind the others, and the sum of a size over them.
use rdwarfs.Prelude.{
  ◌∙◌, ap, subst, ℕ, ◌+◌, ◌≡◌, ◌≢◌, refl, true, false, ◌||◌, List, [], ◌∷◌, ◌++◌, ◌==◌, arith,
  Bool-cases, inl, inr,
}
use rdwarfs.Fs.Cache.{contains, remove_first}

abbrev pub Distinct : List ℕ → Type 0
Distinct [] = Unit
Distinct (x ∷ xs) = (contains x xs ≡ false) × Distinct xs

abbrev pub total : (ℕ → ℕ) → List ℕ → ℕ
total size [] = 0
total size (x ∷ xs) = size x + total size xs

pub remove_first-absent : (b : ℕ) (xs : List ℕ) → contains b xs ≡ false → remove_first b xs ≡ xs
remove_first-absent b [] h = refl
remove_first-absent b (x ∷ xs) h = ground (arith, remove_first-absent b xs)

pub contains-remove_other :
    (b j : ℕ) (xs : List ℕ) → j ≢ b → contains j (remove_first b xs) ≡ contains j xs
contains-remove_other b j [] h = refl
contains-remove_other b j (x ∷ xs) h = ground (arith, contains-remove_other b j xs h)

pub contains-remove_same :
    (b : ℕ) (xs : List ℕ) → Distinct xs → contains b (remove_first b xs) ≡ false
contains-remove_same b [] h = refl
contains-remove_same b (x ∷ xs) h = elim (Bool-cases (x == b)) [
  | inl t ↦
      let same : x ≡ b = ground arith in rw t (subst (λ (y : ℕ). contains y xs ≡ false) same h.0)
  | inr f ↦ rw (f, f) (contains-remove_same b xs h.1)
]

pub remove_first-Distinct : (b : ℕ) (xs : List ℕ) → Distinct xs → Distinct (remove_first b xs)
remove_first-Distinct b [] h = tt
remove_first-Distinct b (x ∷ xs) h = elim (Bool-cases (x == b)) [
  | inl t ↦ rw t h.1
  | inr f ↦
      let apart : x ≢ b = ground arith in
      rw f (contains-remove_other b x xs apart ∙ h.0, remove_first-Distinct b xs h.1)
]

pub contains-push_back :
    (j b : ℕ) (xs : List ℕ) → contains j (xs ++ (b ∷ [])) ≡ (contains j xs || (b == j))
contains-push_back j b [] = ground arith
contains-push_back j b (x ∷ xs) = ground (arith, contains-push_back j b xs)

pub push_back-Distinct :
    (b : ℕ) (xs : List ℕ) → contains b xs ≡ false → Distinct xs → Distinct (xs ++ (b ∷ []))
push_back-Distinct b [] n d = (refl, tt)
push_back-Distinct b (x ∷ xs) n d =
    let absent : contains x (xs ++ (b ∷ [])) ≡ false =
      ground (arith, contains-push_back x b xs, d.0, n) in
    let behind : contains b xs ≡ false = ground (arith, n) in
    (absent, push_back-Distinct b xs behind d.1)

module _ (size : ℕ → ℕ) where
  pub total-push_back : (b : ℕ) (xs : List ℕ) → total size (xs ++ (b ∷ [])) ≡ total size xs + size b
  total-push_back b [] = omega arith
  total-push_back b (x ∷ xs) = omega (arith, total-push_back b xs)

  pub total-remove_first :
      (b : ℕ) (xs : List ℕ)
      → contains b xs ≡ true
      → total size xs ≡ size b + total size (remove_first b xs)
  total-remove_first b [] h = cc
  total-remove_first b (x ∷ xs) h = elim (Bool-cases (x == b)) [
    | inl t ↦ let same : x ≡ b = ground arith in rw t (ap (λ (y : ℕ). size y + total size xs) same)
    | inr f ↦
        let inside : contains b xs ≡ true = ground arith in
        rw f (omega (arith, total-remove_first b xs inside))
  ]

-- Only the sizes of the members count.
pub total-same :
    (size size' : ℕ → ℕ) (xs : List ℕ)
    → ((j : ℕ) → contains j xs ≡ true → size j ≡ size' j)
    → total size xs ≡ total size' xs
total-same size size' [] h = refl
total-same size size' (x ∷ xs) h =
    let here : size x ≡ size' x = h x (ground arith) in
    omega (arith, here, total-same size size' xs λ j c. h j (ground (arith, c)))
