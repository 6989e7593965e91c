-- ===== src/Prelude/Slices.antt =====
-- How `take` and `drop` meet `++`: what a reader finds behind what a writer wrote.
use Prim.Native.Nat.{min, ℕ, zero, suc, ◌+◌, ◌-◌, ◌≤◌, ◌<◌}
use mathlib.Core.Path.{◌∙◌, sym, ◌≡◌, refl, ap}
use mathlib.Core.List.{List, [], ◌∷◌, ◌++◌}
use native.Mathlib.Omega.{arith}
use rdwarfs.Prelude.Lists.{replicate, length, take, drop, get_elem?}

module _ {ℓ} {A : Type ℓ} where
  pub drop_past : (xs ys : List A) (n k : ℕ) → n ≡ length xs + k → drop n (xs ++ ys) ≡ drop k ys
  drop_past [] ys n k e = let e' : n ≡ k = omega arith in rw e'
  drop_past (x ∷ xs) ys zero k e = absurd (omega arith)
  drop_past (x ∷ xs) ys (suc n) k e = drop_past xs ys n k (omega arith)

  pub take_exact : (xs ys : List A) (n : ℕ) → n ≡ length xs → take n (xs ++ ys) ≡ xs
  take_exact [] ys zero e = refl
  take_exact [] ys (suc n) e = absurd (omega arith)
  take_exact (x ∷ xs) ys zero e = absurd (omega arith)
  take_exact (x ∷ xs) ys (suc n) e = ap (λ t. x ∷ t) (take_exact xs ys n (omega arith))

  pub take_within : (xs ys : List A) (n : ℕ) → n ≤ length xs → take n (xs ++ ys) ≡ take n xs
  take_within xs ys zero h = refl
  take_within [] ys (suc n) h = absurd (omega arith)
  take_within (x ∷ xs) ys (suc n) h = ap (λ t. x ∷ t) (take_within xs ys n (omega arith))

  pub take_all : (xs : List A) (n : ℕ) → length xs ≤ n → take n xs ≡ xs
  take_all [] zero h = refl
  take_all [] (suc n) h = refl
  take_all (x ∷ xs) zero h = absurd (omega arith)
  take_all (x ∷ xs) (suc n) h = ap (λ t. x ∷ t) (take_all xs n (omega arith))

  pub drop-drop : (m n k : ℕ) (xs : List A) → k ≡ m + n → drop n (drop m xs) ≡ drop k xs
  drop-drop zero n k xs e = let e' : k ≡ n = omega arith in rw e'
  drop-drop (suc m) zero zero [] e = refl
  drop-drop (suc m) zero (suc k) [] e = refl
  drop-drop (suc m) (suc n) zero [] e = refl
  drop-drop (suc m) (suc n) (suc k) [] e = refl
  drop-drop (suc m) n zero (x ∷ xs) e = absurd (omega arith)
  drop-drop (suc m) n (suc k) (x ∷ xs) e = drop-drop m n k xs (omega arith)

  pub get_elem?-drop :
      (m i k : ℕ) (xs : List A) → k ≡ m + i → get_elem? (drop m xs) i ≡ get_elem? xs k
  get_elem?-drop zero i k xs e = let e' : k ≡ i = omega arith in rw e'
  get_elem?-drop (suc m) i k [] e = refl
  get_elem?-drop (suc m) i zero (x ∷ xs) e = absurd (omega arith)
  get_elem?-drop (suc m) i (suc k) (x ∷ xs) e = get_elem?-drop m i k xs (omega arith)

  pub get_elem?-append_left :
      (xs ys : List A) (i : ℕ) → i < length xs → get_elem? (xs ++ ys) i ≡ get_elem? xs i
  get_elem?-append_left [] ys i h = elim h [ ]
  get_elem?-append_left (x ∷ xs) ys zero h = refl
  get_elem?-append_left (x ∷ xs) ys (suc i) h = get_elem?-append_left xs ys i (omega arith)

  pub get_elem?-append_right :
      (xs ys : List A) (k i : ℕ) → i ≡ length xs + k → get_elem? (xs ++ ys) i ≡ get_elem? ys k
  get_elem?-append_right [] ys k i e = let e' : i ≡ k = omega arith in rw e'
  get_elem?-append_right (x ∷ xs) ys k zero e = absurd (omega arith)
  get_elem?-append_right (x ∷ xs) ys k (suc i) e = get_elem?-append_right xs ys k i (omega arith)

  pub take-take : (n m : ℕ) (xs : List A) → n ≤ m → take n (take m xs) ≡ take n xs
  take-take zero m xs h = refl
  take-take (suc n) zero xs h = absurd (omega arith)
  take-take (suc n) (suc m) [] h = refl
  take-take (suc n) (suc m) (x ∷ xs) h = ap (λ t. x ∷ t) (take-take n m xs (omega arith))

  pub drop-take : (m n k : ℕ) (xs : List A) → n ≡ m + k → drop m (take n xs) ≡ take k (drop m xs)
  drop-take zero n k xs e = let e' : n ≡ k = omega arith in rw e'
  drop-take (suc m) zero k xs e = absurd (omega arith)
  drop-take (suc m) (suc n) zero [] e = refl
  drop-take (suc m) (suc n) (suc k) [] e = refl
  drop-take (suc m) (suc n) k (x ∷ xs) e = drop-take m n k xs (omega arith)

  -- A part of a part is a part.
  pub take-drop-take-drop :
      (offset len at count start : ℕ) (xs : List A)
      → at + count ≤ len
      → start ≡ offset + at
      → take count (drop at (take len (drop offset xs))) ≡ take count (drop start xs)
  take-drop-take-drop offset len at count start xs h e = rw (
    drop-take at len (len - at) (drop offset xs) (omega arith),
    drop-drop offset at start xs e,
    take-take count (len - at) (drop start xs) (omega arith),
  )

  -- Parts of two lists in a row.
  pub drop_within : (xs ys : List A) (n : ℕ) → n ≤ length xs → drop n (xs ++ ys) ≡ drop n xs ++ ys
  drop_within xs ys zero h = refl
  drop_within [] ys (suc n) h = absurd (omega arith)
  drop_within (x ∷ xs) ys (suc n) h = drop_within xs ys n (omega arith)

  pub take-append :
      (xs ys : List A) (n : ℕ) → take n (xs ++ ys) ≡ take n xs ++ take (n - length xs) ys
  take-append xs ys zero = let e : 0 - length xs ≡ 0 = omega arith in rw e refl
  take-append [] ys (suc n) = let e : suc n - 0 ≡ suc n = omega arith in rw e refl
  take-append (x ∷ xs) ys (suc n) =
      let e : suc n - suc (length xs) ≡ n - length xs = omega arith in
      rw e (ap (λ t. x ∷ t) (take-append xs ys n))

  pub take-min : (n m : ℕ) (xs : List A) → length xs ≤ m → take (min m n) xs ≡ take n xs
  take-min n m [] h = take_all [] (min m n) (omega arith) ∙ sym (take_all [] n (omega arith))
  take-min zero m (x ∷ xs) h = let e : min m 0 ≡ 0 = omega arith in rw e refl
  take-min (suc n) zero (x ∷ xs) h = absurd (omega arith)
  take-min (suc n) (suc m) (x ∷ xs) h =
      let e : min (suc m) (suc n) ≡ suc (min m n) = omega arith in
      rw e (ap (λ t. x ∷ t) (take-min n m xs (omega arith)))

  pub drop-replicate : (n m : ℕ) (a : A) → drop n (replicate m a) ≡ replicate (m - n) a
  drop-replicate zero m a = let e : m - 0 ≡ m = omega arith in rw e refl
  drop-replicate (suc n) zero a = let e : 0 - suc n ≡ 0 = omega arith in rw e refl
  drop-replicate (suc n) (suc m) a =
      let e : suc m - suc n ≡ m - n = omega arith in rw e (drop-replicate n m a)

  pub take-replicate : (n m : ℕ) (a : A) → n ≤ m → take n (replicate m a) ≡ replicate n a
  take-replicate zero m a h = refl
  take-replicate (suc n) zero a h = absurd (omega arith)
  take-replicate (suc n) (suc m) a h = ap (λ t. a ∷ t) (take-replicate n m a (omega arith))
