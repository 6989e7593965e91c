-- ===== src/Result.antt =====
-- src/error.rs: the crate's error type, and the results of code that may fail.
--
-- An error message keeps its constant text; the values that a message interpolates are left out, and
-- so is the payload of an I/O error. Beside Rust's `Ok` and `Err` a result may be a fault: `panic`
-- is an index or a slice out of bounds, an overflow of plain arithmetic or a buffer above
-- `isize::MAX`, and `out_of_fuel` is no Rust value but a loop of the model that was given too few
-- rounds.
use rdwarfs.Prelude.{
  length-drop, take_all, ℕ, ◌+◌, ◌-◌, ◌≤◌, ◌<◌, ◌≡◌, refl, String, checked_add, u64_mod, lt→ltb,
  Bool, true, false, ◌&&◌, ◌⊎◌, inl, inr, Option, none, some, List, length, take, drop, ◌++◌, ap,
  ◌∙◌, length-append, drop_past, take_exact, get_elem?, get_elem?_lt, set, ltb, leb, le→leb,
  if◌then◌else◌, arith,
}

pub data Error : Type 0 where
  io : Error
  truncated_header : ℕ → Error
  bad_magic : ℕ → Error
  not_a_dwarfs_image : Error
  unsupported_version : ℕ → ℕ → Error
  truncated_section : ℕ → ℕ → Error
  corrupt_section_index : String → Error
  integrity_mismatch : ℕ → String → Error
  cap_exceeded : String → ℕ → ℕ → Error
  codec_disabled : String → Error
  codec_unimplemented : String → Error
  source_out_of_bounds : ℕ → ℕ → ℕ → Error
  unsupported_feature : List ℕ → Error
  unknown_compression : ℕ → Error
  decode : String → String → Error
  encode : String → String → Error

infixl 5 ◌>>=◌ ◌>>◌
pub data Fault : Type 0 where
  panic out_of_fuel : Fault

pub data Result {ℓ} (A : Type ℓ) : Type ℓ where
  ok : A → Result A
  err : Error → Result A
  fault : Fault → Result A

-- `?` on a step, and the rest of the function.
abbrev pub ◌>>=◌ {ℓ κ} :
    {Step : Type ℓ} {Rest : Type κ} → Result Step → (Step → Result Rest) → Result Rest
◌>>=◌ (fault x) next = fault x
◌>>=◌ (err e) next = err e
◌>>=◌ (ok value) next = next value

abbrev pub ◌>>◌ {κ} : {Rest : Type κ} → Result (Unit {0}) → Result Rest → Result Rest
◌>>◌ first second = first >>= λ done. second

-- `option.ok_or(error)?`
abbrev pub ok_or {ℓ} : {A : Type ℓ} → Option A → Error → Result A
ok_or none e = err e
ok_or (some a) e = ok a

-- A value that the code takes for granted, as `unwrap` does.
abbrev pub or_panic {ℓ} : {A : Type ℓ} → Option A → Result A
or_panic none = fault panic
or_panic (some a) = ok a

module _ {ℓ} {A : Type ℓ} where
  -- `xs[i]` and `xs[from..to]`.
  unfoldable pub index : List A → ℕ → Result A
  index xs i = or_panic (get_elem? xs i)

  unfoldable pub slice : List A → ℕ → ℕ → Result (List A)
  slice xs from to =
      if leb from to && leb to (length xs)
      then ok (take (to - from) (drop from xs))
      else fault panic

  -- `xs[i] = x`, and a change of `xs[i]` in place.
  unfoldable pub store : List A → ℕ → A → Result (List A)
  store xs i x = if ltb i (length xs) then ok (set xs i x) else fault panic

  unfoldable pub amend : (A → A) → List A → ℕ → Result (List A)
  unfolding index
  amend f xs i = do x ← index xs i; ok (set xs i (f x))

  pub index_lem : (xs : List A) (i : ℕ) (x : A) → get_elem? xs i ≡ some x → index xs i ≡ ok x
  unfolding index
  index_lem xs i x e = rw e

  pub index_lt : (xs : List A) (i : ℕ) → i < length xs → (x : A) × (index xs i ≡ ok x)
  unfolding index
  index_lt xs i h = let (x, e) = get_elem?_lt xs i h in (x, rw e)

  pub slice_lem :
      (xs : List A) (from to : ℕ)
      → from ≤ to
      → to ≤ length xs
      → slice xs from to ≡ ok (take (to - from) (drop from xs))
  unfolding slice
  slice_lem xs from to p q = rw (le→leb _ _ p, le→leb _ _ q)

-- Whatever the outcome, it is no fault, and a value satisfies `P`.
abbrev pub Ensures {ℓ} : {A : Type ℓ} → (A → Type 0) → Result A → Type 0
Ensures P (ok a) = P a
Ensures P (err e) = Unit
Ensures P (fault x) = ⊥

abbrev pub Succeeds {ℓ} : {A : Type ℓ} → (A → Type 0) → Result A → Type 0
Succeeds P (ok a) = P a
Succeeds P (err e) = ⊥
Succeeds P (fault x) = ⊥

module _ {ℓ κ} {A : Type ℓ} {B : Type κ} where
  -- Ensures of a step and of what follows it, at the value that the step returned.
  pub Ensures-bind :
      (P : A → Type 0) (Q : B → Type 0) (m : Result A) (f : A → Result B)
      → Ensures P m
      → ((a : A) → m ≡ ok a → P a → Ensures Q (f a))
      → Ensures Q (m >>= f)
  Ensures-bind P Q (ok a) f h k = k a refl h
  Ensures-bind P Q (err e) f h k = tt
  Ensures-bind P Q (fault x) f h k = h

  pub Succeeds-bind :
      (P : A → Type 0) (Q : B → Type 0) (m : Result A) (f : A → Result B)
      → Succeeds P m
      → ((a : A) → m ≡ ok a → P a → Succeeds Q (f a))
      → Succeeds Q (m >>= f)
  Succeeds-bind P Q (ok a) f h k = k a refl h
  Succeeds-bind P Q (err e) f h k = h
  Succeeds-bind P Q (fault x) f h k = h

  -- A step and the rest, where both succeed together.
  pub >>=-eq-ok :
      (step : Result A) (rest : A → Result B) {b : B}
      → step >>= rest ≡ ok b
      → (a : A) × (step ≡ ok a) × (rest a ≡ ok b)
  >>=-eq-ok (fault x) rest e = cc
  >>=-eq-ok (err x) rest e = cc
  >>=-eq-ok (ok a) rest e = (a, refl, e)

module _ {ℓ} {A : Type ℓ} where
  pub Ensures-imp :
      (P Q : A → Type 0) (m : Result A)
      → ((a : A) → m ≡ ok a → P a → Q a)
      → Ensures P m
      → Ensures Q m
  Ensures-imp P Q (ok a) f h = f a refl h
  Ensures-imp P Q (err e) f h = tt
  Ensures-imp P Q (fault x) f h = h

  pub Ensures-ok : (P : A → Type 0) (m : Result A) (a : A) → m ≡ ok a → P a → Ensures P m
  Ensures-ok P m a e p = rw e p

  pub Ensures-value : (P : A → Type 0) (m : Result A) (a : A) → Ensures P m → m ≡ ok a → P a
  Ensures-value P m a h e = rw e at h

  pub Ensures-ok_or :
      (P : A → Type 0) (o : Option A) (e : Error)
      → ((a : A) → o ≡ some a → P a)
      → Ensures P (ok_or o e)
  Ensures-ok_or P none e f = tt
  Ensures-ok_or P (some a) e f = f a refl

  pub Ensures-if :
      (P : A → Type 0) (b : Bool) (m n : Result A)
      → (b ≡ true → Ensures P m)
      → (b ≡ false → Ensures P n)
      → Ensures P (if b then m else n)
  Ensures-if P true m n f g = f refl
  Ensures-if P false m n f g = g refl

  pub Succeeds-if :
      (P : A → Type 0) (b : Bool) (m n : Result A)
      → (b ≡ true → Succeeds P m)
      → (b ≡ false → Succeeds P n)
      → Succeeds P (if b then m else n)
  Succeeds-if P true m n f g = f refl
  Succeeds-if P false m n f g = g refl

  pub slice-Ensures :
      (P : List A → Type 0) (xs : List A) (from to : ℕ)
      → from ≤ to
      → to ≤ length xs
      → P (take (to - from) (drop from xs))
      → Ensures P (slice xs from to)
  slice-Ensures P xs from to p q h = rw (slice_lem xs from to p q) h

  pub Result-cases :
      (r : Result A)
      → ((a : A) × (r ≡ ok a)) ⊎ ((e : Error) × (r ≡ err e)) ⊎ ((x : Fault) × (r ≡ fault x))
  Result-cases (ok a) = inl (a, refl)
  Result-cases (err e) = inr (inl (e, refl))
  Result-cases (fault x) = inr (inr (x, refl))

-- `a + b` on `u64` or `usize`, with overflow checks on.
abbrev pub plain_add : ℕ → ℕ → Result ℕ
plain_add a b = or_panic (checked_add a b)

pub plain_add_lem : (a b : ℕ) → a + b < u64_mod → plain_add a b ≡ ok (a + b)
plain_add_lem a b h = rw (lt→ltb _ _ h)

-- A slice behind a known prefix.
pub slice_between {ℓ} :
    {A : Type ℓ} (before value after : List A) (from to : ℕ)
    → from ≡ length before
    → to ≡ length before + length value
    → slice (before ++ (value ++ after)) from to ≡ ok value
slice_between before value after from to e f =
    slice_lem (before ++ (value ++ after)) from to (omega arith)
      (omega (arith, length-append before (value ++ after), length-append value after))
    ∙ ap ok (
        ap (take (to - from)) (drop_past before (value ++ after) from 0 (omega arith))
        ∙ take_exact value after (to - from) (omega arith))

-- A slice to the end.
pub slice_to_end {ℓ} :
    {A : Type ℓ} (bytes : List A) (from : ℕ)
    → from ≤ length bytes
    → slice bytes from (length bytes) ≡ ok (drop from bytes)
slice_to_end bytes from h =
    slice_lem bytes from (length bytes) h (omega arith)
    ∙ ap ok
        (take_all (drop from bytes) (length bytes - from) (omega (arith, length-drop from bytes)))

-- `a - b` on unsigned integers, with overflow checks on.
abbrev pub plain_sub : ℕ → ℕ → Result ℕ
plain_sub a b = if leb b a then ok (a - b) else fault panic

pub plain_sub_lem : (a b : ℕ) → b ≤ a → plain_sub a b ≡ ok (a - b)
plain_sub_lem a b h = rw (le→leb _ _ h)

-- The outcome is no fault.
abbrev pub Returns {ℓ} : {A : Type ℓ} → Result A → Type 0
Returns m = Ensures (λ _. Unit {0}) m

pub Returns-bind {ℓ κ} :
    {A : Type ℓ} {B : Type κ} (P : A → Type 0) (m : Result A) (f : A → Result B)
    → Ensures P m
    → ((a : A) → P a → Returns (f a))
    → Returns (m >>= f)
Returns-bind P m f p q = Ensures-bind P (λ _. Unit {0}) m f p λ a _ h. q a h

module _ {ℓ} {A : Type ℓ} where
  pub Returns-if :
      (b : Bool) (m n : Result A)
      → (b ≡ true → Returns m)
      → (b ≡ false → Returns n)
      → Returns (if b then m else n)
  Returns-if b m n p q = Ensures-if (λ _. Unit {0}) b m n p q

  pub ok_or-Returns : (o : Option A) (e : Error) → Returns (ok_or o e)
  ok_or-Returns o e = Ensures-ok_or (λ _. Unit {0}) o e λ _ _. tt

module _ {A : Type 0} where
  pub index-Ensures :
      (xs : List A) (i : ℕ) → i < length xs → Ensures (λ x. get_elem? xs i ≡ some x) (index xs i)
  index-Ensures xs i h = let (x, e) = get_elem?_lt xs i h in Ensures-ok _ _ x (index_lem xs i x e) e

pub ok_injective {ℓ} : {A : Type ℓ} (x y : A) → ok x ≡ ok y → x ≡ y
ok_injective x y e = cc

module _ {A : Type 0} where
  pub index-Succeeds :
      (xs : List A) (i : ℕ) → i < length xs → Succeeds (λ x. get_elem? xs i ≡ some x) (index xs i)
  index-Succeeds xs i h = let (x, e) = get_elem?_lt xs i h in rw (index_lem xs i x e) e

  pub store_lem : (xs : List A) (i : ℕ) (x : A) → i < length xs → store xs i x ≡ ok (set xs i x)
  unfolding store
  store_lem xs i x h = rw (lt→ltb _ _ h)

  pub store-Ensures :
      (P : List A → Type 0) (xs : List A) (i : ℕ) (x : A)
      → i < length xs
      → P (set xs i x)
      → Ensures P (store xs i x)
  store-Ensures P xs i x h p = rw (store_lem xs i x h) p

  pub store-Succeeds :
      (P : List A → Type 0) (xs : List A) (i : ℕ) (x : A)
      → i < length xs
      → P (set xs i x)
      → Succeeds P (store xs i x)
  store-Succeeds P xs i x h p = rw (store_lem xs i x h) p

  pub amend-Succeeds :
      (P : List A → Type 0) (f : A → A) (xs : List A) (i : ℕ)
      → i < length xs
      → ((x : A) → get_elem? xs i ≡ some x → P (set xs i (f x)))
      → Succeeds P (amend f xs i)
  unfolding amend
  amend-Succeeds P f xs i h p =
      Succeeds-bind (λ x. get_elem? xs i ≡ some x) P (index xs i) _ (index-Succeeds xs i h)
        λ x _ e. p x e

  pub Succeeds-Ensures : (P : A → Type 0) (m : Result A) → Succeeds P m → Ensures P m
  Succeeds-Ensures P (ok a) h = h
  Succeeds-Ensures P (err e) h = absurd h
  Succeeds-Ensures P (fault x) h = h

  pub Succeeds-imp :
      (P Q : A → Type 0) (m : Result A)
      → ((a : A) → m ≡ ok a → P a → Q a)
      → Succeeds P m
      → Succeeds Q m
  Succeeds-imp P Q (ok a) f h = f a refl h
  Succeeds-imp P Q (err e) f h = h
  Succeeds-imp P Q (fault x) f h = h
