-- ===== src/Metadata/Thrift/Steady.antt =====
-- Actions of the reader that meet no fault and only move on inside the input: the rules to build them,
-- and that every primitive read is one.
use rdwarfs.Prelude.{
  ℕ, ◌-◌, ◌≤◌, ◌<◌, ◌≡◌, refl, ap, String, ◌∙◌, Bool, true, false, Option, none, some, List, length,
  if◌then◌else◌, arith,
}
use rdwarfs.Result.{Result, ok, err, fault}
use rdwarfs.Metadata.Thrift.{ThriftReader, Reader, followed, ◌>>=◌, pure, fail, ensure}

abbrev pub IsInside : ThriftReader → Type 0
IsInside r = r.pos ≤ length r.bytes

-- What the run from `r` to `s` leaves alone: the input and the enclosing frames, and if `keep` the
-- current field id too.
pub record Goes (keep : Bool) (r s : ThriftReader) : Type 0 where
  pub bytes : s.bytes ≡ r.bytes
  pub onward : r.pos ≤ s.pos
  pub inside : IsInside s
  pub stack : s.stack ≡ r.stack
  pub last_field_id : keep ≡ true → s.last_field_id ≡ r.last_field_id

-- The outcome is no fault, and where it is a value the state satisfies `P`.
abbrev pub Leads : {A : Type 0} → (ThriftReader → Type 0) → Result (A × ThriftReader) → Type 0
Leads P (ok (a, r)) = P r
Leads P (err e) = Unit
Leads P (fault x) = ⊥

-- How much of the input is left.
abbrev pub left : ThriftReader → ℕ
left r = length r.bytes - r.pos

-- `m` goes on from every state with at most `k` bytes left.
pub record Steady {A : Type 0} (keep : Bool) (k : ℕ) (m : Reader A) : Type 0 where
  pub at : (r : ThriftReader) → IsInside r → left r ≤ k → Leads (Goes keep r) (m r)

-- `m` goes on by a byte at least.
pub record Forward {A : Type 0} (keep : Bool) (m : Reader A) : Type 0 where
  pub at : (r : ThriftReader) → IsInside r → Leads (λ s. Goes keep r s × (r.pos < s.pos)) (m r)

module _ {A B : Type 0} (P Q : ThriftReader → Type 0) where
  pub Leads-bind :
      (m : Result (A × ThriftReader)) (f : A → Reader B)
      → Leads P m
      → ((a : A) (r : ThriftReader) → P r → Leads Q (f a r))
      → Leads Q (followed m f)
  Leads-bind (ok (a, r)) f h k = k a r h
  Leads-bind (err e) f h k = tt
  Leads-bind (fault x) f h k = h

module _ {A : Type 0} (P Q : ThriftReader → Type 0) where
  pub Leads-imp :
      (m : Result (A × ThriftReader)) → ((r : ThriftReader) → P r → Q r) → Leads P m → Leads Q m
  Leads-imp (ok (a, r)) f h = f r h
  Leads-imp (err e) f h = tt
  Leads-imp (fault x) f h = h

pub Goes-refl : (keep : Bool) (r : ThriftReader) → IsInside r → Goes keep r r
Goes-refl keep r h = record {
  bytes = refl;
  onward = omega arith;
  inside = h;
  stack = refl;
  last_field_id = λ _. refl;
}

pub Goes-trans :
    (keep : Bool) (r s t : ThriftReader) → Goes keep r s → Goes keep s t → Goes keep r t
Goes-trans keep r s t p q = record {
  bytes = q.bytes ∙ p.bytes;
  onward = omega (arith, p.onward, q.onward);
  inside = q.inside;
  stack = q.stack ∙ p.stack;
  last_field_id = λ e. q.last_field_id e ∙ p.last_field_id e;
}

left-le : (keep : Bool) (r s : ThriftReader) → Goes keep r s → left s ≤ left r
left-le keep r s g = omega (arith, g.onward, ap (λ (xs : List ℕ). length xs) g.bytes)

left-lt : (keep : Bool) (r s : ThriftReader) → Goes keep r s → r.pos < s.pos → left s < left r
left-lt keep r s g h = omega (arith, g.inside, ap (λ (xs : List ℕ). length xs) g.bytes)

module _ {keep : Bool} {A : Type 0} where
  pub Steady-pure : (k : ℕ) (a : A) → Steady keep k (pure a)
  Steady-pure k a = record { at = λ r h _. Goes-refl keep r h }

  pub Steady-fail : (k : ℕ) (message : String) → Steady keep k (fail {A = A} message)
  Steady-fail k message = record { at = λ r h _. tt }

  pub Steady-ensure : (k : ℕ) (o : Option A) (message : String) → Steady keep k (ensure o message)
  Steady-ensure k none message = Steady-fail k message
  Steady-ensure k (some a) message = Steady-pure k a

  pub Steady-if :
      (k : ℕ) (b : Bool) (m n : Reader A)
      → Steady keep k m
      → Steady keep k n
      → Steady keep k (if b then m else n)
  Steady-if k true m n p q = p
  Steady-if k false m n p q = q

  pub Steady-Forward : (k : ℕ) (m : Reader A) → Forward keep m → Steady keep k m
  Steady-Forward k m f = record {
    at = λ r h _.
        Leads-imp (λ s. Goes keep r s × (r.pos < s.pos)) (Goes keep r) (m r) (λ s g. g.0)
          (f.at r h);
  }

module _ {keep : Bool} {A B : Type 0} where
  pub Steady-bind :
      (k : ℕ) (m : Reader A) (f : A → Reader B)
      → Steady keep k m
      → ((a : A) → Steady keep k (f a))
      → Steady keep k (m >>= f)
  Steady-bind k m f p q = record {
    at = λ r h l. Leads-bind (Goes keep r) (Goes keep r) (m r) f (p.at r h l) λ a s g.
        Leads-imp (Goes keep s) (Goes keep r) (f a s) (λ t. Goes-trans keep r s t g)
          ((q a).at s g.inside (omega (arith, left-le keep r s g)));
  }

  pub Forward-bind :
      (m : Reader A) (f : A → Reader B)
      → Forward keep m
      → ((a : A) (k : ℕ) → Steady keep k (f a))
      → Forward keep (m >>= f)
  Forward-bind m f p q = record {
    at = λ r h.
        Leads-bind (λ s. Goes keep r s × (r.pos < s.pos)) (λ s. Goes keep r s × (r.pos < s.pos))
          (m r) f (p.at r h)
          λ a s g.
            Leads-imp (Goes keep s) (λ t. Goes keep r t × (r.pos < t.pos)) (f a s)
              (λ t d. (Goes-trans keep r s t g.0 d, omega (arith, g.1, d.onward)))
              ((q a (left s)).at s g.0.inside (omega arith));
  }

  -- Behind a step that takes a byte less is left, which is what bounds a recursion.
  pub Steady-after :
      (k : ℕ) (m : Reader A) (f : A → Reader B)
      → Forward keep m
      → ((a : A) (j : ℕ) → j < k → Steady keep j (f a))
      → Steady keep k (m >>= f)
  Steady-after k m f p q = record {
    at = λ r h l.
        Leads-bind (λ s. Goes keep r s × (r.pos < s.pos)) (Goes keep r) (m r) f (p.at r h)
          λ a s g.
            Leads-imp (Goes keep s) (Goes keep r) (f a s) (λ t. Goes-trans keep r s t g.0)
              ((q a (left s) (omega (arith, left-lt keep r s g.0 g.1))).at s g.0.inside
                (omega arith));
  }

pub ruleset steady_rules = (Steady-pure, Steady-fail, Steady-ensure, Steady-if, Steady-bind)
