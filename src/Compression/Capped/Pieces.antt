-- ===== src/Compression/Capped/Pieces.antt =====
-- A codec writes its output piece by piece and stops at the first refusal: what the sinks then hold.
use rdwarfs.Prelude.{
  ℕ, zero, suc, ◌-◌, ◌+◌, ◌≤◌, ◌<◌, ◌≡◌, refl, ap, sym, ◌∙◌, false, Option, none, some, List, [],
  ◌∷◌, ◌++◌, length, take, min, ltb, leb, if◌then◌else◌, saturating_add, arith, length-append,
  append_assoc, append-nil, u64_mod, leb→le, leb→gt, Bool-cases, inl, inr, le→leb, gt→leb, take_all,
  take_within, length-take,
}
use rdwarfs.Compression.Capped.{
  CappedWriter, new, write, PrefixWriter, prefix_new, prefix_write, Written, accepted, refused,
  WriteError, cap_exceeded, prefix_complete,
}

unfoldable pub joined : List (List ℕ) → List ℕ
joined [] = []
joined (p ∷ ps) = p ++ joined ps

unfoldable pub after :
    {W : Type 0} → W × Written → (W → W × Option WriteError) → W × Option WriteError
after (w, accepted n) k = k w
after (w, refused e) k = (w, some e)

-- The writer behind the pieces, and the error that cut them short.
unfoldable pub feed :
    {W : Type 0} → (W → List ℕ → W × Written) → W → List (List ℕ) → W × Option WriteError
feed {W} step w [] = (w, none)
feed {W} step w (p ∷ ps) = after (step w p) λ w'. feed step w' ps

take_behind :
    (xs ys : List ℕ) (n : ℕ) → length xs ≤ n → take n (xs ++ ys) ≡ xs ++ take (n - length xs) ys
take_behind [] ys n h = let e : n - 0 ≡ n = omega arith in rw e refl
take_behind (x ∷ xs) ys zero h = absurd (omega arith)
take_behind (x ∷ xs) ys (suc n) h =
    let e : suc n - suc (length xs) ≡ n - length xs = omega arith in
    rw e (ap (λ zs. x ∷ zs) (take_behind xs ys n (omega arith)))

-- The pieces fit the cap: they are all in the buffer, and nothing else.
feed-write_ok :
    (ps : List (List ℕ)) (w : CappedWriter)
    → w.cap < u64_mod
    → length w.buf + length (joined ps) ≤ w.cap
    → feed write w ps ≡ (record w { buf = w.buf ++ joined ps }, none)
unfolding feed joined write after
feed-write_ok [] w s h = ap (λ (b : List ℕ). (record w { buf = b }, none)) (sym (append-nil w.buf))
feed-write_ok (p ∷ ps) w s h =
    let room = length-append p (joined ps) in
    let fits : ltb w.cap (saturating_add (length w.buf) (length p)) ≡ false =
      ground (arith, room) in
    rw fits (
      feed-write_ok ps (record w { buf = w.buf ++ p }) s
        (omega (arith, room, length-append w.buf p))
      ∙ ap (λ (b : List ℕ). (record w { buf = b }, none)) (append_assoc w.buf p (joined ps)))

feed-write_refused :
    (ps : List (List ℕ)) (w : CappedWriter)
    → w.cap + 1 < u64_mod
    → length w.buf ≤ w.cap
    → w.cap < length w.buf + length (joined ps)
    → (feed write w ps).1 ≡ some cap_exceeded
unfolding feed joined write after
feed-write_refused [] w s i h = absurd (omega arith)
feed-write_refused (p ∷ ps) w s i h =
    elim (Bool-cases (ltb w.cap (saturating_add (length w.buf) (length p)))) [
      | inl over ↦ rw over refl
      | inr fits ↦
          let small : length w.buf + length p ≤ w.cap = ground arith in
          rw fits (
            feed-write_refused ps (record w { buf = w.buf ++ p }) s
              (omega (arith, small, length-append w.buf p))
              (omega (arith, h, length-append p (joined ps), length-append w.buf p)))
    ]

-- The answer of the prefix writer once the pieces are in.
Full : PrefixWriter → List ℕ → PrefixWriter × Option WriteError
Full w all = (
  record w { buf = take w.needed (w.buf ++ all) },
  if leb w.needed (length w.buf + length all) then some prefix_complete else none,
)

Full_eq :
    (w : PrefixWriter) (p rest : List ℕ)
    → Full (record w { buf = w.buf ++ p }) rest ≡ Full w (p ++ rest)
unfolding Full
Full_eq w p rest =
    let same : length (w.buf ++ p) + length rest ≡ length w.buf + length (p ++ rest) =
      omega (arith, length-append w.buf p, length-append p rest) in
    rw (same, append_assoc w.buf p rest) refl

feed-prefix_write :
    (ps : List (List ℕ)) (w : PrefixWriter)
    → length w.buf < w.needed
    → feed prefix_write w ps ≡ Full w (joined ps)
unfolding feed joined prefix_write after Full
feed-prefix_write [] w h =
    rw
      (
        take_all (w.buf ++ []) w.needed (omega (arith, length-append w.buf [])),
        append-nil w.buf,
        gt→leb w.needed (length w.buf + 0) (omega arith),
      )
      refl
feed-prefix_write (p ∷ ps) w h = elim (Bool-cases (leb w.needed (length w.buf + length p))) [
  | inl full ↦
      let room = w.needed - length w.buf in
      let le = leb→le w.needed (length w.buf + length p) full in
      let most : min room (length p) ≡ room = omega (arith, le) in
      let size : length (w.buf ++ take room p) ≡ w.needed =
        omega (arith, le, h, length-append w.buf (take room p), length-take room p) in
      let total = length-append p (joined ps) in
      rw
        (
          most,
          le→leb w.needed (length (w.buf ++ take room p)) (omega arith),
          le→leb w.needed (length w.buf + length (p ++ joined ps)) (omega (arith, le, total)),
          take_behind w.buf (p ++ joined ps) w.needed (omega (arith, h)),
          take_within p (joined ps) room (omega (arith, le)),
        )
        refl
  | inr part ↦
      let room = w.needed - length w.buf in
      let lt = leb→gt w.needed (length w.buf + length p) part in
      let all : min room (length p) ≡ length p = omega (arith, lt) in
      let total = length-append p (joined ps) in
      let grown = length-append w.buf p in
      rw
        (
          all,
          take_all p (length p) (omega arith),
          gt→leb w.needed (length (w.buf ++ p)) (omega (arith, lt, grown)),
          feed-prefix_write ps (record w { buf = w.buf ++ p }) (omega (arith, lt, grown)),
        )
        (Full_eq w p (joined ps))
]

-- The capped writer, fed a codec's output in any pieces whose length together is within the cap, takes
-- them all and holds exactly the output. The cap is below the largest `usize`.
pub feed-within :
    (cap : ℕ) (ps : List (List ℕ))
    → cap + 1 < u64_mod
    → length (joined ps) ≤ cap
    → feed write (new cap) ps ≡ (record { buf = joined ps; cap = cap }, none)
unfolding new
feed-within cap ps s h =
    feed-write_ok ps (record { buf = []; cap = cap }) (omega arith) (omega arith)

-- The capped writer, fed a codec's output in any pieces whose length together is beyond the cap, refuses a
-- write. The cap is below the largest `usize`.
pub feed-beyond :
    (cap : ℕ) (ps : List (List ℕ))
    → cap + 1 < u64_mod
    → cap < length (joined ps)
    → (feed write (new cap) ps).1 ≡ some cap_exceeded
unfolding new
feed-beyond cap ps s h =
    feed-write_refused ps (record { buf = []; cap = cap }) s (omega arith) (omega arith)

-- The prefix writer, fed a codec's output in any pieces, ends with the first `needed` bytes of the output
-- or with all of it where that is shorter, and stops the codec if and only if the output has as many. The
-- number is positive.
pub feed-prefix_new :
    (needed : ℕ) (ps : List (List ℕ))
    → 0 < needed
    → feed prefix_write (prefix_new needed) ps ≡ (
      record { buf = take needed (joined ps); needed = needed },
      if leb needed (length (joined ps)) then some prefix_complete else none,
    )
unfolding prefix_new Full
feed-prefix_new needed ps h =
    let zero_plus : 0 + length (joined ps) ≡ length (joined ps) = omega arith in
    feed-prefix_write ps (record { buf = []; needed = needed }) h
    ∙ ap
        (λ (n : ℕ). (
          record { buf = take needed (joined ps); needed = needed },
          if leb needed n then some prefix_complete else none,
        ))
        zero_plus
