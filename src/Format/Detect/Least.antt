-- ===== src/Format/Detect/Least.antt =====
-- The scan of a slice finds the least offset at which a section starts.
use rdwarfs.Prelude.{
  ℕ, zero, suc, ◌+◌, ◌-◌, ◌<◌, ◌≤◌, ◌≡◌, refl, sym, ap, ◌∙◌, Bool, true, false, Option, none, some,
  List, length, take, drop, leb, ltb, if◌then◌else◌, checked_add, arith, All, IsByte, Bool-cases,
  inl, inr, ltb→ge, leb→le, leb→gt, ltb→lt, subst, drop-drop, All-take, All-drop,
}
use rdwarfs.Result.{
  slice_to_end, Result, Error, ok, err, fault, ◌>>=◌, Ensures, Succeeds, Succeeds-if, Succeeds-bind,
  slice_lem,
}
use rdwarfs.Bytes.{bytes_eq}
use rdwarfs.Format.Header.{SectionHeader, header_len, magic, parse, section_len, IsValid}
use rdwarfs.Format.Header.Parse.{parse-IsValid}
use rdwarfs.Format.Detect.{
  find_magic, is_boundary, follows_a_section_boundary, Verdict, found, finished, onward, confirmed,
  judge, judge_magic, give_up, resume, detect_loop, detect_base_offset,
}
use rdwarfs.Format.Detect.Start.{
  IsStart, has_magic, IsFirst, find_magic-IsFirst, has_magic-IsStart, is_boundary_ok,
}

-- The answer is the least start, and an error says that there is none.
abbrev pub IsLeast : List ℕ → Result ℕ → Type 0
IsLeast image (ok b) = IsStart image b × ((c : ℕ) → c < b → ¬ IsStart image c)
IsLeast image (err e) = (c : ℕ) → ¬ IsStart image c
IsLeast image (fault x) = ⊥

IsLeast-if :
    (image : List ℕ) (b : Bool) (m n : Result ℕ)
    → (b ≡ true → IsLeast image m)
    → (b ≡ false → IsLeast image n)
    → IsLeast image (if b then m else n)
IsLeast-if image true m n f g = f refl
IsLeast-if image false m n f g = g refl

module _ (image : List ℕ) (bytes : All IsByte image) (long : header_len ≤ length image) where
  -- No section starts before the probe.
  Passed : ℕ → Type 0
  Passed probe = (c : ℕ) → c < probe → ¬ IsStart image c

  -- What a verdict at `probe` promises.
  Sound : ℕ → Verdict → Type 0
  Sound probe (found b) = IsStart image b × Passed b
  Sound probe finished = (c : ℕ) → ¬ IsStart image c
  Sound probe (onward next e) = (probe < next) × (next ≤ length image) × Passed next

  Passed-next : (c : ℕ) → Passed c → ¬ IsStart image c → Passed (c + 1)
  unfolding Passed
  Passed-next c p h i l s = elim (Bool-cases (ltb i c)) [
    | inl before ↦ p i (ltb→lt i c before) s
    | inr here ↦ let at : i ≡ c = omega (arith, ltb→ge i c here) in h (subst (IsStart image) at s)
  ]

  -- No section starts where there is no magic.
  no_magic :
      (probe c : ℕ)
      → probe ≤ c
      → has_magic (drop probe image) (c - probe) ≡ false
      → ¬ IsStart image c
  unfolding has_magic
  no_magic probe c le none_here s =
      let here = has_magic-IsStart image c s in
      let same = drop-drop probe (c - probe) c image (omega (arith, le)) in
      let again : bytes_eq (take 6 (drop c image)) magic ≡ false = rw same at none_here in cc

  Passed-candidate :
      (probe rel : ℕ) → Passed probe → IsFirst (drop probe image) (some rel) → Passed (probe + rel)
  unfolding Passed IsFirst
  Passed-candidate probe rel p f c l s = elim (Bool-cases (ltb c probe)) [
    | inl before ↦ p c (ltb→lt c probe before) s
    | inr behind ↦
        let le = ltb→ge c probe behind in
        no_magic probe c le (f (c - probe) (omega (arith, le, l))) s
  ]

  confirmed-Sound :
      (probe candidate : ℕ) (e : Option Error) (header : SectionHeader) (b : Bool)
      → probe ≤ candidate
      → candidate + header_len ≤ length image
      → parse (take header_len (drop candidate image)) candidate ≡ ok header
      → follows_a_section_boundary image candidate header ≡ ok b
      → Passed candidate
      → Sound probe (confirmed candidate e b)
  unfolding confirmed Sound IsStart
  confirmed-Sound probe candidate e header true le inside p q passed =
      ((inside, (header, p, q)), passed)
  confirmed-Sound probe candidate e header false le inside p q passed = (
    omega arith,
    omega (arith, inside),
    Passed-next candidate passed λ s.
        let (_, (header', p', q')) = s in
        let same : ok header' ≡ ok header = sym p' ∙ p in
        let test = ap (λ r. r >>= λ h. follows_a_section_boundary image candidate h) same in cc,
  )

  judge-Sound :
      (probe candidate : ℕ) (e : Option Error) (parsed : Result SectionHeader)
      → probe ≤ candidate
      → candidate + header_len ≤ length image
      → parse (take header_len (drop candidate image)) candidate ≡ parsed
      → Ensures IsValid parsed
      → Passed candidate
      → Succeeds
          (Sound probe)
          (judge (follows_a_section_boundary image candidate) candidate e parsed)
  unfolding judge Sound IsStart follows_a_section_boundary is_boundary
  judge-Sound probe candidate e (fault x) le inside p v passed = v
  judge-Sound probe candidate e (err e') le inside p v passed = (
    omega arith,
    omega (arith, inside),
    Passed-next candidate passed λ s. let (_, (header, q, _)) = s in cc,
  )
  judge-Sound probe candidate e (ok header) le inside p v passed =
      Succeeds-bind (λ _. Unit {0}) (Sound probe)
        (follows_a_section_boundary image candidate header) _
        (is_boundary_ok image (checked_add candidate (section_len header)))
        λ b q _. confirmed-Sound probe candidate e header b le inside p q passed

  judge_magic-Sound :
      (probe : ℕ) (e : Option Error) (o : Option ℕ)
      → probe ≤ length image - header_len
      → IsFirst (drop probe image) o
      → Passed probe
      → Succeeds (Sound probe) (judge_magic image probe e o)
  unfolding judge_magic Sound
  judge_magic-Sound probe e none le f passed = λ c s. elim (Bool-cases (ltb c probe)) [
    | inl before ↦ unfold Passed in passed c (ltb→lt c probe before) s
    | inr behind ↦ unfold IsFirst in no_magic probe c (ltb→ge c probe behind) (f (c - probe)) s
  ]
  judge_magic-Sound probe e (some rel) le f passed =
      let candidate = probe + rel in
      let first = Passed-candidate probe rel passed f in
      Succeeds-if (Sound probe) (ltb (length image - header_len) candidate) _ _
        (λ past c s.
          unfold Passed in
          unfold IsStart in
          first c (omega (arith, ltb→lt (length image - header_len) candidate past, s.0)) s)
        (λ fits.
          let inside : candidate + header_len ≤ length image =
            omega (arith, long, ltb→ge (length image - header_len) candidate fits) in
          let width : candidate + header_len - candidate ≡ header_len = omega arith in
          rw (slice_lem image candidate (candidate + header_len) (omega arith) inside, width)
            (judge-Sound probe candidate e
              (parse (take header_len (drop candidate image)) candidate) (omega arith) inside refl
              (parse-IsValid _ candidate (
                All-take IsByte header_len (drop candidate image)
                  (All-drop IsByte candidate image bytes)))
              first))

  IsLeast-bind :
      (probe : ℕ) (m : Result Verdict) (f : Verdict → Result ℕ)
      → Succeeds (Sound probe) m
      → ((v : Verdict) → Sound probe v → IsLeast image (f v))
      → IsLeast image (m >>= f)
  IsLeast-bind probe (ok v) f h k = k v h
  IsLeast-bind probe (err e) f h k = absurd h
  IsLeast-bind probe (fault x) f h k = absurd h

  -- Past the last place for a header no section starts any more.
  ended :
      (probe : ℕ) (e : Option Error)
      → Passed probe
      → length image - header_len < probe
      → IsLeast image (err (give_up e))
  unfolding Passed IsStart
  ended probe e passed past c s = passed c (omega (arith, past, s.0)) s

  resume-IsLeast :
      (probe : ℕ) (e : Option Error) (scan : ℕ → Option Error → Result ℕ) (v : Verdict)
      → ((next : ℕ) (e' : Option Error)
          → probe < next
          → next ≤ length image
          → Passed next
          → IsLeast image (scan next e'))
      → Sound probe v
      → IsLeast image (resume scan e v)
  unfolding resume Sound Passed
  resume-IsLeast probe e scan (found b) h sound = sound
  resume-IsLeast probe e scan finished h sound = sound
  resume-IsLeast probe e scan (onward next e') h sound = h next e' sound.0 sound.1 sound.2

  detect_loop-IsLeast :
      (fuel probe : ℕ) (e : Option Error)
      → length image < fuel + probe
      → probe ≤ length image
      → Passed probe
      → IsLeast image (detect_loop fuel image probe e)
  unfolding detect_loop
  detect_loop-IsLeast zero probe e enough inside passed = absurd (omega arith)
  detect_loop-IsLeast (suc fuel) probe e enough inside passed =
      IsLeast-if image (leb probe (length image - header_len)) _ _
        (λ more. rw (slice_to_end image probe inside) (
          IsLeast-bind probe (judge_magic image probe e (find_magic (drop probe image))) _
            (judge_magic-Sound probe e (find_magic (drop probe image))
              (leb→le probe (length image - header_len) more)
              (find_magic-IsFirst (drop probe image)) passed)
            λ v sound.
              resume-IsLeast probe e _ v
                (λ next e' lt. detect_loop-IsLeast fuel next e' (omega (arith, enough, lt))) sound))
        (λ done. ended probe e passed (leb→gt probe (length image - header_len) done))

-- On every byte string the scan returns without a fault, and the offset that it returns is the least at
-- which a section starts: a header that parses, with the end of the image or a magic right behind the
-- section. Where it returns an error instead, no section starts anywhere.
pub detect_base_offset-IsLeast :
    (image : List ℕ) → All IsByte image → IsLeast image (detect_base_offset image)
unfolding detect_base_offset IsStart
detect_base_offset-IsLeast image bytes =
    IsLeast-if image (ltb (length image) header_len) _ _
      (λ short c s. absurd (omega (arith, ltb→lt (length image) header_len short, s.0)))
      (λ long.
        detect_loop-IsLeast image bytes (ltb→ge (length image) header_len long) (length image + 1) 0
          none (omega arith) (omega arith) (unfold Passed in λ c l. absurd (omega arith)))
