-- ===== src/Prelude/Words.antt =====
-- Machine words. `usize` and `u64` have 64 bits; a checked operation is `none` where the exact
-- result does not fit, a saturating one stops at the end of the range.
use Prim.Native.Nat.{ℕ, ◌+◌, ◌-◌, ◌*◌, ◌≤◌, ◌<◌, min}
use mathlib.Core.Path.{◌≡◌}
use mathlib.Core.Option.{Option, none, some}
use native.Mathlib.Omega.{arith}
use rdwarfs.Prelude.Tests.{ltb, leb, if◌then◌else◌}

abbrev pub u8_mod : ℕ
u8_mod = 256

abbrev pub u16_mod : ℕ
u16_mod = 65536

abbrev pub u32_mod : ℕ
u32_mod = 4294967296

abbrev pub u64_mod : ℕ
u64_mod = 18446744073709551616

-- No vector and no file is longer: `isize::MAX` bytes.
abbrev pub isize_mod : ℕ
isize_mod = 9223372036854775808

abbrev pub IsByte : ℕ → Type 0
IsByte b = b < u8_mod

-- `a.checked_add(b)` and `a.checked_mul(b)` on `u64` and on `usize`.
abbrev pub checked_add : ℕ → ℕ → Option ℕ
checked_add a b = if ltb (a + b) u64_mod then some (a + b) else none

abbrev pub checked_mul : ℕ → ℕ → Option ℕ
checked_mul a b = if ltb (a * b) u64_mod then some (a * b) else none

abbrev pub saturating_add : ℕ → ℕ → ℕ
saturating_add a b = min (a + b) (u64_mod - 1)

abbrev pub saturating_mul : ℕ → ℕ → ℕ
saturating_mul a b = min (a * b) (u64_mod - 1)

-- `a.checked_add(b).filter(|end| *end <= limit)`.
abbrev pub checked_end : ℕ → ℕ → ℕ → Option ℕ
checked_end a b limit = elim (checked_add a b) [
  | none ↦ none
  | some end ↦ if leb end limit then some end else none
]

-- Below the end of the range the check of the overflow is subsumed by the limit.
pub checked_end_within :
    (a b limit : ℕ) → limit < u64_mod → a + b ≤ limit → checked_end a b limit ≡ some (a + b)
checked_end_within a b limit f h = ground arith

pub checked_end_beyond : (a b limit : ℕ) → limit < a + b → checked_end a b limit ≡ none
checked_end_beyond a b limit h = ground arith

pub checked_end-some :
    (a b limit end : ℕ) → checked_end a b limit ≡ some end → (end ≡ a + b) × (end ≤ limit)
checked_end-some a b limit end h = ground arith
