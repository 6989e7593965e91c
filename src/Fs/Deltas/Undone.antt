-- ===== src/Fs/Deltas/Undone.antt =====
-- A column that is stored as differences is read back.
use rdwarfs.Prelude.{ℕ, ◌+◌, ◌-◌, ◌%◌, ◌<◌, ◌≡◌, refl, List, [], ◌∷◌, All, u32_mod, arith}
use rdwarfs.Fs.Deltas.{
  prefix_loop, inclusive_prefix_sum_u32, Directory, unpack_loop, unpack_directory_first_entries,
}

-- The differences that wrap to a number from the one before it.
unfoldable pub differences : ℕ → List ℕ → List ℕ
differences prev [] = []
differences prev (x ∷ xs) = (x + (u32_mod - prev)) % u32_mod ∷ differences x xs

abbrev pub IsU32 : ℕ → Type 0
IsU32 x = x < u32_mod

step_back :
    (prev x : ℕ)
    → prev < u32_mod
    → x < u32_mod
    → (prev + (x + (u32_mod - prev)) % u32_mod) % u32_mod ≡ x
step_back prev x p h = omega arith

prefix_loop-differences :
    (prev : ℕ) (xs : List ℕ)
    → prev < u32_mod
    → All IsU32 xs
    → prefix_loop prev (differences prev xs) ≡ xs
unfolding prefix_loop differences
prefix_loop-differences prev [] p h = refl
prefix_loop-differences prev (x ∷ xs) p h =
    rw (step_back prev x p h.0, prefix_loop-differences x xs h.0 h.1) refl

-- A column of 32-bit numbers, stored as wrapping differences from 0 on, is restored by the prefix sums,
-- whether it ascends or not.
pub inclusive_prefix_sum_u32-differences :
    (xs : List ℕ) → All IsU32 xs → inclusive_prefix_sum_u32 (differences 0 xs) ≡ xs
unfolding inclusive_prefix_sum_u32
inclusive_prefix_sum_u32-differences xs h = prefix_loop-differences 0 xs (omega arith) h

-- Directories with their first entries stored as differences.
unfoldable pub packed : ℕ → List Directory → List Directory
packed prev [] = []
packed prev (d ∷ dirs) =
    record d { first_entry = (d.first_entry + (u32_mod - prev)) % u32_mod }
    ∷ packed d.first_entry dirs

abbrev pub HasU32 : Directory → Type 0
HasU32 d = d.first_entry < u32_mod

unpack_loop-packed :
    (prev : ℕ) (dirs : List Directory)
    → prev < u32_mod
    → All HasU32 dirs
    → unpack_loop prev (packed prev dirs) ≡ dirs
unfolding unpack_loop packed
unpack_loop-packed prev [] p h = refl
unpack_loop-packed prev (d ∷ dirs) p h =
    rw (step_back prev d.first_entry p h.0, unpack_loop-packed d.first_entry dirs h.0 h.1) refl

-- Directories whose first entries are stored as wrapping differences from 0 on are restored by unpacking
-- them, their other columns untouched. The first entries are 32-bit numbers.
pub unpack_directory_first_entries-packed :
    (dirs : List Directory)
    → All HasU32 dirs
    → unpack_directory_first_entries (packed 0 dirs) ≡ dirs
unfolding unpack_directory_first_entries
unpack_directory_first_entries-packed dirs h = unpack_loop-packed 0 dirs (omega arith) h
