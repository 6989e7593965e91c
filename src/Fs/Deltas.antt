-- ===== src/Fs/Deltas.antt =====
-- src/fs/read.rs: the columns that an image stores as differences of 32 bits.
pub mod Undone
mod Runs
use rdwarfs.Prelude.{ℕ, ◌+◌, ◌%◌, List, [], ◌∷◌, u32_mod}

-- The loop of `inclusive_prefix_sum_u32`, with `acc`.
unfoldable pub prefix_loop : ℕ → List ℕ → List ℕ
prefix_loop acc [] = []
prefix_loop acc (d ∷ deltas) = (acc + d) % u32_mod ∷ prefix_loop ((acc + d) % u32_mod) deltas

unfoldable pub inclusive_prefix_sum_u32 : List ℕ → List ℕ
inclusive_prefix_sum_u32 deltas = prefix_loop 0 deltas

-- src/metadata/model.rs.
pub record Directory : Type 0 where
  pub parent_entry : ℕ
  pub first_entry : ℕ
  pub self_entry : ℕ

-- The loop of `unpack_directory_first_entries`, with `acc`: only the first entries change.
unfoldable pub unpack_loop : ℕ → List Directory → List Directory
unpack_loop acc [] = []
unpack_loop acc (d ∷ dirs) =
    record d { first_entry = (acc + d.first_entry) % u32_mod }
    ∷ unpack_loop ((acc + d.first_entry) % u32_mod) dirs

unfoldable pub unpack_directory_first_entries : List Directory → List Directory
unpack_directory_first_entries dirs = unpack_loop 0 dirs
