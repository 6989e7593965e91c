-- ===== src/Fs/Directory/Runs.antt =====
-- The lookup of a name in a small directory.
use rdwarfs.Prelude.{subst, ℕ, zero, suc, ◌≡◌, ◌≤◌, ◌<◌, refl, Option, List, [], ◌∷◌, arith}
use rdwarfs.Bytes.{cmp, less}
use rdwarfs.Result.{ok, index}
use rdwarfs.Metadata.Tables.{table_get}
use rdwarfs.Fs.Samples.{sample_fs}
use rdwarfs.Fs.Directory.{dir_entry_range, next_first, lookup_one}
use rdwarfs.Fs.Directory.Search.{same_name, EntryAt, IsOrdered, Answers, lookup_one-Answers}

root_range : dir_entry_range sample_fs 0 ≡ ok (1, 3)
unfolding dir_entry_range next_first index
root_range = refl

first_entry : EntryAt sample_fs 1 (97 ∷ []) 1
unfolding table_get
first_entry = record {
  entry = record { name_index = 0; inode_num = 1 };
  listed = refl;
  named = refl;
  refers = refl;
}

second_entry : EntryAt sample_fs 2 (98 ∷ []) 2
unfolding table_get
second_entry = record {
  entry = record { name_index = 1; inode_num = 2 };
  listed = refl;
  named = refl;
  refers = refl;
}

ascends :
    (i j : ℕ) (a b : List ℕ) (m n : ℕ)
    → 1 ≤ i
    → i < j
    → j < 3
    → EntryAt sample_fs i a m
    → EntryAt sample_fs j b n
    → cmp a b ≡ less
unfolding cmp
ascends i j a b m n l c h p q =
    let i_is : i ≡ 1 = omega arith in
    let j_is : j ≡ 2 = omega arith in
    let a_is =
      same_name sample_fs 1 a (97 ∷ []) m 1 (subst (λ (x : ℕ). EntryAt sample_fs x a m) i_is p)
        first_entry in
    let b_is =
      same_name sample_fs 2 b (98 ∷ []) n 2 (subst (λ (x : ℕ). EntryAt sample_fs x b n) j_is q)
        second_entry in
    rw (a_is, b_is) refl

root-IsOrdered : IsOrdered sample_fs 1 3
root-IsOrdered = record { has_entry = has_entry; ascends = ascends }
  where
    has_entry :
        (i : ℕ) → 1 ≤ i → i < 3 → (name : List ℕ) × ((inode : ℕ) × EntryAt sample_fs i name inode)
    has_entry zero l h = absurd (omega arith)
    has_entry (suc zero) l h = (97 ∷ [], (1, first_entry))
    has_entry (suc (suc zero)) l h = (98 ∷ [], (2, second_entry))
    has_entry (suc (suc (suc i))) l h = absurd (omega arith)

lookup_one-Answers_example :
    (r : Option ℕ) × (lookup_one sample_fs 0 (98 ∷ []) ≡ ok r) × Answers sample_fs 1 3 (98 ∷ []) r
lookup_one-Answers_example = lookup_one-Answers sample_fs 0 1 3 (98 ∷ []) root_range root-IsOrdered
