-- ===== src/Fs/Links.antt =====
-- src/fs/read.rs: the links between directories that a packed table leaves out, rebuilt.
pub mod Kept
mod Runs
use rdwarfs.Prelude.{
  ℕ, zero, suc, ◌+◌, ◌-◌, ◌%◌, Bool, true, false, not, ◌&&◌, Option, none, some, List, [], ◌∷◌,
  length, replicate, ltb, leb, ◌==◌, if◌then◌else◌, u32_mod,
}
use rdwarfs.Result.{Result, ok, ◌>>=◌, index, store, amend}
use rdwarfs.Fs.Deltas.{Directory}
use rdwarfs.Metadata.Tables.{DirEntry}

-- The closure `entry_range`.
unfoldable pub entry_range : List DirEntry → List Directory → ℕ → Result (Option (ℕ × ℕ))
entry_range dir_entries dirs d = do
  this ← index dirs d
  next ← index dirs (d + 1)
  ok (
      if leb this.first_entry next.first_entry && leb next.first_entry (length dir_entries)
      then some (this.first_entry, next.first_entry)
      else none)

-- What the last loops write: `dirs[child].parent_entry` and `dirs[d].self_entry`.
abbrev pub with_parent : ℕ → Directory → Directory
with_parent parent_self dir = record dir { parent_entry = parent_self }

abbrev pub with_self : ℕ → Directory → Directory
with_self entry dir = record dir { self_entry = entry }

module _ (dir_entries : List DirEntry) (dir_count : ℕ) where
  -- `child < dir_count && child != 0`.
  abbrev pub is_child : ℕ → Bool
  is_child child = ltb child dir_count && not (child == 0)

  -- `if self_entry[child] == 0 { self_entry[child] = e as u32 }`.
  abbrev pub claim : ℕ → ℕ → List ℕ → Result (List ℕ)
  claim e child self_entry = do
    known ← index self_entry child
    if known == 0 then store self_entry child (e % u32_mod) else ok self_entry

  -- Entry `e` becomes the self entry of its directory, unless that has one already.
  unfoldable pub name_child : ℕ → DirEntry → List ℕ → Result (List ℕ)
  name_child e entry self_entry =
      if is_child entry.inode_num then claim e entry.inode_num self_entry else ok self_entry

  unfoldable pub adopt_child : ℕ → DirEntry → List Directory → Result (List Directory)
  adopt_child parent_self entry dirs =
      if is_child entry.inode_num
      then amend (with_parent parent_self) dirs entry.inode_num
      else ok dirs

  -- The rounds left of `for e in range`, with what the entries do to a state.
  unfoldable pub over_entries : {S : Type 0} → (ℕ → DirEntry → S → Result S) → ℕ → ℕ → S → Result S
  over_entries step zero e s = ok s
  over_entries step (suc rounds) e s = do
    entry ← index dir_entries e
    s' ← step e entry s
    over_entries step rounds (e + 1) s'

  -- `let Some(range) = … else { continue }`, and the loop over the range.
  unfoldable pub over_range :
      {S : Type 0} → (ℕ → DirEntry → S → Result S) → Option (ℕ × ℕ) → S → Result S
  over_range step none s = ok s
  over_range step (some (begin, end)) s = over_entries step (end - begin) begin s

  -- The rounds left of `for d in 0..dir_count`.
  unfoldable pub name_loop : ℕ → ℕ → List Directory → List ℕ → Result (List ℕ)
  name_loop zero d dirs self_entry = ok self_entry
  name_loop (suc rounds) d dirs self_entry = do
    range ← entry_range dir_entries dirs d
    named ← over_range name_child range self_entry
    name_loop rounds (d + 1) dirs named

  -- The loop over `self_entry.iter().enumerate()`.
  unfoldable pub adopt_loop : ℕ → List ℕ → List Directory → Result (List Directory)
  adopt_loop d [] dirs = ok dirs
  adopt_loop d (parent_self ∷ self_entry) dirs = do
    range ← entry_range dir_entries dirs d
    adopted ← over_range (λ e. adopt_child parent_self) range dirs
    adopt_loop (d + 1) self_entry adopted

-- The last loop, over `self_entry.into_iter().enumerate()`.
unfoldable pub set_self_entries : ℕ → List ℕ → List Directory → Result (List Directory)
set_self_entries d [] dirs = ok dirs
set_self_entries d (entry ∷ entries) dirs = do
  dirs' ← amend (with_self entry) dirs d
  set_self_entries (d + 1) entries dirs'

unfoldable pub rebuild_directory_links : List Directory → List DirEntry → Result (List Directory)
rebuild_directory_links [] dir_entries = ok []
rebuild_directory_links (dir ∷ dirs) dir_entries = do
  self_entry ←
      name_loop dir_entries (length dirs) (length dirs) 0 (dir ∷ dirs) (replicate (length dirs) 0)
  adopted ← adopt_loop dir_entries (length dirs) 0 self_entry (dir ∷ dirs)
  set_self_entries 0 self_entry adopted
