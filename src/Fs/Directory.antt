-- ===== src/Fs/Directory.antt =====
-- src/fs/read.rs: directories, the lookup of names and of paths, and the traversal.
pub mod Search
mod Runs
use rdwarfs.Prelude.{
  ℕ, zero, suc, ◌+◌, ◌-◌, ◌/◌, Bool, true, false, ◌||◌, Option, none, some, List, [], ◌∷◌, ◌++◌,
  length, get_elem?, ltb, leb, ◌==◌, if◌then◌else◌,
}
use rdwarfs.Bytes.{Ordering, less, equal, greater, cmp}
use rdwarfs.Result.{Result, ok, err, fault, ◌>>=◌, ok_or, decode, index, out_of_fuel}
use rdwarfs.Fs.Inode.{InodeKind, is_directory}
use rdwarfs.Fs.Filesystem.{Filesystem, kind}
use rdwarfs.Metadata.Tables.{DirEntry, table_get}

pub record Node : Type 0 where
  pub inode : ℕ
  pub kind : InodeKind

pub record Listing : Type 0 where
  pub inode : ℕ
  pub kind : InodeKind
  pub name : List ℕ

pub record WalkEntry : Type 0 where
  pub path : List ℕ
  pub inode : ℕ
  pub kind : InodeKind

abbrev pub slash : ℕ
slash = 0x2f

-- `path.split(|b| *b == b'/')`.
abbrev pub onto_first : ℕ → List (List ℕ) → List (List ℕ)
onto_first b [] = (b ∷ []) ∷ []
onto_first b (part ∷ parts) = (b ∷ part) ∷ parts

unfoldable pub split : List ℕ → List (List ℕ)
split [] = [] ∷ []
split (b ∷ bs) = let parts = split bs in if b == slash then [] ∷ parts else onto_first b parts

-- `filter(|s| !s.is_empty())`.
unfoldable pub non_empty : List (List ℕ) → List (List ℕ)
non_empty [] = []
non_empty ([] ∷ parts) = non_empty parts
non_empty ((b ∷ bs) ∷ parts) = (b ∷ bs) ∷ non_empty parts

unfoldable pub split_path : List ℕ → List (List ℕ)
split_path path = non_empty (split path)

module _ (fs : Filesystem) where
  -- Where the entries of the directory behind `i` begin, or the end of the entries.
  unfoldable pub next_first : ℕ → Result ℕ
  next_first i =
      if ltb (i + 1) (length fs.directories)
      then (do next ← index fs.directories (i + 1); ok next.first_entry)
      else ok (length fs.dir_entries)

  unfoldable pub dir_entry_range : ℕ → Result (ℕ × ℕ)
  dir_entry_range i =
      if leb (length fs.directories) i
      then err (decode "fs" "directory inode out of entries")
      else do
        dir ← index fs.directories i
        end ← next_first i
        if ltb (length fs.dir_entries) end || ltb end dir.first_entry
            then err (decode "fs" "directory entry range out of entries")
            else ok (dir.first_entry, end)

  unfoldable pub entry_name : ℕ → Result (List ℕ)
  entry_name i = ok_or (table_get fs.names i) (decode "fs" "name index out of range")

  -- One `match` on the order of the name in the middle and the name sought; `go` is the rest of the loop.
  unfoldable pub narrow : (ℕ → ℕ → Result (Option ℕ)) → ℕ → ℕ → ℕ → ℕ → Ordering → Result (Option ℕ)
  narrow go lo hi mid inode less = go (mid + 1) hi
  narrow go lo hi mid inode greater = go lo mid
  narrow go lo hi mid inode equal = ok (some inode)

  -- `while lo < hi`.
  unfoldable pub search : ℕ → List ℕ → ℕ → ℕ → Result (Option ℕ)
  search zero name lo hi = fault out_of_fuel
  search (suc fuel) name lo hi =
      if ltb lo hi
      then (do
        let mid = lo + (hi - lo) / 2
        de ← index fs.dir_entries mid
        found ← entry_name de.name_index
        narrow (search fuel name) lo hi mid de.inode_num (cmp found name))
      else ok none

  -- Every round narrows the range, so a round for each entry and one more are enough.
  unfoldable pub lookup_one : ℕ → List ℕ → Result (Option ℕ)
  lookup_one dir_inode name = do
    (begin, end) ← dir_entry_range dir_inode
    search (end - begin + 1) name begin end

  unfoldable pub lookup_child : ℕ → List ℕ → Result (Option ℕ)
  lookup_child dir_inode name = do
    what ← kind fs dir_inode
    if is_directory what
        then lookup_one dir_inode name
        else err (decode "fs" "inode is not a directory")

  -- The loop of `lookup` over the components of a path; none of them is empty.
  unfoldable pub descend : ℕ → List (List ℕ) → Result ℕ
  descend inode [] = ok inode
  descend inode (component ∷ components) = do
    what ← kind fs inode
    if is_directory what
        then (do
          found ← lookup_one inode component
          child ← ok_or found (decode "fs" "no entry in inode")
          descend child components)
        else err (decode "fs" "component not under directory")

  unfoldable pub lookup : List ℕ → Result Node
  lookup path = do
    inode ← descend 0 (split_path path)
    what ← kind fs inode
    ok (record { inode = inode; kind = what })

  unfoldable pub listing_at : ℕ → Result Listing
  listing_at i = do
    de ← index fs.dir_entries i
    name ← entry_name de.name_index
    what ← kind fs de.inode_num
    ok (record { inode = de.inode_num; kind = what; name = name })

  -- The rounds left of `for i in begin..end`.
  unfoldable pub list_loop : ℕ → ℕ → Result (List Listing)
  list_loop zero i = ok []
  list_loop (suc rounds) i = do
    entry ← listing_at i
    entries ← list_loop rounds (i + 1)
    ok (entry ∷ entries)

  unfoldable pub read_dir : ℕ → Result (List Listing)
  read_dir inode = do
    what ← kind fs inode
    if is_directory what
        then (do (begin, end) ← dir_entry_range inode; list_loop (end - begin) begin)
        else err (decode "fs" "inode is not a directory")

  -- `for_each_entry`: the visitor is a state, which each call may change, and whether to go on.
  abbrev pub go_on : {S : Type 0} → S × Bool → (S → Result S) → Result S
  go_on (s, true) rest = rest s
  go_on (s, false) rest = ok s

  unfoldable pub visit_loop :
      {S : Type 0} → (ℕ → InodeKind → List ℕ → S → S × Bool) → ℕ → ℕ → S → Result S
  visit_loop visit zero i s = ok s
  visit_loop visit (suc rounds) i s = do
    entry ← listing_at i
    go_on (visit entry.inode entry.kind entry.name s) (visit_loop visit rounds (i + 1))

  unfoldable pub for_each_entry :
      {S : Type 0} → ℕ → (ℕ → InodeKind → List ℕ → S → S × Bool) → S → Result S
  for_each_entry inode visit s = do
    what ← kind fs inode
    if is_directory what
        then (do (begin, end) ← dir_entry_range inode; visit_loop visit (end - begin) begin s)
        else err (decode "fs" "inode is not a directory")

  -- The loop of `walk_inner`; `below` walks a directory under its path.
  unfoldable pub walk_entries :
      (ℕ → List ℕ → Result (List WalkEntry)) → List ℕ → List Listing → Result (List WalkEntry)
  walk_entries below prefix [] = ok []
  walk_entries below prefix (entry ∷ entries) = do
    let path = prefix ++ (slash ∷ entry.name)
    inside ← if is_directory entry.kind then below entry.inode path else ok []
    rest ← walk_entries below prefix entries
    ok (record { path = path; inode = entry.inode; kind = entry.kind } ∷ (inside ++ rest))

  -- Fuel bounds the depth: the code has no bound, and does not end where directories form a cycle.
  unfoldable pub walk_inner : ℕ → ℕ → List ℕ → Result (List WalkEntry)
  walk_inner zero inode prefix = fault out_of_fuel
  walk_inner (suc fuel) inode prefix = do
    entries ← read_dir inode
    walk_entries (walk_inner fuel) prefix entries

  unfoldable pub walk : ℕ → Result (List WalkEntry)
  walk fuel = do
    what ← kind fs 0
    entries ← walk_inner fuel 0 []
    ok (record { path = []; inode = 0; kind = what } ∷ entries)
