-- ===== src/Fs/Links/Kept.antt =====
-- Rebuilding the links never panics, and leaves the ranges of the directories as they were.
use mathlib.Core.Option.{some-injective}
use rdwarfs.Prelude.{
  set, ◌%◌, u32_mod, ◌==◌, ℕ, zero, suc, ◌+◌, ◌-◌, ◌≤◌, ◌<◌, ◌≡◌, refl, sym, ◌∙◌, ap, Bool, true,
  false, ◌&&◌, Option, none, some, List, [], ◌∷◌, length, map, replicate, length-replicate,
  length-set, get_elem?, leb, if◌then◌else◌, arith,
}
use rdwarfs.Result.{
  Result, index, amend, index-Succeeds, Succeeds, Succeeds-bind, Succeeds-if, Succeeds-imp,
  store-Succeeds, amend-Succeeds,
}
use rdwarfs.Fs.Deltas.{Directory}
use rdwarfs.Metadata.Tables.{DirEntry}
use rdwarfs.Fs.Links.{
  entry_range, is_child, name_child, with_parent, with_self, adopt_child, over_entries, over_range,
  name_loop, adopt_loop, set_self_entries, rebuild_directory_links,
}

abbrev pub firsts : List Directory → List ℕ
firsts dirs = map (λ (d : Directory). d.first_entry) dirs

length-firsts : (dirs : List Directory) → length (firsts dirs) ≡ length dirs
length-firsts [] = refl
length-firsts (d ∷ dirs) = ap suc (length-firsts dirs)

same_length :
    (dirs dirs' : List Directory) → firsts dirs' ≡ firsts dirs → length dirs' ≡ length dirs
same_length dirs dirs' e =
    sym (length-firsts dirs') ∙ ap (λ (xs : List ℕ). length xs) e ∙ length-firsts dirs

firsts-set :
    (dirs : List Directory) (i : ℕ) (dir new : Directory)
    → get_elem? dirs i ≡ some dir
    → new.first_entry ≡ dir.first_entry
    → firsts (set dirs i new) ≡ firsts dirs
firsts-set [] i dir new at same = refl
firsts-set (d ∷ dirs) zero dir new at same =
    ap (λ (n : ℕ). n ∷ firsts dirs)
      (same ∙ sym (ap (λ (x : Directory). x.first_entry) (some-injective _ _ at)))
firsts-set (d ∷ dirs) (suc i) dir new at same =
    ap (λ (xs : List ℕ). d.first_entry ∷ xs) (firsts-set dirs i dir new at same)

module _ (dir_entries : List DirEntry) (dir_count : ℕ) where
  -- A range that the entries have, or none.
  InEntries : Option (ℕ × ℕ) → Type 0
  InEntries none = Unit
  InEntries (some (begin, end)) = (begin ≤ end) × (end ≤ length dir_entries)

  InEntries-if :
      (b : Bool) (begin end : ℕ)
      → (b ≡ true → (begin ≤ end) × (end ≤ length dir_entries))
      → InEntries (if b then some (begin, end) else none)
  unfolding InEntries
  InEntries-if true begin end h = h refl
  InEntries-if false begin end h = tt

  entry_range-InEntries :
      (dirs : List Directory) (d : ℕ)
      → d + 1 < length dirs
      → Succeeds InEntries (entry_range dir_entries dirs d)
  unfolding entry_range
  entry_range-InEntries dirs d h =
      Succeeds-bind (λ this. get_elem? dirs d ≡ some this) InEntries (index dirs d) _
        (index-Succeeds dirs d (omega arith))
        λ this _ _.
          Succeeds-bind (λ next. get_elem? dirs (d + 1) ≡ some next) InEntries (index dirs (d + 1))
            _ (index-Succeeds dirs (d + 1) h)
            λ next _ _.
              InEntries-if
                (leb this.first_entry next.first_entry && leb next.first_entry (length dir_entries))
                this.first_entry next.first_entry λ e. (ground arith, ground arith)

  module _ {S : Type 0} (P : S → Type 0) (step : ℕ → DirEntry → S → Result S)
      (kept : (e : ℕ) (entry : DirEntry) (s : S) → P s → Succeeds P (step e entry s)) where
    over_entries-keeps :
        (rounds e : ℕ) (s : S)
        → e + rounds ≤ length dir_entries
        → P s
        → Succeeds P (over_entries dir_entries dir_count step rounds e s)
    unfolding over_entries
    over_entries-keeps zero e s room p = p
    over_entries-keeps (suc rounds) e s room p =
        Succeeds-bind (λ entry. get_elem? dir_entries e ≡ some entry) P (index dir_entries e) _
          (index-Succeeds dir_entries e (omega (arith, room)))
          λ entry _ _.
            Succeeds-bind P P (step e entry s) _ (kept e entry s p)
              λ s' _ p'. over_entries-keeps rounds (e + 1) s' (omega (arith, room)) p'

    over_range-keeps :
        (range : Option (ℕ × ℕ)) (s : S)
        → InEntries range
        → P s
        → Succeeds P (over_range dir_entries dir_count step range s)
    unfolding over_range InEntries
    over_range-keeps none s inside p = p
    over_range-keeps (some (begin, end)) s inside p =
        over_entries-keeps (end - begin) begin s (omega (arith, inside.0, inside.1)) p

  abbrev Count : List ℕ → Type 0
  Count self_entry = length self_entry ≡ dir_count

  -- A child is a directory of the table.
  child-lt : (child : ℕ) → is_child dir_entries dir_count child ≡ true → child < dir_count
  child-lt child h = ground arith

  name_child-Count :
      (e : ℕ) (entry : DirEntry) (self_entry : List ℕ)
      → Count self_entry
      → Succeeds Count (name_child dir_entries dir_count e entry self_entry)
  unfolding name_child
  name_child-Count e entry self_entry h =
      let child = entry.inode_num in
      Succeeds-if Count (is_child dir_entries dir_count child) _ _
        (λ is.
          let inside : child < length self_entry = omega (arith, h, child-lt child is) in
          Succeeds-bind (λ known. get_elem? self_entry child ≡ some known) Count
            (index self_entry child) _ (index-Succeeds self_entry child inside)
            λ known _ _.
              Succeeds-if Count (known == 0) _ _
                (λ _.
                  store-Succeeds Count self_entry child (e % u32_mod) inside
                    (length-set self_entry child (e % u32_mod) ∙ h))
                λ _. h)
        λ _. h

  name_loop-Count :
      (rounds d : ℕ) (dirs : List Directory) (self_entry : List ℕ)
      → d + rounds < length dirs
      → Count self_entry
      → Succeeds Count (name_loop dir_entries dir_count rounds d dirs self_entry)
  unfolding name_loop
  name_loop-Count zero d dirs self_entry room h = h
  name_loop-Count (suc rounds) d dirs self_entry room h =
      Succeeds-bind InEntries Count _ _ (entry_range-InEntries dirs d (omega (arith, room)))
        λ range _ inside.
          Succeeds-bind Count Count _ _
            (over_range-keeps Count (name_child dir_entries dir_count) name_child-Count range
              self_entry inside h)
            λ named _ h'. name_loop-Count rounds (d + 1) dirs named (omega (arith, room)) h'

  -- The same first entries as another table, which has room for the children and a sentinel.
  Firsts : List Directory → List Directory → Type 0
  Firsts origin dirs = firsts dirs ≡ firsts origin

  adopt_child-Firsts :
      (origin : List Directory) (parent_self : ℕ) (entry : DirEntry) (dirs : List Directory)
      → dir_count < length origin
      → Firsts origin dirs
      → Succeeds (Firsts origin) (adopt_child dir_entries dir_count parent_self entry dirs)
  unfolding adopt_child Firsts
  adopt_child-Firsts origin parent_self entry dirs room h =
      let child = entry.inode_num in
      Succeeds-if (Firsts origin) (is_child dir_entries dir_count child) _ _
        (λ is.
          amend-Succeeds (Firsts origin) (with_parent parent_self) dirs child
            (omega (arith, child-lt child is, room, same_length origin dirs h))
            λ dir at. firsts-set dirs child dir (with_parent parent_self dir) at refl ∙ h)
        λ _. h

  adopt_loop-Firsts :
      (d : ℕ) (self_entry : List ℕ) (origin dirs : List Directory)
      → dir_count < length origin
      → d + length self_entry < length origin
      → Firsts origin dirs
      → Succeeds (Firsts origin) (adopt_loop dir_entries dir_count d self_entry dirs)
  unfolding adopt_loop Firsts
  adopt_loop-Firsts d [] origin dirs wide room h = h
  adopt_loop-Firsts d (parent_self ∷ self_entry) origin dirs wide room h =
      Succeeds-bind InEntries (Firsts origin) _ _
        (entry_range-InEntries dirs d (omega (arith, room, same_length origin dirs h)))
        λ range _ inside.
          Succeeds-bind (Firsts origin) (Firsts origin) _ _
            (over_range-keeps (Firsts origin) (λ e. adopt_child dir_entries dir_count parent_self)
              (λ e entry s p. adopt_child-Firsts origin parent_self entry s wide p) range dirs
              inside h)
            λ adopted _ h'.
              adopt_loop-Firsts (d + 1) self_entry origin adopted wide (omega (arith, room)) h'

set_self_entries-firsts :
    (d : ℕ) (entries : List ℕ) (origin dirs : List Directory)
    → d + length entries ≤ length origin
    → firsts dirs ≡ firsts origin
    → Succeeds (λ dirs'. firsts dirs' ≡ firsts origin) (set_self_entries d entries dirs)
unfolding set_self_entries
set_self_entries-firsts d [] origin dirs room h = h
set_self_entries-firsts d (entry ∷ entries) origin dirs room h =
    let P : List Directory → Type 0 = λ dirs'. firsts dirs' ≡ firsts origin in
    Succeeds-bind P P (amend (with_self entry) dirs d) _
      (amend-Succeeds P (with_self entry) dirs d (omega (arith, room, same_length origin dirs h))
        λ dir at. firsts-set dirs d dir (with_self entry dir) at refl ∙ h)
      λ dirs' _ h'. set_self_entries-firsts (d + 1) entries origin dirs' (omega (arith, room)) h'

-- Whatever the directories and the entries, ranges that leave the table and children that it does not
-- have included, no index of the rebuilding is out of bounds: it succeeds, with as many directories,
-- whose first entries are what they were.
pub rebuild_directory_links-firsts :
    (dirs : List Directory) (dir_entries : List DirEntry)
    → Succeeds
        (λ dirs'. (length dirs' ≡ length dirs) × (firsts dirs' ≡ firsts dirs))
        (rebuild_directory_links dirs dir_entries)
unfolding rebuild_directory_links Firsts
rebuild_directory_links-firsts [] dir_entries = (refl, refl)
rebuild_directory_links-firsts (dir ∷ dirs) dir_entries =
    let n = length dirs in
    let whole : List Directory = dir ∷ dirs in
    let P : List Directory → Type 0 = λ dirs'. firsts dirs' ≡ firsts whole in
    let Kept : List Directory → Type 0 = λ dirs'. (length dirs' ≡ length whole) × P dirs' in
    Succeeds-bind (λ self_entry. length self_entry ≡ n) Kept _ _
      (name_loop-Count dir_entries n n 0 whole (replicate n 0) (omega arith) (length-replicate n 0))
      λ self_entry _ count.
        Succeeds-bind P Kept _ _
          (adopt_loop-Firsts dir_entries n 0 self_entry whole whole (omega arith)
            (omega (arith, count)) refl)
          λ adopted _ same.
            Succeeds-imp P Kept _ (λ dirs' _ h. (same_length whole dirs' h, h))
              (set_self_entries-firsts 0 self_entry whole adopted (omega (arith, count)) same)
