-- ===== src/Fs/Directory/Search.antt =====
-- Over a directory in order, the binary search finds the entry of a name exactly where there is one.
use rdwarfs.Prelude.{
  ℕ, zero, suc, ◌+◌, ◌-◌, ◌/◌, ◌≤◌, ◌<◌, ◌≡◌, refl, subst, Option, none, some, List, get_elem?, ltb,
  arith, inl, inr, Bool-cases, ltb→lt, ltb→ge,
}
use rdwarfs.Bytes.{Ordering, less, equal, greater, cmp, cmp_refl, cmp_asym, cmp-equal}
use rdwarfs.Result.{Result, ok, index_lem}
use rdwarfs.Metadata.Tables.{DirEntry, table_get}
use rdwarfs.Fs.Filesystem.{Filesystem}
use rdwarfs.Fs.Directory.{dir_entry_range, entry_name, narrow, search, lookup_one}

module _ (fs : Filesystem) where
  -- Entry `i` has the name and refers to the inode.
  pub record EntryAt (i : ℕ) (name : List ℕ) (inode : ℕ) : Type 0 where
    pub entry : DirEntry
    pub listed : get_elem? fs.dir_entries i ≡ some entry
    pub named : table_get fs.names entry.name_index ≡ some name
    pub refers : entry.inode_num ≡ inode

  -- Every entry from `begin` to `end` has a name, and the names ascend.
  pub record IsOrdered (begin end : ℕ) : Type 0 where
    pub has_entry :
        (i : ℕ) → begin ≤ i → i < end → (name : List ℕ) × ((inode : ℕ) × EntryAt i name inode)
    pub ascends :
        (i j : ℕ) (a b : List ℕ) (m n : ℕ)
        → begin ≤ i
        → i < j
        → j < end
        → EntryAt i a m
        → EntryAt j b n
        → cmp a b ≡ less

  -- What a search between `begin` and `end` may answer.
  pub Answers : ℕ → ℕ → List ℕ → Option ℕ → Type 0
  Answers begin end name (some inode) = (i : ℕ) × (begin ≤ i) × (i < end) × EntryAt i name inode
  Answers begin end name none = (i inode : ℕ) → begin ≤ i → i < end → ¬ EntryAt i name inode

  pub same_name : (i : ℕ) (a b : List ℕ) (m n : ℕ) → EntryAt i a m → EntryAt i b n → a ≡ b
  same_name i a b m n p q =
      let same : p.entry ≡ q.entry = cc (p.listed, q.listed) in cc (same, p.named, q.named)

  module _ (begin end : ℕ) (name : List ℕ) (ordered : IsOrdered begin end) where
    -- The name stands nowhere but between `lo` and `hi`.
    Confined : ℕ → ℕ → Type 0
    Confined lo hi =
        (i inode : ℕ) → begin ≤ i → i < end → EntryAt i name inode → (lo ≤ i) × (i < hi)

    -- A proved answer of a computation.
    Found : Result (Option ℕ) → Type 0
    Found m = (r : Option ℕ) × (m ≡ ok r) × Answers begin end name r

    right_of :
        (lo hi mid : ℕ) (found : List ℕ) (inode : ℕ)
        → begin ≤ mid
        → mid < end
        → EntryAt mid found inode
        → cmp found name ≡ less
        → Confined lo hi
        → Confined (mid + 1) hi
    unfolding Confined
    right_of lo hi mid found inode b e at order c i j bi ie ati =
        let apart : ¬ (i ≡ mid) = λ same.
          let is : found ≡ name =
            same_name mid found name inode j at (subst (λ (x : ℕ). EntryAt x name j) same ati) in
          let eq : cmp found name ≡ equal = rw is (cmp_refl name) in cc in
        let beyond : ¬ (i < mid) = λ lt.
          let low : cmp name found ≡ less =
            ordered.ascends i mid name found j inode bi lt e ati at in
          let high : cmp found name ≡ greater = cmp_asym name found low in cc in
        (omega (arith, apart, beyond), (c i j bi ie ati).1)

    left_of :
        (lo hi mid : ℕ) (found : List ℕ) (inode : ℕ)
        → begin ≤ mid
        → mid < end
        → EntryAt mid found inode
        → cmp found name ≡ greater
        → Confined lo hi
        → Confined lo mid
    unfolding Confined
    left_of lo hi mid found inode b e at order c i j bi ie ati =
        let apart : ¬ (i ≡ mid) = λ same.
          let is : found ≡ name =
            same_name mid found name inode j at (subst (λ (x : ℕ). EntryAt x name j) same ati) in
          let eq : cmp found name ≡ equal = rw is (cmp_refl name) in cc in
        let before : ¬ (mid < i) = λ lt.
          let low : cmp found name ≡ less =
            ordered.ascends mid i found name inode j b lt ie at ati in
          cc in
        ((c i j bi ie ati).0, omega (arith, apart, before))

    narrow-Found :
        (go : ℕ → ℕ → Result (Option ℕ)) (lo hi mid : ℕ) (found : List ℕ) (inode : ℕ) (o : Ordering)
        → lo ≤ mid
        → mid < hi
        → begin ≤ mid
        → mid < end
        → EntryAt mid found inode
        → cmp found name ≡ o
        → Confined lo hi
        → (Confined (mid + 1) hi → Found (go (mid + 1) hi))
        → (Confined lo mid → Found (go lo mid))
        → Found (narrow fs go lo hi mid inode o)
    unfolding narrow
    narrow-Found go lo hi mid found inode less l h b e at order c right left =
        right (right_of lo hi mid found inode b e at order c)
    narrow-Found go lo hi mid found inode greater l h b e at order c right left =
        left (left_of lo hi mid found inode b e at order c)
    narrow-Found go lo hi mid found inode equal l h b e at order c right left =
        unfold Found in
        unfold Answers in
        (
          some inode,
          refl,
          (mid, b, e, subst (λ x. EntryAt mid x inode) (cmp-equal found name order) at),
        )

    search-Found :
        (fuel lo hi : ℕ)
        → begin ≤ lo
        → hi ≤ end
        → hi - lo < fuel
        → Confined lo hi
        → Found (search fs fuel name lo hi)
    unfolding search entry_name Found Answers Confined
    search-Found zero lo hi b e room c = absurd (omega (arith, room))
    search-Found (suc fuel) lo hi b e room c = elim (Bool-cases (ltb lo hi)) [
      | inl t ↦
          let lt : lo < hi = ltb→lt lo hi t in
          let mid = lo + (hi - lo) / 2 in
          let (found, rest) = ordered.has_entry mid (omega (arith, b, lt)) (omega (arith, e, lt)) in
          let (inode, at) = rest in
          rw (t, index_lem fs.dir_entries mid at.entry at.listed, at.named, at.refers)
            (narrow-Found (search fs fuel name) lo hi mid found inode (cmp found name)
              (omega (arith, lt)) (omega (arith, lt)) (omega (arith, b, lt)) (omega (arith, e, lt))
              at refl c
              (λ c'.
                search-Found fuel (mid + 1) hi (omega (arith, b, lt)) e (omega (arith, room, lt))
                  c')
              (λ c'.
                search-Found fuel lo mid b (omega (arith, e, lt)) (omega (arith, room, lt)) c'))
      | inr f ↦
          let ge : hi ≤ lo = ltb→ge lo hi f in
          (
            none,
            rw f refl,
            λ i j bi ie ati.
                let inside : (lo ≤ i) × (i < hi) = c i j bi ie ati in
                omega (arith, inside.0, inside.1, ge),
          )
    ]

  -- In a directory whose entries all have names, in ascending order, the lookup of any name ends with an
  -- answer: an inode that an entry of the directory with that name refers to, or none where no entry of the
  -- directory has the name.
  pub lookup_one-Answers :
      (dir_inode begin end : ℕ) (name : List ℕ)
      → dir_entry_range fs dir_inode ≡ ok (begin, end)
      → IsOrdered begin end
      → (r : Option ℕ) × (lookup_one fs dir_inode name ≡ ok r) × Answers begin end name r
  unfolding lookup_one Found Confined
  lookup_one-Answers dir_inode begin end name e ordered =
      let (r, found, answers) =
        search-Found begin end name ordered (end - begin + 1) begin end (omega arith) (omega arith)
          (omega arith) (λ i j bi ie ati. (bi, ie)) in
      (r, rw e found, answers)
