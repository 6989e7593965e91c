-- ===== src/Fs/Offsets/Firsts.antt =====
-- Each offset is the first inode of its kind, and the shared files end where devices and pipes begin.
use rdwarfs.Prelude.{
  ℕ, suc, ◌+◌, ◌≤◌, ◌<◌, ◌≡◌, refl, sym, ◌∙◌, ap, subst, Bool, true, ◌||◌, some, List, [], ◌∷◌,
  length, get_elem?, ltb, leb, min, u32_mod, arith, ◌⊎◌, inl, inr, Bool-cases,
}
use rdwarfs.Result.{Ensures, Ensures-bind, Ensures-if, Ensures-ok_or}
use rdwarfs.Fs.Inode.{
  InodeKind, mode_kind, is_directory, is_symlink, is_regular, is_device, is_special,
}
use rdwarfs.Metadata.Tables.{InodeData}
use rdwarfs.Fs.Offsets.{
  InodeOffsets, unset, Seen, nothing_seen, first_of, see, offsets_loop, clamped, offsets_of,
  compute_offsets,
}

module _ (inodes : List InodeData) (modes : List ℕ) where
  -- Inode `j` is of a kind that passes the test.
  pub record KindAt (is_kind : InodeKind → Bool) (j : ℕ) : Type 0 where
    pub inode : InodeData
    pub mode : ℕ
    pub listed : get_elem? inodes j ≡ some inode
    pub has_mode : get_elem? modes inode.mode_index ≡ some mode
    pub passes : is_kind (mode_kind mode) ≡ true

  -- `at` is the first inode of the kind, or the end of the table where there is none.
  pub record IsFirst (is_kind : InodeKind → Bool) (at : ℕ) : Type 0 where
    pub inside : at ≤ length inodes
    pub least : (j : ℕ) → KindAt is_kind j → at ≤ j
    pub there : at < length inodes → KindAt is_kind at

  pub record HasFirsts (shared_files_count : ℕ) (o : InodeOffsets) : Type 0 where
    pub total : o.total ≡ length inodes
    pub directories : IsFirst is_directory o.dir_offset
    pub symlinks : IsFirst is_symlink o.symlink_offset
    pub files : IsFirst is_regular o.file_offset
    pub devices : IsFirst is_device o.device_offset
    pub specials : IsFirst is_special o.special_offset
    pub files_before_shared : o.file_offset ≤ o.shared_file_offset
    pub shared_files :
        o.shared_file_offset + shared_files_count ≡ min o.device_offset o.special_offset

  -- What a column holds once the inodes below `i` are seen.
  Found : (InodeKind → Bool) → ℕ → ℕ → Type 0
  Found is_kind i v =
      ((v ≡ unset) × ((j : ℕ) → KindAt is_kind j → i ≤ j))
      ⊎ ((v < i) × KindAt is_kind v × ((j : ℕ) → KindAt is_kind j → v ≤ j))

  record AllFound (i : ℕ) (seen : Seen) : Type 0 where
    directories : Found is_directory i seen.dir_offset
    symlinks : Found is_symlink i seen.symlink_offset
    files : Found is_regular i seen.file_offset
    devices : Found is_device i seen.device_offset
    specials : Found is_special i seen.special_offset

  passes_at :
      (is_kind : InodeKind → Bool) (i : ℕ) (inode : InodeData) (mode : ℕ)
      → get_elem? inodes i ≡ some inode
      → get_elem? modes inode.mode_index ≡ some mode
      → KindAt is_kind i
      → is_kind (mode_kind mode) ≡ true
  passes_at is_kind i inode mode e m k =
      let same : k.inode ≡ inode = cc (e, k.listed) in
      let same_mode : k.mode ≡ mode =
        cc (m, k.has_mode, ap (λ (x : InodeData). get_elem? modes x.mode_index) same) in
      ap (λ (x : ℕ). is_kind (mode_kind x)) (sym same_mode) ∙ k.passes

  first_of-Found :
      (is_kind : InodeKind → Bool) (i v : ℕ) (inode : InodeData) (mode : ℕ)
      → i < unset
      → get_elem? inodes i ≡ some inode
      → get_elem? modes inode.mode_index ≡ some mode
      → Found is_kind i v
      → Found is_kind (i + 1) (first_of (is_kind (mode_kind mode)) i v)
  unfolding Found
  first_of-Found is_kind i v inode mode small e m (inl (e', none_below)) =
      elim (Bool-cases (is_kind (mode_kind mode))) [
        | inl is ↦
            let new : first_of (is_kind (mode_kind mode)) i v ≡ i = rw (is, e') refl in
            inr (
              omega (arith, new),
              subst (KindAt is_kind) (sym new)
                  (record { inode = inode; mode = mode; listed = e; has_mode = m; passes = is }),
              λ j k. omega (arith, new, none_below j k),
            )
        | inr is_not ↦
            let kept : first_of (is_kind (mode_kind mode)) i v ≡ v = rw is_not refl in
            inl (
              kept ∙ e',
              λ j k.
                  let apart : ¬ (j ≡ i) = λ same.
                    let at_i : is_kind (mode_kind mode) ≡ true =
                      passes_at is_kind i inode mode e m (subst (KindAt is_kind) same k) in
                    cc in
                  omega (arith, none_below j k, apart),
            )
      ]
  first_of-Found is_kind i v inode mode small e m (inr (below, at, least)) =
      let kept : first_of (is_kind (mode_kind mode)) i v ≡ v = ground arith in
      inr (
        omega (arith, kept, below),
        subst (KindAt is_kind) (sym kept) at,
        λ j k. omega (arith, kept, least j k),
      )

  see-AllFound :
      (i : ℕ) (seen : Seen) (inode : InodeData) (mode : ℕ)
      → i < unset
      → get_elem? inodes i ≡ some inode
      → get_elem? modes inode.mode_index ≡ some mode
      → AllFound i seen
      → AllFound (i + 1) (see (mode_kind mode) i seen)
  unfolding see
  see-AllFound i seen inode mode small e m f = record {
    directories = first_of-Found is_directory i _ inode mode small e m f.directories;
    symlinks = first_of-Found is_symlink i _ inode mode small e m f.symlinks;
    files = first_of-Found is_regular i _ inode mode small e m f.files;
    devices = first_of-Found is_device i _ inode mode small e m f.devices;
    specials = first_of-Found is_special i _ inode mode small e m f.specials;
  }

  offsets_loop-AllFound :
      (i : ℕ) (rest : List InodeData) (seen : Seen)
      → length inodes < u32_mod
      → i + length rest ≡ length inodes
      → ((j k : ℕ) → k ≡ i + j → get_elem? rest j ≡ get_elem? inodes k)
      → AllFound i seen
      → Ensures (AllFound (length inodes)) (offsets_loop modes i rest seen)
  unfolding offsets_loop
  offsets_loop-AllFound i [] seen small all behind f =
      let same : i ≡ length inodes = omega (arith, all) in subst (λ (x : ℕ). AllFound x seen) same f
  offsets_loop-AllFound i (inode ∷ rest) seen small all behind f =
      Ensures-bind (λ mode. get_elem? modes inode.mode_index ≡ some mode) (AllFound (length inodes))
        _ _ (Ensures-ok_or _ (get_elem? modes inode.mode_index) _ λ a e. e)
        λ mode _ m.
          offsets_loop-AllFound (i + 1) rest (see (mode_kind mode) i seen) small
            (omega (arith, all)) (λ j k e. behind (suc j) k (omega (arith, e)))
            (see-AllFound i seen inode mode (omega (arith, small, all))
              (sym (behind 0 i (omega arith))) m f)

  clamped-IsFirst :
      (is_kind : InodeKind → Bool) (v : ℕ)
      → length inodes < u32_mod
      → Found is_kind (length inodes) v
      → IsFirst is_kind (clamped (length inodes) v)
  unfolding Found
  clamped-IsFirst is_kind v small (inl (e, absent)) =
      let end : clamped (length inodes) v ≡ length inodes = ground arith in
      record {
        inside = omega (arith, end);
        least = λ j k. omega (arith, end, absent j k);
        there = λ h. absurd (omega (arith, h, end));
      }
  clamped-IsFirst is_kind v small (inr (below, at, least)) =
      let kept : clamped (length inodes) v ≡ v = ground arith in
      record {
        inside = omega (arith, kept, below);
        least = λ j k. omega (arith, kept, least j k);
        there = λ h. subst (KindAt is_kind) (sym kept) at;
      }

  offsets_of-HasFirsts :
      (shared_files_count : ℕ) (seen : Seen)
      → length inodes < u32_mod
      → AllFound (length inodes) seen
      → Ensures (HasFirsts shared_files_count) (offsets_of (length inodes) shared_files_count seen)
  unfolding offsets_of
  offsets_of-HasFirsts count seen small f =
      let files = clamped (length inodes) seen.file_offset in
      let end =
        min (clamped (length inodes) seen.device_offset)
          (clamped (length inodes) seen.special_offset) in
      Ensures-if (HasFirsts count) (leb u32_mod count) _ _ (λ _. tt)
        λ _.
          Ensures-if (HasFirsts count) (leb u32_mod (files + count) || ltb end (files + count)) _ _
            (λ _. tt)
            λ fits.
              let room : files + count ≤ end = ground arith in
              record {
                total = refl;
                directories = clamped-IsFirst is_directory _ small f.directories;
                symlinks = clamped-IsFirst is_symlink _ small f.symlinks;
                files = clamped-IsFirst is_regular _ small f.files;
                devices = clamped-IsFirst is_device _ small f.devices;
                specials = clamped-IsFirst is_special _ small f.specials;
                files_before_shared = omega (arith, room);
                shared_files = omega (arith, room);
              }

  nothing_seen-AllFound : AllFound 0 nothing_seen
  unfolding Found
  nothing_seen-AllFound = record {
    directories = inl (refl, λ j k. omega arith);
    symlinks = inl (refl, λ j k. omega arith);
    files = inl (refl, λ j k. omega arith);
    devices = inl (refl, λ j k. omega arith);
    specials = inl (refl, λ j k. omega arith);
  }

  -- With fewer than 2^32 inodes the offsets are computed without a fault, and where they are computed each of
  -- those of directories, symlinks, files, devices and specials is the number of the first inode of that
  -- kind, or the number of inodes where there is none; the shared files begin no earlier than the files, and
  -- their count later the devices or the specials begin, whichever are first.
  pub compute_offsets-HasFirsts :
      (shared_files_count : ℕ)
      → length inodes < u32_mod
      → Ensures (HasFirsts shared_files_count) (compute_offsets inodes modes shared_files_count)
  unfolding compute_offsets
  compute_offsets-HasFirsts count small =
      Ensures-bind (AllFound (length inodes)) (HasFirsts count) _ _
        (offsets_loop-AllFound 0 inodes nothing_seen small (omega arith)
          (λ j k e. let same : k ≡ j = omega (arith, e) in rw same refl) nothing_seen-AllFound)
        λ seen _ f. offsets_of-HasFirsts count seen small f
