-- ===== src/Fs/Filesystem/Total.antt =====
-- What an opened filesystem answers about an inode never panics.
use rdwarfs.Prelude.{
  subst, ℕ, ◌+◌, ◌-◌, ◌≤◌, ◌<◌, ◌≡◌, refl, Bool, true, ◌||◌, some, List, length, get_elem?, ltb,
  leb, ltb→lt, u32_mod, arith, checked_add, checked_mul,
}
use rdwarfs.Result.{
  ok_or-Returns, Returns-bind, Returns-if, index-Ensures, Returns, Result, ok, err, fault,
  plain_sub_lem, Ensures, Ensures-bind, Ensures-if, Ensures-ok_or, Ensures-imp,
}
use rdwarfs.Fs.Inode.{InodeKind, mode_kind, is_directory, is_symlink, is_regular, is_device}
use rdwarfs.Fs.Offsets.Firsts.{KindAt, HasFirsts}
use rdwarfs.Fs.Chunks.Ends.{AreFiles}
use rdwarfs.Metadata.Tables.{InodeData, table_get}
use rdwarfs.Fs.Filesystem.{
  Filesystem, at_index, inode_index, mode_at, mode_of, kind, chunk_table_slot, chunk_range,
  size_of_range, file_size, content_id, device_rdev, read_link, parent, time_at, access_times, stat,
  rdev_or_zero,
}

-- What opening a filesystem makes sure of.
pub record IsSound (fs : Filesystem) : Type 0 where
  pub inodes : length fs.inodes < u32_mod
  pub offsets : HasFirsts fs.inodes fs.modes (length fs.shared_files) fs.offsets
  pub ends : length fs.chunk_end ≡ length fs.chunks
  pub files :
      AreFiles fs.chunks fs.hole_block_index fs.block_size fs.large_hole_size fs.chunk_table
        fs.chunk_end

at_index-Ensures :
    {A : Type 0} (xs : List A) (i : ℕ) → Ensures (λ x. get_elem? xs i ≡ some x) (at_index xs i)
at_index-Ensures xs i = Ensures-ok_or (λ x. get_elem? xs i ≡ some x) (get_elem? xs i) _ λ x e. e

module _ (fs : Filesystem) where
  -- The inode is in the table, and of every kind whose test `what` passes.
  abbrev pub HasKind : ℕ → InodeKind → Type 0
  HasKind inode what = (p : InodeKind → Bool) → p what ≡ true → KindAt fs.inodes fs.modes p inode

  abbrev HasMode : ℕ → ℕ → Type 0
  HasMode inode mode = HasKind inode (mode_kind mode)

  abbrev Inside : ℕ → ℕ → Type 0
  Inside inode i = (i ≡ inode) × (i < length fs.inodes)

  abbrev InodeAt : ℕ → InodeData → Type 0
  InodeAt i info = get_elem? fs.inodes i ≡ some info

  inode_index-Inside : (inode : ℕ) → Ensures (Inside inode) (inode_index fs inode)
  unfolding inode_index
  inode_index-Inside inode =
      Ensures-if (Inside inode) (leb (length fs.inodes) inode) _ _ (λ _. tt)
        λ h. (refl, ground arith)

  mode_of-HasMode : (inode : ℕ) → Ensures (HasMode inode) (mode_of fs inode)
  unfolding mode_of mode_at
  mode_of-HasMode inode =
      Ensures-bind (Inside inode) (HasMode inode) _ _ (inode_index-Inside inode) λ i _ h.
        Ensures-bind (InodeAt i) (HasMode inode) _ _ (index-Ensures fs.inodes i h.1) λ info _ e.
          Ensures-imp (λ mode. get_elem? fs.modes info.mode_index ≡ some mode) (HasMode inode) _
            (λ mode _ m p passes. record {
              inode = info;
              mode = mode;
              listed = subst (λ (x : ℕ). get_elem? fs.inodes x ≡ some info) h.0 e;
              has_mode = m;
              passes = passes;
            })
            (at_index-Ensures fs.modes info.mode_index)

  pub kind-HasKind : (inode : ℕ) → Ensures (HasKind inode) (kind fs inode)
  unfolding kind
  kind-HasKind inode =
      Ensures-bind (HasMode inode) (HasKind inode) _ _ (mode_of-HasMode inode) λ mode _ h. h

  at_index-Returns : {A : Type 0} (xs : List A) (i : ℕ) → Returns (at_index xs i)
  at_index-Returns xs i = ok_or-Returns (get_elem? xs i) _

  pub device_rdev-Returns : (inode : ℕ) → Returns (device_rdev fs inode)
  unfolding device_rdev
  device_rdev-Returns inode = Returns-bind (HasKind inode) _ _ (kind-HasKind inode) λ what h.
      Returns-if (is_device what) _ _
        (λ _.
          Returns-if (ltb inode fs.offsets.device_offset) _ _ (λ _. tt)
            λ _. at_index-Returns fs.devices _)
        (λ _. tt)

  pub parent-Returns : (inode : ℕ) → Returns (parent fs inode)
  unfolding parent
  parent-Returns inode = Returns-bind (HasKind inode) _ _ (kind-HasKind inode) λ what h.
      Returns-if (is_directory what) _ _
        (λ _.
          Returns-bind (λ _. Unit) _ _ (at_index-Returns fs.directories inode)
            λ dir _.
              Returns-bind (λ _. Unit) _ _ (at_index-Returns fs.dir_entries dir.parent_entry)
                λ entry _. tt)
        (λ _. tt)

  time_at-Returns : (offset : ℕ) → Returns (time_at fs offset)
  unfolding time_at
  time_at-Returns offset =
      Returns-bind (λ _. Unit) _ _ (ok_or-Returns (checked_mul offset _) _)
        λ seconds _. ok_or-Returns (checked_add fs.timestamp_base seconds) _

  access_times-Returns : (info : InodeData) (mtime : ℕ) → Returns (access_times fs info mtime)
  unfolding access_times
  access_times-Returns info mtime =
      Returns-if fs.options.mtime_only _ _ (λ _. tt)
        λ _.
          Returns-bind (λ _. Unit) _ _ (time_at-Returns info.atime_offset)
            λ atime _.
              Returns-bind (λ _. Unit) _ _ (time_at-Returns info.ctime_offset) λ ctime _. tt

  rdev_or_zero-Returns : (m : Result ℕ) → Returns m → Returns (rdev_or_zero fs m)
  rdev_or_zero-Returns (ok rdev) h = tt
  rdev_or_zero-Returns (err e) h = tt
  rdev_or_zero-Returns (fault x) h = h

  module _ (sound : IsSound fs) where
    pub read_link-Returns : (inode : ℕ) → Returns (read_link fs inode)
    unfolding read_link
    read_link-Returns inode = Returns-bind (HasKind inode) _ _ (kind-HasKind inode) λ what h.
        Returns-if (is_symlink what) _ _
          (λ is.
            let past : fs.offsets.symlink_offset ≤ inode =
              sound.offsets.symlinks.least inode (h is_symlink is) in
            rw (plain_sub_lem inode fs.offsets.symlink_offset past) (
              Returns-bind (λ _. Unit) _ _ (at_index-Returns fs.symlink_table _)
                λ value _. ok_or-Returns (table_get fs.symlinks value) _))
          (λ _. tt)

    pub chunk_table_slot-Returns : (inode : ℕ) → Returns (chunk_table_slot fs inode)
    unfolding chunk_table_slot
    chunk_table_slot-Returns inode = rw (plain_sub_lem _ _ sound.offsets.files_before_shared) (
        Returns-if (ltb inode fs.offsets.shared_file_offset) _ _
          (λ _. Returns-if (ltb inode fs.offsets.file_offset) _ _ (λ _. tt) λ _. tt)
          λ _.
            Returns-bind (λ _. Unit) _ _ (at_index-Returns fs.shared_files _)
              λ group _. ok_or-Returns (checked_add _ group) _)

    -- A range of chunks that the table records.
    abbrev pub InChunks : ℕ × ℕ → Type 0
    InChunks (start, end) =
        (start ≤ end)
        × (end ≤ length fs.chunks)
        × ((i : ℕ) × (get_elem? fs.chunk_table i ≡ some start)
            × (get_elem? fs.chunk_table (i + 1) ≡ some end))

    pub chunk_range-InChunks : (inode : ℕ) → Ensures InChunks (chunk_range fs inode)
    unfolding chunk_range
    chunk_range-InChunks inode =
        Ensures-bind (λ _. Unit) InChunks _ _ (chunk_table_slot-Returns inode)
          λ slot _ _.
            Ensures-if InChunks (leb (length fs.chunk_table) (slot + 1)) _ _ (λ _. tt)
              λ room.
                let room' : slot + 1 < length fs.chunk_table = ground arith in
                Ensures-bind (λ start. get_elem? fs.chunk_table slot ≡ some start) InChunks _ _
                  (index-Ensures fs.chunk_table slot (omega (arith, room')))
                  λ start _ s.
                    Ensures-bind (λ end. get_elem? fs.chunk_table (slot + 1) ≡ some end) InChunks _
                      _ (index-Ensures fs.chunk_table (slot + 1) room')
                      λ end _ e.
                        Ensures-if InChunks (ltb end start || ltb (length fs.chunks) end) _ _
                          (λ _. tt) λ good. (ground arith, ground arith, (slot, s, e))

    size_of_range-Returns : (range : ℕ × ℕ) → InChunks range → Returns (size_of_range fs range)
    unfolding size_of_range
    size_of_range-Returns (start, end) h =
        Returns-if (ltb start end) _ _
          (λ less.
            Ensures-imp (λ x. get_elem? fs.chunk_end (end - 1) ≡ some x) (λ _. Unit) _ (λ _ _ _. tt)
              (index-Ensures fs.chunk_end (end - 1)
                (omega (arith, ltb→lt start end less, h.1, sound.ends))))
          λ _. tt

    pub file_size-Returns : (inode : ℕ) → Returns (file_size fs inode)
    unfolding file_size
    file_size-Returns inode = Returns-bind (HasKind inode) _ _ (kind-HasKind inode) λ what h.
        Returns-if (is_regular what) _ _
          (λ _.
            Returns-bind InChunks _ _ (chunk_range-InChunks inode)
              λ range r. size_of_range-Returns range r)
          (λ _. tt)

    content_id-Returns : (inode : ℕ) → Returns (content_id fs inode)
    unfolding content_id
    content_id-Returns inode =
        Returns-bind (λ _. Unit) _ _ (chunk_table_slot-Returns inode)
          λ slot _. Returns-if (ltb slot u32_mod) _ _ (λ _. tt) λ _. tt

    stat-Returns : (inode : ℕ) → Returns (stat fs inode)
    unfolding stat mode_at
    stat-Returns inode = Returns-bind (Inside inode) _ _ (inode_index-Inside inode) λ i h.
        Returns-bind (InodeAt i) _ _ (index-Ensures fs.inodes i h.1) λ info _.
          Returns-bind (λ _. Unit) _ _ (at_index-Returns fs.modes info.mode_index)
            λ mode _.
              Returns-bind (λ _. Unit) _ _ (at_index-Returns fs.uids info.owner_index)
                λ uid _.
                  Returns-bind (λ _. Unit) _ _ (at_index-Returns fs.gids info.group_index)
                    λ gid _.
                      Returns-bind (λ _. Unit) _ _ (time_at-Returns info.mtime_offset)
                        λ mtime _.
                          Returns-bind (λ _. Unit) _ _ (access_times-Returns info mtime)
                            λ times _.
                              Returns-bind (λ _. Unit) _ _
                                (Returns-if (is_regular (mode_kind mode)) _ _
                                  (λ _. file_size-Returns inode) λ _. tt)
                                λ size _.
                                  Returns-bind (λ _. Unit) _ _
                                    (Returns-if (is_device (mode_kind mode)) _ _
                                      (λ _. rdev_or_zero-Returns _ (device_rdev-Returns inode))
                                      λ _. tt)
                                    λ rdev _. tt

    -- In a sound filesystem no number, of an inode or not, makes any of these panic: its status, its size, the
    -- target of a link, a device's number, the parent of a directory, and the identity of a file's content.
    pub stat-never_faults :
        (inode : ℕ)
        → Returns (stat fs inode)
          × Returns (file_size fs inode)
          × Returns (read_link fs inode)
          × Returns (device_rdev fs inode)
          × Returns (parent fs inode)
          × Returns (content_id fs inode)
    stat-never_faults inode = (
      stat-Returns inode,
      file_size-Returns inode,
      read_link-Returns inode,
      device_rdev-Returns inode,
      parent-Returns inode,
      content_id-Returns inode,
    )
