-- ===== src/Fs/Filesystem.antt =====
-- src/fs/read.rs: the tables of an opened filesystem, and what it answers about an inode.
--
-- The image and its block records stand in Fs/Decode: only the decoding of blocks uses them. Strings are
-- lists of bytes.
-- An inode number, an index and a count of the tables is a `u32`, so a sum of two of them does not
-- overflow `usize`.
pub mod Total
mod Runs
use rdwarfs.Prelude.{
  ◌++◌, ◌∷◌, [], ℕ, ◌+◌, ◌-◌, Bool, true, false, ◌||◌, Option, none, some, List, length, get_elem?,
  ltb, leb, ◌==◌, if◌then◌else◌, min, u32_mod, checked_add, checked_mul,
}
use rdwarfs.Bytes.{bytes_eq}
use rdwarfs.Result.{Result, ok, err, fault, ◌>>=◌, ok_or, decode, index, plain_sub}
use rdwarfs.Fs.Inode.{InodeKind, mode_kind, is_directory, is_symlink, is_regular, is_device}
use rdwarfs.Fs.Offsets.{InodeOffsets}
use rdwarfs.Fs.Chunks.{Chunk}
use rdwarfs.Fs.Deltas.{Directory}
use rdwarfs.Metadata.Tables.{DirEntry, FsOptions, InodeData, StringTable, table_get}

pub record Filesystem : Type 0 where
  pub block_size : ℕ
  pub options : FsOptions
  pub timestamp_base : ℕ
  pub modes : List ℕ
  pub uids : List ℕ
  pub gids : List ℕ
  pub inodes : List InodeData
  pub directories : List Directory
  pub dir_entries : List DirEntry
  pub chunks : List Chunk
  pub chunk_end : List ℕ
  pub chunk_table : List ℕ
  pub symlink_table : List ℕ
  pub shared_files : List ℕ
  pub large_hole_size : List ℕ
  pub hole_block_index : Option ℕ
  pub names : StringTable
  pub symlinks : StringTable
  pub devices : List ℕ
  pub block_category_names : List (List ℕ)
  pub features : List (List ℕ)
  pub preferred_path_separator : Option ℕ
  pub total_fs_size : ℕ
  pub total_allocated_fs_size : Option ℕ
  pub offsets : InodeOffsets

pub record Stat : Type 0 where
  pub inode : ℕ
  pub kind : InodeKind
  pub mode : ℕ
  pub uid : ℕ
  pub gid : ℕ
  pub mtime : ℕ
  pub atime : ℕ
  pub ctime : ℕ
  pub size : ℕ
  pub nlink : ℕ
  pub rdev : ℕ

-- An index into a table, or the error that it is out of range.
abbrev pub at_index : {A : Type 0} → List A → ℕ → Result A
at_index table i = ok_or (get_elem? table i) (decode "fs" "index out of range")

module _ (fs : Filesystem) where
  unfoldable pub inode_index : ℕ → Result ℕ
  inode_index inode =
      if leb (length fs.inodes) inode then err (decode "fs" "inode out of entries") else ok inode

  unfoldable pub mode_at : ℕ → Result ℕ
  mode_at mode_index = at_index fs.modes mode_index

  unfoldable pub mode_of : ℕ → Result ℕ
  mode_of inode = do i ← inode_index inode; info ← index fs.inodes i; mode_at info.mode_index

  unfoldable pub kind : ℕ → Result InodeKind
  kind inode = do mode ← mode_of inode; ok (mode_kind mode)

  unfoldable pub chunk_table_slot : ℕ → Result ℕ
  chunk_table_slot inode = do
    num_unique ← plain_sub fs.offsets.shared_file_offset fs.offsets.file_offset
    if ltb inode fs.offsets.shared_file_offset
        then (if ltb inode fs.offsets.file_offset
            then err (decode "fs" "inode is not a regular file")
            else ok (inode - fs.offsets.file_offset))
        else (do
          group ← at_index fs.shared_files (inode - fs.offsets.shared_file_offset)
          ok_or (checked_add num_unique group) (decode "fs" "shared file chunk index overflow"))

  -- `start..end`.
  unfoldable pub chunk_range : ℕ → Result (ℕ × ℕ)
  chunk_range inode = do
    table_index ← chunk_table_slot inode
    if leb (length fs.chunk_table) (table_index + 1)
        then err (decode "fs" "chunk_table index out of range")
        else (do
          start ← index fs.chunk_table table_index
          end ← index fs.chunk_table (table_index + 1)
          if ltb end start || ltb (length fs.chunks) end
              then err (decode "fs" "chunk range out of bounds")
              else ok (start, end))

  -- The size of the file whose chunks are `start..end`; `end - 1 >= start` also refuses `end = 0`.
  unfoldable pub size_of_range : ℕ × ℕ → Result ℕ
  size_of_range (start, end) = if ltb start end then index fs.chunk_end (end - 1) else ok 0

  unfoldable pub file_size : ℕ → Result ℕ
  file_size inode = do
    what ← kind inode
    if is_regular what then (do range ← chunk_range inode; size_of_range range) else ok 0

  unfoldable pub content_id : ℕ → Result ℕ
  content_id inode = do
    slot ← chunk_table_slot inode
    if ltb slot u32_mod then ok slot else err (decode "fs" "content id exceeds u32")

  unfoldable pub device_rdev : ℕ → Result ℕ
  device_rdev inode = do
    what ← kind inode
    if is_device what
        then (if ltb inode fs.offsets.device_offset
            then err (decode "fs" "device inode precedes device offset")
            else at_index fs.devices (inode - fs.offsets.device_offset))
        else err (decode "fs" "inode is not a device")

  unfoldable pub read_link : ℕ → Result (List ℕ)
  read_link inode = do
    what ← kind inode
    if is_symlink what
        then (do
          slot ← plain_sub inode fs.offsets.symlink_offset
          table_value ← at_index fs.symlink_table slot
          ok_or (table_get fs.symlinks table_value) (decode "fs" "symlinks index out of range"))
        else err (decode "fs" "inode is not a symlink")

  unfoldable pub parent : ℕ → Result ℕ
  parent inode = do
    what ← kind inode
    if is_directory what
        then (do
          dir ← at_index fs.directories inode
          entry ← at_index fs.dir_entries dir.parent_entry
          ok entry.inode_num)
        else err (decode "fs" "inode is not a directory")

  unfoldable pub block_category : ℕ → Option (List ℕ)
  block_category block = get_elem? fs.block_category_names block

  -- `seen.contains(&name)`, and the loop of `category_names`.
  unfoldable pub seen_contains : List (List ℕ) → List ℕ → Bool
  seen_contains [] name = false
  seen_contains (first ∷ seen) name = bytes_eq first name || seen_contains seen name

  unfoldable pub names_loop : List (List ℕ) → List (List ℕ) → List (List ℕ)
  names_loop [] seen = seen
  names_loop (name ∷ names) seen =
      names_loop names (if seen_contains seen name then seen else seen ++ (name ∷ []))

  unfoldable pub category_names : List (List ℕ)
  category_names = names_loop fs.block_category_names []

  -- `first_block`; its `.ok()` drops an error.
  abbrev block_of : Option Chunk → Option ℕ
  block_of none = none
  block_of (some chunk) = some chunk.block

  unfoldable pub first_block : ℕ → Result (Option ℕ)
  first_block inode = elim (chunk_range inode) [
    | ok range ↦ ok (block_of (get_elem? fs.chunks range.0))
    | err e ↦ ok none
    | fault x ↦ fault x
  ]

  -- `unwrap_or` on the resolution and on the device number, whose errors are dropped.
  abbrev pub resolution_of : Option ℕ → ℕ
  resolution_of none = 1
  resolution_of (some seconds) = seconds

  abbrev pub rdev_or_zero : Result ℕ → Result ℕ
  rdev_or_zero (ok rdev) = ok rdev
  rdev_or_zero (err e) = ok 0
  rdev_or_zero (fault x) = fault x

  -- The closure `at`.
  unfoldable pub time_at : ℕ → Result ℕ
  time_at offset = do
    seconds ←
        ok_or (checked_mul offset (resolution_of fs.options.time_resolution_sec))
          (decode "fs" "time resolution multiplication overflows")
    ok_or (checked_add fs.timestamp_base seconds) (decode "fs" "timestamp exceeds u64")

  unfoldable pub access_times : InodeData → ℕ → Result (ℕ × ℕ)
  access_times info mtime = if fs.options.mtime_only then ok (mtime, mtime) else do
    atime ← time_at info.atime_offset
    ctime ← time_at info.ctime_offset
    ok (atime, ctime)

  unfoldable pub stat : ℕ → Result Stat
  stat inode = do
    i ← inode_index inode
    info ← index fs.inodes i
    mode ← mode_at info.mode_index
    let what = mode_kind mode
    uid ← at_index fs.uids info.owner_index
    gid ← at_index fs.gids info.group_index
    mtime ← time_at info.mtime_offset
    (atime, ctime) ← access_times info mtime
    size ← if is_regular what then file_size inode else ok 0
    let nlink =
        if fs.options.inodes_have_nlink then min (info.nlink_minus_one + 1) (u32_mod - 1) else 1
    rdev ← if is_device what then rdev_or_zero (device_rdev inode) else ok 0
    ok (record {
      inode = inode;
      kind = what;
      mode = mode;
      uid = uid;
      gid = gid;
      mtime = mtime;
      atime = atime;
      ctime = ctime;
      size = size;
      nlink = nlink;
      rdev = rdev;
    })
