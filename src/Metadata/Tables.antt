-- ===== src/Metadata/Tables.antt =====
-- src/metadata/model.rs: the rows that the metadata decodes to, and the string table.
use rdwarfs.Prelude.{
  ℕ, ◌+◌, ◌-◌, Bool, ◌&&◌, Option, none, some, List, length, take, drop, get_elem?, leb, ◌==◌,
  if◌then◌else◌,
}

pub record DirEntry : Type 0 where
  pub name_index : ℕ
  pub inode_num : ℕ

pub record FsOptions : Type 0 where
  pub mtime_only : Bool
  pub time_resolution_sec : Option ℕ
  pub packed_chunk_table : Bool
  pub packed_directories : Bool
  pub packed_shared_files_table : Bool
  pub subsecond_resolution_nsec_multiplier : Option ℕ
  pub has_btime : Bool
  pub inodes_have_nlink : Bool

pub record InodeData : Type 0 where
  pub mode_index : ℕ
  pub owner_index : ℕ
  pub group_index : ℕ
  pub atime_offset : ℕ
  pub mtime_offset : ℕ
  pub ctime_offset : ℕ
  pub btime_offset : ℕ
  pub atime_subsec : ℕ
  pub mtime_subsec : ℕ
  pub ctime_subsec : ℕ
  pub btime_subsec : ℕ
  pub nlink_minus_one : ℕ

-- `bytes` is the field `data`.
pub record StringTable : Type 0 where
  pub bytes : List ℕ
  pub offsets : List ℕ

-- `StringTable::len` and `StringTable::is_empty`.
unfoldable pub table_len : StringTable → ℕ
table_len table = length table.offsets - 1

unfoldable pub table_is_empty : StringTable → Bool
unfolding table_len
table_is_empty table = table_len table == 0

-- `data.get(start..end)`.
abbrev pub get_range : List ℕ → ℕ → ℕ → Option (List ℕ)
get_range bytes start end =
    if leb start end && leb end (length bytes)
    then some (take (end - start) (drop start bytes))
    else none

abbrev pub get_between : List ℕ → Option ℕ → Option ℕ → Option (List ℕ)
get_between bytes none end = none
get_between bytes (some start) none = none
get_between bytes (some start) (some end) = get_range bytes start end

unfoldable pub table_get : StringTable → ℕ → Option (List ℕ)
table_get table i =
    get_between table.bytes (get_elem? table.offsets i) (get_elem? table.offsets (i + 1))
