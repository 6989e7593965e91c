-- ===== src/Fs/Offsets.antt =====
-- src/fs/read.rs: where each kind of inode begins in the table.
pub mod Firsts
mod Runs
use rdwarfs.Prelude.{
  ℕ, suc, ◌+◌, ◌-◌, Bool, true, false, ◌&&◌, ◌||◌, Option, none, some, List, [], ◌∷◌, length,
  get_elem?, ltb, leb, ◌==◌, if◌then◌else◌, min, u32_mod, checked_add,
}
use rdwarfs.Result.{Result, ok, err, ◌>>=◌, ok_or, decode}
use rdwarfs.Fs.Inode.{
  InodeKind, mode_kind, is_directory, is_symlink, is_regular, is_device, is_special,
}
use rdwarfs.Metadata.Tables.{InodeData}

pub record InodeOffsets : Type 0 where
  pub dir_offset : ℕ
  pub symlink_offset : ℕ
  pub file_offset : ℕ
  pub shared_file_offset : ℕ
  pub device_offset : ℕ
  pub special_offset : ℕ
  pub total : ℕ

-- `u32::MAX`, which stands for an offset that is not found yet.
abbrev pub unset : ℕ
unset = u32_mod - 1

-- The five offsets that the loop fills.
pub record Seen : Type 0 where
  pub dir_offset : ℕ
  pub symlink_offset : ℕ
  pub file_offset : ℕ
  pub device_offset : ℕ
  pub special_offset : ℕ

abbrev pub nothing_seen : Seen
nothing_seen = record {
  dir_offset = unset;
  symlink_offset = unset;
  file_offset = unset;
  device_offset = unset;
  special_offset = unset;
}

-- An arm of the `match` with its guard: the first inode of a kind is kept.
abbrev pub first_of : Bool → ℕ → ℕ → ℕ
first_of is_kind idx offset = if is_kind && (offset == unset) then idx else offset

unfoldable pub see : InodeKind → ℕ → Seen → Seen
see kind idx seen = record {
  dir_offset = first_of (is_directory kind) idx seen.dir_offset;
  symlink_offset = first_of (is_symlink kind) idx seen.symlink_offset;
  file_offset = first_of (is_regular kind) idx seen.file_offset;
  device_offset = first_of (is_device kind) idx seen.device_offset;
  special_offset = first_of (is_special kind) idx seen.special_offset;
}

module _ (modes : List ℕ) where
  -- The loop over `inodes.iter().enumerate()`, from inode `i` on; `i as u32` keeps every index there is.
  unfoldable pub offsets_loop : ℕ → List InodeData → Seen → Result Seen
  offsets_loop i [] seen = ok seen
  offsets_loop i (inode ∷ inodes) seen = do
    mode ← ok_or (get_elem? modes inode.mode_index) (decode "fs" "mode index out of range")
    offsets_loop (i + 1) inodes (see (mode_kind mode) i seen)

abbrev pub default_to_total : ℕ → ℕ → ℕ
default_to_total total v = if v == unset then total else v

abbrev pub clamped : ℕ → ℕ → ℕ
clamped total v = min (default_to_total total v) total

-- The tables of shared files fit behind the unique ones.
unfoldable pub offsets_of : ℕ → ℕ → Seen → Result InodeOffsets
offsets_of total shared_files_count seen =
    let file_offset = clamped total seen.file_offset in
    let device_offset = clamped total seen.device_offset in
    let special_offset = clamped total seen.special_offset in
    let end_of_files = min device_offset special_offset in
    if leb u32_mod shared_files_count
    then err (decode "fs" "shared_files_count exceeds u32")
    else if leb u32_mod (file_offset + shared_files_count)
        || ltb end_of_files (file_offset + shared_files_count)
    then err (decode "fs" "shared_files_count larger than the regular-file range")
    else ok (record {
      dir_offset = clamped total seen.dir_offset;
      symlink_offset = clamped total seen.symlink_offset;
      file_offset = file_offset;
      shared_file_offset = end_of_files - shared_files_count;
      device_offset = device_offset;
      special_offset = special_offset;
      total = total;
    })

-- `inodes.len() as u32` keeps the length of every table that fits a 32-bit inode number.
unfoldable pub compute_offsets : List InodeData → List ℕ → ℕ → Result InodeOffsets
compute_offsets inodes modes shared_files_count = do
  seen ← offsets_loop modes 0 inodes nothing_seen
  offsets_of (length inodes) shared_files_count seen
