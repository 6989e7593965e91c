-- ===== src/Fs/Samples.antt =====
-- A filesystem of a root with a link and a file, for the runs of the modules of src/fs.
use rdwarfs.Prelude.{ℕ, ◌≡◌, refl, false, none, some, List, [], ◌∷◌, arith}
use rdwarfs.Result.{ok, index, store, Ensures-value}
use rdwarfs.Fs.Chunks.{
  Chunk, add_inline, hole_length, is_hole_chunk, chunk_logical_len, fill_ends, fill_slots,
  build_chunk_ends,
}
use rdwarfs.Fs.Deltas.{Directory}
use rdwarfs.Fs.Inode.{kind_of_bits, mode_kind, regular}
use rdwarfs.Fs.Offsets.{see, offsets_loop, offsets_of, compute_offsets}
use rdwarfs.Fs.Filesystem.{
  Filesystem, kind, chunk_range, mode_of, mode_at, inode_index, chunk_table_slot,
}
use rdwarfs.Fs.Filesystem.Total.{IsSound}
use rdwarfs.Fs.Open.{
  Tables, check_features, unpacked_chunk_table, unpacked_directories, open_tables,
}
use rdwarfs.Fs.Open.Sound.{open_tables-IsSound}
use rdwarfs.Metadata.Tables.{DirEntry, FsOptions, InodeData, StringTable}

abbrev pub plain_options : FsOptions
plain_options = record {
  mtime_only = false;
  time_resolution_sec = none;
  packed_chunk_table = false;
  packed_directories = false;
  packed_shared_files_table = false;
  subsecond_resolution_nsec_multiplier = none;
  has_btime = false;
  inodes_have_nlink = false;
}

abbrev pub inode_with : ℕ → InodeData
inode_with mode_index = record {
  mode_index = mode_index;
  owner_index = 0;
  group_index = 0;
  atime_offset = 0;
  mtime_offset = 5;
  ctime_offset = 0;
  btime_offset = 0;
  atime_subsec = 0;
  mtime_subsec = 0;
  ctime_subsec = 0;
  btime_subsec = 0;
  nlink_minus_one = 0;
}

-- Two bytes of block 0 behind its first, and a hole of one byte.
abbrev pub two_chunks : List Chunk
two_chunks =
    record { block = 0; offset = 1; size = 2 } ∷ record { block = 9; offset = 1; size = 0 } ∷ []

abbrev pub root_and_end : List Directory
root_and_end =
    record { parent_entry = 0; first_entry = 1; self_entry = 0 }
    ∷ record { parent_entry = 0; first_entry = 3; self_entry = 0 }
    ∷ []

-- The root's own entry, then "a" and "b".
abbrev pub three_entries : List DirEntry
three_entries =
    record { name_index = 0; inode_num = 0 }
    ∷ record { name_index = 0; inode_num = 1 }
    ∷ record { name_index = 1; inode_num = 2 }
    ∷ []

abbrev pub two_names : StringTable
two_names = record { bytes = 97 ∷ 98 ∷ []; offsets = 0 ∷ 1 ∷ 2 ∷ [] }

abbrev pub one_target : StringTable
one_target = record { bytes = 98 ∷ []; offsets = 0 ∷ 1 ∷ [] }

abbrev pub sample_inodes : List InodeData
sample_inodes = inode_with 0 ∷ inode_with 2 ∷ inode_with 1 ∷ []

-- The modes of a directory, a file and a link.
abbrev pub sample_modes : List ℕ
sample_modes = 16877 ∷ 33188 ∷ 41471 ∷ []

abbrev pub sample_tables : Tables
sample_tables = record {
  features = [];
  block_size = 64;
  options = plain_options;
  timestamp_base = 100;
  modes = sample_modes;
  uids = 0 ∷ [];
  gids = 0 ∷ [];
  inodes = sample_inodes;
  directories = root_and_end;
  dir_entries = three_entries;
  chunks = two_chunks;
  chunk_table = 0 ∷ 2 ∷ [];
  symlink_table = 0 ∷ [];
  shared_files = [];
  large_hole_size = [];
  hole_block_index = some 9;
  names = two_names;
  symlinks = one_target;
  devices = [];
  block_category_names = [];
  preferred_path_separator = none;
  total_fs_size = 3;
  total_allocated_fs_size = none;
}

abbrev pub sample_fs : Filesystem
sample_fs = record {
  block_size = 64;
  options = plain_options;
  timestamp_base = 100;
  modes = sample_modes;
  uids = 0 ∷ [];
  gids = 0 ∷ [];
  inodes = sample_inodes;
  directories = root_and_end;
  dir_entries = three_entries;
  chunks = two_chunks;
  chunk_end = 2 ∷ 3 ∷ [];
  chunk_table = 0 ∷ 2 ∷ [];
  symlink_table = 0 ∷ [];
  shared_files = [];
  large_hole_size = [];
  hole_block_index = some 9;
  names = two_names;
  symlinks = one_target;
  devices = [];
  features = [];
  block_category_names = [];
  preferred_path_separator = none;
  total_fs_size = 3;
  total_allocated_fs_size = none;
  offsets = record {
    dir_offset = 0;
    symlink_offset = 1;
    file_offset = 2;
    shared_file_offset = 3;
    device_offset = 3;
    special_offset = 3;
    total = 3;
  };
}

pub sample_opens : open_tables sample_tables ≡ ok sample_fs
unfolding open_tables check_features unpacked_chunk_table unpacked_directories compute_offsets
    offsets_loop see offsets_of mode_kind kind_of_bits build_chunk_ends fill_slots fill_ends store
    chunk_logical_len hole_length is_hole_chunk add_inline index
sample_opens = refl

pub sample-IsSound : IsSound sample_fs
sample-IsSound =
    Ensures-value IsSound (open_tables sample_tables) sample_fs
      (open_tables-IsSound sample_tables (omega arith)) sample_opens

-- Inode 2 is the file, and has both chunks.
pub sample_file : kind sample_fs 2 ≡ ok regular
unfolding kind mode_of mode_at inode_index index mode_kind kind_of_bits
sample_file = refl

pub sample_range : chunk_range sample_fs 2 ≡ ok (0, 2)
unfolding chunk_range chunk_table_slot index
sample_range = refl
