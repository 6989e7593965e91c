-- ===== src/Fs/Open.antt =====
-- src/fs/read.rs: a filesystem from the tables that its metadata decodes to.
--
-- `open` first finds and decodes the two metadata sections, which gives the tables here.
pub mod Sound
mod Runs
use rdwarfs.Prelude.{ℕ, Bool, true, false, ◌&&◌, ◌==◌, Option, List, [], ◌∷◌, length, if◌then◌else◌}
use rdwarfs.Bytes.{bytes_eq}
use rdwarfs.Result.{Result, ok, err, ◌>>=◌, ◌>>◌, unsupported_feature}
use rdwarfs.Fs.Chunks.{Chunk, build_chunk_ends}
use rdwarfs.Fs.Deltas.{Directory, inclusive_prefix_sum_u32, unpack_directory_first_entries}
use rdwarfs.Fs.Filesystem.{Filesystem}
use rdwarfs.Fs.Links.{rebuild_directory_links}
use rdwarfs.Fs.Offsets.{compute_offsets}
use rdwarfs.Metadata.Tables.{DirEntry, FsOptions, InodeData, StringTable}

-- What the accessors of the metadata return.
pub record Tables : Type 0 where
  pub features : List (List ℕ)
  pub block_size : ℕ
  pub options : FsOptions
  pub timestamp_base : ℕ
  pub modes : List ℕ
  pub uids : List ℕ
  pub gids : List ℕ
  pub inodes : List InodeData
  pub directories : List Directory
  pub dir_entries : List DirEntry
  pub chunks : List Chunk
  pub chunk_table : List ℕ
  pub symlink_table : List ℕ
  pub shared_files : List ℕ
  pub large_hole_size : List ℕ
  pub hole_block_index : Option ℕ
  pub names : StringTable
  pub symlinks : StringTable
  pub devices : List ℕ
  pub block_category_names : List (List ℕ)
  pub preferred_path_separator : Option ℕ
  pub total_fs_size : ℕ
  pub total_allocated_fs_size : Option ℕ

-- The one feature of `SUPPORTED_FEATURES`, "sparsefiles".
abbrev pub sparsefiles : List ℕ
sparsefiles = 115 ∷ 112 ∷ 97 ∷ 114 ∷ 115 ∷ 101 ∷ 102 ∷ 105 ∷ 108 ∷ 101 ∷ 115 ∷ []

unfoldable pub check_features : List (List ℕ) → Result (Unit {0})
check_features [] = ok tt
check_features (name ∷ features) =
    if bytes_eq name sparsefiles then check_features features else err (unsupported_feature name)

unfoldable pub unpacked_chunk_table : Tables → List ℕ
unpacked_chunk_table t =
    if t.options.packed_chunk_table then inclusive_prefix_sum_u32 t.chunk_table else t.chunk_table

unfoldable pub unpacked_directories : Tables → Result (List Directory)
unpacked_directories t =
    if t.options.packed_directories
    then rebuild_directory_links (unpack_directory_first_entries t.directories) t.dir_entries
    else ok t.directories

unfoldable pub open_tables : Tables → Result Filesystem
unfolding unpacked_chunk_table
open_tables t = do
  check_features t.features
  let chunk_table = unpacked_chunk_table t
  directories ← unpacked_directories t
  offsets ← compute_offsets t.inodes t.modes (length t.shared_files)
  chunk_end ←
      build_chunk_ends t.chunks t.hole_block_index t.block_size t.large_hole_size chunk_table
  ok (record {
    block_size = t.block_size;
    options = t.options;
    timestamp_base = t.timestamp_base;
    modes = t.modes;
    uids = t.uids;
    gids = t.gids;
    inodes = t.inodes;
    directories = directories;
    dir_entries = t.dir_entries;
    chunks = t.chunks;
    chunk_end = chunk_end;
    chunk_table = chunk_table;
    symlink_table = t.symlink_table;
    shared_files = t.shared_files;
    large_hole_size = t.large_hole_size;
    hole_block_index = t.hole_block_index;
    names = t.names;
    symlinks = t.symlinks;
    devices = t.devices;
    block_category_names = t.block_category_names;
    features = t.features;
    preferred_path_separator = t.preferred_path_separator;
    total_fs_size = t.total_fs_size;
    total_allocated_fs_size = t.total_allocated_fs_size;
    offsets = offsets;
  })
