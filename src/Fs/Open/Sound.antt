-- ===== src/Fs/Open/Sound.antt =====
-- A filesystem that opens is sound.
use rdwarfs.Prelude.{ℕ, ◌<◌, ◌≡◌, List, [], ◌∷◌, length, u32_mod}
use rdwarfs.Bytes.{bytes_eq}
use rdwarfs.Result.{Ensures, Ensures-bind, Ensures-imp, Returns, Returns-if, Succeeds-Ensures}
use rdwarfs.Fs.Chunks.Ends.{AreFiles, build_chunk_ends-AreFiles}
use rdwarfs.Fs.Deltas.{Directory, unpack_directory_first_entries}
use rdwarfs.Fs.Links.{rebuild_directory_links}
use rdwarfs.Fs.Filesystem.Total.{IsSound}
use rdwarfs.Fs.Links.Kept.{firsts, rebuild_directory_links-firsts}
use rdwarfs.Fs.Offsets.Firsts.{HasFirsts, compute_offsets-HasFirsts}
use rdwarfs.Fs.Open.{
  Tables, sparsefiles, check_features, unpacked_chunk_table, unpacked_directories, open_tables,
}

check_features-Returns : (features : List (List ℕ)) → Returns (check_features features)
unfolding check_features
check_features-Returns [] = tt
check_features-Returns (name ∷ features) =
    Returns-if (bytes_eq name sparsefiles) _ _ (λ _. check_features-Returns features) λ _. tt

unpacked_directories-Returns : (t : Tables) → Returns (unpacked_directories t)
unfolding unpacked_directories
unpacked_directories-Returns t =
    Returns-if t.options.packed_directories _ _
      (λ _.
        let dirs = unpack_directory_first_entries t.directories in
        let Kept : List Directory → Type 0 =
          λ dirs'. (length dirs' ≡ length dirs) × (firsts dirs' ≡ firsts dirs) in
        let m = rebuild_directory_links dirs t.dir_entries in
        Ensures-imp Kept (λ _. Unit) m (λ _ _ _. tt)
          (Succeeds-Ensures Kept m (rebuild_directory_links-firsts dirs t.dir_entries)))
      λ _. tt

-- Whatever tables the metadata decodes to, opening a filesystem over them meets no fault as long as they
-- hold fewer than 2^32 inodes, and where it opens the filesystem is sound: its offsets are the first
-- inodes of their kinds, and the ends of its chunks are the running sums of every file's chunks.
pub open_tables-IsSound : (t : Tables) → length t.inodes < u32_mod → Ensures IsSound (open_tables t)
unfolding open_tables
open_tables-IsSound t small =
    Ensures-bind (λ _. Unit) IsSound _ _ (check_features-Returns t.features)
      λ _ _ _.
        Ensures-bind (λ _. Unit) IsSound _ _ (unpacked_directories-Returns t)
          λ directories _ _.
            Ensures-bind (HasFirsts t.inodes t.modes (length t.shared_files)) IsSound _ _
              (compute_offsets-HasFirsts t.inodes t.modes (length t.shared_files) small)
              λ offsets _ firsts_known.
                Ensures-bind
                  (λ (ends : List ℕ).
                    (length ends ≡ length t.chunks)
                    × AreFiles t.chunks t.hole_block_index t.block_size t.large_hole_size
                        (unpacked_chunk_table t) ends)
                  IsSound _ _
                  (build_chunk_ends-AreFiles t.chunks t.hole_block_index t.block_size
                    t.large_hole_size (unpacked_chunk_table t))
                  λ ends _ h. record {
                    inodes = small;
                    offsets = firsts_known;
                    ends = h.0;
                    files = h.1;
                  }
