-- ===== src/Fs/Links/Runs.antt =====
-- The links of a small packed table.
use rdwarfs.Prelude.{◌≡◌, length}
use rdwarfs.Result.{Succeeds}
use rdwarfs.Fs.Samples.{root_and_end, three_entries}
use rdwarfs.Fs.Links.{rebuild_directory_links}
use rdwarfs.Fs.Links.Kept.{firsts, rebuild_directory_links-firsts}

rebuild_directory_links-firsts_example :
    Succeeds
      (λ dirs'. (length dirs' ≡ length root_and_end) × (firsts dirs' ≡ firsts root_and_end))
      (rebuild_directory_links root_and_end three_entries)
rebuild_directory_links-firsts_example = rebuild_directory_links-firsts root_and_end three_entries
