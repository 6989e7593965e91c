-- ===== src/Fs/Open/Runs.antt =====
-- Opening a small filesystem.
use rdwarfs.Prelude.{arith}
use rdwarfs.Result.{Ensures}
use rdwarfs.Fs.Samples.{sample_tables}
use rdwarfs.Fs.Filesystem.Total.{IsSound}
use rdwarfs.Fs.Open.{open_tables}
use rdwarfs.Fs.Open.Sound.{open_tables-IsSound}

open_tables-IsSound_example : Ensures IsSound (open_tables sample_tables)
open_tables-IsSound_example = open_tables-IsSound sample_tables (omega arith)
