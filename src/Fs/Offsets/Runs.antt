-- ===== src/Fs/Offsets/Runs.antt =====
-- The first inodes of each kind in a small filesystem.
use rdwarfs.Prelude.{arith}
use rdwarfs.Result.{Ensures}
use rdwarfs.Fs.Samples.{sample_inodes, sample_modes}
use rdwarfs.Fs.Offsets.{compute_offsets}
use rdwarfs.Fs.Offsets.Firsts.{HasFirsts, compute_offsets-HasFirsts}

compute_offsets-HasFirsts_example :
    Ensures (HasFirsts sample_inodes sample_modes 1) (compute_offsets sample_inodes sample_modes 1)
compute_offsets-HasFirsts_example =
    compute_offsets-HasFirsts sample_inodes sample_modes 1 (omega arith)
