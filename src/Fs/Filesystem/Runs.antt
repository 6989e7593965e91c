-- ===== src/Fs/Filesystem/Runs.antt =====
-- The answers about the inodes of a small filesystem.
use rdwarfs.Result.{Returns}
use rdwarfs.Fs.Samples.{sample_fs, sample-IsSound}
use rdwarfs.Fs.Filesystem.{stat, file_size, read_link, device_rdev, parent, content_id}
use rdwarfs.Fs.Filesystem.Total.{stat-never_faults}

stat-never_faults_example :
    Returns (stat sample_fs 1)
    × Returns (file_size sample_fs 1)
    × Returns (read_link sample_fs 1)
    × Returns (device_rdev sample_fs 1)
    × Returns (parent sample_fs 1)
    × Returns (content_id sample_fs 1)
stat-never_faults_example = stat-never_faults sample_fs sample-IsSound 1
