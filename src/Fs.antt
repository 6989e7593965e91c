-- ===== src/Fs.antt =====
-- The reader of a filesystem image: its tables, its directories, and where the bytes of its files are.
pub mod Chunks
pub mod Deltas
pub mod Inode
pub mod Offsets
pub mod Filesystem
pub mod Links
pub mod Open
pub mod Directory
pub mod Reader
pub mod Cache
pub mod Decode
pub mod Samples
