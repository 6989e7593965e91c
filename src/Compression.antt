-- ===== src/Compression.antt =====
-- The sinks that bound what a codec may write.
pub mod Capped
