-- ===== src/Format.antt =====
-- src/format: the sections of an image.
pub mod SectionType
pub mod Compression
pub mod Header
pub mod Source
pub mod Sections
pub mod Integrity
pub mod Detect
pub mod Index
pub mod Image
pub mod Samples
