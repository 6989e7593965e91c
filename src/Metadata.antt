-- ===== src/Metadata.antt =====
-- src/metadata: the encodings of the metadata sections.
pub mod BitBuf
pub mod Thrift
pub mod Fsst
pub mod Tables
pub mod Schema
pub mod Frozen
pub mod Strings
pub mod Model
