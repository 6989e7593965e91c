-- ===== src/Lib.antt =====
-- rdwarfs reads DwarFS images: compressed, deduplicated filesystems in one file, possibly behind an
-- executable or a script. This library models how it finds and checks the sections of an image, the
-- decoders under its metadata, the sinks that bound its codecs, and the filesystem over the decoded tables:
-- its inodes, its directories, the bytes of its files, and the cache of blocks that they are read from.
--
-- The parts and their files. A definition has the name of the Rust item that it models.
--   Format/SectionType, Format/Compression   src/format/types.rs, the enums and their stored numbers
--   Format/Header      src/format/header.rs, the 64-byte header, its parser and its writer
--   Format/Source      src/format/source.rs, the trait `ImageSource` as a record, its sources, `read_range`
--   Format/Sections    src/format/sections.rs, the iterator over the sections of a slice
--   Format/Integrity   src/format/integrity.rs, the two hashes of a section
--   Format/Index       src/format/index.rs, the optional section index
--   Format/Detect      src/format/detect.rs, the search for the first section behind a prefix: of a slice,
--                      and in Format/Detect/Scan of a source
--   Format/Image       src/format/image.rs, the walk over a source and the reads of a section; in
--                      Format/Image/Opening the opening of an image, which calls all the others
--   Metadata/BitBuf    src/metadata/bitbuf.rs, reads of bit fields
--   Metadata/Thrift    src/metadata/thrift.rs, the reader of the Thrift compact protocol
--   Metadata/Fsst      src/metadata/fsst.rs, compact string tables
--   Compression/Capped src/compression/capped.rs, the sinks that codecs write into
--   Metadata/Tables    src/metadata/model.rs, the rows that the metadata decodes to, and its string table
--   Metadata/Schema    src/metadata/schema.rs, the layouts, and the parser of a schema over the Thrift reader
--   Metadata/Frozen    src/metadata/frozen.rs, positions, and the values that a layout places there
--   Metadata/Strings   src/metadata/model.rs, the decoding of a compact string table
--   Metadata/Model     src/metadata/model.rs, the typed reads of root fields and of fields of structs, over
--                      the four before it
--   Fs/Inode           src/fs/inode.rs, the kinds of inodes
--   Fs/Chunks          src/fs/read.rs, the lengths of a file's chunks and the table of their ends
--   Fs/Deltas          src/fs/read.rs, the columns that are stored as differences
--   Fs/Offsets         src/fs/read.rs, where each kind of inode begins in the table
--   Fs/Links           src/fs/read.rs, the links of a packed directory table, rebuilt
--   Fs/Open            src/fs/read.rs, `open` from the decoded tables on, which calls the four before it
--   Fs/Filesystem      src/fs/read.rs, the opened filesystem, and what it answers about an inode
--   Fs/Directory       src/fs/read.rs, lookup of names and paths, listings, the traversal
--   Fs/Reader          src/fs/read.rs, reads of a file, over an interface to the cache
--   Fs/Cache           src/fs/read.rs, the cache of decoded blocks; in Fs/Cache/Threads the threads on it
--   Fs/Decode          src/fs/read.rs, the decoding of blocks into the cache, which fills that interface
--                      from Format/Image
--   Result             src/error.rs, and results with faults; Bytes, little-endian numbers; Prelude, lists
--                      indexed by native numbers, machine words and the laws of bit operations
--
-- A function that may fail returns a `Result`: a value, an error of the crate, or a fault. A fault is
-- what the Rust code has no value for: a panic, by an index or a slice out of bounds, an overflow of
-- plain arithmetic or a buffer above `isize::MAX`, or a loop of the model that was given too little fuel.
-- Machine integers are natural numbers with their checks, their wrap-around and their saturation written
-- out at 64 bits, the width of `usize` here. Reads through `&mut self` pass the reader's state on.
--
-- Loops run on fuel where the code's do not count down: the walk, the iterator and the scans get a round
-- for each byte and one more, since every round moves on; `skip_value` and the parser of schemas get two
-- for each byte left and two more; the search of a directory gets one for each entry and one more, and
-- the making of room in the cache one for each block and one more. The theorems about them prove that
-- this is enough. The traversal of a filesystem takes its fuel as an argument: the code bounds its depth
-- by nothing.
--
-- Calls nest without a bound in `skip_value` too, as deep as the input does; the model has no call stack that
-- could overflow.
--
-- Parameters: the hash functions, the codecs, and what the operating system answers to a positional read.
-- Not modelled: memory maps (they answer as vectors do), threads outside the block cache, capacity hints,
-- the interpolated values of messages, the accessors of the metadata's tables that Metadata/Model does not
-- have (lists of structs, options, lists of optional strings) and with them the way from the two metadata
-- sections to the tables, the codecs' own framing, extraction, FUSE and the command line tools.
pub mod Prelude
pub mod Result
pub mod Bytes
pub mod Format
pub mod Compression
pub mod Metadata
pub mod Fs
