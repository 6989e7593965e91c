-- ===== src/Fs/Decode/Runs.antt =====
-- A cache over an image of one section, which is stored as it is, and the file that lies in it.
use rdwarfs.Prelude.{
  ◌-◌, ◌<◌, ◌≤◌, All, ℕ, zero, suc, ◌≡◌, refl, none, some, List, [], ◌∷◌, length, arith, inl,
  get_elem?, drop, take,
}
use rdwarfs.Bytes.{to_le_bytes}
use rdwarfs.Result.{ok, slice}
use rdwarfs.Format.SectionType
use rdwarfs.Format.Compression
use rdwarfs.Format.Samples.{sample, sample_image, sample_payload}
use rdwarfs.Format.Header.{write}
use rdwarfs.Format.Header as Header
use rdwarfs.Format.Source.{vec_source, slice_at, read_range}
use rdwarfs.Format.Integrity.{verify_xxh3, compute_xxh3}
use rdwarfs.Format.Image as Image
use rdwarfs.Format.Image.{SectionRecord}
use rdwarfs.Fs.Samples.{sample_fs, sample-IsSound, sample_file, sample_range}
use rdwarfs.Fs.Chunks.{add_inline, hole_length, chunk_logical_len, is_hole_chunk}
use rdwarfs.Fs.Reader.{read_into, read_file}
use rdwarfs.Fs.Reader.Content.{piece, IsPlaced, content, Serves}
use rdwarfs.Fs.Reader.Whole.{file_bytes, filled, read_into-content, read_file-content}
use rdwarfs.Fs.Decode.{BlockCache, BlockSource, decode_full, decode_prefix, block_reader, new}
use rdwarfs.Fs.Decode.Serving.{Decodes, Fit, decode_block-Serves}

abbrev section : SectionRecord
section = record { file_offset = 0; header = sample }

abbrev stored : BlockSource
stored = record {
  hashes = record { xxh3_64 = λ bytes. 4660; sha512_256 = λ bytes. [] };
  source = vec_source sample_image;
  decompress = λ codec payload cap. ok payload;
  decompress_prefix = λ codec payload needed. ok none;
  block_records = section ∷ [];
  block_size = 64;
}

abbrev one_block : ℕ → List ℕ
one_block zero = sample_payload
one_block (suc n) = []

section_decodes : decode_full stored section ≡ ok sample_payload
unfolding decode_full Image.decompress_section Image.section_bytes Image.section_len read_range
    vec_source slice_at verify_xxh3 compute_xxh3 slice sample_image write to_le_bytes
    SectionType.as_u16 Compression.as_u16 Header.section_len
section_decodes = refl

section_has_no_prefix : (want : ℕ) → decode_prefix stored section want ≡ ok none
unfolding decode_prefix Image.decompress_section_prefix Image.section_bytes Image.section_len
    read_range vec_source slice_at verify_xxh3 compute_xxh3 slice sample_image write to_le_bytes
    SectionType.as_u16 Compression.as_u16 Header.section_len
section_has_no_prefix want = refl

only_section :
    (block : ℕ) (s : SectionRecord)
    → get_elem? stored.block_records block ≡ some s
    → (block ≡ 0) × (s ≡ section)
only_section zero s e = (refl, cc)
only_section (suc block) s e = cc

stored-Decodes : Decodes stored one_block
stored-Decodes = record {
  block_size = omega arith;
  bounded = bounded_by;
  listed = listed_by;
  full =
      λ block s e. let (zero_is, is) = only_section block s e in rw (zero_is, is) section_decodes;
  prefix = λ block s want e.
      let (zero_is, is) = only_section block s e in rw (is) (inl (section_has_no_prefix want));
}
  where
    bounded_by : (block : ℕ) → length (one_block block) ≤ 64
    bounded_by zero = omega arith
    bounded_by (suc n) = omega arith

    listed_by :
        (block : ℕ)
        → 0 < length (one_block block)
        → (s : SectionRecord) × (get_elem? stored.block_records block ≡ some s)
    listed_by zero h = (section, refl)
    listed_by (suc n) h = absurd (omega arith)

decode_block-Serves_example : Serves (block_reader stored) one_block (Fit stored one_block)
decode_block-Serves_example = decode_block-Serves stored one_block stored-Decodes

placed : All (IsPlaced sample_fs one_block) (take (2 - 0) (drop 0 sample_fs.chunks))
unfolding is_hole_chunk
placed = ((λ e. (omega arith, omega arith)), ((λ e. absurd (cc)), tt))

new-Fit : Fit stored one_block (new stored 128)
new-Fit = (decode_block-Serves stored one_block stored-Decodes).new 128 (omega arith)

read_into-content_example :
    (cache' : BlockCache) × (read_into
        (block_reader stored)
        sample_fs
        2
        1
        (5 ∷ 5 ∷ 5 ∷ 5 ∷ [])
        (new stored 128)
      ≡ ok (
          filled
            (5 ∷ 5 ∷ 5 ∷ 5 ∷ [])
            (take 4 (drop 1 (file_bytes sample_fs one_block 0 2)))
            cache'))
    × Fit stored one_block cache'
read_into-content_example =
    read_into-content (block_reader stored) sample_fs one_block (Fit stored one_block)
      (decode_block-Serves stored one_block stored-Decodes) sample-IsSound 2 0 2 sample_file
      sample_range placed 1 (5 ∷ 5 ∷ 5 ∷ 5 ∷ []) (new stored 128) (omega arith) new-Fit

read_file-content_example :
    read_file (block_reader stored) sample_fs 2 ≡ ok (file_bytes sample_fs one_block 0 2)
unfolding content piece chunk_logical_len hole_length add_inline is_hole_chunk
read_file-content_example =
    read_file-content (block_reader stored) sample_fs one_block (Fit stored one_block)
      (decode_block-Serves stored one_block stored-Decodes) sample-IsSound 2 0 2 sample_file
      sample_range placed (omega arith) (omega arith)

-- The two bytes of the block behind its first, and the hole.
file_is : file_bytes sample_fs one_block 0 2 ≡ 8 ∷ 7 ∷ 0 ∷ []
unfolding content piece chunk_logical_len hole_length add_inline is_hole_chunk
file_is = refl
