-- ===== src/Metadata/BitBuf/Runs.antt =====
-- Reads of a buffer of two bytes.
use rdwarfs.Prelude.{ℕ, ◌≡◌, List, [], ◌∷◌, arith, inr, All, IsByte}
use rdwarfs.Prelude.Int.{negsuc}
use rdwarfs.Result.{Error, ok, err}
use rdwarfs.Bytes.{from_le_bytes}
use rdwarfs.Metadata.BitBuf.{bit_len, read_u64, read_i64}
use rdwarfs.Metadata.BitBuf.Extent.{extent, read_u64-extent, read_u64-refused}
use rdwarfs.Metadata.BitBuf.Signed.{twos_complement, read_i64-twos_complement}

abbrev two : List ℕ
two = 0xf0 ∷ 0x0f ∷ []

two-IsByte : All IsByte two
two-IsByte = (omega arith, (omega arith, tt))

read_u64-extent_example : read_u64 two 4 8 ≡ ok 255
unfolding extent from_le_bytes bit_len
read_u64-extent_example =
    read_u64-extent two 4 8 two-IsByte (omega arith) (omega arith) (omega arith)

read_u64-refused_example : (e : Error) × (read_u64 two 10 8 ≡ err e)
unfolding bit_len
read_u64-refused_example = read_u64-refused two 10 8 (omega arith) (inr (omega arith))

read_i64-twos_complement_example : read_i64 two 4 8 ≡ ok (negsuc 0)
unfolding extent from_le_bytes twos_complement bit_len
read_i64-twos_complement_example =
    read_i64-twos_complement two 4 8 two-IsByte (omega arith) (omega arith) (omega arith)
      (omega arith)
