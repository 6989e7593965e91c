-- ===== src/Metadata/BitBuf.antt =====
-- src/metadata/bitbuf.rs: a reader of bit fields, the lowest bit of a byte first.
pub mod Extent
pub mod Signed
mod Runs
use rdwarfs.Prelude.{
  ℕ, zero, suc, ◌+◌, ◌-◌, ◌*◌, ◌/◌, ◌%◌, ◌^◌, Bool, not, List, length, ltb, ◌==◌, if◌then◌else◌,
  bit_and, bit_or, checked_add, u64_mod,
}
use rdwarfs.Prelude.Int.{ℤ, pos, as_i64}
use rdwarfs.Result.{Result, Error, ok, err, ◌>>=◌, ok_or, index, decode}

-- The product would wrap from 2^61 bytes on, which is more than any address space holds.
unfoldable pub bit_len : List ℕ → ℕ
bit_len bytes = length bytes * 8

-- The loop that collects `rounds` bytes from `byte_off + i` on into an accumulator of 128 bits, of
-- which at most 72 are used.
unfoldable pub accumulate : List ℕ → ℕ → ℕ → ℕ → ℕ → Result ℕ
accumulate bytes byte_off zero i acc = ok acc
accumulate bytes byte_off (suc rounds) i acc = do
  b ← index bytes (byte_off + i)
  accumulate bytes byte_off rounds (i + 1) (bit_or acc (b * 2 ^ (i * 8)))

-- The fields of a read once it is known to be in bounds. `(shift + num_bits).div_ceil(8)` bytes are
-- collected.
unfoldable pub extract : List ℕ → ℕ → ℕ → Result ℕ
unfolding accumulate
extract bytes bit_offset num_bits = do
  let byte_off = bit_offset / 8
  let shift = bit_offset % 8
  let span = (shift + num_bits + 7) / 8
  acc ← accumulate bytes byte_off span 0 0
  let mask = if num_bits == 64 then u64_mod - 1 else 2 ^ num_bits - 1
  ok (bit_and (acc / 2 ^ shift) mask % u64_mod)

unfoldable pub read_u64 : List ℕ → ℕ → ℕ → Result ℕ
read_u64 bytes bit_offset num_bits =
    if num_bits == 0
    then ok 0
    else if ltb 64 num_bits
    then err (decode "frozen2-bitbuf" "requested bits, max is 64")
    else do
      end_bit ←
          ok_or (checked_add bit_offset num_bits) (decode "frozen2-bitbuf" "bit offset overflow")
      if ltb (bit_len bytes) end_bit
          then err (decode "frozen2-bitbuf" "read of bits runs past end")
          else extract bytes bit_offset num_bits

unfoldable pub read_bool : List ℕ → ℕ → Result Bool
read_bool bytes bit_offset = do bit ← read_u64 bytes bit_offset 1; ok (not (bit == 0))

-- `raw | (!0u64 << num_bits)`.
abbrev pub extended : ℕ → ℕ → ℕ
extended raw num_bits = bit_or raw ((u64_mod - 1) * 2 ^ num_bits % u64_mod)

-- `1u64 << (num_bits - 1)`, tested in `raw`: the value is negative.
unfoldable pub sign_extend : ℕ → ℕ → ℤ
sign_extend raw num_bits =
    if not (bit_and raw (2 ^ (num_bits - 1)) == 0)
    then as_i64 (extended raw num_bits)
    else as_i64 raw

unfoldable pub read_i64 : List ℕ → ℕ → ℕ → Result ℤ
read_i64 bytes bit_offset num_bits =
    if num_bits == 0
    then ok (pos 0)
    else if ltb 64 num_bits
    then err (decode "frozen2-bitbuf" "requested signed bits, max 64")
    else do
      raw ← read_u64 bytes bit_offset num_bits
      if num_bits == 64 then ok (as_i64 raw) else ok (sign_extend raw num_bits)
