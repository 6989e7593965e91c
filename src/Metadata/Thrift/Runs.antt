-- ===== src/Metadata/Thrift/Runs.antt =====
-- The reader's theorems on short inputs.
use rdwarfs.Prelude.{◌≡◌, [], ◌∷◌, arith, refl, true}
use rdwarfs.Result.{ok}
use rdwarfs.Metadata.Thrift.{ThriftReader, new, struct, skip_value, read_varint_u64}
use rdwarfs.Metadata.Thrift.Steady.{Goes, Leads}
use rdwarfs.Metadata.Thrift.Skip.{skip_value-Goes}
use rdwarfs.Metadata.Thrift.Varint.{write_varint, moved, read_varint_u64-write_varint}

-- A struct with one `i32` field, and its stop byte.
abbrev small_struct : ThriftReader
small_struct = new (0x15 ∷ 0x02 ∷ 0x00 ∷ [])

skip_value-Goes_example : Leads (Goes true small_struct) (skip_value 8 struct small_struct)
unfolding new
skip_value-Goes_example = skip_value-Goes 8 struct small_struct (omega arith) (omega arith)

-- 300 between other bytes.
abbrev at_varint : ThriftReader
at_varint = record (new (1 ∷ 0xac ∷ 0x02 ∷ 5 ∷ [])) { pos = 1 }

read_varint_u64-write_varint_example : read_varint_u64 at_varint ≡ ok (300, moved at_varint 2)
unfolding new write_varint
read_varint_u64-write_varint_example =
    read_varint_u64-write_varint 300 at_varint (1 ∷ []) (5 ∷ []) (omega arith) refl refl
