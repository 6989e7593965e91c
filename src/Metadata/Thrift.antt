-- ===== src/Metadata/Thrift.antt =====
-- src/metadata/thrift.rs: the decoder of the Thrift compact protocol.
--
-- A method of the reader is a function of its state that returns a result with the next state; what an
-- error leaves behind in the reader is dropped, since every caller gives the reader up. Field ids are
-- `i16` and values `i64`, read here as integers with their ranges written out.
pub mod Varint
pub mod Steady
pub mod Reads
pub mod Skip
mod Runs
use rdwarfs.Prelude.{
  String, ℕ, zero, suc, ◌+◌, ◌-◌, ◌*◌, ◌/◌, ◌%◌, ◌^◌, ◌<◌, ◌≡◌, Bool, not, true, false, ◌||◌, ◌&&◌,
  Option, none, some, List, [], ◌∷◌, length, ltb, leb, ◌==◌, if◌then◌else◌, bit_and, bit_or,
  get_elem?, u32_mod, u64_mod, take, drop, checked_add,
}
use rdwarfs.Prelude.Int.{ℤ, pos, negsuc, ◌+ℤ◌}
use rdwarfs.Result.{Result, Error, Fault, ok, err, fault, out_of_fuel, decode, slice}

pub data TType : Type 0 where
  stop bool_true bool_false i8 i16 i32 i64 double binary list set map struct : TType

pub record ThriftReader : Type 0 where
  pub bytes : List ℕ
  pub pos : ℕ
  pub last_field_id : ℤ
  pub stack : List ℤ

abbrev pub Reader : Type 0 → Type 0
Reader A = ThriftReader → Result (A × ThriftReader)

abbrev pub followed :
    {A B : Type 0} → Result (A × ThriftReader) → (A → Reader B) → Result (B × ThriftReader)
followed (ok (a, r)) f = f a r
followed (err e) f = err e
followed (fault x) f = fault x

infixl 5 ◌>>=◌ ◌>>◌
abbrev pub ◌>>=◌ : {A B : Type 0} → Reader A → (A → Reader B) → Reader B
◌>>=◌ m f r = followed (m r) f

abbrev pub ◌>>◌ : {B : Type 0} → Reader (Unit {0}) → Reader B → Reader B
m >> k = m >>= λ _. k

abbrev pub pure : {A : Type 0} → A → Reader A
pure a r = ok (a, r)

abbrev pub fail : {A : Type 0} → String → Reader A
fail message r = err (decode "thrift" message)

abbrev pub ensure : {A : Type 0} → Option A → String → Reader A
ensure none message = fail message
ensure (some a) message = pure a

unfoldable pub new : List ℕ → ThriftReader
new bytes = record { bytes = bytes; pos = 0; last_field_id = pos 0; stack = [] }

unfoldable pub from_code : ℕ → Reader TType
from_code code =
    let c = bit_and code 0x0f in
    if c == 0
    then pure stop
    else if c == 1
    then pure bool_true
    else if c == 2
    then pure bool_false
    else if c == 3
    then pure i8
    else if c == 4
    then pure i16
    else if c == 5
    then pure i32
    else if c == 6
    then pure i64
    else if c == 7
    then pure double
    else if c == 8
    then pure binary
    else if c == 9
    then pure list
    else if c == 10
    then pure set
    else if c == 11
    then pure map
    else if c == 12
    then pure struct
    else fail "unknown thrift type code"

unfoldable pub read_byte : Reader ℕ
read_byte r = elim (get_elem? r.bytes r.pos) [
  | none ↦ err (decode "thrift" "unexpected end of thrift input")
  | some b ↦ ok (b, record r { pos = r.pos + 1 })
]

-- `self.pos = end`, behind the slice that is returned.
abbrev pub with_pos : ThriftReader → ℕ → Result (List ℕ) → Result (List ℕ × ThriftReader)
with_pos r end (ok bytes) = ok (bytes, record r { pos = end })
with_pos r end (err e) = err e
with_pos r end (fault x) = fault x

unfoldable pub read_slice : ℕ → Reader (List ℕ)
read_slice len r = elim (checked_add r.pos len) [
  | none ↦ err (decode "thrift" "length overflow in thrift input")
  | some end ↦
      if ltb (length r.bytes) end
      then err (decode "thrift" "thrift slice runs past end")
      else with_pos r end (slice r.bytes r.pos end)
]

-- `chunk.checked_shl(shift)` on `u64`: only the shift is checked, and bits shifted out are lost.
abbrev pub checked_shl : ℕ → ℕ → Option ℕ
checked_shl chunk shift = if ltb shift 64 then some (chunk * 2 ^ shift % u64_mod) else none

-- The rounds left of `for _ in 0..10`, with `result` and `shift`.
unfoldable pub varint_loop : ℕ → ℕ → ℕ → Reader ℕ
varint_loop zero result shift = fail "varint too long"
varint_loop (suc rounds) result shift = do
  b ← read_byte
  chunk ← ensure (checked_shl (bit_and b 0x7f) shift) "varint overflow"
  if bit_and b 0x80 == 0
      then pure (bit_or result chunk)
      else varint_loop rounds (bit_or result chunk) (shift + 7)

unfoldable pub read_varint_u64 : Reader ℕ
read_varint_u64 = varint_loop 10 0 0

-- `((v >> 1) as i64) ^ -((v & 1) as i64)`: exclusive or with 0 or with -1, which is `-x - 1`.
abbrev pub zigzag : ℕ → ℤ
zigzag v = if v % 2 == 0 then pos (v / 2) else negsuc (v / 2)

unfoldable pub read_zigzag_i64 : Reader ℤ
read_zigzag_i64 = do v ← read_varint_u64; pure (zigzag v)

-- Whether an integer lies in `-bound .. bound - 1`, the range of a signed type.
abbrev pub in_range : ℕ → ℤ → Bool
in_range bound (pos n) = ltb n bound
in_range bound (negsuc n) = ltb n bound

unfoldable pub read_i16 : Reader ℤ
read_i16 = do
  v ← read_zigzag_i64
  if in_range 32768 v then pure v else fail "value out of range for i16"

unfoldable pub read_i32 : Reader ℤ
read_i32 = do
  v ← read_zigzag_i64
  if in_range 2147483648 v then pure v else fail "value out of range for i32"

unfoldable pub read_i64 : Reader ℤ
read_i64 = read_zigzag_i64

-- `as i8` reads the byte in two's complement.
unfoldable pub read_i8 : Reader ℤ
read_i8 = do b ← read_byte; pure (if ltb b 128 then pos b else negsuc (255 - b))

-- `usize::try_from` cannot fail at 64 bits.
unfoldable pub read_binary : Reader (List ℕ)
read_binary = do len ← read_varint_u64; read_slice len

abbrev as_u32 : ℕ → String → Reader ℕ
as_u32 v message = if ltb v u32_mod then pure v else fail message

-- `read_string`; whether bytes are UTF-8 is the standard library's to say.
unfoldable pub read_string : (List ℕ → Bool) → Reader (List ℕ)
read_string is_utf8 = do
  bytes ← read_binary
  if is_utf8 bytes then pure bytes else fail "non-utf8 thrift string"

unfoldable pub read_list_header : Reader (TType × ℕ)
read_list_header = do
  header ← read_byte
  etype ← from_code header
  let small = bit_and (header / 16) 0x0f
  if small == 0x0f
      then (do
        big ← read_varint_u64
        count ← as_u32 big "list length exceeds u32"
        pure (etype, count))
      else pure (etype, small)

unfoldable pub read_set_header : Reader (TType × ℕ)
read_set_header = read_list_header

unfoldable pub read_map_header : Reader (TType × TType × ℕ)
read_map_header = do
  big ← read_varint_u64
  count ← as_u32 big "map length exceeds u32"
  if count == 0 then pure (stop, stop, 0) else (do
    kv ← read_byte
    key ← from_code (kv / 16)
    val ← from_code (bit_and kv 0x0f)
    pure (key, val, count))

unfoldable pub read_struct_begin : Reader (Unit {0})
read_struct_begin r = ok (tt, record r { last_field_id = pos 0; stack = r.last_field_id ∷ r.stack })

abbrev pub pop : List ℤ → ℤ × List ℤ
pop [] = (pos 0, [])
pop (id ∷ ids) = (id, ids)

unfoldable pub read_struct_end : Reader (Unit {0})
read_struct_end r = ok (tt, record r { last_field_id = (pop r.stack).0; stack = (pop r.stack).1 })

pub record FieldHeader : Type 0 where
  pub ttype : TType
  pub id : ℤ

abbrev get_last_field_id : Reader ℤ
get_last_field_id r = ok (r.last_field_id, r)

abbrev set_last_field_id : ℤ → Reader (Unit {0})
set_last_field_id id r = ok (tt, record r { last_field_id = id })

-- `last_field_id.checked_add(delta)` on `i16`.
abbrev pub add_delta : ℤ → ℕ → Option ℤ
add_delta last delta = let id = ◌+ℤ◌ last (pos delta) in if in_range 32768 id then some id else none

-- The field id that a header byte stands for: a delta, or an explicit id behind the byte.
unfoldable pub read_field_id : ℕ → Reader ℤ
read_field_id delta =
    if delta == 0
    then read_i16
    else do last ← get_last_field_id; ensure (add_delta last delta) "field id delta overflow"

unfoldable pub read_field_header : Reader (Option FieldHeader)
read_field_header = do
  byte ← read_byte
  if byte == 0 then pure none else do
    ttype ← from_code (bit_and byte 0x0f)
    id ← read_field_id (bit_and (byte / 16) 0x0f)
    set_last_field_id id
    pure (some (record { ttype = ttype; id = id }))

-- `for _ in 0..count`.
unfoldable pub repeat : ℕ → Reader (Unit {0}) → Reader (Unit {0})
repeat zero m = pure tt
repeat (suc n) m = do m; repeat n m

abbrev pub discard : {A : Type 0} → Reader A → Reader (Unit {0})
discard m = do a ← m; pure tt

-- A container element: `skip` stands for `skip_value`, and a Boolean takes a byte.
unfoldable pub skip_element : (TType → Reader (Unit {0})) → TType → Reader (Unit {0})
skip_element skip bool_true = discard read_byte
skip_element skip bool_false = discard read_byte
skip_element skip other = skip other

-- The body of the loop over fields, and the rest of the loop.
unfoldable pub skip_rest :
    (TType → Reader (Unit {0})) → Reader (Unit {0}) → Option FieldHeader → Reader (Unit {0})
skip_rest skip rest none = pure tt
skip_rest skip rest (some field) = do skip field.ttype; rest

-- Fuel bounds the nesting and the fields of structs; `skip_fields` is the loop over those. The code recurses
-- as deep as the input nests, and the stack that this takes is not modelled.
unfoldable mutual
  pub skip_value : ℕ → TType → Reader (Unit {0})
  skip_value zero ttype = λ r. fault out_of_fuel
  skip_value (suc fuel) stop = pure tt
  skip_value (suc fuel) bool_true = pure tt
  skip_value (suc fuel) bool_false = pure tt
  skip_value (suc fuel) i8 = discard read_byte
  skip_value (suc fuel) i16 = discard read_varint_u64
  skip_value (suc fuel) i32 = discard read_varint_u64
  skip_value (suc fuel) i64 = discard read_varint_u64
  skip_value (suc fuel) double = discard (read_slice 8)
  skip_value (suc fuel) binary = discard read_binary
  skip_value (suc fuel) list = do
    (etype, count) ← read_list_header
    repeat count (skip_element (skip_value fuel) etype)
  skip_value (suc fuel) set = do
    (etype, count) ← read_list_header
    repeat count (skip_element (skip_value fuel) etype)
  skip_value (suc fuel) map = do
    (kt, vt, count) ← read_map_header
    repeat count (skip_element (skip_value fuel) kt >> skip_element (skip_value fuel) vt)
  skip_value (suc fuel) struct = do read_struct_begin; skip_fields fuel; read_struct_end

  pub skip_fields : ℕ → Reader (Unit {0})
  skip_fields zero = λ r. fault out_of_fuel
  skip_fields (suc fuel) = do
    field ← read_field_header
    skip_rest (skip_value fuel) (skip_fields fuel) field

-- A Boolean element of a container.
unfoldable pub read_bool_element : Reader Bool
read_bool_element = do byte ← read_byte; pure (not (byte == 0))
