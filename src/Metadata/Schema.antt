-- ===== src/Metadata/Schema.antt =====
-- src/metadata/schema.rs: the layouts that a Frozen2 blob is read by, and the parser of a schema.
--
-- The maps by id are association lists. Ids and offsets are `i16`, read here as integers. The UTF-8 check
-- of type names is a parameter, as it is in the Thrift reader.
pub mod Ends
mod Runs
use rdwarfs.Prelude.{
  ℕ, zero, suc, ◌+◌, ◌*◌, ◌/◌, Bool, not, true, false, ◌||◌, ◌&&◌, Option, none, some, String, List,
  [], ◌∷◌, length, ltb, ◌==◌, if◌then◌else◌,
}
use rdwarfs.Prelude.Int.{ℤ, pos, negsuc, same_int}
use rdwarfs.Result.{Result, ok, err, fault, out_of_fuel, ok_or, decode}
use rdwarfs.Metadata.Thrift.{
  TType, stop, bool_true, bool_false, i8, i16, i32, i64, double, binary, list, set, map, struct,
  ThriftReader, Reader, ◌>>=◌, ◌>>◌, pure, new, read_i16, read_i32, read_string, read_map_header,
  read_struct_begin, read_struct_end, FieldHeader, read_field_header, skip_value,
}

pub record Field : Type 0 where
  pub layout_id : ℤ
  pub offset : ℤ

-- `Field::bit_offset`, `Field::byte_offset` and `Field::is_bit_offset`.
unfoldable pub bit_offset : Field → ℕ
bit_offset field = elim field.offset [ pos bytes ↦ bytes * 8 | negsuc bits ↦ suc bits ]

unfoldable pub byte_offset : Field → ℕ
byte_offset field = elim field.offset [ pos bytes ↦ bytes | negsuc bits ↦ suc bits / 8 ]

unfoldable pub is_bit_offset : Field → Bool
is_bit_offset field = elim field.offset [ pos bytes ↦ false | negsuc bits ↦ true ]

pub record Layout : Type 0 where
  pub size : ℕ
  pub bits : ℕ
  pub fields : List (ℤ × Field)
  pub type_name : List ℕ

pub record Schema : Type 0 where
  pub file_version : ℤ
  pub relax_type_checks : Bool
  pub layouts : List (ℤ × Layout)
  pub root_layout : ℤ

module _ {A : Type 0} where
  -- `BTreeMap::get` and `BTreeMap::insert`.
  unfoldable pub get : List (ℤ × A) → ℤ → Option A
  get [] id = none
  get ((key, value) ∷ entries) id = if same_int key id then some value else get entries id

  unfoldable pub insert : List (ℤ × A) → ℤ → A → List (ℤ × A)
  insert [] id new_value = (id, new_value) ∷ []
  insert ((key, value) ∷ entries) id new_value =
      let rest = insert entries id new_value in
      if same_int key id then (id, new_value) ∷ entries else (key, value) ∷ rest

-- `Layout::field`.
unfoldable pub field : Layout → ℤ → Option Field
field layout id = get layout.fields id

abbrev pub is_empty : {A : Type 0} → List A → Bool
is_empty [] = true
is_empty (x ∷ xs) = false

unfoldable pub is_integral : Layout → Bool
is_integral layout = ltb 0 layout.bits && is_empty layout.fields

-- `Schema::root` and `Schema::layout`.
unfoldable pub root : Schema → Result Layout
root schema =
    ok_or (get schema.layouts schema.root_layout)
      (decode "frozen2-schema" "root layout id not present")

unfoldable pub layout : Schema → ℤ → Result Layout
layout schema id = ok_or (get schema.layouts id) (decode "frozen2-schema" "layout id not present")

abbrev pub refuse : {A : Type 0} → String → Reader A
refuse message r = err (decode "frozen2-schema" message)

-- Which constructor a wire type is.
abbrev pub code_of : TType → ℕ
code_of stop = 0
code_of bool_true = 1
code_of bool_false = 2
code_of i8 = 3
code_of i16 = 4
code_of i32 = 5
code_of i64 = 6
code_of double = 7
code_of binary = 8
code_of list = 9
code_of set = 10
code_of map = 11
code_of struct = 12

abbrev pub same_type : TType → TType → Bool
same_type a b = code_of a == code_of b

-- The pattern `(id, ttype)` of a match arm.
abbrev pub is_field : ℕ → TType → FieldHeader → Bool
is_field id ttype header = same_int header.id (pos id) && same_type header.ttype ttype

module _ {S : Type 0} where
  -- `while let Some(field) = r.read_field_header()?`, over what the loop builds.
  unfoldable pub field_then :
      (FieldHeader → S → Reader S) → (S → Reader S) → S → Option FieldHeader → Reader S
  field_then step go_on s none = pure s
  field_then step go_on s (some header) = do s' ← step header s; go_on s'

  unfoldable pub fields_loop : (FieldHeader → S → Reader S) → ℕ → S → Reader S
  fields_loop step zero s = λ r. fault out_of_fuel
  fields_loop step (suc fuel) s = do
    header ← read_field_header
    field_then step (fields_loop step fuel) s header

  unfoldable pub read_struct : (FieldHeader → S → Reader S) → ℕ → S → Reader S
  read_struct step fuel s = do
    read_struct_begin
    s' ← fields_loop step fuel s
    read_struct_end
    pure s'

  -- An arm `(_, ttype) => r.skip_value(ttype)?`.
  unfoldable pub skip_field : ℕ → FieldHeader → S → Reader S
  skip_field fuel header s = do skip_value fuel header.ttype; pure s

-- `for _ in 0..count`.
unfoldable pub map_loop : {A : Type 0} → Reader A → ℕ → List (ℤ × A) → Reader (List (ℤ × A))
map_loop value zero out = pure out
map_loop value (suc count) out = do
  key ← read_i16
  entry ← value
  map_loop value count (insert out key entry)

-- `read_layout_map` and `read_field_map`, by what reads a value.
unfoldable pub read_id_map : {A : Type 0} → String → Reader A → Reader (List (ℤ × A))
read_id_map message value = do
  (kt, vt, count) ← read_map_header
  if not (count == 0) && (not (same_type kt i16) || not (same_type vt struct))
      then refuse message
      else map_loop value count []

unfoldable pub field_arm : ℕ → FieldHeader → Field → Reader Field
field_arm fuel header s =
    if is_field 1 i16 header
    then (do v ← read_i16; pure (record s { layout_id = v }))
    else if is_field 2 i16 header
    then (do v ← read_i16; pure (record s { offset = v }))
    else skip_field fuel header s

unfoldable pub read_field : ℕ → Reader Field
read_field fuel = read_struct (field_arm fuel) fuel (record { layout_id = pos 0; offset = pos 0 })

unfoldable pub read_field_map : ℕ → Reader (List (ℤ × Field))
read_field_map fuel = read_id_map "field map has unexpected key/value types" (read_field fuel)

-- `u32::try_from` and `u16::try_from` on what `i32` and `i16` hold.
abbrev pub non_negative : ℤ → String → Reader ℕ
non_negative (pos n) message = pure n
non_negative (negsuc n) message = refuse message

module _ (is_utf8 : List ℕ → Bool) where
  unfoldable pub layout_arm : ℕ → FieldHeader → Layout → Reader Layout
  layout_arm fuel header s =
      if is_field 1 i32 header
      then (do
        v ← read_i32
        size ← non_negative v "layout size is negative"
        pure (record s { size = size }))
      else if is_field 2 i16 header
      then (do
        v ← read_i16
        bits ← non_negative v "layout bits is negative"
        pure (record s { bits = bits }))
      else if is_field 3 map header
      then (do fields ← read_field_map fuel; pure (record s { fields = fields }))
      else if is_field 4 binary header
      then (do name ← read_string is_utf8; pure (record s { type_name = name }))
      else skip_field fuel header s

  unfoldable pub read_layout : ℕ → Reader Layout
  read_layout fuel =
      read_struct (layout_arm fuel) fuel
        (record { size = 0; bits = 0; fields = []; type_name = [] })

  unfoldable pub read_layout_map : ℕ → Reader (List (ℤ × Layout))
  read_layout_map fuel = read_id_map "layout map has unexpected key/value types" (read_layout fuel)

  unfoldable pub schema_arm : ℕ → FieldHeader → Schema → Reader Schema
  schema_arm fuel header s =
      if is_field 1 bool_true header
      then pure (record s { relax_type_checks = true })
      else if is_field 1 bool_false header
      then pure (record s { relax_type_checks = false })
      else if is_field 2 map header
      then (do layouts ← read_layout_map fuel; pure (record s { layouts = layouts }))
      else if is_field 3 i16 header
      then (do id ← read_i16; pure (record s { root_layout = id }))
      else if is_field 4 i32 header
      then (do version ← read_i32; pure (record s { file_version = version }))
      else skip_field fuel header s

  abbrev pub value_of : Result (Schema × ThriftReader) → Result Schema
  value_of (ok (schema, r)) = ok schema
  value_of (err e) = err e
  value_of (fault x) = fault x

  -- Every field takes a byte, and skipping a value two rounds for each byte and two more.
  unfoldable pub parse : List ℕ → Result Schema
  parse bytes =
      let fuel = 2 * length bytes + 2 in
      value_of (
        read_struct (schema_arm fuel) fuel
          (record {
            file_version = pos 0;
            relax_type_checks = false;
            layouts = [];
            root_layout = pos 0;
          })
          (new bytes))
