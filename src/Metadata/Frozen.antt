-- ===== src/Metadata/Frozen.antt =====
-- src/metadata/frozen.rs: positions in a Frozen2 blob, and the values that a layout places there.
pub mod Bounds
mod Runs
use rdwarfs.Prelude.{
  ℕ, zero, suc, ◌+◌, ◌*◌, Bool, true, false, not, ◌||◌, ◌&&◌, Option, none, some, List, [], ◌∷◌,
  length, ltb, ◌==◌, if◌then◌else◌, checked_add, checked_mul, saturating_add, saturating_mul,
}
use rdwarfs.Prelude.Int.{ℤ, pos, negsuc}
use rdwarfs.Result.{Result, Error, ok, err, ◌>>=◌, ok_or, slice, plain_add, decode}
use rdwarfs.Metadata.BitBuf.{read_u64, read_bool}
use rdwarfs.Metadata.Schema as Schema
use rdwarfs.Metadata.Schema.{Field, Layout, Schema, field, is_empty}

-- The fields `byte` and `bit`.
pub record Pos : Type 0 where
  pub byte : ℕ
  pub bit : ℕ

abbrev pub root_pos : Pos
root_pos = record { byte = 0; bit = 0 }

unfoldable pub absolute_bit : Pos → ℕ
absolute_bit p = saturating_add (saturating_mul p.byte 8) p.bit

-- A negative offset counts bits, another one bytes; neither sum is checked.
abbrev pub child_at : Pos → ℤ → Result Pos
child_at p (pos bytes) = do byte ← plain_add p.byte bytes; ok (record p { byte = byte })
child_at p (negsuc bits) = do bit ← plain_add p.bit (suc bits); ok (record p { bit = bit })

unfoldable pub child : Pos → Field → Result Pos
child p f = child_at p f.offset

pub data LayoutKind : Type 0 where
  integral : ℕ → LayoutKind
  struct : LayoutKind
  string : LayoutKind
  array : ℤ → LayoutKind
  optional : Option ℤ → LayoutKind
  empty : LayoutKind

abbrev pub layout_id_of : Option Field → Option ℤ
layout_id_of none = none
layout_id_of (some f) = some f.layout_id

abbrev pub is_some : {A : Type 0} → Option A → Bool
is_some none = false
is_some (some a) = true

-- The classification of a layout with fields that is no optional.
abbrev pub range_kind : Option Field → Bool → LayoutKind
range_kind (some f3) has_range = array f3.layout_id
range_kind none true = string
range_kind none false = struct

abbrev pub kind_without_isset : Layout → LayoutKind
kind_without_isset layout =
    range_kind (field layout (pos 3))
      (is_some (field layout (pos 1)) || is_some (field layout (pos 2)))

abbrev pub kind_with_first : Schema → Layout → Option Field → Result LayoutKind
kind_with_first schema layout none = ok (kind_without_isset layout)
kind_with_first schema layout (some f1) = do
  l1 ← Schema.layout schema f1.layout_id
  if is_empty l1.fields && (l1.bits == 1)
      then ok (optional (layout_id_of (field layout (pos 2))))
      else ok (kind_without_isset layout)

-- `LayoutKind::of`.
unfoldable pub layout_kind : Layout → Schema → Result LayoutKind
layout_kind layout schema =
    if is_empty layout.fields
    then (if (layout.bits == 0) && (layout.size == 0) then ok empty else ok (integral layout.bits))
    else kind_with_first schema layout (field layout (pos 1))

pub record RangeView : Type 0 where
  pub data_byte : ℕ
  pub count : ℕ
  pub item_layout_id : Option ℤ

pub record OptionalView : Type 0 where
  pub present : Bool
  pub value_pos : Pos
  pub value_layout_id : Option ℤ

pub record FieldView : Type 0 where
  pub field : Field
  pub pos : Pos

pub record Frozen : Type 0 where
  pub schema : Schema
  pub buf : List ℕ

module _ (frozen : Frozen) where
  unfoldable pub read_integral : Pos → ℕ → Result ℕ
  read_integral p bits = read_u64 frozen.buf (absolute_bit p) bits

  abbrev pub view_of : Pos → Option Field → Result (Option FieldView)
  view_of parent none = ok none
  view_of parent (some f) = do p ← child parent f; ok (some (record { field = f; pos = p }))

  -- `Frozen::field`.
  unfoldable pub field_view : Pos → Layout → ℤ → Result (Option FieldView)
  field_view parent parent_layout id = view_of parent (field parent_layout id)

  -- A part of a range, by its field, or zero where the writer left it out.
  unfoldable pub read_part : Pos → Option Field → Result ℕ
  read_part range_pos none = ok 0
  read_part range_pos (some f) = do
    part_layout ← Schema.layout frozen.schema f.layout_id
    p ← child range_pos f
    read_u64 frozen.buf (absolute_bit p) part_layout.bits

  unfoldable pub read_range : Pos → Layout → Result RangeView
  read_range range_pos range_layout = do
    count ← read_part range_pos (field range_layout (pos 2))
    distance ← if count == 0 then ok 0 else read_part range_pos (field range_layout (pos 1))
    data_byte ←
        ok_or (checked_add range_pos.byte distance) (decode "frozen2" "range distance overflow")
    ok (record {
      data_byte = data_byte;
      count = count;
      item_layout_id = layout_id_of (field range_layout (pos 3));
    })

  abbrev pub optional_view : Pos → Bool → Option Field → Result OptionalView
  optional_view opt_pos present none =
      ok (record { present = present; value_pos = opt_pos; value_layout_id = none })
  optional_view opt_pos present (some value_field) = do
    value_pos ← child opt_pos value_field
    ok (record {
      present = present;
      value_pos = value_pos;
      value_layout_id = some value_field.layout_id;
    })

  unfoldable pub read_optional : Pos → Layout → Result OptionalView
  read_optional opt_pos opt_layout = do
    isset_field ← ok_or (field opt_layout (pos 1)) (decode "frozen2" "expected sub-field with id")
    p ← child opt_pos isset_field
    present ← read_bool frozen.buf (absolute_bit p)
    optional_view opt_pos present (field opt_layout (pos 2))

  unfoldable pub read_string_bytes : Pos → Layout → Result (List ℕ)
  read_string_bytes range_pos range_layout = do
    range ← read_range range_pos range_layout
    end ← ok_or (checked_add range.data_byte range.count) (decode "frozen2" "string slice overflow")
    if ltb (length frozen.buf) end
        then err (decode "frozen2" "string slice runs past buffer")
        else slice frozen.buf range.data_byte end

  abbrev pub byte_pos : Option ℕ → Error → Result Pos
  byte_pos byte e = do b ← ok_or byte e; ok (record { byte = b; bit = 0 })

  abbrev pub item_pos : ℕ → ℕ → Layout → Result Pos
  item_pos data_byte i item_layout =
      if ltb 0 item_layout.size
      then (do
        off ←
            ok_or (checked_mul i item_layout.size)
              (decode "frozen2" "array element byte offset overflow")
        byte_pos (checked_add data_byte off)
            (decode "frozen2" "array element byte offset overflow"))
      else (do
        bits ←
            ok_or (checked_mul i item_layout.bits)
              (decode "frozen2" "array element bit offset overflow")
        ok (record { byte = data_byte; bit = bits }))

  abbrev pub element_at : RangeView → ℕ → Option ℤ → Result Pos
  element_at range i none =
      byte_pos (checked_add range.data_byte i) (decode "frozen2" "string element offset overflow")
  element_at range i (some item_id) = do
    item_layout ← Schema.layout frozen.schema item_id
    item_pos range.data_byte i item_layout

  unfoldable pub element_pos : RangeView → ℕ → Result Pos
  element_pos range i = element_at range i range.item_layout_id
