-- ===== src/Metadata/Model.antt =====
-- src/metadata/model.rs: the typed accessors of the metadata, over a Frozen2 blob.
--
-- A list is built as its loop meets its elements. Whether bytes are UTF-8 is a parameter.
use rdwarfs.Prelude.{
  ℕ, zero, suc, ◌+◌, Bool, true, false, not, ◌&&◌, Option, none, some, String, List, [], ◌∷◌, ◌++◌,
  length, replicate, ltb, ◌==◌, if◌then◌else◌, u32_mod,
}
use rdwarfs.Prelude.Int.{ℤ, pos}
use rdwarfs.Result.{Result, ok, err, ◌>>=◌, ok_or, decode, cap_exceeded}
use rdwarfs.Metadata.Schema.{Field, Layout, Schema, field, is_empty}
use rdwarfs.Metadata.Schema as Schema
use rdwarfs.Metadata.Frozen.{
  Pos, root_pos, child, LayoutKind, integral, struct, string, array, optional, empty, layout_kind,
  RangeView, OptionalView, FieldView, Frozen, read_integral, field_view, read_range, read_optional,
  read_string_bytes, element_pos,
}
use rdwarfs.Metadata.Strings.{no_strings, decode_string_table}
use rdwarfs.Metadata.Tables.{StringTable}

pub record Metadata : Type 0 where
  pub frozen : Frozen
  pub root_layout : Layout

-- `Metadata::parse`.
unfoldable pub parse : Schema → List ℕ → Result Metadata
parse schema bytes = do
  root_layout ← Schema.root schema
  ok (record { frozen = record { schema = schema; buf = bytes }; root_layout = root_layout })

abbrev pub default_list_cap : ℕ
default_list_cap = 67108864

abbrev pub refused : {A : Type 0} → String → Result A
refused message = err (decode "frozen2-model" message)

-- `u32::try_from`.
abbrev pub as_u32 : ℕ → String → Result ℕ
as_u32 v message = if ltb v u32_mod then ok v else refused message

unfoldable pub as_u32_list : String → List ℕ → Result (List ℕ)
as_u32_list message [] = ok []
as_u32_list message (v ∷ vs) = do
  first ← as_u32 v message
  rest ← as_u32_list message vs
  ok (first ∷ rest)

abbrev pub within_cap : ℕ → String → RangeView → Result RangeView
within_cap cap name range =
    if ltb cap range.count then err (cap_exceeded name cap range.count) else ok range

module _ (m : Metadata) where
  abbrev pub layout_by : ℤ → Result Layout
  layout_by id = Schema.layout m.frozen.schema id

  abbrev pub kind_of : Layout → Result LayoutKind
  kind_of layout = layout_kind layout m.frozen.schema

  -- `Metadata::field`, by its id.
  unfoldable pub root_field : ℕ → Result (Option FieldView)
  root_field id = field_view m.frozen root_pos m.root_layout (pos id)

  -- The value of an optional that is set, with a layout.
  abbrev pub set_value : OptionalView → Option ℤ → Result (Option (Layout × Pos))
  set_value opt none = ok none
  set_value opt (some id) =
      if opt.present then (do inner ← layout_by id; ok (some (inner, opt.value_pos))) else ok none

  abbrev pub place_by : LayoutKind → Layout → Pos → Result (Option (Layout × Pos))
  place_by (optional value_layout_id) outer p = do
    opt ← read_optional m.frozen p outer
    set_value opt value_layout_id
  place_by (integral bits) outer p = ok (some (outer, p))
  place_by struct outer p = ok (some (outer, p))
  place_by string outer p = ok (some (outer, p))
  place_by (array item_layout_id) outer p = ok (some (outer, p))
  place_by empty outer p = ok (some (outer, p))

  -- A field behind an optional or not: its layout and its position, unless it is not set.
  unfoldable pub place_of : Layout → Pos → Result (Option (Layout × Pos))
  place_of outer p = do kind ← kind_of outer; place_by kind outer p

  abbrev pub resolve_view : Option FieldView → Result (Option (Layout × Pos))
  resolve_view none = ok none
  resolve_view (some view) = do outer ← layout_by view.field.layout_id; place_of outer view.pos

  unfoldable pub resolve_list : ℕ → Result (Option (Layout × Pos))
  resolve_list id = do view ← root_field id; resolve_view view

  unfoldable pub read_int : ℕ → Result ℕ
  read_int id = do
    found ← root_field id
    view ← ok_or found (decode "frozen2-model" "required metadata field missing")
    layout ← layout_by view.field.layout_id
    read_integral m.frozen view.pos layout.bits

  abbrev pub optional_value : OptionalView → Option ℤ → Result (Option ℕ)
  optional_value opt none = ok (some 0)
  optional_value opt (some id) = do
    value_layout ← layout_by id
    value ← read_integral m.frozen opt.value_pos value_layout.bits
    ok (some value)

  abbrev pub optional_int : Option FieldView → Result (Option ℕ)
  optional_int none = ok none
  optional_int (some view) = do
    layout ← layout_by view.field.layout_id
    opt ← read_optional m.frozen view.pos layout
    if opt.present then optional_value opt opt.value_layout_id else ok none

  unfoldable pub read_optional_int : ℕ → Result (Option ℕ)
  read_optional_int id = do view ← root_field id; optional_int view

  -- `u32::try_from(v).map(Some)`.
  abbrev pub optional_u32 : String → Option ℕ → Result (Option ℕ)
  optional_u32 message none = ok none
  optional_u32 message (some v) = do u ← as_u32 v message; ok (some u)

  -- The rounds left of `for i in 0..range.count` over integers of some width.
  unfoldable pub int_loop : RangeView → ℕ → ℕ → ℕ → Result (List ℕ)
  int_loop range bits zero i = ok []
  int_loop range bits (suc rounds) i = do
    p ← element_pos m.frozen range i
    v ← read_integral m.frozen p bits
    rest ← int_loop range bits rounds (i + 1)
    ok (v ∷ rest)

  abbrev pub items_of : RangeView → ℕ → Result (List ℕ)
  items_of range bits =
      if bits == 0 then ok (replicate range.count 0) else int_loop range bits range.count 0

  -- The `match` on the kind of a list of integers; `only_integral` refuses items with fields.
  abbrev pub int_items : Bool → RangeView → LayoutKind → Result (List ℕ)
  int_items only_integral range (array item_layout_id) = do
    item_layout ← layout_by item_layout_id
    if only_integral && not (is_empty item_layout.fields)
        then refused "field elements are not integral"
        else items_of range item_layout.bits
  int_items only_integral range string = ok (replicate range.count 0)
  int_items only_integral range (integral bits) = refused "field is not a list"
  int_items only_integral range struct = refused "field is not a list"
  int_items only_integral range (optional value_layout_id) = refused "field is not a list"
  int_items only_integral range empty = refused "field is not a list"

  abbrev pub int_list : ℕ → Bool → Layout → Pos → Result (List ℕ)
  int_list cap only_integral list_layout p = do
    kind ← kind_of list_layout
    found ← read_range m.frozen p list_layout
    range ← within_cap cap "list-count" found
    int_items only_integral range kind

  abbrev pub int_list_at : ℕ → Option (Layout × Pos) → Result (List ℕ)
  int_list_at cap none = ok []
  int_list_at cap (some (list_layout, p)) = int_list cap true list_layout p

  unfoldable pub read_int_list : ℕ → ℕ → Result (List ℕ)
  read_int_list id cap = do place ← resolve_list id; int_list_at cap place

  unfoldable pub read_u32_list : ℕ → Result (List ℕ)
  read_u32_list id = do
    values ← read_int_list id default_list_cap
    as_u32_list "list element does not fit in u32" values

  -- The reads of a field of a struct.
  abbrev pub struct_string : Pos → Option Field → Result (List ℕ)
  struct_string p none = ok []
  struct_string p (some f) = do
    layout ← layout_by f.layout_id
    at ← child p f
    read_string_bytes m.frozen at layout

  unfoldable pub read_struct_string : Pos → Layout → ℕ → Result (List ℕ)
  read_struct_string p layout id = struct_string p (field layout (pos id))

  abbrev pub value_string : OptionalView → Option ℤ → Result (Option (List ℕ))
  value_string opt none = ok (if opt.present then some [] else none)
  value_string opt (some id) =
      if opt.present
      then (do
        value_layout ← layout_by id
        bytes ← read_string_bytes m.frozen opt.value_pos value_layout
        ok (some bytes))
      else ok none

  abbrev pub plain_string : Layout → Pos → Result (Option (List ℕ))
  plain_string outer p = do bytes ← read_string_bytes m.frozen p outer; ok (some bytes)

  abbrev pub optional_string : LayoutKind → Layout → Pos → Result (Option (List ℕ))
  optional_string (optional value_layout_id) outer p = do
    opt ← read_optional m.frozen p outer
    value_string opt value_layout_id
  optional_string (integral bits) outer p = plain_string outer p
  optional_string struct outer p = plain_string outer p
  optional_string string outer p = plain_string outer p
  optional_string (array item_layout_id) outer p = plain_string outer p
  optional_string empty outer p = plain_string outer p

  abbrev pub struct_optional_string : Pos → Option Field → Result (Option (List ℕ))
  struct_optional_string p none = ok none
  struct_optional_string p (some f) = do
    outer ← layout_by f.layout_id
    at ← child p f
    kind ← kind_of outer
    optional_string kind outer at

  unfoldable pub read_struct_optional_string : Pos → Layout → ℕ → Result (Option (List ℕ))
  read_struct_optional_string p layout id = struct_optional_string p (field layout (pos id))

  abbrev pub struct_int_list : ℕ → Pos → Option Field → Result (List ℕ)
  struct_int_list cap p none = ok []
  struct_int_list cap p (some f) = do
    list_layout ← layout_by f.layout_id
    kind ← kind_of list_layout
    at ← child p f
    found ← read_range m.frozen at list_layout
    range ← within_cap cap "list-count" found
    int_items false range kind

  unfoldable pub read_struct_int_list : Pos → Layout → ℕ → ℕ → Result (List ℕ)
  read_struct_int_list p layout id cap = struct_int_list cap p (field layout (pos id))

  abbrev pub struct_bool : Pos → Option Field → Result Bool
  struct_bool p none = ok false
  struct_bool p (some f) = do
    layout ← layout_by f.layout_id
    at ← child p f
    v ← read_integral m.frozen at layout.bits
    ok (not (v == 0))

  unfoldable pub read_struct_bool : Pos → Layout → ℕ → Result Bool
  read_struct_bool p layout id = struct_bool p (field layout (pos id))

  abbrev pub plain_u32 : Layout → Pos → Result (Option ℕ)
  plain_u32 outer p = do
    v ← read_integral m.frozen p outer.bits
    optional_u32 "u32 field overflows" (some v)

  abbrev pub value_u32 : OptionalView → Option ℤ → Result (Option ℕ)
  value_u32 opt value_layout_id =
      if opt.present
      then (do
        v ← optional_value opt value_layout_id
        optional_u32 "optional u32 field overflows" v)
      else ok none

  abbrev pub field_u32 : LayoutKind → Layout → Pos → Result (Option ℕ)
  field_u32 (optional value_layout_id) outer p = do
    opt ← read_optional m.frozen p outer
    value_u32 opt value_layout_id
  field_u32 (integral bits) outer p = plain_u32 outer p
  field_u32 struct outer p = plain_u32 outer p
  field_u32 string outer p = plain_u32 outer p
  field_u32 (array item_layout_id) outer p = plain_u32 outer p
  field_u32 empty outer p = plain_u32 outer p

  abbrev pub struct_optional_u32 : Pos → Option Field → Result (Option ℕ)
  struct_optional_u32 p none = ok none
  struct_optional_u32 p (some f) = do
    outer ← layout_by f.layout_id
    at ← child p f
    kind ← kind_of outer
    field_u32 kind outer at

  unfoldable pub read_struct_optional_u32 : Pos → Layout → ℕ → Result (Option ℕ)
  read_struct_optional_u32 p layout id = struct_optional_u32 p (field layout (pos id))

  -- The items of a list that must be an array: the layout of one, and the range.
  abbrev pub array_items : String → String → Layout → Pos → LayoutKind → Result (Layout × RangeView)
  array_items name message list_layout p (array item_layout_id) = do
    found ← read_range m.frozen p list_layout
    range ← within_cap default_list_cap name found
    item_layout ← layout_by item_layout_id
    ok (item_layout, range)
  array_items name message list_layout p (integral bits) = refused message
  array_items name message list_layout p struct = refused message
  array_items name message list_layout p string = refused message
  array_items name message list_layout p (optional value_layout_id) = refused message
  array_items name message list_layout p empty = refused message

  abbrev pub array_at : String → String → Layout → Pos → Result (Layout × RangeView)
  array_at name message list_layout p = do
    kind ← kind_of list_layout
    array_items name message list_layout p kind

  -- The strings of a list, each behind the ones before it, with the rounds left.
  unfoldable pub plain_loop : RangeView → Layout → ℕ → ℕ → StringTable → Result StringTable
  plain_loop range item_layout zero i out = ok out
  plain_loop range item_layout (suc rounds) i out = do
    p ← element_pos m.frozen range i
    bytes ← read_string_bytes m.frozen p item_layout
    mark ← as_u32 (length (out.bytes ++ bytes)) "string list exceeds 4 GiB"
    plain_loop range item_layout rounds (i + 1)
        (record { bytes = out.bytes ++ bytes; offsets = out.offsets ++ (mark ∷ []) })

  abbrev pub plain_strings_at : Option (Layout × Pos) → Result StringTable
  plain_strings_at none = ok no_strings
  plain_strings_at (some (list_layout, p)) = do
    (item_layout, range) ← array_at "list-count" "field is not an array of strings" list_layout p
    plain_loop range item_layout range.count 0 (record { bytes = []; offsets = 0 ∷ [] })

  unfoldable pub read_plain_string_list : ℕ → Result StringTable
  read_plain_string_list id = do place ← resolve_list id; plain_strings_at place

  -- A compact string table, from the struct that holds it.
  unfoldable pub string_table_of : Layout → Pos → Result StringTable
  string_table_of layout p = do
    buffer ← read_struct_string p layout 1
    symtab ← read_struct_optional_string p layout 2
    raw_index ← read_struct_int_list p layout 3 default_list_cap
    packed ← read_struct_bool p layout 4
    positions ← as_u32_list "string_table index value overflows u32" raw_index
    decode_string_table buffer symtab positions packed

  abbrev pub set_table : OptionalView → Option ℤ → Result (Option StringTable)
  set_table opt none = ok (if opt.present then some no_strings else none)
  set_table opt (some id) =
      if opt.present
      then (do layout ← layout_by id; table ← string_table_of layout opt.value_pos; ok (some table))
      else ok none

  abbrev pub string_table_by : LayoutKind → Layout → Pos → Result (Option StringTable)
  string_table_by (optional value_layout_id) outer p = do
    opt ← read_optional m.frozen p outer
    set_table opt value_layout_id
  string_table_by (integral bits) outer p = refused "field is not Optional<string_table>"
  string_table_by struct outer p = refused "field is not Optional<string_table>"
  string_table_by string outer p = refused "field is not Optional<string_table>"
  string_table_by (array item_layout_id) outer p = refused "field is not Optional<string_table>"
  string_table_by empty outer p = refused "field is not Optional<string_table>"

  abbrev pub string_table_at : Option FieldView → Result (Option StringTable)
  string_table_at none = ok none
  string_table_at (some view) = do
    outer ← layout_by view.field.layout_id
    kind ← kind_of outer
    string_table_by kind outer view.pos

  unfoldable pub read_string_table : ℕ → Result (Option StringTable)
  read_string_table id = do view ← root_field id; string_table_at view

  abbrev pub table_or_plain : ℕ → Option StringTable → Result StringTable
  table_or_plain id none = read_plain_string_list id
  table_or_plain id (some table) = ok table

  unfoldable pub names : Result StringTable
  names = do table ← read_string_table 24; table_or_plain 10 table

  unfoldable pub symlinks : Result StringTable
  symlinks = do table ← read_string_table 25; table_or_plain 11 table
