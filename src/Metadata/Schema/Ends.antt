-- ===== src/Metadata/Schema/Ends.antt =====
-- The parser of schemas ends on every input, without a slice out of bounds.
use rdwarfs.Prelude.{
  ℕ, zero, suc, ◌+◌, ◌*◌, ◌≤◌, ◌<◌, ap, Bool, true, false, not, ◌||◌, ◌&&◌, Option, none, some,
  String, List, [], ◌∷◌, length, ◌==◌, arith,
}
use rdwarfs.Prelude.Int.{ℤ, pos, negsuc}
use rdwarfs.Result.{Result, ok, err, fault, Returns}
use rdwarfs.Metadata.Thrift.{
  i16, i32, map, binary, struct, bool_true, bool_false, ThriftReader, Reader, ◌>>◌, pure, new,
  read_i16, read_i32, read_string, read_map_header, read_struct_begin, read_struct_end, FieldHeader,
  read_field_header, skip_value, pop, in_range, read_zigzag_i64, zigzag, read_varint_u64,
}
use rdwarfs.Metadata.Thrift.Steady.{
  Goes, Leads, Steady, Leads-bind, Steady-pure, Steady-fail, Steady-if, Steady-Forward, Steady-bind,
  Steady-after,
}
use rdwarfs.Metadata.Thrift.Reads.{
  read_i16-Steady, read_binary-Steady, read_map_header-Forward, read_varint_u64-Forward,
}
use rdwarfs.Metadata.Thrift.Skip.{read_field_header-Forward, Steady-weaken, skip_value-Goes}
use rdwarfs.Metadata.Schema.{
  Schema, refuse, same_type, is_field, field_then, fields_loop, read_struct, skip_field, map_loop,
  insert, read_id_map, field_arm, read_field, read_field_map, non_negative, layout_arm, read_layout,
  read_layout_map, schema_arm, value_of, parse,
}

-- Fuel that is enough to skip a value where `k` bytes are left.
abbrev Enough : ℕ → ℕ → Type 0
Enough fuel k = 2 * k + 2 ≤ fuel

refuse-Steady :
    {A : Type 0} (keep : Bool) (k : ℕ) (message : String) → Steady keep k (refuse {A = A} message)
refuse-Steady keep k message = record { at = λ r h _. tt }

read_i32-Steady : (k : ℕ) → Steady true k read_i32
unfolding read_i32 read_zigzag_i64
read_i32-Steady k =
    Steady-bind k read_zigzag_i64 _
      (Steady-bind k read_varint_u64 _ (Steady-Forward k _ read_varint_u64-Forward)
        λ v. Steady-pure k (zigzag v))
      λ v. Steady-if k (in_range 2147483648 v) _ _ (Steady-pure k v) (Steady-fail k _)

read_string-Steady : (is_utf8 : List ℕ → Bool) (k : ℕ) → Steady true k (read_string is_utf8)
unfolding read_string
read_string-Steady is_utf8 k =
    Steady-bind k _ _ (read_binary-Steady k)
      λ bytes. Steady-if k (is_utf8 bytes) _ _ (Steady-pure k bytes) (Steady-fail k _)

-- A step of a loop over fields, wherever no more than `k` bytes are left.
abbrev Steps : {S : Type 0} → ℕ → (FieldHeader → S → Reader S) → Type 0
Steps {S} k step = (j : ℕ) → j ≤ k → (header : FieldHeader) (s : S) → Steady true j (step header s)

module _ {S : Type 0} (step : FieldHeader → S → Reader S) where
  field_then-Steady :
      (k : ℕ) (go_on : S → Reader S) (s : S) (header : Option FieldHeader)
      → Steps k step
      → ((s' : S) → Steady false k (go_on s'))
      → Steady false k (field_then step go_on s header)
  unfolding field_then
  field_then-Steady k go_on s none steps rest = Steady-pure k s
  field_then-Steady k go_on s (some header) steps rest =
      Steady-bind k _ _ (Steady-weaken k _ (steps k (omega arith) header s)) rest

  fields_loop-Steady :
      (fuel k : ℕ) (s : S) → k < fuel → Steps k step → Steady false k (fields_loop step fuel s)
  unfolding fields_loop
  fields_loop-Steady zero k s room steps = absurd (omega (arith, room))
  fields_loop-Steady (suc fuel) k s room steps =
      Steady-after k read_field_header _ read_field_header-Forward λ header j less.
        field_then-Steady j _ s header (λ i le. steps i (omega (arith, le, less)))
          λ s'.
            fields_loop-Steady fuel j s' (omega (arith, room, less))
              λ i le. steps i (omega (arith, le, less))

  -- The frame of a struct is taken off again.
  read_struct-Steady :
      (fuel k : ℕ) (s : S) → k < fuel → Steps k step → Steady true k (read_struct step fuel s)
  unfolding read_struct read_struct_begin read_struct_end
  read_struct-Steady fuel k s room steps = record {
    at = λ r inside l.
        let begun = record r { last_field_id = pos 0; stack = r.last_field_id ∷ r.stack } in
        Leads-bind (Goes false begun) (Goes true r) (fields_loop step fuel s begun)
          (λ s'. read_struct_end >> pure s')
          ((fields_loop-Steady fuel k s room steps).at begun inside l)
          λ s' t g. record {
            bytes = g.bytes;
            onward = g.onward;
            inside = g.inside;
            stack = ap (λ (ids : List ℤ). (pop ids).1) g.stack;
            last_field_id = λ e. ap (λ (ids : List ℤ). (pop ids).0) g.stack;
          };
  }

  skip_field-Steady :
      (fuel k : ℕ) (header : FieldHeader) (s : S)
      → Enough fuel k
      → Steady true k (skip_field fuel header s)
  unfolding skip_field
  skip_field-Steady fuel k header s enough =
      Steady-bind k (skip_value fuel header.ttype) _
        (record { at = λ r h l. skip_value-Goes fuel header.ttype r h (omega (arith, l, enough)) })
        λ u. Steady-pure k s

module _ {A : Type 0} (k : ℕ) (value : Reader A) where
  map_loop-Steady :
      (count : ℕ) (out : List (ℤ × A))
      → Steady true k value
      → Steady true k (map_loop value count out)
  unfolding map_loop
  map_loop-Steady zero out h = Steady-pure k out
  map_loop-Steady (suc count) out h =
      Steady-bind k read_i16 _ (read_i16-Steady k)
        λ key. Steady-bind k value _ h λ entry. map_loop-Steady count (insert out key entry) h

read_id_map-Steady :
    {A : Type 0} (k : ℕ) (message : String) (value : Reader A)
    → ((j : ℕ) → j ≤ k → Steady true j value)
    → Steady true k (read_id_map message value)
unfolding read_id_map
read_id_map-Steady k message value h =
    Steady-after k read_map_header _ read_map_header-Forward λ header j less.
      Steady-if j
        (not (header.2 == 0) && (not (same_type header.0 i16) || not (same_type header.1 struct))) _
        _ (refuse-Steady true j message)
        (map_loop-Steady j value header.2 [] (h j (omega (arith, less))))

non_negative-Steady : (k : ℕ) (v : ℤ) (message : String) → Steady true k (non_negative v message)
non_negative-Steady k (pos n) message = Steady-pure k n
non_negative-Steady k (negsuc n) message = refuse-Steady true k message

module _ (fuel : ℕ) where
  field_arm-Steps : (k : ℕ) → Enough fuel k → Steps k (field_arm fuel)
  unfolding field_arm
  field_arm-Steps k enough j le header s =
      Steady-if j (is_field 1 i16 header) _ _
        (Steady-bind j read_i16 _ (read_i16-Steady j) λ v. Steady-pure j _)
        (Steady-if j (is_field 2 i16 header) _ _
          (Steady-bind j read_i16 _ (read_i16-Steady j) λ v. Steady-pure j _)
          (skip_field-Steady (field_arm fuel) fuel j header s (omega (arith, le, enough))))

  read_field-Steady : (k : ℕ) → Enough fuel k → Steady true k (read_field fuel)
  unfolding read_field
  read_field-Steady k enough =
      read_struct-Steady (field_arm fuel) fuel k _ (omega (arith, enough))
        (field_arm-Steps k enough)

  read_field_map-Steady : (k : ℕ) → Enough fuel k → Steady true k (read_field_map fuel)
  unfolding read_field_map
  read_field_map-Steady k enough =
      read_id_map-Steady k _ (read_field fuel)
        λ j le. read_field-Steady j (omega (arith, le, enough))

  module _ (is_utf8 : List ℕ → Bool) where
    layout_arm-Steps : (k : ℕ) → Enough fuel k → Steps k (layout_arm is_utf8 fuel)
    unfolding layout_arm
    layout_arm-Steps k enough j le header s =
        Steady-if j (is_field 1 i32 header) _ _
          (Steady-bind j read_i32 _ (read_i32-Steady j)
            λ v. Steady-bind j _ _ (non_negative-Steady j v _) λ size. Steady-pure j _)
          (Steady-if j (is_field 2 i16 header) _ _
            (Steady-bind j read_i16 _ (read_i16-Steady j)
              λ v. Steady-bind j _ _ (non_negative-Steady j v _) λ bits. Steady-pure j _)
            (Steady-if j (is_field 3 map header) _ _
              (Steady-bind j _ _ (read_field_map-Steady j (omega (arith, le, enough)))
                λ fields. Steady-pure j _)
              (Steady-if j (is_field 4 binary header) _ _
                (Steady-bind j _ _ (read_string-Steady is_utf8 j) λ name. Steady-pure j _)
                (skip_field-Steady (layout_arm is_utf8 fuel) fuel j header s
                  (omega (arith, le, enough))))))

    read_layout_map-Steady : (k : ℕ) → Enough fuel k → Steady true k (read_layout_map is_utf8 fuel)
    unfolding read_layout_map read_layout
    read_layout_map-Steady k enough = read_id_map-Steady k _ (read_layout is_utf8 fuel) λ j le.
        read_struct-Steady (layout_arm is_utf8 fuel) fuel j _ (omega (arith, le, enough))
          (layout_arm-Steps j (omega (arith, le, enough)))

    schema_arm-Steps : (k : ℕ) → Enough fuel k → Steps k (schema_arm is_utf8 fuel)
    unfolding schema_arm
    schema_arm-Steps k enough j le header s =
        Steady-if j (is_field 1 bool_true header) _ _ (Steady-pure j _) (
          Steady-if j (is_field 1 bool_false header) _ _ (Steady-pure j _) (
            Steady-if j (is_field 2 map header) _ _
              (Steady-bind j _ _ (read_layout_map-Steady j (omega (arith, le, enough)))
                λ layouts. Steady-pure j _)
              (Steady-if j (is_field 3 i16 header) _ _
                (Steady-bind j read_i16 _ (read_i16-Steady j) λ id. Steady-pure j _)
                (Steady-if j (is_field 4 i32 header) _ _
                  (Steady-bind j read_i32 _ (read_i32-Steady j) λ version. Steady-pure j _)
                  (skip_field-Steady (schema_arm is_utf8 fuel) fuel j header s
                    (omega (arith, le, enough)))))))

value_of-Returns :
    (is_utf8 : List ℕ → Bool) (P : ThriftReader → Type 0) (m : Result (Schema × ThriftReader))
    → Leads P m
    → Returns (value_of is_utf8 m)
value_of-Returns is_utf8 P (ok (schema, r)) h = tt
value_of-Returns is_utf8 P (err e) h = tt
value_of-Returns is_utf8 P (fault x) h = h

-- On every byte string, and whatever counts as UTF-8, the parser of schemas ends with a schema or an error
-- of the decoder: however structs and maps nest or repeat, it neither runs out of rounds nor takes a slice
-- out of bounds. The call stack, which the nesting of skipped values can exhaust, is not part of the model.
pub parse-Returns : (is_utf8 : List ℕ → Bool) (bytes : List ℕ) → Returns (parse is_utf8 bytes)
unfolding parse new
parse-Returns is_utf8 bytes =
    let fuel = 2 * length bytes + 2 in
    value_of-Returns is_utf8 (Goes true (new bytes)) _ (
      (read_struct-Steady (schema_arm is_utf8 fuel) fuel (length bytes) _ (omega arith)
          (schema_arm-Steps fuel is_utf8 (length bytes) (omega arith))).at
        (new bytes) (omega arith) (omega arith))
