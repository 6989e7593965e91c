-- ===== src/Metadata/Thrift/Skip.antt =====
-- Skipping a value ends on every input, stays inside the input, and leaves the frame of field ids as it
-- found it.
use rdwarfs.Prelude.{
  ℕ, zero, suc, ◌+◌, ◌*◌, ◌≤◌, refl, ap, Bool, true, false, Option, none, some, List, ◌∷◌, ◌==◌,
  arith,
}
use rdwarfs.Prelude.Int.{ℤ, pos}
use rdwarfs.Result.{ok}
use rdwarfs.Metadata.Thrift.{
  TType, stop, bool_true, bool_false, i8, i16, i32, i64, double, binary, list, set, map, struct,
  ThriftReader, Reader, ◌>>◌, read_byte, read_struct_begin, read_struct_end, read_field_id,
  read_field_header, FieldHeader, repeat, discard, skip_element, skip_rest, skip_value, skip_fields,
  add_delta, pop,
}
use rdwarfs.Metadata.Thrift.Steady.{
  IsInside, Goes, Leads, left, Steady, Forward, Leads-bind, Leads-imp, Steady-pure, Steady-ensure,
  Steady-if, Steady-Forward, Steady-bind, Forward-bind, Steady-after,
}
use rdwarfs.Metadata.Thrift.Reads.{
  read_byte-Forward, from_code-Steady, read_slice-Steady, read_varint_u64-Forward, read_i16-Steady,
  read_binary-Steady, read_list_header-Forward, read_map_header-Forward,
}

read_field_id-Steady : (k delta : ℕ) → Steady false k (read_field_id delta)
unfolding read_field_id
read_field_id-Steady k delta = Steady-if k (delta == 0) _ _ (read_i16-Steady k) (record {
  at = λ r h l. (Steady-ensure {keep = false} k (add_delta r.last_field_id delta) _).at r h l;
})

set-Steady : (k : ℕ) (id : ℤ) → Steady false k (λ r. ok (tt, record r { last_field_id = id }))
set-Steady k id = record {
  at = λ r h l. record {
    bytes = refl;
    onward = omega arith;
    inside = h;
    stack = refl;
    last_field_id = λ e. cc;
  };
}

pub read_field_header-Forward : Forward false read_field_header
unfolding read_field_header
read_field_header-Forward = Forward-bind read_byte _ read_byte-Forward λ a k.
    Steady-if k (a == 0) _ _ (Steady-pure k none) (
      Steady-bind k _ _ (from_code-Steady k _) λ t.
        Steady-bind k _ _ (read_field_id-Steady k _) λ id.
          Steady-bind k _ _ (set-Steady k id)
            λ u. Steady-pure k (some (record { ttype = t; id = id })))

module _ {keep : Bool} (k : ℕ) where
  repeat-Steady :
      (count : ℕ) (m : Reader (Unit {0})) → Steady keep k m → Steady keep k (repeat count m)
  unfolding repeat
  repeat-Steady zero m h = Steady-pure k tt
  repeat-Steady (suc count) m h = Steady-bind k m _ h λ a. repeat-Steady count m h

  discard-Steady : {A : Type 0} (m : Reader A) → Steady keep k m → Steady keep k (discard m)
  discard-Steady m h = Steady-bind k m _ h λ a. Steady-pure k tt

  skip_element-Steady :
      (skip : TType → Reader (Unit {0}))
      → ((t : TType) → Steady keep k (skip t))
      → (t : TType) → Steady keep k (skip_element skip t)
  unfolding skip_element
  skip_element-Steady skip h bool_true =
      discard-Steady read_byte (Steady-Forward k read_byte read_byte-Forward)
  skip_element-Steady skip h bool_false =
      discard-Steady read_byte (Steady-Forward k read_byte read_byte-Forward)
  skip_element-Steady skip h stop = h stop
  skip_element-Steady skip h i8 = h i8
  skip_element-Steady skip h i16 = h i16
  skip_element-Steady skip h i32 = h i32
  skip_element-Steady skip h i64 = h i64
  skip_element-Steady skip h double = h double
  skip_element-Steady skip h binary = h binary
  skip_element-Steady skip h list = h list
  skip_element-Steady skip h set = h set
  skip_element-Steady skip h map = h map
  skip_element-Steady skip h struct = h struct

-- A struct's fields run in a frame of their own, which the end takes off again.
framed-Steady :
    (k : ℕ) (m : Reader (Unit {0}))
    → Steady false k m
    → Steady true k (read_struct_begin >> (m >> read_struct_end))
unfolding read_struct_begin read_struct_end
framed-Steady k m h = record {
  at = λ r inside l.
      let begun = record r { last_field_id = pos 0; stack = r.last_field_id ∷ r.stack } in
      Leads-bind (Goes false begun) (Goes true r) (m begun) (λ u. read_struct_end)
        (h.at begun inside l)
        λ u s g. record {
          bytes = g.bytes;
          onward = g.onward;
          inside = g.inside;
          stack = ap (λ (ids : List ℤ). (pop ids).1) g.stack;
          last_field_id = λ e. ap (λ (ids : List ℤ). (pop ids).0) g.stack;
        };
}

pub Steady-weaken : {A : Type 0} (k : ℕ) (m : Reader A) → Steady true k m → Steady false k m
Steady-weaken k m p = record {
  at = λ r h l.
      Leads-imp (Goes true r) (Goes false r) (m r)
        (λ s g. record {
          bytes = g.bytes;
          onward = g.onward;
          inside = g.inside;
          stack = g.stack;
          last_field_id = λ e. cc;
        })
        (p.at r h l);
}

skip_rest-Steady :
    (k : ℕ) (skip : TType → Reader (Unit {0})) (rest : Reader (Unit {0}))
    (field : Option FieldHeader)
    → ((t : TType) → Steady true k (skip t))
    → Steady false k rest
    → Steady false k (skip_rest skip rest field)
unfolding skip_rest
skip_rest-Steady k skip rest none p q = Steady-pure k tt
skip_rest-Steady k skip rest (some field) p q =
    Steady-bind k _ _ (Steady-weaken k _ (p field.ttype)) λ u. q

mutual
  unfolding skip_value

  -- `2 * k + 2` rounds skip a value where `k` bytes are left, and `2 * k + 1` the fields of a struct.
  skip_value-Steady :
      (fuel k : ℕ) → 2 * k + 2 ≤ fuel → (t : TType) → Steady true k (skip_value fuel t)
  skip_value-Steady zero k le t = absurd (omega (arith, le))
  skip_value-Steady (suc fuel) k le stop = Steady-pure k tt
  skip_value-Steady (suc fuel) k le bool_true = Steady-pure k tt
  skip_value-Steady (suc fuel) k le bool_false = Steady-pure k tt
  skip_value-Steady (suc fuel) k le i8 =
      discard-Steady k _ (Steady-Forward k read_byte read_byte-Forward)
  skip_value-Steady (suc fuel) k le i16 =
      discard-Steady k _ (Steady-Forward k _ read_varint_u64-Forward)
  skip_value-Steady (suc fuel) k le i32 =
      discard-Steady k _ (Steady-Forward k _ read_varint_u64-Forward)
  skip_value-Steady (suc fuel) k le i64 =
      discard-Steady k _ (Steady-Forward k _ read_varint_u64-Forward)
  skip_value-Steady (suc fuel) k le double = discard-Steady k _ (read_slice-Steady k 8)
  skip_value-Steady (suc fuel) k le binary = discard-Steady k _ (read_binary-Steady k)
  skip_value-Steady (suc fuel) k le list = Steady-after k _ _ read_list_header-Forward λ a j lt.
      repeat-Steady j a.1 _
        (skip_element-Steady j _ (skip_value-Steady fuel j (omega (arith, le, lt))) a.0)
  skip_value-Steady (suc fuel) k le set = Steady-after k _ _ read_list_header-Forward λ a j lt.
      repeat-Steady j a.1 _
        (skip_element-Steady j _ (skip_value-Steady fuel j (omega (arith, le, lt))) a.0)
  skip_value-Steady (suc fuel) k le map = Steady-after k _ _ read_map_header-Forward λ a j lt.
      let go =
        skip_element-Steady j (skip_value fuel)
          (skip_value-Steady fuel j (omega (arith, le, lt))) in
      repeat-Steady j a.2 _ (Steady-bind j _ _ (go a.0) λ u. go a.1)
  skip_value-Steady (suc fuel) k le struct =
      framed-Steady k (skip_fields fuel) (skip_fields-Steady fuel k (omega (arith, le)))

  skip_fields-Steady : (fuel k : ℕ) → 2 * k + 1 ≤ fuel → Steady false k (skip_fields fuel)
  skip_fields-Steady zero k le = absurd (omega (arith, le))
  skip_fields-Steady (suc fuel) k le = Steady-after k _ _ read_field_header-Forward λ field j lt.
      skip_rest-Steady j _ _ field (skip_value-Steady fuel j (omega (arith, le, lt)))
        (skip_fields-Steady fuel j (omega (arith, le, lt)))

-- From a state inside its input, with fuel twice the number of bytes left and two, `skip_value` of any
-- wire type never runs out of fuel or panics: it ends in an error of the decoder, or in a state with the
-- same bytes, a position not before the old one and not past the end, and the stack and the last field id
-- as they were.
pub skip_value-Goes :
    (fuel : ℕ) (ttype : TType) (r : ThriftReader)
    → IsInside r
    → 2 * left r + 2 ≤ fuel
    → Leads (Goes true r) (skip_value fuel ttype r)
skip_value-Goes fuel ttype r h le = (skip_value-Steady fuel (left r) le ttype).at r h (omega arith)
