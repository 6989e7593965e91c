-- ===== src/Metadata/Thrift/Reads.antt =====
-- Every primitive read of src/metadata/thrift.rs goes on inside the input.
use rdwarfs.Prelude.{
  get_elem?_inside, ℕ, zero, suc, refl, Bool, length, ltb, ltb→ge, Bool-cases, inl, inr,
  Option-cases, get_elem?, checked_add, arith,
}
use rdwarfs.Result.{slice_lem}
use rdwarfs.Metadata.Thrift.{
  from_code, read_byte, read_slice, varint_loop, read_varint_u64, read_zigzag_i64, read_i16,
  read_binary, read_list_header, read_map_header,
}
use rdwarfs.Metadata.Thrift.Steady.{
  Leads, Steady, Forward, Steady-fail, Steady-Forward, Forward-bind, steady_rules,
}

module _ {keep : Bool} where
  pub read_byte-Forward : Forward keep read_byte
  unfolding read_byte
  read_byte-Forward = record {
    at = λ r h. elim (Option-cases (get_elem? r.bytes r.pos)) [
      | inl e ↦ rw (e, Leads, read_byte) tt
      | inr (b, e) ↦
          rw (e, Leads, read_byte)
            (
              record {
                bytes = refl;
                onward = omega arith;
                inside = get_elem?_inside r.bytes r.pos b e;
                stack = refl;
                last_field_id = λ _. refl;
              },
              omega arith,
            )
    ];
  }

  pub from_code-Steady : (k code : ℕ) → Steady keep k (from_code code)
  unfolding from_code
  from_code-Steady k code = search steady_rules depth 16

  pub read_slice-Steady : (k len : ℕ) → Steady keep k (read_slice len)
  unfolding read_slice
  read_slice-Steady k len = record {
    at = λ r h _. elim (Option-cases (checked_add r.pos len)) [
      | inl e ↦ rw (e, Leads, read_slice) tt
      | inr (end, e) ↦ elim (Bool-cases (ltb (length r.bytes) end)) [
        | inl past ↦ rw (e, past, Leads, read_slice) tt
        | inr fits ↦
            rw
              (
                e,
                fits,
                slice_lem r.bytes r.pos end (ground arith) (ltb→ge _ _ fits),
                Leads,
                read_slice,
              )
              (record {
                bytes = refl;
                onward = ground arith;
                inside = ltb→ge _ _ fits;
                stack = refl;
                last_field_id = λ _. refl;
              })
      ]
    ];
  }

  varint_loop-Steady : (rounds k result shift : ℕ) → Steady keep k (varint_loop rounds result shift)
  unfolding varint_loop
  varint_loop-Steady zero k result shift = Steady-fail k _
  varint_loop-Steady (suc rounds) k result shift =
      search (steady_rules, Steady-Forward, read_byte-Forward, varint_loop-Steady rounds)

  varint_loop-Forward :
      (rounds result shift : ℕ) → Forward keep (varint_loop (suc rounds) result shift)
  unfolding varint_loop
  varint_loop-Forward rounds result shift =
      Forward-bind read_byte _ read_byte-Forward
        λ a k. search (steady_rules, varint_loop-Steady rounds)

  pub read_varint_u64-Forward : Forward keep read_varint_u64
  unfolding read_varint_u64
  read_varint_u64-Forward = varint_loop-Forward 9 0 0

  pub read_i16-Steady : (k : ℕ) → Steady keep k read_i16
  unfolding read_i16 read_zigzag_i64
  read_i16-Steady k = search (steady_rules, Steady-Forward, read_varint_u64-Forward)

  pub read_binary-Steady : (k : ℕ) → Steady keep k read_binary
  unfolding read_binary
  read_binary-Steady k =
      search (steady_rules, Steady-Forward, read_varint_u64-Forward, read_slice-Steady)

  pub read_list_header-Forward : Forward keep read_list_header
  unfolding read_list_header
  read_list_header-Forward = Forward-bind read_byte _ read_byte-Forward λ a k.
      search (steady_rules, from_code-Steady, Steady-Forward, read_varint_u64-Forward) depth 8

  pub read_map_header-Forward : Forward keep read_map_header
  unfolding read_map_header
  read_map_header-Forward =
      Forward-bind read_varint_u64 _ read_varint_u64-Forward
        λ a k. search (steady_rules, from_code-Steady, Steady-Forward, read_byte-Forward) depth 8
