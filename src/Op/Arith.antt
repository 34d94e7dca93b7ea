-- ===== src/Op/Arith.antt =====
-- tcc/op.c: `+`, `-`, `*` and `/`.
use tcng.Common.{◌/◌, Bool, true, false, ◌&&◌, ◌||◌, ◌++◌}
use tcng.Common.{Result, ok, err, Error, ◌>>=◌, ◌==◌, ltb, if◌then◌else◌}
use tcng.U128.{u128_add, u128_sub}
use tcng.Data.{Data, DataType, Op, Double, Doubles, type_of, has_op, same_type}
use tcng.Data.{
  integer_number, untyped_number, typed_number, ip_address, data_convert, data_typed_fnum,
}
use tcng.Op.Base.{
  make_op, unum_of, u128_of, fnum_of, is_type, mix_types, types2, anynum_op, u32_add, u32_sub,
  u32_mul, u32_div,
}
use tcng.Op.Integer.{mask_eval}

-- A constant 0 of type unum.
abbrev pub is_zero_unum : Data → Bool
is_zero_unum (Data.unum n) = n == 0
is_zero_unum _ = false

module _ (fp : Doubles) where
  unfoldable pub additive_eval : Bool → Op → Data → Data → Data → Result Data
  unfolding untyped_number typed_number integer_number type_of has_op
  additive_eval plus o a b c =
      let wide = is_type a DataType.ipv6 || is_type b DataType.ipv6 in
      let sum = (do
        x ← data_convert fp a DataType.ipv6
        y ← data_convert fp b DataType.ipv6
        ok (
            Data.ipv6 (
              if plus
              then u128_add (u128_of x) (u128_of y)
              else u128_sub (u128_of x) (u128_of y)))) in
      let narrow =
        if plus then anynum_op fp u32_add fp.add a b else anynum_op fp u32_sub fp.sub a b in
      let node = (do t ← mix_types (type_of a) (type_of b); ok (make_op o a b c t)) in
      let typed =
        data_typed_fnum fp
          (if plus then fp.add (fnum_of a) (fnum_of b) else fp.sub (fnum_of a) (fnum_of b))
          (type_of a) in
      if untyped_number (type_of a) && is_zero_unum b
      then ok a
      else if plus && (untyped_number (type_of b) && is_zero_unum a)
      then ok b
      else if untyped_number (type_of a) && untyped_number (type_of b)
      then (if has_op a || has_op b then node else if wide then sum else narrow)
      else if same_type (type_of a) (type_of b) && typed_number (type_of a)
      then (if has_op a || has_op b then ok (make_op o a b c (type_of a)) else typed)
      else err Error.bad_type

  unfoldable pub plus_eval : Data → Data → Data → Result Data
  unfolding additive_eval
  plus_eval (Data.string s) (Data.string t) c = ok (Data.string (s ++ t))
  plus_eval a b c =
      if is_type a DataType.string && is_type b DataType.string
      then err Error.string_variable
      else additive_eval true Op.plus a b c

  unfoldable pub mult_eval : Data → Data → Data → Result Data
  unfolding untyped_number typed_number integer_number ip_address type_of has_op
  mult_eval a b c =
      let node = (do t ← mix_types (type_of a) (type_of b); ok (make_op Op.mult a b c t)) in
      let product = anynum_op fp u32_mul fp.mul a b in
      let scaled_a = (do
        y ← data_convert fp b DataType.fnum
        data_typed_fnum fp (fp.mul (fnum_of a) (fnum_of y)) (type_of a)) in
      let scaled_b = (do
        x ← data_convert fp a DataType.fnum
        data_typed_fnum fp (fp.mul (fnum_of b) (fnum_of x)) (type_of b)) in
      let times = λ (t : DataType). λ (x : Double).
        (if has_op a || has_op b
          then ok (make_op Op.mult a b c t)
          else data_typed_fnum fp (fp.mul x (fnum_of b)) t) in
      if ip_address (type_of a) || ip_address (type_of b)
      then err Error.bad_type
      else if untyped_number (type_of a) && untyped_number (type_of b)
      then (if has_op a || has_op b
          then node
          else if is_type a DataType.unum && is_type b DataType.unum
          then (if unum_of a == 0
              then err Error.fault
              else if ltb (0xffffffff / unum_of a) (unum_of b)
              then err Error.out_of_range
              else product)
          else product)
      else if untyped_number (type_of a) && typed_number (type_of b)
          || (untyped_number (type_of b) && typed_number (type_of a))
      then (if has_op a || has_op b
          then ok
              (make_op Op.mult a b c (if typed_number (type_of a) then type_of a else type_of b))
          else if typed_number (type_of a)
          then scaled_a
          else scaled_b)
      else if types2 a b DataType.prate DataType.time
      then times DataType.psize (fnum_of a)
      else if types2 a b DataType.rate DataType.time
      then times DataType.size (fp.div (fnum_of a) fp.eight)
      else err Error.bad_type

module _ (fp : Doubles) where
  unfoldable pub div_eval : Data → Data → Data → Result Data
  unfolding mask_eval untyped_number typed_number
  div_eval a b c =
      let node = (do t ← mix_types (type_of a) (type_of b); ok (make_op Op.div a b c t)) in
      let quotient = anynum_op fp u32_div fp.div a b in
      let scaled = (do
        y ← data_convert fp b DataType.fnum
        data_typed_fnum fp (fp.div (fnum_of a) (fnum_of y)) (type_of a)) in
      let over = λ (t : DataType). λ (x : Double).
        (if has_op a || has_op b
          then ok (make_op Op.div a b c t)
          else data_typed_fnum fp (fp.div x (fnum_of b)) t) in
      if ip_address (type_of a) && is_type b DataType.unum
      then mask_eval fp a b c
      else if ip_address (type_of a) || ip_address (type_of b)
      then err Error.bad_type
      else if untyped_number (type_of a) && untyped_number (type_of b)
      then (if has_op a || has_op b then node else quotient)
      else if typed_number (type_of a) && untyped_number (type_of b)
      then (if has_op a || has_op b then ok (make_op Op.div a b c (type_of a)) else scaled)
      else if is_type a DataType.psize && is_type b DataType.time
      then over DataType.prate (fnum_of a)
      else if is_type a DataType.size && is_type b DataType.time
      then over DataType.rate (fp.mul (fnum_of a) fp.eight)
      else err Error.bad_type
