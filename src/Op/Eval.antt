-- ===== src/Op/Eval.antt =====
-- tcc/op.c: `dsc->eval` for each descriptor, and the construction of expressions.
use tcng.Common.{true, false, ◌||◌, Result, ok, err, Error, if◌then◌else◌}
use tcng.Data.{Data, DataType, Op, Doubles, type_of, same_type}
use tcng.Op.Base.{make_op, is_type}
use tcng.Op.Integer.{unum1_eval, unum2_eval, mask_eval, shift_eval}
use tcng.Op.Arith.{additive_eval, plus_eval, mult_eval, div_eval}
use tcng.Op.Logic.{and_or_eval, rel_eval}

-- conform_eval and count_eval.
unfoldable pub policing_eval : Op → Data → Data → Data → Result Data
unfolding type_of same_type
policing_eval o a b c =
    if is_type a DataType.police || is_type a DataType.bucket
    then ok (make_op o a b c DataType.unum)
    else err Error.bad_type

module _ (fp : Doubles) where
  unfoldable pub eval : Op → Data → Data → Data → Result Data
  unfolding policing_eval
  eval Op.plus a b c = plus_eval fp a b c
  eval Op.minus a b c = additive_eval fp false Op.minus a b c
  eval Op.unary_minus a b c = unum1_eval fp Op.unary_minus a b c
  eval Op.mult a b c = mult_eval fp a b c
  eval Op.div a b c = div_eval fp a b c
  eval Op.mod' a b c = unum2_eval fp Op.mod' a b c
  eval Op.not' a b c = unum1_eval fp Op.not' a b c
  eval Op.and a b c = unum2_eval fp Op.and a b c
  eval Op.or a b c = unum2_eval fp Op.or a b c
  eval Op.xor a b c = unum2_eval fp Op.xor a b c
  eval Op.mask a b c = mask_eval fp a b c
  eval Op.shift_left a b c = shift_eval true Op.shift_left a b c
  eval Op.shift_right a b c = shift_eval false Op.shift_right a b c
  eval Op.eq a b c = rel_eval fp Op.eq a b c
  eval Op.ne a b c = rel_eval fp Op.ne a b c
  eval Op.gt a b c = rel_eval fp Op.gt a b c
  eval Op.ge a b c = rel_eval fp Op.ge a b c
  eval Op.lt a b c = rel_eval fp Op.lt a b c
  eval Op.le a b c = rel_eval fp Op.le a b c
  eval Op.logical_not a b c = unum1_eval fp Op.logical_not a b c
  eval Op.logical_or a b c = and_or_eval Op.logical_or a b c
  eval Op.logical_and a b c = and_or_eval Op.logical_and a b c
  eval Op.access a b c = ok (make_op Op.access a b c DataType.unum)
  eval Op.offset a b c = ok (make_op Op.offset a b c (type_of a))
  eval Op.conform a b c = policing_eval Op.conform a b c
  eval Op.count a b c = policing_eval Op.count a b c
  eval Op.precond a b c = ok (make_op Op.precond a b c DataType.unum)
  eval Op.precond2 a b c = ok (make_op Op.precond2 a b c (type_of a))
  eval Op.field_root a b c = ok (make_op Op.field_root a b c (type_of a))

  -- The operands that are not given are dt_none.
  unfoldable pub op_unary : Op → Data → Result Data
  op_unary o a = eval o a Data.none Data.none

  unfoldable pub op_binary : Op → Data → Data → Result Data
  op_binary o a b = eval o a b Data.none

  unfoldable pub op_ternary : Op → Data → Data → Data → Result Data
  op_ternary o a b c = eval o a b c
