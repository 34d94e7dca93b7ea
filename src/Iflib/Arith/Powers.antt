-- ===== src/Iflib/Arith/Powers.antt =====
-- tcc/iflib_arith.c: log_2, log_2_any and rel_to_eq.
use tcng.Common.{
  ℕ, zero, suc, ◌+◌, ◌/◌, ◌%◌, Bool, true, false, not, ◌&&◌, ◌==◌, Option, none, some,
}
use tcng.Common.{Result, ok, err, Error, ◌>>=◌, if◌then◌else◌}
use tcng.U128.{U128, add32, sub32, not32, u128_is_zero, u128_add_32, u128_sub_32, u128_minus}
use tcng.Data.{Data, DataType, Op, Doubles, has_op}
use tcng.Op.Eval.{op_binary}
use tcng.Iflib.Not.{is_number}

-- The loop of log_2 on fuel; 32 rounds are enough for a word other than 0. -1 is `none`.
unfoldable pub log_2_loop : ℕ → ℕ → ℕ → Option ℕ
log_2_loop zero ld v = if v == 1 then some ld else none
log_2_loop (suc fuel) ld v =
    let more = log_2_loop fuel (suc ld) (v / 2) in
    if v % 2 == 0 then more else if v == 1 then some ld else none

unfoldable pub log_2 : ℕ → Option ℕ
unfolding log_2_loop
log_2 v = if v == 0 then none else log_2_loop 32 0 v

abbrev raised : ℕ → Option ℕ → Option ℕ
raised bits none = none
raised bits (some ld) = some (ld + bits)

-- The words above the lowest one that is not 0 have to be 0. At 0 the loop reads past the array.
unfoldable pub log_2_words : U128 → Result (Option ℕ)
unfolding log_2
log_2_words n =
    if not (n.v0 == 0)
    then ok (if n.v1 == 0 && (n.v2 == 0 && n.v3 == 0) then log_2 n.v0 else none)
    else if not (n.v1 == 0)
    then ok (if n.v2 == 0 && n.v3 == 0 then raised 32 (log_2 n.v1) else none)
    else if not (n.v2 == 0)
    then ok (if n.v3 == 0 then raised 64 (log_2 n.v2) else none)
    else if not (n.v3 == 0)
    then ok (raised 96 (log_2 n.v3))
    else err Error.undefined

unfoldable pub log_2_any : Data → Bool → Result (Option ℕ)
unfolding log_2 log_2_words
log_2_any (Data.unum n) increment =
    if increment
    then (if add32 n 1 == 0 then ok (some 32) else ok (log_2 (add32 n 1)))
    else ok (log_2 n)
log_2_any (Data.ipv6 n) increment =
    if increment
    then (if u128_is_zero (u128_add_32 n 1) then ok (some 128) else log_2_words (u128_add_32 n 1))
    else log_2_words n
log_2_any d increment = err Error.fault

module _ (fp : Doubles) where
  -- The operand under the mask of the bits that the constant, less one with `decrement`, leaves out.
  unfoldable pub masked_test : DataType → Op → Data → Data → Data → Bool → Result Data
  masked_test t o a (Data.unum n) c decrement = do
    a' ← op_binary fp Op.and a (Data.unum (not32 (if decrement then sub32 n 1 else n)))
    ok (Data.op t o a' (Data.unum 0) c)
  masked_test t o a (Data.ipv6 n) c decrement = do
    a' ← op_binary fp Op.and a (Data.ipv6 (u128_minus (if decrement then u128_sub_32 n 1 else n)))
    ok (Data.op t o a' (Data.unum 0) c)
  masked_test t o a b c decrement = err Error.fault

  -- The operator that the test turns into, and whether the constant stands for the power of two
  -- or for the number below it.
  unfoldable pub to_equality : DataType → Op → Op → Data → Data → Data → Bool → Result Data
  unfolding log_2_any masked_test
  to_equality t o o' a b c decrement = log_2_any b (not decrement) >>= λ ld. elim ld [
    | none ↦ ok (Data.op t o a b c)
    | some n ↦ masked_test t o' a b c decrement
  ]

  -- rel_to_eq on a node whose operands it has converted.
  unfoldable pub to_eq_node : DataType → Op → Data → Data → Data → Result Data
  unfolding to_equality
  to_eq_node t Op.lt a b c =
      if has_op a && is_number b
      then to_equality t Op.lt Op.eq a b c true
      else ok (Data.op t Op.lt a b c)
  to_eq_node t Op.le a b c =
      if has_op a && is_number b
      then to_equality t Op.le Op.eq a b c false
      else ok (Data.op t Op.le a b c)
  to_eq_node t Op.gt a b c =
      if has_op a && is_number b
      then to_equality t Op.gt Op.ne a b c false
      else ok (Data.op t Op.gt a b c)
  to_eq_node t Op.ge a b c =
      if has_op a && is_number b
      then to_equality t Op.ge Op.ne a b c true
      else ok (Data.op t Op.ge a b c)
  to_eq_node t o a b c = ok (Data.op t o a b c)

  unfoldable pub rel_to_eq : Data → Result Data
  unfolding to_eq_node
  rel_to_eq (Data.op t o a b c) = do
    a' ← rel_to_eq a
    b' ← rel_to_eq b
    c' ← rel_to_eq c
    to_eq_node t o a' b' c'
  rel_to_eq d = ok d
