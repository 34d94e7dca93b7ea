-- ===== src/Iflib/Not.antt =====
-- tcc/iflib_not.c: single_bit_test, bubble_not and iflib_not.
pub mod SingleBit
pub mod Joins
pub mod Placed
pub mod Contexts
pub mod OneBit
pub mod Plain
pub mod Expressed
pub mod Joined
pub mod Suits
pub mod Negation
pub mod Examples
use tcng.Common.{ℕ, zero, suc, Bool, true, false, not, ◌&&◌, ◌||◌, Option, none, some}
use tcng.Common.{Result, ok, err, Error, ◌>>=◌, ◌>>◌, guard, if◌then◌else◌}
use tcng.U128.{U128, u128_is_zero, u128_and_32, u128_shift_right, u128_from_32, u128_cmp}
use tcng.Data.{Data, DataType, Op, Doubles, data_convert, has_op, is_same}
use tcng.Op.Base.{u128_of}
use tcng.Op.Eval.{op_unary, op_binary}

-- `!d.op && (d.type == dt_unum || d.type == dt_ipv6)`
abbrev pub is_number : Data → Bool
is_number (Data.unum n) = true
is_number (Data.ipv6 n) = true
is_number _ = false

-- The constant operand of `&`, the left one first.
unfoldable pub mask_data : Data → Option Data
mask_data (Data.op t Op.and x y z) =
    if is_number x then some x else if is_number y then some y else none
mask_data _ = none

-- `for (tmp = mask; u128_is_zero(u128_and_32(tmp,1)); tmp = u128_shift_right(tmp,1));`, with fuel.
unfoldable pub strip_zeros : ℕ → U128 → U128
strip_zeros zero m = m
strip_zeros (suc fuel) m =
    let rest = strip_zeros fuel (u128_shift_right m 1) in
    if u128_is_zero (u128_and_32 m 1) then rest else m

-- The tests on the mask and the value, with the operand that inverts the test. 128 rounds are
-- enough for a mask other than 0.
unfoldable pub inverted_value : Data → U128 → U128 → Option Data
unfolding strip_zeros
inverted_value d mask val =
    if u128_is_zero mask
    then none
    else if not (u128_is_zero val) && not (is_same (u128_cmp val mask))
    then none
    else if not (is_same (u128_cmp (strip_zeros 128 mask) (u128_from_32 1)))
    then none
    else if u128_is_zero val
    then some d
    else some (Data.unum 0)

module _ (fp : Doubles) where
  -- The new right operand of a test of one bit, from the operands of `==`.
  unfoldable pub single_bit_test : Data → Data → Result (Option Data)
  unfolding mask_data inverted_value
  single_bit_test a b = do
    guard (is_number b) Error.fault
    elim (mask_data a) [
      | none ↦ ok none
      | some d ↦ data_convert fp d DataType.ipv6 >>= λ mask.
          data_convert fp b DataType.ipv6 >>= λ val.
          ok (inverted_value d (u128_of mask) (u128_of val))
    ]

  -- `!a` in its context, from `a` after its own negations are gone.
  unfoldable pub negated : Data → Data → Data → Result Data
  negated a next otherwise = do
    both ← op_binary fp Op.logical_and a otherwise
    op_binary fp Op.logical_or both next

  -- The alternative that stands to the left of `b`.
  unfoldable pub extended : Data → Data → Data → Result Data
  extended b next otherwise = do
    both ← op_binary fp Op.logical_and b next
    op_binary fp Op.logical_or both otherwise

-- `negation_error` is `(warn_expensive || warn_exp_post_opt) && warn_exp_error`.
module _ (fp : Doubles) (negation_error : Bool) where
  unfoldable pub bubble_not : Data → Data → Data → Result Data
  unfolding single_bit_test negated extended
  bubble_not (Data.op t Op.ne a b c) next otherwise =
      let negate = (do
        checked ← op_unary fp Op.logical_not (Data.op t Op.eq a b c)
        guard (not negation_error) Error.expensive
        b' ← bubble_not b otherwise next
        a' ← bubble_not a otherwise next
        c' ← bubble_not c otherwise next
        negated fp (Data.op t Op.eq a' b' c') next otherwise) in
      single_bit_test fp a b >>= λ inverted. elim inverted [
        | some b' ↦ ok (Data.op t Op.eq a b' c)
        | none ↦ negate
      ]
  bubble_not (Data.op t Op.logical_not (Data.op t' Op.logical_not x y z) b c) next otherwise =
      bubble_not x next otherwise
  bubble_not (Data.op t Op.logical_not (Data.op t' Op.ne x y z) b c) next otherwise = do
    y' ← bubble_not y next otherwise
    x' ← bubble_not x next otherwise
    z' ← bubble_not z next otherwise
    ok (Data.op t' Op.eq x' y' z')
  bubble_not (Data.op t Op.logical_not a b c) next otherwise = do
    guard (not negation_error) Error.expensive
    a' ← bubble_not a otherwise next
    negated fp a' next otherwise
  bubble_not (Data.op t Op.logical_or a b c) next otherwise = do
    b' ← bubble_not b next otherwise
    ext ← extended fp b' next otherwise
    a' ← bubble_not a next ext
    guard (has_op ext) Error.fault
    ok (Data.op t Op.logical_or a' b' c)
  bubble_not (Data.op t Op.logical_and a b c) next otherwise = do
    b' ← bubble_not b next otherwise
    ext ← extended fp b' next otherwise
    a' ← bubble_not a ext otherwise
    guard (has_op ext) Error.fault
    ok (Data.op t Op.logical_and a' b' c)
  bubble_not (Data.op t o a b c) next otherwise = do
    b' ← bubble_not b next otherwise
    a' ← bubble_not a next otherwise
    c' ← bubble_not c next otherwise
    ok (Data.op t o a' b' c')
  bubble_not d next otherwise = ok d

  unfoldable pub iflib_not : Data → Result Data
  unfolding bubble_not
  iflib_not d = bubble_not d (Data.unum 1) (Data.unum 0)
