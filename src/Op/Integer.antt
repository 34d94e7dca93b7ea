-- ===== src/Op/Integer.antt =====
-- tcc/op.c: the operators on integers and addresses, and the address masks.
use tcng.Common.{ℕ, ◌-◌, ◌*◌, ◌/◌, ◌%◌, ◌^◌, Bool, true, false, not, ◌&&◌, ◌||◌}
use tcng.Common.{Result, ok, err, Error, ◌>>=◌, ◌>>◌, guard, ◌==◌, ltb, leb, if◌then◌else◌}
use tcng.Common.{bit_and, bit_or, bit_xor}
use tcng.U128.{U128, u32, add32, sub32, not32, u128_not, u128_minus, u128_is_zero}
use tcng.U128.{u128_and, u128_or, u128_xor, u128_shift_left, u128_shift_right}
use tcng.U128.{u128_sub_32, u128_from_32}
use tcng.Data.{Data, DataType, Op, Doubles, type_of, has_op}
use tcng.Data.{
  integer_number, untyped_number, typed_number, ip_address, data_convert, data_typed_fnum,
}
use tcng.Op.Base.{make_op, unum_of, u128_of, fnum_of, is_type, mix_types}

-- The operations of `unum2_op`; the remainder by zero is a fault.
unfoldable pub unum2_op : Op → ℕ → ℕ → Result ℕ
unum2_op Op.mod' a b = if b == 0 then err Error.fault else ok (a % b)
unum2_op Op.and a b = ok (bit_and a b)
unum2_op Op.or a b = ok (bit_or a b)
unum2_op Op.xor a b = ok (bit_xor a b)
unum2_op _ a b = err Error.fault

unfoldable pub unum2_u128 : Op → U128 → U128 → Result Data
unum2_u128 Op.and a b = ok (Data.ipv6 (u128_and a b))
unum2_u128 Op.or a b = ok (Data.ipv6 (u128_or a b))
unum2_u128 Op.xor a b = ok (Data.ipv6 (u128_xor a b))
unum2_u128 _ a b = err Error.fault

abbrev pub is_mod : Op → Bool
is_mod Op.mod' = true
is_mod _ = false

module _ (fp : Doubles) where
  -- The constants of `unum2_eval`, by their common type.
  unfoldable pub unum2_const : Op → DataType → Data → Data → Result Data
  unfolding unum2_op unum2_u128 data_convert
  unum2_const o DataType.unum a b = do n ← unum2_op o (unum_of a) (unum_of b); ok (Data.unum n)
  unum2_const o DataType.ipv4 a b = do n ← unum2_op o (unum_of a) (unum_of b); ok (Data.ipv4 n)
  unum2_const o DataType.ipv6 a b = do
    x ← data_convert fp a DataType.ipv6
    y ← data_convert fp b DataType.ipv6
    unum2_u128 o (u128_of x) (u128_of y)
  unum2_const o _ a b = err Error.fault

  unfoldable pub unum2_eval : Op → Data → Data → Data → Result Data
  unfolding unum2_const mix_types integer_number ip_address type_of has_op
  unum2_eval o a b c = do
    guard (integer_number (type_of a)) Error.bad_type
    guard (integer_number (type_of b)) Error.bad_type
    guard (not ((ip_address (type_of a) || ip_address (type_of b)) && is_mod o)) Error.bad_type
    t ← mix_types (type_of a) (type_of b)
    if has_op a || has_op b then ok (make_op o a b c t) else unum2_const o t a b

  -- `(1 << upper)-1` shifted up: a shift by 32 or more is undefined.
  unfoldable pub mask32 : Bool → ℕ → ℕ → Result ℕ
  mask32 shifted upper bits =
      let low = if upper == 32 then 0xffffffff else 2 ^ upper - 1 in
      if leb upper 32
      then (if shifted
          then (if 0 == bits then err Error.undefined else ok (u32 (low * 2 ^ (32 - bits))))
          else ok low)
      else err Error.undefined

  unfoldable pub mask128 : Bool → ℕ → ℕ → U128
  mask128 shifted upper bits =
      let low = u128_sub_32 (u128_shift_left (u128_from_32 1) upper) 1 in
      if shifted then u128_shift_left low (sub32 128 bits) else low

  -- A constant operand of the mask, or its absence.
  abbrev pub is_operand : Data → Bool
  is_operand d = is_type d DataType.unum || is_type d DataType.none

  -- mask_eval. A sum of 2 ^ 31 and more does not fit the `int` that it is assigned to, for which C
  -- defines no value.
  unfoldable pub mask_eval : Data → Data → Data → Result Data
  unfolding mask32 mask128 unum2_eval
  mask_eval a b c =
      let bits = add32 (unum_of b) (unum_of c) in
      let upper = if is_type c DataType.unum then unum_of c else unum_of b in
      let shifted = is_type b DataType.unum in
      let wide = unum2_eval Op.and a (Data.ipv6 (mask128 shifted upper bits)) Data.none in
      let narrow = mask32 shifted upper bits >>= λ m. unum2_eval Op.and a (Data.unum m) Data.none in
      if not (integer_number (type_of a)) || (not (is_operand b) || not (is_operand c))
      then err Error.bad_type
      else if has_op b || has_op c
      then ok (make_op Op.mask a b c (type_of a))
      else if not (is_type b DataType.unum) && not (is_type c DataType.unum)
      then err Error.undefined
      else if leb (2 ^ 31) bits
      then err Error.undefined
      else if is_type a DataType.ipv6
      then (if ltb 128 bits then err Error.out_of_range else wide)
      else (if ltb 32 bits then err Error.out_of_range else narrow)

  -- The constants of `unum1_eval` under `~`, `!` and `-`.
  unfoldable pub unum1_const : Op → Data → Result Data
  unum1_const Op.not' (Data.unum n) = ok (Data.unum (not32 n))
  unum1_const Op.not' (Data.ipv4 n) = ok (Data.ipv4 (not32 n))
  unum1_const Op.not' (Data.ipv6 n) = ok (Data.ipv6 (u128_not n))
  unum1_const Op.logical_not (Data.ipv6 n) = ok (Data.unum (if u128_is_zero n then 1 else 0))
  unum1_const Op.logical_not a = ok (Data.unum (if unum_of a == 0 then 1 else 0))
  unum1_const Op.unary_minus (Data.unum n) = ok (Data.unum (sub32 0 n))
  unum1_const Op.unary_minus (Data.ipv4 n) = ok (Data.ipv4 (sub32 0 n))
  unum1_const Op.unary_minus (Data.ipv6 n) = ok (Data.ipv6 (u128_minus n))
  unum1_const Op.unary_minus a = data_typed_fnum fp (fp.neg (fnum_of a)) (type_of a)
  unum1_const _ _ = err Error.fault

  abbrev pub is_minus : Op → Bool
  is_minus Op.unary_minus = true
  is_minus _ = false

  unfoldable pub unum1_eval : Op → Data → Data → Data → Result Data
  unfolding unum1_const untyped_number typed_number integer_number type_of has_op
  unum1_eval o a b c = do
    guard (untyped_number (type_of a) || typed_number (type_of a)) Error.bad_type
    guard (integer_number (type_of a) || is_minus o) Error.bad_type
    if has_op a then ok (make_op o a b c (type_of a)) else unum1_const o a

-- A left shift of a 32 bit constant. `<<` by 32 and more is undefined, and is only reached at 0.
unfoldable pub shift_left_32 : ℕ → ℕ → Result ℕ
shift_left_32 a b =
    if leb 32 b
    then (if a == 0 then err Error.undefined else err Error.out_of_range)
    else if not (b == 0) && not (a / 2 ^ (32 - b) == 0)
    then err Error.out_of_range
    else ok (u32 (a * 2 ^ b))

unfoldable pub shift_left_128 : U128 → ℕ → Result U128
shift_left_128 a b =
    if leb 128 b && not (u128_is_zero a) || not (u128_is_zero (u128_shift_right a (sub32 128 b)))
    then err Error.out_of_range
    else ok (u128_shift_left a b)

unfoldable pub shift_right_32 : ℕ → ℕ → ℕ
shift_right_32 a b = if leb 32 b then 0 else a / 2 ^ b

unfoldable pub shift_const : Bool → Data → ℕ → Result Data
unfolding shift_left_32 shift_left_128 shift_right_32
shift_const true (Data.unum a) b = do n ← shift_left_32 a b; ok (Data.unum n)
shift_const true (Data.ipv4 a) b = do n ← shift_left_32 a b; ok (Data.ipv4 n)
shift_const true (Data.ipv6 a) b = do n ← shift_left_128 a b; ok (Data.ipv6 n)
shift_const false (Data.unum a) b = ok (Data.unum (shift_right_32 a b))
shift_const false (Data.ipv4 a) b = ok (Data.ipv4 (shift_right_32 a b))
shift_const false (Data.ipv6 a) b = ok (Data.ipv6 (u128_shift_right a b))
shift_const _ _ b = err Error.fault

-- shift_eval, for `<<` (true) and `>>`.
unfoldable pub shift_eval : Bool → Op → Data → Data → Data → Result Data
unfolding shift_const integer_number ip_address type_of has_op
shift_eval left o a b c = do
  guard (integer_number (type_of a)) Error.bad_type
  guard (integer_number (type_of b)) Error.bad_type
  guard (not (ip_address (type_of b))) Error.bad_type
  if has_op a || has_op b then ok (make_op o a b c (type_of a)) else shift_const left a (unum_of b)
