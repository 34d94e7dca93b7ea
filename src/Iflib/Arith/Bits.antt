-- ===== src/Iflib/Arith/Bits.antt =====
-- tcc/iflib_arith.c: comparisons with a constant as tests of single bits or of prefixes.
use tcng.Common.{
  ℕ, zero, suc, ◌%◌, ◌^◌, Bool, true, false, not, ◌&&◌, ◌||◌, ◌==◌, ltb, Option, none, some,
}
use tcng.Common.{Result, ok, err, Error, ◌>>=◌, ◌>>◌, guard, if◌then◌else◌}
use tcng.U128.{
  U128, u128_is_zero, u128_and, u128_xor, u128_not, u128_shift_left, u128_shift_right, u128_from_32,
  u128_cmp, u128_sub_32, u128_add_32,
}
use tcng.Data.{Data, DataType, Op, Doubles, data_convert, has_op, is_same}
use tcng.Op.Base.{u128_of}
use tcng.Op.Eval.{op_binary}
use tcng.Iflib.Not.{is_number}

-- `u128_not(u128_from_32(0))`
abbrev pub all_ones : U128
all_ones = u128_not (u128_from_32 0)

unfoldable pub get_bit : U128 → ℕ → Bool
get_bit v n = not ((u128_shift_right v n).v0 % 2 == 0)

unfoldable pub prefix_and_twist : U128 → ℕ → Data
prefix_and_twist v n =
    Data.ipv6
      (u128_xor (u128_and v (u128_shift_left all_ones n)) (u128_shift_left (u128_from_32 1) n))

unfoldable pub set_nth_bit : ℕ → Data
set_nth_bit n =
    if ltb n 32 then Data.unum (2 ^ n) else Data.ipv6 (u128_shift_left (u128_from_32 1) n)

unfoldable pub bit_mask : ℕ → Data
bit_mask n = Data.ipv6 (u128_shift_left all_ones n)

-- Stores through `next->op`; a constant has none.
unfoldable pub with_a : Data → Data → Result Data
with_a (Data.op t o a b c) x = ok (Data.op t o x b c)
with_a d x = err Error.fault

unfoldable pub with_b : Data → Data → Result Data
with_b (Data.op t o a b c) x = ok (Data.op t o a x c)
with_b d x = err Error.fault

-- The second operand of `&` as a mask.
unfoldable pub mask_of : Doubles → Data → Result U128
mask_of fp (Data.op t Op.and x m c) =
    if is_number m then (data_convert fp m DataType.ipv6 >>= λ d. ok (u128_of d)) else ok all_ones
mask_of fp _ = ok all_ones

-- `assert(d.type != dt_none)`
unfoldable pub some_test : Option Data → Result Data
some_test none = err Error.fault
some_test (some d) = ok d

module _ (fp : Doubles) where
  -- `(acc & (1 << i)) == value`
  unfoldable pub bit_test : Data → ℕ → Data → Result Data
  unfolding set_nth_bit
  bit_test acc i val = do bit ← op_binary fp Op.and acc (set_nth_bit i); op_binary fp Op.eq bit val

  -- `(acc & (~0 << i)) == prefix`
  unfoldable pub prefix_test : Data → ℕ → U128 → Result Data
  unfolding bit_mask prefix_and_twist
  prefix_test acc i c = do
    bits ← op_binary fp Op.and acc (bit_mask i)
    op_binary fp Op.eq bits (prefix_and_twist c i)

  module _ (acc : Data) (c mask : U128) (invert : Bool) where
    abbrev rest_value : Data
    rest_value = Data.unum (if invert then 0 else 1)

    -- One round of the loop: the node for bit `i`, with the constant in place of the next node.
    unfoldable pub le_node : ℕ → Result Data
    unfolding get_bit set_nth_bit bit_test with_a
    le_node i =
        let o =
          if get_bit c i && invert || (not (get_bit c i) && not invert)
          then Op.logical_and
          else Op.logical_or in
        if not (get_bit mask i)
        then (op_binary fp o acc rest_value >>= λ d. with_a d rest_value)
        else (bit_test acc i (if invert then set_nth_bit i else Data.unum 0) >>= λ t.
            op_binary fp o t rest_value)

    -- The rounds for the bits below `n`.
    unfoldable pub le_bits : ℕ → Result Data
    unfolding le_node with_b
    le_bits zero = ok rest_value
    le_bits (suc i) = do d ← le_node i; rest ← le_bits i; with_b d rest

    unfoldable pub build_le_bit : Result Data
    unfolding le_bits
    build_le_bit = le_bits 128

  -- One more test in front of those for the higher bits.
  unfoldable pub or_next : Data → Option Data → Result (Option Data)
  unfolding with_b
  or_next t none = ok (some t)
  or_next t (some rest) = do
    node ← op_binary fp Op.logical_or t (Data.unum 0)
    d ← with_b node rest
    ok (some d)

  module _ (acc : Data) (c mask : U128) where
    -- The rounds of build_lt_prefix from bit `i` on.
    unfoldable pub lt_prefixes : Bool → ℕ → ℕ → Result (Option Data)
    unfolding get_bit prefix_test or_next
    lt_prefixes invert zero i = ok none
    lt_prefixes invert (suc rounds) i =
        let rest = lt_prefixes invert rounds (suc i) in
        if get_bit c i && invert || (not (get_bit c i) && not invert)
        then rest
        else if not (get_bit mask i) && not (get_bit c i)
        then rest
        else prefix_test acc i c >>= λ t. rest >>= λ r. or_next t r

    unfoldable pub build_lt_prefix : Bool → Result Data
    unfolding lt_prefixes some_test
    build_lt_prefix invert = lt_prefixes invert 128 0 >>= λ r. some_test r

    -- The rounds of build_ne_bit from bit `i` on.
    unfoldable pub ne_bits : ℕ → ℕ → Result (Option Data)
    unfolding get_bit set_nth_bit bit_test or_next
    ne_bits zero i = ok none
    ne_bits (suc rounds) i =
        let rest = ne_bits rounds (suc i) in
        if not (get_bit mask i)
        then rest
        else (bit_test acc i (if get_bit c i then Data.unum 0 else set_nth_bit i) >>= λ t.
            rest >>= λ r. or_next t r)

    -- The rounds of build_ne_prefix from bit `i` on.
    unfoldable pub ne_prefixes : ℕ → ℕ → Result (Option Data)
    unfolding get_bit prefix_test or_next
    ne_prefixes zero i = ok none
    ne_prefixes (suc rounds) i =
        let rest = ne_prefixes rounds (suc i) in
        if not (get_bit mask i)
        then rest
        else prefix_test acc i c >>= λ t. rest >>= λ r. or_next t r

  -- The constant is given to build_ne_bit and build_ne_prefix as it stands in the expression.
  unfoldable pub build_ne_bit : Data → Data → Result Data
  unfolding mask_of ne_bits some_test
  build_ne_bit acc b = do
    c128 ← data_convert fp b DataType.ipv6
    guard (has_op acc) Error.fault
    mask ← mask_of fp acc
    r ← ne_bits acc (u128_of c128) mask 128 0
    some_test r

  unfoldable pub build_ne_prefix : Data → Data → Result Data
  unfolding mask_of ne_prefixes some_test
  build_ne_prefix acc b = do
    c128 ← data_convert fp b DataType.ipv6
    guard (has_op acc) Error.fault
    mask ← mask_of fp acc
    r ← ne_prefixes acc (u128_of c128) mask 128 0
    some_test r

-- `prefix` and `ne` are the optimization switches of these names.
module _ (fp : Doubles) (prefix : Bool) where
  unfoldable pub build_rel : Data → Data → Data → Bool → Bool → Bool → Bool → Result Data
  unfolding mask_of build_le_bit build_lt_prefix data_convert
  build_rel d a b invert const_res const_if_zero decrement =
      if not (is_number b)
      then ok d
      else (data_convert fp b DataType.ipv6 >>= λ n.
          let c = u128_of n in
          if const_if_zero && u128_is_zero c || (not const_if_zero && is_same (u128_cmp c all_ones))
          then ok (Data.unum (if const_res then 1 else 0))
          else (guard (has_op a) Error.fault
              >> (mask_of fp a >>= λ mask.
                  if prefix
                  then build_lt_prefix fp a
                      (if const_res
                        then (if invert then u128_sub_32 c 1 else u128_add_32 c 1)
                        else c)
                      mask invert
                  else build_le_bit fp a (if decrement then u128_sub_32 c 1 else c) mask invert)))

  -- What rel_general does to one node.
  unfoldable pub general_node : Data → Result Data
  unfolding build_rel
  general_node (Data.op t Op.le a b c) =
      build_rel (Data.op t Op.le a b c) a b false true false false
  general_node (Data.op t Op.gt a b c) =
      build_rel (Data.op t Op.gt a b c) a b true false false false
  general_node (Data.op t Op.lt a b c) = build_rel (Data.op t Op.lt a b c) a b false false true true
  general_node (Data.op t Op.ge a b c) = build_rel (Data.op t Op.ge a b c) a b true true true true
  general_node d = ok d

  unfoldable pub build_ne : Data → Data → Data → Result Data
  unfolding build_ne_prefix build_ne_bit
  build_ne d a b =
      if not (is_number b)
      then ok d
      else if prefix
      then build_ne_prefix fp a b
      else build_ne_bit fp a b
