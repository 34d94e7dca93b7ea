-- ===== src/Iflib/Not/Plain.antt =====
-- single_bit_test and bubble_not of tcc/iflib_not.c on operands and on single tests.
use tcng.Common.{
  guard, ◌>>◌, Error, Bool, true, false, Option, none, some, ◌≡◌, refl, ap, ◌∙◌, arith, Bool-cases,
  inl, inr, ◌⊎◌,
}
use tcng.Common.{ok, ◌>>=◌}
use tcng.U128.{U128}
use tcng.Data.{
  Data, DataType, Op, Doubles, data_convert, type_of, has_op, same_type, integer_number,
}
use tcng.Data.Convert.{same_type-eq}
use tcng.Op.Base.{u128_of}
use tcng.Op.Integer.{unum1_eval}
use tcng.Op.Eval.{op_unary, eval}
use tcng.Iflib.Meaning.{plain}
use tcng.Iflib.Not.Joins.{clean}
use tcng.Iflib.Not.{
  is_number, mask_data, inverted_value, single_bit_test, bubble_not, negated, extended,
}
use tcng.Iflib.Not.OneBit.{wide, convert-wide}

pub plain-clean : (d : Data) → plain d ≡ true → clean d ≡ true
unfolding plain clean
plain-clean (Data.op t Op.plus a b c) h =
    ground (arith, plain-clean a, plain-clean b, plain-clean c)
plain-clean (Data.op t o a b c) h = ground (arith, plain-clean a, plain-clean b, plain-clean c)
plain-clean d h = refl

pub number-clean : (d : Data) → is_number d ≡ true → clean d ≡ true
unfolding clean
number-clean (Data.op t o a b c) h = cc
number-clean d h = refl

-- bubble_not does no more than to go through the operands.
abbrev pub passes_on : Op → Bool
passes_on Op.ne = false
passes_on Op.logical_not = false
passes_on Op.logical_and = false
passes_on Op.logical_or = false
passes_on o = true

pub plain-operands :
    (t : DataType) (o : Op) (a b c : Data)
    → plain (Data.op t o a b c) ≡ true
    → (passes_on o ≡ true) × (plain a ≡ true) × (plain b ≡ true) × (plain c ≡ true)
unfolding plain
plain-operands t o a b c h = ground arith

pub passes_on-clean :
    (t : DataType) (o : Op) (a b c : Data)
    → passes_on o ≡ true
    → clean a ≡ true
    → clean b ≡ true
    → clean c ≡ true
    → clean (Data.op t o a b c) ≡ true
unfolding clean
passes_on-clean t o a b c h ha hb hc = ground arith

-- Neither `!` nor `!=`.
abbrev pub is_positive : Data → Bool
is_positive (Data.op t Op.logical_not a b c) = false
is_positive (Data.op t Op.ne a b c) = false
is_positive d = true

module _ (fp : Doubles) where
  -- The last case of `!`.
  pub bubble_not-negated :
      (t : DataType) (a b c next otherwise : Data)
      → is_positive a ≡ true
      → bubble_not fp false (Data.op t Op.logical_not a b c) next otherwise
        ≡ (bubble_not fp false a otherwise next >>= λ a'. negated fp a' next otherwise)
  unfolding bubble_not
  bubble_not-negated t (Data.op p Op.logical_not x y w) b c next otherwise h = cc
  bubble_not-negated t (Data.op p Op.ne x y w) b c next otherwise h = cc
  bubble_not-negated t (Data.op p o x y w) b c next otherwise h = refl
  bubble_not-negated t a b c next otherwise h = refl

  pub bubble_not-and :
      (t : DataType) (a b c next otherwise : Data)
      → bubble_not fp false (Data.op t Op.logical_and a b c) next otherwise ≡ (
          bubble_not fp false b next otherwise >>= λ b'. extended fp b' next otherwise >>= λ ext.
          bubble_not fp false a ext otherwise >>= λ a'.
          guard (has_op ext) Error.fault >> ok (Data.op t Op.logical_and a' b' c))
  unfolding bubble_not
  bubble_not-and t a b c next otherwise = refl

  pub bubble_not-or :
      (t : DataType) (a b c next otherwise : Data)
      → bubble_not fp false (Data.op t Op.logical_or a b c) next otherwise ≡ (
          bubble_not fp false b next otherwise >>= λ b'. extended fp b' next otherwise >>= λ ext.
          bubble_not fp false a next ext >>= λ a'.
          guard (has_op ext) Error.fault >> ok (Data.op t Op.logical_or a' b' c))
  unfolding bubble_not
  bubble_not-or t a b c next otherwise = refl

  pub bubble_not-twice :
      (t t' : DataType) (x y w b c next otherwise : Data)
      → bubble_not fp false
          (Data.op t Op.logical_not (Data.op t' Op.logical_not x y w) b c)
          next
          otherwise
        ≡ bubble_not fp false x next otherwise
  unfolding bubble_not
  bubble_not-twice t t' x y w b c next otherwise = refl

  bubble_not-operands :
      (t : DataType) (o : Op) (a b c next otherwise : Data)
      → passes_on o ≡ true
      → bubble_not fp false (Data.op t o a b c) next otherwise ≡ (
          bubble_not fp false b next otherwise >>= λ b'.
          bubble_not fp false a next otherwise >>= λ a'.
          bubble_not fp false c next otherwise >>= λ c'. ok (Data.op t o a' b' c'))
  unfolding bubble_not
  bubble_not-operands t Op.ne a b c next otherwise h = cc
  bubble_not-operands t Op.logical_not a b c next otherwise h = cc
  bubble_not-operands t Op.logical_and a b c next otherwise h = cc
  bubble_not-operands t Op.logical_or a b c next otherwise h = cc
  bubble_not-operands t o a b c next otherwise h = refl

  -- An operator with plain operands stays.
  pub bubble_not-plain :
      (t : DataType) (o : Op) (a b c next otherwise : Data)
      → passes_on o ≡ true
      → bubble_not fp false b next otherwise ≡ ok b
      → bubble_not fp false a next otherwise ≡ ok a
      → bubble_not fp false c next otherwise ≡ ok c
      → bubble_not fp false (Data.op t o a b c) next otherwise ≡ ok (Data.op t o a b c)
  bubble_not-plain t o a b c next otherwise passive hb ha hc =
      rw (bubble_not-operands t o a b c next otherwise passive, hb, ha, hc) refl

  -- bubble_not leaves plain operands alone.
  pub plain-bubble_not :
      (d next otherwise : Data) → plain d ≡ true → bubble_not fp false d next otherwise ≡ ok d
  plain-bubble_not (Data.op t o a b c) next otherwise h =
      let (passive, ha, hb, hc) = plain-operands t o a b c h in
      bubble_not-plain t o a b c next otherwise passive (plain-bubble_not b next otherwise hb)
        (plain-bubble_not a next otherwise ha) (plain-bubble_not c next otherwise hc)
  plain-bubble_not d next otherwise h = unfold bubble_not in refl

  -- The operand that inverts the test is a constant.
  inverted_value-clean :
      (d : Data) (mask val : U128) {b' : Data}
      → is_number d ≡ true
      → inverted_value d mask val ≡ some b'
      → clean b' ≡ true
  unfolding inverted_value clean
  inverted_value-clean d mask val h e = ground (arith, number-clean d h)

  converted_ok :
      (d b : Data)
      → is_number d ≡ true
      → is_number b ≡ true
      → (data_convert fp d DataType.ipv6 >>= λ mask. data_convert fp b DataType.ipv6 >>= λ val.
          ok (inverted_value d (u128_of mask) (u128_of val)))
        ≡ ok (inverted_value d (wide d) (wide b))
  converted_ok d b hd hb = rw (convert-wide fp d hd, convert-wide fp b hb) refl

  -- The test of constants as a single bit.
  single_bit_test-inverts :
      (a b : Data)
      → is_number b ≡ true
      → (single_bit_test fp a b ≡ ok none)
        ⊎ ((d : Data) × (is_number d ≡ true)
            × (single_bit_test fp a b ≡ ok (inverted_value d (wide d) (wide b))))
  unfolding single_bit_test mask_data
  single_bit_test-inverts (Data.op p Op.and x y w) b h = elim (Bool-cases (is_number x)) [
    | inl left ↦ inr (x, left, rw (left, h) (converted_ok x b left h))
    | inr other ↦ elim (Bool-cases (is_number y)) [
      | inl right ↦ inr (y, right, rw (other, right, h) (converted_ok y b right h))
      | inr neither ↦ inl (rw (other, neither, h) refl)
    ]
  ]
  single_bit_test-inverts (Data.op p o x y w) b h = inl (rw h refl)
  single_bit_test-inverts a b h = inl (rw h refl)

  -- Either it inverts nothing, or the new operand is a constant.
  pub single_bit_test-ok :
      (a b : Data)
      → is_number b ≡ true
      → (single_bit_test fp a b ≡ ok none)
        ⊎ ((b' : Data) × (single_bit_test fp a b ≡ ok (some b')) × (clean b' ≡ true))
  single_bit_test-ok a b h = elim (single_bit_test-inverts a b h) [
    | inl kept ↦ inl kept
    | inr (d, hd, tried) ↦ from d hd (inverted_value d (wide d) (wide b)) refl tried
  ]
    where
      from :
          (d : Data)
          → is_number d ≡ true
          → (r : Option Data) → inverted_value d (wide d) (wide b) ≡ r
          → single_bit_test fp a b ≡ ok (inverted_value d (wide d) (wide b))
          → (single_bit_test fp a b ≡ ok none)
            ⊎ ((b' : Data) × (single_bit_test fp a b ≡ ok (some b')) × (clean b' ≡ true))
      from d hd none e tried = inl (tried ∙ ap ok e)
      from d hd (some b') e tried =
          inr (b', tried ∙ ap ok e, inverted_value-clean d (wide d) (wide b) hd e)

  -- A test is negated by `!`.
  pub op_unary-test :
      (t : DataType) (a b c : Data)
      → same_type t DataType.unum ≡ true
      → op_unary fp Op.logical_not (Data.op t Op.eq a b c)
        ≡ ok (Data.op DataType.unum Op.logical_not (Data.op t Op.eq a b c) Data.none Data.none)
  unfolding op_unary eval unum1_eval type_of has_op integer_number same_type
  op_unary-test t a b c h = rw (same_type-eq t DataType.unum h) (refl)
