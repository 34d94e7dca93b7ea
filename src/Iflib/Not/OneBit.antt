-- ===== src/Iflib/Not/OneBit.antt =====
-- single_bit_test of tcc/iflib_not.c, against Iflib/Meaning.
use tcng.Common.{ℕ, ◌+◌, Bool, true, not, ◌==◌, some, ok, ◌>>=◌}
use tcng.Common.{◌≡◌, refl, ap, ◌∙◌, arith, Bool-cases, inl, inr, bit_and}
use tcng.Common.Digits.{and_comm}
use tcng.U128.{U128, u128_from_32}
use tcng.U128.Value.{IsU128, value}
use tcng.Data.{Data, DataType, Op, Doubles, data_convert}
use tcng.Op.Base.{u128_of}
use tcng.Iflib.Meaning.{run, number}
use tcng.Iflib.Not.{is_number, mask_data, inverted_value, single_bit_test}
use tcng.Iflib.Not.SingleBit.{inverted_value_lem}
use tcng.Iflib.Not.Placed.{in_range}

-- A constant number as an address.
abbrev pub wide : Data → U128
wide (Data.ipv6 n) = n
wide (Data.unum n) = u128_from_32 n
wide d = u128_from_32 0

module _ (fp : Doubles) where
  pub convert-wide :
      (d : Data) → is_number d ≡ true → data_convert fp d DataType.ipv6 ≡ ok (Data.ipv6 (wide d))
  unfolding data_convert
  convert-wide (Data.unum n) h = refl
  convert-wide (Data.ipv6 n) h = refl
  convert-wide d h = cc

pub wide-IsU128 : (d : Data) → is_number d ≡ true → in_range d ≡ true → IsU128 (wide d)
unfolding in_range u128_from_32
wide-IsU128 (Data.unum n) h r = ground arith
wide-IsU128 (Data.ipv6 n) h r = ground arith
wide-IsU128 d h r = cc

module _ {S : Type 0} (field : Data → S → ℕ) (test : Data → S → Bool) (charge : Data → S → S) where
  pub number-wide :
      (d : Data) (s : S) → is_number d ≡ true → number field test charge d s ≡ value (wide d)
  unfolding number u128_from_32
  number-wide (Data.unum n) s h = omega arith
  number-wide (Data.ipv6 n) s h = refl
  number-wide d s h = cc

  -- The inverted test on a masked operand whose mask is the constant `d`.
  masked :
      (d b : Data) {b' : Data} (x m : ℕ) (s : S)
      → is_number d ≡ true
      → is_number b ≡ true
      → in_range d ≡ true
      → inverted_value d (wide d) (wide b) ≡ some b'
      → m ≡ bit_and x (number field test charge d s)
      → (m == number field test charge b' s) ≡ not (m == number field test charge b s)
  masked d b {b'} x m s hd hb rd e is_masked =
      let at_d = number-wide d s hd in
      let at_b = number-wide b s hb in
      let lem =
        inverted_value_lem d (wide d) (wide b) x (number field test charge b' s)
          (wide-IsU128 d hd rd) e (λ same. ap (λ q. number field test charge q s) same ∙ at_d)
          (λ same. ap (λ q. number field test charge q s) same ∙ (unfold number in refl)) in
      let mask : m ≡ bit_and x (value (wide d)) = is_masked ∙ ap (bit_and x) at_d in
      rw (mask, at_b) lem

  module _ (fp : Doubles) where
    tested :
        (d b : Data) {b' : Data}
        → is_number d ≡ true
        → is_number b ≡ true
        → (data_convert fp d DataType.ipv6 >>= λ mask. data_convert fp b DataType.ipv6 >>= λ val.
            ok (inverted_value d (u128_of mask) (u128_of val)))
          ≡ ok (some b')
        → inverted_value d (wide d) (wide b) ≡ some b'
    tested d b hd hb e = ground (arith, convert-wide fp d hd, convert-wide fp b hb)

    -- The test that single_bit_test makes is the test that it was given, negated.
    pub run-single_bit_test :
        (t t' t'' : DataType) (a b c c' : Data) {b' : Data} (s : S)
        → single_bit_test fp a b ≡ ok (some b')
        → in_range a ≡ true
        → run field test charge (Data.op t Op.eq a b' c) s
          ≡ run field test charge (Data.op t' Op.ne a b c') s
    unfolding single_bit_test mask_data run number in_range
    run-single_bit_test t t' t'' (Data.op p Op.and x y w) b c c' {b'} s e r =
        let nx = number field test charge x s in
        let ny = number field test charge y s in
        elim (Bool-cases (is_number x)) [
          | inl left ↦ ground (
            arith,
            masked x b {b' = b'} ny (bit_and nx ny) s left (ground arith) (ground arith)
                (tested x b {b' = b'} left (ground arith) (ground arith))
                (and_comm (nx + ny) nx ny (omega arith)),
          )
          | inr other ↦ elim (Bool-cases (is_number y)) [
            | inl right ↦ ground (
              arith,
              masked y b {b' = b'} nx (bit_and nx ny) s right (ground arith) (ground arith)
                  (tested y b {b' = b'} right (ground arith) (ground arith)) refl,
            )
            | inr neither ↦ ground arith
          ]
        ]
    run-single_bit_test t t' t'' (Data.op p o x y w) b c c' s e r = ground arith
    run-single_bit_test t t' t'' a b c c' s e r = ground arith
