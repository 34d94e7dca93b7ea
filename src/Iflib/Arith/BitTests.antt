-- ===== src/Iflib/Arith/BitTests.antt =====
-- The tests of single bits of tcc/iflib_arith.c, against the digits of the tested number.
use tcng.Common.{ℕ, zero, suc, ◌*◌, ◌/◌, ◌%◌, ◌^◌, ◌<◌, ◌≤◌, ◌≡◌, refl, ap, ◌∙◌, arith}
use tcng.Common.{Bool, true, false, not, ◌==◌, ltb, Bool-cases, inl, inr, bit_and}
use tcng.Common.{ok, if◌then◌else◌}
use tcng.Common.Digits.{and_bit}
use tcng.U128.{U128, u128_shift_right, u128_from_32}
use tcng.U128.Value.{IsU128, value}
use tcng.U128.Right.{value-u128_shift_right}
use tcng.U128.Left.{value-u128_shift_left}
use tcng.Data.{
  Data, DataType, Op, Doubles, type_of, has_op, same_type, integer_number, untyped_number,
  ip_address,
}
use tcng.Op.Base.{mix_types}
use tcng.Op.Integer.{unum2_eval}
use tcng.Op.Logic.{rel_eval, and_or_eval}
use tcng.Op.Eval.{op_binary, eval}
use tcng.Iflib.Meaning.{truth, run, number}
use tcng.Iflib.Not.{is_number}
use tcng.Iflib.Arith.Bits.{get_bit, set_nth_bit, bit_test}
use native.Mathlib.Nat.{pow-suc, one-le-pow, pow-le-pow_right}

-- Digit `n` of `x` is set.
abbrev pub digit : ℕ → ℕ → Bool
digit x n = not (x / 2 ^ n % 2 == 0)

pub get_bit-digit : (v : U128) (n : ℕ) → IsU128 v → get_bit v n ≡ digit (value v) n
unfolding get_bit
get_bit-digit v n h =
    let shifted = value-u128_shift_right v n h in
    let lowest : (u128_shift_right v n).v0 % 2 ≡ value v / 2 ^ n % 2 = omega arith in rw lowest refl

-- An expression that every mask can stand next to.
abbrev pub wide_operand : Data → Bool
wide_operand (Data.op DataType.unum o a b c) = true
wide_operand (Data.op DataType.ipv6 o a b c) = true
wide_operand _ = false

one-IsU128 : IsU128 (u128_from_32 1)
unfolding u128_from_32
one-IsU128 = record { w0 = omega arith; w1 = omega arith; w2 = omega arith; w3 = omega arith }

pub set_nth_bit-is_number : (n : ℕ) → is_number (set_nth_bit n) ≡ true
unfolding set_nth_bit
set_nth_bit-is_number n = ground arith

pub pow-lt : (n m : ℕ) → n < m → 2 ^ n < 2 ^ m
pow-lt n m h =
    let up : 2 ^ suc n ≤ 2 ^ m =
      pow-le-pow_right {n = 2} (omega arith) {i = suc n} {j = m} (omega arith) in
    omega (arith, pow-suc 2 n, up, one-le-pow n 2 (omega arith))

module _ (fp : Doubles) where
  pub op_binary-mask :
      (acc k : Data)
      → wide_operand acc ≡ true
      → is_number k ≡ true
      → (t : DataType) × (op_binary fp Op.and acc k ≡ ok (Data.op t Op.and acc k Data.none))
        × (wide_operand (Data.op t Op.and acc k Data.none) ≡ true)
  unfolding op_binary eval unum2_eval mix_types type_of has_op integer_number ip_address same_type
  op_binary-mask (Data.op DataType.unum o a b c) (Data.unum m) h v = (DataType.unum, refl, refl)
  op_binary-mask (Data.op DataType.unum o a b c) (Data.ipv6 m) h v = (DataType.ipv6, refl, refl)
  op_binary-mask (Data.op DataType.ipv6 o a b c) (Data.unum m) h v = (DataType.ipv6, refl, refl)
  op_binary-mask (Data.op DataType.ipv6 o a b c) (Data.ipv6 m) h v = (DataType.ipv6, refl, refl)
  op_binary-mask d k h v = cc

  pub op_binary-eq_made :
      (acc k : Data)
      → wide_operand acc ≡ true
      → is_number k ≡ true
      → op_binary fp Op.eq acc k ≡ ok (Data.op DataType.unum Op.eq acc k Data.none)
  unfolding op_binary eval rel_eval mix_types type_of has_op integer_number untyped_number same_type
  op_binary-eq_made (Data.op DataType.unum o a b c) (Data.unum m) h v = refl
  op_binary-eq_made (Data.op DataType.unum o a b c) (Data.ipv6 m) h v = refl
  op_binary-eq_made (Data.op DataType.ipv6 o a b c) (Data.unum m) h v = refl
  op_binary-eq_made (Data.op DataType.ipv6 o a b c) (Data.ipv6 m) h v = refl
  op_binary-eq_made d k h v = cc

  pub bit_test-ok :
      (acc : Data) (n : ℕ) (val : Data)
      → wide_operand acc ≡ true
      → is_number val ≡ true
      → (t : DataType) × (bit_test fp acc n val
          ≡ ok (
              Data.op DataType.unum Op.eq
                (Data.op t Op.and acc (set_nth_bit n) Data.none)
                val
                Data.none))
  unfolding bit_test
  bit_test-ok acc n val h v =
      let (t, made, wide) = op_binary-mask acc (set_nth_bit n) h (set_nth_bit-is_number n) in
      (
        t,
        rw (made, op_binary-eq_made (Data.op t Op.and acc (set_nth_bit n) Data.none) val wide v)
            refl,
      )

module _ (fp : Doubles) where
  abbrev pub Junction : (o : Op) (d : Data) (k : ℕ) → Type 0
  Junction o d k =
      op_binary fp o d (Data.unum k) ≡ ok (Data.op DataType.unum o d (Data.unum k) Data.none)

  pub op_binary-Junction :
      (with_and : Bool) (d : Data) (k : ℕ)
      → wide_operand d ≡ true
      → Junction (if with_and then Op.logical_and else Op.logical_or) d k
  unfolding op_binary eval and_or_eval type_of has_op integer_number same_type
  op_binary-Junction true (Data.op DataType.unum o a b c) k h = refl
  op_binary-Junction true (Data.op DataType.ipv6 o a b c) k h = refl
  op_binary-Junction false (Data.op DataType.unum o a b c) k h = refl
  op_binary-Junction false (Data.op DataType.ipv6 o a b c) k h = refl
  op_binary-Junction v d k h = cc

-- A digit is what a test of that bit asks for.
abbrev pub asked : Bool → ℕ → ℕ → Bool
asked invert x n = if invert then digit x n else not (digit x n)

bit_set : (b q p : ℕ) → b ≡ q * p → q < 2 → 0 < p → (b == p) ≡ not (q == 0)
bit_set b zero p e h pos = ground arith
bit_set b (suc zero) p e h pos = ground arith
bit_set b (suc (suc q)) p e h pos = absurd (omega arith)

bit_clear : (b q p : ℕ) → b ≡ q * p → q < 2 → 0 < p → (b == 0) ≡ not (not (q == 0))
bit_clear b zero p e h pos = ground arith
bit_clear b (suc zero) p e h pos = ground arith
bit_clear b (suc (suc q)) p e h pos = absurd (omega arith)

asked_bit :
    (invert : Bool) (x n : ℕ)
    → (bit_and x (2 ^ n) == (if invert then 2 ^ n else 0)) ≡ asked invert x n
asked_bit true x n =
    bit_set (bit_and x (2 ^ n)) (x / 2 ^ n % 2) (2 ^ n) (and_bit n x) (omega arith)
      (one-le-pow n 2 (omega arith))
asked_bit false x n =
    bit_clear (bit_and x (2 ^ n)) (x / 2 ^ n % 2) (2 ^ n) (and_bit n x) (omega arith)
      (one-le-pow n 2 (omega arith))

module _ {S : Type 0} (field : Data → S → ℕ) (test : Data → S → Bool) (charge : Data → S → S) where
  pub number-set_nth_bit :
      (n : ℕ) (s : S) → n < 128 → number field test charge (set_nth_bit n) s ≡ 2 ^ n
  unfolding set_nth_bit number u128_from_32
  number-set_nth_bit n s h = elim (Bool-cases (ltb n 32)) [
    | inl low ↦ rw low refl
    | inr high ↦
        let one_is : value (u128_from_32 1) ≡ 1 = refl in
        let shifted = value-u128_shift_left (u128_from_32 1) n one-IsU128 in
        rw high (shifted ∙ omega (arith, one_is, pow-lt n 128 h))
  ]

  number-asked :
      (invert : Bool) (n : ℕ) (s : S)
      → n < 128
      → number field test charge (if invert then set_nth_bit n else Data.unum 0) s
        ≡ (if invert then 2 ^ n else 0)
  number-asked true n s h = number-set_nth_bit n s h
  number-asked false n s h = unfold number in refl

  pub run-bit_test :
      (acc : Data) (invert : Bool) (n : ℕ) (t : DataType) (s : S)
      → n < 128
      → run field test charge
          (Data.op DataType.unum Op.eq
            (Data.op t Op.and acc (set_nth_bit n) Data.none)
            (if invert then set_nth_bit n else Data.unum 0)
            Data.none)
          s
        ≡ truth (asked invert (number field test charge acc s) n) s
  unfolding run number
  run-bit_test acc invert n t s h =
      rw (number-set_nth_bit n s h, number-asked invert n s h)
        (ap (λ v. truth v s) (asked_bit invert (number field test charge acc s) n))
