-- ===== src/Iflib/Not/SingleBit.antt =====
-- single_bit_test of tcc/iflib_not.c, against the value of a masked operand.
use tcng.Common.{ℕ, zero, suc, ◌*◌, ◌/◌, ◌%◌, ◌^◌, ◌<◌, ◌≡◌, ◌≢◌, ap, ◌∙◌, arith}
use tcng.Common.{true, false, not, ◌==◌, some, Bool-cases, inl, inr, ◌⊎◌, bit_and}
use tcng.Common.Digits.{and_bit}
use tcng.U128.{U128, u128_is_zero, u128_and_32, u128_shift_right, u128_from_32, u128_cmp, Cmp}
use tcng.U128.Value.{IsU128, value, value-lt}
use tcng.U128.Right.{value-u128_shift_right, u128_shift_right-IsU128}
use tcng.U128.Compare.{u128_is_zero_iff, u128_cmp-same_iff}
use tcng.Data.{Data, is_same}
use tcng.Iflib.Not.{strip_zeros, inverted_value}
use native.Mathlib.Nat.{pow-suc, one-le-pow}

-- The loop goes on at an even number of one word only.
goes_on :
    (m : U128)
    → u128_is_zero (u128_and_32 m 1) ≡ true
    → (m.v0 % 2 ≡ 0) × (m.v1 ≡ 0) × (m.v2 ≡ 0) × (m.v3 ≡ 0)
unfolding u128_and_32 u128_is_zero
goes_on m e = ground (arith, and_bit 0 m.v0)

-- With as much fuel as digits, the loop takes out a power of two and ends by its test.
strip_zeros_lem :
    (fuel : ℕ) (m : U128)
    → IsU128 m
    → value m ≢ 0
    → value m < 2 ^ fuel
    → (k : ℕ) × (value m ≡ value (strip_zeros fuel m) * 2 ^ k)
      × (u128_is_zero (u128_and_32 (strip_zeros fuel m) 1) ≡ false)
unfolding strip_zeros
strip_zeros_lem zero m h some_bit small = absurd (omega arith)
strip_zeros_lem (suc fuel) m h some_bit small = elim (Bool-cases (u128_is_zero (u128_and_32 m 1))) [
  | inl more ↦
      let shifted : value (u128_shift_right m 1) ≡ value m / 2 = value-u128_shift_right m 1 h in
      let even = goes_on m more in
      let (k, whole, ends) =
        strip_zeros_lem fuel (u128_shift_right m 1) (u128_shift_right-IsU128 m 1 h) (omega arith)
          (omega (arith, pow-suc 2 fuel)) in
      (suc k, rw more (doubled k (value m) _ (omega arith)), rw more ends)
  | inr stop ↦ (0, rw stop (omega arith), rw stop stop)
]
  where
    doubled : (k v t : ℕ) → v ≡ t * 2 ^ k * 2 → v ≡ t * 2 ^ suc k
    doubled k v t e = omega (arith, ap (λ (x : ℕ). t * x) (pow-suc 2 k))

power : (t : U128) (k v : ℕ) → v ≡ value t * 2 ^ k → t ≡ u128_from_32 1 → v ≡ 2 ^ k
unfolding u128_from_32
power t k v whole one =
    let unit : value t ≡ 1 = omega (arith, ap value one) in
    omega (arith, ap (λ (x : ℕ). x * 2 ^ k) unit)

flips :
    (b digit p v n : ℕ)
    → b ≡ digit * p
    → digit < 2
    → 0 < p
    → ((v ≡ 0) × (n ≡ p)) ⊎ ((v ≡ p) × (n ≡ 0))
    → (b == n) ≡ not (b == v)
flips b zero p v n e d pos h = ground arith
flips b (suc zero) p v n e d pos h = ground arith
flips b (suc (suc digit)) p v n e d pos h = absurd (omega arith)

-- A mask that passes the tests has one bit, and the value is 0 or that bit.
passes :
    (d : Data) (mask val : U128) {b' : Data}
    → IsU128 mask
    → inverted_value d mask val ≡ some b'
    → ((k : ℕ) × (value mask ≡ 2 ^ k))
      × (((u128_is_zero val ≡ true) × (b' ≡ d)) ⊎ ((val ≡ mask) × (b' ≡ Data.unum 0)))
unfolding inverted_value is_same
passes d mask val {b'} h e =
    let stripped = strip_zeros 128 mask in
    let nonzero : u128_is_zero mask ≡ false = ground arith in
    let same : u128_cmp stripped (u128_from_32 1) ≡ Cmp.same = ground arith in
    let (k, whole, ends) =
      strip_zeros_lem 128 mask h (ground (arith, u128_is_zero_iff mask)) (value-lt mask h) in
    let single = (u128_cmp-same_iff stripped (u128_from_32 1)).0 same in
    (
      (k, power stripped k (value mask) whole single),
      elim (Bool-cases (u128_is_zero val)) [
        | inl z ↦ inl (z, ground arith)
        | inr nz ↦
            let equal : u128_cmp val mask ≡ Cmp.same = ground arith in
            inr ((u128_cmp-same_iff val mask).0 equal, ground arith)
      ],
    )

-- The test with the operand inverted is the negation of the test.
pub inverted_value_lem :
    (d : Data) (mask val : U128) {b' : Data} (x n : ℕ)
    → IsU128 mask
    → inverted_value d mask val ≡ some b'
    → ((b' ≡ d) → n ≡ value mask)
    → ((b' ≡ Data.unum 0) → n ≡ 0)
    → (bit_and x (value mask) == n) ≡ not (bit_and x (value mask) == value val)
inverted_value_lem d mask val x n h e at_mask at_zero =
    let ((k, m), ends) = passes d mask val h e in
    flips (bit_and x (value mask)) (x / 2 ^ k % 2) (2 ^ k) (value val) n
      (ap (bit_and x) m ∙ and_bit k x) (omega arith) (one-le-pow k 2 (omega arith))
      (elim ends [
        | inl (zero_val, same) ↦ inl ((u128_is_zero_iff val).0 zero_val, at_mask same ∙ m)
        | inr (equal, none_left) ↦ inr (ap value equal ∙ m, at_zero none_left)
      ])
