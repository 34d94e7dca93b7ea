-- ===== src/Op/Shifts.antt =====
-- `<<` and `>>` of tcc/op.c on constants.
use tcng.Common.{ℕ, ◌+◌, ◌-◌, ◌*◌, ◌/◌, ◌^◌, ◌<◌, ◌≤◌, ◌≡◌, ◌≢◌, ◌↔◌, ◌⊎◌, arith, ok, err, Error}
use tcng.Common.{true, if◌then◌else◌, ltb, ap, sym, ◌∙◌, inl, inr}
use tcng.U128.{U128, u128_is_zero, u128_shift_left, u128_shift_right, sub32}
use tcng.U128.Value.{IsU128, value}
use tcng.U128.Left.{value-u128_shift_left, pow-add}
use tcng.U128.Right.{value-u128_shift_right}
use tcng.U128.Compare.{u128_is_zero_iff}
use tcng.Data.{Data, Op, Doubles}
use tcng.Op.Integer.{shift_left_32, shift_left_128, shift_eval}
use tcng.Op.Eval.{eval, op_binary}
use native.Mathlib.Decide.{dec_lt}
use native.Mathlib.Nat.{div-lt_iff_lt-mul, one-le-pow, mul-le-mul_right, div-eq_of_lt, mod-eq_of_lt}

-- No bit is lost exactly when the product fits.
fits_iff : (w a b : ℕ) → b ≤ w → (a / 2 ^ (w - b) < 1) ↔ (a * 2 ^ b < 2 ^ w)
fits_iff w a b h =
    let q = 2 ^ (w - b) in
    let p = 2 ^ b in
    let sum : w ≡ b + (w - b) = omega arith in
    let e : 2 ^ w ≡ p * q = ap (λ (t : ℕ). 2 ^ t) sum ∙ pow-add b (w - b) in
    let pos : 0 < q = one-le-pow (w - b) 2 (omega arith) in
    let pos' : 0 < p = one-le-pow b 2 (omega arith) in
    elim (dec_lt a q) [
      | yes small ↦ (
        λ _. rw e (omega (arith, mul-le-mul_right p small, pos')),
        λ _. (div-lt_iff_lt-mul pos).1 (omega arith),
      )
      | no large ↦ (
        λ one. absurd (large (omega (arith, (div-lt_iff_lt-mul pos).0 one))),
        λ fits. absurd (not_fits p q (mul-le-mul_right p (omega arith)) (rw e at fits)),
      )
    ]
  where
    not_fits : (p q : ℕ) → q * p ≤ a * p → ¬ (a * p < p * q)
    not_fits p q h = omega arith

pow-le : (m n : ℕ) → m ≤ n → 2 ^ m ≤ 2 ^ n
pow-le m n h =
    let sum : n ≡ m + (n - m) = omega arith in
    let e : 2 ^ n ≡ 2 ^ m * 2 ^ (n - m) = ap (λ (t : ℕ). 2 ^ t) sum ∙ pow-add m (n - m) in
    rw e (le_mul (2 ^ m) (2 ^ (n - m)) (one-le-pow (n - m) 2 (omega arith)))
  where
    le_mul : (x y : ℕ) → 0 < y → x ≤ x * y
    le_mul x y h = grind arith

fits_big : (a p : ℕ) → 2 ^ 32 ≤ p → a ≢ 0 → 2 ^ 32 ≤ a * p
fits_big a p h n = grind arith

-- A left shift of a 32 bit constant is exact, or the error "left shift overflows 32 bit range".
shift_left_32_lem :
    (a b : ℕ)
    → a < 2 ^ 32
    → (b < 32) ⊎ (a ≢ 0)
    → shift_left_32 a b
      ≡ (if ltb (a * 2 ^ b) (2 ^ 32) then ok (a * 2 ^ b) else err Error.out_of_range)
unfolding shift_left_32
shift_left_32_lem a b ha defined = elim (dec_lt b 32) [
  | yes h ↦ ground (arith, fits_iff 32 a b (omega arith), one-le-pow (32 - b) 2 (omega arith))
  | no h ↦
      let whole : 2 ^ 32 ≤ 2 ^ b = pow-le 32 b (omega arith) in
      ground (arith, fits_big a (2 ^ b) whole)
]

module _ (a : U128) (b : ℕ) (ha : IsU128 a) (hb : b < 2 ^ 32) where
  -- What `128-b` shifts out to the right, also where it wraps.
  spilled : u128_is_zero (u128_shift_right a (sub32 128 b)) ≡ true ↔ (value a / 2 ^ sub32 128 b ≡ 0)
  spilled =
      let z = u128_is_zero_iff (u128_shift_right a (sub32 128 b)) in
      let v = value-u128_shift_right a (sub32 128 b) ha in (λ h. sym v ∙ z.0 h, λ h. z.1 (v ∙ h))

  shift_left_128_ok : value a * 2 ^ b < 2 ^ 128 → shift_left_128 a b ≡ ok (u128_shift_left a b)
  unfolding shift_left_128
  shift_left_128_ok fits = elim (dec_lt b 128) [
    | yes h ↦
        let e : sub32 128 b ≡ 128 - b = omega arith in
        let small : value a / 2 ^ (128 - b) < 1 = (fits_iff 128 (value a) b (omega arith)).1 fits in
        let zero_quotient : value a / 2 ^ sub32 128 b ≡ 0 = rw e (omega arith) in
        ground (arith, spilled.1 zero_quotient)
    | no h ↦
        let none_left : value a ≡ 0 = zero_of (value a) (2 ^ b) (pow-le 128 b (omega arith)) fits in
        let zero_quotient : value a / 2 ^ sub32 128 b ≡ 0 =
          rw none_left (div-eq_of_lt (one-le-pow (sub32 128 b) 2 (omega arith))) in
        ground (arith, spilled.1 zero_quotient, (u128_is_zero_iff a).1 none_left)
  ]
    where
      zero_of : (v p : ℕ) → 2 ^ 128 ≤ p → v * p < 2 ^ 128 → v ≡ 0
      zero_of v p h k = grind arith

  shift_left_128_err : 2 ^ 128 ≤ value a * 2 ^ b → shift_left_128 a b ≡ err Error.out_of_range
  unfolding shift_left_128
  shift_left_128_err large = elim (dec_lt b 128) [
    | yes h ↦
        let e : sub32 128 b ≡ 128 - b = omega arith in
        let bits_lost : value a / 2 ^ sub32 128 b ≢ 0 = rw e (λ z.
          lt_le (value a * 2 ^ b) ((fits_iff 128 (value a) b (omega arith)).0 (omega arith))
            large) in
        ground (arith, spilled, bits_lost)
    | no h ↦
        let some_left : value a ≢ 0 = λ z. zero_le (value a) (2 ^ b) z large in
        ground (arith, u128_is_zero_iff a, some_left)
  ]
    where
      lt_le : (x : ℕ) → x < 2 ^ 128 → 2 ^ 128 ≤ x → ⊥
      lt_le x h k = omega arith

      zero_le : (v p : ℕ) → v ≡ 0 → 2 ^ 128 ≤ v * p → ⊥
      zero_le v p z h = grind arith

module _ (fp : Doubles) where
  -- For a 32 bit integer a, and a shift count below 32 or an a other than 0, `<<` is the exact
  -- product by the power of two where it fits 32 bits, and the range error where it does not.
  pub op_binary-shift_left :
      (a b : ℕ)
      → a < 2 ^ 32
      → (b < 32) ⊎ (a ≢ 0)
      → op_binary fp Op.shift_left (Data.unum a) (Data.unum b)
        ≡ (if ltb (a * 2 ^ b) (2 ^ 32) then ok (Data.unum (a * 2 ^ b)) else err Error.out_of_range)
  unfolding op_binary eval shift_eval
  op_binary-shift_left a b ha defined = ground (arith, shift_left_32_lem a b ha defined)

  -- For an IPv6 address of four 32 bit words and a 32 bit shift count, `<<` is the exact product
  -- by the power of two where it fits 128 bits, and the range error where it does not.
  pub op_binary-shift_left_ipv6 :
      (a : U128) (b : ℕ)
      → IsU128 a
      → b < 2 ^ 32
      → ((value a * 2 ^ b < 2 ^ 128)
          × (c : U128) × (op_binary fp Op.shift_left (Data.ipv6 a) (Data.unum b) ≡ ok (Data.ipv6 c))
          × (value c ≡ value a * 2 ^ b))
        ⊎ ((2 ^ 128 ≤ value a * 2 ^ b)
            × (op_binary fp Op.shift_left (Data.ipv6 a) (Data.unum b) ≡ err Error.out_of_range))
  unfolding op_binary eval shift_eval
  op_binary-shift_left_ipv6 a b ha hb = elim (dec_lt (value a * 2 ^ b) (2 ^ 128)) [
    | yes h ↦ inl (
      h,
      u128_shift_left a b,
      ground (arith, shift_left_128_ok a b ha hb h),
      value-u128_shift_left a b ha ∙ mod-eq_of_lt h,
    )
    | no h ↦ inr (omega arith, ground (arith, shift_left_128_err a b ha hb (omega arith)))
  ]

  -- For a 32 bit integer and any shift count, `>>` divides by the power of two and rounds down.
  pub op_binary-shift_right :
      (a b : ℕ)
      → a < 2 ^ 32
      → op_binary fp Op.shift_right (Data.unum a) (Data.unum b) ≡ ok (Data.unum (a / 2 ^ b))
  unfolding op_binary eval shift_eval
  op_binary-shift_right a b ha = elim (dec_lt b 32) [
    | yes h ↦ ground arith
    | no h ↦ ground (arith, gone a (2 ^ b) ha (pow-le 32 b (omega arith)))
  ]
    where
      gone : (x p : ℕ) → x < 2 ^ 32 → 2 ^ 32 ≤ p → x / p ≡ 0
      gone x p h k = div-eq_of_lt (omega arith)
