-- ===== src/U128/Right.antt =====
-- u128_shift_right of shared/u128.c, against division by a power of two.
use tcng.Common.{ℕ, zero, suc, ◌+◌, ◌-◌, ◌*◌, ◌/◌, ◌%◌, ◌^◌, ◌<◌, ◌≤◌, ◌≡◌, arith, ap, sym, ◌∙◌}
use tcng.Common.{true, if◌then◌else◌, ◌==◌, not, ◌&&◌, bit_or}
use tcng.U128.{U128, u32, word, put, right_word, right_loop, clear_above, u128_shift_right}
use tcng.U128.Value.{IsU128, value, value-lt}
use tcng.U128.Left.{pow-add, two_parts, lo-hi, lo_add_hi-lt, merge_below, alone}
use native.Mathlib.Decide.{dec_lt}
use native.Mathlib.Nat.{mul-div-mul_right, div-eq_of_lt, one-le-pow, mul-le-mul}

-- What stays in a word, and what comes over from the word above.
abbrev kept : ℕ → ℕ → ℕ
kept bits x = x / 2 ^ bits

abbrev moved : ℕ → ℕ → ℕ
moved bits x = u32 (x * 2 ^ (32 - bits))

module _ (bits x y : ℕ) (small : bits < 32) (hx : x < 2 ^ 32) where
  kept-moved : x * 2 ^ (32 - bits) ≡ kept bits x * 2 ^ 32 + moved bits x
  kept-moved = elim (dec_lt 0 bits) [
    | yes h ↦
        let e : 32 - (32 - bits) ≡ bits = omega arith in
        let l = lo-hi (32 - bits) x 0 (omega arith) (omega arith) in rw e at l
    | no h ↦ let e : bits ≡ 0 = omega arith in rw e (omega arith)
  ]

  join :
      (if not (bits == 0) && true then bit_or (kept bits x) (moved bits y) else kept bits x)
      ≡ kept bits x + moved bits y
  join = elim (dec_lt 0 bits) [
    | yes h ↦
        let e : 32 - (32 - bits) ≡ bits = omega arith in
        let m = merge_below (32 - bits) y x (omega arith) hx in
        let m' : bit_or (kept bits x) (moved bits y) ≡ kept bits x + moved bits y = rw e at m in
        ground (arith, m')
    | no h ↦ let e : bits ≡ 0 = omega arith in rw e (omega arith)
  ]

module _ (a : U128) (bits : ℕ) (ha : IsU128 a) (small : bits < 32) where
  right_0 : right_loop 4 0 0 bits a ≡ record {
    v0 = kept bits a.v0 + moved bits a.v1;
    v1 = kept bits a.v1 + moved bits a.v2;
    v2 = kept bits a.v2 + moved bits a.v3;
    v3 = kept bits a.v3;
  }
  unfolding right_loop right_word put word clear_above
  right_0 = λ i. record {
    v0 = join bits a.v0 a.v1 small ha.w0 i;
    v1 = join bits a.v1 a.v2 small ha.w1 i;
    v2 = join bits a.v2 a.v3 small ha.w2 i;
    v3 = alone bits (kept bits a.v3) (bit_or (kept bits a.v3) (moved bits a.v3)) i;
  }

  right_1 : right_loop 4 0 1 bits a ≡ record {
    v0 = kept bits a.v1 + moved bits a.v2;
    v1 = kept bits a.v2 + moved bits a.v3;
    v2 = kept bits a.v3;
    v3 = 0;
  }
  unfolding right_loop right_word put word clear_above
  right_1 = λ i. record {
    v0 = join bits a.v1 a.v2 small ha.w1 i;
    v1 = join bits a.v2 a.v3 small ha.w2 i;
    v2 = alone bits (kept bits a.v3) (bit_or (kept bits a.v3) (moved bits a.v3)) i;
    v3 = 0;
  }

  right_2 :
      right_loop 4 0 2 bits a
      ≡ record { v0 = kept bits a.v2 + moved bits a.v3; v1 = kept bits a.v3; v2 = 0; v3 = 0 }
  unfolding right_loop right_word put word clear_above
  right_2 = λ i. record {
    v0 = join bits a.v2 a.v3 small ha.w2 i;
    v1 = alone bits (kept bits a.v3) (bit_or (kept bits a.v3) (moved bits a.v3)) i;
    v2 = 0;
    v3 = 0;
  }

  right_3 : right_loop 4 0 3 bits a ≡ record { v0 = kept bits a.v3; v1 = 0; v2 = 0; v3 = 0 }
  unfolding right_loop right_word put word clear_above
  right_3 = λ i. record {
    v0 = alone bits (kept bits a.v3) (bit_or (kept bits a.v3) (moved bits a.v3)) i;
    v1 = 0;
    v2 = 0;
    v3 = 0;
  }

right_4 :
    (a : U128) (n bits : ℕ)
    → right_loop 4 0 (suc (suc (suc (suc n)))) bits a ≡ record { v0 = 0; v1 = 0; v2 = 0; v3 = 0 }
unfolding right_loop put clear_above
right_4 a n bits = ground arith

-- A shift by 128 bits or more leaves nothing.
nothing_left :
    (v bits m n : ℕ)
    → v < 2 ^ 128
    → bits < 32
    → n ≡ m + 128
    → v * 2 ^ (32 - bits) / (2 ^ n * 2 ^ 32) ≡ 0
nothing_left v bits m n hv small e = div-eq_of_lt (
    rw (e, pow-add m 128)
      (grind (
        arith,
        parts,
        one-le-pow bits 2 (omega arith),
        mul-le-mul hv' (small_part),
        one-le-pow m 2 (omega arith),
      )))
  where
    parts : 2 ^ bits * 2 ^ (32 - bits) ≡ 2 ^ 32
    parts = two_parts bits small

    hv' : v ≤ 2 ^ 128 - 1
    hv' = omega arith

    small_part : 2 ^ (32 - bits) ≤ 2 ^ 32
    small_part = grind (arith, parts, one-le-pow bits 2 (omega arith))

module _ (a : U128) (bits : ℕ) (ha : IsU128 a) (small : bits < 32) where
  scaled_down :
      value a * 2 ^ (32 - bits)
      ≡ moved bits a.v0
        + (kept bits a.v0 + moved bits a.v1) * 2 ^ 32
        + (kept bits a.v1 + moved bits a.v2) * 2 ^ 64
        + (kept bits a.v2 + moved bits a.v3) * 2 ^ 96
        + kept bits a.v3 * 2 ^ 128
  scaled_down = omega (
    arith,
    kept-moved bits a.v0 0 small ha.w0,
    kept-moved bits a.v1 0 small ha.w1,
    kept-moved bits a.v2 0 small ha.w2,
    kept-moved bits a.v3 0 small ha.w3,
  )

  bound : (x y : ℕ) → x < 2 ^ 32 → y < 2 ^ 32 → kept bits x + moved bits y < 2 ^ 32
  bound x y hx hy = elim (dec_lt 0 bits) [
    | yes h ↦
        let e : 32 - (32 - bits) ≡ bits = omega arith in
        let l = lo_add_hi-lt (32 - bits) y x (omega arith) hx in
        let l' : moved bits y + kept bits x < 2 ^ 32 = rw e at l in omega arith
    | no h ↦ let e : bits ≡ 0 = omega arith in rw e (omega arith)
  ]

  value-right_loop :
      (words : ℕ)
      → value (right_loop 4 0 words bits a)
        ≡ value a * 2 ^ (32 - bits) / (2 ^ (32 * words) * 2 ^ 32)
  value-right_loop zero = rw (right_0 a bits ha small) (omega (arith, scaled_down))
  value-right_loop (suc zero) =
      rw (right_1 a bits ha small) (omega (arith, scaled_down, bound a.v0 a.v1 ha.w0 ha.w1))
  value-right_loop (suc (suc zero)) =
      rw (right_2 a bits ha small)
        (omega (arith, scaled_down, bound a.v0 a.v1 ha.w0 ha.w1, bound a.v1 a.v2 ha.w1 ha.w2))
  value-right_loop (suc (suc (suc zero))) = rw (right_3 a bits ha small) (
      omega (
        arith,
        scaled_down,
        bound a.v0 a.v1 ha.w0 ha.w1,
        bound a.v1 a.v2 ha.w1 ha.w2,
        bound a.v2 a.v3 ha.w2 ha.w3,
      ))
  value-right_loop (suc (suc (suc (suc n)))) =
      rw (right_4 a n bits)
        (sym (nothing_left (value a) bits (32 * n) _ (value-lt a ha) small (omega arith)))

  b01 : kept bits a.v0 + moved bits a.v1 < 2 ^ 32
  b01 = bound a.v0 a.v1 ha.w0 ha.w1

  b12 : kept bits a.v1 + moved bits a.v2 < 2 ^ 32
  b12 = bound a.v1 a.v2 ha.w1 ha.w2

  b23 : kept bits a.v2 + moved bits a.v3 < 2 ^ 32
  b23 = bound a.v2 a.v3 ha.w2 ha.w3

  b3 : kept bits a.v3 < 2 ^ 32
  b3 = omega (arith, bound a.v3 0 ha.w3)

  right_loop-IsU128 : (words : ℕ) → IsU128 (right_loop 4 0 words bits a)
  right_loop-IsU128 zero = rw (right_0 a bits ha small) (omega (arith, b01, b12, b23, b3))
  right_loop-IsU128 (suc zero) = rw (right_1 a bits ha small) (omega (arith, b12, b23, b3))
  right_loop-IsU128 (suc (suc zero)) = rw (right_2 a bits ha small) (omega (arith, b23, b3))
  right_loop-IsU128 (suc (suc (suc zero))) = rw (right_3 a bits ha small) (omega (arith, b3))
  right_loop-IsU128 (suc (suc (suc (suc n)))) = rw (right_4 a n bits) (omega arith)

-- For a number of four 32 bit words and any shift count b, 128 and more included,
-- u128_shift_right divides by 2 ^ b and rounds down.
pub value-u128_shift_right :
    (a : U128) (b : ℕ) → IsU128 a → value (u128_shift_right a b) ≡ value a / 2 ^ b
unfolding u128_shift_right
value-u128_shift_right a b ha =
    let bits = b % 32 in
    let e : 2 ^ b * 2 ^ (32 - bits) ≡ 2 ^ (32 * (b / 32)) * 2 ^ 32 =
      sym (pow-add b (32 - bits))
      ∙ ap (λ (t : ℕ). 2 ^ t) (omega arith)
      ∙ pow-add (32 * (b / 32)) 32 in
    value-right_loop a bits ha (omega arith) (b / 32)
    ∙ rw (← e) (mul-div-mul_right (value a) (2 ^ b) (one-le-pow (32 - bits) 2 (omega arith)))

pub u128_shift_right-IsU128 : (a : U128) (b : ℕ) → IsU128 a → IsU128 (u128_shift_right a b)
unfolding u128_shift_right
u128_shift_right-IsU128 a b ha = right_loop-IsU128 a (b % 32) ha (omega arith) (b / 32)
