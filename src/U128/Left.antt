-- ===== src/U128/Left.antt =====
-- u128_shift_left of shared/u128.c, against multiplication by a power of two.
use tcng.Common.{ℕ, zero, suc, ◌+◌, ◌-◌, ◌*◌, ◌/◌, ◌%◌, ◌^◌, ◌<◌, ◌≤◌, ◌≡◌, arith, ap, sym}
use tcng.Common.{true, false, if◌then◌else◌, ◌==◌, not, ◌&&◌, bit_or}
use tcng.Common.Bits.{bit_or_above, bit_or_below}
use tcng.U128.{U128, u32, word, put, left_word, left_loop, clear_below, u128_shift_left}
use tcng.U128.Value.{IsU128, value}
use native.Mathlib.Nat.{
  pow-suc, zero-add, one-le-pow, div-add-mod', mod-lt, mul-le-mul_right, div-lt_iff_lt-mul,
  mul-mod_left,
}

pub pow-add : (k m : ℕ) → 2 ^ (k + m) ≡ 2 ^ k * 2 ^ m
pow-add zero m = rw zero-add (omega arith)
pow-add (suc k) m =
    let e : suc k + m ≡ suc (k + m) = omega arith in
    rw e (omega (arith, pow-suc 2 (k + m), ap (λ (t : ℕ). t * 2 ^ m) (pow-suc 2 k), pow-add k m))

pub two_parts : (bits : ℕ) → bits < 32 → 2 ^ bits * 2 ^ (32 - bits) ≡ 2 ^ 32
two_parts bits h = let e : bits + (32 - bits) ≡ 32 = omega arith in rw (← pow-add, e)

-- The two words that a shifted word is spread over.
module _ (p q x : ℕ) (parts : p * q ≡ 2 ^ 32) (pos : 0 < p) (pos' : 0 < q) where
  spread : x * p ≡ x / q * 2 ^ 32 + x % q * p
  spread = omega (arith, ap (λ (t : ℕ). t * p) (div-add-mod' x q), ap (λ (t : ℕ). x / q * t) parts)

  low_lt : x % q * p + p ≤ 2 ^ 32
  low_lt = omega (arith, mul-le-mul_right p (mod-lt x pos'), parts)

  spread_low : u32 (x * p) ≡ x % q * p
  spread_low = omega (arith, spread, low_lt, pos)

  high_lt : x < 2 ^ 32 → x / q < p
  high_lt h = (div-lt_iff_lt-mul pos').1 (omega (arith, parts))

abbrev pub lo : ℕ → ℕ → ℕ
lo bits x = u32 (x * 2 ^ bits)

abbrev pub hi : ℕ → ℕ → ℕ
hi bits x = x / 2 ^ (32 - bits)

module _ (bits x y : ℕ) (small : bits < 32) (hy : y < 2 ^ 32) where
  pos : (k : ℕ) → 0 < 2 ^ k
  pos k = one-le-pow k 2 (omega arith)

  low_is : lo bits x ≡ x % 2 ^ (32 - bits) * 2 ^ bits
  low_is = spread_low (2 ^ bits) (2 ^ (32 - bits)) x (two_parts bits small) (pos _) (pos _)

  pub lo-hi : x * 2 ^ bits ≡ hi bits x * 2 ^ 32 + lo bits x
  lo-hi =
      omega (
        arith,
        spread (2 ^ bits) (2 ^ (32 - bits)) x (two_parts bits small) (pos _) (pos _),
        low_is,
      )

  hi_fits : hi bits y < 2 ^ bits
  hi_fits = high_lt (2 ^ bits) (2 ^ (32 - bits)) y (two_parts bits small) (pos _) (pos _) hy

  pub lo_add_hi-lt : lo bits x + hi bits y < 2 ^ 32
  lo_add_hi-lt = omega (
    arith,
    low_lt (2 ^ bits) (2 ^ (32 - bits)) x (two_parts bits small) (pos _) (pos _),
    low_is,
    hi_fits,
  )

  merge : bit_or (lo bits x) (hi bits y) ≡ lo bits x + hi bits y
  merge = rw low_is (bit_or_above bits (x % 2 ^ (32 - bits)) (hi bits y) hi_fits)

  pub merge_below : bit_or (hi bits y) (lo bits x) ≡ hi bits y + lo bits x
  merge_below = rw low_is (bit_or_below bits (x % 2 ^ (32 - bits)) (hi bits y) hi_fits)

  -- With a shift by whole words nothing comes over from the word below.
  merge_if :
      (if not (bits == 0) && true then bit_or (lo bits x) (hi bits y) else lo bits x)
      ≡ lo bits x + hi bits y
  merge_if = ground (arith, merge, hi_fits, low_is)

pub alone : (bits high other : ℕ) → (if not (bits == 0) && false then other else high) ≡ high
alone bits high other = ground arith

hi-zero : (y : ℕ) → y < 2 ^ 32 → hi 0 y ≡ 0
hi-zero y h = omega arith

module _ (a : U128) (bits : ℕ) (ha : IsU128 a) (small : bits < 32) where
  left_0 : left_loop 4 0 bits a ≡ record {
    v0 = lo bits a.v0;
    v1 = lo bits a.v1 + hi bits a.v0;
    v2 = lo bits a.v2 + hi bits a.v1;
    v3 = lo bits a.v3 + hi bits a.v2;
  }
  unfolding left_loop left_word put word clear_below
  left_0 = λ i. record {
    v0 = alone bits (lo bits a.v0) (bit_or (lo bits a.v0) (hi bits a.v0)) i;
    v1 = merge_if bits a.v1 a.v0 small ha.w0 i;
    v2 = merge_if bits a.v2 a.v1 small ha.w1 i;
    v3 = merge_if bits a.v3 a.v2 small ha.w2 i;
  }

  left_1 : left_loop 4 1 bits a ≡ record {
    v0 = 0;
    v1 = lo bits a.v0;
    v2 = lo bits a.v1 + hi bits a.v0;
    v3 = lo bits a.v2 + hi bits a.v1;
  }
  unfolding left_loop left_word put word clear_below
  left_1 = λ i. record {
    v0 = 0;
    v1 = alone bits (lo bits a.v0) (bit_or (lo bits a.v0) (hi bits a.v0)) i;
    v2 = merge_if bits a.v1 a.v0 small ha.w0 i;
    v3 = merge_if bits a.v2 a.v1 small ha.w1 i;
  }

  left_2 :
      left_loop 4 2 bits a
      ≡ record { v0 = 0; v1 = 0; v2 = lo bits a.v0; v3 = lo bits a.v1 + hi bits a.v0 }
  unfolding left_loop left_word put word clear_below
  left_2 = λ i. record {
    v0 = 0;
    v1 = 0;
    v2 = alone bits (lo bits a.v0) (bit_or (lo bits a.v0) (hi bits a.v0)) i;
    v3 = merge_if bits a.v1 a.v0 small ha.w0 i;
  }

  left_3 : left_loop 4 3 bits a ≡ record { v0 = 0; v1 = 0; v2 = 0; v3 = lo bits a.v0 }
  unfolding left_loop left_word put word clear_below
  left_3 = λ i. record {
    v0 = 0;
    v1 = 0;
    v2 = 0;
    v3 = alone bits (lo bits a.v0) (bit_or (lo bits a.v0) (hi bits a.v0)) i;
  }

left_4 :
    (a : U128) (n bits : ℕ)
    → left_loop 4 (suc (suc (suc (suc n)))) bits a ≡ record { v0 = 0; v1 = 0; v2 = 0; v3 = 0 }
unfolding left_loop put clear_below
left_4 a n bits = ground arith

beyond : (x m p n : ℕ) → n ≡ m + 128 → x * (2 ^ n * p) % 2 ^ 128 ≡ 0
beyond x m p n e =
    let whole : x * (2 ^ n * p) ≡ x * 2 ^ m * p * 2 ^ 128 = rw (e, pow-add m 128) (omega arith) in
    rw whole (mul-mod_left (x * 2 ^ m * p) (2 ^ 128))

module _ (a : U128) (bits : ℕ) (ha : IsU128 a) (small : bits < 32) where
  scaled_up :
      value a * 2 ^ bits
      ≡ lo bits a.v0
        + (lo bits a.v1 + hi bits a.v0) * 2 ^ 32
        + (lo bits a.v2 + hi bits a.v1) * 2 ^ 64
        + (lo bits a.v3 + hi bits a.v2) * 2 ^ 96
        + hi bits a.v3 * 2 ^ 128
  scaled_up = omega (
    arith,
    lo-hi bits a.v0 0 small (omega arith),
    lo-hi bits a.v1 0 small (omega arith),
    lo-hi bits a.v2 0 small (omega arith),
    lo-hi bits a.v3 0 small (omega arith),
  )

  bound : (x y : ℕ) → y < 2 ^ 32 → lo bits x + hi bits y < 2 ^ 32
  bound x y hy = lo_add_hi-lt bits x y small hy

  value-left_loop :
      (words : ℕ)
      → value (left_loop 4 words bits a) ≡ value a * (2 ^ (32 * words) * 2 ^ bits) % 2 ^ 128
  value-left_loop zero = rw (left_0 a bits ha small) (
      omega (arith, scaled_up, bound a.v1 a.v0 ha.w0, bound a.v2 a.v1 ha.w1, bound a.v3 a.v2 ha.w2))
  value-left_loop (suc zero) =
      rw (left_1 a bits ha small)
        (omega (arith, scaled_up, bound a.v1 a.v0 ha.w0, bound a.v2 a.v1 ha.w1))
  value-left_loop (suc (suc zero)) =
      rw (left_2 a bits ha small) (omega (arith, scaled_up, bound a.v1 a.v0 ha.w0))
  value-left_loop (suc (suc (suc zero))) = rw (left_3 a bits ha small) (omega (arith, scaled_up))
  value-left_loop (suc (suc (suc (suc n)))) =
      rw (left_4 a n bits) (sym (beyond (value a) (32 * n) (2 ^ bits) _ (omega arith)))

  low_fits : (x : ℕ) → lo bits x < 2 ^ 32
  low_fits x = omega arith

  left_loop-IsU128 : (words : ℕ) → IsU128 (left_loop 4 words bits a)
  left_loop-IsU128 zero = rw (left_0 a bits ha small) (
      omega
        (arith, low_fits a.v0, bound a.v1 a.v0 ha.w0, bound a.v2 a.v1 ha.w1, bound a.v3 a.v2 ha.w2))
  left_loop-IsU128 (suc zero) =
      rw (left_1 a bits ha small)
        (omega (arith, low_fits a.v0, bound a.v1 a.v0 ha.w0, bound a.v2 a.v1 ha.w1))
  left_loop-IsU128 (suc (suc zero)) =
      rw (left_2 a bits ha small) (omega (arith, low_fits a.v0, bound a.v1 a.v0 ha.w0))
  left_loop-IsU128 (suc (suc (suc zero))) =
      rw (left_3 a bits ha small) (omega (arith, low_fits a.v0))
  left_loop-IsU128 (suc (suc (suc (suc n)))) = rw (left_4 a n bits) (omega arith)

-- For a number of four 32 bit words and any shift count b, 128 and more included,
-- u128_shift_left multiplies by 2 ^ b modulo 2 ^ 128.
pub value-u128_shift_left :
    (a : U128) (b : ℕ) → IsU128 a → value (u128_shift_left a b) ≡ value a * 2 ^ b % 2 ^ 128
unfolding u128_shift_left
value-u128_shift_left a b ha =
    let e : 2 ^ b ≡ 2 ^ (32 * (b / 32)) * 2 ^ (b % 32) =
      sym (rw (← pow-add) (ap (λ (t : ℕ). 2 ^ t) (omega arith))) in
    rw e (value-left_loop a (b % 32) ha (omega arith) (b / 32))

pub u128_shift_left-IsU128 : (a : U128) (b : ℕ) → IsU128 a → IsU128 (u128_shift_left a b)
unfolding u128_shift_left
u128_shift_left-IsU128 a b ha = left_loop-IsU128 a (b % 32) ha (omega arith) (b / 32)
