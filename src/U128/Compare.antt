-- ===== src/U128/Compare.antt =====
-- u128_cmp, u128_is_zero and the conversions from and to 32 bits (shared/u128.c).
use tcng.Common.{ℕ, ◌+◌, ◌*◌, ◌^◌, ◌<◌, ◌≡◌, ◌↔◌, arith, true, ok, err, Error}
use tcng.U128.{U128, Cmp, below, same, above, cmp_word, u128_cmp, u128_is_zero}
use tcng.U128.{u128_from_32, u128_to_32, u128_not}
use tcng.U128.Value.{IsU128, value}

-- The words read in the other order, with `v0` as the most significant one.
abbrev pub mirrored : U128 → ℕ
mirrored a = a.v3 + a.v2 * 2 ^ 32 + a.v1 * 2 ^ 64 + a.v0 * 2 ^ 96

-- What the three results say of two numbers.
abbrev pub Orders : Cmp → ℕ → ℕ → Type 0
Orders below x y = x < y
Orders same x y = x ≡ y
Orders above x y = y < x

-- For numbers of four 32 bit words, u128_cmp orders by the number whose most significant word is
-- `v[0]`.
pub u128_cmp-Orders-mirrored :
    (a b : U128) → IsU128 a → IsU128 b → Orders (u128_cmp a b) (mirrored a) (mirrored b)
unfolding u128_cmp cmp_word
u128_cmp-Orders-mirrored a b ha hb = ground arith

-- u128_cmp tells equal numbers from different ones.
pub u128_cmp-same_iff : (a b : U128) → (u128_cmp a b ≡ same) ↔ (a ≡ b)
unfolding u128_cmp cmp_word
u128_cmp-same_iff a b = ground arith

-- Where the least significant words of two numbers are ordered against their values, the result
-- of u128_cmp is not the order of the values.
pub u128_cmp-not-Orders-value :
    (a b : U128) → a.v0 < b.v0 → value b < value a → ¬ Orders (u128_cmp a b) (value a) (value b)
unfolding u128_cmp cmp_word
u128_cmp-not-Orders-value a b h v = ground arith

-- With equal words above the first, it orders by value.
pub u128_cmp-Orders-value :
    (a b : U128)
    → a.v1 ≡ b.v1
    → a.v2 ≡ b.v2
    → a.v3 ≡ b.v3
    → Orders (u128_cmp a b) (value a) (value b)
unfolding u128_cmp cmp_word
u128_cmp-Orders-value a b e1 e2 e3 = ground arith

pub u128_is_zero_iff : (a : U128) → (u128_is_zero a ≡ true) ↔ (value a ≡ 0)
unfolding u128_is_zero
u128_is_zero_iff a = ground arith

-- u128_to_32 returns n exactly for the number that u128_from_32 makes from n.
pub u128_to_32-from_32_iff : (a : U128) (n : ℕ) → (u128_to_32 a ≡ ok n) ↔ (a ≡ u128_from_32 n)
unfolding u128_to_32 u128_from_32
u128_to_32-from_32_iff a n = ground arith

pub u128_to_32-too_large :
    (a : U128) → IsU128 a → (u128_to_32 a ≡ err Error.too_large) ↔ (2 ^ 32 < value a + 1)
unfolding u128_to_32
u128_to_32-too_large a h = ground arith

pub value-u128_not : (a : U128) → IsU128 a → value (u128_not a) + value a + 1 ≡ 2 ^ 128
unfolding u128_not
value-u128_not a h = omega arith
