-- ===== src/U128/Value.antt =====
-- The number that the four words of shared/u128.c stand for.
use tcng.Common.{ℕ, ◌+◌, ◌*◌, ◌^◌, ◌<◌, ◌≡◌, arith}
use tcng.U128.{U128}

-- Every word fits 32 bits, as `uint32_t` guarantees.
pub record IsU128 (a : U128) : Type 0 where
  pub w0 : a.v0 < 2 ^ 32
  pub w1 : a.v1 < 2 ^ 32
  pub w2 : a.v2 < 2 ^ 32
  pub w3 : a.v3 < 2 ^ 32

abbrev pub value : U128 → ℕ
value a = a.v0 + a.v1 * 2 ^ 32 + a.v2 * 2 ^ 64 + a.v3 * 2 ^ 96

-- Two integers of one value are one.
pub value-injective : (a b : U128) → IsU128 a → IsU128 b → value a ≡ value b → a ≡ b
value-injective a b ha hb h = ground arith

pub value-lt : (a : U128) → IsU128 a → value a < 2 ^ 128
value-lt a ha = omega arith
