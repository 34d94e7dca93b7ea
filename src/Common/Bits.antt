-- ===== src/Common/Bits.antt =====
-- `bit_or` of two numbers that have no digit in common.
use Prim.Native.Nat.{
  ℕ, zero, suc, ◌+◌, ◌*◌, ◌/◌, ◌^◌, ◌≤◌, ◌<◌, max, bit_or, digits, bit_or-bitwise,
}
use mathlib.Core.Path.{◌≡◌, refl, ap, ◌∙◌}
use native.Mathlib.Nat.{pow-suc, le_refl}
use native.Mathlib.Omega.{arith}

twice : (k q : ℕ) → q * 2 ^ suc k ≡ 2 * (q * 2 ^ k)
twice k q = omega (arith, ap (λ (t : ℕ). q * t) (pow-suc 2 k))

-- The digits of `a`, a multiple of 2 ^ k, over those of `r`.
above_field :
    (fuel k q r a : ℕ) → a ≤ fuel → a ≡ q * 2 ^ k → r < 2 ^ k → digits (λ y. y) max fuel a r ≡ a + r
above_field zero k q r a enough e small = omega arith
above_field (suc fuel) k q r zero enough e small = omega arith
above_field (suc fuel) zero q r (suc a) enough e small =
    let rest =
      above_field fuel zero (suc a / 2) (r / 2) (suc a / 2) (omega arith) (omega arith)
        (omega arith) in
    ground (arith, rest)
above_field (suc fuel) (suc k) q r (suc a) enough e small =
    let rest =
      above_field fuel k q (r / 2) (suc a / 2) (omega arith) (omega (arith, twice k q))
        (omega (arith, pow-suc 2 k)) in
    ground (arith, rest, twice k q)

-- The digits of `r` over those of a multiple of 2 ^ k.
below_field :
    (fuel k q r : ℕ) → r ≤ fuel → r < 2 ^ k → digits (λ y. y) max fuel r (q * 2 ^ k) ≡ r + q * 2 ^ k
below_field zero k q r enough small = omega arith
below_field (suc fuel) k q zero enough small = omega arith
below_field (suc fuel) zero q (suc r) enough small = absurd (omega arith)
below_field (suc fuel) (suc k) q (suc r) enough small =
    let half : q * 2 ^ suc k / 2 ≡ q * 2 ^ k = omega (arith, twice k q) in
    let rest = below_field fuel k q (suc r / 2) (omega arith) (omega (arith, pow-suc 2 k)) in
    ground (arith, half, rest, twice k q)

pub bit_or_above : (k q r : ℕ) → r < 2 ^ k → bit_or (q * 2 ^ k) r ≡ q * 2 ^ k + r
bit_or_above k q r small =
    bit_or-bitwise (q * 2 ^ k) r ∙ above_field (q * 2 ^ k) k q r (q * 2 ^ k) (le_refl _) refl small

pub bit_or_below : (k q r : ℕ) → r < 2 ^ k → bit_or r (q * 2 ^ k) ≡ r + q * 2 ^ k
bit_or_below k q r small = bit_or-bitwise r (q * 2 ^ k) ∙ below_field r k q r (le_refl _) small
