-- ===== src/Iflib/Arith/Masks.antt =====
-- Numbers under a mask: the digits that a mask leaves, and the masks of tcc/iflib_arith.c.
use tcng.Common.{ℕ, zero, suc, ◌*◌, ◌-◌, ◌/◌, ◌%◌, ◌^◌, ◌<◌, ◌≡◌, refl, sym, ap, ◌∙◌, arith}
use tcng.Common.{Bool, true, false, not, ◌==◌, bit_and, ok, Bool-cases, inl, inr}
use tcng.Common.Digits.{and_lowest, and_all}
use tcng.U128.{U128, u128_not, u128_from_32}
use tcng.U128.Value.{IsU128, value}
use tcng.Data.{Data, Op, Doubles}
use tcng.Iflib.Meaning.{number}
use tcng.Iflib.Not.{is_number}
use tcng.Iflib.Not.Placed.{in_range}
use tcng.Iflib.Not.OneBit.{wide, convert-wide, wide-IsU128, number-wide}
use tcng.Iflib.Arith.Bits.{all_ones, mask_of}
use tcng.Iflib.Arith.BitTests.{digit}
use native.Mathlib.Nat.{pow-suc, div-div-eq-div-mul}

next_digit : (x n : ℕ) → x / 2 ^ suc n ≡ x / 2 / 2 ^ n
next_digit x n =
    ap (λ (t : ℕ). x / t) {x = 2 ^ suc n} {y = 2 * 2 ^ n} (omega (arith, pow-suc 2 n))
    ∙ sym (div-div-eq-div-mul x 2 (2 ^ n))

-- A digit that the mask clears is not set.
pub digit-bit_and : (n x m : ℕ) → digit m n ≡ false → digit (bit_and x m) n ≡ false
digit-bit_and zero x m h = ground (arith, and_lowest x m)
digit-bit_and (suc n) x m h =
    let halves : bit_and x m / 2 ≡ bit_and (x / 2) (m / 2) = omega (arith, and_lowest x m) in
    let same : bit_and x m / 2 ^ suc n ≡ bit_and (x / 2) (m / 2) / 2 ^ n =
      next_digit (bit_and x m) n ∙ ap (λ (t : ℕ). t / 2 ^ n) halves in
    ap (λ (t : ℕ). not (t % 2 == 0)) same
    ∙ digit-bit_and n (x / 2) (m / 2) (ap (λ (t : ℕ). not (t % 2 == 0)) (sym (next_digit m n)) ∙ h)

pub all_ones-IsU128 : IsU128 all_ones
unfolding u128_not u128_from_32
all_ones-IsU128 = record { w0 = omega arith; w1 = omega arith; w2 = omega arith; w3 = omega arith }

pub value-all_ones : value all_ones ≡ 2 ^ 128 - 1
unfolding u128_not u128_from_32
value-all_ones = omega arith

unmasked : (x n : ℕ) → x < 2 ^ 128 → digit (value all_ones) n ≡ false → digit x n ≡ false
unmasked x n small h =
    ap (λ v. digit v n) (sym (and_all 128 x small))
    ∙ digit-bit_and n x (2 ^ 128 - 1) (ap (λ v. digit v n) (sym value-all_ones) ∙ h)

module _ {S : Type 0} (field : Data → S → ℕ) (test : Data → S → Bool) (charge : Data → S → S)
    (fp : Doubles) where
  pub mask_of-ok :
      (a : Data)
      → in_range a ≡ true
      → (mask : U128) × (mask_of fp a ≡ ok mask)
        × IsU128 mask
        × ((s : S)
            → number field test charge a s < 2 ^ 128
            → (n : ℕ) → digit (value mask) n ≡ false
            → digit (number field test charge a s) n ≡ false)
  unfolding mask_of in_range number
  mask_of-ok (Data.op t Op.and x m c) r = elim (Bool-cases (is_number m)) [
    | inl constant ↦ (
      wide m,
      rw (constant, convert-wide fp m constant) refl,
      wide-IsU128 m constant (ground arith),
      λ s small n h.
          digit-bit_and n (number field test charge x s) (number field test charge m s)
            (ap (λ v. digit v n) (number-wide field test charge m s constant) ∙ h),
    )
    | inr other ↦ (all_ones, rw other refl, all_ones-IsU128, λ s small n h. unmasked _ n small h)
  ]
  mask_of-ok a r = (all_ones, refl, all_ones-IsU128, λ s small n h. unmasked _ n small h)
