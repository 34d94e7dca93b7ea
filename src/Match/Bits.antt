-- ===== src/Match/Bits.antt =====
-- The bits of a packet, from the most significant bit of its first byte on: the description
-- against which `extract_bits` is held.
use tcng.Common.{ℕ, zero, suc, ◌+◌, ◌-◌, ◌*◌, ◌/◌, ◌%◌, ◌^◌, ◌≤◌, ◌<◌, ◌≡◌, refl, ap, ◌∙◌}
use tcng.Common.{List, [], ◌∷◌, arith, ltb, true, false, sym}
use mathlib.Core.Path.{subst}
use native.Mathlib.Nat.{pow-suc, div-div-eq-div-mul, div-add-mod'}

-- One bit; beyond the end there are zeros.
unfoldable pub bit_at : List ℕ → ℕ → ℕ
bit_at [] p = 0
bit_at (b ∷ bytes) p = elim (ltb p 8) [ true ↦ b / 2 ^ (7 - p) % 2 | false ↦ bit_at bytes (p - 8) ]

-- `n` bits from `start` on, as a number.
unfoldable pub bits_at : List ℕ → ℕ → ℕ → ℕ
unfolding bit_at
bits_at bytes start zero = 0
bits_at bytes start (suc n) = bits_at bytes start n * 2 + bit_at bytes (start + n)

bit_at-within : (b p : ℕ) (bytes : List ℕ) → p < 8 → bit_at (b ∷ bytes) p ≡ b / 2 ^ (7 - p) % 2
unfolding bit_at
bit_at-within b p bytes h = ground (arith, h)

bit_at-next : (b p : ℕ) (bytes : List ℕ) → bit_at (b ∷ bytes) (8 + p) ≡ bit_at bytes p
unfolding bit_at
bit_at-next b p bytes = let e : 8 + p - 8 ≡ p = omega arith in ground (arith, e)

bit_at-small : (bytes : List ℕ) (p : ℕ) → bit_at bytes p < 2
unfolding bit_at
bit_at-small [] p = omega arith
bit_at-small (b ∷ bytes) p = ground (arith, bit_at-small bytes (p - 8))

pub bits_at-small : (bytes : List ℕ) (start n : ℕ) → bits_at bytes start n < 2 ^ n
unfolding bits_at
bits_at-small bytes start zero = omega arith
bits_at-small bytes start (suc n) =
    omega (arith, bits_at-small bytes start n, bit_at-small bytes (start + n), pow-suc 2 n)

-- Bits behind each other.
pub bits_at-join :
    (bytes : List ℕ) (start n m : ℕ)
    → bits_at bytes start (m + n) ≡ bits_at bytes start n * 2 ^ m + bits_at bytes (start + n) m
unfolding bits_at
bits_at-join bytes start n zero = let e : 0 + n ≡ n = omega arith in rw e (omega arith)
bits_at-join bytes start n (suc m) =
    let e : start + (m + n) ≡ start + n + m = omega arith in
    let f : suc m + n ≡ suc (m + n) = omega arith in
    let p : bits_at bytes start n * 2 ^ suc m ≡ 2 * (bits_at bytes start n * 2 ^ m) =
      omega (arith, ap (λ (t : ℕ). bits_at bytes start n * t) (pow-suc 2 m)) in
    let ih = bits_at-join bytes start n m in rw (f, e) (omega arith)

-- Behind the first byte.
pub bits_at-next :
    (b : ℕ) (bytes : List ℕ) (start n : ℕ)
    → bits_at (b ∷ bytes) (8 + start) n ≡ bits_at bytes start n
unfolding bits_at
bits_at-next b bytes start zero = refl
bits_at-next b bytes start (suc n) =
    let e : 8 + start + n ≡ 8 + (start + n) = omega arith in
    let one = bit_at-next b (start + n) bytes in rw e (omega (arith, bits_at-next b bytes start n))

halves : (x n : ℕ) → x / 2 % 2 ^ n * 2 + x % 2 ≡ x % 2 ^ suc n
halves x n =
    let q : ℕ = x / 2 / 2 ^ n in
    let e : x / 2 ^ suc n ≡ q =
      ap (λ (t : ℕ). x / t) (pow-suc 2 n ∙ omega arith) ∙ sym (div-div-eq-div-mul x 2 (2 ^ n)) in
    let whole : q * 2 ^ suc n + x % 2 ^ suc n ≡ x =
      subst (λ t. t * 2 ^ suc n + x % 2 ^ suc n ≡ x) e (div-add-mod' x (2 ^ suc n)) in
    let p : q * 2 ^ suc n ≡ 2 * (q * 2 ^ n) = omega (arith, ap (λ (t : ℕ). q * t) (pow-suc 2 n)) in
    omega (arith, div-add-mod' (x / 2) (2 ^ n))

-- Within the first byte.
pub bits_at-within :
    (b : ℕ) (bytes : List ℕ) (start n : ℕ)
    → start + n ≤ 8
    → bits_at (b ∷ bytes) start n ≡ b / 2 ^ (8 - (start + n)) % 2 ^ n
unfolding bits_at
bits_at-within b bytes start zero h = omega arith
bits_at-within b bytes start (suc n) h =
    let k : ℕ = 7 - (start + n) in
    let e : 8 - (start + n) ≡ suc k = omega arith in
    let e2 : 8 - (start + suc n) ≡ k = omega arith in
    let d : b / 2 ^ suc k ≡ b / 2 ^ k / 2 =
      ap (λ (t : ℕ). b / t) (pow-suc 2 k ∙ omega arith) ∙ sym (div-div-eq-div-mul b (2 ^ k) 2) in
    let ih : bits_at (b ∷ bytes) start n ≡ b / 2 ^ k / 2 % 2 ^ n =
      rw (← d, ← e) (bits_at-within b bytes start n (omega arith)) in
    let one : bit_at (b ∷ bytes) (start + n) ≡ b / 2 ^ k % 2 =
      bit_at-within b (start + n) bytes (omega arith) in
    rw (e2, one, ih) (halves (b / 2 ^ k) n)
