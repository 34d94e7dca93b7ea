-- ===== src/Common/Digits.antt =====
-- `bit_and` by its lowest digit, and masks of one bit and of the high bits.
use Prim.Native.Nat.{ℕ, zero, suc, ◌+◌, ◌-◌, ◌*◌, ◌/◌, ◌%◌, ◌^◌, ◌≤◌, ◌<◌, min, bit_and, digits}
use Prim.Native.Nat.{bit_and-bitwise}
use mathlib.Core.Path.{◌≡◌, refl, sym, ap, ◌∙◌, subst}
use native.Mathlib.Nat.{pow-suc, one-le-pow, div-div-eq-div-mul, div-add-mod', mod-lt, le_refl}
use native.Mathlib.Omega.{arith}

abbrev both : ℕ → ℕ → ℕ → ℕ
both fuel a b = digits (λ y. 0) min fuel a b

-- One more round changes nothing once the first number has run out.
spare : (fuel a b : ℕ) → a ≤ fuel → both (suc fuel) a b ≡ both fuel a b
spare zero a b h = let e : a ≡ 0 = omega arith in rw e
spare (suc fuel) zero b h = refl
spare (suc fuel) (suc a) b h = omega (arith, spare fuel (suc a / 2) (b / 2) (omega arith))

spares : (more a b : ℕ) → both (more + a) a b ≡ both a a b
spares zero a b = let e : 0 + a ≡ a = omega arith in rw e
spares (suc more) a b =
    let e : suc more + a ≡ suc (more + a) = omega arith in
    rw e (spare (more + a) a b (omega arith) ∙ spares more a b)

and_digits : (a b : ℕ) → bit_and a b ≡ both a a b
and_digits a b = bit_and-bitwise a b

pub and_lowest : (a b : ℕ) → bit_and a b ≡ bit_and (a / 2) (b / 2) * 2 + min (a % 2) (b % 2)
and_lowest zero b = omega (arith, and_digits 0 b, and_digits 0 (b / 2))
and_lowest (suc a) b =
    let half = suc a / 2 in
    let e : a - half + half ≡ a = omega arith in
    let rest : both a half (b / 2) ≡ both half half (b / 2) =
      rw e at (spares (a - half) half (b / 2)) in
    omega (arith, and_digits (suc a) b, and_digits half (b / 2), rest)

pub and-zero : (a : ℕ) → bit_and 0 a ≡ 0
and-zero a = and_digits 0 a

pub and_comm : (fuel a b : ℕ) → a + b ≤ fuel → bit_and a b ≡ bit_and b a
and_comm zero a b h = let e : a ≡ b = omega arith in rw e
and_comm (suc fuel) zero zero h = refl
and_comm (suc fuel) zero (suc b) h =
    omega (arith, and_lowest 0 (suc b), and_lowest (suc b) 0, and_comm fuel 0 (suc b / 2))
and_comm (suc fuel) (suc a) b h =
    omega (arith, and_lowest (suc a) b, and_lowest b (suc a), and_comm fuel (suc a / 2) (b / 2))

-- The digit of `a` at `k`.
pub and_bit : (k a : ℕ) → bit_and a (2 ^ k) ≡ a / 2 ^ k % 2 * 2 ^ k
and_bit zero a = omega (arith, and_lowest a 1, and_comm (a / 2) (a / 2) 0, and-zero (a / 2))
and_bit (suc k) a =
    let half : 2 ^ suc k / 2 ≡ 2 ^ k = omega (arith, pow-suc 2 k) in
    let digit = a / 2 ^ suc k % 2 in
    let deeper : a / 2 / 2 ^ k ≡ a / 2 ^ suc k =
      div-div-eq-div-mul a 2 (2 ^ k) ∙ ap (λ (t : ℕ). a / t) (omega (arith, pow-suc 2 k)) in
    let rest : bit_and (a / 2) (2 ^ suc k / 2) ≡ digit * 2 ^ k =
      rw (half, ← deeper) (and_bit k (a / 2)) in
    let whole : digit * 2 ^ suc k ≡ digit * 2 ^ k * 2 =
      omega (arith, ap (λ (t : ℕ). digit * t) (pow-suc 2 k)) in
    omega (arith, and_lowest a (2 ^ suc k), pow-suc 2 k)

-- All digits below `w`.
pub and_all : (w a : ℕ) → a < 2 ^ w → bit_and a (2 ^ w - 1) ≡ a
and_all zero a h = let e : a ≡ 0 = omega arith in rw e (and-zero 0)
and_all (suc w) a h =
    let p = pow-suc 2 w in
    let pos = one-le-pow w 2 (omega arith) in
    let half : (2 ^ suc w - 1) / 2 ≡ 2 ^ w - 1 = omega arith in
    let rest : bit_and (a / 2) ((2 ^ suc w - 1) / 2) ≡ a / 2 =
      rw half (and_all w (a / 2) (omega arith)) in
    omega (arith, and_lowest a (2 ^ suc w - 1))

-- Two fields of `n` digits and more.
pub and_fields :
    (n a b c d : ℕ)
    → a < 2 ^ n
    → c < 2 ^ n
    → bit_and (a + b * 2 ^ n) (c + d * 2 ^ n) ≡ bit_and a c + bit_and b d * 2 ^ n
and_fields zero a b c d ha hc =
    let ea : a ≡ 0 = omega arith in
    let ec : c ≡ 0 = omega arith in
    let eb : 0 + b * 1 ≡ b = omega arith in
    let ed : 0 + d * 1 ≡ d = omega arith in rw (ea, ec, eb, ed) (omega (arith, and-zero 0))
and_fields (suc n) a b c d ha hc =
    let p = pow-suc 2 n in
    let eb : b * 2 ^ suc n ≡ 2 * (b * 2 ^ n) = omega (arith, ap (λ (t : ℕ). b * t) p) in
    let ed : d * 2 ^ suc n ≡ 2 * (d * 2 ^ n) = omega (arith, ap (λ (t : ℕ). d * t) p) in
    let left : (a + b * 2 ^ suc n) / 2 ≡ a / 2 + b * 2 ^ n = omega arith in
    let right : (c + d * 2 ^ suc n) / 2 ≡ c / 2 + d * 2 ^ n = omega arith in
    let rest : bit_and ((a + b * 2 ^ suc n) / 2) ((c + d * 2 ^ suc n) / 2)
        ≡ bit_and (a / 2) (c / 2) + bit_and b d * 2 ^ n =
      rw (left, right) (and_fields n (a / 2) b (c / 2) d (omega arith) (omega arith)) in
    let high : bit_and b d * 2 ^ suc n ≡ 2 * (bit_and b d * 2 ^ n) =
      omega (arith, ap (λ (t : ℕ). bit_and b d * t) p) in
    omega (arith, and_lowest (a + b * 2 ^ suc n) (c + d * 2 ^ suc n), and_lowest a c)

-- The low digits of any number.
pub and_mask : (w a : ℕ) → bit_and a (2 ^ w - 1) ≡ a % 2 ^ w
and_mask w a =
    let pos = one-le-pow w 2 (omega arith) in
    let low : a % 2 ^ w < 2 ^ w = mod-lt a (omega arith) in
    let whole : a % 2 ^ w + a / 2 ^ w * 2 ^ w ≡ a = omega (arith, div-add-mod' a (2 ^ w)) in
    let fields = and_fields w (a % 2 ^ w) (a / 2 ^ w) (2 ^ w - 1) 0 low (omega arith) in
    let e : 2 ^ w - 1 + 0 * 2 ^ w ≡ 2 ^ w - 1 = omega arith in
    let high : bit_and (a / 2 ^ w) 0 ≡ 0 =
      and_comm (a / 2 ^ w + 0) (a / 2 ^ w) 0 (le_refl _) ∙ and-zero (a / 2 ^ w) in
    let joined : bit_and a (2 ^ w - 1)
        ≡ bit_and (a % 2 ^ w) (2 ^ w - 1) + bit_and (a / 2 ^ w) 0 * 2 ^ w =
      subst
        (λ t.
          bit_and t (2 ^ w - 1) ≡ bit_and (a % 2 ^ w) (2 ^ w - 1) + bit_and (a / 2 ^ w) 0 * 2 ^ w)
        whole
        (subst
          (λ t.
            bit_and (a % 2 ^ w + a / 2 ^ w * 2 ^ w) t
            ≡ bit_and (a % 2 ^ w) (2 ^ w - 1) + bit_and (a / 2 ^ w) 0 * 2 ^ w)
          e fields) in
    omega (arith, joined, and_all w (a % 2 ^ w) low, ap (λ (t : ℕ). t * 2 ^ w) high)

and_halves :
    (a b : ℕ)
    → (bit_and a b / 2 ≡ bit_and (a / 2) (b / 2)) × (bit_and a b % 2 ≡ min (a % 2) (b % 2))
and_halves a b = (omega (arith, and_lowest a b), omega (arith, and_lowest a b))

and_self_at : (fuel a : ℕ) → a ≤ fuel → bit_and a a ≡ a
and_self_at zero zero h = refl
and_self_at zero (suc a) h = absurd (omega arith)
and_self_at (suc fuel) zero h = refl
and_self_at (suc fuel) (suc a) h =
    omega (arith, and_lowest (suc a) (suc a), and_self_at fuel (suc a / 2) (omega arith))

pub and_self : (a : ℕ) → bit_and a a ≡ a
and_self a = and_self_at a a (le_refl a)

and_assoc_at : (fuel a b c : ℕ) → a ≤ fuel → bit_and (bit_and a b) c ≡ bit_and a (bit_and b c)
and_assoc_at zero zero b c h = rw (and-zero b, and-zero c, and-zero (bit_and b c)) refl
and_assoc_at zero (suc a) b c h = absurd (omega arith)
and_assoc_at (suc fuel) zero b c h = rw (and-zero b, and-zero c, and-zero (bit_and b c)) refl
and_assoc_at (suc fuel) (suc a) b c h =
    let (h1, l1) = and_halves (suc a) b in
    let (h2, l2) = and_halves b c in
    let deeper = and_assoc_at fuel (suc a / 2) (b / 2) (c / 2) (omega arith) in
    let left = rw (h1, l1) at (and_lowest (bit_and (suc a) b) c) in
    let right = rw (h2, l2) at (and_lowest (suc a) (bit_and b c)) in
    omega (arith, left, right, deeper)

pub and_assoc : (a b c : ℕ) → bit_and (bit_and a b) c ≡ bit_and a (bit_and b c)
and_assoc a b c = and_assoc_at a a b c (le_refl a)

pub and_again : (a b : ℕ) → bit_and a (bit_and a b) ≡ bit_and a b
and_again a b = sym (and_assoc a a b) ∙ ap (λ (t : ℕ). bit_and t b) (and_self a)

pub and_swap : (a b c : ℕ) → bit_and a (bit_and b c) ≡ bit_and b (bit_and a c)
and_swap a b c =
    sym (and_assoc a b c)
    ∙ ap (λ (t : ℕ). bit_and t c) (and_comm (a + b) a b (le_refl (a + b)))
    ∙ and_assoc b a c
