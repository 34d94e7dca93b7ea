-- ===== src/Iflib/Arith/Logarithm.antt =====
-- log_2 of tcc/iflib_arith.c, against the powers of two.
use tcng.Common.{
  ℕ, zero, suc, ◌+◌, ◌/◌, ◌%◌, ◌^◌, ◌<◌, ◌≤◌, ◌≡◌, ◌≢◌, ◌↔◌, refl, sym, ap, ◌∙◌, arith,
}
use tcng.Common.{Bool, true, false, ◌==◌, leb, Option, none, some, Bool-cases, inl, inr}
use tcng.Common.{ok}
use tcng.U128.{add32}
use tcng.Data.{Data}
use tcng.Iflib.Arith.Powers.{log_2_loop, log_2, log_2_any}
use native.Mathlib.Nat.{pow-suc, one-le-pow, pow-le-pow_right}

log_2_loop-power :
    (fuel ld v n : ℕ)
    → v ≢ 0
    → v < 2 ^ suc fuel
    → log_2_loop fuel ld v ≡ some n
    → (k : ℕ) × (n ≡ ld + k) × (v ≡ 2 ^ k)
unfolding log_2_loop
log_2_loop-power zero ld v n nz small e = (0, ground arith, ground arith)
log_2_loop-power (suc fuel) ld v n nz small e = elim (Bool-cases (v % 2 == 0)) [
  | inl even ↦
      let half : v % 2 ≡ 0 = ground arith in
      let (k, en, ev) =
        log_2_loop-power fuel (suc ld) (v / 2) n (omega arith) (omega (arith, pow-suc 2 (suc fuel)))
          (ground (arith, even)) in
      (suc k, omega arith, omega (arith, pow-suc 2 k))
  | inr odd ↦ (0, ground (arith, odd), ground (arith, odd))
]

power-log_2_loop : (fuel ld k : ℕ) → k ≤ fuel → log_2_loop fuel ld (2 ^ k) ≡ some (ld + k)
unfolding log_2_loop
power-log_2_loop zero ld zero h = ap some (omega arith)
power-log_2_loop zero ld (suc k) h = absurd (omega arith)
power-log_2_loop (suc fuel) ld zero h = ap some (omega arith)
power-log_2_loop (suc fuel) ld (suc k) h =
    let half : 2 ^ suc k / 2 ≡ 2 ^ k = omega (arith, pow-suc 2 k) in
    let even : 2 ^ suc k % 2 ≡ 0 = omega (arith, pow-suc 2 k) in
    rw (even, half) (power-log_2_loop fuel (suc ld) k (omega arith) ∙ ap some (omega arith))

log_2-loop : (v : ℕ) → (v == 0) ≡ false → log_2 v ≡ log_2_loop 32 0 v
unfolding log_2
log_2-loop v h = rw h refl

log_2-zero : (v : ℕ) → (v == 0) ≡ true → log_2 v ≡ none
unfolding log_2
log_2-zero v h = rw h refl

pub bounded : (k : ℕ) → 2 ^ k < 2 ^ 32 → k ≤ 32
bounded k h = elim (Bool-cases (leb k 32)) [
  | inl within ↦ ground (arith, within)
  | inr beyond ↦
      let up : 2 ^ 32 ≤ 2 ^ k =
        pow-le-pow_right {n = 2} (omega arith) {i = 32} {j = k} (ground (arith, beyond)) in
      absurd (omega arith)
]

positive : (v k : ℕ) → (v == 0) ≡ true → v ≢ 2 ^ k
positive v k h e = ground (arith, h, e, one-le-pow k 2 (omega arith))

-- For every word v, log_2 returns k exactly where v is 2 ^ k.
pub log_2_iff : (v k : ℕ) → v < 2 ^ 32 → (log_2 v ≡ some k) ↔ (v ≡ 2 ^ k)
log_2_iff v k small = elim (Bool-cases (v == 0)) [
  | inl empty ↦ (λ e. ground (arith, log_2-zero v empty, e), λ e. absurd (positive v k empty e))
  | inr other ↦
      let same = log_2-loop v other in
      (
        λ e.
            let (j, ej, ev) =
              log_2_loop-power 32 0 v k (ground (arith, other)) (omega arith) (sym same ∙ e) in
            ev ∙ ap (λ (t : ℕ). 2 ^ t) (omega arith),
        λ e.
            same
            ∙ ap (λ t. log_2_loop 32 0 t) e
            ∙ power-log_2_loop 32 0 k (bounded k (ground arith))
            ∙ ap some (omega arith),
      )
]

pub log_2_any-word : (n : ℕ) → log_2_any (Data.unum n) false ≡ ok (log_2 n)
unfolding log_2_any
log_2_any-word n = refl

pub log_2_any-over : (n : ℕ) → (add32 n 1 == 0) ≡ true → log_2_any (Data.unum n) true ≡ ok (some 32)
unfolding log_2_any
log_2_any-over n h = rw h refl

pub log_2_any-next :
    (n : ℕ) → (add32 n 1 == 0) ≡ false → log_2_any (Data.unum n) true ≡ ok (log_2 (add32 n 1))
unfolding log_2_any
log_2_any-next n h = rw h refl

pub log_2_any-ok :
    (n : ℕ) (increment : Bool) → (r : Option ℕ) × (log_2_any (Data.unum n) increment ≡ ok r)
log_2_any-ok n false = (_, log_2_any-word n)
log_2_any-ok n true = elim (Bool-cases (add32 n 1 == 0)) [
  | inl over ↦ (_, log_2_any-over n over)
  | inr within ↦ (_, log_2_any-next n within)
]
