-- ===== src/Iflib/Arith/NeBits.antt =====
-- build_ne_bit of tcc/iflib_arith.c, against the inequality that it stands for.
use tcng.Common.{
  ℕ, zero, suc, ◌+◌, ◌*◌, ◌/◌, ◌%◌, ◌^◌, ◌<◌, ◌≤◌, ◌≡◌, refl, sym, ap, ap₂, ◌∙◌, arith,
}
use tcng.Common.{Bool, true, false, not, ◌||◌, ◌==◌, Bool-cases, inl, inr, Option, none, some}
use tcng.Common.{ok, ◌>>=◌, if◌then◌else◌}
use tcng.U128.{U128}
use tcng.U128.Value.{IsU128, value, value-lt}
use tcng.Data.{Data, DataType, Op, Doubles}
use tcng.Iflib.Meaning.{truth, run, number, seq_or}
use tcng.Iflib.Runs.{run-or}
use tcng.Iflib.Arith.Bits.{get_bit, set_nth_bit, with_b, or_next, some_test, ne_bits}
use tcng.Iflib.Arith.BitTests.{
  digit, get_bit-digit, wide_operand, bit_test-ok, op_binary-Junction, asked, run-bit_test,
}
use tcng.Iflib.Arith.LeBits.{asked_value-is_number}
use native.Mathlib.Nat.{pow-suc, div-div-eq-div-mul}

-- Some test was made.
abbrev pub has_test : Option Data → Bool
has_test none = false
has_test (some d) = true

pub halved : (x n : ℕ) → x / 2 ^ suc n ≡ x / 2 ^ n / 2
halved x n =
    ap (λ (t : ℕ). x / t) {x = 2 ^ suc n} {y = 2 ^ n * 2} (omega (arith, pow-suc 2 n))
    ∙ sym (div-div-eq-div-mul x (2 ^ n) 2)

swap_if : (b : Bool) (x y : Data) → (if b then x else y) ≡ (if not b then y else x)
swap_if true x y = refl
swap_if false x y = refl

equal_above : (u v : ℕ) → u % 2 ≡ 0 → v % 2 ≡ 0 → u / 2 ≡ v / 2 → u ≡ v
equal_above u v hu hv h = omega arith

differ_above : (u v : ℕ) → u % 2 ≡ 0 → v % 2 ≡ 0 → not (u / 2 == v / 2) ≡ not (u == v)
differ_above u v hu hv = ground arith

-- Two numbers differ in the lowest digit or above it.
differ_here :
    (u v : ℕ)
    → ((if not (not (v % 2 == 0)) then not (u % 2 == 0) else not (not (u % 2 == 0)))
        || not (u / 2 == v / 2))
      ≡ not (u == v)
differ_here u v = ground arith

all_bits : (x : ℕ) → x / 2 ^ 0 ≡ x
all_bits x = omega arith

unset : (q : ℕ) → not (q % 2 == 0) ≡ false → q % 2 ≡ 0
unset q e = ground arith

module _ {S : Type 0} (field : Data → S → ℕ) (test : Data → S → Bool) (charge : Data → S → S)
    (fp : Doubles) (acc : Data) (c mask : U128) (wide_acc : wide_operand acc ≡ true) (hc : IsU128 c)
    (hm : IsU128 mask)
    (c_masked : (n : ℕ) → digit (value mask) n ≡ false → digit (value c) n ≡ false) where
  abbrev Fits : S → Type 0
  Fits s =
      (number field test charge acc s < 2 ^ 128)
      × ((n : ℕ) → digit (value mask) n ≡ false → digit (number field test charge acc s) n ≡ false)

  -- The tests for the bits from `i` on tell whether the numbers differ there.
  abbrev Tells : ℕ → Option Data → Type 0
  Tells i none = (s : S) → Fits s → number field test charge acc s / 2 ^ i ≡ value c / 2 ^ i
  Tells i (some d) =
      (s : S)
      → Fits s
      → run field test charge d s
        ≡ truth (not (number field test charge acc s / 2 ^ i == value c / 2 ^ i)) s

  -- A round without a test.
  skipped : (i : ℕ) (r : Option Data) → digit (value mask) i ≡ false → Tells (suc i) r → Tells i r
  skipped i none h t = λ s fits.
      equal_above _ _ (unset _ (fits.1 i h)) (unset _ (c_masked i h))
        (sym (halved _ i) ∙ t s fits ∙ halved _ i)
  skipped i (some d) h t = λ s fits.
      t s fits
      ∙ ap (λ v. truth v s)
          (ap₂ (λ (u v : ℕ). not (u == v)) (halved (number field test charge acc s) i)
              (halved (value c) i)
            ∙ differ_above _ _ (unset _ (fits.1 i h)) (unset _ (c_masked i h)))

  -- A round with a test.
  or_next-Tells :
      (i : ℕ) (r : Option Data) (d : Data)
      → wide_operand d ≡ true
      → ((s : S)
          → run field test charge d s
            ≡ truth (asked (not (digit (value c) i)) (number field test charge acc s) i) s)
      → Tells (suc i) r
      → (r' : Option Data) × (or_next fp d r ≡ ok r') × (has_test r' ≡ true) × Tells i r'
  unfolding or_next with_b
  or_next-Tells i none d wide_d meaning t = (
    some d,
    refl,
    refl,
    λ s fits.
        let x = number field test charge acc s in
        let same : x / 2 ^ i / 2 ≡ value c / 2 ^ i / 2 =
          sym (halved x i) ∙ t s fits ∙ halved (value c) i in
        meaning s
        ∙ ap (λ v. truth v s)
            (last_one (asked (not (digit (value c) i)) x i) _ _ same
              ∙ differ_here (x / 2 ^ i) (value c / 2 ^ i)),
  )
    where
      last_one : (v : Bool) (u w : ℕ) → u ≡ w → v ≡ (v || not (u == w))
      last_one v u w e = ground arith
  or_next-Tells i (some rest) d wide_d meaning t = (
    some (Data.op DataType.unum Op.logical_or d rest Data.none),
    rw (op_binary-Junction fp false d 0 wide_d) refl,
    refl,
    λ s fits.
        let x = number field test charge acc s in
        let below =
          t s fits
          ∙ ap (λ v. truth v s)
              (ap₂ (λ (u v : ℕ). not (u == v)) (halved x i) (halved (value c) i)) in
        run-or field test charge DataType.unum d rest Data.none s
        ∙ either _ _ d rest s (meaning s) below
        ∙ ap (λ v. truth v s) (differ_here (x / 2 ^ i) (value c / 2 ^ i)),
  )
    where
      either :
          (u v : Bool) (d e : Data) (s : S)
          → run field test charge d s ≡ truth u s
          → run field test charge e s ≡ truth v s
          → seq_or (run field test charge d) (run field test charge e) s ≡ truth (u || v) s
      either u v d e s hd he = ground (arith, hd, he)

  after : (i n : ℕ) → i ≤ n → digit (value mask) i ≡ false → digit (value mask) n ≡ true → suc i ≤ n
  after i n low clear set = grind arith

  -- The rounds from bit `i` on, of which a bit of the mask makes one a test.
  ne_bits-Tells :
      (rounds i : ℕ)
      → i + rounds ≡ 128
      → (r : Option Data) × (ne_bits fp acc c mask rounds i ≡ ok r)
        × ((n : ℕ) → i ≤ n → n < 128 → digit (value mask) n ≡ true → has_test r ≡ true)
        × Tells i r
  unfolding ne_bits
  ne_bits-Tells zero i h = (
    none,
    refl,
    λ n low high e. absurd (omega arith),
    λ s fits. let e : i ≡ 128 = omega arith in rw e (omega (arith, fits.0, value-lt c hc)),
  )
  ne_bits-Tells (suc rounds) i h =
      let (rest, made, tests, tells) = ne_bits-Tells rounds (suc i) (omega arith) in
      elim (Bool-cases (get_bit mask i)) [
        | inl kept ↦
            let invert = not (get_bit c i) in
            let small : i < 128 = omega arith in
            let (t, bit_made) =
              bit_test-ok fp acc i (if invert then set_nth_bit i else Data.unum 0) wide_acc
                (asked_value-is_number invert i) in
            let d =
              Data.op DataType.unum Op.eq (Data.op t Op.and acc (set_nth_bit i) Data.none)
                (if invert then set_nth_bit i else Data.unum 0) Data.none in
            let (r', joined, some', tells') =
              or_next-Tells i rest d refl
                (λ s.
                  run-bit_test field test charge acc invert i t s small
                  ∙ ap (λ b. truth (asked (not b) (number field test charge acc s) i) s)
                      (get_bit-digit c i hc))
                tells in
            (
              r',
              rw (kept, swap_if (get_bit c i) (Data.unum 0) (set_nth_bit i), bit_made, made) joined,
              λ n low high e. some',
              tells',
            )
        | inr cut ↦
            let clear = sym (get_bit-digit mask i hm) ∙ cut in
            (
              rest,
              rw cut made,
              λ n low high e. tests n (after i n low clear e) high e,
              skipped i rest clear tells,
            )
      ]

  -- `x != c` where some bit is in the mask.
  pub ne_bits-all :
      (n : ℕ)
      → n < 128
      → digit (value mask) n ≡ true
      → (d : Data) × ((ne_bits fp acc c mask 128 0 >>= λ r. some_test r) ≡ ok d)
        × ((s : S)
            → Fits s
            → run field test charge d s ≡ truth (not (number field test charge acc s == value c)) s)
  unfolding some_test
  ne_bits-all n high e =
      let (r, made, tests, tells) = ne_bits-Tells 128 0 refl in
      from r made (tests n (omega arith) high e) tells
    where
      from :
          (r : Option Data)
          → ne_bits fp acc c mask 128 0 ≡ ok r
          → has_test r ≡ true
          → Tells 0 r
          → (d : Data) × ((ne_bits fp acc c mask 128 0 >>= λ r. some_test r) ≡ ok d)
            × ((s : S)
                → Fits s
                → run field test charge d s
                  ≡ truth (not (number field test charge acc s == value c)) s)
      from none made h t = cc
      from (some d) made h t = (
        d,
        rw made refl,
        λ s fits.
            t s fits
            ∙ ap₂ (λ (u v : ℕ). truth (not (u == v)) s) (all_bits (number field test charge acc s))
                (all_bits (value c)),
      )
