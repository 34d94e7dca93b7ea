-- ===== src/Iflib/Arith/LeBits.antt =====
-- build_le_bit of tcc/iflib_arith.c, against the comparison that it stands for.
use tcng.Common.{
  ℕ, ap₂, zero, suc, ◌+◌, ◌*◌, ◌/◌, ◌%◌, ◌^◌, ◌<◌, ◌≤◌, ◌≡◌, refl, sym, ap, ◌∙◌, arith,
}
use tcng.Common.{Bool, true, false, not, ◌&&◌, ◌||◌, ◌==◌, ltb, leb, Bool-cases, inl, inr}
use tcng.Common.{ok, if◌then◌else◌}
use tcng.U128.{U128}
use tcng.U128.Value.{IsU128, value, value-lt}
use tcng.Data.{Data, DataType, Op, Doubles}
use tcng.Op.Logic.{truth_of}
use tcng.Iflib.Meaning.{truth, run, number}
use tcng.Iflib.Runs.{run-and, run-or}
use tcng.Iflib.Not.{is_number}
use tcng.Iflib.Arith.Bits.{get_bit, set_nth_bit, with_a, with_b, le_node, le_bits, build_le_bit}
use tcng.Iflib.Arith.BitTests.{
  digit, get_bit-digit, wide_operand, bit_test-ok, op_binary-Junction, asked, run-bit_test,
}
use tcng.Iflib.Arith.BitTests.{set_nth_bit-is_number}
use native.Mathlib.Nat.{pow-suc, one-le-pow, div-add-mod', div-div-eq-div-mul}

-- `X <= C`, or `X > C` with `invert`, on the digits below `n`.
abbrev compared : Bool → ℕ → ℕ → ℕ → Bool
compared invert x c n = if invert then ltb (c % 2 ^ n) (x % 2 ^ n) else leb (x % 2 ^ n) (c % 2 ^ n)

abbrev joined_by_and : Bool → Bool → Bool
joined_by_and bit invert = bit && invert || (not bit && not invert)

top_digit :
    (invert : Bool) (q k p r t xs cs : ℕ)
    → q < 2
    → k < 2
    → r < p
    → t < p
    → xs ≡ q * p + r
    → cs ≡ k * p + t
    → (if invert then ltb cs xs else leb xs cs) ≡ (
        if joined_by_and (not (k == 0)) invert
        then (if invert then not (q == 0) else not (not (q == 0)))
          && (if invert then ltb t r else leb r t)
        else (if invert then not (q == 0) else not (not (q == 0)))
          || (if invert then ltb t r else leb r t))
top_digit true zero zero p r t xs cs hq hk hr ht ex ec = ground arith
top_digit true zero (suc zero) p r t xs cs hq hk hr ht ex ec = ground arith
top_digit true (suc zero) zero p r t xs cs hq hk hr ht ex ec = ground arith
top_digit true (suc zero) (suc zero) p r t xs cs hq hk hr ht ex ec = ground arith
top_digit false zero zero p r t xs cs hq hk hr ht ex ec = ground arith
top_digit false zero (suc zero) p r t xs cs hq hk hr ht ex ec = ground arith
top_digit false (suc zero) zero p r t xs cs hq hk hr ht ex ec = ground arith
top_digit false (suc zero) (suc zero) p r t xs cs hq hk hr ht ex ec = ground arith
top_digit invert q k p r t xs cs hq hk hr ht ex ec = absurd (omega arith)

low_digits : (x n : ℕ) → x % 2 ^ suc n ≡ x / 2 ^ n % 2 * 2 ^ n + x % 2 ^ n
low_digits x n =
    let p = 2 ^ n in
    let twice : 2 ^ suc n ≡ p * 2 = omega (arith, pow-suc 2 n) in
    let above : x / 2 ^ suc n ≡ x / p / 2 =
      ap (λ (t : ℕ). x / t) twice ∙ sym (div-div-eq-div-mul x p 2) in
    let whole : x ≡ x / p / 2 * (p * 2) + x % 2 ^ suc n =
      sym (div-add-mod' x (2 ^ suc n)) ∙ ap₂ (λ (d q : ℕ). d * q + x % 2 ^ suc n) above twice in
    let halves : x / p * p ≡ (x / p / 2 * 2 + x / p % 2) * p =
      ap (λ (t : ℕ). t * p) (sym (div-add-mod' (x / p) 2)) in
    omega (arith, whole, halves, div-add-mod' x p)

-- The highest digit decides, or else the digits below it.
compared_step :
    (invert : Bool) (x c n : ℕ)
    → compared invert x c (suc n) ≡ (
        if joined_by_and (digit c n) invert
        then asked invert x n && compared invert x c n
        else asked invert x n || compared invert x c n)
compared_step invert x c n =
    let pos = one-le-pow n 2 (omega arith) in
    top_digit invert (x / 2 ^ n % 2) (c / 2 ^ n % 2) (2 ^ n) (x % 2 ^ n) (c % 2 ^ n) (x % 2 ^ suc n)
      (c % 2 ^ suc n) (omega arith) (omega arith) (omega arith) (omega arith) (low_digits x n)
      (low_digits c n)

pub asked_value-is_number :
    (invert : Bool) (n : ℕ) → is_number (if invert then set_nth_bit n else Data.unum 0) ≡ true
asked_value-is_number true n = set_nth_bit-is_number n
asked_value-is_number false n = refl

unset : (invert bit : Bool) → bit ≡ false → not invert ≡ (if invert then bit else not bit)
unset invert bit h = ground arith

module _ {S : Type 0} (field : Data → S → ℕ) (test : Data → S → Bool) (charge : Data → S → S)
    (fp : Doubles) (acc : Data) (c mask : U128) (invert : Bool) (wide : wide_operand acc ≡ true)
    (hc : IsU128 c) (hm : IsU128 mask) where
  abbrev rest_constant : Data
  rest_constant = Data.unum (if invert then 0 else 1)

  abbrev chosen : ℕ → Op
  chosen n = if joined_by_and (get_bit c n) invert then Op.logical_and else Op.logical_or

  -- The operand has no digits but those of the mask.
  abbrev pub Masked : S → Type 0
  Masked s =
      (n : ℕ) → digit (value mask) n ≡ false → digit (number field test charge acc s) n ≡ false

  constant_run : (s : S) → run field test charge rest_constant s ≡ truth (not invert) s
  unfolding run truth_of
  constant_run s = ground arith

  -- A round makes a node of a test with the constant beside it.
  le_node-ok :
      (n : ℕ)
      → n < 128
      → (d : Data) × (le_node fp acc c mask invert n
          ≡ ok (Data.op DataType.unum (chosen n) d rest_constant Data.none))
        × ((s : S)
            → Masked s
            → run field test charge d s ≡ truth (asked invert (number field test charge acc s) n) s)
  unfolding le_node with_a
  le_node-ok n small = elim (Bool-cases (get_bit mask n)) [
    | inl kept ↦
        let (t, made) =
          bit_test-ok fp acc n (if invert then set_nth_bit n else Data.unum 0) wide
            (asked_value-is_number invert n) in
        let d =
          Data.op DataType.unum Op.eq (Data.op t Op.and acc (set_nth_bit n) Data.none)
            (if invert then set_nth_bit n else Data.unum 0) Data.none in
        (
          d,
          rw (kept, made)
              (op_binary-Junction fp (joined_by_and (get_bit c n) invert) d
                (if invert then 0 else 1) refl),
          λ s h. run-bit_test field test charge acc invert n t s small,
        )
    | inr cut ↦ (
      rest_constant,
      rw
          (
            cut,
            op_binary-Junction fp (joined_by_and (get_bit c n) invert) acc (if invert then 0 else 1)
                wide,
          )
          refl,
      λ s h.
          constant_run s
          ∙ ap (λ v. truth v s)
              (unset invert (digit (number field test charge acc s) n)
                (h n (sym (get_bit-digit mask n hm) ∙ cut))),
    )
  ]

  run-chosen :
      (with_and u v : Bool) (d e : Data) (s : S)
      → run field test charge d s ≡ truth u s
      → run field test charge e s ≡ truth v s
      → run field test charge
          (Data.op DataType.unum (if with_and then Op.logical_and else Op.logical_or) d e Data.none)
          s
        ≡ truth (if with_and then u && v else u || v) s
  run-chosen true u v d e s hd he =
      run-and field test charge DataType.unum d e Data.none s ∙ ground (arith, hd, he)
  run-chosen false u v d e s hd he =
      run-or field test charge DataType.unum d e Data.none s ∙ ground (arith, hd, he)

  le_bits-ok :
      (n : ℕ)
      → n ≤ 128
      → (d : Data) × (le_bits fp acc c mask invert n ≡ ok d)
        × ((s : S)
            → Masked s
            → run field test charge d s
              ≡ truth (compared invert (number field test charge acc s) (value c) n) s)
  unfolding le_bits with_b
  le_bits-ok zero h = (
    rest_constant,
    refl,
    λ s m. constant_run s ∙ ap (λ v. truth v s) (none_left invert _ _ (omega arith) (omega arith)),
  )
    where
      none_left : (i : Bool) (x y : ℕ) → x ≡ 0 → y ≡ 0 → not i ≡ (if i then ltb y x else leb x y)
      none_left i x y ex ey = ground arith
  le_bits-ok (suc n) h =
      let (d, made, meaning) = le_node-ok n (omega arith) in
      let (rest, made', meaning') = le_bits-ok n (omega arith) in
      (
        Data.op DataType.unum (chosen n) d rest Data.none,
        rw (made, made') refl,
        λ s m.
            run-chosen (joined_by_and (get_bit c n) invert) _ _ d rest s (meaning s m)
              (meaning' s m)
            ∙ ap (λ v. truth v s)
                (ap
                    (λ b.
                      if joined_by_and b invert
                      then asked invert (number field test charge acc s) n
                        && compared invert (number field test charge acc s) (value c) n
                      else asked invert (number field test charge acc s) n
                        || compared invert (number field test charge acc s) (value c) n)
                    (get_bit-digit c n hc)
                  ∙ sym (compared_step invert (number field test charge acc s) (value c) n)),
      )

  -- For an operand of integer type under a mask and any constant, build_le_bit builds an expression
  -- that holds exactly for the packets whose number is at most the constant, and with `invert` for
  -- those whose number is greater, when the number fits in 128 bits and has no digits but those of
  -- the mask.
  pub run-build_le_bit :
      (d : Data) × (build_le_bit fp acc c mask invert ≡ ok d)
      × ((s : S)
          → Masked s
          → number field test charge acc s < 2 ^ 128
          → run field test charge d s
            ≡ truth
                (if invert
                  then ltb (value c) (number field test charge acc s)
                  else leb (number field test charge acc s) (value c))
                s)
  unfolding build_le_bit
  run-build_le_bit =
      let (d, made, meaning) = le_bits-ok 128 (omega arith) in
      (
        d,
        made,
        λ s m small.
            meaning s m
            ∙ ap (λ v. truth v s)
                (all_digits invert (number field test charge acc s) (value c) small
                  (value-lt c hc)),
      )
    where
      all_digits :
          (i : Bool) (x y : ℕ)
          → x < 2 ^ 128
          → y < 2 ^ 128
          → compared i x y 128 ≡ (if i then ltb y x else leb x y)
      all_digits i x y hx hy =
          ap₂ (λ (u v : ℕ). if i then ltb v u else leb u v) {x = x % 2 ^ 128} {y = x} (omega arith)
            (omega arith)
