-- ===== src/Iflib/Arith/Comparisons.antt =====
-- build_rel and rel_general of tcc/iflib_arith.c on a comparison with a constant.
use tcng.Common.{ℕ, ◌-◌, ◌^◌, ◌<◌, ◌≡◌, ◌≢◌, refl, sym, ap, ◌∙◌, arith}
use tcng.Common.{Bool, true, false, not, ◌==◌, ltb, leb, Bool-cases, inl, inr}
use tcng.Common.{Option, Error, Result, ok, ◌>>=◌, ◌>>◌, guard, if◌then◌else◌}
use tcng.U128.{U128, u128_is_zero, u128_cmp, u128_sub_32, Cmp}
use tcng.U128.Value.{IsU128, value, value-lt}
use tcng.U128.Add.{u128_sub_32-IsU128, value-u128_sub_32}
use tcng.U128.Compare.{u128_cmp-same_iff, u128_is_zero_iff}
use tcng.Data.{Data, DataType, Op, Doubles, data_convert, has_op, is_same}
use tcng.Op.Base.{u128_of}
use tcng.Op.Logic.{truth_of}
use tcng.Iflib.Meaning.{truth, run, number}
use tcng.Iflib.Not.{is_number}
use tcng.Iflib.Not.Placed.{in_range}
use tcng.Iflib.Not.OneBit.{wide, convert-wide, wide-IsU128, number-wide}
use tcng.Iflib.Arith.Bits.{
  all_ones, mask_of, some_test, ne_bits, build_rel, general_node, build_ne, build_ne_bit,
}
use tcng.Iflib.Arith.BitTests.{wide_operand, digit}
use tcng.Iflib.Arith.Masks.{value-all_ones, mask_of-ok}
use tcng.Iflib.Arith.NeBits.{ne_bits-all}
use tcng.Iflib.Arith.LeBits.{run-build_le_bit}

pub wide_operand-has_op : (a : Data) → wide_operand a ≡ true → has_op a ≡ true
unfolding has_op
wide_operand-has_op (Data.op t o a b c) h = refl
wide_operand-has_op d h = cc

is_same-true : (r : Cmp) → is_same r ≡ true → r ≡ Cmp.same
unfolding is_same
is_same-true r h = ground arith

-- `X <= C`, or `X > C` with `invert`.
abbrev pub at_most : Bool → ℕ → ℕ → Bool
at_most invert x c = if invert then ltb c x else leb x c

-- `X < C`, or `X >= C` with `invert`.
abbrev pub below : Bool → ℕ → ℕ → Bool
below invert x c = if invert then leb c x else ltb x c

at_most_all :
    (invert : Bool) (x c : ℕ) → x < 2 ^ 128 → c ≡ 2 ^ 128 - 1 → not invert ≡ at_most invert x c
at_most_all invert x c h e = ground arith

below_zero : (invert : Bool) (x c : ℕ) → c ≡ 0 → invert ≡ below invert x c
below_zero invert x c e = ground arith

below-at_most : (invert : Bool) (x c : ℕ) → c ≢ 0 → at_most invert x (c - 1) ≡ below invert x c
below-at_most invert x c h = ground arith

module _ {S : Type 0} (field : Data → S → ℕ) (test : Data → S → Bool) (charge : Data → S → S)
    (fp : Doubles) (d a b : Data) (invert : Bool) (ha : wide_operand a ≡ true)
    (hb : is_number b ≡ true) (ra : in_range a ≡ true) (rb : in_range b ≡ true) where
  run-answer :
      (v : Bool) (s : S) → run field test charge (Data.unum (if v then 1 else 0)) s ≡ truth v s
  unfolding run truth_of
  run-answer true s = refl
  run-answer false s = refl

  -- What a comparison has to be replaced by.
  abbrev Replaced : Result Data → (ℕ → ℕ → Bool) → Type 0
  Replaced built compare =
      (d' : Data) × (built ≡ ok d')
      × ((s : S)
          → number field test charge a s < 2 ^ 128
          → run field test charge d' s
            ≡ truth (compare (number field test charge a s) (number field test charge b s)) s)

  build_rel-at_most :
      Replaced (build_rel fp false d a b invert (not invert) false false) (at_most invert)
  unfolding build_rel
  build_rel-at_most = elim (Bool-cases (is_same (u128_cmp (wide b) all_ones))) [
    | inl largest ↦
        let same = (u128_cmp-same_iff (wide b) all_ones).0 (is_same-true _ largest) in
        (
          Data.unum (if not invert then 1 else 0),
          rw (hb, convert-wide fp b hb, largest) refl,
          λ s small.
              run-answer (not invert) s
              ∙ ap (λ v. truth v s)
                  (at_most_all invert _ _ small
                    (number-wide field test charge b s hb ∙ ap value same ∙ value-all_ones)),
        )
    | inr other ↦
        let (mask, masked, hm, digits) = mask_of-ok field test charge fp a ra in
        let (built, made, meaning) =
          run-build_le_bit field test charge fp a (wide b) mask invert ha (wide-IsU128 b hb rb)
            hm in
        (
          built,
          rw (hb, convert-wide fp b hb, other, wide_operand-has_op a ha, masked) made,
          λ s small.
              meaning s (digits s small) small
              ∙ ap (λ c. truth (at_most invert (number field test charge a s) c) s)
                  (sym (number-wide field test charge b s hb)),
        )
  ]

  build_rel-below : Replaced (build_rel fp false d a b invert invert true true) (below invert)
  unfolding build_rel
  build_rel-below = elim (Bool-cases (u128_is_zero (wide b))) [
    | inl least ↦ (
      Data.unum (if invert then 1 else 0),
      rw (hb, convert-wide fp b hb, least) refl,
      λ s small.
          run-answer invert s
          ∙ ap (λ v. truth v s)
              (below_zero invert _ _
                (number-wide field test charge b s hb ∙ (u128_is_zero_iff (wide b)).0 least)),
    )
    | inr other ↦
        let (mask, masked, hm, digits) = mask_of-ok field test charge fp a ra in
        let hc = wide-IsU128 b hb rb in
        let (built, made, meaning) =
          run-build_le_bit field test charge fp a (u128_sub_32 (wide b) 1) mask invert ha
            (u128_sub_32-IsU128 (wide b) hc 1 (omega arith)) hm in
        let positive : value (wide b) ≢ 0 =
          λ e. ground (arith, other, (u128_is_zero_iff (wide b)).1 e) in
        let less : value (u128_sub_32 (wide b) 1) ≡ value (wide b) - 1 =
          omega (
            arith,
            value-u128_sub_32 (wide b) hc 1 (omega arith),
            value-lt (wide b) hc,
            positive,
          ) in
        (
          built,
          rw (hb, convert-wide fp b hb, other, wide_operand-has_op a ha, masked) made,
          λ s small.
              meaning s (digits s small) small
              ∙ ap (λ c. truth (at_most invert (number field test charge a s) c) s) less
              ∙ ap (λ v. truth v s) (below-at_most invert (number field test charge a s) _ positive)
              ∙ ap (λ c. truth (below invert (number field test charge a s) c) s)
                  (sym (number-wide field test charge b s hb)),
        )
  ]

-- The order that an operator asks for.
abbrev pub is_order : Op → Bool
is_order Op.le = true
is_order Op.gt = true
is_order Op.lt = true
is_order Op.ge = true
is_order _ = false

abbrev pub ordered : Op → ℕ → ℕ → Bool
ordered Op.le x c = leb x c
ordered Op.gt x c = ltb c x
ordered Op.lt x c = ltb x c
ordered _ x c = leb c x

module _ {S : Type 0} (field : Data → S → ℕ) (test : Data → S → Bool) (charge : Data → S → S) where
  -- For every comparison <=, >, < or >= of an operator expression of integer type with a
  -- constant, with all constants in range, rel_general without the `prefix` switch replaces the
  -- node by an expression that, for every packet in which the left operand is a number of 128
  -- bits, holds exactly where that number stands in the order to the constant, and leaves the
  -- packet's state.
  pub run-general_node :
      (fp : Doubles) (t : DataType) (o : Op) (a b c : Data)
      → is_order o ≡ true
      → wide_operand a ≡ true
      → is_number b ≡ true
      → in_range a ≡ true
      → in_range b ≡ true
      → (d : Data) × (general_node fp false (Data.op t o a b c) ≡ ok d)
        × ((s : S)
            → number field test charge a s < 2 ^ 128
            → run field test charge d s
              ≡ truth (ordered o (number field test charge a s) (number field test charge b s)) s)
  unfolding general_node
  run-general_node fp t Op.le a b c h ha hb ra rb =
      build_rel-at_most field test charge fp (Data.op t Op.le a b c) a b false ha hb ra rb
  run-general_node fp t Op.gt a b c h ha hb ra rb =
      build_rel-at_most field test charge fp (Data.op t Op.gt a b c) a b true ha hb ra rb
  run-general_node fp t Op.lt a b c h ha hb ra rb =
      build_rel-below field test charge fp (Data.op t Op.lt a b c) a b false ha hb ra rb
  run-general_node fp t Op.ge a b c h ha hb ra rb =
      build_rel-below field test charge fp (Data.op t Op.ge a b c) a b true ha hb ra rb
  run-general_node fp t o a b c h ha hb ra rb = cc

module _ {S : Type 0} (field : Data → S → ℕ) (test : Data → S → Bool) (charge : Data → S → S) where
  -- For every operator expression of integer type with a mask that is not zero, and a constant
  -- that has no digits but those of the mask, all in range, build_ne without the `prefix` switch
  -- builds an expression that, for every packet in which the left operand is a number of 128
  -- bits, holds exactly where that number is not the constant, and leaves the packet's state.
  pub run-build_ne :
      (fp : Doubles) (d a b : Data) (mask : U128) (n : ℕ)
      → wide_operand a ≡ true
      → is_number b ≡ true
      → in_range a ≡ true
      → in_range b ≡ true
      → mask_of fp a ≡ ok mask
      → n < 128
      → digit (value mask) n ≡ true
      → ((k : ℕ) → digit (value mask) k ≡ false → digit (value (wide b)) k ≡ false)
      → (d' : Data) × (build_ne fp false d a b ≡ ok d')
        × ((s : S)
            → number field test charge a s < 2 ^ 128
            → run field test charge d' s
              ≡ truth (not (number field test charge a s == number field test charge b s)) s)
  unfolding build_ne build_ne_bit
  run-build_ne fp d a b mask n ha hb ra rb masked small set inside =
      let (mask', masked', hm', digits') = mask_of-ok field test charge fp a ra in
      let e : mask' ≡ mask = cc in
      let hm : IsU128 mask = rw (← e) hm' in
      let (built, made, meaning) =
        ne_bits-all field test charge fp a (wide b) mask ha (wide-IsU128 b hb rb) hm inside n small
          set in
      (
        built,
        rw hb (prepared (λ c m. ne_bits fp a c m 128 0) ∙ made),
        λ s fits.
            meaning s (fits, λ k clear. digits' s fits k (ap (λ m. digit (value m) k) e ∙ clear))
            ∙ ap (λ c. truth (not (number field test charge a s == c)) s)
                (sym (number-wide field test charge b s hb)),
      )
    where
      prepared :
          (rounds : U128 → U128 → Result (Option Data))
          → (data_convert fp b DataType.ipv6 >>= λ c128.
              guard (has_op a) Error.fault
              >> (mask_of fp a >>= λ m. rounds (u128_of c128) m >>= λ r. some_test r))
            ≡ (rounds (wide b) mask >>= λ r. some_test r)
      prepared rounds = rw (convert-wide fp b hb, wide_operand-has_op a ha, masked) refl
