-- ===== src/Iflib/Linearize.antt =====
-- linearize of tcc/iflib_red.c, against Iflib/Meaning.
use tcng.Common.{ℕ, zero, suc, Bool, true, false, ◌≡◌, refl, sym, ap, ap₂, ◌∙◌}
use tcng.Common.{arith}
use mathlib.Core.Path.{fun_ext}
use tcng.Data.{Data, DataType, Op, same_op, op_code}
use tcng.Iflib.Meaning.{seq_and, seq_or, seq_not, run, plain, condition}
use tcng.Iflib.Runs.{seq_and_assoc, seq_or_assoc, run-and, run-or, run-not}
use tcng.Iflib.Reduce.{is_and_or, rotate, turn, over_operands, linearize}

condition-rotate_and :
    (t : DataType) (l r third : Data)
    → condition (Data.op t Op.logical_and l r third) ≡ true
    → condition (rotate t Op.logical_and l r third) ≡ true
unfolding rotate condition same_op op_code
condition-rotate_and t (Data.op t' Op.logical_and a b c) r third h =
    condition-rotate_and t' a (Data.op t Op.logical_and b r third) c (ground arith)
condition-rotate_and t (Data.op t' o a b c) r third h = ground arith
condition-rotate_and t d r third h = h

condition-rotate_or :
    (t : DataType) (l r third : Data)
    → condition (Data.op t Op.logical_or l r third) ≡ true
    → condition (rotate t Op.logical_or l r third) ≡ true
unfolding rotate condition same_op op_code
condition-rotate_or t (Data.op t' Op.logical_or a b c) r third h =
    condition-rotate_or t' a (Data.op t Op.logical_or b r third) c (ground arith)
condition-rotate_or t (Data.op t' o a b c) r third h = ground arith
condition-rotate_or t d r third h = h

rotate_other :
    (t : DataType) (o : Op) (l r third : Data)
    → is_and_or o ≡ false
    → rotate t o l r third ≡ Data.op t o l r third
unfolding rotate
rotate_other t o (Data.op t' o' a b c) r third h = ground arith
rotate_other t o d r third h = refl

pub plain-operator :
    (t : DataType) (o : Op) (a b c : Data) → plain (Data.op t o a b c) ≡ true → is_and_or o ≡ false
unfolding plain
plain-operator t Op.logical_and a b c h = cc
plain-operator t Op.logical_or a b c h = cc
plain-operator t o a b c h = refl

pub plain-operands :
    (t : DataType) (o : Op) (a b c : Data)
    → plain (Data.op t o a b c) ≡ true
    → (plain a ≡ true) × (plain b ≡ true) × (plain c ≡ true)
unfolding plain
plain-operands t Op.plus a b c h = (ground arith, ground arith, ground arith)
plain-operands t o a b c h = (ground arith, ground arith, ground arith)

pub plain-linearize : (fuel : ℕ) (d : Data) → plain d ≡ true → linearize fuel d ≡ d
unfolding linearize turn
plain-linearize zero d h = refl
plain-linearize (suc fuel) (Data.op t o a b c) h =
    let (ha, hb, hc) = plain-operands t o a b c h in
    ground (
      arith,
      rotate_other t o a b c (plain-operator t o a b c h),
      plain-linearize fuel a ha,
      plain-linearize fuel b hb,
      plain-linearize fuel c hc,
    )
plain-linearize (suc fuel) d h = refl

pub condition-turn : (d : Data) → condition d ≡ true → condition (turn d) ≡ true
unfolding turn
condition-turn (Data.op t Op.logical_and a b c) h = condition-rotate_and t a b c h
condition-turn (Data.op t Op.logical_or a b c) h = condition-rotate_or t a b c h
condition-turn (Data.op t o a b c) h = ground (arith, rotate_other t o a b c refl)
condition-turn d h = h

module _ {S : Type 0} (field : Data → S → ℕ) (test : Data → S → Bool) (charge : Data → S → S) where
  run-rotate_and :
      (t : DataType) (l r third : Data) (s : S)
      → run field test charge (rotate t Op.logical_and l r third) s
        ≡ run field test charge (Data.op t Op.logical_and l r third) s
  unfolding rotate same_op op_code run
  run-rotate_and t (Data.op t' Op.logical_and a b c) r third s =
      run-rotate_and t' a (Data.op t Op.logical_and b r third) c s
      ∙ sym (
          seq_and_assoc (run field test charge a) (run field test charge b)
            (run field test charge r) s)
  run-rotate_and t (Data.op t' o a b c) r third s = refl
  run-rotate_and t d r third s = refl

  run-rotate_or :
      (t : DataType) (l r third : Data) (s : S)
      → run field test charge (rotate t Op.logical_or l r third) s
        ≡ run field test charge (Data.op t Op.logical_or l r third) s
  unfolding rotate same_op op_code run
  run-rotate_or t (Data.op t' Op.logical_or a b c) r third s =
      run-rotate_or t' a (Data.op t Op.logical_or b r third) c s
      ∙ sym (
          seq_or_assoc (run field test charge a) (run field test charge b) (run field test charge r)
            s)
  run-rotate_or t (Data.op t' o a b c) r third s = refl
  run-rotate_or t d r third s = refl

  run-turn : (d : Data) (s : S) → run field test charge (turn d) s ≡ run field test charge d s
  unfolding turn
  run-turn (Data.op t Op.logical_and a b c) s = run-rotate_and t a b c s
  run-turn (Data.op t Op.logical_or a b c) s = run-rotate_or t a b c s
  run-turn (Data.op t o a b c) s = ground (arith, rotate_other t o a b c refl)
  run-turn d s = refl

  -- A condition over which `f` goes, when `f` keeps the meaning of conditions and leaves the
  -- operands of tests alone.
  run-over_operands :
      (f : Data → Data)
      → ((d : Data) (s : S)
          → condition d ≡ true
          → run field test charge (f d) s ≡ run field test charge d s)
      → ((d : Data) → plain d ≡ true → f d ≡ d)
      → (d : Data) (s : S) → condition d ≡ true
      → run field test charge (over_operands f d) s ≡ run field test charge d s
  unfolding condition
  run-over_operands f keeps leaves (Data.op t Op.logical_and a b c) s h =
      let ha : condition a ≡ true = ground arith in
      let hb : condition b ≡ true = ground arith in
      run-and field test charge t (f a) (f b) (f c) s
      ∙ ap₂ (λ x y. seq_and x y s) (fun_ext (λ s'. keeps a s' ha)) (fun_ext (λ s'. keeps b s' hb))
      ∙ sym (run-and field test charge t a b c s)
  run-over_operands f keeps leaves (Data.op t Op.logical_or a b c) s h =
      let ha : condition a ≡ true = ground arith in
      let hb : condition b ≡ true = ground arith in
      run-or field test charge t (f a) (f b) (f c) s
      ∙ ap₂ (λ x y. seq_or x y s) (fun_ext (λ s'. keeps a s' ha)) (fun_ext (λ s'. keeps b s' hb))
      ∙ sym (run-or field test charge t a b c s)
  run-over_operands f keeps leaves (Data.op t Op.logical_not a b c) s h =
      let ha : condition a ≡ true = ground arith in
      run-not field test charge t (f a) (f b) (f c) s
      ∙ ap (λ x. seq_not x s) (fun_ext (λ s'. keeps a s' ha))
      ∙ sym (run-not field test charge t a b c s)
  run-over_operands f keeps leaves (Data.op t o a b c) s h =
      rw (leaves a (ground arith), leaves b (ground arith), leaves c (ground arith))
  run-over_operands f keeps leaves d s h = refl

  -- For every condition and packet, and with any fuel, the result of linearize decides what the
  -- condition decides, with the same effects on the state.
  pub run-linearize :
      (fuel : ℕ) (d : Data) (s : S)
      → condition d ≡ true
      → run field test charge (linearize fuel d) s ≡ run field test charge d s
  unfolding linearize
  run-linearize zero d s h = refl
  run-linearize (suc fuel) d s h =
      let rest =
        run-over_operands (linearize fuel) (run-linearize fuel) (plain-linearize fuel) (turn d) s
          (condition-turn d h) in
      ground (arith, rest, run-turn d s)
