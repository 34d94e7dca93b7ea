-- ===== src/Iflib/Combined.antt =====
-- complement_leaf_decisions of tcc/iflib_comb.c, against Iflib/Meaning.
use tcng.Common.{ℕ, Bool, true, ◌==◌, ◌≡◌, refl, sym, ap, ap₂, ◌∙◌, arith, if◌then◌else◌}
use mathlib.Core.Path.{fun_ext}
use tcng.Data.{Data, DecisionResult, Op}
use tcng.Iflib.Meaning.{Verdict, stop, truth, Run, seq_and, seq_or, seq_not, run, plain, condition}
use tcng.Iflib.Runs.{run-and, run-or, run-not}
use tcng.Iflib.Combine.{complement_leaf_decisions}

module _ (class_is_drop : ℕ) where
  -- A decision taken for a class.
  abbrev pub relabel : {S : Type 0} → ℕ → Verdict S → Verdict S
  relabel c (stop r k s) = stop (if c == class_is_drop then DecisionResult.drop else r) c s
  relabel c (truth v s) = truth v s

  plain-complement :
      (d : Data) (c : ℕ) → plain d ≡ true → complement_leaf_decisions class_is_drop d c ≡ d
  unfolding plain complement_leaf_decisions
  plain-complement (Data.op t Op.plus x y z) c h =
      ground (arith, plain-complement x c, plain-complement y c, plain-complement z c)
  plain-complement (Data.op t o x y z) c h =
      ground (arith, plain-complement x c, plain-complement y c, plain-complement z c)
  plain-complement (Data.decision r k) c h = cc
  plain-complement d c h = refl

  relabel-and :
      {S : Type 0} (c : ℕ) (x y : Run S) (s : S)
      → relabel c (seq_and x y s) ≡ seq_and (λ s'. relabel c (x s')) (λ s'. relabel c (y s')) s
  relabel-and c x y s = ground arith

  relabel-or :
      {S : Type 0} (c : ℕ) (x y : Run S) (s : S)
      → relabel c (seq_or x y s) ≡ seq_or (λ s'. relabel c (x s')) (λ s'. relabel c (y s')) s
  relabel-or c x y s = ground arith

  relabel-not :
      {S : Type 0} (c : ℕ) (x : Run S) (s : S)
      → relabel c (seq_not x s) ≡ seq_not (λ s'. relabel c (x s')) s
  relabel-not c x s = ground arith

  module _ {S : Type 0} (field : Data → S → ℕ) (test : Data → S → Bool)
      (charge : Data → S → S) where
    pub run-complement :
        (d : Data) (c : ℕ) (s : S)
        → condition d ≡ true
        → run field test charge (complement_leaf_decisions class_is_drop d c) s
          ≡ relabel c (run field test charge d s)
    unfolding condition complement_leaf_decisions
    run-complement (Data.unum n) c s h = unfold run in refl
    run-complement (Data.decision r k) c s h = unfold run in refl
    run-complement (Data.op t Op.logical_and x y z) c s h =
        let hx : condition x ≡ true = ground arith in
        let hy : condition y ≡ true = ground arith in
        let f : Data → Data = λ e. complement_leaf_decisions class_is_drop e c in
        run-and field test charge t (f x) (f y) (f z) s
        ∙ ap₂ (λ u v. seq_and u v s) (fun_ext (λ s'. run-complement x c s' hx))
            (fun_ext (λ s'. run-complement y c s' hy))
        ∙ sym (relabel-and c (run field test charge x) (run field test charge y) s)
        ∙ ap (relabel c) (sym (run-and field test charge t x y z s))
    run-complement (Data.op t Op.logical_or x y z) c s h =
        let hx : condition x ≡ true = ground arith in
        let hy : condition y ≡ true = ground arith in
        let f : Data → Data = λ e. complement_leaf_decisions class_is_drop e c in
        run-or field test charge t (f x) (f y) (f z) s
        ∙ ap₂ (λ u v. seq_or u v s) (fun_ext (λ s'. run-complement x c s' hx))
            (fun_ext (λ s'. run-complement y c s' hy))
        ∙ sym (relabel-or c (run field test charge x) (run field test charge y) s)
        ∙ ap (relabel c) (sym (run-or field test charge t x y z s))
    run-complement (Data.op t Op.logical_not x y z) c s h =
        let hx : condition x ≡ true = ground arith in
        let f : Data → Data = λ e. complement_leaf_decisions class_is_drop e c in
        run-not field test charge t (f x) (f y) (f z) s
        ∙ ap (λ u. seq_not u s) (fun_ext (λ s'. run-complement x c s' hx))
        ∙ sym (relabel-not c (run field test charge x) s)
        ∙ ap (relabel c) (sym (run-not field test charge t x y z s))
    run-complement (Data.op t o x y z) c s h =
        rw
          (
            plain-complement x c (ground arith),
            plain-complement y c (ground arith),
            plain-complement z c (ground arith),
          )
          (unfold run in refl)
    run-complement d c s h = cc
