-- ===== src/Iflib/Prune.antt =====
-- prune_shortcuts of tcc/iflib_red.c, against Iflib/Meaning.
use tcng.Common.{ℕ, Bool, true, false, not, ◌&&◌, ◌||◌, ◌==◌, ◌≡◌, refl, sym, ap, ap₂, ◌∙◌, arith}
use tcng.Common.{Bool-cases, inl, inr}
use mathlib.Core.Path.{fun_ext}
use tcng.Data.{Data, DataType, Op, same_type}
use tcng.Iflib.Meaning.{truth, seq_and, seq_or, seq_not, run, plain, condition}
use tcng.Iflib.Runs.{seq_and-true, seq_or-false, run-and, run-or, run-not}
use tcng.Iflib.Classify.{side_effect}
use tcng.Iflib.Reduce.{prune_and, prune_or, prune_shortcuts}

-- A plain operand has no side effect, and pruning leaves it alone.
plain-side_effect : (d : Data) → plain d ≡ true → side_effect d ≡ false
unfolding plain side_effect
plain-side_effect (Data.op t Op.plus a b c) h =
    ground (arith, plain-side_effect a, plain-side_effect b, plain-side_effect c)
plain-side_effect (Data.op t o a b c) h =
    ground (arith, plain-side_effect a, plain-side_effect b, plain-side_effect c)
plain-side_effect (Data.decision r k) h = cc
plain-side_effect d h = refl

plain-prune : (d : Data) → plain d ≡ true → prune_shortcuts d ≡ d
unfolding plain prune_shortcuts
plain-prune (Data.op t Op.plus a b c) h =
    ground (arith, plain-prune a, plain-prune b, plain-prune c)
plain-prune (Data.op t o a b c) h = ground (arith, plain-prune a, plain-prune b, plain-prune c)
plain-prune d h = refl

-- Where `prune_and` and `prune_or` look past the left operand.
condition-op-type :
    (t : DataType) (o : Op) (a b c : Data)
    → condition (Data.op t o a b c) ≡ true
    → same_type t DataType.decision ≡ false
unfolding condition same_type
condition-op-type t Op.plus a b c h = ground arith
condition-op-type t o a b c h = ground arith

module _ {S : Type 0} (field : Data → S → ℕ) (test : Data → S → Bool) (charge : Data → S → S) where
  run-unum : (n : ℕ) (s : S) → run field test charge (Data.unum n) s ≡ truth (not (n == 0)) s
  unfolding run
  run-unum n s = refl

  -- A condition without side effect is true or false, and changes no state.
  quiet :
      (d : Data) (s : S)
      → condition d ≡ true
      → side_effect d ≡ false
      → (v : Bool) × (run field test charge d s ≡ truth v s)
  unfolding condition side_effect run
  quiet (Data.unum n) s h e = (_, refl)
  quiet (Data.decision r k) s h e = cc
  quiet (Data.op t Op.logical_and a b c) s h e =
      let (v, p) = quiet a s (ground arith) (ground arith) in
      let (w, q) = quiet b s (ground arith) (ground arith) in (v && w, ground (arith, p, q))
  quiet (Data.op t Op.logical_or a b c) s h e =
      let (v, p) = quiet a s (ground arith) (ground arith) in
      let (w, q) = quiet b s (ground arith) (ground arith) in (v || w, ground (arith, p, q))
  quiet (Data.op t Op.logical_not a b c) s h e =
      let (v, p) = quiet a s (ground arith) (ground arith) in (not v, ground (arith, p))
  quiet (Data.op t Op.count a b c) s h e = cc
  quiet (Data.op t o a b c) s h e = (_, refl)
  quiet d s h e = cc

  -- The right operand is a constant.
  right_and :
      (t : DataType) (o : Op) (x y z : Data) (n : ℕ) (whole : Data) (s : S)
      → condition (Data.op t o x y z) ≡ true
      → run field test charge whole s
        ≡ seq_and (run field test charge (Data.op t o x y z)) (λ s'. truth (not (n == 0)) s') s
      → run field test charge (prune_and (Data.op t o x y z) (Data.unum n) whole) s
        ≡ seq_and (run field test charge (Data.op t o x y z)) (λ s'. truth (not (n == 0)) s') s
  unfolding prune_and
  right_and t o x y z n whole s h e =
      let a = Data.op t o x y z in
      elim (Bool-cases (side_effect a)) [
        | inl effect ↦
            ground (
              arith,
              effect,
              condition-op-type t o x y z h,
              seq_and-true (run field test charge a) s,
            )
        | inr none_here ↦
            let (v, q) = quiet a s h none_here in
            ground (arith, none_here, condition-op-type t o x y z h, q, run-unum 0 s)
      ]

  right_or :
      (t : DataType) (o : Op) (x y z : Data) (n : ℕ) (whole : Data) (s : S)
      → condition (Data.op t o x y z) ≡ true
      → run field test charge whole s
        ≡ seq_or (run field test charge (Data.op t o x y z)) (λ s'. truth (not (n == 0)) s') s
      → run field test charge (prune_or (Data.op t o x y z) (Data.unum n) whole) s
        ≡ seq_or (run field test charge (Data.op t o x y z)) (λ s'. truth (not (n == 0)) s') s
  unfolding prune_or
  right_or t o x y z n whole s h e =
      let a = Data.op t o x y z in
      elim (Bool-cases (side_effect a)) [
        | inl effect ↦
            ground (
              arith,
              effect,
              condition-op-type t o x y z h,
              seq_or-false (run field test charge a) s,
            )
        | inr none_here ↦
            let (v, q) = quiet a s h none_here in
            ground (arith, none_here, condition-op-type t o x y z h, q, run-unum 1 s)
      ]

  -- One `&&` whose operands are pruned.
  run-prune_and :
      (a b whole : Data) (s : S)
      → condition a ≡ true
      → run field test charge whole s
        ≡ seq_and (run field test charge a) (run field test charge b) s
      → run field test charge (prune_and a b whole) s
        ≡ seq_and (run field test charge a) (run field test charge b) s
  unfolding prune_and
  run-prune_and (Data.unum n) b whole s h e = ground (arith, run-unum n s, run-unum 0 s)
  run-prune_and (Data.decision r k) b whole s h e = unfold run in refl
  run-prune_and (Data.op t o x y z) (Data.unum n) whole s h e =
      unfold run in right_and t o x y z n whole s h e
  run-prune_and (Data.op t o x y z) b whole s h e = ground (arith, condition-op-type t o x y z h)
  run-prune_and a b whole s h e = unfold condition in cc

  -- One `||` whose operands are pruned.
  run-prune_or :
      (a b whole : Data) (s : S)
      → condition a ≡ true
      → run field test charge whole s ≡ seq_or (run field test charge a) (run field test charge b) s
      → run field test charge (prune_or a b whole) s
        ≡ seq_or (run field test charge a) (run field test charge b) s
  unfolding prune_or
  run-prune_or (Data.unum n) b whole s h e = ground (arith, run-unum n s, run-unum 1 s)
  run-prune_or (Data.decision r k) b whole s h e = unfold run in refl
  run-prune_or (Data.op t o x y z) (Data.unum n) whole s h e =
      unfold run in right_or t o x y z n whole s h e
  run-prune_or (Data.op t o x y z) b whole s h e = ground (arith, condition-op-type t o x y z h)
  run-prune_or a b whole s h e = unfold condition in cc

condition-prune_and :
    (a b whole : Data)
    → condition a ≡ true
    → condition b ≡ true
    → condition whole ≡ true
    → condition (prune_and a b whole) ≡ true
unfolding prune_and
condition-prune_and a b whole ha hb hw = ground (arith, condition-unum 0)
  where
    condition-unum : (n : ℕ) → condition (Data.unum n) ≡ true
    condition-unum n = unfold condition in refl

condition-prune_or :
    (a b whole : Data)
    → condition a ≡ true
    → condition b ≡ true
    → condition whole ≡ true
    → condition (prune_or a b whole) ≡ true
unfolding prune_or
condition-prune_or a b whole ha hb hw = ground (arith, condition-unum 1)
  where
    condition-unum : (n : ℕ) → condition (Data.unum n) ≡ true
    condition-unum n = unfold condition in refl

condition-prune : (d : Data) → condition d ≡ true → condition (prune_shortcuts d) ≡ true
unfolding prune_shortcuts condition
condition-prune (Data.unum n) h = refl
condition-prune (Data.decision r k) h = refl
condition-prune (Data.op t Op.logical_and a b c) h =
    condition-prune_and (prune_shortcuts a) (prune_shortcuts b)
      (Data.op t Op.logical_and (prune_shortcuts a) (prune_shortcuts b) (prune_shortcuts c))
      (condition-prune a (ground arith)) (condition-prune b (ground arith))
      (ground (arith, condition-prune a, condition-prune b, plain-prune c))
condition-prune (Data.op t Op.logical_or a b c) h =
    condition-prune_or (prune_shortcuts a) (prune_shortcuts b)
      (Data.op t Op.logical_or (prune_shortcuts a) (prune_shortcuts b) (prune_shortcuts c))
      (condition-prune a (ground arith)) (condition-prune b (ground arith))
      (ground (arith, condition-prune a, condition-prune b, plain-prune c))
condition-prune (Data.op t Op.logical_not a b c) h =
    ground (arith, condition-prune a, plain-prune b, plain-prune c)
condition-prune (Data.op t o a b c) h = ground (arith, plain-prune a, plain-prune b, plain-prune c)
condition-prune d h = cc

module _ {S : Type 0} (field : Data → S → ℕ) (test : Data → S → Bool) (charge : Data → S → S) where
  -- For every condition and packet, the result of prune_shortcuts decides what the condition
  -- decides, with the same effects on the state.
  pub run-prune_shortcuts :
      (d : Data) (s : S)
      → condition d ≡ true
      → run field test charge (prune_shortcuts d) s ≡ run field test charge d s
  unfolding prune_shortcuts condition
  run-prune_shortcuts (Data.unum n) s h = refl
  run-prune_shortcuts (Data.decision r k) s h = refl
  run-prune_shortcuts (Data.op t Op.logical_and a b c) s h =
      let ha : condition a ≡ true = ground arith in
      let hb : condition b ≡ true = ground arith in
      run-prune_and field test charge (prune_shortcuts a) (prune_shortcuts b)
        (Data.op t Op.logical_and (prune_shortcuts a) (prune_shortcuts b) (prune_shortcuts c)) s
        (condition-prune a ha)
        (run-and field test charge t (prune_shortcuts a) (prune_shortcuts b) (prune_shortcuts c) s)
      ∙ ap₂ (λ x y. seq_and x y s) (fun_ext (λ s'. run-prune_shortcuts a s' ha))
          (fun_ext (λ s'. run-prune_shortcuts b s' hb))
      ∙ sym (run-and field test charge t a b c s)
  run-prune_shortcuts (Data.op t Op.logical_or a b c) s h =
      let ha : condition a ≡ true = ground arith in
      let hb : condition b ≡ true = ground arith in
      run-prune_or field test charge (prune_shortcuts a) (prune_shortcuts b)
        (Data.op t Op.logical_or (prune_shortcuts a) (prune_shortcuts b) (prune_shortcuts c)) s
        (condition-prune a ha)
        (run-or field test charge t (prune_shortcuts a) (prune_shortcuts b) (prune_shortcuts c) s)
      ∙ ap₂ (λ x y. seq_or x y s) (fun_ext (λ s'. run-prune_shortcuts a s' ha))
          (fun_ext (λ s'. run-prune_shortcuts b s' hb))
      ∙ sym (run-or field test charge t a b c s)
  run-prune_shortcuts (Data.op t Op.logical_not a b c) s h =
      let ha : condition a ≡ true = ground arith in
      run-not field test charge t (prune_shortcuts a) (prune_shortcuts b) (prune_shortcuts c) s
      ∙ ap (λ x. seq_not x s) (fun_ext (λ s'. run-prune_shortcuts a s' ha))
      ∙ sym (run-not field test charge t a b c s)
  run-prune_shortcuts (Data.op t o a b c) s h =
      rw (plain-prune a (ground arith), plain-prune b (ground arith), plain-prune c (ground arith))
  run-prune_shortcuts d s h = cc
