-- ===== src/Iflib/Actions.antt =====
-- tcc/iflib_act.c: bubble_and, against Iflib/Meaning.
use tcng.Common.{ℕ, Bool, true, false, not, ◌&&◌, ◌||◌, ◌==◌, ◌≡◌, refl, sym, ap, ◌∙◌, arith}
use tcng.Common.{Bool-cases, inl, inr, Result, ok, err, Error, if◌then◌else◌}
use tcng.Data.{Data, DataType, Op}
use tcng.Op.Logic.{truth_of}
use tcng.Iflib.Meaning.{truth, run, number, condition}
use tcng.Iflib.Runs.{run-and, run-or, run-not}
use tcng.Iflib.Classify.{action_tree, side_effect}

-- `a && b`. A self-contained `a` decides, and so has a side effect: the code that puts it in place
-- of the whole expression goes on to the error.
unfoldable pub bubble_and : DataType → Data → Data → Data → Result Data
unfolding action_tree side_effect
bubble_and t a b c =
    if not (action_tree a) || action_tree b
    then ok (Data.op t Op.logical_and a b c)
    else if side_effect a || side_effect b
    then err Error.cannot_dump
    else ok (Data.op t Op.logical_and b a c)

module _ {S : Type 0} (field : Data → S → ℕ) (test : Data → S → Bool) (charge : Data → S → S) where
  run-constant :
      (n : ℕ) (s : S) → run field test charge (Data.unum n) s ≡ truth (truth_of (Data.unum n)) s
  unfolding run
  run-constant n s = refl

  -- Without side effects there is a truth value, and the state stays.
  quiet :
      (d : Data) (s : S)
      → condition d ≡ true
      → side_effect d ≡ false
      → (v : Bool) × (run field test charge d s ≡ truth v s)
  unfolding condition side_effect
  quiet (Data.unum n) s h q = (truth_of (Data.unum n), run-constant n s)
  quiet (Data.op t Op.logical_and a b c) s h q =
      let (u, eu) = quiet a s (ground arith) (ground arith) in
      let (v, ev) = quiet b s (ground arith) (ground arith) in
      (u && v, run-and field test charge t a b c s ∙ ground (arith, eu, ev))
  quiet (Data.op t Op.logical_or a b c) s h q =
      let (u, eu) = quiet a s (ground arith) (ground arith) in
      let (v, ev) = quiet b s (ground arith) (ground arith) in
      (u || v, run-or field test charge t a b c s ∙ ground (arith, eu, ev))
  quiet (Data.op t Op.logical_not a b c) s h q =
      let (u, eu) = quiet a s (ground arith) (ground arith) in
      (not u, run-not field test charge t a b c s ∙ ground (arith, eu))
  quiet (Data.op t Op.count a b c) s h q = cc
  quiet (Data.op t Op.eq a b c) s h q =
      (number field test charge a s == number field test charge b s, unfold run in refl)
  quiet (Data.op t Op.ne a b c) s h q =
      (not (number field test charge a s == number field test charge b s), unfold run in refl)
  quiet (Data.op t o a b c) s h q = (test (Data.op t o a b c) s, unfold run in refl)
  quiet d s h q = cc

  commutes : (u v : Bool) → (u && v) ≡ (v && u)
  commutes u v = ground arith

  -- For conditions a and b, and every outcome of bubble_and on `a && b` but its error, the
  -- result decides for every packet what `a && b` decides, with the same effects on the state.
  pub run-bubble_and :
      (t : DataType) (a b c d : Data) (s : S)
      → condition a ≡ true
      → condition b ≡ true
      → bubble_and t a b c ≡ ok d
      → run field test charge d s ≡ run field test charge (Data.op t Op.logical_and a b c) s
  unfolding bubble_and
  run-bubble_and t a b c d s ha hb e = elim (Bool-cases (not (action_tree a) || action_tree b)) [
    | inl canonical ↦
        let same : Data.op t Op.logical_and a b c ≡ d = ground (arith, canonical, e) in
        ap (λ x. run field test charge x s) (sym same)
    | inr turned ↦ elim (Bool-cases (side_effect a || side_effect b)) [
      | inl effects ↦ ground (arith, turned, effects, e)
      | inr none_there ↦
          let same : Data.op t Op.logical_and b a c ≡ d = ground (arith, turned, none_there, e) in
          let (u, eu) = quiet a s ha (ground (arith, none_there)) in
          let (v, ev) = quiet b s hb (ground (arith, none_there)) in
          ap (λ x. run field test charge x s) (sym same)
          ∙ both t b a c v u s ev eu
          ∙ ap (λ w. truth w s) (commutes v u)
          ∙ sym (both t a b c u v s eu ev)
    ]
  ]
    where
      both :
          (t : DataType) (a b c : Data) (u v : Bool) (s : S)
          → run field test charge a s ≡ truth u s
          → run field test charge b s ≡ truth v s
          → run field test charge (Data.op t Op.logical_and a b c) s ≡ truth (u && v) s
      both t a b c u v s eu ev = run-and field test charge t a b c s ∙ ground (arith, eu, ev)
