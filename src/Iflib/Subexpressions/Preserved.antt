-- ===== src/Iflib/Subexpressions/Preserved.antt =====
-- common_subexpressions of tcc/iflib_red.c keeps what an expression decides.
use mathlib.Core.Path.{fun_ext}
use tcng.Common.{◌==◌, ℕ, zero, suc, Bool, true, false, not, ◌≡◌, sym, ap, ap₂, ◌∙◌}
use tcng.Common.{ok, ◌>>=◌, >>=-eq-ok, inl, inr}
use tcng.Data.{Data, DataType, Op, Doubles, expr_equal}
use tcng.Iflib.Meaning.{run, seq_not, truth}
use tcng.Iflib.Subexpressions.{rescan, rescan_node, on_operands, common_subexpressions}
use tcng.Iflib.Subexpressions.Equal.{steady}
use tcng.Iflib.Subexpressions.Steady.{seq}
use tcng.Iflib.Subexpressions.Meanings.{chain_op, ok_data_inj, run-chain, rescan-node}
use tcng.Iflib.Subexpressions.Suits.{Suits, chain_parts}
use tcng.Iflib.Subexpressions.Cut.{rescan-Suits, rescan-Unlike}
use tcng.Iflib.Subexpressions.Unchanged.{operands, rescan_node-chain, common_subexpressions-flat}
use tcng.Iflib.Subexpressions.Masks.{masks-number}

module _ (fp : Doubles) {S : Type 0} (field : Data → S → ℕ) (test : Data → S → Bool)
    (charge : Data → S → S)
    (reads : (x y : Data) → expr_equal fp x y ≡ ok true → (s : S) → field x s ≡ field y s)
    (tests : (x y : Data) → expr_equal fp x y ≡ ok true → (s : S) → test x s ≡ test y s)
    (field-charge : (d q : Data) (s : S) → field d (charge q s) ≡ field d s)
    (test-charge : (d q : Data) (s : S) → steady d ≡ true → test d (charge q s) ≡ test d s) where
  -- A node of a chain: its rest is scanned, then its operands are handled.
  chain-run :
      (u : Bool) (fuel : ℕ) (t : DataType) (a b c d' : Data)
      → rescan_node fp fuel (Data.op t (chain_op u) a b c)
          >>= on_operands fp (common_subexpressions fp fuel)
        ≡ ok d'
      → Suits fp (Data.op t (chain_op u) a b c)
      → ((d d' : Data)
          → common_subexpressions fp fuel d ≡ ok d'
          → Suits fp d
          → run field test charge d' ≡ run field test charge d)
      → (s : S)
      → run field test charge d' s ≡ run field test charge (Data.op t (chain_op u) a b c) s
  chain-run u fuel t a b c d' e h within s =
      let (kind, alone, suits_a, suits_b) = chain_parts fp u t a b c h in
      let (node, e1, e2) = >>=-eq-ok (rescan_node fp fuel (Data.op t (chain_op u) a b c)) _ e in
      let (b1, found_b, e3) =
        >>=-eq-ok (rescan fp fuel (chain_op u) a b) _
          (sym (rescan_node-chain fp fuel u t a b c) ∙ e1) in
      let (a', b', c', ea, eb, ec, e4) =
        operands fp (common_subexpressions fp fuel) t (chain_op u) a b1 c d'
          (rw (sym (ok_data_inj _ _ e3)) at e2) in
      let scanned : run field test charge (Data.op t (chain_op u) a b1 c) s
          ≡ run field test charge (Data.op t (chain_op u) a b c) s =
        elim kind [
          | inl tests_a ↦
              rescan-node fp field test charge reads tests field-charge test-charge u t a b b1 c
                tests_a fuel found_b s
          | inr differs ↦
              ap (λ x. run field test charge (Data.op t (chain_op u) a x c) s)
                (sym (rescan-Unlike fp u a fuel b b1 alone differs found_b))
        ] in
      ap (λ x. run field test charge x s) (sym e4)
      ∙ run-chain fp field test charge reads tests field-charge test-charge u t a' b' c' s
      ∙ ap₂ (λ x y. seq u x y s) (within a a' ea suits_a)
          (within b1 b' eb (rescan-Suits fp u a fuel b b1 found_b suits_b))
      ∙ sym (run-chain fp field test charge reads tests field-charge test-charge u t a b1 c s)
      ∙ scanned

  not_run :
      (t : DataType) (a' a b' b c' c : Data)
      → run field test charge a' ≡ run field test charge a
      → (s : S)
      → run field test charge (Data.op t Op.logical_not a' b' c') s
        ≡ run field test charge (Data.op t Op.logical_not a b c) s
  unfolding run
  not_run t a' a b' b c' c h s = ap (λ x. seq_not x s) h

  pub run-common_subexpressions :
      (fuel : ℕ) (d d' : Data)
      → Suits fp d
      → common_subexpressions fp fuel d ≡ ok d'
      → (s : S) → run field test charge d' s ≡ run field test charge d s
  unfolding common_subexpressions Suits run
  run-common_subexpressions zero d d' h e s = cc
  run-common_subexpressions (suc fuel) (Data.op t Op.logical_and a b c) d' h e s =
      chain-run true fuel t a b c d' e h
        (λ x x' ex hx. fun_ext (run-common_subexpressions fuel x x' hx ex)) s
  run-common_subexpressions (suc fuel) (Data.op t Op.logical_or a b c) d' h e s =
      chain-run false fuel t a b c d' e h
        (λ x x' ex hx. fun_ext (run-common_subexpressions fuel x x' hx ex)) s
  run-common_subexpressions (suc fuel) (Data.op t Op.logical_not a b c) d' h e s =
      let (a', b', c', ea, eb, ec, e1) =
        operands fp (common_subexpressions fp fuel) t Op.logical_not a b c d' e in
      ap (λ x. run field test charge x s) (sym e1)
      ∙ not_run t a' a b' b c' c (fun_ext (run-common_subexpressions fuel a a' h ea)) s
  run-common_subexpressions (suc fuel) (Data.op t Op.eq a b c) d' h e s =
      let (a', b', c', ea, eb, ec, e1) =
        operands fp (common_subexpressions fp fuel) t Op.eq a b c d' e in
      ap (λ x. run field test charge x s) (sym e1)
      ∙ ap₂ (λ m n. truth (m == n) s)
          (masks-number fp field test charge reads tests s fuel a a' h.0 ea)
          (masks-number fp field test charge reads tests s fuel b b' h.1 eb)
  run-common_subexpressions (suc fuel) (Data.op t Op.ne a b c) d' h e s =
      let (a', b', c', ea, eb, ec, e1) =
        operands fp (common_subexpressions fp fuel) t Op.ne a b c d' e in
      ap (λ x. run field test charge x s) (sym e1)
      ∙ ap₂ (λ m n. truth (not (m == n)) s)
          (masks-number fp field test charge reads tests s fuel a a' h.0 ea)
          (masks-number fp field test charge reads tests s fuel b b' h.1 eb)
  run-common_subexpressions (suc fuel) (Data.op t o a b c) d' h e s =
      ap (λ x. run field test charge x s)
        (sym (common_subexpressions-flat fp (suc fuel) (Data.op t o a b c) d' h e))
  run-common_subexpressions (suc fuel) d d' h e s =
      ap (λ x. run field test charge x s) (sym (ok_data_inj d d' e))
