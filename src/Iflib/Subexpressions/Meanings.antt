-- ===== src/Iflib/Subexpressions/Meanings.antt =====
-- common_subexpressions of tcc/iflib_red.c against Iflib/Meaning.
use tcng.Common.{ℕ, zero, suc, Bool, true, false, ◌≡◌, refl, sym, ap, ◌∙◌}
use tcng.Common.{Result, ok, >>=-eq-ok, Bool-cases, inl, inr}
use tcng.Data.{Data, DataType, Op, Doubles, same_op, expr_equal}
use tcng.Iflib.Meaning.{Verdict, Run, stop, truth, seq_and, seq_or, run}
use tcng.Iflib.Subexpressions.{found, scan, rescan}
use tcng.Iflib.Subexpressions.Equal.{steady, same_op-same, run-expr_equal}
use tcng.Iflib.Subexpressions.Steady.{answer, end_state, seq, run-Keeps, run-steady, answer-charge}

module _ {S : Type 0} (x y : Run S) (s : S) where
  seq-passed : (u : Bool) (t : S) → x s ≡ truth u t → seq u x y s ≡ y t
  seq-passed true t e = rw (e, seq, seq_and) refl
  seq-passed false t e = rw (e, seq, seq_or) refl

  last_at :
      (u : Bool) (v : Verdict S)
      → x s ≡ v
      → ((t : S) → v ≡ truth u t → y t ≡ truth u t)
      → seq u x y s ≡ v
  last_at true (stop r k t) e h = rw (e, seq, seq_and) refl
  last_at true (truth true t) e h = rw (e, seq, seq_and) (h t refl)
  last_at true (truth false t) e h = rw (e, seq, seq_and) refl
  last_at false (stop r k t) e h = rw (e, seq, seq_or) refl
  last_at false (truth true t) e h = rw (e, seq, seq_or) refl
  last_at false (truth false t) e h = rw (e, seq, seq_or) (h t refl)

  seq-last : (u : Bool) → ((t : S) → x s ≡ truth u t → y t ≡ truth u t) → seq u x y s ≡ x s
  seq-last u h = last_at u (x s) refl h

  under_at :
      (u : Bool) (z : Run S) (v : Verdict S)
      → x s ≡ v
      → ((t : S) → v ≡ truth u t → y t ≡ z t)
      → seq u x y s ≡ seq u x z s
  under_at true z (stop r k t) e h = rw (e, seq, seq_and) refl
  under_at true z (truth true t) e h = rw (e, seq, seq_and) (h t refl)
  under_at true z (truth false t) e h = rw (e, seq, seq_and) refl
  under_at false z (stop r k t) e h = rw (e, seq, seq_or) refl
  under_at false z (truth true t) e h = rw (e, seq, seq_or) refl
  under_at false z (truth false t) e h = rw (e, seq, seq_or) (h t refl)

  seq-under :
      (u : Bool) (z : Run S) → ((t : S) → x s ≡ truth u t → y t ≡ z t) → seq u x y s ≡ seq u x z s
  seq-under u z h = under_at u z (x s) refl h

abbrev pub chain_op : Bool → Op
chain_op true = Op.logical_and
chain_op false = Op.logical_or

pub pair_inj :
    (p q : Bool) (a b : Data) → ◌≡◌ {A = Result (Bool × Data)} (ok (p, a)) (ok (q, b)) → a ≡ b
pair_inj p q a b h = cc

pub ok_data_inj : (a b : Data) → ◌≡◌ {A = Result Data} (ok a) (ok b) → a ≡ b
ok_data_inj a b h = cc

-- The two ways on from a scan.
pub elim_again :
    (P : Type 0) (again : Bool) (b b' : Data) (more : Result Data)
    → elim again [ true ↦ more | false ↦ ok b ] ≡ ok b'
    → (more ≡ ok b' → P)
    → (b ≡ b' → P)
    → P
elim_again P true b b' more e onward done = onward e
elim_again P false b b' more e onward done = done (ok_data_inj b b' e)

module _ (fp : Doubles) {S : Type 0} (field : Data → S → ℕ) (test : Data → S → Bool)
    (charge : Data → S → S)
    (reads : (x y : Data) → expr_equal fp x y ≡ ok true → (s : S) → field x s ≡ field y s)
    (tests : (x y : Data) → expr_equal fp x y ≡ ok true → (s : S) → test x s ≡ test y s)
    (field-charge : (d q : Data) (s : S) → field d (charge q s) ≡ field d s)
    (test-charge : (d q : Data) (s : S) → steady d ≡ true → test d (charge q s) ≡ test d s) where
  pub run-chain :
      (u : Bool) (t : DataType) (a b c : Data) (s : S)
      → run field test charge (Data.op t (chain_op u) a b c) s
        ≡ seq u (run field test charge a) (run field test charge b) s
  unfolding run
  run-chain true t a b c s = refl
  run-chain false t a b c s = refl

  -- A truth value in which a chain goes on leaves the answer of the test as it was.
  answer-after :
      (a : Data)
      → steady a ≡ true
      → (x : Data) (s t : S) (v w : Bool) → answer (run field test charge a s) ≡ v
      → run field test charge x s ≡ truth w t
      → answer (run field test charge a t) ≡ v
  answer-after a h x s t v w ha e =
      let keeps : answer (run field test charge a (end_state (run field test charge x s)))
          ≡ answer (run field test charge a s) =
        run-Keeps field test charge (λ r. answer (run field test charge a r))
          (λ q r. answer-charge field test charge field-charge test-charge a h q r) x s in
      (rw (e, end_state) at keeps) ∙ ha

  -- A test equal to one that passed passes.
  passes :
      (u : Bool) (a x : Data)
      → steady a ≡ true
      → expr_equal fp a x ≡ ok true
      → (s : S) → answer (run field test charge a s) ≡ u
      → run field test charge x s ≡ truth u s
  passes u a x h e s ha =
      sym (run-expr_equal fp field test charge reads tests a x h e s)
      ∙ run-steady field test charge a h s
      ∙ ap (λ v. truth v s) ha

  scan_last :
      (u : Bool) (t : DataType) (a x y z : Data) (same : Bool) (rest : Result (Bool × Data))
      → steady a ≡ true
      → expr_equal fp a y ≡ ok same
      → (again : Bool) (b' : Data)
      → elim same [ true ↦ found false x | false ↦ rest ] ≡ ok (again, b')
      → (s : S) → answer (run field test charge a s) ≡ u
      → (rest ≡ ok (again, b')
          → run field test charge b' s
            ≡ seq u (run field test charge x) (run field test charge y) s)
      → run field test charge b' s ≡ seq u (run field test charge x) (run field test charge y) s
  scan_last u t a x y z true rest h same again b' e s ha further =
      ap (λ d. run field test charge d s) (sym (pair_inj _ _ _ _ e))
      ∙ sym (
          seq-last (run field test charge x) (run field test charge y) s u
            (λ t e'. passes u a y h same t (answer-after a h x s t u u ha e')))
  scan_last u t a x y z false rest h same again b' e s ha further = further e

  scan_first :
      (u : Bool) (a x y : Data) (same : Bool) (rest : Result (Bool × Data))
      → steady a ≡ true
      → expr_equal fp a x ≡ ok same
      → (again : Bool) (b' : Data)
      → elim same [ true ↦ found true y | false ↦ rest ] ≡ ok (again, b')
      → (s : S) → answer (run field test charge a s) ≡ u
      → (rest ≡ ok (again, b')
          → run field test charge b' s
            ≡ seq u (run field test charge x) (run field test charge y) s)
      → run field test charge b' s ≡ seq u (run field test charge x) (run field test charge y) s
  scan_first u a x y true rest h same again b' e s ha further =
      ap (λ d. run field test charge d s) (sym (pair_inj _ _ _ _ e))
      ∙ sym (
          seq-passed (run field test charge x) (run field test charge y) s u s
            (passes u a x h same s ha))
  scan_first u a x y false rest h same again b' e s ha further = further e

  scan-run :
      (u : Bool) (a : Data)
      → steady a ≡ true
      → (b : Data) (again : Bool) (b' : Data) → scan fp (chain_op u) a b ≡ ok (again, b')
      → (s : S) → answer (run field test charge a s) ≡ u
      → run field test charge b' s ≡ run field test charge b s
  unfolding scan
  scan-run u a h (Data.op t o x y z) again b' e s ha = elim (Bool-cases (same_op o (chain_op u))) [
    | inr other ↦ ap (λ d. run field test charge d s) (sym (pair_inj _ _ _ _ (rw (other) at e)))
    | inl same ↦
        let (first, e1, e') = >>=-eq-ok (expr_equal fp a x) _ (rw (same) at e) in
        let is_op : o ≡ chain_op u = same_op-same o (chain_op u) same in
        rw (is_op, run-chain u t x y z s)
          (scan_first u a x y first _ h e1 again b' e' s ha (λ e2.
            let (last, e3, e4) = >>=-eq-ok (expr_equal fp a y) _ e2 in
            scan_last u t a x y z last _ h e3 again b' e4 s ha (λ e5.
              let ((again2, y'), e6, e7) = >>=-eq-ok (scan fp (chain_op u) a y) _ e5 in
              ap (λ d. run field test charge d s) (sym (pair_inj _ _ _ _ e7))
              ∙ ap (λ p. run field test charge (Data.op t p x y' z) s) is_op
              ∙ run-chain u t x y' z s
              ∙ seq-under (run field test charge x) (run field test charge y') s u
                  (run field test charge y)
                  (λ r e8. scan-run u a h y again2 y' e6 r (answer-after a h x s r u u ha e8)))))
  ]
  scan-run u a h b again b' e s ha = ap (λ d. run field test charge d s) (sym (pair_inj _ _ _ _ e))

  pub rescan-run :
      (u : Bool) (a : Data)
      → steady a ≡ true
      → (fuel : ℕ) (b b' : Data) → rescan fp fuel (chain_op u) a b ≡ ok b'
      → (s : S) → answer (run field test charge a s) ≡ u
      → run field test charge b' s ≡ run field test charge b s
  unfolding rescan
  rescan-run u a h zero b b' e s ha = cc
  rescan-run u a h (suc fuel) b b' e s ha =
      let (rest, e1, e2) = >>=-eq-ok (scan fp (chain_op u) a b) _ e in
      elim_again _ rest.0 rest.1 b' (rescan fp fuel (chain_op u) a rest.1) e2
        (λ more. rescan-run u a h fuel rest.1 b' more s ha)
        (λ done. ap (λ d. run field test charge d s) (sym done))
      ∙ scan-run u a h b rest.0 rest.1 e1 s ha

  pub rescan-node :
      (u : Bool) (t : DataType) (a b b' c : Data)
      → steady a ≡ true
      → (fuel : ℕ) → rescan fp fuel (chain_op u) a b ≡ ok b'
      → (s : S)
      → run field test charge (Data.op t (chain_op u) a b' c) s
        ≡ run field test charge (Data.op t (chain_op u) a b c) s
  rescan-node u t a b b' c h fuel e s =
      run-chain u t a b' c s
      ∙ seq-under (run field test charge a) (run field test charge b') s u (run field test charge b)
          (λ r ea. rescan-run u a h fuel b b' e r (answer-after a h a s r u u (ap answer ea) ea))
      ∙ sym (run-chain u t a b c s)
