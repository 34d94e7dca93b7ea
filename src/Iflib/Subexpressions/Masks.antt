-- ===== src/Iflib/Subexpressions/Masks.antt =====
-- common_subexpressions of tcc/iflib_red.c on masks joined by `&`: the number stays the same.
use native.Mathlib.Nat.{le_refl}
use tcng.Common.{
  ◌+◌, ℕ, zero, suc, bit_and, Bool, true, false, ◌&&◌, ◌≡◌, refl, sym, ap, ap₂, ◌∙◌, arith,
}
use tcng.Common.{Result, ok, >>=-eq-ok, Bool-cases, inl, inr}
use tcng.Common.Digits.{and_self, and_again, and_swap, and_comm}
use tcng.Data.{Data, DataType, Op, Doubles, same_op, expr_equal}
use tcng.Iflib.Meaning.{number}
use tcng.Iflib.Subexpressions.{found, scan, rescan, rescan_node, common_subexpressions}
use tcng.Iflib.Subexpressions.Unchanged.{operands, common_subexpressions-flat}
use tcng.Iflib.Subexpressions.Equal.{same_op-same, number-expr_equal, and_left, and_right}
use tcng.Iflib.Subexpressions.Meanings.{pair_inj, ok_data_inj, elim_again}
use tcng.Iflib.Subexpressions.Suits.{masks}
use tcng.Iflib.Subexpressions.Cut.{Cut, scan-Cut}

last_again : (a x : ℕ) → bit_and a x ≡ bit_and a (bit_and x a)
last_again a x =
    and_comm (a + x) a x (le_refl (a + x))
    ∙ ap (bit_and x) (sym (and_self a))
    ∙ sym (and_swap a x a)

masks-Cut : (b b' : Data) → Cut Op.and b b' → masks b ≡ true → masks b' ≡ true
unfolding masks
masks-Cut b b' (Cut.keep _) h = h
masks-Cut b b' (Cut.first t x y z) h = and_right _ _ h
masks-Cut b b' (Cut.last t x y z) h = and_left _ _ h
masks-Cut b b' (Cut.within t x y y' z cut) h =
    both_hold (and_left _ _ h) (masks-Cut y y' cut (and_right _ _ h))
  where
    both_hold : {p q : Bool} → p ≡ true → q ≡ true → (p && q) ≡ true
    both_hold {p} {q} hp hq = ground arith

module _ (fp : Doubles) where
  pub rescan-masks :
      (a : Data) (fuel : ℕ) (b b' : Data)
      → rescan fp fuel Op.and a b ≡ ok b'
      → masks b ≡ true
      → masks b' ≡ true
  unfolding rescan
  rescan-masks a zero b b' e h = cc
  rescan-masks a (suc fuel) b b' e h =
      let (rest, e1, e2) = >>=-eq-ok (scan fp Op.and a b) _ e in
      let left = masks-Cut b rest.1 (scan-Cut fp Op.and a b rest.0 rest.1 e1) h in
      elim_again (masks b' ≡ true) rest.0 rest.1 b' (rescan fp fuel Op.and a rest.1) e2
        (λ more. rescan-masks a fuel rest.1 b' more left) (λ done. rw (sym done) left)

module _ (fp : Doubles) {S : Type 0} (field : Data → S → ℕ) (test : Data → S → Bool)
    (charge : Data → S → S)
    (reads : (x y : Data) → expr_equal fp x y ≡ ok true → (s : S) → field x s ≡ field y s)
    (tests : (x y : Data) → expr_equal fp x y ≡ ok true → (s : S) → test x s ≡ test y s)
    (s : S) where
  abbrev num : Data → ℕ
  num d = number field test charge d s

  number-and :
      (t : DataType) (a b c : Data) → num (Data.op t Op.and a b c) ≡ bit_and (num a) (num b)
  unfolding number
  number-and t a b c = refl

  -- The two comparisons of a scan: a part that equals the operand may go.
  scan_step :
      (a x y c : Data) (same again again' : Bool) (rest : Result (Bool × Data)) (b' : Data)
      → elim same [ true ↦ found again' c | false ↦ rest ] ≡ ok (again, b')
      → (same ≡ true → bit_and (num a) (num c) ≡ bit_and (num a) (bit_and (num x) (num y)))
      → (rest ≡ ok (again, b')
          → bit_and (num a) (num b') ≡ bit_and (num a) (bit_and (num x) (num y)))
      → bit_and (num a) (num b') ≡ bit_and (num a) (bit_and (num x) (num y))
  scan_step a x y c true again again' rest b' e here further =
      ap (λ d. bit_and (num a) (num d)) (sym (pair_inj _ _ _ _ e)) ∙ here refl
  scan_step a x y c false again again' rest b' e here further = further e

  scan-number :
      (a b : Data) (again : Bool) (b' : Data)
      → scan fp Op.and a b ≡ ok (again, b')
      → bit_and (num a) (num b') ≡ bit_and (num a) (num b)
  unfolding scan
  scan-number a (Data.op t o x y z) again b' e = elim (Bool-cases (same_op o Op.and)) [
    | inr other ↦ ap (λ d. bit_and (num a) (num d)) (sym (pair_inj _ _ _ _ (rw (other) at e)))
    | inl same ↦
        let is_op : o ≡ Op.and = same_op-same o Op.and same in
        let (first, e1, e') = >>=-eq-ok (expr_equal fp a x) _ (rw (same) at e) in
        rw (is_op, number-and t x y z)
          (scan_step a x y y first again true _ b' e'
            (λ is.
              rw (sym (number-expr_equal fp field test charge reads tests a x (e1 ∙ ap ok is) s))
                (sym (and_again (num a) (num y))))
            (λ e2.
              let (last, e3, e4) = >>=-eq-ok (expr_equal fp a y) _ e2 in
              scan_step a x y x last again false _ b' e4
                (λ is.
                  rw
                    (sym (number-expr_equal fp field test charge reads tests a y (e3 ∙ ap ok is) s))
                    (last_again (num a) (num x)))
                (λ e5.
                  let ((again2, y'), e6, e7) = >>=-eq-ok (scan fp Op.and a y) _ e5 in
                  ap (λ d. bit_and (num a) (num d)) (sym (pair_inj _ _ _ _ e7))
                  ∙ ap (λ p. bit_and (num a) (num (Data.op t p x y' z))) is_op
                  ∙ ap (bit_and (num a)) (number-and t x y' z)
                  ∙ and_swap (num a) (num x) (num y')
                  ∙ ap (bit_and (num x)) (scan-number a y again2 y' e6)
                  ∙ sym (and_swap (num a) (num x) (num y)))))
  ]
  scan-number a b again b' e = ap (λ d. bit_and (num a) (num d)) (sym (pair_inj _ _ _ _ e))

  rescan-number :
      (a : Data) (fuel : ℕ) (b b' : Data)
      → rescan fp fuel Op.and a b ≡ ok b'
      → bit_and (num a) (num b') ≡ bit_and (num a) (num b)
  unfolding rescan
  rescan-number a zero b b' e = cc
  rescan-number a (suc fuel) b b' e =
      let (rest, e1, e2) = >>=-eq-ok (scan fp Op.and a b) _ e in
      elim_again _ rest.0 rest.1 b' (rescan fp fuel Op.and a rest.1) e2
        (λ more. rescan-number a fuel rest.1 b' more)
        (λ done. ap (λ d. bit_and (num a) (num d)) (sym done))
      ∙ scan-number a b rest.0 rest.1 e1

  pub masks-number :
      (fuel : ℕ) (d d' : Data)
      → masks d ≡ true
      → common_subexpressions fp fuel d ≡ ok d'
      → num d' ≡ num d
  unfolding common_subexpressions masks rescan_node
  masks-number zero d d' h e = cc
  masks-number (suc fuel) (Data.op t Op.and a b c) d' h e =
      let (node, e1, e2) = >>=-eq-ok (rescan_node fp fuel (Data.op t Op.and a b c)) _ e in
      let (b1, found_b, e3) = >>=-eq-ok (rescan fp fuel Op.and a b) _ e1 in
      let (a', b', c', ea, eb, ec, e4) =
        operands fp (common_subexpressions fp fuel) t Op.and a b1 c d'
          (rw (sym (ok_data_inj _ _ e3)) at e2) in
      ap num (sym e4)
      ∙ number-and t a' b' c'
      ∙ ap₂ bit_and (masks-number fuel a a' (and_left _ _ h) ea)
          (masks-number fuel b1 b' (rescan-masks fp a fuel b b1 found_b (and_right _ _ h)) eb)
      ∙ rescan-number a fuel b b1 found_b
      ∙ sym (number-and t a b c)
  masks-number (suc fuel) (Data.op t o a b c) d' h e =
      ap num (sym (common_subexpressions-flat fp (suc fuel) (Data.op t o a b c) d' h e))
  masks-number (suc fuel) d d' h e = ap num (sym (ok_data_inj d d' e))
