-- ===== src/Iflib/Subexpressions/Cut.antt =====
-- What the loop of common_subexpressions in tcc/iflib_red.c leaves of a chain.
use tcng.Common.{ℕ, zero, suc, Bool, true, false, ◌≡◌, refl, sym, ap, ◌∙◌}
use tcng.Common.{Result, ok, >>=-eq-ok, Bool-cases, ◌⊎◌, inl, inr}
use tcng.Data.{Data, DataType, Op, Doubles, same_op, op_code, expr_equal}
use tcng.Iflib.Subexpressions.{found, scan, rescan}
use tcng.Iflib.Subexpressions.Equal.{steady, same_op-same}
use tcng.Iflib.Subexpressions.Meanings.{chain_op, pair_inj, ok_data_inj, elim_again}
use tcng.Iflib.Subexpressions.Suits.{headed, Unlike, Suits, chain-Suits, chain_parts, Unlike-end}

-- What a scan leaves of a chain.
pub data Cut (o : Op) : Data → Data → Type 0 where
  keep : (b : Data) → Cut o b b
  first : (t : DataType) (x y z : Data) → Cut o (Data.op t o x y z) y
  last : (t : DataType) (x y z : Data) → Cut o (Data.op t o x y z) x
  within :
      (t : DataType) (x y y' z : Data) → Cut o y y' → Cut o (Data.op t o x y z) (Data.op t o x y' z)

module _ (fp : Doubles) where
  Cut_path : (o : Op) (b c d : Data) → Cut o b c → c ≡ d → Cut o b d
  Cut_path o b c d h e = rw (sym e) h

  scan_choice :
      (o : Op) (b c : Data) (same : Bool) (r : Bool) (rest : Result (Bool × Data)) (again : Bool)
      (b' : Data)
      → elim same [ true ↦ found r c | false ↦ rest ] ≡ ok (again, b')
      → Cut o b c
      → (rest ≡ ok (again, b') → Cut o b b')
      → Cut o b b'
  scan_choice o b c true r rest again b' e here further =
      Cut_path o b c b' here (pair_inj _ _ _ _ e)
  scan_choice o b c false r rest again b' e here further = further e

  pub scan-Cut :
      (o : Op) (a b : Data) (again : Bool) (b' : Data) → scan fp o a b ≡ ok (again, b') → Cut o b b'
  unfolding scan
  scan-Cut o a (Data.op t p x y z) again b' e = elim (Bool-cases (same_op p o)) [
    | inr other ↦
        Cut_path o (Data.op t p x y z) (Data.op t p x y z) b' (Cut.keep (Data.op t p x y z))
          (pair_inj _ _ _ _ (rw (other) at e))
    | inl same ↦
        let (is_first, e1, e2) = >>=-eq-ok (expr_equal fp a x) _ (rw (same) at e) in
        let is_op : p ≡ o = same_op-same p o same in
        rw (is_op) (
          scan_choice o (Data.op t o x y z) y is_first true _ again b' e2 (Cut.first t x y z) (λ e3.
            let (is_last, e4, e5) = >>=-eq-ok (expr_equal fp a y) _ e3 in
            scan_choice o (Data.op t o x y z) x is_last false _ again b' e5 (Cut.last t x y z)
              (λ e6.
                let ((again2, y'), e7, e8) = >>=-eq-ok (scan fp o a y) _ e6 in
                Cut_path o (Data.op t o x y z) (Data.op t o x y' z) b'
                  (Cut.within t x y y' z (scan-Cut o a y again2 y' e7))
                  (ap (λ q. Data.op t q x y' z) (sym is_op) ∙ pair_inj _ _ _ _ e8))))
  ]
  scan-Cut o a b again b' e = Cut_path o b b b' (Cut.keep b) (pair_inj _ _ _ _ e)

  chain_differs :
      (u : Bool) (t : DataType) (e x y z : Data)
      → Unlike fp (chain_op u) e (Data.op t (chain_op u) x y z)
      → (expr_equal fp e x ≡ ok false) × Unlike fp (chain_op u) e y
  unfolding Unlike same_op op_code
  chain_differs true t e x y z h = h
  chain_differs false t e x y z h = h

  chain-Unlike :
      (u : Bool) (t : DataType) (e x y z : Data)
      → (expr_equal fp e x ≡ ok false) × Unlike fp (chain_op u) e y
      → Unlike fp (chain_op u) e (Data.op t (chain_op u) x y z)
  unfolding Unlike same_op op_code
  chain-Unlike true t e x y z h = h
  chain-Unlike false t e x y z h = h

  Unlike-Cut :
      (u : Bool) (e b b' : Data)
      → Cut (chain_op u) b b'
      → Suits fp b
      → Unlike fp (chain_op u) e b
      → Unlike fp (chain_op u) e b'
  Unlike-Cut u e b b' (Cut.keep _) h un = un
  Unlike-Cut u e b b' (Cut.first t x y z) h un = (chain_differs u t e x y z un).1
  Unlike-Cut u e b b' (Cut.last t x y z) h un =
      let alone = chain_parts fp u t x y z h in
      rw (Unlike-end fp (chain_op u) e x alone.1) ((chain_differs u t e x y z un).0)
  Unlike-Cut u e b b' (Cut.within t x y y' z cut) h un =
      let (differs, rest) = chain_differs u t e x y z un in
      chain-Unlike u t e x y' z
        (differs, Unlike-Cut u e y y' cut ((chain_parts fp u t x y z h).3) rest)

  pub Suits-Cut : (u : Bool) (b b' : Data) → Cut (chain_op u) b b' → Suits fp b → Suits fp b'
  Suits-Cut u b b' (Cut.keep _) h = h
  Suits-Cut u b b' (Cut.first t x y z) h = (chain_parts fp u t x y z h).3
  Suits-Cut u b b' (Cut.last t x y z) h = (chain_parts fp u t x y z h).2
  Suits-Cut u b b' (Cut.within t x y y' z cut) h =
      let (kind, alone, suits_x, suits_y) = chain_parts fp u t x y z h in
      let kind' : (steady x ≡ true) ⊎ Unlike fp (chain_op u) x y' = elim kind [
        | inl tests ↦ inl tests
        | inr differs ↦ inr (Unlike-Cut u x y y' cut suits_y differs)
      ] in
      chain-Suits fp u t x y' z (kind', alone, suits_x, Suits-Cut u y y' cut suits_y)

  not_headed :
      (o : Op) (t : DataType) (a x y z : Data)
      → headed o a ≡ false
      → expr_equal fp a (Data.op t o x y z) ≡ ok false
  unfolding expr_equal
  not_headed o t (Data.op t' p a b c) x y z h = rw (h, expr_equal) refl
  not_headed o t a x y z h = refl

  tail_differs :
      (u : Bool) (a y : Data)
      → headed (chain_op u) a ≡ false
      → Unlike fp (chain_op u) a y
      → expr_equal fp a y ≡ ok false
  tail_differs u a y h un = elim (Bool-cases (headed (chain_op u) y)) [
    | inl chain ↦ in_chain y chain
    | inr end ↦ rw (Unlike-end fp (chain_op u) a y end) at un
  ]
    where
      in_chain : (d : Data) → headed (chain_op u) d ≡ true → expr_equal fp a d ≡ ok false
      in_chain (Data.op t p b c d) chain =
          rw (same_op-same p (chain_op u) chain) (not_headed (chain_op u) t a b c d h)
      in_chain d chain = cc

  -- Nothing is found that would be like an unlike part.
  scan-Unlike :
      (u : Bool) (a b : Data)
      → headed (chain_op u) a ≡ false
      → Unlike fp (chain_op u) a b
      → scan fp (chain_op u) a b ≡ ok (false, b)
  unfolding scan
  scan-Unlike u a (Data.op t p x y z) h un = elim (Bool-cases (same_op p (chain_op u))) [
    | inr other ↦ rw (other, scan) refl
    | inl same ↦
        let is_op : p ≡ chain_op u = same_op-same p (chain_op u) same in
        let (differs, rest) = chain_differs u t a x y z (rw (is_op) at un) in
        rw (same, scan, differs, tail_differs u a y h rest, scan-Unlike u a y h rest) refl
  ]
  scan-Unlike u a b h un = refl

  pub rescan-Unlike :
      (u : Bool) (a : Data) (fuel : ℕ) (b b' : Data)
      → headed (chain_op u) a ≡ false
      → Unlike fp (chain_op u) a b
      → rescan fp fuel (chain_op u) a b ≡ ok b'
      → b ≡ b'
  unfolding rescan
  rescan-Unlike u a zero b b' h un e = cc
  rescan-Unlike u a (suc fuel) b b' h un e = ok_data_inj b b' (rw (scan-Unlike u a b h un) at e)

  pub rescan-Suits :
      (u : Bool) (a : Data) (fuel : ℕ) (b b' : Data)
      → rescan fp fuel (chain_op u) a b ≡ ok b'
      → Suits fp b
      → Suits fp b'
  unfolding rescan
  rescan-Suits u a zero b b' e h = cc
  rescan-Suits u a (suc fuel) b b' e h =
      let (rest, e1, e2) = >>=-eq-ok (scan fp (chain_op u) a b) _ e in
      let suits_rest = Suits-Cut u b rest.1 (scan-Cut (chain_op u) a b rest.0 rest.1 e1) h in
      elim_again (Suits fp b') rest.0 rest.1 b' (rescan fp fuel (chain_op u) a rest.1) e2
        (λ more. rescan-Suits u a fuel rest.1 b' more suits_rest) (λ done. rw (sym done) suits_rest)
