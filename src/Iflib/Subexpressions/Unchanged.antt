-- ===== src/Iflib/Subexpressions/Unchanged.antt =====
-- common_subexpressions of tcc/iflib_red.c changes nothing where there is no chain.
use tcng.Common.{ℕ, zero, suc, Bool, true, false, not, ◌&&◌, ◌≡◌, refl, sym, ap, ◌∙◌, arith}
use tcng.Common.{Result, ok, ◌>>=◌, >>=-eq-ok, Bool-cases, inl, inr}
use tcng.Data.{Data, DataType, Op, Doubles}
use tcng.Iflib.Subexpressions.{
  repeats, scan, rescan, rescan_node, on_operands, common_subexpressions,
}
use tcng.Iflib.Subexpressions.Equal.{and_left, and_right}
use tcng.Iflib.Subexpressions.Meanings.{chain_op, ok_data_inj}
use tcng.Iflib.Subexpressions.Suits.{headed, flat}

not_both : (p q r : Bool) → (not (p && q) && r) ≡ true → p ≡ true → q ≡ false
not_both p q r h e = ground arith

same_node :
    (t : DataType) (o : Op) (a a' b b' c c' : Data)
    → a ≡ a'
    → b ≡ b'
    → c ≡ c'
    → Data.op t o a b c ≡ Data.op t o a' b' c'
same_node t o a a' b b' c c' ha hb hc = cc

module _ (fp : Doubles) where
  scan_end : (o : Op) (a b : Data) → headed o b ≡ false → scan fp o a b ≡ ok (false, b)
  unfolding scan
  scan_end o a (Data.op t p x y z) h = rw (h, scan) refl
  scan_end o a b h = refl

  rescan_end :
      (fuel : ℕ) (o : Op) (a b b' : Data)
      → headed o b ≡ false
      → rescan fp fuel o a b ≡ ok b'
      → b ≡ b'
  unfolding rescan
  rescan_end zero o a b b' h e = cc
  rescan_end (suc fuel) o a b b' h e = ok_data_inj b b' (rw (scan_end o a b h) at e)

  pub rescan_node-chain :
      (fuel : ℕ) (u : Bool) (t : DataType) (a b c : Data)
      → rescan_node fp fuel (Data.op t (chain_op u) a b c)
        ≡ (rescan fp fuel (chain_op u) a b >>= λ (b' : Data). ok (Data.op t (chain_op u) a b' c))
  unfolding rescan_node
  rescan_node-chain fuel true t a b c = refl
  rescan_node-chain fuel false t a b c = refl

  -- The operands of a result.
  pub operands :
      (f : Data → Result Data) (t : DataType) (o : Op) (a b c d' : Data)
      → on_operands fp f (Data.op t o a b c) ≡ ok d'
      → (a' : Data) × (b' : Data) × (c' : Data) × (f a ≡ ok a')
        × (f b ≡ ok b')
        × (f c ≡ ok c')
        × (Data.op t o a' b' c' ≡ d')
  unfolding on_operands
  operands f t o a b c d' e =
      let (a', ea, e1) = >>=-eq-ok (f a) _ e in
      let (b', eb, e2) = >>=-eq-ok (f b) _ e1 in
      let (c', ec, e3) = >>=-eq-ok (f c) _ e2 in (a', b', c', ea, eb, ec, ok_data_inj _ _ e3)

  flat-rescan_node :
      (fuel : ℕ) (t : DataType) (o : Op) (a b c e : Data)
      → flat (Data.op t o a b c) ≡ true
      → rescan_node fp fuel (Data.op t o a b c) ≡ ok e
      → Data.op t o a b c ≡ e
  unfolding rescan_node flat
  flat-rescan_node fuel t o a b c e h r = elim (Bool-cases (repeats o)) [
    | inr other ↦ ok_data_inj _ _ (rw (other) at r)
    | inl chain ↦
        let (b', e1, e2) = >>=-eq-ok (rescan fp fuel o a b) _ (rw (chain) at r) in
        let alone : headed o b ≡ false = not_both _ _ _ h chain in
        ap (λ d. Data.op t o a d c) (rescan_end fuel o a b b' alone e1) ∙ ok_data_inj _ _ e2
  ]

  -- Without a chain nothing changes.
  pub common_subexpressions-flat :
      (fuel : ℕ) (d d' : Data) → flat d ≡ true → common_subexpressions fp fuel d ≡ ok d' → d ≡ d'
  unfolding common_subexpressions flat
  common_subexpressions-flat zero d d' h e = cc
  common_subexpressions-flat (suc fuel) (Data.op t o a b c) d' h e =
      let (node, e1, e2) = >>=-eq-ok (rescan_node fp fuel (Data.op t o a b c)) _ e in
      let same = flat-rescan_node fuel t o a b c node h e1 in
      let (a', b', c', ea, eb, ec, e3) =
        operands (common_subexpressions fp fuel) t o a b c d' (rw (sym same) at e2) in
      let rest = and_right _ _ h in
      same_node t o a a' b b' c c' (common_subexpressions-flat fuel a a' (and_left _ _ rest) ea)
        (common_subexpressions-flat fuel b b' (and_left _ _ (and_right _ _ rest)) eb)
        (common_subexpressions-flat fuel c c' (and_right _ _ (and_right _ _ rest)) ec)
      ∙ e3
  common_subexpressions-flat (suc fuel) d d' h e = ok_data_inj d d' e
