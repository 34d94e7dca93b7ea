-- ===== src/Iflib/Subexpressions/Returns.antt =====
-- common_subexpressions of tcc/iflib_red.c comes to an end.
use tcng.Common.{ℕ, zero, suc, ◌+◌, ◌≤◌, ◌<◌, Bool, true, false, ◌&&◌, ◌==◌, ◌≡◌, refl, arith}
use tcng.Common.{Result, ok, ◌>>=◌, Bool-cases, inl, inr, if◌then◌else◌}
use tcng.U128.{u128_cmp}
use tcng.Data.{
  Data, DataType, Op, Doubles, same_op, expr_equal, data_equal, same_string, same_decision, is_same,
}
use tcng.Iflib.Meaning.{run}
use tcng.Iflib.Subexpressions.{
  repeats, scan, rescan, rescan_node, on_operands, common_subexpressions,
}
use tcng.Iflib.Subexpressions.Equal.{steady}
use tcng.Iflib.Subexpressions.Suits.{Suits}
use tcng.Iflib.Subexpressions.Preserved.{run-common_subexpressions}

-- The constants in it are of types that data_equal compares.
unfoldable pub comparable : Data → Bool
comparable (Data.device p) = false
comparable (Data.tunnel p) = false
comparable (Data.list p) = false
comparable (Data.field p) = false
comparable (Data.assoc es) = false
comparable (Data.op t o a b c) = comparable a && (comparable b && comparable c)
comparable d = true

unfoldable pub size : Data → ℕ
size (Data.op t o a b c) = suc (size a + (size b + size c))
size d = 1

size_positive : (d : Data) → 1 ≤ size d
unfolding size
size_positive (Data.op t o a b c) = omega arith
size_positive d = omega arith

comparable-operands :
    (t : DataType) (o : Op) (a b c : Data)
    → comparable (Data.op t o a b c) ≡ true
    → (comparable a ≡ true) × (comparable b ≡ true) × (comparable c ≡ true)
unfolding comparable
comparable-operands t o a b c h = (ground arith, ground arith, ground arith)

operands-comparable :
    (t : DataType) (o : Op) (a b c : Data)
    → comparable a ≡ true
    → comparable b ≡ true
    → comparable c ≡ true
    → comparable (Data.op t o a b c) ≡ true
unfolding comparable
operands-comparable t o a b c ha hb hc = ground arith

-- What a short-cut `&&` of comparisons gives.
both_return :
    (x y : Result Bool)
    → (v : Bool) × (x ≡ ok v)
    → (v : Bool) × (y ≡ ok v)
    → (v : Bool) × ((x >>= λ (same : Bool). elim same [ true ↦ y | false ↦ ok false ]) ≡ ok v)
both_return x y (true, ex) (w, ey) = (w, rw (ex) ey)
both_return x y (false, ex) (w, ey) = (false, rw (ex) refl)

module _ (fp : Doubles) where
  equal-comparable :
      (x y : Data)
      → comparable x ≡ true
      → comparable y ≡ true
      → (v : Bool) × (expr_equal fp x y ≡ ok v)
  unfolding comparable expr_equal data_equal
  equal-comparable (Data.op t o a b c) (Data.op t' o' a' b' c') hx hy =
      let (ha, hb, hc) = comparable-operands t o a b c hx in
      let (ha', hb', hc') = comparable-operands t' o' a' b' c' hy in
      let (v, e) =
        both_return (expr_equal fp a a')
          (expr_equal fp b b' >>= λ (same : Bool). elim same [
            | true ↦ expr_equal fp c c'
            | false ↦ ok false
          ])
          (equal-comparable a a' ha ha')
          (both_return (expr_equal fp b b') (expr_equal fp c c') (equal-comparable b b' hb hb')
            (equal-comparable c c' hc hc')) in
      elim (Bool-cases (same_op o o')) [
        | inl same ↦ (v, rw (same) e)
        | inr other ↦ (false, rw (other) refl)
      ]
  equal-comparable (Data.op t o a b c) y hx hy = (false, refl)
  equal-comparable x (Data.op t o a b c) hx hy = (false, refl)
  equal-comparable (Data.unum m) (Data.unum n) hx hy = (m == n, refl)
  equal-comparable (Data.ipv4 m) (Data.ipv4 n) hx hy = (m == n, refl)
  equal-comparable (Data.ipv6 m) (Data.ipv6 n) hx hy = (is_same (u128_cmp m n), refl)
  equal-comparable (Data.fnum m) (Data.fnum n) hx hy = (fp.equal m n, refl)
  equal-comparable (Data.rate m) (Data.rate n) hx hy = (fp.equal m n, refl)
  equal-comparable (Data.prate m) (Data.prate n) hx hy = (fp.equal m n, refl)
  equal-comparable (Data.size m) (Data.size n) hx hy = (fp.equal m n, refl)
  equal-comparable (Data.psize m) (Data.psize n) hx hy = (fp.equal m n, refl)
  equal-comparable (Data.time m) (Data.time n) hx hy = (fp.equal m n, refl)
  equal-comparable (Data.string m) (Data.string n) hx hy = (same_string m n, refl)
  equal-comparable (Data.qdisc m) (Data.qdisc n) hx hy = (m == n, refl)
  equal-comparable (Data.class m) (Data.class n) hx hy = (m == n, refl)
  equal-comparable (Data.filter m) (Data.filter n) hx hy = (m == n, refl)
  equal-comparable (Data.police m) (Data.police n) hx hy = (m == n, refl)
  equal-comparable (Data.bucket m) (Data.bucket n) hx hy = (m == n, refl)
  equal-comparable (Data.field_root m) (Data.field_root n) hx hy = (m == n, refl)
  equal-comparable (Data.decision r m) (Data.decision q n) hx hy = (same_decision r m q n, refl)
  equal-comparable Data.none Data.none hx hy = (true, refl)
  equal-comparable (Data.device p) y hx hy = cc
  equal-comparable (Data.tunnel p) y hx hy = cc
  equal-comparable (Data.list p) y hx hy = cc
  equal-comparable (Data.field p) y hx hy = cc
  equal-comparable (Data.assoc es) y hx hy = cc
  equal-comparable x y hx hy = (false, refl)

  -- What is left of a part of a chain.
  abbrev Left : Bool → Data → Data → Type 0
  Left again b b' = (comparable b' ≡ true) × (size b' + (if again then 1 else 0) ≤ size b)

  scan-returns :
      (o : Op) (a b : Data)
      → comparable a ≡ true
      → comparable b ≡ true
      → (again : Bool) × (b' : Data) × (scan fp o a b ≡ ok (again, b')) × Left again b b'
  unfolding scan size
  scan-returns o a (Data.op t p x y z) ha hb =
      let (hx, hy, hz) = comparable-operands t p x y z hb in
      elim (Bool-cases (same_op p o)) [
        | inr other ↦ (false, Data.op t p x y z, rw (other, scan) refl, (hb, omega arith))
        | inl same ↦
            let (is_first, e) = equal-comparable a x ha hx in
            let (is_last, e') = equal-comparable a y ha hy in
            let (again, y', rest, (hy', smaller)) = scan-returns o a y ha hy in
            elim (Bool-cases is_first) [
              | inl first ↦ (true, y, rw (same, scan, e, first) refl, (hy, omega arith))
              | inr no_first ↦ elim (Bool-cases is_last) [
                | inl last ↦
                    (false, x, rw (same, scan, e, no_first, e', last) refl, (hx, omega arith))
                | inr no_last ↦ (
                  again,
                  Data.op t p x y' z,
                  rw (same, scan, e, no_first, e', no_last, rest) refl,
                  (operands-comparable t p x y' z hx hy' hz, omega arith),
                )
              ]
            ]
      ]
  scan-returns o a b ha hb = (false, b, refl, (hb, omega arith))

  abbrev Rescanned : ℕ → Op → Data → Data → Type 0
  Rescanned fuel o a b =
      (b' : Data) × (rescan fp fuel o a b ≡ ok b') × (comparable b' ≡ true) × (size b' ≤ size b)

  rescan_step :
      (fuel : ℕ) (o : Op) (a b b1 : Data) (again : Bool)
      → scan fp o a b ≡ ok (again, b1)
      → Left again b b1
      → size b < suc fuel
      → ((c : Data) → comparable c ≡ true → size c < fuel → Rescanned fuel o a c)
      → Rescanned (suc fuel) o a b
  unfolding rescan
  rescan_step fuel o a b b1 true e (hb1, smaller) h more =
      let (b', e', hb', smaller') = more b1 hb1 (omega arith) in (b', rw (e) e', hb', omega arith)
  rescan_step fuel o a b b1 false e (hb1, smaller) h more = (b1, rw (e) refl, hb1, omega arith)

  rescan-returns :
      (fuel : ℕ) (o : Op) (a b : Data)
      → comparable a ≡ true
      → comparable b ≡ true
      → size b < fuel
      → Rescanned fuel o a b
  rescan-returns zero o a b ha hb h = absurd (omega arith)
  rescan-returns (suc fuel) o a b ha hb h =
      let (again, b1, e, left) = scan-returns o a b ha hb in
      rescan_step fuel o a b b1 again e left h (λ c hc less. rescan-returns fuel o a c ha hc less)

  node-returns :
      (fuel : ℕ) (t : DataType) (o : Op) (a b c : Data)
      → comparable (Data.op t o a b c) ≡ true
      → size (Data.op t o a b c) ≤ suc fuel
      → (b' : Data) × (rescan_node fp fuel (Data.op t o a b c) ≡ ok (Data.op t o a b' c))
        × (comparable b' ≡ true)
        × (size b' ≤ size b)
  unfolding rescan_node size
  node-returns fuel t o a b c h enough =
      let (ha, hb, hc) = comparable-operands t o a b c h in
      let positive = size_positive a in
      let (b', e, hb', smaller) = rescan-returns fuel o a b ha hb (omega arith) in
      elim (Bool-cases (repeats o)) [
        | inl chain ↦ (b', rw (chain, e) refl, hb', smaller)
        | inr other ↦ (b, rw (other) refl, hb, omega arith)
      ]

  pub common_subexpressions-returns :
      (fuel : ℕ) (d : Data)
      → comparable d ≡ true
      → size d ≤ fuel
      → (d' : Data) × (common_subexpressions fp fuel d ≡ ok d')
  unfolding common_subexpressions size on_operands
  common_subexpressions-returns zero d h enough =
      let positive = size_positive d in absurd (omega arith)
  common_subexpressions-returns (suc fuel) (Data.op t o a b c) h enough =
      let (ha, hb, hc) = comparable-operands t o a b c h in
      let (b1, e, hb1, smaller) = node-returns fuel t o a b c h enough in
      let (a', ea) = common_subexpressions-returns fuel a ha (omega arith) in
      let (b', eb) = common_subexpressions-returns fuel b1 hb1 (omega arith) in
      let (c', ec) = common_subexpressions-returns fuel c hc (omega arith) in
      (Data.op t o a' b' c', rw (e, ea, eb, ec) refl)
  common_subexpressions-returns (suc fuel) d h enough = (d, refl)

module _ (fp : Doubles) {S : Type 0} (field : Data → S → ℕ) (test : Data → S → Bool)
    (charge : Data → S → S)
    (reads : (x y : Data) → expr_equal fp x y ≡ ok true → (s : S) → field x s ≡ field y s)
    (tests : (x y : Data) → expr_equal fp x y ≡ ok true → (s : S) → test x s ≡ test y s)
    (field-charge : (d q : Data) (s : S) → field d (charge q s) ≡ field d s)
    (test-charge : (d q : Data) (s : S) → steady d ≡ true → test d (charge q s) ≡ test d s) where
  -- For fuel for the size of an expression whose constants data_equal compares, and whose chains
  -- of && and || are linear, with a first operand at each link that neither counts, decides nor
  -- asks a policer, or that equals no later one: common_subexpressions returns an expression
  -- that decides every packet as the given one does, with the same effects on the state. A test
  -- holds no operator &, |, && or || with the same operator at the top of its right operand,
  -- except for two & that stand in an operand of the test's == or != with no operator but &
  -- above them. Fields and tests must agree on what expr_equal takes for equal, and a charge
  -- changes no field and no other test than conform.
  pub common_subexpressions-run :
      (fuel : ℕ) (d : Data)
      → comparable d ≡ true
      → size d ≤ fuel
      → Suits fp d
      → (d' : Data) × (common_subexpressions fp fuel d ≡ ok d')
        × ((s : S) → run field test charge d' s ≡ run field test charge d s)
  common_subexpressions-run fuel d h enough suits =
      let (d', e) = common_subexpressions-returns fp fuel d h enough in
      (
        d',
        e,
        run-common_subexpressions fp field test charge reads tests field-charge test-charge fuel d
            d' suits e,
      )
