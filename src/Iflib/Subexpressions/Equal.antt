-- ===== src/Iflib/Subexpressions/Equal.antt =====
-- expr_equal of tcc/iflib_red.c against Iflib/Meaning: tests that it does not tell apart.
use mathlib.Core.Path.{fun_ext}
use tcng.Common.{
  not, ◌==◌, bit_and, ℕ, zero, suc, Bool, true, false, ◌&&◌, ◌≡◌, refl, sym, ap, ap₂, ◌∙◌, arith,
  List, [], ◌∷◌,
}
use tcng.Common.{Result, ok, err, ◌>>=◌, ==_iff, Bool-cases, inl, inr}
use tcng.U128.Compare.{u128_cmp-same_iff}
use tcng.U128.{U128, Cmp, u128_cmp}
use tcng.U128.Value.{value}
use tcng.Data.{Data, DataType, Op, Doubles, same_op, op_code, expr_equal, data_equal, is_same}
use tcng.Op.Logic.{truth_of}
use tcng.Iflib.Meaning.{number, run, truth, seq_and, seq_or, seq_not}

pub and_left : (p q : Bool) → (p && q) ≡ true → p ≡ true
and_left p q h = ground arith

pub and_right : (p q : Bool) → (p && q) ≡ true → q ≡ true
and_right p q h = ground arith

op_at : List Op → ℕ → Op
op_at [] n = Op.plus
op_at (o ∷ os) zero = o
op_at (o ∷ os) (suc n) = op_at os n

op_list : List Op
op_list =
    Op.plus ∷ Op.minus ∷ Op.unary_minus ∷ Op.mult ∷ Op.div ∷ Op.mod' ∷ Op.not' ∷ Op.and ∷ Op.or
    ∷ Op.xor ∷ Op.mask ∷ Op.shift_left ∷ Op.shift_right ∷ Op.eq ∷ Op.ne ∷ Op.gt ∷ Op.ge ∷ Op.lt
    ∷ Op.le ∷ Op.logical_not ∷ Op.logical_or ∷ Op.logical_and ∷ Op.access ∷ Op.offset ∷ Op.conform
    ∷ Op.count ∷ Op.precond ∷ Op.precond2 ∷ Op.field_root ∷ []

op_at-op_code : (o : Op) → op_at op_list (op_code o) ≡ o
unfolding op_at op_list op_code
op_at-op_code Op.plus = refl
op_at-op_code o = refl

pub same_op-same : (o p : Op) → same_op o p ≡ true → o ≡ p
unfolding same_op
same_op-same o p h =
    sym (op_at-op_code o)
    ∙ ap (op_at op_list) ((==_iff (op_code o) (op_code p)).0 h)
    ∙ op_at-op_code p

pub ok-false≢true : ◌≡◌ {A = Result Bool} (ok false) (ok true) → ⊥
ok-false≢true h = cc

-- The short-cut `&&` of two comparisons.
both :
    (x y : Result Bool)
    → (x >>= λ (same : Bool). elim same [ true ↦ y | false ↦ ok false ]) ≡ ok true
    → (x ≡ ok true) × (y ≡ ok true)
both (err e) y h = cc
both (ok true) y h = (refl, h)
both (ok false) y h = absurd (ok-false≢true h)

module _ (fp : Doubles) where
  pub expr_equal-operands :
      (t t' : DataType) (o o' : Op) (a b c a' b' c' : Data)
      → expr_equal fp (Data.op t o a b c) (Data.op t' o' a' b' c') ≡ ok true
      → (o ≡ o') × (expr_equal fp a a' ≡ ok true) × (expr_equal fp b b' ≡ ok true)
  unfolding expr_equal
  expr_equal-operands t t' o o' a b c a' b' c' h = elim (Bool-cases (same_op o o')) [
    | inr other ↦ absurd (ok-false≢true (rw (other) at h))
    | inl same ↦
        let (ea, h') = both (expr_equal fp a a') _ (rw (same) at h) in
        (same_op-same o o' same, ea, (both (expr_equal fp b b') _ h').0)
  ]

-- A test with no decision, no `count` and no question to a policer in it.
unfoldable pub steady : Data → Bool
steady (Data.unum n) = true
steady (Data.op t Op.logical_and a b c) = steady a && steady b
steady (Data.op t Op.logical_or a b c) = steady a && steady b
steady (Data.op t Op.logical_not a b c) = steady a
steady (Data.op t Op.count a b c) = false
steady (Data.op t Op.conform a b c) = false
steady (Data.op t o a b c) = true
steady d = false

is_same-same : (m n : U128) → ◌≡◌ {A = Result Bool} (ok (is_same (u128_cmp m n))) (ok true) → m ≡ n
unfolding is_same
is_same-same m n h =
    elim (u128_cmp m n) as (λ r. u128_cmp m n ≡ r → m ≡ n) [
      | Cmp.same ↦ λ e. (u128_cmp-same_iff m n).0 e
      | other ↦ λ e. absurd (ok-false≢true (rw (e) at h))
    ]
      refl

ok_inj : (x y : Bool) → ◌≡◌ {A = Result Bool} (ok x) (ok y) → x ≡ y
ok_inj x y h = cc

module _ (fp : Doubles) {S : Type 0} (field : Data → S → ℕ) (test : Data → S → Bool)
    (charge : Data → S → S)
    (reads : (x y : Data) → expr_equal fp x y ≡ ok true → (s : S) → field x s ≡ field y s)
    (tests : (x y : Data) → expr_equal fp x y ≡ ok true → (s : S) → test x s ≡ test y s) where
  pub number-operator :
      (t t' : DataType) (o : Op) (a b c a' b' c' : Data) (s : S)
      → number field test charge a s ≡ number field test charge a' s
      → number field test charge b s ≡ number field test charge b' s
      → field (Data.op t o a b c) s ≡ field (Data.op t' o a' b' c') s
      → number field test charge (Data.op t o a b c) s
        ≡ number field test charge (Data.op t' o a' b' c') s
  unfolding number
  number-operator t t' Op.and a b c a' b' c' s ha hb h = ap₂ bit_and ha hb
  number-operator t t' o a b c a' b' c' s ha hb h = h

  pub number-expr_equal :
      (x y : Data)
      → expr_equal fp x y ≡ ok true
      → (s : S) → number field test charge x s ≡ number field test charge y s
  unfolding number expr_equal data_equal
  number-expr_equal (Data.op t o a b c) (Data.op t' o' a' b' c') h s =
      let (same, ea, eb) = expr_equal-operands fp t t' o o' a b c a' b' c' h in
      rw (sym same) (
        number-operator t t' o a b c a' b' c' s (number-expr_equal a a' ea s)
          (number-expr_equal b b' eb s)
          (reads (Data.op t o a b c) (Data.op t' o a' b' c') (rw (sym same) at h) s))
  number-expr_equal (Data.op t o a b c) y h s = absurd (ok-false≢true h)
  number-expr_equal (Data.unum m) (Data.unum n) h s = (==_iff m n).0 (ok_inj _ _ h)
  number-expr_equal (Data.unum m) y h s = absurd (ok-false≢true h)
  number-expr_equal (Data.ipv4 m) (Data.ipv4 n) h s = (==_iff m n).0 (ok_inj _ _ h)
  number-expr_equal (Data.ipv4 m) y h s = absurd (ok-false≢true h)
  number-expr_equal (Data.ipv6 m) (Data.ipv6 n) h s = ap value (is_same-same m n h)
  number-expr_equal (Data.ipv6 m) y h s = absurd (ok-false≢true h)
  number-expr_equal x (Data.op t o a b c) h s = absurd (ok-false≢true h)
  number-expr_equal x (Data.unum n) h s = absurd (ok-false≢true h)
  number-expr_equal x (Data.ipv4 n) h s = absurd (ok-false≢true h)
  number-expr_equal x (Data.ipv6 n) h s = absurd (ok-false≢true h)
  number-expr_equal x y h s = reads x y h s

  run-operator :
      (t t' : DataType) (o : Op) (a b c a' b' c' : Data)
      → steady (Data.op t o a b c) ≡ true
      → expr_equal fp (Data.op t o a b c) (Data.op t' o a' b' c') ≡ ok true
      → expr_equal fp a a' ≡ ok true
      → expr_equal fp b b' ≡ ok true
      → (steady a ≡ true → run field test charge a ≡ run field test charge a')
      → (steady b ≡ true → run field test charge b ≡ run field test charge b')
      → (s : S)
      → run field test charge (Data.op t o a b c) s
        ≡ run field test charge (Data.op t' o a' b' c') s
  unfolding run steady
  run-operator t t' Op.logical_and a b c a' b' c' h e ea eb ra rb s =
      ap₂ (λ u v. seq_and u v s) (ra (and_left _ _ h)) (rb (and_right _ _ h))
  run-operator t t' Op.logical_or a b c a' b' c' h e ea eb ra rb s =
      ap₂ (λ u v. seq_or u v s) (ra (and_left _ _ h)) (rb (and_right _ _ h))
  run-operator t t' Op.logical_not a b c a' b' c' h e ea eb ra rb s = ap (λ r. seq_not r s) (ra h)
  run-operator t t' Op.count a b c a' b' c' h e ea eb ra rb s = cc
  run-operator t t' Op.eq a b c a' b' c' h e ea eb ra rb s =
      ap₂ (λ m n. truth (m == n) s) (number-expr_equal a a' ea s) (number-expr_equal b b' eb s)
  run-operator t t' Op.ne a b c a' b' c' h e ea eb ra rb s =
      ap₂ (λ m n. truth (not (m == n)) s) (number-expr_equal a a' ea s)
        (number-expr_equal b b' eb s)
  run-operator t t' o a b c a' b' c' h e ea eb ra rb s = ap (λ v. truth v s) (tests _ _ e s)

  pub run-expr_equal :
      (x y : Data)
      → steady x ≡ true
      → expr_equal fp x y ≡ ok true
      → (s : S) → run field test charge x s ≡ run field test charge y s
  unfolding run steady expr_equal data_equal
  run-expr_equal (Data.op t o a b c) (Data.op t' o' a' b' c') steady_x h s =
      let (same, ea, eb) = expr_equal-operands fp t t' o o' a b c a' b' c' h in
      rw (sym same) (
        run-operator t t' o a b c a' b' c' steady_x (rw (sym same) at h) ea eb
          (λ g. fun_ext (run-expr_equal a a' g ea)) (λ g. fun_ext (run-expr_equal b b' g eb)) s)
  run-expr_equal (Data.op t o a b c) y steady_x h s = absurd (ok-false≢true h)
  run-expr_equal (Data.unum m) (Data.unum n) steady_x h s =
      ap (λ k. truth (truth_of (Data.unum k)) s) ((==_iff m n).0 (ok_inj _ _ h))
  run-expr_equal (Data.unum m) y steady_x h s = absurd (ok-false≢true h)
  run-expr_equal x y steady_x h s = cc
