-- ===== src/Iflib/Trim.antt =====
-- self_contained and trim_self_contained of tcc/iflib_act.c, against Iflib/Meaning.
use tcng.Common.{ℕ, Bool, true, false, ◌==◌, ◌≡◌, refl, sym, ap, ap₂, ◌∙◌, arith}
use tcng.Common.{Bool-cases, inl, inr}
use mathlib.Core.Path.{fun_ext}
use tcng.Data.{Data, Op}
use tcng.Iflib.Meaning.{Verdict, stop, truth, Run, seq_and, seq_or, seq_not, run, plain, condition}
use tcng.Iflib.Runs.{run-and, run-or, run-not}
use tcng.Iflib.Classify.{
  SelfContained, sc_no, sc_no_false, sc_no_true, sc_yes, sc_not, sc_and, sc_or, is_sc_yes,
  self_contained, trim_node, trim_self_contained,
}

abbrev pub is_stop : {S : Type 0} → Verdict S → Bool
is_stop (stop r c s) = true
is_stop (truth v s) = false

-- What a classification allows: `sc_yes` a decision alone, `sc_no_true` no false, `sc_no_false`
-- no true, `sc_no` everything.
abbrev pub allows : {S : Type 0} → SelfContained → Verdict S → Bool
allows sc_yes (truth v s) = false
allows sc_no_true (truth false s) = false
allows sc_no_false (truth true s) = false
allows _ _ = true

allows-not :
    {S : Type 0} (p : SelfContained) (x : Run S) (s : S)
    → allows p (x s) ≡ true
    → allows (sc_not p) (seq_not x s) ≡ true
allows-not p x s h = ground arith

allows-stop :
    {S : Type 0} (p : SelfContained) (v : Verdict S) → is_stop v ≡ true → allows p v ≡ true
allows-stop p v h = ground arith

allows-and :
    {S : Type 0} (p q : SelfContained) (x y : Run S)
    → ((s : S) → allows p (x s) ≡ true)
    → ((s : S) → allows q (y s) ≡ true)
    → (s : S) → allows (sc_and p q) (seq_and x y s) ≡ true
allows-and {S = S} p q x y hx hy s = at (x s) (hx s)
  where
    table_true :
        (p q : SelfContained) (v : Verdict S)
        → allows p (truth true s) ≡ true
        → allows q v ≡ true
        → allows (sc_and p q) v ≡ true
    table_true sc_no sc_no v h g = g
    table_true p q v h g = ground arith

    at : (v : Verdict S) → allows p v ≡ true → allows (sc_and p q) (seq_and (λ s'. v) y s) ≡ true
    at (stop r c s') h = allows-stop (sc_and p q) (stop r c s') refl
    at (truth true s') h = table_true p q (y s') (ground arith) (hy s')
    at (truth false s') h = ground arith

allows-or :
    {S : Type 0} (p q : SelfContained) (x y : Run S)
    → ((s : S) → allows p (x s) ≡ true)
    → ((s : S) → allows q (y s) ≡ true)
    → (s : S) → allows (sc_or p q) (seq_or x y s) ≡ true
allows-or {S = S} p q x y hx hy s = at (x s) (hx s)
  where
    table_false :
        (p q : SelfContained) (v : Verdict S)
        → allows p (truth false s) ≡ true
        → allows q v ≡ true
        → allows (sc_or p q) v ≡ true
    table_false sc_no sc_no v h g = g
    table_false p q v h g = ground arith

    at : (v : Verdict S) → allows p v ≡ true → allows (sc_or p q) (seq_or (λ s'. v) y s) ≡ true
    at (stop r c s') h = allows-stop (sc_or p q) (stop r c s') refl
    at (truth false s') h = table_false p q (y s') (ground arith) (hy s')
    at (truth true s') h = ground arith

plain-trim : (d : Data) → plain d ≡ true → trim_self_contained d ≡ d
unfolding plain trim_self_contained trim_node
plain-trim (Data.op t Op.plus a b c) h = ground (arith, plain-trim a, plain-trim b, plain-trim c)
plain-trim (Data.op t o a b c) h = ground (arith, plain-trim a, plain-trim b, plain-trim c)
plain-trim d h = refl

module _ {S : Type 0} (field : Data → S → ℕ) (test : Data → S → Bool) (charge : Data → S → S) where
  -- For every expression and packet, the outcome is one that self_contained allows: `sc_yes` a
  -- decision alone, `sc_no_true` no false, `sc_no_false` no true.
  pub self_contained_lem :
      (d : Data) (s : S) → allows (self_contained d) (run field test charge d s) ≡ true
  unfolding self_contained
  self_contained_lem (Data.unum n) s = elim (Bool-cases (n == 0)) [
    | inl self ↦ unfold run in ground arith
    | inr other ↦ unfold run in ground arith
  ]
  self_contained_lem (Data.decision r c) s = unfold run in refl
  self_contained_lem (Data.op t Op.logical_not a b c) s =
      rw (run-not field test charge t a b c s)
        (allows-not (self_contained a) (run field test charge a) s (self_contained_lem a s))
  self_contained_lem (Data.op t Op.logical_and a b c) s = rw (run-and field test charge t a b c s) (
      allows-and (self_contained a) (self_contained b) (run field test charge a)
        (run field test charge b) (self_contained_lem a) (self_contained_lem b) s)
  self_contained_lem (Data.op t Op.logical_or a b c) s = rw (run-or field test charge t a b c s) (
      allows-or (self_contained a) (self_contained b) (run field test charge a)
        (run field test charge b) (self_contained_lem a) (self_contained_lem b) s)
  self_contained_lem (Data.op t Op.count a b c) s = unfold run in refl
  self_contained_lem (Data.op t o a b c) s = unfold run in refl
  self_contained_lem d s = unfold run in refl

  stop-and : (x y : Run S) (s : S) → is_stop (x s) ≡ true → seq_and x y s ≡ x s
  stop-and x y s h = ground arith

  stop-or : (x y : Run S) (s : S) → is_stop (x s) ≡ true → seq_or x y s ≡ x s
  stop-or x y s h = ground arith

  pub self_contained-is_stop :
      (d : Data) (s : S)
      → is_sc_yes (self_contained d) ≡ true
      → is_stop (run field test charge d s) ≡ true
  self_contained-is_stop d s h =
      allows_yes (self_contained d) (run field test charge d s) h (self_contained_lem d s)
    where
      allows_yes :
          (p : SelfContained) (v : Verdict S)
          → is_sc_yes p ≡ true
          → allows p v ≡ true
          → is_stop v ≡ true
      allows_yes p v h g = ground arith

  -- For every condition and packet, the result of trim_self_contained decides what the condition
  -- decides, with the same effects on the state.
  pub run-trim_self_contained :
      (d : Data) (s : S)
      → condition d ≡ true
      → run field test charge (trim_self_contained d) s ≡ run field test charge d s
  unfolding trim_self_contained trim_node condition
  run-trim_self_contained (Data.op t Op.logical_and a b c) s h =
      let ha : condition a ≡ true = ground arith in
      let hb : condition b ≡ true = ground arith in
      let a' = trim_self_contained a in
      let b' = trim_self_contained b in
      let both =
        ap₂ (λ x y. seq_and x y s) (fun_ext (λ s'. run-trim_self_contained a s' ha))
          (fun_ext (λ s'. run-trim_self_contained b s' hb)) in
      elim (Bool-cases (is_sc_yes (self_contained a'))) [
        | inl self ↦ ground (
          arith,
          self,
          both,
          run-and field test charge t a b c s,
          stop-and (run field test charge a') (run field test charge b') s
              (self_contained-is_stop a' s self),
        )
        | inr other ↦ ground (
          arith,
          other,
          both,
          run-and field test charge t a b c s,
          run-and field test charge t a' b' (trim_self_contained c) s,
        )
      ]
  run-trim_self_contained (Data.op t Op.logical_or a b c) s h =
      let ha : condition a ≡ true = ground arith in
      let hb : condition b ≡ true = ground arith in
      let a' = trim_self_contained a in
      let b' = trim_self_contained b in
      let both =
        ap₂ (λ x y. seq_or x y s) (fun_ext (λ s'. run-trim_self_contained a s' ha))
          (fun_ext (λ s'. run-trim_self_contained b s' hb)) in
      elim (Bool-cases (is_sc_yes (self_contained a'))) [
        | inl self ↦ ground (
          arith,
          self,
          both,
          run-or field test charge t a b c s,
          stop-or (run field test charge a') (run field test charge b') s
              (self_contained-is_stop a' s self),
        )
        | inr other ↦ ground (
          arith,
          other,
          both,
          run-or field test charge t a b c s,
          run-or field test charge t a' b' (trim_self_contained c) s,
        )
      ]
  run-trim_self_contained (Data.op t Op.logical_not a b c) s h =
      let ha : condition a ≡ true = ground arith in
      run-not field test charge t (trim_self_contained a) (trim_self_contained b)
        (trim_self_contained c) s
      ∙ ap (λ x. seq_not x s) (fun_ext (λ s'. run-trim_self_contained a s' ha))
      ∙ sym (run-not field test charge t a b c s)
  run-trim_self_contained (Data.op t o a b c) s h =
      rw (plain-trim a (ground arith), plain-trim b (ground arith), plain-trim c (ground arith))
  run-trim_self_contained d s h = refl
