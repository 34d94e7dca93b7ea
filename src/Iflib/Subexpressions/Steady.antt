-- ===== src/Iflib/Subexpressions/Steady.antt =====
-- Tests whose answer an evaluation does not change, for tcc/iflib_red.c.
use tcng.Common.{ℕ, Bool, true, false, not, ◌&&◌, ◌||◌, ◌==◌, bit_and, ◌≡◌, refl, sym, ap, ap₂, ◌∙◌}
use tcng.Data.{Data, Op}
use tcng.Iflib.Meaning.{Verdict, Run, stop, truth, seq_and, seq_or, seq_not, number, run}
use tcng.Iflib.Subexpressions.Equal.{steady, and_left, and_right}

abbrev pub answer : {S : Type 0} → Verdict S → Bool
answer (truth v s) = v
answer (stop r k s) = false

abbrev pub end_state : {S : Type 0} → Verdict S → S
end_state (truth v s) = s
end_state (stop r k s) = s

-- An evaluation does not change the answer.
abbrev pub Keeps : {S : Type 0} → (S → Bool) → Run S → Type 0
Keeps {S} p x = (s : S) → p (end_state (x s)) ≡ p s

-- `&&` with true, `||` with false: the truth value after which the second operand is evaluated.
abbrev pub seq : Bool → {S : Type 0} → Run S → Run S → Run S
seq true = seq_and
seq false = seq_or

seq-Keeps :
    {S : Type 0} (u : Bool) (p : S → Bool) (x y : Run S)
    → Keeps p x
    → Keeps p y
    → Keeps p (seq u x y)
seq-Keeps {S} true p x y hx hy s =
    elim (x s) as (λ v. x s ≡ v → p (end_state (seq_and x y s)) ≡ p s) [
      | stop r k t ↦ λ e. rw (e, seq_and, end_state) (rw (e, end_state) at (hx s))
      | truth true t ↦ λ e. rw (e, seq_and, end_state) (hy t ∙ (rw (e, end_state) at (hx s)))
      | truth false t ↦ λ e. rw (e, seq_and, end_state) (rw (e, end_state) at (hx s))
    ]
      refl
seq-Keeps {S} false p x y hx hy s =
    elim (x s) as (λ v. x s ≡ v → p (end_state (seq_or x y s)) ≡ p s) [
      | stop r k t ↦ λ e. rw (e, seq_or, end_state) (rw (e, end_state) at (hx s))
      | truth true t ↦ λ e. rw (e, seq_or, end_state) (rw (e, end_state) at (hx s))
      | truth false t ↦ λ e. rw (e, seq_or, end_state) (hy t ∙ (rw (e, end_state) at (hx s)))
    ]
      refl

seq_not-Keeps : {S : Type 0} (p : S → Bool) (x : Run S) → Keeps p x → Keeps p (seq_not x)
seq_not-Keeps {S} p x hx s =
    elim (x s) as (λ v. x s ≡ v → p (end_state (seq_not x s)) ≡ p s) [
      | stop r k t ↦ λ e. rw (e, seq_not, end_state) (rw (e, end_state) at (hx s))
      | truth v t ↦ λ e. rw (e, seq_not, end_state) (rw (e, end_state) at (hx s))
    ]
      refl

module _ {S : Type 0} (x y : Run S) (s : S) where
  seq_and-steady :
      (p q : Bool) → x s ≡ truth p s → y s ≡ truth q s → seq_and x y s ≡ truth (p && q) s
  seq_and-steady true q ex ey = rw (ex, seq_and) ey
  seq_and-steady false q ex ey = rw (ex, seq_and) refl

  seq_or-steady : (p q : Bool) → x s ≡ truth p s → y s ≡ truth q s → seq_or x y s ≡ truth (p || q) s
  seq_or-steady true q ex ey = rw (ex, seq_or) refl
  seq_or-steady false q ex ey = rw (ex, seq_or) ey

seq_not-steady :
    {S : Type 0} (x : Run S) (s : S) (p : Bool) → x s ≡ truth p s → seq_not x s ≡ truth (not p) s
seq_not-steady x s p ex = rw (ex, seq_not) refl

settled : {S : Type 0} (v : Verdict S) (p : Bool) (s : S) → v ≡ truth p s → v ≡ truth (answer v) s
settled v p s e = e ∙ sym (ap (λ w. truth (answer w) s) e)

module _ {S : Type 0} (field : Data → S → ℕ) (test : Data → S → Bool) (charge : Data → S → S) where
  pub run-Keeps :
      (p : S → Bool)
      → ((q : Data) (s : S) → p (charge q s) ≡ p s)
      → (d : Data) → Keeps p (run field test charge d)
  unfolding run
  run-Keeps p h (Data.op t Op.logical_and a b c) s =
      seq-Keeps true p (run field test charge a) (run field test charge b) (run-Keeps p h a)
        (run-Keeps p h b) s
  run-Keeps p h (Data.op t Op.logical_or a b c) s =
      seq-Keeps false p (run field test charge a) (run field test charge b) (run-Keeps p h a)
        (run-Keeps p h b) s
  run-Keeps p h (Data.op t Op.logical_not a b c) s =
      seq_not-Keeps p (run field test charge a) (run-Keeps p h a) s
  run-Keeps p h (Data.op t Op.count a b c) s = h a s
  run-Keeps p h (Data.op t o a b c) s = refl
  run-Keeps p h d s = refl

  pub run-steady :
      (d : Data)
      → steady d ≡ true
      → (s : S) → run field test charge d s ≡ truth (answer (run field test charge d s)) s
  unfolding run steady
  run-steady (Data.op t Op.logical_and a b c) h s = settled _ _ s (
      seq_and-steady (run field test charge a) (run field test charge b) s _ _
        (run-steady a (and_left _ _ h) s) (run-steady b (and_right _ _ h) s))
  run-steady (Data.op t Op.logical_or a b c) h s = settled _ _ s (
      seq_or-steady (run field test charge a) (run field test charge b) s _ _
        (run-steady a (and_left _ _ h) s) (run-steady b (and_right _ _ h) s))
  run-steady (Data.op t Op.logical_not a b c) h s =
      settled _ _ s (seq_not-steady (run field test charge a) s _ (run-steady a h s))
  run-steady (Data.op t Op.count a b c) h s = cc
  run-steady (Data.op t o a b c) h s = refl
  run-steady (Data.decision r k) h s = cc
  run-steady d h s = refl

  module _ (field-charge : (d q : Data) (s : S) → field d (charge q s) ≡ field d s)
      (test-charge : (d q : Data) (s : S) → steady d ≡ true → test d (charge q s) ≡ test d s) where
    number-charge :
        (d q : Data) (s : S)
        → number field test charge d (charge q s) ≡ number field test charge d s
    unfolding number
    number-charge (Data.op t Op.and a b c) q s =
        ap₂ bit_and (number-charge a q s) (number-charge b q s)
    number-charge (Data.op t o a b c) q s = field-charge (Data.op t o a b c) q s
    number-charge (Data.unum n) q s = refl
    number-charge (Data.ipv4 n) q s = refl
    number-charge (Data.ipv6 n) q s = refl
    number-charge d q s = field-charge d q s

    pub answer-charge :
        (d : Data)
        → steady d ≡ true
        → (q : Data) (s : S)
        → answer (run field test charge d (charge q s)) ≡ answer (run field test charge d s)
    unfolding run steady
    answer-charge (Data.op t Op.logical_and a b c) h q s =
        let at_state : (u : S)
            → answer (seq_and (run field test charge a) (run field test charge b) u)
              ≡ (answer (run field test charge a u) && answer (run field test charge b u)) =
          λ u. ap answer (
            seq_and-steady (run field test charge a) (run field test charge b) u _ _
              (run-steady a (and_left _ _ h) u) (run-steady b (and_right _ _ h) u)) in
        at_state (charge q s)
        ∙ ap₂ (◌&&◌) (answer-charge a (and_left _ _ h) q s) (answer-charge b (and_right _ _ h) q s)
        ∙ sym (at_state s)
    answer-charge (Data.op t Op.logical_or a b c) h q s =
        let at_state : (u : S)
            → answer (seq_or (run field test charge a) (run field test charge b) u)
              ≡ (answer (run field test charge a u) || answer (run field test charge b u)) =
          λ u. ap answer (
            seq_or-steady (run field test charge a) (run field test charge b) u _ _
              (run-steady a (and_left _ _ h) u) (run-steady b (and_right _ _ h) u)) in
        at_state (charge q s)
        ∙ ap₂ (◌||◌) (answer-charge a (and_left _ _ h) q s) (answer-charge b (and_right _ _ h) q s)
        ∙ sym (at_state s)
    answer-charge (Data.op t Op.logical_not a b c) h q s =
        let at_state : (u : S)
            → answer (seq_not (run field test charge a) u)
              ≡ not (answer (run field test charge a u)) =
          λ u. ap answer (seq_not-steady (run field test charge a) u _ (run-steady a h u)) in
        at_state (charge q s) ∙ ap not (answer-charge a h q s) ∙ sym (at_state s)
    answer-charge (Data.op t Op.count a b c) h q s = cc
    answer-charge (Data.op t Op.eq a b c) h q s =
        ap₂ (◌==◌) (number-charge a q s) (number-charge b q s)
    answer-charge (Data.op t Op.ne a b c) h q s =
        ap₂ (λ m n. not (m == n)) (number-charge a q s) (number-charge b q s)
    answer-charge (Data.op t o a b c) h q s = test-charge (Data.op t o a b c) q s h
    answer-charge d h q s = refl
