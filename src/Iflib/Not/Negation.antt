-- ===== src/Iflib/Not/Negation.antt =====
-- bubble_not and iflib_not of tcc/iflib_not.c, against Iflib/Meaning.
use tcng.Common.{ℕ, Bool, true, false, ◌≡◌, ◌≢◌, refl, sym, ◌∙◌, arith}
use tcng.Common.{ok}
use tcng.Data.{has_op, type_of, same_type, Data, Op, Doubles}
use tcng.Iflib.Meaning.{Run, run, condition}
use tcng.Iflib.Classify.{self_contained}
use tcng.Iflib.Decides.{between}
use tcng.Iflib.Not.Joins.{clean}
use tcng.Iflib.Not.{bubble_not, iflib_not}
use tcng.Iflib.Not.Placed.{extends, in_range, ne_constant, placed}
use tcng.Iflib.Not.Contexts.{yes_run, no_run}
use tcng.Iflib.Not.Plain.{
  plain-clean, plain-bubble_not, bubble_not-negated, bubble_not-and, bubble_not-or,
  bubble_not-twice, bubble_not-plain, passes_on-clean,
}
use tcng.Iflib.Not.Expressed.{Expressed, condition-in_condition, stays, negated_lem}
use tcng.Iflib.Not.Joined.{
  IsContext, swapped, next_extended, otherwise_extended, extended_lem, and_IsExpressed,
  or_IsExpressed,
}
use tcng.Iflib.Not.Suits.{
  and-operands, or-operands, test-operands, Suits, ne-Expressed, and-Suits, or-Suits, not_not-Suits,
  not-Suits, not_not-IsExpressed, not_ne-Expressed,
}

module _ (fp : Doubles) {S : Type 0} (field : Data → S → ℕ) (test : Data → S → Bool)
    (charge : Data → S → S) where
  unplaced : (m : ℕ) (n z : Bool) → placed fp (Data.unum m) n z ≢ true
  unfolding placed
  unplaced m n z h = cc

  pub bubble_not-Expressed :
      (d next otherwise : Data) (n z : Bool)
      → Suits fp field test charge d n z
      → IsContext fp field test charge next otherwise n z
      → Expressed fp field test charge d next otherwise n z
  bubble_not-Expressed (Data.op t Op.ne a b c) next otherwise n z (h, hn, hr, hp) k =
      ne-Expressed fp field test charge t a b c next otherwise n z h (unfold ne_constant in hn) hr
        (unfold placed in hp) k
  bubble_not-Expressed (Data.op t Op.logical_not (Data.op t' Op.logical_not x y w) b c) next
        otherwise n z suits k =
      let (d', made, e) =
        bubble_not-Expressed x next otherwise n z
          (not_not-Suits fp field test charge t t' x y w b c n z suits) k in
      (
        d',
        bubble_not-twice fp t t' x y w b c next otherwise ∙ made,
        not_not-IsExpressed fp field test charge t t' x y w b c next otherwise n z d' e,
      )
  bubble_not-Expressed (Data.op t Op.logical_not (Data.op t' Op.ne x y w) b c) next otherwise n z
        suits k =
      not_ne-Expressed fp field test charge t t' x y w b c next otherwise n z suits.0
  bubble_not-Expressed (Data.op t Op.logical_not a b c) next otherwise n z suits k =
      let (suits_a, set_n, set_z) = not-Suits fp field test charge t a b c n z refl suits in
      let (a', made_a, ea) =
        bubble_not-Expressed a otherwise next z n suits_a
          (swapped fp field test charge next otherwise n z k) in
      let (d', made, e) =
        negated_lem fp field test charge a a' next otherwise n z ea set_n set_z k.next_usable
          k.otherwise_usable k.next_decides k.otherwise_decides in
      (d', bubble_not-negated fp t a b c next otherwise refl ∙ rw made_a made, e t b c)
  bubble_not-Expressed (Data.op t Op.logical_and a b c) next otherwise n z suits k =
      let (suits_b, suits_a) = and-Suits fp field test charge t a b c n z suits in
      let (ht, hc) = and-operands t a b c suits.0 in
      let (b', made_b, eb) = bubble_not-Expressed b next otherwise n z suits_b k in
      let (ext, made, ee) = extended_lem fp field test charge b b' next otherwise n z k eb in
      let (a', made_a, ea) =
        bubble_not-Expressed a ext otherwise (extends n z (self_contained b)) z suits_a
          (next_extended fp field test charge b b' next otherwise ext n z k ee) in
      (
        Data.op t Op.logical_and a' b' c,
        bubble_not-and fp t a b c next otherwise ∙ rw (made_b, made, made_a, ee.ext_op) refl,
        and_IsExpressed fp field test charge t a b c a' b' next otherwise ext n z ht
            (plain-clean c hc) eb ee ea,
      )
  bubble_not-Expressed (Data.op t Op.logical_or a b c) next otherwise n z suits k =
      let (suits_b, suits_a) = or-Suits fp field test charge t a b c n z suits in
      let (ht, hc) = or-operands t a b c suits.0 in
      let (b', made_b, eb) = bubble_not-Expressed b next otherwise n z suits_b k in
      let (ext, made, ee) = extended_lem fp field test charge b b' next otherwise n z k eb in
      let (a', made_a, ea) =
        bubble_not-Expressed a next ext n (extends n z (self_contained b)) suits_a
          (otherwise_extended fp field test charge b b' next otherwise ext n z k ee) in
      (
        Data.op t Op.logical_or a' b' c,
        bubble_not-or fp t a b c next otherwise ∙ rw (made_b, made, made_a, ee.ext_op) refl,
        or_IsExpressed fp field test charge t a b c a' b' next otherwise ext n z ht
            (plain-clean c hc) eb ee ea,
      )
  bubble_not-Expressed (Data.op t o a b c) next otherwise n z suits k =
      let (ha, hb, hc) = test-operands t o a b c suits.0 refl in
      stays fp field test charge (Data.op t o a b c) next otherwise n z
        (bubble_not-plain fp t o a b c next otherwise refl (plain-bubble_not fp b next otherwise hb)
          (plain-bubble_not fp a next otherwise ha) (plain-bubble_not fp c next otherwise hc))
        (condition-in_condition (Data.op t o a b c) suits.0) (unfold has_op in refl)
        (passes_on-clean t o a b c refl (plain-clean a ha) (plain-clean b hb) (plain-clean c hc))
  bubble_not-Expressed (Data.unum m) next otherwise n z suits k = absurd (unplaced m n z suits.3)
  bubble_not-Expressed (Data.decision r m) next otherwise n z suits k =
      stays fp field test charge (Data.decision r m) next otherwise n z (unfold bubble_not in refl)
        (condition-in_condition (Data.decision r m) suits.0)
        (unfold has_op type_of same_type in refl) (unfold clean in refl)
  bubble_not-Expressed d next otherwise n z (h, hn, hr, hp) k = unfold condition in cc

  between_truth : (x : Run S) (s : S) → between x yes_run no_run s ≡ x s
  between_truth x s = ground arith

  -- For every condition without constants for tests, whose `!=` are against constants, whose
  -- constants are in range, and whose negations that are not inverted tests of one bit stand
  -- where both outcomes are decided, iflib_not without the error on negations returns an
  -- expression without `!` and `!=` that decides for every packet what the condition decides,
  -- with the same effects on the state.
  pub run-iflib_not :
      (d : Data)
      → condition d ≡ true
      → ne_constant d ≡ true
      → in_range d ≡ true
      → placed fp d false false ≡ true
      → (d' : Data) × (iflib_not fp false d ≡ ok d')
        × (clean d' ≡ true)
        × ((s : S) → run field test charge d' s ≡ run field test charge d s)
  unfolding iflib_not
  run-iflib_not d h hn hr hp =
      let (d', made, e) =
        bubble_not-Expressed d (Data.unum 1) (Data.unum 0) false false (h, hn, hr, hp)
          (record {
            next_usable = condition-in_condition (Data.unum 1) (unfold condition in refl);
            otherwise_usable = condition-in_condition (Data.unum 0) (unfold condition in refl);
            next_decides = λ f. cc;
            otherwise_decides = λ f. cc;
          }) in
      (
        d',
        made,
        e.without_not (unfold clean in refl) (unfold clean in refl),
        λ s.
            sym (between_truth (run field test charge d') s)
            ∙ e.same yes_run no_run (λ f. cc) (λ f. cc) s
            ∙ between_truth (run field test charge d) s,
      )
