-- ===== src/Iflib/FirstMatch.antt =====
-- iflib_combine of tcc/iflib_comb.c, against the list of its elements.
use tcng.Common.{
  ℕ, Bool, true, false, List, [], ◌∷◌, All, ok, ◌==◌, ◌≡◌, ◌≢◌, refl, sym, ap, ◌∙◌, arith,
  if◌then◌else◌,
}
use mathlib.Core.Path.{fun_ext}
use tcng.Data.{
  Data, DataType, DecisionResult, Op, Doubles, type_of, same_type, has_op, integer_number,
}
use tcng.Op.Logic.{and_or_eval, in_condition}
use tcng.Op.Eval.{op_binary, eval}
use tcng.Iflib.Meaning.{stop, truth, Run, seq_or, run, condition}
use tcng.Iflib.Runs.{seq_or-false, seq_or_assoc, run-or}
use tcng.Iflib.Combine.{
  Element, Filter, Classes, iflib_comb_iterate, complement_leaf_decisions, class_decision,
  complement_decisions, iflib_combine_callback, combine_loop, iflib_combine,
}
use tcng.Iflib.Combined.{run-complement}

condition-in_condition : (d : Data) → condition d ≡ true → in_condition d ≡ true
unfolding condition type_of same_type integer_number
condition-in_condition (Data.op t Op.plus x y z) h = ground arith
condition-in_condition (Data.op t o x y z) h = ground arith
condition-in_condition (Data.decision r k) h = refl
condition-in_condition (Data.unum n) h = refl
condition-in_condition d h = cc

module _ {S : Type 0} (class_is_drop : ℕ) (field : Data → S → ℕ) (test : Data → S → Bool)
    (charge : Data → S → S) where
  -- What one element of a class does to a packet: its own decisions and the truth of its
  -- condition are decisions for the class.
  abbrev pub taken : Element → Run S
  taken e s = elim (run field test charge e.if_expr s) [
    | stop r k s' ↦ stop (if e.class == class_is_drop then DecisionResult.drop else r) e.class s'
    | truth v s' ↦ elim v [
      | true ↦
          stop (if e.class == class_is_drop then DecisionResult.drop else DecisionResult.class)
            e.class s'
      | false ↦ truth false s'
    ]
  ]

  -- The first element that decides.
  abbrev pub first_match : List Element → Run S
  first_match [] = λ s. truth false s
  first_match (e ∷ es) = seq_or (taken e) (first_match es)

module _ (class_is_drop : ℕ) (fp : Doubles) where
  complement_decisions_lem :
      (d : Data) (c : ℕ)
      → condition d ≡ true
      → complement_decisions class_is_drop fp d c
        ≡ ok (
            complement_leaf_decisions class_is_drop
              (Data.op DataType.unum Op.logical_and d (class_decision class_is_drop c) Data.none)
              c)
  unfolding complement_decisions op_binary eval and_or_eval type_of same_type integer_number
  complement_decisions_lem d c h = ground (arith, condition-in_condition d h)

  or_step :
      (o p : Op) (x y z x' y' z' : Data)
      → op_binary fp Op.logical_or
          (Data.op DataType.unum o x y z)
          (Data.op DataType.unum p x' y' z')
        ≡ ok (
            Data.op DataType.unum Op.logical_or
              (Data.op DataType.unum o x y z)
              (Data.op DataType.unum p x' y' z')
              Data.none)
  unfolding op_binary eval and_or_eval type_of same_type integer_number has_op
  or_step o p x y z x' y' z' = refl

  module _ {S : Type 0} (field : Data → S → ℕ) (test : Data → S → Bool)
      (charge : Data → S → S) where
    run-element :
        (e : Element) (s : S)
        → condition e.if_expr ≡ true
        → run field test charge
            (complement_leaf_decisions class_is_drop
              (Data.op DataType.unum Op.logical_and e.if_expr
                (class_decision class_is_drop e.class)
                Data.none)
              e.class)
            s
          ≡ taken class_is_drop field test charge e s
    unfolding condition run same_type
    run-element e s h =
        run-complement class_is_drop field test charge
          (Data.op DataType.unum Op.logical_and e.if_expr (class_decision class_is_drop e.class)
            Data.none)
          e.class s (ground arith)
        ∙ ground arith

    -- The callback on an element, with an expression at hand.
    callback :
        (e : Element) (o : Op) (x y z : Data)
        → condition e.if_expr ≡ true
        → iflib_combine_callback class_is_drop fp e (Data.op DataType.unum o x y z)
          ≡ ok (
              Data.op DataType.unum Op.logical_or
                (Data.op DataType.unum o x y z)
                (complement_leaf_decisions class_is_drop
                  (Data.op DataType.unum Op.logical_and e.if_expr
                    (class_decision class_is_drop e.class)
                    Data.none)
                  e.class)
                Data.none)
    unfolding iflib_combine_callback complement_leaf_decisions type_of same_type
    callback e o x y z h = rw (complement_decisions_lem e.if_expr e.class h) (
        or_step o Op.logical_and x y z (complement_leaf_decisions class_is_drop e.if_expr e.class)
          (complement_leaf_decisions class_is_drop (class_decision class_is_drop e.class) e.class)
          Data.none)

    combine_loop_lem :
        (es : List Element) (o : Op) (x y z : Data)
        → All (λ e. condition e.if_expr ≡ true) es
        → (d : Data) × (combine_loop class_is_drop fp es (Data.op DataType.unum o x y z) ≡ ok d)
          × ((s : S)
              → run field test charge d s
                ≡ seq_or
                    (run field test charge (Data.op DataType.unum o x y z))
                    (first_match class_is_drop field test charge es)
                    s)
    unfolding combine_loop
    combine_loop_lem [] o x y z h =
        (_, refl, λ s. sym (seq_or-false (run field test charge (Data.op DataType.unum o x y z)) s))
    combine_loop_lem (e ∷ es) o x y z h =
        let root = Data.op DataType.unum o x y z in
        let expr =
          complement_leaf_decisions class_is_drop
            (Data.op DataType.unum Op.logical_and e.if_expr (class_decision class_is_drop e.class)
              Data.none)
            e.class in
        let (d, returns, means) = combine_loop_lem es Op.logical_or root expr Data.none h.1 in
        (
          d,
          rw (callback e o x y z h.0) returns,
          λ s.
              means s
              ∙ ap (λ u. seq_or u (first_match class_is_drop field test charge es) s)
                  (fun_ext (λ s'.
                    run-or field test charge DataType.unum root expr Data.none s'
                    ∙ ap (λ v. seq_or (run field test charge root) v s')
                        (fun_ext (λ s''. run-element e s'' h.0))))
              ∙ seq_or_assoc (run field test charge root) (taken class_is_drop field test charge e)
                  (first_match class_is_drop field test charge es) s,
        )

    first_callback :
        (e : Element)
        → condition e.if_expr ≡ true
        → iflib_combine_callback class_is_drop fp e Data.none
          ≡ ok (
              complement_leaf_decisions class_is_drop
                (Data.op DataType.unum Op.logical_and e.if_expr
                  (class_decision class_is_drop e.class)
                  Data.none)
                e.class)
    unfolding iflib_combine_callback type_of same_type
    first_callback e h = rw (complement_decisions_lem e.if_expr e.class h) refl

    combine_first :
        (es : List Element)
        → es ≢ []
        → All (λ e. condition e.if_expr ≡ true) es
        → (d : Data) × (combine_loop class_is_drop fp es Data.none ≡ ok d)
          × ((s : S) → run field test charge d s ≡ first_match class_is_drop field test charge es s)
    unfolding combine_loop complement_leaf_decisions
    combine_first [] some h = absurd (some refl)
    combine_first (e ∷ es) some h =
        let (d, returns, means) =
          combine_loop_lem es Op.logical_and
            (complement_leaf_decisions class_is_drop e.if_expr e.class)
            (complement_leaf_decisions class_is_drop (class_decision class_is_drop e.class) e.class)
            Data.none h.1 in
        (
          d,
          rw (first_callback e h.0) returns,
          λ s.
              means s
              ∙ ap (λ u. seq_or u (first_match class_is_drop field test charge es) s)
                  (fun_ext (λ s'. run-element e s' h.0)),
        )

    -- For filters and classes whose `if` elements all have conditions for expressions, with at
    -- least one such element: iflib_combine returns an expression that does to every packet what
    -- the first element does that decides, in the order of the traversal, where the decisions of
    -- an element and the truth of its condition are decisions for its class.
    pub run-iflib_combine :
        (fs : List Filter) (cs : Classes)
        → iflib_comb_iterate fs cs ≢ []
        → All (λ e. condition e.if_expr ≡ true) (iflib_comb_iterate fs cs)
        → (d : Data) × (iflib_combine class_is_drop fp fs cs ≡ ok d)
          × ((s : S)
              → run field test charge d s
                ≡ first_match class_is_drop field test charge (iflib_comb_iterate fs cs) s)
    unfolding iflib_combine
    run-iflib_combine fs cs some h = combine_first (iflib_comb_iterate fs cs) some h
