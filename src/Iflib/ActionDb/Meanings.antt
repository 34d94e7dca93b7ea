-- ===== src/Iflib/ActionDb/Meanings.antt =====
-- The tree of add_actions decides what the expression decides.
use mathlib.Core.Path.{fun_ext}
use tcng.Common.{ℕ, zero, suc, ◌≡◌, refl, ap, ◌∙◌, sym, Bool, true, false}
use tcng.Common.{Result, ok, ◌>>=◌, >>=-eq-ok, Bool-cases, inl, inr}
use tcng.Data.{Data, DataType, Op, DecisionResult}
use tcng.Iflib.Meaning.{Verdict, Run, stop, truth, seq_and, seq_or, run}
use tcng.Iflib.Runs.{seq_and-true, seq_or-false}
use tcng.Iflib.ActionDb.{Action, police_of, decision_action, add_actions}

-- The class of a decision other than `class` has no meaning.
abbrev pub normal_class : DecisionResult → ℕ → ℕ
normal_class DecisionResult.class k = k
normal_class DecisionResult.drop k = 0
normal_class DecisionResult.continue k = 0
normal_class DecisionResult.reclassify k = 0

abbrev pub normal : {S : Type 0} → Verdict S → Verdict S
normal (stop r k s) = stop r (normal_class r k) s
normal (truth v s) = truth v s

-- A continuation that is not followed to a truth value.
abbrev Follows : {S : Type 0} → Run S → Run S → Type 0
Follows {S} x y = (s : S) (r : DecisionResult) (k : ℕ) (t : S) → x s ≡ stop r k t → y s ≡ stop r k t

abbrev Fails : {S : Type 0} → Run S → Run S → Type 0
Fails {S} x y = (s t : S) → x s ≡ truth false t → y s ≡ truth false t

truth≢stop :
    {S : Type 0} (v : Bool) (s t : S) (r : DecisionResult) (k : ℕ)
    → ◌≡◌ {A = Verdict S} (truth v s) (stop r k t)
    → ⊥
truth≢stop v s t r k h = cc

module _ {S : Type 0} (a b b' n o : Run S) (r : DecisionResult) (k : ℕ) (t : S) where
  -- The second operand of `||` stands for the alternative.
  or_false_step :
      (s : S) (y : Verdict S)
      → b' s ≡ y
      → Follows b' b
      → normal y ≡ stop r k t
      → normal (seq_or (seq_and b n) o s) ≡ stop r k t
  or_false_step s (stop r' k' t') e f h =
      let g = f s r' k' t' e in rw (g, normal, seq_or, seq_and) h
  or_false_step s (truth v t') e f h = absurd (truth≢stop v t' t r k h)

  or_step :
      (s : S) (x : Verdict S)
      → a s ≡ x
      → Follows b' b
      → normal (seq_or (seq_and a (λ s'. truth true s')) b' s) ≡ stop r k t
      → normal (seq_or (seq_and (seq_or a b) n) o s) ≡ stop r k t
  or_step s (stop r' k' t') e f h =
      rw (e, normal, seq_or, seq_and) (rw (e, normal, seq_or, seq_and) at h)
  or_step s (truth true t') e f h =
      let g : ◌≡◌ {A = Verdict S} (truth true t') (stop r k t) =
        rw (e, normal, seq_or, seq_and) at h in
      absurd (truth≢stop true t' t r k g)
  or_step s (truth false t') e f h =
      let g : normal (b' t') ≡ stop r k t = rw (e, normal, seq_or, seq_and) at h in
      rw (e, normal, seq_or, seq_and) (or_false_step t' (b' t') refl f g)

  -- The second operand of `&&` stands for the continuation.
  and_true_step :
      (s : S) (y : Verdict S)
      → b' s ≡ y
      → Follows b' b
      → Fails b' b
      → normal (seq_or b' o s) ≡ stop r k t
      → normal (seq_or (seq_and b n) o s) ≡ stop r k t
  and_true_step s (stop r' k' t') e f g h =
      let e' = f s r' k' t' e in rw (e', normal, seq_or, seq_and) (rw (e, normal, seq_or) at h)
  and_true_step s (truth true t') e f g h =
      let never : ◌≡◌ {A = Verdict S} (truth true t') (stop r k t) = rw (e, normal, seq_or) at h in
      absurd (truth≢stop true t' t r k never)
  and_true_step s (truth false t') e f g h =
      let e' = g s t' e in rw (e', normal, seq_or, seq_and) (rw (e, normal, seq_or) at h)

  and_step :
      (s : S) (x : Verdict S)
      → a s ≡ x
      → Follows b' b
      → Fails b' b
      → normal (seq_or (seq_and a b') o s) ≡ stop r k t
      → normal (seq_or (seq_and (seq_and a b) n) o s) ≡ stop r k t
  and_step s (stop r' k' t') e f g h =
      rw (e, normal, seq_or, seq_and) (rw (e, normal, seq_or, seq_and) at h)
  and_step s (truth true t') e f g h =
      let rest : normal (seq_or b' o t') ≡ stop r k t = rw (e, normal, seq_or, seq_and) at h in
      rw (e, normal, seq_or, seq_and) (and_true_step t' (b' t') refl f g rest)
  and_step s (truth false t') e f g h =
      rw (e, normal, seq_or, seq_and) (rw (e, normal, seq_or, seq_and) at h)

-- What a `conform` that becomes a tree is made of.
conform_parts :
    (fuel : ℕ) (a next otherwise : Data) (act : Action)
    → (police_of a >>= λ (p : ℕ). add_actions fuel next Data.none otherwise >>= λ (c1 : Action).
        add_actions fuel otherwise Data.none Data.none >>= λ (c0 : Action).
        ok (Action.at_conform p c1 c0))
      ≡ ok act
    → (p : ℕ) × (c1 c0 : Action) × (police_of a ≡ ok p)
      × (add_actions fuel next Data.none otherwise ≡ ok c1)
      × (add_actions fuel otherwise Data.none Data.none ≡ ok c0)
      × (act ≡ Action.at_conform p c1 c0)
conform_parts fuel a next otherwise act h =
    let third : ℕ → Action → Action → Result Action = λ p c1 c0. ok (Action.at_conform p c1 c0) in
    let second =
      λ (p : ℕ) (c1 : Action). add_actions fuel otherwise Data.none Data.none >>= third p c1 in
    let first = λ (p : ℕ). add_actions fuel next Data.none otherwise >>= second p in
    let (p, hp, r1) = >>=-eq-ok (police_of a) first h in
    let (c1, h1, r2) = >>=-eq-ok (add_actions fuel next Data.none otherwise) (second p) r1 in
    let (c0, h0, e) = >>=-eq-ok (add_actions fuel otherwise Data.none Data.none) (third p c1) r2 in
    (p, c1, c0, hp, h1, h0, cc)

count_parts :
    (fuel : ℕ) (a next otherwise : Data) (act : Action)
    → (police_of a >>= λ (p : ℕ).
        add_actions fuel next Data.none otherwise >>= λ (c1 : Action). ok (Action.at_count p c1))
      ≡ ok act
    → (p : ℕ) × (c1 : Action) × (police_of a ≡ ok p)
      × (add_actions fuel next Data.none otherwise ≡ ok c1)
      × (act ≡ Action.at_count p c1)
count_parts fuel a next otherwise act h =
    let second : ℕ → Action → Result Action = λ p c1. ok (Action.at_count p c1) in
    let first = λ (p : ℕ). add_actions fuel next Data.none otherwise >>= second p in
    let (p, hp, r1) = >>=-eq-ok (police_of a) first h in
    let (c1, h1, e) = >>=-eq-ok (add_actions fuel next Data.none otherwise) (second p) r1 in
    (p, c1, hp, h1, cc)

module _ {S : Type 0} (field : Data → S → ℕ) (test : Data → S → Bool) (charge : Data → S → S)
    (conforms : ℕ → S → Bool) (counts : ℕ → S → S) where
  -- A policer is asked and charged by its address.
  abbrev pub ByPolice : Type 0
  ByPolice =
      ((t : DataType) (a b c : Data) (p : ℕ) (s : S)
        → police_of a ≡ ok p
        → test (Data.op t Op.conform a b c) s ≡ conforms p s)
      × ((a : Data) (p : ℕ) (s : S) → police_of a ≡ ok p → charge a s ≡ counts p s)

  -- What a tree decides.
  unfoldable pub run_action : Action → S → Verdict S
  run_action (Action.at_class k) s = stop DecisionResult.class k s
  run_action Action.at_drop s = stop DecisionResult.drop 0 s
  run_action Action.at_unspec s = stop DecisionResult.continue 0 s
  run_action (Action.at_conform p c1 c0) s = elim (conforms p s) [
    | true ↦ run_action c1 s
    | false ↦ run_action c0 s
  ]
  run_action (Action.at_count p c1) s = run_action c1 (counts p s)

  -- The continuation and the alternative; `data_none()` stands for none.
  unfoldable pub run_next : Data → Run S
  run_next Data.none s = truth true s
  run_next d s = run field test charge d s

  unfoldable pub run_otherwise : Data → Run S
  run_otherwise Data.none s = truth false s
  run_otherwise d s = run field test charge d s

  abbrev pub whole : Data → Data → Data → Run S
  whole d next otherwise =
      seq_or (seq_and (run field test charge d) (run_next next)) (run_otherwise otherwise)

  abbrev evaluated : Data → Run S
  evaluated = run field test charge

  run_next-Follows : (d : Data) → Follows (run_next d) (evaluated d)
  unfolding run_next
  run_next-Follows Data.none s r k t h = absurd (truth≢stop true s t r k h)
  run_next-Follows (Data.unum n) s r k t h = h
  run_next-Follows d s r k t h = h

  run_next-Fails : (d : Data) → Fails (run_next d) (evaluated d)
  unfolding run_next
  run_next-Fails Data.none s t h = absurd cc
  run_next-Fails (Data.unum n) s t h = h
  run_next-Fails d s t h = h

  run_otherwise-Follows : (d : Data) → Follows (run_otherwise d) (evaluated d)
  unfolding run_otherwise
  run_otherwise-Follows Data.none s r k t h = absurd (truth≢stop false s t r k h)
  run_otherwise-Follows (Data.unum n) s r k t h = h
  run_otherwise-Follows d s r k t h = h

  -- A tree always decides.
  run_action_stops :
      (act : Action) (s : S)
      → (r : DecisionResult) × (k : ℕ) × (t : S) × (run_action act s ≡ stop r k t)
  unfolding run_action
  run_action_stops (Action.at_class k) s = (DecisionResult.class, k, s, refl)
  run_action_stops Action.at_drop s = (DecisionResult.drop, 0, s, refl)
  run_action_stops Action.at_unspec s = (DecisionResult.continue, 0, s, refl)
  run_action_stops (Action.at_count p c1) s = run_action_stops c1 (counts p s)
  run_action_stops (Action.at_conform p c1 c0) s = elim (Bool-cases (conforms p s)) [
    | inl e ↦ rw (e, run_action) (run_action_stops c1 s)
    | inr e ↦ rw (e, run_action) (run_action_stops c0 s)
  ]

  -- Nothing can be made of `data_none()`.
  next_lem :
      (fuel : ℕ) (d next otherwise : Data) (act : Action)
      → add_actions fuel d next otherwise ≡ ok act
      → (run_next d ≡ evaluated d) × (run_otherwise d ≡ evaluated d)
  unfolding add_actions run_next run_otherwise
  next_lem zero d next otherwise act h = absurd cc
  next_lem (suc fuel) Data.none next otherwise act h = absurd cc
  next_lem (suc fuel) (Data.unum n) next otherwise act h = (refl, refl)
  next_lem (suc fuel) d next otherwise act h = (refl, refl)

  -- With no continuation and no alternative there is the expression alone.
  pub alone : (d : Data) (s : S) → whole d Data.none Data.none s ≡ evaluated d s
  unfolding run_next run_otherwise
  alone d s =
      seq_or-false (seq_and (evaluated d) (λ s'. truth true s')) s ∙ seq_and-true (evaluated d) s

  no_next :
      (d otherwise : Data) (s : S)
      → whole d Data.none otherwise s ≡ seq_or (evaluated d) (run_otherwise otherwise) s
  unfolding run_next
  no_next d otherwise s =
      ap (λ (x : Run S). seq_or x (run_otherwise otherwise) s)
        (fun_ext λ s'. seq_and-true (evaluated d) s')

  -- The two children of `conform`.
  conform_case :
      (t : DataType) (a b c next otherwise : Data) (p : ℕ) (c1 c0 : Action) (s : S)
      → test (Data.op t Op.conform a b c) s ≡ conforms p s
      → run_action c1 s ≡ normal (seq_or (run_next next) (run_otherwise otherwise) s)
      → run_action c0 s ≡ normal (run_otherwise otherwise s)
      → run_action (Action.at_conform p c1 c0) s
        ≡ normal (whole (Data.op t Op.conform a b c) next otherwise s)
  unfolding run run_action
  conform_case t a b c next otherwise p c1 c0 s e h1 h0 = elim (Bool-cases (conforms p s)) [
    | inl y ↦ rw (e, normal, seq_or, seq_and, run_action, y) h1
    | inr n ↦ rw (e, normal, seq_or, seq_and, run_action, n) h0
  ]

  decision_case :
      (r : DecisionResult) (k : ℕ) (next otherwise : Data) (act : Action) (s : S)
      → decision_action r k ≡ ok act
      → run_action act s ≡ normal (whole (Data.decision r k) next otherwise s)
  unfolding run run_action decision_action
  decision_case DecisionResult.class k next otherwise act s h =
      let e : act ≡ Action.at_class k = cc in rw e refl
  decision_case DecisionResult.drop k next otherwise act s h =
      let e : act ≡ Action.at_drop = cc in rw e refl
  decision_case DecisionResult.continue k next otherwise act s h =
      let e : act ≡ Action.at_unspec = cc in rw e refl
  decision_case DecisionResult.reclassify k next otherwise act s h = absurd cc

  module _ (police : ByPolice) where
    -- For tests of policers and charges that go by their addresses, and any fuel: if add_actions
    -- returns a tree for an expression with a continuation and an alternative, running the tree
    -- decides every packet as `(expression && continuation) || alternative` does, with the same
    -- effects on the state; none as continuation stands for true, none as alternative for false,
    -- and only a class decision's class counts.
    pub run-add_actions :
        (fuel : ℕ) (d next otherwise : Data) (act : Action)
        → add_actions fuel d next otherwise ≡ ok act
        → (s : S) → run_action act s ≡ normal (whole d next otherwise s)
    unfolding add_actions run run_next run_action
    run-add_actions zero d next otherwise act h s = absurd cc
    run-add_actions (suc fuel) (Data.op t Op.logical_or a b c) next otherwise act h s =
        let ih = run-add_actions fuel a Data.none b act h s in
        let (r, k, u, stops) = run_action_stops act s in
        stops
        ∙ sym (
            or_step (evaluated a) (evaluated b) (run_otherwise b) (run_next next)
              (run_otherwise otherwise) r k u s (evaluated a s) refl (run_otherwise-Follows b)
              (sym ih ∙ stops))
    run-add_actions (suc fuel) (Data.op t Op.logical_and a b c) next otherwise act h s =
        let ih = run-add_actions fuel a b otherwise act h s in
        let (r, k, u, stops) = run_action_stops act s in
        stops
        ∙ sym (
            and_step (evaluated a) (evaluated b) (run_next b) (run_next next)
              (run_otherwise otherwise) r k u s (evaluated a s) refl (run_next-Follows b)
              (run_next-Fails b) (sym ih ∙ stops))
    run-add_actions (suc fuel) (Data.op t Op.conform a b c) next otherwise act h s =
        let (p, c1, c0, hp, h1, h0, e) = conform_parts fuel a next otherwise act h in
        let first : run_action c1 s ≡ normal (seq_or (run_next next) (run_otherwise otherwise) s) =
          run-add_actions fuel next Data.none otherwise c1 h1 s
          ∙ ap normal (no_next next otherwise s)
          ∙ ap (λ (x : Run S). normal (seq_or x (run_otherwise otherwise) s))
              (sym (next_lem fuel next Data.none otherwise c1 h1).0) in
        let second : run_action c0 s ≡ normal (run_otherwise otherwise s) =
          run-add_actions fuel otherwise Data.none Data.none c0 h0 s
          ∙ ap normal (alone otherwise s)
          ∙ ap (λ (x : Run S). normal (x s))
              (sym (next_lem fuel otherwise Data.none Data.none c0 h0).1) in
        ap (λ (x : Action). run_action x s) e
        ∙ conform_case t a b c next otherwise p c1 c0 s (police.0 t a b c p s hp) first second
    run-add_actions (suc fuel) (Data.op t Op.count a b c) next otherwise act h s =
        let (p, c1, hp, h1, e) = count_parts fuel a next otherwise act h in
        let charged : charge a s ≡ counts p s = police.1 a p s hp in
        let later : run_action c1 (counts p s)
            ≡ normal (seq_or (run_next next) (run_otherwise otherwise) (counts p s)) =
          run-add_actions fuel next Data.none otherwise c1 h1 (counts p s)
          ∙ ap normal (no_next next otherwise (counts p s))
          ∙ ap (λ (x : Run S). normal (seq_or x (run_otherwise otherwise) (counts p s)))
              (sym (next_lem fuel next Data.none otherwise c1 h1).0) in
        ap (λ (x : Action). run_action x s) e
        ∙ later
        ∙ ap (λ (u : S). normal (seq_or (run_next next) (run_otherwise otherwise) u)) (sym charged)
    run-add_actions (suc fuel) (Data.decision r k) next otherwise act h s =
        decision_case r k next otherwise act s h
    run-add_actions (suc fuel) d next otherwise act h s = absurd cc
