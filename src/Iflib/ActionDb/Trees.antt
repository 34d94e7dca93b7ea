-- ===== src/Iflib/ActionDb/Trees.antt =====
-- The expressions that add_actions makes a tree of.
use tcng.Common.{Bool, ◌∙◌, ap, ℕ, zero, suc, ◌+◌, ◌≤◌, ◌≡◌, ◌≢◌, refl, arith, ok, ◌>>=◌}
use tcng.Data.{Data, DataType, Op, DecisionResult}
use tcng.Iflib.Meaning.{run}
use tcng.Iflib.ActionDb.Meanings.{ByPolice, run_action, normal, run-add_actions, alone}
use tcng.Iflib.ActionDb.{Action, police_of, decision_action, add_actions}

-- A decision, a count before a tree, or a tree for packets that conform and one for the others.
pub data IsTree : Data → Type 0 where
  leaf : (r : DecisionResult) (k : ℕ) → r ≢ DecisionResult.reclassify → IsTree (Data.decision r k)
  counted :
      (t t' : DataType) (a b c c' x : Data) (p : ℕ)
      → police_of a ≡ ok p
      → IsTree x
      → IsTree (Data.op t Op.logical_and (Data.op t' Op.count a b c) x c')
  policed :
      (t t' t'' : DataType) (a b c c' c'' x y : Data) (p : ℕ)
      → police_of a ≡ ok p
      → IsTree x
      → IsTree y
      → IsTree (
          Data.op t Op.logical_or
            (Data.op t' Op.logical_and (Data.op t'' Op.conform a b c) x c')
            y
            c'')

-- The number of operators on the left and right, which is fuel enough.
unfoldable pub weight : Data → ℕ
weight (Data.op t o a b c) = suc (weight a + weight b)
weight d = 1

decision_ends :
    (r : DecisionResult) (k : ℕ)
    → r ≢ DecisionResult.reclassify
    → (act : Action) × (decision_action r k ≡ ok act)
unfolding decision_action
decision_ends DecisionResult.class k h = (Action.at_class k, refl)
decision_ends DecisionResult.drop k h = (Action.at_drop, refl)
decision_ends DecisionResult.continue k h = (Action.at_unspec, refl)
decision_ends DecisionResult.reclassify k h = absurd (h refl)

pub add_actions_ends :
    (fuel : ℕ) (d otherwise : Data)
    → IsTree d
    → weight d ≤ fuel
    → (act : Action) × (add_actions fuel d Data.none otherwise ≡ ok act)
unfolding add_actions weight
add_actions_ends zero d otherwise (leaf r k h) enough = absurd (omega arith)
add_actions_ends (suc fuel) d otherwise (leaf r k h) enough = decision_ends r k h
add_actions_ends zero d otherwise (counted t t' a b c c' x p e tree) enough = absurd (omega arith)
add_actions_ends (suc zero) d otherwise (counted t t' a b c c' x p e tree) enough =
    absurd (omega arith)
add_actions_ends (suc (suc fuel)) d otherwise (counted t t' a b c c' x p e tree) enough =
    let (c1, runs) = add_actions_ends fuel x otherwise tree (omega arith) in
    (Action.at_count p c1, rw (e, ◌>>=◌, runs) refl)
add_actions_ends zero d otherwise (policed t t' t'' a b c c' c'' x y p e tree tree') enough =
    absurd (omega arith)
add_actions_ends (suc zero) d otherwise (policed t t' t'' a b c c' c'' x y p e tree tree') enough =
    absurd (omega arith)
add_actions_ends (suc (suc zero)) d otherwise (policed t t' t'' a b c c' c'' x y p e tree tree')
      enough =
    absurd (omega arith)
add_actions_ends (suc (suc (suc fuel))) d otherwise
      (policed t t' t'' a b c c' c'' x y p e tree tree') enough =
    let (c1, runs) = add_actions_ends fuel x y tree (omega arith) in
    let (c0, runs') = add_actions_ends fuel y Data.none tree' (omega arith) in
    (Action.at_conform p c1 c0, rw (e, ◌>>=◌, runs, runs') refl)

module _ {S : Type 0} (field : Data → S → ℕ) (test : Data → S → Bool) (charge : Data → S → S)
    (conforms : ℕ → S → Bool) (counts : ℕ → S → S)
    (police : ByPolice field test charge conforms counts) where
  -- For an expression that is a decision other than reclassify, a count before such an
  -- expression, or a conform test with one for packets that conform and one for the others, for
  -- tests and charges that go by the addresses of policers, and fuel for its operators:
  -- add_actions returns a tree, and running it decides every packet as the expression does, with
  -- the same effects on the state, where only a class decision's class counts.
  pub add_actions-IsTree :
      (fuel : ℕ) (d : Data)
      → IsTree d
      → weight d ≤ fuel
      → (act : Action) × (add_actions fuel d Data.none Data.none ≡ ok act)
        × ((s : S)
            → run_action field test charge conforms counts act s
              ≡ normal (run field test charge d s))
  add_actions-IsTree fuel d tree enough =
      let (act, runs) = add_actions_ends fuel d Data.none tree enough in
      (
        act,
        runs,
        λ s.
            run-add_actions field test charge conforms counts police fuel d Data.none Data.none act
              runs s
            ∙ ap normal (alone field test charge conforms counts d s),
      )
