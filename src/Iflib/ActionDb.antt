-- ===== src/Iflib/ActionDb.antt =====
-- tcc/iflib_actdb.c: make_action and add_actions, which turn an action expression into a tree, and
-- repeated_actions.
pub mod Meanings
pub mod Trees
pub mod Repeated
pub mod Unique
pub mod Examples
use tcng.Common.{
  List, [], ◌∷◌, Option, none, some, true, false, ◌==◌, if◌then◌else◌, ℕ, zero, suc, ◌+◌, Bool,
  Result, ok, err, Error, ◌>>=◌,
}
use tcng.Data.{Data, Op, DecisionResult}

-- `struct action`, by its type and less what later steps put into it. The children of `conform` are
-- c[1] and c[0], the child of `count` is c[1].
pub data Action : Type 0 where
  at_class : ℕ → Action
  at_drop at_unspec : Action
  at_conform : ℕ → Action → Action → Action
  at_count : ℕ → Action → Action

-- `d.op->a.u.police`
unfoldable pub police_of : Data → Result ℕ
police_of (Data.police p) = ok p
police_of (Data.bucket p) = ok p
police_of _ = err Error.undefined

-- make_action for a decision.
unfoldable pub decision_action : DecisionResult → ℕ → Result Action
decision_action DecisionResult.class k = ok (Action.at_class k)
decision_action DecisionResult.drop k = ok Action.at_drop
decision_action DecisionResult.continue k = ok Action.at_unspec
decision_action DecisionResult.reclassify k = err Error.cannot_dump

-- add_actions on fuel.
unfoldable pub add_actions : ℕ → Data → Data → Data → Result Action
unfolding police_of decision_action
add_actions zero d next otherwise = err Error.fault
add_actions (suc fuel) (Data.op t Op.logical_or a b c) next otherwise =
    add_actions fuel a Data.none b
add_actions (suc fuel) (Data.op t Op.logical_and a b c) next otherwise =
    add_actions fuel a b otherwise
add_actions (suc fuel) (Data.op t Op.conform a b c) next otherwise = police_of a >>= λ (p : ℕ).
    add_actions fuel next Data.none otherwise >>= λ (c1 : Action).
    add_actions fuel otherwise Data.none Data.none >>= λ (c0 : Action).
    ok (Action.at_conform p c1 c0)
add_actions (suc fuel) (Data.op t Op.count a b c) next otherwise = police_of a >>= λ (p : ℕ).
    add_actions fuel next Data.none otherwise >>= λ (c1 : Action). ok (Action.at_count p c1)
add_actions (suc fuel) (Data.decision r k) next otherwise = decision_action r k
add_actions (suc fuel) d next otherwise = err Error.cannot_dump

-- The tests between the root and a node, the last one first: policer and branch.
abbrev pub Ancestors : Type 0
Ancestors = List (ℕ × Bool)

-- The loop over the parents, up to one that asks the same policer.
unfoldable pub asked : ℕ → Ancestors → Option Bool
asked p [] = none
asked p ((q, v) ∷ path) = if q == p then some v else asked p path

-- repeated_actions; what free_subtree leaves in memory is not reached any more.
unfoldable pub repeated_actions : Ancestors → Action → Action
unfolding asked
repeated_actions path (Action.at_conform p c1 c0) = elim (asked p path) [
  | some v ↦ elim v [ true ↦ repeated_actions path c1 | false ↦ repeated_actions path c0 ]
  | none ↦
      Action.at_conform p (repeated_actions ((p, true) ∷ path) c1)
        (repeated_actions ((p, false) ∷ path) c0)
]
repeated_actions path (Action.at_count p c1) = Action.at_count p (repeated_actions path c1)
repeated_actions path (Action.at_class k) = Action.at_class k
repeated_actions path Action.at_drop = Action.at_drop
repeated_actions path Action.at_unspec = Action.at_unspec
