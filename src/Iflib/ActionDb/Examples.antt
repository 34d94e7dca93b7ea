-- ===== src/Iflib/ActionDb/Examples.antt =====
-- A policer with a class for the packets that conform.
use tcng.Common.{
  arith, Bool-cases, inl, inr, ==_iff, ◌≢◌, none≢some, true, if◌then◌else◌, ◌==◌, [], ℕ, ◌-◌, ◌≡◌,
  refl, Bool, ltb, ok,
}
use tcng.Data.{Data, DataType, Op, DecisionResult}
use tcng.Iflib.ActionDb.Repeated.{AsksOnce, repeated_actions-AsksOnce, run_action-repeated_actions}
use tcng.Iflib.ActionDb.{repeated_actions, asked, Action, police_of, decision_action, add_actions}
use tcng.Iflib.Meaning.{run}
use tcng.Iflib.ActionDb.Trees.{IsTree, leaf, counted, policed, weight, add_actions-IsTree}
use tcng.Iflib.ActionDb.Meanings.{ByPolice, run_action, whole, normal, run-add_actions}

-- (conform 5 && (count 5 && class 3)) || drop
abbrev pub policer : Data
policer =
    Data.op DataType.unum Op.logical_or
      (Data.op DataType.unum Op.logical_and
        (Data.op DataType.unum Op.conform (Data.police 5) Data.none Data.none)
        (Data.op DataType.unum Op.logical_and
          (Data.op DataType.unum Op.count (Data.police 5) Data.none Data.none)
          (Data.decision DecisionResult.class 3) Data.none)
        Data.none)
      (Data.decision DecisionResult.drop 0) Data.none

abbrev pub tree : Action
tree = Action.at_conform 5 (Action.at_count 5 (Action.at_class 3)) Action.at_drop

-- A state is what a bucket holds.
abbrev holds : Data → ℕ → Bool
holds d s = ltb 0 s

abbrev charge : Data → ℕ → ℕ
charge d s = s - 1

abbrev holds_police : ℕ → ℕ → Bool
holds_police p s = ltb 0 s

abbrev charge_police : ℕ → ℕ → ℕ
charge_police p s = s - 1

by_police : ByPolice (λ d s. 0) holds charge holds_police charge_police
by_police = (λ t a b c p s h. refl, λ a p s h. refl)

pub built : add_actions 9 policer Data.none Data.none ≡ ok tree
unfolding add_actions police_of decision_action
built = refl

run-add_actions_example :
    run_action (λ d s. 0) holds charge holds_police charge_police tree 2
    ≡ normal
        (whole (λ d s. 0) holds charge holds_police charge_police policer Data.none Data.none 2)
run-add_actions_example =
    run-add_actions (λ d s. 0) holds charge holds_police charge_police by_police 9 policer Data.none
      Data.none tree built 2

policer-IsTree : IsTree policer
unfolding police_of
policer-IsTree =
    policed DataType.unum DataType.unum DataType.unum (Data.police 5) Data.none Data.none Data.none
      Data.none
      (Data.op DataType.unum Op.logical_and
        (Data.op DataType.unum Op.count (Data.police 5) Data.none Data.none)
        (Data.decision DecisionResult.class 3) Data.none)
      (Data.decision DecisionResult.drop 0) 5 found
      (counted DataType.unum DataType.unum (Data.police 5) Data.none Data.none Data.none
        (Data.decision DecisionResult.class 3) 5 found (leaf DecisionResult.class 3 (λ e. cc)))
      (leaf DecisionResult.drop 0 (λ e. cc))
  where
    found : police_of (Data.police 5) ≡ ok 5
    found = refl

add_actions-IsTree_example :
    (act : Action) × (add_actions 20 policer Data.none Data.none ≡ ok act)
    × ((s : ℕ)
        → run_action (λ d s. 0) holds charge holds_police charge_police act s
          ≡ normal (run (λ d s. 0) holds charge policer s))
unfolding weight
add_actions-IsTree_example =
    add_actions-IsTree (λ d s. 0) holds charge holds_police charge_police by_police 20 policer
      policer-IsTree (omega arith)

-- conform 5 && (conform 6 && (conform 5 && class 3 || drop)) || drop, as a tree.
abbrev asks_twice : Action
asks_twice =
    Action.at_conform 5
      (Action.at_conform 6
        (Action.at_conform 5 (Action.at_count 5 (Action.at_class 3)) Action.at_drop) Action.at_drop)
      Action.at_drop

abbrev asks_once : Action
asks_once =
    Action.at_conform 5 (Action.at_conform 6 (Action.at_count 5 (Action.at_class 3)) Action.at_drop)
      Action.at_drop

removed : repeated_actions [] asks_twice ≡ asks_once
unfolding repeated_actions asked
removed = refl

repeated_actions-AsksOnce_example : AsksOnce [] (repeated_actions [] asks_twice)
repeated_actions-AsksOnce_example = repeated_actions-AsksOnce asks_twice []

-- A state is what each bucket holds.
abbrev pub in_bucket : ℕ → (ℕ → ℕ) → Bool
in_bucket p s = ltb 0 (s p)

abbrev pub from_bucket : ℕ → (ℕ → ℕ) → ℕ → ℕ
from_bucket q s p = if p == q then s p - 1 else s p

pub others_keep : (p q : ℕ) (s : ℕ → ℕ) → p ≢ q → in_bucket p (from_bucket q s) ≡ in_bucket p s
others_keep p q s h = elim (Bool-cases (p == q)) [
  | inl same ↦ absurd (h ((==_iff p q).0 same))
  | inr other ↦ rw (other) refl
]

run_action-repeated_actions_example :
    run_action
      (λ d s. 0)
      (λ d s. true)
      (λ d s. s)
      in_bucket
      from_bucket
      (repeated_actions [] asks_twice)
      (λ p. 1)
    ≡ run_action (λ d s. 0) (λ d s. true) (λ d s. s) in_bucket from_bucket asks_twice (λ p. 1)
unfolding asked
run_action-repeated_actions_example =
    run_action-repeated_actions (λ d s. 0) (λ d s. true) (λ d s. s) in_bucket from_bucket
      others_keep asks_twice [] (λ p. 1) ((((tt, tt), tt), tt), tt) (λ p v e. absurd (none≢some e))
