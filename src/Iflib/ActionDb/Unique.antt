-- ===== src/Iflib/ActionDb/Unique.antt =====
-- tcc/iflib_actdb.c: hash_find, unique_action and get_action, which merge common subtrees.
pub mod Stands
pub mod Added
pub mod Inner
pub mod Merged
pub mod Shared
pub mod Kept
pub mod Lookups
pub mod Examples
use tcng.Common.{ℕ, ◌+◌, ◌%◌, Bool, true, false, ◌==◌, ◌&&◌, if◌then◌else◌}
use tcng.Common.{List, [], ◌∷◌, ◌++◌, Option, none, some, Result, ok, ◌>>=◌}
use tcng.Data.{Data, DataType, Op}
use tcng.Iflib.ActionDb.{Action, add_actions, repeated_actions}

-- `struct action` with its children by their addresses: c[1] and c[0] of `conform`, c[1] of `count`.
pub data Node : Type 0 where
  n_class : ℕ → Node
  n_drop n_unspec : Node
  n_conform : ℕ → ℕ → ℕ → Node
  n_count : ℕ → ℕ → Node

-- The actions in memory with their `referers`, the table `hash`, and the list `root`. `next` is the
-- next free address.
pub record State : Type 0 where
  pub next : ℕ
  pub node : ℕ → Option Node
  pub referers : ℕ → List ℕ
  pub hash : ℕ → List ℕ
  pub root : List ℕ

-- action_eq, which compares no children.
unfoldable pub action_eq : Node → Node → Bool
action_eq (n_class k) (n_class l) = k == l
action_eq n_drop n_drop = true
action_eq n_unspec n_unspec = true
action_eq (n_conform p a b) (n_conform q c d) = p == q
action_eq (n_count p a) (n_count q b) = p == q
action_eq _ _ = false

-- `action_eq` of the action at an address.
unfoldable pub eq_at : State → ℕ → Node → Bool
unfolding action_eq
eq_at s i n = elim (s.node i) [ none ↦ false | some m ↦ action_eq m n ]

-- The first of a list of addresses that passes a test.
unfoldable pub find_address : (ℕ → Bool) → List ℕ → Option ℕ
find_address test [] = none
find_address test (i ∷ is) = if test i then some i else find_address test is

-- `referer->action == walk->action` for some `walk`.
unfoldable pub among : ℕ → List ℕ → Bool
among i [] = false
among i (j ∷ js) = if i == j then true else among i js

-- A new action in memory.
unfoldable pub allocate : Node → State → State
allocate n s = record s { next = s.next + 1; node = λ j. if j == s.next then some n else s.node j }

-- add_referer: `referer` comes at the end of the list of `action`.
unfoldable pub add_referer : ℕ → ℕ → State → State
add_referer action referer s = record s {
  referers = λ j. if j == action then s.referers j ++ (referer ∷ []) else s.referers j;
}

-- HASH_ENTRIES
abbrev pub hash_entries : ℕ
hash_entries = 47

-- _unique_action of a `conform` action, after its children.
unfoldable pub conform_node : ℕ → ℕ → ℕ → State → ℕ × State
unfolding eq_at find_address among allocate add_referer
conform_node p i1 i0 s =
    let n = n_conform p i1 i0 in
    elim (find_address (λ i. eq_at s i n && among i (s.referers i1)) (s.referers i0)) [
      | some i ↦ (i, s)
      | none ↦ (s.next, add_referer i1 s.next (add_referer i0 s.next (allocate n s)))
    ]

-- _unique_action of a `count` action, after its child.
unfoldable pub count_node : ℕ → ℕ → State → ℕ × State
unfolding eq_at find_address allocate add_referer
count_node p i1 s =
    let n = n_count p i1 in
    elim (find_address (λ i. eq_at s i n) (s.referers i1)) [
      | some i ↦ (i, s)
      | none ↦ (s.next, add_referer i1 s.next (allocate n s))
    ]

-- `decision` is CLASS_TO_DECISION, what the configuration says of a class.
module _ (decision : ℕ → ℕ) where
  unfoldable pub hash_key : Node → ℕ
  hash_key (n_class k) = decision k % hash_entries
  hash_key n = 0

  unfoldable pub hash_find : Node → State → ℕ × State
  unfolding hash_key eq_at find_address allocate
  hash_find n s = elim (find_address (λ i. eq_at s i n) (s.hash (hash_key n))) [
    | some i ↦ (i, s)
    | none ↦
        let t = allocate n s in
        (s.next, record t { hash = λ k. if k == hash_key n then s.next ∷ s.hash k else s.hash k })
  ]

  unfoldable pub unique_action : Action → State → ℕ × State
  unfolding hash_find conform_node count_node
  unique_action (Action.at_class k) s = hash_find (n_class k) s
  unique_action Action.at_drop s = hash_find n_drop s
  unique_action Action.at_unspec s = hash_find n_unspec s
  unique_action (Action.at_conform p c1 c0) s =
      let (i0, s0) = unique_action c0 s in
      let (i1, s1) = unique_action c1 s0 in conform_node p i1 i0 s1
  unique_action (Action.at_count p c1) s = let (i1, s1) = unique_action c1 s in count_node p i1 s1

  unfoldable pub to_unique : Action → State → State
  unfolding among unique_action
  to_unique a s =
      let (i, t) = unique_action a s in if among i t.root then t else record t { root = i ∷ t.root }

  -- register_actions, with fuel for add_actions.
  unfoldable pub register_actions : ℕ → Data → State → Result State
  unfolding add_actions repeated_actions to_unique
  register_actions fuel d s = add_actions fuel d Data.none Data.none >>= λ (a : Action).
      ok (to_unique (repeated_actions [] a) s)

  -- get_action, with fuel for add_actions.
  unfoldable pub get_action : ℕ → Data → State → Result (ℕ × State)
  unfolding add_actions repeated_actions unique_action
  get_action fuel d s = add_actions fuel d Data.none Data.none >>= λ (a : Action).
      ok (unique_action (repeated_actions [] a) s)

-- free_actions
unfoldable pub free_actions : State → State
free_actions s = record s { root = []; hash = λ k. [] }
