-- ===== src/Iflib/ActionDb/Unique/Examples.antt =====
-- Two trees with a common part, and two that differ only in the order of children.
use tcng.Common.{none≢some, ap, ℕ, Bool, true, false, ◌≡◌, refl, [], none, ok}
use tcng.Data.{Data, Op}
use tcng.Iflib.ActionDb.{Action, police_of, asked, repeated_actions}
use tcng.Iflib.ActionDb.Meanings.{ByPolice, run_action, whole, normal}
use tcng.Iflib.ActionDb.Examples.{policer, tree, in_bucket, from_bucket, others_keep, built}
use tcng.Iflib.ActionDb.Unique.{
  State, action_eq, eq_at, find_address, among, allocate, add_referer, hash_key, hash_find,
  conform_node, unique_action, get_action,
}
use tcng.Iflib.ActionDb.Unique.Stands.{Stands, Extends, Oriented, Sound}
use tcng.Iflib.ActionDb.Unique.Shared.{Full}
use tcng.Iflib.ActionDb.Unique.Merged.{unique_action-Merges}
use tcng.Iflib.ActionDb.Unique.Kept.{unique_action-Full}
use tcng.Iflib.ActionDb.Unique.Lookups.{
  unique_action-Stands, unique_action-shared, get_action-Stands,
}

abbrev empty : State
empty = record { next = 0; node = λ j. none; referers = λ c. []; hash = λ k. []; root = [] }

abbrev is_drop : Action → Bool
is_drop Action.at_drop = true
is_drop a = false

abbrev own : ℕ → ℕ
own k = k

empty-Sound : Sound is_drop empty
unfolding among
empty-Sound = record {
  fresh = λ j after. refl;
  refers = λ c j member. cc;
  nodes = λ j n e. absurd (none≢some e);
}

empty-Full : Full own empty
empty-Full = record {
  leaves = λ j n e leaf. absurd (none≢some e);
  parents = λ j c n e child. absurd (none≢some e);
  single = λ j k n e e'. absurd (none≢some e);
}

tree-Oriented : Oriented is_drop tree
unfolding Oriented
tree-Oriented = (refl, refl, tt, tt)

-- conform 5 with the class for packets that do not conform, and drop for the others.
abbrev turned : Action
turned = Action.at_conform 5 Action.at_drop (Action.at_class 3)

abbrev straight : Action
straight = Action.at_conform 5 (Action.at_class 3) Action.at_drop

-- The two trees get one address.
confused :
    (unique_action own turned (unique_action own straight empty).1).0
    ≡ (unique_action own straight empty).0
unfolding unique_action hash_find conform_node eq_at action_eq find_address among allocate
    add_referer hash_key
confused = refl

unique_action-Stands_example :
    (i : ℕ) × (t : State) × (unique_action own tree empty ≡ (i, t))
    × Sound is_drop t
    × Full own t
    × Extends empty.node t.node
    × Stands t.node i tree
unique_action-Stands_example =
    unique_action-Stands own is_drop tree empty tree-Oriented empty-Sound empty-Full

-- After the first call the tree has an address.
abbrev once : State
once = (unique_action own tree empty).1

unique_action-shared_example : (unique_action own tree once).0 ≡ (unique_action own tree empty).0
unique_action-shared_example =
    unique_action-shared own is_drop tree once tree-Oriented
      ((unique_action-Merges own is_drop tree empty tree-Oriented empty-Sound).0)
      (unique_action-Full own is_drop tree empty tree-Oriented empty-Sound empty-Full)
      (unique_action own tree empty).0
      ((unique_action-Merges own is_drop tree empty tree-Oriented empty-Sound).2)

-- The bucket that an operand names.
abbrev bucket_of : Data → ℕ
bucket_of (Data.police p) = p
bucket_of (Data.bucket p) = p
bucket_of d = 0

abbrev asks : Data → (ℕ → ℕ) → Bool
asks (Data.op t Op.conform a b c) s = in_bucket (bucket_of a) s
asks d s = true

police_of-bucket_of : (a : Data) (p : ℕ) → police_of a ≡ ok p → bucket_of a ≡ p
unfolding police_of
police_of-bucket_of (Data.police q) p e = cc
police_of-bucket_of (Data.bucket q) p e = cc
police_of-bucket_of d p e = cc

by_bucket : ByPolice (λ d s. 0) asks (λ d s. from_bucket (bucket_of d) s) in_bucket from_bucket
by_bucket = (
  λ t a b c p s e. ap (λ q. in_bucket q s) (police_of-bucket_of a p e),
  λ a p s e. ap (λ q. from_bucket q s) (police_of-bucket_of a p e),
)

get_action-Stands_example :
    (i : ℕ) × (t : State) × (a : Action) × (get_action own 9 policer empty ≡ ok (i, t))
    × Stands t.node i a
    × ((s : ℕ → ℕ)
        → run_action (λ d s. 0) asks (λ d s. from_bucket (bucket_of d) s) in_bucket from_bucket a s
          ≡ normal (
              whole
                (λ d s. 0)
                asks
                (λ d s. from_bucket (bucket_of d) s)
                in_bucket
                from_bucket
                policer
                Data.none
                Data.none
                s))
unfolding repeated_actions asked
get_action-Stands_example =
    get_action-Stands own is_drop (λ d s. 0) asks (λ d s. from_bucket (bucket_of d) s) in_bucket
      from_bucket by_bucket others_keep 9 policer tree empty built ((tt, tt), tt) tree-Oriented
      empty-Sound empty-Full
