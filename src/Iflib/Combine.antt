-- ===== src/Iflib/Combine.antt =====
-- tcc/iflib_comb.c: the decisions of a class, and one expression for all `if` elements.
use tcng.Common.{ℕ, Bool, List, [], ◌∷◌, ◌++◌, Result, ok, ◌>>=◌, ◌==◌, if◌then◌else◌}
use tcng.Data.{Data, DataType, DecisionResult, Op, Doubles, type_of, same_type}
use tcng.Op.Base.{is_type}
use tcng.Op.Eval.{op_binary}

-- An element of a filter, by its class and the expression of its parameter `if_expr`.
pub record Element : Type 0 where
  pub class : ℕ
  pub if_expr : Data

-- A filter, with the test `filter->dsc == &if_dsc`.
pub record Filter : Type 0 where
  pub is_if : Bool
  pub elements : List Element

-- A list of classes: the filters and the children of the first one, and the rest.
pub data Classes : Type 0 where
  end : Classes
  class : List Filter → Classes → Classes → Classes

-- The order in which the callback sees the elements.
unfoldable pub if_iterate_filters : List Filter → List Element
if_iterate_filters [] = []
if_iterate_filters (f ∷ fs) =
    if f.is_if then f.elements ++ if_iterate_filters fs else if_iterate_filters fs

unfoldable pub if_iterate_classes : Classes → List Element
unfolding if_iterate_filters
if_iterate_classes end = []
if_iterate_classes (class fs child next) =
    if_iterate_filters fs ++ (if_iterate_classes child ++ if_iterate_classes next)

unfoldable pub iflib_comb_iterate : List Filter → Classes → List Element
unfolding if_iterate_classes
iflib_comb_iterate fs cs = if_iterate_filters fs ++ if_iterate_classes cs

-- `class_is_drop` is the address of the class of that name.
module _ (class_is_drop : ℕ) where
  unfoldable pub complement_leaf_decisions : Data → ℕ → Data
  complement_leaf_decisions (Data.decision r k) c =
      Data.decision (if c == class_is_drop then DecisionResult.drop else r) c
  complement_leaf_decisions (Data.op t o x y z) c =
      Data.op t o (complement_leaf_decisions x c) (complement_leaf_decisions y c)
        (complement_leaf_decisions z c)
  complement_leaf_decisions d c = d

  abbrev pub class_decision : ℕ → Data
  class_decision c =
      Data.decision (if c == class_is_drop then DecisionResult.drop else DecisionResult.class) c

  module _ (fp : Doubles) where
    unfoldable pub complement_decisions : Data → ℕ → Result Data
    unfolding complement_leaf_decisions
    complement_decisions d c = do
      both ← op_binary fp Op.logical_and d (class_decision c)
      ok (complement_leaf_decisions both c)

    unfoldable pub iflib_combine_callback : Element → Data → Result Data
    unfolding complement_decisions type_of same_type
    iflib_combine_callback e root = do
      expr ← complement_decisions e.if_expr e.class
      (if is_type root DataType.none then ok expr else op_binary fp Op.logical_or root expr)

    -- The callback over the elements.
    unfoldable pub combine_loop : List Element → Data → Result Data
    unfolding iflib_combine_callback
    combine_loop [] root = ok root
    combine_loop (e ∷ es) root = do root' ← iflib_combine_callback e root; combine_loop es root'

    unfoldable pub iflib_combine : List Filter → Classes → Result Data
    unfolding combine_loop iflib_comb_iterate
    iflib_combine fs cs = combine_loop (iflib_comb_iterate fs cs) Data.none
