-- ===== src/Iflib/Classify.antt =====
-- tcc/iflib_act.c: self_contained, action_tree, side_effect and trim_self_contained.
use tcng.Common.{Bool, true, false, ◌&&◌, ◌||◌, ◌==◌, if◌then◌else◌}
use tcng.Data.{Data, Op}

-- SELF_CONTAINED
pub data SelfContained : Type 0 where
  sc_no sc_no_false sc_no_true sc_yes : SelfContained

abbrev pub sc_not : SelfContained → SelfContained
sc_not sc_no = sc_no
sc_not sc_no_true = sc_no_false
sc_not sc_no_false = sc_no_true
sc_not sc_yes = sc_yes

-- The tables in the comments of `self_contained`.
abbrev pub sc_and : SelfContained → SelfContained → SelfContained
sc_and sc_yes b = sc_yes
sc_and sc_no_false b = sc_no_false
sc_and sc_no_true b = b
sc_and sc_no sc_yes = sc_no_false
sc_and sc_no sc_no_false = sc_no_false
sc_and sc_no _ = sc_no

abbrev pub sc_or : SelfContained → SelfContained → SelfContained
sc_or sc_yes b = sc_yes
sc_or sc_no_true b = sc_no_true
sc_or sc_no_false b = b
sc_or sc_no sc_yes = sc_no_true
sc_or sc_no sc_no_true = sc_no_true
sc_or sc_no _ = sc_no

unfoldable pub self_contained : Data → SelfContained
self_contained (Data.unum n) = if n == 0 then sc_no_false else sc_no_true
self_contained (Data.decision r c) = sc_yes
self_contained (Data.op t Op.conform a b c) = sc_no
self_contained (Data.op t Op.count a b c) = sc_no_true
self_contained (Data.op t Op.logical_not a b c) = sc_not (self_contained a)
self_contained (Data.op t Op.logical_and a b c) = sc_and (self_contained a) (self_contained b)
self_contained (Data.op t Op.logical_or a b c) = sc_or (self_contained a) (self_contained b)
self_contained _ = sc_no

abbrev pub is_sc_yes : SelfContained → Bool
is_sc_yes sc_yes = true
is_sc_yes _ = false

unfoldable pub action_tree : Data → Bool
unfolding self_contained
action_tree (Data.decision r c) = true
action_tree (Data.op t Op.conform a b c) = true
action_tree (Data.op t Op.count a b c) = true
action_tree (Data.op t Op.logical_and a b c) =
    action_tree a && (is_sc_yes (self_contained a) || action_tree b)
action_tree (Data.op t Op.logical_or a b c) =
    action_tree a && (is_sc_yes (self_contained a) || action_tree b)
action_tree _ = false

unfoldable pub side_effect : Data → Bool
side_effect (Data.decision r c) = true
side_effect (Data.op t Op.count a b c) = true
side_effect (Data.op t o a b c) = side_effect a || (side_effect b || side_effect c)
side_effect _ = false

-- The end of `trim_self_contained`, on operands that are trimmed already.
unfoldable pub trim_node : Op → Data → Data → Data
unfolding self_contained
trim_node Op.logical_and a whole = if is_sc_yes (self_contained a) then a else whole
trim_node Op.logical_or a whole = if is_sc_yes (self_contained a) then a else whole
trim_node _ a whole = whole

unfoldable pub trim_self_contained : Data → Data
unfolding trim_node
trim_self_contained (Data.op t o a b c) =
    let a' = trim_self_contained a in
    trim_node o a' (Data.op t o a' (trim_self_contained b) (trim_self_contained c))
trim_self_contained d = d
