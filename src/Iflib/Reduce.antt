-- ===== src/Iflib/Reduce.antt =====
-- tcc/iflib_red.c: prune_shortcuts and linearize.
use tcng.Common.{ℕ, zero, suc, Bool, true, false, not, ◌&&◌, Option, none, some, ◌==◌}
use tcng.Common.{if◌then◌else◌}
use tcng.Data.{Data, DataType, Op, type_of, same_type, same_op}
use tcng.Op.Base.{is_type}
use tcng.Iflib.Classify.{side_effect}

-- `!d.op && d.type == dt_unum`, with the number.
abbrev pub const_unum : Data → Option ℕ
const_unum (Data.unum n) = some n
const_unum _ = none

-- The simplifications of one `&&`, on operands that are pruned already. `whole` is the node.
unfoldable pub prune_and : Data → Data → Data → Data
unfolding side_effect same_type type_of
prune_and a b whole = if is_type a DataType.decision then a else elim (const_unum a) [
  | some n ↦ if n == 0 then Data.unum 0 else b
  | none ↦ elim (const_unum b) [
    | some n ↦
        if n == 0 && not (side_effect a) then Data.unum 0 else if not (n == 0) then a else whole
    | none ↦ whole
  ]
]

unfoldable pub prune_or : Data → Data → Data → Data
unfolding side_effect same_type type_of
prune_or a b whole = if is_type a DataType.decision then a else elim (const_unum a) [
  | some n ↦ if n == 0 then b else Data.unum 1
  | none ↦ elim (const_unum b) [
    | some n ↦
        if not (n == 0) && not (side_effect a) then Data.unum 1 else if n == 0 then a else whole
    | none ↦ whole
  ]
]

unfoldable pub prune_node : DataType → Op → Data → Data → Data → Data
unfolding prune_and prune_or
prune_node t Op.logical_and a b c = prune_and a b (Data.op t Op.logical_and a b c)
prune_node t Op.logical_or a b c = prune_or a b (Data.op t Op.logical_or a b c)
prune_node t o a b c = Data.op t o a b c

unfoldable pub prune_shortcuts : Data → Data
unfolding prune_node
prune_shortcuts (Data.op t o a b c) =
    prune_node t o (prune_shortcuts a) (prune_shortcuts b) (prune_shortcuts c)
prune_shortcuts d = d

abbrev pub is_and_or : Op → Bool
is_and_or Op.logical_and = true
is_and_or Op.logical_or = true
is_and_or _ = false

-- The loop of `linearize`: it turns the node over while the left operand has the node's operator.
unfoldable pub rotate : DataType → Op → Data → Data → Data → Data
unfolding same_op
rotate t o (Data.op t' o' a b c) r third =
    let turned = rotate t' o' a (Data.op t o b r third) c in
    if is_and_or o && same_op o' o then turned else Data.op t o (Data.op t' o' a b c) r third
rotate t o l r third = Data.op t o l r third

unfoldable pub turn : Data → Data
unfolding rotate
turn (Data.op t o a b c) = rotate t o a b c
turn d = d

abbrev pub over_operands : (Data → Data) → Data → Data
over_operands f (Data.op t o a b c) = Data.op t o (f a) (f b) (f c)
over_operands f d = d

-- linearize, with fuel for the depth of the expression.
unfoldable pub linearize : ℕ → Data → Data
unfolding same_type type_of
linearize zero d = d
linearize (suc fuel) d =
    let rest = over_operands (linearize fuel) (turn d) in
    if is_type d DataType.none then d else rest
