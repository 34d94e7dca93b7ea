-- ===== src/Iflib/Subexpressions.antt =====
-- tcc/iflib_red.c: common_subexpressions.
pub mod Equal
pub mod Steady
pub mod Meanings
pub mod Suits
pub mod Cut
pub mod Unchanged
pub mod Masks
pub mod Preserved
pub mod Returns
pub mod Examples
use tcng.Common.{
  ℕ, zero, suc, Bool, true, false, ◌||◌, if◌then◌else◌, Result, ok, err, Error, ◌>>=◌,
}
use tcng.Data.{Data, DataType, Op, Doubles, same_op, expr_equal}

-- `d->op->dsc` in the condition of the loop.
unfoldable pub repeats : Op → Bool
repeats Op.or = true
repeats Op.and = true
repeats Op.logical_or = true
repeats Op.logical_and = true
repeats _ = false

abbrev pub found : Bool → Data → Result (Bool × Data)
found again d = ok (again, d)

module _ (fp : Doubles) where
  -- The loop over `walk`, from the operand `b` of a node `a o b`: what it leaves in the place of
  -- `b`, with `again`.
  unfoldable pub scan : Op → Data → Data → Result (Bool × Data)
  unfolding same_op
  scan o a (Data.op t o' x y z) =
      let further = scan o a y >>= λ (rest : Bool × Data). found rest.0 (Data.op t o' x rest.1 z) in
      let last = expr_equal fp a y >>= λ (same : Bool). elim same [
        | true ↦ found false x
        | false ↦ further
      ] in
      let first =
        expr_equal fp a x >>= λ (same : Bool). elim same [ true ↦ found true y | false ↦ last ] in
      if same_op o' o then first else found false (Data.op t o' x y z)
  scan o a d = found false d

  -- The outer loop, with fuel for the length of the chain.
  unfoldable pub rescan : ℕ → Op → Data → Data → Result Data
  unfolding scan
  rescan zero o a b = err Error.fault
  rescan (suc fuel) o a b = scan o a b >>= λ (rest : Bool × Data). elim rest.0 [
    | true ↦ rescan fuel o a rest.1
    | false ↦ ok rest.1
  ]

  unfoldable pub rescan_node : ℕ → Data → Result Data
  unfolding rescan repeats
  rescan_node fuel (Data.op t o a b c) =
      let chain = rescan fuel o a b >>= λ (b' : Data). ok (Data.op t o a b' c) in
      if repeats o then chain else ok (Data.op t o a b c)
  rescan_node fuel d = ok d

  unfoldable pub on_operands : (Data → Result Data) → Data → Result Data
  on_operands f (Data.op t o a b c) =
      f a >>= λ (a' : Data). f b >>= λ (b' : Data). f c >>= λ (c' : Data). ok (Data.op t o a' b' c')
  on_operands f d = ok d

  -- common_subexpressions, with fuel for the size of the expression.
  unfoldable pub common_subexpressions : ℕ → Data → Result Data
  unfolding rescan_node on_operands
  common_subexpressions zero d = err Error.fault
  common_subexpressions (suc fuel) d =
      rescan_node fuel d >>= on_operands (common_subexpressions fuel)
