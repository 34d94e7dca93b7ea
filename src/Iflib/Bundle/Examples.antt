-- ===== src/Iflib/Bundle/Examples.antt =====
-- Chains of || with common operands.
use tcng.Common.{ℕ, ◌≡◌, refl, [], ◌∷◌, ok, err, Error}
use tcng.Data.{
  Data, DataType, Op, DecisionResult, type_of, same_type, integer_number, expr_equal, data_equal,
  same_op, op_code, same_decision, result_code, has_op,
}
use tcng.Data.Clone.{data_clone}
use tcng.Data.Examples.{plain_doubles}
use tcng.Op.Logic.{and_or_eval}
use tcng.Op.Eval.{op_binary, eval}
use tcng.Iflib.Bundle.{
  Matrix, count, min_cells, same_cells, same_rows, widen, grow, find_from, bundle_find_best, behind,
  front, part, is_empty, join_ands, bundle_ands, join_ors, bundle_ors, row_at, bundle_rebuild,
  bundle, and_cells, bundle_make_matrix,
}
use tcng.Iflib.Bundle.Rectangles.{IsRectangle, bundle_find_best-IsRectangle}

abbrev above : ℕ → Data
above n = Data.op DataType.unum Op.gt (Data.field_root 0) (Data.unum n) Data.none

abbrev class : ℕ → Data
class k = Data.decision DecisionResult.class k

abbrev both : Data → Data → Data
both a b = Data.op DataType.unum Op.logical_and a b Data.none

abbrev either : Data → Data → Data
either a b = Data.op DataType.unum Op.logical_or a b Data.none

abbrev rows : Matrix
rows =
    (above 9 ∷ class 7 ∷ [])
    ∷ (above 3 ∷ above 4 ∷ class 1 ∷ [])
    ∷ (above 3 ∷ above 5 ∷ class 2 ∷ [])
    ∷ []

found : bundle_find_best plain_doubles rows ≡ ok (record { first = 1; ors = 2; ands = 1 })
unfolding bundle_find_best find_from grow widen same_rows same_cells min_cells count expr_equal
    data_equal same_op op_code same_decision result_code
found = refl

bundle_find_best-IsRectangle_example :
    IsRectangle plain_doubles rows (record { first = 1; ors = 2; ands = 1 })
bundle_find_best-IsRectangle_example =
    bundle_find_best-IsRectangle plain_doubles rows (record { first = 1; ors = 2; ands = 1 }) found

-- above 3 && class 1 || above 3 && class 2
bundled :
    bundle plain_doubles 9 (either (both (above 3) (class 1)) (both (above 3) (class 2)))
    ≡ ok (both (above 3) (either (class 1) (class 2)))
unfolding bundle bundle_make_matrix and_cells bundle_rebuild bundle_ors join_ors bundle_ands
    join_ands part behind front is_empty row_at bundle_find_best find_from grow widen same_rows
    same_cells min_cells count expr_equal data_equal same_op op_code same_decision result_code
    op_binary eval and_or_eval data_clone type_of same_type has_op integer_number
bundled = refl

-- above 3 && class 1 || above 3 loses its decision.
decision_lost : bundle plain_doubles 9 (either (both (above 3) (class 1)) (above 3)) ≡ ok (above 3)
unfolding bundle bundle_make_matrix and_cells bundle_rebuild bundle_ors join_ors bundle_ands
    join_ands part behind front is_empty row_at bundle_find_best find_from grow widen same_rows
    same_cells min_cells count expr_equal data_equal same_op op_code same_decision result_code
    op_binary eval and_or_eval data_clone type_of same_type has_op integer_number
decision_lost = refl

-- above 3 || above 3 && class 1 ends in an error.
short_first :
    bundle plain_doubles 9 (either (above 3) (both (above 3) (class 1))) ≡ err Error.bad_type
unfolding bundle bundle_make_matrix and_cells bundle_rebuild bundle_ors join_ors bundle_ands
    join_ands part behind front is_empty row_at bundle_find_best find_from grow widen same_rows
    same_cells min_cells count expr_equal data_equal same_op op_code same_decision result_code
    op_binary eval and_or_eval data_clone type_of same_type has_op integer_number
short_first = refl
