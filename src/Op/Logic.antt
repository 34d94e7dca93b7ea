-- ===== src/Op/Logic.antt =====
-- tcc/op.c: `&&`, `||` and the comparisons.
use tcng.Common.{ℕ, Bool, true, false, not, ◌&&◌, ◌||◌, List, [], ◌∷◌}
use tcng.Common.{Result, ok, err, Error, ◌>>=◌, ◌>>◌, guard, ◌==◌, ltb, leb, if◌then◌else◌}
use tcng.U128.{u128_is_zero, u128_cmp, Cmp}
use tcng.Data.{Data, DataType, Op, Double, Doubles, type_of, has_op, same_type}
use tcng.Data.{integer_number, untyped_number, typed_number, data_convert}
use tcng.Op.Base.{make_op, unum_of, u128_of, fnum_of, is_type, mix_types}

-- A constant operand of `&&` and `||` as a test.
unfoldable pub truth_of : Data → Bool
truth_of (Data.ipv6 n) = not (u128_is_zero n)
truth_of a = not (unum_of a == 0)

abbrev pub as_unum : Bool → Data
as_unum b = Data.unum (if b then 1 else 0)

abbrev pub in_condition : Data → Bool
in_condition d = integer_number (type_of d) || is_type d DataType.decision

-- Both operands are constants.
unfoldable pub and_or_const : Op → Data → Data → Data
unfolding truth_of
and_or_const Op.logical_and a b = as_unum (truth_of a && truth_of b)
and_or_const _ a b = as_unum (truth_of a || truth_of b)

unfoldable pub and_or_eval : Op → Data → Data → Data → Result Data
unfolding and_or_const integer_number type_of has_op same_type
and_or_eval o a b c = do
  guard (in_condition a) Error.bad_type
  guard (in_condition b) Error.bad_type
  (if is_type a DataType.decision || is_type b DataType.decision
      then ok (make_op o a b c DataType.unum)
      else if has_op a || has_op b
      then ok (make_op o a b c DataType.unum)
      else ok (and_or_const o a b))

-- rel_unum_op, and a fault for the name of another operator.
unfoldable pub rel_unum_op : Op → ℕ → ℕ → Result Bool
rel_unum_op Op.eq a b = ok (a == b)
rel_unum_op Op.ne a b = ok (not (a == b))
rel_unum_op Op.gt a b = ok (ltb b a)
rel_unum_op Op.ge a b = ok (leb b a)
rel_unum_op Op.lt a b = ok (ltb a b)
rel_unum_op Op.le a b = ok (leb a b)
rel_unum_op _ a b = err Error.fault

-- eval_cmp, by the characters of the operator's name.
unfoldable pub eval_cmp : Op → Cmp → Result Bool
eval_cmp Op.eq Cmp.same = ok true
eval_cmp Op.ne Cmp.same = ok false
eval_cmp Op.gt Cmp.same = ok false
eval_cmp Op.ge Cmp.same = ok true
eval_cmp Op.lt Cmp.same = ok false
eval_cmp Op.le Cmp.same = ok true
eval_cmp Op.eq _ = ok false
eval_cmp Op.ne _ = ok true
eval_cmp Op.gt Cmp.above = ok true
eval_cmp Op.gt _ = ok false
eval_cmp Op.ge Cmp.above = ok true
eval_cmp Op.ge _ = ok false
eval_cmp Op.lt Cmp.below = ok true
eval_cmp Op.lt _ = ok false
eval_cmp Op.le Cmp.below = ok true
eval_cmp Op.le _ = ok false
eval_cmp _ _ = err Error.fault

-- strcmp
unfoldable pub strcmp : List ℕ → List ℕ → Cmp
strcmp [] [] = Cmp.same
strcmp [] (y ∷ ys) = Cmp.below
strcmp (x ∷ xs) [] = Cmp.above
strcmp (x ∷ xs) (y ∷ ys) = if x == y then strcmp xs ys else if ltb x y then Cmp.below else Cmp.above

module _ (fp : Doubles) where
  unfoldable pub rel_fnum_op : Op → Double → Double → Result Bool
  rel_fnum_op Op.eq a b = ok (fp.equal a b)
  rel_fnum_op Op.ne a b = ok (not (fp.equal a b))
  rel_fnum_op Op.gt a b = ok (fp.less b a)
  rel_fnum_op Op.ge a b = ok (fp.less b a || fp.equal b a)
  rel_fnum_op Op.lt a b = ok (fp.less a b)
  rel_fnum_op Op.le a b = ok (fp.less a b || fp.equal a b)
  rel_fnum_op _ a b = err Error.fault

  -- The untyped constants of `rel_eval`, by their common type.
  unfoldable pub rel_const : Op → DataType → Data → Data → Result Bool
  unfolding rel_unum_op eval_cmp rel_fnum_op
  rel_const o DataType.unum a b = rel_unum_op o (unum_of a) (unum_of b)
  rel_const o DataType.ipv4 a b = rel_unum_op o (unum_of a) (unum_of b)
  rel_const o DataType.ipv6 a b = do
    x ← data_convert fp a DataType.ipv6
    y ← data_convert fp b DataType.ipv6
    eval_cmp o (u128_cmp (u128_of x) (u128_of y))
  rel_const o DataType.fnum a b = do
    x ← data_convert fp a DataType.fnum
    y ← data_convert fp b DataType.fnum
    rel_fnum_op o (fnum_of x) (fnum_of y)
  rel_const o _ a b = err Error.fault

  unfoldable pub rel_string : Op → Data → Data → Result Data
  unfolding strcmp eval_cmp
  rel_string o (Data.string s) (Data.string t) = do r ← eval_cmp o (strcmp s t); ok (as_unum r)
  rel_string o _ _ = err Error.string_variable

  unfoldable pub rel_eval : Op → Data → Data → Data → Result Data
  unfolding rel_const rel_string untyped_number integer_number typed_number type_of has_op mix_types
  rel_eval o a b c =
      let constants = (do
        t ← mix_types (type_of a) (type_of b)
        r ← rel_const o t a b
        ok (as_unum r)) in
      let typed = (do r ← rel_fnum_op o (fnum_of a) (fnum_of b); ok (as_unum r)) in
      if untyped_number (type_of a) && untyped_number (type_of b)
      then (if has_op a || has_op b then ok (make_op o a b c DataType.unum) else constants)
      else if is_type a DataType.string && is_type b DataType.string
      then rel_string o a b
      else if not (same_type (type_of a) (type_of b)) || not (typed_number (type_of a))
      then err Error.bad_type
      else if has_op a || has_op b
      then ok (make_op o a b c DataType.unum)
      else typed
