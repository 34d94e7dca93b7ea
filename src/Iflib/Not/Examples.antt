-- ===== src/Iflib/Not/Examples.antt =====
-- iflib_not (tcc/iflib_not.c) on a small expression. A packet is a number, and `count` adds one to it.
use tcng.Common.{ℕ, suc, ◌≡◌, refl, true, false, Bool, ok}
use tcng.U128.{
  u128_is_zero, u128_from_32, u128_cmp, cmp_word, u128_and_32, u128_shift_right, right_loop, put,
  right_word, word,
}
use tcng.Data.{Data, DataType, DecisionResult, Op, data_convert, is_same}
use tcng.Data.Examples.{plain_doubles}
use tcng.Iflib.Meaning.{run, condition}
use tcng.Iflib.Not.Joins.{clean}
use tcng.Iflib.Not.{iflib_not}
use tcng.Iflib.Not.Placed.{in_range, ne_constant, placed}
use tcng.Iflib.Not.Negation.{run-iflib_not}

abbrev read_number : Data → ℕ → ℕ
read_number d s = s

abbrev holds : Data → ℕ → Bool
holds d s = true

abbrev count_one : Data → ℕ → ℕ
count_one d s = suc s

abbrev node : Op → Data → Data → Data
node o a b = Data.op DataType.unum o a b Data.none

-- `(!(port == 80) && ((flags & 2) != 0 && accept)) || reject`
abbrev guarded : Data
guarded =
    node Op.logical_or
      (node Op.logical_and
        (node Op.logical_not (node Op.eq (Data.field 1) (Data.unum 80)) Data.none)
        (node Op.logical_and (node Op.ne (node Op.and (Data.field 2) (Data.unum 2)) (Data.unum 0))
          (Data.decision DecisionResult.class 7)))
      (Data.decision DecisionResult.class 8)

guarded-condition : condition guarded ≡ true
unfolding condition
guarded-condition = refl

guarded-ne_constant : ne_constant guarded ≡ true
unfolding ne_constant
guarded-ne_constant = refl

guarded-in_range : in_range guarded ≡ true
unfolding in_range
guarded-in_range = refl

guarded-placed : placed plain_doubles guarded false false ≡ true
unfolding placed data_convert is_same u128_is_zero u128_from_32 u128_cmp cmp_word u128_and_32
    u128_shift_right right_loop put right_word word
guarded-placed = refl

run-iflib_not_example :
    (d : Data) × (iflib_not plain_doubles false guarded ≡ ok d)
    × (clean d ≡ true)
    × ((s : ℕ) → run read_number holds count_one d s ≡ run read_number holds count_one guarded s)
run-iflib_not_example =
    run-iflib_not plain_doubles read_number holds count_one guarded guarded-condition
      guarded-ne_constant guarded-in_range guarded-placed
