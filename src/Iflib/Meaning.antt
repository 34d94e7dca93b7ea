-- ===== src/Iflib/Meaning.antt =====
-- What a classifier expression decides for a packet: the independent description against which
-- the transformations of tcc/iflib_*.c are held.
use tcng.Common.{ℕ, Bool, true, false, not, ◌&&◌, ◌==◌, bit_and}
use tcng.U128.Value.{value}
use tcng.Data.{Data, DataType, Op, DecisionResult, same_type}
use tcng.Op.Logic.{truth_of}

-- The end of an evaluation in a state: a decision, which ends the whole expression, or a truth
-- value.
pub data Verdict (S : Type 0) : Type 0 where
  stop : DecisionResult → ℕ → S → Verdict S
  truth : Bool → S → Verdict S

abbrev pub Run : Type 0 → Type 0
Run S = S → Verdict S

-- Short-cut evaluation.
abbrev pub seq_and : {S : Type 0} → Run S → Run S → Run S
seq_and x y s = elim (x s) [
  | stop r c s' ↦ stop r c s'
  | truth v s' ↦ elim v [ true ↦ y s' | false ↦ truth false s' ]
]

abbrev pub seq_or : {S : Type 0} → Run S → Run S → Run S
seq_or x y s = elim (x s) [
  | stop r c s' ↦ stop r c s'
  | truth v s' ↦ elim v [ true ↦ truth true s' | false ↦ y s' ]
]

abbrev pub seq_not : {S : Type 0} → Run S → Run S
seq_not x s = elim (x s) [ stop r c s' ↦ stop r c s' | truth v s' ↦ truth (not v) s' ]

-- `S` is a packet with the state of the policers: `field` reads a number, `test` is the outcome of
-- any test but `==` and `!=`, and `charge` is what `count` does to a bucket.
module _ {S : Type 0} (field : Data → S → ℕ) (test : Data → S → Bool) (charge : Data → S → S) where
  -- The number that an operand of a comparison stands for.
  unfoldable pub number : Data → S → ℕ
  number (Data.unum n) s = n
  number (Data.ipv4 n) s = n
  number (Data.ipv6 n) s = value n
  number (Data.op t Op.and a b c) s = bit_and (number a s) (number b s)
  number d s = field d s

  unfoldable pub run : Data → Run S
  unfolding truth_of
  run (Data.decision r k) s = stop r k s
  run (Data.op t Op.logical_and a b c) s = seq_and (run a) (run b) s
  run (Data.op t Op.logical_or a b c) s = seq_or (run a) (run b) s
  run (Data.op t Op.logical_not a b c) s = seq_not (run a) s
  run (Data.op t Op.count a b c) s = truth true (charge a s)
  run (Data.op t Op.eq a b c) s = truth (number a s == number b s) s
  run (Data.op t Op.ne a b c) s = truth (not (number a s == number b s)) s
  run (Data.op t o a b c) s = truth (test (Data.op t o a b c) s) s
  run d s = truth (truth_of d) s

-- An operand with nothing in it that decides, counts, negates or branches.
unfoldable pub plain : Data → Bool
plain (Data.decision r k) = false
plain (Data.op t Op.logical_and a b c) = false
plain (Data.op t Op.logical_or a b c) = false
plain (Data.op t Op.logical_not a b c) = false
plain (Data.op t Op.count a b c) = false
plain (Data.op t Op.ne a b c) = false
plain (Data.op t o a b c) = plain a && (plain b && plain c)
plain d = true

-- The expressions that `if` takes: tests over plain operands, decisions and `count`, under `&&`,
-- `||` and `!`. Operators have the type of integers, as `and_or_eval` and `rel_eval` give them.
unfoldable pub condition : Data → Bool
unfolding plain same_type
condition (Data.decision r k) = true
condition (Data.unum n) = true
condition (Data.op t Op.logical_and a b c) =
    same_type t DataType.unum && (condition a && (condition b && plain c))
condition (Data.op t Op.logical_or a b c) =
    same_type t DataType.unum && (condition a && (condition b && plain c))
condition (Data.op t Op.logical_not a b c) =
    same_type t DataType.unum && (condition a && (plain b && plain c))
condition (Data.op t o a b c) = same_type t DataType.unum && (plain a && (plain b && plain c))
condition d = false
