-- ===== src/Iflib/Chains.antt =====
-- linearize of tcc/iflib_red.c: the shape of its result.
use tcng.Common.{ℕ, zero, suc, ◌+◌, ◌≤◌, Bool, true, false, not, ◌&&◌, ◌≡◌, refl}
use tcng.Common.{arith}
use tcng.Data.{Data, DataType, Op, same_op, same_type, type_of}
use tcng.Iflib.Meaning.{plain, condition}
use tcng.Iflib.Reduce.{is_and_or, rotate, turn, over_operands, linearize}
use tcng.Iflib.Linearize.{condition-turn, plain-linearize, plain-operands, plain-operator}

unfoldable pub size : Data → ℕ
size (Data.op t o a b c) = suc (size a + (size b + size c))
size d = 0

-- The operator at the root of `d` is `o`.
unfoldable pub heads : Op → Data → Bool
unfolding same_op
heads o (Data.op t o' a b c) = same_op o' o
heads o d = false

unfoldable pub chained : Data → Bool
unfolding heads
chained (Data.op t o a b c) = not (is_and_or o && heads o a)
chained d = true

-- No `&&` has a `&&` for its left operand, and no `||` a `||`.
unfoldable pub linear : Data → Bool
unfolding chained
linear (Data.op t o a b c) = chained (Data.op t o a b c) && (linear a && (linear b && linear c))
linear d = true

chained-rotate : (t : DataType) (o : Op) (l r third : Data) → chained (rotate t o l r third) ≡ true
unfolding rotate chained heads
chained-rotate t o (Data.op t' o' a b c) r third =
    ground (arith, chained-rotate t' o' a (Data.op t o b r third) c)
chained-rotate t o d r third = ground arith

size-rotate :
    (t : DataType) (o : Op) (l r third : Data)
    → size (rotate t o l r third) ≡ size (Data.op t o l r third)
unfolding rotate size
size-rotate t o (Data.op t' o' a b c) r third =
    ground (arith, size-rotate t' o' a (Data.op t o b r third) c)
size-rotate t o d r third = refl

heads-rotate :
    (p : Op) (t : DataType) (o : Op) (l r third : Data)
    → heads p (rotate t o l r third) ≡ same_op o p
unfolding rotate heads same_op
heads-rotate p t o (Data.op t' o' a b c) r third =
    ground (arith, heads-rotate p t' o' a (Data.op t o b r third) c)
heads-rotate p t o d r third = refl

size-turn : (d : Data) → size (turn d) ≡ size d
unfolding turn
size-turn (Data.op t o a b c) = size-rotate t o a b c
size-turn d = refl

heads-turn : (p : Op) (d : Data) → heads p (turn d) ≡ heads p d
unfolding turn heads
heads-turn p (Data.op t o a b c) = heads-rotate p t o a b c
heads-turn p d = refl

chained-turn : (d : Data) → chained (turn d) ≡ true
unfolding turn
chained-turn (Data.op t o a b c) = chained-rotate t o a b c
chained-turn d = unfold chained in refl

heads-over_operands :
    (p : Op) (f : Data → Data) (d : Data) → heads p (over_operands f d) ≡ heads p d
unfolding heads
heads-over_operands p f (Data.op t o a b c) = refl
heads-over_operands p f d = refl

heads-linearize : (p : Op) (fuel : ℕ) (d : Data) → heads p (linearize fuel d) ≡ heads p d
unfolding linearize
heads-linearize p zero d = refl
heads-linearize p (suc fuel) d =
    ground (arith, heads-turn p d, heads-over_operands p (linearize fuel) (turn d))

plain-linear : (d : Data) → plain d ≡ true → linear d ≡ true
unfolding linear chained
plain-linear (Data.op t o a b c) h =
    let (ha, hb, hc) = plain-operands t o a b c h in
    ground
      (arith, plain-operator t o a b c h, plain-linear a ha, plain-linear b hb, plain-linear c hc)
plain-linear d h = refl

-- One step down, when `linearize` with less fuel does what it should on smaller conditions.
linear-over_operands :
    (fuel : ℕ)
    → ((e : Data) → condition e ≡ true → size e ≤ fuel → linear (linearize fuel e) ≡ true)
    → (d : Data) → condition d ≡ true
    → chained d ≡ true
    → size d ≤ suc fuel
    → linear (over_operands (linearize fuel) d) ≡ true
unfolding condition chained size linear
linear-over_operands fuel smaller (Data.op t Op.logical_and a b c) h top bound = ground (
  arith,
  heads-linearize Op.logical_and fuel a,
  smaller a,
  smaller b,
  plain-linear c,
  plain-linearize fuel c,
)
linear-over_operands fuel smaller (Data.op t Op.logical_or a b c) h top bound = ground (
  arith,
  heads-linearize Op.logical_or fuel a,
  smaller a,
  smaller b,
  plain-linear c,
  plain-linearize fuel c,
)
linear-over_operands fuel smaller (Data.op t Op.logical_not a b c) h top bound = ground (
  arith,
  smaller a,
  plain-linear b,
  plain-linearize fuel b,
  plain-linear c,
  plain-linearize fuel c,
)
linear-over_operands fuel smaller (Data.op t o a b c) h top bound = ground (
  arith,
  plain-linear a,
  plain-linearize fuel a,
  plain-linear b,
  plain-linearize fuel b,
  plain-linear c,
  plain-linearize fuel c,
)
linear-over_operands fuel smaller d h top bound = refl

size_zero : (d : Data) → size d ≤ 0 → linear d ≡ true
unfolding size linear
size_zero (Data.op t o a b c) h = ground arith
size_zero d h = refl

condition-type : (e : Data) → condition e ≡ true → same_type (type_of e) DataType.none ≡ false
unfolding condition type_of same_type
condition-type (Data.op t Op.plus a b c) g = ground arith
condition-type (Data.op t o a b c) g = ground arith
condition-type (Data.decision r k) g = refl
condition-type (Data.unum n) g = refl
condition-type d g = cc

-- A condition given fuel for the number of its operators comes out of linearize with no `&&`
-- whose left operand is a `&&` and no `||` whose left operand is a `||`, at any depth.
pub linearize-linear :
    (fuel : ℕ) (d : Data) → condition d ≡ true → size d ≤ fuel → linear (linearize fuel d) ≡ true
unfolding linearize
linearize-linear zero d h bound = size_zero d bound
linearize-linear (suc fuel) d h bound =
    let rest =
      linear-over_operands fuel (linearize-linear fuel) (turn d) (condition-turn d h)
        (chained-turn d) (ground (arith, size-turn d)) in
    ground (arith, rest, condition-type d h)
