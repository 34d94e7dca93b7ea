-- ===== src/Iflib/Not/Placed.antt =====
-- Where bubble_not of tcc/iflib_not.c can take a negation away: the negations whose context decides.
use tcng.Common.{Bool, true, false, ◌&&◌, ◌||◌, ok, err, none, some, ltb, ◌^◌}
use tcng.Data.{Data, Op, Doubles}
use tcng.Iflib.Classify.{SelfContained, sc_no, sc_yes, sc_no_true, sc_no_false, self_contained}
use tcng.Iflib.Not.{is_number, single_bit_test}

-- `(b && next) || otherwise` always decides, by the class of `b` and whether `next` and
-- `otherwise` do.
abbrev pub extends : Bool → Bool → SelfContained → Bool
extends n z sc_yes = true
extends n z sc_no_true = n
extends n z sc_no_false = z
extends n z sc_no = n && z

-- Constants are in the range of their words.
unfoldable pub in_range : Data → Bool
in_range (Data.unum n) = ltb n (2 ^ 32)
in_range (Data.ipv4 n) = ltb n (2 ^ 32)
in_range (Data.ipv6 n) =
    ltb n.v0 (2 ^ 32) && (ltb n.v1 (2 ^ 32) && (ltb n.v2 (2 ^ 32) && ltb n.v3 (2 ^ 32)))
in_range (Data.op t o a b c) = in_range a && (in_range b && in_range c)
in_range d = true

-- `!=` is against a constant number, as single_bit_test asserts.
unfoldable pub ne_constant : Data → Bool
ne_constant (Data.op t Op.ne a b c) = is_number b
ne_constant (Data.op t Op.logical_and a b c) = ne_constant a && ne_constant b
ne_constant (Data.op t Op.logical_or a b c) = ne_constant a && ne_constant b
ne_constant (Data.op t Op.logical_not a b c) = ne_constant a
ne_constant d = true

module _ (fp : Doubles) where
  -- single_bit_test inverts the test.
  unfoldable pub one_bit : Data → Data → Bool
  unfolding single_bit_test
  one_bit a b = elim (single_bit_test fp a b) [
    | err e ↦ false
    | ok inverted ↦ elim inverted [ none ↦ false | some d ↦ true ]
  ]

  -- `n` and `z` tell whether the continuation and the alternative always decide. Constants are
  -- no condition: one at the right of `&&` or `||` may make a constant of the alternative, which
  -- bubble_not takes for an operator.
  unfoldable pub placed : Data → Bool → Bool → Bool
  unfolding one_bit self_contained
  placed (Data.op t Op.ne a b c) n z = one_bit a b || (n && z)
  placed (Data.op t Op.logical_not (Data.op t' Op.logical_not x y w) b c) n z = placed x n z
  placed (Data.op t Op.logical_not (Data.op t' Op.ne x y w) b c) n z = true
  placed (Data.op t Op.logical_not a b c) n z = (n && z) && placed a z n
  placed (Data.op t Op.logical_and a b c) n z =
      placed b n z && placed a (extends n z (self_contained b)) z
  placed (Data.op t Op.logical_or a b c) n z =
      placed b n z && placed a n (extends n z (self_contained b))
  placed (Data.unum m) n z = false
  placed d n z = true
