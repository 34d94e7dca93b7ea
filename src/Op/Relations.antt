-- ===== src/Op/Relations.antt =====
-- The comparisons of tcc/op.c on constants.
use tcng.Common.{ℕ, ◌<◌, ◌≡◌, ◌↔◌, arith, ok}
use tcng.Common.{if◌then◌else◌, ◌==◌, ltb}
use tcng.U128.{U128, u128_cmp, cmp_word}
use tcng.U128.Value.{value}
use tcng.U128.Compare.{u128_cmp-same_iff}
use tcng.Data.{Data, Op, Doubles, data_convert}
use tcng.Op.Logic.{rel_eval}
use tcng.Op.Eval.{eval, op_binary}

module _ (fp : Doubles) where
  -- The six comparisons of integer constants yield 1 where they hold, and 0 where they do not.
  pub op_binary-compare :
      (m n : ℕ)
      → (op_binary fp Op.eq (Data.unum m) (Data.unum n) ≡ ok (Data.unum (if m == n then 1 else 0)))
        × (op_binary fp Op.ne (Data.unum m) (Data.unum n)
            ≡ ok (Data.unum (if m == n then 0 else 1)))
        × (op_binary fp Op.lt (Data.unum m) (Data.unum n)
            ≡ ok (Data.unum (if ltb m n then 1 else 0)))
        × (op_binary fp Op.ge (Data.unum m) (Data.unum n)
            ≡ ok (Data.unum (if ltb m n then 0 else 1)))
        × (op_binary fp Op.gt (Data.unum m) (Data.unum n)
            ≡ ok (Data.unum (if ltb n m then 1 else 0)))
        × (op_binary fp Op.le (Data.unum m) (Data.unum n)
            ≡ ok (Data.unum (if ltb n m then 0 else 1)))
  unfolding op_binary eval rel_eval
  op_binary-compare m n =
      (ground arith, ground arith, ground arith, ground arith, ground arith, ground arith)

  -- `==` of two constant IPv6 addresses yields 1 exactly when they are the same.
  pub op_binary-eq_ipv6 :
      (a b : U128) → (op_binary fp Op.eq (Data.ipv6 a) (Data.ipv6 b) ≡ ok (Data.unum 1)) ↔ (a ≡ b)
  unfolding op_binary eval rel_eval data_convert
  op_binary-eq_ipv6 a b = ground (arith, u128_cmp-same_iff a b)

  -- For two constant IPv6 addresses whose least significant words are ordered against the
  -- addresses, `<` yields 1 for the greater address on the left.
  pub op_binary-lt_ipv6 :
      (a b : U128)
      → a.v0 < b.v0
      → value b < value a
      → op_binary fp Op.lt (Data.ipv6 a) (Data.ipv6 b) ≡ ok (Data.unum 1)
  unfolding op_binary eval rel_eval data_convert u128_cmp cmp_word
  op_binary-lt_ipv6 a b h v = ground arith
