-- ===== src/Op/Numbers.antt =====
-- `+` and `*` of tcc/op.c on constants.
use tcng.Common.{ℕ, zero, suc, ◌+◌, ◌*◌, ◌%◌, ◌^◌, ◌<◌, ◌≡◌, ◌≢◌, arith, ok, err, Error}
use tcng.Common.{if◌then◌else◌, ◌==◌, ltb}
use tcng.Data.{Data, Op, Doubles}
use tcng.Op.Base.{anynum_op}
use tcng.Op.Arith.{plus_eval, mult_eval}
use tcng.Op.Eval.{eval, op_binary}
use native.Mathlib.Nat.{div-lt_iff_lt-mul}

module _ (fp : Doubles) where
  mult_nonzero :
      (m n : ℕ)
      → m < 2 ^ 32
      → n < 2 ^ 32
      → m ≢ 0
      → op_binary fp Op.mult (Data.unum m) (Data.unum n)
        ≡ (if ltb (m * n) (2 ^ 32) then ok (Data.unum (m * n)) else err Error.out_of_range)
  unfolding op_binary eval mult_eval anynum_op
  mult_nonzero m n hm hn pos =
      ground (arith, div-lt_iff_lt-mul {k = m} {x = 0xffffffff} {y = n} (omega arith))

  mult_zero : (n : ℕ) → op_binary fp Op.mult (Data.unum 0) (Data.unum n) ≡ err Error.fault
  unfolding op_binary eval mult_eval
  mult_zero n = ground arith

  -- For 32 bit integers m and n, `m*n` is a fault where m is 0 (the overflow test divides by
  -- it), and else the exact product where it fits 32 bits, and the range error where it does
  -- not.
  pub op_binary-mult :
      (m n : ℕ)
      → m < 2 ^ 32
      → n < 2 ^ 32
      → op_binary fp Op.mult (Data.unum m) (Data.unum n) ≡ (
          if m == 0
          then err Error.fault
          else if ltb (m * n) (2 ^ 32)
          then ok (Data.unum (m * n))
          else err Error.out_of_range)
  op_binary-mult zero n hm hn = mult_zero n
  op_binary-mult (suc m) n hm hn = ground (arith, mult_nonzero (suc m) n hm hn (omega arith))

  -- For 32 bit integers, `+` is the sum modulo 2 ^ 32.
  pub op_binary-plus :
      (m n : ℕ)
      → m < 2 ^ 32
      → n < 2 ^ 32
      → op_binary fp Op.plus (Data.unum m) (Data.unum n) ≡ ok (Data.unum ((m + n) % 2 ^ 32))
  unfolding op_binary eval plus_eval anynum_op
  op_binary-plus m n hm hn = ground arith
