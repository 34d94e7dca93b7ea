-- ===== src/Op/Examples.antt =====
-- Operators on constants, with and without an overflow.
use tcng.Common.{◌*◌, ◌^◌, ◌≡◌, arith, ok, err, Error}
use tcng.Common.{if◌then◌else◌, ◌==◌, ltb}
use tcng.U128.{U128}
use tcng.U128.Value.{IsU128}
use tcng.Data.{Data, Op}
use tcng.Data.Examples.{plain_doubles}
use tcng.Op.Eval.{op_binary}
use tcng.Op.Numbers.{op_binary-mult}
use tcng.Op.Relations.{op_binary-lt_ipv6}

abbrev big : U128
big = record { v0 = 1; v1 = 5; v2 = 0; v3 = 0x20010db8 }

abbrev small : U128
small = record { v0 = 2; v1 = 5; v2 = 0; v3 = 0 }

big-IsU128 : IsU128 big
big-IsU128 = record { w0 = omega arith; w1 = omega arith; w2 = omega arith; w3 = omega arith }

op_binary-mult_example : op_binary plain_doubles Op.mult (Data.unum 0x10000) (Data.unum 0x10001) ≡ (
    if 0x10000 == 0
    then err Error.fault
    else if ltb (0x10000 * 0x10001) (2 ^ 32)
    then ok (Data.unum (0x10000 * 0x10001))
    else err Error.out_of_range)
op_binary-mult_example = op_binary-mult plain_doubles 0x10000 0x10001 (omega arith) (omega arith)

op_binary-lt_ipv6_example :
    op_binary plain_doubles Op.lt (Data.ipv6 big) (Data.ipv6 small) ≡ ok (Data.unum 1)
op_binary-lt_ipv6_example = op_binary-lt_ipv6 plain_doubles big small (omega arith) (omega arith)
