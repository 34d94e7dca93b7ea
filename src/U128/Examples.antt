-- ===== src/U128/Examples.antt =====
-- 128 bit numbers with carries and borrows across the words.
use tcng.Common.{◌*◌, ◌/◌, ◌%◌, ◌^◌, ◌≡◌, refl, arith}
use tcng.U128.{U128, add_step, u128_add}
use tcng.U128.{u128_shift_left, u128_shift_right}
use tcng.U128.Value.{IsU128, value}
use tcng.U128.Left.{value-u128_shift_left}
use tcng.U128.Right.{value-u128_shift_right}

abbrev full : U128
full = record { v0 = 0xffffffff; v1 = 0xffffffff; v2 = 7; v3 = 0x20010db8 }

abbrev one : U128
one = record { v0 = 1; v1 = 0; v2 = 0; v3 = 0 }

abbrev high : U128
high = record { v0 = 0; v1 = 1; v2 = 0; v3 = 0 }

full-IsU128 : IsU128 full
full-IsU128 = record { w0 = omega arith; w1 = omega arith; w2 = omega arith; w3 = omega arith }

one-IsU128 : IsU128 one
one-IsU128 = record { w0 = omega arith; w1 = omega arith; w2 = omega arith; w3 = omega arith }

value-u128_shift_left_example : value (u128_shift_left full 37) ≡ value full * 2 ^ 37 % 2 ^ 128
value-u128_shift_left_example = value-u128_shift_left full 37 full-IsU128

value-u128_shift_right_example : value (u128_shift_right full 70) ≡ value full / 2 ^ 70
value-u128_shift_right_example = value-u128_shift_right full 70 full-IsU128

u128_add_carries : u128_add full one ≡ record { v0 = 0; v1 = 0; v2 = 8; v3 = 0x20010db8 }
unfolding u128_add add_step
u128_add_carries = refl
