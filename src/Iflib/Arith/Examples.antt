-- ===== src/Iflib/Arith/Examples.antt =====
-- tcc/iflib_arith.c on small comparisons. A packet is a number, and `count` adds one to it.
use tcng.Common.{
  ℕ, suc, ◌+◌, ◌%◌, ◌^◌, ◌<◌, ◌≡◌, refl, arith, true, false, not, ◌==◌, Bool, ok, some, ltb, leb,
}
use tcng.U128.{U128, u128_from_32}
use tcng.U128.Value.{IsU128, value}
use tcng.Data.{Data, DataType, Op, data_convert}
use tcng.Data.Examples.{plain_doubles}
use tcng.Iflib.Meaning.{run, number, truth}
use tcng.Iflib.Not.Placed.{in_range}
use tcng.Iflib.Not.OneBit.{wide}
use tcng.Iflib.Arith.Bits.{mask_of, general_node, build_ne}
use tcng.Iflib.Arith.BitTests.{digit}
use tcng.Iflib.Arith.Masks.{digit-bit_and}
use tcng.Iflib.Arith.Comparisons.{run-general_node, run-build_ne}
use tcng.Iflib.Arith.Powers.{log_2, log_2_any, to_eq_node}
use tcng.Iflib.Arith.Equalities.{run-to_eq_node, run-to_eq_node-ipv6}
use tcng.Iflib.Arith.Constants.{mod_opt}

abbrev read_number : Data → ℕ → ℕ
read_number d s = s

abbrev below_8 : Data → ℕ → Bool
below_8 d s = ltb s 8

abbrev count_one : Data → ℕ → ℕ
count_one d s = suc s

abbrev node : Op → Data → Data → Data
node o a b = Data.op DataType.unum o a b Data.none

-- `field & 12`
abbrev masked : Data
masked = node Op.and (Data.field 1) (Data.unum 12)

masked-in_range : in_range masked ≡ true
unfolding in_range
masked-in_range = refl

eight-in_range : in_range (Data.unum 8) ≡ true
unfolding in_range
eight-in_range = refl

run-general_node_example :
    (d : Data) × (general_node plain_doubles false (node Op.le masked (Data.unum 8)) ≡ ok d)
    × ((s : ℕ)
        → number read_number below_8 count_one masked s < 2 ^ 128
        → run read_number below_8 count_one d s
          ≡ truth
              (leb
                (number read_number below_8 count_one masked s)
                (number read_number below_8 count_one (Data.unum 8) s))
              s)
run-general_node_example =
    run-general_node read_number below_8 count_one plain_doubles DataType.unum Op.le masked
      (Data.unum 8) Data.none refl refl refl masked-in_range eight-in_range

masked-mask_of : mask_of plain_doubles masked ≡ ok (u128_from_32 12)
unfolding mask_of data_convert
masked-mask_of = refl

third_bit : digit (value (u128_from_32 12)) 2 ≡ true
unfolding u128_from_32
third_bit = refl

eight_masked :
    (k : ℕ)
    → digit (value (u128_from_32 12)) k ≡ false
    → digit (value (wide (Data.unum 8))) k ≡ false
unfolding u128_from_32
eight_masked k h = digit-bit_and k 8 12 h

run-build_ne_example :
    (d : Data) × (build_ne plain_doubles false
        (node Op.ne masked (Data.unum 8))
        masked
        (Data.unum 8)
      ≡ ok d)
    × ((s : ℕ)
        → number read_number below_8 count_one masked s < 2 ^ 128
        → run read_number below_8 count_one d s
          ≡ truth
              (not (
                number read_number below_8 count_one masked s
                == number read_number below_8 count_one (Data.unum 8) s))
              s)
run-build_ne_example =
    run-build_ne read_number below_8 count_one plain_doubles (node Op.ne masked (Data.unum 8))
      masked (Data.unum 8) (u128_from_32 12) 2 refl refl masked-in_range eight-in_range
      masked-mask_of (omega arith) third_bit eight_masked

-- A byte of the packet.
abbrev byte : Data
byte = node Op.access (Data.unum 0) (Data.unum 8)

byte-below :
    (s : ℕ)
    → run read_number below_8 count_one (node Op.lt byte (Data.unum 8)) s
      ≡ truth (ltb (number read_number below_8 count_one byte s) 8) s
unfolding run number
byte-below s = refl

run-to_eq_node_example :
    (d : Data) × (to_eq_node plain_doubles DataType.unum Op.lt byte (Data.unum 8) Data.none ≡ ok d)
    × ((s : ℕ)
        → number read_number below_8 count_one byte s < 2 ^ 32
        → run read_number below_8 count_one d s
          ≡ run read_number below_8 count_one (node Op.lt byte (Data.unum 8)) s)
run-to_eq_node_example =
    run-to_eq_node read_number below_8 count_one plain_doubles DataType.unum byte Data.none 8 refl
      (omega arith) Op.lt refl byte-below

-- 2 ^ 32
abbrev high : U128
high = record { v0 = 0; v1 = 1; v2 = 0; v3 = 0 }

high-IsU128 : IsU128 high
high-IsU128 = record { w0 = omega arith; w1 = omega arith; w2 = omega arith; w3 = omega arith }

high-log_2_any : log_2_any (Data.ipv6 high) false ≡ ok (some 32)
unfolding log_2_any
high-log_2_any = refl

run-to_eq_node-ipv6_example :
    (d : Data) × (to_eq_node plain_doubles DataType.unum Op.lt byte (Data.ipv6 high) Data.none
      ≡ ok d)
    × ((s : ℕ)
        → number read_number below_8 count_one byte s ≡ 1
        → run read_number below_8 count_one d s ≡ truth false s)
run-to_eq_node-ipv6_example =
    run-to_eq_node-ipv6 read_number below_8 count_one plain_doubles DataType.unum byte Data.none
      high 32 refl high-IsU128 refl (λ e. omega (arith, e)) high-log_2_any

sixteenth :
    mod_opt DataType.unum (Data.field 1) 16 Data.none
    ≡ some (node Op.and (Data.field 1) (Data.unum 15))
unfolding mod_opt log_2
sixteenth = refl

abbrev read_sum : Data → ℕ → ℕ
read_sum (Data.op t o a b c) s = (s + 5) % 2 ^ 32
read_sum d s = s

read_sum-plus :
    (s : ℕ)
    → number read_sum below_8 count_one (node Op.plus (Data.field 1) (Data.unum 5)) s
      ≡ (number read_sum below_8 count_one (Data.field 1) s
          + number read_sum below_8 count_one (Data.unum 5) s)
        % 2 ^ 32
unfolding number
read_sum-plus s = refl
