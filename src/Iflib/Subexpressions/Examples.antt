-- ===== src/Iflib/Subexpressions/Examples.antt =====
-- A chain of tests with a repeated one, with a repeated mask, and a policer that is charged between them.
use tcng.Common.{ℕ, ◌-◌, ltb, Bool, true, ◌&&◌, ◌≡◌, refl, ap, arith}
use tcng.Common.{ok, inl, inr}
use tcng.Data.{
  Data, DataType, Op, DecisionResult, expr_equal, data_equal, same_op, op_code, same_decision,
  result_code,
}
use tcng.Data.Examples.{plain_doubles}
use tcng.Iflib.Meaning.{run}
use tcng.Iflib.Subexpressions.{
  repeats, scan, rescan, rescan_node, on_operands, common_subexpressions,
}
use tcng.Iflib.Subexpressions.Equal.{steady, expr_equal-operands, ok-false≢true}
use tcng.Iflib.Subexpressions.Suits.{headed, Unlike, Suits, flat, masks}
use tcng.Iflib.Subexpressions.Returns.{comparable, size, common_subexpressions-run}

abbrev byte : Data
byte = Data.op DataType.unum Op.access (Data.field_root 0) (Data.unum 8) Data.none

abbrev above : Data
above = Data.op DataType.unum Op.gt byte (Data.unum 3) Data.none

abbrev mask : Data → Data → Data
mask a b = Data.op DataType.unum Op.and a b Data.none

abbrev is_one : Data → Data
is_one a = Data.op DataType.unum Op.eq a (Data.unum 1) Data.none

abbrev counts_five : Data
counts_five = Data.op DataType.unum Op.count (Data.police 5) Data.none Data.none

abbrev both : Data → Data → Data
both a b = Data.op DataType.unum Op.logical_and a b Data.none

-- above && (count 5 && (above && (byte & (15 & byte) == 1 && class 1)))
abbrev repeated : Data
repeated = both above (
    both counts_five (
      both above (
        both (is_one (mask byte (mask (Data.unum 15) byte)))
          (Data.decision DecisionResult.class 1))))

shorter :
    common_subexpressions plain_doubles 60 repeated
    ≡ ok (
        both above (
          both counts_five
            (both (is_one (mask byte (Data.unum 15))) (Data.decision DecisionResult.class 1))))
unfolding common_subexpressions rescan_node rescan scan on_operands repeats expr_equal data_equal
    same_op op_code same_decision result_code
shorter = refl

-- A state is a field of the packet and what the bucket holds.
abbrev Traffic : Type 0
Traffic = ℕ × ℕ

abbrev port : Data → Traffic → ℕ
port d (p, held) = p

abbrev port_test : Data → Traffic → Bool
port_test d (p, held) = headed Op.gt d && ltb 3 p

abbrev spend : Data → Traffic → Traffic
spend q (p, held) = (p, held - 1)

headed-expr_equal :
    (x y : Data) → expr_equal plain_doubles x y ≡ ok true → headed Op.gt x ≡ headed Op.gt y
unfolding expr_equal
headed-expr_equal (Data.op t o a b c) (Data.op t' o' a' b' c') h =
    ap (λ p. same_op p Op.gt) ((expr_equal-operands plain_doubles t t' o o' a b c a' b' c' h).0)
headed-expr_equal (Data.op t o a b c) y h = absurd (ok-false≢true h)
headed-expr_equal x (Data.op t o a b c) h = absurd (ok-false≢true h)
headed-expr_equal x y h = refl

repeated-Suits : Suits plain_doubles repeated
unfolding Suits steady Unlike flat masks expr_equal data_equal same_op op_code
repeated-Suits = (
  inl refl,
  refl,
  refl,
  (
    inr (refl, (refl, refl)),
    refl,
    refl,
    (inl refl, refl, refl, (inl refl, refl, (refl, refl), tt)),
  ),
)

common_subexpressions-run_example :
    (d' : Data) × (common_subexpressions plain_doubles 60 repeated ≡ ok d')
    × ((s : Traffic) → run port port_test spend d' s ≡ run port port_test spend repeated s)
unfolding size comparable
common_subexpressions-run_example =
    common_subexpressions-run plain_doubles port port_test spend (λ x y h s. refl)
      (λ x y h s. ap (λ v. v && ltb 3 s.0) (headed-expr_equal x y h)) (λ d q s. refl)
      (λ d q s h. refl) 60 repeated refl (omega arith) repeated-Suits

-- count 5 && (count 5 && class 1) charges the bucket once afterwards.
charged_once :
    common_subexpressions plain_doubles 40
      (both counts_five (both counts_five (Data.decision DecisionResult.class 1)))
    ≡ ok (both counts_five (Data.decision DecisionResult.class 1))
unfolding common_subexpressions rescan_node rescan scan on_operands repeats expr_equal data_equal
    same_op op_code same_decision result_code
charged_once = refl
