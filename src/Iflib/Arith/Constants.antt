-- ===== src/Iflib/Arith/Constants.antt =====
-- tcc/iflib_arith.c: *, / and % by constants, and the constants of comparisons.
use tcng.Common.{ℕ, ◌%◌, Bool, true, false, not, ◌&&◌, ◌==◌, Option, none, some}
use tcng.Common.{Result, ok, ◌>>=◌, if◌then◌else◌}
use tcng.U128.{U128, add32, sub32, u128_add, u128_sub}
use tcng.Data.{Data, DataType, Op, Doubles, data_convert, has_op}
use tcng.Op.Base.{u128_of}
use tcng.Op.Eval.{op_binary}
use tcng.Iflib.Not.{is_number}
use tcng.Iflib.Arith.Powers.{log_2}

-- The parameter `uint8_t value`.
abbrev pub u8 : ℕ → ℕ
u8 n = n % 256

module _ (fp : Doubles) where
  -- The shift that a power of two stands for, or the operand itself for 1; `none` is the result 0
  -- of the C function.
  unfoldable pub shifted : Op → Data → ℕ → Result (Option Data)
  shifted o x val = elim (log_2 val) [
    | none ↦ ok none
    | some ld ↦
        if ld == 0 then ok (some x) else op_binary fp o x (Data.unum ld) >>= λ d. ok (some d)
  ]

  unfoldable pub mul_opt : Data → ℕ → Result (Option Data)
  unfolding shifted
  mul_opt x val = if u8 val == 0 then ok (some (Data.unum 0)) else shifted Op.shift_left x (u8 val)

  unfoldable pub div_r_opt : Data → ℕ → Result (Option Data)
  unfolding shifted
  div_r_opt x val = shifted Op.shift_right x (u8 val)

unfoldable pub div_l_opt : ℕ → Option Data
div_l_opt val = if not (u8 val == 0) then none else some (Data.unum 0)

-- `x % n` with type and third operand `t` and `c`, by the logarithm of the divisor.
abbrev pub mod_mask : DataType → Data → ℕ → Data → Option ℕ → Option Data
mod_mask t x n c none = none
mod_mask t x n c (some ld) = some (Data.op t Op.and x (Data.unum (sub32 n 1)) c)

unfoldable pub mod_opt : DataType → Data → ℕ → Data → Option Data
mod_opt t x n c = if u8 n == 1 then some (Data.unum 0) else mod_mask t x n c (log_2 (u8 n))

unfoldable pub is_relop : Op → Bool
is_relop Op.eq = true
is_relop Op.ne = true
is_relop Op.gt = true
is_relop Op.ge = true
is_relop Op.lt = true
is_relop Op.le = true
is_relop _ = false

-- < and >, and <= and >= exchanged.
unfoldable pub exchanged : Op → Op
exchanged Op.gt = Op.lt
exchanged Op.lt = Op.gt
exchanged Op.ge = Op.le
exchanged Op.le = Op.ge
exchanged o = o

abbrev pub both_words : Data → Data → Bool
both_words (Data.unum m) (Data.unum n) = true
both_words _ _ = false

abbrev word_of : Data → ℕ
word_of (Data.unum n) = n
word_of _ = 0

module _ (fp : Doubles) where
  -- The operation on two constants, as words where both are.
  unfoldable pub on_constants : (ℕ → ℕ → ℕ) → (U128 → U128 → U128) → Data → Data → Result Data
  unfolding data_convert
  on_constants words wide m n =
      if both_words m n then ok (Data.unum (words (word_of m) (word_of n))) else do
        x ← data_convert fp m DataType.ipv6
        y ← data_convert fp n DataType.ipv6
        ok (Data.ipv6 (wide (u128_of x) (u128_of y)))

  -- `p + q` compared with `b`, in a node with `t`, `o` and `c`.
  unfoldable pub rel_plus : DataType → Op → Data → Data → Data → Data → Data → Result Data
  unfolding on_constants
  rel_plus t o whole p q b c =
      if is_number p
      then (on_constants sub32 u128_sub b p >>= λ b'. ok (Data.op t o q b' c))
      else if is_number q
      then (on_constants sub32 u128_sub b q >>= λ b'. ok (Data.op t o p b' c))
      else ok (Data.op t o whole b c)

  -- `p - q` compared with `b`.
  unfoldable pub rel_minus : DataType → Op → Data → Data → Data → Data → Data → Result Data
  unfolding on_constants
  rel_minus t o whole p q b c =
      if is_number p
      then (on_constants sub32 u128_sub p b >>= λ b'. ok (Data.op t o q b' c))
      else if is_number q
      then (on_constants add32 u128_add b q >>= λ b'. ok (Data.op t o p b' c))
      else ok (Data.op t o whole b c)

  -- A comparison without two constants, after the exchange of its operands.
  unfoldable pub math_sides :
      DataType → Op → Data → Data → Data → Result Data → Result Data → Result Data → Result Data
  unfolding is_relop rel_plus rel_minus
  math_sides t o (Data.op t' Op.plus p q r) b c ra rb rc =
      if is_relop o && is_number b
      then rel_plus t o (Data.op t' Op.plus p q r) p q b c
      else ra >>= λ x. rb >>= λ y. rc >>= λ z. ok (Data.op t o x y z)
  math_sides t o (Data.op t' Op.minus p q r) b c ra rb rc =
      if is_relop o && is_number b
      then rel_minus t o (Data.op t' Op.minus p q r) p q b c
      else ra >>= λ x. rb >>= λ y. rc >>= λ z. ok (Data.op t o x y z)
  math_sides t o a b c ra rb rc = ra >>= λ x. rb >>= λ y. rc >>= λ z. ok (Data.op t o x y z)

  unfoldable pub rel_math : Data → Result Data
  unfolding math_sides is_relop exchanged
  rel_math (Data.op t o a b c) =
      let ra = rel_math a in
      let rb = rel_math b in
      let rc = rel_math c in
      if is_relop o && (is_number a && is_number b)
      then op_binary fp o a b
      else if is_relop o && (is_number a && has_op b)
      then math_sides t (exchanged o) b a c rb ra rc
      else math_sides t o a b c ra rb rc
  rel_math d = ok d
