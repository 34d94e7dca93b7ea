-- ===== src/Op/Base.antt =====
-- Helpers of tcc/op.c: types of operands, and ANYNUM_OP.
use tcng.Common.{ℕ, ◌*◌, ◌/◌, Bool, ◌&&◌, ◌||◌}
use tcng.Common.{Result, ok, err, Error, ◌>>=◌, ◌==◌, if◌then◌else◌}
use tcng.U128.{U128, u32, add32, sub32}
use tcng.Data.{Data, DataType, Op, Double, Doubles, type_of, same_type}
use tcng.Data.{data_convert}

-- `make_op`
abbrev pub make_op : Op → Data → Data → Data → DataType → Data
make_op o a b c t = Data.op t o a b c

-- `u.unum` of a constant that holds one.
abbrev pub unum_of : Data → ℕ
unum_of (Data.unum n) = n
unum_of (Data.ipv4 n) = n
unum_of _ = 0

-- `u.u128` of a constant that holds one.
abbrev pub u128_of : Data → U128
u128_of (Data.ipv6 n) = n
u128_of _ = record { v0 = 0; v1 = 0; v2 = 0; v3 = 0 }

-- `u.fnum` of a constant that holds one.
abbrev pub fnum_of : Data → Double
fnum_of (Data.fnum x) = x
fnum_of (Data.rate x) = x
fnum_of (Data.size x) = x
fnum_of (Data.prate x) = x
fnum_of (Data.psize x) = x
fnum_of (Data.time x) = x
fnum_of _ = 0

abbrev pub is_type : Data → DataType → Bool
is_type d t = same_type (type_of d) t

unfoldable pub all_u32 : Data → Data → Bool
unfolding same_type type_of
all_u32 a b =
    (is_type a DataType.unum || is_type a DataType.ipv4)
    && (is_type b DataType.unum || is_type b DataType.ipv4)

unfoldable pub mix_types : DataType → DataType → Result DataType
unfolding same_type
mix_types a b =
    if same_type a b
    then ok a
    else if same_type a DataType.unum
    then ok b
    else if same_type b DataType.unum
    then ok a
    else err Error.bad_type

-- TYPES2
abbrev pub types2 : Data → Data → DataType → DataType → Bool
types2 a b s t = is_type a s && is_type b t || (is_type a t && is_type b s)

module _ (fp : Doubles) where
  -- ANYNUM_OP, by the operation on `uint32_t` and that on `double`.
  unfoldable pub anynum_op :
      (ℕ → ℕ → Result ℕ) → (Double → Double → Double) → Data → Data → Result Data
  unfolding all_u32 mix_types data_convert
  anynum_op on_u32 on_double a b =
      let by_u32 = (do
        x ← data_convert fp a DataType.unum
        y ← data_convert fp b DataType.unum
        n ← on_u32 (unum_of x) (unum_of y)
        t ← mix_types (type_of a) (type_of b)
        data_convert fp (Data.unum n) t) in
      let by_double = (do
        x ← data_convert fp a DataType.fnum
        y ← data_convert fp b DataType.fnum
        t ← mix_types (type_of a) (type_of b)
        data_convert fp (Data.fnum (on_double (fnum_of x) (fnum_of y))) t) in
      if all_u32 a b then by_u32 else by_double

abbrev pub u32_add : ℕ → ℕ → Result ℕ
u32_add x y = ok (add32 x y)

abbrev pub u32_sub : ℕ → ℕ → Result ℕ
u32_sub x y = ok (sub32 x y)

abbrev pub u32_mul : ℕ → ℕ → Result ℕ
u32_mul x y = ok (u32 (x * y))

abbrev pub u32_div : ℕ → ℕ → Result ℕ
u32_div x y = if y == 0 then err Error.fault else ok (x / y)
