-- ===== src/Data/Convert.antt =====
-- data_convert of tcc/data.c.
use tcng.Common.{ℕ, ◌≡◌, ◌↔◌, arith, refl, true, false, ok}
use tcng.Common.{sym, ap, ◌∙◌, ==_iff, if◌then◌else◌, ◌==◌}
use tcng.U128.{U128, u128_from_32, u128_to_32}
use tcng.Data.{
  Data, DataType, Doubles, type_of, has_op, type_code, same_type, convert, data_convert,
}

type_of_code : ℕ → DataType
type_of_code n =
    if n == 0
    then DataType.none
    else if n == 1
    then DataType.unum
    else if n == 2
    then DataType.ipv4
    else if n == 3
    then DataType.ipv6
    else if n == 4
    then DataType.fnum
    else if n == 5
    then DataType.string
    else if n == 6
    then DataType.rate
    else if n == 7
    then DataType.size
    else if n == 8
    then DataType.prate
    else if n == 9
    then DataType.psize
    else if n == 10
    then DataType.time
    else if n == 11
    then DataType.device
    else if n == 12
    then DataType.qdisc
    else if n == 13
    then DataType.class
    else if n == 14
    then DataType.filter
    else if n == 15
    then DataType.tunnel
    else if n == 16
    then DataType.police
    else if n == 17
    then DataType.bucket
    else if n == 18
    then DataType.list
    else if n == 19
    then DataType.field
    else if n == 20
    then DataType.field_root
    else if n == 21
    then DataType.decision
    else DataType.assoc

type_of_code-type_code : (t : DataType) → type_of_code (type_code t) ≡ t
unfolding type_of_code type_code
type_of_code-type_code DataType.none = refl
type_of_code-type_code _ = refl

pub same_type-eq : (s t : DataType) → same_type s t ≡ true → s ≡ t
unfolding same_type
same_type-eq s t h =
    sym (type_of_code-type_code s)
    ∙ ap type_of_code ((==_iff (type_code s) (type_code t)).0 h)
    ∙ type_of_code-type_code t

module _ (fp : Doubles) where
  convert-type_of :
      (d : Data) (t : DataType) {e : Data}
      → convert fp d t ≡ ok e
      → (type_of e ≡ t) × (has_op e ≡ false)
  unfolding convert type_of has_op
  convert-type_of (Data.ipv4 n) DataType.unum h = ground arith
  convert-type_of (Data.unum n) DataType.ipv4 h = ground arith
  convert-type_of (Data.ipv6 n) DataType.unum h = ground arith
  convert-type_of (Data.unum n) DataType.ipv6 h = ground arith
  convert-type_of (Data.ipv4 n) DataType.ipv6 h = ground arith
  convert-type_of (Data.fnum x) DataType.unum h = ground arith
  convert-type_of (Data.unum n) DataType.fnum h = ground arith
  convert-type_of _ _ h = cc

  -- A conversion that returns gives a constant of the type that was asked for.
  pub data_convert-type_of :
      (d : Data) (t : DataType) {e : Data}
      → data_convert fp d t ≡ ok e
      → (type_of e ≡ t) × (has_op e ≡ false)
  unfolding data_convert
  data_convert-type_of d t h = grind (arith, same_type-eq (type_of d) t, convert-type_of d t)

  -- A constant IPv6 address converts to the integer n exactly when n converts to that address.
  pub data_convert-ipv6 :
      (a : U128) (n : ℕ)
      → (data_convert fp (Data.ipv6 a) DataType.unum ≡ ok (Data.unum n))
        ↔ (data_convert fp (Data.unum n) DataType.ipv6 ≡ ok (Data.ipv6 a))
  unfolding data_convert u128_to_32 u128_from_32
  data_convert-ipv6 a n = ground arith
