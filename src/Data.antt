-- ===== src/Data.antt =====
-- tcc/data.h and tcc/data.c: typed data, and the expressions that stand in its place (tcc/op.h).
pub mod Convert
pub mod Names
pub mod Make
pub mod Clone
pub mod Clones
pub mod Examples
use tcng.Common.{ℕ, zero, suc, ◌+◌, Bool, true, false, not, ◌&&◌, ◌||◌, List, [], ◌∷◌}
use tcng.Common.{Result, ok, err, Error, ◌>>=◌, ◌==◌, if◌then◌else◌}
use tcng.U128.{U128, u128_to_32, u128_from_32, u128_cmp, Cmp}

-- DATA_TYPE
pub data DataType : Type 0 where
  none unum ipv4 ipv6 fnum string rate size prate psize time : DataType
  device qdisc class filter tunnel police bucket list field field_root decision assoc : DataType

-- DECISION_RESULT
pub data DecisionResult : Type 0 where
  continue class drop reclassify : DecisionResult

-- The operator descriptors of op.h, by the names of their variables.
pub data Op : Type 0 where
  plus minus unary_minus mult div mod' not' and or xor mask shift_left shift_right : Op
  eq ne gt ge lt le logical_not logical_or logical_and : Op
  access offset conform count precond precond2 field_root : Op

-- A C `double` by its bit pattern.
abbrev pub Double : Type 0
Double = ℕ

-- The arithmetic of the compiler's floating point, which is a parameter.
pub record Doubles : Type 0 where
  pub add : Double → Double → Double
  pub sub : Double → Double → Double
  pub mul : Double → Double → Double
  pub div : Double → Double → Double
  pub neg : Double → Double
  pub of_u32 : ℕ → Double
  pub to_u32 : Double → ℕ
  pub equal : Double → Double → Bool
  pub less : Double → Double → Bool
  pub eight : Double

-- DATA. A constant holds what the union holds under its type; pointers are numbers, strings are
-- their bytes. An `op` holds its result type, the descriptor and the three operands.
mutual
  pub data Data : Type 0 where
    none : Data
    unum : ℕ → Data
    ipv4 : ℕ → Data
    ipv6 : U128 → Data
    fnum : Double → Data
    string : List ℕ → Data
    rate : Double → Data
    size : Double → Data
    prate : Double → Data
    psize : Double → Data
    time : Double → Data
    device : ℕ → Data
    qdisc : ℕ → Data
    class : ℕ → Data
    filter : ℕ → Data
    tunnel : ℕ → Data
    police : ℕ → Data
    bucket : ℕ → Data
    list : ℕ → Data
    field : ℕ → Data
    field_root : ℕ → Data
    decision : DecisionResult → ℕ → Data
    assoc : Entries → Data
    op : DataType → Op → Data → Data → Data → Data

  -- DATA_ASSOC, less the link to the parent.
  pub data Entries : Type 0 where
    end : Entries
    entry : List ℕ → Data → Entries → Entries

-- `d.type`
unfoldable pub type_of : Data → DataType
type_of Data.none = DataType.none
type_of (Data.unum n) = DataType.unum
type_of (Data.ipv4 n) = DataType.ipv4
type_of (Data.ipv6 n) = DataType.ipv6
type_of (Data.fnum x) = DataType.fnum
type_of (Data.string s) = DataType.string
type_of (Data.rate x) = DataType.rate
type_of (Data.size x) = DataType.size
type_of (Data.prate x) = DataType.prate
type_of (Data.psize x) = DataType.psize
type_of (Data.time x) = DataType.time
type_of (Data.device p) = DataType.device
type_of (Data.qdisc p) = DataType.qdisc
type_of (Data.class p) = DataType.class
type_of (Data.filter p) = DataType.filter
type_of (Data.tunnel p) = DataType.tunnel
type_of (Data.police p) = DataType.police
type_of (Data.bucket p) = DataType.bucket
type_of (Data.list p) = DataType.list
type_of (Data.field p) = DataType.field
type_of (Data.field_root p) = DataType.field_root
type_of (Data.decision r c) = DataType.decision
type_of (Data.assoc es) = DataType.assoc
type_of (Data.op t o a b c) = t

-- `d.op` is not NULL.
unfoldable pub has_op : Data → Bool
has_op (Data.op t o a b c) = true
has_op _ = false

-- dt_none as a type, without a constant: an absent operand.
unfoldable pub is_none : Data → Bool
is_none Data.none = true
is_none _ = false

-- INTEGER_NUMBER
unfoldable pub integer_number : DataType → Bool
integer_number DataType.unum = true
integer_number DataType.ipv4 = true
integer_number DataType.ipv6 = true
integer_number _ = false

-- UNTYPED_NUMBER
unfoldable pub untyped_number : DataType → Bool
untyped_number DataType.fnum = true
untyped_number t = integer_number t

-- IP_ADDRESS
unfoldable pub ip_address : DataType → Bool
ip_address DataType.ipv4 = true
ip_address DataType.ipv6 = true
ip_address _ = false

-- TYPED_NUMBER
unfoldable pub typed_number : DataType → Bool
typed_number DataType.rate = true
typed_number DataType.prate = true
typed_number DataType.size = true
typed_number DataType.psize = true
typed_number DataType.time = true
typed_number _ = false

module _ (fp : Doubles) where
  -- The conversions of `data_convert` between different types, by the pair of types.
  unfoldable pub convert : Data → DataType → Result Data
  convert (Data.ipv4 n) DataType.unum = ok (Data.unum n)
  convert (Data.unum n) DataType.ipv4 = ok (Data.ipv4 n)
  convert (Data.ipv6 n) DataType.unum = do w ← u128_to_32 n; ok (Data.unum w)
  convert (Data.unum n) DataType.ipv6 = ok (Data.ipv6 (u128_from_32 n))
  convert (Data.ipv4 n) DataType.ipv6 = ok (Data.ipv6 (u128_from_32 n))
  convert (Data.fnum x) DataType.unum = ok (Data.unum (fp.to_u32 x))
  convert (Data.unum n) DataType.fnum = ok (Data.fnum (fp.of_u32 n))
  convert _ _ = err Error.bad_conversion

-- The value of a type in the enumeration.
unfoldable pub type_code : DataType → ℕ
type_code DataType.none = 0
type_code DataType.unum = 1
type_code DataType.ipv4 = 2
type_code DataType.ipv6 = 3
type_code DataType.fnum = 4
type_code DataType.string = 5
type_code DataType.rate = 6
type_code DataType.size = 7
type_code DataType.prate = 8
type_code DataType.psize = 9
type_code DataType.time = 10
type_code DataType.device = 11
type_code DataType.qdisc = 12
type_code DataType.class = 13
type_code DataType.filter = 14
type_code DataType.tunnel = 15
type_code DataType.police = 16
type_code DataType.bucket = 17
type_code DataType.list = 18
type_code DataType.field = 19
type_code DataType.field_root = 20
type_code DataType.decision = 21
type_code DataType.assoc = 22

unfoldable pub same_type : DataType → DataType → Bool
unfolding type_code
same_type s t = type_code s == type_code t

-- A number for each descriptor, as its address is one.
unfoldable pub op_code : Op → ℕ
op_code Op.plus = 0
op_code Op.minus = 1
op_code Op.unary_minus = 2
op_code Op.mult = 3
op_code Op.div = 4
op_code Op.mod' = 5
op_code Op.not' = 6
op_code Op.and = 7
op_code Op.or = 8
op_code Op.xor = 9
op_code Op.mask = 10
op_code Op.shift_left = 11
op_code Op.shift_right = 12
op_code Op.eq = 13
op_code Op.ne = 14
op_code Op.gt = 15
op_code Op.ge = 16
op_code Op.lt = 17
op_code Op.le = 18
op_code Op.logical_not = 19
op_code Op.logical_or = 20
op_code Op.logical_and = 21
op_code Op.access = 22
op_code Op.offset = 23
op_code Op.conform = 24
op_code Op.count = 25
op_code Op.precond = 26
op_code Op.precond2 = 27
op_code Op.field_root = 28

unfoldable pub same_op : Op → Op → Bool
unfolding op_code
same_op o p = op_code o == op_code p

unfoldable pub result_code : DecisionResult → ℕ
result_code DecisionResult.continue = 0
result_code DecisionResult.class = 1
result_code DecisionResult.drop = 2
result_code DecisionResult.reclassify = 3

module _ (fp : Doubles) where
  unfoldable pub data_convert : Data → DataType → Result Data
  unfolding convert has_op same_type type_of
  data_convert d t =
      if has_op d
      then err Error.not_constant
      else if same_type (type_of d) t
      then ok d
      else convert fp d t

  -- data_typed_fnum. Its callers give it a number's type.
  unfoldable pub data_typed_fnum : Double → DataType → Result Data
  data_typed_fnum x DataType.fnum = ok (Data.fnum x)
  data_typed_fnum x DataType.rate = ok (Data.rate x)
  data_typed_fnum x DataType.size = ok (Data.size x)
  data_typed_fnum x DataType.prate = ok (Data.prate x)
  data_typed_fnum x DataType.psize = ok (Data.psize x)
  data_typed_fnum x DataType.time = ok (Data.time x)
  data_typed_fnum x _ = err Error.fault

-- strcmp(a,b) == 0
unfoldable pub same_string : List ℕ → List ℕ → Bool
same_string [] [] = true
same_string [] (y ∷ ys) = false
same_string (x ∷ xs) [] = false
same_string (x ∷ xs) (y ∷ ys) = (x == y) && same_string xs ys

unfoldable pub same_decision : DecisionResult → ℕ → DecisionResult → ℕ → Bool
unfolding result_code
same_decision r c s d =
    (result_code r == result_code s)
    && (not (result_code r == 1) && not (result_code r == 3) || (c == d))

unfoldable pub is_same : Cmp → Bool
is_same Cmp.same = true
is_same _ = false

module _ (fp : Doubles) where
  -- The constants of one type that `data_equal` tells apart; all other types are an error.
  unfoldable pub data_equal : Data → Data → Result Bool
  unfolding is_same same_string same_decision
  data_equal Data.none Data.none = ok true
  data_equal (Data.unum m) (Data.unum n) = ok (m == n)
  data_equal (Data.ipv4 m) (Data.ipv4 n) = ok (m == n)
  data_equal (Data.ipv6 m) (Data.ipv6 n) = ok (is_same (u128_cmp m n))
  data_equal (Data.fnum x) (Data.fnum y) = ok (fp.equal x y)
  data_equal (Data.rate x) (Data.rate y) = ok (fp.equal x y)
  data_equal (Data.prate x) (Data.prate y) = ok (fp.equal x y)
  data_equal (Data.size x) (Data.size y) = ok (fp.equal x y)
  data_equal (Data.psize x) (Data.psize y) = ok (fp.equal x y)
  data_equal (Data.time x) (Data.time y) = ok (fp.equal x y)
  data_equal (Data.string s) (Data.string t) = ok (same_string s t)
  data_equal (Data.qdisc p) (Data.qdisc q) = ok (p == q)
  data_equal (Data.class p) (Data.class q) = ok (p == q)
  data_equal (Data.decision r c) (Data.decision s d) = ok (same_decision r c s d)
  data_equal (Data.filter p) (Data.filter q) = ok (p == q)
  data_equal (Data.police p) (Data.police q) = ok (p == q)
  data_equal (Data.bucket p) (Data.bucket q) = ok (p == q)
  data_equal (Data.field_root p) (Data.field_root q) = ok (p == q)
  data_equal (Data.device p) (Data.device q) = err Error.fault
  data_equal (Data.tunnel p) (Data.tunnel q) = err Error.fault
  data_equal (Data.list p) (Data.list q) = err Error.fault
  data_equal (Data.field p) (Data.field q) = err Error.fault
  data_equal (Data.assoc es) (Data.assoc fs) = err Error.fault
  data_equal (Data.op t o a b c) _ = err Error.fault
  data_equal _ (Data.op t o a b c) = err Error.fault
  data_equal _ _ = ok false

  -- expr_equal of tcc/iflib_red.c.
  unfoldable pub expr_equal : Data → Data → Result Bool
  unfolding data_equal same_op
  expr_equal (Data.op t o a b c) (Data.op t' o' a' b' c') =
      let rest_c = expr_equal c c' in
      let rest_b = expr_equal b b' >>= λ same. elim same [ true ↦ rest_c | false ↦ ok false ] in
      let rest_a = expr_equal a a' >>= λ same. elim same [ true ↦ rest_b | false ↦ ok false ] in
      if same_op o o' then rest_a else ok false
  expr_equal (Data.op t o a b c) _ = ok false
  expr_equal a (Data.op t o b c d) = ok false
  expr_equal a b = data_equal a b
