-- ===== src/Data/Make.antt =====
-- tcc/data.c: the constructors of constants, and data_add_unit.
use tcng.Common.{ℕ, List, Result, ok, err, Error, ◌>>=◌, if◌then◌else◌}
use tcng.U128.{U128}
use tcng.Data.{Data, DataType, DecisionResult, Double, Doubles, end, type_of, same_type}
use tcng.Data.{data_typed_fnum}

abbrev pub data_none : Data
data_none = Data.none

abbrev pub data_unum : ℕ → Data
data_unum n = Data.unum n

abbrev pub data_ipv4 : ℕ → Data
data_ipv4 n = Data.ipv4 n

abbrev pub data_ipv6 : U128 → Data
data_ipv6 n = Data.ipv6 n

abbrev pub data_fnum : Double → Data
data_fnum x = Data.fnum x

abbrev pub data_string : List ℕ → Data
data_string s = Data.string s

abbrev pub data_device : ℕ → Data
data_device p = Data.device p

abbrev pub data_qdisc : ℕ → Data
data_qdisc p = Data.qdisc p

abbrev pub data_class : ℕ → Data
data_class p = Data.class p

abbrev pub data_decision : DecisionResult → ℕ → Data
data_decision r c = Data.decision r c

abbrev pub data_filter : ℕ → Data
data_filter p = Data.filter p

abbrev pub data_tunnel : ℕ → Data
data_tunnel p = Data.tunnel p

abbrev pub data_police : ℕ → Data
data_police p = Data.police p

abbrev pub data_bucket : ℕ → Data
data_bucket p = Data.bucket p

abbrev pub data_list : ℕ → Data
data_list p = Data.list p

abbrev pub data_field : ℕ → Data
data_field p = Data.field p

abbrev pub data_field_root : ℕ → Data
data_field_root p = Data.field_root p

abbrev pub data_assoc : Data
data_assoc = Data.assoc end

module _ (fp : Doubles) where
  -- The number in an operand that `data_add_unit` takes, which is a constant.
  unfoldable pub scaled : Data → Result Double
  scaled (Data.fnum x) = ok x
  scaled (Data.unum n) = ok (fp.of_u32 n)
  scaled _ = err Error.bad_conversion

  -- The number of a unit, which the caller gives the type of a rate, a size or a time.
  unfoldable pub factor : Data → Result Double
  factor (Data.rate x) = ok x
  factor (Data.prate x) = ok x
  factor (Data.size x) = ok x
  factor (Data.psize x) = ok x
  factor (Data.time x) = ok x
  factor _ = err Error.fault

  unfoldable pub data_add_unit : Data → Data → Result Data
  unfolding scaled factor data_typed_fnum same_type type_of
  data_add_unit d unit =
      let product = (do
        x ← scaled d
        y ← factor unit
        data_typed_fnum fp (fp.mul x y) (type_of unit)) in
      if same_type (type_of unit) DataType.none then ok d else product
