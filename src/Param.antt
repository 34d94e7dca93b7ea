-- ===== src/Param.antt =====
-- tcc/param.c: parameters, their checks, and the stack of their values.
pub mod Members
pub mod Checks
pub mod Marks
pub mod Load
pub mod Stack
pub mod Examples
use tcng.Common.{ℕ, ◌+◌, ◌-◌, ◌<◌, Bool, true, false, ◌&&◌, ◌||◌, not, ◌==◌, if◌then◌else◌}
use tcng.Common.{List, [], ◌∷◌, ◌++◌, Option, none, some}
use tcng.Common.{Result, ok, err, Error, ◌>>=◌, ◌>>◌, guard}
use tcng.Data.{Data, DataType, Double, Doubles, same_type, type_of, data_convert}

-- `PARAM_DSC`: its address, name and type. What evaluation sets stands in a `Store`.
pub record Dsc : Type 0 where
  pub key : ℕ
  pub name : List ℕ
  pub type : DataType

-- `PARAM`, less its link.
pub record Param : Type 0 where
  pub dsc : Dsc
  pub value : Data

-- `v` and `present` of all descriptors, by their addresses.
pub record Store : Type 0 where
  pub v : ℕ → ℕ
  pub present : ℕ → Bool

abbrev pub same_dsc : Dsc → Dsc → Bool
same_dsc a b = a.key == b.key

unfoldable pub param_add : List Param → Param → List Param
param_add list p = list ++ (p ∷ [])

-- tcc/mkprminc writes an assignment for each parameter there is.
unfoldable pub param_reset : Store → Store
param_reset s = record s { present = λ k. false }

unfoldable pub mark : ℕ → Store → Store
mark k s = record s { present = λ j. if j == k then true else s.present j }

unfoldable pub assign : ℕ → ℕ → Store → Store
assign k n s = record s { v = λ j. if j == k then n else s.v j }

-- `data.u.fnum` and `data.u.unum`
unfoldable pub fnum_of : Data → Result Double
fnum_of (Data.fnum x) = ok x
fnum_of (Data.rate x) = ok x
fnum_of (Data.size x) = ok x
fnum_of (Data.prate x) = ok x
fnum_of (Data.psize x) = ok x
fnum_of (Data.time x) = ok x
fnum_of _ = err Error.undefined

unfoldable pub unum_of : Data → Result ℕ
unum_of (Data.unum n) = ok n
unum_of _ = err Error.undefined

-- `!*walk` is false after the loop over a table; a null pointer is an empty table.
unfoldable pub walk : List Dsc → Dsc → Bool
walk [] d = false
walk (t ∷ table) d = if same_dsc t d then true else walk table d

unfoldable pub in_table : Dsc → Option (List Dsc) → Bool
unfolding walk
in_table d none = false
in_table d (some table) = walk table d

-- The loop over the parameters for a descriptor; `none` is the null pointer.
unfoldable pub lookup : List Param → Dsc → Option Param
lookup [] d = none
lookup (p ∷ params) d = if same_dsc p.dsc d then some p else lookup params d

unfoldable pub found : Option Param → Bool
found none = false
found (some p) = true

unfoldable pub prm_present : List Param → Dsc → Bool
unfolding lookup found
prm_present params d = found (lookup params d)

unfoldable pub prm_data : List Param → Dsc → Result Data
unfolding lookup
prm_data params d = elim (lookup params d) [ none ↦ err Error.undefined | some p ↦ ok p.value ]

unfoldable pub prm_unum : List Param → Dsc → Result ℕ
unfolding prm_data unum_of
prm_unum params d = prm_data params d >>= unum_of

-- `walk` is no null pointer after the loop of check_required over the parameters.
unfoldable pub walk_params : List Param → Dsc → Bool
walk_params [] d = false
walk_params (p ∷ params) d = if same_dsc p.dsc d then true else walk_params params d

unfoldable pub check_all : List Param → List Dsc → Result (Unit {0})
unfolding walk_params
check_all params [] = ok tt
check_all params (d ∷ required) =
    let rest = check_all params required in
    guard (walk_params params d) Error.missing_parameter >> rest

unfoldable pub check_required : List Param → Option (List Dsc) → Result (Unit {0})
unfolding check_all
check_required params none = ok tt
check_required params (some required) = check_all params required

-- `*walk` is no null pointer after a loop of check_optional over a table.
unfoldable pub walk_table : List Dsc → Dsc → Bool
walk_table [] d = false
walk_table (t ∷ table) d = if same_dsc t d then true else walk_table table d

unfoldable pub walk_given : Option (List Dsc) → Dsc → Bool
unfolding walk_table
walk_given none d = false
walk_given (some table) d = walk_table table d

unfoldable pub check_optional : Param → Option (List Dsc) → Option (List Dsc) → Result (Unit {0})
unfolding walk_given
check_optional p required optional =
    let after = if walk_given required p.dsc then true else walk_given optional p.dsc in
    guard after Error.unrecognized

unfoldable pub check_each : List Param → Option (List Dsc) → Option (List Dsc) → Result (Unit {0})
unfolding check_optional
check_each [] required optional = ok tt
check_each (p ∷ params) required optional =
    let rest = check_each params required optional in check_optional p required optional >> rest

unfoldable pub check_params : List Param → Option (List Dsc) → Option (List Dsc) → Result (Unit {0})
unfolding check_required check_each
check_params params required optional =
    let each = check_each params required optional in check_required params required >> each

-- `PARAM_DEF` at its address.
pub record Def : Type 0 where
  pub address : ℕ
  pub required : Option (List Dsc)
  pub optional : Option (List Dsc)

unfoldable pub check_recognized : Param → Def → Def → Result (Unit {0})
unfolding in_table
check_recognized p base curr =
    guard
      (in_table p.dsc base.required
        || (in_table p.dsc base.optional
            || (in_table p.dsc curr.required || in_table p.dsc curr.optional)))
      Error.unrecognized

-- The values of all descriptors, the saved ones and `prm_sp`.
pub record Values : Type 0 where
  pub store : Store
  pub stack : ℕ → Store
  pub sp : ℕ

-- MAX_PARAM_DEPTH
abbrev pub max_param_depth : ℕ
max_param_depth = 100

unfoldable pub param_push : Values → Result Values
param_push s =
    if s.sp == max_param_depth
    then err Error.stack_overflow
    else ok (record s { stack = λ j. if j == s.sp then s.store else s.stack j; sp = s.sp + 1 })

unfoldable pub param_pop : Values → Result Values
param_pop s =
    if s.sp == 0
    then err Error.stack_underflow
    else ok (record s { sp = s.sp - 1; store = s.stack (s.sp - 1) })

unfoldable pub assigned : Option ℕ → ℕ → Store → Store
unfolding assign
assigned none k s = s
assigned (some n) k s = assign k n s

unfoldable pub all_present : List Dsc → Store → Result (Unit {0})
all_present [] s = ok tt
all_present (d ∷ required) s =
    let rest = all_present required s in guard (s.present d.key) Error.missing_parameter >> rest

unfoldable pub required_present : Option (List Dsc) → Store → Result (Unit {0})
unfolding all_present
required_present none s = ok tt
required_present (some required) s = all_present required s

-- `fp` is C's `double`; `max_value` is 0x7fffffff and `million` is 1e6 in it.
module _ (fp : Doubles) (max_value million : Double)
    (prm_probability prm_pragma prm_priomap : ℕ) where
  unfoldable pub param_make : Dsc → Data → Result Param
  unfolding data_convert same_type type_of
  param_make d value =
      if same_type d.type DataType.none
      then ok (record { dsc = d; value = value })
      else (data_convert fp value (
            if same_type d.type DataType.bucket && same_type (type_of value) DataType.police
            then DataType.police
            else d.type)
          >>= λ (converted : Data). ok (record { dsc = d; value = converted }))

  -- A number of a unit, in its canonical format.
  unfoldable pub canonical : Param → Result ℕ
  unfolding fnum_of same_type
  canonical p = fnum_of p.value >>= λ (x : Double).
      let value = if same_type p.dsc.type DataType.rate then fp.div x fp.eight else x in
      guard (not (fp.less max_value value)) Error.out_of_range >> ok (fp.to_u32 value)

  -- What param_get_1 assigns to `v`, if it does.
  unfoldable pub value_of : DataType → Param → Result (Option ℕ)
  unfolding fnum_of unum_of canonical
  value_of DataType.none p = ok none
  value_of DataType.fnum p =
      if p.dsc.key == prm_probability
      then (fnum_of p.value >>= λ (x : Double). ok (some (fp.to_u32 (fp.mul x million))))
      else ok none
  value_of DataType.unum p = unum_of p.value >>= λ (n : ℕ). ok (some n)
  value_of DataType.string p = ok none
  value_of DataType.size p = canonical p >>= λ (n : ℕ). ok (some n)
  value_of DataType.psize p = canonical p >>= λ (n : ℕ). ok (some n)
  value_of DataType.rate p = canonical p >>= λ (n : ℕ). ok (some n)
  value_of DataType.time p = canonical p >>= λ (n : ℕ). ok (some n)
  value_of DataType.list p = ok none
  value_of DataType.police p = ok none
  value_of DataType.bucket p = ok none
  value_of _ p = err Error.fault

  unfoldable pub param_get_1 : Param → Store → Result Store
  unfolding mark value_of assigned
  param_get_1 p s =
      value_of p.dsc.type p >>= λ (o : Option ℕ). ok (assigned o p.dsc.key (mark p.dsc.key s))

  unfoldable pub get_all : List Param → Store → Result Store
  unfolding param_get_1
  get_all [] s = ok s
  get_all (p ∷ params) s = param_get_1 p s >>= λ (t : Store). get_all params t

  unfoldable pub param_get : List Param → Store → Result Store
  unfolding param_reset get_all
  param_get params s = get_all params (param_reset s)

  unfoldable pub load_all : List Param → Def → Def → Store → Result Store
  unfolding check_recognized param_get_1
  load_all [] base curr s = ok s
  load_all (p ∷ params) base curr s =
      check_recognized p base curr
      >> (param_get_1 p s >>= λ (t : Store). load_all params base curr t)

  -- The store that param_load begins with.
  unfoldable pub load_start : Def → Def → Store → Store
  unfolding param_reset
  load_start base curr s = if base.address == curr.address then param_reset s else (record s {
    present =
        λ j. if j == prm_pragma then false else if j == prm_priomap then false else s.present j;
  })

  unfoldable pub param_load : List Param → Def → Def → Store → Result Store
  unfolding load_start load_all required_present
  param_load params base curr s =
      load_all params base curr (load_start base curr s) >>= λ (t : Store).
      required_present curr.required t >> ok t
