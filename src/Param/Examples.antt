-- ===== src/Param/Examples.antt =====
-- Parameters of a token bucket, and nested definitions.
use tcng.Common.{◌+◌, ◌-◌, ◌*◌, ◌/◌, ◌≡◌, refl, arith, ◌↔◌, true, false, ltb, ◌==◌, All}
use mathlib.Core.List.{Memᴰ}
use tcng.Common.{List, [], ◌∷◌, some, none, ok, ◌⊎◌, inl, inr}
use tcng.Data.{Data, DataType, Doubles}
use tcng.Param.{Dsc, Param, Store, Def, Values}
use tcng.Param.{check_params, param_load, fnum_of}
use tcng.Param.{value_of, canonical}
use tcng.Param.Members.{IsGiven, entries}
use tcng.Param.Checks.{Accepts, check_params_iff}
use tcng.Param.Marks.{IsRecognized}
use tcng.Param.Load.{IsKept, param_load-present, param_load-ends}
use tcng.Param.Stack.{Body, Ran, depth, run_body_lem}

-- Doubles that are whole numbers.
abbrev whole : Doubles
whole = record {
  add = λ a b. a + b;
  sub = λ a b. a - b;
  mul = λ a b. a * b;
  div = λ a b. a / b;
  neg = λ a. 0;
  of_u32 = λ n. n;
  to_u32 = λ n. n;
  equal = λ a b. a == b;
  less = λ a b. ltb a b;
  eight = 8;
}

abbrev rate : Dsc
rate = record { key = 1; name = 114 ∷ []; type = DataType.rate }

abbrev burst : Dsc
burst = record { key = 2; name = 98 ∷ []; type = DataType.size }

abbrev given : List Param
given =
    record { dsc = burst; value = Data.size 1500 }
    ∷ record { dsc = rate; value = Data.rate 8000 }
    ∷ []

check_params_iff_example :
    (check_params given (some (rate ∷ [])) (some (burst ∷ [])) ≡ ok tt)
    ↔ Accepts given (some (rate ∷ [])) (some (burst ∷ []))
check_params_iff_example = check_params_iff (some (rate ∷ [])) (some (burst ∷ [])) given

abbrev policer : Def
policer = record { address = 10; required = some (rate ∷ []); optional = some (burst ∷ []) }

abbrev empty : Store
empty = record { v = λ k. 0; present = λ k. false }

-- A definition based on that of the policer, where the rate is set already.
abbrev class : Def
class = record { address = 11; required = some (rate ∷ []); optional = none }

abbrev rate_set : Store
rate_set = record { v = λ k. 0; present = λ k. k == 1 }

abbrev only_burst : List Param
only_burst = record { dsc = burst; value = Data.size 1500 } ∷ []

rate_set-IsKept : IsKept whole 0x7fffffff 1000000 90 91 92 policer class rate_set rate
rate_set-IsKept = (omega arith, omega arith, omega arith, refl)

loads :
    (t : Store) × (param_load whole 0x7fffffff 1000000 90 91 92 only_burst policer class rate_set
      ≡ ok t)
unfolding value_of canonical fnum_of
loads =
    param_load-ends whole 0x7fffffff 1000000 90 91 92 only_burst policer class rate_set
      ((inr (inl (Memᴰ.head refl)), (some 1500, refl)), tt) (inr rate_set-IsKept, tt)

param_load-present_example :
    All (IsRecognized policer class) only_burst
    × All
        (λ d.
          IsGiven only_burst d ⊎ IsKept whole 0x7fffffff 1000000 90 91 92 policer class rate_set d)
        (entries class.required)
    × ((d : Dsc)
        → (loads.0.present d.key ≡ true) ↔ (
            IsGiven only_burst d
            ⊎ IsKept whole 0x7fffffff 1000000 90 91 92 policer class rate_set d))
param_load-present_example =
    param_load-present whole 0x7fffffff 1000000 90 91 92 only_burst policer class rate_set loads.0
      loads.1

-- A block in a block.
abbrev nested : Body
nested =
    Body.change (λ s. record s { v = λ k. 5 })
      (Body.block (Body.change (λ s. empty) (Body.block Body.finish Body.finish)) Body.finish)

abbrev start : Values
start = record { store = empty; stack = λ j. empty; sp = 97 }

run_body_lem_example : Ran nested start
unfolding depth
run_body_lem_example = run_body_lem nested start (omega arith)
