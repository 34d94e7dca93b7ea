-- ===== src/Registry/Examples.antt =====
-- A registry of two warning switches.
use tcng.Common.{ℕ, ◌≡◌, refl, zero, suc}
use tcng.Common.{[], ◌∷◌, Option, none, some, true, false, ok}
use tcng.Registry.{Name, State, registry_open, open_flags, open_flag, store, same_cell, write}
use tcng.Registry.{registry_find, find_from, same_name, switch, without_no, registry_set_no}
use tcng.Registry.{registry_probe, registry_clear}
use tcng.Registry.{set_warn_switch}
use tcng.Registry.Locks.{run_calls, registry_probe-run_calls}
use tcng.Registry.Find.{registry_open-IsSeparate}

-- "cse", "ne"
abbrev cse : Name
cse = 99 ∷ 115 ∷ 101 ∷ []

abbrev ne : Name
ne = 110 ∷ 101 ∷ []

-- "nocse"
abbrev nocse : Name
nocse = 110 ∷ 111 ∷ cse

-- The first switch has a variable, the second none.
abbrev variables : ℕ → Option ℕ
variables zero = some 7
variables (suc i) = none

abbrev opened : State
opened = registry_open (cse ∷ ne ∷ []) variables (λ c. 1)

once : (i j a : ℕ) → variables i ≡ some a → variables j ≡ some a → i ≡ j
once zero zero a e f = refl
once zero (suc j) a e f = absurd cc
once (suc i) j a e f = absurd cc

found : registry_find opened.reg (switch nocse) ≡ some 0
unfolding registry_open open_flags open_flag registry_find find_from same_name switch without_no
found = refl

registry_probe-run_calls_example :
    (s1 : State) × (s2 : State) × (set_warn_switch nocse true opened ≡ ok (true, s1))
    × (run_calls ((cse, false) ∷ (ne, true) ∷ []) s1 ≡ ok s2)
    × (registry_probe (switch nocse) s2 ≡ registry_probe (switch nocse) s1)
registry_probe-run_calls_example =
    registry_probe-run_calls nocse ((cse, false) ∷ (ne, true) ∷ []) opened 0
      (registry_open-IsSeparate (cse ∷ ne ∷ []) variables (λ c. 1) once) found

cleared : registry_probe cse (registry_set_no nocse opened).1 ≡ ok 0
unfolding registry_open open_flags open_flag registry_find find_from same_name switch without_no
    registry_set_no registry_clear write store same_cell registry_probe
cleared = refl
