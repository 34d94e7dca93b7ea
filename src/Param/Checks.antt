-- ===== src/Param/Checks.antt =====
-- check_params of tcc/param.c: which parameters it takes.
use tcng.Common.{◌≡◌, refl, ◌↔◌, ◌⊎◌, inl, inr, Bool, true, false, All}
use tcng.Common.{
  List, [], ◌∷◌, Option, none, some, Result, ok, err, Error, if◌then◌else◌, ◌>>◌, guard,
}
use tcng.Param.{Dsc, Param, walk_params, walk_given, check_all}
use tcng.Param.{check_required, check_optional, check_each, check_params}
use tcng.Param.Members.{IsIn, IsGiven, entries, walk_params_iff, walk_given_iff}

-- A parameter that one of two tables names.
abbrev pub IsNamed : Option (List Dsc) → Option (List Dsc) → Param → Type 0
IsNamed required optional p = IsIn p.dsc (entries required) ⊎ IsIn p.dsc (entries optional)

-- All required parameters are there, and each parameter is required or optional.
abbrev pub Accepts : List Param → Option (List Dsc) → Option (List Dsc) → Type 0
Accepts params required optional =
    All (IsGiven params) (entries required) × All (IsNamed required optional) params

guard-ok :
    (b : Bool) (e : Error) (rest : Result (Unit {0}))
    → (guard b e >> rest) ≡ ok tt
    → (b ≡ true) × (rest ≡ ok tt)
guard-ok true e rest h = (refl, h)
guard-ok false e rest h = absurd cc

check_all_iff :
    (params : List Param) (required : List Dsc)
    → (check_all params required ≡ ok tt) ↔ All (IsGiven params) required
unfolding check_all
check_all_iff params [] = (λ h. tt, λ h. refl)
check_all_iff params (d ∷ required) = (
  λ h.
      let (here, rest) =
        guard-ok (walk_params params d) Error.missing_parameter (check_all params required) h in
      ((walk_params_iff params d).0 here, (check_all_iff params required).0 rest),
  λ h.
      let here = (walk_params_iff params d).1 (h.0) in
      rw here ((check_all_iff params required).1 (h.1)),
)

check_required_iff :
    (params : List Param) (required : Option (List Dsc))
    → (check_required params required ≡ ok tt) ↔ All (IsGiven params) (entries required)
unfolding check_required
check_required_iff params none = (λ h. tt, λ h. refl)
check_required_iff params (some table) = check_all_iff params table

-- The guard at the end of check_optional.
after_loops :
    (a b : Bool)
    → (guard (if a then true else b) Error.unrecognized ≡ ok tt) ↔ ((a ≡ true) ⊎ (b ≡ true))
after_loops true b = (λ h. inl refl, λ h. refl)
after_loops false true = (λ h. inr refl, λ h. refl)
after_loops false false = (λ h. absurd cc, λ h. absurd (elim h [ inl e ↦ cc | inr e ↦ cc ]))

then-ok :
    (first rest : Result (Unit {0})) → (first >> rest) ≡ ok tt → (first ≡ ok tt) × (rest ≡ ok tt)
then-ok (err e) rest h = absurd cc
then-ok (ok tt) rest h = (refl, h)

module _ (required optional : Option (List Dsc)) where
  check_optional_iff :
      (p : Param) → (check_optional p required optional ≡ ok tt) ↔ IsNamed required optional p
  unfolding check_optional
  check_optional_iff p =
      let loops = after_loops (walk_given required p.dsc) (walk_given optional p.dsc) in
      (
        λ h. elim (loops.0 h) [
          | inl e ↦ inl ((walk_given_iff required p.dsc).0 e)
          | inr e ↦ inr ((walk_given_iff optional p.dsc).0 e)
        ],
        λ h. elim h [
          | inl e ↦ loops.1 (inl ((walk_given_iff required p.dsc).1 e))
          | inr e ↦ loops.1 (inr ((walk_given_iff optional p.dsc).1 e))
        ],
      )

  check_each_iff :
      (params : List Param)
      → (check_each params required optional ≡ ok tt) ↔ All (IsNamed required optional) params
  unfolding check_each
  check_each_iff [] = (λ h. tt, λ h. refl)
  check_each_iff (p ∷ params) = (
    λ h.
        let (here, rest) =
          then-ok (check_optional p required optional) (check_each params required optional) h in
        ((check_optional_iff p).0 here, (check_each_iff params).0 rest),
    λ h. let here = (check_optional_iff p).1 (h.0) in rw here ((check_each_iff params).1 (h.1)),
  )

  -- check_params returns exactly if the address of each required descriptor is that of some
  -- parameter of the list, and the address of each parameter of the list is an entry of the
  -- table of required ones or of that of optional ones; a null pointer is an empty table.
  pub check_params_iff :
      (params : List Param)
      → (check_params params required optional ≡ ok tt) ↔ Accepts params required optional
  unfolding check_params
  check_params_iff params = (
    λ h.
        let (there, named) =
          then-ok (check_required params required) (check_each params required optional) h in
        ((check_required_iff params required).0 there, (check_each_iff params).0 named),
    λ h.
        let there = (check_required_iff params required).1 (h.0) in
        rw there ((check_each_iff params).1 (h.1)),
  )
