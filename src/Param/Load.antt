-- ===== src/Param/Load.antt =====
-- param_get and param_load of tcc/param.c: which descriptors are present afterwards.
use tcng.Common.{
  ℕ, ◌≡◌, ◌≢◌, ◌↔◌, ◌⊎◌, inl, inr, refl, Bool, true, ◌||◌, ◌==◌, ==_iff, Bool-cases, All, ap, sym,
  ◌∙◌,
}
use tcng.Common.{List, [], ◌∷◌, Option, Result, ok, ◌>>=◌, ◌>>◌}
use tcng.Common.{>>=-eq-ok, if◌then◌else◌}
use mathlib.Core.Path.{subst}
use tcng.Data.{Double, Doubles}
use tcng.Param.{Dsc, Param, Store, Def, lookup, found, prm_present, mark}
use tcng.Param.{param_reset, value_of, assigned, param_get_1, get_all, param_get}
use tcng.Param.{check_recognized, load_all, required_present, load_start, param_load}
use tcng.Param.Members.{IsGiven, entries, prm_present_iff}
use tcng.Param.Marks.{
  then_ok, required_present-ok, assigned-present, mark-present, or_false, mark_or,
  required_present-here, All_map, IsRecognized, false≢true, differ, or_iff, check_recognized_iff,
}

module _ (fp : Doubles) (max_value million : Double)
    (prm_probability prm_pragma prm_priomap : ℕ) where
  abbrev get_1 : Param → Store → Result Store
  get_1 = param_get_1 fp max_value million prm_probability prm_pragma prm_priomap

  -- param_get_1 marks its parameter, and no other.
  get_1-present :
      (p : Param) (s t : Store)
      → get_1 p s ≡ ok t
      → (j : ℕ) → t.present j ≡ (if j == p.dsc.key then true else s.present j)
  unfolding param_get_1
  get_1-present p s t h j =
      let value =
        value_of fp max_value million prm_probability prm_pragma prm_priomap p.dsc.type p in
      let (o, runs, e) =
        >>=-eq-ok value (λ (o : Option ℕ). ok (assigned o p.dsc.key (mark p.dsc.key s))) h in
      let same : t ≡ assigned o p.dsc.key (mark p.dsc.key s) = cc in
      ap (λ (u : Store). u.present j) same
      ∙ ap (λ (f : ℕ → Bool). f j) (assigned-present o p.dsc.key (mark p.dsc.key s))
      ∙ mark-present p.dsc.key s j

  get_all-present :
      (params : List Param) (s t : Store)
      → get_all fp max_value million prm_probability prm_pragma prm_priomap params s ≡ ok t
      → (d : Dsc) → t.present d.key ≡ (prm_present params d || s.present d.key)
  unfolding get_all prm_present lookup found
  get_all-present [] s t h d =
      let same : s ≡ t = cc in ap (λ (u : Store). u.present d.key) (sym same)
  get_all-present (p ∷ params) s t h d =
      let (s1, one, rest) =
        >>=-eq-ok (get_1 p s)
          (λ (u : Store).
            get_all fp max_value million prm_probability prm_pragma prm_priomap params u)
          h in
      let here = get_1-present p s s1 one d.key in
      let later = get_all-present params s1 t rest d in
      later
      ∙ ap (λ (b : Bool). prm_present params d || b) here
      ∙ mark_or p params d (s.present d.key)

  -- After param_get exactly the parameters of the list are present.
  pub param_get-present :
      (params : List Param) (s t : Store)
      → param_get fp max_value million prm_probability prm_pragma prm_priomap params s ≡ ok t
      → (d : Dsc) → t.present d.key ≡ prm_present params d
  unfolding param_get param_reset
  param_get-present params s t h d =
      get_all-present params (param_reset s) t h d ∙ or_false (prm_present params d)

  abbrev Recognized : Def → Def → Param → Type 0
  Recognized base curr p = check_recognized p base curr ≡ ok tt

  load_all-present :
      (params : List Param) (base curr : Def) (s t : Store)
      → load_all fp max_value million prm_probability prm_pragma prm_priomap params base curr s
        ≡ ok t
      → All (Recognized base curr) params
        × ((d : Dsc) → t.present d.key ≡ (prm_present params d || s.present d.key))
  unfolding load_all prm_present lookup found
  load_all-present [] base curr s t h =
      let same : s ≡ t = cc in (tt, λ d. ap (λ (u : Store). u.present d.key) (sym same))
  load_all-present (p ∷ params) base curr s t h =
      let more = λ (u : Store).
        load_all fp max_value million prm_probability prm_pragma prm_priomap params base curr u in
      let (known, runs) = then_ok (check_recognized p base curr) (get_1 p s >>= more) h in
      let (s1, one, rest) = >>=-eq-ok (get_1 p s) more runs in
      let here = λ (d : Dsc). get_1-present p s s1 one d.key in
      let (all, later) = load_all-present params base curr s1 t rest in
      (
        (known, all),
        λ d.
            later d
            ∙ ap (λ (b : Bool). prm_present params d || b) (here d)
            ∙ mark_or p params d (s.present d.key),
      )

  -- What was there before, and param_load keeps: nothing for the base itself, and neither of the two
  -- parameters that are not passed on.
  abbrev pub IsKept : Def → Def → Store → Dsc → Type 0
  IsKept base curr s d =
      (base.address ≢ curr.address)
      × (d.key ≢ prm_pragma)
      × (d.key ≢ prm_priomap)
      × (s.present d.key ≡ true)

  load_start_iff :
      (base curr : Def) (s : Store) (d : Dsc)
      → ((load_start fp max_value million prm_probability prm_pragma prm_priomap base curr
              s).present
            d.key
          ≡ true)
        ↔ IsKept base curr s d
  unfolding load_start param_reset
  load_start_iff base curr s d = elim (Bool-cases (base.address == curr.address)) [
    | inl same ↦
        let is : base.address ≡ curr.address = (==_iff base.address curr.address).0 same in
        (λ h. absurd (false≢true (rw (same, load_start) at h)), λ h. absurd (h.0 is))
    | inr other ↦
        let differs = differ base.address curr.address other in
        elim (Bool-cases (d.key == prm_pragma)) [
          | inl pragma ↦
              let is : d.key ≡ prm_pragma = (==_iff d.key prm_pragma).0 pragma in
              (λ h. absurd (false≢true (rw (other, load_start, pragma) at h)), λ h. absurd (h.1 is))
          | inr no_pragma ↦ elim (Bool-cases (d.key == prm_priomap)) [
            | inl priomap ↦
                let is : d.key ≡ prm_priomap = (==_iff d.key prm_priomap).0 priomap in
                (
                  λ h. absurd (false≢true (rw (other, load_start, no_pragma, priomap) at h)),
                  λ h. absurd (h.2 is),
                )
            | inr no_priomap ↦ (
              λ h. (
                differs,
                differ d.key prm_pragma no_pragma,
                differ d.key prm_priomap no_priomap,
                rw (other, load_start, no_pragma, no_priomap) at h,
              ),
              λ h. rw (other, load_start, no_pragma, no_priomap) h.3,
            )
          ]
        ]
  ]

  -- If param_load returns: the address of each parameter of the list is an entry of a table of
  -- `base` or `curr`; each descriptor that `curr` requires is given, its address that of a
  -- parameter of the list, or kept; and a descriptor is present exactly if it is given or kept.
  -- Kept are those that were present before, if `base` and `curr` differ, other than prm_pragma
  -- and prm_priomap.
  pub param_load-present :
      (params : List Param) (base curr : Def) (s t : Store)
      → param_load fp max_value million prm_probability prm_pragma prm_priomap params base curr s
        ≡ ok t
      → All (IsRecognized base curr) params
        × All (λ d. IsGiven params d ⊎ IsKept base curr s d) (entries curr.required)
        × ((d : Dsc) → (t.present d.key ≡ true) ↔ (IsGiven params d ⊎ IsKept base curr s d))
  unfolding param_load
  param_load-present params base curr s t h =
      let start =
        load_start fp max_value million prm_probability prm_pragma prm_priomap base curr s in
      let (u, runs, rest) =
        >>=-eq-ok
          (load_all fp max_value million prm_probability prm_pragma prm_priomap params base curr
            start)
          (λ (u : Store). required_present curr.required u >> ok u) h in
      let (there, e) = then_ok (required_present curr.required u) (ok u) rest in
      let same : u ≡ t = cc in
      let (known, present) = load_all-present params base curr start u runs in
      let where_from : (d : Dsc)
          → (u.present d.key ≡ true) ↔ (IsGiven params d ⊎ IsKept base curr s d) =
        λ d. rw (present d) (
          or_iff (prm_present params d) (start.present d.key) (prm_present_iff params d)
            (load_start_iff base curr s d)) in
      (
        All_map (λ p. (check_recognized_iff p base curr).0) params known,
        All_map (λ d. (where_from d).0) (entries curr.required)
            (required_present-ok curr.required u there),
        subst
            (λ (w : Store).
              (d : Dsc) → (w.present d.key ≡ true) ↔ (IsGiven params d ⊎ IsKept base curr s d))
            same where_from,
      )

  -- A parameter with a value that fits.
  abbrev pub HasValue : Param → Type 0
  HasValue p =
      (o : Option ℕ) × (value_of fp max_value million prm_probability prm_pragma prm_priomap
          p.dsc.type p
        ≡ ok o)

  get_1-ends : (p : Param) (s : Store) → HasValue p → (t : Store) × (get_1 p s ≡ ok t)
  unfolding param_get_1
  get_1-ends p s (o, e) = (assigned o p.dsc.key (mark p.dsc.key s), rw e refl)

  load_all-ends :
      (params : List Param) (base curr : Def) (s : Store)
      → All (λ p. (check_recognized p base curr ≡ ok tt) × HasValue p) params
      → (t : Store) × (load_all fp max_value million prm_probability prm_pragma prm_priomap params
            base curr s
          ≡ ok t)
  unfolding load_all
  load_all-ends [] base curr s h = (s, refl)
  load_all-ends (p ∷ params) base curr s ((known, value), h) =
      let (s1, one) = get_1-ends p s value in
      let (t, rest) = load_all-ends params base curr s1 h in (t, rw (known, one) rest)

  -- param_load returns for parameters that are known and have values that fit, with all that `curr`
  -- requires given or kept.
  pub param_load-ends :
      (params : List Param) (base curr : Def) (s : Store)
      → All (λ p. IsRecognized base curr p × HasValue p) params
      → All (λ d. IsGiven params d ⊎ IsKept base curr s d) (entries curr.required)
      → (t : Store) × (param_load fp max_value million prm_probability prm_pragma prm_priomap params
            base curr s
          ≡ ok t)
  unfolding param_load
  param_load-ends params base curr s h there =
      let start =
        load_start fp max_value million prm_probability prm_pragma prm_priomap base curr s in
      let known = All_map (λ p g. ((check_recognized_iff p base curr).1 g.0, g.1)) params h in
      let (t, runs) = load_all-ends params base curr start known in
      let present = (load_all-present params base curr start t runs).1 in
      let where_from : (d : Dsc)
          → IsGiven params d ⊎ IsKept base curr s d
          → t.present d.key ≡ true =
        λ d g. rw (present d) (
          (or_iff (prm_present params d) (start.present d.key) (prm_present_iff params d)
              (load_start_iff base curr s d)).1
            g) in
      let all =
        required_present-here curr.required t (All_map where_from (entries curr.required) there) in
      (t, rw (runs, ◌>>=◌, all) refl)
