-- ===== src/Param/Marks.antt =====
-- param_load of tcc/param.c: the marks of present descriptors, and its checks.
use tcng.Common.{
  ℕ, ◌≡◌, ◌≢◌, ◌↔◌, ◌⊎◌, inl, inr, refl, arith, Bool, true, false, ◌||◌, ◌==◌, ==_iff, All,
}
use tcng.Common.{List, [], ◌∷◌, Option, none, some, Result, ok, err, Error, ◌>>◌, guard}
use tcng.Common.{if◌then◌else◌}
use tcng.Param.{Dsc, Param, Store, Def, lookup, found, prm_present, mark, assign}
use tcng.Param.{assigned}
use tcng.Param.{check_recognized, all_present, required_present}
use tcng.Param.{in_table}
use tcng.Param.Members.{IsIn, entries, in_table_iff}

pub guard-then {ℓ} :
    {B : Type ℓ} (b : Bool) (e : Error) (rest : Result B) {t : B}
    → (guard b e >> rest) ≡ ok t
    → (b ≡ true) × (rest ≡ ok t)
guard-then true e rest h = (refl, h)
guard-then false e rest h = absurd cc

pub then_ok {ℓ} :
    {B : Type ℓ} (first : Result (Unit {0})) (rest : Result B) {t : B}
    → (first >> rest) ≡ ok t
    → (first ≡ ok tt) × (rest ≡ ok t)
then_ok (err e) rest h = absurd cc
then_ok (ok tt) rest h = (refl, h)

pub all_present-ok :
    (required : List Dsc) (s : Store)
    → all_present required s ≡ ok tt
    → All (λ d. s.present d.key ≡ true) required
unfolding all_present
all_present-ok [] s h = tt
all_present-ok (d ∷ required) s h =
    let (here, rest) =
      guard-then (s.present d.key) Error.missing_parameter (all_present required s) h in
    (here, all_present-ok required s rest)

pub required_present-ok :
    (o : Option (List Dsc)) (s : Store)
    → required_present o s ≡ ok tt
    → All (λ d. s.present d.key ≡ true) (entries o)
unfolding required_present
required_present-ok none s h = tt
required_present-ok (some required) s h = all_present-ok required s h

pub assigned-present : (o : Option ℕ) (k : ℕ) (s : Store) → (assigned o k s).present ≡ s.present
unfolding assigned assign
assigned-present none k s = refl
assigned-present (some n) k s = refl

pub mark-present :
    (k : ℕ) (s : Store) (j : ℕ) → (mark k s).present j ≡ (if j == k then true else s.present j)
unfolding mark
mark-present k s j = refl

pub or_false : (b : Bool) → (b || false) ≡ b
or_false true = refl
or_false false = refl

-- A parameter in front of a list.
pub mark_or :
    (p : Param) (params : List Param) (d : Dsc) (b : Bool)
    → (prm_present params d || (if d.key == p.dsc.key then true else b))
      ≡ (prm_present (p ∷ params) d || b)
unfolding prm_present lookup found
mark_or p params d b = ground arith

pub all_present-here :
    (required : List Dsc) (t : Store)
    → All (λ d. t.present d.key ≡ true) required
    → all_present required t ≡ ok tt
unfolding all_present
all_present-here [] t h = refl
all_present-here (d ∷ required) t (here, rest) = rw here (all_present-here required t rest)

pub required_present-here :
    (o : Option (List Dsc)) (t : Store)
    → All (λ d. t.present d.key ≡ true) (entries o)
    → required_present o t ≡ ok tt
unfolding required_present
required_present-here none t h = refl
required_present-here (some required) t h = all_present-here required t h

pub All_map {ℓ κ μ} :
    {A : Type ℓ} {P : A → Type κ} {Q : A → Type μ} (f : (x : A) → P x → Q x) (xs : List A)
    → All P xs
    → All Q xs
All_map f [] h = tt
All_map f (x ∷ xs) (here, h) = (f x here, All_map f xs h)

-- A parameter that a table of the definition or of the one it is based on names.
abbrev pub IsRecognized : Def → Def → Param → Type 0
IsRecognized base curr p =
    IsIn p.dsc (entries base.required)
    ⊎ IsIn p.dsc (entries base.optional)
    ⊎ IsIn p.dsc (entries curr.required)
    ⊎ IsIn p.dsc (entries curr.optional)

pub false≢true : false ≡ true → ⊥
false≢true e = cc

pub differ : (p q : ℕ) → (p == q) ≡ false → p ≢ q
differ p q other same = let equal = (==_iff p q).1 same in cc

pub guard_iff : (b : Bool) (e : Error) → (guard b e ≡ ok tt) ↔ (b ≡ true)
guard_iff true e = (λ h. refl, λ h. refl)
guard_iff false e = (λ h. absurd cc, λ h. absurd (false≢true h))

pub or_iff :
    {P Q : Type 0} (a b : Bool) → (a ≡ true) ↔ P → (b ≡ true) ↔ Q → ((a || b) ≡ true) ↔ (P ⊎ Q)
or_iff true b p q = (λ h. inl (p.0 refl), λ h. refl)
or_iff false b p q =
    (λ h. inr (q.0 h), λ h. elim h [ inl x ↦ absurd (false≢true (p.1 x)) | inr y ↦ q.1 y ])

pub check_recognized_iff :
    (p : Param) (base curr : Def)
    → (check_recognized p base curr ≡ ok tt) ↔ IsRecognized base curr p
unfolding check_recognized
check_recognized_iff p base curr =
    let table = λ (o : Option (List Dsc)). in_table p.dsc o in
    let member = λ (o : Option (List Dsc)). in_table_iff p.dsc o in
    let named = or_iff (table base.required) _ (member base.required) (
      or_iff (table base.optional) _ (member base.optional) (
        or_iff (table curr.required) (table curr.optional) (member curr.required)
          (member curr.optional))) in
    let passes =
      guard_iff
        (table base.required
          || (table base.optional || (table curr.required || table curr.optional)))
        Error.unrecognized in
    (λ h. named.0 (passes.0 h), λ h. passes.1 (named.1 h))
