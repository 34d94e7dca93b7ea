-- ===== src/Param/Members.antt =====
-- The loops of tcc/param.c over parameters and tables, as membership.
use mathlib.Core.List.{Memᴰ}
use tcng.Common.{ℕ, ◌≡◌, refl, sym, ◌∙◌, ◌↔◌, inl, inr, Bool, true, false, Bool-cases, ◌==◌, ==_iff}
use tcng.Common.{List, [], ◌∷◌, Option, none, some, map, if◌then◌else◌}
use tcng.Param.{
  Dsc, Param, walk_params, walk_table, walk_given, walk, in_table, lookup, found, prm_present,
}

-- A descriptor of a table, and one of a list of parameters, by its address.
abbrev pub IsIn : Dsc → List Dsc → Type 0
IsIn d table = Memᴰ d.key (map (λ (t : Dsc). t.key) table)

abbrev pub IsGiven : List Param → Dsc → Type 0
IsGiven params d = Memᴰ d.key (map (λ (p : Param). p.dsc.key) params)

-- The descriptors of a table that may be missing.
abbrev pub entries : Option (List Dsc) → List Dsc
entries none = []
entries (some table) = table

false≢true : false ≡ true → ⊥
false≢true e = cc

further : (here : Bool) {there : Bool} → there ≡ true → (if here then true else there) ≡ true
further true h = refl
further false h = h

-- A loop that ends at the first entry with an address.
module _ {A : Type 0} (key : A → ℕ) (k : ℕ) (loop : List A → Bool) (at_nil : loop [] ≡ false)
    (at_cons : (x : A) (xs : List A) → loop (x ∷ xs) ≡ (if key x == k then true else loop xs)) where
  loop-mem : (xs : List A) → loop xs ≡ true → Memᴰ k (map key xs)
  loop-mem [] h = absurd (false≢true (sym at_nil ∙ h))
  loop-mem (x ∷ xs) h = elim (Bool-cases (key x == k)) [
    | inl same ↦ Memᴰ.head (sym ((==_iff (key x) k).0 same))
    | inr other ↦
        let later : loop xs ≡ true = rw (other) at (sym (at_cons x xs) ∙ h) in
        Memᴰ.tail (loop-mem xs later)
  ]

  mem-loop : (xs : List A) → Memᴰ k (map key xs) → loop xs ≡ true
  mem-loop [] h = elim h [ ]
  mem-loop (x ∷ xs) (Memᴰ.head e) =
      let here : (key x == k) ≡ true = (==_iff (key x) k).1 (sym e) in at_cons x xs ∙ rw (here) refl
  mem-loop (x ∷ xs) (Memᴰ.tail h) = at_cons x xs ∙ further (key x == k) (mem-loop xs h)

  loop_iff : (xs : List A) → (loop xs ≡ true) ↔ Memᴰ k (map key xs)
  loop_iff xs = (loop-mem xs, mem-loop xs)

pub walk_table_iff : (table : List Dsc) (d : Dsc) → (walk_table table d ≡ true) ↔ IsIn d table
unfolding walk_table
walk_table_iff table d =
    loop_iff (λ (t : Dsc). t.key) d.key (λ (ts : List Dsc). walk_table ts d) refl (λ t ts. refl)
      table

pub walk_params_iff :
    (params : List Param) (d : Dsc) → (walk_params params d ≡ true) ↔ IsGiven params d
unfolding walk_params
walk_params_iff params d =
    loop_iff (λ (p : Param). p.dsc.key) d.key (λ (ps : List Param). walk_params ps d) refl
      (λ p ps. refl) params

pub prm_present_iff :
    (params : List Param) (d : Dsc) → (prm_present params d ≡ true) ↔ IsGiven params d
unfolding prm_present lookup found
prm_present_iff params d =
    loop_iff (λ (p : Param). p.dsc.key) d.key (λ (ps : List Param). prm_present ps d) refl
      (λ p ps. found_if (p.dsc.key == d.key) p (lookup ps d)) params
  where
    found_if :
        (here : Bool) (p : Param) (o : Option Param)
        → found (if here then some p else o) ≡ (if here then true else found o)
    found_if true p o = refl
    found_if false p o = refl

pub walk_given_iff :
    (o : Option (List Dsc)) (d : Dsc) → (walk_given o d ≡ true) ↔ IsIn d (entries o)
unfolding walk_given
walk_given_iff none d = (λ h. absurd (false≢true h), λ h. elim h [ ])
walk_given_iff (some table) d = walk_table_iff table d

pub in_table_iff : (d : Dsc) (o : Option (List Dsc)) → (in_table d o ≡ true) ↔ IsIn d (entries o)
unfolding in_table walk
in_table_iff d none = (λ h. absurd (false≢true h), λ h. elim h [ ])
in_table_iff d (some table) =
    loop_iff (λ (t : Dsc). t.key) d.key (λ (ts : List Dsc). walk ts d) refl (λ t ts. refl) table
