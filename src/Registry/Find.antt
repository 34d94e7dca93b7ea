-- ===== src/Registry/Find.antt =====
-- registry_open, and what registry_probe finds after registry_set_no, in tcc/registry.c.
use mathlib.Core.Path.{subst}
use tcng.Common.{ℕ, suc, ◌≡◌, refl, sym, ap, ◌∙◌, true, false, Bool-cases, inl, inr, ◌⊎◌}
use tcng.Common.{◌==◌, ==_iff, List, [], ◌∷◌, Option, none, some, ok}
use tcng.Common.{if◌then◌else◌}
use tcng.Registry.{Name, Cell, State, Registry, Status, same_cell, store, registry_find, write}
use tcng.Registry.{registry_set_no, registry_probe, switch, open_flag, open_flags, registry_open}
use tcng.Registry.Locks.{wanted, IsSeparate, registry_set_no_lem, same_cell_refl, write-reg}

written :
    (v : ℕ) (name : Name) (s : State) (i : ℕ)
    → registry_find s.reg name ≡ some i
    → s.reg.locked i ≡ false
    → (write v name s).1.memory (s.reg.flags i) ≡ v
unfolding write store
written v name s i e l = rw (e, l, write, store, same_cell_refl (s.reg.flags i)) refl

-- A switch that is not locked holds what was last set.
pub registry_probe-registry_set_no :
    (arg : Name) (s : State) (i : ℕ)
    → registry_find s.reg (switch arg) ≡ some i
    → s.reg.locked i ≡ false
    → registry_probe (switch arg) (registry_set_no arg s).1 ≡ ok (wanted arg)
unfolding registry_probe
registry_probe-registry_set_no arg s i e l =
    let s1 = (write (wanted arg) (switch arg) s).1 in
    let same = write-reg (wanted arg) (switch arg) s in
    let found : registry_find s1.reg (switch arg) ≡ some i =
      ap (λ (r : Registry). registry_find r (switch arg)) same ∙ e in
    let value : s1.memory (s1.reg.flags i) ≡ wanted arg =
      ap (λ (r : Registry). s1.memory (r.flags i)) same
      ∙ written (wanted arg) (switch arg) s i e l in
    ap (λ (ended : Status × State). registry_probe (switch arg) ended.1) (registry_set_no_lem arg s)
    ∙ rw (found, registry_probe) (ap ok value)

-- Where registry_open puts the flags.
abbrev Placed : (ℕ → Option ℕ) → State → Type 0
Placed variables s =
    (j : ℕ)
    → (s.reg.flags j ≡ Cell.local_flag j)
      ⊎ ((a : ℕ) × (variables j ≡ some a) × (s.reg.flags j ≡ Cell.variable a))

Placed-flag :
    (i : ℕ) (c : Cell) (variables : ℕ → Option ℕ) (s : State) (memory : Cell → ℕ)
    → Placed variables s
    → (c ≡ Cell.local_flag i) ⊎ ((a : ℕ) × (variables i ≡ some a) × (c ≡ Cell.variable a))
    → Placed variables (record s {
      reg = record s.reg { flags = λ j. if j == i then c else s.reg.flags j };
      memory = memory;
    })
Placed-flag i c variables s memory placed here j = elim (Bool-cases (j == i)) [
  | inl e ↦ let same : i ≡ j = sym ((==_iff j i).0 e) in rw (e, ← same) here
  | inr e ↦ rw e (placed j)
]

open_flag-Placed :
    (i : ℕ) (o : Option ℕ) (variables : ℕ → Option ℕ) (s : State)
    → Placed variables s
    → variables i ≡ o
    → Placed variables (open_flag i o s)
unfolding open_flag
open_flag-Placed i (some a) variables s placed e =
    Placed-flag i (Cell.variable a) variables s s.memory placed (inr (a, e, refl))
open_flag-Placed i none variables s placed e =
    Placed-flag i (Cell.local_flag i) variables s (store (Cell.local_flag i) 0 s.memory) placed
      (inl refl)

open_flags-Placed :
    (names : List Name) (i : ℕ) (variables : ℕ → Option ℕ) (s : State)
    → Placed variables s
    → Placed variables (open_flags names i variables s)
unfolding open_flags
open_flags-Placed [] i variables s placed = placed
open_flags-Placed (n ∷ names) i variables s placed =
    open_flags-Placed names (suc i) variables (open_flag i (variables i) s)
      (open_flag-Placed i (variables i) variables s placed refl)

abbrev At : (ℕ → Option ℕ) → ℕ → Cell → Type 0
At variables i c =
    (c ≡ Cell.local_flag i) ⊎ ((a : ℕ) × (variables i ≡ some a) × (c ≡ Cell.variable a))

same_cell-At :
    (variables : ℕ → Option ℕ) (i j : ℕ) (c d : Cell)
    → ((i j a : ℕ) → variables i ≡ some a → variables j ≡ some a → i ≡ j)
    → At variables i c
    → At variables j d
    → same_cell c d ≡ true
    → i ≡ j
unfolding same_cell
same_cell-At variables i j c d once (inl e) (inl f) same = (==_iff i j).0 (
    subst (λ x. same_cell x (Cell.local_flag j) ≡ true) e
      (subst (λ y. same_cell c y ≡ true) f same))
same_cell-At variables i j c d once (inl e) (inr (b, v, f)) same =
    let no_match : same_cell (Cell.local_flag i) (Cell.variable b) ≡ true =
      subst (λ x. same_cell x (Cell.variable b) ≡ true) e
        (subst (λ y. same_cell c y ≡ true) f same) in
    absurd cc
same_cell-At variables i j c d once (inr (a, u, e)) (inl f) same =
    let no_match : same_cell (Cell.variable a) (Cell.local_flag j) ≡ true =
      subst (λ x. same_cell x (Cell.local_flag j) ≡ true) e
        (subst (λ y. same_cell c y ≡ true) f same) in
    absurd cc
same_cell-At variables i j c d once (inr (a, u, e)) (inr (b, v, f)) same =
    let match_of : same_cell (Cell.variable a) (Cell.variable b) ≡ true =
      subst (λ x. same_cell x (Cell.variable b) ≡ true) e
        (subst (λ y. same_cell c y ≡ true) f same) in
    let eq : a ≡ b = (==_iff a b).0 match_of in once i j a u (v ∙ ap (λ (t : ℕ). some t) (sym eq))

-- A registry with a variable of its own for each switch that has one.
pub registry_open-IsSeparate :
    (names : List Name) (variables : ℕ → Option ℕ) (memory : Cell → ℕ)
    → ((i j a : ℕ) → variables i ≡ some a → variables j ≡ some a → i ≡ j)
    → IsSeparate (registry_open names variables memory)
unfolding registry_open same_cell
registry_open-IsSeparate names variables memory once i j same =
    let start : State = record {
      reg = record { names = names; flags = λ i. Cell.local_flag i; locked = λ i. false };
      memory = memory;
    } in
    let placed = open_flags-Placed names 0 variables start (λ j. inl refl) in
    same_cell-At variables i j _ _ once (placed i) (placed j) same
