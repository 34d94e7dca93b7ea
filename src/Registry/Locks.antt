-- ===== src/Registry/Locks.antt =====
-- Locked switches of tcc/registry.c stay as they are.
use tcng.Common.{ℕ, ◌≡◌, refl, sym, ap, ◌∙◌, arith, Bool, true, false, Bool-cases, inl, inr, ◌==◌}
use tcng.Common.{List, [], ◌∷◌, none, some, Option-cases, Result, ok, ◌>>=◌, if◌then◌else◌}
use mathlib.Core.Path.{subst}
use tcng.Registry.{Name, Cell, State, Status, Registry, same_cell, store, registry_find, write}
use tcng.Registry.{registry_set, registry_clear, without_no, registry_set_no, registry_lock}
use tcng.Registry.{registry_probe, switch, set_warn_switch, warned, locked_or_abort}

-- The value that an argument stands for.
unfoldable pub wanted : Name → ℕ
unfolding without_no
wanted arg = elim (without_no arg) [ none ↦ 1 | some rest ↦ 0 ]

-- No two switches have the same cell.
abbrev pub IsSeparate : State → Type 0
IsSeparate s = (i j : ℕ) → same_cell (s.reg.flags i) (s.reg.flags j) ≡ true → i ≡ j

-- `registry_set_no` writes what the argument stands for.
pub registry_set_no_lem :
    (arg : Name) (s : State) → registry_set_no arg s ≡ write (wanted arg) (switch arg) s
unfolding registry_set_no registry_set registry_clear wanted switch
registry_set_no_lem arg s = elim (Option-cases (without_no arg)) [
  | inl e ↦ rw (e, registry_set_no, wanted, switch) refl
  | inr (rest, e) ↦ rw (e, registry_set_no, wanted, switch) refl
]

-- The switches and the locks stay.
pub write-reg : (v : ℕ) (name : Name) (s : State) → (write v name s).1.reg ≡ s.reg
unfolding write
write-reg v name s = elim (Option-cases (registry_find s.reg name)) [
  | inl e ↦ rw (e, write) refl
  | inr (i, e) ↦ elim (Bool-cases (s.reg.locked i)) [
    | inl l ↦ rw (e, l, write) refl
    | inr l ↦ rw (e, l, write) refl
  ]
]

pub same_cell_refl : (c : Cell) → same_cell c c ≡ true
unfolding same_cell
same_cell_refl (Cell.variable a) = ground arith
same_cell_refl (Cell.local_flag a) = ground arith

-- What a write leaves in a cell of a locked switch.
write-locked :
    (v : ℕ) (name : Name) (s : State) (i : ℕ)
    → IsSeparate s
    → s.reg.locked i ≡ true
    → (write v name s).1.memory (s.reg.flags i) ≡ s.memory (s.reg.flags i)
unfolding write store
write-locked v name s i apart locked = elim (Option-cases (registry_find s.reg name)) [
  | inl e ↦ rw (e, write) refl
  | inr (j, e) ↦ elim (Bool-cases (s.reg.locked j)) [
    | inl l ↦ rw (e, l, write) refl
    | inr l ↦ elim (Bool-cases (same_cell (s.reg.flags i) (s.reg.flags j))) [
      | inl hit ↦
          let same = apart i j hit in
          let both : true ≡ false = sym locked ∙ ap s.reg.locked same ∙ l in absurd cc
      | inr miss ↦ rw (e, l, write, store, miss) refl
    ]
  ]
]

-- A call of set_warn_switch, from the command line or from a pragma.
abbrev pub Call : Type 0
Call = Name × Bool

unfoldable pub run_calls : List Call → State → Result State
unfolding set_warn_switch warned locked_or_abort
run_calls [] s = ok s
run_calls ((arg, lock) ∷ calls) s =
    set_warn_switch arg lock s >>= λ (ended : Bool × State). run_calls calls ended.1

-- How a call ends: the flags are where they were, and locks are only added.
pub record Kept (s s' : State) : Type 0 where
  pub names : s'.reg.names ≡ s.reg.names
  pub flags : s'.reg.flags ≡ s.reg.flags
  pub locks : (i : ℕ) → s.reg.locked i ≡ true → s'.reg.locked i ≡ true
  pub values :
      (i : ℕ)
      → IsSeparate s
      → s.reg.locked i ≡ true
      → s'.memory (s.reg.flags i) ≡ s.memory (s.reg.flags i)

Kept-write : (v : ℕ) (name : Name) (s : State) → Kept s (write v name s).1
Kept-write v name s =
    let e = write-reg v name s in
    record {
      names = ap (λ (r : Registry). r.names) e;
      flags = ap (λ (r : Registry). r.flags) e;
      locks = λ i l. ap (λ (r : Registry). r.locked i) e ∙ l;
      values = λ i apart l. write-locked v name s i apart l;
    }

Kept-refl : (s : State) → Kept s s
Kept-refl s = record { names = refl; flags = refl; locks = λ i l. l; values = λ i apart l. refl }

write-unknown :
    (v : ℕ) (name : Name) (s : State)
    → registry_find s.reg name ≡ none
    → write v name s ≡ (Status.unknown, s)
unfolding write
write-unknown v name s e = rw (e, write) refl

write-done :
    (v : ℕ) (name : Name) (s : State) (i : ℕ)
    → registry_find s.reg name ≡ some i
    → write v name s ≡ (Status.done, (write v name s).1)
unfolding write
write-done v name s i e = elim (Bool-cases (s.reg.locked i)) [
  | inl l ↦ rw (e, l, write) refl
  | inr l ↦ rw (e, l, write) refl
]

-- The state with a switch locked.
abbrev pub with_lock : ℕ → State → State
with_lock i s = record s {
  reg = record s.reg { locked = λ j. if j == i then true else s.reg.locked j };
}

with_lock-here : (i : ℕ) (s : State) → (with_lock i s).reg.locked i ≡ true
with_lock-here i s = ground arith

registry_lock_lem :
    (name : Name) (s : State) (i : ℕ)
    → registry_find s.reg name ≡ some i
    → registry_lock name s ≡ (Status.done, with_lock i s)
unfolding registry_lock
registry_lock_lem name s i e = rw (e, registry_lock) refl

Kept-with_lock : (i : ℕ) (s s' : State) → Kept s s' → Kept s (with_lock i s')
Kept-with_lock i s s' k = record {
  names = k.names;
  flags = k.flags;
  locks = λ j l. elim (Bool-cases (j == i)) [ inl e ↦ rw e refl | inr e ↦ rw e (k.locks j l) ];
  values = k.values;
}

-- A call with a lock on a switch that is known.
pub set_warn_switch-lock :
    (arg : Name) (s : State) (i : ℕ)
    → registry_find s.reg (switch arg) ≡ some i
    → set_warn_switch arg true s ≡ ok (true, with_lock i (write (wanted arg) (switch arg) s).1)
unfolding set_warn_switch warned locked_or_abort
set_warn_switch-lock arg s i e =
    let s1 = (write (wanted arg) (switch arg) s).1 in
    let found : registry_find s1.reg (switch arg) ≡ some i =
      ap (λ (r : Registry). registry_find r (switch arg)) (write-reg (wanted arg) (switch arg) s)
      ∙ e in
    let finished = write-done (wanted arg) (switch arg) s i e in
    ap (warned arg true) (registry_set_no_lem arg s ∙ finished)
    ∙ ap locked_or_abort (registry_lock_lem (switch arg) s1 i found)

-- The abort in set_warn_switch is never reached.
pub set_warn_switch-Kept :
    (arg : Name) (lock : Bool) (s : State)
    → (known : Bool) × (s' : State) × (set_warn_switch arg lock s ≡ ok (known, s')) × Kept s s'
unfolding set_warn_switch warned locked_or_abort
set_warn_switch-Kept arg lock s =
    let s1 = (write (wanted arg) (switch arg) s).1 in
    let kept = Kept-write (wanted arg) (switch arg) s in
    elim (Option-cases (registry_find s.reg (switch arg))) [
      | inl e ↦
          let missed : write (wanted arg) (switch arg) s ≡ (Status.unknown, s) =
            write-unknown (wanted arg) (switch arg) s e in
          (false, s, ap (warned arg lock) (registry_set_no_lem arg s ∙ missed), Kept-refl s)
      | inr (i, e) ↦
          elim lock
            as (λ l.
              (known : Bool) × (s' : State) × (set_warn_switch arg l s ≡ ok (known, s'))
              × Kept s s') [
                | false ↦ (
                  true,
                  s1,
                  ap (warned arg false)
                      (registry_set_no_lem arg s ∙ write-done (wanted arg) (switch arg) s i e),
                  kept,
                )
                | true ↦ (
                  true,
                  with_lock i s1,
                  set_warn_switch-lock arg s i e,
                  Kept-with_lock i s s1 kept,
                )
              ]
    ]

IsSeparate-Kept : (s s' : State) → Kept s s' → IsSeparate s → IsSeparate s'
IsSeparate-Kept s s' k apart =
    subst (λ (f : ℕ → Cell). (i j : ℕ) → same_cell (f i) (f j) ≡ true → i ≡ j) (sym k.flags) apart

registry_find-Kept :
    (s s' : State) (name : Name) (i : ℕ)
    → Kept s s'
    → registry_find s.reg name ≡ some i
    → registry_find s'.reg name ≡ some i
unfolding registry_find
registry_find-Kept s s' name i k e = rw k.names e

Kept-Kept : (s s1 s2 : State) → Kept s s1 → Kept s1 s2 → Kept s s2
Kept-Kept s s1 s2 k k2 = record {
  names = k2.names ∙ k.names;
  flags = k2.flags ∙ k.flags;
  locks = λ i l. k2.locks i (k.locks i l);
  values = λ i apart l.
      ap (λ (f : ℕ → Cell). s2.memory (f i)) (sym k.flags)
      ∙ k2.values i (IsSeparate-Kept s s1 k apart) (k.locks i l)
      ∙ ap (λ (f : ℕ → Cell). s1.memory (f i)) k.flags
      ∙ k.values i apart l;
}

-- Calls, one after the other.
pub run_calls-Kept :
    (calls : List Call) (s : State) → (s' : State) × (run_calls calls s ≡ ok s') × Kept s s'
unfolding run_calls
run_calls-Kept [] s = (s, refl, Kept-refl s)
run_calls-Kept ((arg, lock) ∷ calls) s =
    let (known, s1, runs, k) = set_warn_switch-Kept arg lock s in
    let (s2, later, k2) = run_calls-Kept calls s1 in (s2, rw runs later, Kept-Kept s s1 s2 k k2)

-- For a registry in which no two switches share a variable, and an argument for a switch that it
-- has: set_warn_switch with a lock returns 1, any calls of set_warn_switch after it return
-- without reaching the abort, and registry_probe of the switch is after them what it was before.
pub registry_probe-run_calls :
    (arg : Name) (calls : List Call) (s : State) (i : ℕ)
    → IsSeparate s
    → registry_find s.reg (switch arg) ≡ some i
    → (s1 : State) × (s2 : State) × (set_warn_switch arg true s ≡ ok (true, s1))
      × (run_calls calls s1 ≡ ok s2)
      × (registry_probe (switch arg) s2 ≡ registry_probe (switch arg) s1)
unfolding registry_probe
registry_probe-run_calls arg calls s i apart e =
    let s0 = (write (wanted arg) (switch arg) s).1 in
    let s1 = with_lock i s0 in
    let k0 = Kept-with_lock i s s0 (Kept-write (wanted arg) (switch arg) s) in
    let (s2, runs, k) = run_calls-Kept calls s1 in
    let found = registry_find-Kept s s1 (switch arg) i k0 e in
    let found2 = registry_find-Kept s1 s2 (switch arg) i k found in
    let held : s2.memory (s2.reg.flags i) ≡ s1.memory (s1.reg.flags i) =
      ap (λ (f : ℕ → Cell). s2.memory (f i)) k.flags
      ∙ k.values i (IsSeparate-Kept s s1 k0 apart) (with_lock-here i s0) in
    (s1, s2, set_warn_switch-lock arg s i e, runs, rw (found2, found, registry_probe, held) refl)
