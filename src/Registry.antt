-- ===== src/Registry.antt =====
-- tcc/registry.c: named switches, and `set_warn_switch` of tcc/error.c, which keeps one registry.
pub mod Find
pub mod Locks
pub mod Examples
use tcng.Common.{ℕ, zero, suc, ◌+◌, Bool, true, false, ◌&&◌, ◌==◌, if◌then◌else◌}
use tcng.Common.{List, [], ◌∷◌, Option, none, some, Result, ok, err, Error}

-- A C string.
abbrev pub Name : Type 0
Name = List ℕ

-- `!strcmp(a,b)`
unfoldable pub same_name : Name → Name → Bool
same_name [] [] = true
same_name [] (d ∷ b) = false
same_name (c ∷ a) [] = false
same_name (c ∷ a) (d ∷ b) = c == d && same_name a b

-- Where a flag is stored: a variable of the caller, by its address, or in `local_flags`.
pub data Cell : Type 0 where
  variable local_flag : ℕ → Cell

unfoldable pub same_cell : Cell → Cell → Bool
same_cell (Cell.variable a) (Cell.variable b) = a == b
same_cell (Cell.local_flag a) (Cell.local_flag b) = a == b
same_cell (Cell.variable a) (Cell.local_flag b) = false
same_cell (Cell.local_flag a) (Cell.variable b) = false

-- `REGISTRY`, with `flags` and `locked` by position.
pub record Registry : Type 0 where
  pub names : List Name
  pub flags : ℕ → Cell
  pub locked : ℕ → Bool

-- A registry and the ints that its flags point to.
pub record State : Type 0 where
  pub reg : Registry
  pub memory : Cell → ℕ

unfoldable pub store : Cell → ℕ → (Cell → ℕ) → Cell → ℕ
unfolding same_cell
store c v m d = if same_cell d c then v else m d

-- One entry: where the caller has no variable for it, it is local, and 0.
unfoldable pub open_flag : ℕ → Option ℕ → State → State
unfolding store
open_flag i (some a) s = record s {
  reg = record s.reg { flags = λ j. if j == i then Cell.variable a else s.reg.flags j };
}
open_flag i none s = record s {
  reg = record s.reg { flags = λ j. if j == i then Cell.local_flag i else s.reg.flags j };
  memory = store (Cell.local_flag i) 0 s.memory;
}

unfoldable pub open_flags : List Name → ℕ → (ℕ → Option ℕ) → State → State
unfolding open_flag
open_flags [] i variables s = s
open_flags (n ∷ names) i variables s =
    open_flags names (suc i) variables (open_flag i (variables i) s)

-- `variables` is `flags`, with nothing in it for the null pointer.
unfoldable pub registry_open : List Name → (ℕ → Option ℕ) → (Cell → ℕ) → State
unfolding open_flags
registry_open names variables memory = open_flags names 0 variables (record {
  reg = record { names = names; flags = λ i. Cell.local_flag i; locked = λ i. false };
  memory = memory;
})

-- -1 is `none`.
unfoldable pub find_from : ℕ → List Name → Name → Option ℕ
unfolding same_name
find_from i [] name = none
find_from i (n ∷ names) name = if same_name n name then some i else find_from (suc i) names name

unfoldable pub registry_find : Registry → Name → Option ℕ
unfolding find_from
registry_find r name = find_from 0 r.names name

-- What `registry_set` and its like return, 0 or -1, and the state after it.
pub data Status : Type 0 where
  done unknown : Status

unfoldable pub write : ℕ → Name → State → Status × State
unfolding registry_find store
write v name s = elim (registry_find s.reg name) [
  | none ↦ (Status.unknown, s)
  | some i ↦ (
    Status.done,
    if s.reg.locked i then s else record s { memory = store (s.reg.flags i) v s.memory },
  )
]

unfoldable pub registry_set : Name → State → Status × State
unfolding write
registry_set name s = write 1 name s

unfoldable pub registry_clear : Name → State → Status × State
unfolding write
registry_clear name s = write 0 name s

-- `strncmp(name,"no",2)`, and what stands behind "no".
unfoldable pub without_no : Name → Option Name
without_no [] = none
without_no (n ∷ []) = none
without_no (n ∷ o ∷ name) = if n == 110 && o == 111 then some name else none

unfoldable pub registry_set_no : Name → State → Status × State
unfolding registry_set registry_clear without_no
registry_set_no name s = elim (without_no name) [
  | none ↦ registry_set name s
  | some rest ↦ registry_clear rest s
]

unfoldable pub registry_lock : Name → State → Status × State
unfolding registry_find
registry_lock name s = elim (registry_find s.reg name) [
  | none ↦ (Status.unknown, s)
  | some i ↦ (
    Status.done,
    record s { reg = record s.reg { locked = λ j. if j == i then true else s.reg.locked j } },
  )
]

unfoldable pub registry_probe : Name → State → Result ℕ
unfolding registry_find
registry_probe name s = elim (registry_find s.reg name) [
  | none ↦ err Error.fault
  | some i ↦ ok (s.memory (s.reg.flags i))
]

-- `strncmp(arg,"no",2) ? arg : arg+2`
unfoldable pub switch : Name → Name
unfolding without_no
switch arg = elim (without_no arg) [ none ↦ arg | some rest ↦ rest ]

-- `if (lock && registry_lock(...)) abort();`
unfoldable pub locked_or_abort : Status × State → Result (Bool × State)
locked_or_abort (Status.unknown, s) = err Error.fault
locked_or_abort (Status.done, s) = ok (true, s)

-- `set_warn_switch` once `registry_set_no` has returned.
unfoldable pub warned : Name → Bool → Status × State → Result (Bool × State)
unfolding registry_lock switch locked_or_abort
warned arg lock (Status.unknown, s) = ok (false, s)
warned arg false (Status.done, s) = ok (true, s)
warned arg true (Status.done, s) = locked_or_abort (registry_lock (switch arg) s)

-- `set_warn_switch` after its registry is open: 0 for a switch that is not known, 1 else.
unfoldable pub set_warn_switch : Name → Bool → State → Result (Bool × State)
unfolding registry_set_no warned
set_warn_switch arg lock s = warned arg lock (registry_set_no arg s)
