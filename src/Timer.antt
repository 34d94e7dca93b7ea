-- ===== src/Timer.antt =====
-- tcsim/timer.c: the simulator's clock and its list of pending timers.
pub mod Order
pub mod Advance
pub mod Examples
use tcng.Common.{ℕ, zero, suc, Bool, true, false, List, [], ◌∷◌, Option, none, some}
use tcng.Common.{ltb, leb, ◌==◌, if◌then◌else◌}
use tcng.Jiffies.{Jiffval, Cmp, jiffval_cmp}

-- `struct timer_list`, less its link. `id` stands for its address, `data` for the argument of its
-- function.
pub record Timer : Type 0 where
  pub id : ℕ
  pub expires : ℕ
  pub expires_ujiffies : ℕ
  pub data_arg : ℕ

-- The static variables of timer.c: `now`, `jiffies`, `timers`.
pub record Clock : Type 0 where
  pub now : Jiffval
  pub jiffies : ℕ
  pub timers : List Timer

unfoldable pub timer_lt : Timer → Timer → Bool
timer_lt a b =
    if ltb a.expires b.expires
    then true
    else if ltb b.expires a.expires
    then false
    else ltb a.expires_ujiffies b.expires_ujiffies

unfoldable pub timer_le : Timer → Timer → Bool
timer_le a b =
    if ltb a.expires b.expires
    then true
    else if ltb b.expires a.expires
    then false
    else leb a.expires_ujiffies b.expires_ujiffies

-- The `struct timer_list tmp` that stands for a time.
abbrev pub at : Jiffval → Timer
at j = record { id = 0; expires = j.jiffies; expires_ujiffies = j.ujiffies; data_arg = 0 }

-- The walk of `add_hires_timer` to the first timer that is not `timer_le` the new one.
unfoldable pub insert_timer : Timer → List Timer → List Timer
insert_timer t [] = t ∷ []
insert_timer t (w ∷ ws) = if timer_le w t then w ∷ insert_timer t ws else t ∷ w ∷ ws

-- `none` is the error "timer before current time", which ends the program.
unfoldable pub add_hires_timer : Timer → Clock → Option Clock
add_hires_timer t c =
    if timer_lt t (at c.now) then none else some (record c { timers = insert_timer t c.timers })

unfoldable pub add_timer : Timer → Clock → Option Clock
add_timer t c = add_hires_timer (record t { expires_ujiffies = 0 }) c

-- The list without the first timer at an address.
unfoldable pub remove_timer : ℕ → List Timer → List Timer
remove_timer id [] = []
remove_timer id (w ∷ ws) = if w.id == id then ws else w ∷ remove_timer id ws

unfoldable pub pending : ℕ → List Timer → Bool
pending id [] = false
pending id (w ∷ ws) = if w.id == id then true else pending id ws

-- What `del_timer` returns, with the clock after it.
pub record Deleted : Type 0 where
  pub found : Bool
  pub clock : Clock

unfoldable pub del_timer : Timer → Clock → Deleted
del_timer t c = record {
  found = pending t.id c.timers;
  clock = record c { timers = remove_timer t.id c.timers };
}

unfoldable pub mod_timer : Timer → ℕ → Clock → Option Deleted
mod_timer t expires c =
    let d = del_timer t c in
    elim (add_timer (record t { expires = expires; expires_ujiffies = 0 }) d.clock) [
      | none ↦ none
      | some c' ↦ some (record { found = d.found; clock = c' })
    ]

-- The results of `advance_time`: -1 for a time in the past, or 0 with the clock at `next`.
pub data Advanced : Type 0 where
  past failed : Advanced
  done : Clock → List Timer → Advanced

-- The loop of `advance_time` up to `next`, with fuel. `fire` is what `this->function(this->data)`
-- and `kernel_poll` do to the clock, and `trace` the timers that fired, last first. `none` is an
-- error in a timer's function, or the end of the fuel.
module _ (fire : Timer → Clock → Option Clock) (next : Jiffval) where
  unfoldable pub fire_due : ℕ → Clock → List Timer → Option (Clock × List Timer)
  fire_due zero c trace = none
  fire_due (suc fuel) c trace = elim c.timers [
    | [] ↦ some (c, trace)
    | t ∷ ts ↦ elim (timer_le t (at next)) [
      | false ↦ some (c, trace)
      | true ↦
          elim (fire t (record {
            now = record { jiffies = t.expires; ujiffies = t.expires_ujiffies };
            jiffies = t.expires;
            timers = ts;
          })) [ none ↦ none | some c' ↦ fire_due fuel c' (t ∷ trace) ]
    ]
  ]

  unfoldable pub advance_time : ℕ → Clock → Advanced
  advance_time fuel c =
      let fired = fire_due fuel c [] in
      elim (jiffval_cmp next c.now) [
        | Cmp.before ↦ past
        | _ ↦ elim fired [
          | none ↦ failed
          | some (c', trace) ↦
              done (record { now = next; jiffies = next.jiffies; timers = c'.timers }) trace
        ]
      ]
