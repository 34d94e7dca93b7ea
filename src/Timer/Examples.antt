-- ===== src/Timer/Examples.antt =====
-- A clock with two timers, which fires them on its way to a later time.
use tcng.Common.{
  ℕ, ◌+◌, if◌then◌else◌, ◌<◌, ◌≡◌, refl, arith, true, List, [], ◌∷◌, Option, some, inl,
}
use tcng.Jiffies.{Jiffval}
use tcng.Timer.{Timer, Clock, insert_timer, add_hires_timer, del_timer, mod_timer, pending, Deleted}
use tcng.Timer.{at, advance_time, done, timer_le, timer_lt, add_timer, remove_timer}
use tcng.Timer.Order.{Le, IsClock}
use tcng.Timer.Advance.{IsCallback, Fired, advance_time-Fired}

abbrev soon : Timer
soon = record { id = 1; expires = 1; expires_ujiffies = 0; data_arg = 0 }

abbrev later : Timer
later = record { id = 2; expires = 2; expires_ujiffies = 5; data_arg = 0 }

abbrev between : Timer
between = record { id = 3; expires = 1; expires_ujiffies = 0; data_arg = 0 }

abbrev start : Clock
start = record {
  now = record { jiffies = 0; ujiffies = 0 };
  jiffies = 0;
  timers = soon ∷ later ∷ [];
}

abbrev with_between : Clock
with_between = record {
  now = record { jiffies = 0; ujiffies = 0 };
  jiffies = 0;
  timers = soon ∷ between ∷ later ∷ [];
}

abbrev moved : Deleted
moved = record {
  found = true;
  clock = record {
    now = record { jiffies = 0; ujiffies = 0 };
    jiffies = 0;
    timers = later ∷ (record soon { expires = 4 }) ∷ [];
  };
}

abbrev target : Jiffval
target = record { jiffies = 2; ujiffies = 0 }

soon-Le-later : Le soon later
soon-Le-later = inl (omega arith)

start-IsClock : IsClock start
start-IsClock = record {
  mirrors = refl;
  sorted = ((soon-Le-later, tt), (tt, tt));
  ahead = (inl (omega arith), (inl (omega arith), tt));
}

-- Timers whose functions leave the clock alone.
abbrev quiet : Timer → Clock → Option Clock
quiet t c = some c

-- How many timers fire up to a time.
abbrev due : Jiffval → List Timer → ℕ
due next [] = 0
due next (t ∷ ts) = (if timer_le t (at next) then 1 else 0) + due next ts

abbrev still_due : Clock → ℕ
still_due c = due target c.timers

quiet-IsCallback : IsCallback quiet target still_due
unfolding timer_le
quiet-IsCallback = record {
  result = λ t c. c;
  returns = λ t c. refl;
  keeps = λ t c h. h;
  keeps_now = λ t c. refl;
  works = λ now jiffies t ts e. ground arith;
}

due_start : due target start.timers < 5
unfolding timer_le
due_start = omega arith

advance_time-Fired_example :
    (c' : Clock) × (trace : List Timer) × (advance_time quiet target 5 start ≡ done c' trace)
    × (c'.now ≡ target)
    × Fired target c' trace
advance_time-Fired_example =
    advance_time-Fired quiet-IsCallback 5 start start-IsClock (inl (omega arith)) due_start

added_between : add_hires_timer between start ≡ some with_between
unfolding add_hires_timer insert_timer timer_le timer_lt
added_between = refl

moved-soon : mod_timer soon 4 start ≡ some moved
unfolding mod_timer del_timer remove_timer pending add_timer add_hires_timer insert_timer timer_le
    timer_lt
moved-soon = refl
