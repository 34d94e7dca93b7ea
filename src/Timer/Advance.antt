-- ===== src/Timer/Advance.antt =====
-- advance_time of tcsim/timer.c: the timers that fire, and the clock after it.
use mathlib.Core.Path.{subst}
use tcng.Common.{ℕ, zero, suc, ◌<◌, ◌≡◌, arith, refl, sym, true, false, All}
use tcng.Common.{List, [], ◌∷◌, Option, some, inl, inr, Bool-cases}
use tcng.Jiffies.{Jiffval, jiffval_cmp}
use tcng.Timer.{Timer, Clock, timer_le, at, fire_due, advance_time, past, done}
use tcng.Timer.Order.{Le, IsClock, timer_le_iff, Le-trans, All-not_le}

-- What a timer's function may do while time advances to `next`: add and delete timers, also timers
-- that are due by `next`, as long as `work`, a bound on what is left to do by then, falls. It does
-- not move the clock.
pub record IsCallback (fire : Timer → Clock → Option Clock) (next : Jiffval) (work : Clock → ℕ)
    : Type 0 where
  pub result : Timer → Clock → Clock
  pub returns : (t : Timer) (c : Clock) → fire t c ≡ some (result t c)
  pub keeps : (t : Timer) (c : Clock) → IsClock c → IsClock (result t c)
  pub keeps_now : (t : Timer) (c : Clock) → (result t c).now ≡ c.now
  pub works :
      (now : Jiffval) (jiffies : ℕ) (t : Timer) (ts : List Timer)
      → timer_le t (at next) ≡ true
      → work (
          result t (record {
            now = record { jiffies = t.expires; ujiffies = t.expires_ujiffies };
            jiffies = t.expires;
            timers = ts;
          }))
        < work (record { now = now; jiffies = jiffies; timers = t ∷ ts })

-- Timers that fired, last first.
abbrev pub Latest : List Timer → Type 0
Latest [] = Unit
Latest (t ∷ ts) = All (λ u. Le u t) ts × Latest ts

-- What the loop leaves.
pub record Fired (next : Jiffval) (c : Clock) (trace : List Timer) : Type 0 where
  pub clock : IsClock c
  pub rest : All (λ t. ¬ Le t (at next)) c.timers
  pub order : Latest trace
  pub in_time : All (λ t. Le t (at next)) trace

All-earlier : (t u : Timer) (ts : List Timer) → Le u t → All (λ w. Le w u) ts → All (λ w. Le w t) ts
All-earlier t u [] h k = tt
All-earlier t u (w ∷ ws) h k = (Le-trans w u t k.0 h, All-earlier t u ws h k.1)

Le-refl : (t : Timer) → Le t t
Le-refl t = omega arith

not_due : (t : Timer) (next : Jiffval) → timer_le t (at next) ≡ false → ¬ Le t (at next)
unfolding timer_le
not_due t next e = ground arith

All-ahead :
    (next : Jiffval) (ts : List Timer)
    → All (λ t. ¬ Le t (at next)) ts
    → All (λ t. Le (at next) t) ts
All-ahead next [] h = tt
All-ahead next (t ∷ ts) h = (ground arith, All-ahead next ts h.1)

module _ (fire : Timer → Clock → Option Clock) (next now : Jiffval) (fuel jiffies : ℕ) (t : Timer)
    (ts trace : List Timer) where
  abbrev before_it : Clock
  before_it = record { now = now; jiffies = jiffies; timers = t ∷ ts }

  abbrev at_its_time : Clock
  at_its_time = record {
    now = record { jiffies = t.expires; ujiffies = t.expires_ujiffies };
    jiffies = t.expires;
    timers = ts;
  }

  fire_due-suc :
      {c' : Clock}
      → timer_le t (at next) ≡ true
      → fire t at_its_time ≡ some c'
      → fire_due fire next (suc fuel) before_it trace ≡ fire_due fire next fuel c' (t ∷ trace)
  unfolding fire_due
  fire_due-suc e f = ground arith

  fire_due_stop :
      timer_le t (at next) ≡ false
      → fire_due fire next (suc fuel) before_it trace ≡ some (before_it, trace)
  unfolding fire_due
  fire_due_stop e = ground arith

module _ {fire : Timer → Clock → Option Clock} {next : Jiffval} {work : Clock → ℕ}
    (cb : IsCallback fire next work) where
  fire_due_lem :
      (fuel : ℕ) (now : Jiffval) (jiffies : ℕ) (ts trace : List Timer)
      → work (record { now = now; jiffies = jiffies; timers = ts }) < fuel
      → IsClock (record { now = now; jiffies = jiffies; timers = ts })
      → Latest trace
      → All (λ t. Le t (at next)) trace
      → All (λ t. Le t (at now)) trace
      → (c : Clock) × (trace' : List Timer) × (fire_due fire next fuel
            (record { now = now; jiffies = jiffies; timers = ts })
            trace
          ≡ some (c, trace'))
        × Fired next c trace'
  unfolding fire_due
  fire_due_lem zero now jiffies ts trace enough inv order in_time passed = elim enough [ ]
  fire_due_lem (suc fuel) now jiffies [] trace enough inv order in_time passed = (
    record { now = now; jiffies = jiffies; timers = [] },
    trace,
    refl,
    record { clock = inv; rest = tt; order = order; in_time = in_time },
  )
  fire_due_lem (suc fuel) now jiffies (t ∷ ts) trace enough inv order in_time passed =
      elim (Bool-cases (timer_le t (at next))) [
        | inl e ↦
            let c0 = at_its_time fire next now fuel jiffies t ts trace in
            let inv0 : IsClock c0 = (record {
              mirrors = refl;
              sorted = inv.sorted.1;
              ahead = inv.sorted.0;
            }) in
            let c1 = cb.result t c0 in
            let fewer = cb.works now jiffies t ts e in
            let le_next = (timer_le_iff t (at next)).0 e in
            let passed' = All-earlier t (at now) trace inv.ahead.0 passed in
            rw (fire_due-suc fire next now fuel jiffies t ts trace e (cb.returns t c0)) (
              fire_due_lem fuel c1.now c1.jiffies c1.timers (t ∷ trace) (omega arith)
                (cb.keeps t c0 inv0) (passed', order) (le_next, in_time)
                (subst (λ n. All (λ w. Le w (at n)) (t ∷ trace)) (sym (cb.keeps_now t c0))
                  (Le-refl t, passed')))
        | inr e ↦ (
          record { now = now; jiffies = jiffies; timers = t ∷ ts },
          trace,
          fire_due_stop fire next now fuel jiffies t ts trace e,
          record {
            clock = inv;
            rest = (not_due t next e, All-not_le t (at next) ts (not_due t next e) inv.sorted.0);
            order = order;
            in_time = in_time;
          },
        )
      ]

  advanced :
      (fuel : ℕ) (c : Clock) {c' : Clock} {trace : List Timer}
      → fire_due fire next fuel c [] ≡ some (c', trace)
      → Le (at c.now) (at next)
      → advance_time fire next fuel c
        ≡ done (record { now = next; jiffies = next.jiffies; timers = c'.timers }) trace
  unfolding advance_time jiffval_cmp
  advanced fuel c runs later = ground arith

  -- For a callback that returns, keeps the clock's invariant, does not move the clock and makes
  -- a bound on the work up to `next` fall with each timer that fires, a clock that satisfies the
  -- invariant, a time `next` that is not before `now`, and more fuel than that bound:
  -- advance_time returns, `now` is `next`, the timers that fired did so in the order of their
  -- times and none of them later than `next`, no timer that is left is due, and the invariant
  -- holds.
  pub advance_time-Fired :
      (fuel : ℕ) (c : Clock)
      → IsClock c
      → Le (at c.now) (at next)
      → work c < fuel
      → (c' : Clock) × (trace : List Timer) × (advance_time fire next fuel c ≡ done c' trace)
        × (c'.now ≡ next)
        × Fired next c' trace
  unfolding advance_time
  advance_time-Fired fuel c inv later enough =
      let (c', trace, runs, end) =
        fire_due_lem fuel c.now c.jiffies c.timers [] enough inv tt tt tt in
      (
        record { now = next; jiffies = next.jiffies; timers = c'.timers },
        trace,
        advanced fuel c runs later,
        refl,
        record {
          clock = record {
            mirrors = refl;
            sorted = end.clock.sorted;
            ahead = All-ahead next c'.timers end.rest;
          };
          rest = end.rest;
          order = end.order;
          in_time = end.in_time;
        },
      )

  -- A time before `now` is refused.
  pub advance_time-past :
      (fuel : ℕ) (c : Clock) → ¬ Le (at c.now) (at next) → advance_time fire next fuel c ≡ past
  unfolding advance_time jiffval_cmp
  advance_time-past fuel c early = ground arith
