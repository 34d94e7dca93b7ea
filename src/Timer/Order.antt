-- ===== src/Timer/Order.antt =====
-- The order of the list of timers in tcsim/timer.c.
use tcng.Common.{ℕ, ◌<◌, ◌≤◌, ◌≡◌, arith, refl, true, false, ◌==◌, All}
use tcng.Common.{List, [], ◌∷◌, ◌++◌, some, ◌↔◌, ◌⊎◌, inl, inr, Bool-cases, Option-cases}
use mathlib.Core.Path.{subst}
use tcng.Common.{ap, none≢some, some_inj}
use tcng.Timer.{Timer, Clock, timer_lt, timer_le, at, insert_timer, add_hires_timer, add_timer}
use tcng.Timer.{remove_timer, pending, Deleted, del_timer, mod_timer}

-- The order of times, jiffies first.
abbrev pub Le : Timer → Timer → Type 0
Le a b =
    (a.expires < b.expires) ⊎ ((a.expires ≡ b.expires) × (a.expires_ujiffies ≤ b.expires_ujiffies))

abbrev pub Sorted : List Timer → Type 0
Sorted [] = Unit
Sorted (t ∷ ts) = All (λ u. Le t u) ts × Sorted ts

-- The invariant of the clock: `jiffies` mirrors `now.jiffies`, and the pending timers are sorted
-- and not before `now`.
pub record IsClock (c : Clock) : Type 0 where
  pub mirrors : c.jiffies ≡ c.now.jiffies
  pub sorted : Sorted c.timers
  pub ahead : All (λ t. Le (at c.now) t) c.timers

pub timer_le_iff : (a b : Timer) → (timer_le a b ≡ true) ↔ Le a b
unfolding timer_le
timer_le_iff a b = ground arith

pub Le-trans : (a b c : Timer) → Le a b → Le b c → Le a c
Le-trans a b c h k = ground arith

All-Le : (a b : Timer) (ts : List Timer) → Le a b → All (λ t. Le b t) ts → All (λ t. Le a t) ts
All-Le a b [] h k = tt
All-Le a b (t ∷ ts) h k = (Le-trans a b t h k.0, All-Le a b ts h k.1)

pub All-not_le :
    (w t : Timer) (ts : List Timer) → ¬ Le w t → All (λ u. Le w u) ts → All (λ u. ¬ Le u t) ts
All-not_le w t [] n h = tt
All-not_le w t (u ∷ us) n h = (λ k. n (Le-trans w u t h.0 k), All-not_le w t us n h.1)

All-insert_timer :
    (P : Timer → Type 0) (t : Timer) (ts : List Timer) → P t → All P ts → All P (insert_timer t ts)
unfolding insert_timer
All-insert_timer P t [] p h = (p, tt)
All-insert_timer P t (w ∷ ws) p h = elim (Bool-cases (timer_le w t)) [
  | inl e ↦ rw e (h.0, All-insert_timer P t ws p h.1)
  | inr e ↦ rw e (p, h)
]

insert_timer-Sorted : (t : Timer) (ts : List Timer) → Sorted ts → Sorted (insert_timer t ts)
unfolding insert_timer
insert_timer-Sorted t [] h = (tt, tt)
insert_timer-Sorted t (w ∷ ws) h = elim (Bool-cases (timer_le w t)) [
  | inl e ↦ rw e (
    All-insert_timer (λ u. Le w u) t ws ((timer_le_iff w t).0 e) h.0,
    insert_timer-Sorted t ws h.1,
  )
  | inr e ↦ rw e ((later w t e, All-Le t w ws (later w t e) h.0), h)
]
  where
    later : (w t : Timer) → timer_le w t ≡ false → Le t w
    later w t e = unfold timer_le in ground arith

-- If add_hires_timer returns from a clock that satisfies the invariant, the invariant holds
-- after it.
pub add_hires_timer-IsClock :
    (t : Timer) (c : Clock) {c' : Clock} → IsClock c → add_hires_timer t c ≡ some c' → IsClock c'
unfolding add_hires_timer
add_hires_timer-IsClock t c {c'} h e = elim (Bool-cases (timer_lt t (at c.now))) [
  | inl early ↦ absurd (none≢some (rw early at e))
  | inr late ↦
      let added : record c { timers = insert_timer t c.timers } ≡ c' = some_inj (rw late at e) in
      subst IsClock added (record {
        mirrors = h.mirrors;
        sorted = insert_timer-Sorted t c.timers h.sorted;
        ahead =
            All-insert_timer (λ u. Le (at c.now) u) t c.timers (unfold timer_lt in ground arith)
              h.ahead;
      })
]

-- Into a sorted list, a timer goes behind all timers that expire before it or with it, and in
-- front of all others, and the list is otherwise the same.
pub insert_timer_place :
    (t : Timer) (ts : List Timer)
    → Sorted ts
    → (xs : List Timer) × (ys : List Timer) × (ts ≡ xs ++ ys)
      × (insert_timer t ts ≡ xs ++ (t ∷ ys))
      × All (λ x. Le x t) xs
      × All (λ y. ¬ Le y t) ys
unfolding insert_timer
insert_timer_place t [] h = ([], [], refl, refl, tt, tt)
insert_timer_place t (w ∷ ws) h = elim (Bool-cases (timer_le w t)) [
  | inl e ↦
      let (xs, ys, parts, place, low, high) = insert_timer_place t ws h.1 in
      (
        w ∷ xs,
        ys,
        ap (λ l. w ∷ l) parts,
        rw e (ap (λ l. w ∷ l) place),
        ((timer_le_iff w t).0 e, low),
        high,
      )
  | inr e ↦ ([], w ∷ ws, refl, rw e, tt, (not_le e, All-not_le w t ws (not_le e) h.0))
]
  where
    not_le : timer_le w t ≡ false → ¬ Le w t
    not_le e = unfold timer_le in ground arith

All-remove_timer :
    (P : Timer → Type 0) (id : ℕ) (ts : List Timer) → All P ts → All P (remove_timer id ts)
unfolding remove_timer
All-remove_timer P id [] h = tt
All-remove_timer P id (w ∷ ws) h = elim (Bool-cases (w.id == id)) [
  | inl e ↦ rw e h.1
  | inr e ↦ rw e (h.0, All-remove_timer P id ws h.1)
]

remove_timer-Sorted : (id : ℕ) (ts : List Timer) → Sorted ts → Sorted (remove_timer id ts)
unfolding remove_timer
remove_timer-Sorted id [] h = tt
remove_timer-Sorted id (w ∷ ws) h = elim (Bool-cases (w.id == id)) [
  | inl e ↦ rw e h.1
  | inr e ↦ rw e (All-remove_timer (λ u. Le w u) id ws h.0, remove_timer-Sorted id ws h.1)
]

-- From a clock that satisfies the invariant, the invariant holds after del_timer.
pub del_timer-IsClock : (t : Timer) (c : Clock) → IsClock c → IsClock (del_timer t c).clock
unfolding del_timer
del_timer-IsClock t c h = record {
  mirrors = h.mirrors;
  sorted = remove_timer-Sorted t.id c.timers h.sorted;
  ahead = All-remove_timer (λ u. Le (at c.now) u) t.id c.timers h.ahead;
}

-- If mod_timer returns from a clock that satisfies the invariant, the invariant holds after it,
-- and the result tells whether the timer was pending.
pub mod_timer-IsClock :
    (t : Timer) (expires : ℕ) (c : Clock) {d : Deleted}
    → IsClock c
    → mod_timer t expires c ≡ some d
    → IsClock d.clock × (d.found ≡ pending t.id c.timers)
unfolding mod_timer del_timer
mod_timer-IsClock t expires c {d} h e = elim (Option-cases (add_timer moved c')) [
  | inl early ↦ absurd (none≢some (rw (early, mod_timer) at e))
  | inr (c'', late) ↦
      let made : record { found = pending t.id c.timers; clock = c'' } ≡ d =
        some_inj (rw (late, mod_timer) at e) in
      subst (λ d. IsClock d.clock × (d.found ≡ pending t.id c.timers)) made
        (unfold add_timer in add_hires_timer-IsClock moved c' (del_timer-IsClock t c h) late, refl)
]
  where
    moved : Timer
    moved = record t { expires = expires; expires_ujiffies = 0 }

    c' : Clock
    c' = (del_timer t c).clock
