-- ===== src/Match/Conform.antt =====
-- refill_bucket and action of tcc/ext/match.c at the bucket that is refilled.
use tcng.Common.{ℕ, zero, suc, ◌+◌, ◌-◌, ◌%◌, ◌^◌, ◌≤◌, ◌<◌, min, ◌≡◌, refl, ap, ◌∙◌, arith}
use tcng.Common.{some, ok, Bool-cases, inl, inr, leb, leb→le, true, false, ltb, ◌>>=◌, not}
use native.Mathlib.Nat.{le_refl}
use tcng.Data.{Double, Doubles}
use tcng.Match.Buckets.{Bucket, Buckets, State, Action, put, pour, refill_bucket, initialize_bucket}
use tcng.Match.Buckets.{conforms, action}
use tcng.Match.Pour.{Downward, Filled, Fits, Downward-put, Filled-put, pour_lem, put_same}
use tcng.Match.Refill.{Sound, income, noted, noted-Sound}
use tcng.Match.Policed.{policed, conforms_lem}

not_leb : (a b : ℕ) → leb a b ≡ false → b < a
not_leb a b h = ground arith

not_less : (a b : ℕ) → b ≤ a → ltb a b ≡ false
not_less a b h = ground arith

-- The sum that the loop forms at its first bucket.
abbrev first_sum : ℕ → ℕ → Buckets → ℕ
first_sum i t h = ((h i).tokens + t) % 2 ^ 32

-- The first bucket of the chain after `pour`: the sum, or its depth where that is less.
pour_first :
    (i t : ℕ) (h : Buckets)
    → Downward h
    → Filled h
    → (h' : Buckets) × (pour (suc i) (some i) t h ≡ ok h')
      × (h' i ≡ record (h i) { tokens = min (first_sum i t h) (h i).depth })
unfolding pour
pour_first i zero h down fill = (
  h,
  refl,
  ap (λ (t : ℕ). record (h i) { tokens = t }) {x = (h i).tokens} (omega (arith, fill i)),
)
pour_first i (suc t) h down fill =
    let b = h i in
    let full = record b { tokens = b.depth } in
    let down' = Downward-put i full h down refl in
    let fill' = Filled-put i full h fill (le_refl _, (fill i).1, (fill i).2, (fill i).3) in
    let rest =
      pour_lem i b.overflow (first_sum i (suc t) h - b.depth) (put i full h) (down i) down' fill' in
    elim (Bool-cases (leb (first_sum i (suc t) h) b.depth)) [
      | inl fits ↦ (
        put i (record b { tokens = first_sum i (suc t) h }) h,
        rw fits refl,
        put_same i _ h
            ∙ ap (λ (t : ℕ). record b { tokens = t }) {x = first_sum i (suc t) h}
                (omega (arith, leb→le _ _ fits)),
      )
      | inr over ↦ (
        rest.0,
        rw over rest.1.0,
        rest.1.1.above i i (down i) (le_refl i)
            ∙ put_same i full h
            ∙ ap (λ (t : ℕ). record b { tokens = t }) {x = b.depth}
                (omega (arith, not_leb _ _ over)),
      )
    ]

module _ (fp : Doubles) (of_int : ℕ → Double) (to_int : Double → ℕ) (get_time : ℕ → Double) where
  -- What a refill adds to a bucket in use.
  abbrev pub earns : ℕ → State → ℕ
  earns i s = income fp of_int to_int get_time i s

  abbrev refilled : ℕ → State → Bucket
  refilled i s = record (s.buckets i) {
    last_refill = get_time s.calls;
    tokens = min (((s.buckets i).tokens + earns i s) % 2 ^ 32) (s.buckets i).depth;
  }

  refill_bucket_first :
      (i : ℕ) (s : State)
      → Sound s.buckets
      → (s.buckets i).initialized ≡ true
      → (s1 : State) × (refill_bucket fp of_int to_int get_time i s ≡ ok s1)
        × (s1.buckets i ≡ refilled i s)
  unfolding refill_bucket initialize_bucket
  refill_bucket_first i s sound used =
      let quiet = noted-Sound fp of_int to_int get_time i s sound in
      let b = record (s.buckets i) { last_refill = get_time s.calls } in
      let (h', runs, e) =
        pour_first i (earns i s) (noted fp of_int to_int get_time i s) quiet.0 quiet.1 in
      (
        record s { buckets = h'; calls = suc s.calls },
        rw (used, runs) refl,
        e
            ∙ ap
                (λ (c : Bucket). record c {
                  tokens = min ((c.tokens + earns i s) % 2 ^ 32) c.depth;
                })
                (put_same i b s.buckets),
      )

  -- For sound buckets, a bucket in use, and a packet that counts for no more than the depth of
  -- the bucket: once what the bucket holds and what it has earned since its last refill reach
  -- what the packet counts for (length and income being no negative `int`), a conform action
  -- refills the bucket and takes the action for packets that conform.
  pub action-conform :
      (i len : ℕ) (y n : Action) (s : State)
      → Sound s.buckets
      → (s.buckets i).initialized ≡ true
      → len < 2 ^ 31
      → earns i s < 2 ^ 31
      → policed len (s.buckets i) ≤ (s.buckets i).depth
      → policed len (s.buckets i) ≤ (s.buckets i).tokens + earns i s
      → (s1 : State) × (refill_bucket fp of_int to_int get_time i s ≡ ok s1)
        × (action fp of_int to_int get_time (Action.conform i y n) len s
            ≡ action fp of_int to_int get_time y len s1)
  unfolding action
  action-conform i len y n s sound used small small' deep enough =
      let (s1, runs, e) = refill_bucket_first i s sound used in
      let fits = sound.1 i in
      let held : Fits (refilled i s) = (omega arith, fits.1, fits.2, fits.3) in
      let full : not (ltb (refilled i s).tokens (policed len (s.buckets i))) ≡ true =
        ap not (not_less _ _ (omega (arith, fits))) in
      let test : conforms len (s1.buckets i) ≡ true =
        ap (conforms len) e ∙ conforms_lem len (refilled i s) small held ∙ full in
      (s1, runs, rw (runs, ◌>>=◌, test) refl)

  -- For sound buckets and a bucket in use: if the clock stepped back so that the income is the
  -- word of -k, with k more than the bucket holds and at most 2 ^ 31, refill_bucket returns and
  -- the bucket holds its whole depth.
  pub refill_bucket-back :
      (i k : ℕ) (s : State)
      → Sound s.buckets
      → (s.buckets i).initialized ≡ true
      → earns i s ≡ 2 ^ 32 - k
      → (s.buckets i).tokens < k
      → k ≤ 2 ^ 31
      → (s1 : State) × (refill_bucket fp of_int to_int get_time i s ≡ ok s1)
        × ((s1.buckets i).tokens ≡ (s.buckets i).depth)
  refill_bucket-back i k s sound used back short small =
      let (s1, runs, e) = refill_bucket_first i s sound used in
      (s1, runs, ap (λ (b : Bucket). b.tokens) e ∙ omega (arith, sound.1 i, back))
