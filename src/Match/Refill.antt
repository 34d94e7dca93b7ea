-- ===== src/Match/Refill.antt =====
-- initialize_bucket and refill_bucket of tcc/ext/match.c.
use tcng.Common.{
  ℕ, zero, suc, ◌+◌, ◌%◌, ◌^◌, ◌<◌, min, ◌≡◌, refl, ap, ap₂, ◌∙◌, arith, Option, none, some,
}
use tcng.Common.{ok, Bool-cases, inl, inr, true, false}
use native.Mathlib.Nat.{le_refl}
use tcng.Data.{Double, Doubles}
use tcng.Match.Buckets.{Buckets, State, put, chain_depth}
use tcng.Match.Buckets.{initialize_bucket, refill_bucket, earned}
use tcng.Match.Pour.{Below, Downward, Filled, level, capacity, Downward-Poured}
use tcng.Match.Pour.{
  pour_lem, level-last_refill, capacity-last_refill, put_other, Filled-put, Downward-put, lower,
}

-- What the buckets keep between packets.
abbrev pub Sound : Buckets → Type 0
Sound h = Downward h × Filled h

chain_depth_ends :
    (fuel : ℕ) (o : Option ℕ) (n : ℕ) (h : Buckets)
    → Below o fuel
    → Downward h
    → (m : ℕ) × (chain_depth fuel o n h ≡ ok m)
unfolding chain_depth
chain_depth_ends fuel none n h below down = (n, refl)
chain_depth_ends zero (some i) n h below down = absurd (omega arith)
chain_depth_ends (suc fuel) (some i) n h below down =
    chain_depth_ends fuel (h i).overflow ((n + (h i).depth) % 2 ^ 32) h
      (lower (h i).overflow i fuel (down i) (omega arith)) down

module _ (fp : Doubles) (of_int : ℕ → Double) (to_int : Double → ℕ) (get_time : ℕ → Double) where
  -- `initialize_bucket` at a bucket that was not used before.
  begins :
      (i n : ℕ) (s : State)
      → Sound s.buckets
      → (s.buckets i).initialized ≡ false
      → chain_depth i (s.buckets i).overflow (s.buckets i).depth s.buckets ≡ ok n
      → (s1 : State) × (initialize_bucket fp of_int to_int get_time i s ≡ ok s1) × Sound s1.buckets
  unfolding initialize_bucket
  begins i n s (down, fill) fresh ends =
      let b = s.buckets i in
      let b1 = record b {
        initialized = true;
        tokens = b.initial_tokens;
        max_time = fp.div (of_int n) (fp.of_u32 b.rate);
        last_refill = get_time s.calls;
      } in
      let fits = Filled-put i b1 s.buckets fill ((fill i).1, (fill i).1, (fill i).2, (fill i).3) in
      (
        record s { buckets = put i b1 s.buckets; calls = suc s.calls },
        rw (fresh, ends) refl,
        (Downward-put i b1 s.buckets down refl, fits),
      )

  initialize_bucket_ends :
      (i : ℕ) (s : State)
      → Sound s.buckets
      → (s1 : State) × (initialize_bucket fp of_int to_int get_time i s ≡ ok s1) × Sound s1.buckets
  unfolding initialize_bucket
  initialize_bucket_ends i s sound = elim (Bool-cases (s.buckets i).initialized) [
    | inl e ↦ (s, rw e refl, sound)
    | inr e ↦
        let ends =
          chain_depth_ends i (s.buckets i).overflow (s.buckets i).depth s.buckets (sound.0 i)
            sound.0 in
        begins i ends.0 s sound e ends.1
  ]

  -- The state with the time of the refill noted.
  abbrev pub noted : ℕ → State → Buckets
  noted i s = put i (record (s.buckets i) { last_refill = get_time s.calls }) s.buckets

  abbrev pub income : ℕ → State → ℕ
  income i s = earned fp of_int to_int get_time (s.buckets i) (get_time s.calls)

  pub noted-Sound : (i : ℕ) (s : State) → Sound s.buckets → Sound (noted i s)
  noted-Sound i s (down, fill) =
      let b = record (s.buckets i) { last_refill = get_time s.calls } in
      (Downward-put i b s.buckets down refl, Filled-put i b s.buckets fill (fill i))

  -- With any clock, a refill returns, and no bucket holds more than its depth after it.
  pub refill_bucket-Sound :
      (i : ℕ) (s : State)
      → Sound s.buckets
      → (s' : State) × (refill_bucket fp of_int to_int get_time i s ≡ ok s') × Sound s'.buckets
  unfolding refill_bucket
  refill_bucket-Sound i s sound =
      let begun = initialize_bucket_ends i s sound in
      let s1 = begun.0 in
      let quiet = noted-Sound i s1 begun.2 in
      let poured =
        pour_lem (suc i) (some i) (income i s1) (noted i s1) (le_refl _) quiet.0 quiet.1 in
      let h' = poured.0 in
      let p = poured.1 in
      (
        record s1 { buckets = h'; calls = suc s1.calls },
        rw (begun.1, p.0) refl,
        (Downward-Poured (some i) (noted i s1) h' p.1 quiet.0, p.2),
      )

  -- For sound buckets, a bucket in use, and an income that is no negative `int`: refill_bucket
  -- returns, the tokens of the bucket and its overflow chain become the least of their sum with
  -- the income and the capacity of the chain, and no bucket with a higher number changes.
  pub refill_bucket-level :
      (i : ℕ) (s : State)
      → Sound s.buckets
      → (s.buckets i).initialized ≡ true
      → income i s < 2 ^ 31
      → (s' : State) × (refill_bucket fp of_int to_int get_time i s ≡ ok s')
        × (level (suc i) (some i) s'.buckets
            ≡ min
                (level (suc i) (some i) s.buckets + income i s)
                (capacity (suc i) (some i) s.buckets))
        × ((j : ℕ) → i < j → s'.buckets j ≡ s.buckets j)
  unfolding refill_bucket initialize_bucket
  refill_bucket-level i s sound used small =
      let quiet = noted-Sound i s sound in
      let poured = pour_lem (suc i) (some i) (income i s) (noted i s) (le_refl _) quiet.0 quiet.1 in
      let now = get_time s.calls in
      let same = level-last_refill i i now s.buckets sound.0 in
      let room = capacity-last_refill i i now s.buckets sound.0 in
      let h' = poured.0 in
      let p = poured.1 in
      let sums : level (suc i) (some i) h'
          ≡ min (level (suc i) (some i) s.buckets + income i s)
              (capacity (suc i) (some i) s.buckets) =
        p.3 small ∙ ap₂ min (ap (λ (t : ℕ). t + income i s) same) room in
      (
        record s { buckets = h'; calls = suc s.calls },
        rw (used, p.0) refl,
        sums,
        λ j above. p.1.above (suc i) j (le_refl _) above ∙ put_other i j _ s.buckets (omega arith),
      )
