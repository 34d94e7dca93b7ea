-- ===== src/Match/Policed.antt =====
-- `action` of tcc/ext/match.c against policing in natural numbers.
use tcng.Common.{ℕ, ◌+◌, ◌-◌, ◌*◌, ◌%◌, ◌^◌, ◌≤◌, ◌<◌, max, ◌≡◌, refl, ap, arith}
use tcng.Common.{ok, Bool-cases, inl, inr, false, not, ltb, ltb→lt}
use tcng.Common.{◌>>=◌, bit_or}
use tcng.Common.Bits.{bit_or_above}
use tcng.Data.{Double, Doubles}
use tcng.Match.Buckets.{Bucket, State, Action, Police, put, less_int, policed_len}
use tcng.Match.Buckets.{refill_bucket, conforms, charged, action}
use tcng.Match.Pour.{Fits, Filled-put, Downward-put}
use tcng.Match.Refill.{Sound, refill_bucket-Sound}

-- The bytes that a packet counts for.
abbrev pub policed : ℕ → Bucket → ℕ
policed len b = max len b.mpu

less_int_lem : (a b : ℕ) → a < 2 ^ 31 → b < 2 ^ 31 → less_int a b ≡ ltb a b
unfolding less_int
less_int_lem a b ha hb =
    let ea : (a + 2 ^ 31) % 2 ^ 32 ≡ a + 2 ^ 31 = omega arith in
    let eb : (b + 2 ^ 31) % 2 ^ 32 ≡ b + 2 ^ 31 = omega arith in rw (ea, eb) (ground arith)

not_ltb : (a b : ℕ) → ltb a b ≡ false → b ≤ a
not_ltb a b h = ground arith

policed_len_lem : (len : ℕ) (b : Bucket) → len < 2 ^ 31 → Fits b → policed_len len b ≡ policed len b
unfolding policed_len
policed_len_lem len b small fits = rw (less_int_lem b.mpu len (fits.3) small) (ground arith)

pub conforms_lem :
    (len : ℕ) (b : Bucket)
    → len < 2 ^ 31
    → Fits b
    → conforms len b ≡ not (ltb b.tokens (policed len b))
unfolding conforms
conforms_lem len b small fits =
    let e = policed_len_lem len b small fits in
    rw (e, less_int_lem b.tokens (policed len b) (omega (arith, fits)) (omega (arith, fits))) refl

charged_lem :
    (len : ℕ) (b : Bucket)
    → len < 2 ^ 31
    → Fits b
    → charged len b ≡ record b { tokens = b.tokens - policed len b }
unfolding charged
charged_lem len b small fits =
    let e = policed_len_lem len b small fits in
    let f = less_int_lem b.tokens (policed len b) (omega (arith, fits)) (omega (arith, fits)) in
    ap (λ (t : ℕ). record b { tokens = t }) (rw (e, f) (ground (arith, fits)))

-- The classes and types of actions that `match` can handle.
abbrev pub IsKnown : Action → Type 0
IsKnown (Action.class_action parent index) = (parent < 2 ^ 16) × (index < 2 ^ 16)
IsKnown Action.drop = Unit
IsKnown Action.unspec = Unit
IsKnown (Action.conform i yes_action no_action) = IsKnown yes_action × IsKnown no_action
IsKnown (Action.count i next) = IsKnown next
IsKnown Action.other = ⊥

module _ (fp : Doubles) (of_int : ℕ → Double) (to_int : Double → ℕ) (get_time : ℕ → Double)
    (len : ℕ) where
  -- How an action ends, in natural numbers: a refill comes first, a bucket conforms if it holds
  -- what the packet counts for, and `count` takes that away, but not below 0.
  pub data Policed : Action → State → Police → State → Type 0 where
    to_class :
        (parent index : ℕ) (s : State)
        → Policed
            (Action.class_action parent index)
            s
            Police.police_ok
            (record s { class_id = parent * 2 ^ 16 + index })
    dropped : (s : State) → Policed Action.drop s Police.police_shot s
    left : (s : State) → Policed Action.unspec s Police.police_unspec s
    conformed :
        (i : ℕ) (y n : Action) (s s1 s' : State) (p : Police)
        → refill_bucket fp of_int to_int get_time i s ≡ ok s1
        → policed len (s1.buckets i) ≤ (s1.buckets i).tokens
        → Policed y s1 p s'
        → Policed (Action.conform i y n) s p s'
    exceeded :
        (i : ℕ) (y n : Action) (s s1 s' : State) (p : Police)
        → refill_bucket fp of_int to_int get_time i s ≡ ok s1
        → (s1.buckets i).tokens < policed len (s1.buckets i)
        → Policed n s1 p s'
        → Policed (Action.conform i y n) s p s'
    counted :
        (i : ℕ) (next : Action) (s s1 s' : State) (p : Police)
        → refill_bucket fp of_int to_int get_time i s ≡ ok s1
        → Policed next
            (record s1 {
              buckets =
                  put i
                    (record (s1.buckets i) {
                      tokens = (s1.buckets i).tokens - policed len (s1.buckets i);
                    })
                    s1.buckets;
            })
            p
            s'
        → Policed (Action.count i next) s p s'

  -- The end of an action that returns.
  abbrev pub Ends : Action → State → Type 0
  Ends a s =
      (p : Police) × (s' : State) × (action fp of_int to_int get_time a len s ≡ ok (p, s'))
      × Policed a s p s'
      × Sound s'.buckets

  class_action-Ends :
      (parent index : ℕ) (s : State)
      → IsKnown (Action.class_action parent index)
      → Sound s.buckets
      → Ends (Action.class_action parent index) s
  unfolding action
  class_action-Ends parent index s (hp, hi) sound =
      let word : parent * 2 ^ 16 % 2 ^ 32 ≡ parent * 2 ^ 16 = omega arith in
      let e : bit_or (parent * 2 ^ 16 % 2 ^ 32) index ≡ parent * 2 ^ 16 + index =
        rw word (bit_or_above 16 parent index hi) in
      (
        Police.police_ok,
        record s { class_id = parent * 2 ^ 16 + index },
        rw e refl,
        to_class parent index s,
        sound,
      )

  conform-Ends :
      (i : ℕ) (y n : Action) (s s1 : State)
      → refill_bucket fp of_int to_int get_time i s ≡ ok s1
      → Fits (s1.buckets i)
      → len < 2 ^ 31
      → Ends y s1
      → Ends n s1
      → Ends (Action.conform i y n) s
  unfolding action
  conform-Ends i y n s s1 refill fits small (p, sy, runs, policed_y, sound)
        (q, sn, runs', policed_n, sound') =
      let b = s1.buckets i in
      let test = conforms_lem len b small fits in
      elim (Bool-cases (ltb b.tokens (policed len b))) [
        | inl lt ↦ (
          q,
          sn,
          rw (refill, ◌>>=◌, test, lt) runs',
          exceeded i y n s s1 sn q refill (ltb→lt _ _ lt) policed_n,
          sound',
        )
        | inr ge ↦ (
          p,
          sy,
          rw (refill, ◌>>=◌, test, ge) runs,
          conformed i y n s s1 sy p refill (not_ltb _ _ ge) policed_y,
          sound,
        )
      ]

  -- The state after `count` has charged a bucket.
  abbrev spent : ℕ → State → State
  spent i s = record s {
    buckets =
        put i (record (s.buckets i) { tokens = (s.buckets i).tokens - policed len (s.buckets i) })
          s.buckets;
  }

  spent-Sound : (i : ℕ) (s : State) → Sound s.buckets → Sound (spent i s).buckets
  spent-Sound i s (down, fill) =
      let b = record (s.buckets i) { tokens = (s.buckets i).tokens - policed len (s.buckets i) } in
      let fits = fill i in
      (
        Downward-put i b s.buckets down refl,
        Filled-put i b s.buckets fill (omega arith, fits.1, fits.2, fits.3),
      )

  count-Ends :
      (i : ℕ) (next : Action) (s s1 : State)
      → refill_bucket fp of_int to_int get_time i s ≡ ok s1
      → Fits (s1.buckets i)
      → len < 2 ^ 31
      → Ends next (spent i s1)
      → Ends (Action.count i next) s
  unfolding action
  count-Ends i next s s1 refill fits small (p, s', runs, policed_next, sound) =
      let charge = charged_lem len (s1.buckets i) small fits in
      (p, s', rw (refill, ◌>>=◌, charge) runs, counted i next s s1 s' p refill policed_next, sound)

  -- For actions of known types with class numbers of 16 bits, sound buckets and a length below 2
  -- ^ 31, action returns, leaves the buckets sound, and ends as the relation Policed says in
  -- natural numbers: every test and charge refills first; a bucket conforms exactly if it holds
  -- the maximum of length and minimum policed unit; count takes that away, but not below 0; a
  -- class is its queuing discipline's number times 2 ^ 16 plus its own.
  pub action-Policed :
      (a : Action) (s : State) → IsKnown a → Sound s.buckets → len < 2 ^ 31 → Ends a s
  unfolding action
  action-Policed (Action.class_action parent index) s known sound small =
      class_action-Ends parent index s known sound
  action-Policed Action.drop s known sound small = (Police.police_shot, s, refl, dropped s, sound)
  action-Policed Action.unspec s known sound small = (Police.police_unspec, s, refl, left s, sound)
  action-Policed (Action.conform i y n) s known sound small =
      let refilled = refill_bucket-Sound fp of_int to_int get_time i s sound in
      let s1 = refilled.0 in
      conform-Ends i y n s s1 refilled.1 (refilled.2.1 i) small
        (action-Policed y s1 known.0 refilled.2 small)
        (action-Policed n s1 known.1 refilled.2 small)
  action-Policed (Action.count i next) s known sound small =
      let refilled = refill_bucket-Sound fp of_int to_int get_time i s sound in
      let s1 = refilled.0 in
      count-Ends i next s s1 refilled.1 (refilled.2.1 i) small
        (action-Policed next (spent i s1) known (spent-Sound i s1 refilled.2) small)
  action-Policed Action.other s known sound small = elim known [ ]
