-- ===== src/Match/Buckets.antt =====
-- tcc/ext/match.c: buckets and actions. An `int` is its 32 bit word.
use tcng.Common.{ℕ, zero, suc, ◌+◌, ◌-◌, ◌*◌, ◌%◌, ◌^◌, Option, none, some, Bool, true, false}
use tcng.Common.{Result, ok, err, Error, ◌>>=◌, leb, ltb, ◌==◌, if◌then◌else◌, not, bit_or}
use tcng.Data.{Double, Doubles}

-- `struct my_bucket` with its `TCCEXT_BUCKET`; `overflow` is the number of another bucket.
pub record Bucket : Type 0 where
  pub rate : ℕ
  pub mpu : ℕ
  pub depth : ℕ
  pub initial_tokens : ℕ
  pub overflow : Option ℕ
  pub tokens : ℕ
  pub last_refill : Double
  pub max_time : Double
  pub initialized : Bool

-- The buckets by their numbers.
abbrev pub Buckets : Type 0
Buckets = ℕ → Bucket

unfoldable pub put : ℕ → Bucket → Buckets → Buckets
put i b h j = if j == i then b else h j

-- `int` comparison.
abbrev pub flip : ℕ → ℕ
flip w = (w + 2 ^ 31) % 2 ^ 32

unfoldable pub less_int : ℕ → ℕ → Bool
less_int a b = ltb (flip a) (flip b)

-- `max_tokens` of `initialize_bucket`, on fuel. A bucket overflows only to one that was parsed
-- before it, so that the number of the bucket is fuel enough.
unfoldable pub chain_depth : ℕ → Option ℕ → ℕ → Buckets → Result ℕ
chain_depth fuel none max_tokens h = ok max_tokens
chain_depth zero (some i) max_tokens h = err Error.fault
chain_depth (suc fuel) (some i) max_tokens h =
    let b = h i in chain_depth fuel b.overflow ((max_tokens + b.depth) % 2 ^ 32) h

-- The loop of `refill_bucket`; it ends at `tokens = 0`.
unfoldable pub pour : ℕ → Option ℕ → ℕ → Buckets → Result Buckets
pour fuel none tokens h = ok h
pour fuel (some i) zero h = ok h
pour zero (some i) (suc t) h = err Error.fault
pour (suc fuel) (some i) (suc t) h =
    let b = h i in
    let sum = (b.tokens + suc t) % 2 ^ 32 in
    let more = pour fuel b.overflow (sum - b.depth) (put i (record b { tokens = b.depth }) h) in
    if leb sum b.depth then ok (put i (record b { tokens = sum }) h) else more

-- The buckets, the number of calls of `get_time` so far, and `*class`.
pub record State : Type 0 where
  pub buckets : Buckets
  pub calls : ℕ
  pub class_id : ℕ

-- `TCCEXT_ACTION`, by its type. A class list shows the indices of its first class and of that
-- class's queuing discipline.
pub data Action : Type 0 where
  class_action : ℕ → ℕ → Action
  drop unspec : Action
  conform : ℕ → Action → Action → Action
  count : ℕ → Action → Action
  other : Action

-- TC_POLICE_OK, TC_POLICE_SHOT, TC_POLICE_UNSPEC
pub data Police : Type 0 where
  police_ok police_shot police_unspec : Police

-- `len > bucket->b.mpu ? len : bucket->b.mpu`
unfoldable pub policed_len : ℕ → Bucket → ℕ
unfolding less_int
policed_len len b = if less_int b.mpu len then len else b.mpu

unfoldable pub conforms : ℕ → Bucket → Bool
unfolding less_int policed_len
conforms len b = not (less_int b.tokens (policed_len len b))

unfoldable pub charged : ℕ → Bucket → Bucket
unfolding less_int policed_len
charged len b = record b {
  tokens =
      if less_int b.tokens (policed_len len b)
      then 0
      else (b.tokens + 2 ^ 32 - policed_len len b) % 2 ^ 32;
}

-- `fp` is C's `double`, `of_int` and `to_int` convert from and to `int`, and `get_time` gives what
-- each call of that function returns.
module _ (fp : Doubles) (of_int : ℕ → Double) (to_int : Double → ℕ) (get_time : ℕ → Double) where
  unfoldable pub initialize_bucket : ℕ → State → Result State
  unfolding chain_depth
  initialize_bucket i s =
      let b = s.buckets i in
      if b.initialized
      then ok s
      else (chain_depth i b.overflow b.depth s.buckets >>= λ (max_tokens : ℕ). ok (record s {
        buckets =
            put i
              (record b {
                initialized = true;
                tokens = b.initial_tokens;
                max_time = fp.div (of_int max_tokens) (fp.of_u32 b.rate);
                last_refill = get_time s.calls;
              })
              s.buckets;
        calls = suc s.calls;
      }))

  -- `delta*rate` since the last refill.
  unfoldable pub earned : Bucket → Double → ℕ
  earned b now =
      let delta = fp.sub now b.last_refill in
      to_int (fp.mul (if fp.less b.max_time delta then b.max_time else delta) (fp.of_u32 b.rate))

  unfoldable pub refill_bucket : ℕ → State → Result State
  unfolding initialize_bucket earned pour
  refill_bucket i s = initialize_bucket i s >>= λ (s1 : State).
      let b = s1.buckets i in
      let now = get_time s1.calls in
      pour (suc i) (some i) (earned b now) (put i (record b { last_refill = now }) s1.buckets)
      >>= λ (h : Buckets). ok (record s1 { buckets = h; calls = suc s1.calls })

  unfoldable pub action : Action → ℕ → State → Result (Police × State)
  unfolding refill_bucket conforms charged
  action (Action.class_action parent index) len s =
      ok (Police.police_ok, record s { class_id = bit_or (parent * 2 ^ 16 % 2 ^ 32) index })
  action Action.drop len s = ok (Police.police_shot, s)
  action Action.unspec len s = ok (Police.police_unspec, s)
  action (Action.conform i yes_action no_action) len s = refill_bucket i s >>= λ (s1 : State).
      elim (conforms len (s1.buckets i)) [
        | true ↦ action yes_action len s1
        | false ↦ action no_action len s1
      ]
  action (Action.count i next) len s = refill_bucket i s >>= λ (s1 : State).
      action next len (record s1 { buckets = put i (charged len (s1.buckets i)) s1.buckets })
  action Action.other len s = err Error.unsupported
