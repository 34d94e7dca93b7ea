-- ===== src/Match/Parsed.antt =====
-- tcc/ext/tccext.c: `find_bucket` and `parse_bucket`, which link the buckets.
use tcng.Common.{ℕ, zero, suc, ◌%◌, ◌^◌, ◌<◌, ◌≡◌, refl, arith, Option, none, some, List, [], ◌∷◌}
use tcng.Common.{
  Result, ok, err, Error, ◌>>=◌, ◌>>◌, guard, ◌==◌, if◌then◌else◌, not, Bool, true, false,
}
use tcng.Common.{Bool-cases, inl, inr, >>=-eq-ok, ==_iff, sym}
use tcng.Match.Buckets.{Bucket, Buckets}
use tcng.Match.Pour.{Below, Downward}

-- `ctx->buckets`, the last one parsed first, with their indices.
abbrev pub Parsed : Type 0
Parsed = List (ℕ × Bucket)

-- The number of a bucket in order of parsing is the number of those before it.
unfoldable pub parsed : Parsed → ℕ
parsed [] = 0
parsed (b ∷ ctx) = suc (parsed ctx)

-- What `sscanf` read from a line.
pub record Line : Type 0 where
  pub index : ℕ
  pub rate : ℕ
  pub mpu : ℕ
  pub depth : ℕ
  pub initial : ℕ
  pub overflow : ℕ

unfoldable pub find_bucket : Parsed → ℕ → Result ℕ
unfolding parsed
find_bucket [] index = err Error.bad_input
find_bucket ((k, b) ∷ ctx) index = if k == index then ok (parsed ctx) else find_bucket ctx index

-- The search for a bucket with the same index.
unfoldable pub taken : Parsed → ℕ → Bool
taken [] index = false
taken ((k, b) ∷ ctx) index = if k == index then true else taken ctx index

unfoldable pub find_overflow : Parsed → ℕ → Result (Option ℕ)
unfolding find_bucket
find_overflow ctx zero = ok none
find_overflow ctx (suc k) = find_bucket ctx (suc k) >>= λ (i : ℕ). ok (some i)

-- The bucket of a line; the rest of `struct my_bucket` is zeroed.
abbrev pub bucket_of : Line → Option ℕ → Bucket
bucket_of l o = record {
  rate = l.rate % 2 ^ 32;
  mpu = l.mpu;
  depth = l.depth % 2 ^ 32;
  initial_tokens = l.initial % 2 ^ 32;
  overflow = o;
  tokens = 0;
  last_refill = 0;
  max_time = 0;
  initialized = false;
}

unfoldable pub parse_bucket : Line → Parsed → Result Parsed
unfolding taken find_overflow
parse_bucket l ctx =
    guard (not (taken ctx l.index)) Error.bad_input
    >> (find_overflow ctx l.overflow >>= λ (o : Option ℕ). ok ((l.index, bucket_of l o) ∷ ctx))

abbrev pub no_bucket : Bucket
no_bucket = record {
  rate = 0;
  mpu = 0;
  depth = 0;
  initial_tokens = 0;
  overflow = none;
  tokens = 0;
  last_refill = 0;
  max_time = 0;
  initialized = false;
}

-- The buckets by their numbers.
unfoldable pub buckets : Parsed → Buckets
unfolding parsed
buckets [] j = no_bucket
buckets ((k, b) ∷ ctx) j = if j == parsed ctx then b else buckets ctx j

find_bucket_below : (ctx : Parsed) (index i : ℕ) → find_bucket ctx index ≡ ok i → i < parsed ctx
unfolding find_bucket parsed
find_bucket_below [] index i h = cc
find_bucket_below ((k, b) ∷ ctx) index i h = elim (Bool-cases (k == index)) [
  | inl e ↦
      let here : ◌≡◌ {A = Result ℕ} (ok (parsed ctx)) (ok i) = rw e at h in
      let same : parsed ctx ≡ i = cc in omega arith
  | inr e ↦
      let later : find_bucket ctx index ≡ ok i = rw e at h in
      omega (arith, find_bucket_below ctx index i later)
]

find_overflow-Below :
    (ctx : Parsed) (k : ℕ) (o : Option ℕ) → find_overflow ctx k ≡ ok o → Below o (parsed ctx)
unfolding find_overflow
find_overflow-Below ctx zero none h = tt
find_overflow-Below ctx zero (some i) h = absurd cc
find_overflow-Below ctx (suc k) none h =
    let (i, found, e) = >>=-eq-ok (find_bucket ctx (suc k)) (λ (i : ℕ). ok (some i)) h in tt
find_overflow-Below ctx (suc k) (some j) h =
    let (i, found, e) = >>=-eq-ok (find_bucket ctx (suc k)) (λ (i : ℕ). ok (some i)) h in
    let same : i ≡ j = cc in omega (arith, find_bucket_below ctx (suc k) i found)

parse_bucket-head :
    (l : Line) (ctx ctx' : Parsed)
    → parse_bucket l ctx ≡ ok ctx'
    → (o : Option ℕ) × (find_overflow ctx l.overflow ≡ ok o)
      × (ctx' ≡ (l.index, bucket_of l o) ∷ ctx)
unfolding parse_bucket
parse_bucket-head l ctx ctx' h = elim (Bool-cases (taken ctx l.index)) [
  | inl e ↦
      let gone : ◌≡◌ {A = Result Parsed} (err Error.bad_input) (ok ctx') = rw e at h in absurd cc
  | inr e ↦
      let runs : (find_overflow ctx l.overflow >>= λ (o : Option ℕ).
      ok ((l.index, bucket_of l o) ∷ ctx))
          ≡ ok ctx' =
        rw e at h in
      let (o, found, eq) =
        >>=-eq-ok (find_overflow ctx l.overflow)
          (λ (o : Option ℕ). ok ((l.index, bucket_of l o) ∷ ctx)) runs in
      (o, found, cc)
]

-- A bucket that was parsed can be found by its index, and all others as before.
pub find_bucket-parse_bucket :
    (l : Line) (ctx ctx' : Parsed) (index : ℕ)
    → parse_bucket l ctx ≡ ok ctx'
    → find_bucket ctx' index ≡ (if l.index == index then ok (parsed ctx) else find_bucket ctx index)
unfolding find_bucket
find_bucket-parse_bucket l ctx ctx' index h =
    let (o, found, e) = parse_bucket-head l ctx ctx' h in rw e refl

-- If every bucket parsed so far overflows only to one parsed before it, and parse_bucket
-- returns, this holds with the new bucket too.
pub parse_bucket-Downward :
    (l : Line) (ctx ctx' : Parsed)
    → Downward (buckets ctx)
    → parse_bucket l ctx ≡ ok ctx'
    → Downward (buckets ctx')
unfolding buckets
parse_bucket-Downward l ctx ctx' down h j =
    let (o, found, e) = parse_bucket-head l ctx ctx' h in
    let below = find_overflow-Below ctx l.overflow o found in
    elim (Bool-cases (j == parsed ctx)) [
      | inl same ↦
          let eq : parsed ctx ≡ j = sym ((==_iff j (parsed ctx)).0 same) in
          rw (e, buckets, same, ← eq) below
      | inr other ↦ rw (e, buckets, other) (down j)
    ]
