-- ===== src/Match/Pour.antt =====
-- refill_bucket of tcc/ext/match.c: what the overflow chain does with the tokens.
use tcng.Common.{ℕ, zero, suc, ◌+◌, ◌-◌, ◌%◌, ◌^◌, ◌≤◌, ◌<◌, min, ◌≡◌, refl, sym, ap, ◌∙◌, arith}
use tcng.Common.{
  Option, none, some, ok, Bool-cases, inl, inr, leb, leb→le, ==_iff, true, false, ◌==◌,
}
use tcng.Common.{◌≢◌}
use mathlib.Core.Path.{subst}
use native.Mathlib.Nat.{le_refl}
use tcng.Data.{Double}
use tcng.Match.Buckets.{Bucket, Buckets, put, pour}

-- A bucket overflows only to one that was parsed before it.
abbrev pub Below : Option ℕ → ℕ → Type 0
Below none n = Unit
Below (some i) n = i < n

abbrev pub Downward : Buckets → Type 0
Downward h = (j : ℕ) → Below (h j).overflow j

-- No bucket holds more than its depth, now or at first, and its limits are no negative `int`.
abbrev pub Fits : Bucket → Type 0
Fits b = (b.tokens ≤ b.depth) × (b.initial_tokens ≤ b.depth) × (b.depth < 2 ^ 31) × (b.mpu < 2 ^ 31)

abbrev pub Filled : Buckets → Type 0
Filled h = (j : ℕ) → Fits (h j)

-- The tokens of the buckets of a chain, and their depths.
unfoldable pub level : ℕ → Option ℕ → Buckets → ℕ
level fuel none h = 0
level zero (some i) h = 0
level (suc fuel) (some i) h = let b = h i in b.tokens + level fuel b.overflow h

unfoldable pub capacity : ℕ → Option ℕ → Buckets → ℕ
capacity fuel none h = 0
capacity zero (some i) h = 0
capacity (suc fuel) (some i) h = let b = h i in b.depth + capacity fuel b.overflow h

pub put_same : (i : ℕ) (b : Bucket) (h : Buckets) → put i b h i ≡ b
unfolding put
put_same i b h = ground arith

pub put_other : (i j : ℕ) (b : Bucket) (h : Buckets) → j ≢ i → put i b h j ≡ h j
unfolding put
put_other i j b h ne = ground (arith, ne)

not_leb : (a b : ℕ) → leb a b ≡ false → b < a
not_leb a b h = ground arith

pub lower : (o : Option ℕ) (j i : ℕ) → Below o j → j ≤ i → Below o i
lower none j i below h = tt
lower (some k) j i below h = omega arith

-- A chain below a bucket does not see it.
level-put :
    (fuel i : ℕ) (o : Option ℕ) (b : Bucket) (h : Buckets)
    → Downward h
    → Below o i
    → level fuel o (put i b h) ≡ level fuel o h
unfolding level
level-put fuel i none b h down below = refl
level-put zero i (some j) b h down below = refl
level-put (suc fuel) i (some j) b h down below =
    let e = put_other i j b h (omega arith) in
    let deeper =
      level-put fuel i (h j).overflow b h down (lower (h j).overflow j i (down j) (omega arith)) in
    rw (e, deeper) refl

capacity-put :
    (fuel i : ℕ) (o : Option ℕ) (b : Bucket) (h : Buckets)
    → Downward h
    → Below o i
    → capacity fuel o (put i b h) ≡ capacity fuel o h
unfolding capacity
capacity-put fuel i none b h down below = refl
capacity-put zero i (some j) b h down below = refl
capacity-put (suc fuel) i (some j) b h down below =
    let e = put_other i j b h (omega arith) in
    let deeper =
      capacity-put fuel i (h j).overflow b h down
        (lower (h j).overflow j i (down j) (omega arith)) in
    rw (e, deeper) refl

-- The time of a refill changes no sum.
pub level-last_refill :
    (fuel i : ℕ) (now : Double) (h : Buckets)
    → Downward h
    → level (suc fuel) (some i) (put i (record (h i) { last_refill = now }) h)
      ≡ level (suc fuel) (some i) h
unfolding level
level-last_refill fuel i now h down =
    let b = record (h i) { last_refill = now } in
    rw (put_same i b h)
      (ap (λ (t : ℕ). (h i).tokens + t) (level-put fuel i (h i).overflow b h down (down i)))

pub capacity-last_refill :
    (fuel i : ℕ) (now : Double) (h : Buckets)
    → Downward h
    → capacity (suc fuel) (some i) (put i (record (h i) { last_refill = now }) h)
      ≡ capacity (suc fuel) (some i) h
unfolding capacity
capacity-last_refill fuel i now h down =
    let b = record (h i) { last_refill = now } in
    rw (put_same i b h)
      (ap (λ (t : ℕ). (h i).depth + t) (capacity-put fuel i (h i).overflow b h down (down i)))

-- Only tokens change, and only in buckets of the chain.
pub record Poured (o : Option ℕ) (h h' : Buckets) : Type 0 where
  pub only : (j : ℕ) → h' j ≡ record (h j) { tokens = (h' j).tokens }
  pub above : (b j : ℕ) → Below o b → b ≤ j → h' j ≡ h j

-- A bucket whose tokens change.
abbrev with_tokens : ℕ → ℕ → Buckets → Buckets
with_tokens i n h = put i (record (h i) { tokens = n }) h

Poured-with_tokens : (i n : ℕ) (h : Buckets) → Poured (some i) h (with_tokens i n h)
unfolding put
Poured-with_tokens i n h = record { only = λ j. grind arith; above = λ b j below le. ground arith }

pub Downward-Poured : (o : Option ℕ) (h h' : Buckets) → Poured o h h' → Downward h → Downward h'
Downward-Poured o h h' p down j = subst (λ b. Below b.overflow j) (sym (p.only j)) (down j)

pub Filled-put : (i : ℕ) (b : Bucket) (h : Buckets) → Filled h → Fits b → Filled (put i b h)
unfolding put
Filled-put i b h fill fits j = elim (Bool-cases (j == i)) [
  | inl e ↦ rw (e, put) fits
  | inr e ↦ rw (e, put) (fill j)
]

pub Downward-put :
    (i : ℕ) (b : Bucket) (h : Buckets)
    → Downward h
    → b.overflow ≡ (h i).overflow
    → Downward (put i b h)
unfolding put
Downward-put i b h down same j = elim (Bool-cases (j == i)) [
  | inl e ↦ let eq : i ≡ j = sym ((==_iff j i).0 e) in rw (e, put, same, eq) (down j)
  | inr e ↦ rw (e, put) (down j)
]

Filled-with_tokens :
    (i n : ℕ) (h : Buckets) → Filled h → n ≤ (h i).depth → Filled (with_tokens i n h)
Filled-with_tokens i n h fill le =
    Filled-put i (record (h i) { tokens = n }) h fill (le, (fill i).1, (fill i).2, (fill i).3)

Poured-Poured :
    (o : Option ℕ) (i n : ℕ) (h h' : Buckets)
    → Below o i
    → Poured o (with_tokens i n h) h'
    → Poured (some i) h h'
Poured-Poured o i n h h' below p =
    let first = Poured-with_tokens i n h in
    record {
      only =
          λ j. p.only j ∙ ap (λ (b : Bucket). record b { tokens = (h' j).tokens }) (first.only j);
      above = λ b j lt le. p.above b j (lower o i b below (omega arith)) le ∙ first.above b j lt le;
    }

-- What `pour` leaves of `t` tokens: all of them, up to the capacity of the chain, unless `t` is the
-- word of a negative `int`.
abbrev pub Leaves : ℕ → Option ℕ → ℕ → Buckets → Buckets → Type 0
Leaves fuel o t h h' =
    (pour fuel o t h ≡ ok h')
    × Poured o h h'
    × Filled h'
    × (t < 2 ^ 31 → level fuel o h' ≡ min (level fuel o h + t) (capacity fuel o h))

level-capacity :
    (fuel : ℕ) (o : Option ℕ) (h : Buckets) → Filled h → level fuel o h ≤ capacity fuel o h
unfolding level capacity
level-capacity fuel none h fill = omega arith
level-capacity zero (some i) h fill = omega arith
level-capacity (suc fuel) (some i) h fill =
    omega (arith, level-capacity fuel (h i).overflow h fill, (fill i).0)

Poured-refl : (o : Option ℕ) (h : Buckets) → Poured o h h
Poured-refl o h = record { only = λ j. refl; above = λ b j lt le. refl }

abbrev pub At : ℕ → ℕ → Buckets → Buckets → Type 0
At i n h h' = h' i ≡ record (h i) { tokens = n }

level_top :
    (fuel i n : ℕ) (h h' : Buckets)
    → At i n h h'
    → level (suc fuel) (some i) h' ≡ n + level fuel (h i).overflow h'
unfolding level
level_top fuel i n h h' e = rw e refl

abbrev total : ℕ → ℕ → Buckets → ℕ
total i t h = ((h i).tokens + suc t) % 2 ^ 32

-- All fits into the first bucket.
pour_within :
    (fuel i t : ℕ) (h : Buckets)
    → Downward h
    → Filled h
    → leb (total i t h) (h i).depth ≡ true
    → Leaves (suc fuel) (some i) (suc t) h (with_tokens i (total i t h) h)
unfolding pour level capacity
pour_within fuel i t h down fill fits =
    let b = h i in
    let o = b.overflow in
    let sum : ℕ = total i t h in
    let h1 = with_tokens i sum h in
    let le : sum ≤ b.depth = leb→le _ _ fits in
    let top = level_top fuel i sum h h1 (put_same i _ h) in
    let same = level-put fuel i o (record b { tokens = sum }) h down (down i) in
    (
      rw fits refl,
      Poured-with_tokens i sum h,
      Filled-with_tokens i sum h fill le,
      λ small. omega (arith, top, same, level-capacity fuel o h fill, fill i),
    )

-- The first bucket is full, and the rest goes on.
pour_over :
    (fuel i t : ℕ) (h h' : Buckets)
    → Downward h
    → Filled h
    → leb (total i t h) (h i).depth ≡ false
    → Leaves fuel (h i).overflow (total i t h - (h i).depth) (with_tokens i (h i).depth h) h'
    → Leaves (suc fuel) (some i) (suc t) h h'
unfolding pour level capacity
pour_over fuel i t h h' down fill over (runs, p, fill', sum) =
    let b = h i in
    let o = b.overflow in
    let full = record b { tokens = b.depth } in
    let lt : b.depth < total i t h = not_leb _ _ over in
    let top =
      level_top fuel i b.depth h h' (p.above i i (down i) (le_refl i) ∙ put_same i full h) in
    let same = level-put fuel i o full h down (down i) in
    let room = capacity-put fuel i o full h down (down i) in
    (
      rw over runs,
      Poured-Poured o i b.depth h h' (down i) p,
      fill',
      λ small. omega (arith, top, same, room, fill i, sum (omega (arith, fill i))),
    )

pub pour_lem :
    (fuel : ℕ) (o : Option ℕ) (t : ℕ) (h : Buckets)
    → Below o fuel
    → Downward h
    → Filled h
    → (h' : Buckets) × Leaves fuel o t h h'
unfolding pour level capacity
pour_lem fuel none t h below down fill = (h, (refl, Poured-refl none h, fill, λ small. omega arith))
pour_lem zero (some i) zero h below down fill = absurd (omega arith)
pour_lem (suc fuel) (some i) zero h below down fill =
    let le = level-capacity (suc fuel) (some i) h fill in
    (h, (refl, Poured-refl (some i) h, fill, λ small. omega (arith, le)))
pour_lem zero (some i) (suc t) h below down fill = absurd (omega arith)
pour_lem (suc fuel) (some i) (suc t) h below down fill =
    let b = h i in
    let h1 = with_tokens i b.depth h in
    let p = Poured-with_tokens i b.depth h in
    let rest =
      pour_lem fuel b.overflow (total i t h - b.depth) h1
        (lower b.overflow i fuel (down i) (omega arith)) (Downward-Poured (some i) h h1 p down)
        (Filled-with_tokens i b.depth h fill (le_refl _)) in
    elim (Bool-cases (leb (total i t h) b.depth)) [
      | inl fits ↦ (with_tokens i (total i t h) h, pour_within fuel i t h down fill fits)
      | inr over ↦ (rest.0, pour_over fuel i t h rest.0 down fill over rest.1)
    ]
