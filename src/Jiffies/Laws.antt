-- ===== src/Jiffies/Laws.antt =====
-- The functions of tcsim/jiffies.c, against the time in millionths of a jiffy.
use tcng.Common.{ℕ, zero, suc, ◌+◌, ◌-◌, ◌*◌, ◌%◌, ◌^◌, ◌<◌, ◌≤◌, ◌≡◌, ◌↔◌, ◌≢◌, arith, refl}
use tcng.Jiffies.{
  Jiffval, Cmp, before, equal, after, jiffval_cmp, carry_loop, normalize_jiffval, jv_add,
}

-- The time in millionths of a jiffy.
abbrev pub micros : Jiffval → ℕ
micros j = j.jiffies * 1000000 + j.ujiffies

abbrev pub IsNormalized : Jiffval → Type 0
IsNormalized j = j.ujiffies < 1000000

abbrev pub Compares : Cmp → ℕ → ℕ → Type 0
Compares before x y = x < y
Compares equal x y = x ≡ y
Compares after x y = y < x

-- On normalized times, jiffval_cmp compares the numbers of millionths of a jiffy.
pub jiffval_cmp-Compares :
    (a b : Jiffval)
    → IsNormalized a
    → IsNormalized b
    → Compares (jiffval_cmp a b) (micros a) (micros b)
unfolding jiffval_cmp
jiffval_cmp-Compares a b ha hb = ground arith

-- With enough fuel the loop ends by its test and keeps the time.
carry_loop_lem :
    (fuel limit : ℕ) (j : Jiffval)
    → 999999 ≤ limit
    → limit ≤ 1000000
    → j.ujiffies ≤ fuel
    → j.jiffies + j.ujiffies < 2 ^ 64
    → ((carry_loop fuel limit j).ujiffies ≤ limit) × (micros (carry_loop fuel limit j) ≡ micros j)
unfolding carry_loop
carry_loop_lem zero limit j lo hi enough fits = omega arith
carry_loop_lem (suc fuel) limit j lo hi enough fits = ground (
  arith,
  carry_loop_lem fuel limit
      (record { jiffies = (j.jiffies + 1) % 2 ^ 64; ujiffies = j.ujiffies - 1000000 }) lo hi,
)

carry_loop_stop : (fuel limit : ℕ) (j : Jiffval) → j.ujiffies ≤ limit → carry_loop fuel limit j ≡ j
unfolding carry_loop
carry_loop_stop zero limit j h = refl
carry_loop_stop (suc fuel) limit j h = ground arith

-- Where the jiffies do not overflow, normalize_jiffval leaves less than a million in `ujiffies`
-- and keeps the time.
pub normalize_jiffval-IsNormalized :
    (j : Jiffval)
    → j.jiffies + j.ujiffies < 2 ^ 64
    → IsNormalized (normalize_jiffval j) × (micros (normalize_jiffval j) ≡ micros j)
unfolding normalize_jiffval
normalize_jiffval-IsNormalized j fits =
    omega (arith, carry_loop_lem j.ujiffies 999999 j (omega arith) (omega arith) (omega arith) fits)

module _ (a b : Jiffval) (ha : IsNormalized a) (hb : IsNormalized b)
    (fits : a.jiffies + b.jiffies + 2000000 < 2 ^ 64) where
  sum : Jiffval
  sum = record {
    jiffies = (a.jiffies + b.jiffies) % 2 ^ 64;
    ujiffies = (a.ujiffies + b.ujiffies) % 2 ^ 64;
  }

  carried : ((jv_add a b).ujiffies ≤ 1000000) × (micros (jv_add a b) ≡ micros sum)
  unfolding jv_add sum
  carried =
      carry_loop_lem ((a.ujiffies + b.ujiffies) % 2 ^ 64) 1000000 sum (omega arith) (omega arith)
        (omega arith) (omega arith)

  -- On normalized times whose jiffies do not overflow, jv_add adds the times.
  pub micros-jv_add : micros (jv_add a b) ≡ micros a + micros b
  unfolding sum
  micros-jv_add = omega (arith, carried)

  -- On normalized times whose jiffies do not overflow, the result of jv_add is normalized
  -- exactly when the millionths do not add up to a whole jiffy.
  pub jv_add-IsNormalized_iff : IsNormalized (jv_add a b) ↔ (a.ujiffies + b.ujiffies ≢ 1000000)
  unfolding jv_add sum
  jv_add-IsNormalized_iff =
      let stop = carry_loop_stop ((a.ujiffies + b.ujiffies) % 2 ^ 64) 1000000 sum in
      ground (arith, carried, stop)
