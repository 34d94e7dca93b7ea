-- ===== src/Jiffies.antt =====
-- tcsim/jiffies.c and tcsim/jiffies.h: times as jiffies and millionths of a jiffy. Both fields are
-- `unsigned long`, of 64 bits here.
pub mod Laws
pub mod Examples
use tcng.Common.{ℕ, zero, suc, ◌+◌, ◌-◌, ◌*◌, ◌%◌, ◌^◌, ◌≤◌, Bool, true, false}
use tcng.Common.{ltb, if◌then◌else◌}

pub record Jiffval : Type 0 where
  pub jiffies : ℕ
  pub ujiffies : ℕ

abbrev pub ulong : ℕ → ℕ
ulong n = n % 2 ^ 64

-- The results -1, 0 and 1 of `jiffval_cmp`.
pub data Cmp : Type 0 where
  before equal after : Cmp

unfoldable pub jiffval_cmp : Jiffval → Jiffval → Cmp
jiffval_cmp a b =
    if ltb a.jiffies b.jiffies
    then Cmp.before
    else if ltb b.jiffies a.jiffies
    then Cmp.after
    else if ltb a.ujiffies b.ujiffies
    then Cmp.before
    else if ltb b.ujiffies a.ujiffies
    then Cmp.after
    else Cmp.equal

-- `while (ujiffies > limit) { ujiffies -= 1000000; jiffies++; }`, with fuel.
unfoldable pub carry_loop : ℕ → ℕ → Jiffval → Jiffval
carry_loop zero limit j = j
carry_loop (suc fuel) limit j =
    let rest =
      carry_loop fuel limit
        (record { jiffies = ulong (j.jiffies + 1); ujiffies = j.ujiffies - 1000000 }) in
    if ltb limit j.ujiffies then rest else j

-- Every round takes a million off `ujiffies`, so `ujiffies` rounds are enough.
unfoldable pub normalize_jiffval : Jiffval → Jiffval
normalize_jiffval j = carry_loop j.ujiffies 999999 j

unfoldable pub jv_add : Jiffval → Jiffval → Jiffval
jv_add a b =
    let sum : Jiffval = record {
      jiffies = ulong (a.jiffies + b.jiffies);
      ujiffies = ulong (a.ujiffies + b.ujiffies);
    } in
    carry_loop (ulong (a.ujiffies + b.ujiffies)) 1000000 sum
