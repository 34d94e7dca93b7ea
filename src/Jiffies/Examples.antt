-- ===== src/Jiffies/Examples.antt =====
-- Times whose millionths make up a jiffy, and more.
use tcng.Common.{◌+◌, ◌≢◌, ◌↔◌, arith}
use tcng.Jiffies.{Jiffval, jv_add}
use tcng.Jiffies.Laws.{IsNormalized}
use tcng.Jiffies.Laws.{jv_add-IsNormalized_iff}

abbrev early : Jiffval
early = record { jiffies = 3; ujiffies = 400000 }

abbrev late : Jiffval
late = record { jiffies = 3; ujiffies = 600000 }

abbrev long : Jiffval
long = record { jiffies = 3; ujiffies = 2500000 }

jv_add-IsNormalized_iff_example :
    IsNormalized (jv_add early late) ↔ (early.ujiffies + late.ujiffies ≢ 1000000)
jv_add-IsNormalized_iff_example =
    jv_add-IsNormalized_iff early late (omega arith) (omega arith) (omega arith)
