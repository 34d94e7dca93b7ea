-- ===== src/Data/Examples.antt =====
-- Conversions of an address and of a number.
use tcng.Common.{false, [], ◌∷◌}
use tcng.U128.{U128}
use tcng.Data.{end, entry, Data, Doubles}

-- A stand-in for floating point, with every number its own pattern.
abbrev pub plain_doubles : Doubles
plain_doubles = record {
  add = λ x y. x;
  sub = λ x y. x;
  mul = λ x y. x;
  div = λ x y. x;
  neg = λ x. x;
  of_u32 = λ n. n;
  to_u32 = λ x. x;
  equal = λ x y. false;
  less = λ x y. false;
  eight = 8;
}

abbrev address : U128
address = record { v0 = 9; v1 = 0; v2 = 0; v3 = 0 }

abbrev clock_entry : Data
clock_entry = Data.assoc (entry (104 ∷ 122 ∷ []) (Data.unum 100) end)
