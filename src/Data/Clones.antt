-- ===== src/Data/Clones.antt =====
-- data_clone of tcc/data.c, against what it is given.
use tcng.Common.{◌≡◌, refl, arith}
use tcng.Data.{Data, Entries, end, entry}
use tcng.Data.Clone.{data_clone, data_clone_assoc}

mutual
  unfolding data_clone data_clone_assoc

  clone_data : (d : Data) → data_clone d ≡ d
  clone_data (Data.op t o a b c) = ground (arith, clone_data a, clone_data b, clone_data c)
  clone_data (Data.assoc es) = ground (arith, clone_entries es)
  clone_data d = refl

  clone_entries : (es : Entries) → data_clone_assoc es ≡ es
  clone_entries end = refl
  clone_entries (entry name d es) = ground (arith, clone_data d, clone_entries es)

-- For every datum, data_clone returns what it is given: every constant and operator of an
-- expression, and every name and value of a structure, to any depth.
pub data_clone_lem : (d : Data) → data_clone d ≡ d
data_clone_lem d = clone_data d
