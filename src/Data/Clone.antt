-- ===== src/Data/Clone.antt =====
-- tcc/data.c: data_clone and data_clone_assoc, less the links to the parent.
use tcng.Data.{Data, Entries, end, entry}

unfoldable mutual
  pub data_clone : Data → Data
  data_clone (Data.op t o a b c) = Data.op t o (data_clone a) (data_clone b) (data_clone c)
  data_clone (Data.assoc es) = Data.assoc (data_clone_assoc es)
  data_clone d = d

  pub data_clone_assoc : Entries → Entries
  data_clone_assoc end = end
  data_clone_assoc (entry name d es) = entry name (data_clone d) (data_clone_assoc es)
