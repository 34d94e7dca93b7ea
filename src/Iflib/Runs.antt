-- ===== src/Iflib/Runs.antt =====
-- The short-cut evaluation of Iflib/Meaning.
use tcng.Common.{ℕ, Bool, true, false, ◌≡◌, refl, arith}
use tcng.Data.{Data, DataType, Op}
use tcng.Iflib.Meaning.{truth, Run, seq_and, seq_or, seq_not, run}

pub seq_and_assoc :
    {S : Type 0} (x y z : Run S) (s : S) → seq_and (seq_and x y) z s ≡ seq_and x (seq_and y z) s
seq_and_assoc x y z s = ground arith

pub seq_or_assoc :
    {S : Type 0} (x y z : Run S) (s : S) → seq_or (seq_or x y) z s ≡ seq_or x (seq_or y z) s
seq_or_assoc x y z s = ground arith

pub seq_and-true : {S : Type 0} (x : Run S) (s : S) → seq_and x (λ s'. truth true s') s ≡ x s
seq_and-true x s = ground arith

pub seq_or-false : {S : Type 0} (x : Run S) (s : S) → seq_or x (λ s'. truth false s') s ≡ x s
seq_or-false x s = ground arith

module _ {S : Type 0} (field : Data → S → ℕ) (test : Data → S → Bool) (charge : Data → S → S) where
  pub run-and :
      (t : DataType) (a b c : Data) (s : S)
      → run field test charge (Data.op t Op.logical_and a b c) s
        ≡ seq_and (run field test charge a) (run field test charge b) s
  unfolding run
  run-and t a b c s = refl

  pub run-or :
      (t : DataType) (a b c : Data) (s : S)
      → run field test charge (Data.op t Op.logical_or a b c) s
        ≡ seq_or (run field test charge a) (run field test charge b) s
  unfolding run
  run-or t a b c s = refl

  pub run-not :
      (t : DataType) (a b c : Data) (s : S)
      → run field test charge (Data.op t Op.logical_not a b c) s
        ≡ seq_not (run field test charge a) s
  unfolding run
  run-not t a b c s = refl
