-- ===== src/Iflib/Not/Joins.antt =====
-- op_binary on `&&` and `||` (tcc/op.c), against the short-cut evaluation of Iflib/Meaning.
use tcng.Common.{ℕ, Bool, true, false, not, ◌&&◌, ◌||◌, ◌≡◌, ◌≢◌, refl, arith, Bool-cases, inl, inr}
use tcng.Common.{ok}
use tcng.Data.{Data, DataType, Op, Doubles, type_of, same_type, has_op, integer_number}
use tcng.Op.Base.{is_type}
use tcng.Op.Logic.{and_or_eval, and_or_const, in_condition, truth_of}
use tcng.Op.Eval.{op_binary, eval}
use tcng.Iflib.Meaning.{truth, seq_and, seq_or, run}
use tcng.Iflib.Runs.{run-and, run-or}

-- Both operands are constants, and not decisions.
abbrev folds : Data → Data → Bool
folds a b =
    not (is_type a DataType.decision)
    && (not (is_type b DataType.decision) && (not (has_op a) && not (has_op b)))

module _ {S : Type 0} (field : Data → S → ℕ) (test : Data → S → Bool) (charge : Data → S → S) where
  run-constant :
      (a : Data) (s : S)
      → in_condition a ≡ true
      → is_type a DataType.decision ≡ false
      → has_op a ≡ false
      → run field test charge a s ≡ truth (truth_of a) s
  unfolding type_of same_type has_op integer_number
  run-constant (Data.unum n) s h d o = unfold run in refl
  run-constant (Data.op t p a b c) s h d o = cc
  run-constant (Data.decision r c) s h d o = cc
  run-constant d s h e o = unfold run in refl

-- Nothing is negated.
unfoldable pub clean : Data → Bool
clean (Data.op t Op.ne a b c) = false
clean (Data.op t Op.logical_not a b c) = false
clean (Data.op t o a b c) = clean a && (clean b && clean c)
clean d = true

pub clean-and :
    (t : DataType) (a b c : Data)
    → clean a ≡ true
    → clean b ≡ true
    → clean c ≡ true
    → clean (Data.op t Op.logical_and a b c) ≡ true
unfolding clean
clean-and t a b c ha hb hc = ground arith

pub clean-or :
    (t : DataType) (a b c : Data)
    → clean a ≡ true
    → clean b ≡ true
    → clean c ≡ true
    → clean (Data.op t Op.logical_or a b c) ≡ true
unfolding clean
clean-or t a b c ha hb hc = ground arith

-- An operator or a decision, which no evaluation of `&&` and `||` makes a constant of.
abbrev pub lasting : Data → Bool
lasting d = has_op d || is_type d DataType.decision

contradiction : (a b : Data) → folds a b ≡ true → lasting a ≢ true
contradiction a b h l = ground arith

pub op-lasting : (d : Data) → has_op d ≡ true → lasting d ≡ true
op-lasting d h = rw h refl

-- What stands for two operands under `&&` or `||`: it can be joined again, and brings no negation.
pub record IsJoin (o : Op) (a b r : Data) : Type 0 where
  pub joins : in_condition r ≡ true
  pub stays_clean : clean a ≡ true → clean b ≡ true → clean r ≡ true
  pub lasts : lasting a ≡ true → has_op r ≡ true

module _ (fp : Doubles) (a b : Data) (ha : in_condition a ≡ true) (hb : in_condition b ≡ true) where
  and_kept :
      folds a b ≡ false
      → op_binary fp Op.logical_and a b ≡ ok (Data.op DataType.unum Op.logical_and a b Data.none)
  unfolding op_binary eval and_or_eval
  and_kept h = ground arith

  and_folded :
      folds a b ≡ true → op_binary fp Op.logical_and a b ≡ ok (and_or_const Op.logical_and a b)
  unfolding op_binary eval and_or_eval
  and_folded h = ground arith

  module _ {S : Type 0} (field : Data → S → ℕ) (test : Data → S → Bool)
      (charge : Data → S → S) where
    run-and_const :
        (s : S)
        → folds a b ≡ true
        → run field test charge (and_or_const Op.logical_and a b) s
          ≡ seq_and (run field test charge a) (run field test charge b) s
    unfolding and_or_const run
    run-and_const s h =
        let ea = run-constant field test charge a s ha (ground arith) (ground arith) in
        let eb = run-constant field test charge b s hb (ground arith) (ground arith) in
        ground (arith, ea, eb)

    pub op_binary-and :
        (r : Data) × (op_binary fp Op.logical_and a b ≡ ok r)
        × IsJoin Op.logical_and a b r
        × ((s : S)
            → run field test charge r s
              ≡ seq_and (run field test charge a) (run field test charge b) s)
    op_binary-and = elim (Bool-cases (folds a b)) [
      | inl constant ↦ (
        and_or_const Op.logical_and a b,
        and_folded constant,
        record {
          joins = unfold and_or_const type_of integer_number in refl;
          stays_clean = λ ca cb. unfold and_or_const clean in refl;
          lasts = λ l. absurd (contradiction a b constant l);
        },
        λ s. run-and_const s constant,
      )
      | inr kept ↦ (
        Data.op DataType.unum Op.logical_and a b Data.none,
        and_kept kept,
        record {
          joins = unfold type_of integer_number in refl;
          stays_clean = λ ca cb. clean-and DataType.unum a b Data.none ca cb (unfold clean in refl);
          lasts = λ l. unfold has_op in refl;
        },
        λ s. run-and field test charge DataType.unum a b Data.none s,
      )
    ]

module _ (fp : Doubles) (a b : Data) (ha : in_condition a ≡ true) (hb : in_condition b ≡ true) where
  or_kept :
      folds a b ≡ false
      → op_binary fp Op.logical_or a b ≡ ok (Data.op DataType.unum Op.logical_or a b Data.none)
  unfolding op_binary eval and_or_eval
  or_kept h = ground arith

  or_folded :
      folds a b ≡ true → op_binary fp Op.logical_or a b ≡ ok (and_or_const Op.logical_or a b)
  unfolding op_binary eval and_or_eval
  or_folded h = ground arith

  module _ {S : Type 0} (field : Data → S → ℕ) (test : Data → S → Bool)
      (charge : Data → S → S) where
    run-or_const :
        (s : S)
        → folds a b ≡ true
        → run field test charge (and_or_const Op.logical_or a b) s
          ≡ seq_or (run field test charge a) (run field test charge b) s
    unfolding and_or_const run
    run-or_const s h =
        let ea = run-constant field test charge a s ha (ground arith) (ground arith) in
        let eb = run-constant field test charge b s hb (ground arith) (ground arith) in
        ground (arith, ea, eb)

    pub op_binary-or :
        (r : Data) × (op_binary fp Op.logical_or a b ≡ ok r)
        × IsJoin Op.logical_or a b r
        × ((s : S)
            → run field test charge r s
              ≡ seq_or (run field test charge a) (run field test charge b) s)
    op_binary-or = elim (Bool-cases (folds a b)) [
      | inl constant ↦ (
        and_or_const Op.logical_or a b,
        or_folded constant,
        record {
          joins = unfold and_or_const type_of integer_number in refl;
          stays_clean = λ ca cb. unfold and_or_const clean in refl;
          lasts = λ l. absurd (contradiction a b constant l);
        },
        λ s. run-or_const s constant,
      )
      | inr kept ↦ (
        Data.op DataType.unum Op.logical_or a b Data.none,
        or_kept kept,
        record {
          joins = unfold type_of integer_number in refl;
          stays_clean = λ ca cb. clean-or DataType.unum a b Data.none ca cb (unfold clean in refl);
          lasts = λ l. unfold has_op in refl;
        },
        λ s. run-or field test charge DataType.unum a b Data.none s,
      )
    ]
