-- ===== src/Iflib/Not/Expressed.antt =====
-- What bubble_not of tcc/iflib_not.c makes of an expression in its context.
use tcng.Common.{ℕ, Bool, true, false, none, some, ◌≡◌, refl, sym, ap, ◌∙◌, arith}
use tcng.Common.{ok}
use mathlib.Core.Path.{fun_ext}
use tcng.Data.{has_op, Data, DataType, Op, Doubles, type_of, same_type, integer_number}
use tcng.Data.Convert.{same_type-eq}
use tcng.Op.Logic.{in_condition}
use tcng.Iflib.Meaning.{stop, truth, Verdict, Run, seq_and, seq_or, run, plain, condition}
use tcng.Iflib.Runs.{run-not}
use tcng.Iflib.Trim.{is_stop}
use tcng.Iflib.Decides.{between, Decides, between-not}
use tcng.Iflib.Not.Joins.{lasting, op-lasting, clean, op_binary-and, op_binary-or}
use tcng.Iflib.Not.{single_bit_test, negated, bubble_not}
use tcng.Iflib.Not.Placed.{in_range}
use tcng.Iflib.Not.Contexts.{Replaces}
use tcng.Iflib.Not.OneBit.{run-single_bit_test}
use tcng.Iflib.Not.Plain.{plain-clean, plain-bubble_not, op_unary-test}

pub condition-in_condition : (d : Data) → condition d ≡ true → in_condition d ≡ true
unfolding condition type_of integer_number same_type
condition-in_condition (Data.op t o a b c) h =
    let same : same_type t DataType.unum ≡ true = ground arith in
    rw (same_type-eq t DataType.unum same) refl
condition-in_condition (Data.unum n) h = refl
condition-in_condition (Data.decision r k) h = refl
condition-in_condition d h = cc

pub ne-operands :
    (t : DataType) (a b c : Data)
    → condition (Data.op t Op.ne a b c) ≡ true
    → (same_type t DataType.unum ≡ true) × (plain a ≡ true) × (plain b ≡ true) × (plain c ≡ true)
unfolding condition
ne-operands t a b c h = ground arith

pub eq-in_condition :
    (t : DataType) (a b c : Data)
    → same_type t DataType.unum ≡ true
    → in_condition (Data.op t Op.eq a b c) ≡ true
unfolding type_of integer_number same_type
eq-in_condition t a b c h = rw (same_type-eq t DataType.unum h) refl

pub eq-clean :
    (t : DataType) (a b c : Data)
    → clean a ≡ true
    → clean b ≡ true
    → clean c ≡ true
    → clean (Data.op t Op.eq a b c) ≡ true
unfolding clean
eq-clean t a b c ha hb hc = rw (ha, hb, hc) refl

-- `(a && otherwise) || next` in the context of `!a`.
negated_between :
    {S : Type 0} (x next otherwise kn kz : Run S) (s : S)
    → ((s' : S) → kn s' ≡ next s')
    → ((s' : S) → kz s' ≡ otherwise s')
    → ((s' : S) → is_stop (next s') ≡ true)
    → ((s' : S) → is_stop (otherwise s') ≡ true)
    → between (seq_or (seq_and x otherwise) next) kn kz s ≡ between x kz kn s
negated_between {S = S} x next otherwise kn kz s an az hn hz = from (x s) refl
  where
    from :
        (v : Verdict S)
        → x s ≡ v
        → between (seq_or (seq_and x otherwise) next) kn kz s ≡ between x kz kn s
    from (stop q k s') h = ground arith
    from (truth true s') h = ground (arith, hz s', az s')
    from (truth false s') h = ground (arith, hn s', an s')

module _ (fp : Doubles) {S : Type 0} (field : Data → S → ℕ) (test : Data → S → Bool)
    (charge : Data → S → S) where
  -- `!=` is `==` negated.
  run-eq_not :
      (t : DataType) (a b c x y : Data) (s : S)
      → run field test charge (Data.op t Op.logical_not (Data.op t Op.eq a b c) x y) s
        ≡ run field test charge (Data.op t Op.ne a b c) s
  unfolding run
  run-eq_not t a b c x y s = refl

  -- What bubble_not owes in a context.
  pub record IsExpressed (d next otherwise : Data) (n z : Bool) (d' : Data) : Type 0 where
    pub usable : in_condition d' ≡ true
    pub is_lasting : lasting d' ≡ true
    pub same :
        Replaces n z
          (run field test charge next)
          (run field test charge otherwise)
          (run field test charge d)
          (run field test charge d')
    pub without_not : clean next ≡ true → clean otherwise ≡ true → clean d' ≡ true

  abbrev pub Expressed : Data → Data → Data → Bool → Bool → Type 0
  Expressed d next otherwise n z =
      (d' : Data) × (bubble_not fp false d next otherwise ≡ ok d')
      × IsExpressed d next otherwise n z d'

  -- An operand of bubble_not that stays what it is.
  pub stays :
      (d next otherwise : Data) (n z : Bool)
      → bubble_not fp false d next otherwise ≡ ok d
      → in_condition d ≡ true
      → lasting d ≡ true
      → clean d ≡ true
      → Expressed d next otherwise n z
  stays d next otherwise n z e i l c = (
    d,
    e,
    record { usable = i; is_lasting = l; same = λ kn kz an az s. refl; without_not = λ cn cz. c },
  )

  -- `!a`, from `a` in the swapped context.
  pub negated_lem :
      (a a' next otherwise : Data) (n z : Bool)
      → IsExpressed a otherwise next z n a'
      → n ≡ true
      → z ≡ true
      → in_condition next ≡ true
      → in_condition otherwise ≡ true
      → Decides n (run field test charge next)
      → Decides z (run field test charge otherwise)
      → (d' : Data) × (negated fp a' next otherwise ≡ ok d')
        × ((t : DataType) (b c : Data)
            → IsExpressed (Data.op t Op.logical_not a b c) next otherwise n z d')
  unfolding negated
  negated_lem a a' next otherwise n z h set_n set_z i_n i_z dn dz =
      let (both, made, joined, meaning) =
        op_binary-and fp a' otherwise h.usable i_z field test charge in
      let (result, made', joined', meaning') =
        op_binary-or fp both next joined.joins i_n field test charge in
      let runs = run field test charge in
      let expressed : runs result ≡ seq_or (seq_and (runs a') (runs otherwise)) (runs next) =
        fun_ext (λ s. meaning' s) ∙ ap (λ x. seq_or x (runs next)) (fun_ext (λ s. meaning s)) in
      (
        result,
        rw (made, made') refl,
        λ t b c. record {
          usable = joined'.joins;
          is_lasting =
              op-lasting result (joined'.lasts (op-lasting both (joined.lasts h.is_lasting)));
          same = λ kn kz an az s.
              ap (λ x. between x kn kz s) expressed
              ∙ negated_between (runs a') (runs next) (runs otherwise) kn kz s (an set_n) (az set_z)
                  (dn set_n) (dz set_z)
              ∙ h.same kz kn az an s
              ∙ sym (between-not (runs a) kn kz s)
              ∙ sym (
                  ap (λ x. between x kn kz s)
                    (fun_ext (λ s'. run-not field test charge t a b c s')));
          without_not =
              λ cn cz. joined'.stays_clean (joined.stays_clean (h.without_not cz cn) cz) cn;
        },
      )

  -- `a != b` where no inverted test of one bit stands for it.
  pub ne_negated :
      (t : DataType) (a b c next otherwise : Data) (n z : Bool)
      → condition (Data.op t Op.ne a b c) ≡ true
      → single_bit_test fp a b ≡ ok none
      → n ≡ true
      → z ≡ true
      → in_condition next ≡ true
      → in_condition otherwise ≡ true
      → Decides n (run field test charge next)
      → Decides z (run field test charge otherwise)
      → Expressed (Data.op t Op.ne a b c) next otherwise n z
  ne_negated t a b c next otherwise n z h kept set_n set_z i_n i_z dn dz =
      let (ht, ha, hb, hc) = ne-operands t a b c h in
      let equal : IsExpressed (Data.op t Op.eq a b c) otherwise next z n (Data.op t Op.eq a b c) =
        record {
          usable = eq-in_condition t a b c ht;
          is_lasting = unfold has_op in refl;
          same = λ kn kz an az s. refl;
          without_not =
              λ cn cz. eq-clean t a b c (plain-clean a ha) (plain-clean b hb) (plain-clean c hc);
        } in
      let (result, made, meaning) =
        negated_lem (Data.op t Op.eq a b c) (Data.op t Op.eq a b c) next otherwise n z equal set_n
          set_z i_n i_z dn dz in
      let e = meaning t Data.none Data.none in
      (
        result,
        unfold bubble_not in
            rw
              (
                kept,
                op_unary-test fp t a b c ht,
                plain-bubble_not fp b otherwise next hb,
                plain-bubble_not fp a otherwise next ha,
                plain-bubble_not fp c otherwise next hc,
                made,
              )
              refl,
        record {
          usable = e.usable;
          is_lasting = e.is_lasting;
          same = λ kn kz an az s.
              e.same kn kz an az s
              ∙ ap (λ x. between x kn kz s)
                  (fun_ext (λ s'. run-eq_not t a b c Data.none Data.none s'));
          without_not = e.without_not;
        },
      )

  pub ne_inverted :
      (t : DataType) (a b c next otherwise : Data) (n z : Bool) {b' : Data}
      → condition (Data.op t Op.ne a b c) ≡ true
      → in_range a ≡ true
      → single_bit_test fp a b ≡ ok (some b')
      → clean b' ≡ true
      → Expressed (Data.op t Op.ne a b c) next otherwise n z
  ne_inverted t a b c next otherwise n z {b'} h r found cb = (
    Data.op t Op.eq a b' c,
    unfold bubble_not in rw found refl,
    record {
      usable = eq-in_condition t a b' c (ne-operands t a b c h).0;
      is_lasting = unfold has_op in refl;
      same = λ kn kz an az s.
          ap (λ x. between x kn kz s)
            (fun_ext (λ s'. run-single_bit_test field test charge fp t t t a b c c s' found r));
      without_not = λ cn cz.
          eq-clean t a b' c (plain-clean a (ne-operands t a b c h).1) cb
            (plain-clean c (ne-operands t a b c h).3);
    },
  )
