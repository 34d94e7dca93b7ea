-- ===== src/Iflib/Not/Joined.antt =====
-- The operands of `&&` and `||` in bubble_not of tcc/iflib_not.c, each in its context.
use tcng.Common.{ℕ, Bool, true, ◌≡◌, refl, sym, ap, ◌∙◌}
use tcng.Common.{ok}
use mathlib.Core.Path.{fun_ext}
use tcng.Data.{has_op, Data, DataType, Op, Doubles, type_of, same_type, integer_number}
use tcng.Data.Convert.{same_type-eq}
use tcng.Op.Logic.{in_condition}
use tcng.Iflib.Meaning.{Run, seq_or, run}
use tcng.Iflib.Runs.{run-and, run-or}
use tcng.Iflib.Classify.{self_contained}
use tcng.Iflib.Trim.{is_stop, self_contained_lem}
use tcng.Iflib.Decides.{between, Decides, between-and, between-or}
use tcng.Iflib.Not.Joins.{op-lasting, clean, clean-and, clean-or, op_binary-and, op_binary-or}
use tcng.Iflib.Not.{extended}
use tcng.Iflib.Not.Placed.{extends}
use tcng.Iflib.Not.Contexts.{Agrees, replaced_stops, extended-Agrees}
use tcng.Iflib.Not.Expressed.{IsExpressed}

module _ (fp : Doubles) {S : Type 0} (field : Data → S → ℕ) (test : Data → S → Bool)
    (charge : Data → S → S) where
  -- A continuation and an alternative with what is known of them.
  pub record IsContext (next otherwise : Data) (n z : Bool) : Type 0 where
    pub next_usable : in_condition next ≡ true
    pub otherwise_usable : in_condition otherwise ≡ true
    pub next_decides : Decides n (run field test charge next)
    pub otherwise_decides : Decides z (run field test charge otherwise)

  pub swapped :
      (next otherwise : Data) (n z : Bool)
      → IsContext next otherwise n z
      → IsContext otherwise next z n
  swapped next otherwise n z h = record {
    next_usable = h.otherwise_usable;
    otherwise_usable = h.next_usable;
    next_decides = h.otherwise_decides;
    otherwise_decides = h.next_decides;
  }

  -- What the left operand of `&&` and `||` has in place of the right one and its context.
  pub record IsExtended (b b' next otherwise : Data) (n z : Bool) (ext : Data) : Type 0 where
    pub ext_usable : in_condition ext ≡ true
    pub ext_op : has_op ext ≡ true
    pub ext_decides : Decides (extends n z (self_contained b)) (run field test charge ext)
    pub ext_agrees :
        (kn kz : Run S)
        → Agrees n kn (run field test charge next)
        → Agrees z kz (run field test charge otherwise)
        → Agrees
            (extends n z (self_contained b))
            (between (run field test charge b') kn kz)
            (run field test charge ext)
    pub ext_clean : clean next ≡ true → clean otherwise ≡ true → clean ext ≡ true

  pub extended_lem :
      (b b' next otherwise : Data) (n z : Bool)
      → IsContext next otherwise n z
      → IsExpressed fp field test charge b next otherwise n z b'
      → (ext : Data) × (extended fp b' next otherwise ≡ ok ext)
        × IsExtended b b' next otherwise n z ext
  unfolding extended
  extended_lem b b' next otherwise n z h eb =
      let (both, made, joined, meaning) =
        op_binary-and fp b' next eb.usable h.next_usable field test charge in
      let (ext, made', joined', meaning') =
        op_binary-or fp both otherwise joined.joins h.otherwise_usable field test charge in
      let runs = run field test charge in
      let agrees : (kn kz : Run S)
          → Agrees n kn (runs next)
          → Agrees z kz (runs otherwise)
          → Agrees (extends n z (self_contained b)) (between (runs b') kn kz) (runs ext) =
        λ kn kz an az e s.
          sym (
            extended-Agrees n z (self_contained b) (runs b) (runs b') (runs next) (runs otherwise) s
              e (self_contained_lem field test charge b) eb.same h.next_decides h.otherwise_decides
              kn kz an az)
          ∙ sym (meaning' s ∙ ap (λ x. seq_or x (runs otherwise) s) (fun_ext (λ s'. meaning s'))) in
      (
        ext,
        rw (made, made') refl,
        record {
          ext_usable = joined'.joins;
          ext_op = joined'.lasts (op-lasting both (joined.lasts eb.is_lasting));
          ext_decides = λ e s.
              ap is_stop
                (sym (agrees (runs next) (runs otherwise) (λ f s'. refl) (λ f s'. refl) e s))
              ∙ replaced_stops n z (self_contained b) (runs b) (runs b') (runs next)
                  (runs otherwise) s e (self_contained_lem field test charge b) eb.same
                  h.next_decides h.otherwise_decides (runs next) (runs otherwise) (λ f s'. refl)
                  (λ f s'. refl);
          ext_agrees = agrees;
          ext_clean =
              λ cn cz. joined'.stays_clean (joined.stays_clean (eb.without_not cn cz) cn) cz;
        },
      )

  pub next_extended :
      (b b' next otherwise ext : Data) (n z : Bool)
      → IsContext next otherwise n z
      → IsExtended b b' next otherwise n z ext
      → IsContext ext otherwise (extends n z (self_contained b)) z
  next_extended b b' next otherwise ext n z k e = record {
    next_usable = e.ext_usable;
    otherwise_usable = k.otherwise_usable;
    next_decides = e.ext_decides;
    otherwise_decides = k.otherwise_decides;
  }

  pub otherwise_extended :
      (b b' next otherwise ext : Data) (n z : Bool)
      → IsContext next otherwise n z
      → IsExtended b b' next otherwise n z ext
      → IsContext next ext n (extends n z (self_contained b))
  otherwise_extended b b' next otherwise ext n z k e = record {
    next_usable = k.next_usable;
    otherwise_usable = e.ext_usable;
    next_decides = k.next_decides;
    otherwise_decides = e.ext_decides;
  }

  pub and_IsExpressed :
      (t : DataType) (a b c a' b' next otherwise ext : Data) (n z : Bool)
      → same_type t DataType.unum ≡ true
      → clean c ≡ true
      → IsExpressed fp field test charge b next otherwise n z b'
      → IsExtended b b' next otherwise n z ext
      → IsExpressed fp field test charge a ext otherwise (extends n z (self_contained b)) z a'
      → IsExpressed fp field test charge
          (Data.op t Op.logical_and a b c)
          next
          otherwise
          n
          z
          (Data.op t Op.logical_and a' b' c)
  and_IsExpressed t a b c a' b' next otherwise ext n z ht hc eb ee ea =
      let runs = run field test charge in
      record {
        usable = rw (same_type-eq t DataType.unum ht) (unfold type_of integer_number in refl);
        is_lasting = unfold has_op in refl;
        same = λ kn kz an az s.
            ap (λ x. between x kn kz s) (fun_ext (λ s'. run-and field test charge t a' b' c s'))
            ∙ between-and (runs a') (runs b') kn kz s
            ∙ ea.same (between (runs b') kn kz) kz (ee.ext_agrees kn kz an az) az s
            ∙ ap (λ k. between (runs a) k kz s) (fun_ext (λ s'. eb.same kn kz an az s'))
            ∙ sym (between-and (runs a) (runs b) kn kz s)
            ∙ sym (
                ap (λ x. between x kn kz s) (fun_ext (λ s'. run-and field test charge t a b c s')));
        without_not = λ cn cz.
            clean-and t a' b' c (ea.without_not (ee.ext_clean cn cz) cz) (eb.without_not cn cz) hc;
      }

  pub or_IsExpressed :
      (t : DataType) (a b c a' b' next otherwise ext : Data) (n z : Bool)
      → same_type t DataType.unum ≡ true
      → clean c ≡ true
      → IsExpressed fp field test charge b next otherwise n z b'
      → IsExtended b b' next otherwise n z ext
      → IsExpressed fp field test charge a next ext n (extends n z (self_contained b)) a'
      → IsExpressed fp field test charge
          (Data.op t Op.logical_or a b c)
          next
          otherwise
          n
          z
          (Data.op t Op.logical_or a' b' c)
  or_IsExpressed t a b c a' b' next otherwise ext n z ht hc eb ee ea =
      let runs = run field test charge in
      record {
        usable = rw (same_type-eq t DataType.unum ht) (unfold type_of integer_number in refl);
        is_lasting = unfold has_op in refl;
        same = λ kn kz an az s.
            ap (λ x. between x kn kz s) (fun_ext (λ s'. run-or field test charge t a' b' c s'))
            ∙ between-or (runs a') (runs b') kn kz s
            ∙ ea.same kn (between (runs b') kn kz) an (ee.ext_agrees kn kz an az) s
            ∙ ap (λ k. between (runs a) kn k s) (fun_ext (λ s'. eb.same kn kz an az s'))
            ∙ sym (between-or (runs a) (runs b) kn kz s)
            ∙ sym
                (ap (λ x. between x kn kz s) (fun_ext (λ s'. run-or field test charge t a b c s')));
        without_not = λ cn cz.
            clean-or t a' b' c (ea.without_not cn (ee.ext_clean cn cz)) (eb.without_not cn cz) hc;
      }
