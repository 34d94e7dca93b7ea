-- ===== src/Iflib/Not/Suits.antt =====
-- The single negations of bubble_not (tcc/iflib_not.c), and what is asked of an expression.
use tcng.Common.{ℕ, Bool, true, ◌&&◌, ◌||◌, ◌≡◌, refl, sym, ap, ◌∙◌, arith, inl, inr}
use mathlib.Core.Path.{fun_ext}
use tcng.Data.{has_op, Data, DataType, Op, Doubles, same_type}
use tcng.Iflib.Meaning.{run, plain, condition}
use tcng.Iflib.Classify.{self_contained}
use tcng.Iflib.Decides.{between}
use tcng.Iflib.Not.{is_number, bubble_not}
use tcng.Iflib.Not.Placed.{extends, in_range, ne_constant, one_bit, placed}
use tcng.Iflib.Not.Plain.{plain-clean, plain-bubble_not, single_bit_test-ok, passes_on, is_positive}
use tcng.Iflib.Not.Expressed.{
  IsExpressed, Expressed, ne-operands, eq-in_condition, eq-clean, ne_negated, ne_inverted,
}
use tcng.Iflib.Not.Joined.{IsContext}

not_operand :
    (t : DataType) (a b c : Data)
    → condition (Data.op t Op.logical_not a b c) ≡ true
    → condition a ≡ true
unfolding condition
not_operand t a b c h = ground arith

pub and-operands :
    (t : DataType) (a b c : Data)
    → condition (Data.op t Op.logical_and a b c) ≡ true
    → (same_type t DataType.unum ≡ true) × (plain c ≡ true)
unfolding condition
and-operands t a b c h = ground arith

pub or-operands :
    (t : DataType) (a b c : Data)
    → condition (Data.op t Op.logical_or a b c) ≡ true
    → (same_type t DataType.unum ≡ true) × (plain c ≡ true)
unfolding condition
or-operands t a b c h = ground arith

pub test-operands :
    (t : DataType) (o : Op) (a b c : Data)
    → condition (Data.op t o a b c) ≡ true
    → passes_on o ≡ true
    → (plain a ≡ true) × (plain b ≡ true) × (plain c ≡ true)
unfolding condition
test-operands t o a b c h p = ground arith

both_hold : (x y : Bool) → (x && y) ≡ true → (x ≡ true) × (y ≡ true)
both_hold x y h = (ground arith, ground arith)

module _ (fp : Doubles) {S : Type 0} (field : Data → S → ℕ) (test : Data → S → Bool)
    (charge : Data → S → S) where
  run-not_not :
      (t t' : DataType) (x y w b c : Data) (s : S)
      → run field test charge x s
        ≡ run field test charge (Data.op t Op.logical_not (Data.op t' Op.logical_not x y w) b c) s
  unfolding run
  run-not_not t t' x y w b c s = ground arith

  run-not_ne :
      (t t' : DataType) (x y w b c : Data) (s : S)
      → run field test charge (Data.op t' Op.eq x y w) s
        ≡ run field test charge (Data.op t Op.logical_not (Data.op t' Op.ne x y w) b c) s
  unfolding run
  run-not_ne t t' x y w b c s = ground arith

  pub ne-Expressed :
      (t : DataType) (a b c next otherwise : Data) (n z : Bool)
      → condition (Data.op t Op.ne a b c) ≡ true
      → is_number b ≡ true
      → in_range (Data.op t Op.ne a b c) ≡ true
      → (one_bit fp a b || (n && z)) ≡ true
      → IsContext fp field test charge next otherwise n z
      → Expressed fp field test charge (Data.op t Op.ne a b c) next otherwise n z
  unfolding one_bit in_range
  ne-Expressed t a b c next otherwise n z h hb hr hp k = elim (single_bit_test-ok fp a b hb) [
    | inl kept ↦
        let both : (n && z) ≡ true = ground (arith, kept) in
        ne_negated fp field test charge t a b c next otherwise n z h kept (ground (arith, both))
          (ground (arith, both)) k.next_usable k.otherwise_usable k.next_decides k.otherwise_decides
    | inr (b', found, cb) ↦
        ne_inverted fp field test charge t a b c next otherwise n z h (ground arith) found cb
  ]

  -- What is asked of an expression and of its context.
  abbrev pub Suits : Data → Bool → Bool → Type 0
  Suits d n z =
      (condition d ≡ true) × (ne_constant d ≡ true) × (in_range d ≡ true) × (placed fp d n z ≡ true)

  pub and-Suits :
      (t : DataType) (a b c : Data) (n z : Bool)
      → Suits (Data.op t Op.logical_and a b c) n z
      → Suits b n z × Suits a (extends n z (self_contained b)) z
  unfolding condition ne_constant in_range placed
  and-Suits t a b c n z (h, hn, hr, hp) =
      let (ca, cb) = both_hold (condition a) (condition b && plain c) (both_hold _ _ h).1 in
      let (na, nb) = both_hold (ne_constant a) (ne_constant b) hn in
      let (ra, rb) = both_hold (in_range a) (in_range b && in_range c) hr in
      let (pb, pa) =
        both_hold (placed fp b n z) (placed fp a (extends n z (self_contained b)) z) hp in
      (
        (
          (both_hold (condition b) (plain c) cb).0,
          nb,
          (both_hold (in_range b) (in_range c) rb).0,
          pb,
        ),
        (ca, na, ra, pa),
      )

  pub or-Suits :
      (t : DataType) (a b c : Data) (n z : Bool)
      → Suits (Data.op t Op.logical_or a b c) n z
      → Suits b n z × Suits a n (extends n z (self_contained b))
  unfolding condition ne_constant in_range placed
  or-Suits t a b c n z (h, hn, hr, hp) =
      let (ca, cb) = both_hold (condition a) (condition b && plain c) (both_hold _ _ h).1 in
      let (na, nb) = both_hold (ne_constant a) (ne_constant b) hn in
      let (ra, rb) = both_hold (in_range a) (in_range b && in_range c) hr in
      let (pb, pa) =
        both_hold (placed fp b n z) (placed fp a n (extends n z (self_contained b))) hp in
      (
        (
          (both_hold (condition b) (plain c) cb).0,
          nb,
          (both_hold (in_range b) (in_range c) rb).0,
          pb,
        ),
        (ca, na, ra, pa),
      )

  pub not_not-Suits :
      (t t' : DataType) (x y w b c : Data) (n z : Bool)
      → Suits (Data.op t Op.logical_not (Data.op t' Op.logical_not x y w) b c) n z
      → Suits x n z
  unfolding condition ne_constant in_range placed
  not_not-Suits t t' x y w b c n z (h, hn, hr, hp) = ground arith

  placed-not :
      (t : DataType) (a b c : Data) (n z : Bool)
      → is_positive a ≡ true
      → placed fp (Data.op t Op.logical_not a b c) n z ≡ ((n && z) && placed fp a z n)
  unfolding placed
  placed-not t (Data.op p Op.logical_not x y w) b c n z h = cc
  placed-not t (Data.op p Op.ne x y w) b c n z h = cc
  placed-not t (Data.op p o x y w) b c n z h = refl
  placed-not t a b c n z h = refl

  pub not-Suits :
      (t : DataType) (a b c : Data) (n z : Bool)
      → is_positive a ≡ true
      → Suits (Data.op t Op.logical_not a b c) n z
      → Suits a z n × (n ≡ true) × (z ≡ true)
  unfolding condition ne_constant in_range
  not-Suits t a b c n z q (h, hn, hr, hp) =
      let (ca, _) = both_hold (condition a) (plain b && plain c) (both_hold _ _ h).1 in
      let (ra, _) = both_hold (in_range a) (in_range b && in_range c) hr in
      let (flags, pa) =
        both_hold (n && z) (placed fp a z n) (sym (placed-not t a b c n z q) ∙ hp) in
      let (set_n, set_z) = both_hold n z flags in ((ca, hn, ra, pa), set_n, set_z)

  pub not_not-IsExpressed :
      (t t' : DataType) (x y w b c next otherwise : Data) (n z : Bool) (d' : Data)
      → IsExpressed fp field test charge x next otherwise n z d'
      → IsExpressed fp field test charge
          (Data.op t Op.logical_not (Data.op t' Op.logical_not x y w) b c)
          next
          otherwise
          n
          z
          d'
  not_not-IsExpressed t t' x y w b c next otherwise n z d' e = record {
    usable = e.usable;
    is_lasting = e.is_lasting;
    same = λ kn kz an az s.
        e.same kn kz an az s
        ∙ ap (λ r. between r kn kz s) (fun_ext (λ s'. run-not_not t t' x y w b c s'));
    without_not = e.without_not;
  }

  pub not_ne-Expressed :
      (t t' : DataType) (x y w b c next otherwise : Data) (n z : Bool)
      → condition (Data.op t Op.logical_not (Data.op t' Op.ne x y w) b c) ≡ true
      → Expressed fp field test charge
          (Data.op t Op.logical_not (Data.op t' Op.ne x y w) b c)
          next
          otherwise
          n
          z
  not_ne-Expressed t t' x y w b c next otherwise n z h =
      let (ht, hx, hy, hw) = ne-operands t' x y w (not_operand t (Data.op t' Op.ne x y w) b c h) in
      (
        Data.op t' Op.eq x y w,
        unfold bubble_not in
            rw
              (
                plain-bubble_not fp y next otherwise hy,
                plain-bubble_not fp x next otherwise hx,
                plain-bubble_not fp w next otherwise hw,
              )
              refl,
        record {
          usable = eq-in_condition t' x y w ht;
          is_lasting = unfold has_op in refl;
          same = λ kn kz an az s.
              ap (λ r. between r kn kz s) (fun_ext (λ s'. run-not_ne t t' x y w b c s'));
          without_not =
              λ cn cz. eq-clean t' x y w (plain-clean x hx) (plain-clean y hy) (plain-clean w hw);
        },
      )
