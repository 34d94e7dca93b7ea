-- ===== src/Iflib/Arith/Equalities.antt =====
-- rel_to_eq of tcc/iflib_arith.c on a comparison with a word.
use tcng.Common.{
  ℕ, zero, suc, ◌+◌, ◌-◌, ◌*◌, ◌/◌, ◌%◌, ◌^◌, ◌<◌, ◌≤◌, ◌≡◌, ◌≢◌, refl, sym, ap, ap₂, ◌∙◌, arith,
}
use tcng.Common.{
  Bool, true, false, not, ◌==◌, ltb, leb, bit_and, Option, none, some, Bool-cases, inl, inr,
}
use tcng.Common.{ok, if◌then◌else◌}
use tcng.Common.Digits.{and_all, and_comm, and-zero, and_fields, and_lowest}
use tcng.U128.{U128, add32, sub32, not32, u128_sub_32, u128_minus}
use tcng.U128.Value.{IsU128, value, value-lt}
use tcng.U128.Add.{u128_sub_32-IsU128, value-u128_sub_32, value-u128_minus}
use tcng.Data.{Data, DataType, Op, Doubles}
use tcng.Iflib.Meaning.{truth, run, number}
use tcng.Iflib.Arith.Powers.{log_2, log_2_any, masked_test, to_equality, to_eq_node}
use tcng.Iflib.Arith.Logarithm.{log_2_iff, bounded, log_2_any-word, log_2_any-next, log_2_any-ok}
use tcng.Iflib.Arith.BitTests.{wide_operand, op_binary-mask}
use tcng.Iflib.Arith.Comparisons.{is_order, ordered, wide_operand-has_op}
use tcng.U128.Left.{pow-add}
use native.Mathlib.Nat.{one-le-pow, div-add-mod', div-lt_iff_lt-mul}

below_power : (p q w : ℕ) → p * q ≡ w → 0 < q → w - p ≡ 0 + (q - 1) * p
below_power p zero w e h = absurd (omega arith)
below_power p (suc q) w e h = let r : suc q - 1 ≡ q = omega arith in rw r (omega (arith, e))

-- The mask of the bits from `k` on clears the digits below.
high_bits : (x k : ℕ) → x < 2 ^ 32 → k ≤ 32 → bit_and x (2 ^ 32 - 2 ^ k) ≡ x / 2 ^ k * 2 ^ k
high_bits x k small h =
    let p = 2 ^ k in
    let q = 2 ^ (32 - k) in
    let pos = one-le-pow k 2 (omega arith) in
    let parts : p * q ≡ 2 ^ 32 =
      sym (pow-add k (32 - k)) ∙ ap (λ (t : ℕ). 2 ^ t) {x = k + (32 - k)} {y = 32} (omega arith) in
    let mask : 2 ^ 32 - p ≡ 0 + (q - 1) * p =
      below_power p q (2 ^ 32) parts (one-le-pow (32 - k) 2 (omega arith)) in
    let fits : x / p < q =
      (div-lt_iff_lt-mul {k = p} {x = x} {y = q} pos).1 (omega (arith, parts)) in
    ap₂ bit_and {x = x} {y = x % p + x / p * p} (omega (arith, div-add-mod' x p)) mask
    ∙ and_fields k (x % p) (x / p) 0 (q - 1) (omega arith) pos
    ∙ ap₂ (λ (a b : ℕ). a + b * p) (and_comm (x % p) (x % p) 0 (omega arith) ∙ and-zero (x % p))
        (and_all (32 - k) (x / p) fits)
    ∙ omega arith

multiple : (b x p q : ℕ) → 0 < p → b ≡ q * p → q * p + x % p ≡ x → x % p < p → (b == 0) ≡ ltb x p
multiple b x p zero pos e whole small = ground arith
multiple b x p (suc q) pos e whole small = ground arith

cleared : (x k : ℕ) → x < 2 ^ 32 → k ≤ 32 → (bit_and x (2 ^ 32 - 2 ^ k) == 0) ≡ ltb x (2 ^ k)
cleared x k small h =
    multiple (bit_and x (2 ^ 32 - 2 ^ k)) x (2 ^ k) (x / 2 ^ k) (one-le-pow k 2 (omega arith))
      (high_bits x k small h) (div-add-mod' x (2 ^ k)) (omega (arith, one-le-pow k 2 (omega arith)))

ok_some : (x : Option ℕ) (m : ℕ) → ok x ≡ ok (some m) → x ≡ some m
ok_some x m e = ground (arith, e)

word_found : (n m : ℕ) → log_2_any (Data.unum n) false ≡ ok (some m) → log_2 n ≡ some m
word_found n m e = ok_some (log_2 n) m (sym (log_2_any-word n) ∙ e)

next_found :
    (n m : ℕ)
    → (add32 n 1 == 0) ≡ false
    → log_2_any (Data.unum n) true ≡ ok (some m)
    → log_2 (add32 n 1) ≡ some m
next_found n m h e = ok_some (log_2 (add32 n 1)) m (sym (log_2_any-next n h) ∙ e)

roll_over : (n : ℕ) → n < 2 ^ 32 → (add32 n 1 == 0) ≡ true → n + 1 ≡ 2 ^ 32
roll_over n small h = ground (arith, h)

no_roll_over :
    (n : ℕ) → n < 2 ^ 32 → (add32 n 1 == 0) ≡ false → (add32 n 1 ≡ n + 1) × (n + 1 < 2 ^ 32)
no_roll_over n small h = (ground (arith, h), ground (arith, h))

-- The constant, or the number above it, is a power of two.
log_2_any-power :
    (n m : ℕ) (increment : Bool)
    → n < 2 ^ 32
    → log_2_any (Data.unum n) increment ≡ ok (some m)
    → (k : ℕ) × (k ≤ 32) × ((if increment then n + 1 else n) ≡ 2 ^ k)
log_2_any-power n m false small e =
    let power = (log_2_iff n m small).0 (word_found n m e) in
    (m, bounded m (rw power at small), power)
log_2_any-power n m true small e = elim (Bool-cases (add32 n 1 == 0)) [
  | inl over ↦ (32, omega arith, roll_over n small over)
  | inr within ↦
      let next = no_roll_over n small within in
      let found : log_2 (n + 1) ≡ some m = ap log_2 (sym next.0) ∙ next_found n m within e in
      let power = (log_2_iff (n + 1) m next.1).0 found in (m, bounded m (rw power at next.1), power)
]

-- The constant less one, where it is the power itself, leaves out the bits from `k` on.
mask_word :
    (n k : ℕ) (decrement : Bool)
    → n < 2 ^ 32
    → k ≤ 32
    → (if not decrement then n + 1 else n) ≡ 2 ^ k
    → not32 (if decrement then sub32 n 1 else n) ≡ 2 ^ 32 - 2 ^ k
mask_word n k true small h e = ground (arith, one-le-pow k 2 (omega arith))
mask_word n k false small h e = ground (arith, one-le-pow k 2 (omega arith))

module _ {S : Type 0} (field : Data → S → ℕ) (test : Data → S → Bool) (charge : Data → S → S)
    (fp : Doubles) (t : DataType) (a c : Data) (n : ℕ) (ha : wide_operand a ≡ true)
    (small : n < 2 ^ 32) where
  run-masked :
      (negated : Bool) (t' : DataType) (w : ℕ) (s : S)
      → run field test charge
          (Data.op t
            (if negated then Op.ne else Op.eq)
            (Data.op t' Op.and a (Data.unum w) Data.none)
            (Data.unum 0)
            c)
          s
        ≡ truth
            (if negated
              then not (bit_and (number field test charge a s) w == 0)
              else bit_and (number field test charge a s) w == 0)
            s
  unfolding run number
  run-masked true t' w s = refl
  run-masked false t' w s = refl

  -- The original node decides what `compare` decides.
  to_equality-lem :
      (o : Op) (negated decrement : Bool)
      → ((s : S)
          → run field test charge (Data.op t o a (Data.unum n) c) s
            ≡ truth
                (if negated
                  then not (ltb (number field test charge a s) (if not decrement then n + 1 else n))
                  else ltb (number field test charge a s) (if not decrement then n + 1 else n))
                s)
      → (d : Data) × (to_equality fp t o
            (if negated then Op.ne else Op.eq)
            a
            (Data.unum n)
            c
            decrement
          ≡ ok d)
        × ((s : S)
            → number field test charge a s < 2 ^ 32
            → run field test charge d s ≡ run field test charge (Data.op t o a (Data.unum n) c) s)
  unfolding to_equality masked_test
  to_equality-lem o negated decrement meaning =
      from (log_2_any-ok n (not decrement)).0 (log_2_any-ok n (not decrement)).1
    where
      from :
          (r : Option ℕ)
          → log_2_any (Data.unum n) (not decrement) ≡ ok r
          → (d : Data) × (to_equality fp t o
                (if negated then Op.ne else Op.eq)
                a
                (Data.unum n)
                c
                decrement
              ≡ ok d)
            × ((s : S)
                → number field test charge a s < 2 ^ 32
                → run field test charge d s
                  ≡ run field test charge (Data.op t o a (Data.unum n) c) s)
      from none e = (Data.op t o a (Data.unum n) c, rw e refl, λ s h. refl)
      from (some m) e =
          let (k, hk, power) = log_2_any-power n m (not decrement) small e in
          let word = mask_word n k decrement small hk power in
          let mask = Data.unum (not32 (if decrement then sub32 n 1 else n)) in
          let (t', made, wide') = op_binary-mask fp a mask ha refl in
          (
            Data.op t (if negated then Op.ne else Op.eq) (Data.op t' Op.and a mask Data.none)
                (Data.unum 0) c,
            rw (e, made) refl,
            λ s h.
                let x = number field test charge a s in
                let below : (bit_and x (2 ^ 32 - 2 ^ k) == 0)
                    ≡ ltb x (if not decrement then n + 1 else n) =
                  cleared x k h hk ∙ ap (λ p. ltb x p) (sym power) in
                run-masked negated t' (not32 (if decrement then sub32 n 1 else n)) s
                ∙ ap (λ w. truth (if negated then not (bit_and x w == 0) else (bit_and x w == 0)) s)
                    word
                ∙ ap (λ v. truth (if negated then not v else v) s) below
                ∙ sym (meaning s),
          )

  at_next : (x m : ℕ) → leb x m ≡ ltb x (m + 1)
  at_next x m = ground arith

  above_next : (x m : ℕ) → ltb m x ≡ not (ltb x (m + 1))
  above_next x m = ground arith

  not_below : (x m : ℕ) → leb m x ≡ not (ltb x m)
  not_below x m = ground arith

  -- For every comparison <=, >, < or >= of an operator expression of integer type with a word,
  -- and any meaning of the comparison that orders the two numbers, rel_to_eq gives for the node
  -- one that decides, for every packet in which the left operand is a word, what the comparison
  -- decides, with the same effects on the state.
  pub run-to_eq_node :
      (o : Op)
      → is_order o ≡ true
      → ((s : S)
          → run field test charge (Data.op t o a (Data.unum n) c) s
            ≡ truth (ordered o (number field test charge a s) n) s)
      → (d : Data) × (to_eq_node fp t o a (Data.unum n) c ≡ ok d)
        × ((s : S)
            → number field test charge a s < 2 ^ 32
            → run field test charge d s ≡ run field test charge (Data.op t o a (Data.unum n) c) s)
  unfolding to_eq_node
  run-to_eq_node Op.lt h meaning =
      rw (wide_operand-has_op a ha) (to_equality-lem Op.lt false true meaning)
  run-to_eq_node Op.le h meaning = rw (wide_operand-has_op a ha) (
      to_equality-lem Op.le false false
        (λ s. meaning s ∙ ap (λ v. truth v s) (at_next (number field test charge a s) n)))
  run-to_eq_node Op.gt h meaning = rw (wide_operand-has_op a ha) (
      to_equality-lem Op.gt true false
        (λ s. meaning s ∙ ap (λ v. truth v s) (above_next (number field test charge a s) n)))
  run-to_eq_node Op.ge h meaning = rw (wide_operand-has_op a ha) (
      to_equality-lem Op.ge true true
        (λ s. meaning s ∙ ap (λ v. truth v s) (not_below (number field test charge a s) n)))
  run-to_eq_node o h meaning = cc

odd_minus : (v : ℕ) → v % 2 ≡ 0 → v ≢ 0 → v < 2 ^ 128 → (2 ^ 128 - (v - 1)) % 2 ^ 128 % 2 ≡ 1
odd_minus v even nz small = omega arith

lowest_kept : (m : ℕ) → m % 2 ≡ 1 → (bit_and 1 m == 0) ≡ false
lowest_kept m odd = ground (arith, and_lowest 1 m, odd)

module _ {S : Type 0} (field : Data → S → ℕ) (test : Data → S → Bool) (charge : Data → S → S)
    (fp : Doubles) where
  -- For an operator expression of integer type and an IPv6 constant other than 0 and 1 that is
  -- even and that log_2_any takes for a power of two, rel_to_eq turns < into a test that is
  -- false for every packet in which the left operand is 1.
  pub run-to_eq_node-ipv6 :
      (t : DataType) (a c : Data) (n : U128) (k : ℕ)
      → wide_operand a ≡ true
      → IsU128 n
      → value n % 2 ≡ 0
      → value n ≢ 0
      → log_2_any (Data.ipv6 n) false ≡ ok (some k)
      → (d : Data) × (to_eq_node fp t Op.lt a (Data.ipv6 n) c ≡ ok d)
        × ((s : S) → number field test charge a s ≡ 1 → run field test charge d s ≡ truth false s)
  unfolding to_eq_node to_equality masked_test
  run-to_eq_node-ipv6 t a c n k ha hn even nz e =
      let low = u128_sub_32 n 1 in
      let low_ok = u128_sub_32-IsU128 n hn 1 (omega arith) in
      let mask = u128_minus low in
      let (t', made, wide') = op_binary-mask fp a (Data.ipv6 mask) ha refl in
      let less : value low ≡ value n - 1 =
        omega (arith, value-u128_sub_32 n hn 1 (omega arith), value-lt n hn, nz) in
      let odd : value mask % 2 ≡ 1 =
        ap (λ (x : ℕ). x % 2)
          (value-u128_minus low low_ok ∙ ap (λ (x : ℕ). (2 ^ 128 - x) % 2 ^ 128) less)
        ∙ odd_minus (value n) even nz (value-lt n hn) in
      (
        Data.op t Op.eq (Data.op t' Op.and a (Data.ipv6 mask) Data.none) (Data.unum 0) c,
        rw (wide_operand-has_op a ha, e, made) refl,
        λ s one.
            tested t' mask s
            ∙ ap (λ x. truth (bit_and x (value mask) == 0) s) one
            ∙ ap (λ v. truth v s) (lowest_kept (value mask) odd),
      )
    where
      tested :
          (t' : DataType) (m : U128) (s : S)
          → run field test charge
              (Data.op t Op.eq (Data.op t' Op.and a (Data.ipv6 m) Data.none) (Data.unum 0) c)
              s
            ≡ truth (bit_and (number field test charge a s) (value m) == 0) s
      tested t' m s = unfold run number in refl
