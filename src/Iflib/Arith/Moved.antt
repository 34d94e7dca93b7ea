-- ===== src/Iflib/Arith/Moved.antt =====
-- The constants that rel_plus, rel_minus and mod_opt of tcc/iflib_arith.c move and replace.
use tcng.Common.{ℕ, ◌+◌, ◌-◌, ◌*◌, ◌/◌, ◌%◌, ◌^◌, ◌<◌, ◌≡◌, refl, sym, ap, ap₂, ◌∙◌, arith}
use tcng.Common.{
  Bool, true, false, not, ◌==◌, bit_and, Option, none, some, Bool-cases, inl, inr, ◌⊎◌,
}
use tcng.Common.{ok}
use tcng.Common.Digits.{and_all, and_comm, and-zero, and_fields}
use tcng.U128.{sub32}
use tcng.Data.{Data, DataType, Op, Doubles}
use tcng.Iflib.Meaning.{truth, run, number}
use tcng.Iflib.Arith.Powers.{log_2}
use tcng.Iflib.Arith.Logarithm.{log_2_iff}
use tcng.Iflib.Arith.Constants.{u8, mod_mask, mod_opt, on_constants, rel_plus}
use native.Mathlib.Nat.{one-le-pow, div-add-mod'}

low_bits : (x k : ℕ) → bit_and x (2 ^ k - 1) ≡ x % 2 ^ k
low_bits x k =
    let p = 2 ^ k in
    let pos = one-le-pow k 2 (omega arith) in
    let top : p - 1 ≡ p - 1 + 0 * p = omega arith in
    ap₂ bit_and {x = x} {y = x % p + x / p * p} (omega (arith, div-add-mod' x p)) top
    ∙ and_fields k (x % p) (x / p) (p - 1) 0 (omega arith) (omega arith)
    ∙ ap₂ (λ (a b : ℕ). a + b * p) (and_all k (x % p) (omega arith))
        (and_comm (x / p) (x / p) 0 (omega arith) ∙ and-zero (x / p))
    ∙ omega arith

-- An address is not among the constants.
abbrev pub only_words : Data → Bool
only_words (Data.ipv6 n) = false
only_words d = true

abbrev pub is_equality : Op → Bool
is_equality Op.eq = true
is_equality Op.ne = true
is_equality o = false

module _ (fp : Doubles) where
  rel_plus-cases :
      (t : DataType) (o : Op) (whole p q : Data) (n : ℕ) (c : Data)
      → only_words p ≡ true
      → only_words q ≡ true
      → ((m : ℕ) × (p ≡ Data.unum m)
          × (rel_plus fp t o whole p q (Data.unum n) c
              ≡ ok (Data.op t o q (Data.unum (sub32 n m)) c)))
        ⊎ (((m : ℕ) × (q ≡ Data.unum m)
              × (rel_plus fp t o whole p q (Data.unum n) c
                  ≡ ok (Data.op t o p (Data.unum (sub32 n m)) c)))
            ⊎ (rel_plus fp t o whole p q (Data.unum n) c ≡ ok (Data.op t o whole (Data.unum n) c)))
  unfolding rel_plus on_constants
  rel_plus-cases t o whole (Data.unum m) q n c hp hq = inl (m, refl, refl)
  rel_plus-cases t o whole (Data.ipv6 m) q n c hp hq = cc
  rel_plus-cases t o whole p (Data.unum m) n c hp hq = inr (inl (m, refl, refl))
  rel_plus-cases t o whole p (Data.ipv6 m) n c hp hq = cc
  rel_plus-cases t o whole p q n c hp hq = inr (inr refl)

swap : (m n : ℕ) → m + n ≡ n + m
swap m n = omega arith

sum_is :
    (x m n : ℕ) → x < 2 ^ 32 → m < 2 ^ 32 → n < 2 ^ 32 → (x == sub32 n m) ≡ ((m + x) % 2 ^ 32 == n)
sum_is x m n hx hm hn = ground arith

mod_opt-next :
    (t : DataType) (x c : Data) (n : ℕ)
    → (u8 n == 1) ≡ false
    → mod_opt t x n c ≡ mod_mask t x n c (log_2 (u8 n))
unfolding mod_opt
mod_opt-next t x c n h = rw h refl

mod_opt-cases :
    (t : DataType) (x c d : Data) (n : ℕ)
    → mod_opt t x n c ≡ some d
    → (((u8 n == 1) ≡ true) × (d ≡ Data.unum 0))
      ⊎ ((k : ℕ) × (log_2 (u8 n) ≡ some k) × (d ≡ Data.op t Op.and x (Data.unum (sub32 n 1)) c))
unfolding mod_opt
mod_opt-cases t x c d n e = elim (Bool-cases (u8 n == 1)) [
  | inl one ↦ inl (one, ground (arith, one, e))
  | inr other ↦ inr (from (log_2 (u8 n)) refl (sym (mod_opt-next t x c n other) ∙ e))
]
  where
    from :
        (l : Option ℕ)
        → log_2 (u8 n) ≡ l
        → mod_mask t x n c l ≡ some d
        → (k : ℕ) × (log_2 (u8 n) ≡ some k) × (d ≡ Data.op t Op.and x (Data.unum (sub32 n 1)) c)
    from none h made = cc
    from (some k) h made = (k, h, cc)

module _ {S : Type 0} (field : Data → S → ℕ) (test : Data → S → Bool) (charge : Data → S → S) where
  -- For every divisor below 256 that mod_opt replaces the remainder of, the number of the result
  -- is the remainder.
  pub number-mod_opt :
      (t : DataType) (x c d : Data) (n : ℕ) (s : S)
      → n < 256
      → mod_opt t x n c ≡ some d
      → number field test charge d s ≡ number field test charge x s % n
  unfolding number
  number-mod_opt t x c d n s small e = elim (mod_opt-cases t x c d n e) [
    | inl (one, same) ↦ let unit : n ≡ 1 = ground (arith, one) in rw (same, unit) (omega arith)
    | inr (k, power, same) ↦
        let word : u8 n ≡ n = omega arith in
        let is_power : n ≡ 2 ^ k = sym word ∙ (log_2_iff (u8 n) k (omega arith)).0 power in
        let less : sub32 n 1 ≡ 2 ^ k - 1 = ground (arith, is_power, one-le-pow k 2 (omega arith)) in
        rw same (
          ap (bit_and (number field test charge x s)) less
          ∙ low_bits (number field test charge x s) k
          ∙ ap (λ (m : ℕ). number field test charge x s % m) (sym is_power))
  ]

  run-equality :
      (o : Op) (t : DataType) (x y c : Data) (m n : ℕ) (s : S)
      → is_equality o ≡ true
      → (number field test charge x s == m) ≡ (number field test charge y s == n)
      → run field test charge (Data.op t o x (Data.unum m) c) s
        ≡ run field test charge (Data.op t o y (Data.unum n) c) s
  unfolding run number
  run-equality Op.eq t x y c m n s h e = ap (λ v. truth v s) e
  run-equality Op.ne t x y c m n s h e = ap (λ v. truth (not v) s) e
  run-equality o t x y c m n s h e = cc

  module _ (fp : Doubles) (t t' : DataType) (o : Op) (p q r c : Data) (n : ℕ)
      (ho : is_equality o ≡ true) (hp : only_words p ≡ true) (hq : only_words q ≡ true)
      (hn : n < 2 ^ 32) where
    -- For == and !=, operands that are no IPv6 constants, and any meaning of + that adds modulo
    -- 2 ^ 32, the node that rel_plus makes decides, for every packet with words as operands,
    -- what the comparison of the sum with a word decides, with the same effects on the state.
    pub run-rel_plus :
        ((s : S)
          → number field test charge (Data.op t' Op.plus p q r) s
            ≡ (number field test charge p s + number field test charge q s) % 2 ^ 32)
        → (d : Data) × (rel_plus fp t o (Data.op t' Op.plus p q r) p q (Data.unum n) c ≡ ok d)
          × ((s : S)
              → number field test charge p s < 2 ^ 32
              → number field test charge q s < 2 ^ 32
              → run field test charge d s
                ≡ run field test charge (Data.op t o (Data.op t' Op.plus p q r) (Data.unum n) c) s)
    run-rel_plus meaning =
        let number_of : (d : Data) → S → ℕ = number field test charge in
        elim (rel_plus-cases fp t o (Data.op t' Op.plus p q r) p q n c hp hq) [
          | inl (m, e, made) ↦ (
            Data.op t o q (Data.unum (sub32 n m)) c,
            made,
            λ s sp sq.
                let at : number_of p s ≡ m = ap (λ d. number_of d s) e ∙ (unfold number in refl) in
                run-equality o t q (Data.op t' Op.plus p q r) c (sub32 n m) n s ho (
                  sum_is (number_of q s) m n sq (omega arith) hn
                  ∙ ap (λ (w : ℕ). (w + number_of q s) % 2 ^ 32 == n) (sym at)
                  ∙ ap (λ (w : ℕ). w == n) (sym (meaning s))),
          )
          | inr (inl (m, e, made)) ↦ (
            Data.op t o p (Data.unum (sub32 n m)) c,
            made,
            λ s sp sq.
                let at : number_of q s ≡ m = ap (λ d. number_of d s) e ∙ (unfold number in refl) in
                run-equality o t p (Data.op t' Op.plus p q r) c (sub32 n m) n s ho (
                  sum_is (number_of p s) m n sp (omega arith) hn
                  ∙ ap (λ (w : ℕ). w % 2 ^ 32 == n) (swap m (number_of p s))
                  ∙ ap (λ (w : ℕ). (number_of p s + w) % 2 ^ 32 == n) (sym at)
                  ∙ ap (λ (w : ℕ). w == n) (sym (meaning s))),
          )
          | inr (inr made) ↦ (_, made, λ s sp sq. refl)
        ]
