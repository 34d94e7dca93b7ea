-- ===== src/Iflib/Not/Contexts.antt =====
-- The contexts of bubble_not (tcc/iflib_not.c): `next` and `otherwise`, and what they extend to.
use tcng.Common.{Bool, true, false, ◌≡◌, refl, ap, ◌∙◌, arith, Bool-cases, inl, inr}
use tcng.Iflib.Meaning.{Verdict, stop, truth, Run, seq_and, seq_or}
use tcng.Iflib.Classify.{SelfContained}
use tcng.Iflib.Trim.{is_stop, allows}
use tcng.Iflib.Decides.{between, Decides}
use tcng.Iflib.Not.Placed.{extends}

-- With a true `flag`, `k` is `x`.
abbrev pub Agrees : {S : Type 0} → Bool → Run S → Run S → Type 0
Agrees {S = S} flag k x = flag ≡ true → (s : S) → k s ≡ x s

abbrev pub yes_run : {S : Type 0} → Run S
yes_run s = truth true s

abbrev pub no_run : {S : Type 0} → Run S
no_run s = truth false s

-- `y` may stand for `x` between what agrees with `next` and `otherwise`.
abbrev pub Replaces : {S : Type 0} → Bool → Bool → Run S → Run S → Run S → Run S → Type 0
Replaces {S = S} n z next otherwise x y =
    (kn kz : Run S)
    → Agrees n kn next
    → Agrees z kz otherwise
    → (s : S) → between y kn kz s ≡ between x kn kz s

pub between_stops :
    {S : Type 0} (n z : Bool) (c : SelfContained) (v : Verdict S) (kn kz : Run S) (s : S)
    → extends n z c ≡ true
    → allows c v ≡ true
    → Decides n kn
    → Decides z kz
    → is_stop (between (λ s'. v) kn kz s) ≡ true
between_stops n z c (stop r k s') kn kz s e a hn hz = refl
between_stops n z c (truth true s') kn kz s e a hn hz = hn (ground arith) s'
between_stops n z c (truth false s') kn kz s e a hn hz = hz (ground arith) s'

pub Decides-Agrees :
    {S : Type 0} (flag : Bool) (k x : Run S) → Agrees flag k x → Decides flag x → Decides flag k
Decides-Agrees flag k x same h f s = ap is_stop (same f s) ∙ h f s

module _ {S : Type 0} (n z : Bool) (c : SelfContained) (x y next otherwise : Run S) (s : S)
    (e : extends n z c ≡ true) (a : (s' : S) → allows c (x s') ≡ true)
    (r : Replaces n z next otherwise x y) (hn : Decides n next) (hz : Decides z otherwise) where
  pub replaced_stops :
      (kn kz : Run S)
      → Agrees n kn next
      → Agrees z kz otherwise
      → is_stop (between y kn kz s) ≡ true
  replaced_stops kn kz an az =
      ap is_stop (r kn kz an az s)
      ∙ between_stops n z c (x s) kn kz s e (a s) (Decides-Agrees n kn next an hn)
          (Decides-Agrees z kz otherwise az hz)

  next_stops : {s' : S} → y s ≡ truth true s' → n ≡ true
  next_stops h = elim (Bool-cases n) [
    | inl yes_flag ↦ yes_flag
    | inr no_flag ↦ ground (arith, replaced_stops yes_run otherwise (λ f. cc) (λ f s'. refl))
  ]

  otherwise_stops : {s' : S} → y s ≡ truth false s' → z ≡ true
  otherwise_stops h = elim (Bool-cases z) [
    | inl yes_flag ↦ yes_flag
    | inr no_flag ↦ ground (arith, replaced_stops next no_run (λ f s'. refl) (λ f. cc))
  ]

  -- The alternative that is built is the one that is meant.
  pub extended-Agrees :
      (kn kz : Run S)
      → Agrees n kn next
      → Agrees z kz otherwise
      → seq_or (seq_and y next) otherwise s ≡ between y kn kz s
  extended-Agrees kn kz an az = from (y s) refl
    where
      from : (v : Verdict S) → y s ≡ v → seq_or (seq_and y next) otherwise s ≡ between y kn kz s
      from (stop q k s') h = ground arith
      from (truth true s') h = let f = next_stops h in ground (arith, hn f s', an f s')
      from (truth false s') h = let f = otherwise_stops h in ground (arith, az f s')
