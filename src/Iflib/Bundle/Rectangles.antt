-- ===== src/Iflib/Bundle/Rectangles.antt =====
-- What bundle_find_best of tcc/iflib_red.c finds: rows with equal cells at the front.
use tcng.Common.{
  ℕ, zero, suc, ◌+◌, ◌*◌, ltb, Bool, true, false, if◌then◌else◌, Bool-cases, ◌≡◌, refl, sym, ap,
  ◌∙◌, arith,
}
use tcng.Common.{List, [], ◌∷◌, ◌++◌, Result, ok, err, ◌>>=◌, >>=-eq-ok, ◌⊎◌, inl, inr}
use tcng.Data.{Data, Doubles, expr_equal}
use tcng.Iflib.Bundle.{
  Matrix, Best, count, min_cells, same_cells, same_rows, widen, grow, find_from, bundle_find_best,
  behind, front,
}

append_one :
    (others : Matrix) (other : List Data) (rest : Matrix)
    → (others ++ (other ∷ [])) ++ rest ≡ others ++ (other ∷ rest)
append_one [] other rest = refl
append_one (o ∷ others) other rest = ap (λ os. o ∷ os) (append_one others other rest)

front-count : (rows rest : Matrix) → front (count rows) (rows ++ rest) ≡ rows
unfolding front count
front-count [] rest = refl
front-count (row ∷ rows) rest = ap (λ rs. row ∷ rs) (front-count rows rest)

behind_next :
    (n : ℕ) (m : Matrix) (row : List Data) (rest : Matrix)
    → behind n m ≡ row ∷ rest
    → behind (suc n) m ≡ rest
unfolding behind
behind_next zero [] row rest e = cc
behind_next zero (r ∷ m) row rest e = cc
behind_next (suc n) [] row rest e = cc
behind_next (suc n) (r ∷ m) row rest e = behind_next n m row rest e

elim_same :
    (P : Type 0) (same : Bool) (next stop : Result Best) (b : Best)
    → elim same [ true ↦ next | false ↦ stop ] ≡ ok b
    → (same ≡ true → next ≡ ok b → P)
    → (stop ≡ ok b → P)
    → P
elim_same P true next stop b e onward done = onward refl e
elim_same P false next stop b e onward done = done e

module _ (fp : Doubles) where
  -- Two rows have that many cells, which are equal.
  abbrev pub AgreeUpTo : ℕ → List Data → List Data → Type 0
  AgreeUpTo zero row other = Unit
  AgreeUpTo (suc n) (x ∷ row) (y ∷ other) = (expr_equal fp x y ≡ ok true) × AgreeUpTo n row other
  AgreeUpTo (suc n) row other = ⊥

  abbrev pub AllAgree : ℕ → List Data → Matrix → Type 0
  AllAgree n row [] = Unit
  AllAgree n row (other ∷ others) = AgreeUpTo n row other × AllAgree n row others

  -- Nothing was found, or a rectangle of equal cells in the rows from the first one on.
  abbrev pub IsRectangle : Matrix → Best → Type 0
  IsRectangle m b =
      (b.ors * b.ands ≡ 0)
      ⊎ ((row : List Data) × (others : Matrix) × (front b.ors (behind b.first m) ≡ row ∷ others)
          × (suc (count others) ≡ b.ors)
          × AllAgree b.ands row others)

  both_true :
      (x y : Result Bool)
      → (x >>= λ (same : Bool). elim same [ true ↦ y | false ↦ ok false ]) ≡ ok true
      → (x ≡ ok true) × (y ≡ ok true)
  both_true (err e) y h = cc
  both_true (ok true) y h = (refl, h)
  both_true (ok false) y h = cc

  same_cells-AgreeUpTo :
      (n : ℕ) (row other : List Data) → same_cells fp n row other ≡ ok true → AgreeUpTo n row other
  unfolding same_cells
  same_cells-AgreeUpTo zero row other h = tt
  same_cells-AgreeUpTo (suc n) (x ∷ row) (y ∷ other) h =
      let (first, rest) = both_true (expr_equal fp x y) (same_cells fp n row other) h in
      (first, same_cells-AgreeUpTo n row other rest)
  same_cells-AgreeUpTo (suc n) [] other h = cc
  same_cells-AgreeUpTo (suc n) (x ∷ row) [] h = cc

  same_rows-AllAgree :
      (n : ℕ) (row : List Data) (others : Matrix)
      → same_rows fp n row others ≡ ok true
      → AllAgree n row others
  unfolding same_rows
  same_rows-AllAgree n row [] h = tt
  same_rows-AllAgree n row (other ∷ others) h =
      let (first, rest) = both_true (same_cells fp n row other) (same_rows fp n row others) h in
      (same_cells-AgreeUpTo n row other first, same_rows-AllAgree n row others rest)

  ok_best : (a b : Best) → ◌≡◌ {A = Result Best} (ok a) (ok b) → a ≡ b
  ok_best a b h = cc

  module _ (m : Matrix) where
    choose :
        (here : Bool) (new old : Best)
        → IsRectangle m new
        → IsRectangle m old
        → IsRectangle m (if here then new else old)
    choose true new old h k = h
    choose false new old h k = k

    widen-IsRectangle :
        (left ands first : ℕ) (row : List Data) (others : Matrix) (best b : Best)
        → front (suc (count others)) (behind first m) ≡ row ∷ others
        → widen fp left ands first row others best ≡ ok b
        → IsRectangle m best
        → IsRectangle m b
    unfolding widen
    widen-IsRectangle zero ands first row others best b here e h = rw (sym (ok_best best b e)) h
    widen-IsRectangle (suc left) ands first row others best b here e h =
        let (same, e1, e2) = >>=-eq-ok (same_rows fp ands row others) _ e in
        let ors = suc (count others) in
        elim_same (IsRectangle m b) same _ _ b e2
          (λ agree further. widen-IsRectangle left (ands + 1) first row others _ b here further (
            choose (ltb (best.ors * best.ands) (ors * ands))
              (record { first = first; ors = ors; ands = ands }) best
              (inr (row, others, here, refl, same_rows-AllAgree ands row others (e1 ∙ ap ok agree)))
              h))
          (λ done. rw (sym (ok_best best b done)) h)

    grow-IsRectangle :
        (first : ℕ) (row : List Data) (others rest : Matrix) (best b : Best)
        → behind first m ≡ row ∷ (others ++ rest)
        → grow fp first row others rest best ≡ ok b
        → IsRectangle m best
        → IsRectangle m b
    unfolding grow
    grow-IsRectangle first row others [] best b here e h = rw (sym (ok_best best b e)) h
    grow-IsRectangle first row others (other ∷ rest) best b here e h =
        let taken = others ++ (other ∷ []) in
        let here' : behind first m ≡ row ∷ (taken ++ rest) =
          here ∙ ap (λ os. row ∷ os) (sym (append_one others other rest)) in
        let in_front : front (suc (count taken)) (behind first m) ≡ row ∷ taken =
          rw (here') (front-count (row ∷ taken) rest) in
        let (b1, e1, e2) = >>=-eq-ok _ (λ x. grow fp first row taken rest x) e in
        let now : IsRectangle m b1 =
          elim (Bool-cases (ltb (suc (count taken) * min_cells row taken) (best.ors * best.ands))) [
            | inl skip ↦ rw (sym (ok_best best b1 (rw (skip) at e1))) h
            | inr look ↦
                widen-IsRectangle (min_cells row taken) 1 first row taken best b1 in_front
                  (rw (look) at e1) h
          ] in
        grow-IsRectangle first row taken rest b1 b here' e2 now

    find_from-IsRectangle :
        (first : ℕ) (rows : Matrix) (best b : Best)
        → behind first m ≡ rows
        → find_from fp first rows best ≡ ok b
        → IsRectangle m best
        → IsRectangle m b
    unfolding find_from
    find_from-IsRectangle first [] best b here e h = rw (sym (ok_best best b e)) h
    find_from-IsRectangle first (row ∷ rest) best b here e h =
        let (b1, e1, e2) = >>=-eq-ok (grow fp first row [] rest best) _ e in
        let next : first + 1 ≡ suc first = omega arith in
        find_from-IsRectangle (first + 1) rest b1 b (rw (next) (behind_next first m row rest here))
          e2 (grow-IsRectangle first row [] rest best b1 here e1 h)

  -- What bundle_find_best returns for a matrix is an area of nothing, or one of rows that stand
  -- one behind the other from the first row of the result on, as many as it says, of which each
  -- one has the number of cells it says at its front, all equal in the sense of expr_equal to
  -- those of the first row.
  pub bundle_find_best-IsRectangle :
      (m : Matrix) (b : Best) → bundle_find_best fp m ≡ ok b → IsRectangle m b
  unfolding bundle_find_best behind
  bundle_find_best-IsRectangle m b e =
      find_from-IsRectangle m 0 m (record { first = 0; ors = 0; ands = 0 }) b refl e (inl refl)
