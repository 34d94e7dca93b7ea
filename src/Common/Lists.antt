-- ===== src/Common/Lists.antt =====
-- A property of every element of a list.
use mathlib.Core.List.{List, [], ◌∷◌}

abbrev pub All {ℓ κ} : {A : Type ℓ} → (A → Type κ) → List A → Type κ
All P [] = Unit
All P (x ∷ xs) = P x × All P xs
