-- ===== src/Iflib/Subexpressions/Suits.antt =====
-- Expressions that common_subexpressions of tcc/iflib_red.c takes: chains without two equal parts
-- that count or decide.
use tcng.Common.{Bool, true, false, not, ◌&&◌, ◌≡◌, refl}
use tcng.Common.{ok, ◌⊎◌}
use tcng.Data.{Data, DataType, Op, Doubles, same_op, expr_equal}
use tcng.Iflib.Subexpressions.{repeats}
use tcng.Iflib.Subexpressions.Equal.{steady}
use tcng.Iflib.Subexpressions.Meanings.{chain_op}

abbrev pub headed : Op → Data → Bool
headed o (Data.op t p a b c) = same_op p o
headed o d = false

-- No chain anywhere in it.
unfoldable pub flat : Data → Bool
unfolding repeats
flat (Data.op t o a b c) = not (repeats o && headed o b) && (flat a && (flat b && flat c))
flat d = true

-- The operand of `==` or `!=`: a chain of masks joined by `&`, with no chain in its parts.
unfoldable pub masks : Data → Bool
unfolding flat
masks (Data.op t Op.and a b c) = masks a && masks b
masks d = flat d

module _ (fp : Doubles) where
  -- `a` differs from each part of a chain.
  unfoldable pub Unlike : Op → Data → Data → Type 0
  Unlike o a (Data.op t p x y z) = elim (same_op p o) [
    | true ↦ (expr_equal fp a x ≡ ok false) × Unlike o a y
    | false ↦ expr_equal fp a (Data.op t p x y z) ≡ ok false
  ]
  Unlike o a d = expr_equal fp a d ≡ ok false

  unfoldable pub Suits : Data → Type 0
  unfolding flat masks
  Suits (Data.op t Op.logical_and a b c) =
      ((steady a ≡ true) ⊎ Unlike Op.logical_and a b)
      × (headed Op.logical_and a ≡ false)
      × Suits a
      × Suits b
  Suits (Data.op t Op.logical_or a b c) =
      ((steady a ≡ true) ⊎ Unlike Op.logical_or a b)
      × (headed Op.logical_or a ≡ false)
      × Suits a
      × Suits b
  Suits (Data.op t Op.logical_not a b c) = Suits a
  Suits (Data.op t Op.eq a b c) = (masks a ≡ true) × (masks b ≡ true)
  Suits (Data.op t Op.ne a b c) = (masks a ≡ true) × (masks b ≡ true)
  Suits (Data.op t o a b c) = flat (Data.op t o a b c) ≡ true
  Suits d = Unit

  pub chain_parts :
      (u : Bool) (t : DataType) (a b c : Data)
      → Suits (Data.op t (chain_op u) a b c)
      → ((steady a ≡ true) ⊎ Unlike (chain_op u) a b)
        × (headed (chain_op u) a ≡ false)
        × Suits a
        × Suits b
  unfolding Suits
  chain_parts true t a b c h = h
  chain_parts false t a b c h = h

  pub chain-Suits :
      (u : Bool) (t : DataType) (a b c : Data)
      → ((steady a ≡ true) ⊎ Unlike (chain_op u) a b)
        × (headed (chain_op u) a ≡ false)
        × Suits a
        × Suits b
      → Suits (Data.op t (chain_op u) a b c)
  unfolding Suits
  chain-Suits true t a b c h = h
  chain-Suits false t a b c h = h

  pub Unlike-end :
      (o : Op) (a d : Data) → headed o d ≡ false → Unlike o a d ≡ (expr_equal fp a d ≡ ok false)
  unfolding Unlike
  Unlike-end o a (Data.op t p x y z) h = rw (h, Unlike) refl
  Unlike-end o a d h = refl
