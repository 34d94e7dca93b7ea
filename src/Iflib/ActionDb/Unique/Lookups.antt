-- ===== src/Iflib/ActionDb/Unique/Lookups.antt =====
-- unique_action and get_action of tcc/iflib_actdb.c: the address of a tree.
use tcng.Common.{ℕ, Bool, ◌≡◌, ◌≢◌, refl, ap, ◌∙◌, [], none≢some}
use tcng.Common.{ok}
use tcng.Data.{Data}
use tcng.Iflib.ActionDb.{Action, asked, add_actions, repeated_actions}
use tcng.Iflib.ActionDb.Meanings.{ByPolice, run_action, whole, normal, run-add_actions}
use tcng.Iflib.ActionDb.Repeated.{AsksFirst, run_action-repeated_actions}
use tcng.Iflib.ActionDb.Unique.{State, unique_action, get_action}
use tcng.Iflib.ActionDb.Unique.Stands.{Stands, Stands-Extends, Extends, Oriented, Sound}
use tcng.Iflib.ActionDb.Unique.Merged.{unique_action-Merges}
use tcng.Iflib.ActionDb.Unique.Shared.{Full, Stands-single}
use tcng.Iflib.ActionDb.Unique.Kept.{unique_action-Full}

module _ (decision : ℕ → ℕ) (low : Action → Bool) where
  -- For a test on trees that tells the child for packets that conform from the other one at each
  -- conform action of a tree, and a memory that is sound for it and full (each action stands in
  -- the hash table or in the lists of referers of its children, and no two are the same):
  -- unique_action keeps the memory sound and full, changes no action that is there, and returns
  -- an address that stands for the tree.
  pub unique_action-Stands :
      (a : Action) (s : State)
      → Oriented low a
      → Sound low s
      → Full decision s
      → (i : ℕ) × (t : State) × (unique_action decision a s ≡ (i, t))
        × Sound low t
        × Full decision t
        × Extends s.node t.node
        × Stands t.node i a
  unique_action-Stands a s oriented sound full =
      let (sound', extends, stands) = unique_action-Merges decision low a s oriented sound in
      (
        (unique_action decision a s).0,
        (unique_action decision a s).1,
        refl,
        sound',
        unique_action-Full decision low a s oriented sound full,
        extends,
        stands,
      )

  -- In such a memory, for such a tree, unique_action returns the address that stands for the
  -- tree already, if there is one.
  pub unique_action-shared :
      (a : Action) (s : State)
      → Oriented low a
      → Sound low s
      → Full decision s
      → (j : ℕ) → Stands s.node j a
      → (unique_action decision a s).0 ≡ j
  unique_action-shared a s oriented sound full j before =
      let (sound', extends, stands) = unique_action-Merges decision low a s oriented sound in
      Stands-single decision (unique_action decision a s).1
        (unique_action-Full decision low a s oriented sound full) (unique_action decision a s).0 j a
        stands (Stands-Extends s.node (unique_action decision a s).1.node extends j a before)

  module _ {S : Type 0} (field : Data → S → ℕ) (test : Data → S → Bool) (charge : Data → S → S)
      (conforms : ℕ → S → Bool) (counts : ℕ → S → S)
      (police : ByPolice field test charge conforms counts)
      (apart : (p q : ℕ) (s : S) → p ≢ q → conforms p (counts q s) ≡ conforms p s) where
    -- For tests and charges that go by the addresses of policers, with charges that change no
    -- other policer's answer, an expression for which add_actions returns a tree in which no
    -- policer is asked behind a charge to it, whose tree without repeated tests suits a test on
    -- trees as above, and a sound and full memory: get_action returns an address that stands for
    -- a tree which decides every packet as the expression does, with the same effects on the
    -- state, where only a class decision's class counts and an expression that decides nothing
    -- fails.
    pub get_action-Stands :
        (fuel : ℕ) (d : Data) (a : Action) (s : State)
        → add_actions fuel d Data.none Data.none ≡ ok a
        → AsksFirst a
        → Oriented low (repeated_actions [] a)
        → Sound low s
        → Full decision s
        → (i : ℕ) × (t : State) × (tree : Action) × (get_action decision fuel d s ≡ ok (i, t))
          × Stands t.node i tree
          × ((σ : S)
              → run_action field test charge conforms counts tree σ
                ≡ normal (whole field test charge conforms counts d Data.none Data.none σ))
    unfolding get_action asked
    get_action-Stands fuel d a s built first oriented sound full =
        let tree = repeated_actions [] a in
        let (i, t, found, sound', full', extends, stands) =
          unique_action-Stands tree s oriented sound full in
        (
          i,
          t,
          tree,
          rw (built, get_action) (ap ok found),
          stands,
          λ σ.
              run_action-repeated_actions field test charge conforms counts apart a [] σ first
                (λ p v e. absurd (none≢some e))
              ∙ run-add_actions field test charge conforms counts police fuel d Data.none Data.none
                  a built σ,
        )
