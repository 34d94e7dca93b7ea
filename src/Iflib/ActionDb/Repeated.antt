-- ===== src/Iflib/ActionDb/Repeated.antt =====
-- repeated_actions of tcc/iflib_actdb.c against the meaning of trees.
use tcng.Common.{ℕ, ◌≡◌, ◌≢◌, ◌⊎◌, inl, inr, refl, sym, ap, ◌∙◌, Bool, true, false, Bool-cases}
use tcng.Common.{All, none≢some, [], ◌∷◌, none, some, Option-cases, ◌==◌, ==_iff, some_inj}
use tcng.Data.{Data}
use tcng.Iflib.ActionDb.{Action, Ancestors, asked, repeated_actions}
use tcng.Iflib.ActionDb.Meanings.{run_action}

-- A tree that does not ask a policer.
abbrev pub IsFree : ℕ → Action → Type 0
IsFree q (Action.at_conform p c1 c0) = (p ≢ q) × IsFree q c1 × IsFree q c0
IsFree q (Action.at_count p c1) = IsFree q c1
IsFree q (Action.at_class k) = Unit
IsFree q Action.at_drop = Unit
IsFree q Action.at_unspec = Unit

-- Behind a charge the same policer is not asked.
abbrev pub AsksFirst : Action → Type 0
AsksFirst (Action.at_conform p c1 c0) = AsksFirst c1 × AsksFirst c0
AsksFirst (Action.at_count q c1) = IsFree q c1 × AsksFirst c1
AsksFirst (Action.at_class k) = Unit
AsksFirst Action.at_drop = Unit
AsksFirst Action.at_unspec = Unit

pub differ : (p q : ℕ) → (p == q) ≡ false → p ≢ q
differ p q other same = let equal = (==_iff p q).1 same in cc

-- No policer is asked twice on the way to a leaf.
abbrev pub AsksOnce : Ancestors → Action → Type 0
AsksOnce path (Action.at_conform p c1 c0) =
    All (λ (e : ℕ × Bool). e.0 ≢ p) path
    × AsksOnce ((p, true) ∷ path) c1
    × AsksOnce ((p, false) ∷ path) c0
AsksOnce path (Action.at_count p c1) = AsksOnce path c1
AsksOnce path (Action.at_class k) = Unit
AsksOnce path Action.at_drop = Unit
AsksOnce path Action.at_unspec = Unit

-- The loop over the parents ends without a result only if none of the tests asks the policer.
asked-none : (p : ℕ) (path : Ancestors) → asked p path ≡ none → All (λ (e : ℕ × Bool). e.0 ≢ p) path
unfolding asked
asked-none p [] h = tt
asked-none p ((q, v) ∷ path) h = elim (Bool-cases (q == p)) [
  | inl same ↦ absurd (none≢some (sym (rw (same) at h)))
  | inr other ↦ (differ q p other, asked-none p path (rw (other) at h))
]

-- In the tree that repeated_actions leaves, no way from the root to a leaf asks the same policer
-- twice, nor one of the tests above the root.
pub repeated_actions-AsksOnce :
    (a : Action) (path : Ancestors) → AsksOnce path (repeated_actions path a)
unfolding repeated_actions
repeated_actions-AsksOnce (Action.at_class k) path = tt
repeated_actions-AsksOnce Action.at_drop path = tt
repeated_actions-AsksOnce Action.at_unspec path = tt
repeated_actions-AsksOnce (Action.at_count q c1) path = repeated_actions-AsksOnce c1 path
repeated_actions-AsksOnce (Action.at_conform p c1 c0) path = elim (Option-cases (asked p path)) [
  | inr (true, e) ↦ rw (e, repeated_actions, AsksOnce) (repeated_actions-AsksOnce c1 path)
  | inr (false, e) ↦ rw (e, repeated_actions, AsksOnce) (repeated_actions-AsksOnce c0 path)
  | inl e ↦
      rw (e, repeated_actions)
        (
          asked-none p path e,
          repeated_actions-AsksOnce c1 ((p, true) ∷ path),
          repeated_actions-AsksOnce c0 ((p, false) ∷ path),
        )
]

module _ {S : Type 0} (field : Data → S → ℕ) (test : Data → S → Bool) (charge : Data → S → S)
    (conforms : ℕ → S → Bool) (counts : ℕ → S → S)
    (apart : (p q : ℕ) (s : S) → p ≢ q → conforms p (counts q s) ≡ conforms p s) where
  -- What was asked above would be answered again in the same way, where a tree asks for it.
  abbrev pub Answered : Ancestors → Action → S → Type 0
  Answered path a s = (p : ℕ) (v : Bool) → asked p path ≡ some v → IsFree p a ⊎ (conforms p s ≡ v)

  kept_by_branch :
      (p : ℕ) (v : Bool) (c1 c0 a : Action) (path : Ancestors) (s : S)
      → ((r : ℕ) → IsFree r (Action.at_conform p c1 c0) → IsFree r a)
      → conforms p s ≡ v
      → Answered path (Action.at_conform p c1 c0) s
      → Answered ((p, v) ∷ path) a s
  unfolding asked
  kept_by_branch p v c1 c0 a path s branch answer known q w e = elim (Bool-cases (p == q)) [
    | inl same ↦
        let value : v ≡ w = some_inj (rw (same) at e) in
        let it : p ≡ q = (==_iff p q).0 same in
        inr (ap (λ r. conforms r s) (sym it) ∙ answer ∙ value)
    | inr other ↦ elim (known q w (rw (other) at e)) [
      | inl never ↦ inl (branch q never)
      | inr before ↦ inr before
    ]
  ]

  kept_by_count :
      (q : ℕ) (c1 : Action) (path : Ancestors) (s : S)
      → IsFree q c1
      → Answered path (Action.at_count q c1) s
      → Answered path c1 (counts q s)
  kept_by_count q c1 path s free known p v e = elim (Bool-cases (p == q)) [
    | inl same ↦ let e' : p ≡ q = (==_iff p q).0 same in inl (rw e' free)
    | inr other ↦ elim (known p v e) [
      | inl never ↦ inl never
      | inr answer ↦ inr (apart p q s (differ p q other) ∙ answer)
    ]
  ]

  -- For a tree in which no policer is asked behind a charge to it, for tests above it whose
  -- policers, where the tree asks them again, still answer as on the way to the tree, and with
  -- charges that change no other policer's answer: what repeated_actions leaves decides every
  -- packet as the tree does, with the same effects on the state.
  pub run_action-repeated_actions :
      (a : Action) (path : Ancestors) (s : S)
      → AsksFirst a
      → Answered path a s
      → run_action field test charge conforms counts (repeated_actions path a) s
        ≡ run_action field test charge conforms counts a s
  unfolding repeated_actions run_action
  run_action-repeated_actions (Action.at_class k) path s first known = refl
  run_action-repeated_actions Action.at_drop path s first known = refl
  run_action-repeated_actions Action.at_unspec path s first known = refl
  run_action-repeated_actions (Action.at_count q c1) path s (free, first) known =
      run_action-repeated_actions c1 path (counts q s) first (kept_by_count q c1 path s free known)
  run_action-repeated_actions (Action.at_conform p c1 c0) path s (first1, first0) known =
      elim (Option-cases (asked p path)) [
        | inr (true, e) ↦ elim (known p true e) [
          | inl never ↦ absurd (never.0 refl)
          | inr answer ↦
              rw (e, answer, repeated_actions, run_action)
                (run_action-repeated_actions c1 path s first1 (λ q w h. elim (known q w h) [
                  | inl never ↦ inl (never.1)
                  | inr before ↦ inr before
                ]))
        ]
        | inr (false, e) ↦ elim (known p false e) [
          | inl never ↦ absurd (never.0 refl)
          | inr answer ↦
              rw (e, answer, repeated_actions, run_action)
                (run_action-repeated_actions c0 path s first0 (λ q w h. elim (known q w h) [
                  | inl never ↦ inl (never.2)
                  | inr before ↦ inr before
                ]))
        ]
        | inl e ↦ elim (Bool-cases (conforms p s)) [
          | inl holds ↦
              rw (e, holds, repeated_actions, run_action)
                (run_action-repeated_actions c1 ((p, true) ∷ path) s first1
                  (kept_by_branch p true c1 c0 c1 path s (λ r h. h.1) holds known))
          | inr fails ↦
              rw (e, fails, repeated_actions, run_action)
                (run_action-repeated_actions c0 ((p, false) ∷ path) s first0
                  (kept_by_branch p false c1 c0 c0 path s (λ r h. h.2) fails known))
        ]
      ]
