-- ===== src/Iflib/ActionDb/Unique/Shared.antt =====
-- unique_action of tcc/iflib_actdb.c keeps at most one address for a tree.
use tcng.Common.{ℕ, ◌+◌, Bool, true, ◌==◌, ==_iff, Bool-cases, ◌≡◌, refl, sym, ap, ap₂, ◌∙◌}
use tcng.Common.{List, [], ◌∷◌, ◌++◌, none, some, some_inj, none≢some, ◌⊎◌, inl, inr}
use tcng.Iflib.ActionDb.{Action}
use tcng.Iflib.ActionDb.Unique.{
  Node, n_class, n_drop, n_unspec, n_conform, n_count, State, action_eq, eq_at, find_address, among,
  hash_key,
}
use tcng.Iflib.ActionDb.Unique.Stands.{Stands, HasChild, Sound}
use tcng.Iflib.ActionDb.Unique.Added.{with_node, true≢false}

action_eq_refl : (n : Node) → action_eq n n ≡ true
unfolding action_eq
action_eq_refl (n_class k) = (==_iff k k).1 refl
action_eq_refl n_drop = refl
action_eq_refl n_unspec = refl
action_eq_refl (n_conform p a b) = (==_iff p p).1 refl
action_eq_refl (n_count p a) = (==_iff p p).1 refl

pub eq_at_same : (s : State) (i : ℕ) (n : Node) → s.node i ≡ some n → eq_at s i n ≡ true
unfolding eq_at
eq_at_same s i n e = rw (e, eq_at) (action_eq_refl n)

pub find_address_none :
    (test : ℕ → Bool) (is : List ℕ) (i : ℕ)
    → find_address test is ≡ none
    → among i is ≡ true
    → test i ≡ true
    → ⊥
unfolding find_address among
find_address_none test [] i e member h = true≢false (sym member)
find_address_none test (j ∷ is) i e member h = elim (Bool-cases (test j)) [
  | inl passes ↦ absurd (none≢some (sym (rw (passes) at e)))
  | inr fails ↦ elim (Bool-cases (i == j)) [
    | inl same ↦ let is_j : i ≡ j = (==_iff i j).0 same in true≢false (sym h ∙ ap test is_j ∙ fails)
    | inr other ↦ find_address_none test is i (rw (fails) at e) (rw (other, among) at member) h
  ]
]

pub among_old : (i j : ℕ) (is : List ℕ) → among i is ≡ true → among i (is ++ (j ∷ [])) ≡ true
unfolding among
among_old i j [] h = absurd (true≢false (sym h))
among_old i j (k ∷ is) h = elim (Bool-cases (i == k)) [
  | inl same ↦ rw (same) refl
  | inr other ↦ rw (other) (among_old i j is (rw (other, among) at h))
]

pub among_new : (j : ℕ) (is : List ℕ) → among j (is ++ (j ∷ [])) ≡ true
unfolding among
among_new j [] = rw ((==_iff j j).1 refl) refl
among_new j (k ∷ is) = elim (Bool-cases (j == k)) [
  | inl same ↦ rw (same) refl
  | inr other ↦ rw (other) (among_new j is)
]

abbrev pub IsLeaf : Node → Type 0
IsLeaf (n_conform p a b) = ⊥
IsLeaf (n_count p a) = ⊥
IsLeaf n = Unit

-- Each action is in the lists in which unique_action looks for it, and there is one of a kind.
pub record Full (decision : ℕ → ℕ) (s : State) : Type 0 where
  pub leaves :
      (j : ℕ) (n : Node)
      → s.node j ≡ some n
      → IsLeaf n
      → among j (s.hash (hash_key decision n)) ≡ true
  pub parents :
      (j c : ℕ) (n : Node) → s.node j ≡ some n → HasChild n c → among j (s.referers c) ≡ true
  pub single : (j k : ℕ) (n : Node) → s.node j ≡ some n → s.node k ≡ some n → j ≡ k

-- One tree has one address.
pub Stands-single :
    (decision : ℕ → ℕ) (s : State)
    → Full decision s
    → (i j : ℕ) (a : Action) → Stands s.node i a
    → Stands s.node j a
    → i ≡ j
Stands-single decision s full i j a (Stands.for_class _ k e) (Stands.for_class _ _ e') =
    full.single i j (n_class k) e e'
Stands-single decision s full i j a (Stands.for_drop _ e) (Stands.for_drop _ e') =
    full.single i j n_drop e e'
Stands-single decision s full i j a (Stands.for_unspec _ e) (Stands.for_unspec _ e') =
    full.single i j n_unspec e e'
Stands-single decision s full i j a (Stands.for_conform _ p x y c1 c0 e sx sy)
      (Stands.for_conform _ _ x' y' _ _ e' sx' sy') =
    full.single i j (n_conform p x' y')
      (e
        ∙ ap₂ (λ v w. some (n_conform p v w)) (Stands-single decision s full x x' c1 sx sx')
            (Stands-single decision s full y y' c0 sy sy'))
      e'
Stands-single decision s full i j a (Stands.for_count _ p x c1 e sx)
      (Stands.for_count _ _ x' _ e' sx') =
    full.single i j (n_count p x')
      (e ∙ ap (λ v. some (n_count p v)) (Stands-single decision s full x x' c1 sx sx')) e'

module _ (decision : ℕ → ℕ) (low : Action → Bool) (s : State) (sound : Sound low s)
    (full : Full decision s) (n : Node) (absent : (j : ℕ) → s.node j ≡ some n → ⊥) where
  -- Where a node stands once there is one more.
  old_or_new :
      (j : ℕ) (m : Node) → with_node n s j ≡ some m → (s.node j ≡ some m) ⊎ ((j ≡ s.next) × (n ≡ m))
  old_or_new j m e = elim (Bool-cases (j == s.next)) [
    | inl same ↦ inr ((==_iff j s.next).0 same, some_inj (rw (same) at e))
    | inr other ↦ inl (rw (other) at e)
  ]

  pub new-Full :
      (referers hash : ℕ → List ℕ) (root : List ℕ)
      → ((c j : ℕ) → among j (s.referers c) ≡ true → among j (referers c) ≡ true)
      → ((k j : ℕ) → among j (s.hash k) ≡ true → among j (hash k) ≡ true)
      → ((c : ℕ) → HasChild n c → among s.next (referers c) ≡ true)
      → (IsLeaf n → among s.next (hash (hash_key decision n)) ≡ true)
      → Full decision (record {
        next = s.next + 1;
        node = with_node n s;
        referers = referers;
        hash = hash;
        root = root;
      })
  new-Full referers hash root keep_r keep_h new_r new_h = record {
    leaves = λ j m e leaf. elim (old_or_new j m e) [
      | inl old ↦ keep_h (hash_key decision m) j (full.leaves j m old leaf)
      | inr new ↦ let leaf' : IsLeaf n = rw (new.1) leaf in rw (new.0, sym (new.1)) (new_h leaf')
    ];
    parents = λ j c m e child. elim (old_or_new j m e) [
      | inl old ↦ keep_r c j (full.parents j c m old child)
      | inr new ↦ let child' : HasChild n c = rw (new.1) child in rw (new.0) (new_r c child')
    ];
    single = λ j k m e e'. elim (old_or_new j m e) [
      | inl old ↦ elim (old_or_new k m e') [
        | inl old' ↦ full.single j k m old old'
        | inr new' ↦ absurd (absent j (old ∙ ap some (sym (new'.1))))
      ]
      | inr new ↦ elim (old_or_new k m e') [
        | inl old' ↦ absurd (absent k (old' ∙ ap some (sym (new.1))))
        | inr new' ↦ new.0 ∙ sym (new'.0)
      ]
    ];
  }
