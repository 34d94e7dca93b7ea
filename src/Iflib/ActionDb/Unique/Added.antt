-- ===== src/Iflib/ActionDb/Unique/Added.antt =====
-- A new action in the memory of unique_action in tcc/iflib_actdb.c.
use tcng.Common.{
  ℕ, ◌+◌, Bool, true, false, ◌&&◌, ◌==◌, ==_iff, if◌then◌else◌, Bool-cases, ◌≡◌, refl, sym, ap, ◌∙◌,
  arith,
}
use tcng.Common.{List, [], ◌∷◌, ◌++◌, some, some_inj, none≢some, ◌⊎◌, inl, inr}
use tcng.Iflib.ActionDb.{Action}
use tcng.Iflib.ActionDb.Unique.{
  Node, n_class, n_drop, n_unspec, n_conform, n_count, State, action_eq, among,
}
use tcng.Iflib.ActionDb.Unique.Stands.{
  Nodes, Stands, Extends, HasChild, IsGood, IsGood-Extends, Sound,
}

pub among-append :
    (i j : ℕ) (is : List ℕ) → among i (is ++ (j ∷ [])) ≡ true → (among i is ≡ true) ⊎ (i ≡ j)
unfolding among
among-append i j [] h = elim (Bool-cases (i == j)) [
  | inl same ↦ inr ((==_iff i j).0 same)
  | inr other ↦ inl (rw (other) at h)
]
among-append i j (k ∷ is) h = elim (Bool-cases (i == k)) [
  | inl same ↦ inl (rw (same) refl)
  | inr other ↦ elim (among-append i j is (rw (other) at h)) [
    | inl member ↦ inl (rw (other) member)
    | inr last ↦ inr last
  ]
]

-- The nodes after one more at the free address.
abbrev pub with_node : Node → State → Nodes
with_node n s j = if j == s.next then some n else s.node j

module _ (low : Action → Bool) (s : State) (sound : Sound low s) (n : Node)
    (good : IsGood low s.node n) where
  pub with_node-Extends : Extends s.node (with_node n s)
  with_node-Extends j m e = elim (Bool-cases (j == s.next)) [
    | inl same ↦
        let here : j ≡ s.next = (==_iff j s.next).0 same in
        absurd (none≢some (sym (sound.fresh j (omega arith)) ∙ e))
    | inr other ↦ rw (other) e
  ]

  pub with_node-new : with_node n s s.next ≡ some n
  with_node-new = rw ((==_iff s.next s.next).1 refl) refl

  pub new-Sound :
      (referers hash : ℕ → List ℕ) (root : List ℕ)
      → ((c j : ℕ)
          → among j (referers c) ≡ true
          → (among j (s.referers c) ≡ true) ⊎ ((j ≡ s.next) × HasChild n c))
      → Sound low (record {
        next = s.next + 1;
        node = with_node n s;
        referers = referers;
        hash = hash;
        root = root;
      })
  new-Sound referers hash root h = record {
    fresh = λ j after. elim (Bool-cases (j == s.next)) [
      | inl same ↦ let here : j ≡ s.next = (==_iff j s.next).0 same in absurd (omega arith)
      | inr other ↦ rw (other) (sound.fresh j (omega arith))
    ];
    refers = λ c j member. elim (h c j member) [
      | inl old ↦ let (m, e, child) = sound.refers c j old in (m, with_node-Extends j m e, child)
      | inr new ↦ (n, rw (new.0) with_node-new, new.1)
    ];
    nodes = λ j m e. elim (Bool-cases (j == s.next)) [
      | inl same ↦
          let is : n ≡ m = some_inj (rw (same) at e) in
          rw (sym is) (IsGood-Extends low s.node (with_node n s) with_node-Extends n good)
      | inr other ↦
          IsGood-Extends low s.node (with_node n s) with_node-Extends m
            (sound.nodes j m (rw (other) at e))
    ];
  }

-- The result of a call: the address stands for the tree in what memory has become.
abbrev pub Merges : (Action → Bool) → State → Action → ℕ × State → Type 0
Merges low s a (i, t) = Sound low t × Extends s.node t.node × Stands t.node i a

pub class_eq : (k : ℕ) (m : Node) → action_eq m (n_class k) ≡ true → m ≡ n_class k
unfolding action_eq
class_eq k (n_class l) e = ap n_class ((==_iff l k).0 e)
class_eq k m e = cc

pub drop_eq : (m : Node) → action_eq m n_drop ≡ true → m ≡ n_drop
unfolding action_eq
drop_eq n_drop e = refl
drop_eq m e = cc

pub unspec_eq : (m : Node) → action_eq m n_unspec ≡ true → m ≡ n_unspec
unfolding action_eq
unspec_eq n_unspec e = refl
unspec_eq m e = cc

pub count_eq : (p b : ℕ) (m : Node) → action_eq m (n_count p b) ≡ true → (c : ℕ) × (m ≡ n_count p c)
unfolding action_eq
count_eq p b (n_count q c) e = (c, ap (λ r. n_count r c) ((==_iff q p).0 e))
count_eq p b m e = cc

pub conform_eq :
    (p a b : ℕ) (m : Node)
    → action_eq m (n_conform p a b) ≡ true
    → (c : ℕ) × (d : ℕ) × (m ≡ n_conform p c d)
unfolding action_eq
conform_eq p a b (n_conform q c d) e = (c, d, ap (λ r. n_conform r c d) ((==_iff q p).0 e))
conform_eq p a b m e = cc

pub true≢false : true ≡ false → ⊥
true≢false e = cc

pub both_left : (p q : Bool) → (p && q) ≡ true → p ≡ true
both_left p q h = ground arith

pub both_right : (p q : Bool) → (p && q) ≡ true → q ≡ true
both_right p q h = ground arith

-- The lists of referers after add_referer.
pub referers-add :
    (referers : ℕ → List ℕ) (action referer c j : ℕ)
    → among j (if c == action then referers c ++ (referer ∷ []) else referers c) ≡ true
    → (among j (referers c) ≡ true) ⊎ ((j ≡ referer) × (c ≡ action))
referers-add referers action referer c j h = elim (Bool-cases (c == action)) [
  | inl same ↦ elim (among-append j referer (referers c) (rw (same) at h)) [
    | inl old ↦ inl old
    | inr new ↦ inr (new, (==_iff c action).0 same)
  ]
  | inr other ↦ inl (rw (other) at h)
]
