-- ===== src/Iflib/ActionDb/Unique/Stands.antt =====
-- The trees that addresses stand for, for unique_action of tcc/iflib_actdb.c.
use tcng.Common.{
  ℕ, ◌≤◌, Bool, true, false, ◌==◌, ==_iff, if◌then◌else◌, Bool-cases, ◌≡◌, refl, sym, ap, ap₂, ◌∙◌,
}
use tcng.Common.{List, [], ◌∷◌, Option, none, some, some_inj, none≢some, ◌⊎◌, inl, inr}
use tcng.Iflib.ActionDb.{Action}
use tcng.Iflib.ActionDb.Unique.{
  Node, n_class, n_drop, n_unspec, n_conform, n_count, State, action_eq, eq_at, find_address, among,
}

abbrev pub Nodes : Type 0
Nodes = ℕ → Option Node

pub data Stands (node : Nodes) : ℕ → Action → Type 0 where
  for_class : (i k : ℕ) → node i ≡ some (n_class k) → Stands node i (Action.at_class k)
  for_drop : (i : ℕ) → node i ≡ some n_drop → Stands node i Action.at_drop
  for_unspec : (i : ℕ) → node i ≡ some n_unspec → Stands node i Action.at_unspec
  for_conform :
      (i p a b : ℕ) (c1 c0 : Action)
      → node i ≡ some (n_conform p a b)
      → Stands node a c1
      → Stands node b c0
      → Stands node i (Action.at_conform p c1 c0)
  for_count :
      (i p a : ℕ) (c1 : Action)
      → node i ≡ some (n_count p a)
      → Stands node a c1
      → Stands node i (Action.at_count p c1)

abbrev pub Extends : Nodes → Nodes → Type 0
Extends f g = (j : ℕ) (n : Node) → f j ≡ some n → g j ≡ some n

pub Stands-Extends :
    (f g : Nodes) → Extends f g → (i : ℕ) (a : Action) → Stands f i a → Stands g i a
Stands-Extends f g h i a (Stands.for_class _ k e) = Stands.for_class i k (h i _ e)
Stands-Extends f g h i a (Stands.for_drop _ e) = Stands.for_drop i (h i _ e)
Stands-Extends f g h i a (Stands.for_unspec _ e) = Stands.for_unspec i (h i _ e)
Stands-Extends f g h i a (Stands.for_conform _ p x y c1 c0 e sx sy) =
    Stands.for_conform i p x y c1 c0 (h i _ e) (Stands-Extends f g h x c1 sx)
      (Stands-Extends f g h y c0 sy)
Stands-Extends f g h i a (Stands.for_count _ p x c1 e sx) =
    Stands.for_count i p x c1 (h i _ e) (Stands-Extends f g h x c1 sx)

-- What a node says of a tree, by the trees of its children.
abbrev Fits : Nodes → Node → Action → Type 0
Fits f (n_class k) a = a ≡ Action.at_class k
Fits f n_drop a = a ≡ Action.at_drop
Fits f n_unspec a = a ≡ Action.at_unspec
Fits f (n_conform p x y) a =
    (c1 : Action) × (c0 : Action) × (a ≡ Action.at_conform p c1 c0) × Stands f x c1 × Stands f y c0
Fits f (n_count p x) a = (c1 : Action) × (a ≡ Action.at_count p c1) × Stands f x c1

Stands-Fits :
    (f : Nodes) (i : ℕ) (a : Action) → Stands f i a → (n : Node) → f i ≡ some n → Fits f n a
Stands-Fits f i a (Stands.for_class _ k e') n e =
    let is : n ≡ n_class k = some_inj (sym e ∙ e') in rw (is) refl
Stands-Fits f i a (Stands.for_drop _ e') n e =
    let is : n ≡ n_drop = some_inj (sym e ∙ e') in rw (is) refl
Stands-Fits f i a (Stands.for_unspec _ e') n e =
    let is : n ≡ n_unspec = some_inj (sym e ∙ e') in rw (is) refl
Stands-Fits f i a (Stands.for_conform _ p x y c1 c0 e' sx sy) n e =
    let is : n ≡ n_conform p x y = some_inj (sym e ∙ e') in rw (is) (c1, c0, refl, sx, sy)
Stands-Fits f i a (Stands.for_count _ p x c1 e' sx) n e =
    let is : n ≡ n_count p x = some_inj (sym e ∙ e') in rw (is) (c1, refl, sx)

pub Stands-same : (f : Nodes) (i : ℕ) (a b : Action) → Stands f i a → Stands f i b → a ≡ b
Stands-same f i a b (Stands.for_class _ k e) h = sym (Stands-Fits f i b h (n_class k) e)
Stands-same f i a b (Stands.for_drop _ e) h = sym (Stands-Fits f i b h n_drop e)
Stands-same f i a b (Stands.for_unspec _ e) h = sym (Stands-Fits f i b h n_unspec e)
Stands-same f i a b (Stands.for_conform _ p x y c1 c0 e sx sy) h =
    let (d1, d0, is, tx, ty) = Stands-Fits f i b h (n_conform p x y) e in
    ap₂ (Action.at_conform p) (Stands-same f x c1 d1 sx tx) (Stands-same f y c0 d0 sy ty) ∙ sym is
Stands-same f i a b (Stands.for_count _ p x c1 e sx) h =
    let (d1, is, tx) = Stands-Fits f i b h (n_count p x) e in
    ap (Action.at_count p) (Stands-same f x c1 d1 sx tx) ∙ sym is

-- A tree whose conform tests tell their two children apart by a test on trees.
unfoldable pub Oriented : (Action → Bool) → Action → Type 0
Oriented low (Action.at_conform p c1 c0) =
    (low c1 ≡ false) × (low c0 ≡ true) × Oriented low c1 × Oriented low c0
Oriented low (Action.at_count p c1) = Oriented low c1
Oriented low (Action.at_class k) = Unit
Oriented low Action.at_drop = Unit
Oriented low Action.at_unspec = Unit

abbrev pub HasChild : Node → ℕ → Type 0
HasChild (n_conform p a b) c = (c ≡ a) ⊎ (c ≡ b)
HasChild (n_count p a) c = c ≡ a
HasChild n c = ⊥

-- The trees of the children.
abbrev pub IsGood : (Action → Bool) → Nodes → Node → Type 0
IsGood low f (n_conform p a b) =
    (c1 : Action) × (c0 : Action) × Stands f a c1
    × Stands f b c0
    × (low c1 ≡ false)
    × (low c0 ≡ true)
IsGood low f (n_count p a) = (c1 : Action) × Stands f a c1
IsGood low f n = Unit

pub IsGood-Extends :
    (low : Action → Bool) (f g : Nodes) → Extends f g → (n : Node) → IsGood low f n → IsGood low g n
IsGood-Extends low f g h (n_conform p a b) (c1, c0, s1, s0, l1, l0) =
    (c1, c0, Stands-Extends f g h a c1 s1, Stands-Extends f g h b c0 s0, l1, l0)
IsGood-Extends low f g h (n_count p a) (c1, s1) = (c1, Stands-Extends f g h a c1 s1)
IsGood-Extends low f g h (n_class k) good = tt
IsGood-Extends low f g h n_drop good = tt
IsGood-Extends low f g h n_unspec good = tt

pub record Sound (low : Action → Bool) (s : State) : Type 0 where
  pub fresh : (j : ℕ) → s.next ≤ j → s.node j ≡ none
  pub refers :
      (c j : ℕ) → among j (s.referers c) ≡ true → (n : Node) × (s.node j ≡ some n) × HasChild n c
  pub nodes : (j : ℕ) (n : Node) → s.node j ≡ some n → IsGood low s.node n

pub further : (here : Bool) {there : Bool} → there ≡ true → (if here then true else there) ≡ true
further true e = refl
further false e = e

pub find_address-among :
    (test : ℕ → Bool) (is : List ℕ) (i : ℕ)
    → find_address test is ≡ some i
    → (test i ≡ true) × (among i is ≡ true)
unfolding find_address among
find_address-among test [] i e = absurd (none≢some e)
find_address-among test (j ∷ is) i e = elim (Bool-cases (test j)) [
  | inl passes ↦
      let same : j ≡ i = some_inj (rw (passes) at e) in
      (rw (sym same) passes, rw ((==_iff i j).1 (sym same), among) refl)
  | inr fails ↦
      let (passes, member) = find_address-among test is i (rw (fails) at e) in
      (passes, further (i == j) member)
]

false≢true : false ≡ true → ⊥
false≢true e = cc

pub eq_at-node :
    (s : State) (i : ℕ) (n : Node)
    → eq_at s i n ≡ true
    → (m : Node) × (s.node i ≡ some m) × (action_eq m n ≡ true)
unfolding eq_at
eq_at-node s i n e =
    elim (s.node i)
        as (λ m. s.node i ≡ m → (m : Node) × (s.node i ≡ some m) × (action_eq m n ≡ true)) [
          | none ↦ λ e'. absurd (false≢true (rw (e', eq_at) at e))
          | some m ↦ λ e'. (m, e', rw (e', eq_at) at e)
        ]
      refl
