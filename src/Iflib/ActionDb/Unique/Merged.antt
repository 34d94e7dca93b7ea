-- ===== src/Iflib/ActionDb/Unique/Merged.antt =====
-- unique_action of tcc/iflib_actdb.c returns an address that stands for its tree.
use tcng.Common.{ℕ, ◌+◌, Bool, true, ◌==◌, if◌then◌else◌, ◌≡◌, refl, ap, ◌∙◌}
use tcng.Common.{List, ◌∷◌, some, Option-cases, inl, inr}
use tcng.Iflib.ActionDb.{Action}
use tcng.Iflib.ActionDb.Unique.{
  Node, n_class, n_drop, n_unspec, State, action_eq, eq_at, find_address, allocate, hash_key,
  hash_find, unique_action,
}
use tcng.Iflib.ActionDb.Unique.Stands.{
  Nodes, Stands, Stands-Extends, Oriented, IsGood, Sound, find_address-among, eq_at-node,
}
use tcng.Iflib.ActionDb.Unique.Added.{
  with_node, with_node-Extends, with_node-new, new-Sound, Merges, class_eq, drop_eq, unspec_eq,
}
use tcng.Iflib.ActionDb.Unique.Inner.{count_node-Merges, conform_node-Merges}

module _ (decision : ℕ → ℕ) (low : Action → Bool) where
  module _ (a : Action) (n : Node) (s : State) (sound : Sound low s)
      (stands : (f : Nodes) (i : ℕ) → f i ≡ some n → Stands f i a)
      (alone : (m : Node) → action_eq m n ≡ true → m ≡ n)
      (good : (f : Nodes) → IsGood low f n) where
    hash_find-Merges : Merges low s a (hash_find decision n s)
    unfolding hash_find hash_key allocate
    hash_find-Merges =
        elim (Option-cases (find_address (λ i. eq_at s i n) (s.hash (hash_key decision n)))) [
          | inr (i, e) ↦
              let is : hash_find decision n s ≡ (i, s) = rw (e, hash_find) refl in
              let (equal, _) = find_address-among (λ j. eq_at s j n) _ i e in
              let (m, at_i, same) = eq_at-node s i n equal in
              rw (is) (sound, λ j m h. h, stands s.node i (at_i ∙ ap some (alone m same)))
          | inl e ↦
              let hash' : ℕ → List ℕ =
                λ k. if k == hash_key decision n then s.next ∷ s.hash k else s.hash k in
              let t : State = record {
                next = s.next + 1;
                node = with_node n s;
                referers = s.referers;
                hash = hash';
                root = s.root;
              } in
              let is : hash_find decision n s ≡ (s.next, t) = rw (e, hash_find, allocate) refl in
              rw (is) (
                new-Sound low s sound n (good s.node) s.referers hash' s.root (λ c j h. inl h),
                with_node-Extends low s sound n (good s.node),
                stands (with_node n s) s.next (with_node-new low s sound n (good s.node)),
              )
        ]

  pub unique_action-Merges :
      (a : Action) (s : State)
      → Oriented low a
      → Sound low s
      → Merges low s a (unique_action decision a s)
  unfolding unique_action Oriented
  unique_action-Merges (Action.at_class k) s oriented sound =
      hash_find-Merges (Action.at_class k) (n_class k) s sound (λ f i e. Stands.for_class i k e)
        (class_eq k) (λ f. tt)
  unique_action-Merges Action.at_drop s oriented sound =
      hash_find-Merges Action.at_drop n_drop s sound (λ f i e. Stands.for_drop i e) drop_eq
        (λ f. tt)
  unique_action-Merges Action.at_unspec s oriented sound =
      hash_find-Merges Action.at_unspec n_unspec s sound (λ f i e. Stands.for_unspec i e) unspec_eq
        (λ f. tt)
  unique_action-Merges (Action.at_count p c1) s oriented sound =
      let (sound1, extends1, stands1) = unique_action-Merges c1 s oriented sound in
      let (sound2, extends2, stands2) =
        count_node-Merges low (unique_action decision c1 s).1 sound1 p
          (unique_action decision c1 s).0 c1 stands1 in
      (sound2, λ j n h. extends2 j n (extends1 j n h), stands2)
  unique_action-Merges (Action.at_conform p c1 c0) s oriented sound =
      let (h1, h0, o1, o0) = oriented in
      let (i0, s0) = unique_action decision c0 s in
      let (i1, s1) = unique_action decision c1 s0 in
      let (sound0, extends0, stands0) = unique_action-Merges c0 s o0 sound in
      let (sound1, extends1, stands1) = unique_action-Merges c1 s0 o1 sound0 in
      let (sound2, extends2, stands2) =
        conform_node-Merges low s1 sound1 p i1 i0 c1 c0 stands1
          (Stands-Extends s0.node s1.node extends1 i0 c0 stands0) h1 h0 in
      (sound2, λ j n h. extends2 j n (extends1 j n (extends0 j n h)), stands2)
