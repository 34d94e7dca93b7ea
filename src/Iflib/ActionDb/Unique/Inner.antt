-- ===== src/Iflib/ActionDb/Unique/Inner.antt =====
-- conform and count actions in unique_action of tcc/iflib_actdb.c.
use tcng.Common.{ℕ, ◌+◌, Bool, true, false, ◌&&◌, ◌==◌, if◌then◌else◌, ◌≡◌, refl, sym, ap, ap₂, ◌∙◌}
use tcng.Common.{List, [], ◌∷◌, ◌++◌, some, some_inj, Option-cases, ◌⊎◌, inl, inr}
use tcng.Iflib.ActionDb.{Action}
use tcng.Iflib.ActionDb.Unique.{
  Node, n_conform, n_count, State, eq_at, find_address, among, allocate, add_referer, conform_node,
  count_node,
}
use tcng.Iflib.ActionDb.Unique.Stands.{
  Stands, Stands-Extends, Stands-same, HasChild, IsGood, Sound, find_address-among, eq_at-node,
}
use tcng.Iflib.ActionDb.Unique.Added.{
  with_node, with_node-Extends, with_node-new, new-Sound, Merges, count_eq, conform_eq, both_left,
  both_right, referers-add, true≢false,
}

module _ (low : Action → Bool) (s : State) (sound : Sound low s) where
  -- An address in the referers of its child.
  child_of : (c i : ℕ) (n : Node) → among i (s.referers c) ≡ true → s.node i ≡ some n → HasChild n c
  child_of c i n member e =
      let (m, e', child) = sound.refers c i member in
      let is : m ≡ n = some_inj (sym e' ∙ e) in rw (sym is) child

  pub count_node-Merges :
      (p i1 : ℕ) (c1 : Action)
      → Stands s.node i1 c1
      → Merges low s (Action.at_count p c1) (count_node p i1 s)
  unfolding count_node allocate add_referer
  count_node-Merges p i1 c1 stands =
      elim (Option-cases (find_address (λ i. eq_at s i (n_count p i1)) (s.referers i1))) [
        | inr (i, e) ↦
            let is : count_node p i1 s ≡ (i, s) = rw (e, count_node) refl in
            let (equal, member) = find_address-among (λ j. eq_at s j (n_count p i1)) _ i e in
            let (m, at_i, same) = eq_at-node s i (n_count p i1) equal in
            let (c, m_is) = count_eq p i1 m same in
            let at_i' : s.node i ≡ some (n_count p c) = at_i ∙ ap some m_is in
            let child : i1 ≡ c = child_of i1 i (n_count p c) member at_i' in
            rw (is) (
              sound,
              λ j n h. h,
              Stands.for_count i p i1 c1 (at_i' ∙ ap (λ d. some (n_count p d)) (sym child)) stands,
            )
        | inl e ↦
            let n = n_count p i1 in
            let r : ℕ → List ℕ =
              λ j. if j == i1 then s.referers j ++ (s.next ∷ []) else s.referers j in
            let t : State = record {
              next = s.next + 1;
              node = with_node n s;
              referers = r;
              hash = s.hash;
              root = s.root;
            } in
            let is : count_node p i1 s ≡ (s.next, t) =
              rw (e, count_node, allocate, add_referer) refl in
            let extends = with_node-Extends low s sound n (c1, stands) in
            rw (is) (
              new-Sound low s sound n (c1, stands) r s.hash s.root
                  (λ c j h. referers-add s.referers i1 s.next c j h),
              extends,
              Stands.for_count s.next p i1 c1 (with_node-new low s sound n (c1, stands))
                  (Stands-Extends s.node (with_node n s) extends i1 c1 stands),
            )
      ]

  other_tree :
      (i j : ℕ) (t u : Action)
      → Stands s.node i t
      → Stands s.node j u
      → low t ≡ true
      → low u ≡ false
      → i ≡ j
      → ⊥
  other_tree i j t u st su ht hu is =
      let same : t ≡ u = Stands-same s.node j t u (rw (is) at st) su in
      true≢false (sym ht ∙ ap low same ∙ hu)

  -- A conform action that both children refer to has them in their places.
  same_children :
      (i p i1 i0 a b : ℕ) (c1 c0 : Action)
      → Stands s.node i1 c1
      → Stands s.node i0 c0
      → low c1 ≡ false
      → low c0 ≡ true
      → s.node i ≡ some (n_conform p a b)
      → (i0 ≡ a) ⊎ (i0 ≡ b)
      → (i1 ≡ a) ⊎ (i1 ≡ b)
      → (i1 ≡ a) × (i0 ≡ b)
  same_children i p i1 i0 a b c1 c0 s1 s0 h1 h0 e in0 in1 =
      let (t1, t0, st1, st0, l1, l0) = sound.nodes i (n_conform p a b) e in
      let place0 : i0 ≡ b = elim in0 [
        | inl is ↦ absurd (other_tree i0 a c0 t1 s0 st1 h0 l1 is)
        | inr is ↦ is
      ] in
      let place1 : i1 ≡ a = elim in1 [
        | inl is ↦ is
        | inr is ↦ absurd (other_tree b i1 t0 c1 st0 s1 l0 h1 (sym is))
      ] in
      (place1, place0)

  pub conform_node-Merges :
      (p i1 i0 : ℕ) (c1 c0 : Action)
      → Stands s.node i1 c1
      → Stands s.node i0 c0
      → low c1 ≡ false
      → low c0 ≡ true
      → Merges low s (Action.at_conform p c1 c0) (conform_node p i1 i0 s)
  unfolding conform_node allocate add_referer
  conform_node-Merges p i1 i0 c1 c0 s1 s0 h1 h0 =
      let n = n_conform p i1 i0 in
      elim (Option-cases
        (find_address (λ i. eq_at s i n && among i (s.referers i1)) (s.referers i0))) [
          | inr (i, e) ↦
              let is : conform_node p i1 i0 s ≡ (i, s) = rw (e, conform_node) refl in
              let (passes, member0) =
                find_address-among (λ j. eq_at s j n && among j (s.referers i1)) _ i e in
              let (m, at_i, same) = eq_at-node s i n (both_left _ _ passes) in
              let (a, b, m_is) = conform_eq p i1 i0 m same in
              let at_i' : s.node i ≡ some (n_conform p a b) = at_i ∙ ap some m_is in
              let (place1, place0) =
                same_children i p i1 i0 a b c1 c0 s1 s0 h1 h0 at_i'
                  (child_of i0 i (n_conform p a b) member0 at_i')
                  (child_of i1 i (n_conform p a b) (both_right (eq_at s i n) _ passes) at_i') in
              rw (is) (
                sound,
                λ j n h. h,
                Stands.for_conform i p i1 i0 c1 c0
                    (at_i' ∙ ap₂ (λ x y. some (n_conform p x y)) (sym place1) (sym place0)) s1 s0,
              )
          | inl e ↦
              let good : IsGood low s.node (n_conform p i1 i0) = (c1, c0, s1, s0, h1, h0) in
              let r0 : ℕ → List ℕ =
                λ j. if j == i0 then s.referers j ++ (s.next ∷ []) else s.referers j in
              let r : ℕ → List ℕ = λ j. if j == i1 then r0 j ++ (s.next ∷ []) else r0 j in
              let t : State = record {
                next = s.next + 1;
                node = with_node n s;
                referers = r;
                hash = s.hash;
                root = s.root;
              } in
              let is : conform_node p i1 i0 s ≡ (s.next, t) =
                rw (e, conform_node, allocate, add_referer) refl in
              let extends = with_node-Extends low s sound n good in
              rw (is) (
                new-Sound low s sound n good r s.hash s.root (λ c j h.
                    elim (referers-add r0 i1 s.next c j h) [
                      | inl old ↦ elim (referers-add s.referers i0 s.next c j old) [
                        | inl older ↦ inl older
                        | inr new ↦ inr (new.0, inr (new.1))
                      ]
                      | inr new ↦ inr (new.0, inl (new.1))
                    ]),
                extends,
                Stands.for_conform s.next p i1 i0 c1 c0 (with_node-new low s sound n good)
                    (Stands-Extends s.node (with_node n s) extends i1 c1 s1)
                    (Stands-Extends s.node (with_node n s) extends i0 c0 s0),
              )
        ]
