-- ===== src/Iflib/ActionDb/Unique/Kept.antt =====
-- unique_action of tcc/iflib_actdb.c adds an action only if there is none of its kind.
use tcng.Common.{
  ℕ, ◌+◌, Bool, true, false, ◌&&◌, ◌==◌, ==_iff, if◌then◌else◌, ◌≡◌, refl, sym, arith,
}
use tcng.Common.{List, [], ◌∷◌, ◌++◌, Option-cases, inl, inr}
use tcng.Iflib.ActionDb.{Action}
use tcng.Iflib.ActionDb.Unique.{
  Node, n_class, n_drop, n_unspec, n_conform, n_count, State, eq_at, find_address, among, allocate,
  add_referer, hash_key, hash_find, conform_node, count_node, unique_action,
}
use tcng.Iflib.ActionDb.Unique.Stands.{HasChild, Oriented, Sound, further}
use tcng.Iflib.ActionDb.Unique.Added.{with_node, true≢false}
use tcng.Iflib.ActionDb.Unique.Merged.{unique_action-Merges}
use tcng.Iflib.ActionDb.Unique.Shared.{
  eq_at_same, find_address_none, among_old, among_new, IsLeaf, Full, new-Full,
}

-- An entry that is already at the place where one is added.
kept_if :
    (here : Bool) (j k : ℕ) (is : List ℕ)
    → among j is ≡ true
    → among j (if here then is ++ (k ∷ []) else is) ≡ true
kept_if true j k is h = among_old j k is h
kept_if false j k is h = h

kept_front :
    (here : Bool) (j k : ℕ) (is : List ℕ)
    → among j is ≡ true
    → among j (if here then k ∷ is else is) ≡ true
unfolding among
kept_front true j k is h = further (j == k) h
kept_front false j k is h = h

first_member :
    (here : Bool) (j : ℕ) (is : List ℕ) → here ≡ true → among j (if here then j ∷ is else is) ≡ true
unfolding among
first_member true j is h = rw ((==_iff j j).1 refl) refl
first_member false j is h = absurd (true≢false (sym h))

last_member :
    (here : Bool) (j : ℕ) (is : List ℕ)
    → here ≡ true
    → among j (if here then is ++ (j ∷ []) else is) ≡ true
last_member true j is h = among_new j is
last_member false j is h = absurd (true≢false (sym h))

both : {p q : Bool} → p ≡ true → q ≡ true → (p && q) ≡ true
both {p} {q} hp hq = ground arith

module _ (decision : ℕ → ℕ) (low : Action → Bool) (s : State) (sound : Sound low s)
    (full : Full decision s) where
  hash_find-Full :
      (n : Node)
      → IsLeaf n
      → ((c : ℕ) → HasChild n c → ⊥)
      → Full decision (hash_find decision n s).1
  unfolding hash_find hash_key allocate
  hash_find-Full n leaf childless =
      elim (Option-cases (find_address (λ i. eq_at s i n) (s.hash (hash_key decision n)))) [
        | inr (i, e) ↦
            let is : hash_find decision n s ≡ (i, s) = rw (e, hash_find) refl in rw (is) full
        | inl e ↦
            let hash' : ℕ → List ℕ =
              λ k. if k == hash_key decision n then s.next ∷ s.hash k else s.hash k in
            let t : State = record {
              next = s.next + 1;
              node = with_node n s;
              referers = s.referers;
              hash = hash';
              root = s.root;
            } in
            let is : hash_find decision n s ≡ (s.next, t) = rw (e, hash_find, allocate) refl in
            rw (is) (
              new-Full decision low s sound full n
                (λ j at_j.
                  find_address_none (λ i. eq_at s i n) (s.hash (hash_key decision n)) j e
                    (full.leaves j n at_j leaf) (eq_at_same s j n at_j))
                s.referers hash' s.root (λ c j h. h)
                (λ k j h. kept_front (k == hash_key decision n) j s.next (s.hash k) h)
                (λ c child. absurd (childless c child))
                (λ l.
                  first_member _ s.next _
                    ((==_iff (hash_key decision n) (hash_key decision n)).1 refl)))
      ]

  count_node-Full : (p i1 : ℕ) → Full decision (count_node p i1 s).1
  unfolding count_node allocate add_referer
  count_node-Full p i1 =
      elim (Option-cases (find_address (λ i. eq_at s i (n_count p i1)) (s.referers i1))) [
        | inr (i, e) ↦ let is : count_node p i1 s ≡ (i, s) = rw (e, count_node) refl in rw (is) full
        | inl e ↦
            let n = n_count p i1 in
            let r : ℕ → List ℕ =
              λ j. if j == i1 then s.referers j ++ (s.next ∷ []) else s.referers j in
            let t : State = record {
              next = s.next + 1;
              node = with_node n s;
              referers = r;
              hash = s.hash;
              root = s.root;
            } in
            let is : count_node p i1 s ≡ (s.next, t) =
              rw (e, count_node, allocate, add_referer) refl in
            rw (is) (
              new-Full decision low s sound full n
                (λ j at_j.
                  find_address_none (λ i. eq_at s i n) (s.referers i1) j e
                    (full.parents j i1 n at_j refl) (eq_at_same s j n at_j))
                r s.hash s.root (λ c j h. kept_if (c == i1) j s.next (s.referers c) h) (λ k j h. h)
                (λ c child. last_member (c == i1) s.next (s.referers c) ((==_iff c i1).1 child))
                (λ l. absurd l))
      ]

  conform_node-Full : (p i1 i0 : ℕ) → Full decision (conform_node p i1 i0 s).1
  unfolding conform_node allocate add_referer
  conform_node-Full p i1 i0 =
      let n = n_conform p i1 i0 in
      elim (Option-cases
        (find_address (λ i. eq_at s i n && among i (s.referers i1)) (s.referers i0))) [
          | inr (i, e) ↦
              let is : conform_node p i1 i0 s ≡ (i, s) = rw (e, conform_node) refl in rw (is) full
          | inl e ↦
              let r0 : ℕ → List ℕ =
                λ j. if j == i0 then s.referers j ++ (s.next ∷ []) else s.referers j in
              let r : ℕ → List ℕ = λ j. if j == i1 then r0 j ++ (s.next ∷ []) else r0 j in
              let t : State = record {
                next = s.next + 1;
                node = with_node n s;
                referers = r;
                hash = s.hash;
                root = s.root;
              } in
              let is : conform_node p i1 i0 s ≡ (s.next, t) =
                rw (e, conform_node, allocate, add_referer) refl in
              rw (is) (
                new-Full decision low s sound full n
                  (λ j at_j.
                    find_address_none (λ i. eq_at s i n && among i (s.referers i1)) (s.referers i0)
                      j e (full.parents j i0 n at_j (inr refl))
                      (both (eq_at_same s j n at_j) (full.parents j i1 n at_j (inl refl))))
                  r s.hash s.root
                  (λ c j h.
                    kept_if (c == i1) j s.next (r0 c) (kept_if (c == i0) j s.next (s.referers c) h))
                  (λ k j h. h)
                  (λ c child. elim child [
                    | inl is1 ↦ last_member (c == i1) s.next (r0 c) ((==_iff c i1).1 is1)
                    | inr is0 ↦
                        kept_if (c == i1) s.next s.next (r0 c)
                          (last_member (c == i0) s.next (s.referers c) ((==_iff c i0).1 is0))
                  ])
                  (λ l. absurd l))
        ]

module _ (decision : ℕ → ℕ) (low : Action → Bool) where
  pub unique_action-Full :
      (a : Action) (s : State)
      → Oriented low a
      → Sound low s
      → Full decision s
      → Full decision (unique_action decision a s).1
  unfolding unique_action Oriented
  unique_action-Full (Action.at_class k) s oriented sound full =
      hash_find-Full decision low s sound full (n_class k) tt (λ c h. h)
  unique_action-Full Action.at_drop s oriented sound full =
      hash_find-Full decision low s sound full n_drop tt (λ c h. h)
  unique_action-Full Action.at_unspec s oriented sound full =
      hash_find-Full decision low s sound full n_unspec tt (λ c h. h)
  unique_action-Full (Action.at_count p c1) s oriented sound full =
      let sound1 = (unique_action-Merges decision low c1 s oriented sound).0 in
      count_node-Full decision low (unique_action decision c1 s).1 sound1
        (unique_action-Full c1 s oriented sound full) p (unique_action decision c1 s).0
  unique_action-Full (Action.at_conform p c1 c0) s oriented sound full =
      let (h1, h0, o1, o0) = oriented in
      let (i0, s0) = unique_action decision c0 s in
      let (i1, s1) = unique_action decision c1 s0 in
      let sound0 = (unique_action-Merges decision low c0 s o0 sound).0 in
      let sound1 = (unique_action-Merges decision low c1 s0 o1 sound0).0 in
      conform_node-Full decision low s1 sound1
        (unique_action-Full c1 s0 o1 sound0 (unique_action-Full c0 s o0 sound full)) p i1 i0
