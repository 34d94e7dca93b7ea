-- ===== src/Match/Sections.antt =====
-- `match` of tcc/ext/match.c by sections: the rules between two barriers.
use tcng.Common.{ℕ, Option, none, some, List, [], ◌∷◌, Bool, true, false, ◌≡◌, refl, sym, ◌∙◌}
use tcng.Common.{Result, ok, err, ◌>>=◌}
use tcng.Data.{Double, Doubles}
use tcng.Match.Fields.{Match}
use tcng.Match.Buckets.{State, Action, Police, action}
use tcng.Match.Rules.{Rule, Packet, all_match, match_rules, match}

-- The matches of a rule, and its action.
abbrev pub Entry : Type 0
Entry = List Match × Action

-- The rules up to the first barrier, and the sections behind it.
unfoldable pub sections : List Rule → List Entry × List (List Entry)
sections [] = ([], [])
sections (r ∷ rs) =
    let behind = sections rs in
    elim r.actions [
      | none ↦ ([], behind.0 ∷ behind.1)
      | some a ↦ ((r.matches, a) ∷ behind.0, behind.1)
    ]

module _ (protocol_offset protocol_size : ℕ) where
  -- The action of the first rule of a section that matches.
  unfoldable pub first_match : List Entry → Packet → Result (Option Action)
  first_match [] p = ok none
  first_match (e ∷ es) p = all_match protocol_offset protocol_size e.0 p >>= λ (all : Bool).
      elim all [ true ↦ ok (some e.1) | false ↦ first_match es p ]

  module _ (fp : Doubles) (of_int : ℕ → Double) (to_int : Double → ℕ) (get_time : ℕ → Double) where
    -- One section: its first rule that matches decides, unless its action does not.
    abbrev decide :
        Option Action → Packet → State → (State → Result (Police × State)) → Result (Police × State)
    decide none p s next = next s
    decide (some a) p s next =
        action fp of_int to_int get_time a p.len s >>= λ (end : Police × State). elim end.0 [
          | Police.police_unspec ↦ next end.1
          | act ↦ ok (act, end.1)
        ]

    unfoldable pub by_sections :
        List Entry → List (List Entry) → Packet → State → Result (Police × State)
    unfolding first_match
    by_sections section [] p s = first_match section p >>= λ (o : Option Action).
        decide o p s (λ t. ok (Police.police_unspec, t))
    by_sections section (next ∷ more) p s =
        first_match section p >>= λ (o : Option Action). decide o p s (by_sections next more p)

    abbrev later : List (List Entry) → Packet → State → Result (Police × State)
    later [] p s = ok (Police.police_unspec, s)
    later (next ∷ more) p s = by_sections next more p s

    by_sections-later :
        (section : List Entry) (rest : List (List Entry)) (p : Packet) (s : State)
        → by_sections section rest p s
          ≡ (first_match section p >>= λ (o : Option Action). decide o p s (later rest p))
    unfolding by_sections
    by_sections-later section [] p s = refl
    by_sections-later section (next ∷ more) p s = refl

    -- The loop from a state on, and what it should be.
    abbrev loop : List Rule → Bool → Packet → State → Result (Police × State)
    loop = match_rules protocol_offset protocol_size fp of_int to_int get_time

    abbrev after :
        Result (Police × State) → (State → Result (Police × State)) → Result (Police × State)
    after ended next = ended >>= λ (end : Police × State). elim end.0 [
      | Police.police_unspec ↦ next end.1
      | act ↦ ok (act, end.1)
    ]

    after_lem :
        (ended : Result (Police × State)) (f g : State → Result (Police × State))
        → ((t : State) → f t ≡ g t)
        → after ended f ≡ after ended g
    after_lem (err e) f g h = refl
    after_lem (ok (Police.police_ok, t)) f g h = refl
    after_lem (ok (Police.police_shot, t)) f g h = refl
    after_lem (ok (Police.police_unspec, t)) f g h = h t

    -- A rule with an action, at any outcome of its matches.
    rule_lem :
        (found : Result Bool) (a : Action) (section : List Entry) (rest : List (List Entry))
        (rs : List Rule) (p : Packet) (s : State)
        → ((t : State) → loop rs true p t ≡ later rest p t)
        → loop rs false p s ≡ by_sections section rest p s
        → (found >>= λ (all : Bool). elim all [
          | false ↦ loop rs false p s
          | true ↦ after (action fp of_int to_int get_time a p.len s) (λ t. loop rs true p t)
        ])
          ≡ ((found >>= λ (all : Bool). elim all [
            | true ↦ ok (some a)
            | false ↦ first_match section p
          ])
              >>= λ (o : Option Action). decide o p s (later rest p))
    rule_lem (err e) a section rest rs p s skip go = refl
    rule_lem (ok true) a section rest rs p s skip go =
        after_lem (action fp of_int to_int get_time a p.len s) (loop rs true p) (later rest p) skip
    rule_lem (ok false) a section rest rs p s skip go = go ∙ by_sections-later section rest p s

    abbrev Both : List Rule → Packet → Type 0
    Both rs p =
        ((s : State) → loop rs true p s ≡ later (sections rs).1 p s)
        × ((s : State) → loop rs false p s ≡ by_sections (sections rs).0 (sections rs).1 p s)

    both_step :
        (ms : List Match) (o : Option Action) (rs : List Rule) (p : Packet)
        → Both rs p
        → Both (record { matches = ms; actions = o } ∷ rs) p
    unfolding match_rules sections by_sections first_match
    both_step ms none rs p (skip, go) = (go, go)
    both_step ms (some a) rs p (skip, go) = (
      skip,
      λ s.
          rule_lem (all_match protocol_offset protocol_size ms p) a (sections rs).0 (sections rs).1
            rs p s skip (go s)
          ∙ sym (by_sections-later ((ms, a) ∷ (sections rs).0) (sections rs).1 p s),
    )

    both : (rs : List Rule) (p : Packet) → Both rs p
    unfolding match_rules sections by_sections first_match
    both [] p = (λ s. refl, λ s. refl)
    both (r ∷ rs) p = both_step r.matches r.actions rs p (both rs p)

    -- For one block of rules, every packet and every state: match decides by the sections
    -- between barriers, in their order. In a section the first rule whose matches all hold
    -- decides; if no rule does, or its action is TC_POLICE_UNSPEC, the next section decides,
    -- from the state that the action left, and TC_POLICE_UNSPEC is the result behind the last
    -- section. Errors are the same too.
    pub match-sections :
        (rules : List Rule) (p : Packet) (s : State)
        → match protocol_offset protocol_size fp of_int to_int get_time (rules ∷ []) p s
          ≡ by_sections (sections rules).0 (sections rules).1 p s
    unfolding match
    match-sections rules p s = (both rules p).1 s
