-- ===== src/Match/Rules.antt =====
-- tcc/ext/match.c: `match`, the loop over the rules of a block.
use tcng.Common.{ℕ, Option, none, some, List, [], ◌∷◌, Bool, true, false}
use tcng.Common.{Result, ok, err, Error, ◌>>=◌}
use tcng.Data.{Double, Doubles}
use tcng.Match.Fields.{Match, match_1}
use tcng.Match.Buckets.{State, Action, Police, action}

-- `TCCEXT_RULE`, less its link. A rule with no action is a barrier.
pub record Rule : Type 0 where
  pub matches : List Match
  pub actions : Option Action

-- The packet that `match` is called with.
pub record Packet : Type 0 where
  pub raw : List ℕ
  pub len : ℕ
  pub protocol : ℕ

module _ (protocol_offset protocol_size : ℕ) where
  -- The loop over the matches of a rule, up to one that fails: `!m` after it.
  unfoldable pub all_match : List Match → Packet → Result Bool
  all_match [] p = ok true
  all_match (m ∷ ms) p =
      match_1 protocol_offset protocol_size m p.raw p.protocol >>= λ (found : Bool). elim found [
        | true ↦ all_match ms p
        | false ↦ ok false
      ]

  module _ (fp : Doubles) (of_int : ℕ → Double) (to_int : Double → ℕ) (get_time : ℕ → Double) where
    -- The loop over the rules. `skipping` holds from an action that is TC_POLICE_UNSPEC to the next
    -- barrier.
    unfoldable pub match_rules : List Rule → Bool → Packet → State → Result (Police × State)
    unfolding all_match action
    match_rules [] skipping p s = ok (Police.police_unspec, s)
    match_rules (r ∷ rs) true p s = elim r.actions [
      | none ↦ match_rules rs false p s
      | some a ↦ match_rules rs true p s
    ]
    match_rules (r ∷ rs) false p s = elim r.actions [
      | none ↦ match_rules rs false p s
      | some a ↦ all_match r.matches p >>= λ (all : Bool). elim all [
        | false ↦ match_rules rs false p s
        | true ↦ action fp of_int to_int get_time a p.len s >>= λ (end : Police × State).
            elim end.0 [
              | Police.police_unspec ↦ match_rules rs true p end.1
              | act ↦ ok (act, end.1)
            ]
      ]
    ]

    -- The rules are those of the only block. The context was read before.
    unfoldable pub match : List (List Rule) → Packet → State → Result (Police × State)
    unfolding match_rules
    match [] p s = err Error.undefined
    match (rules ∷ []) p s = match_rules rules false p s
    match (rules ∷ more ∷ blocks) p s = err Error.unsupported
