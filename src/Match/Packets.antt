-- ===== src/Match/Packets.antt =====
-- `match_1` and `match` of tcc/ext/match.c return for packets that are long enough.
use tcng.Common.{◌∙◌, ◌⊎◌, inl, inr, ==_iff, Option-cases}
use tcng.Common.{ℕ, ◌+◌, ◌*◌, ◌%◌, ◌^◌, ◌≤◌, ◌<◌, ◌≡◌, refl}
use tcng.Common.{none, some, List, [], ◌∷◌, Bool, true, false, All, ◌==◌}
use tcng.Common.{ok, ◌>>=◌}
use tcng.Data.{Double, Doubles}
use tcng.Match.Fields.{
  Group, Match, match_raw, match_meta, match_group, match_1, ntohs, offset, padding,
}
use tcng.Match.Bits.{bits_at}
use tcng.Match.Extract.{size, IsByte, extract_bits_lem}
use tcng.Match.Buckets.{State, Action, Police, action}
use tcng.Match.Refill.{Sound}
use tcng.Match.Policed.{IsKnown, action-Policed}
use tcng.Match.Rules.{Rule, Packet, all_match, match_rules, match}

-- `length` bits from `start` on lie within the bytes, and in the four bytes that `extract_bits` reads.
pub record Within (bytes : List ℕ) (start length : ℕ) : Type 0 where
  pub are_bytes : All IsByte bytes
  pub inside : start < 8 * size bytes
  pub long : start + length ≤ 8 * size bytes
  pub room : length + start % 8 ≤ 32

-- Where a field begins, behind `before` bits of offset.
abbrev pub starts : Match → ℕ → ℕ
starts m before = (before + m.field.field_offset) % 2 ^ 32

match_raw-bits :
    (m : Match) (raw : List ℕ) (before : ℕ)
    → offset m.field.offset_group raw ≡ ok before
    → Within raw (starts m before) m.field.length
    → Within m.bytes (padding m.field.length) m.field.length
    → match_raw m raw
      ≡ ok (
          bits_at raw (starts m before) m.field.length
          == bits_at m.bytes (padding m.field.length) m.field.length)
unfolding match_raw
match_raw-bits m raw before e here wanted =
    let found =
      extract_bits_lem raw (starts m before) m.field.length here.are_bytes here.inside here.long
        here.room in
    let sought =
      extract_bits_lem m.bytes (padding m.field.length) m.field.length wanted.are_bytes
        wanted.inside wanted.long wanted.room in
    rw (e, ◌>>=◌, found, sought) refl

module _ (protocol_offset protocol_size : ℕ) where
  match_group-raw :
      (m : Match) (group : Group) (raw : List ℕ) (protocol before : ℕ)
      → offset group raw ≡ ok before
      → match_group protocol_offset protocol_size group m raw protocol ≡ match_raw m raw
  unfolding match_group offset
  match_group-raw m Group.raw raw protocol before f = refl
  match_group-raw m Group.meta raw protocol before f = absurd cc
  match_group-raw m (Group.group base inner o l k) raw protocol before f = refl

  -- A field of the packet matches exactly when its bits are those of the data.
  pub match_1-bits :
      (m : Match) (raw : List ℕ) (protocol before : ℕ)
      → offset m.field.offset_group raw ≡ ok before
      → Within raw (starts m before) m.field.length
      → Within m.bytes (padding m.field.length) m.field.length
      → match_1 protocol_offset protocol_size m raw protocol
        ≡ ok (
            bits_at raw (starts m before) m.field.length
            == bits_at m.bytes (padding m.field.length) m.field.length)
  unfolding match_1
  match_1-bits m raw protocol before e here wanted =
      match_group-raw m m.field.offset_group raw protocol before e
      ∙ match_raw-bits m raw before e here wanted

  -- A field that the packet holds, or the protocol.
  abbrev pub IsReadable : Packet → Match → Type 0
  IsReadable p m =
      ((before : ℕ) × (offset m.field.offset_group p.raw ≡ ok before)
        × Within p.raw (starts m before) m.field.length
        × Within m.bytes (padding m.field.length) m.field.length)
      ⊎ ((m.field.offset_group ≡ Group.meta)
          × (m.field.field_offset ≡ protocol_offset * 8)
          × (m.field.length ≡ protocol_size * 8)
          × Within m.bytes (padding m.field.length) m.field.length)

  match_1-ends :
      (p : Packet) (m : Match)
      → IsReadable p m
      → (b : Bool) × (match_1 protocol_offset protocol_size m p.raw p.protocol ≡ ok b)
  unfolding match_1 match_meta
  match_1-ends p m (inl (before, e, here, wanted)) =
      (_, match_1-bits m p.raw p.protocol before e here wanted)
  match_1-ends p m (inr (e, o, l, wanted)) =
      let sought =
        extract_bits_lem m.bytes (padding m.field.length) m.field.length wanted.are_bytes
          wanted.inside wanted.long wanted.room in
      let same_o = (==_iff m.field.field_offset (protocol_offset * 8)).1 o in
      let same_l = (==_iff m.field.length (protocol_size * 8)).1 l in
      (
        ntohs p.protocol == bits_at m.bytes (padding m.field.length) m.field.length,
        rw (e, same_o, same_l, sought) refl,
      )

  all_match-ends :
      (p : Packet) (ms : List Match)
      → All (IsReadable p) ms
      → (b : Bool) × (all_match protocol_offset protocol_size ms p ≡ ok b)
  unfolding all_match
  all_match-ends p [] h = (true, refl)
  all_match-ends p (m ∷ ms) (hm, h) =
      let one = match_1-ends p m hm in
      let more = all_match-ends p ms h in
      elim one.0
          as (λ b.
            match_1 protocol_offset protocol_size m p.raw p.protocol ≡ ok b
            → (b : Bool) × (all_match protocol_offset protocol_size (m ∷ ms) p ≡ ok b)) [
              | true ↦ λ e. (more.0, rw e more.1)
              | false ↦ λ e. (false, rw e refl)
            ]
        one.1

  module _ (fp : Doubles) (of_int : ℕ → Double) (to_int : Double → ℕ) (get_time : ℕ → Double) where
    -- A rule that `match` can handle for a packet.
    abbrev pub IsFit : Packet → Rule → Type 0
    IsFit p r = elim r.actions [ none ↦ Unit | some a ↦ All (IsReadable p) r.matches × IsKnown a ]

    abbrev pub Returns : List Rule → Bool → Packet → State → Type 0
    Returns rs skipping p s =
        (act : Police) × (s' : State) × (match_rules protocol_offset protocol_size fp of_int to_int
            get_time rs skipping p s
          ≡ ok (act, s'))
        × Sound s'.buckets

    match_rules_at :
        (b : Bool) (act : Police) (s1 : State) (r : Rule) (a : Action) (rs : List Rule) (p : Packet)
        (s : State)
        → r.actions ≡ some a
        → all_match protocol_offset protocol_size r.matches p ≡ ok b
        → action fp of_int to_int get_time a p.len s ≡ ok (act, s1)
        → Sound s1.buckets
        → Returns rs false p s
        → Returns rs true p s1
        → Returns (r ∷ rs) false p s
    unfolding match_rules
    match_rules_at false act s1 r a rs p s e m runs sound (q, t, go, k) skip =
        (q, t, rw (e, m) go, k)
    match_rules_at true Police.police_unspec s1 r a rs p s e m runs sound go (q, t, skip, k) =
        (q, t, rw (e, m, ◌>>=◌, runs) skip, k)
    match_rules_at true Police.police_ok s1 r a rs p s e m runs sound go skip =
        (Police.police_ok, s1, rw (e, m, ◌>>=◌, runs) refl, sound)
    match_rules_at true Police.police_shot s1 r a rs p s e m runs sound go skip =
        (Police.police_shot, s1, rw (e, m, ◌>>=◌, runs) refl, sound)

    match_rules-Returns :
        (rs : List Rule) (skipping : Bool) (p : Packet) (s : State)
        → All (IsFit p) rs
        → Sound s.buckets
        → p.len < 2 ^ 31
        → Returns rs skipping p s
    unfolding match_rules
    match_rules-Returns [] skipping p s fit sound small = (Police.police_unspec, s, refl, sound)
    match_rules-Returns (r ∷ rs) true p s (fr, fit) sound small = elim (Option-cases r.actions) [
      | inl e ↦
          let (q, t, go, k) = match_rules-Returns rs false p s fit sound small in (q, t, rw e go, k)
      | inr (a, e) ↦
          let (q, t, go, k) = match_rules-Returns rs true p s fit sound small in (q, t, rw e go, k)
    ]
    match_rules-Returns (r ∷ rs) false p s (fr, fit) sound small = elim (Option-cases r.actions) [
      | inl e ↦
          let (q, t, go, k) = match_rules-Returns rs false p s fit sound small in (q, t, rw e go, k)
      | inr (a, e) ↦
          let known : All (IsReadable p) r.matches × IsKnown a = rw e at fr in
          let m = all_match-ends p r.matches known.0 in
          let ended = action-Policed fp of_int to_int get_time p.len a s known.1 sound small in
          match_rules_at m.0 ended.0 ended.1 r a rs p s e m.1 ended.2 ended.4
            (match_rules-Returns rs false p s fit sound small)
            (match_rules-Returns rs true p ended.1 fit ended.4 small)
    ]

    -- For one block of rules whose actions are of types that match knows, with numbers of
    -- classes and queuing disciplines below 2 ^ 16; whose matches, in a rule with an action, are
    -- of the protocol, or of a field whose offset can be read from the packet, and that begins
    -- and ends within it and lies in the four bytes from that of its first bit on, with data
    -- that are not empty and hold as many bits, 32 at most; a packet and data of bytes; a length
    -- below 2 ^ 31; and buckets that each overflow only to one parsed before it, hold no more
    -- than their depth, begin with no more than it, and have a depth and a minimum policed unit
    -- below 2 ^ 31: match returns, and the buckets still overflow downward, hold no more than
    -- their depth and keep these bounds.
    pub match-Sound :
        (rules : List Rule) (p : Packet) (s : State)
        → All (IsFit p) rules
        → Sound s.buckets
        → p.len < 2 ^ 31
        → (act : Police) × (s' : State) × (match protocol_offset protocol_size fp of_int to_int
              get_time
              (rules ∷ [])
              p
              s
            ≡ ok (act, s'))
          × Sound s'.buckets
    unfolding match
    match-Sound rules p s fit sound small = match_rules-Returns rules false p s fit sound small
