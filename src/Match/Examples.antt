-- ===== src/Match/Examples.antt =====
-- The packet matcher of tcc/ext on a small set of rules.
use tcng.Common.{ℕ, zero, suc, ◌+◌, ◌-◌, ◌*◌, ◌/◌, ◌^◌, ◌<◌, min, ◌≡◌, refl, arith}
use tcng.Common.{none, some, List, [], ◌∷◌, true, ltb, ◌==◌, ok, inl, All}
use tcng.Data.{Double, Doubles}
use tcng.Match.Fields.{Group, Match, offset, padding, extract_bits}
use tcng.Match.Bits.{bits_at, bit_at}
use tcng.Match.Extract.{size, extract_bits_lem}
use tcng.Match.Buckets.{Bucket, Buckets, State, Action, Police, earned, refill_bucket, action}
use tcng.Match.Pour.{Downward, Filled, level, capacity}
use tcng.Match.Refill.{Sound, refill_bucket-level}
use tcng.Match.Policed.{Ends, action-Policed}
use tcng.Match.Rules.{Rule, Packet, match}
use tcng.Match.Sections.{sections, by_sections, match-sections}
use tcng.Match.Packets.{Within, starts, IsFit, match-Sound}
use tcng.Match.Parsed.{
  Parsed, Line, find_bucket, parse_bucket, no_bucket, bucket_of, buckets, parsed, taken,
  find_overflow,
}
use tcng.Match.Parsed.{parse_bucket-Downward}
use tcng.Match.Conform.{action-conform, refill_bucket-back}

-- Seconds and tokens in whole numbers, and one second from each look at the clock to the next.
abbrev whole : Doubles
whole = record {
  add = λ a b. a + b;
  sub = λ a b. a - b;
  mul = λ a b. a * b;
  div = λ a b. a / b;
  neg = λ a. 0;
  of_u32 = λ n. n;
  to_u32 = λ n. n;
  equal = λ a b. a == b;
  less = λ a b. ltb a b;
  eight = 8;
}

abbrev same : ℕ → Double
same n = n

abbrev seconds : ℕ → Double
seconds n = n + 1

abbrev small_bucket : Bucket
small_bucket = record {
  rate = 100;
  mpu = 64;
  depth = 1000;
  initial_tokens = 500;
  overflow = none;
  tokens = 950;
  last_refill = 0;
  max_time = 10;
  initialized = true;
}

abbrev chained : Bucket
chained = record small_bucket { overflow = some 0; tokens = 960; max_time = 20 }

abbrev two : Buckets
two zero = small_bucket
two (suc zero) = chained
two (suc (suc j)) = no_bucket

two-Downward : Downward two
two-Downward zero = tt
two-Downward (suc zero) = omega arith
two-Downward (suc (suc j)) = tt

two-Filled : Filled two
two-Filled zero = omega arith
two-Filled (suc zero) = omega arith
two-Filled (suc (suc j)) = omega arith

abbrev at_start : State
at_start = record { buckets = two; calls = 0; class_id = 0 }

refill_bucket-level_example :
    (s' : State) × (refill_bucket whole same same seconds 1 at_start ≡ ok s')
    × (level 2 (some 1) s'.buckets ≡ min (level 2 (some 1) two + 100) (capacity 2 (some 1) two))
    × ((j : ℕ) → 1 < j → s'.buckets j ≡ two j)
unfolding earned
refill_bucket-level_example =
    refill_bucket-level whole same same seconds 1 at_start (two-Downward, two-Filled) refl
      (omega arith)

-- The bytes of a header with the protocol number 6 at its tenth byte.
abbrev header : List ℕ
header = 0x45 ∷ 0 ∷ 0 ∷ 40 ∷ 0 ∷ 0 ∷ 0 ∷ 0 ∷ 64 ∷ 6 ∷ 0 ∷ 0 ∷ []

extract_bits_lem_example : extract_bits header 68 12 ≡ ok (bits_at header 68 12)
unfolding size
extract_bits_lem_example =
    extract_bits_lem header 68 12 (omega arith) (omega arith) (omega arith) (omega arith)

bits_of_header : bits_at header 68 12 ≡ 6
unfolding bits_at bit_at
bits_of_header = refl

abbrev protocol_is : ℕ → Match
protocol_is n = record {
  field = record { offset_group = Group.raw; field_offset = 72; length = 8 };
  bytes = n ∷ [];
}

here : Within header (starts (protocol_is 6) 0) 8
unfolding size
here = record {
  are_bytes = omega arith;
  inside = omega arith;
  long = omega arith;
  room = omega arith;
}

wanted : (n : ℕ) → n < 2 ^ 8 → Within (n ∷ []) (padding 8) 8
unfolding size padding
wanted n h = record {
  are_bytes = omega arith;
  inside = omega arith;
  long = omega arith;
  room = omega arith;
}

abbrev policing : Action
policing = Action.count 1 (
    Action.conform 0 (Action.count 0 (Action.class_action 1 2))
      (Action.conform 1 Action.unspec Action.drop))

action-Policed_example : Ends whole same same seconds 400 policing at_start
action-Policed_example =
    action-Policed whole same same seconds 400 policing at_start (omega arith)
      (two-Downward, two-Filled) (omega arith)

abbrev rules : List Rule
rules =
    record { matches = protocol_is 17 ∷ []; actions = some Action.drop }
    ∷ record { matches = protocol_is 6 ∷ []; actions = some (Action.count 1 Action.unspec) }
    ∷ record { matches = []; actions = some Action.drop }
    ∷ record { matches = []; actions = none }
    ∷ record { matches = []; actions = some policing }
    ∷ []

abbrev packet : Packet
packet = record { raw = header; len = 40; protocol = 8 }

match-sections_example :
    match 0 2 whole same same seconds (rules ∷ []) packet at_start
    ≡ by_sections 0 2 whole same same seconds (sections rules).0 (sections rules).1 packet at_start
match-sections_example = match-sections 0 2 whole same same seconds rules packet at_start

rules-IsFit : All (IsFit 0 2 whole same same seconds packet) rules
unfolding offset
rules-IsFit = (
  ((inl (0, refl, here, wanted 17 (omega arith)), tt), tt),
  (
    ((inl (0, refl, here, wanted 6 (omega arith)), tt), tt),
    ((tt, tt), (tt, ((tt, ((omega arith, omega arith), (tt, tt))), tt))),
  ),
)

match-Sound_example :
    (act : Police) × (s' : State) × (match 0 2 whole same same seconds (rules ∷ []) packet at_start
      ≡ ok (act, s'))
    × Sound s'.buckets
match-Sound_example =
    match-Sound 0 2 whole same same seconds rules packet at_start rules-IsFit
      (two-Downward, two-Filled) (omega arith)

action-conform_example :
    (s1 : State) × (refill_bucket whole same same seconds 0 at_start ≡ ok s1)
    × (action whole same same seconds
          (Action.conform 0 (Action.class_action 1 2) Action.drop)
          1000
          at_start
        ≡ action whole same same seconds (Action.class_action 1 2) 1000 s1)
unfolding earned
action-conform_example =
    action-conform whole same same seconds 0 1000 (Action.class_action 1 2) Action.drop at_start
      (two-Downward, two-Filled) refl (omega arith) (omega arith) (omega arith) (omega arith)

-- A clock that stepped back, by the conversion of the product.
abbrev back : Double → ℕ
back n = 2 ^ 32 - 951

refill_bucket-back_example :
    (s1 : State) × (refill_bucket whole same back seconds 0 at_start ≡ ok s1)
    × ((s1.buckets 0).tokens ≡ 1000)
unfolding earned
refill_bucket-back_example =
    refill_bucket-back whole same back seconds 0 951 at_start (two-Downward, two-Filled) refl refl
      (omega arith) (omega arith)

abbrev line : ℕ → ℕ → Line
line k o = record { index = k; rate = 100; mpu = 64; depth = 1000; initial = 500; overflow = o }

abbrev one_parsed : Parsed
one_parsed = (7, bucket_of (line 7 0) none) ∷ []

abbrev two_parsed : Parsed
two_parsed = (3, bucket_of (line 3 7) (some 0)) ∷ one_parsed

parse_two : parse_bucket (line 3 7) one_parsed ≡ ok two_parsed
unfolding parse_bucket taken find_overflow find_bucket parsed
parse_two = refl

parse_one : parse_bucket (line 7 0) [] ≡ ok one_parsed
unfolding parse_bucket taken find_overflow
parse_one = refl

none-Downward : Downward (buckets [])
unfolding buckets
none-Downward j = tt

parse_bucket-Downward_example : Downward (buckets two_parsed)
parse_bucket-Downward_example =
    parse_bucket-Downward (line 3 7) one_parsed two_parsed
      (parse_bucket-Downward (line 7 0) [] one_parsed none-Downward parse_one) parse_two
