-- ===== src/U128/Add.antt =====
-- u128_add, u128_sub, u128_minus and their mixes with 32 bit numbers (shared/u128.c), against
-- arithmetic modulo 2 ^ 128.
use tcng.Common.{ℕ, ◌+◌, ◌-◌, ◌*◌, ◌%◌, ◌^◌, ◌<◌, ◌≡◌, arith, Bool, true, false, if◌then◌else◌}
use tcng.Common.{sym}
use tcng.U128.{U128, add_step, sub_step, minus_step, u128_add, u128_sub, u128_minus}
use tcng.U128.{u128_add_32, u128_sub_32, u128_sub_from_32, borrow_from}
use tcng.U128.Value.{IsU128, value, value-lt, value-injective}

abbrev bit : Bool → ℕ
bit c = if c then 1 else 0

add_step_lem :
    (c : Bool) (a b : ℕ)
    → a < 2 ^ 32
    → b < 2 ^ 32
    → ((add_step c a b).out + bit (add_step c a b).carry * 2 ^ 32 ≡ a + b + bit c)
      × ((add_step c a b).out < 2 ^ 32)
unfolding add_step
add_step_lem c a b ha hb = ground arith

sub_step_lem :
    (c : Bool) (a b : ℕ)
    → a < 2 ^ 32
    → b < 2 ^ 32
    → ((sub_step c a b).out + b + bit c ≡ a + bit (sub_step c a b).carry * 2 ^ 32)
      × ((sub_step c a b).out < 2 ^ 32)
unfolding sub_step
sub_step_lem c a b ha hb = ground arith

minus_step_lem :
    (c : Bool) (a : ℕ)
    → a < 2 ^ 32
    → ((minus_step c a).out + a + 1 + bit (minus_step c a).carry * 2 ^ 32 ≡ 2 ^ 32 + bit c)
      × ((minus_step c a).out < 2 ^ 32)
unfolding minus_step
minus_step_lem c a ha = ground arith

-- Words with carries between them add up to the sum of the numbers that they stand for.
ripple :
    (a0 a1 a2 a3 b0 b1 b2 b3 s0 s1 s2 s3 c1 c2 c3 c4 : ℕ)
    → s0 + c1 * 2 ^ 32 ≡ a0 + b0
    → s1 + c2 * 2 ^ 32 ≡ a1 + b1 + c1
    → s2 + c3 * 2 ^ 32 ≡ a2 + b2 + c2
    → s3 + c4 * 2 ^ 32 ≡ a3 + b3 + c3
    → s0 < 2 ^ 32
    → s1 < 2 ^ 32
    → s2 < 2 ^ 32
    → s3 < 2 ^ 32
    → s0 + s1 * 2 ^ 32 + s2 * 2 ^ 64 + s3 * 2 ^ 96
      ≡ (a0
          + a1 * 2 ^ 32
          + a2 * 2 ^ 64
          + a3 * 2 ^ 96
          + (b0 + b1 * 2 ^ 32 + b2 * 2 ^ 64 + b3 * 2 ^ 96))
        % 2 ^ 128
ripple a0 a1 a2 a3 b0 b1 b2 b3 s0 s1 s2 s3 c1 c2 c3 c4 e0 e1 e2 e3 h0 h1 h2 h3 = omega arith

mod_back :
    (s a b : ℕ)
    → s < 2 ^ 128
    → a < 2 ^ 128
    → b < 2 ^ 128
    → a ≡ (s + b) % 2 ^ 128
    → s ≡ (a + 2 ^ 128 - b) % 2 ^ 128
mod_back s a b hs ha hb h = omega arith

module _ (a b : U128) (ha : IsU128 a) (hb : IsU128 b) where
  pub u128_add-IsU128 : IsU128 (u128_add a b)
  unfolding u128_add
  u128_add-IsU128 = record {
    w0 = (add_step_lem _ a.v0 b.v0 ha.w0 hb.w0).1;
    w1 = (add_step_lem _ a.v1 b.v1 ha.w1 hb.w1).1;
    w2 = (add_step_lem _ a.v2 b.v2 ha.w2 hb.w2).1;
    w3 = (add_step_lem _ a.v3 b.v3 ha.w3 hb.w3).1;
  }

  -- For numbers of four 32 bit words, u128_add adds modulo 2 ^ 128.
  pub value-u128_add : value (u128_add a b) ≡ (value a + value b) % 2 ^ 128
  unfolding u128_add
  value-u128_add =
      let s0 = add_step false a.v0 b.v0 in
      let s1 = add_step s0.carry a.v1 b.v1 in
      let s2 = add_step s1.carry a.v2 b.v2 in
      let s3 = add_step s2.carry a.v3 b.v3 in
      let l0 = add_step_lem false a.v0 b.v0 ha.w0 hb.w0 in
      let l1 = add_step_lem s0.carry a.v1 b.v1 ha.w1 hb.w1 in
      let l2 = add_step_lem s1.carry a.v2 b.v2 ha.w2 hb.w2 in
      let l3 = add_step_lem s2.carry a.v3 b.v3 ha.w3 hb.w3 in
      ripple a.v0 a.v1 a.v2 a.v3 b.v0 b.v1 b.v2 b.v3 s0.out s1.out s2.out s3.out (bit s0.carry)
        (bit s1.carry) (bit s2.carry) (bit s3.carry) (omega (arith, l0)) l1.0 l2.0 l3.0 l0.1 l1.1
        l2.1 l3.1

  pub u128_sub-IsU128 : IsU128 (u128_sub a b)
  unfolding u128_sub
  u128_sub-IsU128 = record {
    w0 = (sub_step_lem _ a.v0 b.v0 ha.w0 hb.w0).1;
    w1 = (sub_step_lem _ a.v1 b.v1 ha.w1 hb.w1).1;
    w2 = (sub_step_lem _ a.v2 b.v2 ha.w2 hb.w2).1;
    w3 = (sub_step_lem _ a.v3 b.v3 ha.w3 hb.w3).1;
  }

  -- What is subtracted can be added again.
  u128_sub_back : value a ≡ (value (u128_sub a b) + value b) % 2 ^ 128
  unfolding u128_sub
  u128_sub_back =
      let s0 = sub_step false a.v0 b.v0 in
      let s1 = sub_step s0.carry a.v1 b.v1 in
      let s2 = sub_step s1.carry a.v2 b.v2 in
      let s3 = sub_step s2.carry a.v3 b.v3 in
      let l0 = sub_step_lem false a.v0 b.v0 ha.w0 hb.w0 in
      let l1 = sub_step_lem s0.carry a.v1 b.v1 ha.w1 hb.w1 in
      let l2 = sub_step_lem s1.carry a.v2 b.v2 ha.w2 hb.w2 in
      let l3 = sub_step_lem s2.carry a.v3 b.v3 ha.w3 hb.w3 in
      ripple s0.out s1.out s2.out s3.out b.v0 b.v1 b.v2 b.v3 a.v0 a.v1 a.v2 a.v3 (bit s0.carry)
        (bit s1.carry) (bit s2.carry) (bit s3.carry) (omega (arith, l0)) (sym l1.0) (sym l2.0)
        (sym l3.0) ha.w0 ha.w1 ha.w2 ha.w3

  -- For numbers of four 32 bit words, u128_sub subtracts modulo 2 ^ 128.
  pub value-u128_sub : value (u128_sub a b) ≡ (value a + 2 ^ 128 - value b) % 2 ^ 128
  value-u128_sub =
      mod_back (value (u128_sub a b)) (value a) (value b) (value-lt _ u128_sub-IsU128)
        (value-lt a ha) (value-lt b hb) u128_sub_back

module _ (a : U128) (ha : IsU128 a) where
  pub u128_minus-IsU128 : IsU128 (u128_minus a)
  unfolding u128_minus
  u128_minus-IsU128 = record {
    w0 = (minus_step_lem _ a.v0 ha.w0).1;
    w1 = (minus_step_lem _ a.v1 ha.w1).1;
    w2 = (minus_step_lem _ a.v2 ha.w2).1;
    w3 = (minus_step_lem _ a.v3 ha.w3).1;
  }

  u128_minus_back : 0 ≡ (value (u128_minus a) + value a) % 2 ^ 128
  unfolding u128_minus
  u128_minus_back =
      let s0 = minus_step true a.v0 in
      let s1 = minus_step s0.carry a.v1 in
      let s2 = minus_step s1.carry a.v2 in
      let s3 = minus_step s2.carry a.v3 in
      let l0 = minus_step_lem true a.v0 ha.w0 in
      let l1 = minus_step_lem s0.carry a.v1 ha.w1 in
      let l2 = minus_step_lem s1.carry a.v2 ha.w2 in
      let l3 = minus_step_lem s2.carry a.v3 ha.w3 in
      ripple s0.out s1.out s2.out s3.out a.v0 a.v1 a.v2 a.v3 0 0 0 0 (1 - bit s0.carry)
        (1 - bit s1.carry) (1 - bit s2.carry) (1 - bit s3.carry) (ground (arith, l0))
        (ground (arith, l1)) (ground (arith, l2)) (ground (arith, l3)) (omega arith) (omega arith)
        (omega arith) (omega arith)

  -- For a number of four 32 bit words, u128_minus negates modulo 2 ^ 128.
  pub value-u128_minus : value (u128_minus a) ≡ (2 ^ 128 - value a) % 2 ^ 128
  value-u128_minus =
      mod_back (value (u128_minus a)) 0 (value a) (value-lt _ u128_minus-IsU128) (omega arith)
        (value-lt a ha) u128_minus_back

  module _ (b : ℕ) (hb : b < 2 ^ 32) where
    pub u128_add_32-IsU128 : IsU128 (u128_add_32 a b)
    unfolding u128_add_32
    u128_add_32-IsU128 = ground arith

    -- For a number of four 32 bit words and a 32 bit number, u128_add_32 adds modulo 2 ^ 128.
    pub value-u128_add_32 : value (u128_add_32 a b) ≡ (value a + b) % 2 ^ 128
    unfolding u128_add_32
    value-u128_add_32 = ground arith

    pub u128_sub_32-IsU128 : IsU128 (u128_sub_32 a b)
    unfolding u128_sub_32 borrow_from
    u128_sub_32-IsU128 = ground arith

    -- For a number of four 32 bit words and a 32 bit number, u128_sub_32 subtracts modulo 2 ^
    -- 128.
    pub value-u128_sub_32 : value (u128_sub_32 a b) ≡ (value a + 2 ^ 128 - b) % 2 ^ 128
    unfolding u128_sub_32 borrow_from
    value-u128_sub_32 = ground arith

-- For a 32 bit number and a number of four 32 bit words, u128_sub_from_32 subtracts the second
-- from the first modulo 2 ^ 128.
pub value-u128_sub_from_32 :
    (a : ℕ) (b : U128)
    → a < 2 ^ 32
    → IsU128 b
    → value (u128_sub_from_32 a b) ≡ (a + 2 ^ 128 - value b) % 2 ^ 128
unfolding u128_sub_from_32
value-u128_sub_from_32 a b ha hb = omega (
  arith,
  value-u128_minus b hb,
  value-u128_add_32 (u128_minus b) (u128_minus-IsU128 b hb) a ha,
  value-lt b hb,
)

-- For numbers of four 32 bit words, subtracting what was added gives the first operand back,
-- across the wrap.
pub u128_sub-u128_add : (a b : U128) → IsU128 a → IsU128 b → u128_sub (u128_add a b) b ≡ a
u128_sub-u128_add a b ha hb =
    let sum = u128_add-IsU128 a b ha hb in
    value-injective (u128_sub (u128_add a b) b) a (u128_sub-IsU128 (u128_add a b) b sum hb) ha (
      omega (
        arith,
        value-u128_sub (u128_add a b) b sum hb,
        value-u128_add a b ha hb,
        value-lt a ha,
        value-lt b hb,
      ))
