-- ===== src/U128.antt =====
-- shared/u128.c and shared/u128.h: 128 bit unsigned integers as four 32 bit words.
pub mod Value
pub mod Add
pub mod Left
pub mod Right
pub mod Compare
pub mod Examples
use tcng.Common.{
  ℕ, zero, suc, ◌+◌, ◌-◌, ◌*◌, ◌/◌, ◌%◌, ◌^◌, ◌≡◌, Bool, true, false, not, ◌&&◌, ◌||◌,
}
use tcng.Common.{ltb, leb, ◌==◌, if◌then◌else◌, bit_and, bit_or, bit_xor, Result, ok, err, Error}

-- `v0` is the least significant word.
pub record U128 : Type 0 where
  pub v0 : ℕ
  pub v1 : ℕ
  pub v2 : ℕ
  pub v3 : ℕ

-- uint32_t arithmetic.
abbrev pub u32 : ℕ → ℕ
u32 n = n % 2 ^ 32

abbrev pub add32 : ℕ → ℕ → ℕ
add32 a b = u32 (a + b)

abbrev pub sub32 : ℕ → ℕ → ℕ
sub32 a b = u32 (a + 2 ^ 32 - b)

-- ~a
abbrev pub not32 : ℕ → ℕ
not32 a = 2 ^ 32 - 1 - u32 a

-- `a.v[i]`; no caller leaves the array.
unfoldable pub word : U128 → ℕ → ℕ
word a zero = a.v0
word a (suc zero) = a.v1
word a (suc (suc zero)) = a.v2
word a (suc (suc (suc i))) = a.v3

-- `a.v[i] = w`
unfoldable pub put : U128 → ℕ → ℕ → U128
put a zero w = record a { v0 = w }
put a (suc zero) w = record a { v1 = w }
put a (suc (suc zero)) w = record a { v2 = w }
put a (suc (suc (suc i))) w = record a { v3 = w }

-- A word and the carry or borrow that leaves it.
pub record Step : Type 0 where
  pub out : ℕ
  pub carry : Bool

-- One round of the loop in `u128_add`.
unfoldable pub add_step : Bool → ℕ → ℕ → Step
add_step carry a b =
    let a' = if carry then add32 a 1 else a in
    let carry' = if carry then a' == 0 else false in
    let sum = add32 a' b in record { out = sum; carry = if ltb sum b then true else carry' }

unfoldable pub u128_add : U128 → U128 → U128
u128_add a b =
    let s0 = add_step false a.v0 b.v0 in
    let s1 = add_step s0.carry a.v1 b.v1 in
    let s2 = add_step s1.carry a.v2 b.v2 in
    let s3 = add_step s2.carry a.v3 b.v3 in
    record { v0 = s0.out; v1 = s1.out; v2 = s2.out; v3 = s3.out }

-- One round of the loop in `u128_sub`.
unfoldable pub sub_step : Bool → ℕ → ℕ → Step
sub_step borrow a b =
    let borrow' = if borrow then a == 0 else false in
    let a' = if borrow then sub32 a 1 else a in
    record { out = sub32 a' b; carry = if ltb a' b then true else borrow' }

unfoldable pub u128_sub : U128 → U128 → U128
u128_sub a b =
    let s0 = sub_step false a.v0 b.v0 in
    let s1 = sub_step s0.carry a.v1 b.v1 in
    let s2 = sub_step s1.carry a.v2 b.v2 in
    let s3 = sub_step s2.carry a.v3 b.v3 in
    record { v0 = s0.out; v1 = s1.out; v2 = s2.out; v3 = s3.out }

-- One round of the loop in `u128_minus`.
unfoldable pub minus_step : Bool → ℕ → Step
minus_step carry a =
    let a' = not32 a in
    let a'' = if carry then add32 a' 1 else a' in
    record { out = a''; carry = if carry then a'' == 0 else false }

unfoldable pub u128_minus : U128 → U128
u128_minus a =
    let s0 = minus_step true a.v0 in
    let s1 = minus_step s0.carry a.v1 in
    let s2 = minus_step s1.carry a.v2 in
    let s3 = minus_step s2.carry a.v3 in
    record { v0 = s0.out; v1 = s1.out; v2 = s2.out; v3 = s3.out }

unfoldable pub u128_and : U128 → U128 → U128
u128_and a b = record {
  v0 = bit_and a.v0 b.v0;
  v1 = bit_and a.v1 b.v1;
  v2 = bit_and a.v2 b.v2;
  v3 = bit_and a.v3 b.v3;
}

unfoldable pub u128_or : U128 → U128 → U128
u128_or a b = record {
  v0 = bit_or a.v0 b.v0;
  v1 = bit_or a.v1 b.v1;
  v2 = bit_or a.v2 b.v2;
  v3 = bit_or a.v3 b.v3;
}

unfoldable pub u128_xor : U128 → U128 → U128
u128_xor a b = record {
  v0 = bit_xor a.v0 b.v0;
  v1 = bit_xor a.v1 b.v1;
  v2 = bit_xor a.v2 b.v2;
  v3 = bit_xor a.v3 b.v3;
}

unfoldable pub u128_not : U128 → U128
u128_not a = record { v0 = not32 a.v0; v1 = not32 a.v1; v2 = not32 a.v2; v3 = not32 a.v3 }

-- The word that `u128_shift_left` writes at `i`. It is read from the array before the write.
unfoldable pub left_word : U128 → ℕ → ℕ → ℕ → ℕ
left_word a words bits i =
    let high = u32 (word a (i - words) * 2 ^ bits) in
    if not (bits == 0) && ltb words i
    then bit_or high (word a (i - words - 1) / 2 ^ (32 - bits))
    else high

-- `while (i >= 0) a.v[i--] = 0;` for the `n` words below `n`.
unfoldable pub clear_below : ℕ → U128 → U128
clear_below zero a = a
clear_below (suc i) a = clear_below i (put a i 0)

-- The loop of `u128_shift_left`, from `i` down; the argument is `i + 1`.
unfoldable pub left_loop : ℕ → ℕ → ℕ → U128 → U128
left_loop zero words bits a = a
left_loop (suc i) words bits a =
    let rest = left_loop i words bits (put a i (left_word a words bits i)) in
    if leb words i then rest else clear_below (suc i) a

unfoldable pub u128_shift_left : U128 → ℕ → U128
u128_shift_left a b = left_loop 4 (b / 32) (b % 32) a

-- The word that `u128_shift_right` writes at `i`.
unfoldable pub right_word : U128 → ℕ → ℕ → ℕ → ℕ
right_word a words bits i =
    let low = word a (i + words) / 2 ^ bits in
    if not (bits == 0) && ltb (i + words + 1) 4
    then bit_or low (u32 (word a (i + words + 1) * 2 ^ (32 - bits)))
    else low

-- `while (i < 4) a.v[i++] = 0;` with `n` words left.
unfoldable pub clear_above : ℕ → ℕ → U128 → U128
clear_above zero i a = a
clear_above (suc n) i a = clear_above n (i + 1) (put a i 0)

-- The loop of `u128_shift_right` at `i`, with `n` words up to the end of the array. The test
-- `i < 4-words` is on signed numbers.
unfoldable pub right_loop : ℕ → ℕ → ℕ → ℕ → U128 → U128
right_loop zero i words bits a = a
right_loop (suc n) i words bits a =
    let rest = right_loop n (i + 1) words bits (put a i (right_word a words bits i)) in
    if ltb (i + words) 4 then rest else clear_above (suc n) i a

unfoldable pub u128_shift_right : U128 → ℕ → U128
u128_shift_right a b = right_loop 4 0 (b / 32) (b % 32) a

unfoldable pub u128_from_32 : ℕ → U128
u128_from_32 a = record { v0 = a; v1 = 0; v2 = 0; v3 = 0 }

unfoldable pub u128_is_32 : U128 → Bool
u128_is_32 a = (a.v1 == 0) && ((a.v2 == 0) && (a.v3 == 0))

-- The error hook does not return.
unfoldable pub u128_to_32 : U128 → Result ℕ
u128_to_32 a =
    if not (a.v1 == 0) || (not (a.v2 == 0) || not (a.v3 == 0)) then err Error.too_large else ok a.v0

unfoldable pub u128_add_32 : U128 → ℕ → U128
u128_add_32 a b =
    let w0 = add32 a.v0 b in
    let w1 = add32 a.v1 1 in
    let w2 = add32 a.v2 1 in
    if ltb w0 b
    then if w1 == 0
      then if w2 == 0
        then record { v0 = w0; v1 = w1; v2 = w2; v3 = add32 a.v3 1 }
        else record a { v0 = w0; v1 = w1; v2 = w2 }
      else record a { v0 = w0; v1 = w1 }
    else record a { v0 = w0 }

-- `for (i = 1; i < 4; i++) if (a.v[i]--) break;`
unfoldable pub borrow_from : U128 → U128
borrow_from a =
    let w1 = sub32 a.v1 1 in
    let w2 = sub32 a.v2 1 in
    let w3 = sub32 a.v3 1 in
    if not (a.v1 == 0)
    then record a { v1 = w1 }
    else if not (a.v2 == 0)
    then record a { v1 = w1; v2 = w2 }
    else record a { v1 = w1; v2 = w2; v3 = w3 }

unfoldable pub u128_sub_32 : U128 → ℕ → U128
u128_sub_32 a b =
    let a' = if ltb a.v0 b then borrow_from a else a in record a' { v0 = sub32 a.v0 b }

unfoldable pub u128_sub_from_32 : ℕ → U128 → U128
u128_sub_from_32 a b = u128_add_32 (u128_minus b) a

unfoldable pub u128_and_32 : U128 → ℕ → U128
u128_and_32 a b = record a { v0 = bit_and a.v0 b }

unfoldable pub u128_or_32 : U128 → ℕ → U128
u128_or_32 a b = record a { v0 = bit_or a.v0 b }

unfoldable pub u128_xor_32 : U128 → ℕ → U128
u128_xor_32 a b = record a { v0 = bit_xor a.v0 b }

-- The results -1, 0 and 1 of a comparison.
pub data Cmp : Type 0 where
  below same above : Cmp

-- One round of the loop in `u128_cmp`, with the result of the later rounds.
unfoldable pub cmp_word : ℕ → ℕ → Cmp → Cmp
cmp_word a b rest = if a == b then rest else if ltb a b then Cmp.below else Cmp.above

unfoldable pub u128_cmp : U128 → U128 → Cmp
u128_cmp a b =
    cmp_word a.v0 b.v0 (cmp_word a.v1 b.v1 (cmp_word a.v2 b.v2 (cmp_word a.v3 b.v3 Cmp.same)))

unfoldable pub u128_is_zero : U128 → Bool
u128_is_zero a = (a.v0 == 0) && ((a.v1 == 0) && ((a.v2 == 0) && (a.v3 == 0)))
