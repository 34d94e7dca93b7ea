-- ===== src/Match/Extract.antt =====
-- `extract_bits` against the bits of the packet.
use tcng.Common.{ℕ, zero, suc, ◌+◌, ◌-◌, ◌*◌, ◌/◌, ◌%◌, ◌^◌, ◌≤◌, ◌<◌, ◌≡◌, refl, ap, ◌∙◌, sym}
use tcng.Common.{List, [], ◌∷◌, arith, leb, true, false, All, ok, leb→le, inl, inr}
use tcng.Common.{Bool-cases, bit_and, bit_or, ◌>>=◌, if◌then◌else◌}
use tcng.Common.Bits.{bit_or_above}
use tcng.Common.Digits.{and_mask}
use tcng.U128.Left.{pow-add}
use native.Mathlib.Nat.{
  one-le-pow, pow-le-pow_right, mod-eq_of_lt, div-lt_iff_lt-mul, div-eq_of_lt, mul-add-div_right,
}
use tcng.Match.Fields.{drop, first, rest, gather, extract_bits}
use tcng.Match.Bits.{bits_at, bits_at-join, bits_at-next, bits_at-within, bits_at-small}

unfoldable pub size : List ℕ → ℕ
size [] = 0
size (b ∷ bytes) = suc (size bytes)

abbrev pub IsByte : ℕ → Type 0
IsByte b = b < 2 ^ 8

bits_at-empty : (s t n : ℕ) → bits_at [] s n ≡ bits_at [] t n
unfolding bits_at
bits_at-empty s t zero = refl
bits_at-empty s t (suc n) = omega (arith, bits_at-empty s t n)

bits_at-drop :
    (q s n : ℕ) (bytes : List ℕ) → bits_at bytes (q * 8 + s) n ≡ bits_at (drop q bytes) s n
unfolding drop
bits_at-drop zero s n bytes = let e : 0 * 8 + s ≡ s = omega arith in rw e refl
bits_at-drop (suc q) s n [] = bits_at-empty (suc q * 8 + s) s n
bits_at-drop (suc q) s n (b ∷ bytes) =
    let e : suc q * 8 + s ≡ 8 + (q * 8 + s) = omega arith in
    rw e (bits_at-next b bytes (q * 8 + s) n ∙ bits_at-drop q s n bytes)

size-drop : (q : ℕ) (bytes : List ℕ) → size (drop q bytes) ≡ size bytes - q
unfolding drop size
size-drop zero bytes = omega arith
size-drop (suc q) [] = omega arith
size-drop (suc q) (b ∷ bytes) = omega (arith, size-drop q bytes)

drop-IsByte : (q : ℕ) (bytes : List ℕ) → All IsByte bytes → All IsByte (drop q bytes)
unfolding drop
drop-IsByte zero bytes h = h
drop-IsByte (suc q) [] h = h
drop-IsByte (suc q) (b ∷ bytes) (hb, h) = drop-IsByte q bytes h

-- One more byte behind what was read.
joined_lem :
    (k b res : ℕ)
    → k ≤ 3
    → IsByte b
    → res < 2 ^ (8 * k)
    → bit_or (res * 2 ^ 8 % 2 ^ 32) b ≡ res * 2 ^ 8 + b
joined_lem k b res hk hb small =
    let top : 2 ^ (8 * k) ≤ 2 ^ 24 =
      pow-le-pow_right {n = 2} (omega arith) {i = 8 * k} {j = 24} (omega arith) in
    let e : res * 2 ^ 8 % 2 ^ 32 ≡ res * 2 ^ 8 = omega arith in rw e (bit_or_above 8 res b hb)

-- A byte of which `n` bits are wanted.
partial_lem :
    (b n d res : ℕ)
    → IsByte b
    → n + d ≡ 8
    → (res * 2 ^ 8 + b) / 2 ^ d ≡ res * 2 ^ n + b / 2 ^ d % 2 ^ n
partial_lem b n d res hb e =
    let pos = one-le-pow d 2 (omega arith) in
    let p : 2 ^ 8 ≡ 2 ^ n * 2 ^ d = ap (λ (t : ℕ). 2 ^ t) (sym e) ∙ pow-add n d in
    let q : res * 2 ^ 8 ≡ res * 2 ^ n * 2 ^ d = ap (λ (t : ℕ). res * t) p ∙ grind arith in
    let cut : (res * 2 ^ n * 2 ^ d + b) / 2 ^ d ≡ res * 2 ^ n + b / 2 ^ d =
      mul-add-div_right (omega arith) (res * 2 ^ n) b in
    let below : b / 2 ^ d % 2 ^ n ≡ b / 2 ^ d =
      mod-eq_of_lt ((div-lt_iff_lt-mul (omega arith)).1 (omega arith)) in
    rw (q, below) cut

not_leb : (a b : ℕ) → leb a b ≡ false → b < a
not_leb a b h = ground arith

byte_more : (k b res : ℕ) → IsByte b → res < 2 ^ (8 * k) → res * 2 ^ 8 + b < 2 ^ (8 * suc k)
byte_more k b res hb small =
    let e : 8 * suc k ≡ 8 + 8 * k = omega arith in rw e (omega (arith, pow-add 8 (8 * k)))

-- A byte that is wanted whole.
byte_bits :
    (b : ℕ) (bytes : List ℕ) (n m res : ℕ)
    → IsByte b
    → suc n ≡ m + 8
    → (res * 2 ^ 8 + b) * 2 ^ m + bits_at bytes 0 m
      ≡ res * 2 ^ suc n + bits_at (b ∷ bytes) 0 (suc n)
byte_bits b bytes n m res hb e =
    let byte : bits_at (b ∷ bytes) 0 8 ≡ b =
      bits_at-within b bytes 0 8 (omega arith) ∙ omega arith in
    let next : bits_at (b ∷ bytes) (0 + 8) m ≡ bits_at bytes 0 m = bits_at-next b bytes 0 m in
    let p : (res * 2 ^ 8 + b) * 2 ^ m ≡ 256 * (res * 2 ^ m) + b * 2 ^ m = grind arith in
    let q : res * 2 ^ (m + 8) ≡ 256 * (res * 2 ^ m) =
      ap (λ (t : ℕ). res * t) (pow-add m 8) ∙ grind arith in
    let r = ap (λ (t : ℕ). t * 2 ^ m) byte in rw e (omega (arith, bits_at-join (b ∷ bytes) 0 8 m))

gather_lem :
    (bytes : List ℕ) (left res k : ℕ)
    → All IsByte bytes
    → left ≤ 8 * size bytes
    → res < 2 ^ (8 * k)
    → 8 * k + left ≤ 32
    → gather bytes left res ≡ ok (res * 2 ^ left + bits_at bytes 0 left)
unfolding gather size bits_at
gather_lem bytes zero res k h long small room = ap ok (omega arith)
gather_lem [] (suc n) res k h long small room = absurd (omega arith)
gather_lem (b ∷ bytes) (suc n) res k (hb, h) long small room =
    let joined = joined_lem k b res (omega arith) hb small in
    elim (Bool-cases (leb 8 (suc n))) [
      | inl full ↦
          let more : 8 ≤ suc n = leb→le 8 (suc n) full in
          let m : ℕ = suc n - 8 in
          let later =
            gather_lem bytes m (res * 2 ^ 8 + b) (suc k) h (omega arith)
              (byte_more k b res hb small) (omega arith) in
          rw (full, joined) (later ∙ ap ok (byte_bits b bytes n m res hb (omega arith)))
      | inr part ↦
          let fewer : suc n < 8 = not_leb 8 (suc n) part in
          let e : 8 - (0 + suc n) ≡ 8 - suc n = omega arith in
          let within = bits_at-within b bytes 0 (suc n) (omega arith) in
          rw (part, joined)
            (ap ok (
              partial_lem b (suc n) (8 - suc n) res hb (omega arith)
              ∙ ap (λ (t : ℕ). res * 2 ^ suc n + t) (sym (rw e at within))))
    ]

-- The first byte, under the mask of the bits from `s` on.
first_bits :
    (b s : ℕ) (bytes : List ℕ) → s < 8 → bit_and b (2 ^ (8 - s) - 1) ≡ bits_at (b ∷ bytes) s (8 - s)
first_bits b s bytes h =
    let e : 8 - (s + (8 - s)) ≡ 0 = omega arith in
    let within = bits_at-within b bytes s (8 - s) (omega arith) in
    let one : b / 2 ^ 0 % 2 ^ (8 - s) ≡ b % 2 ^ (8 - s) =
      ap (λ (t : ℕ). t % 2 ^ (8 - s)) (omega arith) in
    and_mask (8 - s) b ∙ sym (rw e at within ∙ one)

whole_bits :
    (b : ℕ) (bytes : List ℕ) (s bits m : ℕ)
    → s < 8
    → bits ≡ m + (8 - s)
    → bits_at (b ∷ bytes) s bits ≡ bits_at (b ∷ bytes) s (8 - s) * 2 ^ m + bits_at bytes 0 m
whole_bits b bytes s bits m hs e =
    let f : s + (8 - s) ≡ 8 + 0 = omega arith in
    rw (e, bits_at-join (b ∷ bytes) s (8 - s) m, f, bits_at-next b bytes 0 m) refl

cut_bits :
    (bytes : List ℕ) (s here bits d : ℕ)
    → here ≡ d + bits
    → bits_at bytes s here / 2 ^ d ≡ bits_at bytes s bits
cut_bits bytes s here bits d e =
    let pos = one-le-pow d 2 (omega arith) in
    let none_left : bits_at bytes (s + bits) d / 2 ^ d ≡ 0 =
      div-eq_of_lt (bits_at-small bytes (s + bits) d) in
    let cut =
      mul-add-div_right {m = 2 ^ d} (omega arith) (bits_at bytes s bits)
        (bits_at bytes (s + bits) d) in
    rw (e, bits_at-join bytes s bits d) (omega (arith, cut))

le→leb : (a b : ℕ) → a ≤ b → leb a b ≡ true
le→leb a b h = ground arith

-- `extract_bits` at a list that begins with the byte of the first bit.
extract_here :
    (b : ℕ) (bytes : List ℕ) (s bits : ℕ)
    → IsByte b
    → All IsByte bytes
    → s < 8
    → s + bits ≤ 8 * suc (size bytes)
    → bits + s ≤ 32
    → (if leb (8 - s) bits
        then gather bytes (bits - (8 - s)) (bit_and b (2 ^ (8 - s) - 1))
        else ok (bit_and b (2 ^ (8 - s) - 1) / 2 ^ (8 - s - bits)))
      ≡ ok (bits_at (b ∷ bytes) s bits)
extract_here b bytes s bits hb h hs long room =
    let here : ℕ = 8 - s in
    let one = first_bits b s bytes hs in
    elim (Bool-cases (leb here bits)) [
      | inl full ↦
          let more : here ≤ bits = leb→le here bits full in
          let e : bits ≡ bits - here + here = omega arith in
          let small : bits_at (b ∷ bytes) s here < 2 ^ (8 * 1) = omega (
            arith,
            bits_at-small (b ∷ bytes) s here,
            pow-le-pow_right {n = 2} (omega arith) {i = here} {j = 8} (omega arith),
          ) in
          let later =
            gather_lem bytes (bits - here) (bits_at (b ∷ bytes) s here) 1 h (omega arith) small
              (omega arith) in
          rw (full, one) (later ∙ ap ok (sym (whole_bits b bytes s bits (bits - here) hs e)))
      | inr part ↦
          let fewer : bits < here = not_leb here bits part in
          let e : here ≡ here - bits + bits = omega arith in
          rw (part, one) (ap ok (cut_bits (b ∷ bytes) s here bits (here - bits) e))
    ]

-- `extract_bits` from the byte of the first bit on.
extract_tail :
    (bytes : List ℕ) (s bits : ℕ)
    → All IsByte bytes
    → s < 8
    → 0 < size bytes
    → s + bits ≤ 8 * size bytes
    → bits + s ≤ 32
    → (first bytes >>= λ (b : ℕ).
        (if leb (8 - s) bits
          then gather (rest bytes) (bits - (8 - s)) (bit_and b (2 ^ (8 - s) - 1))
          else ok (bit_and b (2 ^ (8 - s) - 1) / 2 ^ (8 - s - bits))))
      ≡ ok (bits_at bytes s bits)
unfolding first rest size
extract_tail [] s bits h hs some_byte long room = absurd (omega arith)
extract_tail (b ∷ bytes) s bits (hb, h) hs some_byte long room =
    extract_here b bytes s bits hb h hs long room

-- For a buffer of bytes, and bits that begin within it, end within it and lie in the four bytes
-- from that of the first bit on: extract_bits returns the bits as a number, the first one most
-- significant.
pub extract_bits_lem :
    (raw : List ℕ) (start bits : ℕ)
    → All IsByte raw
    → start < 8 * size raw
    → start + bits ≤ 8 * size raw
    → bits + start % 8 ≤ 32
    → extract_bits raw start bits ≡ ok (bits_at raw start bits)
unfolding extract_bits
extract_bits_lem raw start bits h inside long room =
    let q : ℕ = start / 8 in
    let fits : leb (bits + start % 8) 32 ≡ true = le→leb _ _ room in
    let e : start ≡ q * 8 + start % 8 = omega arith in
    let shorter = size-drop q raw in
    let found =
      extract_tail (drop q raw) (start % 8) bits (drop-IsByte q raw h) (omega arith) (omega arith)
        (omega arith) room in
    let moved : bits_at raw start bits ≡ bits_at (drop q raw) (start % 8) bits =
      ap (λ (t : ℕ). bits_at raw t bits) e ∙ bits_at-drop q (start % 8) bits raw in
    rw fits (found ∙ ap ok (sym moved))
