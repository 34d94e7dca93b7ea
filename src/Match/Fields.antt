-- ===== src/Match/Fields.antt =====
-- tcc/ext/match.c: `extract_bits`, `offset`, `match_1`.
use tcng.Common.{ℕ, zero, suc, ◌+◌, ◌-◌, ◌*◌, ◌/◌, ◌%◌, ◌^◌, List, [], ◌∷◌, Bool}
use tcng.Common.{Result, ok, err, Error, ◌>>=◌, ◌>>◌, guard, leb, ltb, ◌==◌, if◌then◌else◌}
use tcng.Common.{bit_and, bit_or}

-- The bytes from a position on.
unfoldable pub drop : ℕ → List ℕ → List ℕ
drop zero bytes = bytes
drop (suc n) [] = []
drop (suc n) (b ∷ bytes) = drop n bytes

-- `*data`: to read past the buffer is undefined.
unfoldable pub first : List ℕ → Result ℕ
first [] = err Error.undefined
first (b ∷ bytes) = ok b

unfoldable pub rest : List ℕ → List ℕ
rest [] = []
rest (b ∷ bytes) = bytes

-- The loop of `extract_bits` while `bits > 0`. A byte that ends it leaves `bits` at 0 or below, and
-- `res >>= -bits` drops what is too much.
unfoldable pub gather : List ℕ → ℕ → ℕ → Result ℕ
gather bytes zero res = ok res
gather [] (suc n) res = err Error.undefined
gather (b ∷ bytes) (suc n) res =
    let joined = bit_or (res * 2 ^ 8 % 2 ^ 32) b in
    let more = gather bytes (suc n - 8) joined in
    if leb 8 (suc n) then more else ok (joined / 2 ^ (8 - suc n))

unfoldable pub extract_bits : List ℕ → ℕ → ℕ → Result ℕ
unfolding drop first rest gather
extract_bits raw start bits =
    guard (leb (bits + start % 8) 32) Error.fault
    >> (first (drop (start / 8) raw) >>= λ (b : ℕ).
        let here = 8 - start % 8 in
        let res = bit_and b (2 ^ here - 1) in
        if leb here bits
        then gather (rest (drop (start / 8) raw)) (bits - here) res
        else ok (res / 2 ^ (here - bits)))

-- `TCCEXT_OFFSET`: `raw` is the null pointer, `meta` is `tccext_meta_field_group`; a group has its
-- base, the group, offset and length of its field, and its scaling.
pub data Group : Type 0 where
  raw meta : Group
  group : Group → Group → ℕ → ℕ → ℕ → Group

-- `<<` on 32 bits, by less than 32.
unfoldable pub shifted_left : ℕ → ℕ → Result ℕ
shifted_left n by = if ltb by 32 then ok (n * 2 ^ by % 2 ^ 32) else err Error.undefined

-- The number of bits before a group, as a 32 bit word.
unfoldable pub offset : Group → List ℕ → Result ℕ
unfolding extract_bits shifted_left
offset Group.raw bytes = ok 0
offset Group.meta bytes = err Error.unsupported
offset (Group.group base inner field_offset length shift_left) bytes =
    offset base bytes >>= λ (before : ℕ). offset inner bytes >>= λ (within : ℕ).
    extract_bits bytes ((within + field_offset) % 2 ^ 32) length >>= λ (n : ℕ).
    shifted_left n shift_left >>= λ (skip : ℕ). ok ((before + skip) % 2 ^ 32)

-- `TCCEXT_FIELD` and `TCCEXT_MATCH`, less its link.
pub record Field : Type 0 where
  pub offset_group : Group
  pub field_offset : ℕ
  pub length : ℕ

pub record Match : Type 0 where
  pub field : Field
  pub bytes : List ℕ

-- `(-length) & 7`
unfoldable pub padding : ℕ → ℕ
padding length = (8 - length % 8) % 8

-- `ntohs` on a little-endian machine.
unfoldable pub ntohs : ℕ → ℕ
ntohs n = n % 2 ^ 8 * 2 ^ 8 + n / 2 ^ 8 % 2 ^ 8

unfoldable pub match_raw : Match → List ℕ → Result Bool
unfolding offset extract_bits padding
match_raw m bytes = offset m.field.offset_group bytes >>= λ (before : ℕ).
    extract_bits bytes ((before + m.field.field_offset) % 2 ^ 32) m.field.length >>= λ (found : ℕ).
    extract_bits m.bytes (padding m.field.length) m.field.length >>= λ (wanted : ℕ).
    ok (found == wanted)

-- `META_PROTOCOL_OFFSET` and `META_PROTOCOL_SIZE` stand in a header that the build generates.
module _ (protocol_offset protocol_size : ℕ) where
  unfoldable pub match_meta : Match → ℕ → Result Bool
  unfolding extract_bits padding ntohs
  match_meta m protocol =
      guard (m.field.field_offset == protocol_offset * 8) Error.unsupported
      >> (guard (m.field.length == protocol_size * 8) Error.unsupported
          >> (extract_bits m.bytes (padding m.field.length) m.field.length >>= λ (n : ℕ).
              ok (ntohs protocol == n)))

  -- By the group of the field.
  unfoldable pub match_group : Group → Match → List ℕ → ℕ → Result Bool
  unfolding match_meta match_raw
  match_group Group.meta m bytes protocol = match_meta m protocol
  match_group Group.raw m bytes protocol = match_raw m bytes
  match_group (Group.group base inner o l k) m bytes protocol = match_raw m bytes

  unfoldable pub match_1 : Match → List ℕ → ℕ → Result Bool
  unfolding match_group
  match_1 m bytes protocol = match_group m.field.offset_group m bytes protocol
