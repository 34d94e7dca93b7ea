-- ===== src/Common/Results.antt =====
-- The ends of a C function that may not return: a value, an error message that ends the program,
-- or a fault (`abort`, a failed `assert`, a division by zero).
use mathlib.Core.Path.{◌≡◌, refl}
use mathlib.Core.Bool.{Bool, true, false}

pub data Error : Type 0 where
  -- "constant expression required", "invalid type conversion"
  not_constant bad_conversion : Error
  -- "invalid type(s) for operator"
  bad_type : Error
  -- "exceeds 32 bit range" and the like
  out_of_range : Error
  -- "128 bit value is too large for 32 bits"
  too_large : Error
  -- "string expressions must be constant"
  string_variable : Error
  -- "negation is an "expensive" operation"
  expensive : Error
  -- `dump_failed`: an expression that the output cannot express
  cannot_dump : Error
  -- an operation that C leaves undefined, such as a shift by the width of the word
  undefined : Error
  -- ""match" can't handle ...", and a field of the metadata that it does not know
  unsupported : Error
  -- "no bucket", "duplicate bucket index"
  bad_input : Error
  -- "required parameter ... is missing", "unrecognized parameter ..."
  missing_parameter unrecognized : Error
  -- "parameter stack overflow", "parameter stack underflow"
  stack_overflow stack_underflow : Error
  -- `abort`, a failed `assert`, a division by zero
  fault : Error

-- How a function ends: with an error, or with a value.
pub data Result {ℓ} (A : Type ℓ) : Type ℓ where
  err : Error → Result A
  ok : A → Result A

-- An error that is raised unless the test holds.
abbrev pub guard : Bool → Error → Result (Unit {0})
guard test e = elim test [ true ↦ ok tt | false ↦ err e ]

infixl 5 ◌>>=◌ ◌>>◌
abbrev pub ◌>>=◌ {ℓ κ} : {A : Type ℓ} {B : Type κ} → Result A → (A → Result B) → Result B
err e >>= next = err e
ok value >>= next = next value

abbrev pub ◌>>◌ {ℓ} : {B : Type ℓ} → Result (Unit {0}) → Result B → Result B
first >> next = elim first [ err e ↦ err e | ok u ↦ next ]

-- A chain that returns did so in both parts.
pub >>=-eq-ok {ℓ κ} :
    {A : Type ℓ} {B : Type κ} (first : Result A) (next : A → Result B) {b : B}
    → (first >>= next) ≡ ok b
    → (a : A) × (first ≡ ok a) × (next a ≡ ok b)
>>=-eq-ok (err e) next h = cc
>>=-eq-ok (ok value) next h = (value, refl, h)
