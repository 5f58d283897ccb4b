-- ===== src/Prelude/Result.antt =====
-- What a call returns or raises. Exceptions are told apart by their class, as the code does.
use mathlib.Core.Path.{◌≡◌, refl}
use mathlib.Core.Logic.{◌⊎◌, inl, inr}

-- The classes that the code catches or that its callers tell apart.
pub data Error : Type 0 where
  run_not_found invalid_cursor quota_exceeded idempotency_conflict run_not_succeeded : Error
  evaluation_configuration retention_disabled runtime_error type_error key_error index_error
        value_error overflow_error data_error integrity_error key_destroyed invalid_tag
        zero_division :
      Error

pub data Result {ℓ} (Value : Type ℓ) : Type ℓ where
  raise : (exception : Error) → Result Value
  ok : (value : Value) → Result Value

module _ {ℓ} {Value : Type ℓ} where
  pub Result-cases :
      (call : Result Value)
      → ((e : Error) × (call ≡ raise e)) ⊎ ((value : Value) × (call ≡ ok value))
  Result-cases (raise e) = inl (e, refl)
  Result-cases (ok value) = inr (value, refl)

-- The statements after a call run on what it returned, and never after it raised.
infixl 5 ◌>>=◌
abbrev pub ◌>>=◌ {κ ℓ} :
    {Next : Type κ} {Value : Type ℓ} → Result Value → (Value → Result Next) → Result Next
raise exception >>= rest = raise exception
ok value >>= rest = rest value

infixl 5 ◌>>◌
abbrev pub ◌>>◌ {κ} : {Next : Type κ} → Result (Unit {0}) → Result Next → Result Next
first >> rest = first >>= λ done. rest

-- A block that returned got a value from its first call, and the rest returned.
pub >>=-eq-ok {κ ℓ} :
    {Next : Type κ} {Value : Type ℓ} (call : Result Value) (rest : Value → Result Next)
    {result : Next}
    → (call >>= rest) ≡ ok result
    → (value : Value) × (call ≡ ok value) × (rest value ≡ ok result)
>>=-eq-ok (raise exception) rest returned = cc
>>=-eq-ok (ok value) rest returned = (value, refl, returned)
