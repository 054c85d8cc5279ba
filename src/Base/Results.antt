-- ===== src/Base/Results.antt =====
-- Python's exceptions as values. A message is the text of the source without the values that it
-- interpolates.
use Prim.Native.String.{String}
use mathlib.Core.Path.{◌≡◌, refl}
use mathlib.Core.Logic.{◌⊎◌, inl, inr}
use mathlib.Core.Bool.{Bool, true, false}

pub data Error : Type 0 where
  -- domain.errors.DomainValidationError
  domain_validation : String → Error
  -- domain.errors.InvalidTransitionError, a subclass of the former
  invalid_transition : String → Error
  -- domain.bilateral_exchange.ExchangeConflict
  exchange_conflict : String → Error
  -- domain.exchange_contracts.ContractViolation
  contract_violation : String → Error
  -- a plain ValueError
  value_error : String → Error
  -- a TypeError
  type_error : Error
  -- decimal.InvalidOperation, an ArithmeticError
  invalid_operation : Error
  -- KeyError, of a dict that lacks the key
  key_error : Error
  -- AttributeError, of a value that lacks the method
  attribute_error : Error
  -- a plain RuntimeError
  runtime_error : String → Error
  -- RecursionError, of the interpreter
  recursion_error : Error
  -- ZeroDivisionError
  zero_division : Error

pub data Result {ℓ} (A : Type ℓ) : Type ℓ where
  ok : A → Result A
  err : Error → Result A

abbrev pub is_ok {ℓ} : {A : Type ℓ} → Result A → Bool
is_ok (ok a) = true
is_ok (err e) = false

infixl 5 ◌>>=◌
abbrev pub ◌>>=◌ {ℓ μ} : {X : Type ℓ} {Y : Type μ} → Result X → (X → Result Y) → Result Y
err e >>= next = err e
ok x >>= next = next x

pub Result-cases {ℓ} :
    {A : Type ℓ} (r : Result A) → ((a : A) × (r ≡ ok a)) ⊎ ((e : Error) × (r ≡ err e))
Result-cases (ok a) = inl (a, refl)
Result-cases (err e) = inr (e, refl)

pub ok_path {ℓ} : {A : Type ℓ} (a b : A) → ok a ≡ ok b → a ≡ b
ok_path a b h = cc

pub err_path {ℓ} : {A : Type ℓ} (d e : Error) → ◌≡◌ {A = Result A} (err d) (err e) → d ≡ e
err_path d e h = cc

-- Inversion of a bind that succeeds.
pub >>=-eq-ok {ℓ μ} :
    {X : Type ℓ} {Y : Type μ} (r : Result X) (next : X → Result Y) {y : Y}
    → (r >>= next) ≡ ok y
    → (x : X) × (r ≡ ok x) × (next x ≡ ok y)
>>=-eq-ok (err e) next h = cc
>>=-eq-ok (ok x) next h = (x, refl, h)

-- `if c: raise e`
abbrev pub raise_if : Bool → Error → Result (Unit {0})
raise_if true e = err e
raise_if false e = ok tt

infixl 5 ◌>>◌
abbrev pub ◌>>◌ {ℓ} : {Y : Type ℓ} → Result (Unit {0}) → Result Y → Result Y
first >> rest = first >>= λ _. rest

pub raise_if-eq-ok {ℓ} :
    {B : Type ℓ} (c : Bool) (e : Error) (k : Result B) {b : B}
    → (raise_if c e >> k) ≡ ok b
    → (c ≡ false) × (k ≡ ok b)
raise_if-eq-ok true e k h = cc
raise_if-eq-ok false e k h = (refl, h)

pub raise_if_ok : (c : Bool) (e : Error) → raise_if c e ≡ ok tt → c ≡ false
raise_if_ok true e h = cc
raise_if_ok false e h = refl
