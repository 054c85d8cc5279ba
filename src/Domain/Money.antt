-- ===== src/Domain/Money.antt =====
-- python/domain/money.py: an amount in whole cents, which is what `_coerce_decimal` lets through (a
-- finite decimal, not negative, with at most two places), and a currency in upper case.
pub mod Laws
use sira_seil_cockroach_aws.Base.Order.{codes}
use sira_seil_cockroach_aws.Base.{
  ℕ, zero, suc, ◌+◌, ◌-◌, ◌*◌, ◌/◌, ◌%◌, ◌^◌, ◌≤◌, ◌<◌, String, ◌≡◌, refl, sym, ap, subst, ◌∙◌, ◌≢◌,
  ◌↔◌, ◌⊎◌, inl, inr, Bool, true, false, not, ◌&&◌, ◌||◌, Option, none, some, List, [], ◌∷◌, ◌++◌,
  map, arith, eq_iff, ltb, leb, nat_eq, ◌==◌, if◌then◌else◌, Bool-cases, Option-cases, is_none,
  some_path, text_cases, text_eq_self, length, select, any, all, is_empty, All, All-map, All-append,
  All-zip, elem, set_of, Distinct, elem-append, elem-set_of, length-set_of, set_of-Distinct,
  Distinct-set_of, elem_head, elem_tail, All_at, All-self, Error, Result, ◌>>=◌, ◌>>◌, raise_if,
  is_ok, Result-cases, >>=-eq-ok, raise_if-eq-ok, domain_validation, invalid_transition,
  exchange_conflict, value_error, invalid_operation, key_error, recursion_error, ok, err,
}

-- A finite decimal as its constructor reads it: sign, coefficient and places after the point.
-- What is not finite is `none` in the argument of `coerce_decimal`.
pub record Decimal : Type 0 where
  pub negative : Bool
  pub coefficient : ℕ
  pub places : ℕ

pub record Money : Type 0 where
  pub amount : ℕ
  pub currency : String

-- The decimal context has 28 digits: an amount has to be below this many cents.
abbrev pub digits_28 : ℕ
digits_28 = 10 ^ 28

-- `result.quantize(Decimal("0.01"))`, in cents: to the nearest, or the exception of the context
unfoldable pub quantize : ℕ → ℕ → Result ℕ
quantize coefficient places =
    let cents = (2 * (coefficient * 100) + 10 ^ places) / (2 * 10 ^ places) in
    if leb digits_28 cents then err invalid_operation else ok cents

-- `_coerce_decimal`, in cents; a negative zero is zero
unfoldable pub coerce_decimal : Option Decimal → Result ℕ
unfolding quantize
coerce_decimal none = err (domain_validation "money amount must be finite")
coerce_decimal (some d) = do
  raise_if (d.negative && not (nat_eq d.coefficient 0))
      (domain_validation "money amount cannot be negative")
  cents ← quantize d.coefficient d.places
  raise_if (not (nat_eq (cents * 10 ^ d.places) (d.coefficient * 100)))
      (domain_validation "money amount must have at most two decimal places")
  ok cents

-- ^[A-Z]{3}$
unfoldable pub is_currency : String → Bool
is_currency s = nat_eq (length (codes s)) 3 && all (λ c. leb 65 c && leb c 90) (codes s)

-- `Money.__init__`; `upper` is `str.upper`
unfoldable pub make_money : (String → String) → Option Decimal → String → Result Money
unfolding coerce_decimal is_currency
make_money upper amount currency = do
  cents ← coerce_decimal amount
  raise_if (not (is_currency (upper currency)))
      (domain_validation "currency must be a three-letter ISO code")
  ok (record { amount = cents; currency = upper currency })

-- `Money._require_currency`
unfoldable pub require_currency : Money → Money → Result (Unit {0})
require_currency a b =
    raise_if (not (a.currency == b.currency))
      (domain_validation "money values use different currencies")

-- `Money.__add__`: the constructor takes the sum as it takes any amount
unfoldable pub add_money : Money → Money → Result Money
unfolding require_currency quantize
add_money a b = do
  require_currency a b
  cents ← quantize (a.amount + b.amount) 2
  ok (record { amount = cents; currency = a.currency })

-- `Money.__lt__`, on two amounts of money
unfoldable pub lt_money : Money → Money → Result Bool
unfolding require_currency
lt_money a b = require_currency a b >> ok (ltb a.amount b.amount)
