-- ===== src/Domain/Money/Laws.antt =====
-- Amounts are exact: what the constructor accepts, and the sum of two amounts.
use native.Mathlib.Nat.{one-le-pow}
use sira_seil_cockroach_aws.Domain.Money.{
  Money, Decimal, require_currency, coerce_decimal, add_money, digits_28, quantize,
}
use sira_seil_cockroach_aws.Base.{
  ℕ, ◌+◌, ◌*◌, ◌/◌, ◌^◌, ◌<◌, ◌≡◌, refl, ◌↔◌, ◌⊎◌, false, some, arith, eq_iff, ok,
}

quotient_exact : (c q : ℕ) → 0 < q → (2 * (c * q) + q) / (2 * q) ≡ c
quotient_exact c q h = grind arith

pub quantize_exact :
    (coefficient places c : ℕ)
    → c * 10 ^ places ≡ coefficient * 100
    → c < digits_28
    → quantize coefficient places ≡ ok c
unfolding quantize
quantize_exact coefficient places c e h =
    rw (← e, quotient_exact c (10 ^ places) (one-le-pow places 10 (omega arith))) (ground arith)

-- The amount in cents is the exact value of the decimal: the constructor accepts a decimal exactly
-- when it is not negative, is a whole number of cents, and has at most 28 digits as one.
pub coerce_decimal_iff :
    (d : Decimal) (c : ℕ)
    → (coerce_decimal (some d) ≡ ok c) ↔ (
        ((d.negative ≡ false) ⊎ (d.coefficient ≡ 0))
        × (c * 10 ^ d.places ≡ d.coefficient * 100)
        × (c < digits_28))
unfolding coerce_decimal
coerce_decimal_iff d c = (to, from)
  where
    to :
        coerce_decimal (some d) ≡ ok c
        → ((d.negative ≡ false) ⊎ (d.coefficient ≡ 0))
          × (c * 10 ^ d.places ≡ d.coefficient * 100)
          × (c < digits_28)
    to h = (ground arith, ground arith, ground arith)

    from :
        ((d.negative ≡ false) ⊎ (d.coefficient ≡ 0))
          × (c * 10 ^ d.places ≡ d.coefficient * 100)
          × (c < digits_28)
        → coerce_decimal (some d) ≡ ok c
    from (n, e, b) = rw (quantize_exact d.coefficient d.places c e b) (ground arith)

sum_exact : (n : ℕ) → n < digits_28 → quantize n 2 ≡ ok n
sum_exact n h = quantize_exact n 2 n refl h

-- Two amounts of one currency add up exactly, in either order, as long as the sum has at most 28
-- digits in cents.
pub add_money_exact :
    (a b : Money)
    → a.currency ≡ b.currency
    → a.amount + b.amount < digits_28
    → (add_money a b ≡ ok (record { amount = a.amount + b.amount; currency = a.currency }))
      × (add_money a b ≡ add_money b a)
unfolding add_money require_currency
add_money_exact a b e h =
    let left = sum_exact (a.amount + b.amount) h in
    let right : quantize (b.amount + a.amount) 2 ≡ ok (b.amount + a.amount) =
      sum_exact _ (omega arith) in
    (
      ground (arith, eq_iff a.currency b.currency),
      ground (arith, eq_iff a.currency b.currency, eq_iff b.currency a.currency),
    )
