-- ===== src/Base/Fractions.antt =====
-- Python's `Fraction`, on numbers that are not negative, compared by value.
use Prim.Native.Nat.{ℕ, zero, suc, ◌+◌, ◌*◌, ◌≤◌}
use mathlib.Core.Path.{◌≡◌}
use mathlib.Core.Bool.{Bool, true, false}
use native.Mathlib.Omega.{arith}
use native.Mathlib.Nat.{mul-le-mul_right, le_of_mul-le-mul_right}
use sira_seil_cockroach_aws.Base.Tests.{leb}
use sira_seil_cockroach_aws.Base.Lex.{TotalOrder}
use sira_seil_cockroach_aws.Base.Results.{Result, ok, err, zero_division}

-- The denominator is one more than `rest`, so that it is positive.
pub record Fraction : Type 0 where
  pub numerator : ℕ
  pub rest : ℕ

abbrev pub denominator : Fraction → ℕ
denominator a = suc a.rest

abbrev pub whole : ℕ → Fraction
whole n = record { numerator = n; rest = 0 }

-- `a + b`; the product of the denominators is (r + 1) * (s + 1) for the rests r and s
unfoldable pub add_fraction : Fraction → Fraction → Fraction
add_fraction a b = record {
  numerator = a.numerator * suc b.rest + b.numerator * suc a.rest;
  rest = a.rest * b.rest + a.rest + b.rest;
}

-- `n * a`
unfoldable pub scale : ℕ → Fraction → Fraction
scale n a = record a { numerator = n * a.numerator }

-- `n * a / d`, for a divisor d that is one more than the argument
unfoldable pub divide : Fraction → ℕ → Fraction
divide a d = record { numerator = a.numerator; rest = a.rest * d + a.rest + d }

-- `Fraction(numerator, denominator)`
abbrev pub quotient : ℕ → ℕ → Result Fraction
quotient n zero = err zero_division
quotient n (suc d) = ok (record { numerator = n; rest = d })

abbrev pub fraction_le : Fraction → Fraction → Bool
fraction_le a b = leb (a.numerator * suc b.rest) (b.numerator * suc a.rest)

pub fraction_total : (a b : Fraction) → fraction_le a b ≡ false → fraction_le b a ≡ true
fraction_total a b h = ground arith

cross : (a b c d e f : ℕ) → a * suc d ≤ c * suc b → c * suc f ≤ e * suc d → a * suc f ≤ e * suc b
cross a b c d e f h k =
    le_of_mul-le-mul_right {k = suc d}
      (grind (arith, mul-le-mul_right (suc f) h, mul-le-mul_right (suc b) k)) (omega arith)

pub fraction_trans :
    (a b c : Fraction) → fraction_le a b ≡ true → fraction_le b c ≡ true → fraction_le a c ≡ true
fraction_trans a b c h k =
    ground (arith, cross a.numerator a.rest b.numerator b.rest c.numerator c.rest)

abbrev pub fraction_order : TotalOrder Fraction
fraction_order = record { le = fraction_le; total = fraction_total; trans = fraction_trans }

pub crossed :
    (a b : Fraction) → fraction_le a b ≡ true → a.numerator * suc b.rest ≤ b.numerator * suc a.rest
crossed a b h = ground arith

pub fraction_le_of :
    (a b : Fraction) → a.numerator * suc b.rest ≤ b.numerator * suc a.rest → fraction_le a b ≡ true
fraction_le_of a b h = ground arith

pub scale_mono :
    (n : ℕ) (a b : Fraction) → fraction_le a b ≡ true → fraction_le (scale n a) (scale n b) ≡ true
unfolding scale
scale_mono n a b h =
    fraction_le_of (scale n a) (scale n b) (omega (arith, mul-le-mul_right n (crossed a b h)))

pub add_fraction_mono :
    (a b c d : Fraction)
    → fraction_le a b ≡ true
    → fraction_le c d ≡ true
    → fraction_le (add_fraction a c) (add_fraction b d) ≡ true
unfolding add_fraction
add_fraction_mono a b c d h k = fraction_le_of (add_fraction a c) (add_fraction b d) (
    omega (
      arith,
      mul-le-mul_right (suc c.rest * suc d.rest) (crossed a b h),
      mul-le-mul_right (suc a.rest * suc b.rest) (crossed c d k),
    ))

pub divide_mono :
    (a b : Fraction) (d : ℕ) → fraction_le a b ≡ true → fraction_le (divide a d) (divide b d) ≡ true
unfolding divide
divide_mono a b d h =
    fraction_le_of (divide a d) (divide b d)
      (omega (arith, mul-le-mul_right (suc d) (crossed a b h)))
