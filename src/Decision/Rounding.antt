-- ===== src/Decision/Rounding.antt =====
-- The rounding of a negated coverage in `ranking_key`, by what it is.
use native.Mathlib.Nat.{div-one, pow-succ', div-div-eq-div-mul, div-add-mod', mod-lt}
use sira_seil_cockroach_aws.Domain.Money.{Decimal, digits_28}
use sira_seil_cockroach_aws.Decision.Ranking.{rounded, excess, half_even}
use sira_seil_cockroach_aws.Base.{
  ℕ, zero, suc, ◌+◌, ◌-◌, ◌*◌, ◌/◌, ◌%◌, ◌^◌, ◌≤◌, ◌<◌, ◌≡◌, refl, sym, ap, ◌⊎◌, inl, inr, ltb, leb,
  Bool-cases, arith,
}

-- The turns are enough: what is left of a number with at most as many digits over the 28 as there
-- are turns has no more than 28.
pub excess_enough : (turns c : ℕ) → c < 10 ^ (28 + turns) → c / 10 ^ excess turns c < digits_28
unfolding excess
excess_enough zero c h = rw (div-one c) h
excess_enough (suc turns) c h = elim (Bool-cases (ltb c digits_28)) [
  | inl e ↦ rw (e, div-one c) ground arith
  | inr e ↦
      let shape : 28 + suc turns ≡ suc (28 + turns) = omega arith in
      let less_digits : c < 10 * 10 ^ (28 + turns) = rw (shape, pow-succ' 10 (28 + turns)) at h in
      let tenth : c / 10 < 10 ^ (28 + turns) = omega arith in
      rw
        (
          e,
          pow-succ' 10 (excess turns (c / 10)),
          sym (div-div-eq-div-mul c 10 (10 ^ excess turns (c / 10))),
        )
        (excess_enough turns (c / 10) tenth)
]

-- No more digits are dropped than the number has over the 28.
excess_least : (turns c : ℕ) → (excess turns c ≡ 0) ⊎ (10 ^ 27 ≤ c / 10 ^ excess turns c)
unfolding excess
excess_least zero c = inl refl
excess_least (suc turns) c = elim (Bool-cases (ltb c digits_28)) [
  | inl e ↦ inl (rw e refl)
  | inr e ↦
      let split = sym (div-div-eq-div-mul c 10 (10 ^ excess turns (c / 10))) in
      let big : 10 ^ 27 ≤ c / 10 = ground arith in
      elim (excess_least turns (c / 10)) [
        | inl last ↦ inr (rw (e, last) big)
        | inr more ↦ inr (rw (e, pow-succ' 10 (excess turns (c / 10)), split) more)
      ]
]

-- A positive power of ten, and powers with a difference in the exponent.
ten_positive : (n : ℕ) → 1 ≤ 10 ^ n
ten_positive zero = omega arith
ten_positive (suc n) = let more = ten_positive n in let e = pow-succ' 10 n in omega arith

ten_wide : (n : ℕ) → 10 ^ (28 + n) ≡ digits_28 * 10 ^ n
ten_wide zero = omega arith
ten_wide (suc n) =
    let shape : 28 + suc n ≡ suc (28 + n) = omega arith in
    let e = pow-succ' 10 (28 + n) in
    let f = pow-succ' 10 n in let more = ten_wide n in rw shape (omega arith)

ten_shift : (k p : ℕ) → 10 ^ (k - p) * 10 ^ p ≡ 10 ^ k * 10 ^ (p - k)
ten_shift zero p =
    let a : 0 - p ≡ 0 = omega arith in let b : p - 0 ≡ p = omega arith in rw (a, b) refl
ten_shift (suc k) zero =
    let a : suc k - 0 ≡ suc k = omega arith in let b : 0 - suc k ≡ 0 = omega arith in rw (a, b) refl
ten_shift (suc k) (suc p) =
    let a : suc k - suc p ≡ k - p = omega arith in
    let b : suc p - suc k ≡ p - k = omega arith in
    let rest = ten_shift k p in rw (a, b, pow-succ' 10 p, pow-succ' 10 k) (omega arith)

half_even_cases :
    (c d : ℕ)
    → ((half_even c d ≡ c / d) × (2 * (c % d) ≤ d))
      ⊎ ((half_even c d ≡ suc (c / d)) × (d ≤ 2 * (c % d)))
half_even_cases c d = ground arith

-- The quotient is to the nearest.
nearest :
    (c d : ℕ)
    → 1 ≤ d
    → (2 * c ≤ 2 * (half_even c d * d) + d) × (2 * (half_even c d * d) ≤ 2 * c + d)
nearest c d positive =
    let whole = div-add-mod' c d in
    let rest : c % d < d = mod-lt c positive in
    let more : suc (c / d) * d ≡ c / d * d + d = omega arith in
    elim (half_even_cases c d) [
      | inl (e, low) ↦ rw e (omega arith, omega arith)
      | inr (e, high) ↦ rw e (omega arith, omega arith)
    ]

-- The second decimal is the first, rounded to the nearest of those with 28 digits: a number m of as
-- many digits times a power of ten, which is 1 where no digit is dropped. A number above one, which
-- no plan's constructor takes as a coverage, may be left with more digits.
abbrev pub IsRounding : Decimal → Decimal → Type 0
IsRounding d r =
    (k m : ℕ) × (r.coefficient * 10 ^ d.places ≡ m * 10 ^ k * 10 ^ r.places)
    × (2 * d.coefficient ≤ 2 * (m * 10 ^ k) + 10 ^ k)
    × (2 * (m * 10 ^ k) ≤ 2 * d.coefficient + 10 ^ k)
    × ((k ≡ 0) ⊎ (10 ^ 27 ≤ m))
    × ((m ≤ 10 ^ 28) ⊎ (10 ^ d.places < d.coefficient))

at_least : (c d : ℕ) → c / d ≤ half_even c d
at_least c d = elim (half_even_cases c d) [ inl (e, _) ↦ omega arith | inr (e, _) ↦ omega arith ]

at_most : (c d : ℕ) → half_even c d ≤ suc (c / d)
at_most c d = elim (half_even_cases c d) [ inl (e, _) ↦ omega arith | inr (e, _) ↦ omega arith ]

enough_digits : (p c : ℕ) → (half_even c (10 ^ excess p c) ≤ 10 ^ 28) ⊎ (10 ^ p < c)
enough_digits p c = elim (Bool-cases (leb c (10 ^ p))) [
  | inr e ↦ inr (ground arith)
  | inl e ↦
      let wide = ten_wide p in
      let positive = ten_positive p in
      let small : c ≤ 10 ^ p = ground arith in
      let room : c < 10 ^ (28 + p) = rw wide (omega arith) in
      let left = excess_enough p c room in
      let most = at_most c (10 ^ excess p c) in inl (omega arith)
]

pub rounded-IsRounding : (d : Decimal) → IsRounding d (rounded d)
unfolding rounded
rounded-IsRounding d =
    let over = excess d.places d.coefficient in
    let (low, high) = nearest d.coefficient (10 ^ over) (ten_positive over) in
    let least = at_least d.coefficient (10 ^ over) in
    let kept = half_even d.coefficient (10 ^ over) in
    let shifted = ap (λ x. kept * x) (ten_shift over d.places) in
    let same : kept * 10 ^ (over - d.places) * 10 ^ d.places
        ≡ kept * 10 ^ over * 10 ^ (d.places - over) =
      omega arith in
    (
      over,
      half_even d.coefficient (10 ^ over),
      same,
      low,
      high,
      elim (excess_least d.places d.coefficient) [
        | inl none ↦ inl none
        | inr more ↦ inr (omega arith)
      ],
      enough_digits d.places d.coefficient,
    )
