-- ===== src/Decision/Bounds.antt =====
-- python/decision_engine/bounds.py: intervals for what orders the plans, and whether the winner is
-- sure of its place. Ratios stand for their values, which are not negative; that an `ExactRatio` is
-- kept in lowest terms is left out, and so is its display.
pub mod Aggregates
pub mod Envelope
pub mod Frontier
pub mod Stability
pub mod Tests
use sira_seil_cockroach_aws.Base.Fractions.{
  Fraction, whole, fraction_le, add_fraction, scale, divide,
}
use sira_seil_cockroach_aws.Base.Lex.{lt}
use sira_seil_cockroach_aws.Base.Sort.{sorted}
use sira_seil_cockroach_aws.Base.Order.{text_le}
use sira_seil_cockroach_aws.Domain.Enums.{
  CandidateStatus, StackRisk, low, medium, high, critical, risk_rank, RankStability, stable,
  unstable, undetermined,
}
use sira_seil_cockroach_aws.Domain.Ids.{require_id}
use sira_seil_cockroach_aws.Domain.Money.{Money}
use sira_seil_cockroach_aws.Domain.Time.{DateTime}
use sira_seil_cockroach_aws.Decision.Gates.{is_eligible}
use sira_seil_cockroach_aws.Decision.Models.{require_ids}
use sira_seil_cockroach_aws.Decision.Ranking.{RankKey, key_order, eligibility_order}
use sira_seil_cockroach_aws.Base.{
  ℕ, zero, suc, ◌+◌, ◌-◌, ◌*◌, ◌/◌, ◌%◌, ◌^◌, ◌≤◌, ◌<◌, String, ◌≡◌, refl, sym, ap, subst, ◌∙◌, ◌≢◌,
  ◌↔◌, ◌⊎◌, inl, inr, Bool, true, false, not, ◌&&◌, ◌||◌, Option, none, some, List, [], ◌∷◌, ◌++◌,
  map, arith, eq_iff, ltb, leb, nat_eq, ◌==◌, if◌then◌else◌, Bool-cases, Option-cases, is_none,
  some_path, text_cases, text_eq_self, length, select, any, all, is_empty, All, All-map, All-append,
  All-zip, elem, set_of, Distinct, elem-append, elem-set_of, length-set_of, set_of-Distinct,
  Distinct-set_of, elem_head, elem_tail, All_at, All-self, Error, Result, is_ok, ◌>>=◌,
  Result-cases, >>=-eq-ok, raise_if, ◌>>◌, raise_if-eq-ok, domain_validation, invalid_transition,
  exchange_conflict, value_error, invalid_operation, key_error, recursion_error, zero_division, ok,
  err,
}

pub record CriterionBound : Type 0 where
  pub criterion_id : String
  pub weight : ℕ
  pub conservative_satisfaction : Fraction
  pub optimistic_satisfaction : Fraction

-- `1 <= weight <= 5`
abbrev pub is_weight : ℕ → Bool
is_weight w = leb 1 w && leb w 5

-- `PreferenceCriterionBound.__post_init__`
unfoldable pub check_criterion : CriterionBound → Result CriterionBound
check_criterion c = do
  require_id c.criterion_id
  raise_if (not (is_weight c.weight))
      (domain_validation "preference weight must be an integer from 1 to 5")
  raise_if
      (not (
        fraction_le c.conservative_satisfaction c.optimistic_satisfaction
        && fraction_le c.optimistic_satisfaction (whole 1)))
      (domain_validation "preference satisfaction bounds must satisfy 0 <= low <= high <= 1")
  ok c

pub record ScoreBounds : Type 0 where
  pub conservative : Fraction
  pub optimistic : Fraction

-- `PreferenceScoreBounds.__post_init__`
unfoldable pub make_score_bounds : Fraction → Fraction → Result ScoreBounds
make_score_bounds c o = do
  raise_if (not (fraction_le c o && fraction_le o (whole 100)))
      (domain_validation "preference score bounds must be between zero and 100")
  ok (record { conservative = c; optimistic = o })

-- `len({item.criterion_id for item in criteria}) != len(criteria)`
abbrev pub repeats : List String → Bool
repeats is = not (nat_eq (length (set_of is)) (length is))

abbrev pub criterion_ids : List CriterionBound → List String
criterion_ids [] = []
criterion_ids (c ∷ cs) = c.criterion_id ∷ criterion_ids cs

abbrev pub criterion_weight : List CriterionBound → ℕ
criterion_weight [] = 0
criterion_weight (c ∷ cs) = c.weight + criterion_weight cs

-- `sum((item.weight * … for item in criteria), start=Fraction(0))`
unfoldable pub weighted_sum : (CriterionBound → Fraction) → List CriterionBound → Fraction
unfolding add_fraction scale
weighted_sum f [] = whole 0
weighted_sum f (c ∷ cs) = add_fraction (scale c.weight (f c)) (weighted_sum f cs)

-- `Fraction(100) * sum(…) / denominator`, where the denominator is one more than the argument
unfoldable pub average : (CriterionBound → Fraction) → List CriterionBound → ℕ → Fraction
unfolding weighted_sum divide scale
average f cs d = divide (scale 100 (weighted_sum f cs)) d

abbrev pub score_over : List CriterionBound → ℕ → Result ScoreBounds
score_over cs zero = err zero_division
score_over cs (suc d) =
    make_score_bounds (average (λ c. c.conservative_satisfaction) cs d)
      (average (λ c. c.optimistic_satisfaction) cs d)

-- `aggregate_preference_bounds`
unfoldable pub aggregate_preference_bounds : List CriterionBound → Result ScoreBounds
unfolding average make_score_bounds
aggregate_preference_bounds cs = do
  raise_if (is_empty cs)
      (domain_validation "a preference-capable plan requires at least one criterion")
  raise_if (repeats (criterion_ids cs)) (domain_validation "preference criteria must be unique")
  score_over cs (criterion_weight cs)

pub record CoverageCriterion : Type 0 where
  pub criterion_id : String
  pub weight : ℕ
  pub conservative_covered : Bool
  pub optimistic_covered : Bool

-- `CoverageCriterion.__post_init__`
unfoldable pub check_coverage : CoverageCriterion → Result CoverageCriterion
check_coverage c = do
  require_id c.criterion_id
  raise_if (not (is_weight c.weight))
      (domain_validation "coverage weight must be an integer from 1 to 5")
  raise_if (c.conservative_covered && not c.optimistic_covered)
      (domain_validation "optimistic coverage cannot be lower than conservative coverage")
  ok c

pub record CoverageBounds : Type 0 where
  pub conservative : Fraction
  pub optimistic : Fraction

abbrev pub coverage_ids : List CoverageCriterion → List String
coverage_ids [] = []
coverage_ids (c ∷ cs) = c.criterion_id ∷ coverage_ids cs

-- `sum(item.weight for item in criteria if …)`
abbrev pub covered : (CoverageCriterion → Bool) → List CoverageCriterion → ℕ
covered p [] = 0
covered p (c ∷ cs) = (if p c then c.weight else 0) + covered p cs

abbrev pub coverage_over : List CoverageCriterion → ℕ → Result CoverageBounds
coverage_over cs zero = err zero_division
coverage_over cs (suc d) = ok (record {
  conservative = record { numerator = covered (λ c. c.conservative_covered) cs; rest = d };
  optimistic = record { numerator = covered (λ c. c.optimistic_covered) cs; rest = d };
})

-- `aggregate_coverage_bounds`
unfoldable pub aggregate_coverage_bounds : List CoverageCriterion → Result CoverageBounds
aggregate_coverage_bounds [] = ok (record { conservative = whole 1; optimistic = whole 1 })
aggregate_coverage_bounds (c ∷ cs) = do
  raise_if (repeats (coverage_ids (c ∷ cs))) (domain_validation "coverage criteria must be unique")
  coverage_over (c ∷ cs) (covered (λ _. true) (c ∷ cs))

pub record RiskBounds : Type 0 where
  pub lower : StackRisk
  pub base : StackRisk
  pub upper : StackRisk

-- `RiskBounds.__post_init__`
unfoldable pub make_risk_bounds : StackRisk → StackRisk → StackRisk → Result RiskBounds
make_risk_bounds l b u = do
  raise_if (not (leb (risk_rank l) (risk_rank b) && leb (risk_rank b) (risk_rank u)))
      (domain_validation "risk bounds must satisfy lower <= base <= upper")
  ok (record { lower = l; base = b; upper = u })

-- `by_rank[rank]`, for the rank of a member
abbrev pub by_rank : ℕ → StackRisk
by_rank zero = low
by_rank (suc zero) = medium
by_rank (suc (suc zero)) = high
by_rank _ = critical

abbrev pub larger : ℕ → ℕ → ℕ
larger a b = if leb b a then a else b

-- `max(…rank for item in components)`; the components are not empty
abbrev pub max_rank : (RiskBounds → StackRisk) → List RiskBounds → ℕ
max_rank f [] = 0
max_rank f (c ∷ cs) = larger (risk_rank (f c)) (max_rank f cs)

-- `aggregate_risk_bounds`
unfoldable pub aggregate_risk_bounds : List RiskBounds → Result RiskBounds
unfolding make_risk_bounds
aggregate_risk_bounds cs = do
  raise_if (is_empty cs)
      (domain_validation "risk aggregation requires a component or current-stack action")
  make_risk_bounds (by_rank (max_rank (λ c. c.lower) cs)) (by_rank (max_rank (λ c. c.base) cs))
      (by_rank (max_rank (λ c. c.upper) cs))
