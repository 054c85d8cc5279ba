-- ===== src/Decision/Bounds/Envelope.antt =====
-- python/decision_engine/bounds.py, from `CostBounds` on: the intervals of a plan, the keys at
-- their ends, and the stability of a winner.
use sira_seil_cockroach_aws.Base.Fractions.{Fraction, whole, fraction_le}
use sira_seil_cockroach_aws.Base.Lex.{lt}
use sira_seil_cockroach_aws.Base.Sort.{sorted}
use sira_seil_cockroach_aws.Base.Order.{text_le}
use sira_seil_cockroach_aws.Domain.Enums.{
  CandidateStatus, StackRisk, risk_rank, RankStability, stable, unstable, undetermined,
}
use sira_seil_cockroach_aws.Domain.Ids.{require_id}
use sira_seil_cockroach_aws.Domain.Money.{Money}
use sira_seil_cockroach_aws.Domain.Time.{DateTime}
use sira_seil_cockroach_aws.Decision.Gates.{is_eligible}
use sira_seil_cockroach_aws.Decision.Models.{require_ids}
use sira_seil_cockroach_aws.Decision.Ranking.{RankKey, key_order, eligibility_order}
use sira_seil_cockroach_aws.Decision.Bounds.{ScoreBounds, CoverageBounds, RiskBounds}
use sira_seil_cockroach_aws.Base.{
  ℕ, ◌-◌, ◌*◌, String, not, ◌&&◌, ◌||◌, Option, none, some, List, [], ◌∷◌, ltb, leb, nat_eq,
  if◌then◌else◌, is_none, length, is_empty, set_of, Result, ◌>>=◌, raise_if, ◌>>◌,
  domain_validation, ok, err,
}

pub record CostBounds : Type 0 where
  pub low : Money
  pub base : Money
  pub high : Money

-- `CostBounds.__post_init__`
unfoldable pub check_cost_bounds : CostBounds → Result CostBounds
check_cost_bounds c = do
  raise_if
      (not (nat_eq (length (set_of (c.low.currency ∷ c.base.currency ∷ c.high.currency ∷ []))) 1)
        || not (leb c.low.amount c.base.amount && leb c.base.amount c.high.amount))
      (domain_validation "TCO bounds require one currency and low <= base <= high")
  ok c

pub record AgeBounds : Type 0 where
  pub lower : Fraction
  pub upper : Fraction

-- `EvidenceAgeBounds.__post_init__`
unfoldable pub make_age_bounds : Fraction → Fraction → Result AgeBounds
make_age_bounds l u = do
  raise_if (not (fraction_le l u))
      (domain_validation "evidence-age bounds must satisfy 0 <= lower <= upper")
  ok (record { lower = l; upper = u })

-- The age in microseconds over the term in seconds.
abbrev pub age_ratio : DateTime → ℕ → DateTime → Fraction
age_ratio evaluated_at sla observed_at = record {
  numerator = evaluated_at.instant - observed_at.instant;
  rest = sla * 1_000_000 - 1;
}

-- `evidence_age_bounds`
unfoldable pub evidence_age_bounds : DateTime → DateTime → DateTime → ℕ → Result AgeBounds
unfolding make_age_bounds
evidence_age_bounds evaluated_at observed_lower observed_upper sla = do
  raise_if (not (evaluated_at.aware && observed_lower.aware && observed_upper.aware))
      (domain_validation "evidence times must be timezone-aware")
  raise_if (ltb sla 1)
      (domain_validation "evidence SLA must be a positive integer number of seconds")
  raise_if
      (not (
        leb observed_lower.instant observed_upper.instant
        && leb observed_upper.instant evaluated_at.instant))
      (domain_validation "evidence time bounds must precede evaluation")
  make_age_bounds (age_ratio evaluated_at sla observed_upper)
      (age_ratio evaluated_at sla observed_lower)

abbrev pub larger_fraction : Fraction → Fraction → Fraction
larger_fraction a b = if fraction_le b a then a else b

-- `max(… for item in items)`, from zero on, which is the value for no items
abbrev pub max_fraction : (AgeBounds → Fraction) → List AgeBounds → Fraction
max_fraction f [] = whole 0
max_fraction f (i ∷ is) = larger_fraction (f i) (max_fraction f is)

-- `aggregate_evidence_age_bounds`
unfoldable pub aggregate_evidence_age_bounds : List AgeBounds → Result AgeBounds
unfolding make_age_bounds
aggregate_evidence_age_bounds is =
    make_age_bounds (max_fraction (λ i. i.lower) is) (max_fraction (λ i. i.upper) is)

pub record OrderingBounds : Type 0 where
  pub preference : ScoreBounds
  pub stack_risk : RiskBounds
  pub total_cost : CostBounds
  pub decision_material_coverage : CoverageBounds
  pub maximum_evidence_age_ratio : AgeBounds

pub record BoundedPlan : Type 0 where
  pub plan_id : String
  pub status : CandidateStatus
  pub stable_action_ids : List String
  pub bounds : Option OrderingBounds
  pub bound_unavailable_reasons : List String

-- `BoundedPlan.__post_init__`
unfoldable pub check_bounded_plan : BoundedPlan → Result BoundedPlan
check_bounded_plan p = do
  require_id p.plan_id
  raise_if (not (is_eligible p.status))
      (domain_validation "only eligible plans receive authoritative ordering bounds")
  raise_if (is_empty p.stable_action_ids)
      (domain_validation "a bounded plan requires stable action IDs")
  require_ids p.stable_action_ids
  raise_if
      (if is_none p.bounds
        then is_empty p.bound_unavailable_reasons
        else not (is_empty p.bound_unavailable_reasons))
      (domain_validation "missing bounds require exact BOUND_UNAVAILABLE reasons")
  ok p

-- `_require_bounds`
abbrev pub require_bounds : BoundedPlan → Result OrderingBounds
require_bounds p = elim p.bounds [
  | none ↦ err (domain_validation "BOUND_UNAVAILABLE plans cannot receive an ordering key")
  | some b ↦ ok b
]

-- Values that a plan's ordering may turn out to have.
pub record Outcome : Type 0 where
  pub score : Fraction
  pub risk : StackRisk
  pub cost : ℕ
  pub coverage : Fraction
  pub age : Fraction

-- The tuple of the three keys, at such values.
unfoldable pub outcome_key : BoundedPlan → Outcome → RankKey
outcome_key p o = record {
  order = eligibility_order p.status;
  score = o.score;
  risk = risk_rank o.risk;
  cost = o.cost;
  coverage = o.coverage;
  age = o.age;
  actions = p.stable_action_ids;
  plan = p.plan_id;
}

abbrev pub base_outcome : OrderingBounds → Outcome
base_outcome b = record {
  score = b.preference.conservative;
  risk = b.stack_risk.base;
  cost = b.total_cost.base.amount;
  coverage = b.decision_material_coverage.conservative;
  age = b.maximum_evidence_age_ratio.upper;
}

abbrev pub worst_outcome : OrderingBounds → Outcome
worst_outcome b = record {
  score = b.preference.conservative;
  risk = b.stack_risk.upper;
  cost = b.total_cost.high.amount;
  coverage = b.decision_material_coverage.conservative;
  age = b.maximum_evidence_age_ratio.upper;
}

abbrev pub best_outcome : OrderingBounds → Outcome
best_outcome b = record {
  score = b.preference.optimistic;
  risk = b.stack_risk.lower;
  cost = b.total_cost.low.amount;
  coverage = b.decision_material_coverage.optimistic;
  age = b.maximum_evidence_age_ratio.lower;
}

-- `authoritative_ordering_key`
unfoldable pub authoritative_ordering_key : BoundedPlan → Result RankKey
unfolding outcome_key
authoritative_ordering_key p = require_bounds p >>= λ b. ok (outcome_key p (base_outcome b))

-- `conservative_envelope_key`
unfoldable pub conservative_envelope_key : BoundedPlan → Result RankKey
unfolding outcome_key
conservative_envelope_key p = require_bounds p >>= λ b. ok (outcome_key p (worst_outcome b))

-- `optimistic_envelope_key`
unfoldable pub optimistic_envelope_key : BoundedPlan → Result RankKey
unfolding outcome_key
optimistic_envelope_key p = require_bounds p >>= λ b. ok (outcome_key p (best_outcome b))

pub record StabilityResult : Type 0 where
  pub status : RankStability
  pub ordering_frontier_plan_ids : List String
  pub bound_unavailable_plan_ids : List String

-- `plan.plan_id for plan in all_plans if plan.bounds is None`
abbrev pub unavailable : List BoundedPlan → List String
unavailable [] = []
unavailable (p ∷ ps) =
    let rest = unavailable ps in if is_none p.bounds then p.plan_id ∷ rest else rest

-- `plan.plan_id for plan in competitors if optimistic_envelope_key(plan) < selected_worst`
unfoldable pub frontier : RankKey → List BoundedPlan → Result (List String)
unfolding optimistic_envelope_key
frontier worst [] = ok []
frontier worst (p ∷ ps) = optimistic_envelope_key p >>= λ k.
    frontier worst ps >>= λ rest. ok (if lt key_order k worst then p.plan_id ∷ rest else rest)

-- `assess_rank_stability`
unfoldable pub assess_rank_stability : BoundedPlan → List BoundedPlan → Result StabilityResult
unfolding conservative_envelope_key frontier
assess_rank_stability selected competitors =
    if not (is_empty (unavailable (selected ∷ competitors)))
    then ok (record {
      status = undetermined;
      ordering_frontier_plan_ids = [];
      bound_unavailable_plan_ids = sorted text_le (unavailable (selected ∷ competitors));
    })
    else do
      worst ← conservative_envelope_key selected
      ahead ← frontier worst competitors
      ok (record {
        status = (if is_empty ahead then stable else unstable);
        ordering_frontier_plan_ids = sorted text_le ahead;
        bound_unavailable_plan_ids = [];
      })
