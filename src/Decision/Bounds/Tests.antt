-- ===== src/Decision/Bounds/Tests.antt =====
-- Runs of the ranking and of the intervals at concrete plans.
use sira_seil_cockroach_aws.Decision.Comparison.{Ahead}
use sira_seil_cockroach_aws.Domain.Ids.{require_id}
use sira_seil_cockroach_aws.Base.Fractions.{whole, fraction_le}
use sira_seil_cockroach_aws.Base.Lex.{lt}
use sira_seil_cockroach_aws.Base.Shuffle.{Shuffle, swap, Pairwise}
use sira_seil_cockroach_aws.Domain.Enums.{StackRisk, RankStability, SolutionAction, eligible}
use sira_seil_cockroach_aws.Decision.Plans.{SolutionPlan}
use sira_seil_cockroach_aws.Decision.Ranking.{key_order, rounded, rank_solution_plans}
use sira_seil_cockroach_aws.Decision.Winner.{plan_eligible}
use sira_seil_cockroach_aws.Decision.Ranked.{rank_solution_plans_lem, rankings_agree}
use sira_seil_cockroach_aws.Decision.Bounds.{
  undetermined, CriterionBound, check_criterion, ScoreBounds, aggregate_preference_bounds,
}
use sira_seil_cockroach_aws.Decision.Bounds.Aggregates.{aggregate_preference_bounds_total}
use sira_seil_cockroach_aws.Decision.Bounds.Envelope.{
  OrderingBounds, BoundedPlan, Outcome, outcome_key, worst_outcome, best_outcome, StabilityResult,
  assess_rank_stability,
}
use sira_seil_cockroach_aws.Decision.Bounds.Stability.{
  Within, Allows, stable_order, unstable_order, IsOrdered,
}
use sira_seil_cockroach_aws.Decision.Bounds.Frontier.{Lacks, assess_rank_stability_lem}
use sira_seil_cockroach_aws.Base.{
  ℕ, ◌-◌, ◌^◌, String, ◌≡◌, refl, ◌↔◌, true, false, none, some, List, [], ◌∷◌, ◌++◌, arith, eq_iff,
  leb, select, ok,
}

abbrev cheap : SolutionPlan
cheap = record {
  plan_id = "plan-1";
  action = SolutionAction.buy;
  component_ids = "cand-1" ∷ [];
  status = eligible;
  preference_results =
      record { criterion_id = "fit"; weight = 2; quarters = 3; evidence_ids = []; unknown = false }
      ∷ [];
  stack_risk = StackRisk.low;
  total_cost = record { amount = 1000; currency = "USD" };
  horizon_days = 365;
  required_evidence_coverage = record { negative = false; coefficient = 1; places = 0 };
  maximum_evidence_age_ratio = record { negative = false; coefficient = 5; places = 1 };
  seller_positioning = none;
  stable_action_ids = "BUY" ∷ "cand-1" ∷ [];
}

abbrev dear : SolutionPlan
dear = record cheap { plan_id = "plan-0"; total_cost = record { amount = 2000; currency = "USD" } }

-- 0.9999999999999999999999999999995, to 28 digits.
rounded_to_one :
    rounded (record { negative = false; coefficient = 10 ^ 31 - 5; places = 31 })
    ≡ record { negative = false; coefficient = 10 ^ 28; places = 28 }
unfolding rounded
rounded_to_one = refl

ranked : rank_solution_plans (dear ∷ cheap ∷ []) ≡ ok (cheap ∷ dear ∷ [])
unfolding rank_solution_plans
ranked = refl

ranked_too : rank_solution_plans (cheap ∷ dear ∷ []) ≡ ok (cheap ∷ dear ∷ [])
unfolding rank_solution_plans
ranked_too = refl

rank_solution_plans_lem_example :
    Shuffle (select plan_eligible (dear ∷ cheap ∷ [])) (cheap ∷ dear ∷ [])
    × Pairwise Ahead (cheap ∷ dear ∷ [])
rank_solution_plans_lem_example =
    rank_solution_plans_lem (dear ∷ cheap ∷ []) (cheap ∷ dear ∷ []) ranked

rankings_agree_example : (cheap ∷ dear ∷ []) ≡ cheap ∷ dear ∷ []
rankings_agree_example =
    rankings_agree (cheap ∷ dear ∷ []) (cheap ∷ dear ∷ []) (swap dear cheap [])
      (((λ e. ground (arith, eq_iff "plan-0" "plan-1")), tt), (tt, tt)) ranked ranked_too

abbrev criteria : List CriterionBound
criteria =
    record {
      criterion_id = "fit";
      weight = 2;
      conservative_satisfaction = record { numerator = 1; rest = 1 };
      optimistic_satisfaction = whole 1;
    }
    ∷ []

aggregate_preference_bounds_total_example :
    (b : ScoreBounds) × (aggregate_preference_bounds criteria ≡ ok b)
    × (fraction_le b.conservative b.optimistic ≡ true)
    × (fraction_le b.optimistic (whole 100) ≡ true)
unfolding check_criterion require_id
aggregate_preference_bounds_total_example =
    aggregate_preference_bounds_total criteria refl refl (refl, tt)

-- Intervals that differ in the costs alone.
abbrev bounds : ℕ → ℕ → OrderingBounds
bounds low high = record {
  preference = record { conservative = whole 50; optimistic = whole 60 };
  stack_risk = record { lower = StackRisk.low; base = StackRisk.low; upper = StackRisk.low };
  total_cost = record {
    low = record { amount = low; currency = "USD" };
    base = record { amount = low; currency = "USD" };
    high = record { amount = high; currency = "USD" };
  };
  decision_material_coverage = record { conservative = whole 1; optimistic = whole 1 };
  maximum_evidence_age_ratio = record { lower = whole 0; upper = whole 1 };
}

abbrev sure : ℕ → ℕ → OrderingBounds
sure low high = record (bounds low high) {
  preference = record { conservative = whole 50; optimistic = whole 50 };
}

abbrev bounded : String → OrderingBounds → BoundedPlan
bounded i b = record {
  plan_id = i;
  status = eligible;
  stable_action_ids = "BUY" ∷ [];
  bounds = some b;
  bound_unavailable_reasons = [];
}

abbrev is_stable : StabilityResult
is_stable = record {
  status = RankStability.stable;
  ordering_frontier_plan_ids = [];
  bound_unavailable_plan_ids = [];
}

sure-Within : Within (sure 10 20) (worst_outcome (sure 10 20))
sure-Within = record {
  score_low = refl;
  score_high = refl;
  risk_low = refl;
  risk_high = refl;
  cost_low = refl;
  cost_high = refl;
  coverage_low = refl;
  coverage_high = refl;
  age_low = refl;
  age_high = refl;
}

dear-Within : Within (sure 30 40) (best_outcome (sure 30 40))
dear-Within = record {
  score_low = refl;
  score_high = refl;
  risk_low = refl;
  risk_high = refl;
  cost_low = refl;
  cost_high = refl;
  coverage_low = refl;
  coverage_high = refl;
  age_low = refl;
  age_high = refl;
}

stable_order_example :
    key_order.le
      (outcome_key (bounded "a" (sure 10 20)) (worst_outcome (sure 10 20)))
      (outcome_key (bounded "b" (sure 30 40)) (best_outcome (sure 30 40)))
    ≡ true
unfolding assess_rank_stability
stable_order_example =
    stable_order (bounded "a" (sure 10 20)) (bounded "b" (sure 30 40)) [] [] is_stable
      (worst_outcome (sure 10 20)) (best_outcome (sure 30 40)) refl refl
      (sure 10 20, refl, sure-Within) (sure 30 40, refl, dear-Within)

abbrev is_unstable : StabilityResult
is_unstable = record {
  status = RankStability.unstable;
  ordering_frontier_plan_ids = "b" ∷ [];
  bound_unavailable_plan_ids = [];
}

in_order : (low high : ℕ) → leb low high ≡ true → IsOrdered (bounds low high)
in_order low high h = record { score = refl; risk = refl; cost = h; coverage = refl; age = refl }

unstable_order_example :
    (before : List BoundedPlan) × (c : BoundedPlan) × (after : List BoundedPlan) × (o : Outcome)
    × (p : Outcome) × (bounded "b" (bounds 15 40) ∷ [] ≡ before ++ c ∷ after)
    × Allows (bounded "a" (bounds 10 20)) o
    × Allows c p
    × (lt key_order (outcome_key c p) (outcome_key (bounded "a" (bounds 10 20)) o) ≡ true)
unfolding assess_rank_stability
unstable_order_example =
    unstable_order (bounded "a" (bounds 10 20)) (bounded "b" (bounds 15 40) ∷ []) is_unstable
      (in_order 10 20 refl, (in_order 15 40 refl, tt)) refl refl

assess_rank_stability_lem_example :
    (r : StabilityResult) × (assess_rank_stability (bounded "a" (bounds 10 20)) [] ≡ ok r)
    × ((r.status ≡ undetermined) ↔ Lacks (bounded "a" (bounds 10 20) ∷ []))
assess_rank_stability_lem_example = assess_rank_stability_lem (bounded "a" (bounds 10 20)) []
