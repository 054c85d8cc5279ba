-- ===== src/Decision/Tests.antt =====
-- Runs of the rules and of the gates at concrete contexts.
use sira_seil_cockroach_aws.Base.Order.{text_le}
use sira_seil_cockroach_aws.Rules.Path.{resolve_field}
use sira_seil_cockroach_aws.Domain.Enums.{
  SolutionAction, StackRisk, eligible, CandidateStatus, TruthValue, true_value,
}
use sira_seil_cockroach_aws.Rules.Value.{bool, PyFields, Readers, strict_equal}
use sira_seil_cockroach_aws.Rules.{RuleOperator, RuleEvaluation, RuleExpression, all_of, evaluate}
use sira_seil_cockroach_aws.Decision.Models.{BuyerConstraint, CandidateDefinition, CandidateResult}
use sira_seil_cockroach_aws.Decision.{candidate_le, evaluate_candidate_set, evaluate_candidate}
use sira_seil_cockroach_aws.Base.Sort.{sorted, IsSorted}
use sira_seil_cockroach_aws.Decision.Order.{AreAbout, result_le, evaluate_candidate_set-IsSorted}
use sira_seil_cockroach_aws.Decision.Plans.{SolutionPlan}
use sira_seil_cockroach_aws.Decision.Gates.{
  is_eligible, PassesAll, eligible_passes, passes_eligible,
}
use sira_seil_cockroach_aws.Base.{◌≡◌, refl, true, false, none, some, [], ◌∷◌, ok}

-- No text reads as a number or a date.
abbrev readers : Readers
readers = record { read_decimal = λ s. none; read_date = λ s. none }

abbrev needs_soc2 : RuleExpression
needs_soc2 = record {
  conditions = record { field = "soc2"; operator = RuleOperator.eq; value = bool true } ∷ [];
  mode = all_of;
}

abbrev constraint : BuyerConstraint
constraint = record {
  rule_id = "rule-1";
  expression = needs_soc2;
  reason_code = "NO_SOC2";
  display_reason = "SOC 2 is required";
  exception_allowed = true;
}

abbrev candidate : CandidateDefinition
candidate = record {
  candidate_id = "cand-1";
  name = "Vendor";
  pack_id = "pack-1";
  pack_version = 1;
  available = true;
  evidence_block = none;
  buyer_constraints = constraint ∷ [];
  seller_anti_fit_rules = [];
  approved_exception_rule_ids = "rule-1" ∷ [];
  dependency_state = true_value;
  preference_results = [];
  seller_positioning = none;
}

abbrev facts : PyFields
facts = PyFields.field "soc2" (bool false) PyFields.no_fields

abbrev result : CandidateResult
result = record {
  candidate_id = "cand-1";
  name = "Vendor";
  pack_id = "pack-1";
  pack_version = 1;
  status = CandidateStatus.eligible_with_exception;
  reason_code = some "APPROVED_EXCEPTION";
  reason = "Eligible with an approved buyer-policy exception";
  preference_results = [];
  buyer_rule_id = none;
  seller_rule_id = none;
  evidence_claim_ids = [];
  unresolved_fields = [];
  seller_positioning = none;
}

eligible_passes_example : PassesAll readers candidate facts PyFields.no_fields
unfolding evaluate_candidate resolve_field strict_equal
eligible_passes_example =
    eligible_passes readers candidate facts PyFields.no_fields result refl refl refl

abbrev failing : RuleEvaluation
failing = record { value = TruthValue.false_value; unresolved_fields = [] }

passes_eligible_example :
    (r : CandidateResult) × (evaluate_candidate readers candidate facts PyFields.no_fields ≡ ok r)
    × (is_eligible r.status ≡ true)
unfolding evaluate resolve_field strict_equal
passes_eligible_example =
    passes_eligible readers candidate facts PyFields.no_fields
      (refl, refl, ((failing, refl, refl, refl), tt), tt, refl, refl)

abbrev other : CandidateDefinition
other = record candidate { candidate_id = "cand-0"; available = false }

abbrev other_result : CandidateResult
other_result = record result {
  candidate_id = "cand-0";
  status = CandidateStatus.unavailable;
  reason_code = some "UNAVAILABLE";
  reason = "Not available";
}

evaluate_candidate_set-IsSorted_example :
    AreAbout readers (sorted candidate_le (candidate ∷ other ∷ [])) (other_result ∷ result ∷ [])
    × IsSorted result_le (other_result ∷ result ∷ [])
unfolding evaluate_candidate_set text_le resolve_field strict_equal
evaluate_candidate_set-IsSorted_example =
    evaluate_candidate_set-IsSorted readers (("cand-1", facts) ∷ []) [] (candidate ∷ other ∷ [])
      (other_result ∷ result ∷ []) refl

abbrev cheap : SolutionPlan
cheap = record {
  plan_id = "plan-1";
  action = SolutionAction.buy;
  component_ids = "cand-1" ∷ [];
  status = eligible;
  preference_results =
      record { criterion_id = "fit"; weight = 2; quarters = 3; evidence_ids = []; unknown = false }
      ∷ [];
  stack_risk = StackRisk.low;
  total_cost = record { amount = 1000; currency = "USD" };
  horizon_days = 365;
  required_evidence_coverage = record { negative = false; coefficient = 1; places = 0 };
  maximum_evidence_age_ratio = record { negative = false; coefficient = 5; places = 1 };
  seller_positioning = none;
  stable_action_ids = "BUY" ∷ "cand-1" ∷ [];
}

abbrev dear : SolutionPlan
dear = record cheap { plan_id = "plan-0"; total_cost = record { amount = 2000; currency = "USD" } }
