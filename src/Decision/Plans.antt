-- ===== src/Decision/Plans.antt =====
-- python/decision_engine/models.py: solution plans and their exact preference scores.
use sira_seil_cockroach_aws.Domain.Enums.{
  CandidateStatus, StackRisk, SolutionAction, reuse_existing, configure_existing, no_action, buy,
  renew, resize, replace, consolidate, cancel,
}
use sira_seil_cockroach_aws.Domain.Ids.{require_id}
use sira_seil_cockroach_aws.Base.Fractions.{Fraction, quotient}
use sira_seil_cockroach_aws.Domain.Money.{Money, Decimal}
use sira_seil_cockroach_aws.Decision.Models.{PreferenceResult, require_ids}
use sira_seil_cockroach_aws.Base.{
  ℕ, ◌+◌, ◌*◌, ◌^◌, String, Bool, true, false, not, ◌&&◌, ◌||◌, Option, List, [], ◌∷◌, ltb, nat_eq,
  if◌then◌else◌, is_empty, Result, raise_if, ◌>>◌, domain_validation, ok, err,
}

-- The `value` of a member of the enumeration.
abbrev pub action_text : SolutionAction → String
action_text reuse_existing = "REUSE_EXISTING"
action_text configure_existing = "CONFIGURE_EXISTING"
action_text no_action = "NO_ACTION"
action_text buy = "BUY"
action_text renew = "RENEW"
action_text resize = "RESIZE"
action_text replace = "REPLACE"
action_text consolidate = "CONSOLIDATE"
action_text cancel = "CANCEL"

abbrev is_buy : SolutionAction → Bool
is_buy buy = true
is_buy _ = false

pub record SolutionPlan : Type 0 where
  pub plan_id : String
  pub action : SolutionAction
  pub component_ids : List String
  pub status : CandidateStatus
  pub preference_results : List PreferenceResult
  pub stack_risk : StackRisk
  pub total_cost : Money
  pub horizon_days : ℕ
  pub required_evidence_coverage : Decimal
  pub maximum_evidence_age_ratio : Decimal
  pub seller_positioning : Option String
  pub stable_action_ids : List String

-- `value < 0`, of an exact decimal
abbrev is_below_zero : Decimal → Bool
is_below_zero d = d.negative && not (nat_eq d.coefficient 0)

-- `tuple(stable_action_ids) or (action.value, *components)`
abbrev pub stable_ids : List String → SolutionAction → List String → List String
stable_ids [] chosen components = action_text chosen ∷ components
stable_ids (i ∷ is) chosen components = i ∷ is

-- `SolutionPlan.__init__`, on finite decimals
unfoldable pub make_plan : SolutionPlan → Result SolutionPlan
unfolding require_id require_ids
make_plan p = do
  require_id p.plan_id
  raise_if (ltb p.horizon_days 1) (domain_validation "comparison horizon must be positive")
  raise_if
      (is_below_zero p.required_evidence_coverage
        || (not p.required_evidence_coverage.negative
            && ltb (10 ^ p.required_evidence_coverage.places)
                p.required_evidence_coverage.coefficient))
      (domain_validation "evidence coverage must be between zero and one")
  raise_if (is_below_zero p.maximum_evidence_age_ratio)
      (domain_validation "evidence age ratio cannot be negative")
  require_ids p.component_ids
  raise_if (is_buy p.action && is_empty p.component_ids)
      (domain_validation "a BUY plan requires at least one component")
  ok (record p { stable_action_ids = stable_ids p.stable_action_ids p.action p.component_ids })

-- The sum of weight times satisfaction, in quarters.
abbrev pub weighted : List PreferenceResult → ℕ
weighted [] = 0
weighted (p ∷ ps) = p.weight * p.quarters + weighted ps

abbrev pub total_weight : List PreferenceResult → ℕ
total_weight [] = 0
total_weight (p ∷ ps) = p.weight + total_weight ps

-- `exact_preference_score`: 100 times the quarters' sum over four times the weights, as 25 times
-- the sum over the weights
unfoldable pub exact_preference_score : List PreferenceResult → Result Fraction
exact_preference_score ps =
    if is_empty ps
    then err (domain_validation "an eligible plan needs at least one preference criterion")
    else quotient (25 * weighted ps) (total_weight ps)

pub record Counterfactual : Type 0 where
  pub generic_winner_plan_id : Option String
  pub company_aware_winner_plan_id : Option String
  pub changed : Bool
  pub decisive_private_fact_ids : List String
  pub buyer_eliminations : List (String × String × String)
  pub seller_passes : List (String × String × String)
  pub coverage_statement : String
  pub uncertainties : List String

-- `Counterfactual.__post_init__`
unfoldable pub check_counterfactual : Counterfactual → Result Counterfactual
check_counterfactual c = do
  raise_if (c.changed && is_empty c.decisive_private_fact_ids)
      (domain_validation "a changed counterfactual must identify decisive private facts")
  ok c
