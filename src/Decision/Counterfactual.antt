-- ===== src/Decision/Counterfactual.antt =====
-- python/decision_engine/counterfactual.py: the winner of a generic request against the winner of
-- the company's own.
use sira_seil_cockroach_aws.Domain.Enums.{CandidateStatus, sira_ineligible, seil_pass}
use sira_seil_cockroach_aws.Decision.Models.{CandidateResult}
use sira_seil_cockroach_aws.Decision.Plans.{SolutionPlan, Counterfactual, check_counterfactual}
use sira_seil_cockroach_aws.Decision.Ranking.{rank_solution_plans, first}
use sira_seil_cockroach_aws.Base.{
  String, Bool, true, false, not, Option, none, some, List, map, ◌==◌, select, Result, ◌>>=◌,
}

-- `ranked[0].plan_id if ranked else None`
abbrev pub winner_id : Option SolutionPlan → Option String
winner_id none = none
winner_id (some p) = some p.plan_id

-- `a == b`, of two texts or None
abbrev pub same_winner : Option String → Option String → Bool
same_winner none none = true
same_winner (some a) (some b) = a == b
same_winner _ _ = false

-- `result.status is CandidateStatus.SIRA_INELIGIBLE`
abbrev pub is_elimination : CandidateStatus → Bool
is_elimination sira_ineligible = true
is_elimination _ = false

-- `result.status is CandidateStatus.SEIL_PASS`
abbrev pub is_pass : CandidateStatus → Bool
is_pass seil_pass = true
is_pass _ = false

-- `result.reason_code or ""`
abbrev pub code_or_empty : Option String → String
code_or_empty none = ""
code_or_empty (some code) = code

abbrev pub explained : CandidateResult → String × String × String
explained r = (r.candidate_id, code_or_empty r.reason_code, r.reason)

unfoldable pub build_counterfactual :
    List SolutionPlan
    → List SolutionPlan
    → List CandidateResult
    → List String
    → String
    → List String
    → Result Counterfactual
build_counterfactual generic aware results facts statement uncertainties = do
  generic_ranked ← rank_solution_plans generic
  aware_ranked ← rank_solution_plans aware
  check_counterfactual (record {
    generic_winner_plan_id = winner_id (first generic_ranked);
    company_aware_winner_plan_id = winner_id (first aware_ranked);
    changed = not (same_winner (winner_id (first generic_ranked)) (winner_id (first aware_ranked)));
    decisive_private_fact_ids = facts;
    buyer_eliminations = map explained (select (λ r. is_elimination r.status) results);
    seller_passes = map explained (select (λ r. is_pass r.status) results);
    coverage_statement = statement;
    uncertainties = uncertainties;
  })
