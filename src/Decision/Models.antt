-- ===== src/Decision/Models.antt =====
-- python/decision_engine/models.py: candidates, their gates' rules and their results.
use sira_seil_cockroach_aws.Domain.Enums.{CandidateStatus, TruthValue}
use sira_seil_cockroach_aws.Domain.Ids.{require_id}
use sira_seil_cockroach_aws.Base.Sort.{sorted}
use sira_seil_cockroach_aws.Base.Order.{text_le}
use sira_seil_cockroach_aws.Rules.{RuleExpression}
use sira_seil_cockroach_aws.Base.{
  ℕ, String, Bool, true, false, not, ◌&&◌, ◌||◌, Option, none, some, List, [], ◌∷◌, map, ltb, leb,
  nat_eq, ◌==◌, all, is_empty, elem, set_of, Result, ◌>>=◌, ◌>>◌, raise_if, domain_validation, ok,
}

pub record BuyerConstraint : Type 0 where
  pub rule_id : String
  pub expression : RuleExpression
  pub reason_code : String
  pub display_reason : String
  pub exception_allowed : Bool

-- `if not text`, with the text spelled out
abbrev pub is_empty_text : String → Bool
is_empty_text s = s == ""

-- `BuyerConstraint.__post_init__`
unfoldable pub check_constraint : BuyerConstraint → Result BuyerConstraint
unfolding require_id
check_constraint c = do
  require_id c.rule_id
  raise_if (is_empty_text c.reason_code || is_empty_text c.display_reason)
      (domain_validation "buyer constraint reason is required")
  ok c

pub record SellerAntiFitRule : Type 0 where
  pub rule_id : String
  pub expression : RuleExpression
  pub reason_code : String
  pub display_reason : String
  pub evidence_claim_ids : List String

-- `for claim_id in …: require_id(claim_id, …)`
unfoldable pub require_ids : List String → Result (Unit {0})
unfolding require_id
require_ids [] = ok tt
require_ids (i ∷ is) = require_id i >>= λ _. require_ids is

-- `SellerAntiFitRule.__post_init__`
unfoldable pub check_anti_fit : SellerAntiFitRule → Result SellerAntiFitRule
unfolding require_id require_ids
check_anti_fit r = do
  require_id r.rule_id
  raise_if (is_empty_text r.reason_code || is_empty_text r.display_reason)
      (domain_validation "seller anti-fit reason is required")
  raise_if (is_empty r.evidence_claim_ids)
      (domain_validation "published hard anti-fit needs evidence claims")
  require_ids r.evidence_claim_ids
  ok r

-- A constructed preference result: the satisfaction, one of 0, .25, .5, .75 and 1, in quarters.
pub record PreferenceResult : Type 0 where
  pub criterion_id : String
  pub weight : ℕ
  pub quarters : ℕ
  pub evidence_ids : List String
  pub unknown : Bool

-- `PreferenceResult.__init__`, on a weight that is a natural number and a satisfaction in quarters
unfoldable pub check_preference : PreferenceResult → Result PreferenceResult
unfolding require_id
check_preference p = do
  require_id p.criterion_id
  raise_if (not (leb 1 p.weight && leb p.weight 5))
      (domain_validation "preference weight must be an integer from 1 to 5")
  raise_if (not (leb p.quarters 4))
      (domain_validation "satisfaction must be one of 0, .25, .5, .75, 1")
  raise_if (p.unknown && not (nat_eq p.quarters 0))
      (domain_validation "unknown evidence must contribute zero")
  ok p

pub record CandidateDefinition : Type 0 where
  pub candidate_id : String
  pub name : String
  pub pack_id : String
  pub pack_version : ℕ
  pub available : Bool
  pub evidence_block : Option CandidateStatus
  pub buyer_constraints : List BuyerConstraint
  pub seller_anti_fit_rules : List SellerAntiFitRule
  pub approved_exception_rule_ids : List String
  pub dependency_state : TruthValue
  pub preference_results : List PreferenceResult
  pub seller_positioning : Option String

abbrev pub may_block : Option CandidateStatus → Bool
may_block none = true
may_block (some CandidateStatus.stale_evidence) = true
may_block (some CandidateStatus.insufficient_evidence) = true
may_block (some CandidateStatus.conflicting_evidence) = true
may_block (some _) = false

-- `CandidateDefinition.__post_init__`
unfoldable pub check_candidate : CandidateDefinition → Result CandidateDefinition
unfolding require_id
check_candidate c = do
  require_id c.candidate_id
  require_id c.pack_id
  raise_if (is_empty_text c.name || ltb c.pack_version 1)
      (domain_validation "candidate name and positive Pack version are required")
  raise_if (not (may_block c.evidence_block))
      (domain_validation "evidence_block must be an evidence blocking status")
  raise_if
      (not (
        all (λ i. elem i (map (λ (r : BuyerConstraint). r.rule_id) c.buyer_constraints))
          c.approved_exception_rule_ids))
      (domain_validation "an exception references an unknown buyer constraint")
  ok c

pub record CandidateResult : Type 0 where
  pub candidate_id : String
  pub name : String
  pub pack_id : String
  pub pack_version : ℕ
  pub status : CandidateStatus
  pub reason_code : Option String
  pub reason : String
  pub preference_results : List PreferenceResult
  pub buyer_rule_id : Option String
  pub seller_rule_id : Option String
  pub evidence_claim_ids : List String
  pub unresolved_fields : List String
  pub seller_positioning : Option String

-- `bool(rule_id)`
abbrev pub names_rule : Option String → Bool
names_rule none = false
names_rule (some s) = not (is_empty_text s)

abbrev is_sira_ineligible : CandidateStatus → Bool
is_sira_ineligible CandidateStatus.sira_ineligible = true
is_sira_ineligible _ = false

abbrev is_seil_pass : CandidateStatus → Bool
is_seil_pass CandidateStatus.seil_pass = true
is_seil_pass _ = false

-- `CandidateResult.__post_init__`
unfoldable pub make_result : CandidateResult → Result CandidateResult
make_result r = do
  raise_if (is_sira_ineligible r.status && not (names_rule r.buyer_rule_id))
      (domain_validation "SIRA_INELIGIBLE must identify the buyer rule")
  raise_if (is_seil_pass r.status && not (names_rule r.seller_rule_id))
      (domain_validation "SEIL_PASS must identify the published seller rule")
  raise_if (names_rule r.buyer_rule_id && names_rule r.seller_rule_id)
      (domain_validation "buyer and seller rejection provenance cannot be conflated")
  ok (record r { unresolved_fields = sorted text_le (set_of r.unresolved_fields) })
