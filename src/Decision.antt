-- ===== src/Decision.antt =====
-- python/decision_engine/evaluation.py: the gates that a candidate passes, in order.
pub mod Models
pub mod Plans
pub mod Gates
pub mod Ranking
pub mod Bounds
pub mod Winner
pub mod Rounding
pub mod Ranked
pub mod Comparison
pub mod Counterfactual
pub mod Order
pub mod Tests
use sira_seil_cockroach_aws.Domain.Enums.{
  CandidateStatus, TruthValue, true_value, false_value, unresolved,
}
use sira_seil_cockroach_aws.Rules.Value.{PyFields, Readers}
use sira_seil_cockroach_aws.Base.Sort.{sorted}
use sira_seil_cockroach_aws.Base.Order.{text_le}
use sira_seil_cockroach_aws.Base.Dict.{Dict, lookup}
use sira_seil_cockroach_aws.Rules.{RuleEvaluation, evaluate, is_true, is_false, is_unresolved}
use Models.{BuyerConstraint, SellerAntiFitRule, CandidateDefinition, CandidateResult, make_result}
use sira_seil_cockroach_aws.Base.{
  ℕ, zero, suc, ◌+◌, ◌-◌, ◌*◌, ◌/◌, ◌%◌, ◌^◌, ◌≤◌, ◌<◌, String, ◌≡◌, refl, sym, ap, subst, ◌∙◌, ◌≢◌,
  ◌↔◌, ◌⊎◌, inl, inr, Bool, true, false, not, ◌&&◌, ◌||◌, Option, none, some, List, [], ◌∷◌, ◌++◌,
  map, arith, eq_iff, ltb, leb, nat_eq, ◌==◌, if◌then◌else◌, Bool-cases, Option-cases, is_none,
  some_path, text_cases, text_eq_self, length, select, any, all, is_empty, All, All-map, All-append,
  All-zip, elem, set_of, Distinct, elem-append, elem-set_of, length-set_of, set_of-Distinct,
  Distinct-set_of, elem_head, elem_tail, All_at, All-self, Error, Result, is_ok, ◌>>=◌,
  Result-cases, >>=-eq-ok, raise_if, ◌>>◌, raise_if-eq-ok, domain_validation, invalid_transition,
  exchange_conflict, value_error, invalid_operation, key_error, recursion_error, ok, err,
}

-- What a gate adds to a result: `**extra` with the defaults of the class.
pub record Extra : Type 0 where
  pub buyer_rule : Option String
  pub seller_rule : Option String
  pub evidence : List String
  pub open_fields : List String

abbrev pub no_extra : Extra
no_extra = record { buyer_rule = none; seller_rule = none; evidence = []; open_fields = [] }

-- `_result`
unfoldable pub result_of :
    CandidateDefinition → CandidateStatus → Option String → String → Extra → Result CandidateResult
unfolding make_result
result_of c status code reason extra = make_result (record {
  candidate_id = c.candidate_id;
  name = c.name;
  pack_id = c.pack_id;
  pack_version = c.pack_version;
  status = status;
  reason_code = code;
  reason = reason;
  preference_results = c.preference_results;
  buyer_rule_id = extra.buyer_rule;
  seller_rule_id = extra.seller_rule;
  evidence_claim_ids = extra.evidence;
  unresolved_fields = extra.open_fields;
  seller_positioning = c.seller_positioning;
})

-- The `value` of a member of the enumeration.
abbrev pub status_text : CandidateStatus → String
status_text CandidateStatus.eligible = "ELIGIBLE"
status_text CandidateStatus.eligible_with_exception = "ELIGIBLE_WITH_EXCEPTION"
status_text CandidateStatus.conditional = "CONDITIONAL"
status_text CandidateStatus.sira_ineligible = "SIRA_INELIGIBLE"
status_text CandidateStatus.seil_pass = "SEIL_PASS"
status_text CandidateStatus.unavailable = "UNAVAILABLE"
status_text CandidateStatus.stale_evidence = "STALE_EVIDENCE"
status_text CandidateStatus.insufficient_evidence = "INSUFFICIENT_EVIDENCE"
status_text CandidateStatus.conflicting_evidence = "CONFLICTING_EVIDENCE"
status_text CandidateStatus.authority_required = "AUTHORITY_REQUIRED"
status_text CandidateStatus.advisory_only = "ADVISORY_ONLY"

-- A gate returns a result, or lets the candidate on; the buyer's gate tells whether it did so by
-- an exception.
pub data Passage : Type 0 where
  stopped : CandidateResult → Passage
  passed : Bool → Passage

abbrev pub stop : Result CandidateResult → Result Passage
stop r = r >>= λ x. ok (stopped x)

module _ (readers : Readers) (c : CandidateDefinition) where
  -- `has_exception`
  abbrev pub has_exception : BuyerConstraint → Bool
  has_exception k = k.exception_allowed && elem k.rule_id c.approved_exception_rule_ids

  abbrev pub buyer_open : BuyerConstraint → RuleEvaluation → Result CandidateResult
  buyer_open k e =
      result_of c CandidateStatus.insufficient_evidence (some "BUYER_RULE_UNRESOLVED")
        "A required buyer-policy fact is unresolved"
        (record no_extra { buyer_rule = some k.rule_id; open_fields = e.unresolved_fields })

  abbrev pub buyer_refuses : BuyerConstraint → Result CandidateResult
  buyer_refuses k =
      result_of c CandidateStatus.sira_ineligible (some k.reason_code) k.display_reason
        (record no_extra { buyer_rule = some k.rule_id })

  -- The body of the loop, with what the rest of the loop gives without and with an exception.
  abbrev pub after_constraint :
      BuyerConstraint → RuleEvaluation → Result Passage → Result Passage → Result Passage
  after_constraint k e rest excepted =
      if is_unresolved e.value
      then stop (buyer_open k e)
      else if is_false e.value
      then (if has_exception k then excepted else stop (buyer_refuses k))
      else rest

  -- `for constraint in candidate.buyer_constraints`, with the flag `exception_used`
  unfoldable pub buyer_gate : PyFields → List BuyerConstraint → Bool → Result Passage
  unfolding evaluate result_of
  buyer_gate context [] used = ok (passed used)
  buyer_gate context (k ∷ ks) used = evaluate readers context k.expression >>= λ e.
      after_constraint k e (buyer_gate context ks used) (buyer_gate context ks true)

  abbrev pub seller_refuses : SellerAntiFitRule → Result CandidateResult
  seller_refuses k =
      result_of c CandidateStatus.seil_pass (some k.reason_code) k.display_reason
        (record no_extra { seller_rule = some k.rule_id; evidence = k.evidence_claim_ids })

  abbrev pub seller_open : SellerAntiFitRule → RuleEvaluation → Result CandidateResult
  seller_open k e =
      result_of c CandidateStatus.conditional (some "SELLER_CONDITION_UNRESOLVED")
        "A published seller condition needs an allowed field or seller revision"
        (record {
          buyer_rule = none;
          seller_rule = some k.rule_id;
          evidence = k.evidence_claim_ids;
          open_fields = e.unresolved_fields;
        })

  -- `for anti_fit in candidate.seller_anti_fit_rules`
  unfoldable pub seller_gate : PyFields → List SellerAntiFitRule → Bool → Result Passage
  unfolding evaluate result_of
  seller_gate context [] used = ok (passed used)
  seller_gate context (k ∷ ks) used = evaluate readers context k.expression >>= λ e.
      let rest = seller_gate context ks used in
      if is_true e.value
      then stop (seller_refuses k)
      else if is_unresolved e.value
      then stop (seller_open k e)
      else rest

  -- The tests of `dependency_state` and the final result.
  unfoldable pub last_gate : Bool → Result CandidateResult
  unfolding result_of
  last_gate used =
      if is_false c.dependency_state
      then result_of c CandidateStatus.sira_ineligible (some "DEPENDENCY_UNSATISFIED")
          "A required dependency cannot be satisfied"
          (record no_extra { buyer_rule = some "dependency_plan" })
      else if is_unresolved c.dependency_state
      then result_of c CandidateStatus.conditional (some "DEPENDENCY_PLAN_REQUIRED")
          "A required dependency plan is unresolved"
          (record no_extra { open_fields = "dependency_plan" ∷ [] })
      else if used
      then result_of c CandidateStatus.eligible_with_exception (some "APPROVED_EXCEPTION")
          "Eligible with an approved buyer-policy exception" no_extra
      else result_of c CandidateStatus.eligible none
          "Meets evaluated buyer and published seller gates" no_extra

  abbrev pub after_seller : Passage → Result CandidateResult
  after_seller (stopped r) = ok r
  after_seller (passed used) = last_gate used

  abbrev pub after_buyer : PyFields → Passage → Result CandidateResult
  after_buyer seller (stopped r) = ok r
  after_buyer seller (passed used) =
      seller_gate seller c.seller_anti_fit_rules used >>= after_seller

  -- The gates after the evidence.
  abbrev pub run_gates : PyFields → PyFields → Result CandidateResult
  run_gates buyer seller = buyer_gate buyer c.buyer_constraints false >>= after_buyer seller

  -- `evaluate_candidate`
  unfoldable pub evaluate_candidate : PyFields → PyFields → Result CandidateResult
  unfolding result_of buyer_gate seller_gate last_gate
  evaluate_candidate buyer seller =
      if not c.available
      then result_of c CandidateStatus.unavailable (some "UNAVAILABLE") "Not available" no_extra
      else elim c.evidence_block [
        | some block ↦
            result_of c block (some (status_text block))
              "Required evidence is not currently actionable" no_extra
        | none ↦ run_gates buyer seller
      ]

-- `contexts.get(candidate_id, {})`
abbrev pub context_of : String → Dict PyFields → PyFields
context_of i contexts = elim (lookup i contexts) [ none ↦ PyFields.no_fields | some fs ↦ fs ]

abbrev pub candidate_le : CandidateDefinition → CandidateDefinition → Bool
candidate_le a b = text_le a.candidate_id b.candidate_id

-- The tuple over the candidates, in the order that they are given in.
unfoldable pub evaluate_each :
    Readers
    → Dict PyFields
    → Dict PyFields
    → List CandidateDefinition
    → Result (List CandidateResult)
unfolding evaluate_candidate
evaluate_each readers buyers sellers [] = ok []
evaluate_each readers buyers sellers (c ∷ cs) =
    evaluate_candidate readers c (context_of c.candidate_id buyers)
      (context_of c.candidate_id sellers)
    >>= λ r. evaluate_each readers buyers sellers cs >>= λ rs. ok (r ∷ rs)

-- `evaluate_candidate_set`
unfoldable pub evaluate_candidate_set :
    Readers
    → Dict PyFields
    → Dict PyFields
    → List CandidateDefinition
    → Result (List CandidateResult)
unfolding evaluate_each
evaluate_candidate_set readers buyers sellers cs =
    evaluate_each readers buyers sellers (sorted candidate_le cs)
