-- ===== src/Decision/Gates.antt =====
-- When a candidate is eligible.
use sira_seil_cockroach_aws.Domain.Enums.{CandidateStatus, eligible, eligible_with_exception}
use sira_seil_cockroach_aws.Rules.Value.{PyFields, Readers}
use sira_seil_cockroach_aws.Rules.{RuleEvaluation, evaluate, is_true, is_false, is_unresolved}
use sira_seil_cockroach_aws.Decision.Models.{
  may_block, BuyerConstraint, SellerAntiFitRule, CandidateDefinition, CandidateResult, make_result,
}
use sira_seil_cockroach_aws.Decision.{
  Passage, stopped, after_constraint, after_seller, after_buyer, run_gates, last_gate, passed,
  passed, Extra, result_of, has_exception, buyer_gate, seller_gate, last_gate, run_gates,
  evaluate_candidate,
}
use sira_seil_cockroach_aws.Base.{
  String, ◌≡◌, refl, ◌⊎◌, inl, inr, Bool, true, false, not, ◌&&◌, Option, none, List, [], ◌∷◌,
  arith, Bool-cases, Option-cases, All, Result, Result-cases, >>=-eq-ok, ok,
}

abbrev pub is_eligible : CandidateStatus → Bool
is_eligible eligible = true
is_eligible eligible_with_exception = true
is_eligible _ = false

module _ (readers : Readers) (c : CandidateDefinition) where
  -- The constraint was evaluated and left no question open, and where it failed there is an
  -- approved exception that it allows.
  abbrev pub IsMet : PyFields → BuyerConstraint → Type 0
  IsMet context k =
      (e : RuleEvaluation) × (evaluate readers context k.expression ≡ ok e)
      × (is_unresolved e.value ≡ false)
      × ((is_false e.value && not (has_exception readers c k)) ≡ false)

  -- The seller's rule was evaluated, and neither applies nor leaves a question open.
  abbrev pub IsClear : PyFields → SellerAntiFitRule → Type 0
  IsClear context k =
      (e : RuleEvaluation) × (evaluate readers context k.expression ≡ ok e)
      × (is_unresolved e.value ≡ false)
      × (is_true e.value ≡ false)

  status_of_result :
      (status : CandidateStatus) (code : Option String) (reason : String) (extra : Extra)
      (r : CandidateResult)
      → result_of c status code reason extra ≡ ok r
      → r.status ≡ status
  unfolding result_of make_result
  status_of_result status code reason extra r h = ground arith

  constraint_passed :
      (k : BuyerConstraint) (e : RuleEvaluation) (rest excepted : Result Passage) (u : Bool)
      → after_constraint readers c k e rest excepted ≡ ok (passed u)
      → (is_unresolved e.value ≡ false)
        × ((is_false e.value && not (has_exception readers c k)) ≡ false)
        × ((excepted ≡ ok (passed u)) ⊎ (rest ≡ ok (passed u)))
  unfolding result_of
  constraint_passed k e rest excepted u h = (ground arith, ground arith, ground arith)

  buyer_gate_passed :
      (context : PyFields) (ks : List BuyerConstraint) (used u : Bool)
      → buyer_gate readers c context ks used ≡ ok (passed u)
      → All (IsMet context) ks
  unfolding buyer_gate
  buyer_gate_passed context [] used u h = tt
  buyer_gate_passed context (k ∷ ks) used u h =
      let (e, found, shown) = >>=-eq-ok (evaluate readers context k.expression) _ h in
      let (settled, met, on) =
        constraint_passed k e (buyer_gate readers c context ks used)
          (buyer_gate readers c context ks true) u shown in
      (
        (e, found, settled, met),
        elim on [
          | inl x ↦ buyer_gate_passed context ks true u x
          | inr x ↦ buyer_gate_passed context ks used u x
        ],
      )

  seller_gate_passed :
      (context : PyFields) (ks : List SellerAntiFitRule) (used u : Bool)
      → seller_gate readers c context ks used ≡ ok (passed u)
      → All (IsClear context) ks × (u ≡ used)
  unfolding seller_gate
  seller_gate_passed context [] used u h = (tt, ground arith)
  seller_gate_passed context (k ∷ ks) used u h =
      let (e, found, _) = >>=-eq-ok (evaluate readers context k.expression) _ h in
      let h' = rw found at h in
      let open_false : is_unresolved e.value ≡ false = ground arith in
      let true_false : is_true e.value ≡ false = ground arith in
      let rest : seller_gate readers c context ks used ≡ ok (passed u) = ground arith in
      let (clear, same) = seller_gate_passed context ks used u rest in
      (((e, found, open_false, true_false), clear), same)

  buyer_gate_stopped :
      (context : PyFields) (ks : List BuyerConstraint) (used : Bool) (r : CandidateResult)
      → buyer_gate readers c context ks used ≡ ok (stopped r)
      → is_eligible r.status ≡ false
  unfolding buyer_gate result_of make_result
  buyer_gate_stopped context [] used r h = absurd (ground arith)
  buyer_gate_stopped context (k ∷ ks) used r h =
      let (e, found, _) = >>=-eq-ok (evaluate readers context k.expression) _ h in
      let h' = rw found at h in
      ground (arith, buyer_gate_stopped context ks true r, buyer_gate_stopped context ks used r)

  seller_gate_stopped :
      (context : PyFields) (ks : List SellerAntiFitRule) (used : Bool) (r : CandidateResult)
      → seller_gate readers c context ks used ≡ ok (stopped r)
      → is_eligible r.status ≡ false
  unfolding seller_gate result_of make_result
  seller_gate_stopped context [] used r h = absurd (ground arith)
  seller_gate_stopped context (k ∷ ks) used r h =
      let (e, found, _) = >>=-eq-ok (evaluate readers context k.expression) _ h in
      let h' = rw found at h in ground (arith, seller_gate_stopped context ks used r)

  buyer_gate_passes :
      (context : PyFields) (ks : List BuyerConstraint) (used : Bool)
      → All (IsMet context) ks
      → (u : Bool) × (buyer_gate readers c context ks used ≡ ok (passed u))
  unfolding buyer_gate
  buyer_gate_passes context [] used h = (used, refl)
  buyer_gate_passes context (k ∷ ks) used ((e, found, settled, met), h) =
      elim (Bool-cases (is_false e.value)) [
        | inl f ↦
            let (u, rest) = buyer_gate_passes context ks true h in (u, rw found (ground arith))
        | inr f ↦
            let (u, rest) = buyer_gate_passes context ks used h in (u, rw found (ground arith))
      ]

  seller_gate_passes :
      (context : PyFields) (ks : List SellerAntiFitRule) (used : Bool)
      → All (IsClear context) ks
      → seller_gate readers c context ks used ≡ ok (passed used)
  unfolding seller_gate
  seller_gate_passes context [] used h = refl
  seller_gate_passes context (k ∷ ks) used ((e, found, settled, clear), h) =
      let rest = seller_gate_passes context ks used h in rw found (ground arith)

  -- Every gate lets the candidate on: it is available, no evidence is blocked, each constraint of
  -- the buyer is met, no rule of the seller applies, and its dependencies are not refuted or open.
  abbrev pub PassesAll : PyFields → PyFields → Type 0
  PassesAll buyer seller =
      (c.available ≡ true)
      × (c.evidence_block ≡ none)
      × All (IsMet buyer) c.buyer_constraints
      × All (IsClear seller) c.seller_anti_fit_rules
      × (is_false c.dependency_state ≡ false)
      × (is_unresolved c.dependency_state ≡ false)

  last_gate_eligible :
      (u : Bool) (r : CandidateResult)
      → last_gate readers c u ≡ ok r
      → is_eligible r.status ≡ true
      → (is_false c.dependency_state ≡ false) × (is_unresolved c.dependency_state ≡ false)
  unfolding last_gate result_of make_result
  last_gate_eligible u r h s = (ground arith, ground arith)

  last_gate_passes :
      (u : Bool)
      → is_false c.dependency_state ≡ false
      → is_unresolved c.dependency_state ≡ false
      → (r : CandidateResult) × (last_gate readers c u ≡ ok r) × (is_eligible r.status ≡ true)
  unfolding last_gate result_of make_result
  last_gate_passes true sound settled = elim (Result-cases (last_gate readers c true)) [
    | inl (r, h) ↦ (r, h, ground arith)
    | inr (e, h) ↦ absurd (ground arith)
  ]
  last_gate_passes false sound settled = elim (Result-cases (last_gate readers c false)) [
    | inl (r, h) ↦ (r, h, ground arith)
    | inr (e, h) ↦ absurd (ground arith)
  ]

  seller_eligible :
      (seller : PyFields) (u : Bool) (q : Passage) (r : CandidateResult)
      → seller_gate readers c seller c.seller_anti_fit_rules u ≡ ok q
      → after_seller readers c q ≡ ok r
      → is_eligible r.status ≡ true
      → All (IsClear seller) c.seller_anti_fit_rules
        × (is_false c.dependency_state ≡ false)
        × (is_unresolved c.dependency_state ≡ false)
  seller_eligible seller u (stopped x) r h k s =
      absurd (ground (arith, seller_gate_stopped seller c.seller_anti_fit_rules u x h))
  seller_eligible seller u (passed v) r h k s =
      let (sound, settled) = last_gate_eligible v r k s in
      ((seller_gate_passed seller c.seller_anti_fit_rules u v h).0, sound, settled)

  buyer_eligible :
      (buyer seller : PyFields) (p : Passage) (r : CandidateResult)
      → buyer_gate readers c buyer c.buyer_constraints false ≡ ok p
      → after_buyer readers c seller p ≡ ok r
      → is_eligible r.status ≡ true
      → All (IsMet buyer) c.buyer_constraints
        × All (IsClear seller) c.seller_anti_fit_rules
        × (is_false c.dependency_state ≡ false)
        × (is_unresolved c.dependency_state ≡ false)
  buyer_eligible buyer seller (stopped x) r h k s =
      absurd (ground (arith, buyer_gate_stopped buyer c.buyer_constraints false x h))
  buyer_eligible buyer seller (passed u) r h k s =
      let (q, one, more) =
        >>=-eq-ok (seller_gate readers c seller c.seller_anti_fit_rules u) (after_seller readers c)
          k in
      let (clear, sound, settled) = seller_eligible seller u q r one more s in
      (buyer_gate_passed buyer c.buyer_constraints false u h, clear, sound, settled)

  -- A candidate's result is eligible, with or without an exception, only when every gate lets the
  -- candidate on, given a candidate whose evidence block is one that its constructor accepts.
  pub eligible_passes :
      (buyer seller : PyFields) (r : CandidateResult)
      → may_block c.evidence_block ≡ true
      → evaluate_candidate readers c buyer seller ≡ ok r
      → is_eligible r.status ≡ true
      → PassesAll buyer seller
  unfolding evaluate_candidate result_of make_result
  eligible_passes buyer seller r b h s =
      let available : c.available ≡ true = ground arith in
      let unblocked : c.evidence_block ≡ none = elim (Option-cases c.evidence_block) [
        | inl e ↦ e
        | inr (block, e) ↦ absurd (ground arith)
      ] in
      let gates : run_gates readers c buyer seller ≡ ok r = rw (available, unblocked) at h in
      let (p, one, more) =
        >>=-eq-ok (buyer_gate readers c buyer c.buyer_constraints false)
          (after_buyer readers c seller) gates in
      let (met, clear, sound, settled) = buyer_eligible buyer seller p r one more s in
      (available, unblocked, met, clear, sound, settled)

  run_all :
      (buyer seller : PyFields) (u : Bool) (r : CandidateResult)
      → c.available ≡ true
      → c.evidence_block ≡ none
      → buyer_gate readers c buyer c.buyer_constraints false ≡ ok (passed u)
      → seller_gate readers c seller c.seller_anti_fit_rules u ≡ ok (passed u)
      → last_gate readers c u ≡ ok r
      → evaluate_candidate readers c buyer seller ≡ ok r
  unfolding evaluate_candidate
  run_all buyer seller u r available unblocked one two three =
      rw (available, unblocked, one, two) three

  -- A candidate that every gate lets on is eligible.
  pub passes_eligible :
      (buyer seller : PyFields)
      → PassesAll buyer seller
      → (r : CandidateResult) × (evaluate_candidate readers c buyer seller ≡ ok r)
        × (is_eligible r.status ≡ true)
  unfolding evaluate_candidate last_gate result_of make_result
  passes_eligible buyer seller (available, unblocked, met, clear, sound, settled) =
      let (u, one) = buyer_gate_passes buyer c.buyer_constraints false met in
      let two = seller_gate_passes seller c.seller_anti_fit_rules u clear in
      let (r, three, good) = last_gate_passes u sound settled in
      (r, run_all buyer seller u r available unblocked one two three, good)
