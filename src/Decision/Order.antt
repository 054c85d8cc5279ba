-- ===== src/Decision/Order.antt =====
-- The results of a set of candidates: one for each, in the order of the identifiers.
use sira_seil_cockroach_aws.Base.Sort.{sorted, IsSorted, sorted-IsSorted}
use sira_seil_cockroach_aws.Base.Order.{text_le, text_le_total, text_le_trans}
use sira_seil_cockroach_aws.Rules.Value.{PyFields, Readers}
use sira_seil_cockroach_aws.Rules.{evaluate}
use sira_seil_cockroach_aws.Base.Dict.{Dict}
use sira_seil_cockroach_aws.Decision.Models.{
  BuyerConstraint, SellerAntiFitRule, CandidateDefinition, CandidateResult, make_result,
}
use sira_seil_cockroach_aws.Decision.{
  context_of, evaluate_each, evaluate_candidate_set, candidate_le, evaluate_candidate, result_of,
  buyer_gate, seller_gate, last_gate, Passage, stopped, passed, run_gates, after_buyer,
  after_seller,
}
use sira_seil_cockroach_aws.Base.{
  ◌≡◌, subst, inl, inr, Bool, true, false, List, [], ◌∷◌, arith, Bool-cases, Option-cases, All,
  >>=-eq-ok, ok,
}

module _ (readers : Readers) where
  -- The result is about the candidate.
  abbrev pub IsAbout : CandidateDefinition → CandidateResult → Type 0
  IsAbout c r =
      (r.candidate_id ≡ c.candidate_id)
      × (r.pack_id ≡ c.pack_id)
      × (r.pack_version ≡ c.pack_version)

  buyer_gate-IsAbout :
      (c : CandidateDefinition) (context : PyFields) (ks : List BuyerConstraint) (used : Bool)
      (r : CandidateResult)
      → buyer_gate readers c context ks used ≡ ok (stopped r)
      → IsAbout c r
  unfolding buyer_gate result_of make_result
  buyer_gate-IsAbout c context [] used r h = absurd (ground arith)
  buyer_gate-IsAbout c context (k ∷ ks) used r h =
      let (e, found, _) = >>=-eq-ok (evaluate readers context k.expression) _ h in
      let h' = rw found at h in
      let about = buyer_gate-IsAbout c context ks in
      (
        ground (arith, about true r, about used r),
        ground (arith, about true r, about used r),
        ground (arith, about true r, about used r),
      )

  seller_gate-IsAbout :
      (c : CandidateDefinition) (context : PyFields) (ks : List SellerAntiFitRule) (used : Bool)
      (r : CandidateResult)
      → seller_gate readers c context ks used ≡ ok (stopped r)
      → IsAbout c r
  unfolding seller_gate result_of make_result
  seller_gate-IsAbout c context [] used r h = absurd (ground arith)
  seller_gate-IsAbout c context (k ∷ ks) used r h =
      let (e, found, _) = >>=-eq-ok (evaluate readers context k.expression) _ h in
      let h' = rw found at h in
      let about = seller_gate-IsAbout c context ks used r in
      (ground (arith, about), ground (arith, about), ground (arith, about))

  last_gate-IsAbout :
      (c : CandidateDefinition) (used : Bool) (r : CandidateResult)
      → last_gate readers c used ≡ ok r
      → IsAbout c r
  unfolding last_gate result_of make_result
  last_gate-IsAbout c used r h = (ground arith, ground arith, ground arith)

  seller-IsAbout :
      (c : CandidateDefinition) (seller : PyFields) (used : Bool) (q : Passage)
      (r : CandidateResult)
      → seller_gate readers c seller c.seller_anti_fit_rules used ≡ ok q
      → after_seller readers c q ≡ ok r
      → IsAbout c r
  seller-IsAbout c seller used (stopped x) r h k =
      let same : x ≡ r = ground arith in
      subst (IsAbout c) same (seller_gate-IsAbout c seller c.seller_anti_fit_rules used x h)
  seller-IsAbout c seller used (passed v) r h k = last_gate-IsAbout c v r k

  buyer-IsAbout :
      (c : CandidateDefinition) (buyer seller : PyFields) (p : Passage) (r : CandidateResult)
      → buyer_gate readers c buyer c.buyer_constraints false ≡ ok p
      → after_buyer readers c seller p ≡ ok r
      → IsAbout c r
  buyer-IsAbout c buyer seller (stopped x) r h k =
      let same : x ≡ r = ground arith in
      subst (IsAbout c) same (buyer_gate-IsAbout c buyer c.buyer_constraints false x h)
  buyer-IsAbout c buyer seller (passed u) r h k =
      let (q, one, more) =
        >>=-eq-ok (seller_gate readers c seller c.seller_anti_fit_rules u) (after_seller readers c)
          k in
      seller-IsAbout c seller u q r one more

  result-IsAbout :
      (c : CandidateDefinition) (buyer seller : PyFields) (r : CandidateResult)
      → evaluate_candidate readers c buyer seller ≡ ok r
      → IsAbout c r
  unfolding evaluate_candidate result_of make_result
  result-IsAbout c buyer seller r h = elim (Bool-cases c.available) [
    | inr e ↦ (ground arith, ground arith, ground arith)
    | inl e ↦ elim (Option-cases c.evidence_block) [
      | inr (block, b) ↦ let h' = rw (e, b) at h in (ground arith, ground arith, ground arith)
      | inl b ↦
          let gates : run_gates readers c buyer seller ≡ ok r = rw (e, b) at h in
          let (p, one, more) =
            >>=-eq-ok (buyer_gate readers c buyer c.buyer_constraints false)
              (after_buyer readers c seller) gates in
          buyer-IsAbout c buyer seller p r one more
    ]
  ]

abbrev pub result_le : CandidateResult → CandidateResult → Bool
result_le a b = text_le a.candidate_id b.candidate_id

-- One result for each candidate, about it, in the same order.
abbrev pub AreAbout : Readers → List CandidateDefinition → List CandidateResult → Type 0
AreAbout readers [] [] = Unit
AreAbout readers (c ∷ cs) (r ∷ rs) = IsAbout readers c r × AreAbout readers cs rs
AreAbout readers _ _ = ⊥

module _ (readers : Readers) (buyers sellers : Dict PyFields) where
  each-AreAbout :
      (cs : List CandidateDefinition) (rs : List CandidateResult)
      → evaluate_each readers buyers sellers cs ≡ ok rs
      → AreAbout readers cs rs
  unfolding evaluate_each
  each-AreAbout [] rs h = let same : [] ≡ rs = ground arith in subst (AreAbout readers []) same tt
  each-AreAbout (c ∷ cs) rs h =
      let (r, one, h₁) =
        >>=-eq-ok
          (evaluate_candidate readers c (context_of c.candidate_id buyers)
            (context_of c.candidate_id sellers))
          _ h in
      let (rest, more, h₂) = >>=-eq-ok (evaluate_each readers buyers sellers cs) _ h₁ in
      let same : r ∷ rest ≡ rs = ground arith in
      subst (AreAbout readers (c ∷ cs)) same (
        result-IsAbout readers c (context_of c.candidate_id buyers)
            (context_of c.candidate_id sellers) r one,
        each-AreAbout cs rest more,
      )

  after-All :
      (c : CandidateDefinition) (r : CandidateResult) (cs : List CandidateDefinition)
      (rs : List CandidateResult)
      → IsAbout readers c r
      → AreAbout readers cs rs
      → All (λ x. candidate_le c x ≡ true) cs
      → All (λ x. result_le r x ≡ true) rs
  after-All c r [] [] a about h = tt
  after-All c r [] (x ∷ rs) a about h = absurd about
  after-All c r (d ∷ cs) [] a about h = absurd about
  after-All c r (d ∷ cs) (x ∷ rs) a about h =
      (rw (a.0, about.0.0) h.0, after-All c r cs rs a about.1 h.1)

  same_order :
      (cs : List CandidateDefinition) (rs : List CandidateResult)
      → AreAbout readers cs rs
      → IsSorted candidate_le cs
      → IsSorted result_le rs
  same_order [] [] about h = tt
  same_order [] (r ∷ rs) about h = absurd about
  same_order (c ∷ cs) [] about h = absurd about
  same_order (c ∷ cs) (r ∷ rs) about h =
      (after-All c r cs rs about.0 about.1 h.0, same_order cs rs about.1 h.1)

  -- The evaluation of a set gives one result for each candidate, about that candidate and its pack,
  -- in the order of the candidates sorted by identifier; so the results are in the order of their
  -- identifiers, whatever order the candidates were given in.
  pub evaluate_candidate_set-IsSorted :
      (cs : List CandidateDefinition) (rs : List CandidateResult)
      → evaluate_candidate_set readers buyers sellers cs ≡ ok rs
      → AreAbout readers (sorted candidate_le cs) rs × IsSorted result_le rs
  unfolding evaluate_candidate_set
  evaluate_candidate_set-IsSorted cs rs h =
      let about = each-AreAbout (sorted candidate_le cs) rs h in
      let in_order =
        sorted-IsSorted candidate_le (λ a b e. text_le_total a.candidate_id b.candidate_id e)
          (λ a b c e f. text_le_trans a.candidate_id b.candidate_id c.candidate_id e f) cs in
      (about, same_order (sorted candidate_le cs) rs about in_order)
