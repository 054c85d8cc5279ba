-- ===== src/Decision/Comparison.antt =====
-- `ranking_key` by the fields of two plans: which comes first.
use sira_seil_cockroach_aws.Domain.Money.{Decimal}
use sira_seil_cockroach_aws.Decision.Rounding.{IsRounding, rounded-IsRounding}
use sira_seil_cockroach_aws.Base.Order.{text_le, text_le_antisymm}
use sira_seil_cockroach_aws.Base.Lex.{text_order, nat_order, list_le, list_order, dual, lex_split}
use sira_seil_cockroach_aws.Base.Fractions.{Fraction, denominator, fraction_order, fraction_le}
use sira_seil_cockroach_aws.Domain.Enums.{
  CandidateStatus, eligible, eligible_with_exception, risk_rank,
}
use sira_seil_cockroach_aws.Decision.Plans.{SolutionPlan, exact_preference_score}
use sira_seil_cockroach_aws.Decision.Gates.{is_eligible}
use sira_seil_cockroach_aws.Decision.Ranking.{
  RankKey, Tail, KeyTuple, key_order, ranking_key, rounded, fraction_of, eligibility_order, as_tail,
  as_tuple, ids_order, tail_order, age_order, coverage_order, risk_order, score_order,
}
use sira_seil_cockroach_aws.Base.{
  ℕ, ◌*◌, ◌<◌, String, ◌≡◌, refl, sym, subst, ◌⊎◌, inl, inr, true, false, not, List, [], ◌∷◌, arith,
  leb, not-false, ok_path, >>=-eq-ok, raise_if-eq-ok, domain_validation, ok,
}

-- `a < b` and `a == b` of the values.
abbrev pub IsLess : Fraction → Fraction → Type 0
IsLess a b = a.numerator * denominator b < b.numerator * denominator a

abbrev pub HasSameValue : Fraction → Fraction → Type 0
HasSameValue a b = a.numerator * denominator b ≡ b.numerator * denominator a

module _ (p q : SolutionPlan) where
  -- The stable action ids in the order of lists of texts, then the plan ids.
  abbrev pub AheadByIds : Type 0
  AheadByIds =
      (list_le text_order q.stable_action_ids p.stable_action_ids ≡ false)
      ⊎ (p.stable_action_ids ≡ q.stable_action_ids) × (text_le p.plan_id q.plan_id ≡ true)

  -- The lower age ratio first.
  abbrev pub AheadByAge : Type 0
  AheadByAge =
      let age_p = fraction_of p.maximum_evidence_age_ratio in
      let age_q = fraction_of q.maximum_evidence_age_ratio in
      IsLess age_p age_q ⊎ HasSameValue age_p age_q × AheadByIds

  module _ (u v : Decimal) where
    -- The higher of the two rounded coverages first.
    abbrev pub AheadByCoverage : Type 0
    AheadByCoverage =
        IsLess (fraction_of v) (fraction_of u)
        ⊎ HasSameValue (fraction_of u) (fraction_of v) × AheadByAge

    -- The lower cost first.
    abbrev pub AheadByCost : Type 0
    AheadByCost =
        (p.total_cost.amount < q.total_cost.amount)
        ⊎ (p.total_cost.amount ≡ q.total_cost.amount) × AheadByCoverage

    -- The lower risk first.
    abbrev pub AheadByRisk : Type 0
    AheadByRisk =
        (risk_rank p.stack_risk < risk_rank q.stack_risk)
        ⊎ (risk_rank p.stack_risk ≡ risk_rank q.stack_risk) × AheadByCost

    -- The higher preference score first.
    abbrev pub AheadByScore : Fraction → Fraction → Type 0
    AheadByScore s t = IsLess t s ⊎ HasSameValue s t × AheadByRisk

  -- Eligible without an exception first; s and t are the scores, u and v the rounded coverages.
  abbrev pub Ahead : Type 0
  Ahead =
      (s t : Fraction) × (u v : Decimal) × (exact_preference_score p.preference_results ≡ ok s)
      × (exact_preference_score q.preference_results ≡ ok t)
      × IsRounding p.required_evidence_coverage u
      × IsRounding q.required_evidence_coverage v
      × ((p.status ≡ eligible) × (q.status ≡ eligible_with_exception)
          ⊎ (p.status ≡ q.status) × AheadByScore u v s t)

-- The key of a plan with this score.
abbrev key_of : SolutionPlan → Fraction → RankKey
key_of p s = record {
  order = eligibility_order p.status;
  score = s;
  risk = risk_rank p.stack_risk;
  cost = p.total_cost.amount;
  coverage = fraction_of (rounded p.required_evidence_coverage);
  age = fraction_of p.maximum_evidence_age_ratio;
  actions = p.stable_action_ids;
  plan = p.plan_id;
}

key_inv :
    (p : SolutionPlan) (k : RankKey)
    → ranking_key p ≡ ok k
    → (s : Fraction) × (exact_preference_score p.preference_results ≡ ok s)
      × (is_eligible p.status ≡ true)
      × (key_of p s ≡ k)
unfolding ranking_key
key_inv p k h =
    let (e, r) =
      raise_if-eq-ok (not (is_eligible p.status))
        (domain_validation "only eligible SolutionPlans receive a final rank") _ h in
    let (s, scored, same) = >>=-eq-ok (exact_preference_score p.preference_results) _ r in
    (s, scored, not-false _ e, ok_path _ _ same)

less : (a b : Fraction) → fraction_le b a ≡ false → IsLess a b
less a b h = ground arith

same_value : (a b : Fraction) → fraction_le a b ≡ true → fraction_le b a ≡ true → HasSameValue a b
same_value a b h k = ground arith

nat_less : (a b : ℕ) → leb b a ≡ false → a < b
nat_less a b h = ground arith

nat_same : (a b : ℕ) → leb a b ≡ true → leb b a ≡ true → a ≡ b
nat_same a b h k = ground arith

same_ids :
    (xs ys : List String)
    → list_le text_order xs ys ≡ true
    → list_le text_order ys xs ≡ true
    → xs ≡ ys
same_ids [] [] h k = refl
same_ids [] (y ∷ ys) h k = cc
same_ids (x ∷ xs) [] h k = cc
same_ids (x ∷ xs) (y ∷ ys) h k =
    let e : x ≡ y = text_le_antisymm x y (ground arith) (ground arith) in
    let es : xs ≡ ys = same_ids xs ys (ground arith) (ground arith) in rw (e, es) refl

module _ (p q : SolutionPlan) where
  ids_ahead :
      ids_order.le (p.stable_action_ids, p.plan_id) (q.stable_action_ids, q.plan_id) ≡ true
      → AheadByIds p q
  ids_ahead h =
      elim (lex_split (list_order text_order) text_order (p.stable_action_ids, p.plan_id)
        (q.stable_action_ids, q.plan_id) h) [
          | inl e ↦ inl e
          | inr (a, b, rest) ↦ inr (same_ids p.stable_action_ids q.stable_action_ids a b, rest)
        ]

  module _ (s t : Fraction) where
    abbrev coverage_p : Decimal
    coverage_p = rounded p.required_evidence_coverage

    abbrev coverage_q : Decimal
    coverage_q = rounded q.required_evidence_coverage

    abbrev tail_p : Tail
    tail_p = as_tail (key_of p s)

    abbrev tail_q : Tail
    tail_q = as_tail (key_of q t)

    age_ahead : age_order.le tail_p.1.1 tail_q.1.1 ≡ true → AheadByAge p q
    age_ahead h = elim (lex_split fraction_order ids_order tail_p.1.1 tail_q.1.1 h) [
      | inl e ↦ inl (less tail_p.1.1.0 tail_q.1.1.0 e)
      | inr (a, b, rest) ↦ inr (same_value tail_p.1.1.0 tail_q.1.1.0 a b, ids_ahead rest)
    ]

    coverage_ahead :
        coverage_order.le tail_p.1 tail_q.1 ≡ true → AheadByCoverage p q coverage_p coverage_q
    coverage_ahead h = elim (lex_split (dual fraction_order) age_order tail_p.1 tail_q.1 h) [
      | inl e ↦ inl (less tail_q.1.0 tail_p.1.0 e)
      | inr (a, b, rest) ↦ inr (same_value tail_p.1.0 tail_q.1.0 b a, age_ahead rest)
    ]

    cost_ahead : tail_order.le tail_p tail_q ≡ true → AheadByCost p q coverage_p coverage_q
    cost_ahead h = elim (lex_split nat_order coverage_order tail_p tail_q h) [
      | inl e ↦ inl (nat_less tail_p.0 tail_q.0 e)
      | inr (a, b, rest) ↦ inr (nat_same tail_p.0 tail_q.0 a b, coverage_ahead rest)
    ]

    abbrev tuple_p : KeyTuple
    tuple_p = as_tuple (key_of p s)

    abbrev tuple_q : KeyTuple
    tuple_q = as_tuple (key_of q t)

    risk_ahead :
        risk_order.le tuple_p.1.1 tuple_q.1.1 ≡ true → AheadByRisk p q coverage_p coverage_q
    risk_ahead h = elim (lex_split nat_order tail_order tuple_p.1.1 tuple_q.1.1 h) [
      | inl e ↦ inl (nat_less tuple_p.1.1.0 tuple_q.1.1.0 e)
      | inr (a, b, rest) ↦ inr (nat_same tuple_p.1.1.0 tuple_q.1.1.0 a b, cost_ahead rest)
    ]

    score_ahead :
        score_order.le tuple_p.1 tuple_q.1 ≡ true → AheadByScore p q coverage_p coverage_q s t
    score_ahead h = elim (lex_split (dual fraction_order) risk_order tuple_p.1 tuple_q.1 h) [
      | inl e ↦ inl (less t s e)
      | inr (a, b, rest) ↦ inr (same_value s t b a, risk_ahead rest)
    ]

status_first :
    (a b : CandidateStatus)
    → is_eligible a ≡ true
    → is_eligible b ≡ true
    → leb (eligibility_order b) (eligibility_order a) ≡ false
    → (a ≡ eligible) × (b ≡ eligible_with_exception)
status_first a b h k e = (ground arith, ground arith)

status_same :
    (a b : CandidateStatus)
    → is_eligible a ≡ true
    → is_eligible b ≡ true
    → leb (eligibility_order a) (eligibility_order b) ≡ true
    → leb (eligibility_order b) (eligibility_order a) ≡ true
    → a ≡ b
status_same a b h k e f = ground arith

-- A plan whose key is not after another's is ahead of it.
pub key_ahead :
    (p q : SolutionPlan) (k l : RankKey)
    → ranking_key p ≡ ok k
    → ranking_key q ≡ ok l
    → key_order.le k l ≡ true
    → Ahead p q
key_ahead p q k l h g below =
    let (s, scored, has, same) = key_inv p k h in
    let (t, scored', has', same') = key_inv q l g in
    let below' : key_order.le (key_of p s) (key_of q t) ≡ true =
      subst (λ x. key_order.le (key_of p s) x ≡ true) (sym same')
        (subst (λ x. key_order.le x l ≡ true) (sym same) below) in
    (
      s,
      t,
      rounded p.required_evidence_coverage,
      rounded q.required_evidence_coverage,
      scored,
      scored',
      rounded-IsRounding p.required_evidence_coverage,
      rounded-IsRounding q.required_evidence_coverage,
      elim (lex_split nat_order score_order (as_tuple (key_of p s)) (as_tuple (key_of q t))
          below') [
            | inl e ↦ inl (status_first p.status q.status has has' e)
            | inr (a, b, rest) ↦
                inr (status_same p.status q.status has has' a b, score_ahead p q s t rest)
          ],
    )
