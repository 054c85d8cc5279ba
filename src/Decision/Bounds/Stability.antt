-- ===== src/Decision/Bounds/Stability.antt =====
-- What the stability of a winner means: no values within the intervals of two plans can put the
-- competitor first.
use sira_seil_cockroach_aws.Base.Fractions.{fraction_le, fraction_order}
use sira_seil_cockroach_aws.Base.Lex.{lt, nat_order, dual, lex_mono, le_refl}
use sira_seil_cockroach_aws.Domain.Enums.{risk_rank, stable, unstable}
use sira_seil_cockroach_aws.Decision.Bounds.Frontier.{off_frontier, on_frontier, assessed}
use sira_seil_cockroach_aws.Decision.Ranking.{
  key_order, as_tuple, as_tail, ids_order, age_order, coverage_order, tail_order, risk_order,
  score_order,
}
use sira_seil_cockroach_aws.Decision.Bounds.Envelope.{
  OrderingBounds, BoundedPlan, Outcome, outcome_key, worst_outcome, best_outcome, StabilityResult,
  assess_rank_stability,
}
use sira_seil_cockroach_aws.Base.{
  ◌≡◌, sym, subst, ◌∙◌, true, false, Option, none, some, List, [], ◌∷◌, ◌++◌, arith, leb, some_path,
  not-false, is_empty, All, ok,
}

-- The values lie within the intervals.
pub record Within (b : OrderingBounds) (o : Outcome) : Type 0 where
  pub score_low : fraction_le b.preference.conservative o.score ≡ true
  pub score_high : fraction_le o.score b.preference.optimistic ≡ true
  pub risk_low : leb (risk_rank b.stack_risk.lower) (risk_rank o.risk) ≡ true
  pub risk_high : leb (risk_rank o.risk) (risk_rank b.stack_risk.upper) ≡ true
  pub cost_low : leb b.total_cost.low.amount o.cost ≡ true
  pub cost_high : leb o.cost b.total_cost.high.amount ≡ true
  pub coverage_low : fraction_le b.decision_material_coverage.conservative o.coverage ≡ true
  pub coverage_high : fraction_le o.coverage b.decision_material_coverage.optimistic ≡ true
  pub age_low : fraction_le b.maximum_evidence_age_ratio.lower o.age ≡ true
  pub age_high : fraction_le o.age b.maximum_evidence_age_ratio.upper ≡ true

-- The plan's intervals are there, and allow the values.
abbrev pub Allows : BoundedPlan → Outcome → Type 0
Allows p o = (b : OrderingBounds) × (p.bounds ≡ some b) × Within b o

-- What is no worse in each value stands no later.
outcome_mono :
    (p : BoundedPlan) (a b : Outcome)
    → fraction_le b.score a.score ≡ true
    → leb (risk_rank a.risk) (risk_rank b.risk) ≡ true
    → leb a.cost b.cost ≡ true
    → fraction_le b.coverage a.coverage ≡ true
    → fraction_le a.age b.age ≡ true
    → key_order.le (outcome_key p a) (outcome_key p b) ≡ true
unfolding outcome_key
outcome_mono p a b score risk cost coverage age =
    let k = outcome_key p a in
    let l = outcome_key p b in
    lex_mono nat_order score_order (as_tuple k) (as_tuple l) (le_refl nat_order k.order) (
      lex_mono (dual fraction_order) risk_order (as_tuple k).1 (as_tuple l).1 score (
        lex_mono nat_order tail_order (as_tuple k).1.1 (as_tuple l).1.1 risk (
          lex_mono nat_order coverage_order (as_tail k) (as_tail l) cost (
            lex_mono (dual fraction_order) age_order (as_tail k).1 (as_tail l).1 coverage (
              lex_mono fraction_order ids_order (as_tail k).1.1 (as_tail l).1.1 age
                (le_refl ids_order (k.actions, k.plan)))))))

best_is_best :
    (p : BoundedPlan) (b : OrderingBounds) (o : Outcome)
    → Within b o
    → key_order.le (outcome_key p (best_outcome b)) (outcome_key p o) ≡ true
best_is_best p b o w =
    outcome_mono p (best_outcome b) o w.score_high w.risk_low w.cost_low w.coverage_high w.age_low

worst_is_worst :
    (p : BoundedPlan) (b : OrderingBounds) (o : Outcome)
    → Within b o
    → key_order.le (outcome_key p o) (outcome_key p (worst_outcome b)) ≡ true
worst_is_worst p b o w =
    outcome_mono p o (worst_outcome b) w.score_low w.risk_high w.cost_high w.coverage_low w.age_high

-- When the winner is STABLE against competitors, then for all values within its intervals and
-- within those of any of them, its key is not after the competitor's.
pub stable_order :
    (selected c : BoundedPlan) (before after : List BoundedPlan) (r : StabilityResult)
    (o p : Outcome)
    → assess_rank_stability selected (before ++ c ∷ after) ≡ ok r
    → r.status ≡ stable
    → Allows selected o
    → Allows c p
    → key_order.le (outcome_key selected o) (outcome_key c p) ≡ true
stable_order selected c before after r o p h s (b, found, w) (d, found', v) =
    let (b', ids, found₂, f, status) = assessed selected (before ++ c ∷ after) r h (λ u. cc) in
    let one : b' ≡ b = some_path b' b (sym found₂ ∙ found) in
    let none_ahead : is_empty ids ≡ true = ground arith in
    let behind =
      off_frontier (outcome_key selected (worst_outcome b')) before after c d ids f none_ahead
        found' in
    let worst_first : key_order.le (outcome_key selected (worst_outcome b))
          (outcome_key c (best_outcome d))
        ≡ true =
      subst
        (λ x.
          key_order.le (outcome_key selected (worst_outcome x)) (outcome_key c (best_outcome d))
          ≡ true)
        one (not-false _ behind) in
    key_order.trans (outcome_key selected o) (outcome_key selected (worst_outcome b))
      (outcome_key c p) (worst_is_worst selected b o w)
      (key_order.trans (outcome_key selected (worst_outcome b)) (outcome_key c (best_outcome d))
        (outcome_key c p) worst_first (best_is_best c d p v))

-- The intervals are not empty.
pub record IsOrdered (b : OrderingBounds) : Type 0 where
  pub score : fraction_le b.preference.conservative b.preference.optimistic ≡ true
  pub risk : leb (risk_rank b.stack_risk.lower) (risk_rank b.stack_risk.upper) ≡ true
  pub cost : leb b.total_cost.low.amount b.total_cost.high.amount ≡ true
  pub coverage :
      fraction_le b.decision_material_coverage.conservative b.decision_material_coverage.optimistic
      ≡ true
  pub age : fraction_le b.maximum_evidence_age_ratio.lower b.maximum_evidence_age_ratio.upper ≡ true

abbrev pub AreOrdered : Option OrderingBounds → Type 0
AreOrdered none = Unit
AreOrdered (some b) = IsOrdered b

worst-Within : (b : OrderingBounds) → IsOrdered b → Within b (worst_outcome b)
worst-Within b k = record {
  score_low = le_refl fraction_order b.preference.conservative;
  score_high = k.score;
  risk_low = k.risk;
  risk_high = le_refl nat_order (risk_rank b.stack_risk.upper);
  cost_low = k.cost;
  cost_high = le_refl nat_order b.total_cost.high.amount;
  coverage_low = le_refl fraction_order b.decision_material_coverage.conservative;
  coverage_high = k.coverage;
  age_low = k.age;
  age_high = le_refl fraction_order b.maximum_evidence_age_ratio.upper;
}

best-Within : (b : OrderingBounds) → IsOrdered b → Within b (best_outcome b)
best-Within b k = record {
  score_low = k.score;
  score_high = le_refl fraction_order b.preference.optimistic;
  risk_low = le_refl nat_order (risk_rank b.stack_risk.lower);
  risk_high = k.risk;
  cost_low = le_refl nat_order b.total_cost.low.amount;
  cost_high = k.cost;
  coverage_low = k.coverage;
  coverage_high = le_refl fraction_order b.decision_material_coverage.optimistic;
  age_low = le_refl fraction_order b.maximum_evidence_age_ratio.lower;
  age_high = k.age;
}

IsOrdered-of :
    (p : BoundedPlan) (b : OrderingBounds) → AreOrdered p.bounds → p.bounds ≡ some b → IsOrdered b
IsOrdered-of p b k e = rw e at k

All-at_split {ℓ κ} :
    {A : Type ℓ} (P : A → Type κ) (before : List A) (a : A) (after : List A)
    → All P (before ++ a ∷ after)
    → P a
All-at_split P [] a after h = h.0
All-at_split P (x ∷ before) a after h = All-at_split P before a after h.1

-- When the winner is UNSTABLE, and the intervals of all plans are not empty, then there are values
-- within its intervals and within those of some competitor at which the competitor stands before it.
pub unstable_order :
    (selected : BoundedPlan) (competitors : List BoundedPlan) (r : StabilityResult)
    → All (λ p. AreOrdered p.bounds) (selected ∷ competitors)
    → assess_rank_stability selected competitors ≡ ok r
    → r.status ≡ unstable
    → (before : List BoundedPlan) × (c : BoundedPlan) × (after : List BoundedPlan) × (o : Outcome)
      × (p : Outcome) × (competitors ≡ before ++ c ∷ after)
      × Allows selected o
      × Allows c p
      × (lt key_order (outcome_key c p) (outcome_key selected o) ≡ true)
unstable_order selected competitors r k h s =
    let (b, ids, found, f, status) = assessed selected competitors r h (λ u. cc) in
    let some_ahead : is_empty ids ≡ false = ground arith in
    let (before, c, after, d, shape, found', ahead) =
      on_frontier (outcome_key selected (worst_outcome b)) competitors ids f some_ahead in
    let at_c =
      All-at_split (λ (p : BoundedPlan). AreOrdered p.bounds) before c after
        (subst (All (λ (p : BoundedPlan). AreOrdered p.bounds)) shape k.1) in
    (
      before,
      c,
      after,
      worst_outcome b,
      best_outcome d,
      shape,
      (b, found, worst-Within b (IsOrdered-of selected b k.0 found)),
      (d, found', best-Within d (IsOrdered-of c d at_c found')),
      ahead,
    )
