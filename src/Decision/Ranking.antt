-- ===== src/Decision/Ranking.antt =====
-- python/decision_engine/ranking.py: the lexicographic ranking of solution plans.
use sira_seil_cockroach_aws.Base.Sort.{sorted}
use sira_seil_cockroach_aws.Base.Fractions.{Fraction, fraction_order}
use sira_seil_cockroach_aws.Base.Lex.{
  TotalOrder, nat_order, text_order, list_order, lex, dual, by_key,
}
use sira_seil_cockroach_aws.Domain.Enums.{CandidateStatus, eligible, risk_rank}
use sira_seil_cockroach_aws.Domain.Money.{Decimal, digits_28}
use sira_seil_cockroach_aws.Decision.Plans.{SolutionPlan, exact_preference_score}
use sira_seil_cockroach_aws.Decision.Gates.{is_eligible}
use sira_seil_cockroach_aws.Base.{
  ℕ, zero, suc, ◌+◌, ◌-◌, ◌*◌, ◌/◌, ◌%◌, ◌^◌, String, Bool, false, not, Option, none, some, List,
  [], ◌∷◌, map, ltb, nat_eq, if◌then◌else◌, length, select, all, set_of, Result, ◌>>=◌, raise_if,
  ◌>>◌, domain_validation, ok,
}

-- `_ELIGIBILITY_ORDER[status]`
abbrev pub eligibility_order : CandidateStatus → ℕ
eligibility_order eligible = 0
eligibility_order _ = 1

-- The exact value of a decimal that is not below zero.
abbrev pub fraction_of : Decimal → Fraction
fraction_of d = record { numerator = d.coefficient; rest = 10 ^ d.places - 1 }

-- How many digits the coefficient has over the 28 of the decimal context; with as many turns as
-- there are places, which is enough for a number that is at most one.
unfoldable pub excess : ℕ → ℕ → ℕ
excess zero c = 0
excess (suc turns) c = let rest = excess turns (c / 10) in if ltb c digits_28 then 0 else suc rest

-- A quotient to the nearest, and to the even one from half way.
abbrev pub half_even : ℕ → ℕ → ℕ
half_even c d =
    let q = c / d in
    let twice = 2 * (c % d) in if ltb twice d then q else if ltb d twice then suc q else q + q % 2

-- What unary minus of a Decimal makes of the number, but for the sign: it is rounded to 28 digits.
unfoldable pub rounded : Decimal → Decimal
unfolding excess
rounded d =
    let over = excess d.places d.coefficient in
    record d {
      coefficient = half_even d.coefficient (10 ^ over) * 10 ^ (over - d.places);
      places = d.places - over;
    }

-- The tuple of `ranking_key`; the score and the coverage stand here before their sign is changed.
pub record RankKey : Type 0 where
  pub order : ℕ
  pub score : Fraction
  pub risk : ℕ
  pub cost : ℕ
  pub coverage : Fraction
  pub age : Fraction
  pub actions : List String
  pub plan : String

unfoldable pub ranking_key : SolutionPlan → Result RankKey
unfolding exact_preference_score rounded
ranking_key p = do
  raise_if (not (is_eligible p.status))
      (domain_validation "only eligible SolutionPlans receive a final rank")
  score ← exact_preference_score p.preference_results
  ok (record {
    order = eligibility_order p.status;
    score = score;
    risk = risk_rank p.stack_risk;
    cost = p.total_cost.amount;
    coverage = fraction_of (rounded p.required_evidence_coverage);
    age = fraction_of p.maximum_evidence_age_ratio;
    actions = p.stable_action_ids;
    plan = p.plan_id;
  })

-- The types of the tuple's ends, from the last items on.
abbrev pub Ids : Type 0
Ids = List String × String

abbrev pub Tail : Type 0
Tail = ℕ × (Fraction × (Fraction × Ids))

abbrev pub KeyTuple : Type 0
KeyTuple = ℕ × (Fraction × (ℕ × Tail))

abbrev pub as_tail : RankKey → Tail
as_tail k = (k.cost, (k.coverage, (k.age, (k.actions, k.plan))))

abbrev pub as_tuple : RankKey → KeyTuple
as_tuple k = (k.order, (k.score, (k.risk, as_tail k)))

-- Python's comparison of the tuple's ends; where the sign is changed the order is turned round.
abbrev pub ids_order : TotalOrder Ids
ids_order = lex (list_order text_order) text_order

abbrev pub age_order : TotalOrder (Fraction × Ids)
age_order = lex fraction_order ids_order

abbrev pub coverage_order : TotalOrder (Fraction × (Fraction × Ids))
coverage_order = lex (dual fraction_order) age_order

abbrev pub tail_order : TotalOrder Tail
tail_order = lex nat_order coverage_order

abbrev pub risk_order : TotalOrder (ℕ × Tail)
risk_order = lex nat_order tail_order

abbrev pub score_order : TotalOrder (Fraction × (ℕ × Tail))
score_order = lex (dual fraction_order) risk_order

abbrev pub key_order : TotalOrder RankKey
key_order = by_key (lex nat_order score_order) as_tuple

abbrev pub Keyed : Type 0
Keyed = RankKey × SolutionPlan

unfoldable pub with_keys : List SolutionPlan → Result (List Keyed)
unfolding ranking_key
with_keys [] = ok []
with_keys (p ∷ ps) = ranking_key p >>= λ k. with_keys ps >>= λ ks. ok ((k, p) ∷ ks)

abbrev pub keyed_le : Keyed → Keyed → Bool
keyed_le a b = key_order.le a.0 b.0

abbrev pub plans_of : List Keyed → List SolutionPlan
plans_of [] = []
plans_of (k ∷ ks) = k.1 ∷ plans_of ks

-- `{item for item in items}`, of numbers
abbrev pub all_same : List ℕ → Bool
all_same [] = false
all_same (n ∷ ns) = all (nat_eq n) ns

abbrev pub one_currency : List SolutionPlan → Bool
one_currency ps = nat_eq (length (set_of (map (λ (p : SolutionPlan). p.total_cost.currency) ps))) 1

abbrev pub one_horizon : List SolutionPlan → Bool
one_horizon ps = all_same (map (λ (p : SolutionPlan). p.horizon_days) ps)

-- `tuple(sorted(eligible, key=ranking_key))`
unfoldable pub sort_plans : List SolutionPlan → Result (List SolutionPlan)
unfolding with_keys
sort_plans ps = with_keys ps >>= λ ks. ok (plans_of (sorted keyed_le ks))

-- `rank_solution_plans`, on the eligible plans
unfoldable pub rank_eligible : List SolutionPlan → Result (List SolutionPlan)
unfolding sort_plans
rank_eligible [] = ok []
rank_eligible (p ∷ ps) = do
  raise_if (not (one_currency (p ∷ ps)))
      (domain_validation "plans require one quote currency or an approved FX snapshot")
  raise_if (not (one_horizon (p ∷ ps)))
      (domain_validation "plans require one declared comparison horizon")
  sort_plans (p ∷ ps)

unfoldable pub rank_solution_plans : List SolutionPlan → Result (List SolutionPlan)
unfolding rank_eligible
rank_solution_plans ps = rank_eligible (select (λ (p : SolutionPlan). is_eligible p.status) ps)

abbrev pub first : List SolutionPlan → Option SolutionPlan
first [] = none
first (p ∷ ps) = some p

unfoldable pub select_winner : List SolutionPlan → Result (Option SolutionPlan)
unfolding rank_solution_plans
select_winner ps = rank_solution_plans ps >>= λ ranked. ok (first ranked)
