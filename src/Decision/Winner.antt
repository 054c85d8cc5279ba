-- ===== src/Decision/Winner.antt =====
-- Who wins a ranking.
use sira_seil_cockroach_aws.Base.Sort.{sorted, place, All-sorted}
use sira_seil_cockroach_aws.Decision.Gates.{is_eligible}
use sira_seil_cockroach_aws.Decision.Plans.{SolutionPlan}
use sira_seil_cockroach_aws.Decision.Ranking.{
  ranking_key, Keyed, with_keys, keyed_le, plans_of, sort_plans, rank_eligible, rank_solution_plans,
  first, select_winner,
}
use sira_seil_cockroach_aws.Base.{
  ◌≡◌, refl, sym, subst, ◌∙◌, ◌⊎◌, inl, inr, Bool, true, false, not, Option, none, some, List, [],
  ◌∷◌, arith, select, any, is_empty, All, >>=-eq-ok, ok,
}

abbrev pub plan_eligible : SolutionPlan → Bool
plan_eligible p = is_eligible p.status

abbrev pub IsEligiblePlan : SolutionPlan → Type 0
IsEligiblePlan p = plan_eligible p ≡ true

place_is_not_empty {ℓ} :
    {A : Type ℓ} (le : A → A → Bool) (a : A) (xs : List A) → is_empty (place le a xs) ≡ false
place_is_not_empty le a [] = refl
place_is_not_empty le a (x ∷ xs) = ground arith

keyed_eligible :
    (ps : List SolutionPlan) (ks : List Keyed)
    → with_keys ps ≡ ok ks
    → All (λ k. IsEligiblePlan k.1) ks × (is_empty ks ≡ is_empty ps)
unfolding with_keys ranking_key
keyed_eligible [] ks h =
    let same : [] ≡ ks = ground arith in
    subst (λ x. All (λ k. IsEligiblePlan k.1) x × (is_empty x ≡ true)) same (tt, refl)
keyed_eligible (p ∷ ps) ks h =
    let (k, one, h₁) = >>=-eq-ok (ranking_key p) _ h in
    let (rest, more, h₂) = >>=-eq-ok (with_keys ps) _ h₁ in
    let same : (k, p) ∷ rest ≡ ks = ground arith in
    let good : plan_eligible p ≡ true = ground arith in
    subst (λ x. All (λ k. IsEligiblePlan k.1) x × (is_empty x ≡ false)) same
      ((good, (keyed_eligible ps rest more).0), refl)

plans_eligible :
    (ks : List Keyed) → All (λ k. IsEligiblePlan k.1) ks → All IsEligiblePlan (plans_of ks)
plans_eligible [] h = tt
plans_eligible (k ∷ ks) h = (h.0, plans_eligible ks h.1)

sorted_not_empty : (ks : List Keyed) → is_empty (plans_of (sorted keyed_le ks)) ≡ is_empty ks
sorted_not_empty [] = refl
sorted_not_empty (k ∷ ks) =
    plans_empty (place keyed_le k (sorted keyed_le ks))
    ∙ place_is_not_empty keyed_le k (sorted keyed_le ks)
  where
    plans_empty : (js : List Keyed) → is_empty (plans_of js) ≡ is_empty js
    plans_empty [] = refl
    plans_empty (j ∷ js) = refl

sort_plans_result :
    (ps rs : List SolutionPlan)
    → sort_plans ps ≡ ok rs
    → All IsEligiblePlan rs × (is_empty rs ≡ is_empty ps)
unfolding sort_plans
sort_plans_result ps rs h =
    let (ks, keyed, h₃) = >>=-eq-ok (with_keys ps) (λ ks. ok (plans_of (sorted keyed_le ks))) h in
    let (good, full) = keyed_eligible ps ks keyed in
    let same : plans_of (sorted keyed_le ks) ≡ rs = ground arith in
    subst (λ x. All IsEligiblePlan x × (is_empty x ≡ is_empty ps)) same
      (
        plans_eligible (sorted keyed_le ks) (All-sorted keyed_le (λ k. IsEligiblePlan k.1) ks good),
        sorted_not_empty ks ∙ full,
      )

rank_eligible_result :
    (ps rs : List SolutionPlan)
    → rank_eligible ps ≡ ok rs
    → All IsEligiblePlan rs × (is_empty rs ≡ is_empty ps)
unfolding rank_eligible
rank_eligible_result [] rs h =
    let same : [] ≡ rs = ground arith in
    subst (λ x. All IsEligiblePlan x × (is_empty x ≡ true)) same (tt, refl)
rank_eligible_result (p ∷ ps) rs h =
    let plans : sort_plans (p ∷ ps) ≡ ok rs = ground arith in sort_plans_result (p ∷ ps) rs plans

select_none :
    (ps : List SolutionPlan) → is_empty (select plan_eligible ps) ≡ not (any plan_eligible ps)
select_none [] = refl
select_none (p ∷ ps) = ground (arith, select_none ps)

winner_of :
    (rs : List SolutionPlan) (none_left : Bool)
    → All IsEligiblePlan rs
    → is_empty rs ≡ none_left
    → ((first rs ≡ none) × (none_left ≡ true))
      ⊎ ((p : SolutionPlan) × (first rs ≡ some p) × IsEligiblePlan p)
winner_of [] n a e = inl (refl, ground arith)
winner_of (r ∷ rs) n a e = inr (r, refl, a.0)

-- When the selection returns, there is no winner and no plan was eligible, or the winner is an
-- eligible plan.
pub select_winner_lem :
    (ps : List SolutionPlan) (w : Option SolutionPlan)
    → select_winner ps ≡ ok w
    → ((w ≡ none) × (any plan_eligible ps ≡ false))
      ⊎ ((p : SolutionPlan) × (w ≡ some p) × IsEligiblePlan p)
unfolding select_winner rank_solution_plans
select_winner_lem ps w h =
    let (rs, ranked, h₁) = >>=-eq-ok (rank_eligible (select plan_eligible ps)) _ h in
    let (good, full) = rank_eligible_result (select plan_eligible ps) rs ranked in
    let same : first rs ≡ w = ground arith in
    elim (winner_of rs (is_empty (select plan_eligible ps)) good full) [
      | inl (e, n) ↦ inl (sym same ∙ e, ground (arith, select_none ps))
      | inr (p, e, q) ↦ inr (p, sym same ∙ e, q)
    ]
