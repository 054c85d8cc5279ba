-- ===== src/Decision/Ranked.antt =====
-- What a ranking is: the eligible plans in the order of their keys, whatever order they came in.
use sira_seil_cockroach_aws.Decision.Comparison.{Ahead, key_ahead}
use sira_seil_cockroach_aws.Base.Shuffle.{Pairwise-map}
use sira_seil_cockroach_aws.Base.Sort.{sorted, IsSorted, sorted-IsSorted}
use sira_seil_cockroach_aws.Base.Shuffle.{
  Shuffle, same, keep, swap, follow, Pairwise, IsApart, select-Shuffle, sorted-Shuffle,
  Shuffle-refl, All-Shuffle, Pairwise-select, sorted_is_Shuffle,
}
use sira_seil_cockroach_aws.Base.Order.{text_le_antisymm}
use sira_seil_cockroach_aws.Base.Lex.{
  TotalOrder, text_order, nat_order, list_order, dual, by_key, lex_both,
}
use sira_seil_cockroach_aws.Base.Fractions.{fraction_order}
use sira_seil_cockroach_aws.Decision.Plans.{SolutionPlan}
use sira_seil_cockroach_aws.Decision.Ranking.{
  RankKey, key_order, ranking_key, Keyed, with_keys, keyed_le, plans_of, sort_plans, rank_eligible,
  rank_solution_plans, as_tail, as_tuple, ids_order, tail_order, age_order, coverage_order,
  risk_order, score_order,
}
use sira_seil_cockroach_aws.Decision.Winner.{plan_eligible}
use sira_seil_cockroach_aws.Base.{
  ◌≡◌, refl, sym, ap, subst, ◌∙◌, ◌≢◌, inl, inr, true, ◌&&◌, List, [], ◌∷◌, arith, Bool-cases,
  select, All, >>=-eq-ok, ok,
}

abbrev keyed_order : TotalOrder Keyed
keyed_order = by_key key_order (λ (k : Keyed). k.0)

-- The plan was ranked by this key.
abbrev HasKey : Keyed → Type 0
HasKey k = ranking_key k.1 ≡ ok k.0

with_keys-HasKey :
    (ps : List SolutionPlan) (ks : List Keyed)
    → with_keys ps ≡ ok ks
    → All HasKey ks × (plans_of ks ≡ ps)
unfolding with_keys
with_keys-HasKey [] ks h =
    let e : [] ≡ ks = ground arith in subst (λ x. All HasKey x × (plans_of x ≡ [])) e (tt, refl)
with_keys-HasKey (p ∷ ps) ks h =
    let (k, one, h₁) = >>=-eq-ok (ranking_key p) _ h in
    let (rest, more, h₂) = >>=-eq-ok (with_keys ps) _ h₁ in
    let e : (k, p) ∷ rest ≡ ks = ground arith in
    let (keyed, plans) = with_keys-HasKey ps rest more in
    subst (λ x. All HasKey x × (plans_of x ≡ p ∷ ps)) e ((one, keyed), ap (λ x. p ∷ x) plans)

-- The first plan's key is not after the second's.
abbrev KeyAhead : SolutionPlan → SolutionPlan → Type 0
KeyAhead p q =
    (k : RankKey) × (l : RankKey) × (ranking_key p ≡ ok k)
    × (ranking_key q ≡ ok l)
    × (key_order.le k l ≡ true)

KeyAhead-All :
    (k : Keyed) (ks : List Keyed)
    → HasKey k
    → All HasKey ks
    → All (λ l. keyed_le k l ≡ true) ks
    → All (KeyAhead k.1) (plans_of ks)
KeyAhead-All k [] h hs below = tt
KeyAhead-All k (l ∷ ks) h hs below =
    ((k.0, l.0, h, hs.0, below.0), KeyAhead-All k ks h hs.1 below.1)

plans-Pairwise :
    (ks : List Keyed) → All HasKey ks → IsSorted keyed_le ks → Pairwise KeyAhead (plans_of ks)
plans-Pairwise [] hs up = tt
plans-Pairwise (k ∷ ks) hs up = (KeyAhead-All k ks hs.0 hs.1 up.0, plans-Pairwise ks hs.1 up.1)

plans-Shuffle : {ks ls : List Keyed} → Shuffle ks ls → Shuffle (plans_of ks) (plans_of ls)
plans-Shuffle same = same
plans-Shuffle (keep k s) = keep k.1 (plans-Shuffle s)
plans-Shuffle (swap k l ks) = swap k.1 l.1 (plans_of ks)
plans-Shuffle (follow s t) = follow (plans-Shuffle s) (plans-Shuffle t)

-- A ranking of plans goes through their keyed list.
ranked_by_keys :
    (ps rs : List SolutionPlan)
    → rank_eligible ps ≡ ok rs
    → (ks : List Keyed) × (with_keys ps ≡ ok ks) × (plans_of (sorted keyed_le ks) ≡ rs)
unfolding rank_eligible sort_plans with_keys
ranked_by_keys [] rs h = ([], refl, ground arith)
ranked_by_keys (p ∷ ps) rs h =
    let plans : sort_plans (p ∷ ps) ≡ ok rs = ground arith in
    let (ks, e, f) =
      >>=-eq-ok (with_keys (p ∷ ps)) (λ ks. ok (plans_of (sorted keyed_le ks))) plans in
    (ks, e, ground arith)

ordered_by_keys :
    (ps rs : List SolutionPlan)
    → rank_solution_plans ps ≡ ok rs
    → Shuffle (select plan_eligible ps) rs × Pairwise KeyAhead rs
unfolding rank_solution_plans
ordered_by_keys ps rs h =
    let (ks, keyed, e) = ranked_by_keys (select plan_eligible ps) rs h in
    let (has, plans) = with_keys-HasKey (select plan_eligible ps) ks keyed in
    let up = sorted-IsSorted keyed_le keyed_order.total keyed_order.trans ks in
    let moved = sorted_is_Shuffle keyed_le ks in
    subst (λ x. Shuffle (select plan_eligible ps) x × Pairwise KeyAhead x) e
      (
        subst (λ x. Shuffle x (plans_of (sorted keyed_le ks))) plans (plans-Shuffle moved),
        plans-Pairwise (sorted keyed_le ks) (All-Shuffle HasKey moved has) up,
      )

-- A ranking that is returned holds the eligible plans, each as often as it was given. Of any two in
-- it, the one that stands before the other is eligible without an exception where the other is not;
-- else it has the higher preference score; of one score, the lower risk; of one risk, the lower
-- cost; of one cost, the higher evidence coverage, each rounded to the nearest of 28 digits; of one
-- coverage, the lower age ratio; of one ratio, the lower action identifiers, and of the same ones
-- the plan identifier that is not higher. A coverage above one may be rounded to more digits.
pub rank_solution_plans_lem :
    (ps rs : List SolutionPlan)
    → rank_solution_plans ps ≡ ok rs
    → Shuffle (select plan_eligible ps) rs × Pairwise Ahead rs
rank_solution_plans_lem ps rs h =
    let (shuffled, ordered) = ordered_by_keys ps rs h in
    (
      shuffled,
      Pairwise-map KeyAhead Ahead (λ p q (k, l, one, two, below). key_ahead p q k l one two below)
          rs ordered,
    )

with_keys-cons :
    (p : SolutionPlan) (ps : List SolutionPlan) (k : RankKey) (ks : List Keyed)
    → ranking_key p ≡ ok k
    → with_keys ps ≡ ok ks
    → with_keys (p ∷ ps) ≡ ok ((k, p) ∷ ks)
unfolding with_keys
with_keys-cons p ps k ks h g = rw (h, g) refl

keys-Shuffle :
    {ps qs : List SolutionPlan} (ks : List Keyed)
    → Shuffle ps qs
    → with_keys ps ≡ ok ks
    → (ls : List Keyed) × (with_keys qs ≡ ok ls) × Shuffle ks ls
unfolding with_keys
keys-Shuffle ks same h = (ks, h, Shuffle-refl ks)
keys-Shuffle ks (keep p {xs = ps} {ys = qs} s) h =
    let (k, one, h₁) = >>=-eq-ok (ranking_key p) _ h in
    let (rest, more, h₂) = >>=-eq-ok (with_keys ps) _ h₁ in
    let (ls, e, t) = keys-Shuffle rest s more in
    let shape : (k, p) ∷ rest ≡ ks = ground arith in
    (
      (k, p) ∷ ls,
      with_keys-cons p qs k ls one e,
      subst (λ x. Shuffle x ((k, p) ∷ ls)) shape (keep (k, p) t),
    )
keys-Shuffle ks (swap p q ps) h =
    let (k, one, h₁) = >>=-eq-ok (ranking_key p) _ h in
    let (r, two, h₂) = >>=-eq-ok (with_keys (q ∷ ps)) _ h₁ in
    let (l, one', h₃) = >>=-eq-ok (ranking_key q) _ two in
    let (rest, more, h₄) = >>=-eq-ok (with_keys ps) _ h₃ in
    let shape : (k, p) ∷ (l, q) ∷ rest ≡ ks = ground arith in
    (
      (l, q) ∷ (k, p) ∷ rest,
      with_keys-cons q (p ∷ ps) l ((k, p) ∷ rest) one' (with_keys-cons p ps k rest one more),
      subst (λ x. Shuffle x ((l, q) ∷ (k, p) ∷ rest)) shape (swap (k, p) (l, q) rest),
    )
keys-Shuffle ks (follow s t) h =
    let (ls, e, u) = keys-Shuffle ks s h in
    let (ms, f, v) = keys-Shuffle ls t e in (ms, f, follow u v)

abbrev pub Differs : SolutionPlan → SolutionPlan → Type 0
Differs p q = p.plan_id ≢ q.plan_id

key_plan : (p : SolutionPlan) (k : RankKey) → ranking_key p ≡ ok k → k.plan ≡ p.plan_id
unfolding ranking_key
key_plan p k h = ground arith

-- Keys that are not after each other name the same plan.
same_plan : (k l : RankKey) → key_order.le k l ≡ true → key_order.le l k ≡ true → k.plan ≡ l.plan
same_plan k l h g =
    let (h₁, g₁) = lex_both nat_order score_order (as_tuple k) (as_tuple l) h g in
    let (h₂, g₂) = lex_both (dual fraction_order) risk_order (as_tuple k).1 (as_tuple l).1 h₁ g₁ in
    let (h₃, g₃) = lex_both nat_order tail_order (as_tuple k).1.1 (as_tuple l).1.1 h₂ g₂ in
    let (h₄, g₄) = lex_both nat_order coverage_order (as_tail k) (as_tail l) h₃ g₃ in
    let (h₅, g₅) = lex_both (dual fraction_order) age_order (as_tail k).1 (as_tail l).1 h₄ g₄ in
    let (h₆, g₆) = lex_both fraction_order ids_order (as_tail k).1.1 (as_tail l).1.1 h₅ g₅ in
    let (h₇, g₇) =
      lex_both (list_order text_order) text_order (k.actions, k.plan) (l.actions, l.plan) h₆ g₆ in
    text_le_antisymm k.plan l.plan h₇ g₇

apart : (k l : Keyed) → HasKey k → HasKey l → Differs k.1 l.1 → IsApart keyed_order k l
apart k l h g d = elim (Bool-cases (keyed_le k l && keyed_le l k)) [
  | inr e ↦ e
  | inl e ↦
      let same_id = same_plan k.0 l.0 (ground arith) (ground arith) in
      absurd (d (sym (key_plan k.1 k.0 h) ∙ same_id ∙ key_plan l.1 l.0 g))
]

IsApart-All :
    (k : Keyed) (ks : List Keyed)
    → HasKey k
    → All HasKey ks
    → All (Differs k.1) (plans_of ks)
    → All (IsApart keyed_order k) ks
IsApart-All k [] h hs d = tt
IsApart-All k (l ∷ ks) h hs d = (apart k l h hs.0 d.0, IsApart-All k ks h hs.1 d.1)

keys-IsApart :
    (ks : List Keyed)
    → All HasKey ks
    → Pairwise Differs (plans_of ks)
    → Pairwise (IsApart keyed_order) ks
keys-IsApart [] hs d = tt
keys-IsApart (k ∷ ks) hs d = (IsApart-All k ks hs.0 hs.1 d.0, keys-IsApart ks hs.1 d.1)

-- The ranking of plans with different identifiers does not depend on the order that they are given
-- in: two rankings that return, of the same plans in any two orders, are the same list.
pub rankings_agree :
    {ps qs : List SolutionPlan} (rs ss : List SolutionPlan)
    → Shuffle ps qs
    → Pairwise Differs ps
    → rank_solution_plans ps ≡ ok rs
    → rank_solution_plans qs ≡ ok ss
    → rs ≡ ss
unfolding rank_solution_plans
rankings_agree {ps} {qs} rs ss s d h g =
    let (ks, keyed, e) = ranked_by_keys (select plan_eligible ps) rs h in
    let (ls, keyed', f) = ranked_by_keys (select plan_eligible qs) ss g in
    let (has, plans) = with_keys-HasKey (select plan_eligible ps) ks keyed in
    let differ = Pairwise-select Differs plan_eligible ps d in
    let apart_keys = keys-IsApart ks has (subst (Pairwise Differs) (sym plans) differ) in
    let (ms, keyed₂, moved) = keys-Shuffle ks (select-Shuffle plan_eligible s) keyed in
    let same_keys : ms ≡ ls = ground arith in
    let sorted_same = sorted-Shuffle keyed_order moved apart_keys in
    sym e ∙ ap plans_of (sorted_same ∙ ap (sorted keyed_le) same_keys) ∙ f
