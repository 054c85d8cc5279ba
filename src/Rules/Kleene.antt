-- ===== src/Rules/Kleene.antt =====
-- The verdict of an expression in Kleene's three-valued logic.
use sira_seil_cockroach_aws.Domain.Enums.{TruthValue, true_value, false_value, unresolved}
use sira_seil_cockroach_aws.Rules.Value.{PyFields, Readers}
use sira_seil_cockroach_aws.Rules.{
  among, RuleCondition, RuleEvaluation, RuleExpression, Mode, all_of, any_of, is_true, is_false,
  is_unresolved, combine, evaluate_condition, evaluate_all, evaluate,
}
use sira_seil_cockroach_aws.Base.{
  ◌≡◌, refl, sym, ap, subst, ◌∙◌, Bool, true, ◌||◌, List, [], ◌∷◌, arith, if◌then◌else◌, All, ◌>>=◌,
  >>=-eq-ok, ok,
}

-- Conjunction and disjunction of three values.
abbrev pub kleene_and : TruthValue → TruthValue → TruthValue
kleene_and false_value b = false_value
kleene_and true_value b = b
kleene_and _ false_value = false_value
kleene_and _ _ = unresolved

abbrev pub kleene_or : TruthValue → TruthValue → TruthValue
kleene_or true_value b = true_value
kleene_or false_value b = b
kleene_or _ true_value = true_value
kleene_or _ _ = unresolved

abbrev pub meaning : Mode → List RuleEvaluation → TruthValue
meaning all_of [] = true_value
meaning all_of (r ∷ rs) = kleene_and r.value (meaning all_of rs)
meaning any_of [] = false_value
meaning any_of (r ∷ rs) = kleene_or r.value (meaning any_of rs)

-- One of the three values that a condition can have.
abbrev pub IsThreeValued : RuleEvaluation → Type 0
IsThreeValued r = (is_true r.value || is_false r.value || is_unresolved r.value) ≡ true

condition-IsThreeValued :
    (readers : Readers) (context : PyFields) (c : RuleCondition) (r : RuleEvaluation)
    → evaluate_condition readers context c ≡ ok r
    → IsThreeValued r
unfolding evaluate_condition
condition-IsThreeValued readers context c r h = ground arith

results-IsThreeValued :
    (readers : Readers) (context : PyFields) (cs : List RuleCondition) (rs : List RuleEvaluation)
    → evaluate_all readers context cs ≡ ok rs
    → All IsThreeValued rs
unfolding evaluate_all
results-IsThreeValued readers context [] rs h =
    let same : [] ≡ rs = ground arith in subst (All IsThreeValued) same tt
results-IsThreeValued readers context (c ∷ cs) rs h =
    let (r, one, h₁) =
      >>=-eq-ok (evaluate_condition readers context c)
        (λ r. evaluate_all readers context cs >>= λ rs. ok (r ∷ rs)) h in
    let (rest, more, h₂) = >>=-eq-ok (evaluate_all readers context cs) (λ rs. ok (r ∷ rs)) h₁ in
    let same : r ∷ rest ≡ rs = ground arith in
    subst (All IsThreeValued) same (
      condition-IsThreeValued readers context c r one,
      results-IsThreeValued readers context cs rest more,
    )

abbrev and_value : Bool → Bool → TruthValue
and_value f u = if f then false_value else if u then unresolved else true_value

abbrev or_value : Bool → Bool → TruthValue
or_value t u = if t then true_value else if u then unresolved else false_value

kleene_and_value :
    (v : TruthValue) (f u : Bool)
    → (is_true v || is_false v || is_unresolved v) ≡ true
    → kleene_and v (and_value f u) ≡ and_value (is_false v || f) (is_unresolved v || u)
kleene_and_value v f u h = ground arith

kleene_or_value :
    (v : TruthValue) (t u : Bool)
    → (is_true v || is_false v || is_unresolved v) ≡ true
    → kleene_or v (or_value t u) ≡ or_value (is_true v || t) (is_unresolved v || u)
kleene_or_value v t u h = ground arith

meaning-All :
    (rs : List RuleEvaluation)
    → All IsThreeValued rs
    → meaning all_of rs ≡ and_value (among is_false rs) (among is_unresolved rs)
meaning-All [] h = refl
meaning-All (r ∷ rs) h =
    let rest = meaning-All rs h.1 in
    let step = kleene_and_value r.value (among is_false rs) (among is_unresolved rs) h.0 in
    rw rest step

meaning-Any :
    (rs : List RuleEvaluation)
    → All IsThreeValued rs
    → meaning any_of rs ≡ or_value (among is_true rs) (among is_unresolved rs)
meaning-Any [] h = refl
meaning-Any (r ∷ rs) h =
    let rest = meaning-Any rs h.1 in
    let step = kleene_or_value r.value (among is_true rs) (among is_unresolved rs) h.0 in
    rw rest step

combine_value :
    (m : Mode) (rs : List RuleEvaluation)
    → All IsThreeValued rs
    → (combine m rs).value ≡ meaning m rs
unfolding combine
combine_value all_of rs h = rw (meaning-All rs h) (ground arith)
combine_value any_of rs h = rw (meaning-Any rs h) (ground arith)

-- The verdict of an expression is the conjunction of its conditions' values in mode "all", and
-- their disjunction in mode "any", in Kleene's logic with UNRESOLVED for the unknown.
pub evaluate-eq-meaning :
    (readers : Readers) (context : PyFields) (x : RuleExpression) (r : RuleEvaluation)
    → evaluate readers context x ≡ ok r
    → (rs : List RuleEvaluation) × (evaluate_all readers context x.conditions ≡ ok rs)
      × (r.value ≡ meaning x.mode rs)
unfolding evaluate
evaluate-eq-meaning readers context x r h =
    let (rs, e, same) =
      >>=-eq-ok (evaluate_all readers context x.conditions) (λ rs. ok (combine x.mode rs)) h in
    let three = results-IsThreeValued readers context x.conditions rs e in
    let final : combine x.mode rs ≡ r = ground arith in
    (rs, e, sym (ap (λ (y : RuleEvaluation). y.value) final) ∙ combine_value x.mode rs three)
