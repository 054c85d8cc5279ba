-- ===== src/Rules/Stability.antt =====
-- A verdict that was reached stays when the context learns more.
use sira_seil_cockroach_aws.Domain.Enums.{TruthValue, unresolved}
use sira_seil_cockroach_aws.Rules.Value.{PyValue, PyFields, Readers}
use sira_seil_cockroach_aws.Rules.Path.{resolve_field}
use sira_seil_cockroach_aws.Rules.{
  judge, RuleCondition, RuleEvaluation, RuleExpression, Mode, all_of, any_of, is_true, is_false,
  is_exists, is_unresolved, is_present, among, combine, evaluate_condition, evaluate_all, evaluate,
}
use sira_seil_cockroach_aws.Base.{
  ◌≡◌, refl, sym, ap, subst, ◌∙◌, ◌≢◌, ◌⊎◌, inl, inr, Bool, true, false, Option, List, [], ◌∷◌,
  arith, Bool-cases, All, ok_path, >>=-eq-ok, ok,
}

module _ (readers : Readers) (before after : PyFields) where
  -- What a condition found in the first context it finds in the second.
  abbrev pub Keeps : RuleCondition → Type 0
  Keeps c =
      (is_exists c.operator ≡ false)
      × ((v : Option PyValue)
          → resolve_field before c.field ≡ ok v
          → is_present readers v ≡ true
          → resolve_field after c.field ≡ ok v)

  -- The second value is the first, unless the first was unresolved.
  abbrev Refines : RuleEvaluation → RuleEvaluation → Type 0
  Refines r s = (r.value ≡ unresolved) ⊎ (s.value ≡ r.value)

  abbrev AllRefine : List RuleEvaluation → List RuleEvaluation → Type 0
  AllRefine [] [] = Unit
  AllRefine (r ∷ rs) (s ∷ ss) = Refines r s × AllRefine rs ss
  AllRefine _ _ = ⊥

  judged :
      (context : PyFields) (c : RuleCondition) (a : Option PyValue) (r : RuleEvaluation)
      → is_exists c.operator ≡ false
      → resolve_field context c.field ≡ ok a
      → evaluate_condition readers context c ≡ ok r
      → judge readers c a ≡ ok r
  unfolding evaluate_condition
  judged context c a r other found h = let h' = rw (found, other) at h in ground arith

  absent_is_open :
      (c : RuleCondition) (a : Option PyValue) (r : RuleEvaluation)
      → is_present readers a ≡ false
      → judge readers c a ≡ ok r
      → r.value ≡ unresolved
  absent_is_open c a r h e = ground arith

  condition-Refines :
      (c : RuleCondition) (r s : RuleEvaluation)
      → Keeps c
      → evaluate_condition readers before c ≡ ok r
      → evaluate_condition readers after c ≡ ok s
      → Refines r s
  unfolding evaluate_condition
  condition-Refines c r s k h g =
      let (a, found, _) = >>=-eq-ok (resolve_field before c.field) _ h in
      let first = judged before c a r k.0 found h in
      elim (Bool-cases (is_present readers a)) [
        | inl p ↦
            let second = judged after c a s k.0 (k.1 a found p) g in
            inr (ap (λ (y : RuleEvaluation). y.value) (ok_path s r (sym second ∙ first)))
        | inr p ↦ inl (absent_is_open c a r p first)
      ]

  false_stays :
      (rs ss : List RuleEvaluation)
      → AllRefine rs ss
      → among is_false rs ≡ true
      → among is_false ss ≡ true
  false_stays [] ss h e = cc
  false_stays (r ∷ rs) [] h e = absurd h
  false_stays (r ∷ rs) (s ∷ ss) h e = ground (arith, false_stays rs ss h.1)

  true_stays :
      (rs ss : List RuleEvaluation)
      → AllRefine rs ss
      → among is_true rs ≡ true
      → among is_true ss ≡ true
  true_stays [] ss h e = cc
  true_stays (r ∷ rs) [] h e = absurd h
  true_stays (r ∷ rs) (s ∷ ss) h e = ground (arith, true_stays rs ss h.1)

  same_if_resolved :
      (p : TruthValue → Bool) (rs ss : List RuleEvaluation)
      → AllRefine rs ss
      → among is_unresolved rs ≡ false
      → among p ss ≡ among p rs
  same_if_resolved p [] [] h e = refl
  same_if_resolved p [] (s ∷ ss) h e = absurd h
  same_if_resolved p (r ∷ rs) [] h e = absurd h
  same_if_resolved p (r ∷ rs) (s ∷ ss) h e =
      let same : s.value ≡ r.value = ground arith in
      let rest : among p ss ≡ among p rs = same_if_resolved p rs ss h.1 (ground arith) in
      rw (same, rest) refl

  combine_stays :
      (m : Mode) (rs ss : List RuleEvaluation)
      → AllRefine rs ss
      → (combine m rs).value ≢ unresolved
      → (combine m ss).value ≡ (combine m rs).value
  unfolding combine
  combine_stays all_of rs ss h d = ground (
    arith,
    false_stays rs ss h,
    same_if_resolved is_false rs ss h,
    same_if_resolved is_unresolved rs ss h,
  )
  combine_stays any_of rs ss h d = ground (
    arith,
    true_stays rs ss h,
    same_if_resolved is_true rs ss h,
    same_if_resolved is_unresolved rs ss h,
  )

  all_refine :
      (cs : List RuleCondition) (rs ss : List RuleEvaluation)
      → All Keeps cs
      → evaluate_all readers before cs ≡ ok rs
      → evaluate_all readers after cs ≡ ok ss
      → AllRefine rs ss
  unfolding evaluate_all
  all_refine [] rs ss k h g =
      let left : [] ≡ rs = ground arith in
      let right : [] ≡ ss = ground arith in
      subst (AllRefine rs) right (subst (λ x. AllRefine x []) left tt)
  all_refine (c ∷ cs) rs ss k h g =
      let (r, e, h₁) = >>=-eq-ok (evaluate_condition readers before c) _ h in
      let (rs', es, h₂) = >>=-eq-ok (evaluate_all readers before cs) _ h₁ in
      let (s, f, g₁) = >>=-eq-ok (evaluate_condition readers after c) _ g in
      let (ss', fs, g₂) = >>=-eq-ok (evaluate_all readers after cs) _ g₁ in
      let left : r ∷ rs' ≡ rs = ground arith in
      let right : s ∷ ss' ≡ ss = ground arith in
      subst (AllRefine rs) right (
        subst (λ x. AllRefine x (s ∷ ss')) left
          (condition-Refines c r s k.0 e f, all_refine cs rs' ss' k.1 es fs))

  -- When no condition asks for existence, and every value other than None that the first context
  -- has for a condition's path the second has too, then a result of TRUE or FALSE in the first
  -- context is the result in the second, if both evaluations return.
  pub verdict_stays :
      (x : RuleExpression) (r s : RuleEvaluation)
      → All Keeps x.conditions
      → evaluate readers before x ≡ ok r
      → evaluate readers after x ≡ ok s
      → r.value ≢ unresolved
      → s.value ≡ r.value
  unfolding evaluate
  verdict_stays x r s k h g d =
      let (rs, e, h₁) = >>=-eq-ok (evaluate_all readers before x.conditions) _ h in
      let (ss, f, g₁) = >>=-eq-ok (evaluate_all readers after x.conditions) _ g in
      let left : combine x.mode rs ≡ r = ground arith in
      let right : combine x.mode ss ≡ s = ground arith in
      let stays = combine_stays x.mode rs ss (all_refine x.conditions rs ss k e f) in
      let same = stays (λ u. d (sym (ap (λ (y : RuleEvaluation). y.value) left) ∙ u)) in
      sym (ap (λ (y : RuleEvaluation). y.value) right)
      ∙ same
      ∙ ap (λ (y : RuleEvaluation). y.value) left
