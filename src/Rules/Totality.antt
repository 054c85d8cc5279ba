-- ===== src/Rules/Totality.antt =====
-- A condition that was constructed always evaluates: no exception leaves `evaluate`.
use sira_seil_cockroach_aws.Domain.Enums.{true_value, false_value, unresolved}
use sira_seil_cockroach_aws.Rules.{
  python_equal, RuleOperator, eq, neq, in_list, not_in, contains, contains_all, gte, lte, gt, lt,
  exists, date_before, date_on_or_before, date_after, date_on_or_after, is_bool, on_items,
  on_decimals, on_dates, compare_values, is_caught, settle,
}
use sira_seil_cockroach_aws.Rules.Value.{
  python_equal, null, bool, Number, PyItems, as_decimal, as_date, python_contains, key_contains,
}
use sira_seil_cockroach_aws.Base.Order.{codes}
use sira_seil_cockroach_aws.Rules.{
  is_exists, verdict, exists_matches, is_present, judge, RuleCondition, RuleEvaluation,
  RuleExpression, check_condition, evaluate_condition, evaluate_all, combine, evaluate,
}
use sira_seil_cockroach_aws.Rules.Value.{PyValue, mapping, PyFields, Readers}
use sira_seil_cockroach_aws.Rules.Path.{
  is_segment, split_dots, is_path, is_private_segment, descend, walk, resolve_field,
}
use sira_seil_cockroach_aws.Base.{
  ℕ, String, ◌≡◌, refl, sym, subst, ◌∙◌, ◌≢◌, ◌↔◌, ◌⊎◌, inl, inr, Bool, true, false, not, Option,
  none, some, List, [], ◌∷◌, arith, Bool-cases, Option-cases, some_path, all, All, Error, Result,
  Result-cases, err_path, >>=-eq-ok, ok, err,
}

segment_not_private : (s : List ℕ) → is_segment s ≡ true → is_private_segment s ≡ false
segment_not_private [] h = cc
segment_not_private (c ∷ cs) h = ground arith

walk_total :
    (ss : List (List ℕ)) (v : PyValue)
    → all is_segment ss ≡ true
    → (r : Option PyValue) × (walk ss v ≡ ok r)
unfolding walk
walk_total [] v h = (some v, refl)
walk_total (s ∷ ss) v h = elim (Option-cases (descend s v)) [
  | inl e ↦ (none, rw (segment_not_private s (ground arith), e) refl)
  | inr (w, e) ↦
      let (r, q) = walk_total ss w (ground arith) in
      (r, rw (segment_not_private s (ground arith), e) q)
]

-- A path resolves in every context, or in none: the test of private segments inside the loop never
-- fires after the pattern has matched.
pub resolve_field_total :
    (context other : PyFields) (path : String) (r : Option PyValue)
    → resolve_field other path ≡ ok r
    → (q : Option PyValue) × (resolve_field context path ≡ ok q)
unfolding resolve_field
resolve_field_total context other path r h =
    let valid : is_path path ≡ true = ground arith in
    let (q, e) = walk_total (split_dots (codes path)) (mapping context) (unfold is_path in valid) in
    (q, rw valid e)

abbrev yes : RuleEvaluation
yes = record { value = true_value; unresolved_fields = [] }

abbrev no : RuleEvaluation
no = record { value = false_value; unresolved_fields = [] }

abbrev open_at : String → RuleEvaluation
open_at f = record { value = unresolved; unresolved_fields = f ∷ [] }

-- A value was found that is not None.
abbrev pub IsThere : Option PyValue → Type 0
IsThere v = (a : PyValue) × (v ≡ some a) × (a ≢ null)

module _ (readers : Readers) (context : PyFields) where
  -- What a condition is settled as, and why.
  pub data Settled (c : RuleCondition) : RuleEvaluation → Type 0 where
    -- it asks whether a value is there
    expected :
        (v : Option PyValue) (b : Bool)
        → c.operator ≡ exists
        → resolve_field context c.field ≡ ok v
        → c.value ≡ bool b
        → (b ≡ true) ↔ IsThere v
        → Settled c yes
    unexpected :
        (v : Option PyValue) (b : Bool)
        → c.operator ≡ exists
        → resolve_field context c.field ≡ ok v
        → c.value ≡ bool b
        → (b ≡ false) ↔ IsThere v
        → Settled c no
    -- it compares, and no value is there, or None
    missing :
        c.operator ≢ exists → resolve_field context c.field ≡ ok none → Settled c (open_at c.field)
    nothing :
        c.operator ≢ exists
        → resolve_field context c.field ≡ ok (some null)
        → Settled c (open_at c.field)
    -- the comparison with the value raises an exception
    raised :
        (a : PyValue) (e : Error)
        → c.operator ≢ exists
        → resolve_field context c.field ≡ ok (some a)
        → a ≢ null
        → compare_values readers c.operator a c.value ≡ err e
        → Settled c (open_at c.field)
    -- it returns
    holds :
        (a : PyValue)
        → c.operator ≢ exists
        → resolve_field context c.field ≡ ok (some a)
        → a ≢ null
        → compare_values readers c.operator a c.value ≡ ok true
        → Settled c yes
    fails :
        (a : PyValue)
        → c.operator ≢ exists
        → resolve_field context c.field ≡ ok (some a)
        → a ≢ null
        → compare_values readers c.operator a c.value ≡ ok false
        → Settled c no

  abbrev pub AllSettled : List RuleCondition → List RuleEvaluation → Type 0
  AllSettled [] [] = Unit
  AllSettled (c ∷ cs) (r ∷ rs) = Settled c r × AllSettled cs rs
  AllSettled _ _ = ⊥

  decimal_caught : (a : PyValue) (e : Error) → as_decimal readers a ≡ err e → is_caught e ≡ true
  decimal_caught a e h = ground arith

  date_caught : (a : PyValue) (e : Error) → as_date readers a ≡ err e → is_caught e ≡ true
  date_caught a e h = ground arith

  on_decimals_caught :
      (a b : PyValue) (f : Number → Number → Bool) (e : Error)
      → on_decimals readers a b f ≡ err e
      → is_caught e ≡ true
  on_decimals_caught a b f e h = elim (Result-cases (as_decimal readers a)) [
    | inr (d, p) ↦ let h' = rw p at h in rw (sym (err_path _ _ h')) (decimal_caught a d p)
    | inl (x, p) ↦ elim (Result-cases (as_decimal readers b)) [
      | inr (d, q) ↦ let h' = rw (p, q) at h in rw (sym (err_path _ _ h')) (decimal_caught b d q)
      | inl (y, q) ↦ let h' = rw (p, q) at h in cc
    ]
  ]

  on_dates_caught :
      (a b : PyValue) (f : ℕ → ℕ → Bool) (e : Error)
      → on_dates readers a b f ≡ err e
      → is_caught e ≡ true
  on_dates_caught a b f e h = elim (Result-cases (as_date readers a)) [
    | inr (d, p) ↦ let h' = rw p at h in rw (sym (err_path _ _ h')) (date_caught a d p)
    | inl (x, p) ↦ elim (Result-cases (as_date readers b)) [
      | inr (d, q) ↦ let h' = rw (p, q) at h in rw (sym (err_path _ _ h')) (date_caught b d q)
      | inl (y, q) ↦ let h' = rw (p, q) at h in cc
    ]
  ]

  items_caught :
      (a : PyValue) (f : PyItems → Bool) (e : Error) → on_items a f ≡ err e → is_caught e ≡ true
  items_caught a f e h = ground arith

  contains_caught : (v w : PyValue) (e : Error) → python_contains v w ≡ err e → is_caught e ≡ true
  unfolding python_contains key_contains
  contains_caught v w e h = ground arith

  -- Every exception that a comparison raises is of a class that is caught.
  comparison_caught :
      (op : RuleOperator) (a b : PyValue) (e : Error)
      → compare_values readers op a b ≡ err e
      → is_caught e ≡ true
  unfolding compare_values
  comparison_caught eq a b e h = cc
  comparison_caught neq a b e h = cc
  comparison_caught in_list a b e h = items_caught b _ e h
  comparison_caught not_in a b e h = items_caught b _ e h
  comparison_caught contains a b e h = contains_caught b a e h
  comparison_caught contains_all a b e h = ground arith
  comparison_caught gte a b e h = on_decimals_caught a b _ e h
  comparison_caught lte a b e h = on_decimals_caught a b _ e h
  comparison_caught gt a b e h = on_decimals_caught a b _ e h
  comparison_caught lt a b e h = on_decimals_caught a b _ e h
  comparison_caught exists a b e h = ground arith
  comparison_caught date_before a b e h = on_dates_caught a b _ e h
  comparison_caught date_on_or_before a b e h = on_dates_caught a b _ e h
  comparison_caught date_after a b e h = on_dates_caught a b _ e h
  comparison_caught date_on_or_after a b e h = on_dates_caught a b _ e h

  present-IsThere : (v : Option PyValue) → (is_present readers v ≡ true) ↔ IsThere v
  present-IsThere none = (
    (λ e. let clash : false ≡ true = e in cc),
    (λ (a, e, _). let clash : none ≡ some a = e in cc),
  )
  present-IsThere (some null) = (
    (λ e. let clash : false ≡ true = e in cc),
    (λ (a, e, n). absurd (n (sym (some_path null a e)))),
  )
  present-IsThere (some a) =
      ((λ e. (a, refl, λ q. let clash : a ≡ null = q in cc)), (λ there. refl))

  exists_verdict :
      (p b : Bool)
      → (p ≡ b) × (verdict readers (exists_matches readers p (bool b)) ≡ yes)
        ⊎ (b ≡ not p) × (verdict readers (exists_matches readers p (bool b)) ≡ no)
  unfolding python_equal
  exists_verdict true true = inl (refl, refl)
  exists_verdict true false = inr (refl, refl)
  exists_verdict false true = inr (refl, refl)
  exists_verdict false false = inl (refl, refl)

  not_there : (p b : Bool) → b ≡ not p → (b ≡ false) ↔ (p ≡ true)
  not_there p b h = ((λ e. ground arith), (λ e. ground arith))

  bool_of : (v : PyValue) → is_bool v ≡ true → (b : Bool) × (v ≡ bool b)
  bool_of (bool b) h = (b, refl)
  bool_of v h = absurd (ground arith)

  as_written :
      (c : RuleCondition) (v : Option PyValue) (b : Bool)
      → c.value ≡ bool b
      → Settled c (verdict readers (exists_matches readers (is_present readers v) (bool b)))
      → Settled c (verdict readers (exists_matches readers (is_present readers v) c.value))
  as_written c v b e h =
      subst (λ x. Settled c (verdict readers (exists_matches readers (is_present readers v) x)))
        (sym e) h

  -- A condition that asks for existence.
  exists-Settled :
      (c : RuleCondition) (v : Option PyValue)
      → c.operator ≡ exists
      → is_bool c.value ≡ true
      → resolve_field context c.field ≡ ok v
      → Settled c (verdict readers (exists_matches readers (is_present readers v) c.value))
  exists-Settled c v op h found =
      let (b, e) = bool_of c.value h in
      elim (exists_verdict (is_present readers v) b) [
        | inl (same, r) ↦
            let (to, from) = present-IsThere v in
            as_written c v b e (
              subst (Settled c) (sym r)
                (expected v b op found e ((λ k. to (same ∙ k)), (λ k. sym same ∙ from k))))
        | inr (other, r) ↦
            let (to, from) = present-IsThere v in
            let (to', from') = not_there (is_present readers v) b other in
            as_written c v b e (
              subst (Settled c) (sym r)
                (unexpected v b op found e ((λ k. to (to' k)), (λ k. from' (from k)))))
      ]

  null_cases :
      (c : RuleCondition) (a : PyValue)
      → (a ≡ null)
        ⊎ (a ≢ null)
          × (judge readers c (some a)
              ≡ settle readers c.field (compare_values readers c.operator a c.value))
  null_cases c null = inl refl
  null_cases c a = inr ((λ e. let clash : a ≡ null = e in cc), refl)

  asks : (op : RuleOperator) → is_exists op ≡ true → op ≡ exists
  asks op h = ground arith

  compares : (op : RuleOperator) → is_exists op ≡ false → op ≢ exists
  compares op h e = let clash : true ≡ false = subst (λ o. is_exists o ≡ false) e h in cc

  compared-Settled :
      (c : RuleCondition) (a : PyValue) (r : Result Bool)
      → c.operator ≢ exists
      → resolve_field context c.field ≡ ok (some a)
      → a ≢ null
      → compare_values readers c.operator a c.value ≡ r
      → (s : RuleEvaluation) × (settle readers c.field r ≡ ok s) × Settled c s
  compared-Settled c a (ok true) op found there h = (yes, refl, holds a op found there h)
  compared-Settled c a (ok false) op found there h = (no, refl, fails a op found there h)
  compared-Settled c a (err e) op found there h =
      let caught = comparison_caught c.operator a c.value e h in
      (open_at c.field, rw caught refl, raised a e op found there h)

  judge-Settled :
      (c : RuleCondition) (v : Option PyValue)
      → c.operator ≢ exists
      → resolve_field context c.field ≡ ok v
      → (s : RuleEvaluation) × (judge readers c v ≡ ok s) × Settled c s
  judge-Settled c none op found = (open_at c.field, refl, missing op found)
  judge-Settled c (some a) op found = elim (null_cases c a) [
    | inl e ↦
        let found' : resolve_field context c.field ≡ ok (some null) = rw e at found in
        (open_at c.field, rw e refl, nothing op found')
    | inr (there, e) ↦
        let (s, settled, why) = compared-Settled c a _ op found there refl in (s, e ∙ settled, why)
  ]

  condition_total :
      (c : RuleCondition)
      → check_condition c ≡ ok c
      → (r : RuleEvaluation) × (evaluate_condition readers context c ≡ ok r) × Settled c r
  unfolding check_condition evaluate_condition
  condition_total c h =
      let (first, e, _) = >>=-eq-ok (resolve_field PyFields.no_fields c.field) _ h in
      let (q, found) = resolve_field_total context PyFields.no_fields c.field first e in
      elim (Bool-cases (is_exists c.operator)) [
        | inl x ↦
            let typed : is_bool c.value ≡ true = let h' = rw (e, x) at h in ground arith in
            (
              verdict readers (exists_matches readers (is_present readers q) c.value),
              rw (found, x) refl,
              exists-Settled c q (asks c.operator x) typed found,
            )
        | inr x ↦
            let (s, judged, why) = judge-Settled c q (compares c.operator x) found in
            (s, rw (found, x) judged, why)
      ]

  evaluate_all_total :
      (cs : List RuleCondition)
      → All (λ c. check_condition c ≡ ok c) cs
      → (rs : List RuleEvaluation) × (evaluate_all readers context cs ≡ ok rs) × AllSettled cs rs
  unfolding evaluate_all
  evaluate_all_total [] h = ([], refl, tt)
  evaluate_all_total (c ∷ cs) h =
      let (r, e, why) = condition_total c h.0 in
      let (rs, es, whys) = evaluate_all_total cs h.1 in (r ∷ rs, rw (e, es) refl, (why, whys))

  -- An expression of conditions that were constructed evaluates in every context, whatever values
  -- it holds and whatever the texts in it read as: the result combines one result for each
  -- condition, and a condition that compares is TRUE or FALSE as the comparison returns, and
  -- UNRESOLVED with its own path when no value is there, when it is None, and when the comparison
  -- raises an exception; one that asks for existence is TRUE or FALSE.
  pub evaluate_total :
      (x : RuleExpression)
      → All (λ c. check_condition c ≡ ok c) x.conditions
      → (rs : List RuleEvaluation) × AllSettled x.conditions rs
        × (evaluate readers context x ≡ ok (combine x.mode rs))
  unfolding evaluate
  evaluate_total x h =
      let (rs, e, whys) = evaluate_all_total x.conditions h in (rs, whys, rw e refl)
