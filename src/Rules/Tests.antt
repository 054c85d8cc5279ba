-- ===== src/Rules/Tests.antt =====
-- Runs of a rule at concrete contexts.
use sira_seil_cockroach_aws.Rules.Value.{SequenceKind, python_contains}
use sira_seil_cockroach_aws.Domain.Enums.{TruthValue, true_value, unresolved}
use sira_seil_cockroach_aws.Rules.Value.{PyValue, bool, text, PyFields, Readers, strict_equal}
use sira_seil_cockroach_aws.Rules.Path.{resolve_field}
use sira_seil_cockroach_aws.Rules.{
  PyItems, combine, RuleOperator, python_contains, evaluate_condition, eq, RuleCondition,
  RuleEvaluation, RuleExpression, any_of, evaluate, evaluate_all, check_condition,
}
use sira_seil_cockroach_aws.Rules.Totality.{AllSettled, evaluate_total}
use sira_seil_cockroach_aws.Rules.Kleene.{meaning, evaluate-eq-meaning}
use sira_seil_cockroach_aws.Rules.Stability.{verdict_stays}
use sira_seil_cockroach_aws.Base.{
  ◌≡◌, refl, true, false, none, List, [], ◌∷◌, arith, type_error, ok, err,
}

-- No text reads as a number or a date.
abbrev readers : Readers
readers = record { read_decimal = λ s. none; read_date = λ s. none }

abbrev soc2 : RuleCondition
soc2 = record { field = "security.soc2"; operator = eq; value = bool true }

abbrev region : RuleCondition
region = record { field = "region"; operator = eq; value = text "eu" }

abbrev either : RuleExpression
either = record { conditions = soc2 ∷ region ∷ []; mode = any_of }

abbrev before : PyFields
before = PyFields.field "region" (text "eu") PyFields.no_fields

abbrev after : PyFields
after = PyFields.field "region" (text "eu") (
    PyFields.field "security"
      (PyValue.mapping (PyFields.field "soc2" (bool false) PyFields.no_fields)) PyFields.no_fields)

abbrev soc2_open : RuleEvaluation
soc2_open = record { value = unresolved; unresolved_fields = "security.soc2" ∷ [] }

abbrev met : RuleEvaluation
met = record { value = true_value; unresolved_fields = [] }

abbrev failed : RuleEvaluation
failed = record { value = TruthValue.false_value; unresolved_fields = [] }

abbrev verdict_before : RuleEvaluation
verdict_before = record { value = true_value; unresolved_fields = "security.soc2" ∷ [] }

run_before : evaluate readers before either ≡ ok verdict_before
unfolding evaluate resolve_field strict_equal
run_before = refl

run_after : evaluate readers after either ≡ ok met
unfolding evaluate resolve_field strict_equal
run_after = refl

evaluate_total_example :
    (rs : List RuleEvaluation) × AllSettled readers before either.conditions rs
    × (evaluate readers before either ≡ ok (combine either.mode rs))
unfolding resolve_field check_condition
evaluate_total_example = evaluate_total readers before either (refl, (refl, tt))

-- A comparison of a text with a number raises, and the condition is left open.
abbrev many_seats : RuleCondition
many_seats = record { field = "region"; operator = RuleOperator.gt; value = text "ten" }

raised_is_open :
    evaluate_condition readers before many_seats
    ≡ ok (record { value = unresolved; unresolved_fields = "region" ∷ [] })
unfolding evaluate_condition resolve_field
raised_is_open = refl

-- A list is not hashable, so it is not looked for among the keys of a mapping.
unhashable_item :
    python_contains
      (PyValue.sequence SequenceKind.list_kind PyItems.no_items)
      (PyValue.mapping before)
    ≡ err type_error
unfolding python_contains
unhashable_item = refl

evaluate-eq-meaning_example :
    (rs : List RuleEvaluation) × (evaluate_all readers before either.conditions ≡ ok rs)
    × (verdict_before.value ≡ meaning any_of rs)
evaluate-eq-meaning_example = evaluate-eq-meaning readers before either verdict_before run_before

verdict_stays_example : met.value ≡ verdict_before.value
unfolding resolve_field
verdict_stays_example =
    verdict_stays readers before after either verdict_before met
      ((refl, λ v h k. ground arith), ((refl, λ v h k. h), tt)) run_before run_after (λ e. cc)
