-- ===== src/Rules.antt =====
-- python/domain/rules.py: the three-valued rule grammar over the values of a context.
pub mod Value
pub mod Path
pub mod Totality
pub mod Kleene
pub mod Stability
pub mod Tests
use sira_seil_cockroach_aws.Domain.Enums.{TruthValue, true_value, false_value, unresolved}
use sira_seil_cockroach_aws.Base.Order.{text_le}
use sira_seil_cockroach_aws.Base.Sort.{sorted}
use Value.{
  PyValue, null, bool, number, text, date, sequence, mapping, PyItems, no_items, item, PyFields,
  Number, number_le, Readers, as_decimal, as_date, is_collection, python_equal, strict_equal,
  python_contains,
}
use Path.{resolve_field}
use sira_seil_cockroach_aws.Base.{
  ℕ, zero, suc, ◌+◌, ◌-◌, ◌*◌, ◌/◌, ◌%◌, ◌^◌, ◌≤◌, ◌<◌, String, ◌≡◌, refl, sym, ap, subst, ◌∙◌, ◌≢◌,
  ◌↔◌, ◌⊎◌, inl, inr, Bool, true, false, not, ◌&&◌, ◌||◌, Option, none, some, List, [], ◌∷◌, ◌++◌,
  map, arith, eq_iff, ltb, leb, nat_eq, ◌==◌, if◌then◌else◌, Bool-cases, Option-cases, is_none,
  some_path, text_cases, text_eq_self, not-false, both, either_false, same_text, length, select,
  any, all, is_empty, All, All-map, All-append, All-zip, elem, set_of, Distinct, elem-append,
  elem-set_of, length-set_of, set_of-Distinct, Distinct-set_of, elem_head, elem_tail, All_at,
  All-self, Error, Result, is_ok, ◌>>=◌, Result-cases, ok_path, err_path, >>=-eq-ok, raise_if, ◌>>◌,
  raise_if-eq-ok, raise_if_ok, domain_validation, invalid_transition, exchange_conflict,
  contract_violation, value_error, type_error, invalid_operation, key_error, attribute_error,
  runtime_error, recursion_error, zero_division, ok, err,
}

pub data RuleOperator : Type 0 where
  eq neq in_list not_in contains contains_all gte lte gt lt exists date_before date_on_or_before
        date_after date_on_or_after :
      RuleOperator

pub record RuleCondition : Type 0 where
  pub field : String
  pub operator : RuleOperator
  pub value : PyValue

-- `operator in {IN, NOT_IN, CONTAINS_ALL}`
abbrev pub wants_list : RuleOperator → Bool
wants_list in_list = true
wants_list not_in = true
wants_list contains_all = true
wants_list _ = false

abbrev pub is_exists : RuleOperator → Bool
is_exists exists = true
is_exists _ = false

abbrev pub is_bool : PyValue → Bool
is_bool (bool b) = true
is_bool _ = false

-- `RuleCondition.__post_init__`
unfoldable pub check_condition : RuleCondition → Result RuleCondition
check_condition c = do
  _ ← resolve_field PyFields.no_fields c.field
  raise_if (wants_list c.operator && not (is_collection c.value))
      (domain_validation "requires a list-like value")
  raise_if (is_exists c.operator && not (is_bool c.value))
      (domain_validation "exists requires a boolean expected value")
  ok c

pub record RuleEvaluation : Type 0 where
  pub value : TruthValue
  pub unresolved_fields : List String

-- `any(_strict_equal(actual, item) for item in expected)`
abbrev pub any_equal : PyValue → PyItems → Bool
any_equal a no_items = false
any_equal a (item x xs) = strict_equal a x || any_equal a xs

-- `all(any(_strict_equal(item, actual_item) …) for item in expected)`
abbrev pub all_found : PyItems → PyItems → Bool
all_found no_items actual = true
all_found (item x xs) actual = any_equal x actual && all_found xs actual

-- A test on the items of a list; anything else is not iterable.
abbrev pub on_items : PyValue → (PyItems → Bool) → Result Bool
on_items (sequence k xs) f = ok (f xs)
on_items _ f = err type_error

-- The classes named by `except (InvalidOperation, TypeError, ValueError)` and their subclasses.
abbrev pub is_caught : Error → Bool
is_caught (domain_validation m) = true
is_caught (invalid_transition m) = true
is_caught (exchange_conflict m) = true
is_caught (contract_violation m) = true
is_caught (value_error m) = true
is_caught type_error = true
is_caught invalid_operation = true
is_caught _ = false

module _ (readers : Readers) where
  abbrev pub on_decimals : PyValue → PyValue → (Number → Number → Bool) → Result Bool
  on_decimals a b f = as_decimal readers a >>= λ x. as_decimal readers b >>= λ y. ok (f x y)

  abbrev pub on_dates : PyValue → PyValue → (ℕ → ℕ → Bool) → Result Bool
  on_dates a b f = as_date readers a >>= λ x. as_date readers b >>= λ y. ok (f x y)

  -- `RuleCondition._compare`
  unfoldable pub compare_values : RuleOperator → PyValue → PyValue → Result Bool
  compare_values eq a e = ok (strict_equal a e)
  compare_values neq a e = ok (not (strict_equal a e))
  compare_values in_list a e = on_items e (any_equal a)
  compare_values not_in a e = on_items e (λ xs. not (any_equal a xs))
  compare_values contains a e = python_contains e a
  compare_values contains_all a e =
      if not (is_collection a)
      then err type_error
      else on_items a (λ actual. elim e [ sequence k xs ↦ all_found xs actual | _ ↦ false ])
  compare_values gte a e = on_decimals a e (λ x y. number_le y x)
  compare_values lte a e = on_decimals a e number_le
  compare_values gt a e = on_decimals a e (λ x y. not (number_le x y))
  compare_values lt a e = on_decimals a e (λ x y. not (number_le y x))
  compare_values exists a e = err (domain_validation "unsupported operator")
  compare_values date_before a e = on_dates a e ltb
  compare_values date_on_or_before a e = on_dates a e leb
  compare_values date_after a e = on_dates a e (λ x y. ltb y x)
  compare_values date_on_or_after a e = on_dates a e (λ x y. leb y x)

  abbrev pub verdict : Bool → RuleEvaluation
  verdict true = record { value = true_value; unresolved_fields = [] }
  verdict false = record { value = false_value; unresolved_fields = [] }

  abbrev pub left_open : String → RuleEvaluation
  left_open f = record { value = unresolved; unresolved_fields = f ∷ [] }

  -- `found and actual is not None`
  abbrev pub is_present : Option PyValue → Bool
  is_present none = false
  is_present (some null) = false
  is_present (some _) = true

  -- `(found and actual is not None) == self.value`, with Python's equality of a bool
  abbrev pub exists_matches : Bool → PyValue → Bool
  exists_matches present e = python_equal (bool present) e

  -- `except (InvalidOperation, TypeError, ValueError)`: any other exception goes on.
  abbrev pub settle : String → Result Bool → Result RuleEvaluation
  settle f (ok b) = ok (verdict b)
  settle f (err e) = if is_caught e then ok (left_open f) else err e

  -- the value that was found, if it is there and not None
  abbrev pub judge : RuleCondition → Option PyValue → Result RuleEvaluation
  judge c none = ok (left_open c.field)
  judge c (some null) = ok (left_open c.field)
  judge c (some a) = settle c.field (compare_values c.operator a c.value)

  -- `RuleCondition.evaluate`
  unfoldable pub evaluate_condition : PyFields → RuleCondition → Result RuleEvaluation
  unfolding compare_values
  evaluate_condition context c = resolve_field context c.field >>= λ actual.
      if is_exists c.operator
      then ok (verdict (exists_matches (is_present actual) c.value))
      else judge c actual

pub data Mode : Type 0 where
  all_of any_of : Mode

pub record RuleExpression : Type 0 where
  pub conditions : List RuleCondition
  pub mode : Mode

-- `RuleExpression.__post_init__`; the mode is one of the two
unfoldable pub check_expression : RuleExpression → Result RuleExpression
check_expression x = do
  raise_if (is_empty x.conditions)
      (domain_validation "a rule expression needs at least one condition")
  ok x

-- `tuple(condition.evaluate(context) for condition in self.conditions)`
unfoldable pub evaluate_all : Readers → PyFields → List RuleCondition → Result (List RuleEvaluation)
unfolding evaluate_condition
evaluate_all readers context [] = ok []
evaluate_all readers context (c ∷ cs) = evaluate_condition readers context c >>= λ r.
    evaluate_all readers context cs >>= λ rs. ok (r ∷ rs)

abbrev pub all_unresolved : List RuleEvaluation → List String
all_unresolved [] = []
all_unresolved (r ∷ rs) = r.unresolved_fields ++ all_unresolved rs

-- `sorted({field for result in results for field in result.unresolved_fields})`
abbrev pub unresolved_of : List RuleEvaluation → List String
unresolved_of rs = sorted text_le (set_of (all_unresolved rs))

abbrev pub is_true : TruthValue → Bool
is_true true_value = true
is_true _ = false

abbrev pub is_false : TruthValue → Bool
is_false false_value = true
is_false _ = false

abbrev pub is_unresolved : TruthValue → Bool
is_unresolved unresolved = true
is_unresolved _ = false

-- `value in values`, by the test of the value
abbrev pub among : (TruthValue → Bool) → List RuleEvaluation → Bool
among p rs = any (λ (r : RuleEvaluation). p r.value) rs

-- `RuleExpression.evaluate`, on the conditions' results
unfoldable pub combine : Mode → List RuleEvaluation → RuleEvaluation
combine all_of rs =
    if among is_false rs
    then record { value = false_value; unresolved_fields = unresolved_of rs }
    else if among is_unresolved rs
    then record { value = unresolved; unresolved_fields = unresolved_of rs }
    else record { value = true_value; unresolved_fields = [] }
combine any_of rs =
    if among is_true rs
    then record { value = true_value; unresolved_fields = unresolved_of rs }
    else if among is_unresolved rs
    then record { value = unresolved; unresolved_fields = unresolved_of rs }
    else record { value = false_value; unresolved_fields = [] }

-- `RuleExpression.evaluate`
unfoldable pub evaluate : Readers → PyFields → RuleExpression → Result RuleEvaluation
unfolding evaluate_all combine
evaluate readers context x =
    evaluate_all readers context x.conditions >>= λ rs. ok (combine x.mode rs)
