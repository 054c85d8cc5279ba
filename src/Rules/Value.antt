-- ===== src/Rules/Value.antt =====
-- The values that a context may hold, and what Python's operators do on them.
use sira_seil_cockroach_aws.Base.Order.{codes}
use sira_seil_cockroach_aws.Base.{
  ℕ, ◌*◌, ◌^◌, String, Bool, true, false, not, ◌&&◌, ◌||◌, Option, none, some, List, [], ◌∷◌, leb,
  nat_eq, ◌==◌, if◌then◌else◌, Result, value_error, type_error, invalid_operation, ok, err,
}

-- An int, a Decimal or a finite float, by its exact decimal value.
pub data Kind : Type 0 where
  integer decimal binary_float : Kind

pub record Number : Type 0 where
  pub kind : Kind
  pub negative : Bool
  pub coefficient : ℕ
  pub places : ℕ

pub data SequenceKind : Type 0 where
  list_kind tuple_kind : SequenceKind

abbrev pub same_kind : SequenceKind → SequenceKind → Bool
same_kind list_kind list_kind = true
same_kind tuple_kind tuple_kind = true
same_kind _ _ = false

-- A `date` holds its ordinal, a `datetime` that of its date with the rest. Sets are left out.
mutual
  pub data PyValue : Type 0 where
    null : PyValue
    bool : Bool → PyValue
    number : Number → PyValue
    text : String → PyValue
    date : ℕ → PyValue
    datetime : ℕ → ℕ → PyValue
    sequence : SequenceKind → PyItems → PyValue
    mapping : PyFields → PyValue

  pub data PyItems : Type 0 where
    no_items : PyItems
    item : PyValue → PyItems → PyItems

  pub data PyFields : Type 0 where
    no_fields : PyFields
    field : String → PyValue → PyFields → PyFields

-- `a <= b`, by the exact values
abbrev pub magnitude_le : Number → Number → Bool
magnitude_le a b = leb (a.coefficient * 10 ^ b.places) (b.coefficient * 10 ^ a.places)

abbrev pub is_zero : Number → Bool
is_zero a = nat_eq a.coefficient 0

abbrev pub number_le : Number → Number → Bool
number_le a b =
    if a.negative
    then if b.negative then magnitude_le b a else true
    else if b.negative
    then is_zero a && is_zero b
    else magnitude_le a b

-- A bool in arithmetic.
abbrev pub of_bool : Bool → Number
of_bool b = record {
  kind = integer;
  negative = false;
  coefficient = (if b then 1 else 0);
  places = 0;
}

abbrev pub number_equal : Number → Number → Bool
number_equal a b = number_le a b && number_le b a

abbrev pub bool_equal : Bool → Bool → Bool
bool_equal true b = b
bool_equal false b = not b

-- Python's `==`. A mapping equals one with the same entries in the same order: the order in which
-- two dicts were filled is not compared away.
unfoldable mutual
  pub python_equal : PyValue → PyValue → Bool
  python_equal null w = elim w [ null ↦ true | _ ↦ false ]
  python_equal (bool a) w = elim w [
    | bool b ↦ bool_equal a b
    | number n ↦ number_equal (of_bool a) n
    | _ ↦ false
  ]
  python_equal (number a) w = elim w [
    | number b ↦ number_equal a b
    | bool b ↦ number_equal a (of_bool b)
    | _ ↦ false
  ]
  python_equal (text s) w = elim w [ text t ↦ s == t | _ ↦ false ]
  python_equal (date d) w = elim w [ date e ↦ nat_eq d e | _ ↦ false ]
  python_equal (datetime d t) w = elim w [ datetime e u ↦ nat_eq d e && nat_eq t u | _ ↦ false ]
  python_equal (sequence k xs) w = elim w [
    | sequence j ys ↦ same_kind k j && items_equal xs ys
    | _ ↦ false
  ]
  python_equal (mapping fs) w = elim w [ mapping gs ↦ fields_equal fs gs | _ ↦ false ]

  pub items_equal : PyItems → PyItems → Bool
  items_equal no_items ys = elim ys [ no_items ↦ true | _ ↦ false ]
  items_equal (item x xs) ys = elim ys [
    | no_items ↦ false
    | item y zs ↦ python_equal x y && items_equal xs zs
  ]

  pub fields_equal : PyFields → PyFields → Bool
  fields_equal no_fields gs = elim gs [ no_fields ↦ true | _ ↦ false ]
  fields_equal (field k v fs) gs = elim gs [
    | no_fields ↦ false
    | field j w hs ↦ k == j && (python_equal v w && fields_equal fs hs)
  ]

-- `_strict_equal`
unfoldable pub strict_equal : PyValue → PyValue → Bool
unfolding python_equal
strict_equal (bool a) w = elim w [ bool b ↦ bool_equal a b | _ ↦ false ]
strict_equal v (bool b) = false
strict_equal v w = python_equal v w

-- `_collection`
abbrev pub is_collection : PyValue → Bool
is_collection (sequence k xs) = true
is_collection _ = false

abbrev begins : List ℕ → List ℕ → Bool
begins [] cs = true
begins (p ∷ ps) [] = false
begins (p ∷ ps) (c ∷ cs) = nat_eq p c && begins ps cs

abbrev occurs : List ℕ → List ℕ → Bool
occurs part [] = begins part []
occurs part (c ∷ cs) = begins part (c ∷ cs) || occurs part cs

abbrev pub member : PyValue → PyItems → Bool
member v no_items = false
member v (item x xs) = python_equal v x || member v xs

abbrev pub has_key : String → PyFields → Bool
has_key k no_fields = false
has_key k (field j v fs) = j == k || has_key k fs

-- What `hash` takes: anything but a list, a dict, and a tuple with one of them in it.
unfoldable mutual
  pub is_hashable : PyValue → Bool
  is_hashable (sequence list_kind xs) = false
  is_hashable (sequence tuple_kind xs) = are_hashable xs
  is_hashable (mapping fs) = false
  is_hashable _ = true

  pub are_hashable : PyItems → Bool
  are_hashable no_items = true
  are_hashable (item x xs) = is_hashable x && are_hashable xs

-- `v in fs`, for a dict, whose keys are texts
unfoldable pub key_contains : PyValue → PyFields → Result Bool
unfolding is_hashable
key_contains (text s) fs = ok (has_key s fs)
key_contains v fs = if is_hashable v then ok false else err type_error

-- `v in w`: a list by `==`, a text by its parts, a dict by its keys; else a TypeError
unfoldable pub python_contains : PyValue → PyValue → Result Bool
unfolding python_equal key_contains
python_contains v (sequence k xs) = ok (member v xs)
python_contains v (text t) = elim v [
  | text s ↦ ok (occurs (codes s) (codes t))
  | _ ↦ err type_error
]
python_contains v (mapping fs) = key_contains v fs
python_contains v _ = err type_error

-- What Python's library reads from a text: `Decimal(text)` and `date.fromisoformat(text)`.
pub record Readers : Type 0 where
  pub read_decimal : String → Option Number
  pub read_date : String → Option ℕ

abbrev or_value_error {ℓ} : {A : Type ℓ} → Option A → Result A
or_value_error none = err (value_error "not readable")
or_value_error (some a) = ok a

abbrev decimal_of : Kind → Number → Result Number
decimal_of binary_float n = err invalid_operation
decimal_of _ n = ok n

-- `_as_decimal`
abbrev pub as_decimal : Readers → PyValue → Result Number
as_decimal r (number n) = decimal_of n.kind n
as_decimal r (text s) = or_value_error (r.read_decimal s)
as_decimal r _ = err invalid_operation

-- `_as_date`
abbrev pub as_date : Readers → PyValue → Result ℕ
as_date r (datetime d t) = ok d
as_date r (date d) = ok d
as_date r (text s) = or_value_error (r.read_date s)
as_date r _ = err (value_error "not a date")
