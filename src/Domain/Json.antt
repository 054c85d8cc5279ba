-- ===== src/Domain/Json.antt =====
-- The JSON-like values that commands, nodes and evidence carry.
use sira_seil_cockroach_aws.Base.{
  String, ◌≡◌, refl, arith, eq_iff, Option, none, some, ◌==◌, if◌then◌else◌,
}

-- A `scalar` is None, a bool, a number or a str, by its JSON text. The entries of an object and
-- the items of an array stand in the order of the source's iteration.
mutual
  pub data Fields : Type 0 where
    field : String → Value → Fields → Fields
    no_fields : Fields

  pub data Value : Type 0 where
    object : Fields → Value
    scalar : String → Value
    array : Items → Value

  pub data Items : Type 0 where
    item : Value → Items → Items
    no_items : Items

-- `fields[key]`
abbrev pub find : String → Fields → Option Value
find key no_fields = none
find key (field k v fs) = if k == key then some v else find key fs

-- `fields[key] = value`
abbrev pub set_field : String → Value → Fields → Fields
set_field key value no_fields = field key value no_fields
set_field key value (field k v fs) =
    if k == key then field k value fs else field k v (set_field key value fs)

pub find-set_field :
    (k j : String) (v : Value) (fs : Fields)
    → find j (set_field k v fs) ≡ (if k == j then some v else find j fs)
find-set_field k j v no_fields = refl
find-set_field k j v (field i w fs) =
    ground (arith, eq_iff k j, eq_iff i k, eq_iff i j, find-set_field k j v fs)
