-- ===== src/Contracts.antt =====
-- python/domain/exchange_contracts.py: the checks that its value objects share.
--
-- A value object is validated when it is made, and again when one is made from another. A refusal
-- by a validator is a ValueError here, whatever class of ValueError the validation library wraps
-- it in; a schema version has a single value, and is left out.
pub mod Manifest
pub mod Disclosure
pub mod Release
pub mod Offer
pub mod Agreed
pub mod Changes
pub mod Negotiation
pub mod Transfer
pub mod Tests
use sira_seil_cockroach_aws.Base.Order.{codes, occurs}
use sira_seil_cockroach_aws.Domain.Json.{
  Value, scalar, array, object, Items, no_items, item, Fields, no_fields, field,
}
use sira_seil_cockroach_aws.Domain.Time.{DateTime}
use sira_seil_cockroach_aws.Exchange.{ExchangeParty, system, same_party}
use sira_seil_cockroach_aws.Base.{
  ℕ, zero, suc, ◌+◌, ◌-◌, ◌*◌, ◌/◌, ◌%◌, ◌^◌, ◌≤◌, ◌<◌, String, ◌≡◌, refl, sym, ap, subst, ◌∙◌, ◌≢◌,
  ◌↔◌, ◌⊎◌, inl, inr, Bool, true, false, not, ◌&&◌, ◌||◌, Option, none, some, List, [], ◌∷◌, ◌++◌,
  map, arith, eq_iff, ltb, leb, nat_eq, ◌==◌, if◌then◌else◌, Bool-cases, Option-cases, is_none,
  some_path, text_cases, text_eq_self, not-false, both, length, select, any, all, is_empty, All,
  All-map, All-append, All-zip, elem, set_of, Distinct, elem-append, elem-set_of, length-set_of,
  set_of-Distinct, Distinct-set_of, elem_head, elem_tail, All_at, All-self, Error, Result, is_ok,
  ◌>>=◌, Result-cases, ok_path, err_path, >>=-eq-ok, raise_if, ◌>>◌, raise_if-eq-ok,
  domain_validation, invalid_transition, exchange_conflict, contract_violation, value_error,
  invalid_operation, key_error, attribute_error, recursion_error, zero_division, ok, err,
}

-- `_require_aware`
abbrev pub require_zone : DateTime → Result (Unit {0})
require_zone t = raise_if (not t.aware) (value_error "must include a timezone")

-- `_participant`
abbrev pub participant : ExchangeParty → Result (Unit {0})
participant p = raise_if (same_party p system) (value_error "must be BUYER or SELLER")

-- The two parties of a contract, each a participant and not the same.
abbrev pub cross_parties : ExchangeParty → ExchangeParty → String → Result (Unit {0})
cross_parties a b message =
    participant a >> participant b >> raise_if (same_party a b) (value_error message)

-- The markers of `_private_key`.
abbrev pub private_markers : List String
private_markers =
    "hidden_budget" ∷ "reservation_value" ∷ "seller_floor" ∷ "private_note" ∷ "private_source"
    ∷ "buyer_private" ∷ "seller_private" ∷ []

-- `text.replace("-", "_")`, on code points
abbrev pub underscored : List ℕ → List ℕ
underscored cs = map (λ c. if nat_eq c b'-' then b'_' else c) cs

-- `_private_key`; `casefold` is `str.casefold`
unfoldable pub private_key : (String → String) → String → Bool
private_key casefold key =
    any (λ marker. occurs (codes marker) (underscored (codes (casefold key)))) private_markers

abbrev pub private_plane : Error
private_plane = contract_violation "private-plane data cannot enter an exchange contract"

module _ (casefold : String → String) where
  -- `_assert_public_tree`
  unfoldable mutual
    pub assert_public_tree : Value → Result (Unit {0})
    assert_public_tree (scalar s) = ok tt
    assert_public_tree (array xs) = assert_public_items xs
    assert_public_tree (object fs) = assert_public_entries fs

    pub assert_public_items : Items → Result (Unit {0})
    assert_public_items no_items = ok tt
    assert_public_items (item x xs) = assert_public_tree x >> assert_public_items xs

    pub assert_public_entries : Fields → Result (Unit {0})
    assert_public_entries no_fields = ok tt
    assert_public_entries (field k v fs) =
        raise_if (private_key casefold k) private_plane
        >> (assert_public_tree v >> assert_public_entries fs)
