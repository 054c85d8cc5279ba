-- ===== src/Contracts/Tests.antt =====
-- The exchange contracts on a concrete manifest.
pub mod Offers
use sira_seil_cockroach_aws.Domain.Money.{is_currency}
use sira_seil_cockroach_aws.Domain.Ids.{is_hash}
use sira_seil_cockroach_aws.Contracts.{private_key}
use sira_seil_cockroach_aws.Domain.Json.{Value, scalar, Fields, field, no_fields, find}
use sira_seil_cockroach_aws.Domain.Time.{DateTime}
use sira_seil_cockroach_aws.Exchange.{buyer, seller}
use sira_seil_cockroach_aws.Contracts.Manifest.{
  active, revoked, lowercase, redact, ApprovalPayload, ReleaseManifest, ManifestPayload,
  validate_contract, release, revoke,
}
use sira_seil_cockroach_aws.Contracts.Disclosure.{HasPublicNames, AreDisclosed}
use sira_seil_cockroach_aws.Contracts.Release.{release_lem, revoke_lem}
use sira_seil_cockroach_aws.Contracts.Offer.{
  OfferTerms, OfferVersion, OfferLine, OfferApproval, pending, approved, validate_offer, authorize,
  actual_changes, validate_counteroffer,
}
use sira_seil_cockroach_aws.Contracts.Agreed.{authorize_lem, authorize_takes_effect}
use sira_seil_cockroach_aws.Contracts.Negotiation.{
  Negotiation, opening, countered, Alternates, AreApart, negotiation_lem, last_hash_fixes_all,
  changed_terms_lem,
}
use sira_seil_cockroach_aws.Contracts.Transfer.{
  PaymentTerms, ExchangePaymentHandoff, ready, opened, validate_handoff, open_handoff,
}
use sira_seil_cockroach_aws.Contracts.Transfer.Opening.{open_handoff_lem}
use sira_seil_cockroach_aws.Base.{
  ℕ, zero, suc, ◌+◌, ◌-◌, ◌*◌, ◌/◌, ◌%◌, ◌^◌, ◌≤◌, ◌<◌, String, ◌≡◌, refl, sym, ap, subst, ◌∙◌, ◌≢◌,
  ◌↔◌, ◌⊎◌, inl, inr, Bool, true, false, not, ◌&&◌, ◌||◌, Option, none, some, List, [], ◌∷◌, ◌++◌,
  map, arith, eq_iff, ltb, leb, nat_eq, ◌==◌, if◌then◌else◌, Bool-cases, Option-cases, is_none,
  some_path, text_cases, text_eq_self, not-false, both, either_false, same_text, length, select,
  any, all, is_empty, All, All-map, All-append, All-zip, elem, set_of, Distinct, elem-append,
  elem-set_of, length-set_of, set_of-Distinct, Distinct-set_of, elem_head, elem_tail, All_at,
  All-self, Error, Result, is_ok, ◌>>=◌, Result-cases, ok_path, err_path, >>=-eq-ok, raise_if, ◌>>◌,
  raise_if-eq-ok, raise_if_ok, domain_validation, invalid_transition, exchange_conflict,
  contract_violation, value_error, invalid_operation, key_error, attribute_error, runtime_error,
  recursion_error, zero_division, ok, err,
}

abbrev pub hash_one : String
hash_one = "sha256:1111111111111111111111111111111111111111111111111111111111111111"

abbrev pub hash_two : String
hash_two = "sha256:2222222222222222222222222222222222222222222222222222222222222222"

abbrev pub at : ℕ → DateTime
at n = record { aware = true; instant = n }

-- The lower case of one text.
abbrev lower_eu : String → Option String
lower_eu s = if s == "\"EU\"" then some "\"eu\"" else none

abbrev two_fields : ApprovalPayload
two_fields = record {
  case_id = "case-1";
  owner = buyer;
  recipient = seller;
  purpose = "offer";
  fields = "region" ∷ "seats" ∷ [];
  transformations = ("region", lowercase) ∷ ("seats", redact) ∷ [];
  source_versions = ("brief", 1) ∷ [];
  expires_at = at 9;
}

abbrev manifest : ReleaseManifest
manifest = record {
  manifest_id = "m-1";
  terms = two_fields;
  approval_id = "a-1";
  approved_payload_hash = hash_one;
  status = active;
  manifest_hash = hash_two;
}

abbrev private_source : Fields
private_source =
    field "seats" (scalar "40")
      (field "hidden_budget" (scalar "900") (field "region" (scalar "\"EU\"") no_fields))

abbrev disclosed : Fields
disclosed = field "region" (scalar "\"eu\"") (field "seats" (scalar "\"[redacted]\"") no_fields)

abbrev hash_terms : ApprovalPayload → String
hash_terms t = hash_one

abbrev hash_manifest : ManifestPayload → String
hash_manifest m = hash_two

is_released :
    release (λ s. s) lower_eu hash_terms hash_manifest manifest private_source (at 5) ≡ ok disclosed
unfolding release private_key
is_released = refl

release_lem_example :
    (active ≡ active)
    × (5 < 9)
    × All (λ name. (w : Value) × (find name disclosed ≡ some w)) ("region" ∷ "seats" ∷ [])
    × AreDisclosed lower_eu two_fields.transformations private_source
        ("region" ∷ "seats" ∷ [])
        disclosed
    × HasPublicNames (λ s. s) disclosed
release_lem_example =
    release_lem (λ s. s) lower_eu hash_terms hash_manifest manifest private_source disclosed (at 5)
      is_released

manifest_is_valid :
    validate_contract (λ s. s) lower_eu hash_terms hash_manifest manifest ≡ ok manifest
unfolding validate_contract is_hash private_key
manifest_is_valid = refl

revoke_lem_example :
    (r : ReleaseManifest) × (revoke (λ s. s) lower_eu hash_terms hash_manifest manifest ≡ ok r)
    × (r.status ≡ revoked)
    × (r.terms ≡ two_fields)
    × ((source : Fields) (now : DateTime)
        → is_ok (release (λ s. s) lower_eu hash_terms hash_manifest r source now) ≡ false)
revoke_lem_example =
    revoke_lem (λ s. s) lower_eu hash_terms hash_manifest manifest manifest manifest_is_valid
