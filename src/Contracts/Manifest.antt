-- ===== src/Contracts/Manifest.antt =====
-- python/domain/exchange_contracts.py, `ReleaseManifest`: what a party lets the other one see.
use sira_seil_cockroach_aws.Base.Order.{codes}
use sira_seil_cockroach_aws.Base.Dict.{Dict, lookup, keys, values}
use sira_seil_cockroach_aws.Domain.Ids.{is_hash}
use sira_seil_cockroach_aws.Domain.Json.{
  Value, scalar, array, object, Fields, no_fields, find, set_field,
}
use sira_seil_cockroach_aws.Domain.Time.{DateTime, time_le}
use sira_seil_cockroach_aws.Exchange.{ExchangeParty, has_length}
use sira_seil_cockroach_aws.Contracts.{
  require_zone, cross_parties, private_key, assert_public_entries,
}
use sira_seil_cockroach_aws.Base.{
  ℕ, String, Bool, true, false, not, ◌&&◌, ◌||◌, Option, none, some, List, [], ◌∷◌, ltb, nat_eq,
  ◌==◌, if◌then◌else◌, is_none, length, any, all, is_empty, elem, set_of, Result, ◌>>=◌, raise_if,
  ◌>>◌, contract_violation, value_error, key_error, ok, err,
}

pub data ReleaseStatus : Type 0 where
  active revoked : ReleaseStatus

-- `status is ReleaseStatus.ACTIVE`
abbrev pub is_active : ReleaseStatus → Bool
is_active active = true
is_active revoked = false

pub data Transformation : Type 0 where
  identity lowercase redact : Transformation

-- `approval_payload`: what the approval of a release binds
pub record ApprovalPayload : Type 0 where
  pub case_id : String
  pub owner : ExchangeParty
  pub recipient : ExchangeParty
  pub purpose : String
  pub fields : List String
  pub transformations : Dict Transformation
  pub source_versions : Dict ℕ
  pub expires_at : DateTime

-- The fields of the manifest, those that `approval_payload` collects in one record.
pub record ReleaseManifest : Type 0 where
  pub manifest_id : String
  pub terms : ApprovalPayload
  pub approval_id : String
  pub approved_payload_hash : String
  pub status : ReleaseStatus
  pub manifest_hash : String

-- `hash_payload`
pub record ManifestPayload : Type 0 where
  pub manifest_id : String
  pub terms : ApprovalPayload
  pub approval_id : String
  pub approved_payload_hash : String
  pub status : ReleaseStatus

abbrev pub manifest_payload : ReleaseManifest → ManifestPayload
manifest_payload m = record {
  manifest_id = m.manifest_id;
  terms = m.terms;
  approval_id = m.approval_id;
  approved_payload_hash = m.approved_payload_hash;
  status = m.status;
}

-- `"." in field`
abbrev has_dot : String → Bool
has_dot s = any (λ c. nat_eq c b'.') (codes s)

-- The bounds that the fields of the class declare.
unfoldable pub manifest_bounds : ReleaseManifest → Bool
manifest_bounds m =
    has_length 1 64 m.manifest_id
    && has_length 1 64 m.terms.case_id
    && has_length 1 240 m.terms.purpose
    && not (is_empty m.terms.fields)
    && not (is_empty m.terms.source_versions)
    && has_length 1 64 m.approval_id
    && is_hash m.approved_payload_hash

-- `transformations.get(field, "IDENTITY")`
abbrev pub transformation_of : Dict Transformation → String → Transformation
transformation_of ts name = elim (lookup name ts) [ none ↦ identity | some t ↦ t ]

-- `value.lower()` of a text; `lower` gives the JSON text of it, and nothing for a scalar that is
-- no text.
abbrev pub lowered : (String → Option String) → Value → Option Value
lowered lower (scalar s) = elim (lower s) [ none ↦ none | some t ↦ some (scalar t) ]
lowered lower (array xs) = none
lowered lower (object fs) = none

abbrev pub redacted : Value
redacted = scalar "\"[redacted]\""

abbrev pub transform : (String → Option String) → Transformation → Value → Result Value
transform lower identity v = ok v
transform lower redact v = ok redacted
transform lower lowercase v = elim (lowered lower v) [
  | none ↦ err (contract_violation "LOWERCASE transformation requires text")
  | some w ↦ ok w
]

-- `source[field]`
abbrev pub read : Fields → String → Result Value
read source name = elim (find name source) [ none ↦ err key_error | some v ↦ ok v ]

abbrev pub has_field : Fields → String → Bool
has_field source name = not (is_none (find name source))

-- The loop of `release`.
unfoldable pub select_fields :
    (String → Option String) → Dict Transformation → Fields → List String → Fields → Result Fields
select_fields lower ts source [] selected = ok selected
select_fields lower ts source (name ∷ names) selected = read source name >>= λ v.
    transform lower (transformation_of ts name) v >>= λ w.
    select_fields lower ts source names (set_field name w selected)

-- What the module takes from Python's library and from the canonical hash.
module _ (casefold : String → String) (lower : String → Option String)
    (approval_hash : ApprovalPayload → String) (manifest_hash : ManifestPayload → String) where
  unfoldable pub settle_manifest_hash : ReleaseManifest → String → Result ReleaseManifest
  settle_manifest_hash m expected =
      raise_if (not (m.manifest_hash == "") && not (m.manifest_hash == expected))
        (value_error "manifest_hash does not match the canonical manifest")
      >> ok (record m { manifest_hash = expected })

  -- The fields' bounds, and the tests of `validate_contract`.
  unfoldable pub contract_checks : ReleaseManifest → Result (Unit {0})
  unfolding manifest_bounds
  contract_checks m = do
    raise_if (not (manifest_bounds m)) (value_error "a field of the manifest is out of its bounds")
    cross_parties m.terms.owner m.terms.recipient
        "release recipient must be the other exchange party"
    require_zone m.terms.expires_at
    raise_if (not (nat_eq (length (set_of m.terms.fields)) (length m.terms.fields)))
        (value_error "release fields must be unique")
    raise_if (any (λ name. name == "" || has_dot name || private_key casefold name) m.terms.fields)
        (value_error "release fields must be safe top-level field names")
    raise_if (not (all (λ name. elem name m.terms.fields) (keys m.terms.transformations)))
        (value_error "transformations may reference only released fields")
    raise_if (any (λ version. ltb version 1) (values m.terms.source_versions))
        (value_error "source versions must be positive")
    raise_if (not (m.approved_payload_hash == approval_hash m.terms))
        (value_error "release approval does not bind the exact disclosure payload")

  -- `validate_contract`
  unfoldable pub validate_contract : ReleaseManifest → Result ReleaseManifest
  unfolding contract_checks settle_manifest_hash
  validate_contract m =
      contract_checks m >> settle_manifest_hash m (manifest_hash (manifest_payload m))

  -- `release`
  unfoldable pub release : ReleaseManifest → Fields → DateTime → Result Fields
  unfolding select_fields assert_public_entries
  release m source now = do
    require_zone now
    raise_if (not (is_active m.status))
        (contract_violation "release authorization has been revoked")
    raise_if (time_le m.terms.expires_at now)
        (contract_violation "release authorization has expired")
    raise_if (not (all (has_field source) m.terms.fields))
        (contract_violation "release source is missing approved fields")
    selected ← select_fields lower m.terms.transformations source m.terms.fields no_fields
    assert_public_entries casefold selected
    ok selected

  -- `revoke`
  unfoldable pub revoke : ReleaseManifest → Result ReleaseManifest
  unfolding validate_contract
  revoke m =
      if is_active m.status
      then validate_contract (record m { status = revoked; manifest_hash = "" })
      else ok m
