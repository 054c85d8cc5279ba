-- ===== src/Domain/Publication.antt =====
-- python/domain/publication.py: what a buyer's brief and a seller's pack let out, by default nothing.
--
-- `lower` is `str.lower`. A path of `forbidden_paths` is kept as its steps, and not as their text.
mod Copy
mod Kept
mod Steps
mod Tests
mod Publishable
mod Published
mod Refused
use sira_seil_cockroach_aws.Base.Order.{occurs, codes, text_le}
use sira_seil_cockroach_aws.Base.Sort.{sorted}
use Prim.Native.Char.{Char, code}
use sira_seil_cockroach_aws.Domain.Json.{
  find, set_field, Value, scalar, array, object, Items, no_items, item, Fields, no_fields, field,
}
use sira_seil_cockroach_aws.Base.{
  ℕ, zero, suc, ◌+◌, ◌-◌, ◌*◌, ◌/◌, ◌%◌, ◌^◌, ◌≤◌, ◌<◌, String, ◌≡◌, refl, sym, ap, subst, ◌∙◌, ◌≢◌,
  ◌↔◌, ◌⊎◌, inl, inr, Bool, true, false, not, ◌&&◌, ◌||◌, Option, none, some, List, [], ◌∷◌, ◌++◌,
  map, arith, eq_iff, ltb, leb, nat_eq, ◌==◌, if◌then◌else◌, Bool-cases, Option-cases, is_none,
  some_path, text_cases, text_eq_self, not-false, both, length, select, any, all, is_empty, All,
  All-map, All-append, All-zip, elem, set_of, Distinct, elem-append, elem-set_of, length-set_of,
  set_of-Distinct, Distinct-set_of, elem_head, elem_tail, All_at, All-self, Error, Result, is_ok,
  ◌>>=◌, Result-cases, ok_path, err_path, >>=-eq-ok, raise_if, ◌>>◌, raise_if-eq-ok,
  domain_validation, invalid_transition, exchange_conflict, value_error, invalid_operation,
  key_error, attribute_error, recursion_error, zero_division, ok, err,
}

-- `DEFAULT_REQUIREMENT_BRIEF_ALLOWLIST`
abbrev pub requirement_brief_allowlist : List String
requirement_brief_allowlist =
    "schema_version" ∷ "requirement_brief_id" ∷ "request_id" ∷ "version" ∷ "visibility"
    ∷ "category_id" ∷ "jtbd_id" ∷ "intent" ∷ "desired_outcome" ∷ "desired_outcome.metric"
    ∷ "desired_outcome.target" ∷ "desired_outcome.operator" ∷ "desired_outcome.checkpoint_days"
    ∷ "seat_count" ∷ "deadline" ∷ "region" ∷ "currency" ∷ "meeting_platforms"
    ∷ "required_capabilities" ∷ "workflow_requirements" ∷ "privacy_requirements"
    ∷ "privacy_requirements.customer_training_allowed" ∷ "privacy_requirements.residency"
    ∷ "privacy_requirements.retention" ∷ "privacy_requirements.recording_notice_required"
    ∷ "privacy_requirements.source_links_required" ∷ "identity_requirements"
    ∷ "integration_requirements" ∷ "implementation_constraints" ∷ "disclosed_stack_interfaces" ∷ []

-- `DEFAULT_PACK_PUBLICATION_ALLOWLIST`
abbrev pub pack_publication_allowlist : List String
pack_publication_allowlist =
    "schema_version" ∷ "pack_id" ∷ "version" ∷ "status" ∷ "seller_id" ∷ "product_id" ∷ "offer_ids"
    ∷ "category_ids" ∷ "jtbd_ids" ∷ "identity" ∷ "jobs_and_segments" ∷ "capabilities"
    ∷ "requirements" ∷ "compatibility" ∷ "security_privacy" ∷ "deployment" ∷ "commercial"
    ∷ "contract" ∷ "facts" ∷ "fit_rules" ∷ "anti_fit_rules" ∷ "dependency_rules"
    ∷ "positioning_angles" ∷ "claims" ∷ "fulfillment_spec" ∷ "merchant_chain" ∷ "operations"
    ∷ "learning_policy" ∷ "published_at" ∷ "supersedes_version" ∷ "content_hash" ∷ []

-- `_DENIED_SEGMENTS`
abbrev pub denied_segments : List String
denied_segments =
    "organization_name" ∷ "organization_id" ∷ "company_name" ∷ "company_identity" ∷ "buyer_identity"
    ∷ "hidden_budget" ∷ "hidden_maximum" ∷ "maximum_budget" ∷ "budget_envelope" ∷ "payer_identity"
    ∷ "employee" ∷ "employees" ∷ "contacts" ∷ "contact_details" ∷ "email" ∷ "phone"
    ∷ "private_failures" ∷ "prior_private_failures" ∷ "competing_bids" ∷ "competing_offers"
    ∷ "competitor_list" ∷ "unrestricted_stackfile" ∷ "raw_buyer_passport" ∷ "roadmap_notes"
    ∷ "negotiation_bounds" ∷ "seller_floor" ∷ "fulfillment_credentials" ∷ "provider_credentials"
    ∷ "source_material" ∷ "compilation_history" ∷ []

-- `_DENIED_MARKERS`
abbrev pub denied_markers : List String
denied_markers =
    "secret" ∷ "password" ∷ "credential" ∷ "dynamic_cvv" ∷ "hidden_budget" ∷ "hidden_maximum"
    ∷ "budget_envelope" ∷ "roadmap" ∷ "negotiation_bound" ∷ "seller_floor" ∷ "service_account"
    ∷ "private_failure" ∷ "competing_bid" ∷ "competing_offer" ∷ "competitor_list"
    ∷ "source_material" ∷ "compilation_history" ∷ "unpublished_constraint" ∷ []

-- `value.split(".")`, which has a first segment always
abbrev split_onto : Bool → Char → String × List String → String × List String
split_onto true c (first, rest) = ("", first ∷ rest)
split_onto false c (first, rest) = (String.◌∷◌ c first, rest)

abbrev pub split_path : String → String × List String
split_path String.[] = ("", [])
split_path (String.◌∷◌ c s) = split_onto (nat_eq (code c) b'.') c (split_path s)

-- The value at the end of the segments, where each of them is a key of an object.
abbrev pub get : List String → Value → Option Value
get [] v = some v
get (k ∷ path) (scalar s) = none
get (k ∷ path) (array xs) = none
get (k ∷ path) (object fs) = elim (find k fs) [ none ↦ none | some v ↦ get path v ]

-- The object that `setdefault(key, {})` returns; the next call fails on any other value.
abbrev pub enter : Option Value → Result Fields
enter none = ok no_fields
enter (some (object fs)) = ok fs
enter (some _) = err attribute_error

abbrev pub put : String → List String → Value → Fields → Result Fields
put k [] v fs = ok (set_field k v fs)
put k (j ∷ path) v fs =
    enter (find k fs) >>= λ sub. put j path v sub >>= λ done. ok (set_field k (object done) fs)

-- `_copy_path`
abbrev pub copy_at : Fields → Fields → String × List String → Result Fields
copy_at source target (k, path) = elim (get (k ∷ path) (object source)) [
  | none ↦ ok target
  | some v ↦ put k path v target
]

unfoldable pub copy_path : Fields → Fields → String → Result Fields
copy_path source target path = copy_at source target (split_path path)

-- A step of a path that `forbidden_paths` reports.
pub data Step : Type 0 where
  at_key : String → Step
  at_index : ℕ → Step

abbrev pub prohibited_field : Error
prohibited_field = domain_validation "allowlist contains prohibited field"

abbrev pub denied_fields : Error
denied_fields = domain_validation "publication payload contains denied fields"

module _ (lower : String → String) where
  -- `_is_denied_segment`
  unfoldable pub is_denied_segment : String → Bool
  is_denied_segment value =
      let lowered = lower value in
      elem lowered denied_segments
      || any (λ marker. occurs (codes marker) (codes lowered)) denied_markers

  unfoldable mutual
    -- The paths below the prefix, which is kept in reverse.
    pub forbidden_paths : Value → List Step → List (List Step)
    forbidden_paths (scalar s) prefix = []
    forbidden_paths (array xs) prefix = forbidden_items xs prefix 0
    forbidden_paths (object fs) prefix = forbidden_entries fs prefix

    pub forbidden_items : Items → List Step → ℕ → List (List Step)
    forbidden_items no_items prefix index = []
    forbidden_items (item x xs) prefix index =
        forbidden_paths x (at_index index ∷ prefix) ++ forbidden_items xs prefix (suc index)

    pub forbidden_entries : Fields → List Step → List (List Step)
    forbidden_entries no_fields prefix = []
    forbidden_entries (field k v fs) prefix =
        let path = at_key k ∷ prefix in
        let below = forbidden_paths v path ++ forbidden_entries fs prefix in
        if is_denied_segment (lower k) then path ∷ below else below

  unfoldable pub assert_public_payload : Fields → Result (Unit {0})
  unfolding forbidden_paths
  assert_public_payload payload =
      raise_if (not (is_empty (forbidden_paths (object payload) []))) denied_fields

  abbrev pub is_prohibited : String × List String → Bool
  is_prohibited (first, rest) = is_denied_segment first || any is_denied_segment rest

  -- The loop of `_allowlisted_copy`.
  unfoldable pub copy_allowed : Fields → Fields → List String → Result Fields
  copy_allowed source output [] = ok output
  copy_allowed source output (path ∷ paths) =
      raise_if (is_prohibited (split_path path)) prohibited_field
      >> copy_path source output path
      >>= λ next. copy_allowed source next paths

  unfoldable pub allowlisted_copy : Fields → List String → Result Fields
  unfolding copy_allowed assert_public_payload
  allowlisted_copy source allowed_paths =
      copy_allowed source no_fields (sorted text_le (set_of allowed_paths)) >>= λ output.
      assert_public_payload output >> ok output

  unfoldable pub sanitize_requirement_brief : Fields → List String → Result Fields
  unfolding allowlisted_copy
  sanitize_requirement_brief purchase_brief allowlist = allowlisted_copy purchase_brief allowlist

  unfoldable pub publish_seil_pack : Fields → List String → Result Fields
  unfolding allowlisted_copy
  publish_seil_pack product_passport allowlist = allowlisted_copy product_passport allowlist
