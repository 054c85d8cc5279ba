-- ===== src/Domain/Handoff.antt =====
-- python/domain/state_machines.py, `PaymentHandoffTransitionService`, and `PaymentHandoff` of
-- python/domain/models.py.
pub mod Laws
use sira_seil_cockroach_aws.Domain.Ids.{require_id, require_hash}
use sira_seil_cockroach_aws.Domain.Time.{DateTime, require_aware, time_le}
use sira_seil_cockroach_aws.Domain.Money.{Money}
use sira_seil_cockroach_aws.Domain.Enums.{PaymentHandoffStatus, ready, opened, expired, cancelled}
use sira_seil_cockroach_aws.Base.{
  ℕ, zero, suc, ◌+◌, ◌-◌, ◌*◌, ◌/◌, ◌%◌, ◌^◌, ◌≤◌, ◌<◌, String, ◌≡◌, refl, sym, ap, subst, ◌∙◌, ◌≢◌,
  ◌↔◌, ◌⊎◌, inl, inr, Bool, true, false, not, ◌&&◌, ◌||◌, Option, none, some, List, [], ◌∷◌, ◌++◌,
  map, arith, eq_iff, ltb, leb, nat_eq, ◌==◌, if◌then◌else◌, Bool-cases, Option-cases, is_none,
  some_path, text_cases, text_eq_self, length, select, any, all, is_empty, All, All-map, All-append,
  All-zip, elem, set_of, Distinct, elem-append, elem-set_of, length-set_of, set_of-Distinct,
  Distinct-set_of, elem_head, elem_tail, All_at, All-self, Error, Result, ◌>>=◌, ◌>>◌, raise_if,
  is_ok, Result-cases, >>=-eq-ok, raise_if-eq-ok, domain_validation, invalid_transition,
  exchange_conflict, value_error, invalid_operation, key_error, recursion_error, ok, err,
}

pub record PaymentHandoff : Type 0 where
  pub schema_version : String
  pub handoff_id : String
  pub organization_id : String
  pub purchase_intent_id : String
  pub approval_request_id : String
  pub intent_hash : String
  pub destination_url : String
  pub recipient : String
  pub amount : Money
  pub reference : String
  pub created_at : DateTime
  pub expires_at : DateTime
  pub status : PaymentHandoffStatus
  pub opened_at : Option DateTime
  pub handoff_hash : String

-- `PaymentHandoff.to_hash_payload`: the lifecycle fields are left out
pub record HandoffPayload : Type 0 where
  pub schema_version : String
  pub handoff_id : String
  pub organization_id : String
  pub purchase_intent_id : String
  pub approval_request_id : String
  pub intent_hash : String
  pub destination_url : String
  pub recipient : String
  pub amount : Money
  pub reference : String
  pub created_at : DateTime
  pub expires_at : DateTime

unfoldable pub handoff_payload : PaymentHandoff → HandoffPayload
handoff_payload h = record {
  schema_version = h.schema_version;
  handoff_id = h.handoff_id;
  organization_id = h.organization_id;
  purchase_intent_id = h.purchase_intent_id;
  approval_request_id = h.approval_request_id;
  intent_hash = h.intent_hash;
  destination_url = h.destination_url;
  recipient = h.recipient;
  amount = h.amount;
  reference = h.reference;
  created_at = h.created_at;
  expires_at = h.expires_at;
}

-- `status is PaymentHandoffStatus.OPENED`
abbrev pub is_opened : PaymentHandoffStatus → Bool
is_opened opened = true
is_opened _ = false

-- The tests on `opened_at`, by the status.
unfoldable pub check_opened : Bool → DateTime → Option DateTime → Result (Unit {0})
check_opened true expires none = err (domain_validation "opened payment handoff requires opened_at")
check_opened true expires (some at) =
    require_aware at
    >> raise_if (time_le expires at) (domain_validation "expired payment handoff cannot be opened")
check_opened false expires none = ok tt
check_opened false expires (some at) =
    require_aware at >> err (domain_validation "only an opened payment handoff may have opened_at")

-- `target in cls._allowed[handoff.status]`
abbrev pub may_become : PaymentHandoffStatus → PaymentHandoffStatus → Bool
may_become ready opened = true
may_become ready expired = true
may_become ready cancelled = true
may_become _ _ = false

-- What the module takes from Python's library and from the canonical hash: whether a text is blank
-- once stripped, whether a URL is HTTPS with a host and with no credentials or fragment, and the
-- content hash of a payload.
module _ (is_blank : String → Bool) (is_safe_url : String → Bool)
    (hash : HandoffPayload → String) where
  unfoldable pub settle_handoff_hash : PaymentHandoff → String → Result PaymentHandoff
  settle_handoff_hash h computed =
      if h.handoff_hash == ""
      then ok (record h { handoff_hash = computed })
      else require_hash h.handoff_hash
        >> raise_if (not (h.handoff_hash == computed))
            (domain_validation "handoff_hash does not match the canonical payload")
        >> ok h

  -- `PaymentHandoff.__post_init__`
  unfoldable pub check_handoff : PaymentHandoff → Result PaymentHandoff
  unfolding check_opened settle_handoff_hash
  check_handoff h = do
    require_id h.handoff_id
    require_id h.organization_id
    require_id h.purchase_intent_id
    require_id h.approval_request_id
    require_hash h.intent_hash
    raise_if (h.schema_version == "") (domain_validation "schema_version is required")
    raise_if (is_blank h.recipient || is_blank h.reference)
        (domain_validation "payment handoff recipient and reference are required")
    raise_if (not (is_safe_url h.destination_url)) (
        domain_validation
          "payment handoff destination must be an HTTPS URL without credentials or fragment")
    require_aware h.created_at
    require_aware h.expires_at
    raise_if (time_le h.expires_at h.created_at)
        (domain_validation "payment handoff must expire after it is created")
    check_opened (is_opened h.status) h.expires_at h.opened_at
    settle_handoff_hash h (hash (handoff_payload h))

  -- `replace(handoff, …)`
  abbrev pub moved : PaymentHandoff → PaymentHandoffStatus → DateTime → PaymentHandoff
  moved h target at =
      if is_opened target
      then record h { status = target; opened_at = some at }
      else record h { status = target }

  -- `PaymentHandoffTransitionService.transition`; `replace` runs `__post_init__` again
  unfoldable pub transition :
      PaymentHandoff → PaymentHandoffStatus → DateTime → Result PaymentHandoff
  unfolding check_handoff
  transition h target at = do
    require_aware at
    raise_if (not (may_become h.status target))
        (invalid_transition "payment handoff cannot transition")
    raise_if (is_opened target && time_le h.expires_at at)
        (invalid_transition "expired payment handoff cannot be opened")
    check_handoff (moved h target at)
