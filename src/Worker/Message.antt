-- ===== src/Worker/Message.antt =====
-- services/worker/sira_worker/queue_consumer.py: the messages of the queue.
use sira_seil_cockroach_aws.Base.Order.{codes, begins}
use sira_seil_cockroach_aws.Domain.Ids.{is_alphanumeric, is_hex, after}
use sira_seil_cockroach_aws.Exchange.{has_length}
use sira_seil_cockroach_aws.Base.{
  ℕ, String, Bool, true, false, not, ◌&&◌, ◌||◌, Option, none, some, nat_eq, ◌==◌, is_none, length,
  all, Result, raise_if, ◌>>◌, value_error, ok,
}

-- `f"{a}{b}"`
abbrev pub join : String → String → String
join String.[] t = t
join (String.◌∷◌ c s) t = String.◌∷◌ c (join s t)

-- ^<prefix>[a-f0-9]{32}$
unfoldable pub is_hex_id : String → String → Bool
unfolding is_hex
is_hex_id prefix s = elim (after (codes prefix) (codes s)) [
  | none ↦ false
  | some rest ↦ all is_hex rest && nat_eq (length rest) 32
]

-- ^[A-Za-z0-9_-]{1,hi}$
unfoldable pub is_scope : ℕ → String → Bool
unfolding is_alphanumeric
is_scope hi s =
    has_length 1 hi s && all (λ c. is_alphanumeric c || nat_eq c b'_' || nat_eq c b'-') (codes s)

-- `QualificationPayload`
pub record Payload : Type 0 where
  pub mission_id : String
  pub trace_id : String
  pub organization_id : String
  pub reason : Option String
  pub product_id : Option String
  pub replacement_attempt_id : Option String

-- `QualificationEnvelope`
pub record Envelope : Type 0 where
  pub schema_version : ℕ
  pub message_id : String
  pub organization_id : String
  pub aggregate_type : String
  pub aggregate_id : String
  pub event_type : String
  pub event_key : String
  pub payload : Payload
  pub occurred_at : String

-- A bound on a field that may be None.
abbrev pub optional : (String → Bool) → Option String → Bool
optional p none = true
optional p (some s) = p s

unfoldable pub payload_bounds : Payload → Bool
unfolding is_hex_id is_scope
payload_bounds p =
    is_hex_id "qmission_" p.mission_id
    && has_length 1 128 p.trace_id
    && is_scope 48 p.organization_id
    && optional (λ s. s == "ACTIVE_PRODUCT_BUNDLE_CHANGED") p.reason
    && optional (is_scope 64) p.product_id
    && optional (is_hex_id "qattempt_") p.replacement_attempt_id

-- `replacement_metadata_is_complete`: all of the three, or none of them
abbrev pub is_complete : Payload → Bool
is_complete p =
    (is_none p.reason && is_none p.product_id && is_none p.replacement_attempt_id)
    || (not (is_none p.reason)
        && not (is_none p.product_id)
        && not (is_none p.replacement_attempt_id))

unfoldable pub envelope_bounds : Envelope → Bool
unfolding is_hex_id is_scope
envelope_bounds e =
    nat_eq e.schema_version 1
    && has_length 1 64 e.message_id
    && is_scope 48 e.organization_id
    && e.aggregate_type == "QUALIFICATION_MISSION"
    && is_hex_id "qmission_" e.aggregate_id
    && e.event_type == "QUALIFICATION_MISSION_READY"
    && has_length 1 255 e.event_key
    && has_length 1 64 e.occurred_at

-- `f"qualification-mission-ready:{self.aggregate_id}"`
abbrev pub base_key : Envelope → String
base_key e = join "qualification-mission-ready:" e.aggregate_id

-- The validation of the envelope and of its payload, `consistent_scope` last.
unfoldable pub validate_message : Envelope → Result Envelope
unfolding payload_bounds envelope_bounds
validate_message e = do
  raise_if (not (payload_bounds e.payload && envelope_bounds e))
      (value_error "a field of the message is out of its bounds")
  raise_if (not (is_complete e.payload))
      (value_error "bundle replacement metadata must be complete")
  raise_if (not (e.organization_id == e.payload.organization_id))
      (value_error "queue envelope organization scope is inconsistent")
  raise_if (not (e.aggregate_id == e.payload.mission_id))
      (value_error "queue envelope mission identity is inconsistent")
  raise_if
      (not (e.event_key == base_key e)
        && not (begins (codes (join (base_key e) ":bundle:")) (codes e.event_key)))
      (value_error "queue envelope event key is inconsistent")
  ok e
