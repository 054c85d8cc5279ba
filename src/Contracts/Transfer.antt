-- ===== src/Contracts/Transfer.antt =====
-- python/domain/exchange_contracts.py: `ExchangeEnvelope`, `ExchangeReceipt` and
-- `ExchangePaymentHandoff`, which take a disclosure and an approved offer to the other party.
pub mod Opening
use sira_seil_cockroach_aws.Domain.Ids.{is_hash}
use sira_seil_cockroach_aws.Domain.Json.{Fields}
use sira_seil_cockroach_aws.Domain.Money.{is_currency}
use sira_seil_cockroach_aws.Domain.Time.{DateTime, time_le}
use sira_seil_cockroach_aws.Exchange.{ExchangeParty, has_length}
use sira_seil_cockroach_aws.Contracts.{
  require_zone, participant, cross_parties, assert_public_entries,
}
use sira_seil_cockroach_aws.Contracts.Offer.{digits_20}
use sira_seil_cockroach_aws.Base.{
  ℕ, zero, suc, ◌+◌, ◌-◌, ◌*◌, ◌/◌, ◌%◌, ◌^◌, ◌≤◌, ◌<◌, String, ◌≡◌, refl, sym, ap, subst, ◌∙◌, ◌≢◌,
  ◌↔◌, ◌⊎◌, inl, inr, Bool, true, false, not, ◌&&◌, ◌||◌, Option, none, some, List, [], ◌∷◌, ◌++◌,
  map, arith, eq_iff, ltb, leb, nat_eq, ◌==◌, if◌then◌else◌, Bool-cases, Option-cases, is_none,
  some_path, text_cases, text_eq_self, not-false, both, either_false, same_text, length, select,
  any, all, is_empty, All, All-map, All-append, All-zip, elem, set_of, Distinct, elem-append,
  elem-set_of, length-set_of, set_of-Distinct, Distinct-set_of, elem_head, elem_tail, All_at,
  All-self, Error, Result, is_ok, ◌>>=◌, Result-cases, ok_path, err_path, >>=-eq-ok, raise_if, ◌>>◌,
  raise_if-eq-ok, raise_if_ok, domain_validation, invalid_transition, exchange_conflict,
  contract_violation, value_error, invalid_operation, key_error, attribute_error, recursion_error,
  zero_division, ok, err,
}

-- The fields of an envelope that its hash is of.
pub record EnvelopeContent : Type 0 where
  pub envelope_id : String
  pub case_id : String
  pub sender : ExchangeParty
  pub recipient : ExchangeParty
  pub sequence : ℕ
  pub causation_id : String
  pub manifest_hash : String
  pub payload : Fields
  pub expires_at : DateTime

pub record ExchangeEnvelope : Type 0 where
  pub content : EnvelopeContent
  pub payload_hash : String

unfoldable pub envelope_bounds : EnvelopeContent → Bool
envelope_bounds c =
    has_length 1 64 c.envelope_id
    && has_length 1 64 c.case_id
    && leb 1 c.sequence
    && has_length 1 64 c.causation_id
    && is_hash c.manifest_hash

-- `validate_envelope`; the hash raises on a payload with a binary float
unfoldable pub validate_envelope :
    (String → String)
    → (EnvelopeContent → Result String)
    → ExchangeEnvelope
    → Result ExchangeEnvelope
unfolding envelope_bounds assert_public_entries
validate_envelope casefold hash e = do
  raise_if (not (envelope_bounds e.content))
      (value_error "a field of the envelope is out of its bounds")
  cross_parties e.content.sender e.content.recipient "exchange envelope must cross parties"
  require_zone e.content.expires_at
  assert_public_entries casefold e.content.payload
  expected ← hash e.content
  raise_if (not (e.payload_hash == "") && not (e.payload_hash == expected))
      (value_error "payload_hash does not match the exchange envelope")
  ok (record e { payload_hash = expected })

pub record ExchangeReceipt : Type 0 where
  pub receipt_id : String
  pub envelope_id : String
  pub case_id : String
  pub recipient : ExchangeParty
  pub envelope_hash : String
  pub received_at : DateTime

-- `validate_receipt`
unfoldable pub validate_receipt : ExchangeReceipt → Result ExchangeReceipt
validate_receipt r = do
  raise_if
      (not (
        has_length 1 64 r.receipt_id
        && has_length 1 64 r.envelope_id
        && has_length 1 64 r.case_id
        && is_hash r.envelope_hash))
      (value_error "a field of the receipt is out of its bounds")
  participant r.recipient
  require_zone r.received_at
  ok r

pub data ExchangeHandoffStatus : Type 0 where
  ready opened expired cancelled : ExchangeHandoffStatus

abbrev pub is_ready : ExchangeHandoffStatus → Bool
is_ready ready = true
is_ready _ = false

abbrev pub is_opened : ExchangeHandoffStatus → Bool
is_opened opened = true
is_opened _ = false

-- What a handoff asks to pay: its fields but for the lifecycle and the hash, as `hash_payload`
-- leaves them. The amount is in cents.
pub record PaymentTerms : Type 0 where
  pub handoff_id : String
  pub case_id : String
  pub offer_hash : String
  pub approval_hash : String
  pub destination_url : String
  pub recipient : String
  pub amount : ℕ
  pub currency : String
  pub reference : String
  pub created_at : DateTime
  pub expires_at : DateTime

pub record ExchangePaymentHandoff : Type 0 where
  pub terms : PaymentTerms
  pub status : ExchangeHandoffStatus
  pub opened_at : Option DateTime
  pub handoff_hash : String

unfoldable pub payment_bounds : PaymentTerms → Bool
payment_bounds t =
    has_length 1 64 t.handoff_id
    && has_length 1 64 t.case_id
    && is_hash t.offer_hash
    && is_hash t.approval_hash
    && has_length 1 2000 t.destination_url
    && has_length 1 200 t.recipient
    && ltb t.amount digits_20
    && is_currency t.currency
    && has_length 1 160 t.reference

-- The tests on `opened_at`, by whether the status is OPENED.
abbrev pub check_opening : Bool → Option DateTime → Result (Unit {0})
check_opening true none = err (value_error "opened exchange handoff requires opened_at")
check_opening true (some at) = require_zone at
check_opening false none = ok tt
check_opening false (some at) =
    require_zone at >> err (value_error "only an opened exchange handoff may have opened_at")

-- `is_safe_url` says of a URL, as `urlsplit` takes it apart, that it is HTTPS with a host and with no
-- credentials and no fragment; `hash` is the content hash.
module _ (is_safe_url : String → Bool) (hash : PaymentTerms → String) where
  -- The fields' bounds, and the tests of `validate_handoff` on what the hash is of.
  unfoldable pub payment_checks : PaymentTerms → Result (Unit {0})
  unfolding payment_bounds
  payment_checks t = do
    raise_if (not (payment_bounds t)) (value_error "a field of the handoff is out of its bounds")
    raise_if (not (is_safe_url t.destination_url))
        (value_error "exchange handoff destination must be HTTPS without credentials or fragment")
    require_zone t.created_at
    require_zone t.expires_at
    raise_if (time_le t.expires_at t.created_at)
        (value_error "exchange handoff must expire after creation")

  -- `validate_handoff`
  unfoldable pub validate_handoff : ExchangePaymentHandoff → Result ExchangePaymentHandoff
  unfolding payment_checks
  validate_handoff h =
      payment_checks h.terms
      >> (check_opening (is_opened h.status) h.opened_at
          >> (raise_if (not (h.handoff_hash == "") && not (h.handoff_hash == hash h.terms))
                (value_error "handoff_hash does not match the canonical exchange handoff")
              >> ok (record h { handoff_hash = hash h.terms })))

  -- `open`
  unfoldable pub open_handoff : ExchangePaymentHandoff → DateTime → Result ExchangePaymentHandoff
  unfolding validate_handoff
  open_handoff h now =
      require_zone now
      >> (if is_opened h.status
          then ok h
          else raise_if (not (is_ready h.status) || time_le h.terms.expires_at now)
              (contract_violation "exchange handoff is not openable")
            >> validate_handoff
                (record h { status = opened; opened_at = some now; handoff_hash = "" }))
