-- ===== src/Domain/Handoff/Laws.antt =====
-- A handoff is opened at most once, in time, and for what was authorized.
use sira_seil_cockroach_aws.Domain.Time.{DateTime, require_aware}
use sira_seil_cockroach_aws.Domain.Enums.{PaymentHandoffStatus, ready, opened}
use sira_seil_cockroach_aws.Domain.Handoff.{
  PaymentHandoff, HandoffPayload, handoff_payload, is_opened, check_opened, may_become, moved,
  settle_handoff_hash, check_handoff, transition,
}
use sira_seil_cockroach_aws.Base.{
  ◌<◌, String, ◌≡◌, ap, ◌∙◌, Bool, true, some, arith, eq_iff, invalid_transition, ok, err,
}

module _ (is_blank : String → Bool) (is_safe_url : String → Bool)
    (hash : HandoffPayload → String) where
  -- The constructor returns its argument, with its hash if it had none.
  check_handoff_result :
      (h k : PaymentHandoff)
      → check_handoff is_blank is_safe_url hash h ≡ ok k
      → (k ≡ record h { handoff_hash = k.handoff_hash })
        × (k.handoff_hash ≡ hash (handoff_payload k))
        × (check_opened (is_opened h.status) h.expires_at h.opened_at ≡ ok tt)
  unfolding check_handoff settle_handoff_hash handoff_payload
  check_handoff_result h k e =
      (ground arith, ground (arith, eq_iff h.handoff_hash (hash (handoff_payload h))), ground arith)

  -- A transition that succeeds starts at READY and changes only the lifecycle: what the handoff
  -- authorizes, and with it the hash, stays.
  pub transition_keeps :
      (h k : PaymentHandoff) (target : PaymentHandoffStatus) (at : DateTime)
      → transition is_blank is_safe_url hash h target at ≡ ok k
      → (h.status ≡ ready)
        × (k.status ≡ target)
        × (handoff_payload k ≡ handoff_payload h)
        × (k.handoff_hash ≡ hash (handoff_payload h))
  unfolding transition handoff_payload
  transition_keeps h k target at e =
      let built : check_handoff is_blank is_safe_url hash
            (moved is_blank is_safe_url hash h target at)
          ≡ ok k =
        ground arith in
      let (same, hashed, shown) =
        check_handoff_result (moved is_blank is_safe_url hash h target at) k built in
      let payload : handoff_payload k ≡ handoff_payload h = ground arith in
      (ground arith, ground arith, payload, hashed ∙ ap hash payload)

  -- A transition to OPENED that succeeds records the time, which is before the expiry.
  pub opened_in_time :
      (h k : PaymentHandoff) (at : DateTime)
      → transition is_blank is_safe_url hash h opened at ≡ ok k
      → (k.opened_at ≡ some at) × (at.instant < h.expires_at.instant)
  unfolding transition
  opened_in_time h k at e =
      let built : check_handoff is_blank is_safe_url hash
            (moved is_blank is_safe_url hash h opened at)
          ≡ ok k =
        ground arith in
      let (same, hashed, shown) =
        check_handoff_result (moved is_blank is_safe_url hash h opened at) k built in
      (ground arith, ground arith)

  allowed_of_ok :
      (h k : PaymentHandoff) (target : PaymentHandoffStatus) (at : DateTime)
      → transition is_blank is_safe_url hash h target at ≡ ok k
      → may_become h.status target ≡ true
  unfolding transition
  allowed_of_ok h k target at e = ground arith

  spent_refuses :
      (k : PaymentHandoff) (s target next : PaymentHandoffStatus) (later : DateTime)
      → may_become s target ≡ true
      → k.status ≡ target
      → later.aware ≡ true
      → transition is_blank is_safe_url hash k next later
        ≡ err (invalid_transition "payment handoff cannot transition")
  unfolding transition require_aware
  spent_refuses k s target next later allowed now aware = ground arith

  -- At most one transition of a handoff succeeds: after the first, every other is refused, at any
  -- time that has a time zone.
  pub transition_once :
      (h k : PaymentHandoff) (target next : PaymentHandoffStatus) (at later : DateTime)
      → later.aware ≡ true
      → transition is_blank is_safe_url hash h target at ≡ ok k
      → transition is_blank is_safe_url hash k next later
        ≡ err (invalid_transition "payment handoff cannot transition")
  transition_once h k target next at later aware e =
      spent_refuses k h.status target next later (allowed_of_ok h k target at e)
        (transition_keeps h k target at e).1 aware
