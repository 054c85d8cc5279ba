-- ===== src/Domain/Tests.antt =====
-- Runs of the approval, handoff and money code at concrete inputs.
use sira_seil_cockroach_aws.Domain.Ids.{require_id, is_id, is_hash, require_hash}
use sira_seil_cockroach_aws.Domain.Time.{DateTime, require_aware}
use sira_seil_cockroach_aws.Domain.Enums.{ApprovalStatus, pending, PaymentHandoffStatus, ready}
use sira_seil_cockroach_aws.Domain.Approval.{ApprovalBinding, reconcile_payload, approve_exact}
use sira_seil_cockroach_aws.Domain.Approval.Laws.{
  history, approve_exact_iff, approve_after_reconcile,
}
use sira_seil_cockroach_aws.Domain.Handoff.{
  PaymentHandoff, HandoffPayload, handoff_payload, transition,
}
use sira_seil_cockroach_aws.Domain.Handoff.Laws.{transition_keeps}
use sira_seil_cockroach_aws.Domain.Money.{Money, Decimal, coerce_decimal, digits_28}
use sira_seil_cockroach_aws.Domain.Money.Laws.{coerce_decimal_iff}
use sira_seil_cockroach_aws.Base.{
  ℕ, ◌*◌, ◌^◌, ◌<◌, String, ◌≡◌, refl, ◌≢◌, ◌↔◌, ◌⊎◌, Bool, true, false, none, some, [], ◌∷◌, ◌==◌,
  ok,
}

abbrev zeros : String
zeros = "sha256:0000000000000000000000000000000000000000000000000000000000000000"

abbrev ones : String
ones = "sha256:1111111111111111111111111111111111111111111111111111111111111111"

abbrev request : ApprovalBinding
request = record { approval_request_id = "approval-1"; intent_hash = zeros; status = pending }

approve_exact_iff_example :
    (approve_exact request zeros ≡ ok (record request { status = ApprovalStatus.approved })) ↔ (
      (ApprovalStatus.pending ≡ pending)
      × (zeros ≡ zeros)
      × (record request { status = ApprovalStatus.approved }
          ≡ record request { status = ApprovalStatus.approved }))
unfolding approve_exact is_id is_hash
approve_exact_iff_example =
    approve_exact_iff request (record request { status = ApprovalStatus.approved }) zeros
      (refl, refl)

unmade : ApprovalStatus.pending ≢ ApprovalStatus.not_requested
unmade e = let clash : ApprovalStatus.pending ≡ ApprovalStatus.not_requested = e in cc

approve_after_reconcile_example : request.intent_hash ≡ zeros
unfolding reconcile_payload require_hash is_hash history
    sira_seil_cockroach_aws.Domain.Approval.transition
approve_after_reconcile_example =
    approve_after_reconcile request request zeros (ApprovalStatus.approved ∷ []) refl unmade refl

abbrev time : ℕ → DateTime
time n = record { aware = true; instant = n }

abbrev price : Money
price = record { amount = 1999; currency = "USD" }

abbrev handoff : PaymentHandoff
handoff = record {
  schema_version = "1";
  handoff_id = "handoff-1";
  organization_id = "org-1";
  purchase_intent_id = "intent-1";
  approval_request_id = "approval-1";
  intent_hash = zeros;
  destination_url = "https://pay.example/1";
  recipient = "Vendor";
  amount = price;
  reference = "ref-1";
  created_at = time 10;
  expires_at = time 90;
  status = ready;
  opened_at = none;
  handoff_hash = zeros;
}

abbrev never_blank : String → Bool
never_blank s = s == ""

abbrev is_https : String → Bool
is_https s = s == "https://pay.example/1"

abbrev hash : HandoffPayload → String
hash p = zeros

abbrev handoff_opened : PaymentHandoff
handoff_opened = record handoff { status = PaymentHandoffStatus.opened; opened_at = some (time 20) }

transition_keeps_example :
    (ready ≡ ready)
    × (PaymentHandoffStatus.opened ≡ PaymentHandoffStatus.opened)
    × (handoff_payload handoff_opened ≡ handoff_payload handoff)
    × (zeros ≡ zeros)
unfolding transition handoff_payload require_aware require_id require_hash
transition_keeps_example =
    transition_keeps never_blank is_https hash handoff handoff_opened PaymentHandoffStatus.opened
      (time 20) refl

-- 19.990 is 1999 cents.
abbrev amount : Decimal
amount = record { negative = false; coefficient = 19990; places = 3 }

coerce_decimal_iff_example : (coerce_decimal (some amount) ≡ ok 1999) ↔ (
    ((amount.negative ≡ false) ⊎ (amount.coefficient ≡ 0))
    × (1999 * 10 ^ amount.places ≡ amount.coefficient * 100)
    × (1999 < digits_28))
coerce_decimal_iff_example = coerce_decimal_iff amount 1999
