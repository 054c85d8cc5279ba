-- ===== src/Worker/Tests.antt =====
-- The worker on a concrete message.
use sira_seil_cockroach_aws.Worker.Message.{Envelope}
use sira_seil_cockroach_aws.Worker.Queue.{
  Store, Consumed, RunResult, Message, process, read_envelope, find_receipt, completed_result,
}
use sira_seil_cockroach_aws.Worker.Redelivery.{redelivery}
use sira_seil_cockroach_aws.Domain.Json.{no_fields}
use sira_seil_cockroach_aws.Worker.Outbox.{OutboxEvent, Outbox, dispatch_batch}
use sira_seil_cockroach_aws.Worker.Delivery.{RowsEvolve, Grows, dispatch_batch_lem}
use sira_seil_cockroach_aws.Base.{
  ℕ, String, ◌≡◌, refl, subst, true, false, Option, none, some, [], ◌∷◌, ◌==◌, Result, ok_path,
  raise_if, runtime_error, ok,
}

abbrev mission_id : String
mission_id = "qmission_0123456789abcdef0123456789abcdef"

abbrev ready_message : Envelope
ready_message = record {
  schema_version = 1;
  message_id = "msg-1";
  organization_id = "org-1";
  aggregate_type = "QUALIFICATION_MISSION";
  aggregate_id = mission_id;
  event_type = "QUALIFICATION_MISSION_READY";
  event_key = "qualification-mission-ready:qmission_0123456789abcdef0123456789abcdef";
  payload = record {
    mission_id = mission_id;
    trace_id = "trace-1";
    organization_id = "org-1";
    reason = none;
    product_id = none;
    replacement_attempt_id = none;
  };
  occurred_at = "2026-01-01";
}

abbrev digest : String → String
digest body = body

abbrev parse : String → Option Envelope
parse body = some ready_message

-- A worker that decides every mission.
abbrev run_mission : String → String → Store → Store × Result RunResult
run_mission o m s = (s, ok (record { state = "COMPLETED"; decision_id = some "decision-1" }))

abbrev delivered : Message
delivered = record { body = "body"; body_sha256 = "body" }

abbrev before : Store
before = record {
  receipts = [];
  missions = record { organization_id = "org-1"; id = mission_id; state = "READY" } ∷ [];
  decisions = [];
  runs = [];
}

abbrev after_once : Store
after_once = record before {
  receipts =
      record {
        organization_id = "org-1";
        message_id = "msg-1";
        payload_hash = "sha256:body";
        result_ref = "decision-1";
      }
      ∷ [];
  runs = mission_id ∷ [];
}

-- A later store, with the receipt of another message.
abbrev later : Store
later = record after_once {
  receipts =
      record {
        organization_id = "org-2";
        message_id = "msg-1";
        payload_hash = "sha256:other";
        result_ref = "decision-9";
      }
      ∷ after_once.receipts;
}

abbrev answer : Consumed
answer = record {
  message_id = "msg-1";
  mission_id = mission_id;
  result_ref = "decision-1";
  replayed = false;
}

processed_once : process digest parse run_mission delivered before ≡ (after_once, ok answer)
unfolding process read_envelope find_receipt completed_result
processed_once = refl

receipt_stays :
    (e : Envelope)
    → read_envelope digest parse run_mission delivered ≡ ok e
    → find_receipt e later.receipts ≡ find_receipt e after_once.receipts
unfolding read_envelope find_receipt
receipt_stays e h =
    subst (λ x. find_receipt x later.receipts ≡ find_receipt x after_once.receipts)
      (ok_path ready_message e h) refl

redelivery_example :
    process digest parse run_mission delivered later
    ≡ (later, ok (record answer { replayed = true }))
redelivery_example =
    redelivery digest parse run_mission (λ o m s. refl) delivered before after_once later answer
      processed_once receipt_stays

abbrev event : String → ℕ → Option ℕ → OutboxEvent
event id at published = record {
  id = id;
  organization_id = "org-1";
  aggregate_type = "QUALIFICATION_MISSION";
  aggregate_id = mission_id;
  event_type = "QUALIFICATION_MISSION_READY";
  event_key = id;
  payload = no_fields;
  occurred_at = at;
  published_at = published;
}

abbrev outbox : Outbox
outbox = record {
  events = event "b" 5 none ∷ event "a" 2 (some 3) ∷ event "c" 4 none ∷ event "d" 9 none ∷ [];
  sent = event "a" 2 none ∷ [];
}

-- A queue that refuses the event "b".
abbrev refuses_b : OutboxEvent → Result (Unit {0})
refuses_b e = raise_if (e.id == "b") (runtime_error "queue")

abbrev broken_off : Outbox
broken_off = record {
  events = event "b" 5 none ∷ event "a" 2 (some 3) ∷ event "c" 4 (some 7) ∷ event "d" 9 none ∷ [];
  sent = event "c" 4 none ∷ event "a" 2 none ∷ [];
}

dispatch_batch_lem_example :
    RowsEvolve broken_off.sent outbox.events broken_off.events × Grows outbox.sent broken_off.sent
unfolding dispatch_batch
dispatch_batch_lem_example = dispatch_batch_lem refuses_b (λ e. 7) outbox "org-1" 3 []
