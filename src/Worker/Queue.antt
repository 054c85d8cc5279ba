-- ===== src/Worker/Queue.antt =====
-- services/worker/sira_worker/queue_consumer.py: one delivery of a message, against the tables of
-- the database that it reads and writes.
--
-- A query returns the first row that its conditions select; each transaction is one function of the
-- store.
use sira_seil_cockroach_aws.Worker.Message.{join, Envelope, validate_message}
use sira_seil_cockroach_aws.Base.{
  String, Bool, true, false, not, ◌&&◌, ◌||◌, Option, none, some, List, [], ◌∷◌, ◌==◌,
  if◌then◌else◌, Error, Result, ◌>>=◌, raise_if, ◌>>◌, value_error, runtime_error, ok, err,
}

-- A row of `ConsumerReceipt`, of the one consumer.
pub record Receipt : Type 0 where
  pub organization_id : String
  pub message_id : String
  pub payload_hash : String
  pub result_ref : String

-- What is read of a row of `QualificationMission`.
pub record Mission : Type 0 where
  pub organization_id : String
  pub id : String
  pub state : String

-- What is read of a row of `QualificationDecision`.
pub record MissionDecision : Type 0 where
  pub organization_id : String
  pub mission_id : String
  pub id : String
  pub current : Bool

-- The tables, and the missions that the worker was asked to run, the latest first.
pub record Store : Type 0 where
  pub receipts : List Receipt
  pub missions : List Mission
  pub decisions : List MissionDecision
  pub runs : List String

-- `ConsumedQualification`
pub record Consumed : Type 0 where
  pub message_id : String
  pub mission_id : String
  pub result_ref : String
  pub replayed : Bool

-- What is read of what `run_mission` returns.
pub record RunResult : Type 0 where
  pub state : String
  pub decision_id : Option String

-- A raw message: its body, and the attribute `body_sha256`, empty where it has none.
pub record Message : Type 0 where
  pub body : String
  pub body_sha256 : String

-- `session.scalar(select(...).where(...))`
abbrev pub first_row {ℓ} : {A : Type ℓ} → (A → Bool) → List A → Option A
first_row p [] = none
first_row p (x ∷ xs) = if p x then some x else first_row p xs

-- `_receipt`
abbrev pub receipt_of : Envelope → Receipt → Bool
receipt_of e r = r.organization_id == e.organization_id && r.message_id == e.message_id

unfoldable pub find_receipt : Envelope → List Receipt → Option Receipt
find_receipt e rows = first_row (receipt_of e) rows

abbrev pub mission_of : Envelope → Mission → Bool
mission_of e m = m.organization_id == e.organization_id && m.id == e.aggregate_id

abbrev pub decision_of : Envelope → MissionDecision → Bool
decision_of e d =
    d.organization_id == e.organization_id && d.mission_id == e.aggregate_id && d.current

-- `_completed_result`
unfoldable pub completed_result : Envelope → Store → Result (Option String)
completed_result e s = elim (first_row (mission_of e) s.missions) [
  | none ↦ err (value_error "qualification mission does not exist")
  | some m ↦
      if not (m.state == "COMPLETED")
      then ok none
      else ok (elim (first_row (decision_of e) s.decisions) [ none ↦ none | some d ↦ some d.id ])
]

abbrev pub conflicting : Error
conflicting = value_error "replayed message identity has a different payload hash"

abbrev pub new_receipt : Envelope → String → String → Receipt
new_receipt e hash ref = record {
  organization_id = e.organization_id;
  message_id = e.message_id;
  payload_hash = hash;
  result_ref = ref;
}

-- The receipt that is found decides; without one, the row is added.
abbrev pub record_found :
    Envelope → String → String → Store → Option Receipt → Store × Result (Unit {0})
record_found e hash ref s (some r) = (s, raise_if (not (r.payload_hash == hash)) conflicting)
record_found e hash ref s none =
    (record s { receipts = new_receipt e hash ref ∷ s.receipts }, ok tt)

-- `_record_receipt`
unfoldable pub record_receipt : Envelope → String → String → Store → Store × Result (Unit {0})
record_receipt e hash ref s = record_found e hash ref s (find_receipt e s.receipts)

abbrev pub consumed : Envelope → String → Bool → Consumed
consumed e ref again = record {
  message_id = e.message_id;
  mission_id = e.aggregate_id;
  result_ref = ref;
  replayed = again;
}

abbrev pub not_durable : Error
not_durable = runtime_error "qualification worker returned no durable decision"

-- The decision that the worker returns, if it is a durable one.
abbrev pub decided : RunResult → Result String
decided r =
    if r.state == "COMPLETED"
    then elim r.decision_id [ none ↦ err not_durable | some ref ↦ ok ref ]
    else err not_durable

-- What follows the decision: the receipt, and the answer.
unfoldable pub conclude : Envelope → String → Store × Result String → Store × Result Consumed
unfolding record_receipt
conclude e hash (s, err x) = (s, err x)
conclude e hash (s, ok ref) =
    let (t, done) = record_receipt e hash ref s in (t, done >>= λ _. ok (consumed e ref false))

-- What the consumer takes from elsewhere: SHA-256 in hexadecimal, `json.loads` into the fields of an
-- envelope, and the worker's `run_mission` for an organization and a mission, with what it does to
-- the store.
module _ (digest : String → String) (parse : String → Option Envelope)
    (run_mission : String → String → Store → Store × Result RunResult) where
  unfoldable pub run_worker : Envelope → Store → Store × Result String
  run_worker e s =
      let (t, result) =
        run_mission e.organization_id e.aggregate_id
          (record s { runs = e.aggregate_id ∷ s.runs }) in
      (t, result >>= decided)

  -- The decision of the mission: the one it has, or the worker's.
  unfoldable pub choose_ref : Envelope → Store → Result (Option String) → Store × Result String
  unfolding run_worker
  choose_ref e s (err x) = (s, err x)
  choose_ref e s (ok (some ref)) = (s, ok ref)
  choose_ref e s (ok none) = run_worker e s

  unfoldable pub terminal_ref : Envelope → Store → Store × Result String
  unfolding choose_ref
  terminal_ref e s = choose_ref e s (completed_result e s)

  -- What the receipt of the message, if there is one, makes of a delivery.
  unfoldable pub deliver_found :
      Envelope → String → Store → Option Receipt → Store × Result Consumed
  unfolding terminal_ref conclude
  deliver_found e hash s (some r) =
      (s, raise_if (not (r.payload_hash == hash)) conflicting >> ok (consumed e r.result_ref true))
  deliver_found e hash s none = conclude e hash (terminal_ref e s)

  -- `process`, once the envelope is valid
  unfoldable pub deliver : Envelope → String → Store → Store × Result Consumed
  unfolding deliver_found
  deliver e hash s = deliver_found e hash s (find_receipt e s.receipts)

  -- The envelope of a raw message whose body has the declared digest.
  unfoldable pub read_envelope : Message → Result Envelope
  unfolding validate_message
  read_envelope m =
      raise_if (m.body_sha256 == "" || not (m.body_sha256 == digest m.body))
        (value_error "SQS message body hash does not match its declared attribute")
      >> (elim (parse m.body) [
        | none ↦ err (value_error "SQS message body is not valid JSON")
        | some e ↦ validate_message e
      ])

  unfoldable pub process_read : Message → Store → Result Envelope → Store × Result Consumed
  unfolding deliver
  process_read m s (err x) = (s, err x)
  process_read m s (ok e) = deliver e (join "sha256:" (digest m.body)) s

  -- `process`
  unfoldable pub process : Message → Store → Store × Result Consumed
  unfolding process_read
  process m s = process_read m s (read_envelope m)
