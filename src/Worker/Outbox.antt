-- ===== src/Worker/Outbox.antt =====
-- services/worker/sira_worker/outbox_dispatcher.py: one batch of the outbox, against the table of its
-- events and the messages that the queue acknowledged. Other writers of the table are not modelled.
use sira_seil_cockroach_aws.Base.Order.{text_le}
use sira_seil_cockroach_aws.Base.Sort.{sorted}
use sira_seil_cockroach_aws.Domain.Json.{Fields}
use sira_seil_cockroach_aws.Base.{
  ℕ, zero, suc, String, Bool, ◌&&◌, ◌||◌, Option, some, List, [], ◌∷◌, map, ltb, nat_eq, ◌==◌,
  if◌then◌else◌, is_none, length, select, any, is_empty, elem, Result, ◌>>=◌, raise_if, ◌>>◌,
  value_error, ok, err,
}

-- A row of `OutboxEvent`; its envelope has the same fields but for the time of publication.
pub record OutboxEvent : Type 0 where
  pub id : String
  pub organization_id : String
  pub aggregate_type : String
  pub aggregate_id : String
  pub event_type : String
  pub event_key : String
  pub payload : Fields
  pub occurred_at : ℕ
  pub published_at : Option ℕ

-- `DispatchResult`
pub record DispatchResult : Type 0 where
  pub attempted : ℕ
  pub published : ℕ
  pub event_ids : List String

-- The table, and what the queue has acknowledged, the latest first.
pub record Outbox : Type 0 where
  pub events : List OutboxEvent
  pub sent : List OutboxEvent

-- `order_by(OutboxEvent.occurred_at, OutboxEvent.id)`
abbrev pub earlier : OutboxEvent → OutboxEvent → Bool
earlier a b =
    ltb a.occurred_at b.occurred_at || (nat_eq a.occurred_at b.occurred_at && text_le a.id b.id)

-- `limit(n)`
abbrev pub take {ℓ} : {A : Type ℓ} → ℕ → List A → List A
take zero xs = []
take (suc n) [] = []
take (suc n) (x ∷ xs) = x ∷ take n xs

-- The conditions of the query; no event types at all is no condition.
abbrev pub is_wanted : String → List String → OutboxEvent → Bool
is_wanted organization_id event_types e =
    e.organization_id == organization_id
    && is_none e.published_at
    && (is_empty event_types || elem e.event_type event_types)

unfoldable pub load_unpublished :
    List OutboxEvent → String → ℕ → List String → Result (List OutboxEvent)
load_unpublished events organization_id limit event_types =
    raise_if (ltb limit 1 || ltb 100 limit)
      (value_error "outbox batch limit must be between 1 and 100")
    >> ok (take limit (sorted earlier (select (is_wanted organization_id event_types) events)))

-- The row that the update of `mark_published` is of, not published yet.
abbrev pub is_marked : OutboxEvent → OutboxEvent → Bool
is_marked envelope e =
    e.organization_id == envelope.organization_id
    && e.id == envelope.id
    && e.event_key == envelope.event_key
    && is_none e.published_at

abbrev pub mark_row : OutboxEvent → ℕ → OutboxEvent → OutboxEvent
mark_row envelope at e = if is_marked envelope e then record e { published_at = some at } else e

-- `mark_published`: the table, and whether a row was marked
unfoldable pub mark_published : List OutboxEvent → OutboxEvent → ℕ → List OutboxEvent × Bool
mark_published events envelope at =
    (map (mark_row envelope at) events, any (is_marked envelope) events)

-- What the dispatcher takes from elsewhere: `publisher.publish`, which returns or raises, and the
-- time at which each event is marked.
module _ (publish : OutboxEvent → Result (Unit {0})) (clock : OutboxEvent → ℕ) where
  -- The acknowledgement of an event, and its mark.
  abbrev pub acknowledged : Outbox → OutboxEvent → Outbox × Bool
  acknowledged o e =
      let (events, marked) = mark_published o.events e (clock e) in
      (record { events = events; sent = e ∷ o.sent }, marked)

  -- What one event makes of the rest of the batch, which is reached only when it was published.
  abbrev pub after_publish :
      Outbox
      → OutboxEvent
      → Result (Unit {0})
      → Outbox × Result (List String)
      → Outbox × Result (List String)
  after_publish o e (err x) rest = (o, err x)
  after_publish o e (ok done) (last, ids) =
      (last, ids >>= λ rest. ok (if (acknowledged o e).1 then e.id ∷ rest else rest))

  -- The loop of `dispatch_batch`, with the identifiers that it collects.
  unfoldable pub dispatch_each : Outbox → List OutboxEvent → Outbox × Result (List String)
  unfolding mark_published
  dispatch_each o [] = (o, ok [])
  dispatch_each o (e ∷ es) = after_publish o e (publish e) (dispatch_each (acknowledged o e).0 es)

  abbrev pub batch_result : ℕ → Outbox × Result (List String) → Outbox × Result DispatchResult
  batch_result attempted (o, err x) = (o, err x)
  batch_result attempted (o, ok ids) =
      (o, ok (record { attempted = attempted; published = length ids; event_ids = ids }))

  unfoldable pub dispatch_loaded :
      Outbox → Result (List OutboxEvent) → Outbox × Result DispatchResult
  unfolding dispatch_each
  dispatch_loaded o (err x) = (o, err x)
  dispatch_loaded o (ok envelopes) = batch_result (length envelopes) (dispatch_each o envelopes)

  unfoldable pub dispatch_batch : Outbox → String → ℕ → List String → Outbox × Result DispatchResult
  unfolding dispatch_loaded load_unpublished
  dispatch_batch o organization_id limit event_types =
      dispatch_loaded o (load_unpublished o.events organization_id limit event_types)
