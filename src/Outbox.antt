-- ===== src/Outbox.antt =====
-- The transactional outbox: shared/src/outbox/types.rs and repository.rs. A table holds its rows in
-- the order of their insertion; its clock is the `NOW()` of the statement that runs.
pub mod Repository
pub mod Relay
pub mod Soundness
pub mod Relayed
mod Settling
pub mod Refusals
pub mod Delivery
pub mod Claims
use koupang.Prelude.{ℕ, ◌+◌, Option, none, String, List, [], ◌∷◌, ◌++◌, ltb, if◌then◌else◌}
use koupang.Errors.{AppError, bad_request}
use koupang.Action.{Action, Outcome, done}
use koupang.Json.{Text, Value}
use koupang.Events.{AggregateType, EventType, EventEnvelope}

pub data OutboxStatus : Type 0 where
  pending published failed : OutboxStatus

pub record OutboxInsert : Type 0 where
  pub aggregate_type : AggregateType
  pub aggregate_id : ℕ
  pub event_type : EventType
  pub event_id : ℕ
  pub topic : String
  pub partition_key : Text
  pub payload : EventEnvelope
  pub metadata : Option Value

-- The columns that the relay works with stand beside the columns of the insert.
pub record OutboxEvent : Type 0 where
  pub insert : OutboxInsert
  pub open insert use *
  pub id : ℕ
  pub created_at : ℕ
  pub status : OutboxStatus
  pub published_at : Option ℕ
  pub locked_by : Option ℕ
  pub locked_at : Option ℕ
  pub retry_count : ℕ
  pub max_retries : ℕ
  pub last_error : Option Text
  pub next_retry_at : ℕ

pub record OutboxTable : Type 0 where
  pub rows : List OutboxEvent
  pub next_id : ℕ
  pub now : ℕ

-- `OutboxInsert::from_envelope`; the payload column is the serialised envelope.
abbrev pub from_envelope : String → EventEnvelope → OutboxInsert
from_envelope topic envelope = record {
  aggregate_type = envelope.metadata.aggregate_type;
  aggregate_id = envelope.metadata.aggregate_id;
  event_type = envelope.metadata.event_type;
  event_id = envelope.metadata.event_id;
  topic = topic;
  partition_key = Text.uuid envelope.metadata.aggregate_id;
  payload = envelope;
  metadata = none;
}

abbrev pub max_payload_bytes : ℕ
max_payload_bytes = 900000

-- The row that an `INSERT` with the table's defaults creates.
abbrev pub new_row : OutboxTable → OutboxInsert → OutboxEvent
new_row t i = record {
  insert = i;
  id = t.next_id;
  created_at = t.now;
  status = pending;
  published_at = none;
  locked_by = none;
  locked_at = none;
  retry_count = 0;
  max_retries = 10;
  last_error = none;
  next_retry_at = t.now;
}

-- `insert_outbox_event`; `bytes` is the length of the serialised envelope.
abbrev pub insert_outbox_event :
    (EventEnvelope → ℕ) → OutboxInsert → Action OutboxTable AppError OutboxEvent
insert_outbox_event bytes i t =
    if ltb max_payload_bytes (bytes i.payload) then (Outcome.failed bad_request, t) else (
      done (new_row t i),
      record t { rows = t.rows ++ new_row t i ∷ []; next_id = t.next_id + 1 },
    )
