-- ===== src/Events.antt =====
-- Domain events: shared/src/events/types.rs. Time stamps are left out.
use koupang.Prelude.{ℕ, String, Option, none, some}
use koupang.Errors.{AppError, bad_request, Result, ok_or}
use koupang.Json.{Text, Value, index, as_str, parse_uuid, and_then}

pub data SourceService : Type 0 where
  identity catalog cart order payment shipping notification : SourceService

pub data AggregateType : Type 0 where
  order payment inventory : AggregateType

pub data EventType : Type 0 where
  order_created order_confirmed order_cancelled : EventType
  inventory_reserved inventory_reservation_failed inventory_released : EventType
  payment_authorized payment_failed payment_captured payment_voided payment_timed_out : EventType
  payment_capture_retry_requested : EventType

pub record EventMetadata : Type 0 where
  pub event_id : ℕ
  pub event_type : EventType
  pub aggregate_type : AggregateType
  pub aggregate_id : ℕ
  source_service : SourceService
  correlation_id : Option Text
  pub causation_id : Option ℕ

pub record EventEnvelope : Type 0 where
  pub metadata : EventMetadata
  pub payload : Value

-- `EventMetadata::new`; the fresh UUID of `Uuid::now_v7` is an argument.
abbrev pub new_metadata : ℕ → EventType → AggregateType → ℕ → SourceService → EventMetadata
new_metadata event_id event_type aggregate_type aggregate_id source_service = record {
  event_id = event_id;
  event_type = event_type;
  aggregate_type = aggregate_type;
  aggregate_id = aggregate_id;
  source_service = source_service;
  correlation_id = none;
  causation_id = none;
}

abbrev pub with_causation_id : EventMetadata → ℕ → EventMetadata
with_causation_id m cause = record m { causation_id = some cause }

-- `EventEnvelope::payload_uuid`.
abbrev pub payload_uuid : EventEnvelope → String → Result AppError ℕ
payload_uuid e k = ok_or (and_then (as_str (index e.payload k)) parse_uuid) bad_request
