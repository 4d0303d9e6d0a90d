-- ===== src/Tests/OutboxTests.antt =====
-- The theorems of the outbox at a table with two events of an order, one of which Kafka refuses.
use mathlib.Core.List.{mem-cons_self}
use koupang.Prelude.{inr, ℕ, ◌≡◌, refl, true, false, [], ◌∷◌, ◌==◌, inl, arith}
use koupang.Json.{lit, object, no_members}
use koupang.Events.{
  order_created, order_cancelled, EventType, EventEnvelope, AggregateType, SourceService,
  new_metadata,
}
use koupang.Outbox.{OutboxTable, OutboxEvent, from_envelope, new_row}
use koupang.Outbox.Repository.{claim_batch}
use koupang.Outbox.Relay.{RelayConfig, Answers, RelayState, process_pending}
use koupang.Outbox.Relayed.{IsRelayed}
use koupang.Outbox.Delivery.{process_pending-IsRelayed}
use koupang.Outbox.Claims.{Claims, claim_batch-Claims}
use koupang.Outbox.Refusals.{Here, Stands, refused_at, refused_at-Stands}

abbrev envelope : ℕ → EventType → EventEnvelope
envelope id event_type = record {
  metadata = new_metadata id event_type AggregateType.order 7 SourceService.order;
  payload = object no_members;
}

abbrev empty : OutboxTable
empty = record { rows = []; next_id = 0; now = 100 }

abbrev event : ℕ → EventType → OutboxEvent
event id event_type =
    new_row (record empty { next_id = id }) (from_envelope "orders.events" (envelope id event_type))

abbrev table : OutboxTable
table = record empty { rows = event 0 order_created ∷ event 1 order_cancelled ∷ []; next_id = 2 }

abbrev start : RelayState
start = record { table = table; cache = []; log = []; escalated = [] }

abbrev relay : RelayConfig
relay = record { instance_id = 5; batch_size = 50; delete_on_publish = false }

abbrev refusing_one : ℕ → Answers
refusing_one n = record {
  claims = true;
  publishes = λ e. e == 0;
  error_of = λ e. lit "refused";
  updates = λ e. true;
  cache_reads = λ e. false;
  cache_writes = λ e. true;
  shutdown = false;
}

abbrev relayed : IsRelayed (λ id. id) table.rows start
relayed = record {
  rows = ((refl, omega arith), ((refl, omega arith), tt));
  cached = λ e h. h;
  kept = λ id h. inl h;
}

process_pending-IsRelayed_example :
    IsRelayed (λ id. id) table.rows (process_pending relay refusing_one start)
process_pending-IsRelayed_example =
    process_pending-IsRelayed (λ id. id) table.rows relay refusing_one start relayed

claim_batch-Claims_example : Claims 50 5 table (claim_batch 50 5 table).0 (claim_batch 50 5 table).1
claim_batch-Claims_example = claim_batch-Claims 50 5 table

table-Here : Here (event 0 order_created) table.rows
table-Here = (mem-cons_self, (inr refl, (inl (λ e. absurd (ground (arith, e))), tt)))

refused_at-Stands_example :
    (r' : OutboxEvent) × Here r' (refused_at 50 5 (lit "refused") 0 (100 ∷ 102 ∷ []) table).rows
    × ((r'.id ≡ 0) × Stands 10 2 102 r')
refused_at-Stands_example =
    refused_at-Stands 50 5 (lit "refused") 100 (102 ∷ []) (event 0 order_created) table (inl refl)
      table-Here
