-- ===== src/Tests/InventoryTests.antt =====
-- The theorems of the inventory and of its consumer at one SKU with ten pieces and an order 7 of three.
use koupang.Prelude.{ℕ, ◌≡◌, refl, subst, false, true, some, List, [], ◌∷◌, arith}
use koupang.Prelude.Int.{pos, ◌≤ℤ◌, ◌+ℤ◌, ◌-ℤ◌}
use koupang.Errors.{AppError}
use koupang.Json.{Text, lit, uuid, str, object, member, no_members}
use koupang.Events.{
  EventEnvelope, order_created, order_cancelled, new_metadata, AggregateType, SourceService,
}
use koupang.Consumer.Loop.{
  Weather, Step, delivery, cleans_up, time_passes, DbFault, envelope_of, garbage, ConsumerConfig,
  ConsumerState, ProcessResult, process_all, process_message, process_with_retry, retry_from,
  after_attempt, try_process_once, try_checked, run_handler, settle,
}
use koupang.Consumer.Accounting.{IsAccounted, process_all-IsAccounted}
use koupang.Consumer.Bounds.{Counted, process_with_retry-Counted}
use koupang.Consumer.Redelivery.{Same, redelivered-Same}
use koupang.Inventory.Tables.{InventoryDb, Sku, sku_of, put_sku, insert_reservation}
use koupang.Inventory.Service.{
  CatalogSession, ReservationItem, reserved_payload, do_reserve_and_write_event, reserve_each,
  write_inventory_event, report_on_pool, on_tx, reserve_for_order_on_tx, reserve_for_order,
  release_for_order, confirm_for_order,
}
use koupang.Action.{zoom, attempt, map_err, lift, gets, ignore, ◌>>=◌, pure}
use koupang.Inventory.Repository.{reserve_inventory}
use koupang.Inventory.Consumers.{
  handle_catalog_event, dispatch_catalog, handle_order_created, parse_items, parse_each, as_i32,
}
use koupang.Inventory.Stock.{held, IsStocked}
use koupang.Inventory.Invariants.{Keeping, services-Keeping}
use koupang.Inventory.Consuming.{catalog_transaction, catalog-IsStocked}
use koupang.Inventory.Reporting.{Reports, reserve_for_order_on_tx-Reports}

abbrev bytes : EventEnvelope → ℕ
bytes e = 400

abbrev describe : AppError → Text
describe e = lit "error"

abbrev sku : Sku
sku = record {
  id = 3;
  product_id = 2;
  sku_code = lit "S-3";
  stock_quantity = pos 10;
  reserved_quantity = pos 0;
  is_deleted = false;
}

abbrev tables : InventoryDb
tables = record {
  skus = sku ∷ [];
  reservations = [];
  next_id = 0;
  outbox = record { rows = []; next_id = 0; now = 0 };
}

only_sku : (i : ℕ) (s : Sku) → sku_of tables i ≡ some s → sku ≡ s
only_sku i s h = ground (arith, h)

abbrev stocked : IsStocked tables
unfolding held
stocked = record {
  counted = λ i s h live.
      let it = only_sku i s h in
      record {
        exact = subst (λ (x : Sku). x.reserved_quantity ≡ held x.id []) it refl;
        within = subst (λ (x : Sku). x.reserved_quantity ≤ℤ x.stock_quantity) it (omega arith);
      };
  positive = tt;
  ordered = tt;
}

abbrev session : CatalogSession
session = record { tx = tables; committed = tables }

abbrev items : List ReservationItem
items = (3, pos 3) ∷ []

abbrev created : EventEnvelope
created = record {
  metadata = new_metadata 40 order_created AggregateType.order 7 SourceService.order;
  payload = reserved_payload 7 9 (lit "75") (lit "USD") items;
}

abbrev cancellation : EventEnvelope
cancellation = record {
  metadata = new_metadata 41 order_cancelled AggregateType.order 7 SourceService.order;
  payload = object (member "order_id" (str (uuid 7)) no_members);
}

abbrev calm : Weather
calm = record {
  fault = λ _. DbFault.no_fault;
  shutdown = λ _. false;
  dlq_accepts = true;
  offset_commits = true;
}

abbrev config : ConsumerConfig
config = record { group_id = 1; max_retries = 3; processed_events_max_age = 604800 }

abbrev start : ConsumerState CatalogSession
start = record {
  service = session;
  processed = [];
  dlq = [];
  metrics = record {
    events_processed = 0;
    events_skipped = 0;
    events_sent_to_dlq = 0;
    events_dlq_failed = 0;
    events_db_error = 0;
    events_deser_failed = 0;
    events_retried = 0;
  };
  offsets_committed = 0;
  now = 0;
}

abbrev deliveries : List Step
deliveries =
    delivery calm (envelope_of created)
    ∷ delivery calm (garbage 5)
    ∷ delivery calm (envelope_of created)
    ∷ cleans_up true
    ∷ time_passes 60
    ∷ delivery (record calm { offset_commits = false }) (envelope_of cancellation)
    ∷ []

abbrev after : List Step → ConsumerState CatalogSession
after ds = process_all catalog_transaction config (handle_catalog_event bytes describe) ds start

catalog-IsStocked_example : IsStocked (after deliveries).service.committed
catalog-IsStocked_example = catalog-IsStocked bytes describe config deliveries start stocked

services-Keeping_example :
    Keeping (reserve_for_order bytes describe 7 9 (lit "75") (lit "USD") items)
    × (Keeping (release_for_order 7) × Keeping (confirm_for_order 7 items))
services-Keeping_example = services-Keeping bytes describe 7 9 (lit "75") (lit "USD") items

reserve_for_order_on_tx-Reports_example :
    Reports bytes describe
      (λ _. refl)
      7
      session
      (reserve_for_order_on_tx bytes describe 7 9 (lit "75") (lit "USD") items session).0
      (reserve_for_order_on_tx bytes describe 7 9 (lit "75") (lit "USD") items session).1
reserve_for_order_on_tx-Reports_example =
    reserve_for_order_on_tx-Reports bytes describe (λ _. refl) 7 9 (lit "75") (lit "USD") items
      session

process_all-IsAccounted_example : IsAccounted 1 (after deliveries)
process_all-IsAccounted_example =
    process_all-IsAccounted catalog_transaction config (handle_catalog_event bytes describe)
      deliveries 0 start (record { counted = omega arith; offsets = omega arith; dead = refl })

process_with_retry-Counted_example :
    Counted catalog_transaction config
      (handle_catalog_event bytes describe)
      calm
      created
      0
      3
      (process_with_retry catalog_transaction config
        (handle_catalog_event bytes describe)
        calm
        created
        start).0
      (process_with_retry catalog_transaction config
        (handle_catalog_event bytes describe)
        calm
        created
        start).1
process_with_retry-Counted_example =
    process_with_retry-Counted catalog_transaction config (handle_catalog_event bytes describe) calm
      created start

-- The first delivery of the order succeeds.
delivered :
    (process_with_retry catalog_transaction config
      (handle_catalog_event bytes describe)
      calm
      created
      start).0
    ≡ some ProcessResult.success
unfolding process_with_retry retry_from after_attempt try_process_once try_checked run_handler
    settle handle_catalog_event dispatch_catalog handle_order_created parse_items parse_each as_i32
    reserve_for_order_on_tx do_reserve_and_write_event reserve_each reserve_inventory put_sku
    insert_reservation write_inventory_event report_on_pool on_tx zoom attempt map_err lift gets
    ignore ◌>>=◌ pure ◌+ℤ◌ ◌-ℤ◌
delivered = refl

redelivered-Same_example :
    Same catalog_transaction config
      (handle_catalog_event bytes describe)
      calm
      created
      (process_message catalog_transaction config
        (handle_catalog_event bytes describe)
        calm
        (envelope_of created)
        (after (
          delivery calm (envelope_of created)
          ∷ delivery calm (garbage 5)
          ∷ time_passes 3600
          ∷ cleans_up true
          ∷ [])))
      (after (
        delivery calm (envelope_of created)
        ∷ delivery calm (garbage 5)
        ∷ time_passes 3600
        ∷ cleans_up true
        ∷ []))
redelivered-Same_example =
    redelivered-Same catalog_transaction config (handle_catalog_event bytes describe) calm calm
      created (delivery calm (garbage 5) ∷ time_passes 3600 ∷ cleans_up true ∷ []) start delivered
      (omega arith)
