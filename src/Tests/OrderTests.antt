-- ===== src/Tests/OrderTests.antt =====
-- The order theorems at an order 7 of buyer 3, on its way through the saga.
use koupang.Prelude.{ℕ, true, false, List, ◌≡◌, ◌<◌, refl, none, length, [], ◌∷◌}
use koupang.Prelude.Int.{pos}
use koupang.Errors.{forbidden, ok}
use koupang.Action.{failed}
use koupang.Action.Triple.{Ends}
use koupang.Json.{lit, uuid, str, object, member, no_members}
use koupang.Events.{
  EventEnvelope, payment_authorized, new_metadata, AggregateType, SourceService, payload_uuid,
}
use koupang.Pagination.{PaginationParams, forward}
use koupang.Consumer.Loop.{
  Weather, Step, delivery, DbFault, envelope_of, ConsumerState, process_all,
}
use koupang.Order.Consumers.{handle_order_event}
use koupang.Order.Consuming.{order_transaction, Onward, orders-Onward}
use koupang.Order.Listing.{items_of, sold_by, list_my_orders, list_seller_orders}
use koupang.Order.Showing.{Matches, Shows, list_orders-Shows}
use koupang.Order.Types.{
  OrderEntity, OrderStatus, inventory_reserved, confirmed, CurrentUser, buyer, transition_to,
  can_cancel, can_access,
}
use koupang.Order.Repository.{OrderDb}
use koupang.Order.Service.{cancel_order}
use koupang.Order.Status.{progress, transition_to-progress}
use koupang.Order.Lifecycle.{Progressed, order_of}
use koupang.Order.Progress.{handle_order_tx, handle_order_event-Progressed}
use koupang.Order.Cancel.{cancel_order-refused}

abbrev bytes : EventEnvelope → ℕ
bytes e = 400

abbrev reserved_order : OrderEntity
reserved_order = record {
  id = 7;
  buyer_id = 3;
  status = inventory_reserved;
  total_amount = pos 250000;
  currency = lit "USD";
  idempotency_key = lit "key-1";
  shipping_address = object no_members;
  cancelled_reason = none;
}

abbrev tables : OrderDb
tables = record {
  orders = reserved_order ∷ [];
  items = [];
  next_id = 8;
  outbox = record { rows = []; next_id = 0; now = 0 };
}

abbrev paid : EventEnvelope
paid = record {
  metadata = new_metadata 1 payment_authorized AggregateType.payment 7 SourceService.payment;
  payload = object (member "order_id" (str (uuid 7)) no_members);
}

abbrev owner : CurrentUser
owner = record { id = 3; role = buyer }

abbrev stranger : CurrentUser
stranger = record { id = 4; role = buyer }

handle_order_event-Progressed_example :
    Ends
      (λ _ after.
        (id : ℕ) × ((payload_uuid paid "order_id" ≡ ok id)
          × Progressed payment_authorized id tables after))
      (λ _ after. after ≡ tables)
      (handle_order_tx bytes paid tables).0
      (handle_order_tx bytes paid tables).1
handle_order_event-Progressed_example = handle_order_event-Progressed bytes paid tables refl

transition_to-progress_example :
    (confirmed ≡ confirmed) × (progress OrderStatus.payment_authorized < progress confirmed)
unfolding transition_to
transition_to-progress_example =
    transition_to-progress OrderStatus.payment_authorized confirmed confirmed refl

cancel_order-refused_example :
    cancel_order bytes tables stranger 7 none tables ≡ (failed forbidden, tables)
unfolding can_access can_cancel
cancel_order-refused_example =
    cancel_order-refused bytes tables tables stranger 7 none forbidden refl

abbrev first_page : PaginationParams
first_page = record { limit = 20; cursor = none; direction = forward }

list_orders-Shows_example :
    Shows
      (λ r. (r.buyer_id ≡ 3) × Matches none r)
      first_page
      (list_my_orders tables 3 first_page (record { status = none }))
    × Shows
        (λ r. (0 < length (items_of r.id (sold_by 3 tables.items))) × Matches none r)
        first_page
        (list_seller_orders tables 3 first_page (record { status = none }))
list_orders-Shows_example = list_orders-Shows tables first_page (record { status = none }) 3

abbrev calm : Weather
calm = record {
  fault = λ n. DbFault.no_fault;
  shutdown = λ n. false;
  dlq_accepts = true;
  offset_commits = true;
}

abbrev consumer : ConsumerState OrderDb
consumer = record {
  service = tables;
  processed = [];
  dlq = [];
  metrics = record {
    events_processed = 0;
    events_skipped = 0;
    events_sent_to_dlq = 0;
    events_dlq_failed = 0;
    events_db_error = 0;
    events_deser_failed = 0;
    events_retried = 0;
  };
  offsets_committed = 0;
  now = 0;
}

abbrev deliveries : List Step
deliveries =
    delivery (record calm { fault = λ n. DbFault.at_commit }) (envelope_of paid)
    ∷ delivery calm (envelope_of paid)
    ∷ delivery calm (envelope_of paid)
    ∷ []

orders-Onward_example : Onward (order_of tables 7) (
    order_of
      (process_all order_transaction
        (record { group_id = 1; max_retries = 3; processed_events_max_age = 604800 })
        (handle_order_event bytes)
        deliveries
        consumer).service
      7)
orders-Onward_example =
    orders-Onward bytes
      (record { group_id = 1; max_retries = 3; processed_events_max_age = 604800 }) deliveries
      consumer 7
