-- ===== src/Order/Repository.antt =====
-- order/src/orders/repository.rs over the tables of orders and their items and the outbox. Ids are primary keys: an
-- update by id reaches one row.
use koupang.Prelude.{ℕ, Bool, Option, none, some, List, map, ◌==◌, if◌then◌else◌, find, is_some}
use koupang.Errors.{AppError, not_found, Result, ok_or}
use koupang.Action.{Action, done, failed, gets, ◌>>=◌, zoom, ignore}
use koupang.Json.{Text, Value}
use koupang.Events.{
  EventEnvelope, EventMetadata, EventType, AggregateType, SourceService, new_metadata,
  with_causation_id,
}
use koupang.Outbox.{OutboxTable, from_envelope, insert_outbox_event}
use koupang.Order.Types.{OrderStatus, OrderEntity, OrderItemEntity}

pub record OrderDb : Type 0 where
  pub orders : List OrderEntity
  pub items : List OrderItemEntity
  pub next_id : ℕ
  pub outbox : OutboxTable

abbrev pub OrderTx : Type 0 → Type 0
OrderTx A = Action OrderDb AppError A

abbrev pub is_order : ℕ → OrderEntity → Bool
is_order id o = o.id == id

unfoldable pub get_order_by_id : OrderDb → ℕ → Result AppError OrderEntity
get_order_by_id db id = ok_or (find (is_order id) db.orders) not_found

-- The `UPDATE` of one row: its status, and the reason where one is given.
abbrev pub with_status : OrderStatus → Option Text → OrderEntity → OrderEntity
with_status status none o = record o { status = status }
with_status status (some reason) o = record o { status = status; cancelled_reason = some reason }

abbrev pub set_order_status : ℕ → OrderStatus → Option Text → OrderEntity → OrderEntity
set_order_status id status reason o = if is_order id o then with_status status reason o else o

unfoldable pub update_order_status : ℕ → OrderStatus → Option Text → OrderTx (Unit {0})
update_order_status id status reason db =
    if is_some (find (is_order id) db.orders)
    then (done tt, record db { orders = map (set_order_status id status reason) db.orders })
    else (failed not_found, db)

abbrev pub order_metadata : ℕ → ℕ → EventType → Option ℕ → EventMetadata
order_metadata event_id order_id event_type none =
    new_metadata event_id event_type AggregateType.order order_id SourceService.order
order_metadata event_id order_id event_type (some cause) =
    with_causation_id
      (new_metadata event_id event_type AggregateType.order order_id SourceService.order) cause

abbrev set_order_outbox : OrderDb → OutboxTable → OrderDb
set_order_outbox db t = record db { outbox = t }

-- `write_order_outbox`, with which the service's own writes of an event agree.
unfoldable pub write_order_outbox :
    (EventEnvelope → ℕ) → ℕ → EventType → Value → Option ℕ → OrderTx (Unit {0})
write_order_outbox bytes order_id event_type payload causation_id = do
  event_id ← gets (λ db. db.outbox.next_id)
  ignore (
      zoom (λ db. db.outbox) set_order_outbox
        (insert_outbox_event bytes (
          from_envelope "orders.events" (record {
            metadata = order_metadata event_id order_id event_type causation_id;
            payload = payload;
          }))))
