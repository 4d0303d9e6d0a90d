-- ===== src/Order/Consumers.antt =====
-- The event consumer of order/src/consumers. It reads and writes on the consumer's transaction.
use koupang.Prelude.{ℕ, none, some}
use koupang.Errors.{bad_request, map_err as map_result}
use koupang.Action.{Action, pure, gets, lift, map_err, ◌>>=◌, ◌>>◌}
use koupang.Json.{Text, lit, uuid, Value, str, object, member, no_members, index, as_str, unwrap_or}
use koupang.Events.{EventEnvelope, EventType, order_confirmed, order_cancelled, payload_uuid}
use koupang.Consumer.{HandlerError}
use koupang.Order.Types.{
  OrderEntity, OrderStatus, inventory_reserved, payment_authorized, confirmed, cancelled,
  transition_to,
}
use koupang.Order.Repository.{
  OrderDb, OrderTx, get_order_by_id, update_order_status, write_order_outbox,
}
use koupang.Order.Service.{cancelled_payload}

abbrev confirmed_payload : ℕ → ℕ → Value
confirmed_payload order_id buyer_id =
    object
      (member "order_id" (str (uuid order_id)) (member "buyer_id" (str (uuid buyer_id)) no_members))

-- The order that the event names, once its status may become `target`: how each handler begins.
unfoldable pub order_for : EventEnvelope → OrderStatus → OrderTx OrderEntity
order_for envelope target = do
  order_id ← lift (payload_uuid envelope "order_id")
  found ← gets (λ db. get_order_by_id db order_id)
  order ← lift found
  lift (map_result (λ _. bad_request) (transition_to order.status target))
  pure order

abbrev pub reason_or : EventEnvelope → Text → Text
reason_or envelope default = unwrap_or (as_str (index envelope.payload "reason")) default

unfoldable pub handle_inventory_reserved : EventEnvelope → OrderTx (Unit {0})
handle_inventory_reserved envelope = do
  order ← order_for envelope inventory_reserved
  update_order_status order.id inventory_reserved none

unfoldable pub handle_inventory_reservation_failed : EventEnvelope → OrderTx (Unit {0})
handle_inventory_reservation_failed envelope = do
  order ← order_for envelope cancelled
  update_order_status order.id cancelled
      (some (reason_or envelope (lit "Inventory reservation failed")))

module _ (bytes : EventEnvelope → ℕ) where
  unfoldable pub handle_payment_authorized : EventEnvelope → OrderTx (Unit {0})
  handle_payment_authorized envelope = do
    order ← order_for envelope payment_authorized
    update_order_status order.id payment_authorized none
    update_order_status order.id confirmed none
    write_order_outbox bytes order.id order_confirmed (confirmed_payload order.id order.buyer_id)
        (some envelope.metadata.event_id)

  unfoldable pub cancel_order_on_payment_failure : EventEnvelope → Text → OrderTx (Unit {0})
  cancel_order_on_payment_failure envelope default_reason = do
    order ← order_for envelope cancelled
    update_order_status order.id cancelled (some (reason_or envelope default_reason))
    write_order_outbox bytes order.id order_cancelled
        (cancelled_payload order.id order.buyer_id (reason_or envelope default_reason))
        (some envelope.metadata.event_id)

  -- `handle_payment_failed` and `handle_payment_timed_out` give the two default reasons.
  unfoldable pub dispatch_order : EventType → EventEnvelope → OrderTx (Unit {0})
  dispatch_order EventType.inventory_reserved e = handle_inventory_reserved e
  dispatch_order EventType.inventory_reservation_failed e = handle_inventory_reservation_failed e
  dispatch_order EventType.payment_authorized e = handle_payment_authorized e
  dispatch_order EventType.payment_failed e =
      cancel_order_on_payment_failure e (lit "Payment failed")
  dispatch_order EventType.payment_timed_out e =
      cancel_order_on_payment_failure e (lit "Payment timed out")
  dispatch_order _ e = pure tt

  -- `OrderEventHandler::handle`.
  unfoldable pub handle_order_event : EventEnvelope → Action OrderDb HandlerError (Unit {0})
  handle_order_event e =
      map_err (λ _. HandlerError.transient) (dispatch_order e.metadata.event_type e)
