-- ===== src/Order/Service.antt =====
-- `cancel_order` of order/src/orders/service.rs. `pool` is what it reads before its transaction, the
-- tables as they were committed then.
use koupang.Prelude.{ℕ, Option, none, some, if◌then◌else◌}
use koupang.Errors.{AppError, internal_server_error, Result, ok, err, map_err as map_result}
use koupang.Action.{lift, map_err, with_transaction, ◌>>=◌, ◌>>◌}
use koupang.Json.{Text, lit, uuid, Value, str, object, member, no_members, unwrap_or}
use koupang.Events.{EventEnvelope, order_cancelled}
use koupang.Rules.{passed, evaluate_detailed}
use koupang.Order.Types.{
  OrderEntity, CurrentUser, require_access, cancelled, transition_to, order_app_error,
  cancellation_denied,
}
use koupang.Order.Rules.{cancellation_rules, eval_cancellation}
use koupang.Order.Repository.{
  OrderDb, OrderTx, get_order_by_id, update_order_status, write_order_outbox,
}

abbrev pub cancelled_payload : ℕ → ℕ → Text → Value
cancelled_payload order_id buyer_id reason = object (
    member "order_id" (str (uuid order_id))
      (member "buyer_id" (str (uuid buyer_id)) (member "reason" (str reason) no_members)))

unfoldable pub validate_cancellation : OrderEntity → Result AppError (Unit {0})
validate_cancellation order =
    if passed (
      evaluate_detailed (eval_cancellation (record { current_status = order.status }))
        cancellation_rules)
    then ok tt
    else err (order_app_error cancellation_denied)

module _ (bytes : EventEnvelope → ℕ) where
  unfoldable pub cancel_order : OrderDb → CurrentUser → ℕ → Option Text → OrderTx (Unit {0})
  cancel_order pool current_user order_id reason = do
    order ← lift (get_order_by_id pool order_id)
    lift (require_access current_user order.buyer_id)
    lift (validate_cancellation order)
    lift (map_result order_app_error (transition_to order.status cancelled))
    let cancel_reason = unwrap_or reason (lit "Cancelled by buyer")
    map_err (λ _. internal_server_error)
        (with_transaction (λ before reached. before)
          (do
            update_order_status order_id cancelled (some cancel_reason)
            write_order_outbox bytes order_id order_cancelled
                (cancelled_payload order_id order.buyer_id cancel_reason) none))
