-- ===== src/Order/Status.antt =====
-- The state machine of an order's status.
use koupang.Prelude.{ℕ, ◌<◌, ◌≡◌, true, arith, if◌then◌else◌}
use koupang.Errors.{bad_request, ok, err, is_ok}
use koupang.Rules.{evaluate}
use koupang.Rules.Evaluation.{passed-eq-evaluate}
use koupang.Order.Types.{
  OrderStatus, OrderEntity, pending, inventory_reserved, payment_authorized, confirmed, shipped,
  delivered, cancelled, returned, transition_to, can_cancel, order_app_error,
}
use koupang.Order.Rules.{cancellation_rules, eval_cancellation}
use koupang.Order.Service.{validate_cancellation}

-- How far an order has come; cancelled and returned orders have come to an end.
abbrev pub progress : OrderStatus → ℕ
progress pending = 0
progress inventory_reserved = 1
progress payment_authorized = 2
progress confirmed = 3
progress shipped = 4
progress delivered = 5
progress cancelled = 6
progress returned = 7

-- An allowed transition ends in its target, and brings the order strictly further: no status is
-- reached twice.
pub transition_to-progress :
    (s t u : OrderStatus) → transition_to s t ≡ ok u → (u ≡ t) × (progress s < progress u)
unfolding transition_to
transition_to-progress s t u h = ground (arith, h)

-- The three ways in which the code asks whether an order can be cancelled agree, whatever the
-- order: `can_cancel`, the transition to cancelled, and the cancellation rules.
can_cancel-agrees :
    (order : OrderEntity)
    → (can_cancel order.status ≡ is_ok (transition_to order.status cancelled))
      × (can_cancel order.status ≡ is_ok (validate_cancellation order))
unfolding transition_to can_cancel validate_cancellation cancellation_rules eval_cancellation
    evaluate
can_cancel-agrees order = (
  ground arith,
  rw
      (passed-eq-evaluate (eval_cancellation (record { current_status = order.status }))
        cancellation_rules)
      (ground arith),
)

pub validate_cancellation-eq :
    (order : OrderEntity)
    → validate_cancellation order ≡ (if can_cancel order.status then ok tt else err bad_request)
unfolding can_cancel validate_cancellation cancellation_rules eval_cancellation evaluate
    order_app_error
validate_cancellation-eq order =
    rw
      (passed-eq-evaluate (eval_cancellation (record { current_status = order.status }))
        cancellation_rules)
      (ground arith)

pub cancel_transition :
    (s : OrderStatus) → can_cancel s ≡ true → transition_to s cancelled ≡ ok cancelled
unfolding transition_to can_cancel
cancel_transition s h = ground (arith, h)
