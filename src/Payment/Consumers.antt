-- ===== src/Payment/Consumers.antt =====
-- The event consumers of payment/src/consumers: each handler, and the dispatch under the lock.
use koupang.Prelude.{ℕ, ◌+◌, ◌%◌, ◌^◌, Bool, true, false, Option, some, leb, if◌then◌else◌}
use koupang.Prelude.Int.{pos}
use koupang.Errors.{bad_request, ok_or}
use koupang.Action.{Action, pure, fail, lift, map_err, ◌>>=◌, ◌>>◌}
use koupang.Json.{
  Text, lit, append, decimal, index, as_str, as_u64, parse_decimal, unwrap_or, and_then,
}
use koupang.Events.{EventEnvelope, EventType, payload_uuid}
use koupang.Consumer.{HandlerError}
use koupang.Payment.Types.{PaymentState, Operation}
use koupang.Payment.Repository.{Db, list_transactions_by_order, derive_payment_state}
use koupang.Payment.Gateway.{PaymentGateway}
use koupang.Payment.Lookup.{find_posted_authorization}
use koupang.Payment.Records.{write_outbox, failure_payload}
use koupang.Payment.Session.{Session, Service, on_tx, call_capture}
use koupang.Payment.OnTx.{
  authorize_payment_on_tx, capture_payment_on_tx, void_payment_on_tx, settle_capture,
}

abbrev pub max_capture_retries : ℕ
max_capture_retries = 10

-- `as_u64().unwrap_or(0) as u32`.
abbrev pub retry_count : EventEnvelope → ℕ
retry_count envelope = unwrap_or (as_u64 (index envelope.payload "retry_count")) 0 % 2 ^ 32

-- `Capture failed after {retry_count} retries`.
abbrev exhausted_reason : ℕ → Text
exhausted_reason n =
    append (lit "Capture failed after ") (append (decimal (pos n)) (lit " retries"))

-- What the distributed lock answers, where one is configured.
pub data LockAnswer : Type 0 where
  acquired already_held redis_unavailable : LockAnswer

abbrev pub is_relevant : EventType → Bool
is_relevant EventType.inventory_reserved = true
is_relevant EventType.order_confirmed = true
is_relevant EventType.order_cancelled = true
is_relevant EventType.payment_capture_retry_requested = true
is_relevant _ = false

module _ (bytes : EventEnvelope → ℕ) (gateway : PaymentGateway) (pool : Db) where
  unfoldable pub handle_inventory_reserved : EventEnvelope → Service (Unit {0})
  handle_inventory_reserved envelope = do
    order_id ← lift (payload_uuid envelope "order_id")
    total_amount ← lift (
        ok_or (and_then (as_str (index envelope.payload "total_amount")) parse_decimal) bad_request)
    authorize_payment_on_tx bytes gateway pool order_id total_amount
        (unwrap_or (as_str (index envelope.payload "currency")) (lit "USD"))

  unfoldable pub handle_order_confirmed : EventEnvelope → Service (Unit {0})
  handle_order_confirmed envelope = do
    order_id ← lift (payload_uuid envelope "order_id")
    capture_payment_on_tx bytes gateway pool order_id

  -- The `match payment_state`: what is left alone is only logged.
  unfoldable pub void_if_authorized : ℕ → PaymentState → Service (Unit {0})
  void_if_authorized order_id PaymentState.authorized =
      void_payment_on_tx bytes gateway pool order_id
  void_if_authorized order_id _ = pure tt

  unfoldable pub handle_order_cancelled : EventEnvelope → Service (Unit {0})
  unfolding void_if_authorized
  handle_order_cancelled envelope = do
    order_id ← lift (payload_uuid envelope "order_id")
    void_if_authorized order_id (derive_payment_state (list_transactions_by_order pool order_id))

  -- A retry of a capture, for an order that still has retries left.
  unfoldable pub retry_capture : ℕ → ℕ → Service (Unit {0})
  retry_capture order_id count = do
    auth ← lift (find_posted_authorization pool order_id Operation.capture)
    answer ← call_capture gateway auth.gateway_reference
    settle_capture bytes gateway order_id auth (count + 1) (lit "Capture permanently failed: ")
        answer

  unfoldable pub handle_capture_retry : EventEnvelope → Service (Unit {0})
  unfolding retry_capture
  handle_capture_retry envelope = do
    order_id ← lift (payload_uuid envelope "order_id")
    if leb max_capture_retries (retry_count envelope)
        then on_tx (
            write_outbox bytes order_id EventType.payment_failed
              (failure_payload order_id (exhausted_reason (retry_count envelope))))
        else retry_capture order_id (retry_count envelope)

  -- The dispatch under the lock; every error of a handler is transient.
  unfoldable pub dispatch : EventType → EventEnvelope → Service (Unit {0})
  dispatch EventType.inventory_reserved e = handle_inventory_reserved e
  dispatch EventType.order_confirmed e = handle_order_confirmed e
  dispatch EventType.order_cancelled e = handle_order_cancelled e
  dispatch EventType.payment_capture_retry_requested e = handle_capture_retry e
  dispatch _ e = pure tt

  -- The part of `handle` behind the lock: a busy lock is transient, a missing Redis is ignored.
  unfoldable pub locked : Option LockAnswer → EventEnvelope → Action Session HandlerError (Unit {0})
  locked (some LockAnswer.already_held) e = fail HandlerError.transient
  locked _ e = map_err (λ _. HandlerError.transient) (dispatch e.metadata.event_type e)

  -- `PaymentEventHandler::handle`.
  unfoldable pub handle : Option LockAnswer → EventEnvelope → Action Session HandlerError (Unit {0})
  unfolding locked dispatch
  handle lock e =
      if is_relevant e.metadata.event_type
      then (do
        map_err (λ _. HandlerError.permanent) (lift (payload_uuid e "order_id"))
        locked lock e)
      else pure tt
