-- ===== src/Payment/OnTx.antt =====
-- The operations of payment/src/payments/service.rs and consumers/capture_retry.rs that run in the
-- consumer's transaction: `pool` is what they read, the tables as they are committed; the session
-- holds the tables as the transaction sees them.
use koupang.Prelude.{ℕ, negate, if◌then◌else◌}
use koupang.Prelude.Int.{ℤ, pos, eqb_ℤ}
use koupang.Errors.{Result, ok, err}
use koupang.Action.{pure, fail, lift, ◌>>=◌, ◌>>◌}
use koupang.Json.{Text, lit, append, uuid, Value, str, int, object, member, no_members}
use koupang.Events.{EventEnvelope, EventType}
use koupang.Payment.Types.{
  Operation, GatewayAuthResult, GatewayStatus, GatewayError, auth_key, capture_key, void_key,
  amount_tampered, to_app_error,
}
use koupang.Payment.Repository.{
  Db, get_transaction_by_idempotency_key, list_transactions_by_order, derive_payment_state,
}
use koupang.Payment.Gateway.{PaymentGateway}
use koupang.Payment.Lookup.{
  in_progress, validate_authorization, find_posted_authorization, Authorization,
}
use koupang.Payment.Records.{
  write_outbox, record_authorization, record_capture, record_void, failure_payload,
}
use koupang.Payment.Session.{Service, on_tx, call_authorize, call_capture, call_void}
use koupang.Payment.Service.{tampered_reason, or_gateway_error}

abbrev retry_payload : ℕ → ℕ → Text → Value
retry_payload order_id retry_count reason = object (
    member "order_id" (str (uuid order_id))
      (member "retry_count" (int (pos retry_count)) (member "reason" (str reason) no_members)))

module _ (bytes : EventEnvelope → ℕ) (gateway : PaymentGateway) where
  -- The `match auth_result` of `authorize_payment_on_tx`.
  unfoldable pub settle_authorization_on_tx :
      ℕ → ℤ → Text → Result GatewayError GatewayAuthResult → Service (Unit {0})
  settle_authorization_on_tx order_id amount currency (ok result) =
      if negate (eqb_ℤ result.approved_amount amount)
      then (do
        call_void gateway result.gateway_reference
        on_tx (
            write_outbox bytes order_id EventType.payment_failed
              (failure_payload order_id (tampered_reason amount result.approved_amount)))
        fail (to_app_error (amount_tampered amount result.approved_amount)))
      else on_tx (record_authorization bytes order_id amount currency result.gateway_reference)
  settle_authorization_on_tx order_id amount currency (err gw_err) = on_tx (
      write_outbox bytes order_id EventType.payment_failed
        (failure_payload order_id gw_err.message))

  unfoldable pub authorize_payment_on_tx : Db → ℕ → ℤ → Text → Service (Unit {0})
  unfolding settle_authorization_on_tx
  authorize_payment_on_tx pool order_id amount currency =
      if in_progress (get_transaction_by_idempotency_key pool (auth_key order_id))
      then pure tt
      else do
        lift (
            validate_authorization amount currency
              (derive_payment_state (list_transactions_by_order pool order_id)))
        auth_result ← call_authorize gateway (auth_key order_id) order_id amount currency
        settle_authorization_on_tx order_id amount currency auth_result

  -- The `match gateway.capture(…)` that the first capture and its retries share, but for the count
  -- of the next retry and the words of the final failure.
  unfoldable pub settle_capture :
      ℕ → Authorization → ℕ → Text → Result GatewayError GatewayStatus → Service (Unit {0})
  settle_capture order_id auth next_retry declined_words (ok _) = on_tx (
      record_capture bytes order_id auth.currency auth.amount (capture_key order_id)
        auth.gateway_reference)
  settle_capture order_id auth next_retry declined_words (err gw_err) =
      if gw_err.is_retryable
      then on_tx (
          write_outbox bytes order_id EventType.payment_capture_retry_requested
            (retry_payload order_id next_retry gw_err.message))
      else on_tx (
          write_outbox bytes order_id EventType.payment_failed
            (failure_payload order_id (append declined_words gw_err.message)))

  unfoldable pub capture_payment_on_tx : Db → ℕ → Service (Unit {0})
  unfolding settle_capture
  capture_payment_on_tx pool order_id = do
    auth ← lift (find_posted_authorization pool order_id Operation.capture)
    answer ← call_capture gateway auth.gateway_reference
    settle_capture order_id auth 1 (lit "Capture declined: ") answer

  unfoldable pub void_payment_on_tx : Db → ℕ → Service (Unit {0})
  void_payment_on_tx pool order_id = do
    auth ← lift (find_posted_authorization pool order_id Operation.void)
    answer ← call_void gateway auth.gateway_reference
    or_gateway_error answer
    on_tx (record_void bytes order_id auth.id auth.currency auth.amount (void_key order_id))
