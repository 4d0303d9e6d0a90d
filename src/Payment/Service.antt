-- ===== src/Payment/Service.antt =====
-- The operations of payment/src/payments/service.rs that the HTTP routes call: they read the
-- committed tables, call the gateway, and write in a transaction of their own.
use koupang.Prelude.{ℕ, negate, if◌then◌else◌}
use koupang.Prelude.Int.{ℤ, eqb_ℤ}
use koupang.Errors.{Result, ok, err}
use koupang.Action.{pure, fail, gets, lift, ◌>>=◌, ◌>>◌}
use koupang.Json.{Text, lit, append, decimal}
use koupang.Events.{EventEnvelope, EventType}
use koupang.Payment.Types.{
  Operation, GatewayAuthResult, GatewayError, auth_key, capture_key, void_key, amount_tampered,
  from_gateway_error, to_app_error,
}
use koupang.Payment.Repository.{
  get_transaction_by_idempotency_key, list_transactions_by_order, derive_payment_state,
}
use koupang.Payment.Gateway.{PaymentGateway}
use koupang.Payment.Lookup.{in_progress, validate_authorization, find_posted_authorization}
use koupang.Payment.Records.{
  write_outbox, record_authorization, record_capture, record_void, failure_payload,
}
use koupang.Payment.Session.{Service, in_transaction, call_authorize, call_capture, call_void}

-- The reason that an event about a tampered amount gives.
abbrev pub tampered_reason : ℤ → ℤ → Text
tampered_reason requested approved =
    append (lit "Amount tampering: requested=")
      (append (decimal requested) (append (lit ", approved=") (decimal approved)))

-- `gateway.….await.map_err(PaymentError::from)?`.
unfoldable pub or_gateway_error : {A : Type 0} → Result GatewayError A → Service A
or_gateway_error (ok a) = pure a
or_gateway_error (err e) = fail (to_app_error (from_gateway_error e))

module _ (bytes : EventEnvelope → ℕ) (gateway : PaymentGateway) where
  -- `handle_tampered_amount`: the error of the void is only logged.
  unfoldable pub handle_tampered_amount : ℕ → ℤ → GatewayAuthResult → Service (Unit {0})
  handle_tampered_amount order_id requested result = do
    call_void gateway result.gateway_reference
    in_transaction (
        write_outbox bytes order_id EventType.payment_failed
          (failure_payload order_id (tampered_reason requested result.approved_amount)))
    fail (to_app_error (amount_tampered requested result.approved_amount))

  -- The `match auth_result` of `authorize_payment`.
  unfoldable pub settle_authorization :
      ℕ → ℤ → Text → Result GatewayError GatewayAuthResult → Service (Unit {0})
  unfolding handle_tampered_amount
  settle_authorization order_id amount currency (ok result) =
      if negate (eqb_ℤ result.approved_amount amount)
      then handle_tampered_amount order_id amount result
      else in_transaction
          (record_authorization bytes order_id amount currency result.gateway_reference)
  settle_authorization order_id amount currency (err gw_err) = in_transaction (
      write_outbox bytes order_id EventType.payment_failed
        (failure_payload order_id gw_err.message))

  unfoldable pub authorize_payment : ℕ → ℤ → Text → Service (Unit {0})
  unfolding settle_authorization
  authorize_payment order_id amount currency = do
    existing ← gets (λ s. get_transaction_by_idempotency_key s.db (auth_key order_id))
    state ← gets (λ s. derive_payment_state (list_transactions_by_order s.db order_id))
    if in_progress existing then pure tt else (do
      lift (validate_authorization amount currency state)
      auth_result ← call_authorize gateway (auth_key order_id) order_id amount currency
      settle_authorization order_id amount currency auth_result)

  unfoldable pub capture_payment : ℕ → Service (Unit {0})
  capture_payment order_id = do
    found ← gets (λ s. find_posted_authorization s.db order_id Operation.capture)
    auth ← lift found
    answer ← call_capture gateway auth.gateway_reference
    or_gateway_error answer
    in_transaction (
        record_capture bytes order_id auth.currency auth.amount (capture_key order_id)
          auth.gateway_reference)

  unfoldable pub void_payment : ℕ → Service (Unit {0})
  void_payment order_id = do
    found ← gets (λ s. find_posted_authorization s.db order_id Operation.void)
    auth ← lift found
    answer ← call_void gateway auth.gateway_reference
    or_gateway_error answer
    in_transaction
        (record_void bytes order_id auth.id auth.currency auth.amount (void_key order_id))
