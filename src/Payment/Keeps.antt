-- ===== src/Payment/Keeps.antt =====
-- An invariant of the payment tables that the four writers keep is kept by every operation of
-- payment/src/payments/service.rs and every handler of payment/src/consumers.
use Prim.Native.String.{String}
use koupang.Prelude.{ℕ, Option, some}
use koupang.Prelude.Int.{ℤ}
use koupang.Errors.{Result, ok, err}
use koupang.Action.Keeps.{
  Keeps, keeps_rules, Keeps-pure, Keeps-fail, Keeps-map_err, Keeps-with_transaction,
}
use koupang.Json.{Text, Value}
use koupang.Events.{EventEnvelope, EventType}
use koupang.Payment.Types.{
  PaymentState, IdempotencyKey, GatewayAuthResult, GatewayStatus, GatewayError,
}
use koupang.Payment.Repository.{Db}
use koupang.Payment.Gateway.{PaymentGateway}
use koupang.Payment.Records.{Tx, write_outbox, record_authorization, record_capture, record_void}
use koupang.Payment.Lookup.{Authorization}
use koupang.Payment.Session.{
  Session, set_db, on_tx, in_transaction, call_authorize, call_capture, call_void,
}
use koupang.Payment.Service.{
  or_gateway_error, settle_authorization, authorize_payment, capture_payment, void_payment,
}
use koupang.Payment.OnTx.{
  settle_authorization_on_tx, authorize_payment_on_tx, settle_capture, capture_payment_on_tx,
  void_payment_on_tx,
}
use koupang.Payment.Consumers.{
  LockAnswer, handle_inventory_reserved, handle_order_confirmed, void_if_authorized,
  handle_order_cancelled, retry_capture, handle_capture_retry, dispatch, locked, handle,
}

module _ (bytes : EventEnvelope → ℕ) where
  -- Each writer keeps `Q`.
  pub record Writers (Q : Db → Type 0) : Type 0 where
    pub outbox : (o : ℕ) (ty : EventType) (v : Value) → Keeps Q (write_outbox bytes o ty v)
    pub authorization :
        (o : ℕ) (a : ℤ) (c : Text) (r : String) → Keeps Q (record_authorization bytes o a c r)
    pub capture :
        (o : ℕ) (c : Text) (a : ℤ) (k : IdempotencyKey) (r : String)
        → Keeps Q (record_capture bytes o c a k r)
    pub void :
        (o t : ℕ) (c : Text) (a : ℤ) (k : IdempotencyKey) → Keeps Q (record_void bytes o t c a k)

-- `Q` of the tables of a session.
abbrev InDb : (Db → Type 0) → Session → Type 0
InDb Q s = Q s.db

module _ (Q : Db → Type 0) where
  on_tx-Keeps : {A : Type 0} (m : Tx A) → Keeps Q m → Keeps (InDb Q) (on_tx m)
  unfolding on_tx
  on_tx-Keeps m k = record { at = λ s h. k.at s.db h }

  in_transaction-Keeps : {A : Type 0} (m : Tx A) → Keeps Q m → Keeps (InDb Q) (in_transaction m)
  unfolding in_transaction
  in_transaction-Keeps m k = Keeps-map_err _ _ (
      Keeps-with_transaction (λ before reached. set_db reached before.db) _ (λ s s' h. h)
        (on_tx-Keeps m k))

  call_authorize-Keeps :
      (g : PaymentGateway) (k : IdempotencyKey) (o : ℕ) (a : ℤ) (c : Text)
      → Keeps (InDb Q) (call_authorize g k o a c)
  unfolding call_authorize
  call_authorize-Keeps g k o a c = record { at = λ s h. h }

  call_capture-Keeps : (g : PaymentGateway) (r : String) → Keeps (InDb Q) (call_capture g r)
  unfolding call_capture
  call_capture-Keeps g r = record { at = λ s h. h }

  call_void-Keeps : (g : PaymentGateway) (r : String) → Keeps (InDb Q) (call_void g r)
  unfolding call_void
  call_void-Keeps g r = record { at = λ s h. h }

  or_gateway_error-Keeps :
      {A : Type 0} (r : Result GatewayError A) → Keeps (InDb Q) (or_gateway_error r)
  unfolding or_gateway_error
  or_gateway_error-Keeps (ok a) = Keeps-pure a
  or_gateway_error-Keeps (err e) = Keeps-fail _

ruleset session_rules = (
  keeps_rules, on_tx-Keeps, in_transaction-Keeps, call_authorize-Keeps, call_capture-Keeps,
  call_void-Keeps, or_gateway_error-Keeps,
)

module _ (bytes : EventEnvelope → ℕ) (g : PaymentGateway) (Q : Db → Type 0)
    (w : Writers bytes Q) where
  settle_authorization-Keeps :
      (o : ℕ) (a : ℤ) (c : Text) (r : Result GatewayError GatewayAuthResult)
      → Keeps (InDb Q) (settle_authorization bytes g o a c r)
  unfolding settle_authorization
  settle_authorization-Keeps o a c (ok r) = search (session_rules, w.outbox, w.authorization)
  settle_authorization-Keeps o a c (err e) = search (session_rules, w.outbox)

  pub authorize_payment-Keeps :
      (o : ℕ) (a : ℤ) (c : Text) → Keeps (InDb Q) (authorize_payment bytes g o a c)
  unfolding authorize_payment
  authorize_payment-Keeps o a c = search (session_rules, settle_authorization-Keeps) depth 9

  pub capture_payment-Keeps : (o : ℕ) → Keeps (InDb Q) (capture_payment bytes g o)
  unfolding capture_payment
  capture_payment-Keeps o = search (session_rules, w.capture) depth 9

  pub void_payment-Keeps : (o : ℕ) → Keeps (InDb Q) (void_payment bytes g o)
  unfolding void_payment
  void_payment-Keeps o = search (session_rules, w.void) depth 9

  settle_authorization_on_tx-Keeps :
      (o : ℕ) (a : ℤ) (c : Text) (r : Result GatewayError GatewayAuthResult)
      → Keeps (InDb Q) (settle_authorization_on_tx bytes g o a c r)
  unfolding settle_authorization_on_tx
  settle_authorization_on_tx-Keeps o a c (ok r) = search (session_rules, w.outbox, w.authorization)
  settle_authorization_on_tx-Keeps o a c (err e) = search (session_rules, w.outbox)

  authorize_payment_on_tx-Keeps :
      (pool : Db) (o : ℕ) (a : ℤ) (c : Text)
      → Keeps (InDb Q) (authorize_payment_on_tx bytes g pool o a c)
  unfolding authorize_payment_on_tx
  authorize_payment_on_tx-Keeps pool o a c =
      search (session_rules, settle_authorization_on_tx-Keeps) depth 9

  settle_capture-Keeps :
      (o : ℕ) (auth : Authorization) (n : ℕ) (t : Text) (r : Result GatewayError GatewayStatus)
      → Keeps (InDb Q) (settle_capture bytes g o auth n t r)
  unfolding settle_capture
  settle_capture-Keeps o auth n t (ok r) = search (session_rules, w.capture)
  settle_capture-Keeps o auth n t (err e) = search (session_rules, w.outbox)

  capture_payment_on_tx-Keeps :
      (pool : Db) (o : ℕ) → Keeps (InDb Q) (capture_payment_on_tx bytes g pool o)
  unfolding capture_payment_on_tx
  capture_payment_on_tx-Keeps pool o = search (session_rules, settle_capture-Keeps) depth 9

  void_payment_on_tx-Keeps :
      (pool : Db) (o : ℕ) → Keeps (InDb Q) (void_payment_on_tx bytes g pool o)
  unfolding void_payment_on_tx
  void_payment_on_tx-Keeps pool o = search (session_rules, w.void) depth 9

  void_if_authorized-Keeps :
      (pool : Db) (o : ℕ) (s : PaymentState) → Keeps (InDb Q) (void_if_authorized bytes g pool o s)
  unfolding void_if_authorized
  void_if_authorized-Keeps pool o PaymentState.authorized = void_payment_on_tx-Keeps pool o
  void_if_authorized-Keeps pool o _ = Keeps-pure tt

  retry_capture-Keeps : (pool : Db) (o n : ℕ) → Keeps (InDb Q) (retry_capture bytes g pool o n)
  unfolding retry_capture
  retry_capture-Keeps pool o n = search (session_rules, settle_capture-Keeps) depth 9

  dispatch-Keeps :
      (pool : Db) (ty : EventType) (e : EventEnvelope) → Keeps (InDb Q) (dispatch bytes g pool ty e)
  unfolding dispatch handle_inventory_reserved handle_order_confirmed handle_order_cancelled
      handle_capture_retry
  dispatch-Keeps pool EventType.inventory_reserved e =
      search (session_rules, authorize_payment_on_tx-Keeps) depth 9
  dispatch-Keeps pool EventType.order_confirmed e =
      search (session_rules, capture_payment_on_tx-Keeps) depth 9
  dispatch-Keeps pool EventType.order_cancelled e =
      search (session_rules, void_if_authorized-Keeps) depth 9
  dispatch-Keeps pool EventType.payment_capture_retry_requested e =
      search (session_rules, retry_capture-Keeps, w.outbox) depth 9
  dispatch-Keeps pool _ e = Keeps-pure tt

  locked-Keeps :
      (pool : Db) (lock : Option LockAnswer) (e : EventEnvelope)
      → Keeps (InDb Q) (locked bytes g pool lock e)
  unfolding locked
  locked-Keeps pool (some LockAnswer.already_held) e = Keeps-fail _
  locked-Keeps pool _ e = search (session_rules, dispatch-Keeps)

  pub handle-Keeps :
      (pool : Db) (lock : Option LockAnswer) (e : EventEnvelope)
      → Keeps (InDb Q) (handle bytes g pool lock e)
  unfolding handle
  handle-Keeps pool lock e = search (session_rules, locked-Keeps) depth 9
