-- ===== src/Payment/Handling.antt =====
-- The event handlers implement the promised changes to the order that the event names, in the
-- transaction that the consumer rolls back when the handler fails.
use koupang.Prelude.{ℕ, ◌≡◌, refl, ◌⊎◌, inl, inr, negate}
use koupang.Prelude.Int.{ℤ, eqb_ℤ}
use koupang.Errors.{AppError, Result, ok, err}
use koupang.Action.{Action, lift, pure}
use koupang.Action.Triple.{
  Triple, Triple-bind, Triple-pure, Triple-fail, Triple-lift, Triple-if, Triple-given,
}
use koupang.Json.{Text}
use koupang.Events.{EventEnvelope}
use koupang.Payment.Types.{
  Operation, auth_key, GatewayAuthResult, GatewayStatus, GatewayError, new, PaymentState,
}
use koupang.Payment.Repository.{Db}
use koupang.Payment.Gateway.{PaymentGateway}
use koupang.Payment.Lookup.{Authorization, find_posted_authorization}
use koupang.Payment.Session.{Session}
use koupang.Payment.Service.{or_gateway_error}
use koupang.Payment.OnTx.{
  settle_authorization_on_tx, authorize_payment_on_tx, settle_capture, capture_payment_on_tx,
  void_payment_on_tx,
}
use koupang.Payment.Consumers.{void_if_authorized, retry_capture}
use koupang.Payment.Lifecycle.{state_of, IsOrdered, Refines, reports_failure, requests_retry}
use koupang.Payment.Validation.{validate_authorization_iff, find_posted_authorization-Found, Found}
use koupang.Payment.Refinement.{unchanged-Refines}
use koupang.Payment.Writes.{
  write_outbox-Refines, record_authorization-Refines, record_capture-Refines, record_void-Refines,
}
use koupang.Payment.Operations.{
  Starts, on_tx-Refines, call_authorize-Starts, call_capture-Starts, call_void-Starts,
}

module _ (bytes : EventEnvelope → ℕ) (g : PaymentGateway) (o : ℕ) (before : Db)
    (ordered : IsOrdered before) where
  -- Implements its change if it succeeds.
  abbrev pub Advances : {E A : Type 0} → Action Session E A → Type 0
  Advances m = Triple (Starts o before) m (λ _ s. Refines o before s.db) (λ _ s. Unit)

  settle_authorization_on_tx-Advances :
      (a : ℤ) (c : Text) (r : Result GatewayError GatewayAuthResult)
      → (state_of before o ≡ new) ⊎ (state_of before o ≡ PaymentState.failed)
      → Advances (settle_authorization_on_tx bytes g o a c r)
  unfolding settle_authorization_on_tx
  settle_authorization_on_tx-Advances a c (ok r) unpaid =
      Triple-if (negate (eqb_ℤ r.approved_amount a)) _ _
        (λ tampered.
          Triple-bind (λ _. Starts o before) (call_void-Starts o before g r.gateway_reference)
            (λ _.
              Triple-bind (λ _ s. Refines o before s.db)
                (on_tx-Refines o before _
                  (write_outbox-Refines bytes o before ordered _ _ reports_failure))
                (λ _. Triple-fail _ (λ s h. tt))))
        (λ same.
          on_tx-Refines o before _
            (record_authorization-Refines bytes o before ordered a c r.gateway_reference unpaid))
  settle_authorization_on_tx-Advances a c (err e) unpaid =
      on_tx-Refines o before _ (write_outbox-Refines bytes o before ordered _ _ reports_failure)

  pub authorize_payment_on_tx-Advances :
      (a : ℤ) (c : Text) → Advances (authorize_payment_on_tx bytes g before o a c)
  unfolding authorize_payment_on_tx
  authorize_payment_on_tx-Advances a c =
      Triple-if _ _ _ (λ _. Triple-pure tt (λ s h. rw h (unchanged-Refines o before ordered)))
        (λ _.
          Triple-bind
            (λ _ s.
              ((state_of before o ≡ new) ⊎ (state_of before o ≡ PaymentState.failed))
              × Starts o before s)
            (Triple-lift _
              (λ u s e h. (((validate_authorization_iff a c (state_of before o)).0 e).is_open, h))
              (λ x s e h. tt))
            (λ _. Triple-given (λ unpaid.
              Triple-bind (λ _. Starts o before)
                (call_authorize-Starts o before g (auth_key o) o a c)
                (λ r. settle_authorization_on_tx-Advances a c r unpaid))))

  settle_capture-Advances :
      (auth : Authorization) (n : ℕ) (t : Text) (r : Result GatewayError GatewayStatus)
      → Found before o auth
      → Advances (settle_capture bytes g o auth n t r)
  unfolding settle_capture
  settle_capture-Advances auth n t (ok r) f =
      on_tx-Refines o before _ (record_capture-Refines bytes o before ordered _ _ _ _ f.authorized)
  settle_capture-Advances auth n t (err e) f =
      Triple-if e.is_retryable _ _
        (λ _.
          on_tx-Refines o before _
            (write_outbox-Refines bytes o before ordered _ _ (rw f.authorized requests_retry)))
        (λ _.
          on_tx-Refines o before _
            (write_outbox-Refines bytes o before ordered _ _ reports_failure))

  -- The authorization that a capture or a void starts from.
  Found-Triple :
      (op : Operation)
      → (op ≡ Operation.capture) ⊎ (op ≡ Operation.void)
      → Triple {E = AppError}
          (Starts o before)
          (lift (find_posted_authorization before o op))
          (λ auth s. Found before o auth × Starts o before s)
          (λ _ s. Unit)
  Found-Triple op h =
      Triple-lift _ (λ auth s e st. (find_posted_authorization-Found before o op auth h e, st))
        (λ x s e st. tt)

  pub retry_capture-Advances : (n : ℕ) → Advances (retry_capture bytes g before o n)
  unfolding retry_capture
  retry_capture-Advances n = Triple-bind _ (Found-Triple Operation.capture (inl refl)) (λ auth.
      Triple-given (λ f.
        Triple-bind (λ _. Starts o before) (call_capture-Starts o before g auth.gateway_reference)
          (λ r. settle_capture-Advances auth _ _ r f)))

  pub capture_payment_on_tx-Advances : Advances (capture_payment_on_tx bytes g before o)
  unfolding capture_payment_on_tx
  capture_payment_on_tx-Advances =
      Triple-bind _ (Found-Triple Operation.capture (inl refl)) (λ auth. Triple-given (λ f.
        Triple-bind (λ _. Starts o before) (call_capture-Starts o before g auth.gateway_reference)
          (λ r. settle_capture-Advances auth _ _ r f)))

  or_gateway_error-Starts :
      {A : Type 0} (r : Result GatewayError A)
      → Triple (Starts o before) (or_gateway_error r) (λ _. Starts o before) (λ _ s. Unit)
  unfolding or_gateway_error
  or_gateway_error-Starts (ok a) = Triple-pure a (λ s e. e)
  or_gateway_error-Starts (err x) = Triple-fail _ (λ s e. tt)

  void_payment_on_tx-Advances : Advances (void_payment_on_tx bytes g before o)
  unfolding void_payment_on_tx
  void_payment_on_tx-Advances = Triple-bind _ (Found-Triple Operation.void (inr refl)) (λ auth.
      Triple-given (λ f.
        Triple-bind (λ _. Starts o before) (call_void-Starts o before g auth.gateway_reference)
          (λ r.
            Triple-bind (λ _. Starts o before) (or_gateway_error-Starts r)
              (λ _.
                on_tx-Refines o before _
                  (record_void-Refines bytes o before ordered auth _ _ _ f)))))

  unmoved : Advances (pure {E = AppError} tt)
  unmoved = Triple-pure tt (λ s h. rw h (unchanged-Refines o before ordered))

  pub void_if_authorized-Advances :
      (s : PaymentState) → Advances (void_if_authorized bytes g before o s)
  unfolding void_if_authorized
  void_if_authorized-Advances PaymentState.authorized = void_payment_on_tx-Advances
  void_if_authorized-Advances _ = unmoved
