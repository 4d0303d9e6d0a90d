-- ===== src/Payment/Dispatch.antt =====
-- The dispatch of payment/src/consumers/handler.rs implements the promised changes.
use koupang.Prelude.{ℕ, ◌≡◌, refl, sym, ◌∙◌, subst, Option, some, leb, arith}
use koupang.Errors.{AppError, Result, ok}
use koupang.Action.{Action, ◌>>=◌, lift, with_transaction}
use koupang.Action.Triple.{
  Ends, Triple-bind, Triple-pure, Triple-fail, Triple-lift, Triple-if, Triple-given,
  Triple-with_transaction, Triple-map_err,
}
use koupang.Events.{EventEnvelope, EventType, payload_uuid}
use koupang.Payment.Repository.{Db}
use koupang.Payment.Gateway.{PaymentGateway}
use koupang.Payment.Session.{Session, Service, set_db}
use koupang.Consumer.{HandlerError}
use koupang.Payment.Consumers.{
  LockAnswer, handle_inventory_reserved, handle_order_confirmed, handle_order_cancelled,
  handle_capture_retry, dispatch, locked, handle, is_relevant, max_capture_retries, retry_count,
}
use koupang.Payment.Lifecycle.{state_of, IsOrdered, Refines, reports_failure}
use koupang.Payment.Refinement.{unchanged-Refines}
use koupang.Payment.Writes.{write_outbox-Refines}
use koupang.Payment.Operations.{Starts, on_tx-Refines}
use koupang.Payment.Handling.{
  Advances, authorize_payment_on_tx-Advances, capture_payment_on_tx-Advances,
  retry_capture-Advances, void_if_authorized-Advances,
}

module _ (bytes : EventEnvelope → ℕ) (g : PaymentGateway) (o : ℕ) (before : Db)
    (ordered : IsOrdered before) (e : EventEnvelope)
    (named : payload_uuid e "order_id" ≡ ok o) where
  -- A handler goes on with the order that the event names.
  with_order :
      {A : Type 0} (k : ℕ → Service A)
      → Advances bytes g o before ordered (k o)
      → Advances bytes g o before ordered (lift (payload_uuid e "order_id") >>= k)
  with_order k h =
      Triple-bind (λ id s. (id ≡ o) × Starts o before s)
        (Triple-lift _ (λ id s same st. (ok_injective id (sym same ∙ named), st))
          (λ x s same st. tt))
        (λ id.
          Triple-given (λ same. subst (λ i. Advances bytes g o before ordered (k i)) (sym same) h))
    where
      the_ok : ℕ → Result AppError ℕ
      the_ok id = ok id

      ok_injective : (id : ℕ) → the_ok id ≡ ok o → id ≡ o
      ok_injective id same = ground (arith, same)

  dispatch-Advances :
      (ty : EventType) → Advances bytes g o before ordered (dispatch bytes g before ty e)
  unfolding dispatch handle_inventory_reserved handle_order_confirmed handle_order_cancelled
      handle_capture_retry
  dispatch-Advances EventType.inventory_reserved = with_order _ (
      Triple-bind (λ _. Starts o before) (Triple-lift _ (λ a s same st. st) (λ x s same st. tt))
        (λ a. authorize_payment_on_tx-Advances bytes g o before ordered a _))
  dispatch-Advances EventType.order_confirmed =
      with_order _ (capture_payment_on_tx-Advances bytes g o before ordered)
  dispatch-Advances EventType.order_cancelled =
      with_order _ (void_if_authorized-Advances bytes g o before ordered (state_of before o))
  dispatch-Advances EventType.payment_capture_retry_requested = with_order _ (
      Triple-if (leb max_capture_retries (retry_count e)) _ _
        (λ _.
          on_tx-Refines o before _
            (write_outbox-Refines bytes o before ordered _ _ reports_failure))
        (λ _. retry_capture-Advances bytes g o before ordered _))
  dispatch-Advances _ = Triple-pure tt (λ s h. rw h (unchanged-Refines o before ordered))

  locked-Advances :
      (lock : Option LockAnswer) → Advances bytes g o before ordered (locked bytes g before lock e)
  unfolding locked
  locked-Advances (some LockAnswer.already_held) = Triple-fail _ (λ s h. tt)
  locked-Advances _ = Triple-map_err _ (dispatch-Advances e.metadata.event_type)

  handle-Advances :
      (lock : Option LockAnswer) → Advances bytes g o before ordered (handle bytes g before lock e)
  unfolding handle
  handle-Advances lock =
      Triple-if (is_relevant e.metadata.event_type) _ _
        (λ _.
          Triple-bind (λ _. Starts o before)
            (Triple-map_err _ (Triple-lift _ (λ id s same st. st) (λ x s same st. tt)))
            (λ _. locked-Advances lock))
        (λ _. Triple-pure tt (λ s h. rw h (unchanged-Refines o before ordered)))

module _ (bytes : EventEnvelope → ℕ) (gateway : PaymentGateway) where
  -- What the consumer does with an event: `handle`, in a transaction on the committed tables.
  abbrev pub handle_event :
      Option LockAnswer → EventEnvelope → Action Session HandlerError (Unit {0})
  handle_event lock e s =
      with_transaction (λ before reached. set_db reached before.db)
        (handle bytes gateway s.db lock e) s

  -- For an event that names an order, whatever the gateway and the lock answer: nothing panics; a
  -- success changes the tables as the lifecycle of that order allows, publishes the events that
  -- belong to the change, and moves no other order; after a failure the tables are as before.
  pub handle_event-Refines :
      (order_id : ℕ) (lock : Option LockAnswer) (e : EventEnvelope) (s : Session)
      → IsOrdered s.db
      → payload_uuid e "order_id" ≡ ok order_id
      → Ends
          (λ _ s'. Refines order_id s.db s'.db)
          (λ _ s'. s'.db ≡ s.db)
          (handle_event lock e s).0
          (handle_event lock e s).1
  handle_event-Refines o lock e s ordered named =
      (Triple-with_transaction (λ before reached. set_db reached before.db)
          (handle-Advances bytes gateway o s.db ordered e named lock) (λ before reached h. h)).at
        s refl
