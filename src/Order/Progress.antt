-- ===== src/Order/Progress.antt =====
-- The event handlers of the order service implement the transitions of the saga.
use koupang.Prelude.{
  ℕ, ◌≡◌, refl, sym, ◌∙◌, Bool, true, false, Option, none, some, List, [], ◌∷◌, ◌++◌, map, arith,
  append-nil,
}
use koupang.Errors.{ok}
use koupang.Action.{Action, ◌>>=◌, with_transaction}
use koupang.Action.Triple.{
  Anything, Ends, Triple, Triple-bind, Triple-given, Triple-weaken, Triple-map_err,
  Triple-with_transaction,
}
use koupang.Json.{Text}
use koupang.Events.{EventEnvelope, EventType, payload_uuid}
use koupang.Consumer.{HandlerError}
use koupang.Order.Types.{
  OrderEntity, OrderStatus, pending, inventory_reserved, payment_authorized, confirmed, cancelled,
  can_cancel, transition_to,
}
use koupang.Order.Repository.{OrderDb, OrderTx, with_status, set_order_status, update_order_status}
use koupang.Order.Consumers.{
  order_for, handle_inventory_reserved, handle_inventory_reservation_failed,
  handle_payment_authorized, cancel_order_on_payment_failure, dispatch_order, handle_order_event,
  reason_or,
}
use koupang.Order.Lifecycle.{
  Transition, reserves, is_not_reserved, confirms, is_not_paid, times_out, Progressed, order_events,
  find-set_order_status, find-other,
}
use koupang.Order.Effects.{
  Starting, moved, order_for-Triple, update_order_status-Triple, write_order_outbox-Triple,
}

abbrev Announced : EventType → EventEnvelope → OrderDb → OrderDb → Type 0
Announced ty e before after =
    (id : ℕ) × ((payload_uuid e "order_id" ≡ ok id) × Progressed ty id before after)

module _ (before after : OrderDb) (e : EventEnvelope) (o : OrderEntity) where
  with_status-kept :
      (t : OrderStatus) (r : Option Text)
      → ((with_status t r o).status ≡ t) × ((with_status t r o).total_amount ≡ o.total_amount)
  with_status-kept t none = (refl, refl)
  with_status-kept t (some x) = (refl, refl)

  progressed :
      (ty : EventType) (t u : OrderStatus) (r : Option Text) (events : List EventType)
      → Starting before e u o
      → Transition ty o.status t events
      → after.orders ≡ (moved before o.id t r).orders
      → order_events after ≡ order_events before ++ map (λ out. (out, o.id)) events
      → Announced ty e before after
  progressed ty t u r events h step same out =
      let (status, sum) = with_status-kept t r in
      (
        o.id,
        (
          h.named,
          record {
            source = o;
            target = with_status t r o;
            found = h.found;
            left = rw same (find-set_order_status o.id t r before.orders o h.found);
            events = events;
            transition = rw status step;
            same_sum = sum;
            published = out;
            others = λ i ne. rw same (find-other o.id t r i before.orders ne);
          },
        ),
      )

cancellable : (s : OrderStatus) → transition_to s cancelled ≡ ok cancelled → can_cancel s ≡ true
unfolding transition_to can_cancel
cancellable s h = ground (arith, h)

reservable :
    (s : OrderStatus) → transition_to s inventory_reserved ≡ ok inventory_reserved → s ≡ pending
unfolding transition_to
reservable s h = ground (arith, h)

payable :
    (s : OrderStatus)
    → transition_to s payment_authorized ≡ ok payment_authorized
    → s ≡ inventory_reserved
unfolding transition_to
payable s h = ground (arith, h)

-- The order is confirmed in the same transaction in which its payment becomes authorized.
confirmed_orders :
    (before after : OrderDb) (e : EventEnvelope) (o : OrderEntity)
    → Starting before e payment_authorized o
    → after.orders ≡ (moved (moved before o.id payment_authorized none) o.id confirmed none).orders
    → order_events after ≡ order_events before ++ (EventType.order_confirmed, o.id) ∷ []
    → Announced EventType.payment_authorized e before after
confirmed_orders before after e o h same out =
    let authorized = with_status payment_authorized none o in
    let once = map (set_order_status o.id payment_authorized none) before.orders in
    (
      o.id,
      (
        h.named,
        record {
          source = o;
          target = with_status confirmed none authorized;
          found = h.found;
          left = rw same (
              find-set_order_status o.id confirmed none once authorized
                (find-set_order_status o.id payment_authorized none before.orders o h.found));
          events = EventType.order_confirmed ∷ [];
          transition = rw (payable o.status h.may) confirms;
          same_sum = refl;
          published = out;
          others = λ i ne. rw same (
              find-other o.id confirmed none i once ne
              ∙ find-other o.id payment_authorized none i before.orders ne);
        },
      ),
    )

module _ (bytes : EventEnvelope → ℕ) (before : OrderDb) (e : EventEnvelope) where
  abbrev Announces : EventType → OrderTx (Unit {0}) → Type 0
  Announces ty m = Triple (λ db. db ≡ before) m (λ _ db. Announced ty e before db) Anything

  -- One update and no event.
  silent :
      (ty : EventType) (t : OrderStatus) (r : Option Text)
      → ((s : OrderStatus) → transition_to s t ≡ ok t → Transition ty s t [])
      → Announces ty (order_for e t >>= λ o. update_order_status o.id t r)
  silent ty t r step = Triple-bind _ (order_for-Triple before e t) (λ o. Triple-given (λ h.
      Triple-weaken (update_order_status-Triple before o.id t r) (λ db st. st)
        (λ _ db st.
          progressed before db e o ty t t r [] h (step o.status h.may) (rw st refl)
            (rw st (sym (append-nil (order_events before)))))))

  cancel-Announces :
      (ty : EventType) (reason : Text)
      → ((s : OrderStatus)
          → can_cancel s ≡ true
          → Transition ty s cancelled (EventType.order_cancelled ∷ []))
      → Announces ty (cancel_order_on_payment_failure bytes e reason)
  unfolding cancel_order_on_payment_failure
  cancel-Announces ty reason step =
      let r = some (reason_or e reason) in
      Triple-bind _ (order_for-Triple before e cancelled) (λ o. Triple-given (λ h.
        Triple-bind _ (update_order_status-Triple before o.id cancelled r) (λ _.
          Triple-weaken
            (write_order_outbox-Triple (moved before o.id cancelled r) bytes o.id
              EventType.order_cancelled _ _)
            (λ db st. st)
            (λ _ db st.
              progressed before db e o ty cancelled cancelled r _ h
                (step o.status (cancellable o.status h.may)) st.0 st.1))))

  confirm-Announces : Announces EventType.payment_authorized (handle_payment_authorized bytes e)
  unfolding handle_payment_authorized
  confirm-Announces = Triple-bind _ (order_for-Triple before e payment_authorized) (λ o.
      Triple-given (λ h.
        Triple-bind _ (update_order_status-Triple before o.id payment_authorized none) (λ _.
          Triple-bind _
            (update_order_status-Triple (moved before o.id payment_authorized none) o.id confirmed
              none)
            (λ _.
              Triple-weaken
                (write_order_outbox-Triple
                  (moved (moved before o.id payment_authorized none) o.id confirmed none) bytes o.id
                  EventType.order_confirmed _ _)
                (λ db st. st) (λ _ db st. confirmed_orders before db e o h st.0 st.1)))))

-- The events that move an order.
abbrev pub moves_order : EventType → Bool
moves_order EventType.inventory_reserved = true
moves_order EventType.inventory_reservation_failed = true
moves_order EventType.payment_authorized = true
moves_order EventType.payment_failed = true
moves_order EventType.payment_timed_out = true
moves_order _ = false

module _ (bytes : EventEnvelope → ℕ) where
  dispatch_order-Announces :
      (before : OrderDb) (e : EventEnvelope) (ty : EventType)
      → moves_order ty ≡ true
      → Announces bytes before e ty (dispatch_order bytes ty e)
  unfolding dispatch_order handle_inventory_reserved handle_inventory_reservation_failed
  dispatch_order-Announces before e EventType.inventory_reserved h =
      silent bytes before e _ inventory_reserved none (λ s may. rw (reservable s may) reserves)
  dispatch_order-Announces before e EventType.inventory_reservation_failed h =
      silent bytes before e _ cancelled _ (λ s may. is_not_reserved (cancellable s may))
  dispatch_order-Announces before e EventType.payment_authorized h =
      confirm-Announces bytes before e
  dispatch_order-Announces before e EventType.payment_failed h =
      cancel-Announces bytes before e _ _ (λ s may. is_not_paid may)
  dispatch_order-Announces before e EventType.payment_timed_out h =
      cancel-Announces bytes before e _ _ (λ s may. times_out may)
  dispatch_order-Announces before e _ h = ground (arith, h)

  -- What the consumer does with an event: `handle`, in a transaction.
  abbrev pub handle_order_tx : EventEnvelope → Action OrderDb HandlerError (Unit {0})
  handle_order_tx e = with_transaction (λ before reached. before) (handle_order_event bytes e)

  -- For an event of the saga, where the handler succeeds: the event names an order; the status of
  -- that order moves by the one transition that belongs to the event, and exactly the events of the
  -- transition are published; its total stays, and no other order changes. Where the handler fails,
  -- the tables are as before. Nothing panics.
  pub handle_order_event-Progressed :
      (e : EventEnvelope) (before : OrderDb)
      → moves_order e.metadata.event_type ≡ true
      → Ends
          (λ _ after.
            (id : ℕ) × ((payload_uuid e "order_id" ≡ ok id)
              × Progressed e.metadata.event_type id before after))
          (λ _ after. after ≡ before)
          (handle_order_tx e before).0
          (handle_order_tx e before).1
  unfolding handle_order_event
  handle_order_event-Progressed e before h =
      (Triple-with_transaction (λ before reached. before)
          (Triple-map_err _ (dispatch_order-Announces before e e.metadata.event_type h))
          (λ s s' st. st)).at
        before refl
