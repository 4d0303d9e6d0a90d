-- ===== src/Order/Consuming.antt =====
-- The consumer of the order service: order/src/consumers on the loop of
-- shared/src/events/consumer.rs. Its handler works on the tables of its transaction alone.
use koupang.Prelude.{
  ℕ, ◌≤◌, ◌≡◌, refl, sym, ◌∙◌, subst, true, false, Option, none, some, List, ◌==◌, ==_iff, inl, inr,
  Bool-cases, arith,
}
use koupang.Action.{
  Outcome, done, failed, panicked, commit_or_restore, with_transaction, map_err, pure,
}
use koupang.Action.Triple.{Ends}
use koupang.Events.{EventEnvelope, EventType, payload_uuid}
use koupang.Errors.{ok}
use koupang.Consumer.Errors.{HandlerError}
use koupang.Consumer.Loop.{Transactional, Step, ConsumerConfig, ConsumerState, process_all}
use koupang.Consumer.Service.{Ended, process_all-service}
use koupang.Order.Types.{OrderStatus, OrderEntity, can_cancel}
use koupang.Order.Repository.{OrderDb}
use koupang.Order.Consumers.{handle_order_event, dispatch_order}
use koupang.Order.Status.{progress}
use koupang.Order.Lifecycle.{
  Transition, reserves, is_not_reserved, confirms, is_not_paid, times_out, Progressed, order_of,
}
use koupang.Order.Progress.{moves_order, handle_order_tx, handle_order_event-Progressed}

abbrev pub order_transaction : Transactional OrderDb
order_transaction = record {
  begin = λ db. db;
  commit = λ db. db;
  rollback = λ before reached. before;
}

-- An order is never lost or made by the consumer, its sum stays, and it never goes back.
abbrev pub Onward : Option OrderEntity → Option OrderEntity → Type 0
Onward none none = Unit
Onward (some o) (some p) =
    (progress o.status ≤ progress p.status) × (p.total_amount ≡ o.total_amount)
Onward _ _ = ⊥

Onward-refl : (o : Option OrderEntity) → Onward o o
Onward-refl none = tt
Onward-refl (some o) = (omega arith, refl)

Onward-trans : (a b c : Option OrderEntity) → Onward a b → Onward b c → Onward a c
Onward-trans none none none h k = tt
Onward-trans (some a) (some b) (some c) h k = (omega (arith, h.0, k.0), k.1 ∙ h.1)
Onward-trans none none (some c) h k = elim k [ ]
Onward-trans none (some b) c h k = elim h [ ]
Onward-trans (some a) none c h k = elim h [ ]
Onward-trans (some a) (some b) none h k = elim k [ ]

cancellable-progress : (s : OrderStatus) → can_cancel s ≡ true → progress s ≤ 6
unfolding can_cancel
cancellable-progress s h = ground (arith, h)

Transition-progress :
    {ty : EventType} {s t : OrderStatus} {es : List EventType}
    → Transition ty s t es
    → progress s ≤ progress t
Transition-progress reserves = omega arith
Transition-progress (is_not_reserved {s = s} h) = cancellable-progress s h
Transition-progress confirms = omega arith
Transition-progress (is_not_paid {s = s} h) = cancellable-progress s h
Transition-progress (times_out {s = s} h) = cancellable-progress s h

Progressed-Onward :
    (ty : EventType) (id : ℕ) (before after : OrderDb)
    → Progressed ty id before after
    → (i : ℕ) → Onward (order_of before i) (order_of after i)
Progressed-Onward ty id before after p i = elim (Bool-cases (i == id)) [
  | inl e ↦
      subst (λ (x : ℕ). Onward (order_of before x) (order_of after x)) (sym ((==_iff i id).0 e))
        (rw (p.found, p.left) (Transition-progress p.transition, p.same_sum))
  | inr e ↦ rw (p.others i (λ same. ground (arith, e, same))) (Onward-refl (order_of before i))
]

module _ (bytes : EventEnvelope → ℕ) where
  -- An event that moves no order.
  other_event :
      (e : EventEnvelope) (db : OrderDb)
      → moves_order e.metadata.event_type ≡ false
      → handle_order_event bytes e db ≡ (done tt, db)
  unfolding handle_order_event dispatch_order map_err pure
  other_event e db h = rw (by_type e.metadata.event_type h) refl
    where
      by_type :
          (ty : EventType) → moves_order ty ≡ false → dispatch_order bytes ty e db ≡ (done tt, db)
      by_type EventType.inventory_reserved k = absurd (ground (arith, k))
      by_type EventType.inventory_reservation_failed k = absurd (ground (arith, k))
      by_type EventType.payment_authorized k = absurd (ground (arith, k))
      by_type EventType.payment_failed k = absurd (ground (arith, k))
      by_type EventType.payment_timed_out k = absurd (ground (arith, k))
      by_type EventType.order_created k = refl
      by_type EventType.order_confirmed k = refl
      by_type EventType.order_cancelled k = refl
      by_type EventType.inventory_released k = refl
      by_type EventType.payment_captured k = refl
      by_type EventType.payment_voided k = refl
      by_type EventType.payment_capture_retry_requested k = refl

  -- What the transaction leaves, from what the handler does in it.
  moved :
      (e : EventEnvelope) (db : OrderDb) (i : ℕ)
      → Onward (order_of db i) (order_of (handle_order_tx bytes e db).1 i)
  unfolding with_transaction
  moved e db i = elim (Bool-cases (moves_order e.metadata.event_type)) [
    | inl m ↦
        progressed (handle_order_tx bytes e db).0 (handle_order_tx bytes e db).1
          (handle_order_event-Progressed bytes e db m)
    | inr m ↦ rw (other_event e db m) (Onward-refl (order_of db i))
  ]
    where
      progressed :
          (r : Outcome HandlerError (Unit {0})) (after : OrderDb)
          → Ends
              (λ _ after.
                (id : ℕ) × ((payload_uuid e "order_id" ≡ ok id)
                  × Progressed e.metadata.event_type id db after))
              (λ _ after. after ≡ db)
              r
              after
          → Onward (order_of db i) (order_of after i)
      progressed (done u) after h = Progressed-Onward e.metadata.event_type h.0 db after h.1.1 i
      progressed (failed x) after h = rw h (Onward-refl (order_of db i))
      progressed panicked after h = elim h [ ]

  module _ (start : OrderDb) where
    abbrev Keeps : OrderDb → Type 0
    Keeps db = (i : ℕ) → Onward (order_of start i) (order_of db i)

    handled-Keeps :
        (e : EventEnvelope) (db : OrderDb)
        → Keeps db
        → Ended order_transaction Keeps db
            (handle_order_event bytes e db).0
            (handle_order_event bytes e db).1
    unfolding with_transaction
    handled-Keeps e db h =
        ended (handle_order_event bytes e db).0 (handle_order_event bytes e db).1 (moved e db)
      where
        ended :
            (r : Outcome HandlerError (Unit {0})) (reached : OrderDb)
            → ((i : ℕ) → Onward (order_of db i) (order_of (commit_or_restore r db reached) i))
            → Ended order_transaction Keeps db r reached
        ended (done u) reached k = ((λ i. Onward-trans _ _ _ (h i) (k i)), h)
        ended (failed x) reached k = h
        ended panicked reached k = h

  -- Whatever is delivered to the order consumer, in whatever order and however often, and whatever
  -- the database answers: it loses and makes no order, leaves the sum of each order as it is, and
  -- moves no order back along its life.
  pub orders-Onward :
      (config : ConsumerConfig) (ds : List Step) (s : ConsumerState OrderDb) (order_id : ℕ)
      → Onward (order_of s.service order_id) (
          order_of
            (process_all order_transaction config (handle_order_event bytes) ds s).service
            order_id)
  orders-Onward config ds s order_id =
      process_all-service order_transaction config (handle_order_event bytes) (Keeps s.service)
        (handled-Keeps s.service) ds s (λ i. Onward-refl (order_of s.service i)) order_id
