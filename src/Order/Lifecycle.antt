-- ===== src/Order/Lifecycle.antt =====
-- What the order service makes of an event: the status of one order moves by a transition of the
-- saga, with the event that announces it.
use koupang.Prelude.{ℕ, ◌≡◌, ◌≢◌, refl, true, Option, some, List, [], ◌∷◌, ◌++◌, map, find, arith}
use koupang.Json.{Text}
use koupang.Events.{EventType}
use koupang.Order.Types.{
  OrderEntity, OrderStatus, pending, inventory_reserved, confirmed, cancelled, can_cancel,
}
use koupang.Order.Repository.{OrderDb, is_order, with_status, set_order_status}

-- By the event that comes in: the status before and after, and the events that go out.
pub data Transition : EventType → OrderStatus → OrderStatus → List EventType → Type 0 where
  reserves : Transition EventType.inventory_reserved pending inventory_reserved []
  is_not_reserved :
      {s : OrderStatus}
      → can_cancel s ≡ true
      → Transition EventType.inventory_reservation_failed s cancelled []
  confirms :
      Transition EventType.payment_authorized inventory_reserved confirmed
        (EventType.order_confirmed ∷ [])
  is_not_paid :
      {s : OrderStatus}
      → can_cancel s ≡ true
      → Transition EventType.payment_failed s cancelled (EventType.order_cancelled ∷ [])
  times_out :
      {s : OrderStatus}
      → can_cancel s ≡ true
      → Transition EventType.payment_timed_out s cancelled (EventType.order_cancelled ∷ [])

-- The events in the outbox, each with the order that it is about, oldest first.
abbrev pub order_events : OrderDb → List (EventType × ℕ)
order_events db = map (λ row. (row.event_type, row.aggregate_id)) db.outbox.rows

abbrev pub order_of : OrderDb → ℕ → Option OrderEntity
order_of db id = find (is_order id) db.orders

-- `after` comes from `before` by an event of type `ty` about the order.
pub record Progressed (ty : EventType) (id : ℕ) (before after : OrderDb) : Type 0 where
  pub source : OrderEntity
  pub target : OrderEntity
  pub found : order_of before id ≡ some source
  pub left : order_of after id ≡ some target
  pub events : List EventType
  pub transition : Transition ty source.status target.status events
  pub same_sum : target.total_amount ≡ source.total_amount
  pub published : order_events after ≡ order_events before ++ map (λ out. (out, id)) events
  pub others : (i : ℕ) → i ≢ id → order_of after i ≡ order_of before i

module _ (id : ℕ) (status : OrderStatus) (reason : Option Text) where
  pub find-set_order_status :
      (os : List OrderEntity) (o : OrderEntity)
      → find (is_order id) os ≡ some o
      → find (is_order id) (map (set_order_status id status reason) os)
        ≡ some (with_status status reason o)
  find-set_order_status [] o h = ground (arith, h)
  find-set_order_status (x ∷ xs) o h = ground (arith, h, find-set_order_status xs o)

  pub find-other :
      (i : ℕ) (os : List OrderEntity)
      → i ≢ id
      → find (is_order i) (map (set_order_status id status reason) os) ≡ find (is_order i) os
  find-other i [] ne = refl
  find-other i (x ∷ xs) ne = ground (arith, ne, find-other i xs ne)

pub find-id :
    (id : ℕ) (os : List OrderEntity) (o : OrderEntity) → find (is_order id) os ≡ some o → o.id ≡ id
find-id id [] o h = ground (arith, h)
find-id id (x ∷ xs) o h = ground (arith, h, find-id id xs o)
