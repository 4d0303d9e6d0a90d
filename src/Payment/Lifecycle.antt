-- ===== src/Payment/Lifecycle.antt =====
-- What a payment service promises, with the tables forgotten: the payment state of each order, the
-- events that have been published, and the changes that one operation may make to them.
use koupang.Prelude.{ℕ, ◌≡◌, ◌≢◌, List, [], ◌∷◌, ◌++◌, map, ◌<◌}
use koupang.Events.{
  EventType, payment_authorized, payment_failed, payment_captured, payment_voided,
  payment_capture_retry_requested,
}
use koupang.Payment.Types.{
  PaymentState, new, failed, authorized, captured, voided, LedgerTransactionEntity,
}
use koupang.Payment.Repository.{Db, list_transactions_by_order, derive_payment_state}

abbrev pub state_of : Db → ℕ → PaymentState
state_of db order_id = derive_payment_state (list_transactions_by_order db order_id)

-- The events in the outbox, each with the order that it is about, oldest first.
abbrev pub events_of : Db → List (EventType × ℕ)
events_of db = map (λ row. (row.event_type, row.aggregate_id)) db.outbox.rows

-- The ids of the transactions, newest first, strictly descend from below `n`.
abbrev pub Descending : ℕ → List LedgerTransactionEntity → Type 0
Descending n [] = Unit
Descending n (t ∷ ts) = (t.id < n) × Descending t.id ts

abbrev pub IsOrdered : Db → Type 0
IsOrdered db = Descending db.next_id db.transactions

-- How one operation may move the payment of its order, and the events that it then publishes.
pub data Effect : PaymentState → PaymentState → List EventType → Type 0 where
  nothing : {s : PaymentState} → Effect s s []
  reports_failure : {s : PaymentState} → Effect s s (payment_failed ∷ [])
  requests_retry : Effect authorized authorized (payment_capture_retry_requested ∷ [])
  authorizes : Effect new authorized (payment_authorized ∷ [])
  reauthorizes : Effect failed authorized (payment_authorized ∷ [])
  captures : Effect authorized captured (payment_captured ∷ [])
  voids : Effect authorized voided (payment_voided ∷ [])

-- `after` comes from `before` by an operation on `order_id`.
pub record Refines (order_id : ℕ) (before after : Db) : Type 0 where
  pub ordered : IsOrdered after
  pub events : List EventType
  pub effect : Effect (state_of before order_id) (state_of after order_id) events
  pub published : events_of after ≡ events_of before ++ map (λ ty. (ty, order_id)) events
  pub others : (o : ℕ) → o ≢ order_id → state_of after o ≡ state_of before o
