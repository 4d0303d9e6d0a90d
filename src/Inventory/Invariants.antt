-- ===== src/Inventory/Invariants.antt =====
-- The services and the event handlers of the inventory keep the counters right.
use koupang.Prelude.{ℕ, Bool-cases, inl, inr, ltb, ◌≡◌, refl, List, [], ◌∷◌}
use koupang.Errors.{AppError, Result, ok, err, internal_server_error, bad_request}
use koupang.Action.{
  Action, Outcome, done, failed, panicked, map_err, ignore, forget, zoom, with_transaction,
}
use koupang.Action.Triple.{
  Anything, Triple, Ends, Triple-bind, Triple-pure, Triple-gets, Triple-with_transaction,
  Triple-map_err, Triple-fail, Triple-attempt,
}
use koupang.Json.{Text, Value}
use koupang.Events.{EventEnvelope, EventType}
use koupang.Outbox.{OutboxTable, OutboxInsert, max_payload_bytes, insert_outbox_event}
use koupang.Inventory.Tables.{InventoryDb, InventoryTx, InventoryReservationEntity}
use koupang.Inventory.Repository.{release_each, release_all_reservations}
use koupang.Inventory.Service.{
  set_inventory_outbox, ReservationItem, reserve_each, confirm_each, write_inventory_event,
  do_reserve_and_write_event, reserve_for_order, write_reservation_failed, report,
  release_for_order, confirm_for_order,
}
use koupang.Inventory.Stock.{IsStocked}
use koupang.Inventory.Reserving.{reserve_inventory-IsStocked}
use koupang.Inventory.Closing.{release_reservation-IsStocked, confirm_reservation-IsStocked}

from_known :
    {S E A : Type 0} {P : S → Type 0} {Q : A → S → Type 0} {F : E → S → Type 0} {m : Action S E A}
    → ((before : S) → P before → Triple (λ s. s ≡ before) m Q F)
    → Triple P m Q F
from_known k = record { at = λ s h. (k s h).at s refl }

abbrev Stocks : {A : Type 0} → InventoryTx A → Type 0
Stocks m = Triple IsStocked m (λ _ db. IsStocked db) Anything

-- Also when it fails.
abbrev pub Keeping : {A : Type 0} → InventoryTx A → Type 0
Keeping m = Triple IsStocked m (λ _ db. IsStocked db) (λ _ db. IsStocked db)

reserve_each-Stocks : (o : ℕ) (items : List ReservationItem) → Stocks (reserve_each o items)
unfolding reserve_each
reserve_each-Stocks o [] = Triple-pure tt (λ _ h. h)
reserve_each-Stocks o (i ∷ is) =
    Triple-bind (λ _ db. IsStocked db) (from_known (reserve_inventory-IsStocked o i.0 i.1))
      (λ _. reserve_each-Stocks o is)

confirm_each-Stocks : (o : ℕ) (items : List ReservationItem) → Keeping (confirm_each o items)
unfolding confirm_each
confirm_each-Stocks o [] = Triple-pure tt (λ _ h. h)
confirm_each-Stocks o (i ∷ is) =
    Triple-bind (λ _ db. IsStocked db) (from_known (confirm_reservation-IsStocked o i.0))
      (λ _. confirm_each-Stocks o is)

release_each-Stocks : (o : ℕ) (rs : List InventoryReservationEntity) → Keeping (release_each o rs)
unfolding release_each
release_each-Stocks o [] = Triple-pure tt (λ _ h. h)
release_each-Stocks o (r ∷ rs) =
    Triple-bind (λ _ db. IsStocked db) (from_known (release_reservation-IsStocked o r.sku_id))
      (λ _. release_each-Stocks o rs)

pub release_all-Stocks : (o : ℕ) → Keeping (release_all_reservations o)
unfolding release_all_reservations
release_all-Stocks o =
    Triple-bind (λ _ db. IsStocked db) (Triple-gets _ (λ _ h. h)) (λ rs. release_each-Stocks o rs)

with_outbox :
    (db : InventoryDb) (t : OutboxTable) → IsStocked db → IsStocked (record db { outbox = t })
with_outbox db t h = record {
  counted = λ i s found live.
      let c = h.counted i s found live in record { exact = c.exact; within = c.within };
  positive = h.positive;
  ordered = h.ordered;
}

-- What fails in a transaction is taken back.
rolled_back :
    {A : Type 0} {m : InventoryTx A} {D : AppError → InventoryDb → Type 0}
    → Triple IsStocked m (λ _ db. IsStocked db) D
    → Keeping (with_transaction (λ before reached. before) m)
rolled_back k = Triple-with_transaction (λ before reached. before) k (λ _ _ h. h)

in_own :
    {A : Type 0} {m : InventoryTx A} {D : AppError → InventoryDb → Type 0}
    → Triple IsStocked m (λ _ db. IsStocked db) D
    → Keeping (
        map_err {F = AppError}
          (λ _. internal_server_error)
          (with_transaction (λ before reached. before) m))
in_own k = Triple-map_err (λ _. internal_server_error) (rolled_back k)

zoom-Stocks :
    {A : Type 0} (m : Action OutboxTable AppError A)
    → ((t : OutboxTable) → Ends (λ _ _. Unit {0}) Anything (m t).0 (m t).1)
    → Stocks (ignore (zoom (λ db. db.outbox) set_inventory_outbox m))
unfolding ignore zoom
zoom-Stocks m ends = record {
  at = λ db h. forgotten (m db.outbox).0 (m db.outbox).1 (ends db.outbox) db h;
}
  where
    forgotten :
        {B : Type 0} (r : Outcome AppError B) (t : OutboxTable)
        → Ends (λ _ _. Unit {0}) Anything r t
        → (db : InventoryDb) → IsStocked db
        → Ends (λ _ x. IsStocked x) Anything (forget r) (set_inventory_outbox db t)
    forgotten (done a) t e db h = with_outbox db t h
    forgotten (failed x) t e db h = tt
    forgotten panicked t e db h = e

module _ (bytes : EventEnvelope → ℕ) (describe : AppError → Text) where
  write-Stocks :
      (o : ℕ) (event_type : EventType) (payload : Value)
      → Stocks (write_inventory_event bytes describe o event_type payload)
  unfolding write_inventory_event
  write-Stocks o event_type payload =
      Triple-bind (λ _ db. IsStocked db) (Triple-gets _ (λ _ h. h))
        (λ event_id. zoom-Stocks _ (λ t. inserted t _))
    where
      inserted :
          (t : OutboxTable) (i : OutboxInsert)
          → Ends
              (λ _ _. Unit {0})
              Anything
              (insert_outbox_event bytes i t).0
              (insert_outbox_event bytes i t).1
      inserted t i = elim (Bool-cases (ltb max_payload_bytes (bytes i.payload))) [
        | inl e ↦ rw e tt
        | inr e ↦ rw e tt
      ]

  pub do_reserve-Stocks :
      (o b : ℕ) (amount currency : Text) (items : List ReservationItem)
      → Stocks (do_reserve_and_write_event bytes describe o b amount currency items)
  unfolding do_reserve_and_write_event
  do_reserve-Stocks o b amount currency items =
      Triple-bind (λ _ db. IsStocked db) (reserve_each-Stocks o items) (λ _. write-Stocks o _ _)

  pub failed-Stocks :
      (o : ℕ) (reason : Text) → Keeping (write_reservation_failed bytes describe o reason)
  unfolding write_reservation_failed
  failed-Stocks o reason = in_own (write-Stocks o _ _)

-- The services of the inventory, each in its own transaction.
release_for_order-Keeping : (o : ℕ) → Keeping (release_for_order o)
unfolding release_for_order
release_for_order-Keeping o = in_own (release_all-Stocks o)

confirm_for_order-Keeping :
    (o : ℕ) (items : List ReservationItem) → Keeping (confirm_for_order o items)
unfolding confirm_for_order
confirm_for_order-Keeping o items = in_own (confirm_each-Stocks o items)

module _ (bytes : EventEnvelope → ℕ) (describe : AppError → Text) where
  report-Keeping : (o : ℕ) (r : Result AppError (Unit {0})) → Keeping (report bytes describe o r)
  unfolding report
  report-Keeping o (ok u) = Triple-pure tt (λ _ h. h)
  report-Keeping o (err e) =
      Triple-bind (λ _ db. IsStocked db) (failed-Stocks bytes describe o (describe e))
        (λ _. Triple-fail bad_request (λ _ h. h))

  reserve_for_order-Keeping :
      (o b : ℕ) (amount currency : Text) (items : List ReservationItem)
      → Keeping (reserve_for_order bytes describe o b amount currency items)
  unfolding reserve_for_order
  reserve_for_order-Keeping o b amount currency items =
      Triple-bind (λ _ db. IsStocked db)
        (Triple-attempt (rolled_back (do_reserve-Stocks bytes describe o b amount currency items)))
        (λ r. report-Keeping o r)

  -- Each service of the inventory that runs in a transaction of its own leaves well counted tables
  -- well counted, whether it succeeds or fails, and does not panic.
  pub services-Keeping :
      (o b : ℕ) (amount currency : Text) (items : List ReservationItem)
      → Keeping (reserve_for_order bytes describe o b amount currency items)
        × (Keeping (release_for_order o) × Keeping (confirm_for_order o items))
  services-Keeping o b amount currency items = (
    reserve_for_order-Keeping o b amount currency items,
    (release_for_order-Keeping o, confirm_for_order-Keeping o items),
  )
