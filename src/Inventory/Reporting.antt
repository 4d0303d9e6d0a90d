-- ===== src/Inventory/Reporting.antt =====
-- What the tables hold after the reservation of an order in the consumer's transaction.
use koupang.Prelude.{ℕ, ◌+◌, ◌≡◌, refl, false, List, [], ◌∷◌, ◌++◌, ltb}
use koupang.Errors.{AppError}
use koupang.Action.{
  Outcome, done, failed, panicked, pure, fail, gets, continue, ◌>>=◌, map_err, attempt, attempted,
  zoom, ignore, with_transaction,
}
use koupang.Json.{Text}
use koupang.Events.{EventEnvelope, inventory_reservation_failed}
use koupang.Outbox.{new_row, from_envelope, max_payload_bytes}
use koupang.Inventory.Tables.{InventoryDb}
use koupang.Inventory.Service.{
  ReservationItem, inventory_envelope, failed_payload, write_inventory_event,
  do_reserve_and_write_event, on_tx, on_pool, set_tx, CatalogSession, write_reservation_failed,
  report_on_pool, reserve_for_order_on_tx,
}

module _ (bytes : EventEnvelope → ℕ) (describe : AppError → Text)
    (fits : (x : EventEnvelope) → ltb max_payload_bytes (bytes x) ≡ false) where
  abbrev failure_event : InventoryDb → ℕ → AppError → EventEnvelope
  failure_event db order_id e =
      inventory_envelope db.outbox.next_id order_id inventory_reservation_failed
        (failed_payload bytes describe order_id (describe e))

  abbrev with_failure : InventoryDb → ℕ → AppError → InventoryDb
  with_failure db order_id e = record db {
    outbox = record db.outbox {
      rows =
          db.outbox.rows
          ++ new_row db.outbox (from_envelope "catalog.events" (failure_event db order_id e)) ∷ [];
      next_id = db.outbox.next_id + 1;
    };
  }

  abbrev pub Reports : ℕ → CatalogSession → Outcome AppError (Unit {0}) → CatalogSession → Type 0
  Reports order_id before (done u) after = after.committed ≡ before.committed
  Reports order_id before (failed e) after =
      after.committed ≡ with_failure before.committed order_id e
  Reports order_id before panicked after = after.committed ≡ before.committed

  reported :
      (o : ℕ) (s : CatalogSession) (r : Outcome AppError (Unit {0})) (db : InventoryDb)
      → Reports o s
          (continue (attempted {F = AppError} r) (report_on_pool bytes describe o) (set_tx s db)).0
          (continue (attempted {F = AppError} r) (report_on_pool bytes describe o) (set_tx s db)).1
  unfolding report_on_pool on_pool zoom write_reservation_failed with_transaction map_err
      write_inventory_event ignore ◌>>=◌ gets pure fail
  reported o s (done u) db = refl
  reported o s (failed e) db = rw (fits (failure_event s.committed o e)) refl
  reported o s panicked db = refl

  -- A reservation in the consumer's transaction that fails adds to the committed tables one event,
  -- `InventoryReservationFailed` with the order and the reason, and changes nothing else of them; one
  -- that succeeds leaves the committed tables as they were, if the events fit into the outbox.
  pub reserve_for_order_on_tx-Reports :
      (o b : ℕ) (amount currency : Text) (items : List ReservationItem) (s : CatalogSession)
      → Reports o s
          (reserve_for_order_on_tx bytes describe o b amount currency items s).0
          (reserve_for_order_on_tx bytes describe o b amount currency items s).1
  unfolding reserve_for_order_on_tx attempt on_tx zoom ◌>>=◌
  reserve_for_order_on_tx-Reports o b amount currency items s =
      let (r, db) = do_reserve_and_write_event bytes describe o b amount currency items s.tx in
      reported o s r db
