-- ===== src/Inventory/Service.antt =====
-- catalog/src/inventory/service.rs. `describe` is the text of an error, which an event carries.
use koupang.Prelude.{ℕ, List, [], ◌∷◌}
use koupang.Prelude.Int.{ℤ}
use koupang.Errors.{AppError, bad_request, internal_server_error, Result, ok, err}
use koupang.Action.{
  Action, pure, fail, gets, map_err, attempt, with_transaction, zoom, ignore, ◌>>=◌, ◌>>◌,
}
use koupang.Json.{
  Text, uuid, Value, Items, no_items, item, str, int, array, object, member, no_members,
}
use koupang.Events.{
  EventEnvelope, EventType, inventory_reserved, inventory_reservation_failed, AggregateType,
  SourceService, new_metadata,
}
use koupang.Outbox.{OutboxTable, from_envelope, insert_outbox_event}
use koupang.Inventory.Tables.{InventoryDb, InventoryTx}
use koupang.Inventory.Repository.{reserve_inventory, release_all_reservations, confirm_reservation}

-- A SKU and a quantity.
abbrev pub ReservationItem : Type 0
ReservationItem = ℕ × ℤ

abbrev pub item_values : List ReservationItem → Items
item_values [] = no_items
item_values (i ∷ is) =
    item (object (member "sku_id" (str (uuid i.0)) (member "quantity" (int i.1) no_members)))
      (item_values is)

abbrev pub reserved_payload : ℕ → ℕ → Text → Text → List ReservationItem → Value
reserved_payload order_id buyer_id total_amount currency items = object (
    member "order_id" (str (uuid order_id)) (
      member "buyer_id" (str (uuid buyer_id)) (
        member "total_amount" (str total_amount) (
          member "currency" (str currency)
            (member "items" (array (item_values items)) no_members)))))

abbrev pub inventory_envelope : ℕ → ℕ → EventType → Value → EventEnvelope
inventory_envelope event_id order_id event_type payload = record {
  metadata =
      new_metadata event_id event_type AggregateType.inventory order_id SourceService.catalog;
  payload = payload;
}

abbrev pub set_inventory_outbox : InventoryDb → OutboxTable → InventoryDb
set_inventory_outbox db t = record db { outbox = t }

unfoldable pub reserve_each : ℕ → List ReservationItem → InventoryTx (Unit {0})
reserve_each order_id [] = pure tt
reserve_each order_id (i ∷ is) = do reserve_inventory order_id i.0 i.1; reserve_each order_id is

-- The tables that the consumer's transaction sees, and those that are committed.
pub record CatalogSession : Type 0 where
  pub tx : InventoryDb
  pub committed : InventoryDb

abbrev pub Catalog : Type 0 → Type 0
Catalog A = Action CatalogSession AppError A

abbrev pub set_tx : CatalogSession → InventoryDb → CatalogSession
set_tx s db = record s { tx = db }

abbrev pub set_committed : CatalogSession → InventoryDb → CatalogSession
set_committed s db = record s { committed = db }

unfoldable pub on_tx : {A : Type 0} → InventoryTx A → Catalog A
unfolding zoom
on_tx = zoom (λ s. s.tx) set_tx

unfoldable pub on_pool : {A : Type 0} → InventoryTx A → Catalog A
unfolding zoom
on_pool = zoom (λ s. s.committed) set_committed

module _ (bytes : EventEnvelope → ℕ) (describe : AppError → Text) where
  unfoldable pub write_inventory_event : ℕ → EventType → Value → InventoryTx (Unit {0})
  write_inventory_event order_id event_type payload = do
    event_id ← gets (λ db. db.outbox.next_id)
    ignore (
        zoom (λ db. db.outbox) set_inventory_outbox
          (insert_outbox_event bytes (
            from_envelope "catalog.events"
              (inventory_envelope event_id order_id event_type payload))))

  unfoldable pub do_reserve_and_write_event :
      ℕ → ℕ → Text → Text → List ReservationItem → InventoryTx (Unit {0})
  do_reserve_and_write_event order_id buyer_id total_amount currency items = do
    reserve_each order_id items
    write_inventory_event order_id inventory_reserved
        (reserved_payload order_id buyer_id total_amount currency items)

  abbrev pub failed_payload : ℕ → Text → Value
  failed_payload order_id reason =
      object (member "order_id" (str (uuid order_id)) (member "reason" (str reason) no_members))

  -- `write_reservation_failed_on_pool`, on the committed tables.
  unfoldable pub write_reservation_failed : ℕ → Text → InventoryTx (Unit {0})
  write_reservation_failed order_id reason =
      map_err (λ _. internal_server_error)
        (with_transaction (λ before reached. before)
          (write_inventory_event order_id inventory_reservation_failed
            (failed_payload order_id reason)))

  -- What follows a reservation that failed: the event on the committed tables, and the error.
  unfoldable pub report_on_pool : ℕ → Result AppError (Unit {0}) → Catalog (Unit {0})
  report_on_pool order_id (ok _) = pure tt
  report_on_pool order_id (err e) = do
    on_pool (write_reservation_failed order_id (describe e))
    fail e

  unfoldable pub reserve_for_order_on_tx :
      ℕ → ℕ → Text → Text → List ReservationItem → Catalog (Unit {0})
  unfolding report_on_pool
  reserve_for_order_on_tx order_id buyer_id total_amount currency items = do
    reserve_result ←
        attempt (on_tx (do_reserve_and_write_event order_id buyer_id total_amount currency items))
    report_on_pool order_id reserve_result

  unfoldable pub report : ℕ → Result AppError (Unit {0}) → InventoryTx (Unit {0})
  report order_id (ok _) = pure tt
  report order_id (err e) = do write_reservation_failed order_id (describe e); fail bad_request

  -- In a transaction of its own.
  unfoldable pub reserve_for_order :
      ℕ → ℕ → Text → Text → List ReservationItem → InventoryTx (Unit {0})
  unfolding report
  reserve_for_order order_id buyer_id total_amount currency items = do
    result ← attempt (
        with_transaction (λ before reached. before)
          (do_reserve_and_write_event order_id buyer_id total_amount currency items))
    report order_id result

unfoldable pub release_for_order : ℕ → InventoryTx (Unit {0})
release_for_order order_id =
    map_err (λ _. internal_server_error)
      (with_transaction (λ before reached. before) (release_all_reservations order_id))

unfoldable pub confirm_each : ℕ → List ReservationItem → InventoryTx (Unit {0})
confirm_each order_id [] = pure tt
confirm_each order_id (i ∷ is) = do confirm_reservation order_id i.0; confirm_each order_id is

unfoldable pub confirm_for_order : ℕ → List ReservationItem → InventoryTx (Unit {0})
unfolding confirm_each
confirm_for_order order_id items =
    map_err (λ _. internal_server_error)
      (with_transaction (λ before reached. before) (confirm_each order_id items))
