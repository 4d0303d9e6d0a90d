-- ===== src/Inventory/Repository.antt =====
-- catalog/src/inventory/repository.rs. Quantities are whole numbers: with the constraints of the
-- tables, every sum and difference that is stored lies between two values of the column's type.
use koupang.Prelude.{
  ℕ, Bool, ◌&&◌, negate, Option, none, some, List, [], ◌∷◌, ◌==◌, if◌then◌else◌, find, select,
}
use koupang.Prelude.Int.{ℤ, ◌+ℤ◌, ◌-ℤ◌, leb_ℤ}
use koupang.Errors.{AppError, bad_request, not_found, internal_server_error, Result, ok, ok_or}
use koupang.Action.{pure, gets, lift, map_err, ◌>>=◌, ◌>>◌}
use koupang.Inventory.Tables.{
  InventoryDb, InventoryTx, Sku, sku_of, put_sku, SkuConstraint, reserved_quantity_constraint,
  stock_constraint, InventoryReservationEntity, released, confirmed, is_reserved, is_for,
  insert_reservation, set_reservation_status, SkuAvailabilityRow,
}

-- The row that the `WHERE` of the reservation reaches.
abbrev pub reservable : ℤ → Option Sku → Option Sku
reservable quantity none = none
reservable quantity (some s) =
    if negate s.is_deleted && leb_ℤ quantity (s.stock_quantity -ℤ s.reserved_quantity)
    then some s
    else none

unfoldable pub reserve_inventory : ℕ → ℕ → ℤ → InventoryTx (Unit {0})
reserve_inventory order_id sku_id quantity = do
  found ← gets (λ db. reservable quantity (sku_of db sku_id))
  sku ← lift (ok_or found bad_request)
  map_err (λ _. internal_server_error)
      (put_sku sku_id (record sku { reserved_quantity = sku.reserved_quantity +ℤ quantity }))
  insert_reservation order_id sku_id quantity

-- The `SELECT` of an order's open reservation.
abbrev pub is_open : ℕ → ℕ → InventoryReservationEntity → Bool
is_open order_id sku_id r = is_for order_id sku_id r && is_reserved r.status

abbrev pub open_reservation : InventoryDb → ℕ → ℕ → Result AppError InventoryReservationEntity
open_reservation db order_id sku_id =
    ok_or (find (is_open order_id sku_id) db.reservations) not_found

-- An `UPDATE` that reaches the SKU unless it is deleted: then no row, and no error.
unfoldable pub update_live_sku :
    (SkuConstraint → AppError) → ℕ → (Sku → Sku) → Option Sku → InventoryTx (Unit {0})
update_live_sku error sku_id change none = pure tt
update_live_sku error sku_id change (some sku) =
    if sku.is_deleted then pure tt else map_err error (put_sku sku_id (change sku))

abbrev pub less_reserved : ℤ → Sku → Sku
less_reserved quantity sku = record sku { reserved_quantity = sku.reserved_quantity -ℤ quantity }

abbrev pub less_stock : ℤ → Sku → Sku
less_stock quantity sku = record sku {
  stock_quantity = sku.stock_quantity -ℤ quantity;
  reserved_quantity = sku.reserved_quantity -ℤ quantity;
}

unfoldable pub release_reservation : ℕ → ℕ → InventoryTx (Unit {0})
release_reservation order_id sku_id = do
  found ← gets (λ db. open_reservation db order_id sku_id)
  reservation ← lift found
  sku ← gets (λ db. sku_of db sku_id)
  update_live_sku (λ _. internal_server_error) sku_id (less_reserved reservation.quantity) sku
  set_reservation_status reservation.id released

abbrev pub confirm_error : SkuConstraint → AppError
confirm_error stock_constraint = bad_request
confirm_error reserved_quantity_constraint = internal_server_error

unfoldable pub confirm_reservation : ℕ → ℕ → InventoryTx (Unit {0})
confirm_reservation order_id sku_id = do
  found ← gets (λ db. open_reservation db order_id sku_id)
  reservation ← lift found
  sku ← gets (λ db. sku_of db sku_id)
  update_live_sku confirm_error sku_id (less_stock reservation.quantity) sku
  set_reservation_status reservation.id confirmed

-- The loop of `release_all_reservations`.
unfoldable pub release_each : ℕ → List InventoryReservationEntity → InventoryTx (Unit {0})
release_each order_id [] = pure tt
release_each order_id (r ∷ rs) = do release_reservation order_id r.sku_id; release_each order_id rs

abbrev open_for : InventoryDb → ℕ → List InventoryReservationEntity
open_for db order_id = select (λ r. r.order_id == order_id && is_reserved r.status) db.reservations

unfoldable pub release_all_reservations : ℕ → InventoryTx (Unit {0})
unfolding release_each
release_all_reservations order_id = do
  reservations ← gets (λ db. open_for db order_id)
  release_each order_id reservations

-- A row of the view `sku_availability`, and `get_sku_availability`.
abbrev availability : Sku → SkuAvailabilityRow
availability s = record {
  sku_id = s.id;
  product_id = s.product_id;
  sku_code = s.sku_code;
  stock_quantity = s.stock_quantity;
  reserved_quantity = s.reserved_quantity;
  available_quantity = s.stock_quantity -ℤ s.reserved_quantity;
}

abbrev available_row : Option Sku → Result AppError SkuAvailabilityRow
available_row none = Result.err not_found
available_row (some s) = if s.is_deleted then Result.err not_found else ok (availability s)

unfoldable get_sku_availability : ℕ → InventoryTx SkuAvailabilityRow
get_sku_availability sku_id = do found ← gets (λ db. available_row (sku_of db sku_id)); lift found

unfoldable get_reservation : InventoryDb → ℕ → ℕ → Option InventoryReservationEntity
get_reservation db order_id sku_id = find (is_for order_id sku_id) db.reservations
