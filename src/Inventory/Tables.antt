-- ===== src/Inventory/Tables.antt =====
-- catalog/src/inventory/entities.rs and the tables of the catalog migrations. A query by the id of a
-- SKU reaches one row, ids being primary keys. The reservations stand newest first.
use koupang.Prelude.{
  ℕ, suc, Bool, true, false, ◌&&◌, negate, Option, List, ◌∷◌, map, ◌==◌, if◌then◌else◌, find,
  is_some,
}
use koupang.Prelude.Int.{ℤ, pos, ltb_ℤ}
use koupang.Errors.{AppError, internal_server_error}
use koupang.Action.{Action, done, failed}
use koupang.Outbox.{OutboxTable}
use koupang.Json.{Text}

pub data ReservationStatus : Type 0 where
  reserved released confirmed : ReservationStatus

abbrev pub is_reserved : ReservationStatus → Bool
is_reserved reserved = true
is_reserved _ = false

pub record InventoryReservationEntity : Type 0 where
  pub id : ℕ
  pub order_id : ℕ
  pub sku_id : ℕ
  pub quantity : ℤ
  pub status : ReservationStatus

-- The columns of `skus` that the inventory works with; `is_deleted` is `deleted_at IS NOT NULL`.
pub record Sku : Type 0 where
  pub id : ℕ
  pub product_id : ℕ
  pub sku_code : Text
  pub stock_quantity : ℤ
  pub reserved_quantity : ℤ
  pub is_deleted : Bool

pub record SkuAvailabilityRow : Type 0 where
  pub sku_id : ℕ
  pub product_id : ℕ
  pub sku_code : Text
  pub stock_quantity : ℤ
  pub reserved_quantity : ℤ
  pub available_quantity : ℤ

pub record InventoryDb : Type 0 where
  pub skus : List Sku
  pub reservations : List InventoryReservationEntity
  pub next_id : ℕ
  pub outbox : OutboxTable

abbrev pub InventoryTx : Type 0 → Type 0
InventoryTx A = Action InventoryDb AppError A

abbrev pub is_sku : ℕ → Sku → Bool
is_sku id s = s.id == id

abbrev pub sku_of : InventoryDb → ℕ → Option Sku
sku_of db id = find (is_sku id) db.skus

abbrev pub replace_sku : ℕ → Sku → Sku → Sku
replace_sku id new s = if is_sku id s then new else s

-- The constraints of `skus` that an update can violate.
pub data SkuConstraint : Type 0 where
  reserved_quantity_constraint stock_constraint : SkuConstraint

-- An `UPDATE` of one SKU, under the table's constraints.
unfoldable pub put_sku : ℕ → Sku → Action InventoryDb SkuConstraint (Unit {0})
put_sku id new db =
    if ltb_ℤ new.reserved_quantity (pos 0)
    then (failed reserved_quantity_constraint, db)
    else if ltb_ℤ new.stock_quantity (pos 0)
    then (failed stock_constraint, db)
    else (done tt, record db { skus = map (replace_sku id new) db.skus })

abbrev pub is_for : ℕ → ℕ → InventoryReservationEntity → Bool
is_for order_id sku_id r = r.order_id == order_id && r.sku_id == sku_id

abbrev pub new_reservation : ℕ → ℕ → ℕ → ℤ → InventoryReservationEntity
new_reservation id order_id sku_id quantity = record {
  id = id;
  order_id = order_id;
  sku_id = sku_id;
  quantity = quantity;
  status = reserved;
}

-- The `INSERT` of a reservation: its quantity is positive, and the order has one per SKU.
unfoldable pub insert_reservation : ℕ → ℕ → ℤ → InventoryTx (Unit {0})
insert_reservation order_id sku_id quantity db =
    if ltb_ℤ (pos 0) quantity && negate (is_some (find (is_for order_id sku_id) db.reservations))
    then (
      done tt,
      record db {
        reservations = new_reservation db.next_id order_id sku_id quantity ∷ db.reservations;
        next_id = suc db.next_id;
      },
    )
    else (failed internal_server_error, db)

abbrev pub mark : ℕ → ReservationStatus → InventoryReservationEntity → InventoryReservationEntity
mark id status r = if r.id == id then record r { status = status } else r

unfoldable pub set_reservation_status : ℕ → ReservationStatus → InventoryTx (Unit {0})
set_reservation_status id status db =
    (done tt, record db { reservations = map (mark id status) db.reservations })
