-- ===== src/Order/Listing.antt =====
-- The lists of orders: order/src/orders/repository.rs and service.rs. The table of orders holds the
-- newest first, whose ids are the greatest. `keyset_paginate` adds its comparison with the cursor
-- after the clause `GROUP BY o.id`, where `o.id AND o.id > ...` is no expression that PostgreSQL
-- accepts: `AND` takes truth values.
use koupang.Prelude.{
  ℕ, Bool, true, ◌&&◌, Option, none, some, List, length, map, select, ltb, ◌==◌, if◌then◌else◌,
  is_some,
}
use koupang.Prelude.Int.{ℤ}
use koupang.Errors.{AppError, internal_server_error, Result, ok, err}
use koupang.Json.{Text}
use koupang.Pagination.{
  PaginationParams, PaginationRes, PaginationDirection, into_params, reverse, keyset_paginate,
  get_cursors,
}
use koupang.Order.Types.{
  pending, inventory_reserved, payment_authorized, confirmed, shipped, delivered, cancelled,
  returned, OrderStatus, OrderEntity, OrderItemEntity,
}
use koupang.Order.Repository.{OrderDb}

pub record OrderFilter : Type 0 where
  pub status : Option OrderStatus

pub record OrderFilterQuery : Type 0 where
  pub limit : Option ℕ
  pub cursor : Option ℕ
  pub direction : Option PaginationDirection
  pub status : Option OrderStatus

unfoldable into_parts : OrderFilterQuery → PaginationParams × OrderFilter
into_parts q = (
  into_params (record { limit = q.limit; cursor = q.cursor; direction = q.direction }),
  record { status = q.status },
)

pub record OrderListEntity : Type 0 where
  pub id : ℕ
  pub buyer_id : ℕ
  pub status : OrderStatus
  pub total_amount : ℤ
  pub currency : Text
  pub item_count : ℕ

-- The response writes the ids as text and has the other fields of the row.
abbrev pub OrderListRes : Type 0
OrderListRes = OrderListEntity

abbrev pub list_id : OrderListEntity → ℕ
list_id r = r.id

abbrev pub status_number : OrderStatus → ℕ
status_number pending = 0
status_number inventory_reserved = 1
status_number payment_authorized = 2
status_number confirmed = 3
status_number shipped = 4
status_number delivered = 5
status_number cancelled = 6
status_number returned = 7

abbrev pub passes_filter : OrderFilter → OrderEntity → Bool
passes_filter filter o = elim filter.status [
  | none ↦ true
  | some s ↦ status_number o.status == status_number s
]

-- The joined items of an order, of every seller or of one.
abbrev pub items_of : ℕ → List OrderItemEntity → List OrderItemEntity
items_of order_id items = select (λ i. i.order_id == order_id) items

abbrev pub sold_by : ℕ → List OrderItemEntity → List OrderItemEntity
sold_by seller_id items = select (λ i. i.seller_id == seller_id) items

abbrev pub list_entity : List OrderItemEntity → OrderEntity → OrderListEntity
list_entity items o = record {
  id = o.id;
  buyer_id = o.buyer_id;
  status = o.status;
  total_amount = o.total_amount;
  currency = o.currency;
  item_count = length (items_of o.id items);
}

-- The end of both queries.
abbrev pub fetch_page :
    PaginationParams → List OrderListEntity → Result AppError (List OrderListEntity)
fetch_page params rows =
    if is_some params.cursor
    then err internal_server_error
    else ok (keyset_paginate list_id params rows)

unfoldable pub list_orders_by_buyer :
    OrderDb → ℕ → PaginationParams → OrderFilter → Result AppError (List OrderListEntity)
list_orders_by_buyer db buyer_id params filter =
    let orders =
      select (λ o. o.buyer_id == buyer_id && passes_filter filter o) (reverse db.orders) in
    fetch_page params (map (list_entity db.items) orders)

-- The inner join keeps the orders with an item of the seller, and counts these items.
unfoldable pub list_orders_by_seller :
    OrderDb → ℕ → PaginationParams → OrderFilter → Result AppError (List OrderListEntity)
list_orders_by_seller db seller_id params filter =
    let orders =
      select
        (λ o. ltb 0 (length (items_of o.id (sold_by seller_id db.items))) && passes_filter filter o)
        (reverse db.orders) in
    fetch_page params (map (list_entity (sold_by seller_id db.items)) orders)

abbrev pub with_cursors :
    PaginationParams
    → Result AppError (List OrderListEntity)
    → Result AppError (PaginationRes OrderListRes)
with_cursors params (err e) = err e
with_cursors params (ok orders) =
    let (items, cursors) = get_cursors list_id params orders in
    ok (record {
      items = items;
      next_cursor = cursors.next_cursor;
      prev_cursor = cursors.prev_cursor;
    })

unfoldable pub list_my_orders :
    OrderDb → ℕ → PaginationParams → OrderFilter → Result AppError (PaginationRes OrderListRes)
unfolding list_orders_by_buyer get_cursors
list_my_orders db buyer_id params filter =
    with_cursors params (list_orders_by_buyer db buyer_id params filter)

unfoldable pub list_seller_orders :
    OrderDb → ℕ → PaginationParams → OrderFilter → Result AppError (PaginationRes OrderListRes)
unfolding list_orders_by_seller get_cursors
list_seller_orders db seller_id params filter =
    with_cursors params (list_orders_by_seller db seller_id params filter)
