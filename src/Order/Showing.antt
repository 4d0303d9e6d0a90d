-- ===== src/Order/Showing.antt =====
-- Which orders the lists of order/src/orders/service.rs show.
use koupang.Prelude.{
  ℕ, ◌≤◌, ◌<◌, ◌≡◌, refl, ap, ◌∙◌, Bool, true, false, ◌&&◌, Option, none, some, List, [], ◌∷◌,
  length, map, select, ltb, ltb→lt, ◌==◌, ==_iff, is_some, Every, inl, inr, Bool-cases, arith,
  and_parts,
}
use koupang.Errors.{AppError, internal_server_error, Result, ok, err}
use koupang.Pagination.{PaginationParams, PaginationRes, reverse}
use koupang.Pagination.Items.{page-Fits}
use koupang.Order.Types.{OrderStatus, OrderEntity}
use koupang.Order.Repository.{OrderDb}
use koupang.Order.Listing.{
  OrderFilter, OrderListEntity, OrderListRes, list_id, status_number, passes_filter, items_of,
  sold_by, list_entity, fetch_page, with_cursors, list_my_orders, list_seller_orders,
  list_orders_by_buyer, list_orders_by_seller,
}

-- A list that satisfies the filter.
abbrev pub Matches : Option OrderStatus → OrderListEntity → Type 0
Matches none r = Unit
Matches (some s) r = status_number r.status ≡ status_number s

-- A page of at most so many rows, each of which has the property, for a request without a cursor;
-- with a cursor, an error of the server.
abbrev pub Shows :
    (OrderListEntity → Type 0)
    → PaginationParams
    → Result AppError (PaginationRes OrderListRes)
    → Type 0
Shows P params (ok p) = (params.cursor ≡ none) × ((length p.items ≤ params.limit) × Every P p.items)
Shows P params (err e) = (e ≡ internal_server_error) × (is_some params.cursor ≡ true)

no_cursor : (c : Option ℕ) → is_some c ≡ false → c ≡ none
no_cursor none e = refl
no_cursor (some x) e = absurd (ground (arith, e))

fetched-Shows :
    (P : OrderListEntity → Type 0) (params : PaginationParams) (rows : List OrderListEntity)
    → Every P rows
    → Shows P params (with_cursors params (fetch_page params rows))
fetched-Shows P params rows h = elim (Bool-cases (is_some params.cursor)) [
  | inl e ↦ rw e (refl, e)
  | inr e ↦ rw e (no_cursor params.cursor e, page-Fits list_id P params rows h)
]

-- What passes a test and is mapped.
Every-listed :
    (P : OrderListEntity → Type 0) (p : OrderEntity → Bool) (f : OrderEntity → OrderListEntity)
    → ((o : OrderEntity) → p o ≡ true → P (f o))
    → (orders : List OrderEntity) → Every P (map f (select p orders))
Every-listed P p f k [] = tt
Every-listed P p f k (o ∷ orders) = elim (Bool-cases (p o)) [
  | inl e ↦ rw e (k o e, Every-listed P p f k orders)
  | inr e ↦ rw e (Every-listed P p f k orders)
]

passes-Matches :
    (filter : OrderFilter) (o : OrderEntity) (r : OrderListEntity)
    → r.status ≡ o.status
    → passes_filter filter o ≡ true
    → Matches filter.status r
passes-Matches filter o r same e = by_status filter.status e
  where
    by_status :
        (wanted : Option OrderStatus)
        → passes_filter (record { status = wanted }) o ≡ true
        → Matches wanted r
    by_status none k = tt
    by_status (some s) k =
        ap status_number same ∙ (==_iff (status_number o.status) (status_number s)).0 k

module _ (db : OrderDb) (params : PaginationParams) (filter : OrderFilter) where
  -- A buyer's orders.
  list_my_orders-Shows :
      (buyer_id : ℕ)
      → Shows
          (λ r. (r.buyer_id ≡ buyer_id) × Matches filter.status r)
          params
          (list_my_orders db buyer_id params filter)
  unfolding list_my_orders list_orders_by_buyer
  list_my_orders-Shows buyer_id =
      fetched-Shows (λ r. (r.buyer_id ≡ buyer_id) × Matches filter.status r) params
        (map (list_entity db.items)
          (select (λ o. o.buyer_id == buyer_id && passes_filter filter o) (reverse db.orders)))
        (Every-listed (λ r. (r.buyer_id ≡ buyer_id) × Matches filter.status r)
          (λ o. o.buyer_id == buyer_id && passes_filter filter o) (list_entity db.items)
          (λ o e.
            let parts = and_parts (o.buyer_id == buyer_id) (passes_filter filter o) e in
            (
              (==_iff o.buyer_id buyer_id).0 parts.0,
              passes-Matches filter o (list_entity db.items o) refl parts.1,
            ))
          (reverse db.orders))

  -- The orders with an item of a seller.
  list_seller_orders-Shows :
      (seller_id : ℕ)
      → Shows
          (λ r. (0 < length (items_of r.id (sold_by seller_id db.items))) × Matches filter.status r)
          params
          (list_seller_orders db seller_id params filter)
  unfolding list_seller_orders list_orders_by_seller
  list_seller_orders-Shows seller_id =
      fetched-Shows
        (λ r. (0 < length (items_of r.id (sold_by seller_id db.items))) × Matches filter.status r)
        params
        (map (list_entity (sold_by seller_id db.items)) (
          select
            (λ o.
              ltb 0 (length (items_of o.id (sold_by seller_id db.items))) && passes_filter filter o)
            (reverse db.orders)))
        (Every-listed
          (λ r. (0 < length (items_of r.id (sold_by seller_id db.items))) × Matches filter.status r)
          (λ o.
            ltb 0 (length (items_of o.id (sold_by seller_id db.items))) && passes_filter filter o)
          (list_entity (sold_by seller_id db.items))
          (λ o e.
            let sells = ltb 0 (length (items_of o.id (sold_by seller_id db.items))) in
            let parts = and_parts sells (passes_filter filter o) e in
            (
              ltb→lt 0 (length (items_of o.id (sold_by seller_id db.items))) parts.0,
              passes-Matches filter o (list_entity (sold_by seller_id db.items) o) refl parts.1,
            ))
          (reverse db.orders))

  -- The first page of a buyer has only orders of theirs, that of a seller only orders with an item of
  -- theirs, both only orders of the status that was asked for, and at most as many as the limit. A
  -- request with a cursor, which every further page needs, is always an internal error.
  pub list_orders-Shows :
      (user_id : ℕ)
      → Shows
          (λ r. (r.buyer_id ≡ user_id) × Matches filter.status r)
          params
          (list_my_orders db user_id params filter)
        × Shows
            (λ r. (0 < length (items_of r.id (sold_by user_id db.items))) × Matches filter.status r)
            params
            (list_seller_orders db user_id params filter)
  list_orders-Shows user_id = (list_my_orders-Shows user_id, list_seller_orders-Shows user_id)
