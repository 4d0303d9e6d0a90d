-- ===== src/Order/Creation.antt =====
-- The creation of an order: `create_order` of order/src/orders/repository.rs and service.rs.
use Prim.Native.String.{String, count}
use koupang.Prelude.{
  ℕ, suc, ◌^◌, ◌-◌, Bool, ◌&&◌, ◌||◌, negate, Option, none, some, List, [], ◌∷◌, ◌++◌, length, leb,
  all_of, find, is_some, if◌then◌else◌,
}
use koupang.Prelude.Int.{ℤ, pos, leb_ℤ, ltb_ℤ}
use koupang.Errors.{AppError, internal_server_error, Result, ok, err}
use koupang.Action.{done, failed, pure, gets, lift, map_err, with_transaction, ◌>>=◌, ◌>>◌}
use koupang.Json.{
  Text, lit, uuid, decimal, text_eq, Value, Items, no_items, item, str, int, array, object, member,
  no_members,
}
use koupang.Events.{EventEnvelope, order_created}
use koupang.Rules.{passed, evaluate_detailed}
use koupang.Order.Types.{
  OrderEntity, OrderItemEntity, pending, CurrentUser, order_app_error, validation_failed,
}
use koupang.Order.Values.{ShippingAddress, is_complete}
use koupang.Order.Requests.{
  CreateOrderReq, ValidCreateOrderReq, ValidCreateOrderItem, new_create_order_req,
}
use koupang.Order.Rules.{CreateOrderContext, creation_rules, eval_creation}
use koupang.Order.Repository.{OrderDb, OrderTx, get_order_by_id, write_order_outbox}

abbrev address_json : ShippingAddress → Value
address_json a = object (
    member "street" (str (lit a.street)) (
      member "city" (str (lit a.city)) (
        member "state" (str (lit a.state)) (
          member "postal_code" (str (lit a.postal_code))
            (member "country" (str (lit a.country)) no_members)))))

abbrev pub has_key : Text → OrderEntity → Bool
has_key key o = text_eq o.idempotency_key key

unfoldable pub get_order_by_idempotency_key : OrderDb → Text → Option OrderEntity
get_order_by_idempotency_key db key = find (has_key key) db.orders

-- NUMERIC(19, 4), in ten-thousandths.
abbrev pub fits_numeric : ℤ → Bool
fits_numeric amount = leb_ℤ (pos 0) amount && leb_ℤ amount (pos (10 ^ 19 - 1))

abbrev pub new_order : ℕ → ℕ → ValidCreateOrderReq → OrderEntity
new_order id buyer_id req = record {
  id = id;
  buyer_id = buyer_id;
  status = pending;
  total_amount = req.total_amount;
  currency = lit req.currency;
  idempotency_key = lit req.idempotency_key;
  shipping_address = address_json req.shipping_address;
  cancelled_reason = none;
}

abbrev pub new_order_item : ℕ → ValidCreateOrderItem → OrderItemEntity
new_order_item order_id i = record {
  order_id = order_id;
  product_id = i.product_id;
  sku_id = i.sku_id;
  product_name = i.product_name;
  sku_code = i.sku_code;
  quantity = i.quantity;
  seller_id = i.seller_id;
  unit_price = i.unit_price;
  total_price = i.total_price;
}

-- The columns' types and constraints.
abbrev pub item_fits : ValidCreateOrderItem → Bool
item_fits i =
    leb (count i.product_name) 500
    && leb (count i.sku_code) 100
    && ltb_ℤ (pos 0) i.quantity
    && fits_numeric i.unit_price
    && fits_numeric i.total_price

-- The `INSERT`s of the items: the first that violates a constraint ends them.
unfoldable pub insert_items : ℕ → List ValidCreateOrderItem → OrderTx (Unit {0})
insert_items order_id [] db = (done tt, db)
insert_items order_id (i ∷ is) db =
    let rest =
      insert_items order_id is (record db { items = db.items ++ new_order_item order_id i ∷ [] }) in
    if item_fits i then rest else (failed internal_server_error, db)

unfoldable pub insert_order : ℕ → ValidCreateOrderReq → OrderTx ℕ
insert_order buyer_id req db =
    if is_some (find (has_key (lit req.idempotency_key)) db.orders)
      || negate (fits_numeric req.total_amount)
    then (failed internal_server_error, db)
    else (
      done db.next_id,
      record db {
        orders = new_order db.next_id buyer_id req ∷ db.orders;
        next_id = suc db.next_id;
      },
    )

-- `create_order` of the repository.
unfoldable pub create_order_rows : ℕ → ValidCreateOrderReq → OrderTx ℕ
create_order_rows buyer_id req = do
  order_id ← insert_order buyer_id req
  insert_items order_id req.items
  pure order_id

abbrev pub created_items : List ValidCreateOrderItem → Items
created_items [] = no_items
created_items (i ∷ is) =
    item
      (object (
        member "product_id" (str (uuid i.product_id)) (
          member "sku_id" (str (uuid i.sku_id)) (
            member "quantity" (int i.quantity)
              (member "unit_price" (str (decimal i.unit_price)) no_members)))))
      (created_items is)

abbrev pub created_payload : ℕ → ℕ → ValidCreateOrderReq → Value
created_payload order_id buyer_id req = object (
    member "order_id" (str (uuid order_id)) (
      member "buyer_id" (str (uuid buyer_id)) (
        member "total_amount" (str (decimal req.total_amount)) (
          member "currency" (str (lit req.currency))
            (member "items" (array (created_items req.items)) no_members)))))

abbrev is_priced : ValidCreateOrderItem → Bool
is_priced i = ltb_ℤ (pos 0) i.unit_price

abbrev creation_context : ValidCreateOrderReq → CreateOrderContext
creation_context req = record {
  item_count = length req.items;
  total_amount = req.total_amount;
  currency = lit req.currency;
  shipping_complete = is_complete req.shipping_address;
  all_prices_positive = all_of is_priced req.items;
}

unfoldable pub validate_creation : ValidCreateOrderReq → Result AppError (Unit {0})
validate_creation req =
    if passed (evaluate_detailed (eval_creation (creation_context req)) creation_rules)
    then ok tt
    else err (order_app_error validation_failed)

module _ (bytes : EventEnvelope → ℕ) (to_uppercase : String → String) where
  unfoldable pub create_in_transaction : ℕ → ValidCreateOrderReq → OrderTx ℕ
  create_in_transaction buyer_id req = do
    order_id ← create_order_rows buyer_id req
    write_order_outbox bytes order_id order_created (created_payload order_id buyer_id req) none
    pure order_id

  -- What follows the look-up of the key.
  unfoldable pub create_unless : ℕ → ValidCreateOrderReq → Option OrderEntity → OrderTx OrderEntity
  create_unless buyer_id req (some existing) = pure existing
  create_unless buyer_id req none = do
    order_id ←
        map_err (λ _. internal_server_error)
          (with_transaction (λ before reached. before) (create_in_transaction buyer_id req))
    found ← gets (λ db. get_order_by_id db order_id)
    lift found

  -- `create_order` of the service.
  unfoldable pub create_order : CurrentUser → String → CreateOrderReq → OrderTx OrderEntity
  unfolding create_unless
  create_order current_user idempotency_key req = do
    validated ← lift (new_create_order_req to_uppercase idempotency_key req)
    lift (validate_creation validated)
    existing ← gets (λ db. get_order_by_idempotency_key db (lit validated.idempotency_key))
    create_unless current_user.id validated existing
