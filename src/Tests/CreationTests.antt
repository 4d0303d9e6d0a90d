-- ===== src/Tests/CreationTests.antt =====
-- The theorems on the creation of an order at a request for three pieces of one SKU.
use Prim.Native.String.{String}
use koupang.Prelude.{ℕ, ◌≡◌, refl, true, some, [], ◌∷◌, map, Every}
use koupang.Prelude.Int.{pos, ◌+ℤ◌, ◌*ℤ◌}
use koupang.Errors.{ok}
use koupang.Action.Triple.{Triple}
use koupang.Events.{EventEnvelope}
use koupang.Strings.{trim, trim_start, trim_end}
use koupang.Money.{new_price, new_currency}
use koupang.Inventory.Consumers.{parse_items}
use koupang.Order.Types.{CurrentUser, buyer}
use koupang.Order.Values.{
  ShippingAddressReq, is_complete, new_shipping_address, new_idempotency_key, new_quantity,
}
use koupang.Order.Requests.{
  CreateOrderReq, ValidCreateOrderReq, new_create_order_req, new_items, new_item, IsOrderable,
  sum_prices, new_create_order_req-valid,
}
use koupang.Order.Repository.{OrderDb}
use koupang.Order.Creation.{create_order, created_payload}
use koupang.Order.Ordering.{ordered_item, parse_items-created_payload}
use koupang.Order.Creating.{Created, create_order-Created}

abbrev bytes : EventEnvelope → ℕ
bytes e = 400

abbrev to_uppercase : String → String
to_uppercase s = s

abbrev address : ShippingAddressReq
address = record {
  street = " 1 Main St ";
  city = "Seoul";
  state = "";
  postal_code = "04524";
  country = "KR";
}

abbrev trimmed : ShippingAddressReq
trimmed = record address { street = "1 Main St" }

abbrev request : CreateOrderReq
request = record {
  items =
      record {
        product_id = 2;
        sku_id = 3;
        product_name = "Pen";
        sku_code = "S-3";
        quantity = pos 3;
        seller_id = 5;
        unit_price = pos 250000;
      }
      ∷ [];
  currency = some " USD";
  shipping_address = address;
}

abbrev valid : ValidCreateOrderReq
valid = record {
  idempotency_key = "key-1";
  currency = "USD";
  shipping_address = trimmed;
  items =
      record {
        product_id = 2;
        sku_id = 3;
        product_name = "Pen";
        sku_code = "S-3";
        quantity = pos 3;
        seller_id = 5;
        unit_price = pos 250000;
        total_price = pos 750000;
      }
      ∷ [];
  total_amount = pos 750000;
}

accepted_address : new_shipping_address address ≡ ok trimmed
unfolding new_shipping_address trim trim_start trim_end
accepted_address = refl

accepted : new_create_order_req to_uppercase "key-1" request ≡ ok valid
unfolding new_create_order_req new_idempotency_key new_currency new_shipping_address new_items
    new_item new_quantity new_price trim trim_start trim_end ◌+ℤ◌ ◌*ℤ◌
accepted = refl

abbrev tables : OrderDb
tables = record {
  orders = [];
  items = [];
  next_id = 0;
  outbox = record { rows = []; next_id = 0; now = 0 };
}

abbrev user : CurrentUser
user = record { id = 9; role = buyer }

create_order-Created_example :
    Triple
      (λ db. db ≡ tables)
      (create_order bytes to_uppercase user "key-1" request)
      (λ o db.
        (v : ValidCreateOrderReq) × ((new_create_order_req to_uppercase "key-1" request ≡ ok v)
          × Created bytes to_uppercase tables user v o db))
      (λ _ db. db ≡ tables)
create_order-Created_example = create_order-Created bytes to_uppercase tables user "key-1" request

parse_items-created_payload_example :
    parse_items (created_payload 7 9 valid) ≡ ok (map ordered_item valid.items)
parse_items-created_payload_example =
    parse_items-created_payload to_uppercase "key-1" request valid 7 9 accepted

new_create_order_req-valid_example :
    (is_complete trimmed ≡ true)
    × (Every IsOrderable valid.items × (pos 750000 ≡ sum_prices valid.items))
new_create_order_req-valid_example =
    new_create_order_req-valid to_uppercase "key-1" request valid accepted
