-- ===== src/Tests/CartTests.antt =====
-- The bound of a cart at the request for two pieces of one SKU.
use Prim.Native.String.{String}
use koupang.Prelude.{none}
use koupang.Prelude.Int.{pos}
use koupang.Cart.Types.{AddToCartReq}
use koupang.Cart.Service.{add_item, update_item_quantity, remove_item, clear_cart, validate_cart}
use koupang.Cart.Stored.{Stays}
use koupang.Cart.Bounds.{operations-Stay}

abbrev to_uppercase : String → String
to_uppercase s = s

abbrev request : AddToCartReq
request = record {
  product_id = 2;
  sku_id = 3;
  quantity = 2;
  unit_price = pos 199900;
  currency = none;
  product_name = "Pen";
  image_url = none;
}

operations-Stay_example :
    Stays (add_item to_uppercase 9 request)
    × (Stays (update_item_quantity to_uppercase 9 3 5)
        × (Stays (remove_item 9 3) × (Stays (clear_cart 9) × Stays (validate_cart to_uppercase 9))))
operations-Stay_example = operations-Stay to_uppercase 9 3 5 request
