-- ===== src/Cart/Types.antt =====
-- cart/src/cart/value_objects.rs, dtos.rs, domain.rs and error.rs.
use Prim.Native.String.{String, len}
use koupang.Prelude.{ℕ, Option, none, some, List, [], ◌∷◌, ltb, ◌==◌, if◌then◌else◌, length}
use koupang.Prelude.Int.{ℤ, pos, ◌+ℤ◌, ◌*ℤ◌}
use koupang.Errors.{AppError, bad_request, internal_server_error, Result, ok, err, ok_or}
use koupang.Json.{Text, decimal, parse_decimal}
use koupang.Strings.{trim, is_empty}
use koupang.Money.{new_price, new_currency, default_currency}
use koupang.Order.Requests.{and_then_ok}

-- `Quantity::new`.
unfoldable pub new_cart_quantity : ℕ → Result AppError ℕ
new_cart_quantity value =
    if value == 0 then err bad_request else if ltb 99 value then err bad_request else ok value

-- `validated_name!`, at the length of a `CartProductName`.
unfoldable pub new_product_name : String → Result AppError String
new_product_name input =
    let trimmed = trim input in
    if is_empty trimmed
    then err bad_request
    else if ltb 500 (len trimmed)
    then err bad_request
    else ok trimmed

pub record AddToCartReq : Type 0 where
  pub product_id : ℕ
  pub sku_id : ℕ
  pub quantity : ℕ
  pub unit_price : ℤ
  pub currency : Option String
  pub product_name : String
  pub image_url : Option String

-- `ValidAddToCartReq` has the fields of an item, and an item those of its request.
pub record CartItem : Type 0 where
  pub product_id : ℕ
  pub sku_id : ℕ
  pub quantity : ℕ
  pub unit_price : ℤ
  pub currency : String
  pub product_name : String
  pub image_url : Option String

-- The item as it is stored: its price is a text.
pub record CartItemStored : Type 0 where
  pub product_id : ℕ
  pub sku_id : ℕ
  pub quantity : ℕ
  pub unit_price : Text
  pub currency : String
  pub product_name : String
  pub image_url : Option String

abbrev pub to_stored : CartItem → CartItemStored
to_stored v = record {
  product_id = v.product_id;
  sku_id = v.sku_id;
  quantity = v.quantity;
  unit_price = decimal v.unit_price;
  currency = v.currency;
  product_name = v.product_name;
  image_url = v.image_url;
}

abbrev pub item_of : AddToCartReq → ℕ → ℤ → String → String → CartItem
item_of req quantity unit_price currency product_name = record {
  product_id = req.product_id;
  sku_id = req.sku_id;
  quantity = quantity;
  unit_price = unit_price;
  currency = currency;
  product_name = product_name;
  image_url = req.image_url;
}

abbrev domain_item : CartItemStored → ℕ → ℤ → String → CartItem
domain_item s quantity unit_price currency = record {
  product_id = s.product_id;
  sku_id = s.sku_id;
  quantity = quantity;
  unit_price = unit_price;
  currency = currency;
  product_name = s.product_name;
  image_url = s.image_url;
}

module _ (to_uppercase : String → String) where
  abbrev pub cart_currency : Option String → Result AppError String
  cart_currency none = ok default_currency
  cart_currency (some c) = new_currency to_uppercase c

  -- `TryFrom<AddToCartReq> for ValidAddToCartReq`.
  unfoldable pub valid_add_to_cart : AddToCartReq → Result AppError CartItem
  valid_add_to_cart req = and_then_ok (new_cart_quantity req.quantity) (λ quantity.
      and_then_ok (new_price req.unit_price) (λ unit_price.
        and_then_ok (cart_currency req.currency) (λ currency.
          and_then_ok (new_product_name req.product_name)
            (λ product_name. ok (item_of req quantity unit_price currency product_name)))))

  -- `CartItemStored::to_domain`.
  unfoldable pub to_domain : CartItemStored → Result AppError CartItem
  to_domain s = and_then_ok (ok_or (parse_decimal s.unit_price) internal_server_error) (λ price.
      and_then_ok (new_cart_quantity s.quantity) (λ quantity.
        and_then_ok (new_price price) (λ unit_price.
          and_then_ok (new_currency to_uppercase s.currency)
            (λ currency. ok (domain_item s quantity unit_price currency)))))

-- `CartError`, and `From<CartError> for AppError`.
pub data CartError : Type 0 where
  validation_failed : CartError
  cart_full : ℕ → CartError
  item_not_found checkout_not_ready : CartError
  infra : AppError → CartError

unfoldable pub cart_app_error : CartError → AppError
cart_app_error validation_failed = bad_request
cart_app_error (cart_full most) = bad_request
cart_app_error item_not_found = AppError.not_found
cart_app_error checkout_not_ready = bad_request
cart_app_error (infra e) = e

pub record Cart : Type 0 where
  pub user_id : ℕ
  pub items : List CartItem

abbrev line_total : CartItem → ℤ
line_total i = i.unit_price *ℤ pos i.quantity

abbrev total_of : List CartItem → ℤ
total_of [] = pos 0
total_of (i ∷ is) = line_total i +ℤ total_of is

abbrev pub cart_total : Cart → ℤ
cart_total c = total_of c.items

abbrev pub item_count : Cart → ℕ
item_count c = length c.items
