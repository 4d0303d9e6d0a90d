-- ===== src/Order/Requests.antt =====
-- The request for an order: `ValidCreateOrderReq::new` of order/src/orders/dtos.rs.
use Prim.Native.String.{String}
use koupang.Prelude.{
  ℕ, ◌≡◌, refl, subst, true, ◌∙◌, arith, Option, none, some, List, [], ◌∷◌, Every,
}
use koupang.Prelude.Int.{ℤ, pos, ◌+ℤ◌, ◌*ℤ◌, ◌<ℤ◌, ◌≤ℤ◌, int_laws}
use koupang.Errors.{AppError, bad_request, Result, ok, err}
use koupang.Money.{new_price, new_currency, default_currency}
use koupang.Order.Values.{
  ShippingAddressReq, ShippingAddress, new_shipping_address, new_idempotency_key, new_quantity,
  new_quantity-bounds, max_order_quantity, is_complete, ok_injective, new_shipping_address-stable,
}

pub record CreateOrderItemReq : Type 0 where
  pub product_id : ℕ
  pub sku_id : ℕ
  pub product_name : String
  pub sku_code : String
  pub quantity : ℤ
  pub seller_id : ℕ
  pub unit_price : ℤ

pub record CreateOrderReq : Type 0 where
  pub items : List CreateOrderItemReq
  pub currency : Option String
  pub shipping_address : ShippingAddressReq

pub record ValidCreateOrderItem : Type 0 where
  pub product_id : ℕ
  pub sku_id : ℕ
  pub product_name : String
  pub sku_code : String
  pub quantity : ℤ
  pub seller_id : ℕ
  pub unit_price : ℤ
  pub total_price : ℤ

pub record ValidCreateOrderReq : Type 0 where
  pub idempotency_key : String
  pub currency : String
  pub shipping_address : ShippingAddress
  pub items : List ValidCreateOrderItem
  pub total_amount : ℤ

abbrev pub and_then_ok :
    {A B : Type 0} → Result AppError A → (A → Result AppError B) → Result AppError B
and_then_ok (ok a) f = f a
and_then_ok (err e) f = err e

abbrev valid_item : CreateOrderItemReq → ℤ → ℤ → ValidCreateOrderItem
valid_item item quantity unit_price = record {
  product_id = item.product_id;
  sku_id = item.sku_id;
  product_name = item.product_name;
  sku_code = item.sku_code;
  quantity = quantity;
  seller_id = item.seller_id;
  unit_price = unit_price;
  total_price = unit_price *ℤ quantity;
}

unfoldable pub new_item : CreateOrderItemReq → Result AppError ValidCreateOrderItem
new_item item = and_then_ok (new_quantity item.quantity) (λ quantity.
    and_then_ok (new_price item.unit_price)
      (λ unit_price. ok (valid_item item quantity unit_price)))

-- The loop over the items, with the total so far: the first item that is refused decides.
unfoldable pub new_items :
    ℤ → List CreateOrderItemReq → Result AppError (List ValidCreateOrderItem × ℤ)
unfolding new_item
new_items total [] = ok ([], total)
new_items total (i ∷ is) = and_then_ok (new_item i) (λ item.
    and_then_ok (new_items (total +ℤ item.total_price) is) (λ rest. ok (item ∷ rest.0, rest.1)))

abbrev non_empty : List CreateOrderItemReq → Result AppError (Unit {0})
non_empty [] = err bad_request
non_empty (i ∷ is) = ok tt

abbrev assembled :
    String → String → ShippingAddress → List ValidCreateOrderItem × ℤ → ValidCreateOrderReq
assembled key currency shipping_address found = record {
  idempotency_key = key;
  currency = currency;
  shipping_address = shipping_address;
  items = found.0;
  total_amount = found.1;
}

module _ (to_uppercase : String → String) where
  abbrev currency_or_default : Option String → Result AppError String
  currency_or_default none = ok default_currency
  currency_or_default (some c) = new_currency to_uppercase c

  unfoldable pub new_create_order_req :
      String → CreateOrderReq → Result AppError ValidCreateOrderReq
  unfolding new_items
  new_create_order_req idempotency_key req =
      and_then_ok (new_idempotency_key idempotency_key) (λ key.
        and_then_ok (currency_or_default req.currency) (λ currency.
          and_then_ok (new_shipping_address req.shipping_address) (λ shipping_address.
            and_then_ok (non_empty req.items) (λ _.
              and_then_ok (new_items (pos 0) req.items)
                (λ found. ok (assembled key currency shipping_address found))))))

abbrev pub IsOrderable : ValidCreateOrderItem → Type 0
IsOrderable i = (pos 0 <ℤ i.quantity) × (i.quantity ≤ℤ max_order_quantity)

abbrev pub sum_prices : List ValidCreateOrderItem → ℤ
sum_prices [] = pos 0
sum_prices (i ∷ is) = i.total_price +ℤ sum_prices is

pub inverted :
    {A B : Type 0} (r : Result AppError A) (f : A → Result AppError B) (b : B)
    → and_then_ok r f ≡ ok b
    → (a : A) × ((r ≡ ok a) × (f a ≡ ok b))
inverted (ok a) f b h = (a, (refl, h))
inverted (err e) f b h = absurd (ground (arith, h))

new_item-IsOrderable :
    (item : CreateOrderItemReq) (i : ValidCreateOrderItem) → new_item item ≡ ok i → IsOrderable i
unfolding new_item
new_item-IsOrderable item i h =
    let (quantity, (accepted, rest)) = inverted (new_quantity item.quantity) _ i h in
    let (unit_price, (priced, same)) = inverted (new_price item.unit_price) _ i rest in
    subst IsOrderable
      (ok_injective (ok (valid_item item quantity unit_price)) (valid_item item quantity unit_price)
        i refl same)
      (new_quantity-bounds item.quantity quantity accepted)

add_shift : (t p s x : ℤ) → x ≡ t +ℤ p +ℤ s → x ≡ t +ℤ (p +ℤ s)
add_shift t p s x h = rw h (omega int_laws)

abbrev Summed : ℤ → List ValidCreateOrderItem × ℤ → Type 0
Summed total found = Every IsOrderable found.0 × (found.1 ≡ total +ℤ sum_prices found.0)

new_items-Summed :
    (total : ℤ) (is : List CreateOrderItemReq) (found : List ValidCreateOrderItem × ℤ)
    → new_items total is ≡ ok found
    → Summed total found
unfolding new_items
new_items-Summed total [] found h =
    subst (Summed total) (ok_injective (ok ([], total)) ([], total) found refl h)
      (tt, omega int_laws)
new_items-Summed total (i ∷ is) found h =
    let (item, (accepted, later)) = inverted (new_item i) _ found h in
    let (rest, (more, same)) = inverted (new_items (total +ℤ item.total_price) is) _ found later in
    let it = new_items-Summed (total +ℤ item.total_price) is rest more in
    subst (Summed total)
      (ok_injective (ok (item ∷ rest.0, rest.1)) (item ∷ rest.0, rest.1) found refl same)
      ((new_item-IsOrderable i item accepted, it.0), add_shift total item.total_price _ rest.1 it.1)

-- A request that was accepted has a complete address, orders between one and 9999 pieces of each item,
-- and has the sum of its items' prices as its total.
pub new_create_order_req-valid :
    (to_uppercase : String → String) (key : String) (req : CreateOrderReq) (v : ValidCreateOrderReq)
    → new_create_order_req to_uppercase key req ≡ ok v
    → (is_complete v.shipping_address ≡ true)
      × (Every IsOrderable v.items × (v.total_amount ≡ sum_prices v.items))
unfolding new_create_order_req
new_create_order_req-valid to_uppercase key req v h =
    let (k, (_, h1)) = inverted (new_idempotency_key key) _ v h in
    let (currency, (_, h2)) = inverted (currency_or_default to_uppercase req.currency) _ v h1 in
    let (address, (placed, h3)) = inverted (new_shipping_address req.shipping_address) _ v h2 in
    let (u, (_, h4)) = inverted (non_empty req.items) _ v h3 in
    let (found, (summed, same)) = inverted (new_items (pos 0) req.items) _ v h4 in
    let facts = new_items-Summed (pos 0) req.items found summed in
    subst
      (λ (x : ValidCreateOrderReq).
        (is_complete x.shipping_address ≡ true)
        × (Every IsOrderable x.items × (x.total_amount ≡ sum_prices x.items)))
      (ok_injective (ok (assembled k currency address found)) (assembled k currency address found) v
        refl same)
      (
        (new_shipping_address-stable req.shipping_address address placed).0,
        (facts.0, facts.1 ∙ zero_add (sum_prices found.0)),
      )
  where
    zero_add : (x : ℤ) → pos 0 +ℤ x ≡ x
    zero_add x = omega int_laws
