-- ===== src/Cart/Service.antt =====
-- cart/src/cart/repository.rs and service.rs, on the stored carts by user. Redis does not fail here,
-- and its lists of a hash stand in some order: that of the insertions.
use Prim.Native.String.{String}
use koupang.Prelude.{
  ℕ, Bool, ◌||◌, negate, Option, List, [], ◌∷◌, ◌++◌, map, select, find, is_some, length, leb, ◌==◌,
  if◌then◌else◌,
}
use koupang.Errors.{AppError, Result, ok, err, ok_or}
use koupang.Action.{Action, done, pure, gets, lift, ◌>>=◌, ◌>>◌}
use koupang.Order.Requests.{and_then_ok}
use koupang.Rules.{passed, evaluate_detailed}
use koupang.Cart.Types.{
  AddToCartReq, CartItem, CartItemStored, Cart, to_stored, to_domain, valid_add_to_cart,
  new_cart_quantity, cart_app_error, cart_full, item_not_found, checkout_not_ready,
}
use koupang.Cart.Rules.{checkout_readiness_rules, eval_checkout, from_cart, most_cart_items}

-- The stored items of each user.
abbrev pub Carts : Type 0
Carts = ℕ → List CartItemStored

abbrev pub CartAction : Type 0 → Type 0
CartAction A = Action Carts AppError A

abbrev pub with_cart : Carts → ℕ → List CartItemStored → Carts
with_cart carts user_id items u = if u == user_id then items else carts u

abbrev pub is_sku_item : ℕ → CartItemStored → Bool
is_sku_item sku_id s = s.sku_id == sku_id

abbrev pub get_cart_item : Carts → ℕ → ℕ → Option CartItemStored
get_cart_item carts user_id sku_id = find (is_sku_item sku_id) (carts user_id)

abbrev pub replace_item : ℕ → CartItemStored → CartItemStored → CartItemStored
replace_item sku_id new s = if is_sku_item sku_id s then new else s

-- `HSET` of one field.
abbrev pub stored_with : ℕ → CartItemStored → List CartItemStored → List CartItemStored
stored_with sku_id new items =
    if is_some (find (is_sku_item sku_id) items)
    then map (replace_item sku_id new) items
    else items ++ new ∷ []

unfoldable pub set_cart_item : ℕ → ℕ → CartItemStored → CartAction (Unit {0})
set_cart_item user_id sku_id new carts =
    (done tt, with_cart carts user_id (stored_with sku_id new (carts user_id)))

unfoldable pub remove_item : ℕ → ℕ → CartAction (Unit {0})
remove_item user_id sku_id carts =
    (done tt, with_cart carts user_id (select (λ s. negate (is_sku_item sku_id s)) (carts user_id)))

unfoldable pub clear_cart : ℕ → CartAction (Unit {0})
clear_cart user_id carts = (done tt, with_cart carts user_id [])

abbrev pub has_room : Bool → ℕ → Bool
has_room exists count = exists || negate (leb most_cart_items count)

module _ (to_uppercase : String → String) where
  unfoldable domain_items : List CartItemStored → Result AppError (List CartItem)
  domain_items [] = ok []
  domain_items (s ∷ ss) =
      and_then_ok (to_domain to_uppercase s)
        (λ i. and_then_ok (domain_items ss) (λ is. ok (i ∷ is)))

  abbrev cart_of : ℕ → List CartItem → Cart
  cart_of user_id items = record { user_id = user_id; items = items }

  -- `load_cart`, and the response of `get_cart`.
  unfoldable pub get_cart : ℕ → CartAction Cart
  unfolding domain_items
  get_cart user_id = do
    found ← gets (λ carts. domain_items (carts user_id))
    items ← lift found
    pure (cart_of user_id items)

  -- `add_item`.
  unfoldable pub add_item : ℕ → AddToCartReq → CartAction Cart
  add_item user_id req = do
    validated ← lift (valid_add_to_cart to_uppercase req)
    room ← gets (λ carts.
        has_room (is_some (get_cart_item carts user_id validated.sku_id)) (length (carts user_id)))
    lift (if room then ok tt else err (cart_app_error (cart_full most_cart_items)))
    set_cart_item user_id validated.sku_id (to_stored validated)
    get_cart user_id

  -- `update_item_quantity`.
  unfoldable pub update_item_quantity : ℕ → ℕ → ℕ → CartAction Cart
  update_item_quantity user_id sku_id quantity = do
    valid ← lift (new_cart_quantity quantity)
    found ← gets (λ carts. get_cart_item carts user_id sku_id)
    existing ← lift (ok_or found (cart_app_error item_not_found))
    set_cart_item user_id sku_id (record existing { quantity = valid })
    get_cart user_id

  abbrev readiness : Cart → Result AppError (Unit {0})
  readiness cart =
      if passed (evaluate_detailed (eval_checkout (from_cart cart)) checkout_readiness_rules)
      then ok tt
      else err (cart_app_error checkout_not_ready)

  -- `validate_cart`; the checks of single items are stubs in the code.
  unfoldable pub validate_cart : ℕ → CartAction Cart
  validate_cart user_id = do cart ← get_cart user_id; lift (readiness cart); pure cart
