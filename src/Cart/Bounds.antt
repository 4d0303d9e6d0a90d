-- ===== src/Cart/Bounds.antt =====
-- No operation lets a cart grow beyond its bounds.
use Prim.Native.String.{String}
use koupang.Prelude.{
  ℕ, ◌≤◌, ◌<◌, ◌≡◌, refl, subst, Bool, true, false, Option, none, some, List, [], find, is_some,
  length, ltb, ◌==◌, if◌then◌else◌, ◌⊎◌, inl, inr, Bool-cases, arith,
}
use koupang.Errors.{AppError, bad_request, ok, err, ok_or}
use koupang.Action.{lift}
use koupang.Action.Triple.{Triple, Triple-bind, Triple-pure, Triple-gets, Triple-lift, Triple-given}
use koupang.Order.Requests.{inverted}
use koupang.Order.Values.{ok_injective}
use koupang.Money.{new_price}
use koupang.Cart.Types.{
  AddToCartReq, CartItem, CartItemStored, to_stored, valid_add_to_cart, new_cart_quantity, item_of,
  new_product_name, cart_currency, cart_app_error,
}
use koupang.Cart.Service.{
  Carts, is_sku_item, get_cart_item, remove_item, clear_cart, has_room, get_cart, add_item,
  update_item_quantity, validate_cart,
}
use koupang.Cart.Stored.{
  IsStored, AreCarts, removed-IsCart, Fits, with_cart-AreCarts, Stays, set_cart_item-Stays,
}

quantity_bounds : (q v : ℕ) → new_cart_quantity q ≡ ok v → (1 ≤ v) × (v ≤ 99)
unfolding new_cart_quantity
quantity_bounds q v h = elim (Bool-cases (q == 0)) [
  | inl e ↦ absurd (refused (rw e at h))
  | inr e ↦ elim (Bool-cases (ltb 99 q)) [
    | inl f ↦ absurd (refused (rw (e, f) at h))
    | inr f ↦
        subst (λ (x : ℕ). (1 ≤ x) × (x ≤ 99)) (ok_injective (ok q) q v refl (rw (e, f) at h))
          (some_pieces e, few f)
  ]
]
  where
    refused : err bad_request ≡ ok v → ⊥
    refused k = ground (arith, k)

    some_pieces : (q == 0) ≡ false → 1 ≤ q
    some_pieces k = ground (arith, k)

    few : ltb 99 q ≡ false → q ≤ 99
    few k = ground (arith, k)

module _ (to_uppercase : String → String) where
  valid-IsStored :
      (req : AddToCartReq) (v : CartItem)
      → valid_add_to_cart to_uppercase req ≡ ok v
      → IsStored (to_stored v)
  unfolding valid_add_to_cart
  valid-IsStored req v h =
      let (q, (accepted, h1)) = inverted (new_cart_quantity req.quantity) _ v h in
      let (price, (_, h2)) = inverted (new_price req.unit_price) _ v h1 in
      let (currency, (_, h3)) = inverted (cart_currency to_uppercase req.currency) _ v h2 in
      let (name, (_, same)) = inverted (new_product_name req.product_name) _ v h3 in
      subst (λ (x : CartItem). IsStored (to_stored x))
        (ok_injective (ok (item_of req q price currency name)) (item_of req q price currency name) v
          refl same)
        (quantity_bounds req.quantity q accepted)

  get_cart-Stays : (user_id : ℕ) → Stays (get_cart to_uppercase user_id)
  unfolding get_cart
  get_cart-Stays user_id =
      Triple-bind (λ _ carts. AreCarts carts) (Triple-gets _ (λ _ h. h))
        (λ found.
          Triple-bind (λ _ carts. AreCarts carts) (Triple-lift found (λ _ _ _ h. h) (λ _ _ _ h. h))
            (λ items. Triple-pure _ (λ _ h. h)))

  room-Fits :
      (user_id sku_id : ℕ) (carts : Carts)
      → has_room (is_some (get_cart_item carts user_id sku_id)) (length (carts user_id)) ≡ true
      → Fits sku_id (carts user_id)
  room-Fits user_id sku_id carts h =
      split (is_some (get_cart_item carts user_id sku_id)) (length (carts user_id)) h
    where
      split : (b : Bool) (n : ℕ) → has_room b n ≡ true → (b ≡ true) ⊎ (n < 50)
      split true n k = inl refl
      split false n k = inr (ground (arith, k))

  checked_room :
      (user_id sku_id : ℕ) (room : Bool) (e : AppError)
      → Triple
          (λ carts. (room ≡ true → Fits sku_id (carts user_id)) × AreCarts carts)
          (lift (if room then ok tt else err e))
          (λ _ carts. Fits sku_id (carts user_id) × AreCarts carts)
          (λ _ carts. AreCarts carts)
  checked_room user_id sku_id true e =
      Triple-lift (ok tt) (λ _ _ _ h. (h.0 refl, h.1)) (λ _ _ _ h. h.1)
  checked_room user_id sku_id false e =
      Triple-lift (err e) (λ a carts k h. absurd (ground (arith, k))) (λ _ _ _ h. h.1)

  add_item-Stays : (user_id : ℕ) (req : AddToCartReq) → Stays (add_item to_uppercase user_id req)
  unfolding add_item
  add_item-Stays user_id req =
      Triple-bind (λ v carts. (valid_add_to_cart to_uppercase req ≡ ok v) × AreCarts carts)
        (Triple-lift _ (λ _ _ k h. (k, h)) (λ _ _ _ h. h))
        (λ v. Triple-given (λ accepted.
          Triple-bind (λ room carts. (room ≡ true → Fits v.sku_id (carts user_id)) × AreCarts carts)
            (Triple-gets _ (λ carts h. (room-Fits user_id v.sku_id carts, h)))
            (λ room.
              Triple-bind (λ _ carts. Fits v.sku_id (carts user_id) × AreCarts carts)
                (checked_room user_id v.sku_id room _)
                (λ _.
                  Triple-bind (λ _ carts. AreCarts carts)
                    (set_cart_item-Stays user_id v.sku_id (to_stored v)
                      (valid-IsStored req v accepted))
                    (λ _. get_cart-Stays user_id)))))

  found_fits :
      (sku_id : ℕ) (l : List CartItemStored) (s : CartItemStored)
      → ok_or (find (is_sku_item sku_id) l) AppError.not_found ≡ ok s
      → is_some (find (is_sku_item sku_id) l) ≡ true
  found_fits sku_id l s h = some_of (find (is_sku_item sku_id) l) h
    where
      some_of : (o : Option CartItemStored) → ok_or o AppError.not_found ≡ ok s → is_some o ≡ true
      some_of none k = absurd (ground (arith, k))
      some_of (some x) k = refl

  update-Stays :
      (user_id sku_id quantity : ℕ)
      → Stays (update_item_quantity to_uppercase user_id sku_id quantity)
  unfolding update_item_quantity cart_app_error
  update-Stays user_id sku_id quantity =
      Triple-bind (λ q carts. (new_cart_quantity quantity ≡ ok q) × AreCarts carts)
        (Triple-lift _ (λ _ _ k h. (k, h)) (λ _ _ _ h. h))
        (λ q. Triple-given (λ accepted.
          Triple-bind (λ found carts. (found ≡ get_cart_item carts user_id sku_id) × AreCarts carts)
            (Triple-gets _ (λ carts h. (refl, h)))
            (λ found.
              Triple-bind (λ s carts. Fits sku_id (carts user_id) × AreCarts carts)
                (Triple-lift _
                  (λ s carts k h. (inl (found_fits sku_id (carts user_id) s (rw h.0 at k)), h.1))
                  (λ _ _ _ h. h.1))
                (λ s.
                  Triple-bind (λ _ carts. AreCarts carts)
                    (set_cart_item-Stays user_id sku_id (record s { quantity = q })
                      (quantity_bounds quantity q accepted))
                    (λ _. get_cart-Stays user_id)))))

  -- Every operation on carts, whether it succeeds or is refused, leaves each cart with at most fifty
  -- items, each of one to 99 pieces, if the carts were so before.
  pub operations-Stay :
      (user_id sku_id quantity : ℕ) (req : AddToCartReq)
      → Stays (add_item to_uppercase user_id req)
        × (Stays (update_item_quantity to_uppercase user_id sku_id quantity)
            × (Stays (remove_item user_id sku_id)
                × (Stays (clear_cart user_id) × Stays (validate_cart to_uppercase user_id))))
  unfolding remove_item clear_cart validate_cart
  operations-Stay user_id sku_id quantity req = (
    add_item-Stays user_id req,
    (
      update-Stays user_id sku_id quantity,
      (
        record {
          at = λ carts h.
              with_cart-AreCarts carts user_id _
                (let (shorter, kept) = removed-IsCart sku_id (carts user_id) in
                  (shorter_too _ _ shorter (h user_id).0, kept (h user_id).1))
                h;
        },
        (
          record { at = λ carts h. with_cart-AreCarts carts user_id [] (omega arith, tt) h },
          Triple-bind (λ _ carts. AreCarts carts) (get_cart-Stays user_id)
              (λ cart.
                Triple-bind (λ _ carts. AreCarts carts)
                  (Triple-lift _ (λ _ _ _ h. h) (λ _ _ _ h. h)) (λ _. Triple-pure cart (λ _ h. h))),
        ),
      ),
    ),
  )
    where
      shorter_too : (a b : ℕ) → a ≤ b → b ≤ 50 → a ≤ 50
      shorter_too a b h k = omega (arith, h, k)
