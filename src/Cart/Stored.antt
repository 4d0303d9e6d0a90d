-- ===== src/Cart/Stored.antt =====
-- The bounds of the stored carts of cart/src/cart, and what keeps them in the storage.
use koupang.Prelude.{
  ℕ, ◌+◌, ◌≤◌, ◌<◌, ◌≡◌, true, false, negate, List, [], ◌∷◌, map, select, find, is_some, length,
  length-append, ◌==◌, Every, Every-append, ◌⊎◌, inl, inr, Bool-cases, arith, length-map,
}
use koupang.Action.Triple.{Triple}
use koupang.Cart.Types.{CartItemStored}
use koupang.Cart.Service.{
  Carts, CartAction, with_cart, is_sku_item, replace_item, stored_with, set_cart_item,
}

abbrev pub IsStored : CartItemStored → Type 0
IsStored s = (1 ≤ s.quantity) × (s.quantity ≤ 99)

-- At most fifty items, each of one to 99 pieces.
abbrev IsCart : List CartItemStored → Type 0
IsCart items = (length items ≤ 50) × Every IsStored items

abbrev pub AreCarts : Carts → Type 0
AreCarts carts = (u : ℕ) → IsCart (carts u)

Every-replaced :
    (sku_id : ℕ) (new : CartItemStored) (l : List CartItemStored)
    → IsStored new
    → Every IsStored l
    → Every IsStored (map (replace_item sku_id new) l)
Every-replaced sku_id new [] n h = tt
Every-replaced sku_id new (x ∷ xs) n h = elim (Bool-cases (is_sku_item sku_id x)) [
  | inl e ↦ rw e (n, Every-replaced sku_id new xs n h.1)
  | inr e ↦ rw e (h.0, Every-replaced sku_id new xs n h.1)
]

pub removed-IsCart :
    (sku_id : ℕ) (l : List CartItemStored)
    → (length (select (λ s. negate (is_sku_item sku_id s)) l) ≤ length l)
      × (Every IsStored l → Every IsStored (select (λ s. negate (is_sku_item sku_id s)) l))
removed-IsCart sku_id [] = (omega arith, λ h. tt)
removed-IsCart sku_id (x ∷ xs) =
    let (shorter, kept) = removed-IsCart sku_id xs in
    elim (Bool-cases (is_sku_item sku_id x)) [
      | inl e ↦ rw e (omega (arith, shorter), λ h. kept h.1)
      | inr e ↦ rw e (omega (arith, shorter), λ h. (h.0, kept h.1))
    ]

-- The SKU is in the cart, or there is room for another.
abbrev pub Fits : ℕ → List CartItemStored → Type 0
Fits sku_id items = (is_some (find (is_sku_item sku_id) items) ≡ true) ⊎ (length items < 50)

stored_with-IsCart :
    (sku_id : ℕ) (new : CartItemStored) (items : List CartItemStored)
    → IsStored new
    → Fits sku_id items
    → IsCart items
    → IsCart (stored_with sku_id new items)
stored_with-IsCart sku_id new items n fits h =
    elim (Bool-cases (is_some (find (is_sku_item sku_id) items))) [
      | inl e ↦ rw e (
        rw (length-map (replace_item sku_id new) items) h.0,
        Every-replaced sku_id new items n h.1,
      )
      | inr e ↦ rw e (
        rw (length-append items (new ∷ [])) (grown e fits),
        Every-append IsStored items (new ∷ []) h.1 (n, tt),
      )
    ]
  where
    grown :
        is_some (find (is_sku_item sku_id) items) ≡ false
        → Fits sku_id items
        → length items + 1 ≤ 50
    grown e (inl f) = absurd (ground (arith, e, f))
    grown e (inr f) = omega (arith, f)

pub with_cart-AreCarts :
    (carts : Carts) (user_id : ℕ) (items : List CartItemStored)
    → IsCart items
    → AreCarts carts
    → AreCarts (with_cart carts user_id items)
with_cart-AreCarts carts user_id items n h u = elim (Bool-cases (u == user_id)) [
  | inl e ↦ rw e n
  | inr e ↦ rw e (h u)
]

abbrev pub Stays : {A : Type 0} → CartAction A → Type 0
Stays m = Triple AreCarts m (λ _ carts. AreCarts carts) (λ _ carts. AreCarts carts)

pub set_cart_item-Stays :
    (user_id sku_id : ℕ) (new : CartItemStored)
    → IsStored new
    → Triple
        (λ carts. Fits sku_id (carts user_id) × AreCarts carts)
        (set_cart_item user_id sku_id new)
        (λ _ carts. AreCarts carts)
        (λ _ carts. AreCarts carts)
unfolding set_cart_item
set_cart_item-Stays user_id sku_id new n = record {
  at = λ carts h.
      with_cart-AreCarts carts user_id (stored_with sku_id new (carts user_id))
        (stored_with-IsCart sku_id new (carts user_id) n h.0 (h.1 user_id)) h.1;
}
