-- ===== src/Order/Ordering.antt =====
-- What the creation of an order does, and what the catalog reads of its event.
use Prim.Native.String.{String}
use koupang.Prelude.{
  ℕ, ◌≡◌, refl, subst, some, List, [], ◌∷◌, ◌++◌, map, Every, inl, inr, Bool-cases, append-nil,
  arith,
}
use koupang.Prelude.Int.{ℤ, pos, negsuc, ◌<ℤ◌, ◌≤ℤ◌}
use koupang.Errors.{ok}
use koupang.Action.Triple.{Anything, Ends}
use koupang.Inventory.Service.{ReservationItem}
use koupang.Inventory.Consumers.{parse_each, parse_items}
use koupang.Inventory.Parsing.{IsI32, as_i32_of}
use koupang.Order.Types.{OrderItemEntity}
use koupang.Order.Values.{max_order_quantity}
use koupang.Order.Requests.{
  CreateOrderReq, ValidCreateOrderReq, ValidCreateOrderItem, new_create_order_req, IsOrderable,
  new_create_order_req-valid,
}
use koupang.Order.Repository.{OrderDb}
use koupang.Order.Creation.{new_order_item, item_fits, insert_items, created_items, created_payload}

abbrev pub ordered_item : ValidCreateOrderItem → ReservationItem
ordered_item i = (i.sku_id, i.quantity)

orderable-IsI32 : (q : ℤ) → pos 0 <ℤ q → q ≤ℤ max_order_quantity → IsI32 q
orderable-IsI32 (pos n) h k = omega (arith, k)
orderable-IsI32 (negsuc n) h k = absurd (omega (arith, h))

parse_each-created_items :
    (items : List ValidCreateOrderItem)
    → Every IsOrderable items
    → parse_each (created_items items) ≡ some (map ordered_item items)
unfolding parse_each
parse_each-created_items [] h = refl
parse_each-created_items (i ∷ is) h =
    rw
      (
        as_i32_of i.quantity (orderable-IsI32 i.quantity h.0.0 h.0.1),
        parse_each-created_items is h.1,
      )
      refl

-- The catalog reads from the event of an order, made from an accepted request, exactly the SKUs and
-- the quantities that were ordered, in their order.
pub parse_items-created_payload :
    (to_uppercase : String → String) (key : String) (req : CreateOrderReq) (v : ValidCreateOrderReq)
    (order_id buyer_id : ℕ)
    → new_create_order_req to_uppercase key req ≡ ok v
    → parse_items (created_payload order_id buyer_id v) ≡ ok (map ordered_item v.items)
unfolding parse_items
parse_items-created_payload to_uppercase key req v order_id buyer_id h =
    rw (parse_each-created_items v.items (new_create_order_req-valid to_uppercase key req v h).1.0)
      refl

append-later :
    {A : Type 0} (xs : List A) (y : A) (ys : List A) → (xs ++ y ∷ []) ++ ys ≡ xs ++ y ∷ ys
append-later [] y ys = refl
append-later (x ∷ xs) y ys = rw (append-later xs y ys) refl

abbrev pub with_items : OrderDb → ℕ → List ValidCreateOrderItem → OrderDb
with_items db order_id is = record db { items = db.items ++ map (new_order_item order_id) is }

pub insert_items-reaches :
    (order_id : ℕ) (is : List ValidCreateOrderItem) (db : OrderDb)
    → Ends
        (λ _ x. x ≡ with_items db order_id is)
        Anything
        (insert_items order_id is db).0
        (insert_items order_id is db).1
unfolding insert_items
insert_items-reaches order_id [] db = rw (append-nil db.items) refl
insert_items-reaches order_id (i ∷ is) db =
    let next = record db { items = db.items ++ new_order_item order_id i ∷ [] } in
    elim (Bool-cases (item_fits i)) [
      | inl e ↦ rw e (
          subst
            (λ (l : List OrderItemEntity).
              Ends (λ _ x. x ≡ record db { items = l }) Anything (insert_items order_id is next).0
                (insert_items order_id is next).1)
            (append-later db.items (new_order_item order_id i) (map (new_order_item order_id) is))
            (insert_items-reaches order_id is next))
      | inr e ↦ rw e tt
    ]
