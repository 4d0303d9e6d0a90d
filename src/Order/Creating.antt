-- ===== src/Order/Creating.antt =====
-- Every outcome of the creation of an order.
use Prim.Native.String.{String}
use koupang.Prelude.{
  ℕ, suc, ◌+◌, ◌≡◌, refl, true, ◌||◌, negate, Option, none, some, [], ◌∷◌, ◌++◌, map, find, is_some,
  ltb, ◌⊎◌, inl, inr, Bool-cases, ◌==◌, arith,
}
use koupang.Errors.{AppError, internal_server_error, Result, ok, err}
use koupang.Action.{gets, zoom, ignore, ◌>>=◌}
use koupang.Action.Triple.{
  Anything, Triple, Triple-bind, Triple-pure, Triple-gets, Triple-lift, Triple-given, Triple-start,
  Triple-weaken, Triple-with_transaction, Triple-map_err,
}
use koupang.Json.{lit}
use koupang.Events.{EventEnvelope, order_created}
use koupang.Outbox.{max_payload_bytes, new_row, from_envelope}
use koupang.Order.Types.{OrderEntity, CurrentUser}
use koupang.Order.Values.{ok_injective}
use koupang.Order.Requests.{CreateOrderReq, ValidCreateOrderReq, new_create_order_req}
use koupang.Order.Repository.{OrderDb, get_order_by_id, write_order_outbox, order_metadata}
use koupang.Order.Creation.{
  new_order, new_order_item, insert_order, create_order_rows, created_payload, has_key,
  fits_numeric, create_in_transaction, create_unless, create_order, get_order_by_idempotency_key,
}
use koupang.Order.Ordering.{with_items, insert_items-reaches}

abbrev with_order : OrderDb → ℕ → ValidCreateOrderReq → OrderDb
with_order db buyer_id req = record db {
  orders = new_order db.next_id buyer_id req ∷ db.orders;
  next_id = suc db.next_id;
}

insert_order-reaches :
    (buyer_id : ℕ) (req : ValidCreateOrderReq) (before : OrderDb)
    → Triple
        (λ db. db ≡ before)
        (insert_order buyer_id req)
        (λ id db. (id ≡ before.next_id) × (db ≡ with_order before buyer_id req))
        Anything
unfolding insert_order
insert_order-reaches buyer_id req before =
    Triple-start before (insert_order buyer_id req)
      (elim (Bool-cases (
        is_some (find (has_key (lit req.idempotency_key)) before.orders)
        || negate (fits_numeric req.total_amount))) [ inl e ↦ rw e tt | inr e ↦ rw e (refl, refl) ])

-- The tables with the order, its items and its event.
abbrev created_event : OrderDb → ℕ → ValidCreateOrderReq → EventEnvelope
created_event db buyer_id req = record {
  metadata = order_metadata db.outbox.next_id db.next_id order_created none;
  payload = created_payload db.next_id buyer_id req;
}

abbrev pub ordered : OrderDb → ℕ → ValidCreateOrderReq → OrderDb
ordered db buyer_id req = record db {
  orders = new_order db.next_id buyer_id req ∷ db.orders;
  items = db.items ++ map (new_order_item db.next_id) req.items;
  next_id = suc db.next_id;
  outbox = record db.outbox {
    rows =
        db.outbox.rows
        ++ new_row db.outbox (from_envelope "orders.events" (created_event db buyer_id req)) ∷ [];
    next_id = db.outbox.next_id + 1;
  };
}

module _ (bytes : EventEnvelope → ℕ) (to_uppercase : String → String) (before : OrderDb) where
  write-reaches :
      (buyer_id : ℕ) (req : ValidCreateOrderReq)
      → Triple
          (λ db. db ≡ with_items (with_order before buyer_id req) before.next_id req.items)
          (write_order_outbox bytes before.next_id order_created
            (created_payload before.next_id buyer_id req)
            none)
          (λ _ db. db ≡ ordered before buyer_id req)
          Anything
  unfolding write_order_outbox ignore zoom gets ◌>>=◌
  write-reaches buyer_id req =
      Triple-start (with_items (with_order before buyer_id req) before.next_id req.items) _
        (elim (Bool-cases (ltb max_payload_bytes (bytes (created_event before buyer_id req)))) [
          | inl e ↦ rw e tt
          | inr e ↦ rw e refl
        ])

  create_in_transaction-reaches :
      (buyer_id : ℕ) (req : ValidCreateOrderReq)
      → Triple
          (λ db. db ≡ before)
          (create_in_transaction bytes to_uppercase buyer_id req)
          (λ id db. (id ≡ before.next_id) × (db ≡ ordered before buyer_id req))
          Anything
  unfolding create_in_transaction create_order_rows
  create_in_transaction-reaches buyer_id req =
      Triple-bind
        (λ id db.
          (id ≡ before.next_id)
          × (db ≡ with_items (with_order before buyer_id req) before.next_id req.items))
        (Triple-bind (λ id db. (id ≡ before.next_id) × (db ≡ with_order before buyer_id req))
          (insert_order-reaches buyer_id req before)
          (λ id. Triple-given (λ same.
            Triple-bind
              (λ _ db. db ≡ with_items (with_order before buyer_id req) before.next_id req.items)
              (rw same (
                Triple-start (with_order before buyer_id req) _
                  (insert_items-reaches before.next_id req.items (with_order before buyer_id req))))
              (λ _. Triple-pure id (λ db h. (same, h))))))
        (λ id. Triple-given (λ same.
          Triple-bind (λ _ db. db ≡ ordered before buyer_id req)
            (rw same (write-reaches buyer_id req)) (λ _. Triple-pure id (λ db h. (same, h)))))

  -- Either the order that has the key, and nothing changes, or a new one.
  abbrev pub Created : CurrentUser → ValidCreateOrderReq → OrderEntity → OrderDb → Type 0
  Created user v o after =
      ((get_order_by_idempotency_key before (lit v.idempotency_key) ≡ some o) × (after ≡ before))
      ⊎ ((get_order_by_idempotency_key before (lit v.idempotency_key) ≡ none)
          × ((o ≡ new_order before.next_id user.id v) × (after ≡ ordered before user.id v)))

  found_new :
      (user : CurrentUser) (v : ValidCreateOrderReq)
      → get_order_by_id (ordered before user.id v) before.next_id
        ≡ ok (new_order before.next_id user.id v)
  unfolding get_order_by_id
  found_new user v = rw (same_id before.next_id) refl
    where
      same_id : (n : ℕ) → (n == n) ≡ true
      same_id n = ground arith

  create_unless-Created :
      (user : CurrentUser) (v : ValidCreateOrderReq) (existing : Option OrderEntity)
      → get_order_by_idempotency_key before (lit v.idempotency_key) ≡ existing
      → Triple
          (λ db. db ≡ before)
          (create_unless bytes to_uppercase user.id v existing)
          (λ o db. Created user v o db)
          (λ _ db. db ≡ before)
  unfolding create_unless
  create_unless-Created user v (some o) h = Triple-pure o (λ db e. inl (h, e))
  create_unless-Created user v none h =
      Triple-bind (λ id db. (id ≡ before.next_id) × (db ≡ ordered before user.id v))
        (Triple-map_err (λ _. internal_server_error)
          (Triple-with_transaction (λ b reached. b) (create_in_transaction-reaches user.id v)
            (λ _ _ e. e)))
        (λ id. Triple-given (λ same.
          Triple-bind
            (λ found db.
              (found ≡ ok (new_order before.next_id user.id v)) × (db ≡ ordered before user.id v))
            (Triple-gets _ (λ db e. (rw (e, same) (found_new user v), e)))
            (λ found. Triple-given (λ is.
              Triple-lift found
                (λ o db got e.
                  inr (h, (ok_injective found o (new_order before.next_id user.id v) got is, e)))
                (λ x db refused e. absurd (not_both found _ x is refused))))))
    where
      not_both :
          (r : Result AppError OrderEntity) (o : OrderEntity) (x : AppError)
          → r ≡ ok o
          → r ≡ err x
          → ⊥
      not_both r o x h k = ground (arith, h, k)

  -- The creation of an order, from an accepted request `v`, returns the order that has its key, and
  -- then changes nothing, or a new pending order, and then the tables have that order, its items and
  -- one `OrderCreated` event with them. If it fails, it leaves the tables as they were.
  pub create_order-Created :
      (user : CurrentUser) (key : String) (req : CreateOrderReq)
      → Triple
          (λ db. db ≡ before)
          (create_order bytes to_uppercase user key req)
          (λ o db.
            (v : ValidCreateOrderReq) × ((new_create_order_req to_uppercase key req ≡ ok v)
              × Created user v o db))
          (λ _ db. db ≡ before)
  unfolding create_order
  create_order-Created user key req =
      Triple-bind (λ v db. (new_create_order_req to_uppercase key req ≡ ok v) × (db ≡ before))
        (Triple-lift _ (λ v db got e. (got, e)) (λ _ _ _ e. e))
        (λ v. Triple-given (λ accepted.
          Triple-bind (λ _ db. db ≡ before) (Triple-lift _ (λ _ _ _ e. e) (λ _ _ _ e. e))
            (λ _.
              Triple-bind
                (λ existing db.
                  (get_order_by_idempotency_key before (lit v.idempotency_key) ≡ existing)
                  × (db ≡ before))
                (Triple-gets _ (λ db e. (rw e refl, e)))
                (λ existing. Triple-given (λ is.
                  Triple-weaken (create_unless-Created user v existing is) (λ db e. e)
                    (λ o db h. (v, (accepted, h))))))))
