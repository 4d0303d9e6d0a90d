-- ===== src/Order/Cancel.antt =====
-- The outcomes of `cancel_order`.
use koupang.Prelude.{
  ℕ, ◌≡◌, refl, ap, Option, none, some, arith, if◌then◌else◌, Bool-cases, inl, inr,
}
use koupang.Errors.{AppError, bad_request, forbidden, not_found}
use koupang.Action.{lift, failed, ◌>>=◌, continue}
use koupang.Json.{Text}
use koupang.Events.{EventEnvelope}
use koupang.Order.Types.{OrderEntity, CurrentUser, can_cancel, can_access, require_access}
use koupang.Order.Repository.{OrderDb, get_order_by_id}
use koupang.Order.Service.{cancel_order}
use koupang.Order.Status.{validate_cancellation-eq}
use koupang.Order.Lifecycle.{order_of}

-- Why a cancellation is refused, if it is: there is no such order, it is somebody else's, or its
-- status allows none.
abbrev pub refusal : Option OrderEntity → CurrentUser → Option AppError
refusal none user = some not_found
refusal (some order) user =
    if can_access user order.buyer_id
    then if can_cancel order.status then none else some bad_request
    else some forbidden

module _ (bytes : EventEnvelope → ℕ) (pool db : OrderDb) (user : CurrentUser) (id : ℕ)
    (reason : Option Text) where
  -- A cancellation that is refused fails with the error for the reason, and changes nothing: not
  -- found, forbidden for an order of somebody else, a bad request where the status allows none.
  pub cancel_order-refused :
      (e : AppError)
      → refusal (order_of pool id) user ≡ some e
      → cancel_order bytes pool user id reason db ≡ (failed e, db)
  unfolding cancel_order get_order_by_id require_access lift ◌>>=◌
  cancel_order-refused e h = go (order_of pool id) refl h
    where
      go :
          (found : Option OrderEntity)
          → order_of pool id ≡ found
          → refusal found user ≡ some e
          → cancel_order bytes pool user id reason db ≡ (failed e, db)
      go none q h = rw q (ap (λ x. (failed x, db)) (ground (arith, h)))
      go (some order) q h = elim (Bool-cases (can_access user order.buyer_id)) [
        | inl a ↦ elim (Bool-cases (can_cancel order.status)) [
          | inl c ↦ ground (arith, a, c, h)
          | inr c ↦
              rw (q, a, continue, validate_cancellation-eq order, c)
                (ap (λ x. (failed x, db)) (ground (arith, a, c, h)))
        ]
        | inr a ↦ rw (q, a) (ap (λ x. (failed x, db)) (ground (arith, a, h)))
      ]
