-- ===== src/Inventory/Consumers.antt =====
-- The event consumer of catalog/src/consumers.
use koupang.Prelude.{ℕ, suc, ◌-◌, ◌%◌, ◌^◌, ltb, List, [], ◌∷◌, Option, some, if◌then◌else◌}
use koupang.Prelude.Int.{ℤ, pos, negsuc}
use koupang.Errors.{AppError, Result, ok_or}
use koupang.Action.{Action, pure, lift, map_err, attempt, ◌>>=◌, ◌>>◌}
use koupang.Json.{
  Text, lit, Value, Items, no_items, item, index, as_str, as_i64, as_array, parse_uuid, unwrap_or,
  and_then,
}
use koupang.Events.{EventEnvelope, EventType, payload_uuid}
use koupang.Consumer.{HandlerError}
use koupang.Inventory.Repository.{release_all_reservations}
use koupang.Inventory.Service.{
  CatalogSession, Catalog, ReservationItem, on_tx, reserve_for_order_on_tx,
}

-- `as i32`: the low 32 bits, read as a signed number.
abbrev pub signed_32 : ℕ → ℤ
signed_32 w = if ltb w (2 ^ 31) then pos w else negsuc (2 ^ 32 - w - 1)

unfoldable pub as_i32 : ℤ → ℤ
as_i32 (pos n) = signed_32 (n % 2 ^ 32)
as_i32 (negsuc n) = signed_32 (2 ^ 32 - suc (n % 2 ^ 32))

abbrev parse_item : Value → Option ReservationItem
parse_item v =
    and_then (and_then (as_str (index v "sku_id")) parse_uuid)
      (λ sku_id. and_then (as_i64 (index v "quantity")) (λ q. some (sku_id, as_i32 q)))

-- The `map` and `collect` over the array: the first item that does not parse decides.
unfoldable pub parse_each : Items → Option (List ReservationItem)
unfolding as_i32
parse_each no_items = some []
parse_each (item v vs) =
    and_then (parse_item v) (λ i. and_then (parse_each vs) (λ is. some (i ∷ is)))

unfoldable pub parse_items : Value → Result HandlerError (List ReservationItem)
unfolding parse_each
parse_items payload =
    ok_or (and_then (as_array (index payload "items")) parse_each) HandlerError.permanent

module _ (bytes : EventEnvelope → ℕ) (describe : AppError → Text) where
  unfoldable pub handle_order_created :
      EventEnvelope → Action CatalogSession HandlerError (Unit {0})
  handle_order_created envelope = do
    order_id ← map_err (λ _. HandlerError.permanent) (lift (payload_uuid envelope "order_id"))
    buyer_id ← map_err (λ _. HandlerError.permanent) (lift (payload_uuid envelope "buyer_id"))
    items ← lift (parse_items envelope.payload)
    map_err (λ _. HandlerError.permanent)
        (reserve_for_order_on_tx bytes describe order_id buyer_id
          (unwrap_or (as_str (index envelope.payload "total_amount")) (lit "0"))
          (unwrap_or (as_str (index envelope.payload "currency")) (lit "USD")) items)

  -- An error of the release is only logged. (After a violated constraint PostgreSQL would refuse the
  -- rest of the transaction; where the tables are well counted the release violates none.)
  unfoldable pub handle_order_cancelled : EventEnvelope → Catalog (Unit {0})
  handle_order_cancelled envelope = do
    order_id ← lift (payload_uuid envelope "order_id")
    attempt {F = AppError} (on_tx (release_all_reservations order_id))
    pure tt

  unfoldable pub dispatch_catalog :
      EventType → EventEnvelope → Action CatalogSession HandlerError (Unit {0})
  dispatch_catalog EventType.order_created e = handle_order_created e
  dispatch_catalog EventType.order_cancelled e =
      map_err (λ _. HandlerError.transient) (handle_order_cancelled e)
  dispatch_catalog _ e = pure tt

  -- `CatalogEventHandler::handle`.
  unfoldable pub handle_catalog_event :
      EventEnvelope → Action CatalogSession HandlerError (Unit {0})
  handle_catalog_event e = dispatch_catalog e.metadata.event_type e
