-- ===== src/Order/Effects.antt =====
-- What each step of the event handlers of the order service does to the tables.
use koupang.Prelude.{
  ℕ, ◌≡◌, refl, sym, ◌∙◌, subst, ap, Option, some, [], ◌∷◌, ◌++◌, map, find, arith, map-append,
  Bool-cases, inl, inr, ltb, is_some,
}
use koupang.Errors.{AppError, ok, map_err as map_result, ok_or, bad_request}
use koupang.Action.{◌>>=◌, ignore, zoom}
use koupang.Action.Triple.{
  Anything, Triple, Triple-bind, Triple-pure, Triple-gets, Triple-lift, Triple-given,
}
use koupang.Json.{Text, Value}
use koupang.Events.{EventEnvelope, EventType, payload_uuid}
use koupang.Outbox.{max_payload_bytes}
use koupang.Order.Types.{OrderEntity, OrderStatus, OrderError, transition_to}
use koupang.Order.Repository.{
  OrderDb, is_order, get_order_by_id, set_order_status, update_order_status, write_order_outbox,
  order_metadata,
}
use koupang.Order.Consumers.{order_for}
use koupang.Order.Lifecycle.{order_events, order_of, find-id}

-- The order that an event names, once it may move to `t`.
pub record Starting (before : OrderDb) (e : EventEnvelope) (t : OrderStatus) (o : OrderEntity)
    : Type 0 where
  pub named : payload_uuid e "order_id" ≡ ok o.id
  pub found : order_of before o.id ≡ some o
  pub may : transition_to o.status t ≡ ok t

-- The tables with one status changed.
abbrev pub moved : OrderDb → ℕ → OrderStatus → Option Text → OrderDb
moved db id t r = record db { orders = map (set_order_status id t r) db.orders }

transition_to-ok :
    (s t u : OrderStatus)
    → map_result (λ (x : OrderError). bad_request) (transition_to s t) ≡ ok u
    → transition_to s t ≡ ok t
unfolding transition_to
transition_to-ok s t u h = ground (arith, h)

read_ok :
    (found : Option OrderEntity) (o : OrderEntity)
    → ok_or found AppError.not_found ≡ ok o
    → found ≡ some o
read_ok found o h = ground (arith, h)

module _ (before : OrderDb) where
  starting :
      (e : EventEnvelope) (t : OrderStatus) (id : ℕ) (o : OrderEntity)
      → payload_uuid e "order_id" ≡ ok id
      → order_of before id ≡ some o
      → transition_to o.status t ≡ ok t
      → Starting before e t o
  starting e t id o named found may =
      let same = sym (find-id id before.orders o found) in
      record {
        named = subst (λ i. payload_uuid e "order_id" ≡ ok i) same named;
        found = subst (λ i. order_of before i ≡ some o) same found;
        may = may;
      }

  pub order_for-Triple :
      (e : EventEnvelope) (t : OrderStatus)
      → Triple
          (λ db. db ≡ before)
          (order_for e t)
          (λ o db. Starting before e t o × db ≡ before)
          Anything
  unfolding order_for get_order_by_id
  order_for-Triple e t =
      Triple-bind (λ id db. (payload_uuid e "order_id" ≡ ok id) × db ≡ before)
        (Triple-lift _ (λ id db h st. (h, st)) (λ x db h st. tt))
        (λ id. Triple-given (λ named.
          Triple-bind (λ found db. (found ≡ get_order_by_id before id) × db ≡ before)
            (Triple-gets _ (λ db st. (rw st refl, st)))
            (λ found. Triple-given (λ read.
              Triple-bind (λ o db. (order_of before id ≡ some o) × db ≡ before)
                (Triple-lift _ (λ o db h st. (read_ok _ o (sym read ∙ h), st)) (λ x db h st. tt))
                (λ o. Triple-given (λ here.
                  Triple-bind (λ u db. (transition_to o.status t ≡ ok t) × db ≡ before)
                    (Triple-lift _ (λ u db h st. (transition_to-ok o.status t u h, st))
                      (λ x db h st. tt))
                    (λ u. Triple-given (λ may.
                      Triple-pure o (λ db st. (starting e t id o named here may, st))))))))))

  pub update_order_status-Triple :
      (id : ℕ) (t : OrderStatus) (r : Option Text)
      → Triple
          (λ db. db ≡ before)
          (update_order_status id t r)
          (λ _ db. db ≡ moved before id t r)
          Anything
  unfolding update_order_status
  update_order_status-Triple id t r = record {
    at = λ db h. elim (Bool-cases (is_some (find (is_order id) db.orders))) [
      | inl e ↦ rw e (ap (λ x. moved x id t r) h)
      | inr e ↦ rw e tt
    ];
  }

  pub write_order_outbox-Triple :
      (bytes : EventEnvelope → ℕ) (id : ℕ) (ty : EventType) (v : Value) (cause : ℕ)
      → Triple
          (λ db. db ≡ before)
          (write_order_outbox bytes id ty v (some cause))
          (λ _ db.
            (db.orders ≡ before.orders) × (order_events db ≡ order_events before ++ (ty, id) ∷ []))
          Anything
  unfolding write_order_outbox ◌>>=◌ ignore zoom
  write_order_outbox-Triple bytes id ty v cause = record {
    at = λ db h.
        elim (Bool-cases (
          ltb max_payload_bytes (
            bytes (record {
              metadata = order_metadata db.outbox.next_id id ty (some cause);
              payload = v;
            })))) [
              | inl e ↦ rw e tt
              | inr e ↦ rw e (rw h refl, rw h (map-append _ before.outbox.rows _))
            ];
  }
