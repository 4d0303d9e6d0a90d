-- ===== src/Payment/Outcomes.antt =====
-- When the operations of payment/src/payments/service.rs do nothing, and when they succeed.
use Prim.Native.String.{String, count}
use koupang.Prelude.{ℕ, ◌≡◌, ◌≢◌, ◌≤◌, ◌⊎◌, refl, inl, inr, ==_iff, true, none, ◌∷◌, arith}
use koupang.Prelude.Int.{ℤ, eqb_ℤ}
use koupang.Errors.{AppError, bad_request, ok, err}
use koupang.Action.{
  Outcome, done, failed, panicked, ◌>>=◌, continue, zoom, map_err, with_transaction,
}
use koupang.Action.Triple.{Ends}
use koupang.Json.{Text}
use koupang.Events.{EventEnvelope, EventType}
use koupang.Outbox.{max_payload_bytes}
use koupang.Payment.Types.{
  PaymentState, authorized, Operation, auth_key, GatewayAuthResult, validate_for_capture,
  validate_for_void, to_app_error, invalid_state,
}
use koupang.Payment.Repository.{Db, get_transaction_by_idempotency_key}
use koupang.Payment.Gateway.{PaymentGateway, authorizes}
use koupang.Payment.Lookup.{in_progress, find_posted_authorization, validate_for}
use koupang.Payment.Records.{record_authorization, payment_envelope, authorized_payload}
use koupang.Payment.Session.{Session, on_tx, in_transaction, call_authorize}
use koupang.Payment.Service.{settle_authorization, authorize_payment, capture_payment, void_payment}
use koupang.Payment.Recording.{record_authorization-Triple}
use koupang.Payment.Lifecycle.{state_of, IsOrdered}
use koupang.Payment.Refinement.{Recorded-state, listed}
use koupang.Payment.Validation.{Acceptable, validate_authorization_iff}

not_validated :
    (op : Operation) (state : PaymentState)
    → (op ≡ Operation.capture) ⊎ (op ≡ Operation.void)
    → state ≢ authorized
    → validate_for op state ≡ err (invalid_state op state)
unfolding validate_for_capture validate_for_void
not_validated op state h ne = ground (arith, h, ne)

eqb_ℤ-self : (a : ℤ) → eqb_ℤ a a ≡ true
eqb_ℤ-self a = ground arith

refused :
    (db : Db) (o : ℕ) (op : Operation)
    → (op ≡ Operation.capture) ⊎ (op ≡ Operation.void)
    → state_of db o ≢ authorized
    → find_posted_authorization db o op ≡ err bad_request
unfolding find_posted_authorization to_app_error
refused db o op h ne = rw (not_validated op (state_of db o) h ne) refl

module _ (bytes : EventEnvelope → ℕ) (gateway : PaymentGateway) where
  standing-authorization :
      (order_id : ℕ) (amount : ℤ) (currency : Text) (s : Session)
      → in_progress (get_transaction_by_idempotency_key s.db (auth_key order_id)) ≡ true
      → authorize_payment bytes gateway order_id amount currency s ≡ (done tt, s)
  unfolding authorize_payment ◌>>=◌
  standing-authorization o a c s h = rw h refl

  -- Unless the order is authorized, neither a capture nor a void reaches the gateway or changes a
  -- table: both are refused as a bad request.
  pub unauthorized-refused :
      (order_id : ℕ) (s : Session)
      → state_of s.db order_id ≢ authorized
      → (capture_payment bytes gateway order_id s ≡ (failed bad_request, s))
        × (void_payment bytes gateway order_id s ≡ (failed bad_request, s))
  unfolding capture_payment void_payment ◌>>=◌
  unauthorized-refused o s ne = (
    rw (refused s.db o Operation.capture (inl refl) ne) refl,
    rw (refused s.db o Operation.void (inr refl) ne) refl,
  )

abbrev Never : {S : Type 0} → AppError → S → Type 0
Never e s = ⊥

-- An action that cannot fail is done.
Ends-done :
    {S A : Type 0} (Q : A → S → Type 0) (m : Outcome AppError A × S)
    → Ends Q Never m.0 m.1
    → (a : A) × ((s' : S) × ((m ≡ (done a, s')) × Q a s'))
Ends-done Q (done a, s) h = (a, (s, (refl, h)))
Ends-done Q (failed e, s) h = elim h [ ]
Ends-done Q (panicked, s) h = elim h [ ]

authorization-recorded :
    (bytes : EventEnvelope → ℕ) (o : ℕ) (a : ℤ) (c : Text) (r : String) (db : Db)
    → IsOrdered db
    → Acceptable a c (state_of db o)
    → get_transaction_by_idempotency_key db (auth_key o) ≡ none
    → count r ≤ 255
    → ((e : EventEnvelope) → bytes e ≤ max_payload_bytes)
    → (db' : Db) × ((record_authorization bytes o a c r db ≡ (done tt, db'))
        × ((state_of db' o ≡ authorized)
            × (in_progress (get_transaction_by_idempotency_key db' (auth_key o)) ≡ true)))
unfolding get_transaction_by_idempotency_key
authorization-recorded bytes o a c r db ordered acceptable fresh short fits =
    let (u, (db', (e, h))) = Ends-done _ (record_authorization bytes o a c r db) (
      (record_authorization-Triple bytes Never db.transactions db.outbox db.next_id o a c r
          (λ clash. ground (arith, clash, fresh)) (λ long. ground (arith, long, short))
          (λ unpaid. ground (arith, unpaid, acceptable.at_least, acceptable.at_most))
          (λ id n big. ground (
            arith,
            big,
            fits (payment_envelope n o EventType.payment_authorized (authorized_payload o id r)),
          ))).at
        db (record { transactions = refl; outbox = refl; bound = omega arith })) in
    (
      db',
      (
        e,
        (
          Recorded-state o db db' db.transactions _ _ _ _ _ ordered h,
          rw (listed o db db' db.transactions _ _ _ _ _ ordered h, (==_iff o o).1 refl) refl,
        ),
      ),
    )

module _ (bytes : EventEnvelope → ℕ) (gateway : PaymentGateway) where
  -- The session after an authorization, and the transaction that stands in it.
  authorized_session :
      (order_id : ℕ) (amount : ℤ) (currency : Text) (s : Session) (result : GatewayAuthResult)
      → IsOrdered s.db
      → Acceptable amount currency (state_of s.db order_id)
      → get_transaction_by_idempotency_key s.db (auth_key order_id) ≡ none
      → gateway.authorize s.calls (auth_key order_id) order_id amount currency ≡ ok result
      → result.approved_amount ≡ amount
      → count result.gateway_reference ≤ 255
      → ((e : EventEnvelope) → bytes e ≤ max_payload_bytes)
      → (s' : Session) × (authorize_payment bytes gateway order_id amount currency s
          ≡ (done tt, s'))
        × (state_of s'.db order_id ≡ authorized)
        × (s'.calls ≡ authorizes (auth_key order_id) order_id amount currency ∷ s.calls)
        × (in_progress (get_transaction_by_idempotency_key s'.db (auth_key order_id)) ≡ true)
  unfolding authorize_payment settle_authorization call_authorize in_transaction on_tx zoom map_err
      with_transaction ◌>>=◌
  authorized_session o a c s r ordered acceptable fresh answer same short fits =
      rw
        (
          fresh,
          (validate_authorization_iff a c (state_of s.db o)).1 acceptable,
          answer,
          continue,
          same,
        )
        (let (db', (recorded, state)) =
            authorization-recorded bytes o a c r.gateway_reference s.db ordered acceptable fresh
              short fits in
          (_, rw (eqb_ℤ-self a, recorded) refl, state.0, refl, state.1))

  -- An acceptable authorization of an order without one, which the gateway approves at the amount
  -- that was asked, under a reference of at most 255 characters, succeeds if the event fits into
  -- the outbox: the order is authorized, with one call of the gateway.
  pub authorize_payment-succeeds :
      (order_id : ℕ) (amount : ℤ) (currency : Text) (s : Session) (result : GatewayAuthResult)
      → IsOrdered s.db
      → Acceptable amount currency (state_of s.db order_id)
      → get_transaction_by_idempotency_key s.db (auth_key order_id) ≡ none
      → gateway.authorize s.calls (auth_key order_id) order_id amount currency ≡ ok result
      → result.approved_amount ≡ amount
      → count result.gateway_reference ≤ 255
      → ((e : EventEnvelope) → bytes e ≤ max_payload_bytes)
      → (s' : Session) × (authorize_payment bytes gateway order_id amount currency s
          ≡ (done tt, s'))
        × (state_of s'.db order_id ≡ authorized)
        × (s'.calls ≡ authorizes (auth_key order_id) order_id amount currency ∷ s.calls)
  authorize_payment-succeeds o a c s r ordered acceptable fresh answer same short fits =
      let it = authorized_session o a c s r ordered acceptable fresh answer same short fits in
      (it.0, it.1, it.2, it.3)

  -- An order that was authorized is not authorized again: a second authorization, whatever its
  -- amount and its currency, succeeds, leaves everything as the first one left it, and does not call
  -- the gateway. The first one was acceptable, for an order without one, and the gateway approved it
  -- at the amount that was asked, under a reference of at most 255 characters; and the events fit
  -- into the outbox.
  pub authorize_payment-idempotent :
      (order_id : ℕ) (amount : ℤ) (currency : Text) (s : Session) (result : GatewayAuthResult)
      → IsOrdered s.db
      → Acceptable amount currency (state_of s.db order_id)
      → get_transaction_by_idempotency_key s.db (auth_key order_id) ≡ none
      → gateway.authorize s.calls (auth_key order_id) order_id amount currency ≡ ok result
      → result.approved_amount ≡ amount
      → count result.gateway_reference ≤ 255
      → ((e : EventEnvelope) → bytes e ≤ max_payload_bytes)
      → (other_amount : ℤ) (other_currency : Text)
      → authorize_payment bytes gateway order_id other_amount other_currency
          (authorize_payment bytes gateway order_id amount currency s).1
        ≡ (done tt, (authorize_payment bytes gateway order_id amount currency s).1)
  authorize_payment-idempotent o a c s r ordered acceptable fresh answer same short fits a' c' =
      let it = authorized_session o a c s r ordered acceptable fresh answer same short fits in
      rw it.1 (standing-authorization bytes gateway o a' c' it.0 it.4)
