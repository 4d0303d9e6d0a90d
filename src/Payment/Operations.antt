-- ===== src/Payment/Operations.antt =====
-- The operations behind the routes implement the promised changes, on every outcome and whatever the
-- gateway answers.
use Prim.Native.String.{String}
use koupang.Prelude.{ℕ, ◌≡◌, refl, sym, ◌∙◌, ◌⊎◌, inl, inr, negate}
use koupang.Prelude.Int.{ℤ, eqb_ℤ}
use koupang.Errors.{AppError, Result, ok, err}
use koupang.Action.{Outcome, done, failed, panicked, ◌>>=◌, ◌>>◌, zoom, lift}
use koupang.Action.Triple.{
  Anything, Triple, Ends, Triple-bind, Triple-pure, Triple-fail, Triple-gets, Triple-lift,
  Triple-if, Triple-given, Triple-with_transaction, Triple-map_err,
}
use koupang.Json.{Text}
use koupang.Events.{EventEnvelope}
use koupang.Payment.Types.{
  Operation, auth_key, IdempotencyKey, GatewayAuthResult, GatewayError, new, failed, PaymentState,
}
use koupang.Payment.Repository.{Db}
use koupang.Payment.Gateway.{PaymentGateway}
use koupang.Payment.Lookup.{validate_authorization, find_posted_authorization}
use koupang.Payment.Records.{Tx}
use koupang.Payment.Session.{
  Session, Service, set_db, on_tx, in_transaction, call_authorize, call_capture, call_void,
}
use koupang.Payment.Service.{
  or_gateway_error, handle_tampered_amount, settle_authorization, authorize_payment,
  capture_payment, void_payment,
}
use koupang.Payment.Lifecycle.{state_of, IsOrdered, Refines, reports_failure}
use koupang.Payment.Validation.{validate_authorization_iff, find_posted_authorization-Found, Found}
use koupang.Payment.Refinement.{unchanged-Refines}
use koupang.Payment.Writes.{
  write_outbox-Refines, record_authorization-Refines, record_capture-Refines, record_void-Refines,
}

-- However an operation ends, its tables refine those that it started from.
abbrev pub EndsAs : {A : Type 0} → Service A → ℕ → Session → Type 0
EndsAs m o s = Ends (λ _ s'. Refines o s.db s'.db) (λ _ s'. Refines o s.db s'.db) (m s).0 (m s).1

-- Runs on tables that are `before`, and leaves tables that refine them, however it ends.
module _ (o : ℕ) (before : Db) where
  abbrev pub Starts : Session → Type 0
  Starts s = s.db ≡ before

  abbrev pub Implements : {A : Type 0} → Service A → Type 0
  Implements m = Triple Starts m (λ _ s. Refines o before s.db) (λ _ s. Refines o before s.db)

  module _ {F : AppError → Session → Type 0} where
    pub call_authorize-Starts :
        (g : PaymentGateway) (k : IdempotencyKey) (id : ℕ) (a : ℤ) (c : Text)
        → Triple Starts (call_authorize g k id a c) (λ _. Starts) F
    unfolding call_authorize
    call_authorize-Starts g k id a c = record { at = λ s h. h }

    pub call_capture-Starts :
        (g : PaymentGateway) (r : String) → Triple Starts (call_capture g r) (λ _. Starts) F
    unfolding call_capture
    call_capture-Starts g r = record { at = λ s h. h }

    pub call_void-Starts :
        (g : PaymentGateway) (r : String) → Triple Starts (call_void g r) (λ _. Starts) F
    unfolding call_void
    call_void-Starts g r = record { at = λ s h. h }

  pub on_tx-Refines :
      {A : Type 0} (m : Tx A)
      → Triple (λ db. db ≡ before) m (λ _. Refines o before) Anything
      → Triple Starts (on_tx m) (λ _ s. Refines o before s.db) Anything
  unfolding on_tx zoom
  on_tx-Refines m k = record { at = λ s e. here s (m s.db).0 (m s.db).1 (k.at s.db e) }
    where
      here :
          {A : Type 0} (s : Session) (r : Outcome AppError A) (db : Db)
          → Ends (λ _. Refines o before) Anything r db
          → Ends (λ _ s. Refines o before s.db) Anything r (set_db s db)
      here s (done a) db h = h
      here s (failed e) db h = tt
      here s panicked db h = h

  in_transaction-Implements :
      {A : Type 0} (m : Tx A)
      → IsOrdered before
      → Triple (λ db. db ≡ before) m (λ _. Refines o before) Anything
      → Implements (in_transaction m)
  unfolding in_transaction
  in_transaction-Implements m ordered k = Triple-map_err _ (
      Triple-with_transaction (λ s s'. set_db s' s.db) (on_tx-Refines m k)
        (λ s s' e. rw e (unchanged-Refines o before ordered)))

  or_gateway_error-Triple :
      {A : Type 0} (r : Result GatewayError A)
      → IsOrdered before
      → Triple Starts (or_gateway_error r) (λ _. Starts) (λ _ s. Refines o before s.db)
  unfolding or_gateway_error
  or_gateway_error-Triple (ok a) ordered = Triple-pure a (λ s e. e)
  or_gateway_error-Triple (err x) ordered =
      Triple-fail _ (λ s e. rw e (unchanged-Refines o before ordered))

  module _ (bytes : EventEnvelope → ℕ) (g : PaymentGateway) (ordered : IsOrdered before) where
    settle_authorization-Implements :
        (a : ℤ) (c : Text) (r : Result GatewayError GatewayAuthResult)
        → (state_of before o ≡ new) ⊎ (state_of before o ≡ PaymentState.failed)
        → Implements (settle_authorization bytes g o a c r)
    unfolding settle_authorization handle_tampered_amount
    settle_authorization-Implements a c (ok r) unpaid =
        Triple-if (negate (eqb_ℤ r.approved_amount a)) _ _
          (λ tampered.
            Triple-bind (λ _. Starts) (call_void-Starts g r.gateway_reference)
              (λ _.
                Triple-bind (λ _ s. Refines o before s.db)
                  (in_transaction-Implements _ ordered
                    (write_outbox-Refines bytes o before ordered _ _ reports_failure))
                  (λ _. Triple-fail _ (λ s h. h))))
          (λ same.
            in_transaction-Implements _ ordered
              (record_authorization-Refines bytes o before ordered a c r.gateway_reference unpaid))
    settle_authorization-Implements a c (err e) unpaid =
        in_transaction-Implements _ ordered
          (write_outbox-Refines bytes o before ordered _ _ reports_failure)

    -- The rest of `authorize_payment`, once no authorization was found in progress.
    authorize_if_valid-Implements :
        (a : ℤ) (c : Text) (state : PaymentState)
        → state ≡ state_of before o
        → Implements (do
          lift (validate_authorization a c state)
          r ← call_authorize g (auth_key o) o a c
          settle_authorization bytes g o a c r)
    authorize_if_valid-Implements a c state same =
        Triple-bind
          (λ _ s.
            ((state_of before o ≡ new) ⊎ (state_of before o ≡ PaymentState.failed)) × Starts s)
          (Triple-lift _
            (λ u s e h. (rw (sym same) (((validate_authorization_iff a c state).0 e).is_open), h))
            (λ x s e h. rw h (unchanged-Refines o before ordered)))
          (λ _. Triple-given (λ unpaid.
            Triple-bind (λ _. Starts) (call_authorize-Starts g (auth_key o) o a c)
              (λ r. settle_authorization-Implements a c r unpaid)))

    authorize_payment-Implements : (a : ℤ) (c : Text) → Implements (authorize_payment bytes g o a c)
    unfolding authorize_payment
    authorize_payment-Implements a c =
        Triple-bind (λ _. Starts) (Triple-gets _ (λ s h. h))
          (λ existing.
            Triple-bind (λ state s. (state ≡ state_of before o) × Starts s)
              (Triple-gets _ (λ s h. (rw h refl, h)))
              (λ state. Triple-given (λ same.
                Triple-if _ _ _
                  (λ _. Triple-pure tt (λ s h. rw h (unchanged-Refines o before ordered)))
                  (λ _. authorize_if_valid-Implements a c state same))))

    capture_payment-Implements : Implements (capture_payment bytes g o)
    unfolding capture_payment
    capture_payment-Implements =
        Triple-bind
          (λ found s. (found ≡ find_posted_authorization before o Operation.capture) × Starts s)
          (Triple-gets _ (λ s h. (rw h refl, h)))
          (λ found. Triple-given (λ same.
            Triple-bind (λ auth s. Found before o auth × Starts s)
              (Triple-lift _
                (λ auth s e h.
                  (find_posted_authorization-Found before o _ auth (inl refl) (sym same ∙ e), h))
                (λ x s e h. rw h (unchanged-Refines o before ordered)))
              (λ auth. Triple-given (λ f.
                Triple-bind (λ _. Starts) (call_capture-Starts g auth.gateway_reference)
                  (λ r.
                    Triple-bind (λ _. Starts) (or_gateway_error-Triple r ordered)
                      (λ _.
                        in_transaction-Implements _ ordered
                          (record_capture-Refines bytes o before ordered _ _ _ _ f.authorized)))))))

    void_payment-Implements : Implements (void_payment bytes g o)
    unfolding void_payment
    void_payment-Implements =
        Triple-bind
          (λ found s. (found ≡ find_posted_authorization before o Operation.void) × Starts s)
          (Triple-gets _ (λ s h. (rw h refl, h)))
          (λ found. Triple-given (λ same.
            Triple-bind (λ auth s. Found before o auth × Starts s)
              (Triple-lift _
                (λ auth s e h.
                  (find_posted_authorization-Found before o _ auth (inr refl) (sym same ∙ e), h))
                (λ x s e h. rw h (unchanged-Refines o before ordered)))
              (λ auth. Triple-given (λ f.
                Triple-bind (λ _. Starts) (call_void-Starts g auth.gateway_reference)
                  (λ r.
                    Triple-bind (λ _. Starts) (or_gateway_error-Triple r ordered)
                      (λ _.
                        in_transaction-Implements _ ordered
                          (record_void-Refines bytes o before ordered auth _ _ _ f)))))))

module _ (bytes : EventEnvelope → ℕ) (gateway : PaymentGateway) where
  -- Each operation behind the routes, on every outcome and whatever the gateway answers: nothing
  -- panics, the payment of the order moves as its lifecycle allows, the events that belong to the
  -- change are published, and no other order moves.
  pub service-Refines :
      (order_id : ℕ) (amount : ℤ) (currency : Text) (s : Session)
      → IsOrdered s.db
      → EndsAs (authorize_payment bytes gateway order_id amount currency) order_id s
        × EndsAs (capture_payment bytes gateway order_id) order_id s
        × EndsAs (void_payment bytes gateway order_id) order_id s
  service-Refines o a c s ordered = (
    (authorize_payment-Implements o s.db bytes gateway ordered a c).at s refl,
    (capture_payment-Implements o s.db bytes gateway ordered).at s refl,
    (void_payment-Implements o s.db bytes gateway ordered).at s refl,
  )
