-- ===== src/Payment/Writes.antt =====
-- Each write of an operation, on the tables that it starts from, implements its change.
use Prim.Native.String.{String}
use koupang.Prelude.{ℕ, ◌≡◌, refl, subst, ◌⊎◌, inl, inr, true, none, [], ◌∷◌, arith, is_some, find}
use koupang.Prelude.Int.{ℤ}
use koupang.Action.Triple.{Anything, Triple, Triple-weaken}
use koupang.Json.{Text, Value}
use koupang.Events.{EventEnvelope, EventType, payment_authorized}
use koupang.Payment.Types.{TransactionStatus, IdempotencyKey, new, failed, authorized}
use koupang.Payment.Repository.{Db, list_transactions_by_order, has_id}
use koupang.Payment.Lookup.{Authorization}
use koupang.Payment.Records.{write_outbox, record_authorization, record_capture, record_void}
use koupang.Payment.Effects.{Ledger, write_outbox-Triple}
use koupang.Payment.Recording.{
  record_authorization-Triple, record_capture-Triple, record_void-Triple,
}
use koupang.Payment.Lifecycle.{
  state_of, IsOrdered, Effect, Refines, authorizes, reauthorizes, captures, voids,
}
use koupang.Payment.Ids.{Owned, Descending-set_status, set_status-other, found-Owned, found-bound}
use koupang.Payment.Validation.{Found}
use koupang.Payment.Refinement.{Recorded-Refines, written-Refines}

module _ (bytes : EventEnvelope → ℕ) (o : ℕ) (before : Db) (ordered : IsOrdered before) where
  starts : (db : Db) → db ≡ before → Ledger before.transactions before.outbox before.next_id db
  starts db e = rw e (record { transactions = refl; outbox = refl; bound = omega arith })

  pub write_outbox-Refines :
      (ty : EventType) (v : Value)
      → Effect (state_of before o) (state_of before o) (ty ∷ [])
      → Triple (λ db. db ≡ before) (write_outbox bytes o ty v) (λ _. Refines o before) Anything
  write_outbox-Refines ty v eff =
      Triple-weaken
        (write_outbox-Triple before.transactions before.outbox before.next_id Anything bytes o ty v
          (λ _ e db. tt))
        starts (λ _ db h. written-Refines o before db ty v ordered eff h)

  pub record_authorization-Refines :
      (a : ℤ) (c : Text) (r : String)
      → (state_of before o ≡ new) ⊎ (state_of before o ≡ failed)
      → Triple
          (λ db. db ≡ before)
          (record_authorization bytes o a c r)
          (λ _. Refines o before)
          Anything
  unfolding list_transactions_by_order
  record_authorization-Refines a c r unpaid =
      Triple-weaken
        (record_authorization-Triple bytes Anything before.transactions before.outbox before.next_id
          o a c r (λ _ e db. tt) (λ _ e db. tt) (λ _ e db. tt) (λ id n _ e db. tt))
        starts
        (λ _ db h.
          Recorded-Refines o before db before.transactions _ _ _ _ _ ordered (λ _ ne. refl) h
            (effect unpaid))
    where
      effect :
          (state_of before o ≡ new) ⊎ (state_of before o ≡ failed)
          → Effect (state_of before o) authorized (payment_authorized ∷ [])
      effect (inl e) = rw e authorizes
      effect (inr e) = rw e reauthorizes

  pub record_capture-Refines :
      (c : Text) (a : ℤ) (k : IdempotencyKey) (r : String)
      → state_of before o ≡ authorized
      → Triple (λ db. db ≡ before) (record_capture bytes o c a k r) (λ _. Refines o before) Anything
  unfolding list_transactions_by_order
  record_capture-Refines c a k r e =
      Triple-weaken
        (record_capture-Triple bytes Anything before.transactions before.outbox before.next_id o c a
          k r (λ _ e db. tt) (λ _ e db. tt) (λ _ e db. tt) (λ id n _ e db. tt))
        starts
        (λ _ db h.
          Recorded-Refines o before db before.transactions _ _ _ _ _ ordered (λ _ ne. refl) h
            (rw e captures))

  pub record_void-Refines :
      (auth : Authorization) (c : Text) (a : ℤ) (k : IdempotencyKey)
      → Found before o auth
      → Triple
          (λ db. db ≡ before)
          (record_void bytes o auth.id c a k)
          (λ _. Refines o before)
          Anything
  unfolding list_transactions_by_order
  record_void-Refines auth c a k f =
      Triple-weaken
        (record_void-Triple bytes Anything before.transactions before.outbox before.next_id o
          auth.id c a k
          (subst (λ i. is_some (find (has_id i) before.transactions) ≡ true) f.id
            (found-bound before.next_id o before.transactions f.row ordered f.found).1)
          (λ _ e db. tt) (λ _ e db. tt) (λ id n _ e db. tt))
        starts
        (λ _ db h.
          Recorded-Refines o before db _ _ _ _ _ _
            (Descending-set_status before.next_id auth.id TransactionStatus.discarded none
              before.transactions ordered)
            (λ o' ne.
              set_status-other auth.id TransactionStatus.discarded none o o' before.transactions ne
                (subst (λ i. Owned i o before.transactions) f.id
                  (found-Owned before.next_id o before.transactions f.row ordered f.found)))
            h (rw f.authorized voids))
