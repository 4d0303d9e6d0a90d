-- ===== src/Payment/History.antt =====
-- The states that a payment goes through, event by event.
use koupang.Prelude.{
  ℕ, ◌≡◌, refl, sym, ◌∙◌, subst, ==_iff, inl, inr, ◌⊎◌, Option, List, ◌==◌, arith, Bool-cases,
}
use koupang.Errors.{AppError, Result, ok, err}
use koupang.Action.{Outcome, done, failed, panicked, ◌>>=◌, continue, map_err, with_transaction}
use koupang.Action.Triple.{Ends}
use koupang.Events.{EventEnvelope, EventType, payload_uuid}
use koupang.Payment.Types.{PaymentState, captured, voided}
use koupang.Payment.Repository.{Db}
use koupang.Payment.Gateway.{PaymentGateway}
use koupang.Payment.Session.{Session}
use koupang.Consumer.{HandlerError}
use koupang.Payment.Consumers.{LockAnswer, handle, is_relevant}
use koupang.Payment.Lifecycle.{
  state_of, IsOrdered, Effect, Refines, authorizes, reauthorizes, captures, voids, nothing,
  reports_failure, requests_retry,
}
use koupang.Payment.Refinement.{unchanged-Refines}
use koupang.Payment.Dispatch.{handle_event, handle_event-Refines}

-- The states that a payment can reach by allowed changes.
pub data Leads : PaymentState → PaymentState → Type 0 where
  stays : {s : PaymentState} → Leads s s
  goes_on : {s t u : PaymentState} {es : List EventType} → Leads s t → Effect t u es → Leads s u

Effect-final :
    (s t : PaymentState) (es : List EventType)
    → (s ≡ captured) ⊎ (s ≡ voided)
    → Effect s t es
    → t ≡ s
Effect-final s t es h nothing = refl
Effect-final s t es h reports_failure = refl
Effect-final s t es h requests_retry = refl
Effect-final s t es h authorizes = ground (arith, h)
Effect-final s t es h reauthorizes = ground (arith, h)
Effect-final s t es h captures = ground (arith, h)
Effect-final s t es h voids = ground (arith, h)

pub Leads-final : (s t : PaymentState) → (s ≡ captured) ⊎ (s ≡ voided) → Leads s t → t ≡ s
Leads-final s t h stays = refl
Leads-final s t h (goes_on {t = u} {es = es} l e) =
    let same = Leads-final s u h l in
    Effect-final u t es (subst (λ x. (x ≡ captured) ⊎ (x ≡ voided)) (sym same) h) e ∙ same

pub Leads-trans : (s t u : PaymentState) → Leads s t → Leads t u → Leads s u
Leads-trans s t u l stays = l
Leads-trans s t u l (goes_on k e) = goes_on (Leads-trans s _ _ l k) e

module _ (bytes : EventEnvelope → ℕ) (gateway : PaymentGateway) where
  unnamed :
      (lock : Option LockAnswer) (e : EventEnvelope) (s : Session) (x : AppError)
      → payload_uuid e "order_id" ≡ err x
      → (handle_event bytes gateway lock e s).1.db ≡ s.db
  unfolding with_transaction handle ◌>>=◌ map_err
  unnamed lock e s x h = elim (Bool-cases (is_relevant e.metadata.event_type)) [
    | inl r ↦ rw (r, h, continue) refl
    | inr r ↦ rw r refl
  ]

  -- One event moves each order along its lifecycle.
  refined :
      (id : ℕ) (s : Session) (r : Outcome HandlerError (Unit {0})) (s' : Session)
      → IsOrdered s.db
      → Ends (λ _ s'. Refines id s.db s'.db) (λ _ s'. s'.db ≡ s.db) r s'
      → Refines id s.db s'.db
  refined id s (done a) s' ordered h = h
  refined id s (failed x) s' ordered h = rw h (unchanged-Refines id s.db ordered)
  refined id s panicked s' ordered h = elim h [ ]

  leads :
      (id o : ℕ) (before after : Db)
      → Refines id before after
      → Leads (state_of before o) (state_of after o)
  leads id o before after h = elim (Bool-cases (o == id)) [
    | inl e ↦
        subst (λ x. Leads (state_of before x) (state_of after x))
          ((==_iff id o).0 (ground (arith, e))) (goes_on stays h.effect)
    | inr e ↦ rw (h.others o (λ same. ground (arith, e, same))) stays
  ]

  pub step :
      (lock : Option LockAnswer) (e : EventEnvelope) (s : Session) (o : ℕ)
      → IsOrdered s.db
      → IsOrdered (handle_event bytes gateway lock e s).1.db
        × Leads (state_of s.db o) (state_of (handle_event bytes gateway lock e s).1.db o)
  step lock e s o ordered = named (payload_uuid e "order_id") refl
    where
      after : Db
      after = (handle_event bytes gateway lock e s).1.db

      named :
          (r : Result AppError ℕ)
          → payload_uuid e "order_id" ≡ r
          → IsOrdered after × Leads (state_of s.db o) (state_of after o)
      named (ok id) h =
          let change =
            refined id s _ _ ordered (handle_event-Refines bytes gateway id lock e s ordered h) in
          (change.ordered, leads id o s.db after change)
      named (err x) h = rw (unnamed lock e s x h) (ordered, stays)
