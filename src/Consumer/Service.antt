-- ===== src/Consumer/Service.antt =====
-- What the consumer does to the state of the service.
use koupang.Prelude.{
  ℕ, zero, suc, ◌+◌, ◌≡◌, refl, Bool, true, false, Option, none, some, List, [], ◌∷◌, inl, inr,
  Bool-cases,
}
use koupang.Action.{Outcome, done, failed, panicked, Action}
use koupang.Events.{EventEnvelope}
use koupang.Consumer.Errors.{HandlerError, transient, permanent}
use koupang.Consumer.Loop.{
  Transactional, Weather, DbFault, Message, envelope_of, garbage, ConsumerConfig, ConsumerState,
  AttemptResult, committed, already_processed, permanent_failure, transient_failure, settle,
  run_handler, try_checked, try_process_once, send_to_dlq_with_metrics, retry_from,
  process_with_retry, process_message, process_all, count, Step, step, delivery, cleans_up,
  time_passes, cleanup,
}
use koupang.Consumer.Metrics.{record_retry}
use koupang.Consumer.Offset.{commit_offset-keeps, settled_offset-keeps}
use koupang.Consumer.Rule.{Tried, retry_from-rule}

module _ {S : Type 0} (t : Transactional S) where
  -- `P` holds wherever the transaction can end after the handler's outcome.
  abbrev pub Ended : (S → Type 0) → S → Outcome HandlerError (Unit {0}) → S → Type 0
  Ended P before (done _) reached = P (t.commit reached) × P (t.rollback before reached)
  Ended P before (failed _) reached = P (t.rollback before reached)
  Ended P before panicked reached = P (t.rollback before reached)

  module _ (config : ConsumerConfig) (handle : EventEnvelope → Action S HandlerError (Unit {0}))
      (P : S → Type 0)
      (kept : (e : EventEnvelope) (s : S)
        → P s
        → Ended P s (handle e (t.begin s)).0 (handle e (t.begin s)).1) where
    settle-service :
        (e : EventEnvelope) (fault : DbFault) (s : ConsumerState S)
        (r : Outcome HandlerError (Unit {0})) (reached : S)
        → Ended P s.service r reached
        → P (settle t config handle e fault s r reached).1.service
    unfolding settle
    settle-service e DbFault.no_fault s (done u) reached h = h.0
    settle-service e DbFault.at_begin s (done u) reached h = h.0
    settle-service e DbFault.at_check s (done u) reached h = h.0
    settle-service e DbFault.at_mark s (done u) reached h = h.1
    settle-service e DbFault.at_commit s (done u) reached h = h.1
    settle-service e fault s (failed permanent) reached h = h
    settle-service e fault s (failed transient) reached h = h
    settle-service e fault s panicked reached h = h

    try_checked-service :
        (e : EventEnvelope) (fault : DbFault) (b : Bool) (s : ConsumerState S)
        → P s.service
        → P (try_checked t config handle e fault b s).1.service
    unfolding try_checked run_handler
    try_checked-service e fault true s h = h
    try_checked-service e fault false s h =
        let (r, reached) = handle e (t.begin s.service) in
        settle-service e fault s r reached (kept e s.service h)

    try_process_once-service :
        (e : EventEnvelope) (fault : DbFault) (s : ConsumerState S)
        → P s.service
        → P (try_process_once t config handle e fault s).1.service
    unfolding try_process_once
    try_process_once-service e DbFault.at_begin s h = h
    try_process_once-service e DbFault.at_check s h = h
    try_process_once-service e DbFault.no_fault s h = try_checked-service e _ _ s h
    try_process_once-service e DbFault.at_mark s h = try_checked-service e _ _ s h
    try_process_once-service e DbFault.at_commit s h = try_checked-service e _ _ s h

    send-service :
        (w : Weather) (e : EventEnvelope) (n : ℕ) (s : ConsumerState S)
        → (send_to_dlq_with_metrics t config handle w e n s).1.service ≡ s.service
    unfolding send_to_dlq_with_metrics
    send-service w e n s = elim (Bool-cases w.dlq_accepts) [ inl b ↦ rw b refl | inr b ↦ rw b refl ]

    Tried-service :
        (w : Weather) (e : EventEnvelope) (left : ℕ) (r : Option AttemptResult)
        (s : ConsumerState S)
        → P s.service
        → Tried t config handle w e (λ _ x. P x.service) (λ _ x. P x.service) left r s
    Tried-service w e left none s h = h
    Tried-service w e left (some committed) s h = h
    Tried-service w e left (some already_processed) s h = h
    Tried-service w e left (some AttemptResult.db_error) s h = h
    Tried-service w e left (some permanent_failure) s h = λ n. rw (send-service w e n s) h
    Tried-service w e zero (some transient_failure) s h = λ n. rw (send-service w e n s) h
    Tried-service w e (suc left) (some transient_failure) s h =
        (λ n. rw (send-service w e n (count record_retry s)) h, h)

    process_message-service :
        (w : Weather) (m : Message) (s : ConsumerState S)
        → P s.service
        → P (process_message t config handle w m s).service
    unfolding process_message process_with_retry
    process_message-service w (garbage raw) s h = elim (Bool-cases w.dlq_accepts) [
      | inl b ↦ rw b (commit_offset-keeps w (λ x. P x.service) (λ x k. k) _ h)
      | inr b ↦ rw b h
    ]
    process_message-service w (envelope_of e) s h =
        let (r, reached) = retry_from t config handle w e config.max_retries 0 s in
        settled_offset-keeps w (λ x. P x.service) (λ x k. k) r reached
          (retry_from-rule t config handle w e (λ _ x. P x.service) (λ _ x. P x.service)
            (λ left fault x k. Tried-service w e left _ _ (try_process_once-service e fault x k))
            config.max_retries 0 s h)

    -- What holds of the service's state outside of transactions holds after any history: messages
    -- in any order, repeated ones, failures of the database and of the dead-letter queue, shutdowns
    -- and panics. The handler must keep it, both when its transaction commits and when it rolls back.
    pub process_all-service :
        (ds : List Step) (s : ConsumerState S)
        → P s.service
        → P (process_all t config handle ds s).service
    unfolding step
    process_all-service [] s h = h
    process_all-service (delivery w m ∷ ds) s h =
        process_all-service ds (process_message t config handle w m s)
          (process_message-service w m s h)
    process_all-service (cleans_up true ∷ ds) s h =
        process_all-service ds (cleanup t config handle true s) h
    process_all-service (cleans_up false ∷ ds) s h = process_all-service ds s h
    process_all-service (time_passes secs ∷ ds) s h =
        process_all-service ds (record s { now = s.now + secs }) h
