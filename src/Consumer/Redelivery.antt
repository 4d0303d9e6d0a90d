-- ===== src/Consumer/Redelivery.antt =====
-- An event is handled once: what was committed is not handled again while its mark is young.
use koupang.Prelude.{
  ℕ, zero, suc, ◌≤◌, ◌∙◌, ◌≡◌, refl, sym, subst, ◌⊎◌, true, Option, none, some, List, ◌∷◌, inl, inr,
  Bool-cases, arith,
}
use koupang.Action.{Action}
use koupang.Events.{EventEnvelope}
use koupang.Consumer.Errors.{HandlerError}
use koupang.Consumer.Metrics.{record_retry}
use koupang.Consumer.Loop.{
  Transactional, Weather, envelope_of, ConsumerConfig, ConsumerState, count, ProcessResult, success,
  AttemptResult, committed, already_processed, permanent_failure, transient_failure,
  send_to_dlq_with_metrics, retry_from, process_with_retry, settled_offset, process_message,
  process_all, is_event_processed, Step, step, delivery,
}
use koupang.Consumer.Attempt.{Marks, marked_since, try_process_once-Framed, try_process_once-marked}
use koupang.Consumer.Offset.{settled_offset-keeps}
use koupang.Consumer.Lasting.{marked-processed, elapsed, HasMark, process_all-HasMark}
use koupang.Consumer.Rule.{Tried, retry_from-rule}

module _ {S : Type 0} (t : Transactional S) (config : ConsumerConfig)
    (handle : EventEnvelope → Action S HandlerError (Unit {0})) (w : Weather)
    (e : EventEnvelope) where
  abbrev IsMarked : ConsumerState S → Type 0
  IsMarked s = is_event_processed s.processed e.metadata.event_id config.group_id ≡ true

  -- The service's state, the marks and the dead-letter queue are those of another state.
  abbrev pub Same : ConsumerState S → ConsumerState S → Type 0
  Same x y = (x.service ≡ y.service) × ((x.processed ≡ y.processed) × (x.dlq ≡ y.dlq))

  abbrev Concludes : ℕ → Option ProcessResult → ConsumerState S → Type 0
  Concludes from (some success) s =
      (marked_since s.processed e.metadata.event_id config.group_id from ≡ true) × (s.now ≡ from)
  Concludes from _ s = Unit

  send-Concludes :
      (from n : ℕ) (s : ConsumerState S)
      → Concludes from
          (some (send_to_dlq_with_metrics t config handle w e n s).0)
          (send_to_dlq_with_metrics t config handle w e n s).1
  unfolding send_to_dlq_with_metrics
  send-Concludes from n s = elim (Bool-cases w.dlq_accepts) [ inl b ↦ rw b tt | inr b ↦ rw b tt ]

  Tried-Concludes :
      (from left : ℕ) (r : Option AttemptResult) (s : ConsumerState S)
      → s.now ≡ from
      → Marks t config handle e r s
      → Tried t config handle w e (λ _ x. x.now ≡ from) (Concludes from) left r s
  Tried-Concludes from left none s at h = tt
  Tried-Concludes from left (some committed) s at h =
      (subst (λ n. marked_since s.processed e.metadata.event_id config.group_id n ≡ true) at h, at)
  Tried-Concludes from left (some already_processed) s at h = tt
  Tried-Concludes from left (some AttemptResult.db_error) s at h = tt
  Tried-Concludes from left (some permanent_failure) s at h = λ n. send-Concludes from n s
  Tried-Concludes from zero (some transient_failure) s at h = λ n. send-Concludes from n s
  Tried-Concludes from (suc left) (some transient_failure) s at h =
      (λ n. send-Concludes from n (count record_retry s), at)

  success-IsMarked :
      (s : ConsumerState S)
      → (process_with_retry t config handle w e s).0 ≡ some success
      → Concludes s.now (some success) (process_with_retry t config handle w e s).1
  unfolding process_with_retry
  success-IsMarked s h =
      subst
        (λ (r : Option ProcessResult).
          Concludes s.now r (retry_from t config handle w e config.max_retries 0 s).1)
        h
        (retry_from-rule t config handle w e (λ _ x. x.now ≡ s.now) (Concludes s.now)
          (λ left fault x k.
            let (frame, marks) = try_process_once-Framed t config handle e fault x in
            Tried-Concludes s.now left _ _ (frame.clock ∙ k) marks)
          config.max_retries 0 s refl)

  module _ (s0 : ConsumerState S) where
    abbrev Idle : ConsumerState S → Type 0
    Idle s = IsMarked s × Same s s0

    Tried-Idle :
        (left : ℕ) (r : Option AttemptResult) (s : ConsumerState S)
        → (r ≡ some already_processed) ⊎ (r ≡ some AttemptResult.db_error)
        → Idle s
        → Tried t config handle w e (λ _ x. Idle x) (λ _ x. Idle x) left r s
    Tried-Idle left none s h k = absurd (not_none h)
      where
        not_none : (none ≡ some already_processed) ⊎ (none ≡ some AttemptResult.db_error) → ⊥
        not_none h = ground (arith, h)
    Tried-Idle left (some committed) s h k = k
    Tried-Idle left (some already_processed) s h k = k
    Tried-Idle left (some AttemptResult.db_error) s h k = k
    Tried-Idle left (some permanent_failure) s h k = absurd (ground (arith, h))
    Tried-Idle left (some transient_failure) s h k = absurd (ground (arith, h))

    redelivered-Idle : Idle s0 → Idle (process_message t config handle w (envelope_of e) s0)
    unfolding process_message process_with_retry
    redelivered-Idle h =
        let (r, reached) = retry_from t config handle w e config.max_retries 0 s0 in
        settled-Idle r reached (
          retry_from-rule t config handle w e (λ _ x. Idle x) (λ _ x. Idle x)
            (λ left fault x k.
              let it = try_process_once-marked t config handle e fault x k.0 in
              Tried-Idle left _ _ it.0 (subst Idle (sym it.1) k))
            config.max_retries 0 s0 h)
      where
        settled-Idle :
            (r : Option ProcessResult) (s : ConsumerState S) → Idle s → Idle (settled_offset w r s)
        settled-Idle r s h = settled_offset-keeps w Idle (λ x k. k) r s h

module _ {S : Type 0} (t : Transactional S) (config : ConsumerConfig)
    (handle : EventEnvelope → Action S HandlerError (Unit {0})) (first again : Weather)
    (e : EventEnvelope) where
  -- A message that was processed with success and is delivered again, no longer after it than marks
  -- are kept, leaves the state of the service, the marks and the dead-letter queue as they are,
  -- whatever other deliveries and clean-ups come between the two, and whatever happens then.
  pub redelivered-Same :
      (ds : List Step) (s : ConsumerState S)
      → (process_with_retry t config handle first e s).0 ≡ some success
      → elapsed ds ≤ config.processed_events_max_age
      → Same t config handle again e
          (process_message t config handle again
            (envelope_of e)
            (process_all t config handle (delivery first (envelope_of e) ∷ ds) s))
          (process_all t config handle (delivery first (envelope_of e) ∷ ds) s)
  unfolding step process_message
  redelivered-Same ds s h soon =
      let (mark, at) = success-IsMarked t config handle first e s h in
      (redelivered-Idle t config handle again e
        (process_all t config handle (delivery first (envelope_of e) ∷ ds) s)
        (
          marked-processed _ e.metadata.event_id config.group_id s.now
              (process_all-HasMark t config handle e.metadata.event_id config.group_id s.now ds
                (process_message t config handle first (envelope_of e) s)
                (rw h (
                  settled_offset-keeps first
                    (HasMark t config handle e.metadata.event_id config.group_id s.now (elapsed ds))
                    (λ x k. k) (some success) _ (mark, rw at (omega (arith, soon)))))).0,
          (refl, (refl, refl)),
        )).1
