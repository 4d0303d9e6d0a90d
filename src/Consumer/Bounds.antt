-- ===== src/Consumer/Bounds.antt =====
-- The retries of the consumer are bounded, and each message is counted once.
use koupang.Prelude.{
  ℕ, zero, suc, ◌+◌, ◌≤◌, ◌≡◌, refl, Option, none, some, inl, inr, Bool-cases, arith,
}
use koupang.Action.{Action}
use koupang.Events.{EventEnvelope}
use koupang.Consumer.Errors.{HandlerError}
use koupang.Consumer.Metrics.{record_retry, total_events}
use koupang.Consumer.Loop.{
  Transactional, Weather, ConsumerConfig, ConsumerState, count, ProcessResult, AttemptResult,
  committed, already_processed, permanent_failure, transient_failure, send_to_dlq_with_metrics,
  process_with_retry,
}
use koupang.Consumer.Attempt.{try_process_once-Framed}
use koupang.Consumer.Rule.{Tried, retry_from-rule}

module _ {S : Type 0} (t : Transactional S) (config : ConsumerConfig)
    (handle : EventEnvelope → Action S HandlerError (Unit {0})) (w : Weather)
    (e : EventEnvelope) where
  -- `total` messages were counted before, and at most `most` retries are counted after.
  abbrev pub Counted : ℕ → ℕ → Option ProcessResult → ConsumerState S → Type 0
  Counted total most none s = (total_events s.metrics ≡ total) × (s.metrics.events_retried ≤ most)
  Counted total most (some _) s =
      (total_events s.metrics ≡ suc total) × (s.metrics.events_retried ≤ most)

  abbrev Before : ℕ → ℕ → ℕ → ConsumerState S → Type 0
  Before total most left s =
      (total_events s.metrics ≡ total) × (s.metrics.events_retried + left ≤ most)

  module _ (total most : ℕ) where
    send-Counted :
        (n : ℕ) (s : ConsumerState S)
        → total_events s.metrics ≡ total
        → s.metrics.events_retried ≤ most
        → Counted total most
            (some (send_to_dlq_with_metrics t config handle w e n s).0)
            (send_to_dlq_with_metrics t config handle w e n s).1
    unfolding send_to_dlq_with_metrics
    send-Counted n s h k = elim (Bool-cases w.dlq_accepts) [
      | inl b ↦ rw b (omega (arith, h), k)
      | inr b ↦ rw b (omega (arith, h), k)
    ]

    Tried-Counted :
        (left : ℕ) (r : Option AttemptResult) (s : ConsumerState S)
        → Before total most left s
        → Tried t config handle w e (Before total most) (Counted total most) left r s
    Tried-Counted left none s h = (h.0, omega (arith, h.1))
    Tried-Counted left (some committed) s h = (omega (arith, h.0), omega (arith, h.1))
    Tried-Counted left (some already_processed) s h = (omega (arith, h.0), omega (arith, h.1))
    Tried-Counted left (some AttemptResult.db_error) s h = (omega (arith, h.0), omega (arith, h.1))
    Tried-Counted left (some permanent_failure) s h = λ n. send-Counted n s h.0 (omega (arith, h.1))
    Tried-Counted zero (some transient_failure) s h = λ n. send-Counted n s h.0 (omega (arith, h.1))
    Tried-Counted (suc left) (some transient_failure) s h = (
      λ n. send-Counted n (count record_retry s) h.0 (omega (arith, h.1)),
      (h.0, omega (arith, h.1)),
    )

  -- Processing a message ends in one result, counted once, or in a panic, not counted, after at most
  -- `max_retries` retries.
  pub process_with_retry-Counted :
      (s : ConsumerState S)
      → Counted
          (total_events s.metrics)
          (s.metrics.events_retried + config.max_retries)
          (process_with_retry t config handle w e s).0
          (process_with_retry t config handle w e s).1
  unfolding process_with_retry
  process_with_retry-Counted s =
      let total = total_events s.metrics in
      let most = s.metrics.events_retried + config.max_retries in
      retry_from-rule t config handle w e (Before total most) (Counted total most)
        (λ left fault x k.
          let l = (try_process_once-Framed t config handle e fault x).0 in
          Tried-Counted total most left _ _ (rw l.metrics k))
        config.max_retries 0 s (refl, omega arith)
