-- ===== src/Consumer/Rule.antt =====
-- An induction rule for the retry loop of the consumer.
use koupang.Prelude.{ℕ, zero, suc, Bool, true, false, Option, none, some, if◌then◌else◌}
use koupang.Action.{Action}
use koupang.Events.{EventEnvelope}
use koupang.Consumer.Errors.{HandlerError}
use koupang.Consumer.Metrics.{record_success, record_skipped, record_db_error, record_retry}
use koupang.Consumer.Loop.{
  Transactional, Weather, DbFault, ConsumerConfig, ConsumerState, count, ProcessResult, success,
  skipped, AttemptResult, committed, already_processed, permanent_failure, transient_failure,
  try_process_once, send_to_dlq_with_metrics, after_attempt, retry_from,
}

-- `I n` holds when `n` retries are left, `J` of the result and the state at the end.
module _ {S : Type 0} (t : Transactional S) (config : ConsumerConfig)
    (handle : EventEnvelope → Action S HandlerError (Unit {0})) (w : Weather) (e : EventEnvelope)
    (I : ℕ → ConsumerState S → Type 0) (J : Option ProcessResult → ConsumerState S → Type 0) where
  -- The dead-letter queue is told.
  abbrev Sent : ConsumerState S → Type 0
  Sent s =
      (n : ℕ)
      → J (some (send_to_dlq_with_metrics t config handle w e n s).0)
          (send_to_dlq_with_metrics t config handle w e n s).1

  -- What an attempt has to leave.
  abbrev pub Tried : ℕ → Option AttemptResult → ConsumerState S → Type 0
  Tried left none s = J none s
  Tried left (some committed) s = J (some success) (count record_success s)
  Tried left (some already_processed) s = J (some skipped) (count record_skipped s)
  Tried left (some AttemptResult.db_error) s =
      J (some ProcessResult.db_error) (count record_db_error s)
  Tried left (some permanent_failure) s = Sent s
  Tried zero (some transient_failure) s = Sent s
  Tried (suc left) (some transient_failure) s =
      Sent (count record_retry s) × I left (count record_retry s)

  shut :
      (b : Bool) (x y : Option ProcessResult × ConsumerState S)
      → J x.0 x.1
      → J y.0 y.1
      → J (if b then x else y).0 (if b then x else y).1
  shut true x y hx hy = hx
  shut false x y hx hy = hy

  module _
      (tries : (left : ℕ) (fault : DbFault) (s : ConsumerState S)
        → I left s
        → Tried left
            (try_process_once t config handle e fault s).0
            (try_process_once t config handle e fault s).1) where
    last :
        (attempt : ℕ) (r : Option AttemptResult) (s : ConsumerState S)
        → Tried zero r s
        → J
            (after_attempt t config handle w e attempt none r s).0
            (after_attempt t config handle w e attempt none r s).1
    unfolding after_attempt
    last attempt none s h = h
    last attempt (some committed) s h = h
    last attempt (some already_processed) s h = h
    last attempt (some AttemptResult.db_error) s h = h
    last attempt (some permanent_failure) s h = h 0
    last attempt (some transient_failure) s h = h config.max_retries

    another :
        (left attempt : ℕ) (next : ConsumerState S → Option ProcessResult × ConsumerState S)
        → ((s : ConsumerState S) → I left s → J (next s).0 (next s).1)
        → (r : Option AttemptResult) (s : ConsumerState S) → Tried (suc left) r s
        → J
            (after_attempt t config handle w e attempt (some next) r s).0
            (after_attempt t config handle w e attempt (some next) r s).1
    unfolding after_attempt
    another left attempt next rest none s h = h
    another left attempt next rest (some committed) s h = h
    another left attempt next rest (some already_processed) s h = h
    another left attempt next rest (some AttemptResult.db_error) s h = h
    another left attempt next rest (some permanent_failure) s h = h 0
    another left attempt next rest (some transient_failure) s h =
        shut (w.shutdown attempt)
          (
            some
                (send_to_dlq_with_metrics t config handle w e (suc attempt)
                  (count record_retry s)).0,
            (send_to_dlq_with_metrics t config handle w e (suc attempt) (count record_retry s)).1,
          )
          (next (count record_retry s)) (h.0 (suc attempt)) (rest (count record_retry s) h.1)

    pub retry_from-rule :
        (left attempt : ℕ) (s : ConsumerState S)
        → I left s
        → J
            (retry_from t config handle w e left attempt s).0
            (retry_from t config handle w e left attempt s).1
    unfolding retry_from
    retry_from-rule zero attempt s h =
        let (r, tried) = try_process_once t config handle e (w.fault attempt) s in
        last attempt r tried (tries zero (w.fault attempt) s h)
    retry_from-rule (suc left) attempt s h =
        let (r, tried) = try_process_once t config handle e (w.fault attempt) s in
        another left attempt (retry_from t config handle w e left (suc attempt))
          (retry_from-rule left (suc attempt)) r tried (tries (suc left) (w.fault attempt) s h)
