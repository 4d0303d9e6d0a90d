-- ===== src/Consumer/Lasting.antt =====
-- How long the mark of a processed event stays: it outlives deliveries, and clean-ups while it is young.
use koupang.Prelude.{
  ℕ, zero, suc, ◌+◌, ◌-◌, ◌≤◌, ltb, leb, ◌&&◌, false, ◌≡◌, refl, true, Option, none, some, List, [],
  ◌∷◌, inl, inr, Bool-cases, arith,
}
use koupang.Action.{Action}
use koupang.Events.{EventEnvelope}
use koupang.Consumer.Errors.{HandlerError}
use koupang.Consumer.Metrics.{record_retry}
use koupang.Consumer.Loop.{
  Transactional, Weather, Message, envelope_of, garbage, ConsumerConfig, ConsumerState, count,
  AttemptResult, committed, already_processed, permanent_failure, transient_failure,
  send_to_dlq_with_metrics, retry_from, process_with_retry, process_message, process_all,
  is_event_processed, ProcessedEvent, without_old, is_processed_row, Step, step, delivery,
  cleans_up, time_passes, cleanup,
}
use koupang.Consumer.Attempt.{marked_since, try_process_once-Framed}
use koupang.Consumer.Rule.{Tried, retry_from-rule}
use koupang.Consumer.Offset.{commit_offset-keeps, settled_offset-keeps}

pub marked-processed :
    (rows : List ProcessedEvent) (id group from : ℕ)
    → marked_since rows id group from ≡ true
    → is_event_processed rows id group ≡ true
marked-processed [] id group from h = absurd (ground (arith, h))
marked-processed (r ∷ rs) id group from h = elim (Bool-cases (is_processed_row id group r)) [
  | inl here ↦ rw here refl
  | inr there ↦ rw there (marked-processed rs id group from (rw there at h))
]

-- The seconds that pass in a history.
abbrev pub elapsed : List Step → ℕ
elapsed [] = 0
elapsed (delivery w m ∷ ds) = elapsed ds
elapsed (cleans_up reached ∷ ds) = elapsed ds
elapsed (time_passes secs ∷ ds) = secs + elapsed ds

-- The clean-up of old marks leaves one that is young enough.
without_old-marked :
    (limit n id group from : ℕ) (rows : List ProcessedEvent)
    → limit ≤ from
    → marked_since rows id group from ≡ true
    → marked_since (without_old limit n rows) id group from ≡ true
unfolding without_old
without_old-marked limit zero id group from rows young h = h
without_old-marked limit (suc n) id group from [] young h = h
without_old-marked limit (suc n) id group from (r ∷ rs) young h =
    elim (Bool-cases (ltb r.processed_at limit)) [
      | inl old ↦
          rw old (without_old-marked limit n id group from rs young (ground (arith, old, young, h)))
      | inr recent ↦
          rw recent (elim (Bool-cases (is_processed_row id group r && leb from r.processed_at)) [
            | inl here ↦ rw here refl
            | inr there ↦
                rw there (without_old-marked limit (suc n) id group from rs young (rw there at h))
          ])
    ]

-- A mark stays, and is young enough for some seconds more.
module _ {S : Type 0} (t : Transactional S) (config : ConsumerConfig)
    (handle : EventEnvelope → Action S HandlerError (Unit {0})) (id group from secs : ℕ) where
  abbrev pub HasMark : ConsumerState S → Type 0
  HasMark s =
      (marked_since s.processed id group from ≡ true)
      × (s.now + secs ≤ from + config.processed_events_max_age)

  send-HasMark :
      (w : Weather) (e : EventEnvelope) (n : ℕ) (s : ConsumerState S)
      → HasMark s
      → HasMark (send_to_dlq_with_metrics t config handle w e n s).1
  unfolding send_to_dlq_with_metrics
  send-HasMark w e n s h = elim (Bool-cases w.dlq_accepts) [ inl b ↦ rw b h | inr b ↦ rw b h ]

  Tried-HasMark :
      (w : Weather) (e : EventEnvelope) (left : ℕ) (r : Option AttemptResult) (s : ConsumerState S)
      → HasMark s
      → Tried t config handle w e (λ _ x. HasMark x) (λ _ x. HasMark x) left r s
  Tried-HasMark w e left none s h = h
  Tried-HasMark w e left (some committed) s h = h
  Tried-HasMark w e left (some already_processed) s h = h
  Tried-HasMark w e left (some AttemptResult.db_error) s h = h
  Tried-HasMark w e left (some permanent_failure) s h = λ n. send-HasMark w e n s h
  Tried-HasMark w e zero (some transient_failure) s h = λ n. send-HasMark w e n s h
  Tried-HasMark w e (suc left) (some transient_failure) s h =
      (λ n. send-HasMark w e n (count record_retry s) h, h)

  process_message-HasMark :
      (w : Weather) (m : Message) (s : ConsumerState S)
      → HasMark s
      → HasMark (process_message t config handle w m s)
  unfolding process_message process_with_retry
  process_message-HasMark w (garbage raw) s h = elim (Bool-cases w.dlq_accepts) [
    | inl b ↦ rw b (commit_offset-keeps w HasMark (λ x k. k) _ h)
    | inr b ↦ rw b h
  ]
  process_message-HasMark w (envelope_of e) s h =
      let (r, reached) = retry_from t config handle w e config.max_retries 0 s in
      settled_offset-keeps w HasMark (λ x k. k) r reached
        (retry_from-rule t config handle w e (λ _ x. HasMark x) (λ _ x. HasMark x)
          (λ left fault x k. Tried-HasMark w e left _ _ (
            (try_process_once-Framed t config handle e fault x).0.marks id group from k.0,
            rw ((try_process_once-Framed t config handle e fault x).0.clock) k.1,
          ))
          config.max_retries 0 s h)

module _ {S : Type 0} (t : Transactional S) (config : ConsumerConfig)
    (handle : EventEnvelope → Action S HandlerError (Unit {0})) (id group from : ℕ) where
  pub process_all-HasMark :
      (ds : List Step) (s : ConsumerState S)
      → HasMark t config handle id group from (elapsed ds) s
      → HasMark t config handle id group from 0 (process_all t config handle ds s)
  unfolding step
  process_all-HasMark [] s h = h
  process_all-HasMark (delivery w m ∷ ds) s h =
      process_all-HasMark ds (process_message t config handle w m s)
        (process_message-HasMark t config handle id group from (elapsed ds) w m s h)
  process_all-HasMark (cleans_up true ∷ ds) s h =
      process_all-HasMark ds (cleanup t config handle true s) (
        without_old-marked (s.now - config.processed_events_max_age) 1000 id group from s.processed
            (omega (arith, h.1)) h.0,
        h.1,
      )
  process_all-HasMark (cleans_up false ∷ ds) s h = process_all-HasMark ds s h
  process_all-HasMark (time_passes secs ∷ ds) s h =
      process_all-HasMark ds (record s { now = s.now + secs }) (h.0, omega (arith, h.1))
