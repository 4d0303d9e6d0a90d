-- ===== src/Consumer/Loop.antt =====
-- The processing of a message: shared/src/events/consumer.rs. The service's own state is a
-- parameter, with what a transaction does to it. What the database, Kafka and the shutdown token do
-- during one delivery is a `Weather`. A commit that fails leaves the tables as they were. The marks
-- of processed events, shared/src/outbox/processed.rs, carry the time of the database's clock, in
-- seconds, which moves between the deliveries; at most one attempt of a delivery commits a mark, and
-- its time is that of the delivery.
use koupang.Prelude.{
  ℕ, zero, suc, ◌+◌, ◌-◌, ltb, Bool, true, false, ◌&&◌, Option, none, some, List, [], ◌∷◌, ◌==◌,
  if◌then◌else◌, find, is_some,
}
use koupang.Action.{Outcome, done, failed, panicked, Action}
use koupang.Events.{EventEnvelope}
use koupang.Consumer.Errors.{HandlerError, transient, permanent}
use koupang.Consumer.Metrics.{
  ConsumerMetrics, record_success, record_skipped, record_dlq, record_dlq_failed, record_db_error,
  record_deser_failed, record_retry,
}

-- What a transaction does to the state of a service. `rollback` has the state before the
-- transaction and the one that was reached.
pub record Transactional (S : Type 0) : Type 0 where
  pub begin : S → S
  pub commit : S → S
  pub rollback : S → S → S

-- A row of `processed_events`.
pub record ProcessedEvent : Type 0 where
  pub event_id : ℕ
  pub consumer_group : ℕ
  pub processed_at : ℕ

abbrev pub is_processed_row : ℕ → ℕ → ProcessedEvent → Bool
is_processed_row event_id consumer_group row =
    row.event_id == event_id && row.consumer_group == consumer_group

abbrev pub is_event_processed : List ProcessedEvent → ℕ → ℕ → Bool
is_event_processed rows event_id consumer_group =
    is_some (find (is_processed_row event_id consumer_group) rows)

-- `ON CONFLICT DO NOTHING`.
abbrev pub mark_event_processed : List ProcessedEvent → ℕ → ℕ → ℕ → List ProcessedEvent
mark_event_processed rows event_id consumer_group now =
    if is_event_processed rows event_id consumer_group
    then rows
    else record { event_id = event_id; consumer_group = consumer_group; processed_at = now } ∷ rows

-- The `DELETE` of `cleanup_processed_events`: at most so many rows older than the limit. Its
-- `LIMIT` leaves the choice open; the rows that stand first are taken.
unfoldable pub without_old : ℕ → ℕ → List ProcessedEvent → List ProcessedEvent
without_old limit zero rows = rows
without_old limit (suc n) [] = []
without_old limit (suc n) (r ∷ rs) =
    let old = ltb r.processed_at limit in
    let rest = without_old limit (if old then n else suc n) rs in if old then rest else r ∷ rest

abbrev pub cleanup_processed_events : ℕ → ℕ → List ProcessedEvent → List ProcessedEvent
cleanup_processed_events max_age_secs now rows = without_old (now - max_age_secs) 1000 rows

pub data ProcessResult : Type 0 where
  success skipped sent_to_dlq dlq_failed db_error : ProcessResult

pub data AttemptResult : Type 0 where
  committed already_processed db_error permanent_failure transient_failure : AttemptResult

-- The statement of an attempt that the database fails, if any.
pub data DbFault : Type 0 where
  no_fault at_begin at_check at_mark at_commit : DbFault

pub record Weather : Type 0 where
  pub fault : ℕ → DbFault
  pub shutdown : ℕ → Bool
  pub dlq_accepts : Bool
  pub offset_commits : Bool

-- A message of the dead-letter queue: an envelope with its retry count, or raw bytes.
pub data DlqRecord : Type 0 where
  dead_envelope : EventEnvelope → ℕ → DlqRecord
  dead_bytes : ℕ → DlqRecord

pub record ConsumerConfig : Type 0 where
  pub group_id : ℕ
  pub max_retries : ℕ
  pub processed_events_max_age : ℕ

pub record ConsumerState (S : Type 0) : Type 0 where
  pub service : S
  pub processed : List ProcessedEvent
  pub dlq : List DlqRecord
  pub metrics : ConsumerMetrics
  pub offsets_committed : ℕ
  pub now : ℕ

-- A message as it is received: one that deserialises, or raw bytes that do not.
pub data Message : Type 0 where
  envelope_of : EventEnvelope → Message
  garbage : ℕ → Message

-- What happens to a consumer: a message is delivered, its clean-up loop comes round, or time passes.
pub data Step : Type 0 where
  delivery : Weather → Message → Step
  cleans_up : Bool → Step
  time_passes : ℕ → Step

-- The mark or the commit fails.
abbrev pub is_fatal : DbFault → Bool
is_fatal DbFault.at_mark = true
is_fatal DbFault.at_commit = true
is_fatal _ = false

abbrev skip_fault : DbFault → AttemptResult
skip_fault DbFault.at_commit = AttemptResult.db_error
skip_fault _ = already_processed

module _ {S : Type 0} where
  abbrev set_service : ConsumerState S → S → ConsumerState S
  set_service s x = record s { service = x }

  abbrev pub count : (ConsumerMetrics → ConsumerMetrics) → ConsumerState S → ConsumerState S
  count f s = record s { metrics = f s.metrics }

  -- `commit_offset`: the error of a commit that fails is only logged.
  abbrev pub commit_offset : Weather → ConsumerState S → ConsumerState S
  commit_offset w s =
      if w.offset_commits then record s { offsets_committed = suc s.offsets_committed } else s

  -- Whether the offset is committed.
  abbrev pub settled_offset : Weather → Option ProcessResult → ConsumerState S → ConsumerState S
  settled_offset w (some success) s = commit_offset w s
  settled_offset w (some skipped) s = commit_offset w s
  settled_offset w (some sent_to_dlq) s = commit_offset w s
  settled_offset w _ s = s

  module _ (t : Transactional S) (config : ConsumerConfig)
      (handle : EventEnvelope → Action S HandlerError (Unit {0})) where
    abbrev roll_back : ConsumerState S → S → ConsumerState S
    roll_back s reached = set_service s (t.rollback s.service reached)

    -- What follows the handler in an attempt: the mark and the commit, or the rollback. A panic
    -- stops the loop.
    unfoldable pub settle :
        EventEnvelope
        → DbFault
        → ConsumerState S
        → Outcome HandlerError (Unit {0})
        → S
        → Option AttemptResult × ConsumerState S
    settle e fault s (done _) reached =
        if is_fatal fault then (some AttemptResult.db_error, roll_back s reached) else (
          some committed,
          record s {
            service = t.commit reached;
            processed = mark_event_processed s.processed e.metadata.event_id config.group_id s.now;
          },
        )
    settle e fault s (failed permanent) reached = (some permanent_failure, roll_back s reached)
    settle e fault s (failed transient) reached = (some transient_failure, roll_back s reached)
    settle e fault s panicked reached = (none, roll_back s reached)

    -- The transaction has begun and the check has not failed.
    unfoldable pub run_handler :
        EventEnvelope → DbFault → ConsumerState S → Option AttemptResult × ConsumerState S
    unfolding settle
    run_handler e fault s =
        let (r, reached) = handle e (t.begin s.service) in settle e fault s r reached

    unfoldable pub try_checked :
        EventEnvelope → DbFault → Bool → ConsumerState S → Option AttemptResult × ConsumerState S
    try_checked e fault true s = (some (skip_fault fault), s)
    try_checked e fault false s = run_handler e fault s

    -- `try_process_once`.
    unfoldable pub try_process_once :
        EventEnvelope → DbFault → ConsumerState S → Option AttemptResult × ConsumerState S
    try_process_once e DbFault.at_begin s = (some AttemptResult.db_error, s)
    try_process_once e DbFault.at_check s = (some AttemptResult.db_error, s)
    try_process_once e fault s =
        try_checked e fault (is_event_processed s.processed e.metadata.event_id config.group_id) s

    -- `publish_envelope_to_dlq` and `send_to_dlq_with_metrics`.
    unfoldable pub send_to_dlq_with_metrics :
        Weather → EventEnvelope → ℕ → ConsumerState S → ProcessResult × ConsumerState S
    send_to_dlq_with_metrics w e retry_count s =
        if w.dlq_accepts
        then (
          sent_to_dlq,
          count record_dlq (record s { dlq = dead_envelope e retry_count ∷ s.dlq }),
        )
        else (dlq_failed, count record_dlq_failed s)

    -- What follows an attempt. `next` is the next attempt, if one is left.
    unfoldable pub after_attempt :
        Weather
        → EventEnvelope
        → ℕ
        → Option (ConsumerState S → Option ProcessResult × ConsumerState S)
        → Option AttemptResult
        → ConsumerState S
        → Option ProcessResult × ConsumerState S
    after_attempt w e attempt next none s = (none, s)
    after_attempt w e attempt next (some committed) s = (some success, count record_success s)
    after_attempt w e attempt next (some already_processed) s =
        (some skipped, count record_skipped s)
    after_attempt w e attempt next (some AttemptResult.db_error) s =
        (some ProcessResult.db_error, count record_db_error s)
    after_attempt w e attempt next (some permanent_failure) s =
        let (r, sent) = send_to_dlq_with_metrics w e 0 s in (some r, sent)
    after_attempt w e attempt none (some transient_failure) s =
        let (r, sent) = send_to_dlq_with_metrics w e config.max_retries s in (some r, sent)
    after_attempt w e attempt (some next) (some transient_failure) s =
        let (r, sent) = send_to_dlq_with_metrics w e (suc attempt) (count record_retry s) in
        if w.shutdown attempt then (some r, sent) else next (count record_retry s)

    -- The loop of `process_with_retry`, with the number of retries left and the number of the
    -- attempt.
    unfoldable pub retry_from :
        Weather → EventEnvelope → ℕ → ℕ → ConsumerState S → Option ProcessResult × ConsumerState S
    unfolding after_attempt try_process_once
    retry_from w e zero attempt s =
        let (r, tried) = try_process_once e (w.fault attempt) s in
        after_attempt w e attempt none r tried
    retry_from w e (suc left) attempt s =
        let (r, tried) = try_process_once e (w.fault attempt) s in
        after_attempt w e attempt (some (retry_from w e left (suc attempt))) r tried

    unfoldable pub process_with_retry :
        Weather → EventEnvelope → ConsumerState S → Option ProcessResult × ConsumerState S
    unfolding retry_from
    process_with_retry w e s = retry_from w e config.max_retries 0 s

    unfoldable pub process_message : Weather → Message → ConsumerState S → ConsumerState S
    unfolding process_with_retry
    process_message w (garbage raw) s =
        if w.dlq_accepts
        then commit_offset w (count record_deser_failed (record s { dlq = dead_bytes raw ∷ s.dlq }))
        else count record_dlq_failed s
    process_message w (envelope_of e) s =
        let (r, processed) = process_with_retry w e s in settled_offset w r processed

    -- A round of the clean-up loop, if the database answers; the loop runs beside the deliveries.
    abbrev pub cleanup : Bool → ConsumerState S → ConsumerState S
    cleanup reached s =
        if reached
        then record s {
          processed = cleanup_processed_events config.processed_events_max_age s.now s.processed;
        }
        else s

    unfoldable pub step : Step → ConsumerState S → ConsumerState S
    step (delivery w m) s = process_message w m s
    step (cleans_up reached) s = cleanup reached s
    step (time_passes secs) s = record s { now = s.now + secs }

    -- A history of the consumer.
    abbrev pub process_all : List Step → ConsumerState S → ConsumerState S
    process_all [] s = s
    process_all (d ∷ ds) s = process_all ds (step d s)
