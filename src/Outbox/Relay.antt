-- ===== src/Outbox/Relay.antt =====
-- The relay of shared/src/outbox/relay.rs. What Kafka and the database answer in one batch is an
-- `Answers`; a payload that does not deserialise counts as one that Kafka refuses. The deduplication
-- cache of Redis is the list of the event ids that it holds.
use koupang.Prelude.{ℕ, zero, suc, ◌+◌, Bool, ◌&&◌, List, [], ◌∷◌, leb, length, if◌then◌else◌}
use koupang.Errors.{AppError, internal_server_error, Result, ok, err}
use koupang.Action.{Action, Outcome, done, failed, panicked}
use koupang.Json.{Text}
use koupang.Outbox.{OutboxTable, OutboxEvent}
use koupang.Outbox.Repository.{
  has_number, claim_batch, mark_published, delete_published, mark_retry_or_failed,
}

pub record RelayConfig : Type 0 where
  pub instance_id : ℕ
  pub batch_size : ℕ
  pub delete_on_publish : Bool

-- By event id: whether Kafka takes the event, the text of its error, whether the database takes the
-- update, and whether Redis answers a look-up and keeps a mark.
pub record Answers : Type 0 where
  pub claims : Bool
  pub publishes : ℕ → Bool
  pub error_of : ℕ → Text
  pub updates : ℕ → Bool
  pub cache_reads : ℕ → Bool
  pub cache_writes : ℕ → Bool
  pub shutdown : Bool

-- The ids of the events that Kafka took, and of those that were escalated.
pub record RelayState : Type 0 where
  pub table : OutboxTable
  pub cache : List ℕ
  pub log : List ℕ
  pub escalated : List ℕ

abbrev pub set_table : RelayState → OutboxTable → RelayState
set_table s t = record s { table = t }

module _ (config : RelayConfig) (a : Answers) where
  -- The update of the row of a published event. A refusal of the database is only logged.
  abbrev published_write : ℕ → Action OutboxTable AppError (Unit {0})
  published_write id = if config.delete_on_publish then delete_published id else mark_published id

  abbrev pub settle_published : OutboxEvent → RelayState → RelayState
  settle_published e s =
      if a.updates e.event_id then set_table s (published_write e.id s.table).1 else s

  abbrev pub take_in : OutboxEvent → RelayState → RelayState
  take_in e s = record s {
    log = e.event_id ∷ s.log;
    cache = if a.cache_writes e.event_id then e.event_id ∷ s.cache else s.cache;
  }

  -- `escalate_failure`, once the row is updated and was tried for the last time.
  abbrev pub escalate_failure : OutboxEvent → Outcome AppError (Unit {0}) → RelayState → RelayState
  escalate_failure e (done u) s =
      if leb e.max_retries (e.retry_count + 1)
      then record s { escalated = e.event_id ∷ s.escalated }
      else s
  escalate_failure e _ s = s

  abbrev pub settle_refused : OutboxEvent → RelayState → RelayState
  settle_refused e s =
      let (r, t) = mark_retry_or_failed e.id (a.error_of e.event_id) s.table in
      if a.updates e.event_id then escalate_failure e r (set_table s t) else s

  -- One event of a batch.
  unfoldable pub process_event : OutboxEvent → RelayState → RelayState
  process_event e s =
      if a.cache_reads e.event_id && has_number e.event_id s.cache
      then settle_published e s
      else if a.publishes e.event_id
      then settle_published e (take_in e s)
      else settle_refused e s

  unfoldable pub process_events : List OutboxEvent → RelayState → RelayState
  process_events [] s = s
  process_events (e ∷ es) s = process_events es (process_event e s)

  unfoldable pub process_claimed :
      Outcome AppError (List OutboxEvent) → RelayState → Result AppError ℕ × RelayState
  unfolding process_events
  process_claimed (done events) s = (ok (length events), process_events events s)
  process_claimed (failed e) s = (err e, s)
  process_claimed panicked s = (err internal_server_error, s)

  -- `process_batch`.
  unfoldable pub process_batch : RelayState → Result AppError ℕ × RelayState
  unfolding process_claimed
  process_batch s =
      let (r, t) = claim_batch config.batch_size config.instance_id s.table in
      if a.claims then process_claimed r (set_table s t) else (err internal_server_error, s)

module _ (config : RelayConfig) where
  abbrev max_iterations : ℕ
  max_iterations = 100

  -- What the loop does with the result of a batch. `rest` are the iterations that are left.
  abbrev pub after_batch : Result AppError ℕ → (RelayState → RelayState) → RelayState → RelayState
  after_batch (ok zero) rest s = s
  after_batch (ok (suc n)) rest s = rest s
  after_batch (err e) rest s = s

  -- The loop of `process_pending`, with the answers of its iterations.
  unfoldable pub drain : ℕ → (ℕ → Answers) → RelayState → RelayState
  unfolding process_batch
  drain zero answers s = s
  drain (suc left) answers s =
      let (r, t) = process_batch config (answers left) s in
      if (answers left).shutdown then s else after_batch r (drain left answers) t

  unfoldable pub process_pending : (ℕ → Answers) → RelayState → RelayState
  unfolding drain
  process_pending answers s = drain max_iterations answers s
