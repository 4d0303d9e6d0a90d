-- ===== src/Consumer/Attempt.antt =====
-- What one attempt of the consumer leaves alone, and what it marks.
use koupang.Prelude.{
  ℕ, leb, ◌&&◌, find, is_some, ◌≡◌, refl, Bool, true, false, Option, some, List, ◌∷◌, arith, ◌⊎◌,
  inl, inr, Bool-cases,
}
use koupang.Action.{Outcome, done, failed, panicked, Action}
use koupang.Events.{EventEnvelope}
use koupang.Consumer.Errors.{HandlerError, transient, permanent}
use koupang.Consumer.Loop.{
  Transactional, DbFault, ConsumerConfig, ConsumerState, AttemptResult, committed,
  already_processed, ProcessedEvent, settle, run_handler, try_checked, try_process_once,
  is_event_processed, mark_event_processed, is_fatal, is_processed_row,
}

-- There is a mark from a time on.
abbrev pub marked_since : List ProcessedEvent → ℕ → ℕ → ℕ → Bool
marked_since rows id group from =
    is_some (find (λ row. is_processed_row id group row && leb from row.processed_at) rows)

-- An attempt leaves the queue, the counters and the offset; it marks what it commits.
pub record Leaves {S : Type 0} (before after : ConsumerState S) : Type 0 where
  pub dlq : after.dlq ≡ before.dlq
  pub metrics : after.metrics ≡ before.metrics
  pub clock : after.now ≡ before.now
  pub offsets : after.offsets_committed ≡ before.offsets_committed
  pub marks :
      (id group from : ℕ)
      → marked_since before.processed id group from ≡ true
      → marked_since after.processed id group from ≡ true

-- Whatever becomes of the service.
Leaves-served : {S : Type 0} (s : ConsumerState S) (x : S) → Leaves s (record s { service = x })
Leaves-served s x = record {
  dlq = refl;
  metrics = refl;
  clock = refl;
  offsets = refl;
  marks = λ _ _ _ m. m;
}

-- A new mark has the time of its transaction.
marked :
    (rows : List ProcessedEvent) (id group now : ℕ)
    → is_event_processed rows id group ≡ false
    → marked_since (mark_event_processed rows id group now) id group now ≡ true
marked rows id group now h = rw h (newest id group now rows)
  where
    newest :
        (i g n : ℕ) (l : List ProcessedEvent)
        → marked_since (record { event_id = i; consumer_group = g; processed_at = n } ∷ l) i g n
          ≡ true
    newest i g n l = ground arith

marked-kept :
    (rows : List ProcessedEvent) (id group now i g from : ℕ)
    → marked_since rows i g from ≡ true
    → marked_since (mark_event_processed rows id group now) i g from ≡ true
marked-kept rows id group now i g from h = ground (arith, h)

Leaves-marked :
    {S : Type 0} (s : ConsumerState S) (x : S) (id group : ℕ)
    → Leaves s
        (record s { service = x; processed = mark_event_processed s.processed id group s.now })
Leaves-marked s x id group = record {
  dlq = refl;
  metrics = refl;
  clock = refl;
  offsets = refl;
  marks = λ i g from m. marked-kept s.processed id group s.now i g from m;
}

module _ {S : Type 0} (t : Transactional S) (config : ConsumerConfig)
    (handle : EventEnvelope → Action S HandlerError (Unit {0})) (e : EventEnvelope) where
  abbrev pub Marks : Option AttemptResult → ConsumerState S → Type 0
  Marks (some committed) s =
      marked_since s.processed e.metadata.event_id config.group_id s.now ≡ true
  Marks _ s = Unit

  abbrev Framed : ConsumerState S → Option AttemptResult → ConsumerState S → Type 0
  Framed before r after = Leaves before after × Marks r after

  settle-Framed :
      (fault : DbFault) (s : ConsumerState S) (r : Outcome HandlerError (Unit {0})) (reached : S)
      → is_event_processed s.processed e.metadata.event_id config.group_id ≡ false
      → Framed s
          (settle t config handle e fault s r reached).0
          (settle t config handle e fault s r reached).1
  unfolding settle
  settle-Framed fault s (done u) reached new = elim (Bool-cases (is_fatal fault)) [
    | inl f ↦ rw f (Leaves-served s _, tt)
    | inr f ↦ rw f (Leaves-marked s _ _ _, marked s.processed _ _ _ new)
  ]
  settle-Framed fault s (failed permanent) reached new = (Leaves-served s _, tt)
  settle-Framed fault s (failed transient) reached new = (Leaves-served s _, tt)
  settle-Framed fault s panicked reached new = (Leaves-served s _, tt)

  checked-Framed :
      (fault : DbFault) (b : Bool) (s : ConsumerState S)
      → is_event_processed s.processed e.metadata.event_id config.group_id ≡ b
      → Framed s
          (try_checked t config handle e fault b s).0
          (try_checked t config handle e fault b s).1
  unfolding try_checked run_handler
  checked-Framed DbFault.at_commit true s h = (Leaves-served s s.service, tt)
  checked-Framed DbFault.no_fault true s h = (Leaves-served s s.service, tt)
  checked-Framed DbFault.at_begin true s h = (Leaves-served s s.service, tt)
  checked-Framed DbFault.at_check true s h = (Leaves-served s s.service, tt)
  checked-Framed DbFault.at_mark true s h = (Leaves-served s s.service, tt)
  checked-Framed fault false s h =
      let (r, reached) = handle e (t.begin s.service) in settle-Framed fault s r reached h

  pub try_process_once-Framed :
      (fault : DbFault) (s : ConsumerState S)
      → Framed s
          (try_process_once t config handle e fault s).0
          (try_process_once t config handle e fault s).1
  unfolding try_process_once
  try_process_once-Framed DbFault.at_begin s = (Leaves-served s s.service, tt)
  try_process_once-Framed DbFault.at_check s = (Leaves-served s s.service, tt)
  try_process_once-Framed DbFault.no_fault s = checked-Framed DbFault.no_fault _ s refl
  try_process_once-Framed DbFault.at_mark s = checked-Framed DbFault.at_mark _ s refl
  try_process_once-Framed DbFault.at_commit s = checked-Framed DbFault.at_commit _ s refl

  -- An event that is marked is not handled again.
  pub try_process_once-marked :
      (fault : DbFault) (s : ConsumerState S)
      → is_event_processed s.processed e.metadata.event_id config.group_id ≡ true
      → ((try_process_once t config handle e fault s).0 ≡ some already_processed
          ⊎ (try_process_once t config handle e fault s).0 ≡ some AttemptResult.db_error)
        × ((try_process_once t config handle e fault s).1 ≡ s)
  unfolding try_process_once try_checked
  try_process_once-marked DbFault.at_begin s h = (inr refl, refl)
  try_process_once-marked DbFault.at_check s h = (inr refl, refl)
  try_process_once-marked DbFault.no_fault s h = rw h (inl refl, refl)
  try_process_once-marked DbFault.at_mark s h = rw h (inl refl, refl)
  try_process_once-marked DbFault.at_commit s h = rw h (inr refl, refl)
