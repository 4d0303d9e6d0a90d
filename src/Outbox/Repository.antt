-- ===== src/Outbox/Repository.antt =====
-- The statements of shared/src/outbox/repository.rs on the outbox table, with the trigger that
-- guards the status (catalog/migrations/202603161840_add_inventory_reservations.sql, as in the other
-- services). Where a `LIMIT` leaves the choice open, the rows that stand first are taken. Times are
-- in seconds.
use koupang.Prelude.{
  ℕ, ◌+◌, ◌-◌, ◌^◌, min, Bool, true, false, ◌&&◌, ◌||◌, negate, Option, none, some, List, [], ◌∷◌,
  map, length, select, leb, ltb, ◌==◌, if◌then◌else◌, is_some, find, all_of, take,
}
use koupang.Errors.{AppError, internal_server_error}
use koupang.Action.{Action, Outcome, done}
use koupang.Json.{Text}
use koupang.Outbox.{OutboxTable, OutboxEvent, OutboxStatus, pending, published}

abbrev pub is_pending : OutboxStatus → Bool
is_pending pending = true
is_pending _ = false

abbrev is_published : OutboxStatus → Bool
is_published published = true
is_published _ = false

-- `enforce_outbox_status_transition`.
abbrev pub status_allowed : OutboxStatus → OutboxStatus → Bool
status_allowed pending _ = true
status_allowed published published = true
status_allowed OutboxStatus.failed OutboxStatus.failed = true
status_allowed _ _ = false

abbrev pub has_number : ℕ → List ℕ → Bool
has_number n [] = false
has_number n (x ∷ xs) = x == n || has_number n xs

abbrev pub is_row : ℕ → OutboxEvent → Bool
is_row id r = r.id == id

-- The rows that an `UPDATE` by id leaves.
abbrev pub updated : ℕ → (OutboxEvent → OutboxEvent) → OutboxEvent → OutboxEvent
updated id change r = if is_row id r then change r else r

abbrev pub guards : ℕ → (OutboxEvent → OutboxEvent) → OutboxEvent → Bool
guards id change r = status_allowed r.status (updated id change r).status

-- An `UPDATE` by id under the trigger.
unfoldable pub update_row : ℕ → (OutboxEvent → OutboxEvent) → Action OutboxTable AppError (Unit {0})
update_row id change t =
    if all_of (guards id change) t.rows
    then (done tt, record t { rows = map (updated id change) t.rows })
    else (Outcome.failed internal_server_error, t)

abbrev pub is_due : ℕ → OutboxEvent → Bool
is_due now r = is_pending r.status && leb r.next_retry_at now

-- The `oldest_per_aggregate` that are not locked. `seen` are the aggregates of the rows before.
unfoldable pub claimable : ℕ → List ℕ → List OutboxEvent → List OutboxEvent
claimable now seen [] = []
claimable now seen (r ∷ rs) =
    let oldest = is_due now r && negate (has_number r.aggregate_id seen) in
    let rest = claimable now (if oldest then r.aggregate_id ∷ seen else seen) rs in
    if oldest && negate (is_some r.locked_by) then r ∷ rest else rest

abbrev pub locked_row : ℕ → ℕ → OutboxEvent → OutboxEvent
locked_row instance_id now r = record r { locked_by = some instance_id; locked_at = some now }

abbrev pub claim_row : List OutboxEvent → ℕ → ℕ → OutboxEvent → OutboxEvent
claim_row claimed instance_id now r =
    if is_some (find (is_row r.id) claimed) then locked_row instance_id now r else r

unfoldable pub claim_batch : ℕ → ℕ → Action OutboxTable AppError (List OutboxEvent)
unfolding claimable
claim_batch batch_size instance_id t =
    let claimed = take batch_size (claimable t.now [] t.rows) in
    (
      done (map (locked_row instance_id t.now) claimed),
      record t { rows = map (claim_row claimed instance_id t.now) t.rows },
    )

abbrev pub published_row : ℕ → OutboxEvent → OutboxEvent
published_row now r = record r {
  status = published;
  published_at = some now;
  locked_by = none;
  locked_at = none;
}

unfoldable pub mark_published : ℕ → Action OutboxTable AppError (Unit {0})
mark_published id t = update_row id (published_row t.now) t

unfoldable pub delete_published : ℕ → Action OutboxTable AppError (Unit {0})
delete_published id t = (done tt, record t { rows = select (λ r. negate (is_row id r)) t.rows })

-- `POW(2, LEAST(retry_count + 1, 10))`.
abbrev pub backoff_secs : ℕ → ℕ
backoff_secs retry_count = 2 ^ min (retry_count + 1) 10

abbrev pub retried_row : Text → ℕ → OutboxEvent → OutboxEvent
retried_row error now r =
    let exhausted = leb r.max_retries (r.retry_count + 1) in
    record r {
      status = if exhausted then OutboxStatus.failed else pending;
      retry_count = r.retry_count + 1;
      next_retry_at = if exhausted then r.next_retry_at else now + backoff_secs r.retry_count;
      last_error = some error;
      locked_by = none;
      locked_at = none;
    }

unfoldable pub mark_retry_or_failed : ℕ → Text → Action OutboxTable AppError (Unit {0})
mark_retry_or_failed id error t = update_row id (retried_row error t.now) t

abbrev is_stale_at : ℕ → Option ℕ → Bool
is_stale_at limit none = false
is_stale_at limit (some at) = ltb at limit

abbrev pub is_stale : ℕ → OutboxEvent → Bool
is_stale limit r = is_some r.locked_by && is_stale_at limit r.locked_at && is_pending r.status

abbrev unlocked_row : OutboxEvent → OutboxEvent
unlocked_row r = record r { locked_by = none; locked_at = none }

abbrev pub unlock_stale : ℕ → OutboxEvent → OutboxEvent
unlock_stale limit r = if is_stale limit r then unlocked_row r else r

unfoldable pub release_stale_locks : ℕ → Action OutboxTable AppError ℕ
release_stale_locks stale_timeout_secs t =
    let limit = t.now - stale_timeout_secs in
    (
      done (length (select (is_stale limit) t.rows)),
      record t { rows = map (unlock_stale limit) t.rows },
    )

abbrev pub is_old : ℕ → OutboxEvent → Bool
is_old limit r = is_published r.status && is_stale_at limit r.published_at

abbrev pub without : List OutboxEvent → OutboxEvent → Bool
without gone r = negate (is_some (find (is_row r.id) gone))

unfoldable cleanup_published : ℕ → Action OutboxTable AppError ℕ
cleanup_published max_age_secs t =
    let gone = take 1000 (select (is_old (t.now - max_age_secs)) t.rows) in
    (done (length gone), record t { rows = select (without gone) t.rows })

unfoldable outbox_lag : OutboxTable → ℕ
outbox_lag t = length (select (λ r. is_pending r.status) t.rows)
