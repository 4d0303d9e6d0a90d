-- ===== src/Jobs/Repository.antt =====
-- The statements of shared/src/jobs/repository.rs on the table of persistent jobs, with the unique
-- index, the triggers and the column widths of
-- shared/tests/migrations/000004_persistent_jobs.sql. Where a `LIMIT` or an order leaves the choice
-- open, the rows that stand first are taken. No other transaction holds a row lock meanwhile.
use koupang.Prelude.{
  ℕ, ◌+◌, ◌-◌, ◌^◌, min, Bool, true, false, ◌&&◌, negate, Option, none, some, String, List, [], ◌∷◌,
  ◌++◌, map, length, select, leb, ◌==◌, if◌then◌else◌, all_of, ltb, take,
}
use koupang.Prelude.Int.{ℤ, pos, negsuc}
use koupang.Strings.{fits_column}
use koupang.Errors.{AppError, internal_server_error}
use koupang.Action.{Action, Outcome, done}
use koupang.Json.{Text, Value}
use koupang.Jobs.{
  Job, JobTable, JobStatus, pending, running, completed, dead_lettered, JobSchedule, JobConfig,
  RecurringJobDefinition, as_i32, config_retries, config_timeout, config_dedup_key, or_default,
}
use koupang.Jobs.Constraints.{is_pending, is_running, clear_of, update_where}

abbrev is_completed : JobStatus → Bool
is_completed completed = true
is_completed _ = false

abbrev pub is_row : ℕ → Job → Bool
is_row id r = r.id == id

-- Enqueue

-- The row that an `INSERT` with the table's defaults creates.
abbrev pub new_row :
    JobTable → String → Value → Option JobSchedule → Option String → Option JobConfig → Job
new_row t job_type payload schedule dedup_key config = record {
  id = t.next_id;
  job_type = job_type;
  payload = payload;
  status = pending;
  schedule = schedule;
  dedup_key = dedup_key;
  max_retries = as_i32 (or_default (config_retries config) 5);
  timeout_seconds = as_i32 (or_default (config_timeout config) 300);
  attempts = 0;
  last_error = none;
  locked_by = none;
  locked_at = none;
  next_run_at = t.now;
  created_at = t.now;
  updated_at = t.now;
}

abbrev pub with_row : JobTable → Job → JobTable
with_row t r = record t { rows = t.rows ++ r ∷ []; next_id = t.next_id + 1 }

unfoldable pub enqueue_job : String → Value → Option JobConfig → Action JobTable AppError ℕ
enqueue_job job_name payload config t =
    let r = new_row t job_name payload none (config_dedup_key config) config in
    if fits_column r.dedup_key && clear_of r t.rows
    then (done r.id, with_row t r)
    else (Outcome.failed internal_server_error, t)

-- Claim batch

abbrev pub is_due : ℕ → Job → Bool
is_due now r = is_pending r.status && leb r.next_run_at now

-- `ORDER BY next_run_at ASC`.
abbrev pub insert_by_run : Job → List Job → List Job
insert_by_run r [] = r ∷ []
insert_by_run r (x ∷ xs) =
    if leb r.next_run_at x.next_run_at then r ∷ x ∷ xs else x ∷ insert_by_run r xs

abbrev pub sort_by_run : List Job → List Job
sort_by_run [] = []
sort_by_run (r ∷ rs) = insert_by_run r (sort_by_run rs)

abbrev pub run_row : ℕ → ℕ → Job → Job
run_row instance_id now r = record r {
  status = running;
  locked_by = some instance_id;
  locked_at = some now;
  attempts = r.attempts + 1;
}

abbrev pub among : List Job → Job → Bool
among claimed r = negate (all_of (λ x. negate (is_row r.id x)) claimed)

abbrev pub returned : {A : Type 0} → A → Outcome AppError (Unit {0}) → Outcome AppError A
returned a (done _) = done a
returned a (Outcome.failed e) = Outcome.failed e
returned a Outcome.panicked = Outcome.panicked

unfoldable pub claim_batch : ℕ → ℕ → Action JobTable AppError (List Job)
unfolding update_where
claim_batch limit instance_id t =
    let claimed = take limit (sort_by_run (select (is_due t.now) t.rows)) in
    let rows = map (λ r. record (run_row instance_id t.now r) { updated_at = t.now }) claimed in
    let (result, after) = update_where (among claimed) (run_row instance_id t.now) t in
    (returned rows result, after)

-- Marks

abbrev pub completed_row : Job → Job
completed_row r = record r { status = completed; locked_by = none; locked_at = none }

unfoldable pub mark_completed : ℕ → Action JobTable AppError (Unit {0})
mark_completed job_id = update_where (is_row job_id) completed_row

abbrev pub exhausted : ℕ → ℤ → Bool
exhausted attempts (pos max_retries) = leb max_retries attempts
exhausted attempts (negsuc _) = true

-- `POW(2, LEAST(attempts, 10))`.
abbrev pub backoff_secs : ℕ → ℕ
backoff_secs attempts = 2 ^ min attempts 10

abbrev pub retried_row : Text → ℤ → ℕ → Job → Job
retried_row error max_retries now r =
    let spent = exhausted r.attempts max_retries in
    record r {
      status = if spent then JobStatus.failed else pending;
      next_run_at = if spent then r.next_run_at else now + backoff_secs r.attempts;
      last_error = some error;
      locked_by = none;
      locked_at = none;
    }

unfoldable pub mark_retry_or_failed : ℕ → Text → ℤ → Action JobTable AppError (Unit {0})
mark_retry_or_failed job_id error max_retries t =
    update_where (is_row job_id) (retried_row error max_retries t.now) t

abbrev pub dead_row : Text → Job → Job
dead_row error r = record r {
  status = dead_lettered;
  last_error = some error;
  locked_by = none;
  locked_at = none;
}

unfoldable pub mark_dead_lettered : ℕ → Text → Action JobTable AppError (Unit {0})
mark_dead_lettered job_id error = update_where (is_row job_id) (dead_row error)

-- Stale locks

abbrev is_before : ℕ → Option ℕ → Bool
is_before limit none = false
is_before limit (some at) = ltb at limit

abbrev pub is_stale : ℕ → Job → Bool
is_stale limit r = is_running r.status && is_before limit r.locked_at

abbrev pub released_row : Job → Job
released_row r = record r { status = pending; locked_by = none; locked_at = none }

unfoldable pub release_stale_locks : ℕ → Action JobTable AppError ℕ
unfolding update_where
release_stale_locks stale_timeout_secs t =
    let limit = t.now - stale_timeout_secs in
    let (result, after) = update_where (is_stale limit) released_row t in
    (returned (length (select (is_stale limit) t.rows)) result, after)

-- Cleanup

abbrev pub is_old : ℕ → Job → Bool
is_old limit r = is_completed r.status && ltb r.updated_at limit

unfoldable pub cleanup_completed : ℕ → Action JobTable AppError ℕ
cleanup_completed max_age_secs t =
    let gone = take 1000 (select (is_old (t.now - max_age_secs)) t.rows) in
    (done (length gone), record t { rows = select (λ r. negate (among gone r)) t.rows })

-- Recurring jobs

-- `ON CONFLICT DO NOTHING` on the index.
unfoldable pub seed_recurring_job : RecurringJobDefinition → Action JobTable AppError (Option ℕ)
seed_recurring_job def t =
    let r =
      new_row t def.job_name def.payload (some def.schedule) (some def.dedup_key) def.config in
    if negate (fits_column r.dedup_key)
    then (Outcome.failed internal_server_error, t)
    else if clear_of r t.rows
    then (done (some r.id), with_row t r)
    else (done none, t)

abbrev pub reset_row : ℕ → Job → Job
reset_row next_run_at r = record r {
  status = pending;
  next_run_at = next_run_at;
  attempts = 0;
  locked_by = none;
  locked_at = none;
  last_error = none;
}

unfoldable pub reset_recurring : ℕ → ℕ → Action JobTable AppError (Unit {0})
reset_recurring job_id next_run_at = update_where (is_row job_id) (reset_row next_run_at)
