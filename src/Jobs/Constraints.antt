-- ===== src/Jobs/Constraints.antt =====
-- The unique index and the triggers that guard the table of persistent jobs:
-- shared/tests/migrations/000004_persistent_jobs.sql.
use koupang.Prelude.{
  ℕ, Bool, true, false, ◌&&◌, ◌||◌, negate, Option, some, String, str_eq, List, [], ◌∷◌, map,
  if◌then◌else◌, is_some, all_of,
}
use koupang.Errors.{AppError, internal_server_error}
use koupang.Action.{Action, Outcome, done}
use koupang.Jobs.{Job, JobTable, JobStatus, pending, running, completed, dead_lettered}

abbrev pub is_pending : JobStatus → Bool
is_pending pending = true
is_pending _ = false

abbrev pub is_running : JobStatus → Bool
is_running running = true
is_running _ = false

-- The condition of the index `idx_jobs_dedup` on the status.
abbrev pub is_live : JobStatus → Bool
is_live s = is_pending s || is_running s

-- `enforce_job_status_transition`; the last argument tells whether the new row has a schedule.
abbrev pub status_allowed : JobStatus → JobStatus → Bool → Bool
status_allowed pending pending _ = true
status_allowed pending running _ = true
status_allowed pending JobStatus.cancelled _ = true
status_allowed running running _ = true
status_allowed running completed _ = true
status_allowed running JobStatus.failed _ = true
status_allowed running dead_lettered _ = true
status_allowed running pending _ = true
status_allowed completed completed _ = true
status_allowed completed pending scheduled = scheduled
status_allowed JobStatus.failed JobStatus.failed _ = true
status_allowed JobStatus.failed pending _ = true
status_allowed dead_lettered dead_lettered _ = true
status_allowed dead_lettered pending _ = true
status_allowed JobStatus.cancelled JobStatus.cancelled _ = true
status_allowed _ _ _ = false

abbrev pub same_key : Option String → Option String → Bool
same_key (some a) (some b) = str_eq a b
same_key _ _ = false

-- Two rows that the index does not let stand together.
abbrev pub clashes : Job → Job → Bool
clashes a b =
    is_live a.status
    && is_live b.status
    && str_eq a.job_type b.job_type
    && same_key a.dedup_key b.dedup_key

abbrev pub clear_of : Job → List Job → Bool
clear_of r rs = all_of (λ x. negate (clashes r x)) rs

abbrev pub keys_unique : List Job → Bool
keys_unique [] = true
keys_unique (r ∷ rs) = clear_of r rs && keys_unique rs

-- The row after an `UPDATE` with the `WHERE` test `chosen`, and the trigger on `updated_at`.
abbrev pub updated : (Job → Bool) → (Job → Job) → ℕ → Job → Job
updated chosen change now r = if chosen r then record (change r) { updated_at = now } else r

abbrev pub allowed : (Job → Bool) → (Job → Job) → ℕ → Job → Bool
allowed chosen change now r =
    let after = updated chosen change now r in
    status_allowed r.status after.status (is_some after.schedule)

-- An `UPDATE` changes all its rows, unless the trigger or the index refuses one.
unfoldable pub update_where : (Job → Bool) → (Job → Job) → Action JobTable AppError (Unit {0})
update_where chosen change t =
    let after = map (updated chosen change t.now) t.rows in
    if all_of (allowed chosen change t.now) t.rows && keys_unique after
    then (done tt, record t { rows = after })
    else (Outcome.failed internal_server_error, t)
