-- ===== src/Jobs/Runner.antt =====
-- The runner of the persistent jobs: shared/src/jobs/runner.rs. A spawned task sends its statements
-- while others run, so that what it does after the execution stands in two parts.
-- A Boolean `reached` tells whether the database takes a statement. The cron crate is
-- a parameter; logging and the wake-up by NOTIFY are left out.
use koupang.Prelude.{
  ℕ, zero, suc, ◌+◌, ◌-◌, ◌/◌, ◌%◌, ◌^◌, Bool, true, ◌&&◌, ◌||◌, negate, Option, none, some, str_eq,
  List, [], ◌∷◌, ltb, ◌==◌, if◌then◌else◌, is_some, find,
}
use koupang.Prelude.Int.{ℤ, pos, negsuc}
use koupang.Errors.{AppError}
use koupang.Action.{Action, Outcome, done}
use koupang.Jobs.{
  Job, JobTable, JobSchedule, RecurringFailurePolicy, RecurringJobDefinition, Execution, cron,
  interval, die, reset_to_next, succeeded, transient, permanent, elapsed, as_i32,
}
use koupang.Jobs.Registry
use koupang.Jobs.Registry.{JobRegistry}
use koupang.Jobs.Repository.{
  claim_batch, mark_completed, mark_retry_or_failed, mark_dead_lettered, exhausted,
  release_stale_locks, cleanup_completed, seed_recurring_job, reset_recurring,
}

-- What the runner uses of the cron crate: the first tick after a time, and how many ticks there
-- are after one time up to another.
pub record CronClock : Type 0 where
  pub upcoming : ℕ → ℕ → Option ℕ
  pub ticks_between : ℕ → ℕ → ℕ → ℕ

pub record JobRunnerConfig : Type 0 where
  pub instance_id : ℕ
  pub max_concurrent_jobs : ℕ
  pub stale_lock_timeout : ℕ
  pub cleanup_max_age : ℕ

-- A job that a task executes, with what the runner looked up for it.
pub record Task (H : Type 0) : Type 0 where
  pub job : Job
  pub handler : H
  timeout_secs : ℕ
  pub is_recurring : Bool
  pub failure_policy : RecurringFailurePolicy
  pub schedule : Option JobSchedule

-- The most seconds that `chrono::Duration::from_std` takes.
abbrev max_duration_secs : ℕ
max_duration_secs = 9223372036854775

-- `compute_next_run_at` at a clock reading; `none` is its panic. The end of chrono's calendar is
-- left out.
abbrev pub compute_next_run_at : CronClock → JobSchedule → ℕ → Option ℕ
compute_next_run_at clock (cron s) now = clock.upcoming s now
compute_next_run_at clock (interval d) now =
    if ltb max_duration_secs d then none else some (now + d)

abbrev count_missed_ticks : CronClock → JobSchedule → ℕ → ℕ → ℕ
count_missed_ticks clock (cron s) last_run now = clock.ticks_between s last_run now - 1
count_missed_ticks clock (interval d) last_run now =
    let elapsed_secs = now - last_run in if d == 0 then 0 else elapsed_secs / d - 1

-- `as u64`.
abbrev pub as_u64 : ℤ → ℕ
as_u64 (pos n) = n
as_u64 (negsuc n) = 2 ^ 64 - (n + 1)

-- A statement whose error is logged.
abbrev pub sent : {A : Type 0} → Bool → Action JobTable AppError A → JobTable → JobTable
sent reached statement t = if reached then (statement t).1 else t

abbrev pub policy_of : Option RecurringJobDefinition → RecurringFailurePolicy
policy_of none = die
policy_of (some d) = d.failure_policy

abbrev pub schedule_of : Option RecurringJobDefinition → Option JobSchedule
schedule_of none = none
schedule_of (some d) = some d.schedule

module _ {H : Type 0} (registry : JobRegistry H) where
  abbrev pub recurring_def : Job → Option RecurringJobDefinition
  recurring_def job =
      if is_some job.schedule
      then find (λ d. str_eq d.job_name job.job_type) registry.recurring
      else none

  abbrev pub task : Job → H → Task H
  task job handler = record {
    job = job;
    handler = handler;
    timeout_secs = as_u64 job.timeout_seconds;
    is_recurring = is_some job.schedule;
    failure_policy = policy_of (recurring_def job);
    schedule = schedule_of (recurring_def job);
  }

  -- A job without a handler is left as it is.
  abbrev pub with_task : Job → Option H → List (Task H) → List (Task H)
  with_task job none rest = rest
  with_task job (some handler) rest = task job handler ∷ rest

  unfoldable pub spawn_all : List Job → List (Task H)
  spawn_all [] = []
  spawn_all (job ∷ jobs) = with_task job (Registry.get job.job_type registry) (spawn_all jobs)

  abbrev pub spawned : Outcome AppError (List Job) → List (Task H)
  spawned (done jobs) = spawn_all jobs
  spawned _ = []

  module _ (config : JobRunnerConfig) where
    abbrev pub claim_up_to : ℤ → Bool → JobTable → List (Task H) × JobTable
    claim_up_to (negsuc n) reached t = ([], t)
    claim_up_to (pos zero) reached t = ([], t)
    claim_up_to (pos (suc n)) reached t =
        if reached
        then (
          spawned (claim_batch (suc n) config.instance_id t).0,
          (claim_batch (suc n) config.instance_id t).1,
        )
        else ([], t)

    -- The tasks that are spawned, and the table.
    unfoldable pub process_available : Bool → ℕ → Bool → JobTable → List (Task H) × JobTable
    process_available is_cancelled in_flight reached t =
        if is_cancelled
        then ([], t)
        else claim_up_to (as_i32 ((config.max_concurrent_jobs - in_flight) % 2 ^ 32)) reached t

-- What a task does after the execution of its handler.
abbrev pub reset_at : ℕ → Option ℕ → Bool → JobTable → JobTable
reset_at job_id none reached t = t
reset_at job_id (some next) reached t = sent reached (reset_recurring job_id next) t

abbrev pub reset_by : CronClock → ℕ → Option JobSchedule → Bool → JobTable → JobTable
reset_by clock job_id none reached t = t
reset_by clock job_id (some schedule) reached t =
    reset_at job_id (compute_next_run_at clock schedule t.now) reached t

module _ {H : Type 0} where
  unfoldable pub mark : Task H → Execution → Bool → JobTable → JobTable
  mark x succeeded reached t = sent reached (mark_completed x.job.id) t
  mark x (transient msg) reached t =
      sent reached (mark_retry_or_failed x.job.id msg x.job.max_retries) t
  mark x (permanent msg) reached t = sent reached (mark_dead_lettered x.job.id msg) t
  mark x elapsed reached t = t

  module _ (clock : CronClock) where
    abbrev pub by_policy : RecurringFailurePolicy → Task H → Bool → JobTable → JobTable
    by_policy die x reached t = t
    by_policy reset_to_next x reached t = reset_by clock x.job.id x.schedule reached t

    unfoldable pub follow_up : Task H → Execution → Bool → JobTable → JobTable
    follow_up x succeeded reached t = reset_by clock x.job.id x.schedule reached t
    follow_up x (transient msg) reached t =
        if x.is_recurring && exhausted x.job.attempts x.job.max_retries
        then by_policy x.failure_policy x reached t
        else t
    follow_up x (permanent msg) reached t = t
    follow_up x elapsed reached t = t

    -- A task whose statements the database takes, with none of another task between them.
    unfoldable pub finish : Task H → Execution → JobTable → JobTable
    unfolding mark follow_up
    finish x e t = follow_up x e true (mark x e true t)

-- The loops

-- One round of the stale lock recovery loop.
unfoldable recover_stale : JobRunnerConfig → Bool → JobTable → JobTable
recover_stale config reached = sent reached (release_stale_locks config.stale_lock_timeout)

-- The inner loop of the cleanup loop, on fuel: its total and the table. The arguments that follow
-- the configuration are what the shutdown token and the database answer when the fuel is at a
-- number.
abbrev pub cleaned :
    Outcome AppError ℕ → ℕ → JobTable → (ℕ → Option (ℕ × JobTable)) → Option (ℕ × JobTable)
cleaned (done zero) total t continue = some (total, t)
cleaned (done (suc n)) total t continue = continue (total + suc n)
cleaned _ total t continue = some (total, t)

unfoldable pub cleanup_batches :
    JobRunnerConfig → (ℕ → Bool) → (ℕ → Bool) → ℕ → ℕ → JobTable → Option (ℕ × JobTable)
cleanup_batches config is_cancelled reached zero total t = none
cleanup_batches config is_cancelled reached (suc fuel) total t =
    let (batch, after) = cleanup_completed config.cleanup_max_age t in
    let continue = λ (sum : ℕ). cleanup_batches config is_cancelled reached fuel sum after in
    if is_cancelled fuel || negate (reached fuel)
    then some (total, t)
    else cleaned batch total after continue

unfoldable seed_recurring_jobs :
    (RecurringJobDefinition → Bool) → List RecurringJobDefinition → JobTable → JobTable
seed_recurring_jobs reached [] t = t
seed_recurring_jobs reached (def ∷ defs) t =
    seed_recurring_jobs reached defs (sent (reached def) (seed_recurring_job def) t)
