-- ===== src/Tests/JobsTests.antt =====
-- The theorems on the persistent jobs at a small table: a scheduled job that was claimed, and runs.
use koupang.Prelude.{ℕ, ◌-◌, ◌≡◌, refl, true, false, none, some, [], ◌∷◌, Every, arith}
use koupang.Prelude.Int.{pos}
use koupang.Errors.{internal_server_error}
use koupang.Action.{Outcome}
use koupang.Json.{Value, lit}
use koupang.Jobs.{
  Job, JobTable, JobStatus, running, completed, JobConfig, RecurringJobDefinition, interval, skip,
  reset_to_next, succeeded, transient,
}
use koupang.Jobs.Registry.{JobRegistry}
use koupang.Jobs.Repository.{claim_batch, enqueue_job, seed_recurring_job}
use koupang.Jobs.Runner.{
  CronClock, JobRunnerConfig, task, mark, finish, process_available, cleanup_batches,
}
use koupang.Jobs.Table.{IsValid}
use koupang.Jobs.Histories.{empty_table, claims, marks, seeds, starts, steps, Reaches-IsValid}
use koupang.Jobs.Claims.{Takes, claim_batch-Takes}
use koupang.Jobs.Marking.{RunsAs}
use koupang.Jobs.Settling.{Settles, finish-Settles}
use koupang.Jobs.Running.{Fills, process_available-Fills}
use koupang.Jobs.Cleaning.{Finishes, cleanup_batches-Finishes}
use koupang.Jobs.Seeding.{enqueue_job-duplicate}

abbrev clock : CronClock
clock = record { upcoming = λ s now. none; ticks_between = λ s a b. 0 }

abbrev config : JobRunnerConfig
config = record {
  instance_id = 7;
  max_concurrent_jobs = 4;
  stale_lock_timeout = 600;
  cleanup_max_age = 10;
}

abbrev sync : RecurringJobDefinition
sync = record {
  job_name = "catalog.sync";
  schedule = interval 60;
  payload = Value.null;
  dedup_key = "only";
  config = none;
  failure_policy = reset_to_next;
}

abbrev registry : JobRegistry ℕ
registry = record { handlers = ("catalog.sync", 1) ∷ []; recurring = sync ∷ [] }

abbrev sync_job : Job
sync_job = record {
  id = 0;
  job_type = "catalog.sync";
  payload = Value.null;
  status = running;
  schedule = some (interval 60);
  dedup_key = some "only";
  max_retries = pos 5;
  timeout_seconds = pos 300;
  attempts = 1;
  last_error = none;
  locked_by = some 7;
  locked_at = some 100;
  next_run_at = 100;
  created_at = 100;
  updated_at = 100;
}

abbrev done_job : Job
done_job = record sync_job {
  id = 1;
  status = completed;
  schedule = none;
  dedup_key = none;
  locked_by = none;
  locked_at = none;
}

abbrev waiting_job : Job
waiting_job = record done_job { id = 2; status = JobStatus.pending; attempts = 0 }

abbrev table : JobTable
table = record { rows = sync_job ∷ done_job ∷ waiting_job ∷ []; next_id = 3; now = 120 }

table-IsValid : IsValid table
table-IsValid = record {
  locks = ((refl, refl), ((refl, refl), ((refl, refl), tt)));
  ids = (
    ((λ e. omega (arith, e)), ((λ e. omega (arith, e)), tt)),
    ((((λ e. omega (arith, e)), tt)), (tt, tt)),
  );
  below = (omega arith, (omega arith, (omega arith, tt)));
  keys = refl;
}

table-RunsAs : Every (RunsAs sync_job) table.rows
table-RunsAs = (
  (λ e. (refl, (refl, refl))),
  ((λ e. absurd (ground (arith, e))), ((λ e. absurd (ground (arith, e))), tt)),
)

-- A seeded slot is claimed, and its run succeeds.
abbrev seeded : JobTable
seeded = (seed_recurring_job sync (empty_table 100)).1

Reaches-IsValid_example :
    IsValid (mark (task registry sync_job 1) succeeded true (claim_batch 4 7 seeded).1)
Reaches-IsValid_example = Reaches-IsValid ℕ clock (
    steps (steps (steps starts (seeds sync)) (claims 4 7))
      (marks (task registry sync_job 1) succeeded true))

claim_batch-Takes_example : Takes 2 9 table (claim_batch 2 9 table).0 (claim_batch 2 9 table).1
claim_batch-Takes_example = claim_batch-Takes table table-IsValid 2 9

finish-Settles_example :
    Settles clock
      (task registry sync_job 1)
      (transient (lit "busy"))
      table
      (finish clock (task registry sync_job 1) (transient (lit "busy")) table)
finish-Settles_example =
    finish-Settles clock sync_job table table-IsValid table-RunsAs registry 1
      (transient (lit "busy"))

process_available-Fills_example :
    Fills registry config 3 (process_available registry config false 3 true table).0
process_available-Fills_example =
    process_available-Fills registry config false true 3 table table-IsValid (omega arith)

cleanup_batches-Finishes_example :
    Finishes (120 - 10) (cleanup_batches config (λ n. false) (λ n. true) 4 0 table)
cleanup_batches-Finishes_example = cleanup_batches-Finishes config 4 0 table (omega arith)

abbrev keyed : JobConfig
keyed = record {
  max_retries = none;
  timeout_seconds = none;
  dedup_strategy = skip;
  dedup_key = some "order 1";
}

enqueue_job-duplicate_example :
    (enqueue_job "order.mail" Value.null
      (some keyed)
      (enqueue_job "order.mail" Value.null (some keyed) table).1).0
    ≡ Outcome.failed internal_server_error
enqueue_job-duplicate_example =
    enqueue_job-duplicate table "order.mail" "order 1" Value.null Value.null keyed
