-- ===== src/Jobs/Histories.antt =====
-- Histories of the table of jobs: the statements of services and of any number of runners
-- (shared/src/jobs/runner.rs), one after the other in any order. The two halves of what a task does
-- after its execution are steps of their own, and the job that a task carries may be stale.
use koupang.Prelude.{
  ℕ, ◌+◌, ◌&&◌, Bool, true, false, Option, String, [], refl, some, none, if◌then◌else◌,
}
use koupang.Json.{Value}
use koupang.Jobs.{
  JobTable, JobConfig, RecurringJobDefinition, RecurringFailurePolicy, die, reset_to_next,
  JobSchedule, Execution, succeeded, transient, permanent, elapsed,
}
use koupang.Jobs.Repository.{
  enqueue_job, claim_batch, release_stale_locks, cleanup_completed, seed_recurring_job, exhausted,
}
use koupang.Jobs.Runner.{
  CronClock, Task, mark, follow_up, reset_at, reset_by, by_policy, compute_next_run_at,
}
use koupang.Jobs.Table.{IsValid}
use koupang.Jobs.Keeping.{
  enqueue_job-IsValid, claim_batch-IsValid, mark_completed-IsValid, mark_retry_or_failed-IsValid,
  mark_dead_lettered-IsValid, release_stale_locks-IsValid, cleanup_completed-IsValid,
  seed_recurring_job-IsValid, reset_recurring-IsValid,
}

abbrev pub empty_table : ℕ → JobTable
empty_table now = record { rows = []; next_id = 0; now = now }

module _ (clock : CronClock) where
  reset_at-IsValid :
      (id : ℕ) (next : Option ℕ) (reached : Bool) (t : JobTable)
      → IsValid t
      → IsValid (reset_at id next reached t)
  reset_at-IsValid id none reached t h = h
  reset_at-IsValid id (some next) true t h = reset_recurring-IsValid t h id next
  reset_at-IsValid id (some next) false t h = h

  reset_by-IsValid :
      (id : ℕ) (schedule : Option JobSchedule) (reached : Bool) (t : JobTable)
      → IsValid t
      → IsValid (reset_by clock id schedule reached t)
  reset_by-IsValid id none reached t h = h
  reset_by-IsValid id (some s) reached t h =
      reset_at-IsValid id (compute_next_run_at clock s t.now) reached t h

module _ {H : Type 0} where
  mark-IsValid :
      (x : Task H) (e : Execution) (reached : Bool) (t : JobTable)
      → IsValid t
      → IsValid (mark x e reached t)
  unfolding mark
  mark-IsValid x succeeded true t h = mark_completed-IsValid t h x.job.id
  mark-IsValid x succeeded false t h = h
  mark-IsValid x (transient msg) true t h =
      mark_retry_or_failed-IsValid t h x.job.id msg x.job.max_retries
  mark-IsValid x (transient msg) false t h = h
  mark-IsValid x (permanent msg) true t h = mark_dead_lettered-IsValid t h x.job.id msg
  mark-IsValid x (permanent msg) false t h = h
  mark-IsValid x elapsed reached t h = h

  module _ (clock : CronClock) where
    follow_up-IsValid :
        (x : Task H) (e : Execution) (reached : Bool) (t : JobTable)
        → IsValid t
        → IsValid (follow_up clock x e reached t)
    unfolding follow_up
    follow_up-IsValid x succeeded reached t h =
        reset_by-IsValid clock x.job.id x.schedule reached t h
    follow_up-IsValid x (transient msg) reached t h =
        spent (x.is_recurring && exhausted x.job.attempts x.job.max_retries) x.failure_policy
      where
        spent :
            (b : Bool) (policy : RecurringFailurePolicy)
            → IsValid (if b then by_policy clock policy x reached t else t)
        spent true die = h
        spent true reset_to_next = reset_by-IsValid clock x.job.id x.schedule reached t h
        spent false policy = h
    follow_up-IsValid x (permanent msg) reached t h = h
    follow_up-IsValid x elapsed reached t h = h

module _ (H : Type 0) (clock : CronClock) where
  pub data Step (t : JobTable) : JobTable → Type 0 where
    later : (seconds : ℕ) → Step t (record t { now = t.now + seconds })
    enqueues :
        (name : String) (payload : Value) (config : Option JobConfig)
        → Step t (enqueue_job name payload config t).1
    claims : (limit instance_id : ℕ) → Step t (claim_batch limit instance_id t).1
    marks : (x : Task H) (e : Execution) (reached : Bool) → Step t (mark x e reached t)
    follows : (x : Task H) (e : Execution) (reached : Bool) → Step t (follow_up clock x e reached t)
    releases : (seconds : ℕ) → Step t (release_stale_locks seconds t).1
    cleans : (seconds : ℕ) → Step t (cleanup_completed seconds t).1
    seeds : (def : RecurringJobDefinition) → Step t (seed_recurring_job def t).1

  pub data Reaches (t : JobTable) : JobTable → Type 0 where
    starts : Reaches t t
    steps : {u v : JobTable} → Reaches t u → Step u v → Reaches t v

  Step-IsValid : {t u : JobTable} → Step t u → IsValid t → IsValid u
  Step-IsValid (later n) h = record { locks = h.locks; ids = h.ids; below = h.below; keys = h.keys }
  Step-IsValid {t = t} (enqueues name payload config) h =
      enqueue_job-IsValid t h name payload config
  Step-IsValid {t = t} (claims limit instance_id) h = claim_batch-IsValid t h limit instance_id
  Step-IsValid {t = t} (marks x e reached) h = mark-IsValid x e reached t h
  Step-IsValid {t = t} (follows x e reached) h = follow_up-IsValid clock x e reached t h
  Step-IsValid {t = t} (releases n) h = release_stale_locks-IsValid t h n
  Step-IsValid {t = t} (cleans n) h = cleanup_completed-IsValid t h n
  Step-IsValid {t = t} (seeds def) h = seed_recurring_job-IsValid t h def

  -- Whatever the services and the runners send, and in whatever order, from an empty table: a job
  -- is locked exactly while it runs, ids are unique and already given, and of the jobs of one type
  -- and one dedup key at most one is pending or running.
  pub Reaches-IsValid : {now : ℕ} {t : JobTable} → Reaches (empty_table now) t → IsValid t
  Reaches-IsValid starts = record { locks = tt; ids = tt; below = tt; keys = refl }
  Reaches-IsValid (steps before step) = Step-IsValid step (Reaches-IsValid before)
