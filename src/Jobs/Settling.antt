-- ===== src/Jobs/Settling.antt =====
-- What a task of the runner leaves in the table of jobs: shared/src/jobs/runner.rs.
use koupang.Prelude.{
  ℕ, ◌≡◌, refl, ◌∙◌, Bool, true, false, ◌&&◌, Option, none, some, map, is_some, if◌then◌else◌,
  Every, inl, inr, Bool-cases, arith,
}
use koupang.Prelude.Int.{ℤ}
use koupang.Json.{Text}
use koupang.Jobs.{
  Job, JobTable, JobStatus, pending, running, JobSchedule, RecurringFailurePolicy, die,
  reset_to_next, Execution, succeeded, transient, permanent, elapsed,
}
use koupang.Jobs.Registry.{JobRegistry}
use koupang.Jobs.Constraints.{status_allowed, updated}
use koupang.Jobs.Repository.{
  is_row, completed_row, retried_row, dead_row, reset_row, exhausted, mark_completed,
  mark_retry_or_failed, mark_dead_lettered, reset_recurring,
}
use koupang.Jobs.Runner.{
  CronClock, Task, task, finish, compute_next_run_at, recurring_def, schedule_of, policy_of,
  reset_by, reset_at, by_policy,
}
use koupang.Jobs.Table.{IsValid, IsChange}
use koupang.Jobs.Keeping.{completed_change, retried_change, dead_change}
use koupang.Jobs.Landing.{
  reset_or, next_of, next_by, next_after, mark_of, Settled, landed, succeeded-Lands,
  transient-Lands, permanent-Lands,
}
use koupang.Jobs.Marking.{RunsAs, marked, marked_then_reset}

module _ {H : Type 0} (clock : CronClock) where
  -- The rows after the statements of a task.
  abbrev Rows : Task H → Execution → JobTable → JobTable → Type 0
  Rows x elapsed t after = after ≡ t
  Rows x e t after = after ≡ record t {
    rows =
        map
          (updated (is_row x.job.id)
            (λ r. reset_or (mark_of clock x e t.now r) (next_after clock x e t.now) r) t.now)
          t.rows;
  }

  -- The table after the statements of a task: what `Settled` says of each row, and nothing else
  -- changes. At the time limit there are no statements.
  abbrev pub Settles : Task H → Execution → JobTable → JobTable → Type 0
  Settles x elapsed t after = after ≡ t
  Settles x e t after =
      (change : Job → Job) × (after ≡ record t { rows = map change t.rows })
      × Every (λ r. Settled clock x t.now e r (change r)) t.rows

scheduled :
    {H : Type 0} (registry : JobRegistry H) (job : Job)
    → is_some (schedule_of (recurring_def registry job)) ≡ true
    → is_some job.schedule ≡ true
scheduled registry job e = elim (Bool-cases (is_some job.schedule)) [
  | inl k ↦ k
  | inr k ↦ absurd (ground (arith, (rw k at e)))
]

module _ (clock : CronClock) (job : Job) (t : JobTable) (h : IsValid t)
    (runs : Every (RunsAs job) t.rows) where
  -- The table with every row of the job changed.
  abbrev changed : (Job → Job) → JobTable
  changed change = record t { rows = map (updated (is_row job.id) change t.now) t.rows }

  -- The second statement, if there is a next run.
  resets :
      (change : Job → Job) (c : IsChange change) (schedule : Option JobSchedule)
      → (is_some schedule ≡ true
          → (r : Job) → is_some r.schedule ≡ is_some job.schedule
          → status_allowed (change r).status pending (is_some (change r).schedule) ≡ true)
      → ((next : ℕ) (r : Job)
          → updated (is_row job.id) (reset_row next) t.now (updated (is_row job.id) change t.now r)
            ≡ updated (is_row job.id) (reset_row next) t.now r)
      → reset_by clock job.id schedule true (changed change)
        ≡ changed (λ r. reset_or (change r) (next_of clock schedule t.now) r)
  unfolding reset_recurring
  resets change c none back covers = refl
  resets change c (some s) back covers = at_next (compute_next_run_at clock s t.now)
    where
      at_next :
          (next : Option ℕ)
          → reset_at job.id next true (changed change) ≡ changed (λ r. reset_or (change r) next r)
      at_next none = refl
      at_next (some n) = rw (marked_then_reset job t h runs change c n (back refl) (covers n)) refl

  completed_then_reset :
      (schedule : Option JobSchedule)
      → (is_some schedule ≡ true → is_some job.schedule ≡ true)
      → reset_by clock job.id schedule true (mark_completed job.id t).1
        ≡ changed (λ r. reset_or (completed_row r) (next_of clock schedule t.now) r)
  unfolding mark_completed
  completed_then_reset schedule recurring =
      rw (marked job t h runs completed_row completed_change (λ r s. refl)) (
        resets completed_row completed_change schedule
          (λ some_schedule r s. s ∙ recurring some_schedule)
          (λ n r. elim (Bool-cases (is_row job.id r)) [
            | inl e ↦ rw (e, e) refl
            | inr e ↦ rw (e, e) refl
          ]))

  module _ (msg : Text) (max_retries : ℤ) where
    retried :
        (mark_retry_or_failed job.id msg max_retries t).1
        ≡ changed (retried_row msg max_retries t.now)
    unfolding mark_retry_or_failed
    retried =
        rw
          (marked job t h runs (retried_row msg max_retries t.now)
            (retried_change msg max_retries t.now)
            (λ r s. goes (exhausted r.attempts max_retries) (is_some r.schedule)))
          refl
      where
        goes :
            (b k : Bool) → status_allowed running (if b then JobStatus.failed else pending) k ≡ true
        goes true k = refl
        goes false k = refl

    retried_then_reset :
        (schedule : Option JobSchedule)
        → reset_by clock job.id schedule true (mark_retry_or_failed job.id msg max_retries t).1
          ≡ changed
              (λ r. reset_or (retried_row msg max_retries t.now r) (next_of clock schedule t.now) r)
    retried_then_reset schedule = rw retried (
        resets (retried_row msg max_retries t.now) (retried_change msg max_retries t.now) schedule
          (λ some_schedule r s. comes (exhausted r.attempts max_retries) (is_some r.schedule))
          (λ n r. elim (Bool-cases (is_row job.id r)) [
            | inl e ↦ rw (e, e) refl
            | inr e ↦ rw (e, e) refl
          ]))
      where
        comes :
            (b k : Bool) → status_allowed (if b then JobStatus.failed else pending) pending k ≡ true
        comes true k = refl
        comes false k = refl

  finish-Rows :
      {H : Type 0} (registry : JobRegistry H) (handler : H) (e : Execution)
      → Rows clock (task registry job handler) e t (finish clock (task registry job handler) e t)
  unfolding finish mark_dead_lettered
  finish-Rows registry handler succeeded =
      completed_then_reset (schedule_of (recurring_def registry job)) (scheduled registry job)
  finish-Rows registry handler (transient msg) =
      spent (is_some job.schedule && exhausted job.attempts job.max_retries)
        (policy_of (recurring_def registry job))
    where
      spent :
          (b : Bool) (policy : RecurringFailurePolicy)
          → (if b
              then by_policy clock policy
                  (task registry job handler)
                  true
                  (mark_retry_or_failed job.id msg job.max_retries t).1
              else (mark_retry_or_failed job.id msg job.max_retries t).1)
            ≡ changed (λ r.
              reset_or
                (retried_row msg job.max_retries t.now r)
                (if b
                  then next_by policy
                      (next_of clock (schedule_of (recurring_def registry job)) t.now)
                  else none)
                r)
      spent true die = retried msg job.max_retries
      spent true reset_to_next =
          retried_then_reset msg job.max_retries (schedule_of (recurring_def registry job))
      spent false policy = retried msg job.max_retries
  finish-Rows registry handler (permanent msg) = dead msg
    where
      dead : (msg : Text) → (mark_dead_lettered job.id msg t).1 ≡ changed (dead_row msg)
      dead msg = rw (marked job t h runs (dead_row msg) (dead_change msg) (λ r s. refl)) refl
  finish-Rows registry handler elapsed = refl

  -- After an execution of a running job within its time limit, its task has left the row of the job
  -- unlocked, and all other rows as they were. After a success the row is pending again for the next tick of the
  -- schedule, with no attempt counted, or it is completed if there is no such tick. After a
  -- transient failure with fewer attempts than allowed, it is pending again after a delay of two to
  -- the power of its attempts, of ten at most, in seconds; with all attempts spent it is pending for
  -- the next tick, with no attempt counted, if the job is recurring, its policy resets it and there
  -- is one, and has failed otherwise. After a permanent failure it is dead. At the time limit
  -- nothing changes. The table is valid, and the rows with the id of the job run with its attempts.
  pub finish-Settles :
      {H : Type 0} (registry : JobRegistry H) (handler : H) (e : Execution)
      → Settles clock (task registry job handler) e t (finish clock (task registry job handler) e t)
  finish-Settles registry handler succeeded = (
    _,
    finish-Rows registry handler succeeded,
    landed clock (task registry job handler) t.now succeeded
        (λ r same. succeeded-Lands clock (task registry job handler) t.now r) t.rows runs,
  )
  finish-Settles registry handler (transient msg) = (
    _,
    finish-Rows registry handler (transient msg),
    landed clock (task registry job handler) t.now (transient msg)
        (transient-Lands clock (task registry job handler) t.now msg) t.rows runs,
  )
  finish-Settles registry handler (permanent msg) = (
    _,
    finish-Rows registry handler (permanent msg),
    landed clock (task registry job handler) t.now (permanent msg)
        (λ r same. permanent-Lands clock (task registry job handler) t.now msg r) t.rows runs,
  )
  finish-Settles registry handler elapsed = finish-Rows registry handler elapsed
