-- ===== src/Jobs/Keeping.antt =====
-- Each statement of shared/src/jobs/repository.rs keeps the table of jobs valid.
use koupang.Prelude.{
  ℕ, ◌-◌, ◌<◌, ◌≡◌, refl, Bool, true, false, ◌&&◌, negate, Option, none, some, String, select,
  if◌then◌else◌, inl, inr, Bool-cases, take, and_parts, Every-select,
}
use koupang.Prelude.Int.{ℤ}
use koupang.Json.{Text, Value}
use koupang.Strings.{fits_column}
use koupang.Jobs.{
  Job, JobTable, JobStatus, pending, JobConfig, RecurringJobDefinition, config_dedup_key,
}
use koupang.Jobs.Constraints.{is_running, clear_of}
use koupang.Jobs.Repository.{
  new_row, enqueue_job, run_row, claim_batch, completed_row, mark_completed, retried_row, exhausted,
  mark_retry_or_failed, dead_row, mark_dead_lettered, released_row, release_stale_locks,
  cleanup_completed, seed_recurring_job, reset_row, reset_recurring, among, is_old, is_due,
  sort_by_run, is_row, is_stale,
}
use koupang.Jobs.Table.{Locks, IsValid, IsChange, update_where-IsValid}
use koupang.Jobs.Rows.{with_row-IsValid, selected-IdsDistinct, selected-keys_unique}

abbrev pub run_change : (instance_id now : ℕ) → IsChange (run_row instance_id now)
run_change instance_id now = record {
  same_id = λ r. refl;
  same_type = λ r. refl;
  same_dedup_key = λ r. refl;
  locked = λ r. (refl, refl);
}

abbrev pub completed_change : IsChange completed_row
completed_change = record {
  same_id = λ r. refl;
  same_type = λ r. refl;
  same_dedup_key = λ r. refl;
  locked = λ r. (refl, refl);
}

abbrev pub retried_change :
    (error : Text) (max_retries : ℤ) (now : ℕ) → IsChange (retried_row error max_retries now)
retried_change error max_retries now = record {
  same_id = λ r. refl;
  same_type = λ r. refl;
  same_dedup_key = λ r. refl;
  locked =
      λ r. (rests (exhausted r.attempts max_retries), rests (exhausted r.attempts max_retries));
}
  where
    rests : (b : Bool) → false ≡ is_running (if b then JobStatus.failed else pending)
    rests true = refl
    rests false = refl

abbrev pub dead_change : (error : Text) → IsChange (dead_row error)
dead_change error = record {
  same_id = λ r. refl;
  same_type = λ r. refl;
  same_dedup_key = λ r. refl;
  locked = λ r. (refl, refl);
}

abbrev released_change : IsChange released_row
released_change = record {
  same_id = λ r. refl;
  same_type = λ r. refl;
  same_dedup_key = λ r. refl;
  locked = λ r. (refl, refl);
}

abbrev pub reset_change : (next_run_at : ℕ) → IsChange (reset_row next_run_at)
reset_change next_run_at = record {
  same_id = λ r. refl;
  same_type = λ r. refl;
  same_dedup_key = λ r. refl;
  locked = λ r. (refl, refl);
}

-- The statements

module _ (t : JobTable) (h : IsValid t) where
  pub enqueue_job-IsValid :
      (job_name : String) (payload : Value) (config : Option JobConfig)
      → IsValid (enqueue_job job_name payload config t).1
  unfolding enqueue_job
  enqueue_job-IsValid job_name payload config =
      let key = config_dedup_key config in
      let r = new_row t job_name payload none key config in
      elim (Bool-cases (fits_column key && clear_of r t.rows)) [
        | inl e ↦ rw e (
            with_row-IsValid t r refl (refl, refl)
              (and_parts (fits_column key) (clear_of r t.rows) e).1 h)
        | inr e ↦ rw e h
      ]

  pub seed_recurring_job-IsValid :
      (def : RecurringJobDefinition) → IsValid (seed_recurring_job def t).1
  unfolding seed_recurring_job
  seed_recurring_job-IsValid def =
      let key = some def.dedup_key in
      let r = new_row t def.job_name def.payload (some def.schedule) key def.config in
      elim (Bool-cases (fits_column key)) [
        | inl fits ↦ rw fits (elim (Bool-cases (clear_of r t.rows)) [
          | inl e ↦ rw e (with_row-IsValid t r refl (refl, refl) e h)
          | inr e ↦ rw e h
        ])
        | inr e ↦ rw e h
      ]

  pub claim_batch-IsValid : (limit instance_id : ℕ) → IsValid (claim_batch limit instance_id t).1
  unfolding claim_batch
  claim_batch-IsValid limit instance_id =
      update_where-IsValid (among (take limit (sort_by_run (select (is_due t.now) t.rows))))
        (run_row instance_id t.now) (run_change instance_id t.now) t h

  pub mark_completed-IsValid : (id : ℕ) → IsValid (mark_completed id t).1
  unfolding mark_completed
  mark_completed-IsValid id = update_where-IsValid (is_row id) completed_row completed_change t h

  pub mark_retry_or_failed-IsValid :
      (id : ℕ) (error : Text) (max_retries : ℤ)
      → IsValid (mark_retry_or_failed id error max_retries t).1
  unfolding mark_retry_or_failed
  mark_retry_or_failed-IsValid id error max_retries =
      update_where-IsValid (is_row id) (retried_row error max_retries t.now)
        (retried_change error max_retries t.now) t h

  pub mark_dead_lettered-IsValid :
      (id : ℕ) (error : Text) → IsValid (mark_dead_lettered id error t).1
  unfolding mark_dead_lettered
  mark_dead_lettered-IsValid id error =
      update_where-IsValid (is_row id) (dead_row error) (dead_change error) t h

  pub release_stale_locks-IsValid : (secs : ℕ) → IsValid (release_stale_locks secs t).1
  unfolding release_stale_locks
  release_stale_locks-IsValid secs =
      update_where-IsValid (is_stale (t.now - secs)) released_row released_change t h

  pub reset_recurring-IsValid : (id next_run_at : ℕ) → IsValid (reset_recurring id next_run_at t).1
  unfolding reset_recurring
  reset_recurring-IsValid id next_run_at =
      update_where-IsValid (is_row id) (reset_row next_run_at) (reset_change next_run_at) t h

  pub cleanup_completed-IsValid : (secs : ℕ) → IsValid (cleanup_completed secs t).1
  unfolding cleanup_completed
  cleanup_completed-IsValid secs =
      kept (λ r. negate (among (take 1000 (select (is_old (t.now - secs)) t.rows)) r))
    where
      kept : (p : Job → Bool) → IsValid (record t { rows = select p t.rows })
      kept p = record {
        locks = Every-select Locks p t.rows h.locks;
        ids = selected-IdsDistinct p t.rows h.ids;
        below = Every-select (λ r. r.id < t.next_id) p t.rows h.below;
        keys = selected-keys_unique p t.rows h.keys;
      }
