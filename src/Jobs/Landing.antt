-- ===== src/Jobs/Landing.antt =====
-- Where the row of a job lands after an execution of the job: what the statements of
-- shared/src/jobs/repository.rs leave of it, and what it should be.
use koupang.Prelude.{
  ℕ, ◌+◌, ◌^◌, ◌≢◌, min, leb, sym, List, ◌⊎◌, ==_iff, Every-implied, ◌≡◌, refl, Bool, true, false,
  ◌&&◌, Option, none, some, if◌then◌else◌, Every, inl, inr, Bool-cases, arith,
}
use koupang.Prelude.Int.{ℤ, pos, ◌≤ℤ◌, ◌<ℤ◌}
use koupang.Json.{Text}
use koupang.Jobs.{
  Job, JobStatus, pending, JobSchedule, RecurringFailurePolicy, die, reset_to_next, Execution,
  succeeded, transient, permanent, elapsed, completed, dead_lettered, cron, interval,
}
use koupang.Jobs.Constraints.{updated}
use koupang.Jobs.Repository.{
  is_row, completed_row, retried_row, dead_row, reset_row, exhausted, backoff_secs,
}
use koupang.Jobs.Runner.{CronClock, Task, compute_next_run_at}
use koupang.Jobs.Marking.{RunsAs}

-- The row that the statements of a task leave, as a function of the row before.
abbrev pub reset_or : Job → Option ℕ → Job → Job
reset_or other none r = other
reset_or other (some next) r = reset_row next r

abbrev pub next_of : CronClock → Option JobSchedule → ℕ → Option ℕ
next_of clock none now = none
next_of clock (some s) now = compute_next_run_at clock s now

abbrev pub next_by : RecurringFailurePolicy → Option ℕ → Option ℕ
next_by die next = none
next_by reset_to_next next = next

module _ {H : Type 0} (clock : CronClock) where
  -- The time of the next run that an execution leads to: after a success, or when the attempts of
  -- a recurring job are spent and its policy resets it.
  abbrev pub next_after : Task H → Execution → ℕ → Option ℕ
  next_after x succeeded now = next_of clock x.schedule now
  next_after x (transient msg) now =
      if x.is_recurring && exhausted x.job.attempts x.job.max_retries
      then next_by x.failure_policy (next_of clock x.schedule now)
      else none
  next_after x _ now = none

  -- The row otherwise.
  abbrev pub mark_of : Task H → Execution → ℕ → Job → Job
  mark_of x succeeded now r = completed_row r
  mark_of x (transient msg) now r = retried_row msg x.job.max_retries now r
  mark_of x (permanent msg) now r = dead_row msg r
  mark_of x elapsed now r = r

-- The next tick of a schedule, if there is one: cron's, or the time of now and the interval, which
-- may not be longer than chrono's longest duration.
abbrev next_tick : CronClock → Option JobSchedule → ℕ → Option ℕ
next_tick clock none now = none
next_tick clock (some (cron s)) now = clock.upcoming s now
next_tick clock (some (interval secs)) now =
    if leb secs 9223372036854775 then some (now + secs) else none

next_of-tick :
    (clock : CronClock) (schedule : Option JobSchedule) (now : ℕ)
    → next_of clock schedule now ≡ next_tick clock schedule now
next_of-tick clock none now = refl
next_of-tick clock (some (cron s)) now = refl
next_of-tick clock (some (interval secs)) now = ground arith

-- The row has the status and is not locked.
abbrev Freed : JobStatus → Job → Job → Type 0
Freed status r r' =
    (r'.id ≡ r.id) × ((r'.status ≡ status) × ((r'.locked_by ≡ none) × (r'.locked_at ≡ none)))

-- The row waits for its next run with no attempt counted.
abbrev Reset : ℕ → Job → Job → Type 0
Reset next r r' = Freed pending r r' × ((r'.next_run_at ≡ next) × (r'.attempts ≡ 0))

-- The message of a failure, and the attempts that are counted.
abbrev Noted : Text → Job → Job → Type 0
Noted msg r r' = (r'.last_error ≡ some msg) × (r'.attempts ≡ r.attempts)

module _ {H : Type 0} (clock : CronClock) (x : Task H) (now : ℕ) where
  -- Where the row `r` of the job of a task should land after an execution.
  pub data Lands (r : Job) : Execution → Job → Type 0 where
    completes :
        (r' : Job)
        → next_tick clock x.schedule now ≡ none
        → Freed completed r r'
        → r'.attempts ≡ r.attempts
        → Lands r succeeded r'
    reschedules :
        (r' : Job) (next : ℕ)
        → next_tick clock x.schedule now ≡ some next
        → Reset next r r'
        → Lands r succeeded r'
    retries :
        (msg : Text) (r' : Job)
        → pos x.job.attempts <ℤ x.job.max_retries
        → Freed pending r r'
        → r'.next_run_at ≡ now + 2 ^ min x.job.attempts 10
        → Noted msg r r'
        → Lands r (transient msg) r'
    fails :
        (msg : Text) (r' : Job)
        → x.job.max_retries ≤ℤ pos x.job.attempts
        → (x.is_recurring ≡ false)
          ⊎ ((x.failure_policy ≡ die) ⊎ (next_tick clock x.schedule now ≡ none))
        → Freed JobStatus.failed r r'
        → Noted msg r r'
        → Lands r (transient msg) r'
    resets :
        (msg : Text) (r' : Job) (next : ℕ)
        → x.job.max_retries ≤ℤ pos x.job.attempts
        → x.is_recurring ≡ true
        → x.failure_policy ≡ reset_to_next
        → next_tick clock x.schedule now ≡ some next
        → Reset next r r'
        → Lands r (transient msg) r'
    dies :
        (msg : Text) (r' : Job)
        → Freed dead_lettered r r'
        → Noted msg r r'
        → Lands r (permanent msg) r'

  -- The rows with the id of the job land, the others stay.
  pub data Settled (e : Execution) (r r' : Job) : Type 0 where
    own : r.id ≡ x.job.id → Lands r e r' → Settled e r r'
    other : r.id ≢ x.job.id → r' ≡ r → Settled e r r'

  -- The row that the statements leave.
  abbrev left : Execution → Job → Job
  left e r = record (reset_or (mark_of clock x e now r) (next_after clock x e now) r) {
    updated_at = now;
  }

  pub succeeded-Lands : (r : Job) → Lands r succeeded (left succeeded r)
  succeeded-Lands r = by_tick (next_of clock x.schedule now) (next_of-tick clock x.schedule now)
    where
      by_tick :
          (next : Option ℕ)
          → next ≡ next_tick clock x.schedule now
          → Lands r succeeded (record (reset_or (completed_row r) next r) { updated_at = now })
      by_tick none e = completes _ (sym e) (refl, (refl, (refl, refl))) refl
      by_tick (some n) e = reschedules _ n (sym e) ((refl, (refl, (refl, refl))), (refl, refl))

  not_exhausted : (a : ℕ) (m : ℤ) → exhausted a m ≡ false → pos a <ℤ m
  not_exhausted a m e = ground (arith, e)

  is_exhausted : (a : ℕ) (m : ℤ) → exhausted a m ≡ true → m ≤ℤ pos a
  is_exhausted a m e = ground (arith, e)

  -- The row after a transient failure: whether its own attempts are spent, and the job's.
  abbrev after_transient : Text → Bool → Bool → Bool → RecurringFailurePolicy → Option ℕ → Job → Job
  after_transient msg row_spent spent recurring policy next r =
      let retried : Job = record r {
        status = if row_spent then JobStatus.failed else pending;
        next_run_at = if row_spent then r.next_run_at else now + backoff_secs r.attempts;
        last_error = some msg;
        locked_by = none;
        locked_at = none;
      } in
      record (reset_or retried (if recurring && spent then next_by policy next else none) r) {
        updated_at = now;
      }

  module _ (msg : Text) (r : Job) (same : r.attempts ≡ x.job.attempts) where
    spent-Lands :
        (recurring : Bool) (policy : RecurringFailurePolicy) (next : Option ℕ)
        → exhausted x.job.attempts x.job.max_retries ≡ true
        → x.is_recurring ≡ recurring
        → x.failure_policy ≡ policy
        → next ≡ next_tick clock x.schedule now
        → Lands r (transient msg) (after_transient msg true true recurring policy next r)
    spent-Lands false policy next e q p n =
        fails msg _ (is_exhausted x.job.attempts x.job.max_retries e) (inl q)
          (refl, (refl, (refl, refl))) (refl, refl)
    spent-Lands true die next e q p n =
        fails msg _ (is_exhausted x.job.attempts x.job.max_retries e) (inr (inl p))
          (refl, (refl, (refl, refl))) (refl, refl)
    spent-Lands true reset_to_next none e q p n =
        fails msg _ (is_exhausted x.job.attempts x.job.max_retries e) (inr (inr (sym n)))
          (refl, (refl, (refl, refl))) (refl, refl)
    spent-Lands true reset_to_next (some next) e q p n =
        resets msg _ next (is_exhausted x.job.attempts x.job.max_retries e) q p (sym n)
          ((refl, (refl, (refl, refl))), (refl, refl))

    again-Lands :
        (recurring : Bool) (policy : RecurringFailurePolicy) (next : Option ℕ)
        → exhausted x.job.attempts x.job.max_retries ≡ false
        → Lands r (transient msg) (after_transient msg false false recurring policy next r)
    again-Lands true policy next e =
        retries msg _ (not_exhausted x.job.attempts x.job.max_retries e)
          (refl, (refl, (refl, refl))) (rw same refl) (refl, refl)
    again-Lands false policy next e =
        retries msg _ (not_exhausted x.job.attempts x.job.max_retries e)
          (refl, (refl, (refl, refl))) (rw same refl) (refl, refl)

    pub transient-Lands : Lands r (transient msg) (left (transient msg) r)
    transient-Lands = by_attempts _ _ refl refl
      where
        by_attempts :
            (row_spent spent : Bool)
            → exhausted r.attempts x.job.max_retries ≡ row_spent
            → exhausted x.job.attempts x.job.max_retries ≡ spent
            → Lands r (transient msg) (
                after_transient msg row_spent spent x.is_recurring x.failure_policy
                  (next_of clock x.schedule now)
                  r)
        by_attempts true true row e =
            spent-Lands x.is_recurring x.failure_policy (next_of clock x.schedule now) e refl refl
              (next_of-tick clock x.schedule now)
        by_attempts false false row e =
            again-Lands x.is_recurring x.failure_policy (next_of clock x.schedule now) e
        by_attempts true false row e = absurd (ground (arith, (rw same at row), e))
        by_attempts false true row e = absurd (ground (arith, (rw same at row), e))

  -- The statements of an execution that sends any leave each row where it should be.
  pub landed :
      (e : Execution)
      → ((r : Job) → r.attempts ≡ x.job.attempts → Lands r e (left e r))
      → (rs : List Job) → Every (RunsAs x.job) rs
      → Every
          (λ r. Settled e r (
            updated
              (is_row x.job.id)
              (λ r'. reset_or (mark_of clock x e now r') (next_after clock x e now) r')
              now
              r))
          rs
  landed e lands rs runs =
      Every-implied (RunsAs x.job)
        (λ r. Settled e r (
          updated (is_row x.job.id)
            (λ r'. reset_or (mark_of clock x e now r') (next_after clock x e now) r') now r))
        (λ r k. elim (Bool-cases (is_row x.job.id r)) [
          | inl q ↦ rw q (own ((==_iff r.id x.job.id).0 q) (lands r (k q).1.1))
          | inr q ↦ rw q (other (λ same. absurd (ground (arith, q, same))) refl)
        ])
        rs runs

  pub permanent-Lands : (msg : Text) (r : Job) → Lands r (permanent msg) (left (permanent msg) r)
  permanent-Lands msg r = dies msg _ (refl, (refl, (refl, refl))) (refl, refl)
