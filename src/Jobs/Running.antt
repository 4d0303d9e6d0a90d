-- ===== src/Jobs/Running.antt =====
-- The loops of the runner of persistent jobs (shared/src/jobs/runner.rs): how much it takes, and
-- that the cleanup comes to its end.
use koupang.Prelude.{
  ℕ, zero, suc, ◌+◌, ◌-◌, ◌%◌, ◌^◌, ◌≤◌, ◌≡◌, refl, Bool, true, false, Option, none, some, List, [],
  ◌∷◌, length, ltb, Every, inl, inr, Bool-cases, arith,
}
use koupang.Prelude.Int.{pos}
use koupang.Errors.{AppError}
use koupang.Action.{Outcome, done}
use koupang.Jobs.{Job, JobTable, running}
use koupang.Jobs.Registry
use koupang.Jobs.Registry.{JobRegistry}
use koupang.Jobs.Repository.{claim_batch}
use koupang.Jobs.Runner.{
  JobRunnerConfig, Task, with_task, spawn_all, spawned, claim_up_to, process_available,
}
use koupang.Jobs.Table.{IsValid}
use koupang.Jobs.Claims.{IsClaimed, Takes, claim_batch-Takes}

-- A task that executes a job which this instance now runs, by the handler of its type.
abbrev IsReady : {H : Type 0} → JobRegistry H → ℕ → Task H → Type 0
IsReady registry instance_id x =
    (Registry.get x.job.job_type registry ≡ some x.handler)
    × ((x.job.status ≡ running) × (x.job.locked_by ≡ some instance_id))

module _ {H : Type 0} (registry : JobRegistry H) (config : JobRunnerConfig) where
  spawn_all-IsReady :
      (now : ℕ) (jobs : List Job)
      → Every (IsClaimed config.instance_id now) jobs
      → (length (spawn_all registry jobs) ≤ length jobs)
        × Every (IsReady registry config.instance_id) (spawn_all registry jobs)
  unfolding spawn_all
  spawn_all-IsReady now [] h = (omega arith, tt)
  spawn_all-IsReady now (job ∷ jobs) h =
      let rest = spawn_all-IsReady now jobs h.1 in
      by_handler (Registry.get job.job_type registry) refl rest
    where
      by_handler :
          (found : Option H)
          → Registry.get job.job_type registry ≡ found
          → (length (spawn_all registry jobs) ≤ length jobs)
            × Every (IsReady registry config.instance_id) (spawn_all registry jobs)
          → (length (with_task registry job found (spawn_all registry jobs)) ≤ suc (length jobs))
            × Every
                (IsReady registry config.instance_id)
                (with_task registry job found (spawn_all registry jobs))
      by_handler none e rest = (omega (arith, rest.0), rest.1)
      by_handler (some handler) e rest = (omega (arith, rest.0), ((e, (h.0.0, h.0.1.0)), rest.1))

  abbrev pub Fills : ℕ → List (Task H) → Type 0
  Fills in_flight tasks =
      (in_flight + length tasks ≤ config.max_concurrent_jobs)
      × Every (IsReady registry config.instance_id) tasks

  spawned-Fills :
      (limit in_flight : ℕ) (t : JobTable) (result : Outcome AppError (List Job)) (after : JobTable)
      → Takes limit config.instance_id t result after
      → in_flight + limit ≤ config.max_concurrent_jobs
      → Fills in_flight (spawned registry result)
  spawned-Fills limit in_flight t (done jobs) after c room =
      let ready = spawn_all-IsReady t.now jobs c.1.0 in (omega (arith, ready.0, c.0, room), ready.1)
  spawned-Fills limit in_flight t (Outcome.failed e) after c room = elim c [ ]
  spawned-Fills limit in_flight t Outcome.panicked after c room = elim c [ ]

  -- The runner never has more jobs in flight than it is configured for, and each task that it spawns
  -- executes a job that this instance has just locked, with the handler registered for its type.
  pub process_available-Fills :
      (is_cancelled reached : Bool) (in_flight : ℕ) (t : JobTable)
      → IsValid t
      → in_flight ≤ config.max_concurrent_jobs
      → Fills in_flight (process_available registry config is_cancelled in_flight reached t).0
  unfolding process_available
  process_available-Fills true reached in_flight t h room = (omega (arith, room), tt)
  process_available-Fills false reached in_flight t h room =
      elim (Bool-cases (ltb ((config.max_concurrent_jobs - in_flight) % 2 ^ 32) (2 ^ 31))) [
        | inl e ↦ rw e (
            up_to ((config.max_concurrent_jobs - in_flight) % 2 ^ 32) reached (omega (arith, room)))
        | inr e ↦ rw e (omega (arith, room), tt)
      ]
    where
      up_to :
          (n : ℕ) (reached : Bool)
          → in_flight + n ≤ config.max_concurrent_jobs
          → Fills in_flight (claim_up_to registry config (pos n) reached t).0
      up_to zero reached fits = (omega (arith, room), tt)
      up_to (suc n) false fits = (omega (arith, room), tt)
      up_to (suc n) true fits =
          spawned-Fills (suc n) in_flight t (claim_batch (suc n) config.instance_id t).0
            (claim_batch (suc n) config.instance_id t).1
            (claim_batch-Takes t h (suc n) config.instance_id) fits
