-- ===== src/Jobs/Marking.antt =====
-- The statements of shared/src/jobs/runner.rs on a running row, which the trigger and the index let
-- through.
use koupang.Prelude.{
  ℕ, ◌≡◌, refl, Bool, true, List, [], ◌∷◌, map, is_some, all_of, Every, inl, inr, Bool-cases,
  Every-implied,
}
use koupang.Action.{done}
use koupang.Jobs.{Job, JobTable, JobStatus, pending, running}
use koupang.Jobs.Constraints.{is_live, status_allowed, updated, allowed, update_where}
use koupang.Jobs.Repository.{is_row, reset_row}
use koupang.Jobs.Table.{
  IsValid, IsChange, Moves, status_allowed-same, updated-keys_unique, update_where_through,
}
use koupang.Jobs.Keeping.{reset_change}

-- The rows with the id of the job are run, for as many attempts as it has, and are scheduled if it is.
abbrev pub RunsAs : Job → Job → Type 0
RunsAs job r =
    is_row job.id r ≡ true
    → (r.status ≡ running)
      × ((is_some r.schedule ≡ is_some job.schedule) × (r.attempts ≡ job.attempts))

from_running :
    (old new : JobStatus) (b : Bool)
    → old ≡ running
    → status_allowed running new b ≡ true
    → status_allowed old new b ≡ true
from_running old new b e h = rw e h

lives : (st : JobStatus) → st ≡ running → is_live st ≡ true
lives st e = rw e refl

module _ (job : Job) (t : JobTable) (h : IsValid t) (runs : Every (RunsAs job) t.rows) where
  -- What the trigger has to allow a running row, of which the change may use what is known of it.
  abbrev pub Leaves : (Job → Job) → Type 0
  Leaves change =
      (r : Job)
      → is_some r.schedule ≡ is_some job.schedule
      → status_allowed running (change r).status (is_some (change r).schedule) ≡ true

  change-Moves :
      (change : Job → Job) (c : IsChange change)
      → Leaves change
      → Every (Moves (is_row job.id) change c t.now) t.rows
  change-Moves change c leaves =
      Every-implied (RunsAs job) (Moves (is_row job.id) change c t.now)
        (λ r k. elim (Bool-cases (is_row job.id r)) [
          | inl e ↦ rw e (
            from_running r.status (change r).status (is_some (change r).schedule) (k e).0
                (leaves r (k e).1.0),
            λ l. lives r.status (k e).0,
          )
          | inr e ↦ rw e (status_allowed-same r.status (is_some r.schedule), λ l. l)
        ])
        t.rows runs

  -- The first statement goes through.
  pub marked :
      (change : Job → Job) (c : IsChange change)
      → Leaves change
      → update_where (is_row job.id) change t
        ≡ (done tt, record t { rows = map (updated (is_row job.id) change t.now) t.rows })
  marked change c leaves =
      update_where_through (is_row job.id) change c t h (change-Moves change c leaves)

  -- So does the second one, and what the first one changed is overwritten.
  pub marked_then_reset :
      (change : Job → Job) (c : IsChange change) (next : ℕ)
      → ((r : Job)
          → is_some r.schedule ≡ is_some job.schedule
          → status_allowed (change r).status pending (is_some (change r).schedule) ≡ true)
      → ((r : Job)
          → updated (is_row job.id) (reset_row next) t.now (updated (is_row job.id) change t.now r)
            ≡ updated (is_row job.id) (reset_row next) t.now r)
      → update_where
          (is_row job.id)
          (reset_row next)
          (record t { rows = map (updated (is_row job.id) change t.now) t.rows })
        ≡ (done tt, record t { rows = map (updated (is_row job.id) (reset_row next) t.now) t.rows })
  unfolding update_where
  marked_then_reset change c next back covers =
      rw (covered t.rows, resettable t.rows runs)
        (rw
          (updated-keys_unique (is_row job.id) (reset_row next) (reset_change next) t.now t.rows
            (change-Moves (reset_row next) (reset_change next) (λ r s. refl)) h.keys)
          refl)
    where
      covered :
          (rs : List Job)
          → map
              (updated (is_row job.id) (reset_row next) t.now)
              (map (updated (is_row job.id) change t.now) rs)
            ≡ map (updated (is_row job.id) (reset_row next) t.now) rs
      covered [] = refl
      covered (r ∷ rs) = rw (covers r, covered rs) refl

      resettable :
          (rs : List Job)
          → Every (RunsAs job) rs
          → all_of
              (allowed (is_row job.id) (reset_row next) t.now)
              (map (updated (is_row job.id) change t.now) rs)
            ≡ true
      resettable [] k = refl
      resettable (r ∷ rs) k = rw (resettable rs k.1) (elim (Bool-cases (is_row job.id r)) [
        | inl e ↦ rw (e, c.same_id r, e, back r (k.0 e).1.0) refl
        | inr e ↦ rw (e, e, status_allowed-same r.status (is_some r.schedule)) refl
      ])
