-- ===== src/Jobs/Claims.antt =====
-- What `claim_batch` of shared/src/jobs/repository.rs takes from the table of jobs.
use koupang.Prelude.{
  ℕ, ◌≤◌, ◌<◌, ◌≡◌, ◌≢◌, refl, sym, Bool, true, false, some, List, [], ◌∷◌, map, length, min,
  select, ◌==◌, ==_iff, is_some, Every, inl, inr, Bool-cases, arith, Every-mapped, Every-implied,
  Every-select, Every-member, Mem, mem-map_of_mem, subst, ◌+◌, take, length-take, length-map,
  Every-take, Every-both, select-Every,
}
use koupang.Errors.{AppError}
use koupang.Action.{Outcome, done}
use koupang.Jobs.{Job, JobTable, JobStatus, pending, running, completed, dead_lettered}
use koupang.Jobs.Constraints.{is_pending, is_live, updated, status_allowed}
use koupang.Jobs.Repository.{is_due, sort_by_run, run_row, among, claim_batch}
use koupang.Jobs.Table.{IsValid, IdsDistinct, Moves, status_allowed-same, update_where_through}
use koupang.Jobs.Keeping.{run_change}
use koupang.Jobs.Sorting.{
  Every-sorted, Every-unsorted, Every-unselected, sort_by_run-Sorted, length-sort_by_run,
  taken_first,
}

-- A job that was due and is now run by the instance.
abbrev pub IsClaimed : ℕ → ℕ → Job → Type 0
IsClaimed instance_id now r =
    (r.status ≡ running)
    × ((r.locked_by ≡ some instance_id)
        × ((r.locked_at ≡ some now) × ((r.next_run_at ≤ now) × (0 < r.attempts))))

-- No row that is still due ran before a claimed one.
abbrev Fair : ℕ → List Job → JobTable → Type 0
Fair now jobs t =
    Every (λ r. is_due now r ≡ true → Every (λ job. job.next_run_at ≤ r.next_run_at) jobs) t.rows

-- The row of a claimed job, before the claim: due, and with one attempt less.
abbrev Waited : ℕ → JobTable → Job → Type 0
Waited now t job =
    (r : Job) × Mem r t.rows
    × ((job.id ≡ r.id) × ((is_due now r ≡ true) × (job.attempts ≡ r.attempts + 1)))

abbrev pub Takes : ℕ → ℕ → JobTable → Outcome AppError (List Job) → JobTable → Type 0
Takes limit instance_id t (done jobs) after =
    (length jobs ≡ min limit (length (select (is_due t.now) t.rows)))
    × (Every (IsClaimed instance_id t.now) jobs
        × (Fair t.now jobs after
            × (Every (Waited t.now t) jobs × Every (λ job. Mem job after.rows) jobs)))
Takes limit instance_id t _ after = ⊥

-- A row as the claim leaves and returns it.
abbrev started : ℕ → ℕ → Job → Job
started instance_id now r = record (run_row instance_id now r) { updated_at = now }

-- The rows that a claim takes.
abbrev claimed : ℕ → JobTable → List Job
claimed limit t = take limit (sort_by_run (select (is_due t.now) t.rows))

-- The rows of a list are among them.
Every-among : (rs : List Job) → Every (λ r. among rs r ≡ true) rs
Every-among [] = tt
Every-among (r ∷ rs) = (
  first r.id rs,
  Every-implied (λ x. among rs x ≡ true) (λ x. among (r ∷ rs) x ≡ true)
      (λ x k. elim (Bool-cases (r.id == x.id)) [ inl e ↦ rw e refl | inr e ↦ rw e k ]) rs
      (Every-among rs),
)
  where
    first : (i : ℕ) (l : List Job) → among (r ∷ l) r ≡ true
    first i l = rw ((==_iff r.id r.id).1 refl) refl

module _ (now : ℕ) where
  -- If the id is that of a due row, so is the row.
  abbrev DueAs : Job → Job → Type 0
  DueAs r x = is_due now x ≡ true → x.id ≡ r.id → is_due now r ≡ true

  due_by_id : (rs : List Job) → IdsDistinct rs → Every (λ r. Every (DueAs r) rs) rs
  due_by_id [] h = tt
  due_by_id (y ∷ ys) h = (
    (λ d e. d, Every-implied (λ x. x.id ≢ y.id) (DueAs y) (λ x k d e. absurd (k e)) ys h.0),
    Every-implied (λ r. (r.id ≢ y.id) × Every (DueAs r) ys) (λ r. Every (DueAs r) (y ∷ ys))
        (λ r k. (λ d e. absurd (k.0 (sym e)), k.1)) ys
        (Every-both (λ r. r.id ≢ y.id) (λ r. Every (DueAs r) ys) ys h.0 (due_by_id ys h.1)),
  )

  among-due :
      (r : Job) (rs : List Job)
      → Every (λ x. is_due now x ≡ true) rs
      → Every (DueAs r) rs
      → among rs r ≡ true
      → is_due now r ≡ true
  among-due r [] d k e = absurd (ground (arith, e))
  among-due r (x ∷ xs) d k e = elim (Bool-cases (x.id == r.id)) [
    | inl same ↦ k.0 d.0 ((==_iff x.id r.id).0 same)
    | inr other ↦ among-due r xs d.1 k.1 (rw other at e)
  ]

module _ (t : JobTable) (h : IsValid t) (limit instance_id : ℕ) where
  claimed-due : Every (λ r. is_due t.now r ≡ true) (claimed limit t)
  claimed-due =
      Every-take (λ r. is_due t.now r ≡ true) limit (sort_by_run (select (is_due t.now) t.rows))
        (Every-sorted (λ r. is_due t.now r ≡ true) (select (is_due t.now) t.rows)
          (select-Every (is_due t.now) t.rows))

  claims_due : Every (λ r. among (claimed limit t) r ≡ true → is_due t.now r ≡ true) t.rows
  claims_due =
      Every-implied (λ r. Every (DueAs t.now r) t.rows)
        (λ r. among (claimed limit t) r ≡ true → is_due t.now r ≡ true)
        (λ r k. among-due t.now r (claimed limit t) claimed-due (
          Every-take (DueAs t.now r) limit (sort_by_run (select (is_due t.now) t.rows)) (
            Every-sorted (DueAs t.now r) (select (is_due t.now) t.rows)
              (Every-select (DueAs t.now r) (is_due t.now) t.rows k))))
        t.rows (due_by_id t.now t.rows h.ids)

  claim_batch-Moves :
      Every
        (Moves
          (among (claimed limit t))
          (run_row instance_id t.now)
          (run_change instance_id t.now)
          t.now)
        t.rows
  claim_batch-Moves =
      Every-implied (λ r. among (claimed limit t) r ≡ true → is_due t.now r ≡ true)
        (Moves (among (claimed limit t)) (run_row instance_id t.now) (run_change instance_id t.now)
          t.now)
        (λ r k. elim (Bool-cases (among (claimed limit t) r)) [
          | inl e ↦ rw e (starts r.status (is_some r.schedule) (ground (arith, k e)))
          | inr e ↦ rw e (status_allowed-same r.status (is_some r.schedule), λ l. l)
        ])
        t.rows claims_due
    where
      starts :
          (st : JobStatus) (b : Bool)
          → is_pending st ≡ true
          → (status_allowed st running b ≡ true) × (is_live running ≡ true → is_live st ≡ true)
      starts pending b e = (refl, λ l. refl)
      starts running b e = absurd (ground (arith, e))
      starts completed b e = absurd (ground (arith, e))
      starts JobStatus.failed b e = absurd (ground (arith, e))
      starts dead_lettered b e = absurd (ground (arith, e))
      starts JobStatus.cancelled b e = absurd (ground (arith, e))

  -- A row that is still due was not taken.
  claimed-Fair : Fair t.now (map (started instance_id t.now) (claimed limit t)) (record t {
    rows = map (updated (among (claimed limit t)) (run_row instance_id t.now) t.now) t.rows;
  })
  claimed-Fair =
      Every-mapped
        (λ r.
          is_due t.now r ≡ true
          → among (claimed limit t) r ≡ false
          → Every (λ job. job.next_run_at ≤ r.next_run_at) (claimed limit t))
        (λ r.
          is_due t.now r ≡ true
          → Every (λ job. job.next_run_at ≤ r.next_run_at)
              (map (started instance_id t.now) (claimed limit t)))
        (updated (among (claimed limit t)) (run_row instance_id t.now) t.now)
        (λ r k. elim (Bool-cases (among (claimed limit t) r)) [
          | inl e ↦ rw e (λ d. absurd (ground (arith, d)))
          | inr e ↦ rw e (λ d.
              Every-mapped (λ job. job.next_run_at ≤ r.next_run_at)
                (λ job. job.next_run_at ≤ r.next_run_at) (started instance_id t.now) (λ job l. l)
                (claimed limit t) (k d e))
        ])
        t.rows
        (Every-unselected
          (λ r.
            among (claimed limit t) r ≡ false
            → Every (λ job. job.next_run_at ≤ r.next_run_at) (claimed limit t))
          (is_due t.now) t.rows
          (Every-unsorted
            (λ r.
              among (claimed limit t) r ≡ false
              → Every (λ job. job.next_run_at ≤ r.next_run_at) (claimed limit t))
            (select (is_due t.now) t.rows)
            (taken_first limit (sort_by_run (select (is_due t.now) t.rows))
              (sort_by_run-Sorted (select (is_due t.now) t.rows)))))

  started-IsClaimed :
      (rs : List Job)
      → Every (λ r. is_due t.now r ≡ true) rs
      → Every (IsClaimed instance_id t.now) (map (started instance_id t.now) rs)
  started-IsClaimed rs d =
      Every-mapped (λ r. is_due t.now r ≡ true) (IsClaimed instance_id t.now)
        (started instance_id t.now)
        (λ r e. (refl, (refl, (refl, (ground (arith, e), omega arith))))) rs d

  claimed-Mem : Every (λ r. Mem r t.rows) (claimed limit t)
  claimed-Mem =
      Every-take (λ r. Mem r t.rows) limit (sort_by_run (select (is_due t.now) t.rows))
        (Every-sorted (λ r. Mem r t.rows) (select (is_due t.now) t.rows)
          (Every-select (λ r. Mem r t.rows) (is_due t.now) t.rows (Every-member t.rows)))

  claimed-Waited : Every (Waited t.now t) (map (started instance_id t.now) (claimed limit t))
  claimed-Waited =
      Every-mapped (λ r. (is_due t.now r ≡ true) × Mem r t.rows) (Waited t.now t)
        (started instance_id t.now) (λ r k. (r, k.1, (refl, (k.0, refl)))) (claimed limit t)
        (Every-both (λ r. is_due t.now r ≡ true) (λ r. Mem r t.rows) (claimed limit t) claimed-due
          claimed-Mem)

  -- The jobs that are returned are rows of the table after the claim.
  claimed-stand :
      Every
        (λ job.
          Mem job
            (map (updated (among (claimed limit t)) (run_row instance_id t.now) t.now) t.rows))
        (map (started instance_id t.now) (claimed limit t))
  claimed-stand =
      Every-mapped (λ r. Mem r t.rows × (among (claimed limit t) r ≡ true))
        (λ job.
          Mem job
            (map (updated (among (claimed limit t)) (run_row instance_id t.now) t.now) t.rows))
        (started instance_id t.now)
        (λ r k.
          subst
            (λ x.
              Mem x
                (map (updated (among (claimed limit t)) (run_row instance_id t.now) t.now) t.rows))
            (rw k.1 refl)
            (mem-map_of_mem (updated (among (claimed limit t)) (run_row instance_id t.now) t.now)
              k.0))
        (claimed limit t)
        (Every-both (λ r. Mem r t.rows) (λ r. among (claimed limit t) r ≡ true) (claimed limit t)
          claimed-Mem (Every-among (claimed limit t)))

  -- On a valid table a claim succeeds: it returns as many jobs as are due, or `limit` of them if
  -- there are more. Each of them was a due row of the table, and now stands in the table as it is
  -- returned, run and locked by the instance, with one attempt more than before. No job that is
  -- still due afterwards was to run before one of them.
  pub claim_batch-Takes :
      Takes limit instance_id t
        (claim_batch limit instance_id t).0
        (claim_batch limit instance_id t).1
  unfolding claim_batch
  claim_batch-Takes =
      rw
        (update_where_through (among (claimed limit t)) (run_row instance_id t.now)
          (run_change instance_id t.now) t h claim_batch-Moves)
        (
          omega (
            arith,
            length-map (started instance_id t.now) (claimed limit t),
            length-take limit (sort_by_run (select (is_due t.now) t.rows)),
            length-sort_by_run (select (is_due t.now) t.rows),
          ),
          (
            started-IsClaimed (claimed limit t) claimed-due,
            (claimed-Fair, (claimed-Waited, claimed-stand)),
          ),
        )
