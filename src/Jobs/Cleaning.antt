-- ===== src/Jobs/Cleaning.antt =====
-- The cleanup loop of the runner of persistent jobs (shared/src/jobs/runner.rs) comes to its end.
use koupang.Prelude.{
  ℕ, zero, suc, ◌+◌, ◌-◌, ◌≤◌, ◌<◌, ◌≡◌, refl, ap, Bool, true, false, negate, Option, none, some,
  List, [], ◌∷◌, length, select, ==_iff, Every, ◌⊎◌, inl, inr, Bool-cases, arith, take, Every-take,
  Every-select,
}
use koupang.Action.{done}
use koupang.Jobs.{Job, JobTable}
use koupang.Jobs.Repository.{cleanup_completed, is_old, among}
use koupang.Jobs.Runner.{JobRunnerConfig, cleaned, cleanup_batches}

length-select : (p : Job → Bool) (rs : List Job) → length (select p rs) ≤ length rs
length-select p [] = omega arith
length-select p (r ∷ rs) = elim (Bool-cases (p r)) [
  | inl e ↦ rw e (omega (arith, length-select p rs))
  | inr e ↦ rw e (omega (arith, length-select p rs))
]

-- Either a row goes, or every row passes.
select_shrinks :
    (p : Job → Bool) (rs : List Job)
    → (length (select p rs) < length rs) ⊎ Every (λ r. p r ≡ true) rs
select_shrinks p [] = inr tt
select_shrinks p (r ∷ rs) = elim (Bool-cases (p r)) [
  | inl e ↦ elim (select_shrinks p rs) [
    | inl l ↦ inl (rw e (omega (arith, l)))
    | inr h ↦ inr (e, h)
  ]
  | inr e ↦ inl (rw e (omega (arith, length-select p rs)))
]

-- The rows that a batch deletes.
abbrev batch_of : ℕ → JobTable → List Job
batch_of max_age_secs t = take 1000 (select (is_old (t.now - max_age_secs)) t.rows)

abbrev left_of : ℕ → JobTable → List Job
left_of max_age_secs t = select (λ r. negate (among (batch_of max_age_secs t) r)) t.rows

-- A batch that deletes something makes the table shorter.
batch_shrinks :
    (max_age_secs n : ℕ) (t : JobTable)
    → length (batch_of max_age_secs t) ≡ suc n
    → length (left_of max_age_secs t) < length t.rows
batch_shrinks max_age_secs n t e =
    elim (select_shrinks (λ r. negate (among (batch_of max_age_secs t) r)) t.rows) [
      | inl l ↦ l
      | inr h ↦ absurd (
          nothing (batch_of max_age_secs t) e (
            Every-take (λ r. negate (among (batch_of max_age_secs t) r) ≡ true) 1000
              (select (is_old (t.now - max_age_secs)) t.rows)
              (Every-select (λ r. negate (among (batch_of max_age_secs t) r) ≡ true)
                (is_old (t.now - max_age_secs)) t.rows h)))
    ]
  where
    nothing :
        (gone : List Job) → length gone ≡ suc n → Every (λ r. negate (among gone r) ≡ true) gone → ⊥
    nothing [] e h = omega (arith, e)
    nothing (r ∷ rs) e h = ground (arith, h.0, (==_iff r.id r.id).1 refl)

none_left : (p q : Job → Bool) (rs : List Job) → select p rs ≡ [] → select p (select q rs) ≡ []
none_left p q [] e = refl
none_left p q (r ∷ rs) e = elim (Bool-cases (p r)) [
  | inl k ↦ absurd (ground (arith, ap length (rw k at e)))
  | inr k ↦ elim (Bool-cases (q r)) [
    | inl l ↦ rw (l, k) (none_left p q rs (rw k at e))
    | inr l ↦ rw l (none_left p q rs (rw k at e))
  ]
]

abbrev pub Finishes : ℕ → Option (ℕ × JobTable) → Type 0
Finishes limit none = ⊥
Finishes limit (some (total, after)) = select (is_old limit) after.rows ≡ []

-- If the shutdown does not come and the database takes every batch, the loop ends within as many
-- rounds as the table has rows and one more, and then no completed job is older than the limit.
pub cleanup_batches-Finishes :
    (config : JobRunnerConfig) (fuel total : ℕ) (t : JobTable)
    → length t.rows < fuel
    → Finishes
        (t.now - config.cleanup_max_age)
        (cleanup_batches config (λ n. false) (λ n. true) fuel total t)
unfolding cleanup_batches cleanup_completed
cleanup_batches-Finishes config zero total t enough = absurd (omega (arith, enough))
cleanup_batches-Finishes config (suc fuel) total t enough =
    by_batch (length (batch_of config.cleanup_max_age t)) refl (λ sum small.
      cleanup_batches-Finishes config fuel sum
        (record t { rows = left_of config.cleanup_max_age t }) small)
  where
    emptied : (rs : List Job) → length (take 1000 rs) ≡ 0 → rs ≡ []
    emptied [] e = refl
    emptied (r ∷ rs) e = absurd (omega (arith, e))

    by_batch :
        (n : ℕ)
        → length (batch_of config.cleanup_max_age t) ≡ n
        → ((sum : ℕ)
            → length (left_of config.cleanup_max_age t) < fuel
            → Finishes (t.now - config.cleanup_max_age) (
                cleanup_batches config
                  (λ n. false)
                  (λ n. true)
                  fuel
                  sum
                  (record t { rows = left_of config.cleanup_max_age t })))
        → Finishes (t.now - config.cleanup_max_age) (
            cleaned
              (done n)
              total
              (record t { rows = left_of config.cleanup_max_age t })
              (λ (sum : ℕ).
                cleanup_batches config
                  (λ n. false)
                  (λ n. true)
                  fuel
                  sum
                  (record t { rows = left_of config.cleanup_max_age t })))
    by_batch zero e again =
        none_left (is_old (t.now - config.cleanup_max_age))
          (λ r. negate (among (batch_of config.cleanup_max_age t) r)) t.rows
          (emptied (select (is_old (t.now - config.cleanup_max_age)) t.rows) e)
    by_batch (suc n) e again =
        again (total + suc n) (omega (arith, enough, batch_shrinks config.cleanup_max_age n t e))
