-- ===== src/Jobs/Seeding.antt =====
-- Jobs that are inserted twice: shared/src/jobs/repository.rs; and handlers that are registered:
-- shared/src/jobs/registry.rs.
use koupang.Prelude.{
  ◌≡◌, refl, true, false, ◌&&◌, Option, none, some, String, str_eq, eq_iff, List, [], ◌∷◌, ◌++◌,
  if◌then◌else◌, find, is_some, inl, inr, Bool-cases, arith,
}
use koupang.Errors.{AppError, internal_server_error, Result, ok, err}
use koupang.Action.{Outcome}
use koupang.Json.{Value}
use koupang.Strings.{fits_column}
use koupang.Jobs.{Job, JobTable, JobConfig, RecurringJobDefinition}
use koupang.Jobs.Names.{new_job_name}
use koupang.Jobs.Registry.{JobRegistry, get, register, inserted, handler_of, has_type}
use koupang.Jobs.Constraints.{clashes, clear_of}
use koupang.Jobs.Repository.{new_row, enqueue_job, seed_recurring_job}

str_eq_refl : (s : String) → str_eq s s ≡ true
str_eq_refl s = (eq_iff s s).1 refl

-- A row that clashes with the last one.
not_clear_of : (r x : Job) (rs : List Job) → clashes r x ≡ true → clear_of r (rs ++ x ∷ []) ≡ false
not_clear_of r x [] e = rw e refl
not_clear_of r x (y ∷ ys) e = ground (arith, not_clear_of r x ys e)

own_clash : (a b : String) → str_eq a a && str_eq b b ≡ true
own_clash a b = rw (str_eq_refl a, str_eq_refl b) refl

module _ (t : JobTable) where
  -- Seeding a recurring job again, as every instance does when it starts, changes nothing and makes
  -- no second slot.
  seed_recurring_job-twice :
      (def : RecurringJobDefinition)
      → (seed_recurring_job def (seed_recurring_job def t).1).1 ≡ (seed_recurring_job def t).1
  unfolding seed_recurring_job
  seed_recurring_job-twice def =
      let r =
        new_row t def.job_name def.payload (some def.schedule) (some def.dedup_key) def.config in
      elim (Bool-cases (fits_column (some def.dedup_key))) [
        | inr e ↦ rw e refl
        | inl fits ↦ elim (Bool-cases (clear_of r t.rows)) [
          | inl clear ↦
              rw (fits, clear, not_clear_of r r t.rows (own_clash def.job_name def.dedup_key)) refl
          | inr taken ↦ rw (fits, taken, taken) refl
        ]
      ]

  -- A job that is enqueued twice under one name and one dedup key, with nothing in between, is an
  -- internal error the second time, whatever stands in the table: no id is returned.
  pub enqueue_job-duplicate :
      (job_name key : String) (first second : Value) (config : JobConfig)
      → (enqueue_job job_name second
          (some (record config { dedup_key = some key }))
          (enqueue_job job_name first (some (record config { dedup_key = some key })) t).1).0
        ≡ Outcome.failed internal_server_error
  unfolding enqueue_job
  enqueue_job-duplicate job_name key first second config =
      let r =
        new_row t job_name first none (some key) (some (record config { dedup_key = some key })) in
      elim (Bool-cases (fits_column (some key))) [
        | inr e ↦ rw e refl
        | inl fits ↦ elim (Bool-cases (clear_of r t.rows)) [
          | inl clear ↦ rw (fits, clear, not_clear_of r r t.rows (own_clash job_name key)) refl
          | inr taken ↦ rw (fits, taken, taken) refl
        ]
      ]

-- What a registry answers after the registration of a handler under a name.
module _ {H : Type 0} (handler : H) (registry : JobRegistry H) (other : String) where
  abbrev Registers : Result AppError String → Option (JobRegistry H) → Type 0
  Registers (err e) after = after ≡ none
  Registers (ok key) none = is_some (get key registry) ≡ true
  Registers (ok key) (some after) =
      (get key registry ≡ none)
      × (get other after ≡ (if str_eq key other then some handler else get other registry))

  answers : (found : Option (String × H)) → is_some found ≡ is_some (handler_of found)
  answers none = refl
  answers (some entry) = refl

  free : (found : Option (String × H)) → is_some found ≡ false → handler_of found ≡ none
  free none e = refl
  free (some entry) e = absurd (ground (arith, e))

  -- A handler is registered exactly when its type is a job's name that no other handler has; then
  -- it is what the registry gives for that name, and for every other name nothing has changed.
  register-Registers : (raw : String) → Registers (new_job_name raw) (register raw handler registry)
  unfolding register get
  register-Registers raw = by_name (new_job_name raw)
    where
      by_name : (name : Result AppError String) → Registers name (inserted handler registry name)
      by_name (err e) = refl
      by_name (ok key) = elim (Bool-cases (is_some (find (has_type key) registry.handlers))) [
        | inl e ↦ rw e (rw⁻¹ (answers (find (has_type key) registry.handlers)) e)
        | inr e ↦ rw e (
          free (find (has_type key) registry.handlers) e,
          elim (Bool-cases (str_eq key other)) [ inl k ↦ rw k refl | inr k ↦ rw k refl ],
        )
      ]
