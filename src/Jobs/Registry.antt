-- ===== src/Jobs/Registry.antt =====
-- The registry of job handlers: shared/src/jobs/registry.rs. The type of the handlers is a
-- parameter; a `none` is the panic of a registration that the code refuses.
use koupang.Prelude.{
  Bool, Option, none, some, String, str_eq, List, [], ◌∷◌, ◌++◌, if◌then◌else◌, is_some, find,
}
use koupang.Errors.{AppError, Result, ok, err}
use koupang.Jobs.{RecurringJobDefinition}
use koupang.Jobs.Names.{new_job_name}

pub record JobRegistry (H : Type 0) : Type 0 where
  pub handlers : List (String × H)
  pub recurring : List RecurringJobDefinition

module _ {H : Type 0} where
  abbrev pub new : JobRegistry H
  new = record { handlers = []; recurring = [] }

  abbrev pub has_type : String → String × H → Bool
  has_type job_type entry = str_eq entry.0 job_type

  abbrev pub handler_of : Option (String × H) → Option H
  handler_of none = none
  handler_of (some entry) = some entry.1

  unfoldable pub get : String → JobRegistry H → Option H
  get job_type registry = handler_of (find (has_type job_type) registry.handlers)

  abbrev pub inserted : H → JobRegistry H → Result AppError String → Option (JobRegistry H)
  inserted handler registry (err e) = none
  inserted handler registry (ok key) =
      if is_some (find (has_type key) registry.handlers)
      then none
      else some (record registry { handlers = (key, handler) ∷ registry.handlers })

  unfoldable pub register : String → H → JobRegistry H → Option (JobRegistry H)
  register raw handler registry = inserted handler registry (new_job_name raw)

  unfoldable register_recurring : RecurringJobDefinition → JobRegistry H → Option (JobRegistry H)
  register_recurring def registry =
      if is_some (find (has_type def.job_name) registry.handlers)
      then some (record registry { recurring = registry.recurring ++ def ∷ [] })
      else none
