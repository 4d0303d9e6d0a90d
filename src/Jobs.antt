-- ===== src/Jobs.antt =====
-- The persistent jobs: shared/src/jobs/types.rs and the table of
-- shared/tests/migrations/000004_persistent_jobs.sql. A table's clock is the `NOW()` of the
-- statement that runs, in seconds. The `schedule` column holds the schedule itself instead of its
-- text, of which the program reads only whether it is there.
pub mod Names
pub mod Registry
pub mod Constraints
pub mod Repository
pub mod Runner
mod Rows
pub mod Keeping
pub mod Histories
mod Sorting
pub mod Claims
pub mod Marking
mod Landing
pub mod Settling
pub mod Running
pub mod Cleaning
pub mod Seeding
pub mod Table
use koupang.Prelude.{ℕ, ◌+◌, ◌-◌, ◌^◌, ltb, Option, none, some, String, List, if◌then◌else◌}
use koupang.Prelude.Int.{ℤ, pos, negsuc}
use koupang.Json.{Text, Value}

pub data JobStatus : Type 0 where
  pending running completed failed dead_lettered cancelled : JobStatus

-- What the execution of a handler comes to: its result, or the time limit.
pub data Execution : Type 0 where
  succeeded : Execution
  transient : Text → Execution
  permanent : Text → Execution
  elapsed : Execution

-- A cron expression stands for its parse, an interval for its seconds.
pub data JobSchedule : Type 0 where
  cron : ℕ → JobSchedule
  interval : ℕ → JobSchedule

pub data RecurringFailurePolicy : Type 0 where
  die reset_to_next : RecurringFailurePolicy

pub data DedupStrategy : Type 0 where
  skip enqueue replace : DedupStrategy

pub record JobConfig : Type 0 where
  pub max_retries : Option ℕ
  pub timeout_seconds : Option ℕ
  pub dedup_strategy : DedupStrategy
  pub dedup_key : Option String

pub record RecurringJobDefinition : Type 0 where
  pub job_name : String
  pub schedule : JobSchedule
  pub payload : Value
  pub dedup_key : String
  pub config : Option JobConfig
  pub failure_policy : RecurringFailurePolicy

pub record Job : Type 0 where
  pub id : ℕ
  pub job_type : String
  pub payload : Value
  pub status : JobStatus
  pub schedule : Option JobSchedule
  pub dedup_key : Option String
  pub max_retries : ℤ
  pub timeout_seconds : ℤ
  pub attempts : ℕ
  pub last_error : Option Text
  pub locked_by : Option ℕ
  pub locked_at : Option ℕ
  pub next_run_at : ℕ
  pub created_at : ℕ
  pub updated_at : ℕ

pub record JobTable : Type 0 where
  pub rows : List Job
  pub next_id : ℕ
  pub now : ℕ

-- `as i32` of a number that fits 32 bits.
abbrev pub as_i32 : ℕ → ℤ
as_i32 n = if ltb n (2 ^ 31) then pos n else negsuc (2 ^ 32 - (n + 1))

abbrev pub config_retries : Option JobConfig → Option ℕ
config_retries none = none
config_retries (some c) = c.max_retries

abbrev pub config_timeout : Option JobConfig → Option ℕ
config_timeout none = none
config_timeout (some c) = c.timeout_seconds

abbrev pub config_dedup_key : Option JobConfig → Option String
config_dedup_key none = none
config_dedup_key (some c) = c.dedup_key

-- `Option::unwrap_or`.
abbrev pub or_default : Option ℕ → ℕ → ℕ
or_default none d = d
or_default (some n) d = n
