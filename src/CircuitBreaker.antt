-- ===== src/CircuitBreaker.antt =====
-- The circuit breaker of shared/src/circuit_breaker.rs. A clock reading is a number, an argument of
-- the operations that read the clock. The threshold is a fraction, and the ratio of failures is
-- compared exactly.
pub mod Invariant
use koupang.Prelude.{
  ℕ, suc, ◌+◌, ◌-◌, ◌*◌, Bool, true, false, negate, Option, none, some, List, [], ◌∷◌, ◌++◌, length,
  select, leb, ltb, if◌then◌else◌,
}
use koupang.Errors.{Result, ok, err}

pub record CircuitBreakerConfig : Type 0 where
  pub window_size : ℕ
  -- The numerator and the denominator of `failure_threshold`.
  pub threshold_part : ℕ
  pub threshold_whole : ℕ
  pub cooldown : ℕ

pub data BreakerStatus : Type 0 where
  closed opened half_open : BreakerStatus

-- In the window, oldest first, `true` is a success and `false` a retryable failure.
pub record BreakerState : Type 0 where
  pub status : BreakerStatus
  pub window : List Bool
  pub opened_at : Option ℕ

pub data CircuitOpenError : Type 0 where
  circuit_open : CircuitOpenError

abbrev pub initial : BreakerState
initial = record { status = closed; window = []; opened_at = none }

-- `VecDeque::pop_front`, without the element.
abbrev pub pop_front : List Bool → List Bool
pop_front [] = []
pop_front (x ∷ xs) = xs

module _ (config : CircuitBreakerConfig) where
  unfoldable pub push_result : BreakerState → Bool → BreakerState
  push_result state success =
      let window =
        if leb config.window_size (length state.window)
        then pop_front state.window
        else state.window in
      record state { window = window ++ success ∷ [] }

  unfoldable should_trip : BreakerState → Bool
  should_trip state =
      if ltb (length state.window) config.window_size
      then false
      else leb (config.threshold_part * length state.window)
          (length (select negate state.window) * config.threshold_whole)

  -- The cooldown test of an open breaker.
  abbrev pub cooled : ℕ → Option ℕ → Bool
  cooled now none = true
  cooled now (some opened_at) = leb config.cooldown (now - opened_at)

  unfoldable pub check : ℕ → BreakerState → Result CircuitOpenError (Unit {0}) × BreakerState
  check now state = elim state.status [
    | opened ↦
        if cooled now state.opened_at
        then (ok tt, record state { status = half_open })
        else (err circuit_open, state)
    | _ ↦ (ok tt, state)
  ]

  abbrev after_success : BreakerState → BreakerState
  after_success state = elim state.status [
    | half_open ↦ record state { status = closed; opened_at = none }
    | _ ↦ state
  ]

  unfoldable pub record_success : BreakerState → BreakerState
  unfolding push_result
  record_success state = after_success (push_result state true)

  abbrev pub open_at : ℕ → BreakerState → BreakerState
  open_at now state = record state { status = opened; opened_at = some now }

  abbrev after_failure : ℕ → BreakerState → BreakerState
  after_failure now state = elim state.status [
    | half_open ↦ open_at now state
    | closed ↦ if should_trip state then open_at now state else state
    | opened ↦ state
  ]

  unfoldable pub record_retryable_failure : ℕ → BreakerState → BreakerState
  unfolding push_result should_trip
  record_retryable_failure now state = after_failure now (push_result state false)
