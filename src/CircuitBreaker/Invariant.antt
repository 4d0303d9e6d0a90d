-- ===== src/CircuitBreaker/Invariant.antt =====
-- What holds of a circuit breaker after any sequence of operations.
use koupang.Prelude.{
  ℕ, max, ◌-◌, ◌≤◌, ◌<◌, ◌≡◌, ◌⊎◌, refl, Bool, true, false, negate, List, [], ◌∷◌, length,
  length-append, arith, leb, is_some, Bool-cases, inl, inr,
}
use koupang.Errors.{ok, err}
use koupang.CircuitBreaker.{
  CircuitBreakerConfig, BreakerState, BreakerStatus, closed, half_open, circuit_open, pop_front,
  push_result, check, record_success, record_retryable_failure, open_at,
}

abbrev is_closed : BreakerStatus → Bool
is_closed closed = true
is_closed _ = false

-- The window is no longer than its size (or one result), and exactly a breaker that is not closed
-- knows when it opened.
pub record IsConsistent (c : CircuitBreakerConfig) (s : BreakerState) : Type 0 where
  pub bounded : length s.window ≤ max 1 c.window_size
  pub dated : is_some s.opened_at ≡ negate (is_closed s.status)

-- One use of the breaker.
pub data Use : Type 0 where
  checks : ℕ → Use
  succeeds : Use
  fails : ℕ → Use

pop_front-length : (xs : List Bool) → length (pop_front xs) ≡ length xs - 1
pop_front-length [] = ground arith
pop_front-length (x ∷ xs) = ground arith

module _ (c : CircuitBreakerConfig) where
  unfoldable pub use_breaker : Use → BreakerState → BreakerState
  use_breaker (checks now) s = (check c now s).1
  use_breaker succeeds s = record_success c s
  use_breaker (fails now) s = record_retryable_failure c now s

  unfoldable pub use_all : List Use → BreakerState → BreakerState
  use_all [] s = s
  use_all (u ∷ us) s = use_all us (use_breaker u s)

  push_result-bounded :
      (s : BreakerState) (r : Bool)
      → length s.window ≤ max 1 c.window_size
      → length (push_result c s r).window ≤ max 1 c.window_size
  unfolding push_result
  push_result-bounded s r h = elim (Bool-cases (leb c.window_size (length s.window))) [
    | inl e ↦
        rw (e, length-append (pop_front s.window) (r ∷ []))
          (ground (arith, pop_front-length s.window, h, e))
    | inr e ↦ rw (e, length-append s.window (r ∷ [])) (ground (arith, h, e))
  ]

  check-IsConsistent :
      (now : ℕ) (s : BreakerState) → IsConsistent c s → IsConsistent c (check c now s).1
  unfolding check
  check-IsConsistent now s h = record {
    bounded = ground (arith, h.bounded);
    dated = ground (arith, h.dated);
  }

  record_success-IsConsistent :
      (s : BreakerState) → IsConsistent c s → IsConsistent c (record_success c s)
  unfolding record_success push_result
  record_success-IsConsistent s h = record {
    bounded = ground (arith, push_result-bounded s true h.bounded);
    dated = ground (arith, h.dated);
  }

  record_retryable_failure-IsConsistent :
      (now : ℕ) (s : BreakerState)
      → IsConsistent c s
      → IsConsistent c (record_retryable_failure c now s)
  unfolding record_retryable_failure push_result
  record_retryable_failure-IsConsistent now s h = record {
    bounded = ground (arith, push_result-bounded s false h.bounded);
    dated = ground (arith, h.dated);
  }

  -- After any sequence of uses of a consistent breaker, a new one among them, the window is no
  -- longer than its size, or one result, and the breaker knows when it opened just if it is not
  -- closed.
  pub use_all-IsConsistent :
      (us : List Use) (s : BreakerState) → IsConsistent c s → IsConsistent c (use_all us s)
  unfolding use_all use_breaker
  use_all-IsConsistent [] s h = h
  use_all-IsConsistent (checks now ∷ us) s h =
      use_all-IsConsistent us (check c now s).1 (check-IsConsistent now s h)
  use_all-IsConsistent (succeeds ∷ us) s h =
      use_all-IsConsistent us (record_success c s) (record_success-IsConsistent s h)
  use_all-IsConsistent (fails now ∷ us) s h =
      use_all-IsConsistent us (record_retryable_failure c now s)
        (record_retryable_failure-IsConsistent now s h)

  -- A breaker that a probe failure or too many failures opened at some time rejects every call until
  -- its cooldown is over, and stays as it is; the first call after that is let through, and the
  -- breaker is half open.
  open_at-check :
      (opened_time now : ℕ) (s : BreakerState)
      → (now - opened_time < c.cooldown
          × (check c now (open_at c opened_time s) ≡ (err circuit_open, open_at c opened_time s)))
        ⊎ ((c.cooldown ≤ now - opened_time)
            × ((check c now (open_at c opened_time s)).0 ≡ ok tt)
            × ((check c now (open_at c opened_time s)).1.status ≡ half_open))
  unfolding check
  open_at-check t now s = elim (Bool-cases (leb c.cooldown (now - t))) [
    | inl e ↦ inr (ground (arith, e), rw e refl, rw e refl)
    | inr e ↦ inl (ground (arith, e), rw e refl)
  ]
