-- ===== src/Payment/Breaker.antt =====
-- The gateway behind a circuit breaker: payment/src/gateway/circuit_breaker.rs. A call reads the
-- clock before the inner call, at `now`, and after it, at `later`.
use Prim.Native.String.{String}
use koupang.Prelude.{ℕ, true, Option, none, some, List, ◌∷◌, if◌then◌else◌}
use koupang.Prelude.Int.{ℤ}
use koupang.Errors.{Result, ok, err}
use koupang.Json.{Text, lit}
use koupang.CircuitBreaker.{
  CircuitBreakerConfig, BreakerState, check, record_success, record_retryable_failure,
}
use koupang.Payment.Types.{IdempotencyKey, GatewayAuthResult, GatewayStatus, GatewayError}
use koupang.Payment.Gateway.{GatewayCall, authorizes, captures, voids, refunds, PaymentGateway}

-- The calls that the inner gateway has had, newest first, and the breaker.
pub record CircuitBreakerGateway : Type 0 where
  pub calls : List GatewayCall
  pub breaker : BreakerState

abbrev pub circuit_open_error : GatewayError
circuit_open_error = record {
  code = lit "CIRCUIT_OPEN";
  message = lit "Circuit breaker is open — gateway temporarily unavailable";
  reason = none;
  is_retryable = true;
}

abbrev pub error_of : {A : Type 0} → Result GatewayError A → Option GatewayError
error_of (ok a) = none
error_of (err e) = some e

module _ (config : CircuitBreakerConfig) where
  abbrev pre_call : ℕ → BreakerState → Result GatewayError (Unit {0}) × BreakerState
  pre_call now breaker =
      let (answer, after) = check config now breaker in
      (elim answer [ ok _ ↦ ok tt | err _ ↦ err circuit_open_error ], after)

  unfoldable pub record_outcome : ℕ → Option GatewayError → BreakerState → BreakerState
  record_outcome now none breaker = record_success config breaker
  record_outcome now (some e) breaker =
      if e.is_retryable then record_retryable_failure config now breaker else breaker

  -- What the four methods share: the check, the inner call and the record of its outcome.
  abbrev pub proceed :
      {A : Type 0}
      → ℕ
      → GatewayCall
      → (List GatewayCall → Result GatewayError A)
      → CircuitBreakerGateway
      → Result GatewayError (Unit {0}) × BreakerState
      → Result GatewayError A × CircuitBreakerGateway
  proceed later call inner g (err e, breaker) = (err e, record g { breaker = breaker })
  proceed later call inner g (ok _, breaker) = (
    inner g.calls,
    record {
      calls = call ∷ g.calls;
      breaker = record_outcome later (error_of (inner g.calls)) breaker;
    },
  )

  unfoldable pub guarded :
      {A : Type 0}
      → (now later : ℕ) → GatewayCall
      → (List GatewayCall → Result GatewayError A)
      → CircuitBreakerGateway
      → Result GatewayError A × CircuitBreakerGateway
  unfolding record_outcome
  guarded now later call inner g = proceed later call inner g (pre_call now g.breaker)

  module _ (inner : PaymentGateway) (now later : ℕ) where
    abbrev pub authorize :
        IdempotencyKey
        → ℕ
        → ℤ
        → Text
        → CircuitBreakerGateway
        → Result GatewayError GatewayAuthResult × CircuitBreakerGateway
    authorize key order_id amount currency =
        guarded now later (authorizes key order_id amount currency)
          (λ calls. inner.authorize calls key order_id amount currency)

    abbrev pub capture :
        String → CircuitBreakerGateway → Result GatewayError GatewayStatus × CircuitBreakerGateway
    capture gateway_reference =
        guarded now later (captures gateway_reference)
          (λ calls. inner.capture calls gateway_reference)

    abbrev pub void :
        String → CircuitBreakerGateway → Result GatewayError GatewayStatus × CircuitBreakerGateway
    void gateway_reference =
        guarded now later (voids gateway_reference) (λ calls. inner.void calls gateway_reference)

    abbrev pub refund :
        String
        → ℤ
        → CircuitBreakerGateway
        → Result GatewayError GatewayStatus × CircuitBreakerGateway
    refund gateway_reference amount =
        guarded now later (refunds gateway_reference amount)
          (λ calls. inner.refund calls gateway_reference amount)
