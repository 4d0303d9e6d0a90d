-- ===== src/Payment/Breaking.antt =====
-- What the circuit breaker does to the calls of the gateway:
-- payment/src/gateway/circuit_breaker.rs.
use koupang.Prelude.{
  ℕ, ◌+◌, ◌-◌, ◌≤◌, ◌<◌, ◌≡◌, ◌⊎◌, refl, ap, ◌∙◌, Bool, true, false, Option, none, some, List, [],
  ◌∷◌, leb, if◌then◌else◌, Every, inl, inr, Bool-cases, arith,
}
use koupang.Errors.{Result, ok, err}
use koupang.CircuitBreaker.{
  CircuitBreakerConfig, BreakerState, BreakerStatus, closed, opened, half_open, CircuitOpenError,
  circuit_open, cooled, check, record_success,
}
use koupang.CircuitBreaker.Invariant.{
  IsConsistent, checks, succeeds, fails, use_breaker, use_all, use_all-IsConsistent,
}
use koupang.Payment.Types.{GatewayError}
use koupang.Payment.Gateway.{GatewayCall, authorizes, captures, voids, refunds, PaymentGateway}
use koupang.Payment.Breaker.{
  CircuitBreakerGateway, circuit_open_error, error_of, record_outcome, proceed, guarded, authorize,
  capture, void, refund,
}

-- A request is an inner call, and when it starts and ends.
pub record Request : Type 0 where
  pub call : GatewayCall
  pub now : ℕ
  pub later : ℕ

module _ (config : CircuitBreakerConfig) (inner : PaymentGateway) where
  unfoldable serve : Request → CircuitBreakerGateway → CircuitBreakerGateway
  serve r g = elim r.call [
    | authorizes key order_id amount currency ↦
        (authorize config inner r.now r.later key order_id amount currency g).1
    | captures reference ↦ (capture config inner r.now r.later reference g).1
    | voids reference ↦ (void config inner r.now r.later reference g).1
    | refunds reference amount ↦ (refund config inner r.now r.later reference amount g).1
  ]

  unfoldable pub serve_all : List Request → CircuitBreakerGateway → CircuitBreakerGateway
  unfolding serve
  serve_all [] g = g
  serve_all (r ∷ rs) g = serve_all rs (serve r g)

module _ {A : Type 0} (config : CircuitBreakerConfig) (now later : ℕ) (call : GatewayCall)
    (inner : List GatewayCall → Result GatewayError A) (g : CircuitBreakerGateway) where
  -- The inner gateway is called once, and its answer is the answer; or it is not called, the answer
  -- is the error of an open circuit, the breaker is open and nothing changes.
  abbrev pub Guards : Result GatewayError A × CircuitBreakerGateway → Type 0
  Guards (answer, after) =
      ((answer ≡ inner g.calls) × (after.calls ≡ call ∷ g.calls))
      ⊎ ((answer ≡ err circuit_open_error) × (after ≡ g) × (g.breaker.status ≡ opened))

  recorded-IsConsistent :
      (e : Option GatewayError) (s : BreakerState)
      → IsConsistent config s
      → IsConsistent config (record_outcome config later e s)
  unfolding record_outcome record_success use_all use_breaker
  recorded-IsConsistent none s h = use_all-IsConsistent config (succeeds ∷ []) s h
  recorded-IsConsistent (some e) s h = elim (Bool-cases e.is_retryable) [
    | inl k ↦ rw k (use_all-IsConsistent config (fails later ∷ []) s h)
    | inr k ↦ rw k h
  ]

  -- An error of the check: an open breaker, which stays as it is.
  abbrev Checked : BreakerState → Result CircuitOpenError (Unit {0}) × BreakerState → Type 0
  Checked s (ok _, after) = Unit
  Checked s (err _, after) = (after ≡ s) × (s.status ≡ opened)

  checked : (s : BreakerState) → Checked s (check config now s)
  unfolding check
  checked s = by_status s.status refl
    where
      cooling :
          (b : Bool)
          → s.status ≡ opened
          → Checked s
              (if b then (ok tt, record s { status = half_open }) else (err circuit_open, s))
      cooling true e = tt
      cooling false e = (refl, e)

      by_status :
          (st : BreakerStatus)
          → s.status ≡ st
          → Checked s (elim st [
            | opened ↦
                if cooled config now s.opened_at
                then (ok tt, record s { status = half_open })
                else (err circuit_open, s)
            | _ ↦ (ok tt, s)
          ])
      by_status opened e = cooling (cooled config now s.opened_at) e
      by_status closed e = tt
      by_status half_open e = tt

  proceed-Guards :
      (x : Result CircuitOpenError (Unit {0}) × BreakerState)
      → Checked g.breaker x
      → IsConsistent config x.1
      → Guards (
          proceed config later call inner g
            (elim x.0 [ ok _ ↦ ok tt | err _ ↦ err circuit_open_error ], x.1))
        × IsConsistent config
            (proceed config later call inner g
              (elim x.0 [ ok _ ↦ ok tt | err _ ↦ err circuit_open_error ], x.1)).1.breaker
  proceed-Guards (ok _, after) c h =
      (inl (refl, refl), recorded-IsConsistent (error_of (inner g.calls)) after h)
  proceed-Guards (err _, after) c h =
      (inr (refl, ap (λ (b : BreakerState). record g { breaker = b }) c.0, c.1), h)

  -- A call of the gateway behind the breaker, whatever the inner gateway answers: the inner gateway
  -- is called once, and its answer is returned, or the breaker is open, the inner gateway is not
  -- called, and nothing changes. The breaker stays consistent.
  pub guarded-Guards :
      IsConsistent config g.breaker
      → Guards (guarded config now later call inner g)
        × IsConsistent config (guarded config now later call inner g).1.breaker
  unfolding guarded use_all use_breaker
  guarded-Guards h =
      proceed-Guards (check config now g.breaker) (checked g.breaker)
        (use_all-IsConsistent config (checks now ∷ []) g.breaker h)

module _ (config : CircuitBreakerConfig) (since : ℕ) (g : CircuitBreakerGateway)
    (o : g.breaker.status ≡ opened) (a : g.breaker.opened_at ≡ some since) where
  check-open :
      (now : ℕ)
      → since ≤ now
      → now < since + config.cooldown
      → check config now g.breaker ≡ (err circuit_open, g.breaker)
  unfolding check
  check-open now early late = by_status g.breaker o a (ground (arith, early, late))
    where
      by_status :
          (s : BreakerState)
          → s.status ≡ opened
          → s.opened_at ≡ some since
          → leb config.cooldown (now - since) ≡ false
          → check config now s ≡ (err circuit_open, s)
      by_status s p q cool = rw (p, q, cool) refl

  rejected :
      {A : Type 0} (now later : ℕ) (call : GatewayCall)
      (inner : List GatewayCall → Result GatewayError A)
      → since ≤ now
      → now < since + config.cooldown
      → (guarded config now later call inner g).1 ≡ g
  unfolding guarded
  rejected now later call inner early late = rw (check-open now early late) refl

  serve-open :
      (inner : PaymentGateway) (r : Request)
      → since ≤ r.now
      → r.now < since + config.cooldown
      → serve config inner r g ≡ g
  unfolding serve
  serve-open inner r early late = by_call r.call
    where
      by_call : (c : GatewayCall) → serve config inner (record r { call = c }) g ≡ g
      by_call (authorizes key order_id amount currency) =
          rejected r.now r.later (authorizes key order_id amount currency)
            (λ calls. inner.authorize calls key order_id amount currency) early late
      by_call (captures reference) =
          rejected r.now r.later (captures reference) (λ calls. inner.capture calls reference) early
            late
      by_call (voids reference) =
          rejected r.now r.later (voids reference) (λ calls. inner.void calls reference) early late
      by_call (refunds reference amount) =
          rejected r.now r.later (refunds reference amount)
            (λ calls. inner.refund calls reference amount) early late

-- While an open breaker cools down, no request reaches the inner gateway, and nothing changes.
pub serve_all-open :
    (config : CircuitBreakerConfig) (inner : PaymentGateway) (since : ℕ) (rs : List Request)
    (g : CircuitBreakerGateway)
    → g.breaker.status ≡ opened
    → g.breaker.opened_at ≡ some since
    → Every (λ r. (since ≤ r.now) × (r.now < since + config.cooldown)) rs
    → serve_all config inner rs g ≡ g
unfolding serve_all
serve_all-open config inner since [] g o a h = refl
serve_all-open config inner since (r ∷ rs) g o a h =
    ap (serve_all config inner rs) (serve-open config since g o a inner r h.0.0 h.0.1)
    ∙ serve_all-open config inner since rs g o a h.1
