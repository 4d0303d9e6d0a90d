-- ===== src/Tests/BreakerTests.antt =====
-- The theorems on the gateway behind a circuit breaker that opened at time 3.
use koupang.Prelude.{◌≡◌, refl, [], ◌∷◌, arith}
use koupang.Errors.{err}
use koupang.Json.{lit}
use koupang.CircuitBreaker.{CircuitBreakerConfig, open_at, initial}
use koupang.CircuitBreaker.Invariant.{IsConsistent}
use koupang.Payment.Gateway.{PaymentGateway, captures, voids, timeout}
use koupang.Payment.Breaker.{CircuitBreakerGateway, guarded}
use koupang.Payment.Breaking.{Guards, guarded-Guards, serve_all, serve_all-open}

abbrev config : CircuitBreakerConfig
config = record { window_size = 4; threshold_part = 1; threshold_whole = 2; cooldown = 5 }

abbrev silent : PaymentGateway
silent = record {
  authorize = λ calls key order_id amount currency. err (timeout (lit "slow"));
  capture = λ calls reference. err (timeout (lit "slow"));
  void = λ calls reference. err (timeout (lit "slow"));
  refund = λ calls reference amount. err (timeout (lit "slow"));
}

abbrev open_gateway : CircuitBreakerGateway
open_gateway = record { calls = []; breaker = open_at config 3 initial }

open_gateway-IsConsistent : IsConsistent config open_gateway.breaker
open_gateway-IsConsistent = record { bounded = omega arith; dated = refl }

guarded-Guards_example :
    Guards config 9 10
      (captures "ref")
      (λ calls. silent.capture calls "ref")
      open_gateway
      (guarded config 9 10 (captures "ref") (λ calls. silent.capture calls "ref") open_gateway)
    × IsConsistent config
        (guarded config 9 10
          (captures "ref")
          (λ calls. silent.capture calls "ref")
          open_gateway).1.breaker
guarded-Guards_example =
    guarded-Guards config 9 10 (captures "ref") (λ calls. silent.capture calls "ref") open_gateway
      open_gateway-IsConsistent

serve_all-open_example :
    serve_all config silent
      (record { call = captures "ref"; now = 4; later = 5 }
        ∷ record { call = voids "ref"; now = 6; later = 7 }
        ∷ [])
      open_gateway
    ≡ open_gateway
serve_all-open_example =
    serve_all-open config silent 3
      (record { call = captures "ref"; now = 4; later = 5 }
        ∷ record { call = voids "ref"; now = 6; later = 7 }
        ∷ [])
      open_gateway refl refl ((omega arith, omega arith), ((omega arith, omega arith), tt))
