-- ===== src/Payment/Gateway.antt =====
-- The `PaymentGateway` trait of payment/src/gateway/traits.rs. What a gateway answers may depend on
-- all the calls that it has had, newest first.
use Prim.Native.String.{String}
use koupang.Prelude.{ℕ, true, false, none, List}
use koupang.Prelude.Int.{ℤ}
use koupang.Errors.{Result}
use koupang.Json.{Text, lit}
use koupang.Payment.Types.{IdempotencyKey, GatewayAuthResult, GatewayStatus, GatewayError}

pub data GatewayCall : Type 0 where
  authorizes : IdempotencyKey → ℕ → ℤ → Text → GatewayCall
  captures voids : String → GatewayCall
  refunds : String → ℤ → GatewayCall

pub record PaymentGateway : Type 0 where
  pub authorize :
      List GatewayCall → IdempotencyKey → ℕ → ℤ → Text → Result GatewayError GatewayAuthResult
  pub capture : List GatewayCall → String → Result GatewayError GatewayStatus
  pub void : List GatewayCall → String → Result GatewayError GatewayStatus
  pub refund : List GatewayCall → String → ℤ → Result GatewayError GatewayStatus

-- `GatewayError::declined` and `GatewayError::timeout`.
abbrev pub declined : Text → GatewayError
declined message = record {
  code = lit "DECLINED";
  message = message;
  reason = none;
  is_retryable = false;
}

abbrev pub timeout : Text → GatewayError
timeout message = record {
  code = lit "TIMEOUT";
  message = message;
  reason = none;
  is_retryable = true;
}
