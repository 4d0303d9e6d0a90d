-- ===== src/Payment/Rules.antt =====
-- payment/src/payments/rules.rs, over the rule trees of shared/src/rules.rs.
use koupang.Prelude.{Bool, true, false, ◌||◌, List, [], ◌∷◌}
use koupang.Prelude.Int.{ℤ, pos, leb_ℤ, eqb_ℤ}
use koupang.Json.{Text, lit, text_eq}
use koupang.Rules.{Rule, check, all, vec}
use koupang.Payment.Types.{PaymentState, new, failed, authorized}

pub data PaymentCheck : Type 0 where
  min_amount max_amount : ℤ → PaymentCheck
  supported_currency valid_state_for_operation capture_amount_consistent : PaymentCheck

-- $0.50 and $100,000 in ten-thousandths.
abbrev pub min_payment_amount : ℤ
min_payment_amount = pos 5000

abbrev pub max_payment_amount : ℤ
max_payment_amount = pos 1_000_000_000

abbrev pub supported_currencies : List Text
supported_currencies = lit "USD" ∷ lit "KRW" ∷ lit "EUR" ∷ lit "GBP" ∷ lit "JPY" ∷ []

-- `contains` of a slice.
abbrev pub contains : List Text → Text → Bool
contains [] t = false
contains (x ∷ xs) t = text_eq x t || contains xs t

abbrev authorization_checks : List PaymentCheck
authorization_checks =
    min_amount min_payment_amount
    ∷ max_amount max_payment_amount
    ∷ supported_currency
    ∷ valid_state_for_operation
    ∷ []

unfoldable pub authorization_rules : Rule PaymentCheck
authorization_rules = all (
    vec (
      check (min_amount min_payment_amount)
      ∷ check (max_amount max_payment_amount)
      ∷ check supported_currency
      ∷ check valid_state_for_operation
      ∷ []))

unfoldable capture_rules : Rule PaymentCheck
capture_rules = all (vec (check valid_state_for_operation ∷ check capture_amount_consistent ∷ []))

pub record AuthorizationContext : Type 0 where
  pub amount : ℤ
  pub currency : Text
  pub payment_state : PaymentState

pub record CaptureContext : Type 0 where
  pub payment_state : PaymentState
  pub auth_amount : ℤ
  pub capture_amount : ℤ

-- `matches!(state, New | Failed)` and `matches!(state, Authorized)`.
abbrev pub is_open : PaymentState → Bool
is_open new = true
is_open failed = true
is_open _ = false

abbrev is_authorized : PaymentState → Bool
is_authorized authorized = true
is_authorized _ = false

unfoldable pub eval_authorization : AuthorizationContext → PaymentCheck → Bool
eval_authorization ctx (min_amount least) = leb_ℤ least ctx.amount
eval_authorization ctx (max_amount most) = leb_ℤ ctx.amount most
eval_authorization ctx supported_currency = contains supported_currencies ctx.currency
eval_authorization ctx valid_state_for_operation = is_open ctx.payment_state
eval_authorization ctx capture_amount_consistent = true

unfoldable eval_capture : CaptureContext → PaymentCheck → Bool
eval_capture ctx valid_state_for_operation = is_authorized ctx.payment_state
eval_capture ctx capture_amount_consistent = eqb_ℤ ctx.capture_amount ctx.auth_amount
eval_capture ctx _ = true
