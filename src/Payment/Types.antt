-- ===== src/Payment/Types.antt =====
-- payment/src/ledger/value_objects.rs and entities.rs, payment/src/gateway/traits.rs and the errors
-- of payment/src/payments/error.rs. Amounts are whole ten-thousandths, the scale of the ledger's
-- NUMERIC(19, 4) columns.
use Prim.Native.String.{String}
use koupang.Prelude.{ℕ, Bool, true, false, Option}
use koupang.Prelude.Int.{ℤ}
use koupang.Errors.{AppError, internal_server_error, bad_request, Result, ok, err}
use koupang.Json.{Text, Value}

pub data AccountType : Type 0 where
  buyer gateway_holding platform_revenue seller_payable : AccountType

pub data NormalBalance : Type 0 where
  debit credit : NormalBalance

pub data TransactionType : Type 0 where
  authorization capture void refund : TransactionType

pub data TransactionStatus : Type 0 where
  pending posted discarded : TransactionStatus

pub data EntryDirection : Type 0 where
  debit credit : EntryDirection

pub data PaymentState : Type 0 where
  new authorized captured voided refunded pending failed : PaymentState

-- `AccountType::normal_balance`.
unfoldable pub normal_balance : AccountType → NormalBalance
normal_balance buyer = NormalBalance.debit
normal_balance gateway_holding = NormalBalance.debit
normal_balance platform_revenue = NormalBalance.credit
normal_balance seller_payable = NormalBalance.credit

abbrev pub account_type_eq : AccountType → AccountType → Bool
account_type_eq buyer buyer = true
account_type_eq gateway_holding gateway_holding = true
account_type_eq platform_revenue platform_revenue = true
account_type_eq seller_payable seller_payable = true
account_type_eq _ _ = false

abbrev pub is_posted : TransactionStatus → Bool
is_posted posted = true
is_posted _ = false

abbrev pub is_pending : TransactionStatus → Bool
is_pending TransactionStatus.pending = true
is_pending _ = false

abbrev pub is_discarded : TransactionStatus → Bool
is_discarded discarded = true
is_discarded _ = false

abbrev pub is_authorization : TransactionType → Bool
is_authorization authorization = true
is_authorization _ = false

-- The idempotency keys that the service formats: "auth:…", "capture:…" and "void:…" of an order.
-- Distinct keys are distinct strings, since the prefix ends at the colon.
pub data IdempotencyKey : Type 0 where
  auth_key capture_key void_key : ℕ → IdempotencyKey

pub record AccountEntity : Type 0 where
  pub id : ℕ
  pub account_type : AccountType
  pub normal_balance : NormalBalance
  pub reference_id : ℕ
  pub currency : Text

pub record LedgerTransactionEntity : Type 0 where
  pub id : ℕ
  pub order_id : ℕ
  pub transaction_type : TransactionType
  pub status : TransactionStatus
  pub idempotency_key : IdempotencyKey
  pub gateway_reference : Option String
  pub metadata : Value

pub record LedgerEntryEntity : Type 0 where
  pub id : ℕ
  pub transaction_id : ℕ
  pub account_id : ℕ
  pub direction : EntryDirection
  pub amount : ℤ

pub record AccountBalanceEntity : Type 0 where
  pub account_id : ℕ
  pub account_type : AccountType
  pub reference_id : ℕ
  pub normal_balance : NormalBalance
  pub currency : Text
  total_debits : ℤ
  total_credits : ℤ
  balance : ℤ

pub data GatewayStatus : Type 0 where
  success failed : GatewayStatus

pub record GatewayAuthResult : Type 0 where
  pub gateway_reference : String
  pub approved_amount : ℤ
  pub status : GatewayStatus

pub record GatewayError : Type 0 where
  pub code : Text
  pub message : Text
  pub reason : Option Text
  pub is_retryable : Bool

-- The operation that a state check names.
pub data Operation : Type 0 where
  authorize capture void refund : Operation

pub data PaymentError : Type 0 where
  validation_failed : PaymentError
  invalid_state : Operation → PaymentState → PaymentError
  amount_tampered : ℤ → ℤ → PaymentError
  not_found : PaymentError
  gateway_declined gateway_retryable : Text → Text → PaymentError
  infra : AppError → PaymentError

-- `From<GatewayError> for PaymentError`.
unfoldable pub from_gateway_error : GatewayError → PaymentError
from_gateway_error e = elim e.is_retryable [
  | true ↦ gateway_retryable e.code e.message
  | false ↦ gateway_declined e.code e.message
]

-- `From<PaymentError> for AppError`.
unfoldable pub to_app_error : PaymentError → AppError
to_app_error validation_failed = bad_request
to_app_error (invalid_state operation state) = bad_request
to_app_error (amount_tampered requested approved) = bad_request
to_app_error PaymentError.not_found = AppError.not_found
to_app_error (gateway_declined code message) = bad_request
to_app_error (gateway_retryable code message) = internal_server_error
to_app_error (infra e) = e

unfoldable validate_for_authorize : PaymentState → Result PaymentError (Unit {0})
validate_for_authorize new = ok tt
validate_for_authorize PaymentState.failed = ok tt
validate_for_authorize state = err (invalid_state authorize state)

unfoldable pub validate_for_capture : PaymentState → Result PaymentError (Unit {0})
validate_for_capture authorized = ok tt
validate_for_capture state = err (invalid_state Operation.capture state)

unfoldable pub validate_for_void : PaymentState → Result PaymentError (Unit {0})
validate_for_void authorized = ok tt
validate_for_void state = err (invalid_state Operation.void state)

unfoldable validate_for_refund : PaymentState → Result PaymentError (Unit {0})
validate_for_refund captured = ok tt
validate_for_refund state = err (invalid_state Operation.refund state)
