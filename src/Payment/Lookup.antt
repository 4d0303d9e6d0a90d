-- ===== src/Payment/Lookup.antt =====
-- The reads and checks of payment/src/payments/service.rs that come before a gateway call.
use Prim.Native.String.{String}
use koupang.Prelude.{
  ℕ, Bool, false, ◌&&◌, negate, Option, none, some, List, [], ◌∷◌, find, if◌then◌else◌,
}
use koupang.Prelude.Int.{ℤ, pos}
use koupang.Errors.{
  AppError, not_found, internal_server_error, Result, ok, err, ◌>>=◌, ◌>>◌, ok_or, map_err,
}
use koupang.Json.{Text, lit, index, as_str, unwrap_or}
use koupang.Rules.{passed, evaluate_detailed}
use koupang.Payment.Types.{
  PaymentState, PaymentError, Operation, capture, void, LedgerTransactionEntity, LedgerEntryEntity,
  is_authorization, is_posted, is_discarded, to_app_error, validation_failed, validate_for_capture,
  validate_for_void,
}
use koupang.Payment.Repository.{
  Db, list_transactions_by_order, list_entries_by_transaction, derive_payment_state,
}
use koupang.Payment.Rules.{AuthorizationContext, authorization_rules, eval_authorization}

-- An authorization with this key is there and was not discarded: the early return.
abbrev pub in_progress : Option LedgerTransactionEntity → Bool
in_progress none = false
in_progress (some t) = negate (is_discarded t.status)

abbrev pub authorization_context : ℤ → Text → PaymentState → AuthorizationContext
authorization_context amount currency state = record {
  amount = amount;
  currency = currency;
  payment_state = state;
}

unfoldable pub validate_authorization : ℤ → Text → PaymentState → Result AppError (Unit {0})
validate_authorization amount currency state =
    if passed (
      evaluate_detailed (eval_authorization (authorization_context amount currency state))
        authorization_rules)
    then ok tt
    else err (to_app_error validation_failed)

-- The `match operation`; the callers name no other operation than "capture" and "void".
abbrev pub validate_for : Operation → PaymentState → Result PaymentError (Unit {0})
validate_for capture state = validate_for_capture state
validate_for void state = validate_for_void state
validate_for _ state = ok tt

abbrev pub is_posted_authorization : LedgerTransactionEntity → Bool
is_posted_authorization t = is_authorization t.transaction_type && is_posted t.status

-- `auth_entries.first().map(|e| e.amount).unwrap_or(Decimal::ZERO)`.
abbrev first_amount : List LedgerEntryEntity → ℤ
first_amount [] = pos 0
first_amount (e ∷ es) = e.amount

-- What `find_posted_authorization` returns: id, gateway reference, currency and amount.
pub record Authorization : Type 0 where
  pub id : ℕ
  pub gateway_reference : String
  pub currency : Text
  pub amount : ℤ

-- The part after the authorization was found.
abbrev pub read_authorization : Db → LedgerTransactionEntity → Result AppError Authorization
read_authorization db auth = do
  gateway_reference ← ok_or auth.gateway_reference internal_server_error
  ok (record {
    id = auth.id;
    gateway_reference = gateway_reference;
    currency = unwrap_or (as_str (index auth.metadata "currency")) (lit "USD");
    amount = first_amount (list_entries_by_transaction db auth.id);
  })

unfoldable pub find_posted_authorization : Db → ℕ → Operation → Result AppError Authorization
find_posted_authorization db order_id operation = do
  let transactions = list_transactions_by_order db order_id
  map_err to_app_error (validate_for operation (derive_payment_state transactions))
  auth ← ok_or (find is_posted_authorization transactions) not_found
  read_authorization db auth
