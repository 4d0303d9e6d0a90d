-- ===== src/Payment/Records.antt =====
-- The writes of payment/src/payments/service.rs: accounts, double entries and outbox events, on the
-- tables that a transaction sees. `bytes` is the length of a serialised envelope.
use Prim.Native.String.{String}
use koupang.Prelude.{ℕ, none, some}
use koupang.Prelude.Int.{ℤ}
use koupang.Errors.{AppError}
use koupang.Action.{Action, state, gets, ◌>>=◌, ◌>>◌, zoom, ignore, pure}
use koupang.Json.{Text, Value, lit, uuid, str, object, member, no_members}
use koupang.Events.{EventEnvelope, EventType, AggregateType, SourceService, new_metadata}
use koupang.Outbox.{OutboxTable, from_envelope, insert_outbox_event}
use koupang.Payment.Types.{
  AccountType, buyer, gateway_holding, platform_revenue, TransactionType, TransactionStatus,
  EntryDirection, IdempotencyKey, auth_key,
}
use koupang.Payment.Repository.{
  Db, get_or_create_account, create_transaction, create_entry, update_transaction_status,
}

abbrev pub Tx : Type 0 → Type 0
Tx A = Action Db AppError A

-- `get_or_create_account`, as a step of a transaction.
unfoldable pub account_id : AccountType → ℕ → Text → Tx ℕ
account_id ty order_id currency = do
  account ← state (get_or_create_account ty order_id currency)
  pure account.id

unfoldable pub create_account_pair : ℕ → Text → AccountType → AccountType → Tx (ℕ × ℕ)
create_account_pair order_id currency debit_type credit_type = do
  debit_acct ← account_id debit_type order_id currency
  credit_acct ← account_id credit_type order_id currency
  pure (debit_acct, credit_acct)

unfoldable pub write_entry_pair : ℕ → ℕ → ℕ → ℤ → Tx (Unit {0})
write_entry_pair transaction_id debit_account_id credit_account_id amount = do
  create_entry transaction_id debit_account_id EntryDirection.debit amount
  create_entry transaction_id credit_account_id EntryDirection.credit amount
  pure tt

unfoldable pub post_transaction : ℕ → Tx (Unit {0})
post_transaction transaction_id =
    update_transaction_status transaction_id TransactionStatus.posted none

-- The envelope of a payment event; its event id is fresh.
abbrev pub payment_envelope : ℕ → ℕ → EventType → Value → EventEnvelope
payment_envelope event_id order_id event_type payload = record {
  metadata = new_metadata event_id event_type AggregateType.payment order_id SourceService.payment;
  payload = payload;
}

abbrev set_outbox : Db → OutboxTable → Db
set_outbox db t = record db { outbox = t }

-- The payload that holds the order's id alone, and those that hold more fields.
abbrev pub order_payload : ℕ → Value
order_payload order_id = object (member "order_id" (str (uuid order_id)) no_members)

abbrev pub failure_payload : ℕ → Text → Value
failure_payload order_id reason =
    object (member "order_id" (str (uuid order_id)) (member "reason" (str reason) no_members))

abbrev pub authorized_payload : ℕ → ℕ → String → Value
authorized_payload order_id payment_id gateway_reference = object (
    member "order_id" (str (uuid order_id)) (
      member "payment_id" (str (uuid payment_id))
        (member "gateway_reference" (str (lit gateway_reference)) no_members)))

module _ (bytes : EventEnvelope → ℕ) where
  unfoldable pub write_outbox : ℕ → EventType → Value → Tx (Unit {0})
  write_outbox order_id event_type payload = do
    event_id ← gets (λ db. db.outbox.next_id)
    ignore (
        zoom (λ db. db.outbox) set_outbox
          (insert_outbox_event bytes (
            from_envelope "payments.events"
              (payment_envelope event_id order_id event_type payload))))

  unfoldable pub record_authorization : ℕ → ℤ → Text → String → Tx (Unit {0})
  record_authorization order_id amount currency gateway_ref = do
    accounts ← create_account_pair order_id currency buyer gateway_holding
    ledger_tx ←
        create_transaction order_id TransactionType.authorization (auth_key order_id)
          (some gateway_ref)
    write_entry_pair ledger_tx.id accounts.1 accounts.0 amount
    post_transaction ledger_tx.id
    write_outbox order_id EventType.payment_authorized
        (authorized_payload order_id ledger_tx.id gateway_ref)

  unfoldable pub record_capture : ℕ → Text → ℤ → IdempotencyKey → String → Tx (Unit {0})
  record_capture order_id auth_currency amount key gateway_ref = do
    accounts ← create_account_pair order_id auth_currency gateway_holding platform_revenue
    capture_tx ← create_transaction order_id TransactionType.capture key (some gateway_ref)
    write_entry_pair capture_tx.id accounts.1 accounts.0 amount
    post_transaction capture_tx.id
    write_outbox order_id EventType.payment_captured (order_payload order_id)

  unfoldable pub record_void : ℕ → ℕ → Text → ℤ → IdempotencyKey → Tx (Unit {0})
  record_void order_id auth_tx_id auth_currency amount key = do
    update_transaction_status auth_tx_id TransactionStatus.discarded none
    accounts ← create_account_pair order_id auth_currency buyer gateway_holding
    void_tx ← create_transaction order_id TransactionType.void key none
    write_entry_pair void_tx.id accounts.0 accounts.1 amount
    post_transaction void_tx.id
    write_outbox order_id EventType.payment_voided (order_payload order_id)
