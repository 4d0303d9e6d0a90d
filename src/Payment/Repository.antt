-- ===== src/Payment/Repository.antt =====
-- payment/src/ledger/repository.rs over the tables of the payment migration. The transactions stand
-- newest first and the entries oldest first, the orders in which the queries list them; a row's id
-- is drawn from a counter. What the schema refuses is an internal error: a repeated idempotency
-- key, a gateway reference that is too long, and an amount that is not positive or too large.
use Prim.Native.String.{String}
use koupang.Prelude.{
  ℕ, suc, ◌^◌, ◌-◌, Bool, false, ◌&&◌, Option, none, some, List, [], ◌∷◌, ◌++◌, map, ◌==◌,
  if◌then◌else◌, find, select, is_some,
}
use koupang.Prelude.Int.{ℤ, pos, ltb_ℤ, leb_ℤ}
use koupang.Strings.{fits_column}
use koupang.Errors.{AppError, internal_server_error}
use koupang.Action.{Action, done, failed, panicked}
use koupang.Json.{Text, text_eq, object, no_members}
use koupang.Outbox.{OutboxTable}
use koupang.Payment.Types.{
  AccountType, TransactionType, TransactionStatus, EntryDirection, PaymentState, IdempotencyKey,
  auth_key, capture_key, void_key, AccountEntity, LedgerTransactionEntity, LedgerEntryEntity,
  normal_balance, account_type_eq, is_posted, is_pending,
}

pub record Db : Type 0 where
  pub accounts : List AccountEntity
  pub transactions : List LedgerTransactionEntity
  pub entries : List LedgerEntryEntity
  pub next_id : ℕ
  pub outbox : OutboxTable

-- The unique constraint on (reference_id, account_type, currency).
abbrev pub is_account : AccountType → ℕ → Text → AccountEntity → Bool
is_account ty reference currency a =
    a.reference_id == reference && account_type_eq a.account_type ty && text_eq a.currency currency

abbrev new_account : ℕ → AccountType → ℕ → Text → AccountEntity
new_account id ty reference currency = record {
  id = id;
  account_type = ty;
  normal_balance = normal_balance ty;
  reference_id = reference;
  currency = currency;
}

-- `INSERT … ON CONFLICT DO NOTHING`, and the `SELECT` where the row was there.
abbrev insert_or_select : Option AccountEntity → AccountType → ℕ → Text → Db → AccountEntity × Db
insert_or_select (some account) ty reference currency db = (account, db)
insert_or_select none ty reference currency db = (
  new_account db.next_id ty reference currency,
  record db {
    accounts = new_account db.next_id ty reference currency ∷ db.accounts;
    next_id = suc db.next_id;
  },
)

unfoldable pub get_or_create_account : AccountType → ℕ → Text → Db → AccountEntity × Db
get_or_create_account ty reference currency db =
    insert_or_select (find (is_account ty reference currency) db.accounts) ty reference currency db

abbrev pub key_eq : IdempotencyKey → IdempotencyKey → Bool
key_eq (auth_key a) (auth_key b) = a == b
key_eq (capture_key a) (capture_key b) = a == b
key_eq (void_key a) (void_key b) = a == b
key_eq _ _ = false

unfoldable pub get_transaction_by_idempotency_key :
    Db → IdempotencyKey → Option LedgerTransactionEntity
get_transaction_by_idempotency_key db key = find (λ t. key_eq t.idempotency_key key) db.transactions

-- The row that the `INSERT` of `create_transaction` makes, its metadata by default `{}`.
abbrev pub new_transaction :
    ℕ → ℕ → TransactionType → IdempotencyKey → Option String → LedgerTransactionEntity
new_transaction id order_id ty key gateway_reference = record {
  id = id;
  order_id = order_id;
  transaction_type = ty;
  status = TransactionStatus.pending;
  idempotency_key = key;
  gateway_reference = gateway_reference;
  metadata = object no_members;
}

unfoldable pub create_transaction :
    ℕ
    → TransactionType
    → IdempotencyKey
    → Option String
    → Action Db AppError LedgerTransactionEntity
unfolding get_transaction_by_idempotency_key
create_transaction order_id ty key gateway_reference db =
    if is_some (get_transaction_by_idempotency_key db key)
    then (failed internal_server_error, db)
    else if fits_column gateway_reference
    then (
      done (new_transaction db.next_id order_id ty key gateway_reference),
      record db {
        transactions =
            new_transaction db.next_id order_id ty key gateway_reference ∷ db.transactions;
        next_id = suc db.next_id;
      },
    )
    else (failed internal_server_error, db)

-- The `UPDATE` of one row: its status, and its gateway reference where one is given.
abbrev pub set_status :
    ℕ → TransactionStatus → Option String → LedgerTransactionEntity → LedgerTransactionEntity
set_status id status gateway_reference t =
    if t.id == id
    then elim gateway_reference [
      | some r ↦ record t { status = status; gateway_reference = some r }
      | none ↦ record t { status = status }
    ]
    else t

abbrev pub has_id : ℕ → LedgerTransactionEntity → Bool
has_id id t = t.id == id

-- The assertion that one row was updated panics where the id is unknown; ids are primary keys.
unfoldable pub update_transaction_status :
    ℕ → TransactionStatus → Option String → Action Db AppError (Unit {0})
update_transaction_status id status gateway_reference db =
    if is_some (find (has_id id) db.transactions)
    then (
      done tt,
      record db { transactions = map (set_status id status gateway_reference) db.transactions },
    )
    else (panicked, db)

unfoldable pub list_transactions_by_order : Db → ℕ → List LedgerTransactionEntity
list_transactions_by_order db order_id = select (λ t. t.order_id == order_id) db.transactions

-- NUMERIC(19, 4), in ten-thousandths, and `CHECK (amount > 0)`.
abbrev pub fits_amount : ℤ → Bool
fits_amount amount = ltb_ℤ (pos 0) amount && leb_ℤ amount (pos (10 ^ 19 - 1))

unfoldable pub create_entry : ℕ → ℕ → EntryDirection → ℤ → Action Db AppError LedgerEntryEntity
create_entry transaction_id account_id direction amount db =
    let entry : LedgerEntryEntity = record {
      id = db.next_id;
      transaction_id = transaction_id;
      account_id = account_id;
      direction = direction;
      amount = amount;
    } in
    if fits_amount amount
    then (done entry, record db { entries = db.entries ++ entry ∷ []; next_id = suc db.next_id })
    else (failed internal_server_error, db)

unfoldable pub list_entries_by_transaction : Db → ℕ → List LedgerEntryEntity
list_entries_by_transaction db transaction_id =
    select (λ e. e.transaction_id == transaction_id) db.entries

abbrev pub state_of_type : TransactionType → PaymentState
state_of_type TransactionType.refund = PaymentState.refunded
state_of_type TransactionType.void = PaymentState.voided
state_of_type TransactionType.capture = PaymentState.captured
state_of_type TransactionType.authorization = PaymentState.authorized

-- The second loop, and the value after it.
abbrev derive_unposted : List LedgerTransactionEntity → PaymentState
derive_unposted [] = PaymentState.failed
derive_unposted (t ∷ ts) = if is_pending t.status then PaymentState.pending else derive_unposted ts

-- The first loop over the transactions `all`, newest first.
abbrev derive_posted : List LedgerTransactionEntity → List LedgerTransactionEntity → PaymentState
derive_posted all [] = derive_unposted all
derive_posted all (t ∷ ts) =
    if is_posted t.status then state_of_type t.transaction_type else derive_posted all ts

unfoldable pub derive_payment_state : List LedgerTransactionEntity → PaymentState
derive_payment_state [] = PaymentState.new
derive_payment_state (t ∷ ts) = derive_posted (t ∷ ts) (t ∷ ts)
