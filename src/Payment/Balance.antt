-- ===== src/Payment/Balance.antt =====
-- Double entry: what payment/src/payments/service.rs writes into the ledger's entries.
use Prim.Native.String.{String}
use koupang.Prelude.{
  ℕ, suc, ◌≡◌, refl, true, false, Option, inl, inr, List, [], ◌∷◌, ◌++◌, arith, ◌==◌, if◌then◌else◌,
  Bool-cases,
}
use koupang.Prelude.Int.{ℤ, pos, ◌+ℤ◌, int_laws}
use koupang.Action.{◌>>=◌, continue, ignore, zoom}
use koupang.Action.Keeps.{Keeps, keeps_rules}
use koupang.Json.{Text, Value}
use koupang.Events.{EventEnvelope, EventType}
use koupang.Payment.Types.{
  AccountType, EntryDirection, LedgerEntryEntity, TransactionType, TransactionStatus,
  IdempotencyKey,
}
use koupang.Payment.Repository.{
  fits_amount, Db, get_or_create_account, create_transaction, create_entry,
  update_transaction_status,
}
use koupang.Payment.Gateway.{PaymentGateway}
use koupang.Payment.Records.{
  account_id, create_account_pair, write_entry_pair, post_transaction, write_outbox,
  record_authorization, record_capture, record_void,
}
use koupang.Payment.Keeps.{
  Writers, handle-Keeps, authorize_payment-Keeps, capture_payment-Keeps, void_payment-Keeps,
}
use koupang.Payment.Session.{Session}
use koupang.Payment.Service.{authorize_payment, capture_payment, void_payment}
use koupang.Payment.Consumers.{handle, LockAnswer}

abbrev debit_of : EntryDirection → ℤ → ℤ
debit_of EntryDirection.debit a = a
debit_of EntryDirection.credit a = pos 0

abbrev credit_of : EntryDirection → ℤ → ℤ
credit_of EntryDirection.debit a = pos 0
credit_of EntryDirection.credit a = a

-- The sum of one side of a ledger transaction.
module _ (side : EntryDirection → ℤ → ℤ) (t : ℕ) where
  unfoldable pub total : List LedgerEntryEntity → ℤ
  total [] = pos 0
  total (e ∷ es) = (if e.transaction_id == t then side e.direction e.amount else pos 0) +ℤ total es

  total-append : (xs ys : List LedgerEntryEntity) → total (xs ++ ys) ≡ total xs +ℤ total ys
  unfolding total
  total-append [] ys = omega int_laws
  total-append (x ∷ xs) ys = rw (total-append xs ys) (omega int_laws)

abbrev pub debits : ℕ → List LedgerEntryEntity → ℤ
debits = total debit_of

abbrev pub credits : ℕ → List LedgerEntryEntity → ℤ
credits = total credit_of

-- Every ledger transaction has as much on its debit side as on its credit side.
pub record IsBalanced (db : Db) : Type 0 where
  pub balanced : (t : ℕ) → debits t db.entries ≡ credits t db.entries

same_entries : (db db' : Db) → db'.entries ≡ db.entries → IsBalanced db → IsBalanced db'
same_entries db db' e h = record { balanced = λ t. rw e (h.balanced t) }

abbrev entry : ℕ → ℕ → ℕ → EntryDirection → ℤ → LedgerEntryEntity
entry id transaction_id account_id direction amount = record {
  id = id;
  transaction_id = transaction_id;
  account_id = account_id;
  direction = direction;
  amount = amount;
}

abbrev with_pair : ℕ → ℕ → ℕ → ℕ → ℤ → List LedgerEntryEntity → List LedgerEntryEntity
with_pair n id d c a es =
    (es ++ entry n id d EntryDirection.debit a ∷ [])
    ++ entry (suc n) id c EntryDirection.credit a ∷ []

balanced-with_pair :
    (n id d c : ℕ) (a : ℤ) (t : ℕ) (es : List LedgerEntryEntity)
    → debits t es ≡ credits t es
    → debits t (with_pair n id d c a es) ≡ credits t (with_pair n id d c a es)
unfolding total
balanced-with_pair n id d c a t es h =
    rw
      (
        total-append debit_of t (es ++ entry n id d EntryDirection.debit a ∷ []),
        total-append debit_of t es,
        total-append credit_of t (es ++ entry n id d EntryDirection.debit a ∷ []),
        total-append credit_of t es,
        h,
      )
      (elim (Bool-cases (id == t)) [
        | inl e ↦ rw e (omega int_laws)
        | inr e ↦ rw e (omega int_laws)
      ])

write_entry_pair-entries :
    (id d c : ℕ) (a : ℤ) (db : Db)
    → fits_amount a ≡ true
    → (write_entry_pair id d c a db).1.entries ≡ with_pair db.next_id id d c a db.entries
unfolding write_entry_pair create_entry ◌>>=◌
write_entry_pair-entries id d c a db e = rw (e, continue, e)

write_entry_pair-unpaid :
    (id d c : ℕ) (a : ℤ) (db : Db)
    → fits_amount a ≡ false
    → (write_entry_pair id d c a db).1.entries ≡ db.entries
unfolding write_entry_pair create_entry ◌>>=◌
write_entry_pair-unpaid id d c a db e = ground arith

write_entry_pair-IsBalanced :
    (id d c : ℕ) (a : ℤ) (db : Db) → IsBalanced db → IsBalanced (write_entry_pair id d c a db).1
write_entry_pair-IsBalanced id d c a db h = elim (Bool-cases (fits_amount a)) [
  | inl e ↦ record {
    balanced = λ t.
        rw (write_entry_pair-entries id d c a db e)
          (balanced-with_pair db.next_id id d c a t db.entries (h.balanced t));
  }
  | inr e ↦ same_entries db _ (write_entry_pair-unpaid id d c a db e) h
]

write_entry_pair-Keeps : (id d c : ℕ) (a : ℤ) → Keeps IsBalanced (write_entry_pair id d c a)
write_entry_pair-Keeps id d c a = record { at = λ db h. write_entry_pair-IsBalanced id d c a db h }

account_id-Keeps : (ty : AccountType) (o : ℕ) (c : Text) → Keeps IsBalanced (account_id ty o c)
unfolding account_id get_or_create_account ◌>>=◌
account_id-Keeps ty o c = record { at = λ db h. same_entries db _ (ground arith) h }

create_transaction-Keeps :
    (o : ℕ) (ty : TransactionType) (k : IdempotencyKey) (r : Option String)
    → Keeps IsBalanced (create_transaction o ty k r)
unfolding create_transaction
create_transaction-Keeps o ty k r = record { at = λ db h. same_entries db _ (ground arith) h }

update_transaction_status-Keeps :
    (id : ℕ) (s : TransactionStatus) (r : Option String)
    → Keeps IsBalanced (update_transaction_status id s r)
unfolding update_transaction_status
update_transaction_status-Keeps id s r = record { at = λ db h. same_entries db _ (ground arith) h }

write_outbox-Keeps :
    (bytes : EventEnvelope → ℕ) (o : ℕ) (ty : EventType) (v : Value)
    → Keeps IsBalanced (write_outbox bytes o ty v)
unfolding write_outbox ◌>>=◌ zoom ignore
write_outbox-Keeps bytes o ty v = record { at = λ db h. same_entries db _ refl h }

ruleset balance_rules = (
  keeps_rules, write_entry_pair-Keeps, account_id-Keeps, create_transaction-Keeps,
  update_transaction_status-Keeps, write_outbox-Keeps,
)

IsBalanced-writers : (bytes : EventEnvelope → ℕ) → Writers bytes IsBalanced
unfolding record_authorization record_capture record_void create_account_pair post_transaction
IsBalanced-writers bytes = record {
  outbox = λ o ty v. write_outbox-Keeps bytes o ty v;
  authorization = λ o a c r. search balance_rules depth 12;
  capture = λ o c a k r. search balance_rules depth 12;
  void = λ o t c a k. search balance_rules depth 12;
}

module _ (bytes : EventEnvelope → ℕ) (gateway : PaymentGateway) where
  -- Whatever the gateway answers and wherever the handler fails, an event leaves the debits of
  -- every ledger transaction equal to its credits, where they were equal before.
  pub handle-IsBalanced :
      (pool : Db) (lock : Option LockAnswer) (e : EventEnvelope) (s : Session)
      → IsBalanced s.db
      → IsBalanced (handle bytes gateway pool lock e s).1.db
  handle-IsBalanced pool lock e s h =
      (handle-Keeps bytes gateway IsBalanced (IsBalanced-writers bytes) pool lock e).at s h

  -- The operations behind the routes keep the books balanced too, on every outcome.
  pub service-IsBalanced :
      (order_id : ℕ) (amount : ℤ) (currency : Text) (s : Session)
      → IsBalanced s.db
      → IsBalanced (authorize_payment bytes gateway order_id amount currency s).1.db
        × IsBalanced (capture_payment bytes gateway order_id s).1.db
        × IsBalanced (void_payment bytes gateway order_id s).1.db
  service-IsBalanced o a c s h = (
    (authorize_payment-Keeps bytes gateway IsBalanced (IsBalanced-writers bytes) o a c).at s h,
    (capture_payment-Keeps bytes gateway IsBalanced (IsBalanced-writers bytes) o).at s h,
    (void_payment-Keeps bytes gateway IsBalanced (IsBalanced-writers bytes) o).at s h,
  )
