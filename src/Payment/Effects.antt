-- ===== src/Payment/Effects.antt =====
-- What each write of payment/src/payments/service.rs does to the transactions and to the outbox.
-- A write that fails for a reason that a caller excludes needs no failure condition.
use Prim.Native.String.{String}
use koupang.Prelude.{
  ℕ, suc, ◌+◌, ◌≤◌, ◌≡◌, refl, Bool, true, false, Option, inl, inr, List, [], ◌∷◌, ◌++◌, map, arith,
  ltb, sym, Option-cases, Bool-cases, find, is_some,
}
use koupang.Prelude.Int.{ℤ}
use koupang.Strings.{fits_column}
use koupang.Errors.{AppError}
use koupang.Action.{◌>>=◌, ignore, zoom}
use koupang.Action.Triple.{Triple, Triple-bind, Triple-pure}
use koupang.Json.{Text, Value}
use koupang.Events.{EventEnvelope, EventType}
use koupang.Outbox.{OutboxTable, new_row, from_envelope, max_payload_bytes}
use koupang.Payment.Types.{
  AccountType, EntryDirection, LedgerTransactionEntity, TransactionType, TransactionStatus,
  IdempotencyKey,
}
use koupang.Payment.Repository.{
  fits_amount, Db, is_account, get_or_create_account, create_transaction, new_transaction,
  create_entry, key_eq, has_id, update_transaction_status, set_status,
  get_transaction_by_idempotency_key,
}
use koupang.Payment.Records.{
  account_id, create_account_pair, write_entry_pair, write_outbox, payment_envelope,
}

-- The transactions `ts`, the outbox `ob` and a counter of `n` at least.
pub record Ledger (ts : List LedgerTransactionEntity) (ob : OutboxTable) (n : ℕ) (db : Db)
    : Type 0 where
  pub transactions : db.transactions ≡ ts
  pub outbox : db.outbox ≡ ob
  pub bound : n ≤ db.next_id

abbrev pub has_key : IdempotencyKey → List LedgerTransactionEntity → Bool
has_key k ts = is_some (find (λ t. key_eq t.idempotency_key k) ts)

-- The outbox after an event about an order.
abbrev pub published : (ob : OutboxTable) → ℕ → EventType → Value → OutboxTable
published ob o ty v = record ob {
  rows =
      ob.rows
      ++ new_row ob (from_envelope "payments.events" (payment_envelope ob.next_id o ty v)) ∷ [];
  next_id = ob.next_id + 1;
}

module _ (ts : List LedgerTransactionEntity) (ob : OutboxTable) (n : ℕ)
    (F : AppError → Db → Type 0) where
  account_id-Triple :
      (ty : AccountType) (o : ℕ) (c : Text)
      → Triple (Ledger ts ob n) (account_id ty o c) (λ _. Ledger ts ob n) F
  unfolding account_id get_or_create_account ◌>>=◌
  account_id-Triple ty o c = record {
    at = λ db h. elim (Option-cases (find (is_account ty o c) db.accounts)) [
      | inl e ↦ rw e (record {
        transactions = h.transactions;
        outbox = h.outbox;
        bound = omega (arith, h.bound);
      })
      | inr (a, e) ↦ rw e h
    ];
  }

  pub create_account_pair-Triple :
      (o : ℕ) (c : Text) (d k : AccountType)
      → Triple (Ledger ts ob n) (create_account_pair o c d k) (λ _. Ledger ts ob n) F
  unfolding create_account_pair
  create_account_pair-Triple o c d k =
      Triple-bind (λ _. Ledger ts ob n) (account_id-Triple d o c)
        (λ a.
          Triple-bind (λ _. Ledger ts ob n) (account_id-Triple k o c)
            (λ b. Triple-pure (a, b) (λ db h. h)))

  pub create_transaction-Triple :
      (o : ℕ) (ty : TransactionType) (k : IdempotencyKey) (r : Option String)
      → (has_key k ts ≡ true → (e : AppError) (db : Db) → F e db)
      → (fits_column r ≡ false → (e : AppError) (db : Db) → F e db)
      → Triple
          (Ledger ts ob n)
          (create_transaction o ty k r)
          (λ t db.
            (t ≡ new_transaction t.id o ty k r) × ((n ≤ t.id) × Ledger (t ∷ ts) ob (suc t.id) db))
          F
  unfolding create_transaction get_transaction_by_idempotency_key
  create_transaction-Triple o ty k r clash long = record {
    at = λ db h. elim (Bool-cases (has_key k db.transactions)) [
      | inl e ↦ rw e (clash (rw (sym h.transactions) e) _ _)
      | inr e ↦ rw e (elim (Bool-cases (fits_column r)) [
        | inl f ↦ rw f (
          refl,
          (
            h.bound,
            record {
              transactions = rw h.transactions refl;
              outbox = h.outbox;
              bound = omega arith;
            },
          ),
        )
        | inr f ↦ rw f (long f _ _)
      ])
    ];
  }

  create_entry-Triple :
      (id a : ℕ) (d : EntryDirection) (amount : ℤ)
      → (fits_amount amount ≡ false → (e : AppError) (db : Db) → F e db)
      → Triple (Ledger ts ob n) (create_entry id a d amount) (λ _. Ledger ts ob n) F
  unfolding create_entry
  create_entry-Triple id a d amount unpaid = record {
    at = λ db h. elim (Bool-cases (fits_amount amount)) [
      | inl e ↦ rw e (record {
        transactions = h.transactions;
        outbox = h.outbox;
        bound = omega (arith, h.bound);
      })
      | inr e ↦ rw e (unpaid e _ _)
    ];
  }

  pub write_entry_pair-Triple :
      (id d k : ℕ) (amount : ℤ)
      → (fits_amount amount ≡ false → (e : AppError) (db : Db) → F e db)
      → Triple (Ledger ts ob n) (write_entry_pair id d k amount) (λ _. Ledger ts ob n) F
  unfolding write_entry_pair
  write_entry_pair-Triple id d k amount unpaid =
      Triple-bind (λ _. Ledger ts ob n)
        (create_entry-Triple id d EntryDirection.debit amount unpaid)
        (λ _.
          Triple-bind (λ _. Ledger ts ob n)
            (create_entry-Triple id k EntryDirection.credit amount unpaid)
            (λ _. Triple-pure tt (λ db h. h)))

  pub write_outbox-Triple :
      (bytes : EventEnvelope → ℕ) (o : ℕ) (ty : EventType) (v : Value)
      → (ltb max_payload_bytes (bytes (payment_envelope ob.next_id o ty v)) ≡ true
          → (e : AppError) (db : Db) → F e db)
      → Triple
          (Ledger ts ob n)
          (write_outbox bytes o ty v)
          (λ _. Ledger ts (published ob o ty v) n)
          F
  unfolding write_outbox ◌>>=◌ zoom ignore
  write_outbox-Triple bytes o ty v big = record {
    at = λ db h.
        elim (Bool-cases
          (ltb max_payload_bytes (bytes (payment_envelope db.outbox.next_id o ty v)))) [
            | inl e ↦ rw e (big (rw (sym h.outbox) e) _ _)
            | inr e ↦ rw e (record {
              transactions = h.transactions;
              outbox = rw h.outbox refl;
              bound = h.bound;
            })
          ];
  }

  pub update_transaction_status-Triple :
      (id : ℕ) (s : TransactionStatus) (r : Option String)
      → is_some (find (has_id id) ts) ≡ true
      → Triple
          (Ledger ts ob n)
          (update_transaction_status id s r)
          (λ _. Ledger (map (set_status id s r) ts) ob n)
          F
  unfolding update_transaction_status
  update_transaction_status-Triple id s r known = record {
    at = λ db h.
        rw (h.transactions, known)
          (record { transactions = refl; outbox = h.outbox; bound = h.bound });
  }
