-- ===== src/Payment/Recording.antt =====
-- The three recordings of payment/src/payments/service.rs as one change: a transaction that is
-- posted, under an id not used before, and one event.
use Prim.Native.String.{String}
use koupang.Prelude.{
  ℕ, suc, ◌≤◌, ◌≡◌, true, false, Option, none, some, List, ◌∷◌, map, arith, ltb, find, is_some,
  subst,
}
use koupang.Prelude.Int.{ℤ}
use koupang.Strings.{fits_column}
use koupang.Errors.{AppError}
use koupang.Action.{◌>>=◌, ◌>>◌}
use koupang.Action.Triple.{Triple, Triple-bind, Triple-weaken, Triple-given}
use koupang.Json.{Text, Value}
use koupang.Events.{EventEnvelope, EventType}
use koupang.Outbox.{OutboxTable, max_payload_bytes}
use koupang.Payment.Types.{
  LedgerTransactionEntity, TransactionType, TransactionStatus, IdempotencyKey, auth_key, buyer,
  gateway_holding, platform_revenue,
}
use koupang.Payment.Repository.{
  fits_amount, Db, new_transaction, has_id, set_status, create_transaction,
}
use koupang.Payment.Records.{
  write_entry_pair, post_transaction, write_outbox, payment_envelope, record_authorization,
  record_capture, record_void, order_payload, authorized_payload,
}
use koupang.Payment.Effects.{
  Ledger, has_key, published, create_account_pair-Triple, create_transaction-Triple,
  write_entry_pair-Triple, write_outbox-Triple, update_transaction_status-Triple,
}

-- The transactions after a recording, `id` the new one.
abbrev pub with_posted :
    ℕ
    → ℕ
    → TransactionType
    → IdempotencyKey
    → Option String
    → List LedgerTransactionEntity
    → List LedgerTransactionEntity
with_posted id o ty k r ts =
    map (set_status id TransactionStatus.posted none) (new_transaction id o ty k r ∷ ts)

module _ (ts : List LedgerTransactionEntity) (ob : OutboxTable) (n : ℕ) where
  -- What a recording leaves.
  pub record Recorded (o : ℕ) (ty : TransactionType) (k : IdempotencyKey) (r : Option String)
      (ev : EventType) (v : ℕ → Value) (db : Db) : Type 0 where
    pub id : ℕ
    pub is_new : n ≤ id
    pub ledger : Ledger (with_posted id o ty k r ts) (published ob o ev (v id)) (suc id) db

module _ (bytes : EventEnvelope → ℕ) (F : AppError → Db → Type 0) where
  -- No event of this kind about the order can be too long, if `F` is to hold after a failure.
  abbrev pub Fits : ℕ → EventType → (ℕ → Value) → Type 0
  Fits o ty v =
      (id n : ℕ)
      → ltb max_payload_bytes (bytes (payment_envelope n o ty (v id))) ≡ true
      → (e : AppError) (db : Db) → F e db

  module _ (ts : List LedgerTransactionEntity) (ob : OutboxTable) (n : ℕ) where
    abbrev posted : LedgerTransactionEntity → List LedgerTransactionEntity
    posted t = map (set_status t.id TransactionStatus.posted none) (t ∷ ts)

    post_transaction-Triple :
        (t : LedgerTransactionEntity)
        → Triple
            (Ledger (t ∷ ts) ob (suc t.id))
            (post_transaction t.id)
            (λ _. Ledger (posted t) ob (suc t.id))
            F
    unfolding post_transaction
    post_transaction-Triple t =
        update_transaction_status-Triple (t ∷ ts) ob (suc t.id) F t.id TransactionStatus.posted none
          (ground arith)

    -- The end of each recording, once its accounts are known.
    posting-Triple :
        (o d c : ℕ) (ty : TransactionType) (k : IdempotencyKey) (r : Option String) (a : ℤ)
        (ev : EventType) (v : ℕ → Value)
        → (has_key k ts ≡ true → (e : AppError) (db : Db) → F e db)
        → (fits_column r ≡ false → (e : AppError) (db : Db) → F e db)
        → (fits_amount a ≡ false → (e : AppError) (db : Db) → F e db)
        → Fits o ev v
        → Triple
            (Ledger ts ob n)
            (do
              t ← create_transaction o ty k r
              write_entry_pair t.id d c a
              post_transaction t.id
              write_outbox bytes o ev (v t.id))
            (λ _. Recorded ts ob n o ty k r ev v)
            F
    posting-Triple o d c ty k r a ev v clash long unpaid big =
        Triple-bind _ (create_transaction-Triple ts ob n F o ty k r clash long) (λ t.
          Triple-given {C = t ≡ new_transaction t.id o ty k r}
            {P = λ db. (n ≤ t.id) × Ledger (t ∷ ts) ob (suc t.id) db}
            (λ same. Triple-given {C = n ≤ t.id} {P = Ledger (t ∷ ts) ob (suc t.id)} (λ new.
              Triple-bind (λ _. Ledger (t ∷ ts) ob (suc t.id))
                (write_entry_pair-Triple (t ∷ ts) ob (suc t.id) F t.id d c a unpaid)
                (λ _.
                  Triple-bind (λ _. Ledger (posted t) ob (suc t.id)) (post_transaction-Triple t)
                    (λ _.
                      Triple-weaken
                        (write_outbox-Triple (posted t) ob (suc t.id) F bytes o ev (v t.id)
                          (big t.id ob.next_id))
                        (λ db h. h)
                        (λ _ db h. record {
                          id = t.id;
                          is_new = new;
                          ledger =
                              subst
                                (λ x.
                                  Ledger
                                    (map (set_status t.id TransactionStatus.posted none) (x ∷ ts))
                                    (published ob o ev (v t.id)) (suc t.id) db)
                                same h;
                        }))))))

  module _ (ts : List LedgerTransactionEntity) (ob : OutboxTable) (n : ℕ) where
    pub record_authorization-Triple :
        (o : ℕ) (a : ℤ) (c : Text) (r : String)
        → (has_key (auth_key o) ts ≡ true → (e : AppError) (db : Db) → F e db)
        → (fits_column (some r) ≡ false → (e : AppError) (db : Db) → F e db)
        → (fits_amount a ≡ false → (e : AppError) (db : Db) → F e db)
        → Fits o EventType.payment_authorized (λ id. authorized_payload o id r)
        → Triple
            (Ledger ts ob n)
            (record_authorization bytes o a c r)
            (λ _.
              Recorded ts ob n o TransactionType.authorization
                (auth_key o)
                (some r)
                EventType.payment_authorized
                (λ id. authorized_payload o id r))
            F
    unfolding record_authorization
    record_authorization-Triple o a c r clash long unpaid big =
        Triple-bind _ (create_account_pair-Triple ts ob n F o c buyer gateway_holding) (λ accounts.
          posting-Triple ts ob n o accounts.1 accounts.0 _ _ _ a _ _ clash long unpaid big)

    pub record_capture-Triple :
        (o : ℕ) (c : Text) (a : ℤ) (k : IdempotencyKey) (r : String)
        → (has_key k ts ≡ true → (e : AppError) (db : Db) → F e db)
        → (fits_column (some r) ≡ false → (e : AppError) (db : Db) → F e db)
        → (fits_amount a ≡ false → (e : AppError) (db : Db) → F e db)
        → Fits o EventType.payment_captured (λ _. order_payload o)
        → Triple
            (Ledger ts ob n)
            (record_capture bytes o c a k r)
            (λ _.
              Recorded ts ob n o TransactionType.capture k
                (some r)
                EventType.payment_captured
                (λ _. order_payload o))
            F
    unfolding record_capture
    record_capture-Triple o c a k r clash long unpaid big =
        Triple-bind _ (create_account_pair-Triple ts ob n F o c gateway_holding platform_revenue)
          (λ accounts.
            posting-Triple ts ob n o accounts.1 accounts.0 _ _ _ a _ _ clash long unpaid big)

    pub record_void-Triple :
        (o auth : ℕ) (c : Text) (a : ℤ) (k : IdempotencyKey)
        → is_some (find (has_id auth) ts) ≡ true
        → (has_key k (map (set_status auth TransactionStatus.discarded none) ts) ≡ true
            → (e : AppError) (db : Db) → F e db)
        → (fits_amount a ≡ false → (e : AppError) (db : Db) → F e db)
        → Fits o EventType.payment_voided (λ _. order_payload o)
        → Triple
            (Ledger ts ob n)
            (record_void bytes o auth c a k)
            (λ _.
              Recorded
                (map (set_status auth TransactionStatus.discarded none) ts)
                ob
                n
                o
                TransactionType.void
                k
                none
                EventType.payment_voided
                (λ _. order_payload o))
            F
    unfolding record_void
    record_void-Triple o auth c a k known clash unpaid big =
        Triple-bind _
          (update_transaction_status-Triple ts ob n F auth TransactionStatus.discarded none known)
          (λ _.
            Triple-bind _ (create_account_pair-Triple _ ob n F o c buyer gateway_holding)
              (λ accounts.
                posting-Triple _ ob n o accounts.0 accounts.1 _ _ _ a _ _ clash
                  (λ f. absurd (ground (arith, f))) unpaid big))
