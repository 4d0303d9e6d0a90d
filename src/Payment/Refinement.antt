-- ===== src/Payment/Refinement.antt =====
-- Each recording and each event implements one of the changes that a payment service promises.
use Prim.Native.String.{String}
use koupang.Prelude.{
  ℕ, ◌≤◌, ◌≡◌, ◌≢◌, refl, sym, ap, Option, none, List, [], ◌∷◌, arith, select, map-append,
  append-nil, ◌∙◌,
}
use koupang.Json.{Value}
use koupang.Events.{EventType}
use koupang.Payment.Types.{
  LedgerTransactionEntity, TransactionStatus, TransactionType, IdempotencyKey,
}
use koupang.Payment.Repository.{
  Db, derive_payment_state, new_transaction, state_of_type, list_transactions_by_order,
}
use koupang.Payment.Effects.{Ledger, published}
use koupang.Payment.Recording.{Recorded, with_posted}
use koupang.Payment.Lifecycle.{state_of, events_of, Descending, IsOrdered, Effect, Refines, nothing}
use koupang.Payment.Ids.{of_order, Descending-mono, set_status-above}

abbrev posted_transaction :
    ℕ → ℕ → TransactionType → IdempotencyKey → Option String → LedgerTransactionEntity
posted_transaction id o ty k r = record (new_transaction id o ty k r) {
  status = TransactionStatus.posted;
}

with_posted-eq :
    (n id o : ℕ) (ty : TransactionType) (k : IdempotencyKey) (r : Option String)
    (ts : List LedgerTransactionEntity)
    → n ≤ id
    → Descending n ts
    → with_posted id o ty k r ts ≡ posted_transaction id o ty k r ∷ ts
with_posted-eq n id o ty k r ts h d =
    ground (arith, set_status-above n id TransactionStatus.posted none ts h d)

derive-posted :
    (o id : ℕ) (ty : TransactionType) (k : IdempotencyKey) (r : Option String)
    (ts : List LedgerTransactionEntity)
    → derive_payment_state (select (of_order o) (posted_transaction id o ty k r ∷ ts))
      ≡ state_of_type ty
unfolding derive_payment_state
derive-posted o id ty k r ts = ground arith

derive-other :
    (o o' id : ℕ) (ty : TransactionType) (k : IdempotencyKey) (r : Option String)
    (ts : List LedgerTransactionEntity)
    → o' ≢ o
    → select (of_order o') (posted_transaction id o ty k r ∷ ts) ≡ select (of_order o') ts
derive-other o o' id ty k r ts ne = ground (arith, ne)

pub unchanged-Refines : (o : ℕ) (before : Db) → IsOrdered before → Refines o before before
unchanged-Refines o before d = record {
  ordered = d;
  events = [];
  effect = nothing;
  published = sym (append-nil (events_of before));
  others = λ o' ne. refl;
}

-- An event was written, and the ledger left as it was.
pub written-Refines :
    (o : ℕ) (before after : Db) (ev : EventType) (v : Value)
    → IsOrdered before
    → Effect (state_of before o) (state_of before o) (ev ∷ [])
    → Ledger before.transactions (published before.outbox o ev v) before.next_id after
    → Refines o before after
unfolding list_transactions_by_order
written-Refines o before after ev v d eff h = record {
  ordered =
      rw h.transactions
        (Descending-mono before.next_id after.next_id before.transactions h.bound d);
  events = ev ∷ [];
  effect = rw h.transactions eff;
  published = rw h.outbox (map-append _ before.outbox.rows _);
  others = λ o' ne. rw h.transactions refl;
}

module _ (o : ℕ) (before after : Db) (ts : List LedgerTransactionEntity) where
  pub listed :
      (ty : TransactionType) (k : IdempotencyKey) (r : Option String) (ev : EventType)
      (v : ℕ → Value)
      → Descending before.next_id ts
      → (h : Recorded ts before.outbox before.next_id o ty k r ev v after)
      → after.transactions ≡ posted_transaction h.id o ty k r ∷ ts
  listed ty k r ev v d h =
      h.ledger.transactions ∙ with_posted-eq before.next_id h.id o ty k r ts h.is_new d

  pub Recorded-state :
      (ty : TransactionType) (k : IdempotencyKey) (r : Option String) (ev : EventType)
      (v : ℕ → Value)
      → Descending before.next_id ts
      → Recorded ts before.outbox before.next_id o ty k r ev v after
      → state_of after o ≡ state_of_type ty
  unfolding list_transactions_by_order
  Recorded-state ty k r ev v d h = rw (listed ty k r ev v d h) (derive-posted o h.id ty k r ts)

  pub Recorded-Refines :
      (ty : TransactionType) (k : IdempotencyKey) (r : Option String) (ev : EventType)
      (v : ℕ → Value)
      → Descending before.next_id ts
      → ((o' : ℕ) → o' ≢ o → select (of_order o') ts ≡ list_transactions_by_order before o')
      → Recorded ts before.outbox before.next_id o ty k r ev v after
      → Effect (state_of before o) (state_of_type ty) (ev ∷ [])
      → Refines o before after
  unfolding list_transactions_by_order
  Recorded-Refines ty k r ev v d same h eff = record {
    ordered =
        rw (listed ty k r ev v d h)
          (h.ledger.bound, Descending-mono before.next_id h.id ts h.is_new d);
    events = ev ∷ [];
    effect = rw (Recorded-state ty k r ev v d h) eff;
    published = rw h.ledger.outbox (map-append _ before.outbox.rows _);
    others = λ o' ne.
        rw (listed ty k r ev v d h, derive-other o o' h.id ty k r ts ne)
          (ap derive_payment_state (same o' ne));
  }
