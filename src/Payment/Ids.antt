-- ===== src/Payment/Ids.antt =====
-- Ids that descend: a status update by id reaches one transaction, and leaves other orders alone.
use Prim.Native.String.{String}
use koupang.Prelude.{
  ℕ, ◌≤◌, ◌<◌, ◌≡◌, ◌≢◌, refl, Bool, true, Option, some, inl, inr, List, [], ◌∷◌, map, arith, ◌==◌,
  find, select, is_some, Every, ◌⊎◌, sym, subst,
}
use koupang.Payment.Types.{LedgerTransactionEntity, TransactionStatus}
use koupang.Payment.Repository.{has_id, set_status}
use koupang.Payment.Lookup.{is_posted_authorization}
use koupang.Payment.Lifecycle.{Descending}

abbrev pub of_order : ℕ → LedgerTransactionEntity → Bool
of_order o t = t.order_id == o

pub Descending-mono :
    (m n : ℕ) (ts : List LedgerTransactionEntity) → m ≤ n → Descending m ts → Descending n ts
Descending-mono m n [] h d = tt
Descending-mono m n (t ∷ ts) h d = (omega (arith, d.0), d.1)

set_status-id :
    (id : ℕ) (s : TransactionStatus) (r : Option String) (t : LedgerTransactionEntity)
    → (set_status id s r t).id ≡ t.id
set_status-id id s r t = ground arith

set_status-order_id :
    (id : ℕ) (s : TransactionStatus) (r : Option String) (t : LedgerTransactionEntity)
    → (set_status id s r t).order_id ≡ t.order_id
set_status-order_id id s r t = ground arith

pub Descending-set_status :
    (n id : ℕ) (s : TransactionStatus) (r : Option String) (ts : List LedgerTransactionEntity)
    → Descending n ts
    → Descending n (map (set_status id s r) ts)
Descending-set_status n id s r [] d = tt
Descending-set_status n id s r (t ∷ ts) d =
    rw (set_status-id id s r t) (d.0, Descending-set_status t.id id s r ts d.1)

pub set_status-above :
    (n id : ℕ) (s : TransactionStatus) (r : Option String) (ts : List LedgerTransactionEntity)
    → n ≤ id
    → Descending n ts
    → map (set_status id s r) ts ≡ ts
set_status-above n id s r [] h d = refl
set_status-above n id s r (t ∷ ts) h d =
    ground (arith, d.0, set_status-above t.id id s r ts (omega (arith, d.0)) d.1)

-- Only transactions of `o` have this id.
abbrev pub Owned : ℕ → ℕ → List LedgerTransactionEntity → Type 0
Owned id o = Every (λ t. t.id ≡ id → t.order_id ≡ o)

pub set_status-other :
    (id : ℕ) (s : TransactionStatus) (r : Option String) (o o' : ℕ)
    (ts : List LedgerTransactionEntity)
    → o' ≢ o
    → Owned id o ts
    → select (of_order o') (map (set_status id s r) ts) ≡ select (of_order o') ts
set_status-other id s r o o' [] ne own = refl
set_status-other id s r o o' (t ∷ ts) ne own =
    ground
      (arith, ne, own.0, set_status-order_id id s r t, set_status-other id s r o o' ts ne own.1)

found-cons :
    (o : ℕ) (x : LedgerTransactionEntity) (xs : List LedgerTransactionEntity)
    (t : LedgerTransactionEntity)
    → find is_posted_authorization (select (of_order o) (x ∷ xs)) ≡ some t
    → ((x ≡ t) × (x.order_id ≡ o))
      ⊎ (find is_posted_authorization (select (of_order o) xs) ≡ some t)
found-cons o x xs t e = ground (arith, e)

pub found-bound :
    (n o : ℕ) (ts : List LedgerTransactionEntity) (t : LedgerTransactionEntity)
    → Descending n ts
    → find is_posted_authorization (select (of_order o) ts) ≡ some t
    → (t.id < n) × (is_some (find (has_id t.id) ts) ≡ true)
found-bound n o [] t d e = ground arith
found-bound n o (x ∷ xs) t d e = elim (found-cons o x xs t e) [
  | inl here ↦ rw (sym here.0) (d.0, ground arith)
  | inr later ↦
      let (less, known) = found-bound x.id o xs t d.1 later in
      (omega (arith, less, d.0), ground (arith, less, known))
]

below-Owned :
    (n id o : ℕ) (ts : List LedgerTransactionEntity) → n ≤ id → Descending n ts → Owned id o ts
below-Owned n id o [] h d = tt
below-Owned n id o (x ∷ xs) h d =
    (λ same. ground (arith, same, h, d.0), below-Owned x.id id o xs (omega (arith, h, d.0)) d.1)

pub found-Owned :
    (n o : ℕ) (ts : List LedgerTransactionEntity) (t : LedgerTransactionEntity)
    → Descending n ts
    → find is_posted_authorization (select (of_order o) ts) ≡ some t
    → Owned t.id o ts
found-Owned n o [] t d e = tt
found-Owned n o (x ∷ xs) t d e = elim (found-cons o x xs t e) [
  | inl here ↦
      subst (λ y. Owned y.id o (x ∷ xs)) here.0
        (λ _. here.1, below-Owned x.id x.id o xs (omega arith) d.1)
  | inr later ↦
      let (less, known) = found-bound x.id o xs t d.1 later in
      (λ same. ground (arith, same, less), found-Owned x.id o xs t d.1 later)
]
