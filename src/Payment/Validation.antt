-- ===== src/Payment/Validation.antt =====
-- What passes the checks of payment/src/payments/rules.rs and the state checks of the service.
use koupang.Prelude.{ℕ, ◌≡◌, ◌↔◌, ◌⊎◌, refl, Bool, true, ◌&&◌, some, find, arith, if◌then◌else◌}
use koupang.Prelude.Int.{ℤ, ◌≤ℤ◌, leb_ℤ}
use koupang.Errors.{AppError, Result, ok, err, ◌>>=◌, map_err, ok_or, not_found}
use koupang.Json.{Text}
use koupang.Rules.{evaluate}
use koupang.Rules.Evaluation.{passed-eq-evaluate}
use koupang.Payment.Types.{
  PaymentState, new, failed, authorized, Operation, LedgerTransactionEntity, validate_for_capture,
  validate_for_void, to_app_error,
}
use koupang.Payment.Rules.{
  authorization_rules, eval_authorization, min_payment_amount, max_payment_amount, contains,
  supported_currencies, is_open,
}
use koupang.Payment.Lookup.{
  read_authorization, validate_for, validate_authorization, authorization_context,
  find_posted_authorization, Authorization, is_posted_authorization,
}
use koupang.Payment.Repository.{Db, list_transactions_by_order}
use koupang.Payment.Lifecycle.{state_of}

-- What an authorization needs: $0.50 to $100,000, a known currency, and no payment yet or a failed one.
pub record Acceptable (amount : ℤ) (currency : Text) (state : PaymentState) : Type 0 where
  pub at_least : min_payment_amount ≤ℤ amount
  pub at_most : amount ≤ℤ max_payment_amount
  pub known_currency : contains supported_currencies currency ≡ true
  pub is_open : (state ≡ new) ⊎ (state ≡ failed)

ok_if_all :
    (p q k o : Bool) (e : AppError)
    → ((if p && (q && (k && (o && true))) then ok tt else err e) ≡ ok tt)
      ↔ ((p ≡ true) × (q ≡ true) × (k ≡ true) × (o ≡ true))
ok_if_all p q k o e = ground arith

is_open_iff : (s : PaymentState) → (is_open s ≡ true) ↔ ((s ≡ new) ⊎ (s ≡ failed))
is_open_iff s = ground arith

-- The service lets an authorization through exactly when it is for $0.50 to $100,000 in a known
-- currency and its order has no payment yet, or a failed one.
pub validate_authorization_iff :
    (amount : ℤ) (currency : Text) (state : PaymentState)
    → (validate_authorization amount currency state ≡ ok tt) ↔ Acceptable amount currency state
unfolding validate_authorization authorization_rules eval_authorization evaluate
validate_authorization_iff a c s =
    rw (passed-eq-evaluate (eval_authorization (authorization_context a c s)) authorization_rules) (
      λ e.
          let (p, q, k, o) = (ok_if_all _ _ _ _ _).0 e in
          record {
            at_least = leb→le min_payment_amount a p;
            at_most = leb→le a max_payment_amount q;
            known_currency = k;
            is_open = (is_open_iff s).0 o;
          },
      λ h. (ok_if_all _ _ _ _ _).1 (
        le→leb min_payment_amount a h.at_least,
        le→leb a max_payment_amount h.at_most,
        h.known_currency,
        (is_open_iff s).1 h.is_open,
      ),
    )
  where
    le→leb : (x y : ℤ) → x ≤ℤ y → leb_ℤ x y ≡ true
    le→leb x y h = ground arith

    leb→le : (x y : ℤ) → leb_ℤ x y ≡ true → x ≤ℤ y
    leb→le x y h = ground arith

-- A posted authorization was found: the order is authorized, and the authorization is its own.
pub record Found (db : Db) (order_id : ℕ) (auth : Authorization) : Type 0 where
  pub authorized : state_of db order_id ≡ authorized
  pub row : LedgerTransactionEntity
  pub found : find is_posted_authorization (list_transactions_by_order db order_id) ≡ some row
  pub id : row.id ≡ auth.id

bind-ok :
    {E A B : Type 0} (m : Result E A) (f : A → Result E B) (b : B)
    → (m >>= f) ≡ ok b
    → (a : A) × ((m ≡ ok a) × (f a ≡ ok b))
bind-ok (ok a) f b e = (a, (refl, e))
bind-ok (err x) f b e = ground arith

validated :
    (op : Operation) (s : PaymentState) (u : Unit {0})
    → (op ≡ Operation.capture) ⊎ (op ≡ Operation.void)
    → map_err to_app_error (validate_for op s) ≡ ok u
    → s ≡ authorized
unfolding validate_for_capture validate_for_void
validated op s u h e = ground (arith, e, h)

pub find_posted_authorization-Found :
    (db : Db) (o : ℕ) (op : Operation) (auth : Authorization)
    → (op ≡ Operation.capture) ⊎ (op ≡ Operation.void)
    → find_posted_authorization db o op ≡ ok auth
    → Found db o auth
unfolding find_posted_authorization
find_posted_authorization-Found db o op auth h e =
    let (u, (is_valid, e1)) =
      bind-ok (map_err to_app_error (validate_for op (state_of db o)))
        (λ _.
          ok_or (find is_posted_authorization (list_transactions_by_order db o)) not_found
          >>= read_authorization db)
        auth e in
    let (row, (found, e2)) =
      bind-ok (ok_or (find is_posted_authorization (list_transactions_by_order db o)) not_found)
        (read_authorization db) auth e1 in
    record {
      authorized = validated op (state_of db o) u h is_valid;
      row = row;
      found = ground (arith, found);
      id = ground (arith, e2);
    }
