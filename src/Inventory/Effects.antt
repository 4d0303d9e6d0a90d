-- ===== src/Inventory/Effects.antt =====
-- What the statements of the inventory reach from a known state.
use koupang.Prelude.{
  ℕ, suc, ◌<◌, ◌≡◌, ◌≢◌, refl, true, false, Option, none, some, ◌∷◌, map, arith, ◌==◌, find,
  is_some, inl, inr, Bool-cases,
}
use koupang.Prelude.Int.{ℤ, pos, ◌<ℤ◌, ltb_ℤ}
use koupang.Errors.{AppError, ok, ok_or}
use koupang.Action.{map_err}
use koupang.Action.Triple.{Anything, Triple, Triple-start}
use koupang.Inventory.Tables.{
  InventoryDb, Sku, is_for, put_sku, SkuConstraint, stock_constraint, reserved_quantity_constraint,
  replace_sku, insert_reservation, new_reservation,
}

abbrev pub with_sku : InventoryDb → ℕ → Sku → InventoryDb
with_sku db k new = record db { skus = map (replace_sku k new) db.skus }

pub put-reaches :
    {F : AppError → InventoryDb → Type 0} (error : SkuConstraint → AppError) (k : ℕ) (new : Sku)
    (before : InventoryDb)
    → ((e : AppError) → F e before)
    → Triple
        (λ db. db ≡ before)
        (map_err error (put_sku k new))
        (λ _ db. db ≡ with_sku before k new)
        F
unfolding put_sku map_err
put-reaches error k new before back =
    Triple-start before (map_err error (put_sku k new))
      (elim (Bool-cases (ltb_ℤ new.reserved_quantity (pos 0))) [
        | inl e ↦ rw e (back (error reserved_quantity_constraint))
        | inr e ↦ elim (Bool-cases (ltb_ℤ new.stock_quantity (pos 0))) [
          | inl f ↦ rw (e, f) (back (error stock_constraint))
          | inr f ↦ rw (e, f) refl
        ]
      ])

abbrev pub with_reservation : InventoryDb → ℕ → ℕ → ℤ → InventoryDb
with_reservation db o k q = record db {
  reservations = new_reservation db.next_id o k q ∷ db.reservations;
  next_id = suc db.next_id;
}

pub insert-reaches :
    (o k : ℕ) (q : ℤ) (before : InventoryDb)
    → Triple
        (λ db. db ≡ before)
        (insert_reservation o k q)
        (λ _ db. (pos 0 <ℤ q) × (db ≡ with_reservation before o k q))
        Anything
unfolding insert_reservation
insert-reaches o k q before =
    Triple-start before (insert_reservation o k q) (elim (Bool-cases (ltb_ℤ (pos 0) q)) [
      | inl e ↦ elim (Bool-cases (is_some (find (is_for o k) before.reservations))) [
        | inl f ↦ rw (e, f) tt
        | inr f ↦ rw (e, f) (positive e, refl)
      ]
      | inr e ↦ rw e tt
    ])
  where
    positive : ltb_ℤ (pos 0) q ≡ true → pos 0 <ℤ q
    positive e = ground (arith, e)

pub given : {A : Type 0} (o : Option A) (e : AppError) (a : A) → ok_or o e ≡ ok a → o ≡ some a
given none e a h = ground (arith, h)
given (some x) e a h = ground (arith, h)

pub ==-self : (k : ℕ) → (k == k) ≡ true
==-self k = ground arith

pub ==-apart : (k i : ℕ) → i ≢ k → (k == i) ≡ false
==-apart k i ne = ground (arith, ne)

pub lt_suc : (n : ℕ) → n < suc n
lt_suc n = omega arith
