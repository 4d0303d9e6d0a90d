-- ===== src/Inventory/Reserving.antt =====
-- `reserve_inventory` keeps the counters right.
use koupang.Prelude.{
  ℕ, ◌≡◌, refl, sym, ◌∙◌, subst, Bool, true, false, ◌&&◌, negate, Option, none, some, arith, ◌==◌,
  if◌then◌else◌, inl, inr, Bool-cases,
}
use koupang.Prelude.Int.{ℤ, pos, ◌+ℤ◌, ◌-ℤ◌, ◌≤ℤ◌, ◌<ℤ◌, leb_ℤ, int_laws}
use koupang.Errors.{bad_request}
use koupang.Action.Triple.{
  Anything, Triple, Triple-bind, Triple-gets, Triple-lift, Triple-given, Triple-weaken,
}
use koupang.Inventory.Tables.{InventoryDb, Sku, sku_of}
use koupang.Inventory.Repository.{reserve_inventory, reservable}
use koupang.Inventory.Stock.{held, IsStocked, find-id}
use koupang.Inventory.Keeping.{replaced-IsStocked}
use koupang.Inventory.Effects.{
  with_sku, with_reservation, put-reaches, insert-reaches, given, ==-self, ==-apart, lt_suc,
}

-- What follows from the row that the reservation reaches.
reservable_facts :
    (q : ℤ) (found : Option Sku) (sku : Sku)
    → reservable q found ≡ some sku
    → (found ≡ some sku)
      × ((sku.is_deleted ≡ false) × (q ≤ℤ sku.stock_quantity -ℤ sku.reserved_quantity))
reservable_facts q none sku h = ground (arith, h)
reservable_facts q (some s) sku h =
    elim (Bool-cases (negate s.is_deleted && leb_ℤ q (s.stock_quantity -ℤ s.reserved_quantity))) [
      | inl e ↦
          subst
            (λ (y : Sku).
              (some s ≡ some y)
              × ((y.is_deleted ≡ false) × (q ≤ℤ y.stock_quantity -ℤ y.reserved_quantity)))
            (same e)
            (
              refl,
              (
                live s.is_deleted _ e,
                enough s.is_deleted q (s.stock_quantity -ℤ s.reserved_quantity) e,
              ),
            )
      | inr e ↦ absurd (unreached e)
    ]
  where
    same : negate s.is_deleted && leb_ℤ q (s.stock_quantity -ℤ s.reserved_quantity) ≡ true → s ≡ sku
    same e = ground (arith, h, e)

    unreached : negate s.is_deleted && leb_ℤ q (s.stock_quantity -ℤ s.reserved_quantity) ≡ false → ⊥
    unreached e = ground (arith, h, e)

    live : (d b : Bool) → negate d && b ≡ true → d ≡ false
    live d b e = ground (arith, e)

    enough : (d : Bool) (x y : ℤ) → negate d && leb_ℤ x y ≡ true → x ≤ℤ y
    enough d x y e = ground (arith, e)

module _ (o k : ℕ) (q : ℤ) (before : InventoryDb) (stocked : IsStocked before) where
  abbrev more_reserved : Sku → Sku
  more_reserved s = record s { reserved_quantity = s.reserved_quantity +ℤ q }

  abbrev after_reserve : Sku → InventoryDb
  after_reserve s = with_reservation (with_sku before k (more_reserved s)) o k q

  held-reserved :
      (sku : Sku) (i : ℕ)
      → held i (after_reserve sku).reservations
        ≡ (if k == i then q else pos 0) +ℤ held i before.reservations
  unfolding held
  held-reserved sku i = ground arith

  reserved-IsStocked :
      (sku : Sku)
      → sku_of before k ≡ some sku
      → sku.is_deleted ≡ false
      → q ≤ℤ sku.stock_quantity -ℤ sku.reserved_quantity
      → pos 0 <ℤ q
      → IsStocked (after_reserve sku)
  reserved-IsStocked sku found live fits positive =
      replaced-IsStocked before (after_reserve sku) k stocked
        (λ i ne. held-reserved sku i ∙ rw (==-apart k i ne) (omega int_laws))
        (positive, stocked.positive) (lt_suc before.next_id, stocked.ordered) sku
        (more_reserved sku) found (find-id k before.skus sku found) refl
        (λ _.
          let c = stocked.counted k sku found live in
          let at_k = find-id k before.skus sku found in
          record {
            exact =
                rw (held-reserved sku sku.id, at_k, ==-self k, rw at_k at c.exact) (omega int_laws);
            within = omega (int_laws, fits);
          })

  pub reserve_inventory-IsStocked :
      Triple (λ db. db ≡ before) (reserve_inventory o k q) (λ _ db. IsStocked db) Anything
  unfolding reserve_inventory
  reserve_inventory-IsStocked =
      Triple-bind (λ found db. (found ≡ reservable q (sku_of before k)) × (db ≡ before))
        (Triple-gets _ (λ db e. (rw e refl, e)))
        (λ found. Triple-given (λ is.
          Triple-bind (λ sku db. (found ≡ some sku) × (db ≡ before))
            (Triple-lift _ (λ sku db r e. (given found bad_request sku r, e)) (λ _ _ _ _. tt))
            (λ sku. Triple-given (λ got.
              let facts = reservable_facts q (sku_of before k) sku (sym is ∙ got) in
              Triple-bind (λ _ db. db ≡ with_sku before k (more_reserved sku))
                (put-reaches _ k (more_reserved sku) before (λ _. tt))
                (λ _.
                  Triple-weaken (insert-reaches o k q (with_sku before k (more_reserved sku)))
                    (λ db e. e)
                    (λ _ db p.
                      subst IsStocked (sym p.1)
                        (reserved-IsStocked sku facts.0 facts.1.0 facts.1.1 p.0)))))))
