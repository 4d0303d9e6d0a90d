-- ===== src/Inventory/Closing.antt =====
-- The release and the confirmation of a reservation keep the counters right.
use koupang.Prelude.{
  ℕ, ◌≡◌, ◌≢◌, refl, sym, ◌∙◌, subst, true, false, Option, none, some, List, [], ◌∷◌, map, arith,
  ◌==◌, if◌then◌else◌, find, Every,
}
use koupang.Prelude.Int.{ℤ, pos, ◌+ℤ◌, ◌-ℤ◌, ◌≤ℤ◌, ◌<ℤ◌, int_laws}
use koupang.Errors.{AppError, Result, ok, not_found, internal_server_error}
use koupang.Action.{◌>>=◌, ◌>>◌, gets, lift, map_err, pure}
use koupang.Action.Triple.{
  Triple, Triple-bind, Triple-pure, Triple-gets, Triple-lift, Triple-given, Triple-start,
  Triple-if_bind,
}
use koupang.Inventory.Tables.{
  InventoryDb, InventoryReservationEntity, ReservationStatus, released, confirmed, is_reserved, Sku,
  sku_of, put_sku, SkuConstraint, set_reservation_status, mark,
}
use koupang.Inventory.Repository.{
  is_open, open_reservation, update_live_sku, less_reserved, less_stock, confirm_error,
  release_reservation, confirm_reservation,
}
use koupang.Inventory.Stock.{
  held, IsPositive, IsStocked, find-id, Every-mark, Descends-mark, held-mark,
}
use koupang.Inventory.Keeping.{replaced-IsStocked, unlinked-IsStocked}
use koupang.Inventory.Effects.{with_sku, put-reaches, given, ==-self, ==-apart}

-- Closing the open reservation `r` of a SKU.
module _ (o k : ℕ) (status : ReservationStatus) (closed : is_reserved status ≡ false)
    (before : InventoryDb) (stocked : IsStocked before) (r : InventoryReservationEntity)
    (found : find (is_open o k) before.reservations ≡ some r) where
  abbrev after_close : InventoryDb → InventoryDb
  after_close db = record db { reservations = map (mark r.id status) db.reservations }

  held-closed :
      (i : ℕ)
      → held i before.reservations
        ≡ held i (map (mark r.id status) before.reservations)
          +ℤ (if k == i then r.quantity else pos 0)
  held-closed =
      held-mark before.next_id o k status before.reservations r closed stocked.ordered found

  held-kept :
      (i : ℕ)
      → i ≢ k
      → held i (map (mark r.id status) before.reservations) ≡ held i before.reservations
  held-kept i ne = rw (held-closed i, ==-apart k i ne) (omega int_laws)

  unlinked-closed :
      ((s : Sku) → sku_of before k ≡ some s → s.is_deleted ≢ false) → IsStocked (after_close before)
  unlinked-closed gone =
      unlinked-IsStocked before (after_close before) k stocked held-kept
        (Every-mark r.id status before.reservations stocked.positive)
        (Descends-mark r.id status before.next_id before.reservations stocked.ordered) gone refl

  linked-closed :
      (s new : Sku)
      → sku_of before k ≡ some s
      → s.is_deleted ≡ false
      → new.id ≡ s.id
      → new.reserved_quantity ≡ s.reserved_quantity -ℤ r.quantity
      → new.reserved_quantity ≤ℤ new.stock_quantity
      → IsStocked (after_close (with_sku before k new))
  linked-closed s new sku live same less within =
      let at_k = find-id k before.skus s sku in
      let c = stocked.counted k s sku live in
      replaced-IsStocked before (after_close (with_sku before k new)) k stocked held-kept
        (Every-mark r.id status before.reservations stocked.positive)
        (Descends-mark r.id status before.next_id before.reservations stocked.ordered) s new sku
        (same ∙ at_k) refl
        (λ _. record {
          exact =
              rw (same, at_k, less, rw at_k at c.exact)
                (less_later _ _ _ (rw (==-self k) at (held-closed k)));
          within = within;
        })
    where
      less_later : (a b q : ℤ) → a ≡ b +ℤ q → a -ℤ q ≡ b
      less_later a b q h = rw h (omega int_laws)

  -- The `UPDATE` of the SKU and that of the reservation.
  close-IsStocked :
      (error : SkuConstraint → AppError) (change : Sku → Sku)
      → ((s : Sku) → (change s).id ≡ s.id)
      → ((s : Sku) → (change s).reserved_quantity ≡ s.reserved_quantity -ℤ r.quantity)
      → ((s : Sku)
          → s.reserved_quantity ≤ℤ s.stock_quantity
          → (change s).reserved_quantity ≤ℤ (change s).stock_quantity)
      → (row : Option Sku) → sku_of before k ≡ row
      → Triple
          (λ db. db ≡ before)
          (update_live_sku error k change row >> set_reservation_status r.id status)
          (λ _ db. IsStocked db)
          (λ _ db. IsStocked db)
  unfolding update_live_sku set_reservation_status
  close-IsStocked error change same less within none e =
      Triple-bind (λ _ db. db ≡ before) (Triple-pure tt (λ _ h. h))
        (λ _.
          Triple-start before (set_reservation_status r.id status)
            (unlinked-closed (λ s got. absurd (none_some s (sym e ∙ got)))))
    where
      none_some : (s : Sku) → none ≡ some s → ⊥
      none_some s h = ground (arith, h)
  close-IsStocked error change same less within (some s) e =
      Triple-if_bind s.is_deleted (pure tt) (map_err error (put_sku k (change s)))
        (λ _. set_reservation_status r.id status)
        (λ d.
          Triple-bind (λ _ db. db ≡ before) (Triple-pure tt (λ _ h. h))
            (λ _.
              Triple-start before (set_reservation_status r.id status)
                (unlinked-closed (λ y got live. deleted y (sym e ∙ got) d live))))
        (λ l.
          Triple-bind (λ _ db. db ≡ with_sku before k (change s))
            (put-reaches error k (change s) before (λ _. stocked))
            (λ _. Triple-start (with_sku before k (change s)) (set_reservation_status r.id status) (
              linked-closed s (change s) e l (same s) (less s)
                (within s (stocked.counted k s e l).within))))
    where
      deleted : (y : Sku) → some s ≡ some y → s.is_deleted ≡ true → y.is_deleted ≡ false → ⊥
      deleted y h d live = ground (arith, h, d, live)

module _ (o k : ℕ) (before : InventoryDb) (stocked : IsStocked before) where
  found_open :
      (row : Result AppError InventoryReservationEntity) (r : InventoryReservationEntity)
      → row ≡ open_reservation before o k
      → row ≡ ok r
      → find (is_open o k) before.reservations ≡ some r
  found_open row r is got =
      given (find (is_open o k) before.reservations) not_found r (sym is ∙ got)

  positive_found :
      (rs : List InventoryReservationEntity) (r : InventoryReservationEntity)
      → Every IsPositive rs
      → find (is_open o k) rs ≡ some r
      → pos 0 <ℤ r.quantity
  positive_found [] r h f = ground (arith, f)
  positive_found (x ∷ xs) r h f = ground (arith, f, h.0, positive_found xs r h.1)

  -- The two operations read the open reservation, then the SKU.
  module _ (status : ReservationStatus) (closed : is_reserved status ≡ false)
      (error : SkuConstraint → AppError) (change : ℤ → Sku → Sku)
      (same : (q : ℤ) (s : Sku) → (change q s).id ≡ s.id)
      (less : (q : ℤ) (s : Sku) → (change q s).reserved_quantity ≡ s.reserved_quantity -ℤ q)
      (within : (q : ℤ) (s : Sku)
        → pos 0 <ℤ q
        → s.reserved_quantity ≤ℤ s.stock_quantity
        → (change q s).reserved_quantity ≤ℤ (change q s).stock_quantity) where
    closing-IsStocked :
        Triple
          (λ db. db ≡ before)
          (do
            found ← gets (λ db. open_reservation db o k)
            reservation ← lift found
            sku ← gets (λ db. sku_of db k)
            update_live_sku error k (change reservation.quantity) sku
            set_reservation_status reservation.id status)
          (λ _ db. IsStocked db)
          (λ _ db. IsStocked db)
    closing-IsStocked =
        Triple-bind (λ found db. (found ≡ open_reservation before o k) × (db ≡ before))
          (Triple-gets _ (λ db e. (rw e refl, e)))
          (λ found. Triple-given (λ is.
            Triple-bind (λ r db. (found ≡ ok r) × (db ≡ before))
              (Triple-lift _ (λ r db got e. (got, e)) (λ _ db _ e. subst IsStocked (sym e) stocked))
              (λ r. Triple-given (λ got.
                Triple-bind (λ sku db. (sku_of before k ≡ sku) × (db ≡ before))
                  (Triple-gets _ (λ db e. (rw e refl, e)))
                  (λ sku. Triple-given (λ at_sku.
                    let it = found_open found r is got in
                    close-IsStocked o k status closed before stocked r it error (change r.quantity)
                      (same r.quantity) (less r.quantity)
                      (λ s.
                        within r.quantity s
                          (positive_found before.reservations r stocked.positive it))
                      sku at_sku))))))

  pub release_reservation-IsStocked :
      Triple
        (λ db. db ≡ before)
        (release_reservation o k)
        (λ _ db. IsStocked db)
        (λ _ db. IsStocked db)
  unfolding release_reservation
  release_reservation-IsStocked =
      closing-IsStocked released refl (λ _. internal_server_error) less_reserved (λ q s. refl)
        (λ q s. refl) (λ q s p h. omega (int_laws, p, h))

  pub confirm_reservation-IsStocked :
      Triple
        (λ db. db ≡ before)
        (confirm_reservation o k)
        (λ _ db. IsStocked db)
        (λ _ db. IsStocked db)
  unfolding confirm_reservation
  confirm_reservation-IsStocked =
      closing-IsStocked confirmed refl confirm_error less_stock (λ q s. refl) (λ q s. refl)
        (λ q s p h. omega (int_laws, p, h))
