-- ===== src/Inventory/Stock.antt =====
-- What the reservations hold of each SKU, and the tables in which the counters agree with it.
use koupang.Prelude.{
  ℕ, ◌≤◌, ◌<◌, ◌≡◌, ◌≢◌, refl, subst, true, false, ◌&&◌, some, List, [], ◌∷◌, map, arith, ◌==◌,
  if◌then◌else◌, find, Every, inl, inr, Bool-cases,
}
use koupang.Prelude.Int.{ℤ, pos, ◌+ℤ◌, ◌≤ℤ◌, ◌<ℤ◌, int_laws}
use koupang.Inventory.Tables.{
  InventoryDb, InventoryReservationEntity, ReservationStatus, is_reserved, Sku, is_sku, sku_of,
  replace_sku, mark,
}
use koupang.Inventory.Repository.{is_open}

-- The sum of the open reservations of a SKU.
module _ (sku_id : ℕ) where
  unfoldable pub held : List InventoryReservationEntity → ℤ
  held [] = pos 0
  held (r ∷ rs) =
      (if r.sku_id == sku_id && is_reserved r.status then r.quantity else pos 0) +ℤ held rs

-- The ids of the reservations, newest first, strictly descend from below `n`.
abbrev pub Descends : ℕ → List InventoryReservationEntity → Type 0
Descends n [] = Unit
Descends n (r ∷ rs) = (r.id < n) × Descends r.id rs

abbrev pub IsPositive : InventoryReservationEntity → Type 0
IsPositive r = pos 0 <ℤ r.quantity

-- A SKU that is not deleted counts as reserved what the open reservations hold of it, and no more
-- than its stock.
pub record IsCounted (db : InventoryDb) (s : Sku) : Type 0 where
  pub exact : s.reserved_quantity ≡ held s.id db.reservations
  pub within : s.reserved_quantity ≤ℤ s.stock_quantity

pub record IsStocked (db : InventoryDb) : Type 0 where
  pub counted : (id : ℕ) (s : Sku) → sku_of db id ≡ some s → s.is_deleted ≡ false → IsCounted db s
  pub positive : Every IsPositive db.reservations
  pub ordered : Descends db.next_id db.reservations

pub find-id : (id : ℕ) (l : List Sku) (s : Sku) → find (is_sku id) l ≡ some s → s.id ≡ id
find-id id [] s h = ground (arith, h)
find-id id (x ∷ xs) s h = ground (arith, h, find-id id xs s)

pub find-replaced :
    (id : ℕ) (new old : Sku) (l : List Sku)
    → new.id ≡ id
    → find (is_sku id) l ≡ some old
    → find (is_sku id) (map (replace_sku id new) l) ≡ some new
find-replaced id new old [] e h = ground (arith, h)
find-replaced id new old (x ∷ xs) e h = ground (arith, e, h, find-replaced id new old xs e)

pub find-replaced_other :
    (id i : ℕ) (new : Sku) (l : List Sku)
    → new.id ≡ id
    → i ≢ id
    → find (is_sku i) (map (replace_sku id new) l) ≡ find (is_sku i) l
find-replaced_other id i new [] e ne = refl
find-replaced_other id i new (x ∷ xs) e ne =
    ground (arith, e, ne, find-replaced_other id i new xs e ne)

held-nonneg :
    (k : ℕ) (rs : List InventoryReservationEntity) → Every IsPositive rs → pos 0 ≤ℤ held k rs
unfolding held
held-nonneg k [] h = omega arith
held-nonneg k (r ∷ rs) h =
    let rest = held-nonneg k rs h.1 in
    elim (Bool-cases (r.sku_id == k && is_reserved r.status)) [
      | inl e ↦ rw e (omega (int_laws, h.0, rest))
      | inr e ↦ rw e (omega (int_laws, rest))
    ]

module _ (id : ℕ) (status : ReservationStatus) where
  pub Every-mark :
      (rs : List InventoryReservationEntity)
      → Every IsPositive rs
      → Every IsPositive (map (mark id status) rs)
  Every-mark [] h = tt
  Every-mark (r ∷ rs) h = (ground (arith, h.0), Every-mark rs h.1)

  mark-id : (r : InventoryReservationEntity) → (mark id status r).id ≡ r.id
  mark-id r = ground arith

  pub Descends-mark :
      (n : ℕ) (rs : List InventoryReservationEntity)
      → Descends n rs
      → Descends n (map (mark id status) rs)
  Descends-mark n [] h = tt
  Descends-mark n (r ∷ rs) h = rw (mark-id r) (h.0, Descends-mark r.id rs h.1)

  mark-above :
      (n : ℕ) (rs : List InventoryReservationEntity)
      → n ≤ id
      → Descends n rs
      → map (mark id status) rs ≡ rs
  mark-above n [] h d = refl
  mark-above n (r ∷ rs) h d = ground (arith, d.0, mark-above r.id rs (omega (arith, d.0)) d.1)

  mark_self :
      (r : InventoryReservationEntity) → r.id ≡ id → mark id status r ≡ record r { status = status }
  mark_self r e = ground (arith, e)

  mark-other : (r : InventoryReservationEntity) → r.id ≢ id → mark id status r ≡ r
  mark-other r ne = ground (arith, ne)

found-below :
    (n o k : ℕ) (rs : List InventoryReservationEntity) (r : InventoryReservationEntity)
    → Descends n rs
    → find (is_open o k) rs ≡ some r
    → r.id < n
found-below n o k [] r d h = ground (arith, h)
found-below n o k (x ∷ xs) r d h = ground (arith, h, d.0, found-below x.id o k xs r d.1)

open_parts :
    (o k : ℕ) (r : InventoryReservationEntity)
    → is_open o k r ≡ true
    → (r.sku_id ≡ k) × (is_reserved r.status ≡ true)
open_parts o k r h = ground (arith, h)

held-mark_first :
    (o k : ℕ) (status : ReservationStatus) (x : InventoryReservationEntity)
    (xs : List InventoryReservationEntity)
    → is_reserved status ≡ false
    → Descends x.id xs
    → is_open o k x ≡ true
    → (i : ℕ)
    → held i (x ∷ xs)
      ≡ held i (map (mark x.id status) (x ∷ xs)) +ℤ (if k == i then x.quantity else pos 0)
unfolding held
held-mark_first o k status x xs c d e i =
    let (sku, open_status) = open_parts o k x e in
    rw
      (
        mark_self x.id status x refl,
        mark-above x.id status x.id xs (omega arith) d,
        sku,
        open_status,
        c,
      )
      (elim (Bool-cases (k == i)) [ inl q ↦ rw q (omega int_laws) | inr q ↦ rw q (omega int_laws) ])

add_later : (a b c d : ℤ) → b ≡ c +ℤ d → a +ℤ b ≡ (a +ℤ c) +ℤ d
add_later a b c d h = rw h (omega int_laws)

-- Closing the open reservation that was found takes its quantity out of what is held.
pub held-mark :
    (n o k : ℕ) (status : ReservationStatus) (rs : List InventoryReservationEntity)
    (r : InventoryReservationEntity)
    → is_reserved status ≡ false
    → Descends n rs
    → find (is_open o k) rs ≡ some r
    → (i : ℕ)
    → held i rs ≡ held i (map (mark r.id status) rs) +ℤ (if k == i then r.quantity else pos 0)
unfolding held
held-mark n o k status [] r c d h i = ground (arith, h)
held-mark n o k status (x ∷ xs) r c d h i = elim (Bool-cases (is_open o k x)) [
  | inl e ↦
      subst
        (λ (y : InventoryReservationEntity).
          held i (x ∷ xs)
          ≡ held i (map (mark y.id status) (x ∷ xs)) +ℤ (if k == i then y.quantity else pos 0))
        (same e) (held-mark_first o k status x xs c d.1 e i)
  | inr e ↦
      let later : find (is_open o k) xs ≡ some r = ground (arith, e, h) in
      let below = found-below x.id o k xs r d.1 later in
      let rest = held-mark x.id o k status xs r c d.1 later i in
      rw (mark-other r.id status x (λ same. omega (arith, below, same))) (add_later _ _ _ _ rest)
]
  where
    same : is_open o k x ≡ true → x ≡ r
    same e = ground (arith, e, h)
