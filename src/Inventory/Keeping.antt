-- ===== src/Inventory/Keeping.antt =====
-- Every operation of the inventory leaves counters that agree with the reservations.
use koupang.Prelude.{
  ℕ, ◌≡◌, ◌≢◌, sym, ◌∙◌, subst, false, some, map, arith, ◌==◌, Every, inl, inr, Bool-cases, ==_iff,
}
use koupang.Inventory.Tables.{InventoryDb, Sku, sku_of, replace_sku}
use koupang.Inventory.Stock.{
  held, Descends, IsPositive, IsCounted, IsStocked, find-id, find-replaced, find-replaced_other,
}

-- A change of one SKU and of the reservations, where what is held of the others stays.
module _ (before after : InventoryDb) (k : ℕ) (stocked : IsStocked before)
    (kept : (i : ℕ) → i ≢ k → held i after.reservations ≡ held i before.reservations)
    (positive : Every IsPositive after.reservations)
    (ordered : Descends after.next_id after.reservations) where
  IsCounted-other :
      (i : ℕ) (s : Sku)
      → i ≢ k
      → sku_of before i ≡ some s
      → s.is_deleted ≡ false
      → IsCounted after s
  IsCounted-other i s ne found live =
      let c = stocked.counted i s found live in
      let same : s.id ≡ i = find-id i before.skus s found in
      record { exact = c.exact ∙ sym (kept s.id (λ e. ne (sym same ∙ e))); within = c.within }

  pub replaced-IsStocked :
      (old new : Sku)
      → sku_of before k ≡ some old
      → new.id ≡ k
      → after.skus ≡ map (replace_sku k new) before.skus
      → (new.is_deleted ≡ false → IsCounted after new)
      → IsStocked after
  replaced-IsStocked old new found named same counted = record {
    counted = λ i s here live. elim (Bool-cases (i == k)) [
      | inl e ↦
          let at_k : i ≡ k = (==_iff i k).0 e in
          let is_new : new ≡ s =
            some_injective new s
              (sym (find-replaced k new old before.skus named found) ∙ rw (same, at_k) at here) in
          subst (λ x. IsCounted after x) is_new (counted (rw is_new live))
      | inr e ↦
          let ne : i ≢ k = λ q. ground (arith, q, e) in
          IsCounted-other i s ne
            (sym (find-replaced_other k i new before.skus named ne) ∙ rw same at here) live
    ];
    positive = positive;
    ordered = ordered;
  }
    where
      some_injective : (x y : Sku) → some x ≡ some y → x ≡ y
      some_injective x y e = ground (arith, e)

  pub unlinked-IsStocked :
      ((s : Sku) → sku_of before k ≡ some s → s.is_deleted ≢ false)
      → after.skus ≡ before.skus
      → IsStocked after
  unlinked-IsStocked gone same = record {
    counted = λ i s here live. elim (Bool-cases (i == k)) [
      | inl e ↦
          let at_k : i ≡ k = (==_iff i k).0 e in absurd (gone s (rw (same, at_k) at here) live)
      | inr e ↦ IsCounted-other i s (λ q. ground (arith, q, e)) (rw same at here) live
    ];
    positive = positive;
    ordered = ordered;
  }
