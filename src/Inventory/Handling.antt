-- ===== src/Inventory/Handling.antt =====
-- The event handlers of the catalog keep the counters right, in the tables of the transaction and in
-- the committed ones.
use koupang.Prelude.{ℕ, List}
use koupang.Errors.{AppError, Result, ok, err}
use koupang.Action.{Action, Outcome, done, failed, panicked, lift, attempt, attempted, zoom}
use koupang.Action.Triple.{
  Anything, Triple, Ends, Triple-bind, Triple-pure, Triple-lift, Triple-weaken, Triple-map_err,
  Triple-fail,
}
use koupang.Json.{Text}
use koupang.Events.{EventEnvelope, EventType}
use koupang.Inventory.Tables.{InventoryDb, InventoryTx}
use koupang.Inventory.Service.{
  ReservationItem, report_on_pool, reserve_for_order_on_tx, CatalogSession, on_tx, on_pool, set_tx,
  set_committed,
}
use koupang.Inventory.Consumers.{
  handle_order_created, handle_order_cancelled, dispatch_catalog, handle_catalog_event,
}
use koupang.Inventory.Stock.{IsStocked}
use koupang.Inventory.Invariants.{Keeping, release_all-Stocks, do_reserve-Stocks, failed-Stocks}

-- After a failure only the committed tables count.
abbrev pub BothStocked : CatalogSession → Type 0
BothStocked s = IsStocked s.tx × IsStocked s.committed

abbrev Handles : {E A : Type 0} → Action CatalogSession E A → Type 0
Handles m = Triple BothStocked m (λ _ s. BothStocked s) (λ _ s. IsStocked s.committed)

-- What holds after a step in the transaction whose error is matched on.
abbrev Tried :
    (AppError → InventoryDb → Type 0) → Result AppError (Unit {0}) → CatalogSession → Type 0
Tried D (ok a) s = BothStocked s
Tried D (err e) s = D e s.tx × IsStocked s.committed

try_on_tx :
    {F : Type 0} {G : F → CatalogSession → Type 0} {D : AppError → InventoryDb → Type 0}
    {m : InventoryTx (Unit {0})}
    → Triple IsStocked m (λ _ db. IsStocked db) D
    → Triple BothStocked (attempt {F = F} (on_tx m)) (Tried D) G
unfolding attempt on_tx zoom
try_on_tx {F} {G} {D} {m} k = record {
  at = λ s h. tried (m s.tx).0 (m s.tx).1 (k.at s.tx h.0) s h.1;
}
  where
    tried :
        (r : Outcome AppError (Unit {0})) (db : InventoryDb)
        → Ends (λ _ x. IsStocked x) D r db
        → (s : CatalogSession) → IsStocked s.committed
        → Ends (Tried D) G (attempted r) (set_tx s db)
    tried (done a) db h s c = (h, c)
    tried (failed e) db h s c = (h, c)
    tried panicked db h s c = h

commit_on_pool :
    {m : InventoryTx (Unit {0})}
    → Keeping m
    → Triple
        (λ s. IsStocked s.committed)
        (on_pool m)
        (λ _ s. IsStocked s.committed)
        (λ _ s. IsStocked s.committed)
unfolding on_pool zoom
commit_on_pool {m} k = record {
  at = λ s h. reached (m s.committed).0 (m s.committed).1 (k.at s.committed h) s;
}
  where
    reached :
        (r : Outcome AppError (Unit {0})) (db : InventoryDb)
        → Ends (λ _ x. IsStocked x) (λ _ x. IsStocked x) r db
        → (s : CatalogSession)
        → Ends (λ _ x. IsStocked x.committed) (λ _ x. IsStocked x.committed) r (set_committed s db)
    reached (done a) db h s = h
    reached (failed e) db h s = h
    reached panicked db h s = h

module _ (bytes : EventEnvelope → ℕ) (describe : AppError → Text) where
  report_on_pool-Handles :
      (o : ℕ) (r : Result AppError (Unit {0}))
      → Triple
          (Tried Anything r)
          (report_on_pool bytes describe o r)
          (λ _ s. BothStocked s)
          (λ _ s. IsStocked s.committed)
  unfolding report_on_pool
  report_on_pool-Handles o (ok u) = Triple-pure tt (λ _ h. h)
  report_on_pool-Handles o (err e) =
      Triple-bind (λ _ s. IsStocked s.committed)
        (Triple-weaken (commit_on_pool (failed-Stocks bytes describe o (describe e))) (λ _ h. h.1)
          (λ _ _ h. h))
        (λ _. Triple-fail e (λ _ h. h))

  reserve_on_tx-Handles :
      (o b : ℕ) (amount currency : Text) (items : List ReservationItem)
      → Handles (reserve_for_order_on_tx bytes describe o b amount currency items)
  unfolding reserve_for_order_on_tx
  reserve_on_tx-Handles o b amount currency items =
      Triple-bind (Tried Anything)
        (try_on_tx (do_reserve-Stocks bytes describe o b amount currency items))
        (λ r. report_on_pool-Handles o r)

  lift-Handles : {E A : Type 0} (r : Result E A) → Handles (lift r)
  lift-Handles r = Triple-lift r (λ _ _ _ h. h) (λ _ _ _ h. h.1)

  handle_order_created-Handles :
      (e : EventEnvelope) → Handles (handle_order_created bytes describe e)
  unfolding handle_order_created
  handle_order_created-Handles e =
      Triple-bind (λ _ s. BothStocked s) (Triple-map_err _ (lift-Handles _))
        (λ order_id.
          Triple-bind (λ _ s. BothStocked s) (Triple-map_err _ (lift-Handles _))
            (λ buyer_id.
              Triple-bind (λ _ s. BothStocked s) (lift-Handles _)
                (λ items. Triple-map_err _ (reserve_on_tx-Handles order_id buyer_id _ _ items))))

  handle_order_cancelled-Handles :
      (e : EventEnvelope) → Handles (handle_order_cancelled bytes describe e)
  unfolding handle_order_cancelled
  handle_order_cancelled-Handles e =
      Triple-bind (λ _ s. BothStocked s) (lift-Handles _)
        (λ order_id.
          Triple-bind (Tried (λ _ db. IsStocked db)) (try_on_tx (release_all-Stocks order_id))
            (λ r. Triple-pure tt (tried-BothStocked r)))
    where
      tried-BothStocked :
          (r : Result AppError (Unit {0})) (s : CatalogSession)
          → Tried (λ _ db. IsStocked db) r s
          → BothStocked s
      tried-BothStocked (ok u) s h = h
      tried-BothStocked (err e) s h = h

  dispatch_catalog-Handles :
      (t : EventType) (e : EventEnvelope) → Handles (dispatch_catalog bytes describe t e)
  unfolding dispatch_catalog
  dispatch_catalog-Handles EventType.order_created e = handle_order_created-Handles e
  dispatch_catalog-Handles EventType.order_cancelled e =
      Triple-map_err _ (handle_order_cancelled-Handles e)
  dispatch_catalog-Handles _ e = Triple-pure tt (λ _ h. h)

  pub handle_catalog_event-Handles :
      (e : EventEnvelope) → Handles (handle_catalog_event bytes describe e)
  unfolding handle_catalog_event
  handle_catalog_event-Handles e = dispatch_catalog-Handles e.metadata.event_type e
