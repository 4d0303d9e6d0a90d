-- ===== src/Inventory/Consuming.antt =====
-- The consumer of the catalog: catalog/src/consumers on the loop of shared/src/events/consumer.rs.
-- No handler that succeeds writes to the committed tables, so a commit replaces them.
use koupang.Prelude.{ℕ, List}
use koupang.Errors.{AppError}
use koupang.Action.{Outcome, done, failed, panicked}
use koupang.Action.Triple.{Ends}
use koupang.Json.{Text}
use koupang.Events.{EventEnvelope}
use koupang.Consumer.Errors.{HandlerError}
use koupang.Consumer.Loop.{Transactional, Step, ConsumerConfig, ConsumerState, process_all}
use koupang.Consumer.Service.{Ended, process_all-service}
use koupang.Inventory.Stock.{IsStocked}
use koupang.Inventory.Service.{CatalogSession, set_tx, set_committed}
use koupang.Inventory.Consumers.{handle_catalog_event}
use koupang.Inventory.Handling.{BothStocked, handle_catalog_event-Handles}

abbrev pub catalog_transaction : Transactional CatalogSession
catalog_transaction = record {
  begin = λ s. set_tx s s.committed;
  commit = λ s. set_committed s s.tx;
  rollback = λ before reached. set_tx reached reached.committed;
}

abbrev Stocked : CatalogSession → Type 0
Stocked s = IsStocked s.committed

module _ (bytes : EventEnvelope → ℕ) (describe : AppError → Text) where
  handled-Stocked :
      (e : EventEnvelope) (s : CatalogSession)
      → Stocked s
      → Ended catalog_transaction Stocked s
          (handle_catalog_event bytes describe e (set_tx s s.committed)).0
          (handle_catalog_event bytes describe e (set_tx s s.committed)).1
  handled-Stocked e s h =
      let (r, reached) = handle_catalog_event bytes describe e (set_tx s s.committed) in
      ended r reached
        ((handle_catalog_event-Handles bytes describe e).at (set_tx s s.committed) (h, h))
    where
      ended :
          (r : Outcome HandlerError (Unit {0})) (reached : CatalogSession)
          → Ends (λ _ x. BothStocked x) (λ _ x. IsStocked x.committed) r reached
          → Ended catalog_transaction Stocked s r reached
      ended (done u) reached h = h
      ended (failed x) reached h = h
      ended panicked reached h = absurd h

  -- Whatever is delivered to the catalog's consumer, if the committed tables are well counted
  -- before, they are after: every SKU that is not deleted counts as reserved exactly what its open
  -- reservations hold, and no more than its stock, and all quantities are positive.
  pub catalog-IsStocked :
      (config : ConsumerConfig) (ds : List Step) (s : ConsumerState CatalogSession)
      → IsStocked s.service.committed
      → IsStocked
          (process_all catalog_transaction config
            (handle_catalog_event bytes describe)
            ds
            s).service.committed
  catalog-IsStocked config ds s h =
      process_all-service catalog_transaction config (handle_catalog_event bytes describe) Stocked
        handled-Stocked ds s h
