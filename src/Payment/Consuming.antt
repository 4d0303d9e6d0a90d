-- ===== src/Payment/Consuming.antt =====
-- The consumer of the payment service: payment/src/consumers on the loop of
-- shared/src/events/consumer.rs. What the lock answers to the deliveries, one after the other, is
-- part of the state. The handler reads the committed tables, and writes to those of its transaction.
use koupang.Prelude.{ℕ, ◌+◌, ◌≡◌, ◌⊎◌, Option, List}
use koupang.Action.{Action, Outcome, done, failed, panicked, commit_or_restore, with_transaction}
use koupang.Events.{EventEnvelope}
use koupang.Consumer.Errors.{HandlerError}
use koupang.Consumer.Loop.{Transactional, Step, ConsumerConfig, ConsumerState, process_all}
use koupang.Consumer.Service.{Ended, process_all-service}
use koupang.Payment.Types.{captured, voided}
use koupang.Payment.Repository.{Db}
use koupang.Payment.Gateway.{PaymentGateway}
use koupang.Payment.Session.{Session, set_db}
use koupang.Payment.Consumers.{LockAnswer, handle}
use koupang.Payment.Lifecycle.{state_of, IsOrdered}
use koupang.Payment.Balance.{IsBalanced, handle-IsBalanced}
use koupang.Payment.History.{Leads, Leads-trans, Leads-final, stays, step}

pub record PaymentSession : Type 0 where
  pub committed : Db
  pub tx : Session
  pub answers : ℕ → Option LockAnswer
  pub handled : ℕ

abbrev payment_transaction : Transactional PaymentSession
payment_transaction = record {
  begin = λ s. record s { tx = set_db s.tx s.committed };
  commit = λ s. record s { committed = s.tx.db };
  rollback = λ before reached. record reached { tx = set_db reached.tx reached.committed };
}

module _ (bytes : EventEnvelope → ℕ) (gateway : PaymentGateway) where
  abbrev handle_payment_event : EventEnvelope → Action PaymentSession HandlerError (Unit {0})
  handle_payment_event e s =
      let (r, reached) = handle bytes gateway s.committed (s.answers s.handled) e s.tx in
      (r, record s { tx = reached; handled = s.handled + 1 })

  -- From the tables `start` on.
  module _ (start : Db) where
    abbrev Keeps : PaymentSession → Type 0
    Keeps s =
        IsOrdered s.committed
        × (IsBalanced s.committed
            × ((order_id : ℕ) → Leads (state_of start order_id) (state_of s.committed order_id)))

    handled-Keeps :
        (e : EventEnvelope) (s : PaymentSession)
        → Keeps s
        → Ended payment_transaction Keeps s
            (handle_payment_event e (payment_transaction.begin s)).0
            (handle_payment_event e (payment_transaction.begin s)).1
    unfolding with_transaction
    handled-Keeps e s h =
        let lock = s.answers s.handled in
        let before = set_db s.tx s.committed in
        ended (handle bytes gateway s.committed lock e before).0
          (handle bytes gateway s.committed lock e before).1
          (λ order_id. step bytes gateway lock e before order_id h.0)
          (handle-IsBalanced bytes gateway s.committed lock e before h.1.0)
      where
        ended :
            (r : Outcome HandlerError (Unit {0})) (reached : Session)
            → ((order_id : ℕ)
                → IsOrdered (commit_or_restore r (set_db reached s.committed) reached).db
                  × Leads (state_of s.committed order_id) (
                      state_of
                        (commit_or_restore r (set_db reached s.committed) reached).db
                        order_id))
            → IsBalanced reached.db
            → Ended payment_transaction Keeps s r
                (record s { tx = reached; handled = s.handled + 1 })
        ended (done u) reached moves balanced =
            (((moves 0).0, (balanced, λ o. Leads-trans _ _ _ (h.1.1 o) (moves o).1)), h)
        ended (failed x) reached moves balanced = h
        ended panicked reached moves balanced = h

  abbrev pub delivered :
      ConsumerConfig → List Step → ConsumerState PaymentSession → ConsumerState PaymentSession
  delivered config ds s = process_all payment_transaction config handle_payment_event ds s

  module _ (config : ConsumerConfig) (ds : List Step) (s : ConsumerState PaymentSession)
      (ordered : IsOrdered s.service.committed) (balanced : IsBalanced s.service.committed) where
    delivered-Keeps : Keeps s.service.committed (delivered config ds s).service
    delivered-Keeps =
        process_all-service payment_transaction config handle_payment_event
          (Keeps s.service.committed) (handled-Keeps s.service.committed) ds s
          (ordered, (balanced, λ o. stays))

    -- Whatever is delivered to the payment consumer, in whatever order and however often, and
    -- whatever the gateway, the lock and the database answer: each order's payment goes only through
    -- the changes that its lifecycle allows, and every ledger transaction keeps equal debits and
    -- credits, if it had them before.
    pub payment-Leads :
        (order_id : ℕ)
        → Leads
            (state_of s.service.committed order_id)
            (state_of (delivered config ds s).service.committed order_id)
          × IsBalanced (delivered config ds s).service.committed
    payment-Leads o = (delivered-Keeps.1.1 o, delivered-Keeps.1.0)

    -- A payment that was captured stays captured, and one that was voided stays voided, whatever is
    -- delivered.
    pub payment-final :
        (order_id : ℕ)
        → (state_of s.service.committed order_id ≡ captured)
          ⊎ (state_of s.service.committed order_id ≡ voided)
        → state_of (delivered config ds s).service.committed order_id
          ≡ state_of s.service.committed order_id
    payment-final o h = Leads-final _ _ h (delivered-Keeps.1.1 o)
