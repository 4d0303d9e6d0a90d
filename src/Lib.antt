-- ===== src/Lib.antt =====
-- Koupang is a set of services for a marketplace that work together through events. This library
-- models its core in Rust and proves what keeps it correct.
--
-- The parts, and the files that model them:
-- - Rules.antt: the rule trees of shared/src/rules.rs, with which the services validate. `Rule<A>`
--   is `Rule A`, a `Vec<Rule<A>>` is `Rules A`; each function of the file has its name here.
-- - Errors.antt, Events.antt, Json.antt: shared/src/errors.rs, shared/src/events/types.rs and the
--   JSON values of event payloads. A string is kept as what it is the text of; parsing and
--   printing are the libraries' work.
-- - Outbox: the outbox of shared/src/outbox. Outbox.antt: the table and the insertion of a row in
--   the transaction that makes the change. Repository: the other statements. Relay: relay.rs, with
--   what Kafka, Redis and the database answer as an input. Soundness, Relayed, Settling, Delivery,
--   Claims and Refusals: what is proved.
-- - Action.antt: code that changes a state and may fail or panic, with transactions that roll back
--   (shared/src/db/transaction_support.rs). Action/Keeps.antt has the rules for invariants,
--   Action/Triple.antt those for what holds after a success and after a failure.
-- - CircuitBreaker: shared/src/circuit_breaker.rs, its clock readings as arguments and its
--   threshold as a fraction.
-- - Consumer: the event consumer of shared/src/events/consumer.rs with its counters and the table
--   of processed events, over any service: what a transaction does to the service's state is the
--   record `Transactional`. Loop has the operations, Rule an induction rule for the retries, and
--   the other files what it proves. What the database, Kafka, the dead-letter queue and the
--   shutdown token do is an input, `Weather`; a panic of a handler ends the message without a
--   result. The clean-up of old marks and the passing of time are steps beside the deliveries.
-- - Jobs: shared/src/jobs, on the table of shared/tests/migrations/000004_persistent_jobs.sql.
--   Names, Registry, Repository, Runner: its files; Constraints: the index and the triggers; Table
--   the invariant and, with Rows, the statements that keep it (Keeping), Histories any order of
--   statements, Sorting, Marking and Landing the lemmas for Claims and Settling; Claims, Settling,
--   Running, Cleaning and Seeding what the operations achieve. The loop of the cleanup runs on
--   fuel, of which the length of the table and one more is enough.
-- - Pagination: shared/src/db/pagination_support.rs; Pages and Back what a client reads that
--   follows the cursors, Items what a page holds.
-- - Inventory: the inventory of the catalog. Tables, Repository, Service: catalog/src/inventory
--   and the constraints of its tables. Consumers: catalog/src/consumers. Consuming runs them on
--   the loop of Consumer.
-- - Cart: the cart service, cart/src/cart. Types, Rules, Service: its files; Stored and Bounds:
--   what is proved.
-- - Payment: the payment service, with payment/src/gateway/circuit_breaker.rs in Breaker and
--   Breaking. Types, Repository: payment/src/ledger. Gateway: the trait of
--   payment/src/gateway/traits.rs, as functions of the calls made so far, so that a gateway may
--   answer in any way. Rules, Lookup, Records, Service, OnTx: payment/src/payments. Session: the
--   tables together with the calls made of the gateway, which no rollback takes back. Consumers:
--   payment/src/consumers.
-- - Strings, Money: what the value objects use of Rust's strings, and
--   shared/src/new_types/money.rs.
-- - Order: the order service. Types, Values, Requests, Rules, Repository, Creation, Service:
--   order/src/orders, with the lists of orders in Listing, and in Showing what they show.
--   Consumers: order/src/consumers.
--
-- Order/Lifecycle.antt lists the transitions of the saga, by the event that comes in; Effects and
-- Progress prove that the consumer makes them, Consuming what the loop of Consumer makes of that,
-- Cancel the outcomes of a cancellation, Creating those of a creation, Ordering that the catalog
-- reads what was ordered, Status the state machine. What the service reads before its transaction
-- is the argument `pool`.
--
-- Inventory/Stock.antt is the specification of the inventory: the counters of a SKU agree with its
-- open reservations. Effects, Reserving and Closing prove it of the statements, Invariants of the
-- services, Handling of the event handlers.
--
-- Payment/Lifecycle.antt is the specification of the payment service: an order's payment state,
-- the events published, and the changes that one operation may make. Payment/Effects, Recording,
-- Ids, Refinement and Writes lead from the tables to it; Operations and Dispatch prove it of the
-- operations and of one event, History of the states that an order goes through, and Consuming of
-- whatever the loop of Consumer delivers.
--
-- Amounts are whole ten-thousandths, the scale of the ledger's NUMERIC(19, 4) columns. Every
-- function is structural but the loop that cleans up old jobs, which runs on fuel; a client that
-- reads page by page asks for a number of pages. The relay's bound of 100 batches and the
-- consumer's number of retries are the code's own. The length of a serialised event is a parameter
-- (`bytes`), as are the gateway's and the lock's answers. Ids are drawn from a counter in place of
-- random UUIDs.
--
-- Not modelled: HTTP routes, SQL text, the time stamps of rows outside of the outbox and the jobs,
-- logging, metrics other than the consumer's counters, and the services and modules that are not
-- named above: the users with their passwords, tokens and mail, the products, categories and
-- brands, whose code is mostly SQL and checks of single fields, and the set-up of servers. The
-- tables of a service change by one step at a time: what two transactions at once could do is in
-- the model only where a value that was read before is an argument.
pub mod Prelude
pub mod Errors
pub mod Action
pub mod Json
pub mod Strings
pub mod Money
pub mod Events
pub mod Rules
pub mod Outbox
pub mod Consumer
pub mod Inventory
pub mod CircuitBreaker
pub mod Jobs
pub mod Pagination
pub mod Payment
pub mod Order
pub mod Tests
pub mod Cart
