-- ===== src/Tests/PaymentTests.antt =====
-- The payment theorems at an order 7 of $25, a gateway that approves, and one that times out.
use koupang.Prelude.{ℕ, ◌≡◌, true, false, ◌↔◌, refl, inl, none, some, List, [], ◌∷◌, arith}
use koupang.Prelude.Int.{ℤ, pos}
use koupang.Errors.{bad_request, ok, err}
use koupang.Action.{done, failed}
use koupang.Action.Triple.{Ends}
use koupang.Json.{lit, uuid, decimal, Value, str, object, member, no_members}
use koupang.Events.{
  EventEnvelope, EventType, inventory_reserved, order_confirmed, new_metadata, AggregateType,
  SourceService,
}
use koupang.Outbox.{OutboxTable}
use koupang.Payment.Types.{
  TransactionType, TransactionStatus, IdempotencyKey, auth_key, capture_key, GatewayAuthResult,
  GatewayStatus, PaymentState, authorized, LedgerTransactionEntity,
}
use koupang.Payment.Repository.{
  get_transaction_by_idempotency_key, list_transactions_by_order, derive_payment_state,
  new_transaction,
}
use koupang.Payment.Gateway.{PaymentGateway, authorizes, timeout}
use koupang.Payment.Lookup.{validate_authorization}
use koupang.Payment.Session.{Session}
use koupang.Payment.Service.{authorize_payment, capture_payment, void_payment}
use koupang.Payment.Consumers.{acquired}
use koupang.Payment.Lifecycle.{state_of, Refines}
use koupang.Payment.Balance.{IsBalanced, service-IsBalanced, total}
use koupang.Payment.Operations.{EndsAs, service-Refines}
use koupang.Payment.Dispatch.{handle_event, handle_event-Refines}
use koupang.Payment.Validation.{Acceptable, validate_authorization_iff}
use koupang.Payment.Outcomes.{
  authorize_payment-succeeds, unauthorized-refused, authorize_payment-idempotent,
}
use koupang.Payment.History.{Leads}
use koupang.Payment.Consuming.{PaymentSession, delivered, payment-Leads, payment-final}
use koupang.Consumer.Loop.{
  Weather, Step, delivery, DbFault, envelope_of, ConsumerConfig, ConsumerState,
}

abbrev bytes : EventEnvelope → ℕ
bytes e = 400

abbrev approval : ℤ → GatewayAuthResult
approval amount = record {
  gateway_reference = "gw-1";
  approved_amount = amount;
  status = GatewayStatus.success;
}

abbrev approving : PaymentGateway
approving = record {
  authorize = λ calls key order_id amount currency. ok (approval amount);
  capture = λ calls reference. err (timeout (lit "no answer"));
  void = λ calls reference. ok GatewayStatus.success;
  refund = λ calls reference amount. ok GatewayStatus.success;
}

abbrev no_events : OutboxTable
no_events = record { rows = []; next_id = 0; now = 0 }

abbrev empty : Session
empty = record {
  db = record { accounts = []; transactions = []; entries = []; next_id = 0; outbox = no_events };
  calls = [];
}

abbrev row : ℕ → TransactionType → IdempotencyKey → LedgerTransactionEntity
row id ty key = record (new_transaction id 7 ty key (some "gw-1")) {
  status = TransactionStatus.posted;
}

abbrev with_rows : List LedgerTransactionEntity → Session
with_rows ts = record empty { db = record empty.db { transactions = ts; next_id = 9 } }

abbrev authorized_session : Session
authorized_session = with_rows (row 2 TransactionType.authorization (auth_key 7) ∷ [])

abbrev captured_session : Session
captured_session = with_rows (
    row 5 TransactionType.capture (capture_key 7)
    ∷ row 2 TransactionType.authorization (auth_key 7)
    ∷ [])

abbrev payload : Value
payload = object (
    member "order_id" (str (uuid 7)) (
      member "total_amount" (str (decimal (pos 250000)))
        (member "currency" (str (lit "USD")) no_members)))

abbrev event : EventType → EventEnvelope
event ty = record {
  metadata = new_metadata 1 ty AggregateType.order 7 SourceService.order;
  payload = payload;
}

empty-IsBalanced : IsBalanced empty.db
unfolding total
empty-IsBalanced = record { balanced = λ t. refl }

handle_event-Refines_example :
    Ends
      (λ _ s'. Refines 7 empty.db s'.db)
      (λ _ s'. s'.db ≡ empty.db)
      (handle_event bytes approving none (event inventory_reserved) empty).0
      (handle_event bytes approving none (event inventory_reserved) empty).1
handle_event-Refines_example =
    handle_event-Refines bytes approving 7 none (event inventory_reserved) empty tt refl

service-Refines_example :
    EndsAs (authorize_payment bytes approving 7 (pos 250000) (lit "USD")) 7 authorized_session
    × EndsAs (capture_payment bytes approving 7) 7 authorized_session
    × EndsAs (void_payment bytes approving 7) 7 authorized_session
service-Refines_example =
    service-Refines bytes approving 7 (pos 250000) (lit "USD") authorized_session (omega arith, tt)

service-IsBalanced_example :
    IsBalanced (authorize_payment bytes approving 7 (pos 250000) (lit "USD") empty).1.db
    × IsBalanced (capture_payment bytes approving 7 empty).1.db
    × IsBalanced (void_payment bytes approving 7 empty).1.db
service-IsBalanced_example =
    service-IsBalanced bytes approving 7 (pos 250000) (lit "USD") empty empty-IsBalanced

acceptable : Acceptable (pos 250000) (lit "USD") (state_of empty.db 7)
unfolding derive_payment_state list_transactions_by_order
acceptable = record {
  at_least = omega arith;
  at_most = omega arith;
  known_currency = refl;
  is_open = inl refl;
}

authorize_payment-succeeds_example :
    (s' : Session) × (authorize_payment bytes approving 7 (pos 250000) (lit "USD") empty
      ≡ (done tt, s'))
    × (state_of s'.db 7 ≡ authorized)
    × (s'.calls ≡ authorizes (auth_key 7) 7 (pos 250000) (lit "USD") ∷ [])
unfolding get_transaction_by_idempotency_key
authorize_payment-succeeds_example =
    authorize_payment-succeeds bytes approving 7 (pos 250000) (lit "USD") empty
      (approval (pos 250000)) tt acceptable refl refl refl (omega arith) (λ e. omega arith)

unauthorized-refused_example :
    (capture_payment bytes approving 7 captured_session ≡ (failed bad_request, captured_session))
    × (void_payment bytes approving 7 captured_session ≡ (failed bad_request, captured_session))
unfolding derive_payment_state list_transactions_by_order
unauthorized-refused_example =
    unauthorized-refused bytes approving 7 captured_session (λ e. ground (arith, e))

authorize_payment-idempotent_example :
    authorize_payment bytes approving 7
      (pos 9900)
      (lit "EUR")
      (authorize_payment bytes approving 7 (pos 250000) (lit "USD") empty).1
    ≡ (done tt, (authorize_payment bytes approving 7 (pos 250000) (lit "USD") empty).1)
unfolding get_transaction_by_idempotency_key
authorize_payment-idempotent_example =
    authorize_payment-idempotent bytes approving 7 (pos 250000) (lit "USD") empty
      (approval (pos 250000)) tt acceptable refl refl refl (omega arith) (λ e. omega arith)
      (pos 9900) (lit "EUR")

validate_authorization_iff_example :
    (validate_authorization (pos 250000) (lit "USD") PaymentState.failed ≡ ok tt)
    ↔ Acceptable (pos 250000) (lit "USD") PaymentState.failed
validate_authorization_iff_example =
    validate_authorization_iff (pos 250000) (lit "USD") PaymentState.failed

captured_session-IsBalanced : IsBalanced captured_session.db
unfolding total
captured_session-IsBalanced = record { balanced = λ t. refl }

abbrev calm : Weather
calm = record {
  fault = λ n. DbFault.no_fault;
  shutdown = λ n. false;
  dlq_accepts = true;
  offset_commits = true;
}

abbrev config : ConsumerConfig
config = record { group_id = 1; max_retries = 3; processed_events_max_age = 604800 }

abbrev deliveries : List Step
deliveries =
    delivery calm (envelope_of (event inventory_reserved))
    ∷ delivery (record calm { fault = λ n. DbFault.at_commit })
        (envelope_of (event order_confirmed))
    ∷ delivery calm (envelope_of (event order_confirmed))
    ∷ []

abbrev consumer_of : Session → ConsumerState PaymentSession
consumer_of s = record {
  service = record { committed = s.db; tx = s; answers = λ n. some acquired; handled = 0 };
  processed = [];
  dlq = [];
  metrics = record {
    events_processed = 0;
    events_skipped = 0;
    events_sent_to_dlq = 0;
    events_dlq_failed = 0;
    events_db_error = 0;
    events_deser_failed = 0;
    events_retried = 0;
  };
  offsets_committed = 0;
  now = 0;
}

payment-Leads_example :
    Leads (state_of empty.db 7) (
      state_of
        (delivered bytes approving config deliveries (consumer_of empty)).service.committed
        7)
    × IsBalanced (delivered bytes approving config deliveries (consumer_of empty)).service.committed
payment-Leads_example =
    payment-Leads bytes approving config deliveries (consumer_of empty) tt empty-IsBalanced 7

payment-final_example :
    state_of
      (delivered bytes approving config deliveries (consumer_of captured_session)).service.committed
      7
    ≡ state_of captured_session.db 7
unfolding derive_payment_state list_transactions_by_order
payment-final_example =
    payment-final bytes approving config deliveries (consumer_of captured_session)
      (omega arith, (omega arith, tt)) captured_session-IsBalanced 7 (inl refl)
