-- ===== src/Consumer/Metrics.antt =====
-- The counters of shared/src/events/metrics.rs, without the durations. The counters are whole
-- numbers; the code's wrap around at 2 ^ 64.
use koupang.Prelude.{ℕ, suc, ◌+◌}

pub record ConsumerMetrics : Type 0 where
  pub events_processed : ℕ
  pub events_skipped : ℕ
  pub events_sent_to_dlq : ℕ
  pub events_dlq_failed : ℕ
  pub events_db_error : ℕ
  pub events_deser_failed : ℕ
  pub events_retried : ℕ

abbrev pub record_success : ConsumerMetrics → ConsumerMetrics
record_success m = record m { events_processed = suc m.events_processed }

abbrev pub record_skipped : ConsumerMetrics → ConsumerMetrics
record_skipped m = record m { events_skipped = suc m.events_skipped }

abbrev pub record_dlq : ConsumerMetrics → ConsumerMetrics
record_dlq m = record m { events_sent_to_dlq = suc m.events_sent_to_dlq }

abbrev pub record_dlq_failed : ConsumerMetrics → ConsumerMetrics
record_dlq_failed m = record m { events_dlq_failed = suc m.events_dlq_failed }

abbrev pub record_db_error : ConsumerMetrics → ConsumerMetrics
record_db_error m = record m { events_db_error = suc m.events_db_error }

abbrev pub record_deser_failed : ConsumerMetrics → ConsumerMetrics
record_deser_failed m = record m { events_deser_failed = suc m.events_deser_failed }

abbrev pub record_retry : ConsumerMetrics → ConsumerMetrics
record_retry m = record m { events_retried = suc m.events_retried }

-- `total_events` of the snapshot.
abbrev pub total_events : ConsumerMetrics → ℕ
total_events m =
    m.events_processed + m.events_skipped + m.events_sent_to_dlq + m.events_dlq_failed
    + m.events_db_error + m.events_deser_failed
