-- ===== src/Consumer/Accounting.antt =====
-- The counters of the consumer agree with what it did.
use koupang.Prelude.{
  ℕ, zero, suc, ◌+◌, ◌≤◌, ◌≡◌, true, false, if◌then◌else◌, subst, Option, none, some, List, [], ◌∷◌,
  length, inl, inr, Bool-cases, arith,
}
use koupang.Action.{Action}
use koupang.Events.{EventEnvelope}
use koupang.Consumer.Errors.{HandlerError}
use koupang.Consumer.Metrics.{record_retry}
use koupang.Consumer.Loop.{
  Transactional, Weather, Message, envelope_of, garbage, ConsumerConfig, ConsumerState, count,
  ProcessResult, AttemptResult, committed, already_processed, permanent_failure, transient_failure,
  send_to_dlq_with_metrics, process_with_retry, settled_offset, process_message, process_all,
  retry_from, success, skipped, sent_to_dlq, dlq_failed, commit_offset, Step, step, delivery,
  cleans_up, time_passes, cleanup,
}
use koupang.Consumer.Attempt.{Leaves, try_process_once-Framed}
use koupang.Consumer.Rule.{Tried, retry_from-rule}

-- How many offsets Kafka does not take in a history.
abbrev missed : Weather → ℕ
missed w = if w.offset_commits then 0 else 1

abbrev pub refused : List Step → ℕ
refused [] = 0
refused (delivery w m ∷ ds) = missed w + refused ds
refused (d ∷ ds) = refused ds

swapped : (a b k : ℕ) → b + (a + k) ≡ a + b + k
swapped a b k = omega arith

module _ {S : Type 0} where
  -- The messages that need no other delivery.
  abbrev settled : ConsumerState S → ℕ
  settled s =
      s.metrics.events_processed + s.metrics.events_skipped + s.metrics.events_sent_to_dlq
      + s.metrics.events_deser_failed

  -- The offset moved once for each message that needs no other delivery, but for `missing` of them
  -- at most, and the dead-letter queue has one record for each message that was counted as sent to it.
  pub record IsAccounted (missing : ℕ) (s : ConsumerState S) : Type 0 where
    pub counted : s.offsets_committed ≤ settled s
    pub offsets : settled s ≤ s.offsets_committed + missing
    pub dead : length s.dlq ≡ s.metrics.events_sent_to_dlq + s.metrics.events_deser_failed

  -- The same before the offset of a message is committed.
  record Owes (missing : ℕ) (s : ConsumerState S) : Type 0 where
    counted : suc s.offsets_committed ≤ settled s
    offsets : settled s ≤ suc s.offsets_committed + missing
    dead : length s.dlq ≡ s.metrics.events_sent_to_dlq + s.metrics.events_deser_failed

  abbrev Settles : ℕ → Option ProcessResult → ConsumerState S → Type 0
  Settles k (some success) s = Owes k s
  Settles k (some skipped) s = Owes k s
  Settles k (some sent_to_dlq) s = Owes k s
  Settles k _ s = IsAccounted k s

  committed-IsAccounted :
      (w : Weather) (k : ℕ) (s : ConsumerState S)
      → Owes k s
      → IsAccounted (missed w + k) (commit_offset w s)
  committed-IsAccounted w k s h = elim (Bool-cases w.offset_commits) [
    | inl b ↦
        rw b (record { counted = h.counted; offsets = omega (arith, h.offsets); dead = h.dead })
    | inr b ↦ rw b (record {
      counted = omega (arith, h.counted);
      offsets = omega (arith, h.offsets);
      dead = h.dead;
    })
  ]

  more-IsAccounted :
      (w : Weather) (k : ℕ) (s : ConsumerState S) → IsAccounted k s → IsAccounted (missed w + k) s
  more-IsAccounted w k s h = record {
    counted = h.counted;
    offsets = omega (arith, h.offsets);
    dead = h.dead;
  }

  settled-IsAccounted :
      (w : Weather) (k : ℕ) (r : Option ProcessResult) (s : ConsumerState S)
      → Settles k r s
      → IsAccounted (missed w + k) (settled_offset w r s)
  settled-IsAccounted w k none s h = more-IsAccounted w k s h
  settled-IsAccounted w k (some success) s h = committed-IsAccounted w k s h
  settled-IsAccounted w k (some skipped) s h = committed-IsAccounted w k s h
  settled-IsAccounted w k (some sent_to_dlq) s h = committed-IsAccounted w k s h
  settled-IsAccounted w k (some dlq_failed) s h = more-IsAccounted w k s h
  settled-IsAccounted w k (some ProcessResult.db_error) s h = more-IsAccounted w k s h

  left-IsAccounted :
      (k : ℕ) (x y : ConsumerState S) → Leaves x y → IsAccounted k x → IsAccounted k y
  left-IsAccounted k x y l h = record {
    counted = rw (l.offsets, l.metrics) h.counted;
    offsets = rw (l.offsets, l.metrics) h.offsets;
    dead = rw (l.dlq, l.metrics) h.dead;
  }

  module _ (t : Transactional S) (config : ConsumerConfig)
      (handle : EventEnvelope → Action S HandlerError (Unit {0})) (k : ℕ) where
    send-Settles :
        (w : Weather) (e : EventEnvelope) (n : ℕ) (s : ConsumerState S)
        → IsAccounted k s
        → Settles k
            (some (send_to_dlq_with_metrics t config handle w e n s).0)
            (send_to_dlq_with_metrics t config handle w e n s).1
    unfolding send_to_dlq_with_metrics
    send-Settles w e n s h = elim (Bool-cases w.dlq_accepts) [
      | inl b ↦ rw b (record {
        counted = omega (arith, h.counted);
        offsets = omega (arith, h.offsets);
        dead = omega (arith, h.dead);
      })
      | inr b ↦ rw b (record { counted = h.counted; offsets = h.offsets; dead = h.dead })
    ]

    Tried-Settles :
        (w : Weather) (e : EventEnvelope) (left : ℕ) (r : Option AttemptResult)
        (s : ConsumerState S)
        → IsAccounted k s
        → Tried t config handle w e (λ _ x. IsAccounted k x) (Settles k) left r s
    Tried-Settles w e left none s h = h
    Tried-Settles w e left (some committed) s h = record {
      counted = omega (arith, h.counted);
      offsets = omega (arith, h.offsets);
      dead = h.dead;
    }
    Tried-Settles w e left (some already_processed) s h = record {
      counted = omega (arith, h.counted);
      offsets = omega (arith, h.offsets);
      dead = h.dead;
    }
    Tried-Settles w e left (some AttemptResult.db_error) s h = record {
      counted = h.counted;
      offsets = h.offsets;
      dead = h.dead;
    }
    Tried-Settles w e left (some permanent_failure) s h = λ n. send-Settles w e n s h
    Tried-Settles w e zero (some transient_failure) s h = λ n. send-Settles w e n s h
    Tried-Settles w e (suc left) (some transient_failure) s h =
        let retried : IsAccounted k (count record_retry s) = record {
          counted = h.counted;
          offsets = h.offsets;
          dead = h.dead;
        } in
        (λ n. send-Settles w e n (count record_retry s) retried, retried)

    process_message-IsAccounted :
        (w : Weather) (m : Message) (s : ConsumerState S)
        → IsAccounted k s
        → IsAccounted (missed w + k) (process_message t config handle w m s)
    unfolding process_message process_with_retry
    process_message-IsAccounted w (garbage raw) s h = elim (Bool-cases w.dlq_accepts) [
      | inl b ↦ rw b (
          committed-IsAccounted w k _ (record {
            counted = omega (arith, h.counted);
            offsets = omega (arith, h.offsets);
            dead = omega (arith, h.dead);
          }))
      | inr b ↦ rw b (
          more-IsAccounted w k _
            (record { counted = h.counted; offsets = h.offsets; dead = h.dead }))
    ]
    process_message-IsAccounted w (envelope_of e) s h =
        let (r, reached) = retry_from t config handle w e config.max_retries 0 s in
        settled-IsAccounted w k r reached (
          retry_from-rule t config handle w e (λ _ x. IsAccounted k x) (Settles k)
            (λ left fault x here.
              Tried-Settles w e left _ _
                (left-IsAccounted k x _ (try_process_once-Framed t config handle e fault x).0 here))
            config.max_retries 0 s h)

  module _ (t : Transactional S) (config : ConsumerConfig)
      (handle : EventEnvelope → Action S HandlerError (Unit {0})) where
    -- After any deliveries and clean-ups, the offset has moved at most once for each message counted
    -- as processed, skipped, sent to the dead-letter queue or not deserialised, and it has moved for
    -- all of them but as many at most as there were deliveries with an offset that Kafka refused; and
    -- the dead-letter queue has one record for each message counted as sent to it or not
    -- deserialised. All this if it held before.
    pub process_all-IsAccounted :
        (ds : List Step) (missing : ℕ) (s : ConsumerState S)
        → IsAccounted missing s
        → IsAccounted (refused ds + missing) (process_all t config handle ds s)
    unfolding step
    process_all-IsAccounted [] k s h = record {
      counted = h.counted;
      offsets = omega (arith, h.offsets);
      dead = h.dead;
    }
    process_all-IsAccounted (delivery w m ∷ ds) k s h =
        subst (λ n. IsAccounted n (process_all t config handle (delivery w m ∷ ds) s))
          (swapped (missed w) (refused ds) k)
          (process_all-IsAccounted ds (missed w + k) (process_message t config handle w m s)
            (process_message-IsAccounted t config handle k w m s h))
    process_all-IsAccounted (cleans_up true ∷ ds) k s h =
        process_all-IsAccounted ds k (cleanup t config handle true s)
          (record { counted = h.counted; offsets = h.offsets; dead = h.dead })
    process_all-IsAccounted (cleans_up false ∷ ds) k s h = process_all-IsAccounted ds k s h
    process_all-IsAccounted (time_passes secs ∷ ds) k s h =
        process_all-IsAccounted ds k (record s { now = s.now + secs })
          (record { counted = h.counted; offsets = h.offsets; dead = h.dead })
