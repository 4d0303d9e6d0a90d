-- ===== src/Outbox/Settling.antt =====
-- What the relay does with one event it has claimed, and with each event of a batch.
use koupang.Prelude.{
  ℕ, ◌+◌, ◌≡◌, refl, Bool, true, false, ◌&&◌, List, [], ◌∷◌, leb, ◌==◌, if◌then◌else◌, Every, inl,
  inr, Bool-cases, arith, Every-implied,
}
use koupang.Errors.{AppError}
use koupang.Action.{Outcome, done, failed, panicked}
use koupang.Outbox.{OutboxEvent}
use koupang.Outbox.Repository.{
  has_number, published_row, retried_row, mark_published, mark_retry_or_failed,
}
use koupang.Outbox.Relay.{
  RelayConfig, Answers, RelayState, settle_published, settle_refused, take_in, process_event,
  process_events, escalate_failure,
}
use koupang.Outbox.Soundness.{IsSound, published-IsSound, retried-IsSound, grown-IsSound}
use koupang.Outbox.Relayed.{IsRelayed, update_row-IsRelayed, deleted-IsRelayed}

-- The event of a claimed row.
abbrev pub Names : (ℕ → ℕ) → OutboxEvent → Type 0
Names event_of e = e.event_id ≡ event_of e.id

module _ (event_of : ℕ → ℕ) (before : List OutboxEvent) where
  module _ (config : RelayConfig) (a : Answers) where
    settle_published-IsRelayed :
        (e : OutboxEvent) (s : RelayState)
        → has_number (event_of e.id) s.log ≡ true
        → IsRelayed event_of before s
        → IsRelayed event_of before (settle_published config a e s)
    unfolding mark_published
    settle_published-IsRelayed e s taken h = elim (Bool-cases (a.updates e.event_id)) [
      | inl u ↦ rw u (elim (Bool-cases config.delete_on_publish) [
        | inl d ↦ rw d (deleted-IsRelayed event_of before s e.id taken h)
        | inr d ↦ rw d (
            update_row-IsRelayed event_of before s e.id (published_row s.table.now) (λ r. refl)
              (λ r g k. published-IsSound event_of s.log e.id s.table.now r taken g k) h)
      ])
      | inr u ↦ rw u h
    ]

    take_in-IsRelayed :
        (e : OutboxEvent) (s : RelayState)
        → IsRelayed event_of before s
        → IsRelayed event_of before (take_in config a e s)
    take_in-IsRelayed e s h = record {
      rows =
          Every-implied (IsSound event_of s.log) (IsSound event_of (e.event_id ∷ s.log))
            (λ r k. grown-IsSound event_of s.log e.event_id r k) s.table.rows h.rows;
      cached = λ i in_cache. taken (a.cache_writes e.event_id) i in_cache;
      kept = λ i was. elim (h.kept i was) [
        | inl here ↦ inl here
        | inr log ↦ inr (later e.event_id (event_of i) s.log log)
      ];
    }
      where
        later : (x i : ℕ) (l : List ℕ) → has_number i l ≡ true → has_number i (x ∷ l) ≡ true
        later x i l k = ground (arith, k)

        taken :
            (b : Bool) (i : ℕ)
            → has_number i (if b then e.event_id ∷ s.cache else s.cache) ≡ true
            → has_number i (e.event_id ∷ s.log) ≡ true
        taken true i k = elim (Bool-cases (e.event_id == i)) [
          | inl q ↦ rw q refl
          | inr q ↦ rw q (h.cached i (rw q at k))
        ]
        taken false i k = later e.event_id i s.log (h.cached i k)

    settle_refused-IsRelayed :
        (e : OutboxEvent) (s : RelayState)
        → IsRelayed event_of before s
        → IsRelayed event_of before (settle_refused config a e s)
    unfolding mark_retry_or_failed
    settle_refused-IsRelayed e s h = elim (Bool-cases (a.updates e.event_id)) [
      | inl u ↦ rw u (
          escalated _ _ (
            update_row-IsRelayed event_of before s e.id
              (retried_row (a.error_of e.event_id) s.table.now) (λ r. refl)
              (λ r g k.
                retried-IsSound event_of s.log e.id s.table.now (a.error_of e.event_id) r g k)
              h))
      | inr u ↦ rw u h
    ]
      where
        escalated :
            (r : Outcome AppError (Unit {0})) (x : RelayState)
            → IsRelayed event_of before x
            → IsRelayed event_of before (escalate_failure config a e r x)
        escalated (done u) x k = elim (Bool-cases (leb e.max_retries (e.retry_count + 1))) [
          | inl q ↦ rw q (record { rows = k.rows; cached = k.cached; kept = k.kept })
          | inr q ↦ rw q k
        ]
        escalated (failed f) x k = k
        escalated panicked x k = k

    process_event-IsRelayed :
        (e : OutboxEvent) (s : RelayState)
        → Names event_of e
        → IsRelayed event_of before s
        → IsRelayed event_of before (process_event config a e s)
    unfolding process_event
    process_event-IsRelayed e s named h =
        elim (Bool-cases (a.cache_reads e.event_id && has_number e.event_id s.cache)) [
          | inl c ↦ rw c (
              settle_published-IsRelayed e s
                (rw named at (h.cached e.event_id (second (a.cache_reads e.event_id) _ c))) h)
          | inr c ↦ rw c (elim (Bool-cases (a.publishes e.event_id)) [
            | inl p ↦ rw p (
                settle_published-IsRelayed e (take_in config a e s)
                  (newest e.event_id (event_of e.id) s.log named) (take_in-IsRelayed e s h))
            | inr p ↦ rw p (settle_refused-IsRelayed e s h)
          ])
        ]
      where
        second : (b c : Bool) → b && c ≡ true → c ≡ true
        second true c k = k
        second false c k = absurd (ground (arith, k))

        newest : (x y : ℕ) (l : List ℕ) → x ≡ y → has_number y (x ∷ l) ≡ true
        newest x y l k = ground (arith, k)

    pub process_events-IsRelayed :
        (es : List OutboxEvent) (s : RelayState)
        → Every (Names event_of) es
        → IsRelayed event_of before s
        → IsRelayed event_of before (process_events config a es s)
    unfolding process_events
    process_events-IsRelayed [] s named h = h
    process_events-IsRelayed (e ∷ es) s named h =
        process_events-IsRelayed es (process_event config a e s) named.1
          (process_event-IsRelayed e s named.0 h)
