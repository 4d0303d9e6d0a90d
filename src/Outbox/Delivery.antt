-- ===== src/Outbox/Delivery.antt =====
-- No event is lost between the outbox and Kafka.
use koupang.Prelude.{
  ℕ, zero, suc, ◌-◌, ◌≡◌, refl, Bool, true, false, List, [], if◌then◌else◌, is_some, find, inl, inr,
  Bool-cases, take, Every-mapped, Every-implied, Every-take,
}
use koupang.Errors.{AppError, Result, ok, err}
use koupang.Outbox.{OutboxEvent}
use koupang.Outbox.Repository.{
  is_row, claimable, locked_row, claim_row, claim_batch, unlock_stale, is_stale,
  release_stale_locks,
}
use koupang.Outbox.Relay.{
  RelayConfig, Answers, RelayState, set_table, process_claimed, process_batch, drain,
  process_pending, after_batch,
}
use koupang.Outbox.Soundness.{IsSound, claimed-IsSound, unlocked-IsSound, Every-claimable}
use koupang.Outbox.Settling.{Names, process_events-IsRelayed}
use koupang.Outbox.Relayed.{IsRelayed, mapped-IsRelayed}

module _ (event_of : ℕ → ℕ) (before : List OutboxEvent) where
  module _ (config : RelayConfig) (a : Answers) where
    IsRelayed-either :
        (b : Bool) (x y : Result AppError ℕ × RelayState)
        → IsRelayed event_of before x.1
        → IsRelayed event_of before y.1
        → IsRelayed event_of before (if b then x else y).1
    IsRelayed-either true x y hx hy = hx
    IsRelayed-either false x y hx hy = hy

    process_batch-IsRelayed :
        (s : RelayState)
        → IsRelayed event_of before s
        → IsRelayed event_of before (process_batch config a s).1
    unfolding process_batch process_claimed claim_batch
    process_batch-IsRelayed s h =
        IsRelayed-either a.claims _ _
          (process_events-IsRelayed event_of before config a _ _
            (Every-mapped (Names event_of) (Names event_of)
              (locked_row config.instance_id s.table.now) (λ r k. k) claimed
              (Every-take (Names event_of) config.batch_size (claimable s.table.now [] s.table.rows)
                (Every-claimable (Names event_of) s.table.now [] s.table.rows (
                  Every-implied (IsSound event_of s.log) (Names event_of) (λ r k. k.0) s.table.rows
                    h.rows))))
            (mapped-IsRelayed event_of before s (claim_row claimed config.instance_id s.table.now)
              claim_id
              (Every-mapped (IsSound event_of s.log) (IsSound event_of s.log)
                (claim_row claimed config.instance_id s.table.now)
                (claimed-IsSound event_of s.log claimed config.instance_id s.table.now) s.table.rows
                h.rows)
              h))
          h
      where
        claimed : List OutboxEvent
        claimed = take config.batch_size (claimable s.table.now [] s.table.rows)

        claim_id :
            (r : OutboxEvent) → (claim_row claimed config.instance_id s.table.now r).id ≡ r.id
        claim_id r = elim (Bool-cases (is_some (find (is_row r.id) claimed))) [
          | inl q ↦ rw q refl
          | inr q ↦ rw q refl
        ]

  module _ (config : RelayConfig) where
    after_batch-IsRelayed :
        (r : Result AppError ℕ) (rest : RelayState → RelayState)
        → ((s : RelayState) → IsRelayed event_of before s → IsRelayed event_of before (rest s))
        → (s : RelayState) → IsRelayed event_of before s
        → IsRelayed event_of before (after_batch config r rest s)
    after_batch-IsRelayed (ok zero) rest k s h = h
    after_batch-IsRelayed (ok (suc n)) rest k s h = k s h
    after_batch-IsRelayed (err e) rest k s h = h

    drain-IsRelayed :
        (left : ℕ) (answers : ℕ → Answers) (s : RelayState)
        → IsRelayed event_of before s
        → IsRelayed event_of before (drain config left answers s)
    unfolding drain
    drain-IsRelayed zero answers s h = h
    drain-IsRelayed (suc left) answers s h =
        let (r, t) = process_batch config (answers left) s in
        stopped (answers left).shutdown s (after_batch config r (drain config left answers) t) h (
          after_batch-IsRelayed r (drain config left answers) (drain-IsRelayed left answers) t
            (process_batch-IsRelayed config (answers left) s h))
      where
        stopped :
            (b : Bool) (x y : RelayState)
            → IsRelayed event_of before x
            → IsRelayed event_of before y
            → IsRelayed event_of before (if b then x else y)
        stopped true x y hx hy = hx
        stopped false x y hx hy = hy

    -- The relay's main loop, whatever Kafka, Redis and the database answer and whenever it is shut
    -- down, keeps the rows sound, the cache inside of what Kafka took, and every event that stood in
    -- the table either there or taken by Kafka.
    pub process_pending-IsRelayed :
        (answers : ℕ → Answers) (s : RelayState)
        → IsRelayed event_of before s
        → IsRelayed event_of before (process_pending config answers s)
    unfolding process_pending
    process_pending-IsRelayed answers s h = drain-IsRelayed 100 answers s h

  -- So does the recovery of stale locks.
  release_stale_locks-IsRelayed :
      (secs : ℕ) (s : RelayState)
      → IsRelayed event_of before s
      → IsRelayed event_of before (set_table s (release_stale_locks secs s.table).1)
  unfolding release_stale_locks
  release_stale_locks-IsRelayed secs s h =
      mapped-IsRelayed event_of before s (unlock_stale (s.table.now - secs)) unlock_id
        (Every-mapped (IsSound event_of s.log) (IsSound event_of s.log)
          (unlock_stale (s.table.now - secs)) (unlocked-IsSound event_of s.log (s.table.now - secs))
          s.table.rows h.rows)
        h
    where
      unlock_id : (r : OutboxEvent) → (unlock_stale (s.table.now - secs) r).id ≡ r.id
      unlock_id r = elim (Bool-cases (is_stale (s.table.now - secs) r)) [
        | inl q ↦ rw q refl
        | inr q ↦ rw q refl
      ]
