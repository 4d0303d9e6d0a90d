-- ===== src/Outbox/Relayed.antt =====
-- What the relay of shared/src/outbox/relay.rs keeps of the outbox, its cache and Kafka, and the
-- statements that keep it.
use koupang.Prelude.{
  ℕ, ◌≡◌, refl, true, negate, List, map, all_of, Every, ◌⊎◌, inl, inr, Bool-cases, Every-select,
}
use koupang.Outbox.{OutboxEvent}
use koupang.Outbox.Repository.{has_number, is_row, updated, guards, update_row, delete_published}
use koupang.Outbox.Relay.{RelayState, set_table}
use koupang.Outbox.Soundness.{IsSound, Every-map_all, has_row, has_row-map, has_row-deleted}

module _ (event_of : ℕ → ℕ) (before : List OutboxEvent) where
  -- The rows are sound, the cache holds only what Kafka took, and every event that stood in the table
  -- before stands there or was taken.
  pub record IsRelayed (s : RelayState) : Type 0 where
    pub rows : Every (IsSound event_of s.log) s.table.rows
    pub cached : (e : ℕ) → has_number e s.cache ≡ true → has_number e s.log ≡ true
    pub kept :
        (id : ℕ)
        → has_row id before ≡ true
        → (has_row id s.table.rows ≡ true) ⊎ (has_number (event_of id) s.log ≡ true)

  abbrev pub with_rows : RelayState → List OutboxEvent → RelayState
  with_rows s rs = set_table s (record s.table { rows = rs })

  pub mapped-IsRelayed :
      (s : RelayState) (f : OutboxEvent → OutboxEvent)
      → ((r : OutboxEvent) → (f r).id ≡ r.id)
      → Every (IsSound event_of s.log) (map f s.table.rows)
      → IsRelayed s
      → IsRelayed (with_rows s (map f s.table.rows))
  mapped-IsRelayed s f same sound h = record {
    rows = sound;
    cached = h.cached;
    kept = λ id was. rw (has_row-map f same id s.table.rows) (h.kept id was);
  }

  updated_id :
      (id : ℕ) (change : OutboxEvent → OutboxEvent)
      → ((r : OutboxEvent) → (change r).id ≡ r.id)
      → (r : OutboxEvent) → (updated id change r).id ≡ r.id
  updated_id id change same r = elim (Bool-cases (is_row id r)) [
    | inl e ↦ rw e (same r)
    | inr e ↦ rw e refl
  ]

  pub update_row-IsRelayed :
      (s : RelayState) (id : ℕ) (change : OutboxEvent → OutboxEvent)
      → ((r : OutboxEvent) → (change r).id ≡ r.id)
      → ((r : OutboxEvent)
          → guards id change r ≡ true
          → IsSound event_of s.log r
          → IsSound event_of s.log (updated id change r))
      → IsRelayed s
      → IsRelayed (set_table s (update_row id change s.table).1)
  unfolding update_row
  update_row-IsRelayed s id change same sound h =
      elim (Bool-cases (all_of (guards id change) s.table.rows)) [
        | inl e ↦ rw e (
            mapped-IsRelayed s (updated id change) (updated_id id change same)
              (Every-map_all (IsSound event_of s.log) (guards id change) (updated id change) sound
                s.table.rows e h.rows)
              h)
        | inr e ↦ rw e (record { rows = h.rows; cached = h.cached; kept = h.kept })
      ]

  pub deleted-IsRelayed :
      (s : RelayState) (id : ℕ)
      → has_number (event_of id) s.log ≡ true
      → IsRelayed s
      → IsRelayed (set_table s (delete_published id s.table).1)
  unfolding delete_published
  deleted-IsRelayed s id taken h = record {
    rows = Every-select (IsSound event_of s.log) (λ r. negate (is_row id r)) s.table.rows h.rows;
    cached = h.cached;
    kept = λ i was. elim (h.kept i was) [
      | inl here ↦ elim (has_row-deleted i id s.table.rows here) [
        | inl e ↦ inr (rw e taken)
        | inr still ↦ inl still
      ]
      | inr log ↦ inr log
    ];
  }
