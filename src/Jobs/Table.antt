-- ===== src/Jobs/Table.antt =====
-- The invariant of the table of jobs (shared/src/jobs/repository.rs), and the statements that keep it.
use koupang.Prelude.{
  ℕ, ◌<◌, ◌≡◌, ◌≢◌, refl, Bool, true, false, ◌&&◌, negate, str_eq, List, [], ◌∷◌, map, is_some,
  all_of, Every, inl, inr, Bool-cases, arith, and_parts, Every-mapped,
}
use koupang.Action.{done}
use koupang.Jobs.{Job, JobTable, JobStatus, pending, running, completed, dead_lettered}
use koupang.Jobs.Constraints.{
  is_live, is_running, same_key, clashes, clear_of, keys_unique, updated, allowed, status_allowed,
  update_where,
}

-- A row is locked exactly while it runs.
abbrev pub Locks : Job → Type 0
Locks r = (is_some r.locked_by ≡ is_running r.status) × (is_some r.locked_at ≡ is_running r.status)

abbrev pub IdsDistinct : List Job → Type 0
IdsDistinct [] = Unit
IdsDistinct (r ∷ rs) = Every (λ x. x.id ≢ r.id) rs × IdsDistinct rs

pub record IsValid (t : JobTable) : Type 0 where
  pub locks : Every Locks t.rows
  pub ids : IdsDistinct t.rows
  pub below : Every (λ r. r.id < t.next_id) t.rows
  pub keys : keys_unique t.rows ≡ true

-- What every `SET` of the repository does to a row: it keeps the row's identity, and what it
-- writes of the lock fits what it writes of the status.
pub record IsChange (change : Job → Job) : Type 0 where
  pub same_id : (r : Job) → (change r).id ≡ r.id
  pub same_type : (r : Job) → (change r).job_type ≡ r.job_type
  pub same_dedup_key : (r : Job) → (change r).dedup_key ≡ r.dedup_key
  pub locked : (r : Job) → Locks (change r)

pub status_allowed-same : (st : JobStatus) (b : Bool) → status_allowed st st b ≡ true
status_allowed-same pending b = refl
status_allowed-same running b = refl
status_allowed-same completed b = refl
status_allowed-same JobStatus.failed b = refl
status_allowed-same dead_lettered b = refl
status_allowed-same JobStatus.cancelled b = refl

module _ (chosen : Job → Bool) (change : Job → Job) (c : IsChange change) (now : ℕ) where
  updated-id : (r : Job) → (updated chosen change now r).id ≡ r.id
  updated-id r = elim (Bool-cases (chosen r)) [ inl e ↦ rw e (c.same_id r) | inr e ↦ rw e refl ]

  updated-type : (r : Job) → (updated chosen change now r).job_type ≡ r.job_type
  updated-type r = elim (Bool-cases (chosen r)) [ inl e ↦ rw e (c.same_type r) | inr e ↦ rw e refl ]

  updated-dedup_key : (r : Job) → (updated chosen change now r).dedup_key ≡ r.dedup_key
  updated-dedup_key r = elim (Bool-cases (chosen r)) [
    | inl e ↦ rw e (c.same_dedup_key r)
    | inr e ↦ rw e refl
  ]

  updated-Locks : (r : Job) → Locks r → Locks (updated chosen change now r)
  updated-Locks r h = elim (Bool-cases (chosen r)) [ inl e ↦ rw e (c.locked r) | inr e ↦ rw e h ]

  updated-IdsDistinct :
      (rs : List Job) → IdsDistinct rs → IdsDistinct (map (updated chosen change now) rs)
  updated-IdsDistinct [] h = tt
  updated-IdsDistinct (r ∷ rs) h = (
    Every-mapped (λ x. x.id ≢ r.id) (λ x. x.id ≢ (updated chosen change now r).id)
        (updated chosen change now) (λ x apart. rw (updated-id x, updated-id r) apart) rs h.0,
    updated-IdsDistinct rs h.1,
  )

  -- A change that does not bring a row to life keeps the index, the test of the trigger given.
  abbrev pub Moves : Job → Type 0
  Moves r =
      (allowed chosen change now r ≡ true)
      × (is_live (updated chosen change now r).status ≡ true → is_live r.status ≡ true)

  updated-clashes :
      (a b : Job)
      → Moves a
      → Moves b
      → clashes a b ≡ false
      → clashes (updated chosen change now a) (updated chosen change now b) ≡ false
  updated-clashes a b ha hb h =
      rw (updated-type a, updated-type b, updated-dedup_key a, updated-dedup_key b)
        (narrowed (is_live (updated chosen change now a).status) (is_live a.status)
          (is_live (updated chosen change now b).status) (is_live b.status)
          (str_eq a.job_type b.job_type) (same_key a.dedup_key b.dedup_key) ha.1 hb.1 h)
    where
      narrowed :
          (la ka lb kb x y : Bool)
          → (la ≡ true → ka ≡ true)
          → (lb ≡ true → kb ≡ true)
          → ka && kb && x && y ≡ false
          → la && lb && x && y ≡ false
      narrowed false ka lb kb x y a b e = refl
      narrowed true ka false kb x y a b e = refl
      narrowed true ka true kb x y a b e = rw (a refl, b refl) at e

  updated-clear_of :
      (a : Job) (rs : List Job)
      → Moves a
      → Every Moves rs
      → clear_of a rs ≡ true
      → clear_of (updated chosen change now a) (map (updated chosen change now) rs) ≡ true
  updated-clear_of a [] ha hs h = refl
  updated-clear_of a (b ∷ rs) ha hs h =
      let both = and_parts (negate (clashes a b)) (clear_of a rs) h in
      rw (updated-clashes a b ha hs.0 (ground (arith, both.0)))
        (updated-clear_of a rs ha hs.1 both.1)

  pub updated-keys_unique :
      (rs : List Job)
      → Every Moves rs
      → keys_unique rs ≡ true
      → keys_unique (map (updated chosen change now) rs) ≡ true
  updated-keys_unique [] hs h = refl
  updated-keys_unique (a ∷ rs) hs h =
      let both = and_parts (clear_of a rs) (keys_unique rs) h in
      rw (updated-clear_of a rs hs.0 hs.1 both.0) (updated-keys_unique rs hs.1 both.1)

  all-allowed : (rs : List Job) → Every Moves rs → all_of (allowed chosen change now) rs ≡ true
  all-allowed [] hs = refl
  all-allowed (a ∷ rs) hs = rw (hs.0.0) (all-allowed rs hs.1)

module _ (chosen : Job → Bool) (change : Job → Job) (c : IsChange change) where
  -- A change that goes through leaves a valid table, and one that does not leaves the table.
  pub update_where-IsValid : (t : JobTable) → IsValid t → IsValid (update_where chosen change t).1
  unfolding update_where
  update_where-IsValid t h =
      elim (Bool-cases (
        all_of (allowed chosen change t.now) t.rows
        && keys_unique (map (updated chosen change t.now) t.rows))) [
          | inl e ↦ rw e record {
            locks =
                Every-mapped Locks Locks (updated chosen change t.now)
                  (updated-Locks chosen change c t.now) t.rows h.locks;
            ids = updated-IdsDistinct chosen change c t.now t.rows h.ids;
            below =
                Every-mapped (λ r. r.id < t.next_id) (λ r. r.id < t.next_id)
                  (updated chosen change t.now) (λ r k. rw (updated-id chosen change c t.now r) k)
                  t.rows h.below;
            keys =
                (and_parts (all_of (allowed chosen change t.now) t.rows)
                  (keys_unique (map (updated chosen change t.now) t.rows)) e).1;
          }
          | inr e ↦ rw e h
        ]

  -- It goes through when no row is brought to life.
  pub update_where_through :
      (t : JobTable)
      → IsValid t
      → Every (Moves chosen change c t.now) t.rows
      → update_where chosen change t
        ≡ (done tt, record t { rows = map (updated chosen change t.now) t.rows })
  unfolding update_where
  update_where_through t h moves =
      rw (all-allowed chosen change c t.now t.rows moves)
        (rw (updated-keys_unique chosen change c t.now t.rows moves h.keys) refl)
