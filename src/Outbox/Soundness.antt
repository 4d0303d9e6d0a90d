-- ===== src/Outbox/Soundness.antt =====
-- What stays true of the rows of the outbox while statements run on them.
use koupang.Prelude.{
  ℕ, ◌+◌, ◌≤◌, ◌<◌, ◌≡◌, refl, Bool, true, false, ◌&&◌, negate, Option, none, some, List, [], ◌∷◌,
  map, select, leb, ◌==◌, ==_iff, if◌then◌else◌, is_some, find, all_of, Every, ◌⊎◌, inl, inr,
  Bool-cases, arith, and_parts,
}
use koupang.Json.{Text}
use koupang.Outbox.{OutboxEvent, OutboxStatus, pending, published}
use koupang.Outbox.Repository.{
  has_number, is_row, updated, guards, status_allowed, claimable, claim_row, published_row,
  retried_row, is_due, is_stale, unlock_stale,
}

-- By its status: a row that waits has retries left, a published row has its time and its event is
-- among those that Kafka took, and a failed one has none left. `event_of` names the event of a row.
module _ (event_of : ℕ → ℕ) (log : List ℕ) where
  abbrev IsSoundAs : OutboxStatus → OutboxEvent → Type 0
  IsSoundAs pending r = r.retry_count < r.max_retries
  IsSoundAs published r = (is_some r.published_at ≡ true) × (has_number (event_of r.id) log ≡ true)
  IsSoundAs OutboxStatus.failed r = r.max_retries ≤ r.retry_count

  abbrev pub IsSound : OutboxEvent → Type 0
  IsSound r = (r.event_id ≡ event_of r.id) × IsSoundAs r.status r

  pub published-IsSound :
      (id now : ℕ) (r : OutboxEvent)
      → has_number (event_of id) log ≡ true
      → guards id (published_row now) r ≡ true
      → IsSound r
      → IsSound (updated id (published_row now) r)
  published-IsSound id now r taken g h = elim (Bool-cases (is_row id r)) [
    | inl e ↦ rw e (h.0, (refl, rw ((==_iff r.id id).0 e) taken))
    | inr e ↦ rw e h
  ]

  pub retried-IsSound :
      (id now : ℕ) (error : Text) (r : OutboxEvent)
      → guards id (retried_row error now) r ≡ true
      → IsSound r
      → IsSound (updated id (retried_row error now) r)
  retried-IsSound id now error r g h = elim (Bool-cases (is_row id r)) [
    | inl e ↦ rw e (h.0, retried r.status (leb r.max_retries (r.retry_count + 1)) refl (rw e at g))
    | inr e ↦ rw e h
  ]
    where
      retried :
          (st : OutboxStatus) (b : Bool)
          → leb r.max_retries (r.retry_count + 1) ≡ b
          → status_allowed st (if b then OutboxStatus.failed else pending) ≡ true
          → IsSoundAs (if b then OutboxStatus.failed else pending) (retried_row error now r)
      retried st true q k = ground (arith, q)
      retried st false q k = ground (arith, q)

  -- Locks do not matter.
  relocked-IsSoundAs :
      (st : OutboxStatus) (r : OutboxEvent) (by at : Option ℕ)
      → IsSoundAs st r
      → IsSoundAs st (record r { locked_by = by; locked_at = at })
  relocked-IsSoundAs pending r by at h = h
  relocked-IsSoundAs published r by at h = h
  relocked-IsSoundAs OutboxStatus.failed r by at h = h

  pub claimed-IsSound :
      (claimed : List OutboxEvent) (instance_id now : ℕ) (r : OutboxEvent)
      → IsSound r
      → IsSound (claim_row claimed instance_id now r)
  claimed-IsSound claimed instance_id now r h =
      elim (Bool-cases (is_some (find (is_row r.id) claimed))) [
        | inl e ↦ rw e (h.0, relocked-IsSoundAs r.status r (some instance_id) (some now) h.1)
        | inr e ↦ rw e h
      ]

  pub unlocked-IsSound : (limit : ℕ) (r : OutboxEvent) → IsSound r → IsSound (unlock_stale limit r)
  unlocked-IsSound limit r h = elim (Bool-cases (is_stale limit r)) [
    | inl e ↦ rw e (h.0, relocked-IsSoundAs r.status r none none h.1)
    | inr e ↦ rw e h
  ]

-- What Kafka took is not forgotten.
pub grown-IsSound :
    (event_of : ℕ → ℕ) (log : List ℕ) (e : ℕ) (r : OutboxEvent)
    → IsSound event_of log r
    → IsSound event_of (e ∷ log) r
grown-IsSound event_of log e r h = (h.0, grown r.status h.1)
  where
    grown : (st : OutboxStatus) → IsSoundAs event_of log st r → IsSoundAs event_of (e ∷ log) st r
    grown pending k = k
    grown published k = (k.0, ground (arith, k.1))
    grown OutboxStatus.failed k = k

-- Lists of rows.
module _ (P : OutboxEvent → Type 0) where
  -- Under a test that every row passes.
  pub Every-map_all :
      (p : OutboxEvent → Bool) (f : OutboxEvent → OutboxEvent)
      → ((r : OutboxEvent) → p r ≡ true → P r → P (f r))
      → (rs : List OutboxEvent) → all_of p rs ≡ true
      → Every P rs
      → Every P (map f rs)
  Every-map_all p f k [] g h = tt
  Every-map_all p f k (r ∷ rs) g h =
      let both = and_parts (p r) (all_of p rs) g in
      (k r both.0 h.0, Every-map_all p f k rs both.1 h.1)

  pub Every-claimable :
      (now : ℕ) (seen : List ℕ) (rs : List OutboxEvent)
      → Every P rs
      → Every P (claimable now seen rs)
  unfolding claimable
  Every-claimable now seen [] h = tt
  Every-claimable now seen (r ∷ rs) h =
      let oldest = is_due now r && negate (has_number r.aggregate_id seen) in
      let rest = Every-claimable now (if oldest then r.aggregate_id ∷ seen else seen) rs h.1 in
      kept (oldest && negate (is_some r.locked_by)) r _ h.0 rest
    where
      kept :
          (b : Bool) (x : OutboxEvent) (xs : List OutboxEvent)
          → P x
          → Every P xs
          → Every P (if b then x ∷ xs else xs)
      kept true x xs hx hs = (hx, hs)
      kept false x xs hx hs = hs

-- The ids of the rows that stand in a table.
abbrev pub has_row : ℕ → List OutboxEvent → Bool
has_row id rs = is_some (find (is_row id) rs)

pub has_row-map :
    (f : OutboxEvent → OutboxEvent)
    → ((r : OutboxEvent) → (f r).id ≡ r.id)
    → (i : ℕ) (rs : List OutboxEvent) → has_row i (map f rs) ≡ has_row i rs
has_row-map f same i [] = refl
has_row-map f same i (r ∷ rs) =
    rw (same r)
      (elim (Bool-cases (r.id == i)) [ inl e ↦ rw e refl | inr e ↦ rw e (has_row-map f same i rs) ])

pub has_row-deleted :
    (i id : ℕ) (rs : List OutboxEvent)
    → has_row i rs ≡ true
    → (i ≡ id) ⊎ (has_row i (select (λ r. negate (is_row id r)) rs) ≡ true)
has_row-deleted i id [] h = absurd (ground (arith, h))
has_row-deleted i id (r ∷ rs) h = ground (arith, h, has_row-deleted i id rs)
