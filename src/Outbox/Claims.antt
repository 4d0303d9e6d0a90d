-- ===== src/Outbox/Claims.antt =====
-- What a relay claims from the outbox.
use koupang.Prelude.{
  ℕ, zero, suc, ◌≤◌, ◌≡◌, ◌≢◌, refl, Bool, true, false, ◌&&◌, negate, Option, none, some, List, [],
  ◌∷◌, map, length, is_some, Every, inl, inr, Bool-cases, arith, take, length-take, length-map,
  Every-take, Every-mapped, Every-implied, Every-both, Every-member, Mem, mem-map_of_mem, subst,
  find, ==_iff, ◌==◌,
}
use koupang.Errors.{AppError}
use koupang.Action.{Outcome, done}
use koupang.Outbox.{OutboxTable, OutboxEvent}
use koupang.Outbox.Soundness.{Every-claimable}
use koupang.Outbox.Repository.{
  has_number, is_due, claimable, locked_row, claim_row, is_row, claim_batch,
}

-- No two events of one aggregate.
abbrev pub Distinct : List OutboxEvent → Type 0
Distinct [] = Unit
Distinct (r ∷ rs) = Every (λ x. x.aggregate_id ≢ r.aggregate_id) rs × Distinct rs

-- An event that waited, was due, and is now locked by the relay.
abbrev pub IsClaimed : ℕ → ℕ → OutboxEvent → Type 0
IsClaimed instance_id now e = (is_due now e ≡ true) × (e.locked_by ≡ some instance_id)

-- The row of a claimed event, before the claim: not locked by any relay.
abbrev Unlocked : OutboxTable → OutboxEvent → Type 0
Unlocked t e =
    (r : OutboxEvent) × Mem r t.rows
    × ((r.id ≡ e.id) × ((is_due t.now r ≡ true) × (r.locked_by ≡ none)))

abbrev pub Claims : ℕ → ℕ → OutboxTable → Outcome AppError (List OutboxEvent) → OutboxTable → Type 0
Claims batch_size instance_id t (done es) after =
    (length es ≤ batch_size)
    × (Every (IsClaimed instance_id t.now) es
        × (Distinct es × (Every (Unlocked t) es × Every (λ e. Mem e after.rows) es)))
Claims batch_size instance_id t _ after = ⊥

-- An event that may be claimed: due, not locked, of an aggregate that was not seen before.
abbrev Fresh : ℕ → List ℕ → OutboxEvent → Type 0
Fresh now seen e =
    (is_due now e ≡ true) × ((e.locked_by ≡ none) × (has_number e.aggregate_id seen ≡ false))

claimable_facts :
    (now : ℕ) (seen : List ℕ) (rs : List OutboxEvent)
    → Every (Fresh now seen) (claimable now seen rs) × Distinct (claimable now seen rs)
unfolding claimable
claimable_facts now seen [] = (tt, tt)
claimable_facts now seen (r ∷ rs) =
    elim (Bool-cases (is_due now r && negate (has_number r.aggregate_id seen))) [
      | inl e ↦
          let (fresh, apart) = claimable_facts now (r.aggregate_id ∷ seen) rs in
          rw e (elim (Bool-cases (is_some r.locked_by)) [
            | inl l ↦ rw l (narrowed r.aggregate_id _ fresh, apart)
            | inr l ↦ rw l (
              (
                (
                  (oldest (is_due now r) (has_number r.aggregate_id seen) e).0,
                  (
                    unlocked r.locked_by l,
                    (oldest (is_due now r) (has_number r.aggregate_id seen) e).1,
                  ),
                ),
                narrowed r.aggregate_id _ fresh,
              ),
              (separate r.aggregate_id _ fresh, apart),
            )
          ])
      | inr e ↦ rw e (claimable_facts now seen rs)
    ]
  where
    oldest : (a b : Bool) → a && negate b ≡ true → (a ≡ true) × (b ≡ false)
    oldest a b e = ground (arith, e)

    unlocked : (o : Option ℕ) → is_some o ≡ false → o ≡ none
    unlocked none l = refl
    unlocked (some x) l = absurd (ground (arith, l))

    unseen :
        (x y : ℕ) (l : List ℕ) → has_number y (x ∷ l) ≡ false → (y ≢ x) × (has_number y l ≡ false)
    unseen x y l k = (λ q. ground (arith, k, q), ground (arith, k))

    narrowed :
        (x : ℕ) (es : List OutboxEvent)
        → Every (Fresh now (x ∷ seen)) es
        → Every (Fresh now seen) es
    narrowed x [] h = tt
    narrowed x (e ∷ es) h =
        ((h.0.0, (h.0.1.0, (unseen x e.aggregate_id seen h.0.1.1).1)), narrowed x es h.1)

    separate :
        (x : ℕ) (es : List OutboxEvent)
        → Every (Fresh now (x ∷ seen)) es
        → Every (λ y. y.aggregate_id ≢ x) es
    separate x [] h = tt
    separate x (e ∷ es) h = ((unseen x e.aggregate_id seen h.0.1.1).0, separate x es h.1)

Distinct-taken : (n : ℕ) (rs : List OutboxEvent) → Distinct rs → Distinct (take n rs)
Distinct-taken zero rs h = tt
Distinct-taken (suc n) [] h = tt
Distinct-taken (suc n) (r ∷ rs) h =
    (Every-take (λ x. x.aggregate_id ≢ r.aggregate_id) n rs h.0, Distinct-taken n rs h.1)

module _ (instance_id now : ℕ) where
  locked-IsClaimed :
      (es : List OutboxEvent)
      → Every (Fresh now []) es
      → Every (IsClaimed instance_id now) (map (locked_row instance_id now) es)
  locked-IsClaimed =
      Every-mapped (Fresh now []) (IsClaimed instance_id now) (locked_row instance_id now)
        (λ e h. (h.0, refl))

  Distinct-locked :
      (es : List OutboxEvent) → Distinct es → Distinct (map (locked_row instance_id now) es)
  Distinct-locked [] h = tt
  Distinct-locked (e ∷ es) h = (
    Every-mapped (λ x. x.aggregate_id ≢ e.aggregate_id) (λ x. x.aggregate_id ≢ e.aggregate_id)
        (locked_row instance_id now) (λ x apart. apart) es h.0,
    Distinct-locked es h.1,
  )

-- An event of a list is found in it.
Every-found : (es : List OutboxEvent) → Every (λ e. is_some (find (is_row e.id) es) ≡ true) es
Every-found [] = tt
Every-found (e ∷ es) = (
  rw ((==_iff e.id e.id).1 refl) refl,
  Every-implied (λ x. is_some (find (is_row x.id) es) ≡ true)
      (λ x. is_some (find (is_row x.id) (e ∷ es)) ≡ true)
      (λ x k. elim (Bool-cases (e.id == x.id)) [ inl q ↦ rw q refl | inr q ↦ rw q k ]) es
      (Every-found es),
)

module _ (batch_size instance_id : ℕ) (t : OutboxTable) where
  abbrev claimed : List OutboxEvent
  claimed = take batch_size (claimable t.now [] t.rows)

  claimed-Fresh : Every (Fresh t.now []) claimed
  claimed-Fresh = Every-take (Fresh t.now []) batch_size _ (claimable_facts t.now [] t.rows).0

  claimed-Mem : Every (λ r. Mem r t.rows) claimed
  claimed-Mem =
      Every-take (λ r. Mem r t.rows) batch_size _
        (Every-claimable (λ r. Mem r t.rows) t.now [] t.rows (Every-member t.rows))

  claimed-Unlocked : Every (Unlocked t) (map (locked_row instance_id t.now) claimed)
  claimed-Unlocked =
      Every-mapped (λ r. Fresh t.now [] r × Mem r t.rows) (Unlocked t)
        (locked_row instance_id t.now) (λ r k. (r, k.1, (refl, (k.0.0, k.0.1.0)))) claimed
        (Every-both (Fresh t.now []) (λ r. Mem r t.rows) claimed claimed-Fresh claimed-Mem)

  -- The events that are returned are rows of the table after the claim.
  claimed-stand :
      Every
        (λ e. Mem e (map (claim_row claimed instance_id t.now) t.rows))
        (map (locked_row instance_id t.now) claimed)
  claimed-stand =
      Every-mapped (λ r. Mem r t.rows × (is_some (find (is_row r.id) claimed) ≡ true))
        (λ e. Mem e (map (claim_row claimed instance_id t.now) t.rows))
        (locked_row instance_id t.now)
        (λ r k.
          subst (λ x. Mem x (map (claim_row claimed instance_id t.now) t.rows)) (rw k.1 refl)
            (mem-map_of_mem (claim_row claimed instance_id t.now) k.0))
        claimed
        (Every-both (λ r. Mem r t.rows) (λ r. is_some (find (is_row r.id) claimed) ≡ true) claimed
          claimed-Mem (Every-found claimed))

-- A claim yields at most `batch_size` events, at most one of each aggregate. Each of them was a
-- pending and due row of the table that no relay had locked, and now stands in the table as it is
-- returned, locked by the relay that claims.
pub claim_batch-Claims :
    (batch_size instance_id : ℕ) (t : OutboxTable)
    → Claims batch_size instance_id t
        (claim_batch batch_size instance_id t).0
        (claim_batch batch_size instance_id t).1
unfolding claim_batch
claim_batch-Claims batch_size instance_id t = (
  omega (
    arith,
    length-map (locked_row instance_id t.now) (claimed batch_size instance_id t),
    length-take batch_size (claimable t.now [] t.rows),
  ),
  (
    locked-IsClaimed instance_id t.now _ (claimed-Fresh batch_size instance_id t),
    (
      Distinct-locked instance_id t.now _
          (Distinct-taken batch_size _ (claimable_facts t.now [] t.rows).1),
      (claimed-Unlocked batch_size instance_id t, claimed-stand batch_size instance_id t),
    ),
  ),
)
