-- ===== src/Outbox/Refusals.antt =====
-- How long a relay tries an event that Kafka refuses: `claim_batch` and `mark_retry_or_failed` of
-- shared/src/outbox/repository.rs.
use koupang.Prelude.{
  ℕ, suc, ◌+◌, ◌^◌, min, ◌≤◌, ◌<◌, ◌≡◌, ◌≢◌, refl, sym, ap, subst, ◌∙◌, ◌⊎◌, inl, inr, true, none,
  List, [], ◌∷◌, map, length, leb, ==_iff, is_some, find, all_of, Bool-cases, arith, Every,
  Every-mapped, Mem, mem-map_of_mem, take,
}
use koupang.Json.{Text}
use koupang.Outbox.{OutboxTable, OutboxEvent, OutboxStatus, pending, published}
use koupang.Outbox.Repository.{
  is_row, claimable, claim_row, claim_batch, retried_row, mark_retry_or_failed, update_row, guards,
  updated, status_allowed, locked_row,
}

-- Each round, at the time of its list, claims what is due and is then refused the event.
abbrev pub refused_at : ℕ → ℕ → Text → ℕ → List ℕ → OutboxTable → OutboxTable
refused_at batch_size instance_id error id [] t = t
refused_at batch_size instance_id error id (now ∷ times) t =
    refused_at batch_size instance_id error id times
      (mark_retry_or_failed id error
        (claim_batch batch_size instance_id (record t { now = now })).1).1

-- The row stands in the table, and is the only one with its id.
abbrev pub Here : OutboxEvent → List OutboxEvent → Type 0
Here r rows = Mem r rows × Every (λ x. (x.id ≢ r.id) ⊎ (x ≡ r)) rows

-- A row that was refused, for the `count`-th time in all at the time `last`.
pub data Stands (max_retries count last : ℕ) (r : OutboxEvent) : Type 0 where
  waits :
      count < max_retries
      → r.status ≡ pending
      → r.locked_by ≡ none
      → r.locked_at ≡ none
      → r.next_retry_at ≡ last + 2 ^ min count 10
      → Stands max_retries count last r
  gives_up : max_retries ≤ count → r.status ≡ OutboxStatus.failed → Stands max_retries count last r

-- The last time of a list that is not empty.
abbrev pub last_of : ℕ → List ℕ → ℕ
last_of now [] = now
last_of now (later ∷ times) = last_of later times

map-Here :
    (f : OutboxEvent → OutboxEvent) (r : OutboxEvent) (rows : List OutboxEvent)
    → ((x : OutboxEvent) → (f x).id ≡ x.id)
    → Here r rows
    → Here (f r) (map f rows)
map-Here f r rows same h = (
  mem-map_of_mem f h.0,
  Every-mapped (λ x. (x.id ≢ r.id) ⊎ (x ≡ r)) (λ x. (x.id ≢ (f r).id) ⊎ (x ≡ f r)) f
      (λ x k. elim k [ inl ne ↦ inl (rw (same x, same r) ne) | inr e ↦ inr (ap f e) ]) rows h.1,
)

claim_row-id :
    (claimed : List OutboxEvent) (instance_id now : ℕ) (r : OutboxEvent)
    → (claim_row claimed instance_id now r).id ≡ r.id
claim_row-id claimed instance_id now r = elim (Bool-cases (is_some (find (is_row r.id) claimed))) [
  | inl q ↦ rw q refl
  | inr q ↦ rw q refl
]

claim_row-kept :
    (claimed : List OutboxEvent) (instance_id now : ℕ) (r : OutboxEvent)
    → ((claim_row claimed instance_id now r).status ≡ r.status)
      × (((claim_row claimed instance_id now r).max_retries ≡ r.max_retries)
          × ((claim_row claimed instance_id now r).retry_count ≡ r.retry_count))
claim_row-kept claimed instance_id now r =
    elim (Bool-cases (is_some (find (is_row r.id) claimed))) [
      | inl q ↦ rw q (refl, (refl, refl))
      | inr q ↦ rw q (refl, (refl, refl))
    ]

-- A refusal may change the row.
abbrev pub MayRetry : OutboxEvent → Type 0
MayRetry r =
    (r.status ≡ pending) ⊎ ((r.status ≡ OutboxStatus.failed) × (r.max_retries ≤ r.retry_count))

status_allowed-same : (st : OutboxStatus) → status_allowed st st ≡ true
status_allowed-same pending = refl
status_allowed-same published = refl
status_allowed-same OutboxStatus.failed = refl

module _ (error : Text) (now : ℕ) (r : OutboxEvent) where
  abbrev change : OutboxEvent → OutboxEvent
  change = updated r.id (retried_row error now)

  change-id : (x : OutboxEvent) → (change x).id ≡ x.id
  change-id x = elim (Bool-cases (is_row r.id x)) [ inl q ↦ rw q refl | inr q ↦ rw q refl ]

  change-own : change r ≡ retried_row error now r
  change-own = rw ((==_iff r.id r.id).1 refl) refl

  own-allowed : MayRetry r → status_allowed r.status (retried_row error now r).status ≡ true
  own-allowed (inl waiting) = rw waiting refl
  own-allowed (inr (gone, spent)) = rw (gone, over r.max_retries r.retry_count spent) refl
    where
      over : (m c : ℕ) → m ≤ c → leb m (c + 1) ≡ true
      over m c k = ground (arith, k)

  all-allowed :
      (rows : List OutboxEvent)
      → MayRetry r
      → Every (λ x. (x.id ≢ r.id) ⊎ (x ≡ r)) rows
      → all_of (guards r.id (retried_row error now)) rows ≡ true
  all-allowed [] may h = refl
  all-allowed (x ∷ xs) may h = rw (first h.0, all-allowed xs may h.1) refl
    where
      first : (x.id ≢ r.id) ⊎ (x ≡ r) → guards r.id (retried_row error now) x ≡ true
      first (inl ne) = elim (Bool-cases (is_row r.id x)) [
        | inl q ↦ absurd (ne ((==_iff x.id r.id).0 q))
        | inr q ↦ rw (q, status_allowed-same x.status) refl
      ]
      first (inr e) =
          subst (λ y. guards r.id (retried_row error now) y ≡ true) (sym e)
            (rw ((==_iff r.id r.id).1 refl, own-allowed may) refl)

  retried-Here :
      (t : OutboxTable)
      → t.now ≡ now
      → MayRetry r
      → Here r t.rows
      → Here (retried_row error now r) (mark_retry_or_failed r.id error t).1.rows
  unfolding mark_retry_or_failed update_row
  retried-Here t at may h =
      rw (at, all-allowed t.rows may h.1)
        (subst (λ x. Here x (map change t.rows)) change-own (map-Here change r t.rows change-id h))

  retried-Stands : Stands r.max_retries (r.retry_count + 1) now (retried_row error now r)
  retried-Stands = elim (Bool-cases (leb r.max_retries (r.retry_count + 1))) [
    | inl spent ↦ rw spent (gives_up (ground (arith, spent)) refl)
    | inr left ↦ rw left (waits (ground (arith, left)) refl refl refl refl)
  ]

claimed-Stands :
    (error : Text) (now : ℕ) (r : OutboxEvent) (claimed : List OutboxEvent) (instance_id : ℕ)
    → Stands r.max_retries
        (r.retry_count + 1)
        now
        (retried_row error now (claim_row claimed instance_id now r))
claimed-Stands error now r claimed instance_id =
    elim (Bool-cases (is_some (find (is_row r.id) claimed))) [
      | inl q ↦ rw q (retried-Stands error now (locked_row instance_id now r))
      | inr q ↦ rw q (retried-Stands error now r)
    ]

claim_row-MayRetry :
    (claimed : List OutboxEvent) (instance_id now : ℕ) (r : OutboxEvent)
    → MayRetry r
    → MayRetry (claim_row claimed instance_id now r)
claim_row-MayRetry claimed instance_id now r may =
    elim (Bool-cases (is_some (find (is_row r.id) claimed))) [ inl q ↦ rw q may | inr q ↦ rw q may ]

standing-MayRetry :
    (m c last : ℕ) (r : OutboxEvent)
    → Stands m c last r
    → r.max_retries ≡ m
    → r.retry_count ≡ c
    → MayRetry r
standing-MayRetry m c last r (waits left st a b d) em ec = inl st
standing-MayRetry m c last r (gives_up spent st) em ec = inr (st, rw (em, ec) spent)

module _ (batch_size instance_id : ℕ) (error : Text) where
  -- One round.
  refused :
      (now : ℕ) (r : OutboxEvent) (t : OutboxTable)
      → MayRetry r
      → Here r t.rows
      → (r' : OutboxEvent) × Here r'
          (refused_at batch_size instance_id error r.id (now ∷ []) t).rows
        × ((r'.id ≡ r.id)
            × ((r'.max_retries ≡ r.max_retries)
                × ((r'.retry_count ≡ r.retry_count + 1)
                    × Stands r.max_retries (r.retry_count + 1) now r')))
  unfolding claim_batch
  refused now r t may h =
      let claimed = take batch_size (claimable now [] t.rows) in
      let q = claim_row claimed instance_id now r in
      let kept = claim_row-kept claimed instance_id now r in
      let id = claim_row-id claimed instance_id now r in
      (
        retried_row error now q,
        subst
            (λ i.
              Here (retried_row error now q)
                (mark_retry_or_failed i error
                  (claim_batch batch_size instance_id (record t { now = now })).1).1.rows)
            id
            (retried-Here error now q
              (claim_batch batch_size instance_id (record t { now = now })).1 refl
              (claim_row-MayRetry claimed instance_id now r may)
              (map-Here (claim_row claimed instance_id now) r t.rows
                (claim_row-id claimed instance_id now) h)),
        (id, (kept.1.0, (rw kept.1.1 refl, claimed-Stands error now r claimed instance_id))),
      )

  -- An event that Kafka refuses in each of some rounds, at least one, stays pending and unlocked, to
  -- be tried again at the time of the last refusal and two to the power of its count of refusals, of
  -- ten at most, in seconds, as long as that count is below its limit; and it has failed once the
  -- count reaches the limit. In each round the relay claims what is due and then records the refusal.
  -- Before, the event stands in the table as the only one with its id, and is pending or has failed
  -- with its limit reached.
  pub refused_at-Stands :
      (now : ℕ) (times : List ℕ) (r : OutboxEvent) (t : OutboxTable)
      → MayRetry r
      → Here r t.rows
      → (r' : OutboxEvent) × Here r'
          (refused_at batch_size instance_id error r.id (now ∷ times) t).rows
        × ((r'.id ≡ r.id)
            × Stands r.max_retries (r.retry_count + length (now ∷ times)) (last_of now times) r')
  refused_at-Stands now [] r t may h =
      let it = refused now r t may h in (it.0, it.1, (it.2.0, it.2.1.1.1))
  refused_at-Stands now (later ∷ times) r t may h =
      let it = refused now r t may h in
      let may_again =
        standing-MayRetry r.max_retries (r.retry_count + 1) now it.0 it.2.1.1.1 it.2.1.0
          it.2.1.1.0 in
      let after = refused_at batch_size instance_id error r.id (now ∷ []) t in
      let end = refused_at-Stands later times it.0 after may_again it.1 in
      (
        end.0,
        subst
            (λ i. Here end.0 (refused_at batch_size instance_id error i (later ∷ times) after).rows)
            it.2.0 end.1,
        (
          end.2.0 ∙ it.2.0,
          subst
              (λ m. Stands m (r.retry_count + suc (suc (length times))) (last_of later times) end.0)
              it.2.1.0
              (subst (λ c. Stands it.0.max_retries c (last_of later times) end.0)
                (rw it.2.1.1.0 (one_more r.retry_count (length times))) end.2.1),
        ),
      )
    where
      one_more : (a b : ℕ) → a + 1 + suc b ≡ a + suc (suc b)
      one_more a b = omega arith
