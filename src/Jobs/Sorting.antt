-- ===== src/Jobs/Sorting.antt =====
-- The rows of a claim in the order of their times, and the first of them:
-- shared/src/jobs/repository.rs.
use koupang.Prelude.{
  ℕ, zero, suc, ◌≤◌, ◌≡◌, refl, Bool, true, false, List, [], ◌∷◌, length, select, leb, leb→le,
  ==_iff, Every, inl, inr, Bool-cases, arith, Every-implied, take, Every-both, Every-always,
}
use koupang.Jobs.{Job}
use koupang.Jobs.Repository.{insert_by_run, sort_by_run, among}

abbrev pub Sorted : List Job → Type 0
Sorted [] = Unit
Sorted (r ∷ rs) = Every (λ x. r.next_run_at ≤ x.next_run_at) rs × Sorted rs

-- Lists of rows

module _ (P : Job → Type 0) where
  Every-inserted : (r : Job) (rs : List Job) → P r → Every P rs → Every P (insert_by_run r rs)
  Every-inserted r [] p h = (p, tt)
  Every-inserted r (x ∷ xs) p h = elim (Bool-cases (leb r.next_run_at x.next_run_at)) [
    | inl e ↦ rw e (p, h)
    | inr e ↦ rw e (h.0, Every-inserted r xs p h.1)
  ]

  pub Every-sorted : (rs : List Job) → Every P rs → Every P (sort_by_run rs)
  Every-sorted [] h = tt
  Every-sorted (r ∷ rs) h = Every-inserted r (sort_by_run rs) h.0 (Every-sorted rs h.1)

  Every-uninserted : (r : Job) (rs : List Job) → Every P (insert_by_run r rs) → P r × Every P rs
  Every-uninserted r [] h = h
  Every-uninserted r (x ∷ xs) h = elim (Bool-cases (leb r.next_run_at x.next_run_at)) [
    | inl e ↦ rw e at h
    | inr e ↦ let k = (rw e at h) in let (p, rest) = Every-uninserted r xs k.1 in (p, (k.0, rest))
  ]

  pub Every-unsorted : (rs : List Job) → Every P (sort_by_run rs) → Every P rs
  Every-unsorted [] h = tt
  Every-unsorted (r ∷ rs) h =
      let (p, k) = Every-uninserted r (sort_by_run rs) h in (p, Every-unsorted rs k)

  -- Every row that passes the test.
  pub Every-unselected :
      (p : Job → Bool) (rs : List Job) → Every P (select p rs) → Every (λ r. p r ≡ true → P r) rs
  Every-unselected p [] h = tt
  Every-unselected p (r ∷ rs) h = elim (Bool-cases (p r)) [
    | inl e ↦ let k = (rw e at h) in (λ q. k.0, Every-unselected p rs k.1)
    | inr e ↦ (λ q. absurd (ground (arith, e, q)), Every-unselected p rs (rw e at h))
  ]

pub sort_by_run-Sorted : (rs : List Job) → Sorted (sort_by_run rs)
sort_by_run-Sorted [] = tt
sort_by_run-Sorted (r ∷ rs) = insert_by_run-Sorted r (sort_by_run rs) (sort_by_run-Sorted rs)
  where
    insert_by_run-Sorted : (r : Job) (rs : List Job) → Sorted rs → Sorted (insert_by_run r rs)
    insert_by_run-Sorted r [] h = (tt, tt)
    insert_by_run-Sorted r (x ∷ xs) h = elim (Bool-cases (leb r.next_run_at x.next_run_at)) [
      | inl e ↦ rw e (
        (
          leb→le r.next_run_at x.next_run_at e,
          Every-implied (λ y. x.next_run_at ≤ y.next_run_at) (λ y. r.next_run_at ≤ y.next_run_at)
              (λ y k. omega (arith, k, leb→le r.next_run_at x.next_run_at e)) xs h.0,
        ),
        h,
      )
      | inr e ↦ rw e (
        Every-inserted (λ y. x.next_run_at ≤ y.next_run_at) r xs (ground (arith, e)) h.0,
        insert_by_run-Sorted r xs h.1,
      )
    ]

pub length-sort_by_run : (rs : List Job) → length (sort_by_run rs) ≡ length rs
length-sort_by_run [] = refl
length-sort_by_run (r ∷ rs) =
    omega (arith, length-insert_by_run (sort_by_run rs), length-sort_by_run rs)
  where
    length-insert_by_run : (xs : List Job) → length (insert_by_run r xs) ≡ suc (length xs)
    length-insert_by_run [] = refl
    length-insert_by_run (x ∷ xs) = elim (Bool-cases (leb r.next_run_at x.next_run_at)) [
      | inl e ↦ rw e refl
      | inr e ↦ rw (e, length-insert_by_run xs) refl
    ]

-- A row of a sorted list that is not among the first ones comes after them.
pub taken_first :
    (n : ℕ) (rs : List Job)
    → Sorted rs
    → Every
        (λ r.
          among (take n rs) r ≡ false → Every (λ job. job.next_run_at ≤ r.next_run_at) (take n rs))
        rs
taken_first zero rs h = Every-always (λ r. among [] r ≡ false → Unit) (λ r e. tt) rs
taken_first (suc n) [] h = tt
taken_first (suc n) (x ∷ xs) h = (
  λ e. absurd (ground (arith, e, (==_iff x.id x.id).1 refl)),
  Every-implied
      (λ r.
        (x.next_run_at ≤ r.next_run_at)
        × (among (take n xs) r ≡ false
            → Every (λ job. job.next_run_at ≤ r.next_run_at) (take n xs)))
      (λ r.
        among (x ∷ take n xs) r ≡ false
        → Every (λ job. job.next_run_at ≤ r.next_run_at) (x ∷ take n xs))
      (λ r k e. (k.0, k.1 (ground (arith, e)))) xs
      (Every-both (λ r. x.next_run_at ≤ r.next_run_at)
        (λ r.
          among (take n xs) r ≡ false → Every (λ job. job.next_run_at ≤ r.next_run_at) (take n xs))
        xs h.0 (taken_first n xs h.1)),
)
