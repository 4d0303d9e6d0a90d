-- ===== src/Jobs/Rows.antt =====
-- Rows that come and go in a valid table of jobs: shared/src/jobs/repository.rs.
use koupang.Prelude.{
  ◌+◌, ◌<◌, ◌≡◌, ◌≢◌, refl, Bool, true, false, ◌&&◌, negate, Option, none, some, String, str_eq,
  eq_iff, List, [], ◌∷◌, ◌++◌, select, Every, Every-append, inl, inr, Bool-cases, arith, and_parts,
  Every-select, Every-implied,
}
use koupang.Jobs.{Job, JobTable}
use koupang.Jobs.Constraints.{is_live, same_key, clashes, clear_of, keys_unique}
use koupang.Jobs.Repository.{with_row}
use koupang.Jobs.Table.{Locks, IdsDistinct, IsValid}

-- A new row

str_eq_sym : (a b : String) → str_eq a b ≡ str_eq b a
str_eq_sym a b = elim (Bool-cases (str_eq a b)) [
  | inl e ↦ rw ((eq_iff a b).0 e) refl
  | inr e ↦ elim (Bool-cases (str_eq b a)) [
    | inl k ↦ rw ((eq_iff b a).0 k) refl
    | inr k ↦ rw (e, k) refl
  ]
]

same_key_sym : (a b : Option String) → same_key a b ≡ same_key b a
same_key_sym (some a) (some b) = str_eq_sym a b
same_key_sym (some a) none = refl
same_key_sym none (some b) = refl
same_key_sym none none = refl

clashes_sym : (a b : Job) → clashes a b ≡ clashes b a
clashes_sym a b =
    rw (str_eq_sym a.job_type b.job_type, same_key_sym a.dedup_key b.dedup_key)
      (swapped (is_live a.status) (is_live b.status) (str_eq b.job_type a.job_type)
        (same_key b.dedup_key a.dedup_key))
  where
    swapped : (x y u v : Bool) → x && y && u && v ≡ y && x && u && v
    swapped true true u v = refl
    swapped true false u v = refl
    swapped false true u v = refl
    swapped false false u v = refl

appended-keys_unique :
    (r : Job) (rs : List Job)
    → clear_of r rs ≡ true
    → keys_unique rs ≡ true
    → keys_unique (rs ++ r ∷ []) ≡ true
appended-keys_unique r [] c k = refl
appended-keys_unique r (x ∷ xs) c k =
    let (apart, clear) = and_parts (negate (clashes r x)) (clear_of r xs) c in
    let (above, unique) = and_parts (clear_of x xs) (keys_unique xs) k in
    rw (appended-clear_of x xs above (rw (clashes_sym r x) at apart))
      (appended-keys_unique r xs clear unique)
  where
    appended-clear_of :
        (x : Job) (xs : List Job)
        → clear_of x xs ≡ true
        → negate (clashes x r) ≡ true
        → clear_of x (xs ++ r ∷ []) ≡ true
    appended-clear_of x [] h e = rw e refl
    appended-clear_of x (y ∷ ys) h e =
        let (a, b) = and_parts (negate (clashes x y)) (clear_of x ys) h in
        rw a (appended-clear_of x ys b e)

appended-IdsDistinct :
    (r : Job) (rs : List Job)
    → Every (λ x. x.id < r.id) rs
    → IdsDistinct rs
    → IdsDistinct (rs ++ r ∷ [])
appended-IdsDistinct r [] b h = (tt, tt)
appended-IdsDistinct r (x ∷ xs) b h = (
  Every-append (λ y. y.id ≢ x.id) xs (r ∷ []) h.0 (λ e. omega (arith, e, b.0), tt),
  appended-IdsDistinct r xs b.1 h.1,
)

pub with_row-IsValid :
    (t : JobTable) (r : Job)
    → r.id ≡ t.next_id
    → Locks r
    → clear_of r t.rows ≡ true
    → IsValid t
    → IsValid (with_row t r)
with_row-IsValid t r own locks clear h = record {
  locks = Every-append Locks t.rows (r ∷ []) h.locks (locks, tt);
  ids = appended-IdsDistinct r t.rows (rw own h.below) h.ids;
  below =
      Every-append (λ x. x.id < t.next_id + 1) t.rows (r ∷ [])
        (Every-implied (λ x. x.id < t.next_id) (λ x. x.id < t.next_id + 1) (λ x k. omega (arith, k))
          t.rows h.below)
        (omega (arith, own), tt);
  keys = appended-keys_unique r t.rows clear h.keys;
}

-- Rows that go

pub selected-IdsDistinct :
    (p : Job → Bool) (rs : List Job) → IdsDistinct rs → IdsDistinct (select p rs)
selected-IdsDistinct p [] h = tt
selected-IdsDistinct p (r ∷ rs) h = elim (Bool-cases (p r)) [
  | inl e ↦ rw e (Every-select (λ x. x.id ≢ r.id) p rs h.0, selected-IdsDistinct p rs h.1)
  | inr e ↦ rw e (selected-IdsDistinct p rs h.1)
]

selected-clear_of :
    (r : Job) (p : Job → Bool) (rs : List Job)
    → clear_of r rs ≡ true
    → clear_of r (select p rs) ≡ true
selected-clear_of r p [] h = refl
selected-clear_of r p (x ∷ xs) h =
    let (apart, clear) = and_parts (negate (clashes r x)) (clear_of r xs) h in
    elim (Bool-cases (p x)) [
      | inl e ↦ rw (e, apart) (selected-clear_of r p xs clear)
      | inr e ↦ rw e (selected-clear_of r p xs clear)
    ]

pub selected-keys_unique :
    (p : Job → Bool) (rs : List Job) → keys_unique rs ≡ true → keys_unique (select p rs) ≡ true
selected-keys_unique p [] h = refl
selected-keys_unique p (r ∷ rs) h =
    let (clear, unique) = and_parts (clear_of r rs) (keys_unique rs) h in
    elim (Bool-cases (p r)) [
      | inl e ↦ rw (e, selected-clear_of r p rs clear) (selected-keys_unique p rs unique)
      | inr e ↦ rw e (selected-keys_unique p rs unique)
    ]
