-- ===== src/Pagination/Pages.antt =====
-- What a client reads page by page: shared/src/db/pagination_support.rs.
use native.Mathlib.Nat.{mod-eq_of_lt}
use koupang.Prelude.{
  ℕ, zero, suc, ◌+◌, ◌≤◌, ◌<◌, ◌≡◌, refl, sym, ap, ◌∙◌, Bool, true, false, Option, none, some, List,
  [], ◌∷◌, ◌++◌, length, select, ltb, ltb→lt, lt→ltb, Every, inl, inr, Bool-cases, arith, ◌%◌, ◌^◌,
  take, Every-implied, Every-select, select-Every,
}
use koupang.Pagination.{
  PaginationParams, forward, backward, first, last, after, before, id_of, page,
}
use koupang.Pagination.Lists.{
  ltb-not, none-some, drop, pop-take, length-take_full, select_narrow, select_all, select_none,
  last_of, first_of,
}

pub fetched : (limit : ℕ) → limit ≤ 100 → (limit + 1) % 2 ^ 32 ≡ suc limit
fetched limit h = mod-eq_of_lt (omega (arith, h)) ∙ omega arith

abbrev pub forward_from : ℕ → Option ℕ → PaginationParams
forward_from limit cursor = record { limit = limit; cursor = cursor; direction = forward }

abbrev pub backward_from : ℕ → Option ℕ → PaginationParams
backward_from limit cursor = record { limit = limit; cursor = cursor; direction = backward }

module _ {T : Type 0} (id : T → ℕ) where
  abbrev pub Increasing : List T → Type 0
  Increasing [] = Unit
  Increasing (r ∷ rows) = Every (λ x. id r < id x) rows × Increasing rows

  -- The items that a client collects that follows `next_cursor`, for as many pages as it asks for.
  abbrev read_on : Option ℕ → (Option ℕ → List T) → List T
  read_on none ask = []
  read_on (some cursor) ask = ask (some cursor)

  unfoldable pub read_all : ℕ → ℕ → List T → Option ℕ → List T
  read_all limit zero rows cursor = []
  read_all limit (suc pages) rows cursor =
      let p = page id (forward_from limit cursor) rows in
      p.items ++ read_on p.next_cursor (read_all limit pages rows)

  Increasing-select : (p : T → Bool) (rows : List T) → Increasing rows → Increasing (select p rows)
  Increasing-select p [] h = tt
  Increasing-select p (r ∷ rows) h = elim (Bool-cases (p r)) [
    | inl e ↦ rw e (Every-select (λ x. id r < id x) p rows h.0, Increasing-select p rows h.1)
    | inr e ↦ rw e (Increasing-select p rows h.1)
  ]

  Increasing-drop : (n : ℕ) (rows : List T) → Increasing rows → Increasing (drop n rows)
  unfolding drop
  Increasing-drop zero rows h = h
  Increasing-drop (suc n) [] h = tt
  Increasing-drop (suc n) (r ∷ rows) h = Increasing-drop n rows h.1

  id_the : Option ℕ → ℕ
  id_the none = 0
  id_the (some d) = d

  -- What comes after the last row of a page.
  after-last :
      (n d : ℕ) (rows : List T)
      → Increasing rows
      → id_of id (last (take (suc n) rows)) ≡ some d
      → select (after id (some d)) rows ≡ drop (suc n) rows
  unfolding drop id_the
  after-last n d [] h e = refl
  after-last zero d (x ∷ rows) h e = rw (ltb-not d (id x) (omega (arith, ap id_the e))) (
      select_all (after id (some d)) rows (
        Every-implied (λ y. id x < id y) (λ y. ltb d (id y) ≡ true)
          (λ y k. lt→ltb d (id y) (omega (arith, k, ap id_the e))) rows h.0))
  after-last (suc n) d (x ∷ []) h e = rw (ltb-not d (id x) (omega (arith, ap id_the e))) refl
  after-last (suc n) d (x ∷ y ∷ rows) h e =
      let (r, ends, above) = last_of (λ z. id x < id z) n (y ∷ rows) (omega arith) h.0 in
      let same = ap id_the (ap (id_of id) (sym ends) ∙ e) in
      rw (ltb-not d (id x) (omega (arith, above, same))) (after-last n d (y ∷ rows) h.1 e)

  -- What comes before the first row of the next page.
  pub before-first :
      (n d : ℕ) (rows : List T)
      → Increasing rows
      → id_of id (first (drop n rows)) ≡ some d
      → select (before id (some d)) rows ≡ take n rows
  unfolding drop id_the
  before-first zero d [] h e = refl
  before-first (suc n) d [] h e = refl
  before-first zero d (x ∷ rows) h e = rw (ltb-not (id x) d (omega (arith, ap id_the e))) (
      select_none (before id (some d)) rows (
        Every-implied (λ y. id x < id y) (λ y. ltb (id y) d ≡ false)
          (λ y k. ltb-not (id y) d (omega (arith, k, ap id_the e))) rows h.0))
  before-first (suc n) d (x ∷ rows) h e = elim (Bool-cases (ltb n (length rows))) [
    | inl l ↦
        let (r, starts, above) =
          first_of (λ z. id x < id z) n rows (ltb→lt n (length rows) l) h.0 in
        let same = ap id_the (ap (id_of id) (sym starts) ∙ e) in
        rw (lt→ltb (id x) d (omega (arith, above, same)))
          (ap (λ (l : List T). x ∷ l) (before-first n d rows h.1 e))
    | inr l ↦ absurd (nothing n rows (ground (arith, l)) e)
  ]
    where
      nothing :
          (n : ℕ) (rows : List T) → length rows ≤ n → id_of id (first (drop n rows)) ≡ some d → ⊥
      nothing zero [] k e = none-some e
      nothing (suc n) [] k e = none-some e
      nothing zero (y ∷ rows) k e = omega (arith, k)
      nothing (suc n) (y ∷ rows) k e = nothing n rows (omega (arith, k)) e

  module _ (limit : ℕ) (most : limit ≤ 100) where
    page_full :
        (cursor : Option ℕ) (rows : List T)
        → limit < length (select (after id cursor) rows)
        → ((page id (forward_from limit cursor) rows).items
            ≡ take limit (select (after id cursor) rows))
          × ((page id (forward_from limit cursor) rows).next_cursor
              ≡ id_of id (last (take limit (select (after id cursor) rows))))
    unfolding page
    page_full cursor rows h =
        rw
          (
            fetched limit most,
            length-take_full (suc limit) (select (after id cursor) rows) (omega (arith, h)),
            lt→ltb limit (suc limit) (omega arith),
            pop-take limit (select (after id cursor) rows) h,
          )
          (refl, refl)

  -- The rows after the end of a page are those after its start without the page.
  pub page_rest :
      (m : ℕ) (most : suc m ≤ 100) (cursor : Option ℕ) (rows : List T)
      → Increasing rows
      → suc m < length (select (after id cursor) rows)
      → (d : ℕ) × ((page id (forward_from (suc m) cursor) rows).next_cursor ≡ some d)
        × (select (after id (some d)) rows ≡ drop (suc m) (select (after id cursor) rows))
  page_rest m most cursor rows inc h =
      let (r, ends, above) =
        last_of (λ x. after id cursor x ≡ true) m (select (after id cursor) rows) (omega (arith, h))
          (select-Every (after id cursor) rows) in
      (
        id r,
        (page_full (suc m) most cursor rows h).1 ∙ ap (id_of id) ends,
        sym (select_narrow (after id (some (id r))) (after id cursor) (passes cursor r above) rows)
            ∙ after-last m (id r) (select (after id cursor) rows)
                (Increasing-select (after id cursor) rows inc) (ap (id_of id) ends),
      )
    where
      passes :
          (c : Option ℕ) (r : T)
          → after id c r ≡ true
          → (x : T) → ltb (id r) (id x) ≡ true
          → after id c x ≡ true
      passes none r above x k = refl
      passes (some c) r above x k =
          lt→ltb c (id x) (omega (arith, ltb→lt c (id r) above, ltb→lt (id r) (id x) k))
