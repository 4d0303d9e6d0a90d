-- ===== src/Pagination/Back.antt =====
-- The way back through the pages of shared/src/db/pagination_support.rs.
use koupang.Prelude.{
  ℕ, zero, suc, ◌≤◌, ◌<◌, ◌≡◌, refl, sym, ap, ◌∙◌, Option, none, some, List, [], ◌∷◌, length,
  select, ltb, lt→ltb, Every, inl, inr, Bool-cases, arith, take,
}
use koupang.Pagination.{PaginationRes, reverse, first, last, after, before, id_of, trimmed, page}
use koupang.Pagination.Lists.{
  ltb-not, pop-take, length-take_full, take_all, reverse-reverse, length-reverse, first_of,
}
use koupang.Pagination.Pages.{
  Increasing, forward_from, backward_from, fetched, page_rest, before-first,
}

module _ {T : Type 0} (id : T → ℕ) where
  every_row : (rows : List T) → select (after id none) rows ≡ rows
  every_row [] = refl
  every_row (r ∷ rows) = rw (every_row rows) refl

  abbrev first_page : ℕ → List T → PaginationRes T
  first_page limit rows = record {
    items = take limit rows;
    next_cursor = id_of id (last (take limit rows));
    prev_cursor = none;
  }

  page-first :
      (limit : ℕ) (rows : List T)
      → limit ≤ 100
      → limit < length rows
      → page id (forward_from limit none) rows ≡ first_page limit rows
  unfolding page
  page-first limit rows most h =
      rw
        (
          every_row rows,
          fetched limit most,
          length-take_full (suc limit) rows (omega (arith, h)),
          lt→ltb limit (suc limit) (omega arith),
          pop-take limit rows h,
        )
        refl

  -- The page before the rows that the limit leaves.
  page-backward :
      (limit d : ℕ) (rows : List T)
      → limit ≤ 100
      → limit < length rows
      → select (before id (some d)) rows ≡ take limit rows
      → page id (backward_from limit (some d)) rows ≡ first_page limit rows
  unfolding page
  page-backward limit d rows most h earlier =
      rw
        (
          earlier,
          fetched limit most,
          take_all (suc limit) (reverse (take limit rows)) (omega (arith, size)),
          ltb-not limit (length (reverse (take limit rows))) (omega (arith, size)),
          reverse-reverse (take limit rows),
        )
        refl
    where
      size : length (reverse (take limit rows)) ≡ limit
      size = length-reverse (take limit rows) ∙ length-take_full limit rows (omega (arith, h))

  first-trimmed :
      (m : ℕ) (rows : List T) → first (trimmed id (suc m) (take (suc (suc m)) rows)) ≡ first rows
  first-trimmed m [] = rw (ltb-not (suc m) 0 (omega arith)) refl
  first-trimmed m (x ∷ []) = rw (ltb-not (suc m) 1 (omega arith)) refl
  first-trimmed m (x ∷ y ∷ rows) = elim (Bool-cases (ltb (suc m) (length (x ∷ y ∷ take m rows)))) [
    | inl e ↦ rw e refl
    | inr e ↦ rw e refl
  ]

  page-prev :
      (m d : ℕ) (rows : List T)
      → suc m ≤ 100
      → (page id (forward_from (suc m) (some d)) rows).prev_cursor
        ≡ id_of id (first (select (after id (some d)) rows))
  unfolding page
  page-prev m d rows most =
      rw (fetched (suc m) most, first-trimmed m (select (after id (some d)) rows)) refl

  -- Back from the second page a client comes to the first one again, with its cursors.
  pub page-back :
      (limit : ℕ) (rows : List T)
      → 0 < limit
      → limit ≤ 100
      → Increasing id rows
      → limit < length rows
      → page id
          (backward_from limit
            (page id
              (forward_from limit (page id (forward_from limit none) rows).next_cursor)
              rows).prev_cursor)
          rows
        ≡ page id (forward_from limit none) rows
  page-back zero rows least most inc h = absurd (omega (arith, least))
  page-back (suc m) rows least most inc h =
      let (d, next, rest) = page_rest id m most none rows inc (rw (every_row rows) h) in
      let (r, starts, own) = first_of (λ x. id x ≡ id x) (suc m) rows h (every_own rows) in
      let follows = (rw (every_row rows) at rest) in
      let prev =
        page-prev m d rows most
        ∙ ap (λ (l : List T). id_of id (first l)) follows
        ∙ ap (id_of id) starts in
      let back =
        ap (λ (c : Option ℕ). (page id (forward_from (suc m) c) rows).prev_cursor) next ∙ prev in
      ap (λ (c : Option ℕ). page id (backward_from (suc m) c) rows) back
      ∙ page-backward (suc m) (id r) rows most h
          (before-first id (suc m) (id r) rows inc (ap (id_of id) starts))
      ∙ sym (page-first (suc m) rows most h)
    where
      every_own : (l : List T) → Every (λ x. id x ≡ id x) l
      every_own [] = tt
      every_own (x ∷ l) = (refl, every_own l)
