-- ===== src/Pagination/Items.antt =====
-- What a page of shared/src/db/pagination_support.rs holds, in either direction.
use koupang.Prelude.{
  ℕ, ◌+◌, ◌%◌, ◌^◌, ◌≤◌, ◌<◌, ◌≡◌, List, [], ◌∷◌, length, select, ltb, Every, Every-append, inl,
  inr, Bool-cases, arith, take, length-take, Every-take, Every-select,
}
use koupang.Pagination.{
  PaginationParams, PaginationDirection, forward, backward, reverse, pop, trimmed, after, before,
  keyset_paginate, get_cursors,
}
use koupang.Pagination.Lists.{length-reverse}

module _ {T : Type 0} where
  length-pop : (rows : List T) → 0 < length rows → length (pop rows) + 1 ≡ length rows
  length-pop [] h = absurd (omega (arith, h))
  length-pop (r ∷ []) h = omega arith
  length-pop (r ∷ s ∷ rows) h = omega (arith, length-pop (s ∷ rows) (omega arith))

  module _ (P : T → Type 0) where
    Every-pop : (rows : List T) → Every P rows → Every P (pop rows)
    Every-pop [] h = tt
    Every-pop (r ∷ []) h = tt
    Every-pop (r ∷ s ∷ rows) h = (h.0, Every-pop (s ∷ rows) h.1)

    Every-reverse : (rows : List T) → Every P rows → Every P (reverse rows)
    Every-reverse [] h = tt
    Every-reverse (r ∷ rows) h =
        Every-append P (reverse rows) (r ∷ []) (Every-reverse rows h.1) (h.0, tt)

  module _ (id : T → ℕ) (P : T → Type 0) where
    abbrev pub Fits : ℕ → List T → Type 0
    Fits limit rows = (length rows ≤ limit) × Every P rows

    trimmed-Fits :
        (limit : ℕ) (rows : List T)
        → length rows ≤ limit + 1
        → Every P rows
        → Fits limit (trimmed id limit rows)
    trimmed-Fits limit rows h k = elim (Bool-cases (ltb limit (length rows))) [
      | inl e ↦ rw e (omega (arith, h, length-pop rows (ground (arith, e))), Every-pop P rows k)
      | inr e ↦ rw e (ground (arith, e), k)
    ]

    taken-Fits :
        (limit : ℕ) (rows : List T)
        → Every P rows
        → Fits limit (trimmed id limit (take ((limit + 1) % 2 ^ 32) rows))
    taken-Fits limit rows k =
        trimmed-Fits limit (take ((limit + 1) % 2 ^ 32) rows)
          (omega (arith, length-take ((limit + 1) % 2 ^ 32) rows))
          (Every-take P ((limit + 1) % 2 ^ 32) rows k)

    -- A page is no longer than its limit, and whatever holds of all rows holds of those on it.
    pub page-Fits :
        (params : PaginationParams) (rows : List T)
        → Every P rows
        → Fits params.limit (get_cursors id params (keyset_paginate id params rows)).0
    unfolding get_cursors keyset_paginate
    page-Fits params rows k = directed params.direction
      where
        backed : (limit : ℕ) (l : List T) → Fits limit l → Fits limit (reverse l)
        backed limit l h = (omega (arith, length-reverse l, h.0), Every-reverse P l h.1)

        directed :
            (d : PaginationDirection)
            → Fits params.limit
                (get_cursors id
                  (record params { direction = d })
                  (keyset_paginate id (record params { direction = d }) rows)).0
        directed forward =
            taken-Fits params.limit (select (after id params.cursor) rows)
              (Every-select P (after id params.cursor) rows k)
        directed backward =
            backed params.limit
              (trimmed id params.limit (
                take ((params.limit + 1) % 2 ^ 32)
                  (reverse (select (before id params.cursor) rows))))
              (taken-Fits params.limit (reverse (select (before id params.cursor) rows)) (
                Every-reverse P (select (before id params.cursor) rows)
                  (Every-select P (before id params.cursor) rows k)))
