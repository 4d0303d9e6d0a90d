-- ===== src/Pagination.antt =====
-- Pages by a cursor: shared/src/db/pagination_support.rs. The rows that a query has before its page
-- is taken are the list of them in ascending order of their ids; `id` is the method of `HasId`.
mod Lists
pub mod Pages
pub mod Back
pub mod Items
use koupang.Prelude.{
  ℕ, ◌+◌, ◌%◌, ◌^◌, min, Bool, true, false, Option, none, some, List, [], ◌∷◌, ◌++◌, length, select,
  ltb, if◌then◌else◌, is_some, take,
}

pub data PaginationDirection : Type 0 where
  forward backward : PaginationDirection

pub record PaginationQuery : Type 0 where
  pub limit : Option ℕ
  pub cursor : Option ℕ
  pub direction : Option PaginationDirection

pub record PaginationParams : Type 0 where
  pub limit : ℕ
  pub cursor : Option ℕ
  pub direction : PaginationDirection

pub record NextAndPrevCursor : Type 0 where
  pub next_cursor : Option ℕ
  pub prev_cursor : Option ℕ

pub record PaginationRes (T : Type 0) : Type 0 where
  pub items : List T
  pub next_cursor : Option ℕ
  pub prev_cursor : Option ℕ

-- `Option::unwrap_or`.
abbrev or_default : {A : Type 0} → Option A → A → A
or_default none d = d
or_default (some a) d = a

unfoldable pub into_params : PaginationQuery → PaginationParams
into_params q = record {
  limit = min (or_default q.limit 20) 100;
  cursor = q.cursor;
  direction = or_default q.direction forward;
}

module _ {T : Type 0} where
  abbrev pub reverse : List T → List T
  reverse [] = []
  reverse (r ∷ rows) = reverse rows ++ r ∷ []

  -- `Vec::pop`, without the element.
  abbrev pub pop : List T → List T
  pop [] = []
  pop (r ∷ []) = []
  pop (r ∷ s ∷ rows) = r ∷ pop (s ∷ rows)

  abbrev pub first : List T → Option T
  first [] = none
  first (r ∷ rows) = some r

  abbrev pub last : List T → Option T
  last [] = none
  last (r ∷ []) = some r
  last (r ∷ s ∷ rows) = last (s ∷ rows)

  module _ (id : T → ℕ) where
    abbrev pub after : Option ℕ → T → Bool
    after none r = true
    after (some last_id) r = ltb last_id (id r)

    abbrev pub before : Option ℕ → T → Bool
    before none r = true
    before (some first_id) r = ltb (id r) first_id

    -- The rows that come with the clauses that `keyset_paginate` adds. In a build that checks for
    -- overflow the greatest limit of 32 bits is a panic instead.
    unfoldable pub keyset_paginate : PaginationParams → List T → List T
    keyset_paginate params rows = elim params.direction [
      | forward ↦ take ((params.limit + 1) % 2 ^ 32) (select (after params.cursor) rows)
      | backward ↦ take ((params.limit + 1) % 2 ^ 32) (reverse (select (before params.cursor) rows))
    ]

    abbrev pub id_of : Option T → Option ℕ
    id_of none = none
    id_of (some r) = some (id r)

    -- The rows that are left in the vector, and the cursors.
    abbrev pub trimmed : ℕ → List T → List T
    trimmed limit rows = if ltb limit (length rows) then pop rows else rows

    unfoldable pub get_cursors : PaginationParams → List T → List T × NextAndPrevCursor
    get_cursors params rows =
        let has_more = ltb params.limit (length rows) in
        let kept = trimmed params.limit rows in
        elim params.direction [
          | forward ↦ (
            kept,
            record {
              next_cursor = if has_more then id_of (last kept) else none;
              prev_cursor = if is_some params.cursor then id_of (first kept) else none;
            },
          )
          | backward ↦ (
            reverse kept,
            record {
              next_cursor = id_of (last (reverse kept));
              prev_cursor = if has_more then id_of (first (reverse kept)) else none;
            },
          )
        ]

    -- `PaginationRes::new` of a query's rows, as the services call these functions.
    unfoldable pub page : PaginationParams → List T → PaginationRes T
    unfolding keyset_paginate get_cursors
    page params rows =
        let (items, cursors) = get_cursors params (keyset_paginate params rows) in
        record {
          items = items;
          next_cursor = cursors.next_cursor;
          prev_cursor = cursors.prev_cursor;
        }
