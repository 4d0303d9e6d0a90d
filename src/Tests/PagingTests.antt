-- ===== src/Tests/PagingTests.antt =====
-- The theorems on pages at five rows, read by two.
use koupang.Prelude.{ℕ, ◌≡◌, none, [], ◌∷◌, arith}
use koupang.Pagination.{page}
use koupang.Pagination.Pages.{Increasing, forward_from, backward_from}
use koupang.Pagination.Back.{page-back}

abbrev id : ℕ → ℕ
id n = n

five-Increasing : Increasing id (2 ∷ 3 ∷ 5 ∷ 7 ∷ 11 ∷ [])
five-Increasing = (
  (omega arith, (omega arith, (omega arith, (omega arith, tt)))),
  (
    (omega arith, (omega arith, (omega arith, tt))),
    ((omega arith, (omega arith, tt)), ((omega arith, tt), (tt, tt))),
  ),
)

page-back_example :
    page id
      (backward_from 2
        (page id
          (forward_from 2 (page id (forward_from 2 none) (2 ∷ 3 ∷ 5 ∷ 7 ∷ 11 ∷ [])).next_cursor)
          (2 ∷ 3 ∷ 5 ∷ 7 ∷ 11 ∷ [])).prev_cursor)
      (2 ∷ 3 ∷ 5 ∷ 7 ∷ 11 ∷ [])
    ≡ page id (forward_from 2 none) (2 ∷ 3 ∷ 5 ∷ 7 ∷ 11 ∷ [])
page-back_example =
    page-back id 2 (2 ∷ 3 ∷ 5 ∷ 7 ∷ 11 ∷ []) (omega arith) (omega arith) five-Increasing
      (omega arith)
