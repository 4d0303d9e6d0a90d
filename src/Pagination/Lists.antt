-- ===== src/Pagination/Lists.antt =====
-- The lists that the pages of shared/src/db/pagination_support.rs are cut from.
use koupang.Prelude.{
  ℕ, zero, suc, ◌≤◌, ◌<◌, ◌≡◌, refl, sym, ap, ◌∙◌, Bool, true, false, none, some, List, [], ◌∷◌,
  ◌++◌, length, select, ltb, is_some, Every, append-nil, inl, inr, Bool-cases, arith, length-append,
  take, length-take,
}
use koupang.Pagination.{reverse, pop, first, last}

pub ltb-not : (a b : ℕ) → b ≤ a → ltb a b ≡ false
ltb-not a b h = ground (arith, h)

pub none-some : {d : ℕ} → none ≡ some d → ⊥
none-some e = ground (arith, ap is_some e)

module _ {T : Type 0} where
  unfoldable pub drop : ℕ → List T → List T
  drop zero rows = rows
  drop (suc n) [] = []
  drop (suc n) (r ∷ rows) = drop n rows

  pub pop-take : (n : ℕ) (rows : List T) → n < length rows → pop (take (suc n) rows) ≡ take n rows
  pop-take n [] h = absurd (omega (arith, h))
  pop-take zero (r ∷ rows) h = refl
  pop-take (suc n) (r ∷ []) h = absurd (omega (arith, h))
  pop-take (suc n) (r ∷ s ∷ rows) h =
      ap (λ (l : List T). r ∷ l) (pop-take n (s ∷ rows) (omega (arith, h)))

  pub length-take_full : (n : ℕ) (rows : List T) → n ≤ length rows → length (take n rows) ≡ n
  length-take_full n rows h = omega (arith, length-take n rows, h)

  pub take_all : (n : ℕ) (rows : List T) → length rows ≤ n → take n rows ≡ rows
  take_all zero [] h = refl
  take_all zero (r ∷ rows) h = absurd (omega (arith, h))
  take_all (suc n) [] h = refl
  take_all (suc n) (r ∷ rows) h = rw (take_all n rows (omega (arith, h))) refl

  pub take-drop : (n : ℕ) (rows : List T) → take n rows ++ drop n rows ≡ rows
  unfolding drop
  take-drop zero rows = refl
  take-drop (suc n) [] = refl
  take-drop (suc n) (r ∷ rows) = rw (take-drop n rows) refl

  append_assoc : (xs ys zs : List T) → (xs ++ ys) ++ zs ≡ xs ++ (ys ++ zs)
  append_assoc [] ys zs = refl
  append_assoc (x ∷ xs) ys zs = ap (λ (l : List T). x ∷ l) (append_assoc xs ys zs)

  reverse-append : (xs ys : List T) → reverse (xs ++ ys) ≡ reverse ys ++ reverse xs
  reverse-append [] ys = sym (append-nil (reverse ys))
  reverse-append (x ∷ xs) ys =
      rw (reverse-append xs ys) (append_assoc (reverse ys) (reverse xs) (x ∷ []))

  pub reverse-reverse : (rows : List T) → reverse (reverse rows) ≡ rows
  reverse-reverse [] = refl
  reverse-reverse (r ∷ rows) =
      reverse-append (reverse rows) (r ∷ []) ∙ ap (λ (l : List T). r ∷ l) (reverse-reverse rows)

  pub length-reverse : (rows : List T) → length (reverse rows) ≡ length rows
  length-reverse [] = refl
  length-reverse (r ∷ rows) =
      omega (arith, length-append (reverse rows) (r ∷ []), length-reverse rows)

  -- One test that implies another.
  pub select_narrow :
      (p q : T → Bool)
      → ((r : T) → p r ≡ true → q r ≡ true)
      → (rows : List T) → select p (select q rows) ≡ select p rows
  select_narrow p q k [] = refl
  select_narrow p q k (r ∷ rows) = elim (Bool-cases (p r)) [
    | inl e ↦ rw (e, k r e, e, select_narrow p q k rows) refl
    | inr e ↦ elim (Bool-cases (q r)) [
      | inl f ↦ rw (e, f, e, select_narrow p q k rows) refl
      | inr f ↦ rw (e, f, select_narrow p q k rows) refl
    ]
  ]

  pub select_all :
      (p : T → Bool) (rows : List T) → Every (λ r. p r ≡ true) rows → select p rows ≡ rows
  select_all p [] h = refl
  select_all p (r ∷ rows) h = rw (h.0, select_all p rows h.1) refl

  pub select_none :
      (p : T → Bool) (rows : List T) → Every (λ r. p r ≡ false) rows → select p rows ≡ []
  select_none p [] h = refl
  select_none p (r ∷ rows) h = rw (h.0, select_none p rows h.1) refl

  -- The row that a page ends with.
  pub last_of :
      (P : T → Type 0) (n : ℕ) (rows : List T)
      → 0 < length rows
      → Every P rows
      → (r : T) × (last (take (suc n) rows) ≡ some r) × P r
  last_of P n [] h k = absurd (omega (arith, h))
  last_of P zero (r ∷ rows) h k = (r, refl, k.0)
  last_of P (suc n) (r ∷ []) h k = (r, refl, k.0)
  last_of P (suc n) (r ∷ s ∷ rows) h k = last_of P n (s ∷ rows) (omega arith) k.1

  -- The row after it.
  pub first_of :
      (P : T → Type 0) (n : ℕ) (rows : List T)
      → n < length rows
      → Every P rows
      → (r : T) × (first (drop n rows) ≡ some r) × P r
  unfolding drop
  first_of P n [] h k = absurd (omega (arith, h))
  first_of P zero (r ∷ rows) h k = (r, refl, k.0)
  first_of P (suc n) (r ∷ rows) h k = first_of P n rows (omega (arith, h)) k.1
