-- ===== src/Prelude/Elements.antt =====
-- What holds of every element of a list, and of the lists made from it.
use Prim.Native.Nat.{ℕ, zero, suc}
use mathlib.Core.Path.{◌≡◌}
use mathlib.Core.Bool.{Bool, true}
use mathlib.Core.List.{List, [], ◌∷◌, ◌++◌, map}
use mathlib.Core.List.{Mem, mem-cons_self, mem-cons_of_mem}
use mathlib.Core.Logic.{inl, inr}
use koupang.Prelude.Tests.{Bool-cases}
use koupang.Prelude.Lists.{Every, select, take}

module _ {ℓ κ} {A : Type ℓ} (P : A → Type κ) where
  pub Every-append : (xs ys : List A) → Every P xs → Every P ys → Every P (xs ++ ys)
  Every-append [] ys hx hy = hy
  Every-append (x ∷ xs) ys hx hy = (hx.0, Every-append xs ys hx.1 hy)

  pub Every-always : ((x : A) → P x) → (xs : List A) → Every P xs
  Every-always k [] = tt
  Every-always k (x ∷ xs) = (k x, Every-always k xs)

  pub Every-select : (p : A → Bool) (xs : List A) → Every P xs → Every P (select p xs)
  Every-select p [] h = tt
  Every-select p (x ∷ xs) h = elim (Bool-cases (p x)) [
    | inl e ↦ rw e (h.0, Every-select p xs h.1)
    | inr e ↦ rw e (Every-select p xs h.1)
  ]

  pub Every-take : (n : ℕ) (xs : List A) → Every P xs → Every P (take n xs)
  Every-take zero xs h = tt
  Every-take (suc n) [] h = tt
  Every-take (suc n) (x ∷ xs) h = (h.0, Every-take n xs h.1)

  module _ {μ} (Q : A → Type μ) where
    pub Every-implied : ((x : A) → P x → Q x) → (xs : List A) → Every P xs → Every Q xs
    Every-implied k [] h = tt
    Every-implied k (x ∷ xs) h = (k x h.0, Every-implied k xs h.1)

    pub Every-both : (xs : List A) → Every P xs → Every Q xs → Every (λ x. P x × Q x) xs
    Every-both [] h k = tt
    Every-both (x ∷ xs) h k = ((h.0, k.0), Every-both xs h.1 k.1)

  pub Every-mapped {ν μ} :
      {B : Type ν} (Q : B → Type μ) (f : A → B)
      → ((x : A) → P x → Q (f x))
      → (xs : List A) → Every P xs
      → Every Q (map f xs)
  Every-mapped Q f k [] h = tt
  Every-mapped Q f k (x ∷ xs) h = (k x h.0, Every-mapped Q f k xs h.1)

-- What a test selects passes it.
pub select-Every {ℓ} :
    {A : Type ℓ} (p : A → Bool) (xs : List A) → Every (λ x. p x ≡ true) (select p xs)
select-Every p [] = tt
select-Every p (x ∷ xs) = elim (Bool-cases (p x)) [
  | inl e ↦ rw e (e, select-Every p xs)
  | inr e ↦ rw e (select-Every p xs)
]

pub Every-member {ℓ} : {A : Type ℓ} (xs : List A) → Every (λ x. Mem x xs) xs
Every-member [] = tt
Every-member (x ∷ xs) = (
  mem-cons_self,
  Every-implied (λ y. Mem y xs) (λ y. Mem y (x ∷ xs)) (λ y m. mem-cons_of_mem x m) xs
      (Every-member xs),
)
