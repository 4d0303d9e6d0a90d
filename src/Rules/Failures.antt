-- ===== src/Rules/Failures.antt =====
-- What the failure report of shared/src/rules.rs names.
use koupang.Prelude.{
  ◌≡◌, refl, sym, ap, ◌∙◌, Bool, true, false, ◌&&◌, negate, List, [], ◌∷◌, ◌++◌, map, arith,
  Bool-cases, inl, inr, if◌then◌else◌, Every, Every-append, select, all_of,
}
use koupang.Rules.{
  Rule, Rules, check, all, any, not, nil, cons, vec, evaluate, evaluate_all, evaluate_detailed,
  evaluate_each, passed, all_passed, any_passed, collect_passes, passes_of, collect_failures,
  failures_of, collect_checks, checks_of,
}
use koupang.Rules.Evaluation.{passed-eq-evaluate}

Every-if :
    {A : Type 0} (Q : A → Type 0) (b : Bool) (xs ys : List A)
    → Every Q xs
    → Every Q ys
    → Every Q (if b then xs else ys)
Every-if Q true xs ys hx hy = hx
Every-if Q false xs ys hx hy = hy

Every-split :
    {A : Type 0} (Q : A → Type 0) (xs ys : List A) → Every Q (xs ++ ys) → Every Q xs × Every Q ys
Every-split Q [] ys h = (tt, h)
Every-split Q (x ∷ xs) ys h = let r = Every-split Q xs ys h.1 in ((h.0, r.0), r.1)

mutual
  unfolding evaluate_detailed collect_passes collect_checks

  passes-Every :
      {A : Type 0} (Q : A → Type 0) (p : A → Bool) (r : Rule A)
      → Every Q (collect_checks r)
      → Every Q (collect_passes (evaluate_detailed p r))
  passes-Every Q p (check a) h = elim (Bool-cases (p a)) [ inl e ↦ rw e h | inr e ↦ rw e tt ]
  passes-Every Q p (all rs) h =
      Every-if Q (all_passed (evaluate_each p rs)) _ [] (passes_of-Every Q p rs h) tt
  passes-Every Q p (any rs) h =
      Every-if Q (any_passed (evaluate_each p rs)) _ [] (passes_of-Every Q p rs h) tt
  passes-Every Q p (not r) h = tt

  passes_of-Every :
      {A : Type 0} (Q : A → Type 0) (p : A → Bool) (rs : Rules A)
      → Every Q (checks_of rs)
      → Every Q (passes_of (evaluate_each p rs))
  passes_of-Every Q p nil h = tt
  passes_of-Every Q p (cons r rs) h =
      let parts = Every-split Q (collect_checks r) (checks_of rs) h in
      Every-append Q _ _ (passes-Every Q p r parts.0) (passes_of-Every Q p rs parts.1)

mutual
  unfolding evaluate_detailed collect_failures collect_checks

  failures-Every :
      {A : Type 0} (Q : A → Type 0) (p : A → Bool) (r : Rule A)
      → Every Q (collect_checks r)
      → Every Q (collect_failures (evaluate_detailed p r))
  failures-Every Q p (check a) h = elim (Bool-cases (p a)) [ inl e ↦ rw e tt | inr e ↦ rw e h ]
  failures-Every Q p (all rs) h =
      Every-if Q (all_passed (evaluate_each p rs)) [] _ tt (failures_of-Every Q p rs h)
  failures-Every Q p (any rs) h =
      Every-if Q (any_passed (evaluate_each p rs)) [] _ tt (failures_of-Every Q p rs h)
  failures-Every Q p (not r) h =
      Every-if Q (negate (passed (evaluate_detailed p r))) [] _ tt (passes-Every Q p r h)

  failures_of-Every :
      {A : Type 0} (Q : A → Type 0) (p : A → Bool) (rs : Rules A)
      → Every Q (checks_of rs)
      → Every Q (failures_of (evaluate_each p rs))
  failures_of-Every Q p nil h = tt
  failures_of-Every Q p (cons r rs) h =
      let parts = Every-split Q (collect_checks r) (checks_of rs) h in
      Every-append Q _ _ (failures-Every Q p r parts.0) (failures_of-Every Q p rs parts.1)

-- Whatever holds of every leaf check of a rule tree holds of every check that its detailed
-- evaluation reports as a failure: the report names leaves of the tree only.
collect_failures-Every :
    {A : Type 0} (Q : A → Type 0) (p : A → Bool) (r : Rule A)
    → Every Q (collect_checks r)
    → Every Q (collect_failures (evaluate_detailed p r))
collect_failures-Every Q p r h = failures-Every Q p r h

collect_failures-passed :
    {A : Type 0} (p : A → Bool) (r : Rule A)
    → passed (evaluate_detailed p r) ≡ true
    → collect_failures (evaluate_detailed p r) ≡ []
unfolding evaluate_detailed collect_failures
collect_failures-passed p (check a) h = ground arith
collect_failures-passed p (all rs) h = rw h
collect_failures-passed p (any rs) h = rw h
collect_failures-passed p (not r) h = rw h

-- A rule tree that evaluates to true has an empty failure report.
collect_failures-nil :
    {A : Type 0} (p : A → Bool) (r : Rule A)
    → evaluate p r ≡ true
    → collect_failures (evaluate_detailed p r) ≡ []
collect_failures-nil p r h = collect_failures-passed p r (passed-eq-evaluate p r ∙ h)

-- A flat conjunction: `Rule::all` of checks, as the services write their rules.
abbrev all_checks : {A : Type 0} → List A → Rule A
all_checks cs = all (vec (map check cs))

evaluate_all-checks :
    {A : Type 0} (p : A → Bool) (cs : List A) → evaluate_all p (vec (map check cs)) ≡ all_of p cs
unfolding evaluate
evaluate_all-checks p [] = refl
evaluate_all-checks p (c ∷ cs) = ap (λ b. p c && b) (evaluate_all-checks p cs)

evaluate-all_checks :
    {A : Type 0} (p : A → Bool) (cs : List A) → evaluate p (all_checks cs) ≡ all_of p cs
unfolding evaluate
evaluate-all_checks p cs = evaluate_all-checks p cs

failures_of-checks :
    {A : Type 0} (p : A → Bool) (cs : List A)
    → failures_of (evaluate_each p (vec (map check cs))) ≡ select (λ a. negate (p a)) cs
unfolding evaluate_detailed collect_failures
failures_of-checks p [] = refl
failures_of-checks p (c ∷ cs) = ground (arith, failures_of-checks p cs)

select-all_of :
    {A : Type 0} (p : A → Bool) (cs : List A)
    → all_of p cs ≡ true
    → select (λ a. negate (p a)) cs ≡ []
select-all_of p [] h = refl
select-all_of p (c ∷ cs) h = ground (arith, select-all_of p cs)

all_passed-all_of :
    {A : Type 0} (p : A → Bool) (cs : List A)
    → all_passed (evaluate_each p (vec (map check cs))) ≡ all_of p cs
unfolding evaluate_detailed
all_passed-all_of p cs = passed-eq-evaluate p (all_checks cs) ∙ evaluate-all_checks p cs

-- For a flat conjunction of checks the failure report is exactly the checks that the predicate
-- rejects, each once and in their order.
collect_failures-all_checks :
    {A : Type 0} (p : A → Bool) (cs : List A)
    → collect_failures (evaluate_detailed p (all_checks cs)) ≡ select (λ a. negate (p a)) cs
unfolding evaluate_detailed collect_failures
collect_failures-all_checks p cs =
    elim (Bool-cases (all_passed (evaluate_each p (vec (map check cs))))) [
      | inl e ↦ rw e (sym (select-all_of p cs (sym (all_passed-all_of p cs) ∙ e)))
      | inr e ↦ rw e (failures_of-checks p cs)
    ]
