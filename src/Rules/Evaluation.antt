-- ===== src/Rules/Evaluation.antt =====
-- The two evaluators of shared/src/rules.rs agree, and the fluent constructors mean what they say.
use koupang.Prelude.{◌≡◌, refl, Bool, ◌&&◌, ◌||◌, arith}
use koupang.Rules.{
  Rule, Rules, check, all, any, not, nil, cons, and, or, push, evaluate, evaluate_all, evaluate_any,
  evaluate_detailed, evaluate_each, passed, all_passed, any_passed,
}

mutual
  unfolding evaluate evaluate_detailed

  passed-evaluate_detailed :
      {A : Type 0} (p : A → Bool) (r : Rule A) → passed (evaluate_detailed p r) ≡ evaluate p r
  passed-evaluate_detailed p (check a) = ground arith
  passed-evaluate_detailed p (all rules) = all_passed-evaluate_each p rules
  passed-evaluate_detailed p (any rules) = any_passed-evaluate_each p rules
  passed-evaluate_detailed p (not r) = cc (passed-evaluate_detailed p r)

  all_passed-evaluate_each :
      {A : Type 0} (p : A → Bool) (rs : Rules A)
      → all_passed (evaluate_each p rs) ≡ evaluate_all p rs
  all_passed-evaluate_each p nil = refl
  all_passed-evaluate_each p (cons r rs) =
      cc (passed-evaluate_detailed p r, all_passed-evaluate_each p rs)

  any_passed-evaluate_each :
      {A : Type 0} (p : A → Bool) (rs : Rules A)
      → any_passed (evaluate_each p rs) ≡ evaluate_any p rs
  any_passed-evaluate_each p nil = refl
  any_passed-evaluate_each p (cons r rs) =
      cc (passed-evaluate_detailed p r, any_passed-evaluate_each p rs)

-- For every rule tree and every predicate on its leaves, the detailed evaluation passes exactly
-- when the plain evaluation returns true.
pub passed-eq-evaluate :
    {A : Type 0} (p : A → Bool) (r : Rule A) → passed (evaluate_detailed p r) ≡ evaluate p r
passed-eq-evaluate p r = passed-evaluate_detailed p r

evaluate_all-push :
    {A : Type 0} (p : A → Bool) (rs : Rules A) (other : Rule A)
    → evaluate_all p (push rs other) ≡ evaluate_all p rs && evaluate p other
unfolding evaluate
evaluate_all-push p nil other = ground arith
evaluate_all-push p (cons r rs) other = ground (arith, evaluate_all-push p rs other)

evaluate_any-push :
    {A : Type 0} (p : A → Bool) (rs : Rules A) (other : Rule A)
    → evaluate_any p (push rs other) ≡ evaluate_any p rs || evaluate p other
unfolding evaluate
evaluate_any-push p nil other = ground arith
evaluate_any-push p (cons r rs) other = ground (arith, evaluate_any-push p rs other)

-- The fluent `and` is conjunction: also where its left side is already an `All`, which it extends.
evaluate-and :
    {A : Type 0} (p : A → Bool) (r other : Rule A)
    → evaluate p (and r other) ≡ evaluate p r && evaluate p other
unfolding evaluate and
evaluate-and p (all rs) other = evaluate_all-push p rs other
evaluate-and p _ other = ground arith

-- The fluent `or` is disjunction: also where its left side is already an `Any`, which it extends.
evaluate-or :
    {A : Type 0} (p : A → Bool) (r other : Rule A)
    → evaluate p (or r other) ≡ evaluate p r || evaluate p other
unfolding evaluate or
evaluate-or p (any rs) other = evaluate_any-push p rs other
evaluate-or p _ other = ground arith
