-- ===== src/Rules.antt =====
-- The composable rule trees of shared/src/rules.rs: the data, the smart constructors and the
-- interpreters. A `Vec` of rules is the second type of the block (`Rules`, `Results`).
pub mod Evaluation
pub mod Failures
use koupang.Prelude.{Bool, true, false, ◌&&◌, ◌||◌, negate, List, [], ◌∷◌, ◌++◌, if◌then◌else◌}

mutual
  pub data Rule (A : Type 0) : Type 0 where
    check : A → Rule A
    all any : Rules A → Rule A
    not : Rule A → Rule A

  pub data Rules (A : Type 0) : Type 0 where
    nil : Rules A
    cons : Rule A → Rules A → Rules A

mutual
  pub data RuleResult (A : Type 0) : Type 0 where
    pass fail : A → RuleResult A
    all_of any_of : Results A → Bool → RuleResult A
    negated : RuleResult A → Bool → RuleResult A

  pub data Results (A : Type 0) : Type 0 where
    no_results : Results A
    result : RuleResult A → Results A → Results A

-- `vec![…]`, and `Vec::push`.
abbrev pub vec : {A : Type 0} → List (Rule A) → Rules A
vec [] = nil
vec (r ∷ rs) = cons r (vec rs)

abbrev pub push : {A : Type 0} → Rules A → Rule A → Rules A
push nil r = cons r nil
push (cons x xs) r = cons x (push xs r)

-- `Rule::and` and `Rule::or`.
unfoldable pub and : {A : Type 0} → Rule A → Rule A → Rule A
and (all rules) other = all (push rules other)
and r other = all (cons r (cons other nil))

unfoldable pub or : {A : Type 0} → Rule A → Rule A → Rule A
or (any rules) other = any (push rules other)
or r other = any (cons r (cons other nil))

-- `Rule::evaluate`; the iterators' `all` and `any` are the two functions on `Rules`.
unfoldable mutual
  pub evaluate : {A : Type 0} → (A → Bool) → Rule A → Bool
  evaluate p (check a) = p a
  evaluate p (all rules) = evaluate_all p rules
  evaluate p (any rules) = evaluate_any p rules
  evaluate p (not r) = negate (evaluate p r)

  pub evaluate_all : {A : Type 0} → (A → Bool) → Rules A → Bool
  evaluate_all p nil = true
  evaluate_all p (cons r rs) = evaluate p r && evaluate_all p rs

  pub evaluate_any : {A : Type 0} → (A → Bool) → Rules A → Bool
  evaluate_any p nil = false
  evaluate_any p (cons r rs) = evaluate p r || evaluate_any p rs

-- `RuleResult::passed`.
abbrev pub passed : {A : Type 0} → RuleResult A → Bool
passed (pass _) = true
passed (fail _) = false
passed (all_of _ ok) = ok
passed (any_of _ ok) = ok
passed (negated _ ok) = ok

abbrev pub all_passed : {A : Type 0} → Results A → Bool
all_passed no_results = true
all_passed (result r rs) = passed r && all_passed rs

abbrev pub any_passed : {A : Type 0} → Results A → Bool
any_passed no_results = false
any_passed (result r rs) = passed r || any_passed rs

-- `Rule::evaluate_detailed`.
unfoldable mutual
  pub evaluate_detailed : {A : Type 0} → (A → Bool) → Rule A → RuleResult A
  evaluate_detailed p (check a) = if p a then pass a else fail a
  evaluate_detailed p (all rules) =
      let results = evaluate_each p rules in all_of results (all_passed results)
  evaluate_detailed p (any rules) =
      let results = evaluate_each p rules in any_of results (any_passed results)
  evaluate_detailed p (not r) =
      let inner = evaluate_detailed p r in negated inner (negate (passed inner))

  pub evaluate_each : {A : Type 0} → (A → Bool) → Rules A → Results A
  evaluate_each p nil = no_results
  evaluate_each p (cons r rs) = result (evaluate_detailed p r) (evaluate_each p rs)

-- `RuleResult::collect_passes`.
unfoldable mutual
  pub collect_passes : {A : Type 0} → RuleResult A → List A
  collect_passes (pass a) = a ∷ []
  collect_passes (fail a) = []
  collect_passes (all_of results ok) = if ok then passes_of results else []
  collect_passes (any_of results ok) = if ok then passes_of results else []
  collect_passes (negated inner ok) = []

  pub passes_of : {A : Type 0} → Results A → List A
  passes_of no_results = []
  passes_of (result r rs) = collect_passes r ++ passes_of rs

-- `RuleResult::collect_failures`.
unfoldable mutual
  pub collect_failures : {A : Type 0} → RuleResult A → List A
  collect_failures (pass a) = []
  collect_failures (fail a) = a ∷ []
  collect_failures (all_of results ok) = if ok then [] else failures_of results
  collect_failures (any_of results ok) = if ok then [] else failures_of results
  collect_failures (negated inner ok) = if ok then [] else collect_passes inner

  pub failures_of : {A : Type 0} → Results A → List A
  failures_of no_results = []
  failures_of (result r rs) = collect_failures r ++ failures_of rs

-- `Rule::collect_checks`.
unfoldable mutual
  pub collect_checks : {A : Type 0} → Rule A → List A
  collect_checks (check a) = a ∷ []
  collect_checks (all rules) = checks_of rules
  collect_checks (any rules) = checks_of rules
  collect_checks (not r) = collect_checks r

  pub checks_of : {A : Type 0} → Rules A → List A
  checks_of nil = []
  checks_of (cons r rs) = collect_checks r ++ checks_of rs
