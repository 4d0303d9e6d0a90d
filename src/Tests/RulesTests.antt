-- ===== src/Tests/RulesTests.antt =====
-- The theorems on rule trees at concrete trees.
use koupang.Prelude.{ℕ, ◌≡◌, Bool, [], ◌∷◌, ltb}
use koupang.Rules.{Rule, check, all, any, not, vec, evaluate, evaluate_detailed, passed}
use koupang.Rules.Evaluation.{passed-eq-evaluate}

-- Below 5 or not below 9, and below 20.
abbrev tree : Rule ℕ
tree = all (vec (any (vec (check 5 ∷ not (check 9) ∷ [])) ∷ check 20 ∷ []))

abbrev twelve_below : ℕ → Bool
twelve_below n = ltb 12 n

passed-eq-evaluate_example :
    passed (evaluate_detailed twelve_below tree) ≡ evaluate twelve_below tree
passed-eq-evaluate_example = passed-eq-evaluate twelve_below tree
