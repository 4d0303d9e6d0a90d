-- ===== src/Consumer/Backoff.antt =====
-- The pause between two attempts: `calculate_backoff` of shared/src/events/consumer.rs. The delays
-- are milliseconds in 64 bits.
use koupang.Prelude.{ℕ, zero, suc, ◌*◌, ◌^◌, ◌-◌, ◌≤◌, ◌≡◌, min, arith, Bool-cases, inl, inr, ltb}
use native.Mathlib.Nat.{pow-succ', mul-le-mul_left}

abbrev u64_max : ℕ
u64_max = 2 ^ 64 - 1

abbrev saturating_mul : ℕ → ℕ → ℕ
saturating_mul a b = min (a * b) u64_max

unfoldable calculate_backoff : ℕ → ℕ → ℕ → ℕ
calculate_backoff base_ms max_ms attempt = min (saturating_mul base_ms (2 ^ min attempt 10)) max_ms

factor_step : (attempt : ℕ) → 2 ^ min attempt 10 ≤ 2 ^ min (suc attempt) 10
factor_step attempt = elim (Bool-cases (ltb attempt 10)) [
  | inl e ↦
      let small : min attempt 10 ≡ attempt = ground (arith, e) in
      let next : min (suc attempt) 10 ≡ suc attempt = ground (arith, e) in
      rw (small, next, pow-succ' 2 attempt) (twice_le (2 ^ attempt))
  | inr e ↦
      let large : min attempt 10 ≡ 10 = ground (arith, e) in
      let next : min (suc attempt) 10 ≡ 10 = ground (arith, e) in
      rw (large, next) (le_self (2 ^ 10))
]
  where
    twice_le : (n : ℕ) → n ≤ 2 * n
    twice_le n = omega arith

    le_self : (n : ℕ) → n ≤ n
    le_self n = omega arith

min_mono : (a b m : ℕ) → a ≤ b → min a m ≤ min b m
min_mono a b m h = omega (arith, h)

factor_positive : (attempt : ℕ) → 1 ≤ 2 ^ min attempt 10
factor_positive zero = omega arith
factor_positive (suc n) = omega (arith, factor_positive n, factor_step n)

times_mono : (b x y : ℕ) → x ≤ y → b * x ≤ b * y
times_mono b x y h = mul-le-mul_left b h

-- The pause is at most the maximal delay, does not shrink from one attempt to the next, and is no
-- shorter than the base delay, unless that is above the maximal one, for a base delay of 64 bits.
calculate_backoff-bounds :
    (base_ms max_ms attempt : ℕ)
    → base_ms ≤ u64_max
    → (calculate_backoff base_ms max_ms attempt ≤ max_ms)
      × ((calculate_backoff base_ms max_ms attempt ≤ calculate_backoff base_ms max_ms (suc attempt))
          × (min base_ms max_ms ≤ calculate_backoff base_ms max_ms attempt))
unfolding calculate_backoff
calculate_backoff-bounds base_ms max_ms attempt h =
    let grows = times_mono base_ms _ _ (factor_step attempt) in
    let above = times_mono base_ms _ _ (factor_positive attempt) in
    (
      omega arith,
      (
        min_mono _ _ max_ms (min_mono _ _ u64_max grows),
        min_mono _ _ max_ms (at_least (base_ms * 2 ^ min attempt 10) (omega (arith, above))),
      ),
    )
  where
    at_least : (x : ℕ) → base_ms ≤ x → base_ms ≤ min x u64_max
    at_least x k = omega (arith, h, k)
