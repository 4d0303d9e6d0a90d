-- ===== src/Inventory/Parsing.antt =====
-- The quantities that the catalog reads from an order's event.
use koupang.Prelude.{
  ℕ, suc, ◌-◌, ◌%◌, ◌^◌, ◌<◌, ◌≡◌, refl, ltb, lt→ltb, arith, Bool-cases, inl, inr, true, false,
}
use koupang.Prelude.Int.{ℤ, pos, negsuc}
use koupang.Inventory.Consumers.{as_i32, signed_32}

-- The numbers of 32 bits with a sign.
abbrev pub IsI32 : ℤ → Type 0
IsI32 (pos n) = n < 2 ^ 31
IsI32 (negsuc n) = n < 2 ^ 31

signed_32-IsI32 : (w : ℕ) → w < 2 ^ 32 → IsI32 (signed_32 w)
signed_32-IsI32 w h = elim (Bool-cases (ltb w (2 ^ 31))) [
  | inl e ↦ rw e (below e)
  | inr e ↦ rw e (above e)
]
  where
    below : ltb w (2 ^ 31) ≡ true → w < 2 ^ 31
    below e = ground (arith, e)

    above : ltb w (2 ^ 31) ≡ false → 2 ^ 32 - w - 1 < 2 ^ 31
    above e = ground (arith, e, h)

-- Casting a quantity to 32 bits gives a number of 32 bits, and the quantity itself if it is one.
as_i32-IsI32 : (q : ℤ) → IsI32 (as_i32 q)
unfolding as_i32
as_i32-IsI32 (pos n) = signed_32-IsI32 (n % 2 ^ 32) (omega arith)
as_i32-IsI32 (negsuc n) = signed_32-IsI32 (2 ^ 32 - suc (n % 2 ^ 32)) (omega arith)

low_bits : (n : ℕ) → n < 2 ^ 31 → n % 2 ^ 32 ≡ n
low_bits n h = omega (arith, h)

pub as_i32_of : (q : ℤ) → IsI32 q → as_i32 q ≡ q
unfolding as_i32
as_i32_of (pos n) h = rw (low_bits n h, lt→ltb n (2 ^ 31) h) refl
as_i32_of (negsuc n) h = rw (low_bits n h, wide) (same (omega (arith, h)))
  where
    wide : ltb (2 ^ 32 - suc n) (2 ^ 31) ≡ false
    wide = ground (arith, h)

    same : 2 ^ 32 - (2 ^ 32 - suc n) - 1 ≡ n → negsuc (2 ^ 32 - (2 ^ 32 - suc n) - 1) ≡ negsuc n
    same e = rw e refl
