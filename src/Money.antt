-- ===== src/Money.antt =====
-- Prices and currencies: shared/src/new_types/money.rs. The upper case of Unicode is the standard
-- library's table, a parameter.
use Prim.Native.Char.{code}
use Prim.Native.String.{String, [], ◌∷◌, len}
use koupang.Prelude.{Bool, true, ◌&&◌, ◌||◌, negate, leb, ◌==◌, if◌then◌else◌}
use koupang.Prelude.Int.{ℤ, pos, ltb_ℤ}
use koupang.Errors.{AppError, bad_request, Result, ok, err}
use koupang.Strings.{trim}

-- `Price::new`; a price is kept as its amount.
unfoldable pub new_price : ℤ → Result AppError ℤ
new_price value = if ltb_ℤ value (pos 0) then err bad_request else ok value

abbrev all_ascii_uppercase : String → Bool
all_ascii_uppercase [] = true
all_ascii_uppercase (c ∷ s) = leb 65 (code c) && leb (code c) 90 && all_ascii_uppercase s

-- `Currency::new` and `Currency::default`.
unfoldable pub new_currency : (String → String) → String → Result AppError String
new_currency to_uppercase input =
    let trimmed = to_uppercase (trim input) in
    if negate (len trimmed == 3) || negate (all_ascii_uppercase trimmed)
    then err bad_request
    else ok trimmed

abbrev pub default_currency : String
default_currency = "USD"
