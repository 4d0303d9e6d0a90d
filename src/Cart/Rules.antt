-- ===== src/Cart/Rules.antt =====
-- cart/src/cart/rules.rs, over the rule trees of shared/src/rules.rs.
use koupang.Prelude.{ℕ, Bool, ◌&&◌, leb, ltb, all_of, [], ◌∷◌}
use koupang.Prelude.Int.{ℤ, pos, leb_ℤ, ltb_ℤ}
use koupang.Rules.{Rule, check, all, vec}
use koupang.Cart.Types.{Cart, CartItem, cart_total, item_count}

pub data CheckoutCheck : Type 0 where
  cart_not_empty : CheckoutCheck
  min_cart_value max_cart_value : ℤ → CheckoutCheck
  all_items_have_valid_prices : CheckoutCheck
  max_cart_items : ℕ → CheckoutCheck
  all_quantities_within_limits : CheckoutCheck

-- $1 and $50,000 in ten-thousandths.
abbrev least_cart_value : ℤ
least_cart_value = pos 10000

abbrev most_cart_value : ℤ
most_cart_value = pos 500000000

abbrev pub most_cart_items : ℕ
most_cart_items = 50

unfoldable pub checkout_readiness_rules : Rule CheckoutCheck
checkout_readiness_rules = all (
    vec (
      check cart_not_empty
      ∷ check (max_cart_items most_cart_items)
      ∷ check (min_cart_value least_cart_value)
      ∷ check (max_cart_value most_cart_value)
      ∷ check all_items_have_valid_prices
      ∷ check all_quantities_within_limits
      ∷ []))

pub record CheckoutContext : Type 0 where
  pub item_count : ℕ
  pub cart_total : ℤ
  pub all_prices_valid : Bool
  pub all_quantities_valid : Bool

abbrev has_price : CartItem → Bool
has_price i = ltb_ℤ (pos 0) i.unit_price

abbrev has_quantity : CartItem → Bool
has_quantity i = leb 1 i.quantity && leb i.quantity 99

-- `CheckoutContext::from_cart`.
abbrev pub from_cart : Cart → CheckoutContext
from_cart c = record {
  item_count = item_count c;
  cart_total = cart_total c;
  all_prices_valid = all_of has_price c.items;
  all_quantities_valid = all_of has_quantity c.items;
}

unfoldable pub eval_checkout : CheckoutContext → CheckoutCheck → Bool
eval_checkout ctx cart_not_empty = ltb 0 ctx.item_count
eval_checkout ctx (min_cart_value least) = leb_ℤ least ctx.cart_total
eval_checkout ctx (max_cart_value most) = leb_ℤ ctx.cart_total most
eval_checkout ctx all_items_have_valid_prices = ctx.all_prices_valid
eval_checkout ctx (max_cart_items most) = leb ctx.item_count most
eval_checkout ctx all_quantities_within_limits = ctx.all_quantities_valid
