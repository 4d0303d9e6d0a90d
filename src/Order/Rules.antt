-- ===== src/Order/Rules.antt =====
-- order/src/orders/rules.rs, over the rule trees of shared/src/rules.rs.
use koupang.Prelude.{ℕ, Bool, true, false, leb, ltb, List, [], ◌∷◌}
use koupang.Prelude.Int.{ℤ, pos, leb_ℤ}
use koupang.Json.{Text, lit}
use koupang.Rules.{Rule, check, all, vec}
use koupang.Payment.Rules.{contains}
use koupang.Order.Types.{OrderStatus, can_cancel}

pub data OrderCheck : Type 0 where
  non_empty_items : OrderCheck
  min_order_amount : ℤ → OrderCheck
  max_items_per_order : ℕ → OrderCheck
  supported_currency shipping_address_complete positive_item_prices : OrderCheck
  status_allows_cancellation : OrderCheck

-- $1 in ten-thousandths.
abbrev least_amount : ℤ
least_amount = pos 10000

abbrev most_items : ℕ
most_items = 100

abbrev order_currencies : List Text
order_currencies = lit "USD" ∷ lit "KRW" ∷ lit "EUR" ∷ lit "GBP" ∷ lit "JPY" ∷ []

unfoldable pub creation_rules : Rule OrderCheck
creation_rules = all (
    vec (
      check non_empty_items
      ∷ check (max_items_per_order most_items)
      ∷ check (min_order_amount least_amount)
      ∷ check supported_currency
      ∷ check shipping_address_complete
      ∷ check positive_item_prices
      ∷ []))

unfoldable pub cancellation_rules : Rule OrderCheck
cancellation_rules = all (vec (check status_allows_cancellation ∷ []))

pub record CreateOrderContext : Type 0 where
  pub item_count : ℕ
  pub total_amount : ℤ
  pub currency : Text
  pub shipping_complete : Bool
  pub all_prices_positive : Bool

pub record CancellationContext : Type 0 where
  pub current_status : OrderStatus

unfoldable pub eval_creation : CreateOrderContext → OrderCheck → Bool
eval_creation ctx non_empty_items = ltb 0 ctx.item_count
eval_creation ctx (min_order_amount least) = leb_ℤ least ctx.total_amount
eval_creation ctx (max_items_per_order most) = leb ctx.item_count most
eval_creation ctx supported_currency = contains order_currencies ctx.currency
eval_creation ctx shipping_address_complete = ctx.shipping_complete
eval_creation ctx positive_item_prices = ctx.all_prices_positive
eval_creation ctx status_allows_cancellation = false

unfoldable pub eval_cancellation : CancellationContext → OrderCheck → Bool
eval_cancellation ctx status_allows_cancellation = can_cancel ctx.current_status
eval_cancellation ctx _ = true
