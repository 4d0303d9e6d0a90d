-- ===== src/Order/Types.antt =====
-- order/src/orders/value_objects.rs, entities.rs and error.rs, and the users of shared/src/auth.
use Prim.Native.String.{String}
use koupang.Prelude.{ℕ, Bool, true, false, ◌||◌, Option, ◌==◌, if◌then◌else◌}
use koupang.Prelude.Int.{ℤ}
use koupang.Errors.{AppError, bad_request, forbidden, Result, ok, err}
use koupang.Json.{Text, Value}

pub data OrderStatus : Type 0 where
  pending inventory_reserved payment_authorized confirmed : OrderStatus
  shipped delivered cancelled returned : OrderStatus

pub data OrderError : Type 0 where
  validation_failed cancellation_denied : OrderError
  invalid_transition : OrderStatus → OrderStatus → OrderError
  not_found access_denied : OrderError
  infra : AppError → OrderError

-- `From<OrderError> for AppError`.
unfoldable pub order_app_error : OrderError → AppError
order_app_error validation_failed = bad_request
order_app_error cancellation_denied = bad_request
order_app_error (invalid_transition source target) = bad_request
order_app_error OrderError.not_found = AppError.not_found
order_app_error access_denied = forbidden
order_app_error (infra e) = e

-- The `match self` of `transition_to`.
abbrev pub allowed : OrderStatus → OrderStatus → Bool
allowed pending inventory_reserved = true
allowed pending cancelled = true
allowed inventory_reserved payment_authorized = true
allowed inventory_reserved cancelled = true
allowed payment_authorized confirmed = true
allowed payment_authorized cancelled = true
allowed confirmed shipped = true
allowed confirmed cancelled = true
allowed shipped delivered = true
allowed shipped cancelled = true
allowed delivered returned = true
allowed _ _ = false

unfoldable pub transition_to : OrderStatus → OrderStatus → Result OrderError OrderStatus
transition_to source target =
    if allowed source target then ok target else err (invalid_transition source target)

unfoldable pub can_cancel : OrderStatus → Bool
can_cancel pending = true
can_cancel inventory_reserved = true
can_cancel payment_authorized = true
can_cancel confirmed = true
can_cancel shipped = true
can_cancel _ = false

-- The time stamps are left out.
pub record OrderEntity : Type 0 where
  pub id : ℕ
  pub buyer_id : ℕ
  pub status : OrderStatus
  pub total_amount : ℤ
  pub currency : Text
  pub idempotency_key : Text
  pub shipping_address : Value
  pub cancelled_reason : Option Text

pub data Role : Type 0 where
  buyer seller admin : Role

abbrev is_admin : Role → Bool
is_admin admin = true
is_admin _ = false

pub record CurrentUser : Type 0 where
  pub id : ℕ
  pub role : Role

-- `CurrentUser::can_access` and `require_access`.
unfoldable pub can_access : CurrentUser → ℕ → Bool
can_access user target = user.id == target || is_admin user.role

unfoldable pub require_access : CurrentUser → ℕ → Result AppError (Unit {0})
require_access user owner = if can_access user owner then ok tt else err forbidden

-- The time stamps and the id of the row are left out.
pub record OrderItemEntity : Type 0 where
  pub order_id : ℕ
  pub product_id : ℕ
  pub sku_id : ℕ
  pub product_name : String
  pub sku_code : String
  pub quantity : ℤ
  pub seller_id : ℕ
  pub unit_price : ℤ
  pub total_price : ℤ
