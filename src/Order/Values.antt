-- ===== src/Order/Values.antt =====
-- The value objects of order/src/orders/value_objects.rs.
use Prim.Native.String.{String, len}
use koupang.Prelude.{
  ◌≡◌, refl, sym, subst, Bool, true, false, ◌&&◌, ◌||◌, negate, ltb, if◌then◌else◌, inl, inr,
  Bool-cases, arith,
}
use koupang.Prelude.Int.{ℤ, pos, ltb_ℤ, leb_ℤ, ◌<ℤ◌, ◌≤ℤ◌}
use koupang.Errors.{AppError, bad_request, Result, ok, err}
use koupang.Strings.{trim, trim-twice, is_empty}

pub record ShippingAddressReq : Type 0 where
  pub street : String
  pub city : String
  pub state : String
  pub postal_code : String
  pub country : String

-- `ShippingAddress` has the fields of its request.
abbrev pub ShippingAddress : Type 0
ShippingAddress = ShippingAddressReq

abbrev trimmed_address : ShippingAddressReq → ShippingAddress
trimmed_address req = record {
  street = trim req.street;
  city = trim req.city;
  state = trim req.state;
  postal_code = trim req.postal_code;
  country = trim req.country;
}

unfoldable pub is_complete : ShippingAddress → Bool
is_complete a =
    negate (is_empty a.street)
    && negate (is_empty a.city)
    && negate (is_empty a.postal_code)
    && negate (is_empty a.country)

abbrev any_missing : ShippingAddress → Bool
any_missing a = is_empty a.street || is_empty a.city || is_empty a.postal_code || is_empty a.country

abbrev any_too_long : ShippingAddress → Bool
any_too_long a =
    ltb 500 (len a.street)
    || ltb 200 (len a.city)
    || ltb 20 (len a.postal_code)
    || ltb 3 (len a.country)

-- `ShippingAddress::new`: every refusal is a `BadRequest`.
unfoldable pub new_shipping_address : ShippingAddressReq → Result AppError ShippingAddress
new_shipping_address req =
    let a = trimmed_address req in
    if any_missing a then err bad_request else if any_too_long a then err bad_request else ok a

-- `IdempotencyKey::new`.
unfoldable pub new_idempotency_key : String → Result AppError String
new_idempotency_key input =
    let trimmed = trim input in
    if is_empty trimmed
    then err bad_request
    else if ltb 255 (len trimmed)
    then err bad_request
    else ok trimmed

abbrev pub max_order_quantity : ℤ
max_order_quantity = pos 9999

-- `Quantity::new`.
unfoldable pub new_quantity : ℤ → Result AppError ℤ
new_quantity value =
    if leb_ℤ value (pos 0)
    then err bad_request
    else if ltb_ℤ max_order_quantity value
    then err bad_request
    else ok value

pub ok_injective : {A : Type 0} (r : Result AppError A) (x y : A) → r ≡ ok x → r ≡ ok y → x ≡ y
ok_injective r x y h k = ground (arith, h, k)

refused_ok : {A B : Type 0} (r : Result AppError A) (y : A) → r ≡ err bad_request → r ≡ ok y → B
refused_ok r y h k = absurd (ground (arith, h, k))

pub new_quantity-bounds :
    (value q : ℤ) → new_quantity value ≡ ok q → (pos 0 <ℤ q) × (q ≤ℤ max_order_quantity)
unfolding new_quantity
new_quantity-bounds value q h = elim (Bool-cases (leb_ℤ value (pos 0))) [
  | inl e ↦ refused_ok _ q refl (rw e at h)
  | inr e ↦ elim (Bool-cases (ltb_ℤ max_order_quantity value)) [
    | inl f ↦ refused_ok _ q refl (rw (e, f) at h)
    | inr f ↦
        subst (λ (x : ℤ). (pos 0 <ℤ x) × (x ≤ℤ max_order_quantity))
          (ok_injective (ok value) value q refl (rw (e, f) at h)) (above value e, below value f)
  ]
]
  where
    above : (v : ℤ) → leb_ℤ v (pos 0) ≡ false → pos 0 <ℤ v
    above v e = ground (arith, e)

    below : (v : ℤ) → ltb_ℤ max_order_quantity v ≡ false → v ≤ℤ max_order_quantity
    below v e = ground (arith, e)

trimmed_twice :
    (req : ShippingAddressReq) → trimmed_address (trimmed_address req) ≡ trimmed_address req
trimmed_twice req =
    rw
      (
        trim-twice req.street,
        trim-twice req.city,
        trim-twice req.state,
        trim-twice req.postal_code,
        trim-twice req.country,
      )
      refl

complete_unless_missing : (a : ShippingAddress) → any_missing a ≡ false → is_complete a ≡ true
unfolding is_complete
complete_unless_missing a h = ground (arith, h)

-- An address that was accepted is complete and short enough, and is accepted again as it is.
pub new_shipping_address-stable :
    (req : ShippingAddressReq) (a : ShippingAddress)
    → new_shipping_address req ≡ ok a
    → (is_complete a ≡ true) × ((any_too_long a ≡ false) × (new_shipping_address a ≡ ok a))
unfolding new_shipping_address
new_shipping_address-stable req a h = elim (Bool-cases (any_missing (trimmed_address req))) [
  | inl e ↦ refused_ok _ a refl (rw e at h)
  | inr e ↦ elim (Bool-cases (any_too_long (trimmed_address req))) [
    | inl f ↦ refused_ok _ a refl (rw (e, f) at h)
    | inr f ↦
        subst
          (λ (x : ShippingAddress).
            (is_complete x ≡ true) × ((any_too_long x ≡ false) × (new_shipping_address x ≡ ok x)))
          (ok_injective (ok (trimmed_address req)) (trimmed_address req) a refl (rw (e, f) at h))
          (
            complete_unless_missing (trimmed_address req) e,
            (f, again (trimmed_address req) (trimmed_twice req) e f),
          )
  ]
]
  where
    again :
        (x : ShippingAddress)
        → trimmed_address x ≡ x
        → any_missing x ≡ false
        → any_too_long x ≡ false
        → new_shipping_address x ≡ ok x
    again x t m l =
        subst
          (λ (y : ShippingAddress).
            (if any_missing y
              then err bad_request
              else if any_too_long y
              then err bad_request
              else ok y)
            ≡ ok x)
          (sym t) (rw (m, l) refl)
