-- ===== src/Errors.antt =====
-- shared/src/errors.rs, and the results that the services pass on. An error's message is left out:
-- no code reads one back. A failed assertion is an outcome of its own, `panicked`.
use koupang.Prelude.{ℕ, Bool, Option, none, some, if◌then◌else◌}

pub data AppError : Type 0 where
  not_found forbidden unauthorized already_exists internal_server_error bad_request : AppError

-- The status code of `AppError::into_response`.
unfoldable into_response : AppError → ℕ
into_response not_found = 404
into_response unauthorized = 401
into_response forbidden = 403
into_response internal_server_error = 500
into_response bad_request = 400
into_response already_exists = 409

pub data Result (E A : Type 0) : Type 0 where
  ok : A → Result E A
  err : E → Result E A

infixl 5 ◌>>=◌ ◌>>◌
abbrev pub ◌>>=◌ : {E A B : Type 0} → Result E A → (A → Result E B) → Result E B
ok a >>= f = f a
err e >>= f = err e

abbrev pub ◌>>◌ : {E A B : Type 0} → Result E A → Result E B → Result E B
m >> k = m >>= λ _. k

abbrev guard : {E : Type 0} → Bool → E → Result E (Unit {0})
guard b e = if b then ok tt else err e

-- `Option::ok_or`.
abbrev pub ok_or : {E A : Type 0} → Option A → E → Result E A
ok_or none e = err e
ok_or (some a) e = ok a

-- `Result::map_err`.
abbrev pub map_err : {E F A : Type 0} → (E → F) → Result E A → Result F A
map_err f (ok a) = ok a
map_err f (err e) = err (f e)

abbrev pub is_ok : {E A : Type 0} → Result E A → Bool
is_ok (ok _) = Bool.true
is_ok (err _) = Bool.false
