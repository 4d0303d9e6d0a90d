-- ===== src/Json.antt =====
-- The JSON values of event payloads (`serde_json::Value`). A string is kept as what it is the text
-- of: a literal, a UUID, a number, or the concatenation that a `format!` makes. Printing and
-- parsing numbers and UUIDs are the libraries' work.
use koupang.Prelude.{ℕ, String, Bool, false, ◌&&◌, Option, none, some, str_eq, if◌then◌else◌, ◌==◌}
use koupang.Prelude.Int.{ℤ, eqb_ℤ}

pub data Text : Type 0 where
  lit : String → Text
  uuid : ℕ → Text
  decimal : ℤ → Text
  append : Text → Text → Text

abbrev pub text_eq : Text → Text → Bool
text_eq (lit a) (lit b) = str_eq a b
text_eq (uuid a) (uuid b) = a == b
text_eq (decimal a) (decimal b) = eqb_ℤ a b
text_eq (append a b) (append c d) = text_eq a c && text_eq b d
text_eq _ _ = false

-- `str::parse` at the two types that the handlers ask for.
abbrev pub parse_uuid : Text → Option ℕ
parse_uuid (uuid n) = some n
parse_uuid _ = none

abbrev pub parse_decimal : Text → Option ℤ
parse_decimal (decimal d) = some d
parse_decimal _ = none

mutual
  pub data Value : Type 0 where
    null : Value
    str : Text → Value
    int : ℤ → Value
    array : Items → Value
    object : Members → Value

  pub data Items : Type 0 where
    no_items : Items
    item : Value → Items → Items

  pub data Members : Type 0 where
    no_members : Members
    member : String → Value → Members → Members

abbrev lookup : String → Members → Value
lookup k no_members = null
lookup k (member j v fs) = if str_eq j k then v else lookup k fs

-- `value[key]`: `Null` where the key is missing or the value is no object.
abbrev pub index : Value → String → Value
index (object fs) k = lookup k fs
index _ k = null

abbrev pub as_str : Value → Option Text
as_str (str t) = some t
as_str _ = none

abbrev pub as_i64 : Value → Option ℤ
as_i64 (int n) = some n
as_i64 _ = none

abbrev pub as_u64 : Value → Option ℕ
as_u64 (int (ℤ.pos n)) = some n
as_u64 _ = none

abbrev pub as_array : Value → Option Items
as_array (array xs) = some xs
as_array _ = none

abbrev pub unwrap_or {ℓ} : {A : Type ℓ} → Option A → A → A
unwrap_or none d = d
unwrap_or (some a) d = a

abbrev pub and_then {ℓ κ} : {A : Type ℓ} {B : Type κ} → Option A → (A → Option B) → Option B
and_then none f = none
and_then (some a) f = f a
