-- ===== src/Payment/Session.antt =====
-- A session of the payment service: the database that it writes to, and the gateway calls that it
-- has made. A rollback takes back the writes, never the calls.
use Prim.Native.String.{String}
use koupang.Prelude.{ℕ, List, ◌∷◌}
use koupang.Prelude.Int.{ℤ}
use koupang.Errors.{AppError, internal_server_error, Result}
use koupang.Action.{Action, done, zoom, with_transaction, map_err}
use koupang.Json.{Text}
use koupang.Payment.Types.{IdempotencyKey, GatewayAuthResult, GatewayStatus, GatewayError}
use koupang.Payment.Repository.{Db}
use koupang.Payment.Gateway.{PaymentGateway, GatewayCall, authorizes, captures, voids}
use koupang.Payment.Records.{Tx}

pub record Session : Type 0 where
  pub db : Db
  pub calls : List GatewayCall

abbrev pub Service : Type 0 → Type 0
Service A = Action Session AppError A

abbrev pub set_db : Session → Db → Session
set_db s db = record s { db = db }

-- A write on the connection of a transaction that is open.
unfoldable pub on_tx : {A : Type 0} → Tx A → Service A
unfolding zoom
on_tx = zoom (λ s. s.db) set_db

-- A transaction of its own: rolled back on an error, which comes back as an internal one.
unfoldable pub in_transaction : {A : Type 0} → Tx A → Service A
unfolding map_err with_transaction on_tx
in_transaction m =
    map_err (λ _. internal_server_error)
      (with_transaction (λ before reached. set_db reached before.db) (on_tx m))

module _ (gateway : PaymentGateway) where
  unfoldable pub call_authorize :
      IdempotencyKey → ℕ → ℤ → Text → Service (Result GatewayError GatewayAuthResult)
  call_authorize key order_id amount currency s = (
    done (gateway.authorize s.calls key order_id amount currency),
    record s { calls = authorizes key order_id amount currency ∷ s.calls },
  )

  unfoldable pub call_capture : String → Service (Result GatewayError GatewayStatus)
  call_capture reference s =
      (done (gateway.capture s.calls reference), record s { calls = captures reference ∷ s.calls })

  unfoldable pub call_void : String → Service (Result GatewayError GatewayStatus)
  call_void reference s =
      (done (gateway.void s.calls reference), record s { calls = voids reference ∷ s.calls })
