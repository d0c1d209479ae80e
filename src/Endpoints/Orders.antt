-- ===== src/Endpoints/Orders.antt =====
-- endpoints/order.go: the handlers of the order channel, with the replies of ws/client.go.
pub mod Outcomes
use Prim.Native.String.{String}
use text.Mathlib.Text.{◌==◌ as str_eq}
use dex_server.Prelude.{
  ℕ, Bool, true, false, if◌then◌else◌, Option, none, some, List, [], ◌∷◌, ◌++◌,
}
use dex_server.Domain.Errors.{Error, Result, ok, err, is_panic, runtime_panic, account_blocked}
use dex_server.Domain.Account.{Account}
use dex_server.Domain.Order.{Order}
use dex_server.Domain.Order.Validation.{Crypto, hashed}
use dex_server.Domain.OrderCancel.{OrderCancel, get_sender_address}
use dex_server.Backend.{Backend}
use dex_server.Backend.Monad.{Action, pure, throw, ◌>>=◌, ◌>>◌}
use dex_server.Codec.{Json, null, string, number, boolean, object, Texts}
use dex_server.Codec.Orders.{zero_order, unmarshal_order}
use dex_server.Codec.Cancels.{unmarshal_order_cancel}
use dex_server.Services.Accounts.{find_or_create}
use dex_server.Services.Orders.{submit_order, request_cancel}
use dex_server.Ws.OrderConnections.{Connections, register_order_connection}

-- What the client is sent: an error with a hash (`SendOrderErrorMessage`), or an error alone.
pub data Reply : Type 0 where
  order_error_message : Error → ℕ → Reply
  error_message : Error → Reply

-- The state of the world, the connections, and what the client was sent.
pub record Session (D : Type 0) : Type 0 where
  pub world : D
  pub connections : Connections
  pub replies : List Reply

-- A call whose error is a value. A panic is not: it ends the handler too.
abbrev pub outcome : {D A : Type 0} → Result A → D → Session D → Result (Result A) × Session D
unfolding is_panic
outcome (ok a) d s = (ok (ok a), record s { world = d })
outcome (err e) d s =
    if is_panic e then (err e, record s { world = d }) else (ok (err e), record s { world = d })

abbrev pub call : {D A : Type 0} → Action D A → Action (Session D) (Result A)
unfolding outcome
call m s = let (r, d) = m s.world in outcome r d s

-- A call that does not act on the world.
abbrev pub evaluate : {D A : Type 0} → Result A → Action (Session D) (Result A)
unfolding outcome
evaluate r s = outcome r s.world s

abbrev pub reply : {D : Type 0} → Reply → Action (Session D) (Unit {0})
reply r s = (ok tt, record s { replies = s.replies ++ r ∷ [] })

-- `ws.RegisterOrderConnection`
abbrev pub register : {D : Type 0} → ℕ → ℕ → Action (Session D) (Unit {0})
unfolding register_order_connection
register a c s = (ok tt, record s { connections = register_order_connection a c s.connections })

-- `json.Unmarshal` into the pointer to an order: null makes it nil, whose use is a panic.
unfoldable pub decode_order : Texts → Json → Result Order
unfolding unmarshal_order
decode_order t null = err runtime_panic
decode_order t j = unmarshal_order t j zero_order

-- `&types.OrderCancel{}`
abbrev pub zero_cancel : OrderCancel
zero_cancel = record { order_hash = 0; hash = 0; signature = none }

module _ {D : Type 0} (b : Backend D) (c : Crypto) (t : Texts) (exchange client : ℕ) where
  -- The test of the account, which is nil after an error, and then its use is a panic.
  unfoldable pub check_account : ℕ → Result Account → Action (Session D) (Unit {0})
  check_account hash (err e) = do reply (order_error_message e hash); throw runtime_panic
  check_account hash (ok a) =
      if a.is_blocked then reply (error_message account_blocked) else pure tt

  abbrev pub report : ℕ → Result (Unit {0}) → Action (Session D) (Unit {0})
  report hash (err e) = reply (order_error_message e hash)
  report hash (ok u) = pure tt

  -- `handleNewOrder`, of an order that was decoded.
  unfoldable pub handle_decoded : Order → Action (Session D) (Unit {0})
  unfolding check_account call register
  handle_decoded o = do
    register o.user_address client
    acc ← call (find_or_create b o.user_address)
    check_account o.hash acc
    done ← call (submit_order b c exchange o)
    report o.hash done

  -- `handleNewOrder`. Nothing of an order that cannot be decoded is set.
  unfoldable pub handle_new_order : Json → Action (Session D) (Unit {0})
  unfolding handle_decoded decode_order evaluate
  handle_new_order payload = do
    decoded ← evaluate (decode_order t payload)
    elim decoded [ err e ↦ reply (order_error_message e 0) | ok o ↦ handle_decoded (hashed c o) ]

  -- `handleCancelOrder`, of a request that was decoded, or not.
  unfoldable pub handle_request : OrderCancel → Action (Session D) (Unit {0})
  unfolding call register evaluate
  handle_request oc = do
    sender ← evaluate (get_sender_address c oc)
    report_sender oc.hash sender
    register (address_of sender) client
    done ← call (request_cancel b oc.order_hash)
    report oc.hash done
    where
      report_sender : ℕ → Result ℕ → Action (Session D) (Unit {0})
      report_sender hash (err e) = reply (order_error_message e hash)
      report_sender hash (ok a) = pure tt

      -- `common.Address{}` after an error
      address_of : Result ℕ → ℕ
      address_of (err e) = 0
      address_of (ok a) = a

  -- `handleCancelOrder` goes on with a request that could not be decoded, whose signature is nil.
  unfoldable pub handle_cancel_order : Json → Action (Session D) (Unit {0})
  unfolding handle_request unmarshal_order_cancel evaluate
  handle_cancel_order payload = do
    decoded ← evaluate (unmarshal_order_cancel t payload zero_cancel)
    elim decoded [
      | err e ↦ do reply (order_error_message e 0); handle_request zero_cancel
      | ok oc ↦ handle_request oc
    ]

  -- `ws`: the handler of the event's type, and nothing for another type.
  unfoldable pub handle_event : String → Json → Action (Session D) (Unit {0})
  unfolding handle_new_order handle_cancel_order
  handle_event type payload =
      if str_eq type "NEW_ORDER"
      then handle_new_order payload
      else if str_eq type "CANCEL_ORDER"
      then handle_cancel_order payload
      else pure tt
