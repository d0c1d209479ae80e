-- ===== src/Endpoints/OrderBooks.antt =====
-- endpoints/orderbook.go: the channel of the order book by price.
use Prim.Native.String.{String}
use text.Mathlib.Text.{◌==◌ as str_eq}
use dex_server.Prelude.{ℕ, Bool, ◌==◌, Option, none, some, List, [], ◌∷◌, ◌++◌, if◌then◌else◌}
use dex_server.Domain.Errors.{
  Error, Result, ok, err, runtime_panic, base_token_required, quote_token_required,
  base_token_invalid, quote_token_invalid, internal_server_error,
}
use dex_server.Backend.{Backend}
use dex_server.Backend.Monad.{Action, pure, throw, ◌>>◌}
use dex_server.Ws.Sockets.{Server}
use dex_server.Services.OrderBooks.Depth.{
  OrderBook, DepthMessage, error_message, fetch_order_book, subscribe_order_book,
  unsubscribe_order_book,
}

pub data EventType : Type 0 where
  subscribe unsubscribe : EventType
  other : String → EventType

-- `SubscriptionPayload`: the tokens, where 0 is the empty address.
pub record SubscriptionPayload : Type 0 where
  pub base_token : ℕ
  pub quote_token : ℕ

-- `WebsocketEvent`; a payload that cannot be decoded is nil.
pub record Event : Type 0 where
  pub type : EventType
  pub payload : Option SubscriptionPayload

-- The state of the world and of the socket, and what the client was sent.
pub record BookSession (D : Type 0) : Type 0 where
  pub world : D
  pub server : Server
  pub messages : List DepthMessage

module _ {D : Type 0} (b : Backend D) (hex : ℕ → String) (lower : String → String) (c : ℕ) where
  abbrev pub send_error : Error → Action (BookSession D) (Unit {0})
  send_error e s = (ok tt, record s { messages = s.messages ++ error_message e ∷ [] })

  abbrev pub subscribe_to : SubscriptionPayload → Action (BookSession D) (Unit {0})
  unfolding subscribe_order_book
  subscribe_to p s =
      let (message, server, world) =
        subscribe_order_book b hex lower c p.base_token p.quote_token s.server s.world in
      (ok tt, record { world = world; server = server; messages = s.messages ++ message ∷ [] })

  -- The rest of `orderBookWebSocket`, from the tests of the tokens on.
  abbrev pub subscribe_checked : EventType → SubscriptionPayload → Action (BookSession D) (Unit {0})
  unfolding subscribe_order_book
  subscribe_checked type p =
      if p.base_token == 0
      then send_error base_token_invalid
      else if p.quote_token == 0
      then send_error quote_token_invalid
      else elim type [
        | EventType.subscribe ↦ subscribe_to p
        | EventType.unsubscribe ↦ pure tt
        | EventType.other s ↦ pure tt
      ]

  -- The rest, from the test of the type on.
  unfoldable pub dispatch_event :
      EventType → Option SubscriptionPayload → Action (BookSession D) (Unit {0})
  unfolding subscribe_order_book unsubscribe_order_book
  dispatch_event EventType.unsubscribe p s =
      (ok tt, record s { server = unsubscribe_order_book c s.server })
  dispatch_event EventType.subscribe none s = throw runtime_panic s
  dispatch_event EventType.subscribe (some p) s = subscribe_checked EventType.subscribe p s
  dispatch_event (EventType.other t) none s = throw runtime_panic s
  dispatch_event (EventType.other t) (some p) s = subscribe_checked (EventType.other t) p s

  -- An event or a payload that cannot be decoded does not end the handler.
  unfoldable pub order_book_web_socket : Option Event → Action (BookSession D) (Unit {0})
  unfolding dispatch_event
  order_book_web_socket none = throw runtime_panic
  order_book_web_socket (some e) = elim e.payload [
    | none ↦ send_error internal_server_error >> dispatch_event e.type none
    | some p ↦ dispatch_event e.type (some p)
  ]

-- `handleGetOrderBook`, given how an address is told and read: the order book or the error that is
-- answered.
module _ {D : Type 0} (b : Backend D) (is_hex_address : String → Bool)
    (hex_to_address : String → ℕ) where
  abbrev pub answered : Result OrderBook × D → Result OrderBook × D
  answered (ok book, d) = (ok book, d)
  answered (err e, d) = (err internal_server_error, d)

  unfoldable pub handle_get_order_book : String → String → Action D OrderBook
  unfolding fetch_order_book
  handle_get_order_book bt qt d =
      if str_eq bt ""
      then (err base_token_required, d)
      else if str_eq qt ""
      then (err quote_token_required, d)
      else if is_hex_address bt
      then (if is_hex_address qt
          then answered (fetch_order_book b (hex_to_address bt) (hex_to_address qt) d)
          else (err quote_token_invalid, d))
      else (err base_token_invalid, d)
