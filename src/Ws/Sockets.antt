-- ===== src/Ws/Sockets.antt =====
-- ws/orderbook.go, of which ws/raw_orderbook.go, ws/trades.go and ws/ohlcv.go are copies: the
-- subscriptions to channels, with the handlers of ws/connection.go that end them when a connection
-- closes, and the subscribing in services/orderbook.go.
pub mod Table
pub mod Relation
pub mod Refinement
pub mod Closing
use Prim.Native.String.{String}
use text.Mathlib.Text.{◌==◌ as str_eq}
use dex_server.Prelude.{
  ℕ, Bool, true, false, ◌==◌, if◌then◌else◌, Option, none, some, List, [], ◌∷◌, ◌++◌,
}
use dex_server.Domain.Errors.{Result, ok, err, ◌>>=◌, no_connection}

-- A Go map whose entries the code enumerates, with no key twice.
abbrev pub Entries : Type 0
Entries = List (ℕ × Bool)

-- A missing key reads as false.
unfoldable pub entry : Entries → ℕ → Bool
entry [] c = false
entry ((k, v) ∷ m) c = if k == c then v else entry m c

unfoldable pub put : ℕ → Bool → Entries → Entries
put c v [] = (c, v) ∷ []
put c v ((k, w) ∷ m) = if k == c then (k, v) ∷ m else (k, w) ∷ put c v m

unfoldable pub delete : ℕ → Entries → Entries
delete c [] = []
delete c ((k, v) ∷ m) = if k == c then m else (k, v) ∷ delete c m

-- `m[k] = v`, for a map that is only looked up; a missing key is nil.
abbrev pub set_at : {K V : Type 0} → (K → K → Bool) → K → V → (K → Option V) → K → Option V
set_at eq k v m k' = if eq k k' then some v else m k'

abbrev pub get_or : {A : Type 0} → A → Option A → A
get_or a none = a
get_or a (some b) = b

pub record Socket : Type 0 where
  pub subscriptions : String → Option Entries
  pub subscriptions_list : ℕ → Option (List String)

-- `NewOrderBookSocket`
abbrev pub new_socket : Socket
new_socket = record { subscriptions = λ id. none; subscriptions_list = λ c. none }

-- `s.subscriptions[id]` and `s.subscriptionsList[c]`, where nil reads as empty.
abbrev pub entries : Socket → String → Entries
entries s id = get_or [] (s.subscriptions id)

abbrev pub list_of : Socket → ℕ → List String
list_of s c = get_or [] (s.subscriptions_list c)

-- `Subscribe`, of a client that may be nil.
unfoldable pub subscribe : String → Option ℕ → Socket → Result Socket
unfolding put
subscribe id none s = err no_connection
subscribe id (some c) s = ok (record {
  subscriptions = set_at str_eq id (put c true (entries s id)) s.subscriptions;
  subscriptions_list = set_at (λ a b. a == b) c (list_of s c ++ id ∷ []) s.subscriptions_list;
})

-- `UnsubscribeChannel`
unfoldable pub unsubscribe_channel : String → ℕ → Socket → Socket
unfolding put delete entry
unsubscribe_channel id c s =
    if entry (entries s id) c
    then record s {
      subscriptions = set_at str_eq id (delete c (put c false (entries s id))) s.subscriptions;
    }
    else s

-- `UnsubscribeChannel` for each of the channels, in turn.
unfoldable pub unsubscribe_channels : List String → ℕ → Socket → Socket
unfolding unsubscribe_channel
unsubscribe_channels [] c s = s
unsubscribe_channels (id ∷ ids) c s = unsubscribe_channels ids c (unsubscribe_channel id c s)

-- `Unsubscribe`, which does not clear the client's list.
unfoldable pub unsubscribe : ℕ → Socket → Socket
unfolding unsubscribe_channels
unsubscribe c s = unsubscribe_channels (list_of s c) c s

abbrev pub active_clients : Entries → List ℕ
active_clients [] = []
active_clients ((c, status) ∷ m) = if status then c ∷ active_clients m else active_clients m

-- `BroadcastMessage`: the clients that the update is sent to, in the order of the enumeration.
unfoldable pub broadcast_message : String → Socket → List ℕ
broadcast_message id s = active_clients (entries s id)

-- The socket with the handlers that its subscribers have registered for when they close.
pub record Server : Type 0 where
  pub socket : Socket
  pub unsubscribe_handlers : ℕ → List String

-- `RegisterConnectionUnsubscribeHandler`, of a handler that is named by its channel.
unfoldable pub register_handler : ℕ → String → Server → Server
register_handler c id s = record s {
  unsubscribe_handlers =
      λ x. if c == x then s.unsubscribe_handlers c ++ id ∷ [] else s.unsubscribe_handlers x;
}

-- `SubscribeOrderBook`, once the order book is fetched: subscribe and register the handler.
unfoldable pub subscribe_client : String → ℕ → Server → Result Server
unfolding subscribe register_handler
subscribe_client id c s = do
  socket ← subscribe id (some c) s.socket
  ok (register_handler c id (record s { socket = socket }))

-- `closeConnection`: the handlers of the client run, each in a goroutine, in the given order.
unfoldable pub close_connection : List String → ℕ → Server → Server
unfolding unsubscribe_channels
close_connection order c s = record s { socket = unsubscribe_channels order c s.socket }
