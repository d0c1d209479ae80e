-- ===== src/Services/OrderBooks/Depth.antt =====
-- services/orderbook.go: the order book of a pair by price and its subscribers.
use Prim.Native.String.{String}
use dex_server.Prelude.{ℕ, Option, none, some, List}
use dex_server.Prelude.Int.{ℤ}
use dex_server.Domain.Errors.{Error, Result, ok, err, pair_not_found}
use dex_server.Domain.Pair.{Pair, name}
use dex_server.Backend.{Backend}
use dex_server.Backend.Monad.{Action, pure, throw, ◌>>=◌}
use dex_server.Daos.Orders.Depth.{get_order_book}
use dex_server.Services.Validator.{get_by_token_address}
use dex_server.Services.OrderBooks.{get_order_book_channel_id}
use dex_server.Ws.Sockets.{Server, subscribe_client, unsubscribe, unsubscribe_channel}

-- The levels are pairs of a price and an amount.
pub record OrderBook : Type 0 where
  pub pair_name : String
  pub asks : List (ℤ × ℤ)
  pub bids : List (ℤ × ℤ)

-- What a subscriber is sent.
pub data DepthMessage : Type 0 where
  error_message : Error → DepthMessage
  init_message : OrderBook → DepthMessage

module _ {D : Type 0} (b : Backend D) where
  -- `OrderBookService.GetOrderBook`, from the test of the pair that was looked up on.
  unfoldable pub order_book_of : Option Pair → Action D OrderBook
  unfolding get_order_book
  order_book_of none = throw pair_not_found
  order_book_of (some p) = do
    (bids, asks) ← get_order_book b p
    pure (record { pair_name = name p; asks = asks; bids = bids })

  -- `OrderBookService.GetOrderBook`
  unfoldable pub fetch_order_book : ℕ → ℕ → Action D OrderBook
  unfolding order_book_of
  fetch_order_book base quote = get_by_token_address b base quote >>= order_book_of

module _ {D : Type 0} (b : Backend D) (hex : ℕ → String) (lower : String → String) where
  -- The rest of `SubscribeOrderBook`, by how the subscribing ended, and by how the fetching ended.
  abbrev pub initial : OrderBook → Server → Result Server → DepthMessage × Server
  initial book s (err e) = (error_message e, s)
  initial book s (ok s') = (init_message book, s')

  abbrev pub answer : String → ℕ → Server → Result OrderBook → DepthMessage × Server
  unfolding subscribe_client
  answer id c s (err e) = (error_message e, s)
  answer id c s (ok book) = initial book s (subscribe_client id c s)

  -- `SubscribeOrderBook`
  unfoldable pub subscribe_order_book : ℕ → ℕ → ℕ → Server → D → DepthMessage × Server × D
  unfolding fetch_order_book get_order_book_channel_id subscribe_client
  subscribe_order_book c base quote s d =
      let (fetched, d') = fetch_order_book b base quote d in
      let (message, s') = answer (get_order_book_channel_id hex lower base quote) c s fetched in
      (message, s', d')

-- `UnsubscribeOrderBook` and `UnsubscribeOrderBookChannel`
unfoldable pub unsubscribe_order_book : ℕ → Server → Server
unfolding unsubscribe
unsubscribe_order_book c s = record s { socket = unsubscribe c s.socket }

unfoldable pub unsubscribe_order_book_channel :
    (ℕ → String) → (String → String) → ℕ → ℕ → ℕ → Server → Server
unfolding get_order_book_channel_id unsubscribe_channel
unsubscribe_order_book_channel hex lower c base quote s = record s {
  socket = unsubscribe_channel (get_order_book_channel_id hex lower base quote) c s.socket;
}
