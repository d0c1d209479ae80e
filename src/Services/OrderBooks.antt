-- ===== src/Services/OrderBooks.antt =====
-- services/orderbook.go: the raw order book of a pair and its subscribers.
pub mod Depth
use Prim.Native.String.{String, ◌++◌ as append}
use dex_server.Prelude.{ℕ, Option, none, some, List, ◌≡◌, refl, ◌⊎◌, inl, inr, ◌==◌, ◌&&◌, ◌||◌}
use text.Mathlib.Text.{◌==◌ as str_eq}
use dex_server.Domain.Errors.{Error, Result, ok, err, pair_not_found}
use dex_server.Domain.Order.{Order}
use dex_server.Domain.Pair.{Pair, name}
use dex_server.Backend.{Backend}
use dex_server.Backend.Monad.{Action, pure, throw, ◌>>=◌}
use dex_server.Daos.Orders.Queries.{get_raw_order_book}
use dex_server.Services.Validator.{get_by_token_address}
use dex_server.Ws.Sockets.{
  Server, subscribe_client, subscribe, unsubscribe, unsubscribe_channel, register_handler,
}
use dex_server.Ws.Sockets.Relation.{is_subscribed, joined-is_subscribed}

pub record RawOrderBook : Type 0 where
  pub pair_name : String
  pub orders : List Order

-- What the client is sent.
pub data Message : Type 0 where
  error_message : Error → Message
  init_message : RawOrderBook → Message

-- `GetOrderBookChannelID`, given the spelling of an address and of a text in lower case.
unfoldable pub get_order_book_channel_id : (ℕ → String) → (String → String) → ℕ → ℕ → String
get_order_book_channel_id hex lower base quote = lower (append (hex base) (append "::" (hex quote)))

module _ {D : Type 0} (b : Backend D) (hex : ℕ → String) (lower : String → String) where
  -- `OrderBookService.GetRawOrderBook`, from the test of the pair that was looked up on.
  unfoldable pub raw_order_book_of : Option Pair → Action D RawOrderBook
  raw_order_book_of none = throw pair_not_found
  raw_order_book_of (some p) = do
    orders ← get_raw_order_book b p
    pure (record { pair_name = name p; orders = orders })

  -- `OrderBookService.GetRawOrderBook`
  unfoldable pub fetch_raw_order_book : ℕ → ℕ → Action D RawOrderBook
  unfolding raw_order_book_of
  fetch_raw_order_book base quote = get_by_token_address b base quote >>= raw_order_book_of

  -- The rest of `SubscribeRawOrderBook`, by how the fetching ended, and the subscribing.
  unfoldable pub subscribed_to : RawOrderBook → Server → Result Server → Message × Server
  subscribed_to book s (err e) = (error_message e, s)
  subscribed_to book s (ok s') = (init_message book, s')

  unfoldable pub answer_subscription : String → ℕ → Server → Result RawOrderBook → Message × Server
  unfolding subscribed_to
  answer_subscription id c s (err e) = (error_message e, s)
  answer_subscription id c s (ok book) = subscribed_to book s (subscribe_client id c s)

  -- `SubscribeRawOrderBook`
  unfoldable pub subscribe_raw_order_book : ℕ → ℕ → ℕ → Server → D → Message × Server × D
  unfolding answer_subscription fetch_raw_order_book get_order_book_channel_id
  subscribe_raw_order_book c base quote s d =
      let (fetched, d') = fetch_raw_order_book base quote d in
      let (message, s') =
        answer_subscription (get_order_book_channel_id hex lower base quote) c s fetched in
      (message, s', d')

  -- `UnsubscribeRawOrderBook` and `UnsubscribeRawOrderBookChannel`
  unfoldable pub unsubscribe_raw_order_book : ℕ → Server → Server
  unsubscribe_raw_order_book c s = record s { socket = unsubscribe c s.socket }

  unfoldable pub unsubscribe_raw_order_book_channel : ℕ → ℕ → ℕ → Server → Server
  unfolding get_order_book_channel_id
  unsubscribe_raw_order_book_channel c base quote s = record s {
    socket = unsubscribe_channel (get_order_book_channel_id hex lower base quote) c s.socket;
  }

  -- If the order book cannot be fetched, the client is sent the error and no subscription changes;
  -- otherwise it is sent the order book that was fetched, and the subscription of this client to
  -- the pair's channel is added, no other one changed.
  subscribe_raw_order_book_lem :
      (c base quote : ℕ) (s : Server) (d : D)
      → let (message, s', d') = subscribe_raw_order_book c base quote s d in
        ((e : Error) × (fetch_raw_order_book base quote d ≡ (err e, d'))
          × (message ≡ error_message e)
          × (s' ≡ s))
        ⊎ ((book : RawOrderBook) × (fetch_raw_order_book base quote d ≡ (ok book, d'))
            × (message ≡ init_message book)
            × ((id : String) (x : ℕ)
                → is_subscribed s'.socket id x ≡ (
                    (str_eq (get_order_book_channel_id hex lower base quote) id && (c == x))
                    || is_subscribed s.socket id x)))
  unfolding subscribe_raw_order_book answer_subscription subscribed_to subscribe_client subscribe
      register_handler
  subscribe_raw_order_book_lem c base quote s d =
      go (fetch_raw_order_book base quote d).0 (fetch_raw_order_book base quote d).1 refl
    where
      id : String
      id = get_order_book_channel_id hex lower base quote

      go :
          (fetched : Result RawOrderBook) (d' : D)
          → fetch_raw_order_book base quote d ≡ (fetched, d')
          → let (message, s') = answer_subscription id c s fetched in
            ((e : Error) × (fetch_raw_order_book base quote d ≡ (err e, d'))
              × (message ≡ error_message e)
              × (s' ≡ s))
            ⊎ ((book : RawOrderBook) × (fetch_raw_order_book base quote d ≡ (ok book, d'))
                × (message ≡ init_message book)
                × ((i : String) (x : ℕ)
                    → is_subscribed s'.socket i x
                      ≡ ((str_eq id i && (c == x)) || is_subscribed s.socket i x)))
      go (err e) d' p = inl (e, p, refl, refl)
      go (ok book) d' p = inr (book, p, refl, λ i x. joined-is_subscribed id i c x s.socket)
