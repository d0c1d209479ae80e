-- ===== src/Backend.antt =====
-- What the program calls and does not implement: MongoDB through daos/session.go, RabbitMQ, the
-- websocket channels, the Ethereum node and the clock. They are operations on a state `D` of the
-- world, of which the model knows nothing but the laws of `Backend.Laws`.
pub mod Monad
pub mod Laws
pub mod Memory
use Prim.Native.String.{String}
use dex_server.Prelude.{ℕ, Bool, List, Option}
use dex_server.Prelude.Int.{ℤ}
use dex_server.Domain.Errors.{Error, Result}
use dex_server.Domain.Order.{Order}
use dex_server.Domain.Deposit.{Association, KeyValue, DepositTransaction, DepositStatus}
use dex_server.Domain.Pair.{Pair}
use dex_server.Domain.Account.{Account, Token}
use dex_server.Domain.Trade.{Trade}
use dex_server.Domain.Matches.{Matches, EngineResponse, OperatorMessage}

-- A MongoDB collection. A query is the test that it makes of a document, an update the change that
-- it makes to one, and a pipeline that matches and sorts is a test and the order of the sort.
pub record Collection (A : Type 0) (D : Type 0) : Type 0 where
  -- query and limit; no limit if 0
  pub get : (A → Bool) → ℕ → D → Result (List A) × D
  -- the first document that matches
  pub update : (A → Bool) → (A → A) → D → Result (Unit {0}) × D
  pub update_all : (A → Bool) → (A → A) → D → Result (Unit {0}) × D
  -- an upsert: the change of a matching document, and the document to insert if there is none
  pub find_and_modify : (A → Bool) → (A → A) → A → D → Result A × D
  -- `before x y` says that the sort may put x in front of y
  pub aggregate : (A → Bool) → (A → A → Bool) → D → Result (List A) × D
  -- a nil among the documents is `none`
  pub insert : List (Option A) → D → Result (Unit {0}) × D

-- What is published on a queue of RabbitMQ, as JSON.
pub data Message : Type 0 where
  engine_response : EngineResponse → Message
  new_order cancel_order : Order → Message
  invalidate_maker_orders invalidate_taker_orders : Matches → Message
  trades operator : OperatorMessage → Message
  tx_queue : String → Matches → Message
  deposit : DepositTransaction → Message

pub data Payload : Type 0 where
  nothing : Payload
  order : Order → Payload
  matches : Matches → Payload
  failure : Error → Payload

-- What is sent over the websockets: a message of the named type to the connections of an address,
-- or an update to the subscribers of a pair, whose channel its two token addresses name.
pub data Notification : Type 0 where
  order_message : String → ℕ → Payload → Notification
  order_book_update : ℕ → ℕ → String → List (ℤ × ℤ) → List (ℤ × ℤ) → Notification
  raw_order_book_update : ℕ → ℕ → List Order → Notification
  trade_update : ℕ → ℕ → List Trade → Notification
  -- to the connections of an address on the channel for deposits
  deposit_done : ℕ → Association → Notification
  deposit_pending : ℕ → DepositStatus → Notification

pub record Receipt : Type 0 where
  pub status : ℕ
  pub post_state_length : ℕ

pub record Backend (D : Type 0) : Type 0 where
  pub orders : Collection Order D
  pub trades : Collection Trade D
  pub pairs : Collection Pair D
  pub accounts : Collection Account D
  pub tokens : Collection Token D
  pub associations : Collection Association D
  pub config : Collection KeyValue D
  -- a pipeline that matches orders and sums a number of each; none if no order matches
  pub sum_orders : (Order → Bool) → (Order → ℤ) → D → Result (Option ℤ) × D
  pub publish : Message → D → Result (Unit {0}) × D
  pub notify : Notification → D → D
  pub now : D → ℕ
  pub new_object_id : D → ℕ
  -- the identifiers that one call makes, by position
  pub new_object_ids : D → ℕ → ℕ
  -- the balance of an owner in a token; the allowance of an owner to a spender in a token
  pub balance_of : ℕ → ℕ → D → Result ℤ × D
  pub allowance : ℕ → ℕ → ℕ → D → Result ℤ × D
  -- the number of messages on the queue of the given name
  pub queue_length : String → D → ℕ
  -- the contract: the gas of a batch of trades that is tried by a call, and the hash of the
  -- transaction that executes a batch, given the gas limit and the nonce
  pub call_batch_trades : Matches → ℕ → D → Result ℕ × D
  pub execute_batch_trades : Matches → ℕ → ℕ → ℕ → D → Result ℕ × D
  pub pending_nonce_at : ℕ → D → Result ℕ × D
  pub wait_mined : ℕ → D → Result Receipt × D
