-- ===== src/Domain/Matches.antt =====
-- types/engine.go and types/operator.go: what the engine and the operator report.
use Prim.Native.String.{String}
use dex_server.Prelude.{ℕ, Option, none, List, [], ◌∷◌, ◌++◌, map, length}
use dex_server.Prelude.Int.{ℤ}
use dex_server.Domain.Order.{Order}
use dex_server.Domain.Trade.{Trade}

pub record Matches : Type 0 where
  pub maker_orders : List Order
  pub taker_order : Order
  pub trades : List Trade

unfoldable pub append_match : Matches → Order → Trade → Matches
append_match m mo t = record m {
  maker_orders = m.maker_orders ++ mo ∷ [];
  trades = m.trades ++ t ∷ [];
}

unfoldable pub trade_amounts : Matches → List ℤ
trade_amounts m = map (λ t. t.amount) m.trades

unfoldable pub matches_length : Matches → ℕ
matches_length m = length m.trades

pub data EngineStatus : Type 0 where
  order_added order_filled order_partially_filled order_cancelled : EngineStatus
  trades_cancelled invalidated error_status no_status : EngineStatus
  other : String → EngineStatus

pub record EngineResponse : Type 0 where
  pub status : EngineStatus
  pub order : Option Order
  pub matches : Option Matches
  pub invalidated_orders : Option (List Order)
  pub cancelled_trades : Option (List Trade)

-- `&types.EngineResponse{}`
abbrev pub empty_response : EngineResponse
empty_response = record {
  status = no_status;
  order = none;
  matches = none;
  invalidated_orders = none;
  cancelled_trades = none;
}

pub data OperatorMessageType : Type 0 where
  trade_error trade_tx_pending trade_tx_success trade_tx_error : OperatorMessageType
  trade_invalid trades_cancelled new_order : OperatorMessageType
  other : String → OperatorMessageType

pub record OperatorMessage : Type 0 where
  pub message_type : OperatorMessageType
  pub matches : Matches
  pub error_type : String
