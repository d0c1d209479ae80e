-- ===== src/Services/Orders/Settlement.antt =====
-- services/order.go: what the service does with the operator's messages.
pub mod Messages
use Prim.Native.String.{String}
use dex_server.Prelude.{
  ℕ, zero, suc, ◌≡◌, refl, sym, ap, ◌∙◌, subst, Bool, Option, none, some, List, [], ◌∷◌, ◌++◌, map,
  arith, length, get_elem?,
}
use dex_server.Domain.Errors.{Error, Result, ok, err, runtime_panic}
use dex_server.Domain.Order.{Order}
use dex_server.Domain.Trade.{Trade, TradeStatus, success}
use dex_server.Domain.Matches.{
  Matches, OperatorMessage, OperatorMessageType, trade_error, trade_tx_pending, trade_tx_success,
  trade_tx_error, trade_invalid,
}
use dex_server.Backend.{Backend, Notification, order_message, trade_update, Payload, order, matches}
use dex_server.Backend.Monad.{Action, pure, throw, ignoring_error, ◌>>=◌, ◌>>◌}
use dex_server.Daos.Trades.{update_trade_status, update_trade_statuses}
use dex_server.Services.Orders.Responses.{send, broadcast_trade_update, get_or}

-- `NthMatch`, which panics where the index is past the end of one of the lists.
unfoldable pub nth_match : Matches → ℕ → Option Matches
nth_match m i = elim (get_elem? m.maker_orders i) [
  | none ↦ none
  | some o ↦ elim (get_elem? m.trades i) [
    | none ↦ none
    | some t ↦ some (record { maker_orders = o ∷ []; taker_order = m.taker_order; trades = t ∷ [] })
  ]
]

abbrev pub in_error : Trade → Trade
in_error t = record t { status = TradeStatus.error }

module _ {D : Type 0} (b : Backend D) where
  -- A message to the taker of the first trade; `trades[0]` of an empty slice panics.
  abbrev pub tell_taker : String → List Trade → Payload → Action D (Unit {0})
  tell_taker kind [] p = throw runtime_panic
  tell_taker kind (t ∷ ts) p = send b (order_message kind t.taker p)

  -- The loop over the maker orders, with what each of them is told.
  unfoldable pub tell_makers : String → (Order → Payload) → List Order → Action D (Unit {0})
  tell_makers kind payload [] = pure tt
  tell_makers kind payload (o ∷ os) = do
    send b (order_message kind o.user_address (payload o))
    tell_makers kind payload os

  -- The loop over the indexes of the updated trades, from `i` on.
  unfoldable pub tell_matches : Matches → ℕ → List Trade → Action D (Unit {0})
  unfolding nth_match
  tell_matches m i [] = pure tt
  tell_matches m i (t ∷ ts) = elim (nth_match m i) [
    | none ↦ throw runtime_panic
    | some match ↦ elim match.maker_orders [
      | [] ↦ throw runtime_panic
      | o ∷ os ↦ do
        send b (order_message "ORDER_SUCCESS" o.user_address (matches match))
        tell_matches m (suc i) ts
    ]
  ]

  unfoldable pub handle_operator_trade_tx_pending : OperatorMessage → Action D (Unit {0})
  unfolding tell_makers
  handle_operator_trade_tx_pending msg = do
    tell_taker "ORDER_PENDING" msg.matches.trades (matches msg.matches)
    tell_makers "ORDER_PENDING" (λ o. matches msg.matches) msg.matches.maker_orders
    broadcast_trade_update b msg.matches.trades

  -- An error of the update leaves no trades, and then `trades[0]` panics.
  unfoldable pub succeed : Matches → List Trade → Action D (Unit {0})
  unfolding tell_matches
  succeed m trades = do
    tell_taker "ORDER_SUCCESS" trades (matches m)
    tell_matches m 0 trades
    broadcast_trade_update b trades

  unfoldable pub handle_operator_trade_tx_success : OperatorMessage → Action D (Unit {0})
  unfolding succeed
  handle_operator_trade_tx_success msg = elim msg.matches.trades [
    | [] ↦ pure tt
    | t ∷ ts ↦ do
      updated ← update_trade_statuses b success (map (λ (x : Trade). x.hash) (t ∷ ts))
      succeed msg.matches updated
  ]

  -- The loop that sets the trades to ERROR; the errors of the updates are logged only.
  unfoldable pub fail_trades : List Trade → Action D (Unit {0})
  fail_trades [] = pure tt
  fail_trades (t ∷ ts) = do
    ignoring_error (update_trade_status b t.hash TradeStatus.error)
    fail_trades ts

  -- What the handlers of TRADE_TX_ERROR, TRADE_ERROR and TRADE_INVALID do alike. The matches hold
  -- pointers to the trades whose status the loop sets.
  unfoldable pub fail_matches : Matches → Action D (Unit {0})
  unfolding fail_trades tell_makers
  fail_matches m = do
    fail_trades m.trades
    tell_taker "ORDER_ERROR" m.trades (matches (record m { trades = map in_error m.trades }))
    tell_makers "ORDER_ERROR" order m.maker_orders
    broadcast_trade_update b (map in_error m.trades)

  unfoldable pub handle_operator_trade_tx_error : OperatorMessage → Action D (Unit {0})
  unfolding fail_matches
  handle_operator_trade_tx_error msg = fail_matches msg.matches

  unfoldable pub handle_operator_trade_error : OperatorMessage → Action D (Unit {0})
  unfolding fail_matches
  handle_operator_trade_error msg = fail_matches msg.matches

  unfoldable pub handle_operator_trade_invalid : OperatorMessage → Action D (Unit {0})
  unfolding fail_matches
  handle_operator_trade_invalid msg = fail_matches msg.matches

  unfoldable pub dispatch_operator : OperatorMessageType → OperatorMessage → Action D (Unit {0})
  unfolding handle_operator_trade_error handle_operator_trade_tx_pending
      handle_operator_trade_tx_success handle_operator_trade_tx_error handle_operator_trade_invalid
  dispatch_operator trade_error msg = handle_operator_trade_error msg
  dispatch_operator trade_tx_pending msg = handle_operator_trade_tx_pending msg
  dispatch_operator trade_tx_success msg = handle_operator_trade_tx_success msg
  dispatch_operator trade_tx_error msg = handle_operator_trade_tx_error msg
  dispatch_operator trade_invalid msg = handle_operator_trade_invalid msg
  dispatch_operator _ msg = pure tt

  -- `HandleOperatorMessages`
  unfoldable pub handle_operator_messages : OperatorMessage → Action D (Unit {0})
  unfolding dispatch_operator
  handle_operator_messages msg = dispatch_operator msg.message_type msg
