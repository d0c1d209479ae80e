-- ===== src/Services/Orders/Responses.antt =====
-- services/order.go: what the service does with the engine's responses.
use dex_server.Prelude.{
  map, ◌==◌, ℕ, Bool, true, false, Option, none, some, List, [], ◌∷◌, ◌++◌, ◌==◌, ltb,
  if◌then◌else◌,
}
use dex_server.Prelude.Int.{ℤ, pos}
use dex_server.Domain.Errors.{ok, err, runtime_panic}
use dex_server.Domain.Order.{Order, is_buy}
use dex_server.Domain.Trade.{Trade}
use dex_server.Domain.Matches.{
  Matches, append_match, matches_length, EngineResponse, EngineStatus, order_added, order_filled,
  order_partially_filled, order_cancelled, trades_cancelled, error_status, OperatorMessageType,
}
use dex_server.Backend.{
  Backend, invalidate_maker_orders, trades, Notification, order_message, order_book_update,
  raw_order_book_update, trade_update, nothing, order, matches, failure,
}
use dex_server.Backend.Monad.{Action, pure, throw, ignoring_error, ◌>>=◌, ◌>>◌}
use dex_server.Daos.Orders.Queries.{get_order_book_price_point}
use dex_server.Daos.Trades.{create_trades}
use dex_server.Services.Validator.{deref, validate_balance}
use dex_server.Services.Orders.{order_pair, trade_pair}

abbrev pub get_or : {A : Type 0} → A → Option A → A
get_or a none = a
get_or a (some x) = x

-- `types.Matches{TakerOrder: o}`
abbrev pub no_match : Order → Matches
no_match o = record { maker_orders = []; taker_order = o; trades = [] }

-- A trade as it is after a change of some trades; their hashes tell them apart.
abbrev pub refreshed : List Trade → Trade → Trade
refreshed [] t = t
refreshed (s ∷ ss) t = if s.hash == t.hash then s else refreshed ss t

module _ {D : Type 0} (b : Backend D) where
  abbrev pub send : Notification → Action D (Unit {0})
  send n d = (ok tt, b.notify n d)

  -- The two lists of a book update, bids and asks: for each order what is left at its price. An
  -- error of the query is logged, and counts as nothing left.
  unfoldable pub levels : ℕ → ℕ → List Order → Action D (List (ℤ × ℤ) × List (ℤ × ℤ))
  levels base quote [] d = (ok ([], []), d)
  levels base quote (o ∷ os) d =
      let (r, e) = get_order_book_price_point b base quote o.pricepoint o.side d in
      let level : ℤ × ℤ = (o.pricepoint, elim r [ ok a ↦ get_or (pos 0) a | err x ↦ pos 0 ]) in
      (do
        (bids, asks) ← levels base quote os
        pure (if is_buy o.side then (level ∷ bids, asks) else (bids, level ∷ asks)))
        e

  -- `orders[0]` of an empty slice panics; an order without its tokens ends the broadcast.
  unfoldable pub broadcast_order_book_update : List Order → Action D (Unit {0})
  unfolding levels
  broadcast_order_book_update [] = throw runtime_panic
  broadcast_order_book_update (o ∷ os) = elim (order_pair o) [
    | err e ↦ pure tt
    | ok (base, quote) ↦ do
      (bids, asks) ← levels base quote (o ∷ os)
      send (order_book_update base quote o.pair_name bids asks)
  ]

  unfoldable pub broadcast_raw_order_book_update : List Order → Action D (Unit {0})
  broadcast_raw_order_book_update [] = throw runtime_panic
  broadcast_raw_order_book_update (o ∷ os) = elim (order_pair o) [
    | err e ↦ pure tt
    | ok (base, quote) ↦ send (raw_order_book_update base quote (o ∷ os))
  ]

  unfoldable pub broadcast_trade_update : List Trade → Action D (Unit {0})
  broadcast_trade_update [] = throw runtime_panic
  broadcast_trade_update (t ∷ ts) = elim (trade_pair t) [
    | err e ↦ pure tt
    | ok (base, quote) ↦ send (trade_update base quote (t ∷ ts))
  ]

  abbrev pub broadcast_orders : List Order → Action D (Unit {0})
  broadcast_orders os = broadcast_order_book_update os >> broadcast_raw_order_book_update os

  unfoldable pub handle_engine_order_added : EngineResponse → Action D (Unit {0})
  handle_engine_order_added res = do
    o ← deref res.order
    send (order_message "ORDER_ADDED" o.user_address (order o))
    broadcast_orders (o ∷ [])

  unfoldable pub handle_order_cancelled : EngineResponse → Action D (Unit {0})
  handle_order_cancelled res = do
    o ← deref res.order
    send (order_message "ORDER_CANCELLED" o.user_address (order o))
    broadcast_orders (o ∷ [])

  -- The split of the matches by whether the maker order is still covered: the valid ones, the
  -- invalid ones, and the orders to broadcast. `MakerOrders[i]` is read for each trade.
  unfoldable pub split_matches :
      ℕ
      → Matches
      → Matches
      → List Order
      → List Order
      → List Trade
      → Action D (Matches × Matches × List Order)
  split_matches exchange valid invalid os mos [] d = (ok (valid, invalid, os), d)
  split_matches exchange valid invalid os [] (t ∷ ts) d = (err runtime_panic, d)
  split_matches exchange valid invalid os (mo ∷ mos) (t ∷ ts) d =
      let (r, e) = validate_balance b exchange mo d in
      let kept =
        split_matches exchange (append_match valid mo t) invalid (os ++ mo ∷ []) mos ts e in
      let dropped = split_matches exchange valid (append_match invalid mo t) os mos ts e in
      elim r [ ok u ↦ kept | err x ↦ dropped ]

  -- Records the valid matches as trades and hands them to the operator. The result says whether the
  -- handler goes on; where it does not, the taker has been told the error. The valid matches and all
  -- matches share their trades, so what `Create` writes into them is in both.
  unfoldable pub settle_matches : ℕ → Matches → Matches → Action D Bool
  settle_matches taker valid all d =
      let (r, e) =
        (do
          created ← create_trades b valid.trades
          b.publish (
              trades (record {
                message_type = OperatorMessageType.new_order;
                matches = record valid { trades = created };
                error_type = "";
              }))
          pure (record all { trades = map (refreshed created) all.trades }))
          d in
      elim r [
        | ok all' ↦ (ok true, b.notify (order_message "ORDER_MATCHED" taker (matches all')) e)
        | err x ↦ (ok false, b.notify (order_message "ERROR" taker (failure x)) e)
      ]

  abbrev pub when : Bool → Action D (Unit {0}) → Action D (Unit {0})
  when true m = m
  when false m = pure tt

  unfoldable pub handle_engine_order_matched : ℕ → EngineResponse → Action D (Unit {0})
  unfolding split_matches settle_matches
  handle_engine_order_matched exchange res = do
    o ← deref res.order
    all ← deref res.matches
    (valid, invalid, os) ←
        split_matches exchange (no_match o) (no_match o) (o ∷ []) all.maker_orders all.trades
    when (ltb 0 (matches_length invalid))
        (ignoring_error (b.publish (invalidate_maker_orders invalid)))
    go_on ←
        if ltb 0 (matches_length valid) then settle_matches o.user_address valid all else pure true
    when go_on (when (matches_length invalid == 0) (broadcast_orders os))

  unfoldable pub send_invalidated : List Order → Action D (Unit {0})
  send_invalidated [] = pure tt
  send_invalidated (o ∷ os) = do
    send (order_message "ORDER_INVALIDATED" o.user_address (order o))
    send_invalidated os

  abbrev pub on_some : {A : Type 0} → List A → (List A → Action D (Unit {0})) → Action D (Unit {0})
  on_some [] f = pure tt
  on_some (x ∷ xs) f = f (x ∷ xs)

  unfoldable pub handle_orders_invalidated : EngineResponse → Action D (Unit {0})
  unfolding send_invalidated
  handle_orders_invalidated res = do
    os ← deref res.invalidated_orders
    send_invalidated os
    on_some os broadcast_order_book_update
    on_some os broadcast_raw_order_book_update
    on_some (get_or [] res.cancelled_trades) broadcast_trade_update

  unfoldable pub handle_engine_error : EngineResponse → Action D (Unit {0})
  handle_engine_error res = do
    o ← deref res.order
    send (order_message "ERROR" o.user_address nothing)

  -- `HandleEngineResponse`
  unfoldable pub dispatch_response : ℕ → EngineStatus → EngineResponse → Action D (Unit {0})
  dispatch_response exchange order_added res = handle_engine_order_added res
  dispatch_response exchange order_filled res = handle_engine_order_matched exchange res
  dispatch_response exchange order_partially_filled res = handle_engine_order_matched exchange res
  dispatch_response exchange order_cancelled res = handle_order_cancelled res
  dispatch_response exchange trades_cancelled res = handle_orders_invalidated res
  dispatch_response exchange error_status res = handle_engine_error res
  dispatch_response exchange EngineStatus.invalidated res = pure tt
  dispatch_response exchange EngineStatus.no_status res = pure tt
  dispatch_response exchange (EngineStatus.other s) res = pure tt

  unfoldable pub handle_engine_response : ℕ → EngineResponse → Action D (Unit {0})
  unfolding dispatch_response
  handle_engine_response exchange res = dispatch_response exchange res.status res
