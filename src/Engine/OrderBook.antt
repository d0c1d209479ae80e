-- ===== src/Engine/OrderBook.antt =====
-- engine/orderbook.go: the order book of one pair. Its lock makes each call one step.
--
-- A method that writes to the order that it is given returns the order as it is then. In `buy_order`
-- and `sell_order` the taker order of the matches is the pointer to the incoming order, so it
-- follows each change of it.
pub mod Allocation
pub mod Fills
pub mod Orders
pub mod Resumed
pub mod Rounds
pub mod Settling
pub mod Serving
pub mod Stored
pub mod BestPrice
use dex_server.Prelude.{
  ℕ, zero, suc, Bool, true, false, Option, none, some, List, [], ◌∷◌, ◌++◌, map, if◌then◌else◌, not,
  ◌||◌,
}
use dex_server.Prelude.Int.{ℤ, pos}
use dex_server.Numbers.{add, sub, is_zero, is_strictly_greater_than}
use dex_server.Domain.Errors.{Result, ok, err, runtime_panic}
use dex_server.Domain.Order.{
  Order, Status, open_order, partial_filled, filled, cancelled, invalidated, Side, buy, sell,
  remaining_amount,
}
use dex_server.Domain.Trade.{Trade, pending, compute_hash, TradeStatus}
use dex_server.Domain.Matches.{
  Matches, append_match, trade_amounts, EngineResponse, EngineStatus, empty_response, order_added,
  order_filled, order_partially_filled, order_cancelled, trades_cancelled,
}
use dex_server.Backend.{Backend, Message, engine_response, new_order}
use dex_server.Backend.Monad.{Action, pure, throw, lift, ignoring_error, ◌>>=◌, ◌>>◌}
use dex_server.Daos.Orders.Updates.{
  has_hash, set_fields, inserted, find_and_modify, update_order_status,
  update_order_statuses_by_hashes, update_order_filled_amounts,
}
use dex_server.Daos.Orders.Queries.{get_matching_buy_orders, get_matching_sell_orders}
use dex_server.Daos.Trades.{update_trade_statuses_by_order_hashes}

-- The two branches of `execute`: the amount that is traded, and the maker order after it.
unfoldable pub settle : Order → Order → ℤ × Order
settle taker maker =
    if is_strictly_greater_than (remaining_amount maker) (remaining_amount taker)
    then (
      remaining_amount taker,
      record maker {
        filled_amount = add maker.filled_amount (remaining_amount taker);
        has_filled_amount = true;
        status = partial_filled;
      },
    )
    else (
      remaining_amount maker,
      record maker { filled_amount = maker.amount; has_filled_amount = true; status = filled },
    )

unfoldable pub filled_by : Order → ℤ → Order
filled_by taker amount = record taker {
  filled_amount = add taker.filled_amount amount;
  has_filled_amount = true;
}

-- The trade that `execute` builds.
unfoldable pub trade_of : (ℕ → ℕ → ℕ) → Order → Order → ℤ → Trade
trade_of keccak taker maker amount = record unhashed { hash = compute_hash keccak unhashed }
  where
    unhashed : Trade
    unhashed = record {
      id = 0;
      taker = taker.user_address;
      maker = maker.user_address;
      base_token = taker.base_token;
      quote_token = taker.quote_token;
      maker_order_hash = maker.hash;
      taker_order_hash = taker.hash;
      hash = 0;
      side = "";
      signature = none;
      tx_hash = 0;
      pair_name = taker.pair_name;
      created_at = 0;
      updated_at = 0;
      pricepoint = taker.pricepoint;
      has_pricepoint = true;
      status = pending;
      amount = amount;
      has_amount = true;
    }

-- `if o.FilledAmount == nil || math.IsZero(o.FilledAmount) { o.Status = "OPEN" }`
unfoldable pub opened : Order → Order
opened o =
    if not o.has_filled_amount || is_zero o.filled_amount
    then record o { status = open_order }
    else o

-- The hashes that `invalidateMakerOrders` collects: `trades[i]` for each index of the maker orders.
unfoldable pub paired_hashes : List Order → List Trade → Result (List ℕ × List ℕ)
paired_hashes [] ts = ok ([], [])
paired_hashes (o ∷ os) [] = err runtime_panic
paired_hashes (o ∷ os) (t ∷ ts) = elim (paired_hashes os ts) [
  | ok (makers, takers) ↦ ok (t.maker_order_hash ∷ makers, t.taker_order_hash ∷ takers)
  | err e ↦ err e
]

module _ {D : Type 0} (b : Backend D) where
  -- The call of the database that writes an order under its own hash.
  abbrev pub written : Order → Action D Order
  written o d =
      b.orders.find_and_modify (has_hash o.hash) (set_fields o (b.now d))
        (inserted o (b.new_object_id d) (b.now d)) d

  -- Writes the order under its own hash, and returns it with its new `UpdatedAt`.
  unfoldable pub save : Order → Action D Order
  save o = do (updated, o') ← find_and_modify b o.hash o; pure o'

  unfoldable pub add_order : Order → Action D Order
  add_order o = save (opened o)

module _ {D : Type 0} (b : Backend D) (keccak : ℕ → ℕ → ℕ) where
  -- The trade, the taker order and the maker order.
  unfoldable pub execute : Order → Order → Action D (Trade × Order × Order)
  execute taker maker = do
    let s = settle taker maker
    maker' ← save b s.1
    pure (trade_of keccak taker maker' s.0, filled_by taker s.0, maker')

  -- The loop over the matching orders, which stops once the copy of the taker order that was made
  -- on entry has no amount left. The flag says whether it stopped so.
  unfoldable pub match_loop : Matches → ℤ → List Order → Action D (Matches × Bool)
  match_loop m remaining [] = pure (m, false)
  match_loop m remaining (mo ∷ mos) = do
    (trade, taker, maker) ← execute m.taker_order mo
    let m' = append_match (record m { taker_order = taker }) maker trade
    let left = sub remaining trade.amount
    let rest = match_loop m' left mos
    if is_zero left then pure (m', true) else rest

  -- What follows the loop, in `buyOrder` and `sellOrder` alike.
  unfoldable pub conclude : Matches × Bool → Action D EngineResponse
  conclude (m, true) = do
    let taker = m.taker_order
    o ←
        save b
          (record taker { filled_amount = taker.amount; has_filled_amount = true; status = filled })
    pure (record empty_response {
      status = order_filled;
      order = some o;
      matches = some (record m { taker_order = o });
    })
  conclude (m, false) = do
    o ← save b (record m.taker_order { status = partial_filled })
    pure (record empty_response {
      status = order_partially_filled;
      order = some o;
      matches = some (record m { taker_order = o });
    })

  abbrev pub added_response : Order → EngineResponse
  added_response o = record empty_response { status = order_added; order = some o }

  -- `buyOrder` from its second statement on, given the matching orders. The error of `addOrder` is
  -- dropped.
  unfoldable pub fill_buy : Order → List Order → Action D EngineResponse
  fill_buy o [] d =
      (ok (added_response (record (opened o) { updated_at = b.now d })), (add_order b o d).1)
  fill_buy o (mo ∷ mos) d =
      (match_loop (record { maker_orders = []; taker_order = o; trades = [] }) o.amount (mo ∷ mos)
          >>= conclude)
        d

  unfoldable pub buy_order : Order → Action D EngineResponse
  unfolding fill_buy
  buy_order o = get_matching_sell_orders b o >>= fill_buy o

  unfoldable pub fill_sell : Order → List Order → Action D EngineResponse
  unfolding fill_buy
  fill_sell o [] = fill_buy (record o { status = open_order }) []
  fill_sell o (mo ∷ mos) = fill_buy o (mo ∷ mos)

  unfoldable pub sell_order : Order → Action D EngineResponse
  unfolding fill_sell
  sell_order o = get_matching_buy_orders b o >>= fill_sell o

  unfoldable pub respond_to : Side → Order → Action D EngineResponse
  respond_to sell o = sell_order o
  respond_to buy o = buy_order o
  respond_to (Side.other s) o = pure empty_response

  -- `newOrder`
  unfoldable pub new_order_on_book : Order → Action D (Unit {0})
  unfolding respond_to
  new_order_on_book o = do res ← respond_to o.side o; b.publish (engine_response res)

  unfoldable pub cancel_order_on_book : Order → Action D (Unit {0})
  cancel_order_on_book o = do
    update_order_status b o.hash cancelled
    b.publish (
        engine_response (record empty_response {
          status = order_cancelled;
          order = some (record o { status = cancelled });
        }))

  -- Publishes each order as a new one; errors are logged only.
  unfoldable pub resubmit : List Order → Action D (Unit {0})
  resubmit [] = pure tt
  resubmit (o ∷ os) = do ignoring_error (b.publish (new_order o)); resubmit os

  unfoldable pub invalidate_maker_orders : Matches → Action D (Unit {0})
  unfolding resubmit paired_hashes
  invalidate_maker_orders m = do
    (makers, takers) ← lift (paired_hashes m.maker_orders m.trades)
    taker_orders ← update_order_filled_amounts b takers (trade_amounts m)
    maker_orders ← update_order_statuses_by_hashes b invalidated makers
    cancelled_trades ← update_trade_statuses_by_order_hashes b TradeStatus.cancelled takers
    ignoring_error (
        b.publish (
          engine_response (record empty_response {
            status = trades_cancelled;
            invalidated_orders = some maker_orders;
            cancelled_trades = some cancelled_trades;
          })))
    resubmit taker_orders

  unfoldable pub invalidate_taker_orders : Matches → Action D (Unit {0})
  unfolding resubmit
  invalidate_taker_orders m = do
    let makers = map (λ (t : Trade). t.maker_order_hash) m.trades
    maker_orders ← update_order_filled_amounts b makers (trade_amounts m)
    invalid ← update_order_statuses_by_hashes b invalidated (m.taker_order.hash ∷ [])
    cancelled_trades ← update_trade_statuses_by_order_hashes b TradeStatus.cancelled makers
    b.publish (
        engine_response (record empty_response {
          status = trades_cancelled;
          invalidated_orders = some invalid;
          cancelled_trades = some cancelled_trades;
        }))
    resubmit maker_orders

  unfoldable pub invalidate_order : Order → Action D EngineResponse
  invalidate_order o = do
    update_order_status b o.hash Status.error
    pure (record empty_response {
      status = EngineStatus.invalidated;
      order = some (record o { status = Status.error });
    })
