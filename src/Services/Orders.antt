-- ===== src/Services/Orders.antt =====
-- services/order.go: order submission and cancellation, the engine's responses and the operator's
-- messages. Logging is left out, and a payload is what it wraps.
pub mod Responses
pub mod Splitting
pub mod Settlement
pub mod Submission
use Prim.Native.String.{String}
use dex_server.Prelude.{
  ℕ, zero, suc, Bool, true, false, not, Option, none, some, List, [], ◌∷◌, ◌++◌, map, ◌==◌, ◌&&◌,
  ltb, if◌then◌else◌, length, get_elem?,
}
use dex_server.Prelude.Int.{ℤ, pos}
use dex_server.Numbers.{sub, is_strictly_smaller_than, is_equal}
use dex_server.Domain.Errors.{
  Error, Result, ok, err, runtime_panic, invalid_signature, pair_not_found, amount_too_low,
  order_not_found, cannot_cancel, base_token_required, quote_token_required,
}
use dex_server.Domain.Order.{
  Order, Status, filled, cancelled, Side, is_buy, sell_token, quote_amount,
}
use dex_server.Domain.Order.Validation.{Crypto, validate, verify_signature, hashed, process}
use dex_server.Domain.Pair.{Pair, min_quote_amount}
use dex_server.Domain.Trade.{Trade, TradeStatus, success}
use dex_server.Domain.Matches.{
  Matches, append_match, matches_length, EngineResponse, EngineStatus, order_added, order_filled,
  order_partially_filled, order_cancelled, trades_cancelled, error_status, OperatorMessage,
  OperatorMessageType, trade_error, trade_tx_pending, trade_tx_success, trade_tx_error,
  trade_invalid,
}
use dex_server.Backend.{
  Backend, Message, new_order, cancel_order, invalidate_maker_orders, trades, Notification,
  order_message, order_book_update, raw_order_book_update, trade_update, Payload, nothing, order,
  matches, failure,
}
use dex_server.Backend.Monad.{Action, pure, throw, lift, ignoring_error, ◌>>=◌, ◌>>◌}
use dex_server.Daos.Orders.Queries.{is_live, get_by_hash}
use dex_server.Daos.Trades.{update_trade_status, update_trade_statuses}
use dex_server.Services.Validator.{
  get_by_token_address, validate_available_balance, validate_balance,
}

-- The second check of the signature in `NewOrder`: an error of it counts as a failed check.
abbrev pub checked : Result Bool → Bool
checked (ok v) = v
checked (err e) = false

-- The statuses that `CancelOrder` refuses.
unfoldable pub is_final : Status → Bool
is_final filled = true
is_final Status.error = true
is_final cancelled = true
is_final _ = false

-- `Order.Pair` fails on an empty token address.
unfoldable pub order_pair : Order → Result (ℕ × ℕ)
order_pair o =
    if o.base_token == 0
    then err base_token_required
    else if o.quote_token == 0
    then err quote_token_required
    else ok (o.base_token, o.quote_token)

-- `Trade.Pair` does likewise.
unfoldable pub trade_pair : Trade → Result (ℕ × ℕ)
trade_pair t =
    if t.base_token == 0
    then err base_token_required
    else if t.quote_token == 0
    then err quote_token_required
    else ok (t.base_token, t.quote_token)

module _ {D : Type 0} (b : Backend D) where
  abbrev pub throw_if : Bool → Error → Action D (Unit {0})
  throw_if true e = throw e
  throw_if false e = pure tt

  -- `NewOrder`, once the order is signed correctly and its pair is found.
  unfoldable pub submit : ℕ → Order → Pair → Action D (Unit {0})
  submit exchange o p d =
      (do
        throw_if (is_strictly_smaller_than (quote_amount o p) (min_quote_amount p)) amount_too_low
        o' ← lift (process (b.now d) p o)
        validate_available_balance b exchange o'
        b.publish (new_order o'))
        d

  -- `NewOrder`, from the test of the pair that was looked up on.
  unfoldable pub submit_found : ℕ → Order → Option Pair → Action D (Unit {0})
  unfolding submit
  submit_found exchange o none = throw pair_not_found
  submit_found exchange o (some p) = submit exchange o p

  -- `NewOrder`
  unfoldable pub submit_order : Crypto → ℕ → Order → Action D (Unit {0})
  unfolding submit_found
  submit_order c exchange o = do
    lift (validate c exchange o)
    let o' = hashed c o
    throw_if (not (checked (verify_signature c o'))) invalid_signature
    found ← get_by_token_address b o'.base_token o'.quote_token
    submit_found exchange o' found

  -- `CancelOrder`, from the test of the order that was looked up on.
  unfoldable pub cancel_found : Option Order → Action D (Unit {0})
  cancel_found none = throw order_not_found
  cancel_found (some o) =
      if is_final o.status then throw cannot_cancel else b.publish (cancel_order o)

  -- `CancelOrder`, given the hash of the order to cancel.
  unfoldable pub request_cancel : ℕ → Action D (Unit {0})
  unfolding cancel_found
  request_cancel h = get_by_hash b h >>= cancel_found
