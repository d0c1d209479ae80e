-- ===== src/Operator/Execution.antt =====
-- operator/txqueue.go, with `UpdatePendingTrade` of services/trade.go and the messages of
-- rabbitmq/operator.go.
pub mod Protocol
use Prim.Native.String.{String}
use dex_server.Prelude.{
  ℕ, zero, suc, Bool, true, false, Option, none, some, List, [], ◌∷◌, ◌++◌, ◌==◌, ◌&&◌, ltb,
  if◌then◌else◌,
}
use dex_server.Prelude.Int.{pos}
use dex_server.Domain.Errors.{
  Error, Result, ok, err, invalid_trade, could_not_update, reverted_transaction,
}
use dex_server.Domain.Trade.{Trade, TradeStatus, pending}
use dex_server.Domain.Matches.{
  Matches, OperatorMessage, OperatorMessageType, trade_error, trade_tx_pending, trade_tx_success,
  trade_invalid,
}
use dex_server.Backend.{Backend, Message, operator, Receipt}
use dex_server.Backend.Monad.{Action, pure, throw, ignoring_error, ◌>>=◌, ◌>>◌}
use dex_server.Daos.Trades.{trade_find_and_modify}

-- A nil pointer to a trade, which is what a failed update leaves among the trades.
abbrev pub absent : Trade
absent = record {
  id = 0;
  taker = 0;
  maker = 0;
  base_token = 0;
  quote_token = 0;
  maker_order_hash = 0;
  taker_order_hash = 0;
  hash = 0;
  side = "";
  signature = none;
  tx_hash = 0;
  pair_name = "";
  created_at = 0;
  updated_at = 0;
  pricepoint = pos 0;
  has_pricepoint = false;
  status = TradeStatus.other "";
  amount = pos 0;
  has_amount = false;
}

abbrev pub message : OperatorMessageType → Matches → String → Message
message kind m error_type =
    operator (record { message_type = kind; matches = m; error_type = error_type })

-- What follows a call that returned an error, and a call that did not.
abbrev pub on_outcome :
    {D A B : Type 0} → Result A → (Error → Action D B) → (A → Action D B) → Action D B
on_outcome (ok a) failed done d = done a d
on_outcome (err x) failed done d = failed x d

-- The branch on `err != nil` after a call.
abbrev pub on_result :
    {D A B : Type 0} → Action D A → (Error → Action D B) → (A → Action D B) → Action D B
on_result m failed done d = on_outcome (m d).0 failed done (m d).1

module _ {D : Type 0} (b : Backend D) where
  unfoldable pub update_pending_trade : Trade → ℕ → Action D Trade
  update_pending_trade t tx =
      trade_find_and_modify b t.hash (record t { status = pending; tx_hash = tx })

  -- The errors of the three messages are logged only.
  unfoldable pub handle_trade_invalid : Matches → Action D (Unit {0})
  handle_trade_invalid m = ignoring_error (b.publish (message trade_invalid m ""))

  -- `PublishTxErrorMessage` sends the same type of message as `PublishErrorMessage`.
  unfoldable pub handle_tx_error : Matches → Action D (Unit {0})
  handle_tx_error m = ignoring_error (b.publish (message trade_error m "Transaction error"))

  unfoldable pub handle_error : Matches → Action D (Unit {0})
  handle_error m = ignoring_error (b.publish (message trade_error m "Server error"))

  unfoldable pub handle_tx_success : Matches → Action D (Unit {0})
  handle_tx_success m = b.publish (message trade_tx_success m "")

  unfoldable pub update_pending : List Trade → ℕ → D → List Trade × D
  update_pending [] tx d = ([], d)
  update_pending (t ∷ ts) tx d =
      let (r, e) = update_pending_trade t tx d in
      let (rest, e') = update_pending ts tx e in (elim r [ ok t' ↦ t' | err x ↦ absent ] ∷ rest, e')

  -- From the transaction's receipt on.
  unfoldable pub conclude_trade : Matches → Receipt → Action D (Unit {0})
  unfolding handle_tx_error handle_tx_success
  conclude_trade m receipt =
      if receipt.status == 0 && receipt.post_state_length == 0
      then (handle_tx_error m >> throw reverted_transaction)
      else handle_tx_success m

  -- From the message that the transaction is pending on.
  unfoldable pub await_trade : Matches → ℕ → Action D (Unit {0})
  unfolding conclude_trade
  await_trade m tx =
      on_result (b.publish (message trade_tx_pending m "")) (λ x. throw could_not_update)
        λ u. on_result (b.wait_mined tx) throw (conclude_trade m)

  -- From the transaction's hash on.
  unfoldable pub track_trade : Matches → ℕ → Action D (Unit {0})
  unfolding update_pending await_trade
  track_trade m tx d =
      let (updated, e) = update_pending m.trades tx d in
      await_trade (record m { trades = updated }) tx e

  -- From the account's nonce on.
  unfoldable pub send_trade : ℕ → Matches → ℕ → ℕ → Action D (Unit {0})
  unfolding track_trade handle_error
  send_trade wallet m gas nonce =
      on_result (b.execute_batch_trades m wallet gas nonce) (λ x. handle_error m >> throw x)
        (track_trade m)

  -- From the estimate of the gas on.
  unfoldable pub sign_trade : ℕ → Matches → ℕ → Action D (Unit {0})
  unfolding send_trade handle_trade_invalid handle_error
  sign_trade wallet m gas =
      if ltb gas 140000
      then (handle_trade_invalid m >> throw invalid_trade)
      else on_result (b.pending_nonce_at wallet) (λ x. handle_error m >> throw x)
          (send_trade wallet m gas)

  -- `ExecuteTrade` of the queue with the given wallet.
  unfoldable pub execute_trade : ℕ → Matches → Action D (Unit {0})
  unfolding sign_trade handle_trade_invalid
  execute_trade wallet m =
      on_result (b.call_batch_trades m wallet) (λ x. handle_trade_invalid m >> throw x)
        (sign_trade wallet m)
