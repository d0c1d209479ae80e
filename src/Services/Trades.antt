-- ===== src/Services/Trades.antt =====
-- services/trade.go: the updates of a trade that the services and the operator use.
use dex_server.Prelude.{ℕ}
use dex_server.Domain.Trade.{Trade, success}
use dex_server.Backend.{Backend}
use dex_server.Backend.Monad.{Action}
use dex_server.Daos.Trades.{trade_find_and_modify, trade_update_by_hash}

module _ {D : Type 0} (b : Backend D) where
  unfoldable pub update_successful_trade : Trade → Action D Trade
  unfolding trade_find_and_modify
  update_successful_trade t = trade_find_and_modify b t.hash (record t { status = success })

  unfoldable pub update_trade_tx_hash : Trade → ℕ → Action D (Unit {0})
  unfolding trade_update_by_hash
  update_trade_tx_hash t tx = trade_update_by_hash b t.hash (record t { tx_hash = tx })
