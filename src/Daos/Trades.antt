-- ===== src/Daos/Trades.antt =====
-- daos/trade.go: the trades collection, and the update document of types/trade.go.
use dex_server.Prelude.{
  suc, ℕ, Bool, true, ◌&&◌, ◌||◌, Option, none, some, List, [], ◌∷◌, ◌++◌, map, ◌==◌, if◌then◌else◌,
  contains, length, replicate,
}
use dex_server.Domain.Errors.{runtime_panic}
use dex_server.Domain.Trade.{Trade, TradeStatus}
use dex_server.Backend.{Backend}
use dex_server.Backend.Monad.{Action, pure, throw, ◌>>=◌, ◌>>◌}
use dex_server.Daos.Orders.Updates.{nil_on_error}

abbrev pub trade_has_hash : ℕ → Trade → Bool
trade_has_hash h t = t.hash == h

abbrev pub trade_hash_in : List ℕ → Trade → Bool
trade_hash_in hs t = contains t.hash hs

abbrev pub maker_hash_in : List ℕ → Trade → Bool
maker_hash_in hs t = contains t.maker_order_hash hs

abbrev pub set_trade_status : TradeStatus → ℕ → Trade → Trade
set_trade_status status now t = record t { updated_at = now; status = status }

-- The `$set` of `TradeBSONUpdate`.
unfoldable pub set_trade : Trade → Trade → Trade
set_trade t old = record old {
  taker = t.taker;
  maker = t.maker;
  base_token = t.base_token;
  quote_token = t.quote_token;
  maker_order_hash = t.maker_order_hash;
  taker_order_hash = t.taker_order_hash;
  tx_hash = t.tx_hash;
  pair_name = t.pair_name;
  status = t.status;
  pricepoint = if t.has_pricepoint then t.pricepoint else old.pricepoint;
  amount = if t.has_amount then t.amount else old.amount;
}

-- The trades as the loop of `Create` leaves them, from the given position on.
unfoldable pub stamped : (ℕ → ℕ) → ℕ → ℕ → List Trade → List Trade
stamped ids now i [] = []
stamped ids now i (t ∷ ts) =
    record t { id = ids i; created_at = now; updated_at = now } ∷ stamped ids now (suc i) ts

-- The slice that `Create` passes on: `make` with the number of trades as its length, and then one
-- `append` for each trade.
unfoldable pub to_insert : List Trade → List (Option Trade)
to_insert ts = replicate (length ts) none ++ map some ts

module _ {D : Type 0} (b : Backend D) where
  -- `TradeDao.Create`, with the trades as they are then.
  unfoldable pub create_trades : List Trade → Action D (List Trade)
  unfolding stamped to_insert
  create_trades ts d =
      let created = stamped (b.new_object_ids d) (b.now d) 0 ts in
      (do b.trades.insert (to_insert created); pure created) d

  unfoldable pub trade_find_and_modify : ℕ → Trade → Action D Trade
  trade_find_and_modify h t d =
      b.trades.find_and_modify (trade_has_hash h) (set_trade t)
        (record t { id = b.new_object_id d; created_at = b.now d; updated_at = 0 }) d

  unfoldable pub trade_update_by_hash : ℕ → Trade → Action D (Unit {0})
  trade_update_by_hash h t d =
      b.trades.update (trade_has_hash h)
        (λ old. record old {
          pricepoint = t.pricepoint;
          amount = t.amount;
          tx_hash = t.tx_hash;
          taker_order_hash = t.taker_order_hash;
          maker_order_hash = t.maker_order_hash;
          updated_at = b.now d;
        })
        d

  unfoldable pub trade_get_by_hash : ℕ → Action D Trade
  trade_get_by_hash h = do
    res ← b.trades.get (trade_has_hash h) 0
    elim res [ [] ↦ throw runtime_panic | t ∷ ts ↦ pure t ]

  unfoldable pub get_by_maker_order_hash : ℕ → Action D (List Trade)
  get_by_maker_order_hash h = b.trades.get (λ t. t.maker_order_hash == h) 0

  unfoldable pub get_by_taker_order_hash : ℕ → Action D (List Trade)
  get_by_taker_order_hash h = b.trades.get (λ t. t.taker_order_hash == h) 0

  unfoldable pub get_by_order_hashes : List ℕ → Action D (List Trade)
  get_by_order_hashes hs = b.trades.get (maker_hash_in hs) 0

  unfoldable pub update_trade_status : ℕ → TradeStatus → Action D (Unit {0})
  update_trade_status h status =
      b.trades.update (trade_has_hash h) (λ t. record t { status = status })

  -- Errors of the two calls are logged, and the result is then nil with no error.
  unfoldable pub update_trade_statuses : TradeStatus → List ℕ → Action D (List Trade)
  update_trade_statuses status hs d = nil_on_error (
      (b.trades.update_all (trade_hash_in hs) (set_trade_status status (b.now d))
          >> b.trades.get (trade_hash_in hs) 0)
        d)

  -- Whatever the hashes are, they are compared with the hashes of the maker orders.
  unfoldable pub update_trade_statuses_by_order_hashes :
      TradeStatus → List ℕ → Action D (List Trade)
  update_trade_statuses_by_order_hashes status hs d = nil_on_error (
      (b.trades.update_all (maker_hash_in hs) (set_trade_status status (b.now d))
          >> b.trades.get (maker_hash_in hs) 0)
        d)

  unfoldable pub get_all_trades : Action D (List Trade)
  get_all_trades = b.trades.get (λ t. true) 0

  unfoldable pub get_trades_by_pair_address : ℕ → ℕ → ℕ → Action D (List Trade)
  get_trades_by_pair_address base quote n =
      b.trades.get (λ t. t.base_token == base && t.quote_token == quote) n

  unfoldable pub get_n_trades_by_pair_address : ℕ → ℕ → ℕ → Action D (List Trade)
  unfolding get_trades_by_pair_address
  get_n_trades_by_pair_address base quote n = get_trades_by_pair_address base quote n

  unfoldable pub get_all_trades_by_pair_address : ℕ → ℕ → Action D (List Trade)
  unfolding get_trades_by_pair_address
  get_all_trades_by_pair_address base quote = get_trades_by_pair_address base quote 0

  unfoldable pub get_trades_by_user_address : ℕ → Action D (List Trade)
  get_trades_by_user_address a = b.trades.get (λ t. t.maker == a || t.taker == a) 0
