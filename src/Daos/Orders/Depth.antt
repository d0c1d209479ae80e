-- ===== src/Daos/Orders/Depth.antt =====
-- daos/order.go: the order book by price. The pipeline groups and then sorts by price; here the
-- orders are sorted by price and then those of one price, which are neighbours, are summed.
pub mod Amounts
pub mod Levels
use dex_server.Prelude.{
  ℕ, Bool, Option, none, some, List, [], ◌∷◌, ◌&&◌, ◌||◌, ◌==◌, if◌then◌else◌, take,
}
use dex_server.Prelude.Int.{ℤ}
use dex_server.Numbers.{add, sub, is_equal, is_strictly_greater_than, is_strictly_smaller_than}
use dex_server.Domain.Order.{Order, is_buy, is_sell}
use dex_server.Daos.Orders.Queries.{is_live}
use dex_server.Domain.Pair.{Pair}
use dex_server.Backend.{Backend}
use dex_server.Backend.Monad.{Action, pure, ◌>>=◌}

abbrev pub on_pair : Pair → Order → Bool
on_pair p o =
    is_live o.status
    && (o.base_token == p.base_token_address && o.quote_token == p.quote_token_address)

-- `"$sort": {"_id": -1}` and `"$sort": {"_id": 1}`
abbrev pub highest_first : Order → Order → Bool
highest_first x y =
    is_strictly_greater_than x.pricepoint y.pricepoint || is_equal x.pricepoint y.pricepoint

abbrev pub lowest_first : Order → Order → Bool
lowest_first x y =
    is_strictly_smaller_than x.pricepoint y.pricepoint || is_equal x.pricepoint y.pricepoint

-- An amount at a price, in front of the levels of the orders that follow.
abbrev pub add_level : ℤ → ℤ → List (ℤ × ℤ) → List (ℤ × ℤ)
unfolding add is_equal
add_level price amount [] = (price, amount) ∷ []
add_level price amount ((p, a) ∷ levels) =
    if is_equal price p then (p, add amount a) ∷ levels else (price, amount) ∷ (p, a) ∷ levels

-- The price levels of sorted orders, each with the sum of what is left of its orders.
unfoldable pub levels : List Order → List (ℤ × ℤ)
unfolding sub
levels [] = []
levels (o ∷ os) = add_level o.pricepoint (sub o.amount o.filled_amount) (levels os)

-- `$limit`, where one is given.
abbrev pub cut : {A : Type 0} → Option ℕ → List A → List A
cut none xs = xs
cut (some n) xs = take n xs

module _ {D : Type 0} (b : Backend D) where
  -- `GetSideOrderBook` for `BUY`, highest price first.
  unfoldable pub get_bids : Pair → Option ℕ → Action D (List (ℤ × ℤ))
  unfolding levels is_equal is_strictly_greater_than
  get_bids p limit = do
    os ← b.orders.aggregate (λ o. on_pair p o && is_buy o.side) highest_first
    pure (cut limit (levels os))

  -- `GetSideOrderBook` for `SELL`, lowest price first.
  unfoldable pub get_asks : Pair → Option ℕ → Action D (List (ℤ × ℤ))
  unfolding levels is_equal is_strictly_smaller_than
  get_asks p limit = do
    os ← b.orders.aggregate (λ o. on_pair p o && is_sell o.side) lowest_first
    pure (cut limit (levels os))

  -- `OrderDao.GetOrderBook`
  unfoldable pub get_order_book : Pair → Action D (List (ℤ × ℤ) × List (ℤ × ℤ))
  unfolding get_bids get_asks
  get_order_book p = do bids ← get_bids p none; asks ← get_asks p none; pure (bids, asks)
