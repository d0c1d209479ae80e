-- ===== src/Daos/Orders/Queries.antt =====
-- daos/order.go: the methods that read orders.
use dex_server.Prelude.{
  ℕ, Bool, true, false, Option, none, some, List, [], ◌∷◌, ◌==◌, ltb, ◌&&◌, ◌||◌, not,
}
use text.Mathlib.Text.{◌==◌ as str_eq}
use dex_server.Prelude.Int.{ℤ, pos}
use dex_server.Numbers.{
  add, sub, is_equal, is_equal_or_greater_than, is_equal_or_smaller_than, is_strictly_greater_than,
  is_strictly_smaller_than,
}
use dex_server.Domain.Order.{
  Order, Status, Side, buy, sell, is_buy, is_sell, remaining_sell_amount, open_order,
  partial_filled,
}
use dex_server.Domain.Pair.{Pair}
use dex_server.Backend.{Backend}
use dex_server.Backend.Monad.{Action, pure, ◌>>=◌}
use dex_server.Daos.Orders.Updates.{has_hash, has_hash_in}

-- `bson.M{"$in": []string{"OPEN", "PARTIAL_FILLED"}}`
abbrev pub is_live : Status → Bool
is_live open_order = true
is_live partial_filled = true
is_live _ = false

abbrev pub first : {A : Type 0} → List A → Option A
first [] = none
first (x ∷ xs) = some x

-- The first `$match` of the two matching queries.
abbrev pub on_book : Order → Order → Bool
on_book o m = is_live m.status && (m.base_token == o.base_token && m.quote_token == o.quote_token)

-- `"$sort": {"priceDecimal": -1, "createdAt": 1}`
abbrev pub bid_before : Order → Order → Bool
bid_before x y =
    is_strictly_greater_than x.pricepoint y.pricepoint
    || is_equal x.pricepoint y.pricepoint && not (ltb y.created_at x.created_at)

-- `"$sort": {"priceDecimal": 1, "createdAt": 1}`
abbrev pub ask_before : Order → Order → Bool
ask_before x y =
    is_strictly_smaller_than x.pricepoint y.pricepoint
    || is_equal x.pricepoint y.pricepoint && not (ltb y.created_at x.created_at)

-- The two `$match` stages of `GetMatchingBuyOrders`.
abbrev pub matches_bid : Order → Order → Bool
matches_bid o m =
    on_book o m && (is_buy m.side && is_equal_or_greater_than m.pricepoint o.pricepoint)

-- The two `$match` stages of `GetMatchingSellOrders`.
abbrev pub matches_ask : Order → Order → Bool
matches_ask o m =
    on_book o m && (is_sell m.side && is_equal_or_smaller_than m.pricepoint o.pricepoint)

abbrev pub locks : ℕ → ℕ → Order → Bool
locks account token o =
    o.user_address == account
    && (is_live o.status
        && ((o.quote_token == token && is_buy o.side) || (o.base_token == token && is_sell o.side)))

unfoldable pub total_locked : Pair → ℤ → List Order → ℤ
total_locked p total [] = total
total_locked p total (o ∷ os) = total_locked p (add total (remaining_sell_amount o p)) os

abbrev pub same_side : Side → Side → Bool
same_side buy buy = true
same_side sell sell = true
same_side (Side.other s) (Side.other t) = str_eq s t
same_side _ _ = false

-- The `$match` of `GetOrderBookPricePoint`.
abbrev pub at_price_point : ℕ → ℕ → ℤ → Side → Order → Bool
at_price_point base quote price side o =
    is_live o.status
    && (o.base_token == base
        && (o.quote_token == quote && (is_equal o.pricepoint price && same_side o.side side)))

module _ {D : Type 0} (b : Backend D) where
  -- The amount that is left at one price on one side; nil if there is no order.
  unfoldable pub get_order_book_price_point : ℕ → ℕ → ℤ → Side → Action D (Option ℤ)
  get_order_book_price_point base quote price side =
      b.sum_orders (at_price_point base quote price side) (λ o. sub o.amount o.filled_amount)

  unfoldable pub get_by_hash : ℕ → Action D (Option Order)
  get_by_hash h = do res ← b.orders.get (has_hash h) 1; pure (first res)

  unfoldable pub get_by_hashes : List ℕ → Action D (List Order)
  get_by_hashes hs = b.orders.get (has_hash_in hs) 0

  -- The limit is 0 where the caller gives none.
  unfoldable pub get_by_user_address : ℕ → ℕ → Action D (List Order)
  get_by_user_address addr limit = b.orders.get (λ o. o.user_address == addr) limit

  unfoldable pub get_current_by_user_address : ℕ → ℕ → Action D (List Order)
  get_current_by_user_address addr limit =
      b.orders.get (λ o. o.user_address == addr && is_live o.status) limit

  unfoldable pub get_history_by_user_address : ℕ → ℕ → Action D (List Order)
  get_history_by_user_address addr limit =
      b.orders.get (λ o. o.user_address == addr && not (is_live o.status)) limit

  unfoldable pub get_user_locked_balance : ℕ → ℕ → Pair → Action D ℤ
  get_user_locked_balance account token p = do
    orders ← b.orders.get (locks account token) 0
    pure (total_locked p (pos 0) orders)

  unfoldable pub get_raw_order_book : Pair → Action D (List Order)
  get_raw_order_book p =
      b.orders.aggregate
        (λ o.
          is_live o.status
          && (o.base_token == p.base_token_address && o.quote_token == p.quote_token_address))
        (λ x y. is_equal_or_smaller_than x.pricepoint y.pricepoint)

  unfoldable pub get_matching_buy_orders : Order → Action D (List Order)
  get_matching_buy_orders o = b.orders.aggregate (matches_bid o) bid_before

  unfoldable pub get_matching_sell_orders : Order → Action D (List Order)
  get_matching_sell_orders o = b.orders.aggregate (matches_ask o) ask_before
