-- ===== src/Daos/Orders/Priority.antt =====
-- daos/order.go: the orders that the matching queries find, and their order.
use dex_server.Prelude.{◌≤◌, ◌≡◌, ◌⊎◌, Bool, true, List, [], ◌∷◌, All, arith}
use dex_server.Prelude.Int.{◌≤ℤ◌, ◌<ℤ◌}
use dex_server.Numbers.{
  is_equal, is_equal_or_greater_than, is_equal_or_smaller_than, is_strictly_greater_than,
  is_strictly_smaller_than,
}
use dex_server.Domain.Errors.{ok}
use dex_server.Domain.Order.{Order, buy, sell}
use dex_server.Backend.{Backend}
use dex_server.Backend.Laws.{IsOrder, Sorted, Contained, OrderLaws, All-map}
use dex_server.Daos.Orders.Queries.{
  is_live, matches_ask, matches_bid, ask_before, bid_before, get_matching_buy_orders,
  get_matching_sell_orders,
}

ask_before-IsOrder : IsOrder ask_before
unfolding is_equal is_strictly_smaller_than
ask_before-IsOrder = record { total = λ x y. ground arith; trans = λ x y z h k. ground arith }

bid_before-IsOrder : IsOrder bid_before
unfolding is_equal is_strictly_greater_than
bid_before-IsOrder = record { total = λ x y. ground arith; trans = λ x y z h k. ground arith }

-- A waiting order of the other side, on the same pair, whose price an order `o` accepts.
abbrev pub Meets : Order → Order → Type 0
Meets o m =
    (is_live m.status ≡ true) × (m.base_token ≡ o.base_token) × (m.quote_token ≡ o.quote_token)

abbrev pub IsAskFor : Order → Order → Type 0
IsAskFor o m = Meets o m × (m.side ≡ sell) × (m.pricepoint ≤ℤ o.pricepoint)

abbrev pub IsBidFor : Order → Order → Type 0
IsBidFor o m = Meets o m × (m.side ≡ buy) × (o.pricepoint ≤ℤ m.pricepoint)

-- `x` is served before `y`: by a better price, or at the same price by age.
abbrev pub AskFirst : Order → Order → Type 0
AskFirst x y =
    (x.pricepoint <ℤ y.pricepoint) ⊎ ((x.pricepoint ≡ y.pricepoint) × (x.created_at ≤ y.created_at))

abbrev pub BidFirst : Order → Order → Type 0
BidFirst x y =
    (y.pricepoint <ℤ x.pricepoint) ⊎ ((x.pricepoint ≡ y.pricepoint) × (x.created_at ≤ y.created_at))

-- The first element of a list comes before all others, and so on.
abbrev pub Ranked : (Order → Order → Type 0) → List Order → Type 0
Ranked R [] = Unit
Ranked R (x ∷ xs) = All (R x) xs × Ranked R xs

matches_ask_lem : (o m : Order) → matches_ask o m ≡ true → IsAskFor o m
unfolding is_equal_or_smaller_than
matches_ask_lem o m h = ground arith

ask_matches : (o m : Order) → IsAskFor o m → matches_ask o m ≡ true
unfolding is_equal_or_smaller_than
ask_matches o m h = ground arith

matches_bid_lem : (o m : Order) → matches_bid o m ≡ true → IsBidFor o m
unfolding is_equal_or_greater_than
matches_bid_lem o m h = ground arith

bid_matches : (o m : Order) → IsBidFor o m → matches_bid o m ≡ true
unfolding is_equal_or_greater_than
bid_matches o m h = ground arith

ask_before_lem : (x y : Order) → ask_before x y ≡ true → AskFirst x y
unfolding is_equal is_strictly_smaller_than
ask_before_lem x y h = ground arith

bid_before_lem : (x y : Order) → bid_before x y ≡ true → BidFirst x y
unfolding is_equal is_strictly_greater_than
bid_before_lem x y h = ground arith

Sorted-Ranked :
    (before : Order → Order → Bool) (R : Order → Order → Type 0) (xs : List Order)
    → ((x y : Order) → before x y ≡ true → R x y)
    → Sorted before xs
    → Ranked R xs
Sorted-Ranked before R [] f s = tt
Sorted-Ranked before R (x ∷ xs) f s =
    (All-map (λ y. before x y ≡ true) (R x) xs (f x) s.0, Sorted-Ranked before R xs f s.1)

module _ {D : Type 0} {b : Backend D} {docs : D → List Order} (laws : OrderLaws b docs) where
  open laws.collection use {aggregate_sound, aggregate_complete, aggregate_sorted}

  -- Let the database keep its laws. If the query for a buy order succeeds, it finds exactly the
  -- stored asks that the order accepts, the cheapest first and the oldest first at one price.
  pub get_matching_sell_orders-Ranked :
      (o : Order) (d : D) {r : List Order} {d' : D}
      → get_matching_sell_orders b o d ≡ (ok r, d')
      → All (λ m. Contained m (docs d) × IsAskFor o m) r
        × All (λ m. IsAskFor o m → Contained m r) (docs d)
        × Ranked AskFirst r
  unfolding get_matching_sell_orders
  get_matching_sell_orders-Ranked o d {r} h = (
    All-map _ (λ m. Contained m (docs d) × IsAskFor o m) r (λ m k. (k.0, matches_ask_lem o m k.1))
        (aggregate_sound (matches_ask o) ask_before d h),
    All-map _ (λ m. IsAskFor o m → Contained m r) (docs d) (λ m k p. k (ask_matches o m p))
        (aggregate_complete (matches_ask o) ask_before d h),
    Sorted-Ranked ask_before AskFirst r ask_before_lem
        (aggregate_sorted (matches_ask o) ask_before d ask_before-IsOrder h),
  )

  -- Let the database keep its laws. If the query for a sell order succeeds, it finds exactly the
  -- stored bids that the order accepts, the highest price first and the oldest first at one price.
  pub get_matching_buy_orders-Ranked :
      (o : Order) (d : D) {r : List Order} {d' : D}
      → get_matching_buy_orders b o d ≡ (ok r, d')
      → All (λ m. Contained m (docs d) × IsBidFor o m) r
        × All (λ m. IsBidFor o m → Contained m r) (docs d)
        × Ranked BidFirst r
  unfolding get_matching_buy_orders
  get_matching_buy_orders-Ranked o d {r} h = (
    All-map _ (λ m. Contained m (docs d) × IsBidFor o m) r (λ m k. (k.0, matches_bid_lem o m k.1))
        (aggregate_sound (matches_bid o) bid_before d h),
    All-map _ (λ m. IsBidFor o m → Contained m r) (docs d) (λ m k p. k (bid_matches o m p))
        (aggregate_complete (matches_bid o) bid_before d h),
    Sorted-Ranked bid_before BidFirst r bid_before_lem
        (aggregate_sorted (matches_bid o) bid_before d bid_before-IsOrder h),
  )
