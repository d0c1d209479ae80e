-- ===== src/Tests/Matching.antt =====
-- Runs of the theorems on the order book and the database queries behind it.
use dex_server.Prelude.{◌≡◌, refl, Bool, false, List, [], ◌∷◌, All, arith, ◌⊎◌, some}
use Prim.Native.Nat.{min}
use dex_server.Prelude.Int.{pos, ◌<ℤ◌}
use dex_server.Numbers.{add, sub, is_zero, is_strictly_greater_than}
use dex_server.Domain.Errors.{Result}
use dex_server.Domain.Order.{Order, remaining_amount, filled, partial_filled}
use dex_server.Domain.Matches.{
  Matches, append_match, EngineResponse, empty_response, order_partially_filled,
}
use dex_server.Backend.Laws.{Contained}
use dex_server.Backend.Memory.{Memory, memory, memory-OrderLaws}
use dex_server.Daos.Orders.Queries.{get_matching_sell_orders, get_matching_buy_orders}
use dex_server.Daos.Orders.Priority.{
  IsAskFor, IsBidFor, AskFirst, BidFirst, Ranked, get_matching_sell_orders-Ranked,
  get_matching_buy_orders-Ranked,
}
use dex_server.Daos.Orders.Updates.{find_and_modify}
use dex_server.Engine.OrderBook.{
  fill_buy, match_loop, settle, execute, save, conclude, filled_by, trade_of, new_order_on_book,
}
use dex_server.Engine.OrderBook.Orders.{Reports, fill_buy-Reports, entering}
use dex_server.Engine.OrderBook.Fills.{
  IsOpen, IsBounded, rest_of, rests, match_loop-allocate, Allocates, settle_lem,
}
use dex_server.Engine.OrderBook.Allocation.{sum}
use dex_server.Engine.OrderBook.Resumed.{fill_buy-resumed}
use dex_server.Engine.OrderBook.Stored.{new_order_on_book-IsSound}
use dex_server.Tests.Samples.{value_or, bid, half_filled_bid, ask, later_ask, market, mix}

abbrev answer : Result EngineResponse × Memory → EngineResponse
answer r = value_or empty_response r.0

abbrev stored : Memory → List Order
stored d = d.orders

abbrev waiting : List Order
waiting = ask ∷ later_ask ∷ []

waiting-IsOpen : All IsOpen waiting
waiting-IsOpen = ((omega arith, omega arith), ((omega arith, omega arith), tt))

market-IsSound : All IsBounded (stored market)
market-IsSound = ground arith

fill_buy-Reports_example :
    Reports memory mix bid waiting (answer (fill_buy memory mix bid waiting market))
unfolding fill_buy match_loop execute settle save conclude find_and_modify is_zero sub trade_of
    is_strictly_greater_than remaining_amount append_match filled_by add
fill_buy-Reports_example =
    fill_buy-Reports memory mix bid ask (later_ask ∷ []) market refl (omega arith) waiting-IsOpen
      refl

get_matching_sell_orders-Ranked_example :
    let r = value_or [] (get_matching_sell_orders memory bid market).0 in
    All (λ m. Contained m (stored market) × IsAskFor bid m) r
    × All (λ m. IsAskFor bid m → Contained m r) (stored market)
    × Ranked AskFirst r
unfolding get_matching_sell_orders
get_matching_sell_orders-Ranked_example =
    get_matching_sell_orders-Ranked {b = memory} {docs = stored} memory-OrderLaws bid market refl

get_matching_buy_orders-Ranked_example :
    let r = value_or [] (get_matching_buy_orders memory ask market).0 in
    All (λ m. Contained m (stored market) × IsBidFor ask m) r
    × All (λ m. IsBidFor ask m → Contained m r) (stored market)
    × Ranked BidFirst r
unfolding get_matching_buy_orders
get_matching_buy_orders-Ranked_example =
    get_matching_buy_orders-Ranked {b = memory} {docs = stored} memory-OrderLaws ask market refl

new_order_on_book-IsSound_example :
    All IsBounded (stored (new_order_on_book memory mix bid market).1)
new_order_on_book-IsSound_example =
    new_order_on_book-IsSound memory mix stored memory-OrderLaws bid market
      (refl, (omega arith, omega arith)) market-IsSound

fill_buy-resumed_example :
    let res = answer (fill_buy memory mix half_filled_bid waiting market) in
    (o' : Order) × (res.status ≡ order_partially_filled)
    × (res.order ≡ some o')
    × (o'.status ≡ partial_filled)
    × (o'.amount ≡ half_filled_bid.amount)
    × (o'.filled_amount
        ≡ add half_filled_bid.filled_amount
            (pos (min (rest_of half_filled_bid) (sum (rests waiting)))))
unfolding fill_buy match_loop execute settle save conclude find_and_modify is_zero sub trade_of
    is_strictly_greater_than remaining_amount append_match filled_by add
fill_buy-resumed_example =
    fill_buy-resumed memory mix half_filled_bid ask (later_ask ∷ []) market (omega arith)
      (omega arith) waiting-IsOpen refl

abbrev looped : Matches × Bool
looped =
    value_or (entering bid, false) (match_loop memory mix (entering bid) (pos 10) waiting market).0

match_loop-allocate_example : Allocates memory mix (entering bid) waiting looped.0 looped.1
unfolding match_loop execute settle save find_and_modify is_zero sub trade_of
    is_strictly_greater_than remaining_amount append_match filled_by add
match_loop-allocate_example =
    match_loop-allocate memory mix (entering bid) (pos 10) waiting market refl
      (omega arith, omega arith) waiting-IsOpen refl

settle_lem_example :
    let (amount, maker') = settle bid ask in
    (amount ≡ pos (min (rest_of bid) (rest_of ask)))
    × (maker'.filled_amount ≡ add ask.filled_amount amount)
    × (maker'.amount ≡ ask.amount)
    × IsBounded maker'
    × ((maker'.status ≡ filled) × (maker'.filled_amount ≡ maker'.amount)
        ⊎ (maker'.status ≡ partial_filled) × (maker'.filled_amount <ℤ maker'.amount))
settle_lem_example = settle_lem bid ask (omega arith, omega arith) (omega arith, omega arith)
