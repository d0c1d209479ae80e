-- ===== src/Tests/Service.antt =====
-- Runs of the theorems on order submission, the engine's messages and the operator.
use Prim.Native.String.{String}
use dex_server.Prelude.{ℕ, ◌≡◌, ◌↔◌, refl, List, [], ◌∷◌, ◌++◌, ◌⊎◌, map, none}
use dex_server.Prelude.Int.{◌*ℤ◌, ◌+ℤ◌, ◌-ℤ◌}
use dex_server.Numbers.{
  add, sub, mul, div, exp, max, is_equal, is_smaller_than, is_strictly_smaller_than,
  is_equal_or_smaller_than,
}
use dex_server.Domain.Errors.{Error, ok, err, order_not_found, cannot_cancel}
use dex_server.Domain.Order.{
  Order, quote_amount, encoded_side, total_required_sell_amount, sell_token, remaining_sell_amount,
}
use dex_server.Domain.Order.Validation.{
  IsAcceptable, validate, verify_signature, recover, validate-IsAcceptable, process, hashed,
  compute_hash, marshal_signature,
}
use dex_server.Domain.Pair.{name, pair_multiplier, min_quote_amount}
use dex_server.Domain.Trade.{Trade}
use dex_server.Domain.Matches.{Matches}
use dex_server.Backend.{Notification, order_message, trade_update, matches, cancel_order}
use dex_server.Backend.Laws.{Contained}
use dex_server.Backend.Memory.{memory-OrderLaws, Memory, memory}
use dex_server.Daos.Orders.Queries.{get_by_hash, get_user_locked_balance, total_locked}
use dex_server.Services.Validator.{
  validate_available_balance, validate_balance, retry, get_by_token_address, funds,
}
use dex_server.Services.Validator.Checks.{check_available, check_balance}
use dex_server.Services.Orders.{submit_order, submit_found, submit, trade_pair, request_cancel}
use dex_server.Services.Orders.Responses.{no_match, split_matches}
use dex_server.Services.Orders.Submission.{
  IsSubmitted, IsFinal, submit_order-IsSubmitted, request_cancel_cases,
}
use dex_server.Services.Orders.Splitting.{Parted, split_matches-Parted}
use dex_server.Services.Orders.Settlement.{in_error, fail_matches}
use dex_server.Services.Orders.Settlement.Messages.{to_makers, NoteLaws, fail_matches-notes}
use dex_server.Ws.Sockets.{Server, new_socket}
use dex_server.Tests.Samples.{value_or, bid, ask, market, crypto, trade, batch}

submit_order-IsSubmitted_example :
    IsSubmitted memory crypto 9 bid market (submit_order memory crypto 9 bid market).1
unfolding submit_order submit_found submit validate is_smaller_than is_equal_or_smaller_than
    verify_signature recover hashed get_by_token_address quote_amount div mul pair_multiplier
    min_quote_amount process compute_hash marshal_signature encoded_side name exp is_equal max ◌*ℤ◌
    ◌+ℤ◌ ◌-ℤ◌ funds validate_available_balance retry get_user_locked_balance check_available
    is_strictly_smaller_than total_required_sell_amount sub total_locked sell_token add
    remaining_sell_amount
submit_order-IsSubmitted_example = submit_order-IsSubmitted memory crypto 9 bid market refl

validate-IsAcceptable_example : (validate crypto 9 bid ≡ ok tt) ↔ IsAcceptable crypto 9 bid
validate-IsAcceptable_example = validate-IsAcceptable crypto 9 bid

abbrev stored : Memory → List Order
stored d = d.orders

request_cancel_cases_example :
    let (found, d₁) = get_by_hash memory 20 market in
    ((x : Error) × (found ≡ err x) × (request_cancel memory 20 market ≡ (err x, d₁)))
    ⊎ ((found ≡ ok none) × (request_cancel memory 20 market ≡ (err order_not_found, d₁)))
    ⊎ ((o : Order) × Contained o (stored market)
        × (o.hash ≡ 20)
        × ((IsFinal o.status × (request_cancel memory 20 market ≡ (err cannot_cancel, d₁)))
            ⊎ ((¬ IsFinal o.status)
                × (request_cancel memory 20 market ≡ memory.publish (cancel_order o) d₁))))
request_cancel_cases_example =
    request_cancel_cases memory stored memory-OrderLaws.collection 20 market

abbrev halves : Matches × Matches × List Order
halves =
    value_or (no_match bid, no_match bid, [])
      (split_matches memory 9 (no_match bid) (no_match bid) (bid ∷ []) (ask ∷ []) (trade ∷ [])
        market).0

split_matches-Parted_example :
    (kos : List Order) × (kts : List Trade) × (dos : List Order) × (dts : List Trade) × (read : List
      Order)
    × (rest : List Order) × (ask ∷ [] ≡ read ++ rest)
    × Parted memory 9 market market read (trade ∷ []) kos kts dos dts
    × (halves.0.maker_orders ≡ [] ++ kos)
    × (halves.0.trades ≡ [] ++ kts)
    × (halves.1.maker_orders ≡ [] ++ dos)
    × (halves.1.trades ≡ [] ++ dts)
    × (halves.2 ≡ (bid ∷ []) ++ kos)
unfolding split_matches validate_balance retry check_balance is_strictly_smaller_than
    total_required_sell_amount
split_matches-Parted_example =
    split_matches-Parted memory 9 (no_match bid) (no_match bid) (bid ∷ []) (ask ∷ []) (trade ∷ [])
      market refl

abbrev notes : Memory → List Notification
notes d = d.notified

memory-NoteLaws : NoteLaws memory notes
memory-NoteLaws = record { notify_adds = λ n d. refl; update_keeps = λ q f d. refl }

fail_matches-notes_example :
    let failed = map in_error (trade ∷ []) in
    let told = order_message "ORDER_ERROR" 5 (matches (record batch { trades = failed })) in
    ((fail_matches memory batch market).0 ≡ ok tt)
    × (notes (fail_matches memory batch market).1
        ≡ told
          ∷ (to_makers memory notes memory-NoteLaws (ask ∷ []) ++ trade_update 1 2 failed ∷ []))
unfolding trade_pair
fail_matches-notes_example =
    fail_matches-notes memory notes memory-NoteLaws (ask ∷ []) bid trade [] market refl

abbrev spelled : ℕ → String
spelled n = "0x"

abbrev lower : String → String
lower s = s

abbrev idle : Server
idle = record { socket = new_socket; unsubscribe_handlers = λ c. [] }
