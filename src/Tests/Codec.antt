-- ===== src/Tests/Codec.antt =====
-- Runs of the theorems on what is written and read again, with numbers written as strokes.
use dex_server.Prelude.{ℕ, ◌*◌, ◌/◌, ◌≡◌, ◌<◌, refl, inl, arith, some, [], ◌∷◌}
use dex_server.Numbers.{is_equal, is_smaller_than, is_equal_or_smaller_than}
use dex_server.Domain.Errors.{Result, ok, err, runtime_panic}
use dex_server.Domain.Order.{Order, Signature}
use dex_server.Domain.Order.Validation.{
  process, hashed, validate, verify_signature as order_verify_signature, recover,
}
use dex_server.Domain.OrderCancel.{OrderCancel}
use dex_server.Domain.Pair.{name}
use dex_server.Backend.Memory.{memory}
use dex_server.Codec.Orders.{zero_order, marshal_order, unmarshal_order}
use dex_server.Codec.Orders.RoundTrip.{unmarshal_order-marshal_order}
use dex_server.Codec.Trades.{zero_trade, marshal_trade, unmarshal_trade}
use dex_server.Codec.Trades.RoundTrip.{unmarshal_trade-marshal_trade}
use dex_server.Codec.Documents.{
  set_order_bson, stored_order, stored_trade, get_order_bson, set_trade_bson, get_trade_bson,
}
use dex_server.Codec.Documents.RoundTrip.{
  set_order_bson-get_order_bson, set_trade_bson-get_trade_bson,
}
use dex_server.Engine.OrderBook.{new_order_on_book}
use dex_server.Engine.Dispatch.{handle_orders, new_engine}
use dex_server.Engine.Transport.{received, new_order_message}
use dex_server.Engine.Delivery.{handle_orders-validate}
use dex_server.Domain.Matches.{Matches}
use dex_server.Codec.{Json}
use dex_server.Tests.Samples.{bid, ask, trade, pair, market, mix, crypto, value_or}
use dex_server.Tests.Texts.{texts, texts-TextLaws}

signature_byte : (s : Signature) → ask.signature ≡ some s → s.v < 256
signature_byte s h = ground arith

unmarshal_order-marshal_order_example :
    unmarshal_order texts (marshal_order texts ask) zero_order
    ≡ ok (record ask { id = 0; updated_at = 0 })
unmarshal_order-marshal_order_example = unmarshal_order-marshal_order texts-TextLaws ask (record {
  status_spelled = refl;
  side_spelled = refl;
  complete = (refl, refl, refl, refl, refl);
  unfilled = λ h. cc;
  byte = signature_byte;
})

unmarshal_trade-marshal_trade_example :
    unmarshal_trade texts (marshal_trade texts trade) zero_trade
    ≡ ok (record trade { id = 0; updated_at = 0 })
unmarshal_trade-marshal_trade_example = unmarshal_trade-marshal_trade texts-TextLaws trade (record {
  has_maker_hash = λ h. omega (arith, h);
  has_taker_hash = λ h. omega (arith, h);
  has_base = λ h. omega (arith, h);
  has_quote = λ h. omega (arith, h);
  status_spelled = refl;
  priced = refl;
  counted = refl;
  no_side = refl;
  unsigned = refl;
})

-- Times are in nanoseconds.
abbrev milliseconds : ℕ → ℕ
milliseconds n = n / 1000000 * 1000000

set_order_bson-get_order_bson_example :
    set_order_bson texts (stored_order milliseconds (get_order_bson texts 7 ask)) zero_order
    ≡ record ask { id = 7; created_at = milliseconds ask.created_at }
set_order_bson-get_order_bson_example =
    set_order_bson-get_order_bson texts-TextLaws milliseconds ask 7 (record {
      status_spelled = refl;
      side_spelled = refl;
      nonce = refl;
      make_fee = refl;
      take_fee = refl;
      amount = refl;
      pricepoint = refl;
    })

set_trade_bson-get_trade_bson_example :
    set_trade_bson texts (stored_trade milliseconds (get_trade_bson texts trade)) zero_trade ≡ trade
set_trade_bson-get_trade_bson_example =
    set_trade_bson-get_trade_bson texts-TextLaws milliseconds trade zero_trade refl refl refl

abbrev request : OrderCancel
request = record { order_hash = 20; hash = 8; signature = some (record { v = 28; r = 3; s = 4 }) }

abbrev accepted : Order
accepted = value_or bid (process 100 pair (hashed crypto bid))

abbrev no_matches : Json → Result Matches
no_matches j = err runtime_panic

handle_orders-validate_example :
    handle_orders memory mix texts.address_hex
      (new_engine texts.address_hex (pair ∷ []))
      (received texts no_matches (new_order_message texts accepted))
      market
    ≡ new_order_on_book memory mix (record accepted { id = 0; updated_at = 0 }) market
unfolding process name hashed is_equal validate is_smaller_than is_equal_or_smaller_than
    order_verify_signature recover
handle_orders-validate_example =
    handle_orders-validate memory mix texts.address_hex texts-TextLaws no_matches crypto 9 100 pair
      (pair ∷ []) bid accepted market refl refl (inl refl) refl refl refl refl signature_byte
