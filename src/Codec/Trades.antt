-- ===== src/Codec/Trades.antt =====
-- types/trade.go: the JSON form of a trade.
pub mod RoundTrip
use Prim.Native.String.{String}
use text.Mathlib.Text.{◌==◌ as str_eq}
use dex_server.Prelude.{ℕ, ◌==◌, Bool, true, false, not, if◌then◌else◌, none}
use dex_server.Prelude.Int.{ℤ, pos}
use dex_server.Domain.Errors.{
  Result, ok, err, ◌>>=◌, runtime_panic, maker_order_hash_required, hash_required,
  quote_token_required, base_token_required, maker_required, taker_required,
}
use dex_server.Domain.Trade.{Trade, TradeStatus, pending, success, cancelled}
use dex_server.Codec.{
  Json, members_of, null, string, number, object, Members, nil, member, add_if, at, as_text,
  as_object, Texts,
}
use dex_server.Codec.Orders.{print_given, text_field}

abbrev pub trade_status_text : TradeStatus → String
trade_status_text pending = "PENDING"
trade_status_text success = "SUCCESS"
trade_status_text cancelled = "CANCELLED"
trade_status_text TradeStatus.error = "ERROR"
trade_status_text (TradeStatus.other s) = s

abbrev pub trade_status_of : String → TradeStatus
trade_status_of s =
    if str_eq s "PENDING"
    then pending
    else if str_eq s "SUCCESS"
    then success
    else if str_eq s "CANCELLED"
    then cancelled
    else if str_eq s "ERROR"
    then TradeStatus.error
    else TradeStatus.other s

-- `&Trade{}`
abbrev pub zero_trade : Trade
zero_trade = record {
  id = 0;
  taker = 0;
  maker = 0;
  base_token = 0;
  quote_token = 0;
  maker_order_hash = 0;
  taker_order_hash = 0;
  hash = 0;
  side = "";
  signature = none;
  tx_hash = 0;
  pair_name = "";
  created_at = 0;
  updated_at = 0;
  pricepoint = pos 0;
  has_pricepoint = false;
  status = TradeStatus.other "";
  amount = pos 0;
  has_amount = false;
}

-- `if m[key] == nil { return error } else { o.Field = read(m[from].(string)) }`
abbrev pub required_field :
    {A : Type 0} → Members → String → String → Result A → (String → A → A) → A → Result A
required_field m key from missing write o = elim (at m key) [
  | null ↦ missing
  | _ ↦ do s ← as_text (at m from); ok (write s o)
]

module _ (t : Texts) where
  -- `Trade.MarshalJSON`
  unfoldable pub marshal_trade : Trade → Json
  marshal_trade x = object (
      add_if (not (x.base_token == 0)) "baseToken" (string (t.address_hex x.base_token)) (
        add_if (not (x.quote_token == 0)) "quoteToken" (string (t.address_hex x.quote_token)) (
          add_if (not (x.tx_hash == 0)) "txHash" (string (t.hash_hex x.tx_hash)) (
            add_if (not (x.taker_order_hash == 0)) "takerOrderHash"
              (string (t.hash_hex x.taker_order_hash))
              (add_if (not (x.maker_order_hash == 0)) "makerOrderHash"
                (string (t.hash_hex x.maker_order_hash))
                (member "taker" (string (t.address_hex x.taker)) (
                  member "maker" (string (t.address_hex x.maker)) (
                    member "status" (string (trade_status_text x.status)) (
                      member "hash" (string (t.hash_hex x.hash)) (
                        member "pairName" (string x.pair_name) (
                          member "pricepoint" (string (print_given t x.has_pricepoint x.pricepoint))
                            (member "amount" (string (print_given t x.has_amount x.amount)) (
                              member "createdAt" (string (t.format_time x.created_at))
                                nil)))))))))))))

  -- `Trade.UnmarshalJSON` into the given trade. It tests the maker and reads the taker, and the
  -- other way round. The price and the amount are printed by `%v`, which leaves a text as it is.
  unfoldable pub unmarshal_trade : Json → Trade → Result Trade
  unmarshal_trade j x = do
    m ← members_of j
    x ←
        required_field m "makerOrderHash" "makerOrderHash" (err maker_order_hash_required)
          (λ s x. record x { maker_order_hash = t.hex_to_hash s }) x
    x ← text_field m "takerOrderHash" (λ s x. record x { taker_order_hash = t.hex_to_hash s }) x
    x ←
        required_field m "hash" "hash" (err hash_required)
          (λ s x. record x { hash = t.hex_to_hash s }) x
    x ←
        required_field m "quoteToken" "quoteToken" (err quote_token_required)
          (λ s x. record x { quote_token = t.hex_to_address s }) x
    x ←
        required_field m "baseToken" "baseToken" (err base_token_required)
          (λ s x. record x { base_token = t.hex_to_address s }) x
    x ←
        required_field m "maker" "taker" (err maker_required)
          (λ s x. record x { taker = t.hex_to_address s }) x
    x ←
        required_field m "taker" "maker" (err taker_required)
          (λ s x. record x { maker = t.hex_to_address s }) x
    x ←
        text_field m "id"
          (λ s x. if t.is_object_id_hex s then record x { id = t.object_id_hex s } else x) x
    x ← text_field m "txHash" (λ s x. record x { tx_hash = t.hex_to_hash s }) x
    x ← text_field m "pairName" (λ s x. record x { pair_name = s }) x
    x ← text_field m "status" (λ s x. record x { status = trade_status_of s }) x
    x ←
        text_field m "pricepoint"
          (λ s x. record x { pricepoint = t.to_big_int s; has_pricepoint = true }) x
    x ← text_field m "amount" (λ s x. record x { amount = t.to_big_int s; has_amount = true }) x
    text_field m "createdAt" (λ s x. record x { created_at = t.parse_time s }) x
