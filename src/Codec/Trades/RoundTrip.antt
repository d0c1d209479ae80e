-- ===== src/Codec/Trades/RoundTrip.antt =====
-- types/trade.go: trades that are written to JSON and read again.
use dex_server.Prelude.{ℕ, ◌==◌, ◌≡◌, ◌≢◌, true, false, not, none, Bool-cases, inl, inr, arith}
use dex_server.Domain.Errors.{ok}
use dex_server.Domain.Trade.{Trade}
use dex_server.Codec.{Texts, TextLaws}
use dex_server.Codec.Trades.{
  trade_status_text, trade_status_of, zero_trade, marshal_trade, unmarshal_trade,
}

-- A trade between two orders, in two tokens, whose status is not spelled as another one. The fields
-- that only a signed trade has are empty.
pub record IsWritable (x : Trade) : Type 0 where
  pub has_maker_hash : x.maker_order_hash ≢ 0
  pub has_taker_hash : x.taker_order_hash ≢ 0
  pub has_base : x.base_token ≢ 0
  pub has_quote : x.quote_token ≢ 0
  pub status_spelled : trade_status_of (trade_status_text x.status) ≡ x.status
  pub priced : x.has_pricepoint ≡ true
  pub counted : x.has_amount ≡ true
  pub no_side : x.side ≡ ""
  pub unsigned : x.signature ≡ none

tested : (n : ℕ) → n ≢ 0 → not (n == 0) ≡ true
tested n h = ground arith

zero_tested : (n : ℕ) → not (n == 0) ≡ false → n ≡ 0
zero_tested n h = ground arith

module _ {t : Texts} (l : TextLaws t) where
  -- A trade with a price and an amount between two orders in two tokens, whose status is spelled
  -- in one way and which has no side and no signature, is read from JSON as it was written, but
  -- for its identifier and the time of its update, which are not written.
  pub unmarshal_trade-marshal_trade :
      (x : Trade)
      → IsWritable x
      → unmarshal_trade t (marshal_trade t x) zero_trade ≡ ok (record x { id = 0; updated_at = 0 })
  unfolding marshal_trade unmarshal_trade
  unmarshal_trade-marshal_trade x w =
      let m = tested x.maker_order_hash w.has_maker_hash in
      let k = tested x.taker_order_hash w.has_taker_hash in
      let b = tested x.base_token w.has_base in
      let q = tested x.quote_token w.has_quote in
      elim (Bool-cases (not (x.tx_hash == 0))) [
        | inl e ↦
            rw (m, k, b, q, e, w.priced, w.counted, w.no_side, w.unsigned)
              (simp (l.int_read, l.address_read, l.hash_read, l.time_read, w.status_spelled))
        | inr e ↦
            rw (m, k, b, q, e, zero_tested x.tx_hash e, w.priced, w.counted, w.no_side, w.unsigned)
              (simp (l.int_read, l.address_read, l.hash_read, l.time_read, w.status_spelled))
      ]
