-- ===== src/Codec/Documents/RoundTrip.antt =====
-- types/order.go and types/trade.go: what is read of a record of the database that was written.
use dex_server.Prelude.{
  ℕ, ◌==◌, ◌≡◌, if◌then◌else◌, true, Bool-cases, Option-cases, inl, inr, arith,
}
use dex_server.Domain.Order.{Order}
use dex_server.Domain.Trade.{Trade}
use dex_server.Codec.{Texts, TextLaws}
use dex_server.Codec.Orders.{status_text, status_of, side_text, side_of, zero_order}
use dex_server.Codec.Trades.{trade_status_text, trade_status_of}
use dex_server.Codec.Documents.{
  stored_order, stored_trade, get_record, get_order_bson, set_order_bson, get_trade_bson,
  set_trade_bson,
}

-- An order with all its numbers set, but perhaps the filled amount, whose texts are the ones that
-- the model reads them as.
pub record IsStorable (o : Order) : Type 0 where
  pub status_spelled : status_of (status_text o.status) ≡ o.status
  pub side_spelled : side_of (side_text o.side) ≡ o.side
  pub nonce : o.given.nonce ≡ true
  pub make_fee : o.given.make_fee ≡ true
  pub take_fee : o.given.take_fee ≡ true
  pub amount : o.given.amount ≡ true
  pub pricepoint : o.given.pricepoint ≡ true

given_lem :
    (o : Order)
    → IsStorable o
    → o.given
      ≡ record { nonce = true; make_fee = true; take_fee = true; amount = true; pricepoint = true }
given_lem o w = ground (arith, w.nonce, w.make_fee, w.take_fee, w.amount, w.pricepoint)

module _ {t : Texts} (l : TextLaws t) (bson_time : ℕ → ℕ) where
  -- Let the database give back the times that it stores as `bson_time` of them. An order with all
  -- its numbers set but perhaps the filled amount, whose texts are spelled in one way, is read as
  -- it was written, but for its two times. One that had no identifier has the one that it was
  -- given, and one that had no filled amount has what the empty text reads as.
  pub set_order_bson-get_order_bson :
      (o : Order) (object_id : ℕ)
      → IsStorable o
      → set_order_bson t (stored_order bson_time (get_order_bson t object_id o)) zero_order
        ≡ record o {
          created_at = bson_time o.created_at;
          updated_at = bson_time o.updated_at;
          id = if o.id == 0 then object_id else o.id;
          filled_amount = if o.has_filled_amount then o.filled_amount else t.to_big_int "";
          has_filled_amount = true;
        }
  unfolding set_order_bson get_order_bson get_record
  set_order_bson-get_order_bson o object_id w =
      let g = given_lem o w in
      elim (Option-cases o.signature) [
        | inl s ↦ elim (Bool-cases o.has_filled_amount) [
          | inl f ↦
              rw (g, f, s)
                (simp (
                  l.int_read, l.int_printed, l.address_read, l.hash_read, w.status_spelled,
                  w.side_spelled,
                ))
          | inr f ↦
              rw (g, f, s)
                (simp (
                  l.int_read, l.int_printed, l.address_read, l.hash_read, w.status_spelled,
                  w.side_spelled,
                ))
        ]
        | inr (x, s) ↦ elim (Bool-cases o.has_filled_amount) [
          | inl f ↦
              rw (g, f, s)
                (simp (
                  l.int_read, l.int_printed, l.address_read, l.hash_read, w.status_spelled,
                  w.side_spelled,
                ))
          | inr f ↦
              rw (g, f, s)
                (simp (
                  l.int_read, l.int_printed, l.address_read, l.hash_read, w.status_spelled,
                  w.side_spelled,
                ))
        ]
      ]

  -- Let the database give back the times that it stores as `bson_time` of them. A trade with a
  -- price and an amount, whose status is spelled in one way, is read as it was written, but for
  -- its two times, and for the side and the signature, which stay what they were in the trade that
  -- is read into.
  pub set_trade_bson-get_trade_bson :
      (x old : Trade)
      → x.has_pricepoint ≡ true
      → x.has_amount ≡ true
      → trade_status_of (trade_status_text x.status) ≡ x.status
      → set_trade_bson t (stored_trade bson_time (get_trade_bson t x)) old ≡ record x {
        side = old.side;
        signature = old.signature;
        created_at = bson_time x.created_at;
        updated_at = bson_time x.updated_at;
      }
  unfolding set_trade_bson get_trade_bson
  set_trade_bson-get_trade_bson x old p a s =
      rw (p, a) (simp (l.int_read, l.address_read, l.hash_read, s))
