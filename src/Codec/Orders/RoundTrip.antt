-- ===== src/Codec/Orders/RoundTrip.antt =====
-- types/order.go: orders that are written and read again.
use dex_server.Prelude.{◌<◌, ◌≡◌, true, false, some, arith, Bool-cases, Option-cases, inl, inr}
use dex_server.Prelude.Int.{pos}
use dex_server.Domain.Errors.{ok}
use dex_server.Domain.Order.{Order, Given, Signature}
use dex_server.Codec.{Texts, TextLaws}
use dex_server.Codec.Orders.{
  status_text, status_of, side_text, side_of, zero_order, marshal_order, unmarshal_order,
}

-- An order whose texts are the ones that the model reads them as, with all numbers but the filled
-- amount set, and a signature whose first number is a byte.
pub record IsWritable (o : Order) : Type 0 where
  pub status_spelled : status_of (status_text o.status) ≡ o.status
  pub side_spelled : side_of (side_text o.side) ≡ o.side
  pub complete :
      (o.given.nonce ≡ true)
      × (o.given.make_fee ≡ true)
      × (o.given.take_fee ≡ true)
      × (o.given.amount ≡ true)
      × (o.given.pricepoint ≡ true)
  pub unfilled : o.has_filled_amount ≡ false → o.filled_amount ≡ pos 0
  pub byte : (s : Signature) → o.signature ≡ some s → s.v < 256

abbrev all_given : Given
all_given = record {
  nonce = true;
  make_fee = true;
  take_fee = true;
  amount = true;
  pricepoint = true;
}

given_lem : (o : Order) → IsWritable o → o.given ≡ all_given
given_lem o w = let c = w.complete in ground arith

module _ {t : Texts} (l : TextLaws t) where
  -- An order with all its numbers set but perhaps the filled amount, whose texts are spelled in
  -- one way and whose signature, if any, starts with a byte, is read from JSON as it was written,
  -- but for its identifier and the time of its update, which are not written.
  pub unmarshal_order-marshal_order :
      (o : Order)
      → IsWritable o
      → unmarshal_order t (marshal_order t o) zero_order ≡ ok (record o { id = 0; updated_at = 0 })
  unfolding marshal_order unmarshal_order
  unmarshal_order-marshal_order o w =
      let g = given_lem o w in
      elim (Bool-cases o.has_filled_amount) [
        | inl f ↦ elim (Option-cases o.signature) [
          | inl s ↦
              rw (g, f, s)
                (simp (
                  l.int_read, l.address_read, l.hash_read, l.time_read, w.status_spelled,
                  w.side_spelled,
                ))
          | inr (x, s) ↦
              let v = l.byte_read x.v (w.byte x s) in
              rw (g, f, s)
                (simp (
                  l.int_read, l.address_read, l.hash_read, l.time_read, w.status_spelled,
                  w.side_spelled, v,
                ))
        ]
        | inr f ↦ elim (Option-cases o.signature) [
          | inl s ↦
              rw (g, f, s, w.unfilled f)
                (simp (
                  l.int_read, l.address_read, l.hash_read, l.time_read, w.status_spelled,
                  w.side_spelled,
                ))
          | inr (x, s) ↦
              let v = l.byte_read x.v (w.byte x s) in
              rw (g, f, s, w.unfilled f)
                (simp (
                  l.int_read, l.address_read, l.hash_read, l.time_read, w.status_spelled,
                  w.side_spelled, v,
                ))
        ]
      ]
