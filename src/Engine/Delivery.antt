-- ===== src/Engine/Delivery.antt =====
-- services/order.go, types/order.go and engine/engine.go together: an accepted order on its way
-- through the queue to its order book.
use Prim.Native.String.{String}
use text.Mathlib.Text.{◌==◌ as str_eq}
use dex_server.Prelude.{ℕ, ◌<◌, ◌≡◌, refl, true, false, if◌then◌else◌, arith, inl, inr, List, some}
use dex_server.Prelude.Int.{pos}
use dex_server.Domain.Errors.{Result, ok}
use dex_server.Domain.Order.{Order, Signature}
use dex_server.Domain.Order.Validation.{
  Crypto, IsAcceptable, validate, validate-IsAcceptable, hashed, process,
}
use dex_server.Domain.Pair.{Pair, name}
use dex_server.Backend.{Backend}
use dex_server.Backend.Laws.{Contained}
use dex_server.Codec.{Json, Texts, TextLaws}
use dex_server.Codec.Orders.{status_text, status_of}
use dex_server.Codec.Orders.RoundTrip.{IsWritable, unmarshal_order-marshal_order}
use dex_server.Engine.OrderBook.{new_order_on_book, cancel_order_on_book}
use dex_server.Engine.Transport.{received, new_order_message, cancel_order_message}
use dex_server.Domain.Matches.{Matches}
use dex_server.Engine.Dispatch.{
  handle_orders, handle_new_order, handle_cancel_order, new_engine, has_book-code, pair_code, code,
}

-- What processing sets.
abbrev as_processed : ℕ → Pair → Order → Order
as_processed now p o = record o {
  filled_amount = if o.has_filled_amount then o.filled_amount else pos 0;
  has_filled_amount = true;
  pair_name = name p;
  created_at = now;
  updated_at = now;
}

process-as_processed :
    (now : ℕ) (p : Pair) (o o' : Order) → process now p o ≡ ok o' → o' ≡ as_processed now p o
unfolding process
process-as_processed now p o o' h = ground arith

named-pair_code :
    (hex : ℕ → String) (p : Pair) (o : Order)
    → o.pair_name ≡ name p
    → o.base_token ≡ p.base_token_address
    → o.quote_token ≡ p.quote_token_address
    → str_eq (name p) "" ≡ false
    → pair_code hex o ≡ ok (code hex p)
unfolding pair_code code
named-pair_code hex p o called base quote named = rw (called, named, base, quote) refl

-- An acceptable order is writable once it is processed.
as_processed-IsWritable :
    (c : Crypto) (exchange now : ℕ) (p : Pair) (o : Order)
    → IsAcceptable c exchange o
    → status_of (status_text o.status) ≡ o.status
    → ((s : Signature) → o.signature ≡ some s → s.v < 256)
    → IsWritable (as_processed now p (hashed c o))
unfolding hashed
as_processed-IsWritable c exchange now p o a spelled byte = record {
  status_spelled = spelled;
  side_spelled = elim a.sided [ inl e ↦ rw e refl | inr e ↦ rw e refl ];
  complete = a.complete;
  unfilled = λ h. cc;
  byte = byte;
}

module _ {D : Type 0} (b : Backend D) (keccak : ℕ → ℕ → ℕ) (hex : ℕ → String) {t : Texts}
    (l : TextLaws t) (decode_matches : Json → Result Matches) where
  -- Let an order be accepted, its status be spelled in one way, the first number of its signature
  -- be a byte, and let it be processed for a pair with its tokens, which has a name and is among
  -- the engine's. Then the message that publishes the processed order is told apart, decoded and
  -- handled by the pair's order book as a new order: as the processed order, but for its
  -- identifier and the time of its update, which are zero.
  pub handle_orders-validate :
      (c : Crypto) (exchange now : ℕ) (p : Pair) (ps : List Pair) (o o' : Order) (d : D)
      → validate c exchange o ≡ ok tt
      → process now p (hashed c o) ≡ ok o'
      → Contained p ps
      → str_eq (name p) "" ≡ false
      → o.base_token ≡ p.base_token_address
      → o.quote_token ≡ p.quote_token_address
      → status_of (status_text o.status) ≡ o.status
      → ((s : Signature) → o.signature ≡ some s → s.v < 256)
      → handle_orders b keccak hex
          (new_engine hex ps)
          (received t decode_matches (new_order_message t o'))
          d
        ≡ new_order_on_book b keccak (record o' { id = 0; updated_at = 0 }) d
  unfolding handle_orders handle_new_order new_engine hashed received new_order_message
  handle_orders-validate c exchange now p ps o o' d v h k named base quote spelled byte =
      let w =
        as_processed-IsWritable c exchange now p o ((validate-IsAcceptable c exchange o).0 v)
          spelled byte in
      let e = process-as_processed now p (hashed c o) o' h in
      let s =
        named-pair_code hex p (record (as_processed now p (hashed c o)) { id = 0; updated_at = 0 })
          refl base quote named in
      rw (e, unmarshal_order-marshal_order l _ w, s, has_book-code hex p ps k) refl

  -- Let an order be writable, and have the name and the tokens of a pair that has a name and is
  -- among the engine's. Then the message that publishes its cancellation is told apart, decoded
  -- and handled by the pair's order book as the cancellation of the order, but for its identifier
  -- and the time of its update, which are zero.
  handle_orders-cancel_order_message :
      (p : Pair) (ps : List Pair) (o : Order) (d : D)
      → IsWritable o
      → Contained p ps
      → str_eq (name p) "" ≡ false
      → o.pair_name ≡ name p
      → o.base_token ≡ p.base_token_address
      → o.quote_token ≡ p.quote_token_address
      → handle_orders b keccak hex
          (new_engine hex ps)
          (received t decode_matches (cancel_order_message t o))
          d
        ≡ cancel_order_on_book b keccak (record o { id = 0; updated_at = 0 }) d
  unfolding handle_orders handle_cancel_order new_engine received cancel_order_message
  handle_orders-cancel_order_message p ps o d w k named called base quote =
      let s = named-pair_code hex p (record o { id = 0; updated_at = 0 }) called base quote named in
      rw (unmarshal_order-marshal_order l o w, s, has_book-code hex p ps k) refl
