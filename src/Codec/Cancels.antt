-- ===== src/Codec/Cancels.antt =====
-- types/order_cancel.go: the JSON form of a request to cancel an order.
use dex_server.Prelude.{◌≡◌, ◌<◌, none, some}
use dex_server.Prelude.Int.{pos}
use dex_server.Domain.Errors.{
  Result, ok, err, ◌>>=◌, runtime_panic, order_hash_required, hash_required,
}
use dex_server.Domain.Order.{Signature}
use dex_server.Domain.OrderCancel.{OrderCancel}
use dex_server.Codec.{
  Json, members_of, string, number, object, nil, member, at, as_text, as_number, as_object, Texts,
  TextLaws,
}
use dex_server.Codec.Trades.{required_field}

module _ (t : Texts) where
  -- `OrderCancel.MarshalJSON` panics on a nil signature.
  unfoldable pub marshal_order_cancel : OrderCancel → Result Json
  marshal_order_cancel oc = elim oc.signature [
    | none ↦ err runtime_panic
    | some s ↦ ok (
        object (
          member "orderHash" (string (t.hash_hex oc.order_hash)) (
            member "hash" (string (t.hash_hex oc.hash)) (
              member "signature"
                (object (
                  member "v" (number (pos s.v)) (
                    member "r" (string (t.hash_hex s.r))
                      (member "s" (string (t.hash_hex s.s)) nil))))
                nil))))
  ]

  -- `OrderCancel.UnmarshalJSON` into the given request. A missing signature is a panic.
  unfoldable pub unmarshal_order_cancel : Json → OrderCancel → Result OrderCancel
  unmarshal_order_cancel j oc = do
    m ← members_of j
    oc ←
        required_field m "orderHash" "orderHash" (err order_hash_required)
          (λ s oc. record oc { order_hash = t.hex_to_hash s }) oc
    oc ←
        required_field m "hash" "hash" (err hash_required)
          (λ s oc. record oc { hash = t.hex_to_hash s }) oc
    sig ← as_object (at m "signature")
    n ← as_number (at sig "v")
    r ← as_text (at sig "r")
    s ← as_text (at sig "s")
    ok (record oc {
      signature = some (record { v = t.to_byte n; r = t.hex_to_hash r; s = t.hex_to_hash s });
    })

module _ {t : Texts} (l : TextLaws t) where
  -- A request whose signature is set and starts with a byte is read from JSON as it was written.
  unmarshal_order_cancel-marshal_order_cancel :
      (oc old : OrderCancel) (s : Signature)
      → oc.signature ≡ some s
      → s.v < 256
      → (marshal_order_cancel t oc >>= λ j. unmarshal_order_cancel t j old) ≡ ok oc
  unfolding marshal_order_cancel unmarshal_order_cancel
  unmarshal_order_cancel-marshal_order_cancel oc old s e v =
      rw e (simp (l.hash_read, l.byte_read s.v v))
