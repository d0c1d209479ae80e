-- ===== src/Codec/Orders.antt =====
-- types/order.go: the JSON and BSON forms of an order.
pub mod RoundTrip
use Prim.Native.String.{String}
use text.Mathlib.Text.{◌==◌ as str_eq}
use dex_server.Prelude.{ℕ, Bool, true, false, not, if◌then◌else◌, Option, none, some}
use dex_server.Prelude.Int.{ℤ, pos}
use dex_server.Domain.Errors.{Result, ok, err, ◌>>=◌}
use dex_server.Domain.Order.{
  Order, Given, Signature, Status, unset, open_order, partial_filled, filled, cancelled,
  invalidated, Side, buy, sell,
}
use dex_server.Codec.{
  Json, members_of, null, string, number, object, Members, nil, member, add_if, at, as_text,
  as_number, as_object, Texts,
}

-- The texts of the two fields that the model gives a type.
abbrev pub status_text : Status → String
status_text unset = ""
status_text open_order = "OPEN"
status_text partial_filled = "PARTIAL_FILLED"
status_text filled = "FILLED"
status_text cancelled = "CANCELLED"
status_text invalidated = "INVALIDATED"
status_text Status.error = "ERROR"
status_text (Status.other s) = s

abbrev pub status_of : String → Status
status_of s =
    if str_eq s ""
    then unset
    else if str_eq s "OPEN"
    then open_order
    else if str_eq s "PARTIAL_FILLED"
    then partial_filled
    else if str_eq s "FILLED"
    then filled
    else if str_eq s "CANCELLED"
    then cancelled
    else if str_eq s "INVALIDATED"
    then invalidated
    else if str_eq s "ERROR"
    then Status.error
    else Status.other s

abbrev pub side_text : Side → String
side_text buy = "BUY"
side_text sell = "SELL"
side_text (Side.other s) = s

abbrev pub side_of : String → Side
side_of s = if str_eq s "BUY" then buy else if str_eq s "SELL" then sell else Side.other s

-- `&Order{}`
abbrev pub zero_order : Order
zero_order = record {
  id = 0;
  user_address = 0;
  exchange_address = 0;
  base_token = 0;
  quote_token = 0;
  status = unset;
  side = Side.other "";
  hash = 0;
  signature = none;
  pricepoint = pos 0;
  amount = pos 0;
  filled_amount = pos 0;
  nonce = pos 0;
  make_fee = pos 0;
  take_fee = pos 0;
  given = record {
    nonce = false;
    make_fee = false;
    take_fee = false;
    amount = false;
    pricepoint = false;
  };
  has_filled_amount = false;
  pair_name = "";
  created_at = 0;
  updated_at = 0;
}

-- `if m[key] != nil { o.Field = read(m[key].(string)) }`
abbrev pub text_field : {A : Type 0} → Members → String → (String → A → A) → A → Result A
text_field m key write o = elim (at m key) [ null ↦ ok o | v ↦ do s ← as_text v; ok (write s o) ]

module _ (t : Texts) where
  abbrev signature_members : Signature → Json
  signature_members s = object (
      member "V" (number (pos s.v))
        (member "R" (string (t.hash_hex s.r)) (member "S" (string (t.hash_hex s.s)) nil)))

  abbrev signature_member : Option Signature → Members → Members
  signature_member none m = m
  signature_member (some s) m = member "signature" (signature_members s) m

  -- `Order.MarshalJSON`: a nil number prints as `<nil>`.
  abbrev pub print_given : Bool → ℤ → String
  print_given true z = t.print_int z
  print_given false z = "<nil>"

  unfoldable pub marshal_order : Order → Json
  marshal_order o = object (
      signature_member o.signature (
        add_if o.given.nonce "nonce" (string (t.print_int o.nonce)) (
          add_if o.has_filled_amount "filledAmount" (string (t.print_int o.filled_amount)) (
            member "exchangeAddress" (string (t.address_hex o.exchange_address)) (
              member "userAddress" (string (t.address_hex o.user_address)) (
                member "baseToken" (string (t.address_hex o.base_token)) (
                  member "quoteToken" (string (t.address_hex o.quote_token)) (
                    member "side" (string (side_text o.side)) (
                      member "status" (string (status_text o.status)) (
                        member "pairName" (string o.pair_name) (
                          member "amount" (string (print_given o.given.amount o.amount)) (
                            member "pricepoint"
                              (string (print_given o.given.pricepoint o.pricepoint))
                              (member "makeFee" (string (print_given o.given.make_fee o.make_fee)) (
                                member "takeFee" (string (print_given o.given.take_fee o.take_fee))
                                  (member "createdAt" (string (t.format_time o.created_at))
                                    (member "hash" (string (t.hash_hex o.hash)) nil))))))))))))))))

  abbrev read_signature : Members → Order → Result Order
  read_signature m o = elim (at m "signature") [
    | null ↦ ok o
    | v ↦ do
      s ← as_object v
      n ← as_number (at s "V")
      r ← as_text (at s "R")
      z ← as_text (at s "S")
      ok (record o {
        signature = some (record { v = t.to_byte n; r = t.hex_to_hash r; s = t.hex_to_hash z });
      })
  ]

  -- `Order.UnmarshalJSON` into the given order.
  unfoldable pub unmarshal_order : Json → Order → Result Order
  unmarshal_order j o = do
    m ← members_of j
    o ←
        text_field m "id"
          (λ s o. if t.is_object_id_hex s then record o { id = t.object_id_hex s } else o) o
    o ← text_field m "pairName" (λ s o. record o { pair_name = s }) o
    o ← text_field m "exchangeAddress" (λ s o. record o { exchange_address = t.hex_to_address s }) o
    o ← text_field m "userAddress" (λ s o. record o { user_address = t.hex_to_address s }) o
    o ← text_field m "baseToken" (λ s o. record o { base_token = t.hex_to_address s }) o
    o ← text_field m "quoteToken" (λ s o. record o { quote_token = t.hex_to_address s }) o
    o ←
        text_field m "pricepoint"
          (λ s o. record o {
            pricepoint = t.to_big_int s;
            given = record o.given { pricepoint = true };
          })
          o
    o ←
        text_field m "amount"
          (λ s o. record o { amount = t.to_big_int s; given = record o.given { amount = true } }) o
    o ←
        text_field m "filledAmount"
          (λ s o. record o { filled_amount = t.to_big_int s; has_filled_amount = true }) o
    o ←
        text_field m "nonce"
          (λ s o. record o { nonce = t.to_big_int s; given = record o.given { nonce = true } }) o
    o ←
        text_field m "makeFee"
          (λ s o. record o {
            make_fee = t.to_big_int s;
            given = record o.given { make_fee = true };
          })
          o
    o ←
        text_field m "takeFee"
          (λ s o. record o {
            take_fee = t.to_big_int s;
            given = record o.given { take_fee = true };
          })
          o
    o ← text_field m "hash" (λ s o. record o { hash = t.hex_to_hash s }) o
    o ← text_field m "side" (λ s o. record o { side = side_of s }) o
    o ← text_field m "status" (λ s o. record o { status = status_of s }) o
    o ← read_signature m o
    o ← text_field m "createdAt" (λ s o. record o { created_at = t.parse_time s }) o
    text_field m "updatedAt" (λ s o. record o { updated_at = t.parse_time s }) o
