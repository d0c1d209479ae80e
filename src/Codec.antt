-- ===== src/Codec.antt =====
-- The JSON and BSON forms of orders, trades and pairs (types/order.go, types/trade.go,
-- types/pair.go, types/order_cancel.go). A JSON text is the value that it stands for.
pub mod Orders
pub mod Trades
pub mod Documents
pub mod Pairs
pub mod Cancels
use Prim.Native.String.{String}
use text.Mathlib.Text.{◌==◌ as str_eq}
use dex_server.Prelude.{ℕ, ◌<◌, ◌≡◌, Bool, true, false, if◌then◌else◌, Option, none, some}
use dex_server.Prelude.Int.{ℤ, pos}
use dex_server.Domain.Errors.{Result, ok, err, runtime_panic, json_error}

mutual
  pub data Json : Type 0 where
    null : Json
    string : String → Json
    number : ℤ → Json
    boolean : Bool → Json
    object : Members → Json

  -- A `map[string]interface{}`.
  pub data Members : Type 0 where
    nil : Members
    member : String → Json → Members → Members

-- `m[key] = value`, for a key that is new.
abbrev pub add_if : Bool → String → Json → Members → Members
add_if true key value m = member key value m
add_if false key value m = m

-- `m[key]`: a missing key is nil.
abbrev pub at : Members → String → Json
at nil key = null
at (member k v m) key = if str_eq k key then v else at m key

-- `v.(string)`, `v.(float64)` and `v.(map[string]interface{})` panic on a value of another type.
abbrev pub as_text : Json → Result String
as_text (string s) = ok s
as_text _ = err runtime_panic

abbrev pub as_number : Json → Result ℤ
as_number (number n) = ok n
as_number _ = err runtime_panic

abbrev pub as_object : Json → Result Members
as_object (object m) = ok m
as_object _ = err runtime_panic

-- `json.Unmarshal` into a map: null makes none, and another value is an error.
abbrev pub members_of : Json → Result Members
members_of (object m) = ok m
members_of null = ok nil
members_of _ = err json_error

-- Go's and go-ethereum's printing and reading of integers, addresses, hashes, times and identifiers
-- of documents, and the conversion of a number to a byte. JSON spells an address in lower case, which
-- reads alike. The readers of times and identifiers return a default where the text is malformed.
pub record Texts : Type 0 where
  pub print_int : ℤ → String
  pub to_big_int : String → ℤ
  pub address_hex : ℕ → String
  pub hex_to_address : String → ℕ
  pub hash_hex : ℕ → String
  pub hex_to_hash : String → ℕ
  pub format_time : ℕ → String
  pub parse_time : String → ℕ
  pub is_object_id_hex : String → Bool
  pub object_id_hex : String → ℕ
  pub to_byte : ℤ → ℕ

-- What is read is what was printed, and no number is printed as the empty text.
pub record TextLaws (t : Texts) : Type 0 where
  pub int_read : (z : ℤ) → t.to_big_int (t.print_int z) ≡ z
  pub int_printed : (z : ℤ) → str_eq (t.print_int z) "" ≡ false
  pub address_read : (a : ℕ) → t.hex_to_address (t.address_hex a) ≡ a
  pub hash_read : (h : ℕ) → t.hex_to_hash (t.hash_hex h) ≡ h
  pub time_read : (n : ℕ) → t.parse_time (t.format_time n) ≡ n
  pub byte_read : (n : ℕ) → n < 256 → t.to_byte (pos n) ≡ n
