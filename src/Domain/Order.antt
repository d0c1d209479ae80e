-- ===== src/Domain/Order.antt =====
-- types/order.go: an order, its amounts, and the tokens that it sells and buys.
pub mod Validation
use Prim.Native.String.{String}
use dex_server.Prelude.{ℕ, Bool, true, false, Option, if◌then◌else◌}
use dex_server.Prelude.Int.{ℤ, pos}
use dex_server.Numbers.{add, sub, mul, div, max}
use dex_server.Domain.Pair.{Pair, pair_multiplier}

-- The texts of the field `status`; `unset` is the empty text.
pub data Status : Type 0 where
  unset open_order partial_filled filled cancelled invalidated error : Status
  other : String → Status

pub data Side : Type 0 where
  buy sell : Side
  other : String → Side

pub record Signature : Type 0 where
  pub v : ℕ
  pub r : ℕ
  pub s : ℕ

-- Which of the `*big.Int` fields that a request must have are not nil.
pub record Given : Type 0 where
  pub nonce : Bool
  pub make_fee : Bool
  pub take_fee : Bool
  pub amount : Bool
  pub pricepoint : Bool

-- Addresses and hashes are the numbers that their bytes spell. A `*big.Int` is its value beside a
-- flag that says whether the pointer is set; times are numbers.
pub record Order : Type 0 where
  pub id : ℕ
  pub user_address : ℕ
  pub exchange_address : ℕ
  pub base_token : ℕ
  pub quote_token : ℕ
  pub status : Status
  pub side : Side
  pub hash : ℕ
  pub signature : Option Signature
  pub pricepoint : ℤ
  pub amount : ℤ
  pub filled_amount : ℤ
  pub nonce : ℤ
  pub make_fee : ℤ
  pub take_fee : ℤ
  pub given : Given
  pub has_filled_amount : Bool
  pub pair_name : String
  pub created_at : ℕ
  pub updated_at : ℕ

abbrev pub is_buy : Side → Bool
is_buy buy = true
is_buy sell = false
is_buy (Side.other s) = false

abbrev pub is_sell : Side → Bool
is_sell buy = false
is_sell sell = true
is_sell (Side.other s) = false

unfoldable pub remaining_amount : Order → ℤ
remaining_amount o = sub o.amount o.filled_amount

unfoldable pub sell_token : Order → ℕ
sell_token o = if is_buy o.side then o.quote_token else o.base_token

unfoldable pub buy_token : Order → ℕ
buy_token o = if is_buy o.side then o.base_token else o.quote_token

unfoldable pub quote_amount : Order → Pair → ℤ
quote_amount o p = div (mul o.amount o.pricepoint) (pair_multiplier p)

unfoldable pub sell_amount : Order → Pair → ℤ
sell_amount o p =
    if is_buy o.side then div (mul o.amount o.pricepoint) (pair_multiplier p) else o.amount

unfoldable pub remaining_sell_amount : Order → Pair → ℤ
remaining_sell_amount o p =
    if is_buy o.side
    then div (mul (sub o.amount o.filled_amount) o.pricepoint) (pair_multiplier p)
    else sub o.amount o.filled_amount

unfoldable pub required_sell_amount : Order → Pair → ℤ
required_sell_amount o p =
    if is_buy o.side then div (mul o.amount o.pricepoint) (pair_multiplier p) else o.amount

unfoldable pub total_required_sell_amount : Order → Pair → ℤ
total_required_sell_amount o p =
    if is_buy o.side
    then add (div (mul o.amount o.pricepoint) (pair_multiplier p)) (max p.make_fee p.take_fee)
    else o.amount

unfoldable pub buy_amount : Order → ℤ → ℤ
buy_amount o multiplier =
    if is_sell o.side then o.amount else div (mul o.amount o.pricepoint) multiplier

unfoldable pub encoded_side : Order → ℤ
encoded_side o = if is_buy o.side then pos 0 else pos 1
