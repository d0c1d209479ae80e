-- ===== src/Domain/Trade.antt =====
-- types/trade.go: a trade between a maker and a taker order.
use Prim.Native.String.{String}
use dex_server.Prelude.{ℕ, Bool, true, Option, ◌==◌, not}
use dex_server.Prelude.Int.{ℤ, pos}
use dex_server.Numbers.{is_equal_or_smaller_than}
use dex_server.Domain.Errors.{
  Result, ◌>>◌, fail_if, taker_required, maker_required, taker_order_hash_required,
  maker_order_hash_required, base_token_required, quote_token_required, amount_required,
  pricepoint_required, pricepoint_not_positive, amount_not_positive, bad_hash,
}
use dex_server.Domain.Order.{Order, Signature}

pub data TradeStatus : Type 0 where
  pending success cancelled error : TradeStatus
  other : String → TradeStatus

pub record Trade : Type 0 where
  pub id : ℕ
  pub taker : ℕ
  pub maker : ℕ
  pub base_token : ℕ
  pub quote_token : ℕ
  pub maker_order_hash : ℕ
  pub taker_order_hash : ℕ
  pub hash : ℕ
  pub side : String
  pub signature : Option Signature
  pub tx_hash : ℕ
  pub pair_name : String
  pub created_at : ℕ
  pub updated_at : ℕ
  pub pricepoint : ℤ
  pub has_pricepoint : Bool
  pub status : TradeStatus
  pub amount : ℤ
  pub has_amount : Bool

-- The hash of a trade: Keccak-256 over the bytes of the maker's and the taker's order hash, in that
-- order. `keccak` is the library's hash of the two.
abbrev pub compute_hash : (ℕ → ℕ → ℕ) → Trade → ℕ
compute_hash keccak t = keccak t.maker_order_hash t.taker_order_hash

unfoldable pub new_trade : (ℕ → ℕ → ℕ) → Order → Order → ℤ → ℤ → Trade
new_trade keccak mo to amount pricepoint = record unhashed { hash = compute_hash keccak unhashed }
  where
    unhashed : Trade
    unhashed = record {
      id = 0;
      taker = to.user_address;
      maker = mo.user_address;
      base_token = mo.base_token;
      quote_token = mo.quote_token;
      maker_order_hash = mo.hash;
      taker_order_hash = to.hash;
      hash = 0;
      side = "";
      signature = Option.none;
      tx_hash = 0;
      pair_name = mo.pair_name;
      created_at = 0;
      updated_at = 0;
      pricepoint = pricepoint;
      has_pricepoint = true;
      status = pending;
      amount = amount;
      has_amount = true;
    }

-- `Trade.Validate`
unfoldable pub validate : (ℕ → ℕ → ℕ) → Trade → Result (Unit {0})
validate keccak t = do
  fail_if (t.taker == 0) taker_required
  fail_if (t.maker == 0) maker_required
  fail_if (t.taker_order_hash == 0) taker_order_hash_required
  fail_if (t.maker_order_hash == 0) maker_order_hash_required
  fail_if (t.base_token == 0) base_token_required
  fail_if (t.quote_token == 0) quote_token_required
  fail_if (not t.has_amount) amount_required
  fail_if (not t.has_pricepoint) pricepoint_required
  fail_if (is_equal_or_smaller_than t.pricepoint (pos 0)) pricepoint_not_positive
  fail_if (is_equal_or_smaller_than t.amount (pos 0)) amount_not_positive
  fail_if (not (t.hash == compute_hash keccak t)) bad_hash
