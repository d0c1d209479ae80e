-- ===== src/Tests/Samples.antt =====
-- The orders, the pair and the state of the services that the tests run on.
use Prim.Native.String.{String}
use dex_server.Prelude.{ℕ, Bool, ◌+◌, ◌*◌, true, false, none, some, [], ◌∷◌}
use dex_server.Prelude.Int.{pos}
use dex_server.Domain.Errors.{Result, ok, err}
use dex_server.Domain.Order.{Order, open_order, Side, buy, sell}
use dex_server.Domain.Order.Validation.{Crypto}
use dex_server.Domain.Account.{Token}
use dex_server.Domain.Pair.{Pair}
use dex_server.Domain.Trade.{Trade, pending}
use dex_server.Domain.Matches.{Matches}
use dex_server.Backend.Memory.{Memory}

-- Whole tokens have eighteen decimals.
abbrev pub unit : ℕ
unit = 1000000000000000000

abbrev pub sample : Side → ℕ → ℕ → ℕ → ℕ → Order
sample side hash amount filled_amount price = record {
  id = 0;
  user_address = 5;
  exchange_address = 9;
  base_token = 1;
  quote_token = 2;
  status = open_order;
  side = side;
  hash = hash;
  signature = some (record { v = 27; r = 3; s = 4 });
  pricepoint = pos (price * unit);
  amount = pos amount;
  filled_amount = pos filled_amount;
  nonce = pos 1;
  make_fee = pos 1;
  take_fee = pos 1;
  given = record {
    nonce = true;
    make_fee = true;
    take_fee = true;
    amount = true;
    pricepoint = true;
  };
  has_filled_amount = true;
  pair_name = "A/B";
  created_at = hash;
  updated_at = 0;
}

abbrev pub bid : Order
bid = sample buy 10 10 0 3

abbrev pub half_filled_bid : Order
half_filled_bid = sample buy 11 10 5 3

abbrev pub ask : Order
ask = sample sell 20 4 0 2

abbrev pub later_ask : Order
later_ask = sample sell 21 9 1 2

abbrev pub dear_ask : Order
dear_ask = sample sell 22 9 0 4

abbrev pub pair : Pair
pair = record {
  base_token_symbol = "A";
  base_token_address = 1;
  base_token_decimals = pos 0;
  quote_token_symbol = "B";
  quote_token_address = 2;
  quote_token_decimals = pos 0;
  listed = true;
  active = true;
  rank = pos 0;
  make_fee = pos 1;
  take_fee = pos 1;
}

abbrev pub token_of : ℕ → String → Bool → Token
token_of address symbol quote = record {
  contract_address = address;
  symbol = symbol;
  decimals = pos 18;
  quote = quote;
}

abbrev pub market : Memory
market = record {
  orders = dear_ask ∷ later_ask ∷ bid ∷ ask ∷ [];
  trades = [];
  pairs = pair ∷ [];
  accounts = [];
  tokens = token_of 1 "A" false ∷ token_of 2 "B" true ∷ token_of 3 "C" false ∷ [];
  associations = [];
  config = [];
  published = [];
  notified = [];
  time = 100;
  balances = λ token. pos 1000;
  allowances = λ token. pos 500;
  queue = 3;
  gas = 200000;
  receipt = record { status = 1; post_state_length = 0 };
}

-- A hash of two hashes.
abbrev pub mix : ℕ → ℕ → ℕ
mix a b = 1000 * a + b

abbrev pub crypto : Crypto
crypto = record {
  keccak = λ bytes. 77;
  address_bytes = λ a. a ∷ [];
  hash_bytes = λ h. h ∷ [];
  big_to_hash_bytes = λ z. [];
  sig_to_pub = λ hash bytes. ok 5;
  pubkey_to_address = λ key. key;
}

abbrev pub trade : Trade
trade = record {
  id = 0;
  taker = 5;
  maker = 6;
  base_token = 1;
  quote_token = 2;
  maker_order_hash = 20;
  taker_order_hash = 10;
  hash = 20010;
  side = "";
  signature = none;
  tx_hash = 0;
  pair_name = "A/B";
  created_at = 0;
  updated_at = 0;
  pricepoint = pos 3;
  has_pricepoint = true;
  status = pending;
  amount = pos 4;
  has_amount = true;
}

abbrev pub batch : Matches
batch = record { maker_orders = ask ∷ []; taker_order = bid; trades = trade ∷ [] }

-- The value of a result, or else the given one.
abbrev pub value_or : {A : Type 0} → A → Result A → A
value_or x (ok a) = a
value_or x (err e) = x
