-- ===== src/Codec/Documents.antt =====
-- types/order.go, types/trade.go and types/pair.go: the documents that MongoDB stores.
pub mod RoundTrip
use Prim.Native.String.{String}
use text.Mathlib.Text.{◌==◌ as str_eq}
use dex_server.Prelude.{ℕ, ◌==◌, Bool, true, false, not, if◌then◌else◌, Option, none, some}
use dex_server.Prelude.Int.{ℤ, pos}
use dex_server.Domain.Order.{Order, Given, Signature}
use dex_server.Domain.Trade.{Trade, TradeStatus, pending, success}
use dex_server.Domain.Pair.{Pair}
use dex_server.Codec.{Texts}
use dex_server.Codec.Orders.{status_text, status_of, side_text, side_of, print_given}
use dex_server.Codec.Trades.{trade_status_text, trade_status_of}

pub record SignatureRecord : Type 0 where
  pub v : ℕ
  pub r : String
  pub s : String

pub record OrderRecord : Type 0 where
  pub id : ℕ
  pub user_address : String
  pub exchange_address : String
  pub base_token : String
  pub quote_token : String
  pub status : String
  pub side : String
  pub hash : String
  pub pricepoint : String
  pub amount : String
  pub filled_amount : String
  pub nonce : String
  pub make_fee : String
  pub take_fee : String
  pub signature : Option SignatureRecord
  pub pair_name : String
  pub created_at : ℕ
  pub updated_at : ℕ

pub record TradeRecord : Type 0 where
  pub id : ℕ
  pub taker : String
  pub maker : String
  pub base_token : String
  pub quote_token : String
  pub maker_order_hash : String
  pub taker_order_hash : String
  pub hash : String
  pub tx_hash : String
  pub pair_name : String
  pub created_at : ℕ
  pub updated_at : ℕ
  pub pricepoint : String
  pub amount : String
  pub status : String

-- What the database gives back of a record that it was given: its times are stored with less
-- precision, `bson_time` of them.
module _ (bson_time : ℕ → ℕ) where
  abbrev pub stored_order : OrderRecord → OrderRecord
  stored_order r = record r {
    created_at = bson_time r.created_at;
    updated_at = bson_time r.updated_at;
  }

  abbrev pub stored_trade : TradeRecord → TradeRecord
  stored_trade r = record r {
    created_at = bson_time r.created_at;
    updated_at = bson_time r.updated_at;
  }

module _ (t : Texts) where
  -- `Signature.GetRecord`
  unfoldable pub get_record : Signature → SignatureRecord
  get_record s = record { v = s.v; r = t.hash_hex s.r; s = t.hash_hex s.s }

  abbrev read_record : Option SignatureRecord → Option Signature → Option Signature
  read_record none old = old
  read_record (some s) old = some (record { v = s.v; r = t.hex_to_hash s.r; s = t.hex_to_hash s.s })

  abbrev write_record : Option Signature → Option SignatureRecord
  write_record none = none
  write_record (some s) = some (get_record s)

  -- `Order.GetBSON`, given an identifier for an order that has none.
  unfoldable pub get_order_bson : ℕ → Order → OrderRecord
  unfolding get_record
  get_order_bson object_id o = record {
    id = if o.id == 0 then object_id else o.id;
    user_address = t.address_hex o.user_address;
    exchange_address = t.address_hex o.exchange_address;
    base_token = t.address_hex o.base_token;
    quote_token = t.address_hex o.quote_token;
    status = status_text o.status;
    side = side_text o.side;
    hash = t.hash_hex o.hash;
    pricepoint = print_given t o.given.pricepoint o.pricepoint;
    amount = print_given t o.given.amount o.amount;
    filled_amount = if o.has_filled_amount then t.print_int o.filled_amount else "";
    nonce = print_given t o.given.nonce o.nonce;
    make_fee = print_given t o.given.make_fee o.make_fee;
    take_fee = print_given t o.given.take_fee o.take_fee;
    signature = write_record o.signature;
    pair_name = o.pair_name;
    created_at = o.created_at;
    updated_at = o.updated_at;
  }

  abbrev unless_empty : {A : Type 0} → String → A → A → A
  unless_empty s new old = if str_eq s "" then old else new

  -- `Order.SetBSON` into the given order. The filled amount is read whether or not it is empty.
  unfoldable pub set_order_bson : OrderRecord → Order → Order
  set_order_bson d o = record {
    id = d.id;
    user_address = t.hex_to_address d.user_address;
    exchange_address = t.hex_to_address d.exchange_address;
    base_token = t.hex_to_address d.base_token;
    quote_token = t.hex_to_address d.quote_token;
    status = status_of d.status;
    side = side_of d.side;
    hash = t.hex_to_hash d.hash;
    signature = read_record d.signature o.signature;
    pricepoint = unless_empty d.pricepoint (t.to_big_int d.pricepoint) o.pricepoint;
    amount = unless_empty d.amount (t.to_big_int d.amount) o.amount;
    filled_amount = t.to_big_int d.filled_amount;
    nonce = t.to_big_int d.nonce;
    make_fee = t.to_big_int d.make_fee;
    take_fee = t.to_big_int d.take_fee;
    given = record {
      nonce = true;
      make_fee = true;
      take_fee = true;
      amount = unless_empty d.amount true o.given.amount;
      pricepoint = unless_empty d.pricepoint true o.given.pricepoint;
    };
    has_filled_amount = true;
    pair_name = d.pair_name;
    created_at = d.created_at;
    updated_at = d.updated_at;
  }

  -- `Trade.GetBSON`
  unfoldable pub get_trade_bson : Trade → TradeRecord
  get_trade_bson x = record {
    id = x.id;
    taker = t.address_hex x.taker;
    maker = t.address_hex x.maker;
    base_token = t.address_hex x.base_token;
    quote_token = t.address_hex x.quote_token;
    maker_order_hash = t.hash_hex x.maker_order_hash;
    taker_order_hash = t.hash_hex x.taker_order_hash;
    hash = t.hash_hex x.hash;
    tx_hash = t.hash_hex x.tx_hash;
    pair_name = x.pair_name;
    created_at = x.created_at;
    updated_at = x.updated_at;
    pricepoint = print_given t x.has_pricepoint x.pricepoint;
    amount = print_given t x.has_amount x.amount;
    status = trade_status_text x.status;
  }

  -- `Trade.SetBSON` into the given trade, whose side and signature it leaves alone.
  unfoldable pub set_trade_bson : TradeRecord → Trade → Trade
  set_trade_bson d x = record x {
    id = d.id;
    taker = t.hex_to_address d.taker;
    maker = t.hex_to_address d.maker;
    base_token = t.hex_to_address d.base_token;
    quote_token = t.hex_to_address d.quote_token;
    maker_order_hash = t.hex_to_hash d.maker_order_hash;
    taker_order_hash = t.hex_to_hash d.taker_order_hash;
    hash = t.hex_to_hash d.hash;
    tx_hash = t.hex_to_hash d.tx_hash;
    pair_name = d.pair_name;
    created_at = d.created_at;
    updated_at = d.updated_at;
    pricepoint = t.to_big_int d.pricepoint;
    has_pricepoint = true;
    amount = t.to_big_int d.amount;
    has_amount = true;
    status = trade_status_of d.status;
  }
