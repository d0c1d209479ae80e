-- ===== src/Domain/Deposit.antt =====
-- types/deposit.go and types/config.go: the deposits from other chains.
use Prim.Native.String.{String}
use text.Mathlib.Text.{◌==◌ as str_eq}
use dex_server.Prelude.{ℕ, Bool, true, false, List}
use dex_server.Prelude.Int.{ℤ}

-- `Chain` is a text; `other` is one that the code does not name.
pub data Chain : Type 0 where
  ethereum bitcoin : Chain
  other : String → Chain

unfoldable pub is_chain : Chain → Chain → Bool
is_chain ethereum ethereum = true
is_chain bitcoin bitcoin = true
is_chain (Chain.other s) (Chain.other t) = str_eq s t
is_chain _ _ = false

pub data AssetCode : Type 0 where
  eth btc : AssetCode
  other : String → AssetCode

-- `PENDING`, `SUCCESS` and `FAILED` of types/main.go.
pub data DepositStatus : Type 0 where
  pending success failed : DepositStatus
  other : String → DepositStatus

unfoldable pub is_pending : DepositStatus → Bool
is_pending pending = true
is_pending _ = false

unfoldable pub is_success : DepositStatus → Bool
is_success success = true
is_success _ = false

pub data TransactionType : Type 0 where
  create_offer create_account remove_signer : TransactionType

-- `AddressAssociationRecord`. The address that pays on the other chain is `address`, the user's is
-- `associated_address`; both are stored as texts in lower case.
pub record Association : Type 0 where
  pub id : ℕ
  pub address_index : ℕ
  pub chain : Chain
  pub address : ℕ
  pub status : DepositStatus
  pub associated_address : ℕ
  pub tx_envelopes : List String
  pub pair_name : String
  pub base_token_address : ℕ
  pub quote_token_address : ℕ
  pub created_at : ℕ
  pub updated_at : ℕ

-- `AddressAssociation`
pub record AddressAssociation : Type 0 where
  pub chain : Chain
  pub address_index : ℕ
  pub address : ℕ
  pub associated_address : ℕ
  pub tomochain_public_key : ℕ
  pub created_at : ℕ

-- `AddressAssociationRecord.GetJSON`, which never fails.
unfoldable pub get_json : Association → AddressAssociation
get_json a = record {
  chain = a.chain;
  address_index = a.address_index;
  address = a.address;
  associated_address = a.associated_address;
  tomochain_public_key = 0;
  created_at = a.created_at;
}

pub record PairAddresses : Type 0 where
  pub name : String
  pub base_token : ℕ
  pub quote_token : ℕ

-- The amount is a text with a number of Wei.
pub record DepositTransaction : Type 0 where
  pub chain : Chain
  pub transaction_id : String
  pub asset_code : AssetCode
  pub pair_name : String
  pub amount : String
  pub associated_address : ℕ

pub record AssociationTransaction : Type 0 where
  pub source : ℕ
  pub signature : List ℕ
  pub hash : ℕ
  pub transaction_type : TransactionType
  pub params : List String

-- What the database reads a value of the configuration as.
pub data Value : Type 0 where
  number : ℤ → Value
  string : String → Value
  anything : Value

pub record KeyValue : Type 0 where
  pub key : String
  pub value : Value
