-- ===== src/Domain/Account.antt =====
-- types/account.go and types/token.go: accounts with their balances, and tokens.
use Prim.Native.String.{String}
use dex_server.Prelude.{ℕ, Bool, Option}
use dex_server.Prelude.Int.{ℤ}

-- Of a token, the fields that the services and the queries use.
pub record Token : Type 0 where
  pub contract_address : ℕ
  pub symbol : String
  pub decimals : ℤ
  pub quote : Bool

pub record TokenBalance : Type 0 where
  pub address : ℕ
  pub symbol : String
  pub balance : ℤ
  pub allowance : ℤ
  pub pending_balance : ℤ
  pub locked_balance : ℤ

-- The balances are a map by token, which is only looked up.
pub record Account : Type 0 where
  pub id : ℕ
  pub address : ℕ
  pub token_balances : ℕ → Option TokenBalance
  pub is_blocked : Bool
  pub created_at : ℕ
  pub updated_at : ℕ
