-- ===== src/Domain/Pair.antt =====
-- types/pair.go: a trading pair and its multipliers.
use Prim.Native.String.{String, ◌++◌}
use dex_server.Prelude.{ℕ, Bool}
use dex_server.Prelude.Int.{ℤ, pos}
use dex_server.Numbers.{add, sub, mul, div, exp}

-- An address is the number that its twenty bytes spell; 0 is the empty address.
pub record Pair : Type 0 where
  pub base_token_symbol : String
  pub base_token_address : ℕ
  pub base_token_decimals : ℤ
  pub quote_token_symbol : String
  pub quote_token_address : ℕ
  pub quote_token_decimals : ℤ
  pub listed : Bool
  pub active : Bool
  pub rank : ℤ
  pub make_fee : ℤ
  pub take_fee : ℤ

unfoldable pub pair_multiplier : Pair → ℤ
unfolding mul exp
pair_multiplier p = mul (exp 10 (pos 18)) (exp 10 p.base_token_decimals)

unfoldable pub min_quote_amount : Pair → ℤ
unfolding mul add
min_quote_amount p = add (mul (pos 2) p.make_fee) (mul (pos 2) p.take_fee)

unfoldable pub name : Pair → String
name p = p.base_token_symbol ++ ("/" ++ p.quote_token_symbol)

unfoldable pub base_token_multiplier : Pair → ℤ
unfolding exp
base_token_multiplier p = exp 10 p.base_token_decimals

unfoldable pub quote_token_multiplier : Pair → ℤ
unfolding exp
quote_token_multiplier p = exp 10 p.quote_token_decimals

unfoldable pub pricepoint_multiplier : Pair → ℤ
unfolding mul div exp
pricepoint_multiplier p =
    div (mul (exp 10 p.base_token_decimals) (exp 10 (pos 9))) (exp 10 p.quote_token_decimals)

-- A negative difference of the decimals makes it 1.
unfoldable pub decimals_multiplier : Pair → ℤ
unfolding sub exp
decimals_multiplier p = exp 10 (sub p.base_token_decimals p.quote_token_decimals)
