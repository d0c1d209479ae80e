-- ===== src/Daos/Tokens.antt =====
-- daos/token.go: the tokens collection.
use dex_server.Prelude.{ℕ, true, Option, List, ◌==◌, not}
use dex_server.Domain.Account.{Token}
use dex_server.Backend.{Backend}
use dex_server.Backend.Monad.{Action, pure, ◌>>=◌}
use dex_server.Daos.Orders.Queries.{first}

module _ {D : Type 0} (b : Backend D) where
  unfoldable pub get_all_tokens : Action D (List Token)
  get_all_tokens = b.tokens.get (λ t. true) 0

  unfoldable pub get_quote_tokens : Action D (List Token)
  get_quote_tokens = b.tokens.get (λ t. t.quote) 0

  unfoldable pub get_base_tokens : Action D (List Token)
  get_base_tokens = b.tokens.get (λ t. not t.quote) 0

  unfoldable pub get_token : ℕ → Action D (Option Token)
  get_token address = do res ← b.tokens.get (λ t. t.contract_address == address) 1; pure (first res)
