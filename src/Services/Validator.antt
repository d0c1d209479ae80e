-- ===== src/Services/Validator.antt =====
-- services/validator.go, `Retry` of utils/common.go, and the lookup of a pair in daos/pair.go.
pub mod Checks
use dex_server.Prelude.{ℕ, zero, suc, Bool, Option, none, some, List, ◌==◌, ◌&&◌}
use dex_server.Prelude.Int.{ℤ}
use dex_server.Domain.Errors.{Result, ok, err, runtime_panic}
use dex_server.Domain.Order.{Order, sell_token, total_required_sell_amount}
use dex_server.Domain.Pair.{Pair}
use dex_server.Backend.{Backend}
use dex_server.Backend.Monad.{Action, pure, throw, lift, ◌>>=◌}
use dex_server.Daos.Orders.Queries.{first, get_user_locked_balance}
use dex_server.Services.Validator.Checks.{check_available, check_balance}

-- The call is made at most so many times, and at least once; the pause in between is left out.
unfoldable pub retry : {D A : Type 0} → ℕ → Action D A → Action D A
retry zero m d = m d
retry (suc zero) m d = m d
retry (suc (suc n)) m d =
    let again = retry (suc n) m (m d).1 in elim (m d).0 [ ok a ↦ (ok a, (m d).1) | err e ↦ again ]

-- The use of a pair that may be nil.
abbrev pub deref : {D A : Type 0} → Option A → Action D A
deref none = throw runtime_panic
deref (some a) = pure a

abbrev pub pair_of : ℕ → ℕ → Pair → Bool
pair_of base quote p = p.base_token_address == base && p.quote_token_address == quote

module _ {D : Type 0} (b : Backend D) where
  -- `PairDao.GetByTokenAddress`
  unfoldable pub get_by_token_address : ℕ → ℕ → Action D (Option Pair)
  get_by_token_address base quote = do res ← b.pairs.get (pair_of base quote) 1; pure (first res)

  -- The balance and the allowance of the order's owner in the token that it sells.
  unfoldable pub funds : ℕ → Order → Action D (ℤ × ℤ)
  funds exchange o = do
    balance ← retry 3 (b.balance_of o.user_address (sell_token o))
    allowance ← retry 3 (b.allowance o.user_address exchange (sell_token o))
    pure (balance, allowance)

  unfoldable pub validate_available_balance : ℕ → Order → Action D (Unit {0})
  unfolding get_by_token_address funds
  validate_available_balance exchange o = do
    found ← get_by_token_address o.base_token o.quote_token
    pair ← deref found
    (balance, allowance) ← funds exchange o
    locked ← get_user_locked_balance b o.user_address (sell_token o) pair
    lift (check_available balance allowance locked (total_required_sell_amount o pair))

  unfoldable pub validate_balance : ℕ → Order → Action D (Unit {0})
  unfolding get_by_token_address funds
  validate_balance exchange o = do
    found ← get_by_token_address o.base_token o.quote_token
    pair ← deref found
    (balance, allowance) ← funds exchange o
    lift (check_balance balance allowance (total_required_sell_amount o pair))
