-- ===== src/Services/Accounts.antt =====
-- services/account.go with daos/account.go: accounts that are made on their first use.
use dex_server.Prelude.{
  ℕ, false, Option, none, some, List, [], ◌∷◌, ◌==◌, if◌then◌else◌, All, ==_iff, ==_refl, ◌≡◌, refl,
  ◌∙◌, Bool-cases, inl, inr, ◌⊎◌,
}
use dex_server.Prelude.Int.{pos}
use dex_server.Domain.Errors.{ok, account_exists}
use dex_server.Domain.Account.{Account, Token, TokenBalance}
use dex_server.Backend.{Backend}
use dex_server.Backend.Monad.{Action, pure, throw, ◌>>=◌, ◌>>◌, >>=-eq-ok}
use dex_server.Daos.Orders.Queries.{first}
use dex_server.Daos.Tokens.{get_all_tokens}

abbrev pub zero_balance : Token → TokenBalance
zero_balance t = record {
  address = t.contract_address;
  symbol = t.symbol;
  balance = pos 0;
  allowance = pos 0;
  pending_balance = pos 0;
  locked_balance = pos 0;
}

-- The loop that sets the balances, with the ones that are set already.
unfoldable pub add_balances : List Token → (ℕ → Option TokenBalance) → ℕ → Option TokenBalance
add_balances [] m = m
add_balances (t ∷ ts) m =
    add_balances ts (λ a. if t.contract_address == a then some (zero_balance t) else m a)

unfoldable pub new_account : ℕ → List Token → Account
unfolding add_balances
new_account address tokens = record {
  id = 0;
  address = address;
  token_balances = add_balances tokens (λ a. none);
  is_blocked = false;
  created_at = 0;
  updated_at = 0;
}

module _ {D : Type 0} (b : Backend D) where
  -- `AccountDao.GetByAddress`
  unfoldable pub get_account : ℕ → Action D (Option Account)
  get_account address = do res ← b.accounts.get (λ a. a.address == address) 1; pure (first res)

  -- `AccountDao.Create`, with the account as it is then.
  unfoldable pub create_account : Account → Action D Account
  create_account a d =
      let a' = record a { id = b.new_object_id d; created_at = b.now d; updated_at = b.now d } in
      (do b.accounts.insert (some a' ∷ []); pure a') d

  -- `FindOrCreate`, from the test of the account that was looked up on.
  unfoldable pub found_or_create : ℕ → Option Account → Action D Account
  unfolding get_all_tokens create_account new_account
  found_or_create address (some a) = pure a
  found_or_create address none = do
    tokens ← get_all_tokens b
    create_account (new_account address tokens)

  -- `AccountService.FindOrCreate`
  unfoldable pub find_or_create : ℕ → Action D Account
  unfolding found_or_create get_account
  find_or_create address = get_account address >>= found_or_create address

  -- `AccountService.Create`, from the test of the account that was looked up on.
  unfoldable pub create_unless_found : Account → Option Account → Action D (Unit {0})
  unfolding get_all_tokens create_account add_balances
  create_unless_found a (some old) = throw account_exists
  create_unless_found a none = do
    tokens ← get_all_tokens b
    _ ←
        create_account
          (record a { is_blocked = false; token_balances = add_balances tokens (λ x. none) })
    pure tt

  -- `AccountService.Create`
  unfoldable pub account_service_create : Account → Action D (Unit {0})
  unfolding create_unless_found get_account
  account_service_create a = get_account a.address >>= create_unless_found a

-- Nothing is there in a token, as far as the account says.
abbrev pub IsZero : ℕ → Option TokenBalance → Type 0
IsZero token o = (t : Token) × (t.contract_address ≡ token) × (o ≡ some (zero_balance t))

add_balances-IsZero :
    (token : ℕ) (ts : List Token) (m : ℕ → Option TokenBalance)
    → IsZero token (m token)
    → IsZero token (add_balances ts m token)
unfolding add_balances
add_balances-IsZero token [] m h = h
add_balances-IsZero token (t ∷ ts) m h =
    add_balances-IsZero token ts _ (elim (Bool-cases (t.contract_address == token)) [
      | inl e ↦ rw e (t, (==_iff t.contract_address token).0 e, refl)
      | inr e ↦ rw e h
    ])

All-IsZero :
    (ts : List Token) (m : ℕ → Option TokenBalance)
    → All (λ t. IsZero t.contract_address (add_balances ts m t.contract_address)) ts
unfolding add_balances
All-IsZero [] m = tt
All-IsZero (t ∷ ts) m = (
  add_balances-IsZero t.contract_address ts _ (rw (==_refl t.contract_address) (t, refl, refl)),
  All-IsZero ts _,
)

-- A new account, for the tokens that were found.
pub record IsNew (address : ℕ) (tokens : List Token) (a : Account) : Type 0 where
  pub owned : a.address ≡ address
  pub unblocked : a.is_blocked ≡ false
  pub empty : All (λ t. IsZero t.contract_address (a.token_balances t.contract_address)) tokens

module _ {D : Type 0} (b : Backend D) where
  create_account-IsNew :
      (address : ℕ) (tokens : List Token) (d : D) {a : Account} {d' : D}
      → create_account b (new_account address tokens) d ≡ (ok a, d')
      → IsNew address tokens a
  unfolding create_account new_account
  create_account-IsNew address tokens d {a} {d'} h =
      let (u, p, q) = >>=-eq-ok (b.accounts.insert _) _ d h in
      let e : record (new_account address tokens) {
        id = b.new_object_id d;
        created_at = b.now d;
        updated_at = b.now d;
      }
          ≡ a =
        cc in
      rw (← e) (record { owned = refl; unblocked = refl; empty = All-IsZero tokens _ })

  -- If an account is returned, either it was looked up and the world is as after the lookup, or
  -- none was found and it is a new one: with the given address, not blocked, and with a zero
  -- balance in each of the tokens that were read.
  find_or_create_lem :
      (address : ℕ) (d : D) {a : Account} {d' : D}
      → find_or_create b address d ≡ (ok a, d')
      → (get_account b address d ≡ (ok (some a), d'))
        ⊎ ((d₁ d₂ : D) × (tokens : List Token) × (get_account b address d ≡ (ok none, d₁))
            × (get_all_tokens b d₁ ≡ (ok tokens, d₂))
            × IsNew address tokens a)
  unfolding find_or_create found_or_create
  find_or_create_lem address d {a} {d'} h =
      let (found, p, q) = >>=-eq-ok (get_account b address) (found_or_create b address) d h in
      go found p q
    where
      go :
          (found : Option Account)
          → get_account b address d ≡ (ok found, (get_account b address d).1)
          → found_or_create b address found (get_account b address d).1 ≡ (ok a, d')
          → (get_account b address d ≡ (ok (some a), d'))
            ⊎ ((d₁ d₂ : D) × (tokens : List Token) × (get_account b address d ≡ (ok none, d₁))
                × (get_all_tokens b d₁ ≡ (ok tokens, d₂))
                × IsNew address tokens a)
      go (some x) p q = inl (p ∙ cc)
      go none p q =
          let (tokens, r, t) =
            >>=-eq-ok (get_all_tokens b) (λ ts. create_account b (new_account address ts)) _ q in
          inr (_, _, tokens, p, r, create_account-IsNew address tokens _ t)
