-- ===== src/Services/Deposits.antt =====
-- services/deposit.go with swap/ethereum/address_generator.go: deposit addresses, associations and
-- the price of a deposit.
pub mod Addresses
use Prim.Native.String.{String}
use text.Mathlib.Text.{◌==◌ as str_eq}
use dex_server.Prelude.{ℕ, ◌%◌, ◌^◌, Option, none, some, List, [], ◌∷◌, if◌then◌else◌}
use dex_server.Prelude.Int.{ℤ}
use dex_server.Numbers.{mul, div, is_zero}
use dex_server.Domain.Errors.{
  Result, ok, err, association_nil, wrong_pair_name, zero_pricepoint, not_connected,
}
use dex_server.Domain.Deposit.{
  Chain, Association, DepositStatus, pending, success, failed, PairAddresses, DepositTransaction,
}
use dex_server.Domain.Pair.{Pair, pricepoint_multiplier}
use dex_server.Backend.{Backend, deposit, deposit_done, deposit_pending}
use dex_server.Backend.Monad.{Action, pure, throw, lift, ◌>>=◌, ◌>>◌}
use dex_server.Daos.Associations.{save_association, save_association_status}
use dex_server.Daos.Config.{increment_address_index, get_address_index}
use dex_server.Daos.Orders.Depth.{get_bids}
use dex_server.Daos.Pairs.{get_by_token_symbols}

-- What the service calls: `child_address` derives the address of a child of the master public key,
-- where there is one; `last_price` asks Binance; the others are the packages strconv, strings and
-- math/big.
pub record Outside (D : Type 0) : Type 0 where
  pub child_address : Option (ℕ → Result ℕ)
  pub signer_public_key : ℕ
  pub last_price : String → String → Action D String
  pub parse_uint : String → Result ℕ
  pub read_int : String → Option ℤ
  pub to_upper : String → String
  pub split : String → String → List String

-- `AddressGenerator.Generate`
unfoldable pub generate : Option (ℕ → Result ℕ) → ℕ → Result ℕ
generate none index = err not_connected
generate (some child) index = child (index % 2 ^ 32)

-- An integer, if the text is one, is the factor.
abbrev pub exchanged : ℤ → Option ℤ → ℤ
unfolding mul
exchanged amount none = amount
exchanged amount (some rate) = mul amount rate

abbrev pub priced : {D : Type 0} → (String → Option ℤ) → ℤ → Result String × D → Result ℤ × D
priced read_int amount (ok price, d) = (ok (exchanged amount (read_int price)), d)
priced read_int amount (err e, d) = (ok amount, d)

-- The association that `SaveAssociationByChainAddress` makes.
abbrev pub waiting : ℕ → Chain → ℕ → ℕ → ℕ → PairAddresses → Association
waiting id c address index user p = record {
  id = id;
  address_index = index;
  chain = c;
  address = address;
  status = pending;
  associated_address = user;
  tx_envelopes = [];
  pair_name = p.name;
  base_token_address = p.base_token;
  quote_token_address = p.quote_token;
  created_at = 0;
  updated_at = 0;
}

module _ {D : Type 0} (b : Backend D) (x : Outside D) where
  -- `DepositService.GenerateAddress`
  unfoldable pub generate_address : Chain → Action D (ℕ × ℕ)
  unfolding increment_address_index get_address_index generate
  generate_address c = do
    increment_address_index b x.parse_uint c
    index ← get_address_index b x.parse_uint c
    address ← lift (generate x.child_address index)
    pure (address, index)

  -- `SaveAssociationByChainAddress`
  unfoldable pub save_association_by_chain_address :
      Chain → ℕ → ℕ → ℕ → PairAddresses → Action D (Unit {0})
  unfolding save_association
  save_association_by_chain_address c address index user p d =
      save_association b (waiting (b.new_object_id d) c address index user p) d

  -- What the user is sent when the status of the association is set.
  unfoldable pub notify_status : Association → DepositStatus → D → D
  notify_status a success d = b.notify (deposit_done a.associated_address a) d
  notify_status a pending d = d
  notify_status a failed d = b.notify (deposit_pending a.associated_address failed) d
  notify_status a (DepositStatus.other s) d =
      b.notify (deposit_pending a.associated_address (DepositStatus.other s)) d

  -- `SaveAssociationStatusByChainAddress`
  unfoldable pub save_association_status_by_chain_address :
      Option Association → DepositStatus → Action D (Unit {0})
  unfolding save_association_status notify_status
  save_association_status_by_chain_address none status d = throw association_nil d
  save_association_status_by_chain_address (some a) status d =
      save_association_status b a.chain a.address status (notify_status a status d)

  unfoldable pub queue_add : DepositTransaction → Action D (Unit {0})
  queue_add t = b.publish (deposit t)

  -- `getTokenAmountFromOracle`: an error leaves the amount as it is.
  unfoldable pub get_token_amount_from_oracle : String → String → ℤ → Action D ℤ
  get_token_amount_from_oracle base quote amount d =
      priced x.read_int amount (x.last_price base quote d)

  -- From the test of the number of bids on.
  unfoldable pub amount_by_bid : String → String → Pair → ℤ → List (ℤ × ℤ) → Action D ℤ
  unfolding get_token_amount_from_oracle is_zero div mul pricepoint_multiplier
  amount_by_bid base quote p amount [] = get_token_amount_from_oracle base quote amount
  amount_by_bid base quote p amount ((price, left) ∷ rest) =
      if is_zero price
      then throw zero_pricepoint
      else pure (div (mul amount (pricepoint_multiplier p)) price)

  -- From the test of the pair on.
  unfoldable pub amount_by_pair : String → String → ℤ → Option Pair → Action D ℤ
  unfolding get_token_amount_from_oracle amount_by_bid get_bids
  amount_by_pair base quote amount none = get_token_amount_from_oracle base quote amount
  amount_by_pair base quote amount (some p) =
      get_bids b p (some 1) >>= amount_by_bid base quote p amount

  -- From the test of the number of symbols on.
  unfoldable pub amount_by_symbols : List String → ℤ → Action D ℤ
  unfolding amount_by_pair get_by_token_symbols
  amount_by_symbols (base ∷ quote ∷ []) amount =
      let bs = x.to_upper base in
      let qs = x.to_upper quote in
      if str_eq bs qs
      then pure amount
      else get_by_token_symbols b bs qs >>= amount_by_pair bs qs amount
  amount_by_symbols _ amount = throw wrong_pair_name

  -- `GetBaseTokenAmount`
  unfoldable pub get_base_token_amount : String → ℤ → Action D ℤ
  unfolding amount_by_symbols
  get_base_token_amount pair_name amount = amount_by_symbols (x.split pair_name "/") amount
