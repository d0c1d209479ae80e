-- ===== src/Endpoints/Deposits.antt =====
-- endpoints/deposit.go: deposit addresses for users, and the events of the swap.
pub mod Queueing
pub mod Settlement
pub mod Waits
pub mod Waiting
pub mod Events
use Prim.Native.String.{String}
use dex_server.Prelude.{ℕ, ◌==◌, ◌&&◌, if◌then◌else◌, Option, none, some, List, [], ◌∷◌, ◌++◌}
use dex_server.Prelude.Int.{ℤ}
use dex_server.Numbers.{is_equal, is_strictly_smaller_than}
use dex_server.Domain.Errors.{
  Error, Result, ok, err, runtime_panic, not_a_number, not_connected, not_transferred, wrong_event,
}
use dex_server.Domain.Deposit.{
  Chain, AssetCode, eth, btc, Association, AddressAssociation, get_json, is_pending, is_success,
  pending, success, failed, PairAddresses, DepositTransaction, AssociationTransaction,
  TransactionType, create_offer, create_account, remove_signer,
}
use mathlib.Core.Option
use dex_server.Codec.{Texts}
use dex_server.Ws.OrderConnections.{Connections, register_order_connection}
use dex_server.Swap.Bitcoin
use dex_server.Swap.Ethereum
use dex_server.Backend.{Backend}
use dex_server.Backend.Monad.{Action, pure, throw, lift, ◌>>=◌, ◌>>◌, ignoring_error}
use dex_server.Daos.Associations.{
  get_association_by_chain_address, get_association_by_chain_associated_address,
  save_deposit_transaction,
}
use dex_server.Services.Deposits.{
  Outside, generate_address, save_association_by_chain_address,
  save_association_status_by_chain_address, queue_add, get_base_token_amount,
}

-- `GenerateAddressResponse`, without the version.
pub record GenerateAddressResponse : Type 0 where
  pub chain : Chain
  pub address : ℕ
  pub signer : ℕ

-- The contract of a token on the node, RLP, and the minimum values that are accepted. `transferred`
-- are the receivers and the values of the transfer events, when they are looked at.
pub record Gateway (D : Type 0) : Type 0 where
  pub connect_token : ℕ → Action D (Unit {0})
  pub listen_to_transfer_events : ℕ → Action D (Unit {0})
  pub transfer : ℕ → ℕ → ℤ → Action D (Unit {0})
  pub transferred : ℕ → Action D (List (ℕ × ℤ))
  pub encode : AssociationTransaction → Result String
  pub minimum_value_wei : ℤ
  pub minimum_value_sat : ℤ

-- A call whose error is replaced.
abbrev pub instead : {D A : Type 0} → Error → Result A × D → Result A × D
instead e (ok a, d) = (ok a, d)
instead e (err x, d) = (err e, d)

-- The tests of the transfer events: there is one, to the receiver and of the amount.
abbrev pub check_events : ℕ → ℤ → List (ℕ × ℤ) → Result (Unit {0})
check_events receiver amount ((to, value) ∷ []) =
    if to == receiver && is_equal value amount then ok tt else err wrong_event
check_events receiver amount _ = err wrong_event

-- The address that is waiting for a payment, if there is one. An error of the lookup is ignored.
abbrev pub waiting_address : Result (Option Association) → Option ℕ
unfolding is_pending
waiting_address (err e) = none
waiting_address (ok none) = none
waiting_address (ok (some a)) = if is_pending a.status then some a.address else none

module _ {D : Type 0} (b : Backend D) (x : Outside D) where
  -- The address and its index are stored for the user.
  unfoldable pub store_address : Chain → ℕ → PairAddresses → ℕ × ℕ → Action D ℕ
  unfolding save_association_by_chain_address
  store_address c user p (address, index) = do
    save_association_by_chain_address b x c address index user p
    pure address

  unfoldable pub new_address : Chain → ℕ → PairAddresses → Action D ℕ
  unfolding generate_address store_address
  new_address c user p = generate_address b x c >>= store_address c user p

  abbrev pub address_unless_waiting : Chain → ℕ → PairAddresses → Option ℕ → Action D ℕ
  address_unless_waiting c user p (some address) = pure address
  address_unless_waiting c user p none = new_address c user p

  -- The address that `handleGenerateAddress` and `handleNewDeposit` answer with.
  unfoldable pub deposit_address : Chain → ℕ → PairAddresses → Action D ℕ
  unfolding get_association_by_chain_associated_address new_address is_pending
  deposit_address c user p d =
      let (r, d') = get_association_by_chain_associated_address b c user d in
      address_unless_waiting c user p (waiting_address r) d'

  -- `handleGenerateAddress`, from the lookup on.
  unfoldable pub handle_generate_address :
      Chain → ℕ → PairAddresses → Action D GenerateAddressResponse
  unfolding deposit_address
  handle_generate_address c user p = do
    address ← deposit_address c user p
    pure (record { chain = c; address = address; signer = x.signer_public_key })

  -- `processNewTransaction`
  unfoldable pub process_new_transaction : DepositTransaction → Association → Action D (Unit {0})
  unfolding save_association_status_by_chain_address queue_add is_success
  process_new_transaction t a =
      if is_success a.status
      then pure tt
      else (do save_association_status_by_chain_address b x (some a) pending; queue_add b x t)

  -- What an event does with what `GetAssociationByChainAddress` returned: nothing, if that was an
  -- error or no association.
  abbrev pub queue_for :
      (Association → Action D DepositTransaction)
      → Result (Option Association) × D
      → Result (Unit {0}) × D
  unfolding process_new_transaction
  queue_for make (err e, d) = (ok tt, d)
  queue_for make (ok none, d) = (ok tt, d)
  queue_for make (ok (some a), d) = (make a >>= λ t. process_new_transaction t a) d

  abbrev pub deposit_of : Chain → String → AssetCode → String → Association → DepositTransaction
  deposit_of c hash asset amount a = record {
    chain = c;
    transaction_id = hash;
    asset_code = asset;
    pair_name = a.pair_name;
    amount = amount;
    associated_address = a.associated_address;
  }

  -- `OnNewBitcoinTransaction`. The address of the payment is read as one of Ethereum.
  unfoldable pub on_new_bitcoin_transaction :
      Gateway D
      → Texts
      → (Bitcoin.Payment → Action D String)
      → Bitcoin.Payment
      → Action D (Unit {0})
  unfolding get_association_by_chain_address process_new_transaction is_strictly_smaller_than
  on_new_bitcoin_transaction g t value_to_wei p d =
      if is_strictly_smaller_than p.value_sat g.minimum_value_sat
      then (ok tt, d)
      else queue_for
          (λ a. do amount ← value_to_wei p; pure (deposit_of Chain.bitcoin p.hash btc amount a))
          (get_association_by_chain_address b Chain.bitcoin (t.hex_to_address p.to) d)

  -- `OnNewEthereumTransaction`
  unfoldable pub on_new_ethereum_transaction :
      Gateway D → Texts → Ethereum.Payment → Action D (Unit {0})
  unfolding get_association_by_chain_address process_new_transaction is_strictly_smaller_than
  on_new_ethereum_transaction g t p d =
      if is_strictly_smaller_than p.value_wei g.minimum_value_wei
      then (ok tt, d)
      else queue_for (λ a. pure (deposit_of Chain.ethereum p.hash eth (t.print_int p.value_wei) a))
          (get_association_by_chain_address b Chain.ethereum p.to d)

  abbrev pub call_token : Error → Action D (Unit {0}) → Action D (Unit {0})
  call_token e m d = instead e (m d)

  -- `processTokenTransaction`, from the subscription to the events on.
  unfoldable pub confirm_transfer : Gateway D → Association → ℤ → Action D (Unit {0})
  unfolding is_equal
  confirm_transfer g a amount = do
    call_token not_connected (g.listen_to_transfer_events a.base_token_address)
    call_token not_transferred (g.transfer a.base_token_address a.associated_address amount)
    events ← g.transferred a.base_token_address
    lift (check_events a.associated_address amount events)

  abbrev pub token_amount : Association → ℤ → Action D ℤ
  unfolding get_base_token_amount
  token_amount a quote_amount d =
      instead not_a_number (get_base_token_amount b x a.pair_name quote_amount d)

  -- `processTokenTransaction`
  unfoldable pub process_token_transaction : Gateway D → Association → ℤ → Action D (Unit {0})
  unfolding confirm_transfer token_amount get_base_token_amount
  process_token_transaction g a quote_amount = do
    call_token not_connected (g.connect_token a.base_token_address)
    amount ← token_amount a quote_amount
    confirm_transfer g a amount

  -- A failure is noted in the status of the association, whether or not that succeeds.
  unfoldable pub fail_association : Association → Error → Action D (Unit {0})
  unfolding save_association_status_by_chain_address
  fail_association a e =
      ignoring_error (save_association_status_by_chain_address b x (some a) failed) >> throw e

  -- The status after the transfer, by its outcome.
  abbrev pub note_outcome : Association → Result (Unit {0}) × D → Result (Unit {0}) × D
  note_outcome a (ok u, d) =
      ignoring_error (save_association_status_by_chain_address b x (some a) success) d
  note_outcome a (err e, d) = fail_association a e d

  -- What an offer does with its amount, which is read as an integer.
  abbrev pub transfer_amount : Gateway D → Association → Option ℤ → Action D (Unit {0})
  transfer_amount g a none d = fail_association a not_a_number d
  transfer_amount g a (some amount) d = note_outcome a (process_token_transaction g a amount d)

  -- An offer takes its first parameter. Other transactions are done once they are saved.
  unfoldable pub settle_transaction :
      Gateway D → Association → TransactionType → List String → Action D (Unit {0})
  unfolding process_token_transaction fail_association
  settle_transaction g a create_offer [] = throw runtime_panic
  settle_transaction g a create_offer (amount ∷ rest) = transfer_amount g a (x.read_int amount)
  settle_transaction g a create_account params = pure tt
  settle_transaction g a remove_signer params = pure tt

  -- The rest of `OnSubmitTransaction`, with what the saving of the transaction returned.
  abbrev pub after_saving :
      Gateway D
      → Association
      → AssociationTransaction
      → Result (Unit {0}) × D
      → Result (Unit {0}) × D
  after_saving g a t (err e, d) = fail_association a e d
  after_saving g a t (ok u, d) = settle_transaction g a t.transaction_type t.params d

  -- The rest, with the encoded transaction.
  abbrev pub save_encoded :
      Gateway D → Chain → Association → AssociationTransaction → Result String → Action D (Unit {0})
  save_encoded g c a t (err e) d = fail_association a e d
  save_encoded g c a t (ok text) d =
      after_saving g a t (save_deposit_transaction b c a.address text d)

  -- The rest, with the association, which may be nil.
  abbrev pub submit_for :
      Gateway D → Chain → AssociationTransaction → Option Association → Action D (Unit {0})
  submit_for g c t none = throw runtime_panic
  submit_for g c t (some a) = save_encoded g c a t (g.encode t)

  -- `OnSubmitTransaction`
  unfoldable pub on_submit_transaction :
      Gateway D → Chain → ℕ → AssociationTransaction → Action D (Unit {0})
  unfolding get_association_by_chain_associated_address save_deposit_transaction settle_transaction
      fail_association
  on_submit_transaction g c destination t =
      get_association_by_chain_associated_address b c destination >>= submit_for g c t

  -- `getAssociationByUserAddress`, which `LoadAccountHandler` is. The association of the feed is not
  -- asked for, as `GetJSON` returns one always.
  unfoldable pub get_association_by_user_address : Chain → ℕ → Action D (Option AddressAssociation)
  unfolding get_association_by_chain_associated_address get_json
  get_association_by_user_address c user = do
    found ← get_association_by_chain_associated_address b c user
    pure
        (Option.map (λ a. record (get_json a) { tomochain_public_key = x.signer_public_key }) found)

-- What a client of the deposit channel is sent.
pub data DepositReply : Type 0 where
  refused : Error → DepositReply
  updated : GenerateAddressResponse → DepositReply

-- The state of the world, the connections for deposits, and what the client was sent.
pub record DepositSession (D : Type 0) : Type 0 where
  pub world : D
  pub connections : Connections
  pub replies : List DepositReply

module _ {D : Type 0} (b : Backend D) (x : Outside D) where
  -- The rest of `handleNewDeposit`, with the address.
  abbrev pub answer_deposit : Chain → ℕ → ℕ → DepositSession D → Result ℕ × D → DepositSession D
  unfolding register_order_connection
  answer_deposit c user client s (err e, d) = record s {
    world = d;
    replies = s.replies ++ refused e ∷ [];
  }
  answer_deposit c user client s (ok address, d) = record {
    world = d;
    connections = register_order_connection user client s.connections;
    replies =
        s.replies
        ++ updated (record { chain = c; address = address; signer = x.signer_public_key }) ∷ [];
  }

  -- `handleNewDeposit`, from the lookup on.
  unfoldable pub handle_new_deposit :
      Chain → ℕ → PairAddresses → ℕ → DepositSession D → DepositSession D
  unfolding deposit_address register_order_connection
  handle_new_deposit c user p client s =
      answer_deposit c user client s (deposit_address b x c user p s.world)
