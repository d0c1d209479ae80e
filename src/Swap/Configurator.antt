-- ===== src/Swap/Configurator.antt =====
-- swap/tomochain/account_configurator.go and swap/tomochain/transactions.go: what follows a deposit.
pub mod Courses
use Prim.Native.String.{String}
use dex_server.Prelude.{
  ℕ, zero, suc, Bool, true, false, ◌==◌, if◌then◌else◌, Option, none, some, List, [], ◌∷◌,
}
use dex_server.Domain.Errors.{Result, ok, err, invalid_asset_code}
use dex_server.Domain.Deposit.{
  Chain, AssetCode, eth, btc, AddressAssociation, DepositTransaction, AssociationTransaction,
  TransactionType, create_offer, create_account, remove_signer,
}
use dex_server.Backend.Monad.{Action, pure, lift, ◌>>=◌}

-- `Status`
pub data Status : Type 0 where
  creating_account waiting_for_signer configuring_account removing_signer : Status

-- The fields of `AccountConfigurator`, with the handlers, which may be nil, and what the code calls:
-- Keccak, which the source and the texts are written to, and the signing with its private key. It
-- may be stopped at any time.
pub record Configurator (D : Type 0) : Type 0 where
  pub enabled : D → Bool
  pub lock_unix_timestamp : ℕ
  pub token_price_eth : String
  pub starting_balance : String
  pub signer_public_key : ℕ
  pub load_account_handler : Option (Chain → ℕ → Action D (Option AddressAssociation))
  pub on_submit_transaction : Option (Chain → ℕ → AssociationTransaction → Action D (Unit {0}))
  pub on_account_created : Option (Chain → ℕ → D → D)
  pub on_exchanged : Option (Chain → ℕ → D → D)
  pub on_exchanged_timelocked : Option (Chain → ℕ → AssociationTransaction → D → D)
  pub keccak : ℕ → List String → ℕ
  pub sign : ℕ → Result (List ℕ)
  pub format_uint : ℕ → String
  pub address_text : ℕ → String

abbrev pub type_text : TransactionType → String
type_text create_offer = "CreateOffer"
type_text create_account = "CreateAccount"
type_text remove_signer = "RemoveSigner"

-- `AssociationTransaction.ComputeHash`
unfoldable pub compute_hash : (ℕ → List String → ℕ) → ℕ → TransactionType → List String → ℕ
compute_hash keccak source type params = keccak source (type_text type ∷ params)

-- How a task ends: it is waiting still, it has failed, or it is done.
pub data Progress : Type 0 where
  waiting failed done : Progress

-- The world, and the status of the accounts that are being configured.
pub record Work (D : Type 0) : Type 0 where
  pub world : D
  pub account_status : ℕ → Option Status

module _ {D : Type 0} (ac : Configurator D) where
  unfoldable pub build_transaction :
      ℕ → TransactionType → List String → Result AssociationTransaction
  unfolding compute_hash
  build_transaction source type params =
      let hash = compute_hash ac.keccak source type params in
      elim (ac.sign hash) [
        | err e ↦ err e
        | ok signature ↦ ok (record {
          source = source;
          signature = signature;
          hash = hash;
          transaction_type = type;
          params = params;
        })
      ]

  abbrev pub submit_with :
      Option (Chain → ℕ → AssociationTransaction → Action D (Unit {0}))
      → Chain
      → ℕ
      → AssociationTransaction
      → Action D (Unit {0})
  submit_with none c destination t = pure tt
  submit_with (some submit) c destination t = submit c destination t

  -- `submitTransaction`
  unfoldable pub submit_transaction : Chain → ℕ → AssociationTransaction → Action D (Unit {0})
  submit_transaction = submit_with ac.on_submit_transaction

  unfoldable pub create_account_transaction : Chain → ℕ → Action D (Unit {0})
  unfolding build_transaction submit_transaction
  create_account_transaction c destination = do
    t ← lift (
        build_transaction ac.signer_public_key create_account
          (ac.address_text destination ∷ ac.starting_balance ∷ []))
    submit_transaction c destination t

  -- The `switch` of `configureAccountTransaction`.
  unfoldable pub token_price : AssetCode → Result String
  token_price eth = ok ac.token_price_eth
  token_price btc = err invalid_asset_code
  token_price (AssetCode.other s) = err invalid_asset_code

  unfoldable pub configure_account_transaction : DepositTransaction → Action D (Unit {0})
  unfolding build_transaction submit_transaction token_price
  configure_account_transaction x = do
    price ← lift (token_price x.asset_code)
    t ←
        lift (
          build_transaction x.associated_address create_offer (x.amount ∷ price ∷ x.pair_name ∷ []))
    submit_transaction x.chain x.associated_address t

  unfoldable pub remove_temporary_signer : Chain → ℕ → Action D (Unit {0})
  unfolding build_transaction submit_transaction
  remove_temporary_signer c destination = do
    t ← lift (build_transaction destination remove_signer [])
    submit_transaction c destination t

  unfoldable pub build_unlock_account_transaction : ℕ → Result AssociationTransaction
  unfolding build_transaction
  build_unlock_account_transaction source =
      build_transaction source remove_signer (ac.format_uint ac.lock_unix_timestamp ∷ [])

  abbrev pub load_with :
      Option (Chain → ℕ → Action D (Option AddressAssociation))
      → Chain
      → ℕ
      → Action D (Option AddressAssociation)
  load_with none c user = pure none
  load_with (some load) c user = load c user

  -- `LoadAccount`
  unfoldable pub load_account : Chain → ℕ → Action D (Option AddressAssociation)
  load_account = load_with ac.load_account_handler

  -- `getAccount`: every account is said to exist.
  unfoldable pub get_account : Chain → ℕ → Action D (Option AddressAssociation × Bool)
  unfolding load_account
  get_account c user = do a ← load_account c user; pure (a, true)

  unfoldable pub signer_exists_only : Option AddressAssociation → Bool
  signer_exists_only none = false
  signer_exists_only (some a) = a.tomochain_public_key == ac.signer_public_key

  -- A round of the first loop of `ConfigureAccount`: whether it is the last one.
  abbrev pub created : Result (Unit {0}) × D → Bool × D
  created (ok u, d) = (true, d)
  created (err e, d) = (false, d)

  abbrev pub create_unless_there :
      Chain → ℕ → Result (Option AddressAssociation × Bool) × D → Bool × D
  create_unless_there c user (err e, d) = (false, d)
  create_unless_there c user (ok (a, exists), d) =
      if exists then (true, d) else created (create_account_transaction c user d)

  unfoldable pub create_round : Chain → ℕ → D → Bool × D
  unfolding get_account create_account_transaction
  create_round c user d =
      if ac.enabled d then create_unless_there c user (get_account c user d) else (true, d)

  -- A round of the second loop.
  abbrev pub signer_found : Result (Option AddressAssociation) × D → Bool × D
  signer_found (err e, d) = (false, d)
  signer_found (ok a, d) = (signer_exists_only a, d)

  unfoldable pub signer_round : Chain → ℕ → D → Bool × D
  unfolding load_account signer_exists_only
  signer_round c user d = if ac.enabled d then signer_found (load_account c user d) else (true, d)

-- So many rounds of a loop, whose pauses are left out: whether it has ended.
unfoldable pub until : {D : Type 0} → ℕ → (D → Bool × D) → D → Bool × D
until zero round d = (false, d)
until (suc rounds) round d =
    let rest = until rounds round (round d).1 in if (round d).0 then (true, (round d).1) else rest

abbrev pub set_account_status : {D : Type 0} → ℕ → Option Status → Work D → Work D
set_account_status user s w = record w {
  account_status = λ a. if user == a then s else w.account_status a;
}

module _ {D : Type 0} (ac : Configurator D) (x : DepositTransaction) where
  -- How a task ends, with the deferred removal of the status.
  abbrev pub leave : Progress → Work D → Progress × Work D
  leave p w = (p, set_account_status x.associated_address none w)

  abbrev pub exchanged : Option (Chain → ℕ → D → D) → D → D
  exchanged none d = d
  exchanged (some notify) d = notify x.chain x.associated_address d

  abbrev pub exchanged_timelocked :
      Option (Chain → ℕ → AssociationTransaction → D → D) → AssociationTransaction → D → D
  exchanged_timelocked none t d = d
  exchanged_timelocked (some notify) t d = notify x.chain x.associated_address t d

  -- The rest of `ConfigureAccount`, with what the removal of the signer returned.
  abbrev pub after_removal : Work D → Result (Unit {0}) × D → Progress × Work D
  after_removal w (err e, d) = leave failed (record w { world = d })
  after_removal w (ok u, d) = leave done (record w { world = exchanged ac.on_exchanged d })

  -- The rest, with the transaction that unlocks the account.
  abbrev pub after_unlock : Work D → Result AssociationTransaction → Progress × Work D
  after_unlock w (err e) = leave failed w
  after_unlock w (ok t) =
      leave done (record w { world = exchanged_timelocked ac.on_exchanged_timelocked t w.world })

  -- The rest, with the status of the removal of the signer.
  unfoldable pub release : Work D → Progress × Work D
  unfolding remove_temporary_signer build_unlock_account_transaction
  release w =
      if ac.lock_unix_timestamp == 0
      then after_removal w (remove_temporary_signer ac x.chain x.associated_address w.world)
      else after_unlock w (build_unlock_account_transaction ac x.associated_address)

  -- The rest, with what the offer returned.
  abbrev pub after_offer : Work D → Result (Unit {0}) × D → Progress × Work D
  after_offer w (err e, d) = leave failed (record w { world = d })
  after_offer w (ok u, d) =
      release
        (set_account_status x.associated_address (some removing_signer) (record w { world = d }))

  -- The rest, from the offer on.
  unfoldable pub send_offer : Work D → Progress × Work D
  unfolding configure_account_transaction release
  send_offer w =
      let w' = set_account_status x.associated_address (some configuring_account) w in
      after_offer w' (configure_account_transaction ac x w.world)

  -- The rest, with how the second loop went.
  abbrev pub after_signer : Work D → Bool × D → Progress × Work D
  after_signer w (true, d) = send_offer (record w { world = d })
  after_signer w (false, d) = (waiting, record w { world = d })

  -- The rest, from the second loop on.
  unfoldable pub await_signer : ℕ → Work D → Progress × Work D
  unfolding until signer_round send_offer
  await_signer rounds w =
      let w' = set_account_status x.associated_address (some waiting_for_signer) w in
      after_signer w' (until rounds (signer_round ac x.chain x.associated_address) w.world)

  -- The rest, with how the first loop went.
  abbrev pub after_creation : ℕ → Work D → Bool × D → Progress × Work D
  after_creation rounds w (true, d) =
      await_signer rounds (record w { world = exchanged ac.on_account_created d })
  after_creation rounds w (false, d) = (waiting, record w { world = d })

  -- `ConfigureAccount`, with at most so many rounds of each of its loops.
  unfoldable pub configure_account : ℕ → Work D → Progress × Work D
  unfolding until create_round await_signer
  configure_account rounds w =
      let w' = set_account_status x.associated_address (some creating_account) w in
      after_creation rounds w' (until rounds (create_round ac x.chain x.associated_address) w.world)
