-- ===== src/Endpoints/Deposits/Events.antt =====
-- endpoints/deposit.go: the events of the account configurator that follow a transfer.
use Prim.Native.String.{String}
use dex_server.Prelude.{ℕ, Option, none, some}
use dex_server.Domain.Errors.{Result, ok, err}
use dex_server.Domain.Deposit.{Chain, AddressAssociation, AssociationTransaction}
use dex_server.Backend.{Backend}
use dex_server.Daos.Associations.{save_deposit_transaction}
use dex_server.Daos.Config.{get_schema_version}
use dex_server.Services.Deposits.{Outside}
use dex_server.Endpoints.Deposits.{Gateway, get_association_by_user_address}

module _ {D : Type 0} (b : Backend D) (x : Outside D) where
  -- `OnTomochainAccountCreated` and `OnExchanged`: the association is looked up and logged.
  unfoldable pub on_tomochain_account_created : Chain → ℕ → D → D
  unfolding get_association_by_user_address
  on_tomochain_account_created c user d = (get_association_by_user_address b x c user d).1

  unfoldable pub on_exchanged : Chain → ℕ → D → D
  unfolding get_association_by_user_address
  on_exchanged c user d = (get_association_by_user_address b x c user d).1

  -- The rest of `OnExchangedTimelocked`, with the encoded transaction. It is saved at the user's
  -- address, not at the one of the deposit.
  abbrev pub save_unlock : Chain → ℕ → Result String → D → D
  unfolding save_deposit_transaction
  save_unlock c user (err e) d = d
  save_unlock c user (ok text) d = (save_deposit_transaction b c user text d).1

  -- The rest, with the association.
  abbrev pub unlock_for :
      Gateway D → Chain → ℕ → AssociationTransaction → Result (Option AddressAssociation) × D → D
  unlock_for g c user t (err e, d) = d
  unlock_for g c user t (ok none, d) = d
  unlock_for g c user t (ok (some a), d) = save_unlock c user (g.encode t) d

  -- `OnExchangedTimelocked`
  unfoldable pub on_exchanged_timelocked : Gateway D → Chain → ℕ → AssociationTransaction → D → D
  unfolding get_association_by_user_address save_deposit_transaction
  on_exchanged_timelocked g c user t d =
      unlock_for g c user t (get_association_by_user_address b x c user d)

  -- `handleGetSchema`: the version that is answered.
  unfoldable pub handle_get_schema : (String → Result ℕ) → D → ℕ × D
  unfolding get_schema_version
  handle_get_schema parse_uint d = get_schema_version b parse_uint d
