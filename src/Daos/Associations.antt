-- ===== src/Daos/Associations.antt =====
-- daos/association.go: the associations of deposit addresses with users.
use Prim.Native.String.{String}
use text.Mathlib.Text.{◌==◌ as str_eq}
use dex_server.Prelude.{
  ℕ, Bool, true, false, Option, List, [], ◌∷◌, ◌++◌, ◌==◌, ◌&&◌, if◌then◌else◌,
}
use dex_server.Domain.Deposit.{Chain, is_chain, Association, DepositStatus}
use dex_server.Backend.{Backend}
use dex_server.Backend.Monad.{Action, pure, ◌>>=◌}
use dex_server.Daos.Orders.Queries.{first}

abbrev pub at_address : Chain → ℕ → Association → Bool
at_address c address a = is_chain a.chain c && a.address == address

abbrev pub for_user : Chain → ℕ → Association → Bool
for_user c user a = is_chain a.chain c && a.associated_address == user

abbrev has_text : String → List String → Bool
has_text s [] = false
has_text s (t ∷ ts) = if str_eq t s then true else has_text s ts

-- `$addToSet`
abbrev pub add_to_set : String → List String → List String
add_to_set s ts = if has_text s ts then ts else ts ++ s ∷ []

-- The `$set` of `SaveAssociation`.
unfoldable pub set_association : Association → Association → Association
set_association r old = record old {
  associated_address = r.associated_address;
  chain = r.chain;
  address_index = r.address_index;
  address = r.address;
  pair_name = r.pair_name;
  status = r.status;
  quote_token_address = r.quote_token_address;
  base_token_address = r.base_token_address;
}

-- The document that the upsert inserts: it has no envelopes and no times.
unfoldable pub inserted_association : Association → ℕ → Association
inserted_association r object_id = record r {
  id = object_id;
  tx_envelopes = [];
  created_at = 0;
  updated_at = 0;
}

module _ {D : Type 0} (b : Backend D) where
  -- No document is no error.
  unfoldable pub get_association_by_chain_address : Chain → ℕ → Action D (Option Association)
  get_association_by_chain_address c address = do
    res ← b.associations.get (at_address c address) 1
    pure (first res)

  unfoldable pub get_association_by_chain_associated_address :
      Chain → ℕ → Action D (Option Association)
  get_association_by_chain_associated_address c user = do
    res ← b.associations.get (for_user c user) 1
    pure (first res)

  unfoldable pub save_deposit_transaction : Chain → ℕ → String → Action D (Unit {0})
  save_deposit_transaction c address envelope =
      b.associations.update (at_address c address)
        (λ a. record a { tx_envelopes = add_to_set envelope a.tx_envelopes })

  unfoldable pub save_association : Association → Action D (Unit {0})
  unfolding set_association inserted_association
  save_association r d =
      (do
        _ ←
            b.associations.find_and_modify (for_user r.chain r.associated_address)
              (set_association r) (inserted_association r (b.new_object_id d))
        pure tt)
        d

  unfoldable pub save_association_status : Chain → ℕ → DepositStatus → Action D (Unit {0})
  save_association_status c address status =
      b.associations.update (at_address c address) (λ a. record a { status = status })
