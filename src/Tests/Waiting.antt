-- ===== src/Tests/Waiting.antt =====
-- A run of the theorem on a user who is waiting for a payment.
use dex_server.Prelude.{some, List, [], ◌∷◌, ◌≡◌, refl}
use dex_server.Domain.Errors.{ok}
use dex_server.Domain.Deposit.{ethereum, is_chain, PairAddresses, Association, number}
use dex_server.Prelude.Int.{pos}
use dex_server.Numbers.{add}
use dex_server.Backend.Memory.{Memory, memory, one_cases}
use dex_server.Services.Deposits.{waiting}
use dex_server.Daos.Associations.{get_association_by_chain_associated_address}
use dex_server.Endpoints.Deposits.{deposit_address}
use dex_server.Endpoints.Deposits.Waiting.{AssociationLaws, deposit_address_again}
use dex_server.Tests.Deposits.{outside}
use dex_server.Tests.Samples.{market}

abbrev associations : Memory → List Association
associations d = d.associations

memory-AssociationLaws : AssociationLaws memory associations
memory-AssociationLaws = record {
  get_one = λ q d d' r h. one_cases q d.associations r (cc);
  get_keeps = λ q d. refl;
  upserting = λ q f new d a h. refl;
  reading = λ q n d. refl;
  counting = λ q f d. refl;
}

abbrev counting : Memory
counting = record market {
  config = record { key = "ethereum_address_index"; value = number (pos 4) } ∷ [];
}

abbrev pair_addresses : PairAddresses
pair_addresses = record { name = "A/B"; base_token = 1; quote_token = 2 }

abbrev counted : Memory
unfolding deposit_address
counted = (deposit_address memory outside ethereum 5 pair_addresses counting).1

first_address :
    deposit_address memory outside ethereum 5 pair_addresses counting ≡ (ok 105, counted)
unfolding deposit_address add is_chain
first_address = refl

abbrev found : Association
found = waiting 0 ethereum 105 5 5 pair_addresses

user_found :
    (get_association_by_chain_associated_address memory ethereum 5 counted).0 ≡ ok (some found)
unfolding get_association_by_chain_associated_address deposit_address add is_chain
user_found = refl

deposit_address_again_example :
    deposit_address memory outside ethereum 5 pair_addresses counted
    ≡ (ok 105, (get_association_by_chain_associated_address memory ethereum 5 counted).1)
deposit_address_again_example =
    deposit_address_again memory outside associations memory-AssociationLaws ethereum 5
      pair_addresses pair_addresses counting tt first_address user_found
