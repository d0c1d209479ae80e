-- ===== src/Tests/Configurator.antt =====
-- A run of the theorem on the configuration of an account.
use dex_server.Prelude.{ℕ, true, ◌≡◌, refl, none, some, List, [], ◌∷◌, ◌++◌}
use dex_server.Domain.Errors.{Result, ok}
use dex_server.Domain.Deposit.{
  Chain, ethereum, eth, AddressAssociation, DepositTransaction, AssociationTransaction,
}
use dex_server.Swap.Configurator.{Configurator, Work, configure_account}
use dex_server.Swap.Configurator.Courses.{SubmissionLaws, Course, configure_account-Course}

-- The transactions that were submitted are the world.
abbrev submit :
    Chain
    → ℕ
    → AssociationTransaction
    → List AssociationTransaction
    → Result (Unit {0}) × List AssociationTransaction
submit c user t ts = (ok tt, ts ++ t ∷ [])

abbrev account : AddressAssociation
account = record {
  chain = ethereum;
  address_index = 1;
  address = 7;
  associated_address = 5;
  tomochain_public_key = 9;
  created_at = 0;
}

abbrev configurator : Configurator (List AssociationTransaction)
configurator = record {
  enabled = λ ts. true;
  lock_unix_timestamp = 0;
  token_price_eth = "1";
  starting_balance = "41";
  signer_public_key = 9;
  load_account_handler = some (λ c user ts. (ok (some account), ts));
  on_submit_transaction = some submit;
  on_account_created = none;
  on_exchanged = some (λ c user ts. ts);
  on_exchanged_timelocked = none;
  keccak = λ source texts. 77;
  sign = λ hash. ok (hash ∷ []);
  format_uint = λ n. "0";
  address_text = λ a. "a";
}

abbrev traced : List AssociationTransaction → List AssociationTransaction
traced ts = ts

submit-SubmissionLaws : SubmissionLaws configurator submit traced
submit-SubmissionLaws = record {
  given = refl;
  submitting = λ c user t ts. refl;
  loading = λ c user ts. refl;
  creating = λ x ts. refl;
  exchanging = λ x ts. refl;
  unlocking = λ x t ts. refl;
}

abbrev ether_deposit : DepositTransaction
ether_deposit = record {
  chain = ethereum;
  transaction_id = "t";
  asset_code = eth;
  pair_name = "A/B";
  amount = "7";
  associated_address = 5;
}

abbrev idle_work : Work (List AssociationTransaction)
idle_work = record { world = []; account_status = λ a. none }

configure_account-Course_example :
    (ts : List AssociationTransaction) × ((configure_account configurator ether_deposit 2
        idle_work).1.world
      ≡ [] ++ ts)
    × Course configurator ether_deposit
        (configure_account configurator ether_deposit 2 idle_work).0
        ts
configure_account-Course_example =
    configure_account-Course configurator submit traced submit-SubmissionLaws ether_deposit 2
      idle_work
