-- ===== src/Tests/Deposits.antt =====
-- Runs of the theorems on the deposits.
use Prim.Native.String.{String}
use text.Mathlib.Text.{◌==◌ as str_eq}
use text.Mathlib.TextEquality.{eq_iff}
use dex_server.Prelude.{
  ℕ, ◌+◌, ◌*◌, Bool-cases, Option, none, some, List, [], ◌∷◌, ◌≡◌, refl, ap, inl, inr,
  if◌then◌else◌, arith,
}
use dex_server.Prelude.Int.{pos, negsuc}
use dex_server.Numbers.{add, sub, mul, is_equal}
use dex_server.Domain.Errors.{Result, ok, err, value_not_found}
use dex_server.Domain.Deposit.{
  is_chain, ethereum, pending, create_offer, Association, AssociationTransaction, Value, number,
  string, anything, KeyValue,
}
use dex_server.Backend.{Message}
use dex_server.Backend.Memory.{Memory, memory}
use dex_server.Daos.Config.{get_address_index_key, increment}
use dex_server.Daos.Associations.{get_association_by_chain_associated_address}
use dex_server.Services.Deposits.{Outside, generate_address}
use dex_server.Services.Deposits.Addresses.{CounterLaws, generate_address_lem}
use dex_server.Swap.Ethereum.{Payment}
use dex_server.Endpoints.Deposits.{Gateway, on_submit_transaction}
use dex_server.Endpoints.Deposits.Settlement.{Saves, on_submit_transaction-Settles}
use dex_server.Tests.Samples.{market, unit}

abbrev index_key : String
index_key = "ethereum_address_index"

abbrev number_in : Value → Option ℕ
number_in (number (pos n)) = some n
number_in (number (negsuc n)) = none
number_in (string s) = none
number_in anything = none

-- The counter of a configuration that has this one only.
abbrev counter_in : List KeyValue → Option ℕ
counter_in [] = none
counter_in (x ∷ []) = if str_eq x.key index_key then number_in x.value else none
counter_in (x ∷ y ∷ xs) = none

abbrev counter : Memory → Option ℕ
counter d = counter_in d.config

abbrev entry : ℕ → KeyValue
entry n = record { key = index_key; value = number (pos n) }

number_in-some : (v : Value) (n : ℕ) → number_in v ≡ some n → v ≡ number (pos n)
number_in-some (number (pos m)) n h = cc
number_in-some (number (negsuc m)) n h = absurd (cc)
number_in-some (string s) n h = absurd (cc)
number_in-some anything n h = absurd (cc)

counter_in-some : (xs : List KeyValue) (n : ℕ) → counter_in xs ≡ some n → xs ≡ entry n ∷ []
counter_in-some [] n h = absurd (cc)
counter_in-some (x ∷ []) n h = elim (Bool-cases (str_eq x.key index_key)) [
  | inl e ↦
      let p : x.key ≡ index_key = (eq_iff x.key index_key).0 e in
      let q : x.value ≡ number (pos n) = number_in-some x.value n (rw e at h) in rw (← p, ← q) refl
  | inr e ↦ let k = rw e at h in absurd (cc)
]
counter_in-some (x ∷ y ∷ xs) n h = absurd (cc)

add_one : (n : ℕ) → add (pos n) (pos 1) ≡ pos (n + 1)
unfolding add
add_one n = ground arith

increment-entry : (n : ℕ) → increment (entry n) ≡ entry (n + 1)
unfolding add
increment-entry n = ap (λ z. record { key = index_key; value = number z }) (add_one n)

memory-CounterLaws : CounterLaws memory index_key counter
memory-CounterLaws = record {
  reading = λ n d h. let e = counter_in-some d.config n h in (d, rw e refl, h);
  adding = λ n d h.
      let e = counter_in-some d.config n h in
      (
        record d { config = entry (n + 1) ∷ [] },
        rw e (ap (λ x. (ok tt, record d { config = x ∷ [] })) (increment-entry n)),
        refl,
      );
}

abbrev no_number : String → Result ℕ
no_number s = err value_not_found

abbrev counting : Memory
counting = record market { config = entry 4 ∷ [] }

ethereum_named : get_address_index_key ethereum ≡ ok index_key
unfolding get_address_index_key
ethereum_named = refl

abbrev pub outside : Outside Memory
outside = record {
  child_address = some (λ n. ok (100 + n));
  signer_public_key = 9;
  last_price = λ base quote d. (ok "2", d);
  parse_uint = no_number;
  read_int = λ s. if str_eq s "7" then some (pos (7 * unit)) else none;
  to_upper = λ s. s;
  split = λ s separator. if str_eq s "A/B" then "A" ∷ "B" ∷ [] else [];
}

-- The counter stands at 4, so the address of the child 5 is given.
generate_address_lem_example :
    (d' : Memory) × (generate_address memory outside ethereum counting ≡ (ok (105, 5), d'))
    × (counter d' ≡ some 5)
generate_address_lem_example =
    generate_address_lem memory outside ethereum index_key ethereum_named counter memory-CounterLaws
      (λ n. ok (100 + n)) 4 counting refl (omega arith) refl

-- The user 5 waits for a payment to the address 7.
abbrev waiting_user : Association
waiting_user = record {
  id = 1;
  address_index = 1;
  chain = ethereum;
  address = 7;
  status = pending;
  associated_address = 5;
  tx_envelopes = [];
  pair_name = "A/B";
  base_token_address = 1;
  quote_token_address = 2;
  created_at = 0;
  updated_at = 0;
}

abbrev waiting_market : Memory
waiting_market = record market { associations = waiting_user ∷ [] }

abbrev gateway : Gateway Memory
gateway = record {
  connect_token = λ a d. (ok tt, d);
  listen_to_transfer_events = λ a d. (ok tt, d);
  transfer = λ a to amount d. (ok tt, d);
  transferred = λ a d. (ok ((5, pos 2333333333) ∷ []), d);
  encode = λ t. ok "e";
  minimum_value_wei = pos 1;
  minimum_value_sat = pos 1;
}

abbrev published : Memory → List Message
published d = d.published

abbrev payment : Payment
payment = record { hash = "h"; value_wei = pos 7; to = 7 }

abbrev offer : AssociationTransaction
offer = record {
  source = 5;
  signature = [];
  hash = 0;
  transaction_type = create_offer;
  params = "7" ∷ "1" ∷ "A/B" ∷ [];
}

abbrev settled_market : Memory
unfolding on_submit_transaction
settled_market = (on_submit_transaction memory outside gateway ethereum 5 offer waiting_market).1

offer_settled :
    on_submit_transaction memory outside gateway ethereum 5 offer waiting_market
    ≡ (ok tt, settled_market)
unfolding on_submit_transaction is_chain add is_equal sub mul
offer_settled = refl

on_submit_transaction-Settles_example :
    (a : Association) × (e : Memory) × (get_association_by_chain_associated_address memory ethereum
        5 waiting_market
      ≡ (ok (some a), e))
    × Saves memory outside gateway ethereum a offer e settled_market
on_submit_transaction-Settles_example =
    on_submit_transaction-Settles memory outside gateway ethereum 5 offer waiting_market refl
      offer_settled
