-- ===== src/Tests/Ethereum.antt =====
-- Runs of the theorem on the listener for Ethereum.
use dex_server.Prelude.{
  ℕ, ◌==◌, ◌≤◌, ◌^◌, ltb, true, Bool-cases, ◌≡◌, refl, ap, Option, none, some, List, [], ◌∷◌, ◌++◌,
  inl, inr, if◌then◌else◌, arith,
}
use dex_server.Prelude.Int.{ℤ, pos, negsuc}
use dex_server.Domain.Errors.{Result, ok}
use dex_server.Domain.Trade.{Trade}
use dex_server.Backend.Memory.{Memory, memory}
use dex_server.Daos.Config.{get_last_block_key, save_last_processed_block}
use dex_server.Swap.Rounds.{going, to_int64}
use dex_server.Swap.Passing.{Passed}
use dex_server.Swap.Ethereum.{Payment, Block, Node, Listener, process_blocks}
use dex_server.Swap.Ethereum.Passed.{IsConsistent, paid, process_blocks-Passed}
use dex_server.Swap.Ethereum.Served.{IsServing, paid_from, process_blocks-paid_from}
use dex_server.Tests.Payments.{no_number, logged, logged-append, put}
use dex_server.Tests.Samples.{market, trade}

abbrev ether_trade : Payment → Trade
ether_trade p = record trade { pair_name = p.hash; amount = p.value_wei; taker = p.to }

abbrev ether_payment : Trade → Payment
ether_payment t = record { hash = t.pair_name; value_wei = t.amount; to = t.taker }

abbrev ether_trace : Memory → List Payment
ether_trace d = logged ether_payment d.trades

-- A block with two transactions, one of which makes a contract.
abbrev ether_block : ℕ → Block
ether_block n = record {
  number = n;
  transactions =
      if n == 5
      then record { hash = "a"; value = pos 7; to = some 3 }
        ∷ record { hash = "b"; value = pos 8; to = none }
        ∷ []
      else [];
}

abbrev ether_asked : Option ℤ → Option Block
ether_asked none = some (ether_block 8)
ether_asked (some (pos n)) = if ltb n 9 then some (ether_block n) else none
ether_asked (some (negsuc n)) = none

abbrev ether_node : Node Memory
ether_node = record {
  network_id = λ d. (ok "1", d);
  block_by_number = λ q d. (ok (ether_asked q), d);
  enabled = λ d. true;
  transaction_handler = λ d. some (λ p. put (ether_trade p));
}

ether_block_asked :
    (n : ℕ) (block : Block) → ether_asked (some (to_int64 n)) ≡ some block → block ≡ ether_block n
ether_block_asked n block h = elim (Bool-cases (ltb n (2 ^ 63))) [
  | inl e ↦ elim (Bool-cases (ltb n 9)) [
    | inl f ↦ let k = rw (e, f) at h in cc
    | inr f ↦ let k = rw (e, f) at h in absurd (cc)
  ]
  | inr e ↦ let k = rw e at h in absurd (cc)
]

ether_node-IsConsistent : IsConsistent memory ether_node no_number ether_block ether_trace
unfolding save_last_processed_block get_last_block_key
ether_node-IsConsistent = record {
  numbered = λ n. refl;
  answers = λ n d d' block p h. ether_block_asked n block (cc);
  asking_takes = λ q d. refl;
  saving_takes = λ n d. refl;
  handler_takes = λ d₀ handler e p d.
      let same : (λ q. put (ether_trade q)) ≡ handler = cc in
      rw (← same) (logged-append ether_payment d.trades (ether_trade p));
}

abbrev ether_listener : Listener
ether_listener = record { network_id = "1"; confirmed_block_number = 2 }

abbrev after_ether : Memory
unfolding process_blocks
after_ether = (process_blocks memory ether_node no_number ether_listener 3 4 market).1

ether_run :
    process_blocks memory ether_node no_number ether_listener 3 4 market ≡ (going 7, after_ether)
unfolding process_blocks
ether_run = refl

process_blocks-Passed_example :
    (ts : List Payment) × (ether_trace after_ether ≡ ether_trace market ++ ts)
    × Passed (paid ether_block) 4 7 ts
process_blocks-Passed_example =
    process_blocks-Passed memory ether_node no_number ether_listener ether_block ether_trace
      ether_node-IsConsistent 3 4 7 market after_ether (omega arith) (omega arith) ether_run

abbrev take_ether : Payment → Memory → Result (Unit {0}) × Memory
take_ether p = put (ether_trade p)

ether_served : (n : ℕ) → n ≤ 8 → ether_asked (some (to_int64 n)) ≡ some (ether_block n)
ether_served n h =
    let fits : ltb n (2 ^ 63) ≡ true = ground arith in
    let mined : ltb n 9 ≡ true = ground arith in rw (fits, mined) refl

ether_node-IsServing : IsServing memory ether_node no_number ether_block 8 take_ether ether_trace
unfolding save_last_processed_block get_last_block_key
ether_node-IsServing = record {
  enabled = λ d. refl;
  numbered = λ n. refl;
  serves = λ n d p h. (d, ap (λ x. (ok x, d)) (ether_served n h), refl);
  handles = λ d. refl;
  takes = λ p d. (
    record d { trades = d.trades ++ ether_trade p ∷ [] },
    refl,
    logged-append ether_payment d.trades (ether_trade p),
  );
  saving_takes = λ n d. refl;
}

process_blocks-paid_from_example :
    (d : Memory) × (process_blocks memory ether_node no_number ether_listener 3 4 market
      ≡ (going 7, d))
    × (ether_trace d ≡ ether_trace market ++ paid_from ether_block 4 3)
process_blocks-paid_from_example =
    process_blocks-paid_from memory ether_node no_number ether_listener ether_block 8 take_ether
      ether_trace ether_node-IsServing 3 4 market (omega arith) (omega arith) (omega arith)
