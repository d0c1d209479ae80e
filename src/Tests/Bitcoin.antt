-- ===== src/Tests/Bitcoin.antt =====
-- Runs of the theorem on the listener for Bitcoin.
use dex_server.Prelude.{ℕ, ◌==◌, ltb, false, Option, none, some, List, [], ◌∷◌, if◌then◌else◌}
use dex_server.Prelude.Int.{ℤ, pos, negsuc}
use dex_server.Domain.Errors.{Result, ok, err, invalid_chain}
use dex_server.Domain.Trade.{Trade}
use dex_server.Backend.Memory.{Memory, memory}
use dex_server.Swap.Passing.{Passed}
use Prim.Native.String.{String}
use dex_server.Swap.Bitcoin.{
  Payment, Block, ScriptClass, pub_key_hash, Node, Listener, process_blocks,
}
use dex_server.Tests.Payments.{no_number, logged, put}
use dex_server.Tests.Samples.{market, trade}

abbrev coin_trade : Payment → Trade
coin_trade p = record trade {
  pair_name = p.hash;
  taker = p.tx_out_index;
  amount = p.value_sat;
  side = p.to;
}

abbrev coin_payment : Trade → Payment
coin_payment t = record {
  hash = t.pair_name;
  tx_out_index = t.taker;
  value_sat = t.amount;
  to = t.side;
}

abbrev coin_trace : Memory → List Payment
coin_trace d = logged coin_payment d.trades

-- A block with a payment and an output whose script is not supported.
abbrev coin_block : ℕ → Block
coin_block n = record {
  transactions =
      if n == 5
      then record {
        hash = "a";
        tx_out =
            record { value = pos 7; pk_script = 1 } ∷ record { value = pos 8; pk_script = 2 } ∷ [];
      }
        ∷ []
      else [];
}

abbrev coin_script : ℕ → Result (ScriptClass × List String)
coin_script script = if script == 1 then ok (pub_key_hash, "b" ∷ []) else err invalid_chain

abbrev coin_hash : ℤ → Option ℕ
coin_hash (pos n) = if ltb n 9 then some n else none
coin_hash (negsuc n) = none

abbrev coin_node : Node Memory
coin_node = record {
  get_block_count = λ d. (ok (pos 9), d);
  get_block_hash = λ n d. (ok (coin_hash n), d);
  fetch_block = λ h d. (ok (coin_block h), d);
  extract_pk_script_addrs = λ testnet script. coin_script script;
  genesis_hash = λ testnet. 0;
  transaction_handler = λ d. some (λ p. put (coin_trade p));
}

abbrev coin_listener : Listener
coin_listener = record { testnet = false; confirmed_block_number = 1 }

abbrev after_coins : Memory
unfolding process_blocks
after_coins = (process_blocks memory coin_node no_number coin_listener 3 4 market).1
