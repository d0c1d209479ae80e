-- ===== src/Tests/Operator.antt =====
-- Runs of the theorems on the operator's queues.
use Prim.Native.String.{String}
use dex_server.Prelude.{◌≤◌, ◌<◌, ◌≡◌, refl, List, [], ◌∷◌, All, ◌⊎◌}
use dex_server.Domain.Errors.{err, queue_full}
use dex_server.Backend.{Message, tx_queue}
use dex_server.Backend.Laws.{Contained}
use dex_server.Backend.Memory.{Memory, memory}
use dex_server.Operator.Queues.{queue_trade, queue_trade_lem}
use dex_server.Operator.Execution.{execute_trade}
use dex_server.Operator.Execution.Protocol.{TraceLaws, Ran, execute_trade-Ran}
use dex_server.Tests.Samples.{market, batch}

abbrev published : Memory → List Message
published d = d.published

memory-TraceLaws : TraceLaws memory published
memory-TraceLaws = record {
  publish_ok = λ m d h. refl;
  publish_err = λ m d h. cc;
  call_keeps = λ m w d. refl;
  nonce_keeps = λ w d. refl;
  execute_keeps = λ m w g n d. refl;
  mined_keeps = λ tx d. refl;
  write_keeps = λ q f new d. refl;
}

execute_trade-Ran_example :
    Ran memory published memory-TraceLaws batch [] (execute_trade memory 1 batch market)
execute_trade-Ran_example = execute_trade-Ran memory published memory-TraceLaws 1 batch market

queue_trade_lem_example :
    ((q : String) × Contained q ("one" ∷ "two" ∷ [])
      × (memory.queue_length q market ≤ 10)
      × All (λ p. memory.queue_length q market ≤ memory.queue_length p market) ("one" ∷ "two" ∷ [])
      × (queue_trade memory ("one" ∷ "two" ∷ []) batch market
          ≡ memory.publish (tx_queue q batch) market))
    ⊎ (All (λ p. 10 < memory.queue_length p market) ("one" ∷ "two" ∷ [])
        × (queue_trade memory ("one" ∷ "two" ∷ []) batch market ≡ (err queue_full, market)))
queue_trade_lem_example = queue_trade_lem memory ("one" ∷ "two" ∷ []) batch market
