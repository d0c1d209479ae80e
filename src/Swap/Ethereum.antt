-- ===== src/Swap/Ethereum.antt =====
-- swap/ethereum/listener.go: the listener for payments on Ethereum.
pub mod Passed
pub mod Served
use Prim.Native.String.{String}
use text.Mathlib.Text.{◌==◌ as str_eq}
use dex_server.Prelude.{
  ℕ, zero, suc, ◌+◌, ◌-◌, ◌%◌, ◌^◌, Bool, ltb, ◌==◌, if◌then◌else◌, Option, none, some, List, [],
  ◌∷◌,
}
use dex_server.Prelude.Int.{ℤ, pos, negsuc}
use dex_server.Domain.Errors.{Result, ok, err, is_panic, invalid_network_id, block_not_found}
use dex_server.Domain.Deposit.{Chain}
use dex_server.Backend.{Backend}
use dex_server.Backend.Monad.{Action, pure, throw, ◌>>=◌, ◌>>◌}
use dex_server.Swap.Rounds.{to_int64, Round, going, stopped, panicked, iterate}
use dex_server.Daos.Config.{get_block_to_process, save_last_processed_block}

-- `Transaction`
pub record Payment : Type 0 where
  pub hash : String
  pub value_wei : ℤ
  pub to : ℕ

-- What the listener reads of a block of the node. A transaction with no receiver makes a contract.
pub record EthereumTransaction : Type 0 where
  pub hash : String
  pub value : ℤ
  pub to : Option ℕ

pub record Block : Type 0 where
  pub number : ℕ
  pub transactions : List EthereumTransaction

-- The node: a number that is not there asks for the latest block, and `none` is the answer that
-- there is no such block. The listener may be stopped and given a handler at any time.
pub record Node (D : Type 0) : Type 0 where
  pub network_id : Action D String
  pub block_by_number : Option ℤ → Action D (Option Block)
  pub enabled : D → Bool
  pub transaction_handler : D → Option (Payment → Action D (Unit {0}))

-- `Listener`, without what it calls.
pub record Listener : Type 0 where
  pub network_id : String
  pub confirmed_block_number : ℕ

module _ {D : Type 0} (node : Node D) where
  unfoldable pub get_block : ℕ → Action D (Option Block)
  get_block n = node.block_by_number (if n == 0 then none else some (to_int64 n))

  -- What the loop of `processBlock` does with a transaction.
  abbrev pub handle_transaction :
      (Payment → Action D (Unit {0})) → EthereumTransaction → Option ℕ → Action D (Unit {0})
  handle_transaction handler t none = pure tt
  handle_transaction handler t (some to) =
      handler (record { hash = t.hash; value_wei = t.value; to = to })

  unfoldable pub process_transactions :
      (Payment → Action D (Unit {0})) → List EthereumTransaction → Action D (Unit {0})
  process_transactions handler [] = pure tt
  process_transactions handler (t ∷ ts) =
      handle_transaction handler t t.to >> process_transactions handler ts

  unfoldable pub process_block :
      (Payment → Action D (Unit {0})) → Option Block → Action D (Unit {0})
  unfolding process_transactions
  process_block handler none = throw block_not_found
  process_block handler (some block) = process_transactions handler block.transactions

module _ {D : Type 0} (b : Backend D) (node : Node D) (parse_uint : String → Result ℕ)
    (l : Listener) where
  -- The rest of a round, with what `processBlock` returned. An error of the storage is logged.
  unfoldable pub conclude_round : ℕ → Block → Result (Unit {0}) × D → Round × D
  unfolding save_last_processed_block is_panic
  conclude_round n block (err e, d) = if is_panic e then (panicked, d) else (going n, d)
  conclude_round n block (ok u, d) = (
    going ((block.number + 1) % 2 ^ 64),
    (save_last_processed_block b parse_uint Chain.ethereum n d).1,
  )

  -- The rest of a round, with the block of the number. Without it, whether or not there was an
  -- error, `processBlock` returns an error, and its message asks the nil block for its number.
  unfoldable pub process_fetched :
      ℕ → (Payment → Action D (Unit {0})) → Result (Option Block) × D → Round × D
  unfolding conclude_round process_block
  process_fetched n handler (err e, d) = (panicked, d)
  process_fetched n handler (ok none, d) = (panicked, d)
  process_fetched n handler (ok (some block), d) =
      conclude_round n block (process_block node handler (some block) d)

  -- The rest of a round, with the handler.
  unfoldable pub process_number : ℕ → Option (Payment → Action D (Unit {0})) → D → Round × D
  unfolding process_fetched get_block
  process_number n none d = (going n, d)
  process_number n (some handler) d = process_fetched n handler (get_block node n d)

  -- The rest of a round, with the block that is some confirmations ahead.
  unfoldable pub process_ahead : ℕ → Result (Option Block) × D → Round × D
  unfolding process_number
  process_ahead n (err e, d) = (going n, d)
  process_ahead n (ok none, d) = (going n, d)
  process_ahead n (ok (some ahead), d) =
      if ahead.number == 0 then (going n, d) else process_number n (node.transaction_handler d) d

  -- One round of the loop of `processBlocks`; the pauses are left out.
  unfoldable pub process_round : ℕ → D → Round × D
  unfolding process_ahead get_block
  process_round n d =
      if node.enabled d
      then process_ahead n (get_block node ((n + l.confirmed_block_number) % 2 ^ 64) d)
      else (stopped, d)

  -- So many rounds of `processBlocks`.
  unfoldable pub process_blocks : ℕ → ℕ → D → Round × D
  unfolding process_round iterate
  process_blocks = iterate process_round

  -- `Start`, up to the number with which the loop begins in a goroutine of its own.
  unfoldable pub start : Action D ℕ
  unfolding get_block_to_process
  start = do
    n ← get_block_to_process b parse_uint Chain.ethereum
    id ← node.network_id
    if str_eq id l.network_id then pure n else throw invalid_network_id
