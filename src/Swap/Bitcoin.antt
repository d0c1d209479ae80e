-- ===== src/Swap/Bitcoin.antt =====
-- swap/bitcoin/listener.go: the listener for payments on Bitcoin.
pub mod Passed
use Prim.Native.String.{String}
use dex_server.Prelude.{
  ℕ, suc, ◌+◌, ◌%◌, ◌^◌, Bool, ◌==◌, if◌then◌else◌, Option, none, some, List, [], ◌∷◌,
}
use dex_server.Prelude.Int.{ℤ}
use dex_server.Domain.Errors.{Result, ok, err, is_panic, runtime_panic, invalid_network_id}
use dex_server.Domain.Deposit.{Chain}
use dex_server.Backend.{Backend}
use dex_server.Backend.Monad.{Action, pure, throw, ◌>>=◌, ◌>>◌}
use dex_server.Daos.Config.{to_uint64, get_block_to_process, save_last_processed_block}
use dex_server.Swap.Rounds.{to_int64, Round, going, panicked, iterate}

-- `Transaction`
pub record Payment : Type 0 where
  pub hash : String
  pub tx_out_index : ℕ
  pub value_sat : ℤ
  pub to : String

-- What the listener reads of a block.
pub record TxOut : Type 0 where
  pub value : ℤ
  pub pk_script : ℕ

pub record BitcoinTransaction : Type 0 where
  pub hash : String
  pub tx_out : List TxOut

pub record Block : Type 0 where
  pub transactions : List BitcoinTransaction

-- The classes of scripts that the code names: `PubKeyTy` and `PubKeyHashTy`.
pub data ScriptClass : Type 0 where
  pub_key pub_key_hash other : ScriptClass

unfoldable pub is_supported : ScriptClass → Bool
is_supported pub_key = Bool.true
is_supported pub_key_hash = Bool.true
is_supported other = Bool.false

-- The node, and the package txscript, which is told the chain; a hash that is `none` is the answer
-- that the height is out of range. The handler may be set at any time.
pub record Node (D : Type 0) : Type 0 where
  pub get_block_count : Action D ℤ
  pub get_block_hash : ℤ → Action D (Option ℕ)
  pub fetch_block : ℕ → Action D Block
  pub extract_pk_script_addrs : Bool → ℕ → Result (ScriptClass × List String)
  pub genesis_hash : Bool → ℕ
  pub transaction_handler : D → Option (Payment → Action D (Unit {0}))

-- `Listener`, without what it calls.
pub record Listener : Type 0 where
  pub testnet : Bool
  pub confirmed_block_number : ℕ

-- The payment of an output: one to the single address of a supported script.
abbrev pub payment_to : ℕ → BitcoinTransaction → TxOut → List String → Option Payment
payment_to index t out [] = none
payment_to index t out (a ∷ []) =
    some (record { hash = t.hash; tx_out_index = index; value_sat = out.value; to = a })
payment_to index t out (a ∷ c ∷ rest) = none

abbrev pub payment_of :
    ℕ → BitcoinTransaction → TxOut → Result (ScriptClass × List String) → Option Payment
unfolding is_supported
payment_of index t out (err e) = none
payment_of index t out (ok (class, addresses)) =
    if is_supported class then payment_to index t out addresses else none

module _ {D : Type 0} (node : Node D) (l : Listener) where
  abbrev pub fetch_hashed : Option ℕ → Action D (Option Block)
  fetch_hashed none = pure none
  fetch_hashed (some hash) = do block ← node.fetch_block hash; pure (some block)

  unfoldable pub get_block : ℕ → Action D (Option Block)
  get_block n = node.get_block_hash (to_int64 n) >>= fetch_hashed

  -- A handler that is nil is called nevertheless.
  abbrev pub call_handler : Option (Payment → Action D (Unit {0})) → Payment → Action D (Unit {0})
  call_handler none p = throw runtime_panic
  call_handler (some handler) p = handler p

  abbrev pub handle_payment : Option Payment → Action D (Unit {0})
  handle_payment none d = pure tt d
  handle_payment (some p) d = call_handler (node.transaction_handler d) p d

  -- The inner loop of `processBlock`, from the output of an index on.
  unfoldable pub process_outputs : BitcoinTransaction → ℕ → List TxOut → Action D (Unit {0})
  process_outputs t index [] = pure tt
  process_outputs t index (out ∷ outs) =
      handle_payment (payment_of index t out (node.extract_pk_script_addrs l.testnet out.pk_script))
      >> process_outputs t (suc index) outs

  unfoldable pub process_transactions : List BitcoinTransaction → Action D (Unit {0})
  unfolding process_outputs
  process_transactions [] = pure tt
  process_transactions (t ∷ ts) = process_outputs t 0 t.tx_out >> process_transactions ts

  unfoldable pub process_block : Block → Action D (Unit {0})
  unfolding process_transactions
  process_block block = process_transactions block.transactions

module _ {D : Type 0} (b : Backend D) (node : Node D) (parse_uint : String → Result ℕ)
    (l : Listener) where
  -- The rest of a round, with what `processBlock` returned. An error of the storage is logged.
  unfoldable pub conclude_round : ℕ → Result (Unit {0}) × D → Round × D
  unfolding save_last_processed_block is_panic
  conclude_round n (err e, d) = if is_panic e then (panicked, d) else (going n, d)
  conclude_round n (ok u, d) =
      (going ((n + 1) % 2 ^ 64), (save_last_processed_block b parse_uint Chain.bitcoin n d).1)

  -- The rest of a round, with the block that is some confirmations ahead. This is the one that is
  -- processed.
  unfoldable pub process_ahead : ℕ → Result (Option Block) × D → Round × D
  unfolding conclude_round process_block
  process_ahead n (err e, d) = (going n, d)
  process_ahead n (ok none, d) = (going n, d)
  process_ahead n (ok (some ahead), d) = conclude_round n (process_block node l ahead d)

  -- One round of the loop of `processBlocks`; the pauses are left out.
  unfoldable pub process_round : ℕ → D → Round × D
  unfolding process_ahead get_block
  process_round n d = process_ahead n (get_block node l ((n + l.confirmed_block_number) % 2 ^ 64) d)

  -- So many rounds of `processBlocks`.
  unfoldable pub process_blocks : ℕ → ℕ → D → Round × D
  unfolding process_round iterate
  process_blocks = iterate process_round

  -- `Start`, from the test of the genesis block on, whose hash is there.
  unfoldable pub start_at : Option ℕ → Action D ℕ
  unfolding get_block_to_process to_uint64
  start_at none = throw runtime_panic
  start_at (some genesis) =
      if genesis == node.genesis_hash l.testnet
      then (do
        n ← get_block_to_process b parse_uint Chain.bitcoin
        if n == 0 then (do count ← node.get_block_count; pure (to_uint64 count)) else pure n)
      else throw invalid_network_id

  -- `Start`, up to the number with which the loop begins in a goroutine of its own.
  unfoldable pub start : Action D ℕ
  unfolding start_at
  start = node.get_block_hash (to_int64 0) >>= start_at
