-- ===== src/Swap/Bitcoin/Passed.antt =====
-- swap/bitcoin/listener.go: which payments the handler has taken when the listener has come to a
-- block.
use Prim.Native.String.{String}
use dex_server.Prelude.{ℕ, suc, ◌+◌, Bool, Option, none, some, List, [], ◌∷◌, ◌++◌, ◌≡◌}
use dex_server.Domain.Errors.{Result, ok}
use dex_server.Domain.Deposit.{Chain}
use dex_server.Backend.{Backend}
use dex_server.Backend.Monad.{Action}
use dex_server.Daos.Config.{save_last_processed_block}
use dex_server.Swap.Passing.{taken}
use dex_server.Swap.Bitcoin.{
  Payment, TxOut, BitcoinTransaction, Block, Node, Listener, payment_of, get_block,
}

abbrev pub listed : Option Payment → List Payment
listed none = []
listed (some p) = p ∷ []

-- The payments in outputs, from the one of an index on, and in transactions.
module _ {D : Type 0} (node : Node D) (testnet : Bool) where
  abbrev pub output_payments : BitcoinTransaction → ℕ → List TxOut → List Payment
  output_payments t index [] = []
  output_payments t index (out ∷ outs) =
      listed (payment_of index t out (node.extract_pk_script_addrs testnet out.pk_script))
      ++ output_payments t (suc index) outs

  abbrev pub payments : List BitcoinTransaction → List Payment
  payments [] = []
  payments (t ∷ ts) = output_payments t 0 t.tx_out ++ payments ts

-- `trace` are the payments that handlers took. A handler takes what it is called with if it
-- succeeds; the other calls take none. The node's block of a height is the one of the chain.
pub record IsConsistent {D : Type 0} (b : Backend D) (node : Node D)
    (parse_uint : String → Result ℕ) (l : Listener) (block_at : ℕ → Block)
    (trace : D → List Payment) : Type 0 where
  pub answers :
      (n : ℕ) (d d' : D) (block : Block)
      → get_block node l n d ≡ (ok (some block), d')
      → block ≡ block_at n
  pub asking_takes : (n : ℕ) (d : D) → trace (get_block node l n d).1 ≡ trace d
  pub saving_takes :
      (n : ℕ) (d : D) → trace (save_last_processed_block b parse_uint Chain.bitcoin n d).1 ≡ trace d
  pub handler_takes :
      (d₀ : D) (handler : Payment → Action D (Unit {0}))
      → node.transaction_handler d₀ ≡ some handler
      → (p : Payment) (d : D) → trace (handler p d).1 ≡ trace d ++ taken (handler p d).0 p

module _ {D : Type 0} (b : Backend D) (node : Node D) (parse_uint : String → Result ℕ)
    (l : Listener) (block_at : ℕ → Block) (trace : D → List Payment)
    (c : IsConsistent b node parse_uint l block_at trace) where
  -- The payments of the block that the listener looks at when it is at a number.
  abbrev pub paid : ℕ → List Payment
  paid n = payments node l.testnet (block_at (n + l.confirmed_block_number)).transactions
