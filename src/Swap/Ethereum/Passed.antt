-- ===== src/Swap/Ethereum/Passed.antt =====
-- swap/ethereum/listener.go: which payments the handler has taken when the listener has come to a
-- block.
use Prim.Native.String.{String}
use dex_server.Prelude.{
  ℕ, ◌+◌, ◌%◌, ◌^◌, ◌<◌, Bool-cases, ◌==◌, ==_iff, Option, none, some, List, [], ◌∷◌, ◌++◌, ◌≡◌,
  refl, sym, ap, ◌∙◌, inl, inr, arith,
}
use mathlib.Core.List.{append-nil}
use dex_server.Domain.Errors.{Result, ok, err, is_panic}
use dex_server.Domain.Deposit.{Chain}
use dex_server.Backend.{Backend}
use dex_server.Backend.Monad.{Action}
use dex_server.Daos.Config.{save_last_processed_block}
use dex_server.Swap.Passing.{
  Moved, Passed, iterate-Passed, taken, Took, Took-nothing, Took-one, Took-append,
}
use dex_server.Swap.Rounds.{to_int64, Round, going, stopped, panicked}
use dex_server.Swap.Ethereum.{
  Payment, EthereumTransaction, Block, Node, Listener, get_block, handle_transaction,
  process_transactions, process_block, conclude_round, process_fetched, process_number,
  process_ahead, process_round, process_blocks,
}

-- The payments in transactions: those to an address.
abbrev pub payment_of : EthereumTransaction → Option ℕ → List Payment
payment_of t none = []
payment_of t (some to) = record { hash = t.hash; value_wei = t.value; to = to } ∷ []

abbrev pub payments : List EthereumTransaction → List Payment
payments [] = []
payments (t ∷ ts) = payment_of t t.to ++ payments ts

-- `trace` are the payments that handlers took. A handler takes what it is called with if it
-- succeeds; the other calls take none. The node's block of a number but 0 is the one of the chain.
pub record IsConsistent {D : Type 0} (b : Backend D) (node : Node D)
    (parse_uint : String → Result ℕ) (block_at : ℕ → Block) (trace : D → List Payment)
    : Type 0 where
  pub numbered : (n : ℕ) → (block_at n).number ≡ n
  pub answers :
      (n : ℕ) (d d' : D) (block : Block)
      → 0 < n
      → node.block_by_number (some (to_int64 n)) d ≡ (ok (some block), d')
      → block ≡ block_at n
  pub asking_takes : (q : Option _) (d : D) → trace (node.block_by_number q d).1 ≡ trace d
  pub saving_takes :
      (n : ℕ) (d : D)
      → trace (save_last_processed_block b parse_uint Chain.ethereum n d).1 ≡ trace d
  pub handler_takes :
      (d₀ : D) (handler : Payment → Action D (Unit {0}))
      → node.transaction_handler d₀ ≡ some handler
      → (p : Payment) (d : D) → trace (handler p d).1 ≡ trace d ++ taken (handler p d).0 p

module _ {D : Type 0} (trace : D → List Payment) (node : Node D)
    (handler : Payment → Action D (Unit {0}))
    (takes : (p : Payment) (d : D)
      → trace (handler p d).1 ≡ trace d ++ taken (handler p d).0 p) where
  handle_transaction-Took :
      (t : EthereumTransaction) (to : Option ℕ) (d : D)
      → Took trace (payment_of t to) d (handle_transaction node handler t to d)
  handle_transaction-Took t none d = Took-nothing trace d
  handle_transaction-Took t (some to) d = Took-one trace _ d (handler _ d) (takes _ d)

  process_transactions-Took :
      (ts : List EthereumTransaction) (d : D)
      → Took trace (payments ts) d (process_transactions node handler ts d)
  unfolding process_transactions
  process_transactions-Took [] d = Took-nothing trace d
  process_transactions-Took (t ∷ ts) d =
      Took-append trace (payment_of t t.to) (payments ts) d
        (handle_transaction node handler t t.to d) (process_transactions node handler ts)
        (handle_transaction-Took t t.to d) (process_transactions-Took ts)

-- The payments of the block of a number.
abbrev pub paid : (ℕ → Block) → ℕ → List Payment
paid block_at n = payments (block_at n).transactions

module _ {D : Type 0} (b : Backend D) (node : Node D) (parse_uint : String → Result ℕ)
    (l : Listener) (block_at : ℕ → Block) (trace : D → List Payment)
    (c : IsConsistent b node parse_uint block_at trace) where
  stays : (n : ℕ) (d e : D) → trace e ≡ trace d → Moved (paid block_at) trace n d (going n, e)
  stays n d e h = ([], h ∙ sym (append-nil (trace d)), inl (refl, tt))

  conclude_round-Moved :
      (n : ℕ) (d : D) (r : Result (Unit {0}) × D)
      → n + 1 < 2 ^ 64
      → Took trace (paid block_at n) d r
      → Moved (paid block_at) trace n d (conclude_round b node parse_uint l n (block_at n) r)
  unfolding conclude_round
  conclude_round-Moved n d (err e, d') h (ts, t, all, some_of) = elim (Bool-cases (is_panic e)) [
    | inl f ↦ rw f tt
    | inr f ↦ rw f (ts, t, inl (refl, some_of))
  ]
  conclude_round-Moved n d (ok u, d') h (ts, t, all, some_of) =
      let k = c.numbered n in (ts, c.saving_takes n d' ∙ t, inr (omega arith, all refl))

  process_fetched-Moved :
      (n : ℕ) (handler : Payment → Action D (Unit {0})) (d : D) (r : Result (Option Block) × D)
      → n + 1 < 2 ^ 64
      → ((p : Payment) (x : D) → trace (handler p x).1 ≡ trace x ++ taken (handler p x).0 p)
      → trace r.1 ≡ trace d
      → ((block : Block) → r.0 ≡ ok (some block) → block ≡ block_at n)
      → Moved (paid block_at) trace n d (process_fetched b node parse_uint l n handler r)
  unfolding process_fetched process_block
  process_fetched-Moved n handler d (err e, d') h takes t k = tt
  process_fetched-Moved n handler d (ok none, d') h takes t k = tt
  process_fetched-Moved n handler d (ok (some block), d') h takes t k = rw (k block refl) (
      conclude_round-Moved n d _ h (
        let (ts, e, all, some_of) =
          process_transactions-Took trace node handler takes (block_at n).transactions d' in
        (ts, e ∙ ap (λ x. x ++ ts) t, all, some_of)))

  -- A round that begins after calls that take no payment.
  since :
      (d d' : D) (n : ℕ) (t : trace d' ≡ trace d) (r : Round × D)
      → Moved (paid block_at) trace n d' r
      → Moved (paid block_at) trace n d r
  since d d' n t (going m, e) (ts, h, k) = (ts, h ∙ ap (λ x. x ++ ts) t, k)
  since d d' n t (stopped, e) k = tt
  since d d' n t (panicked, e) k = tt

  get_block_takes : (n : ℕ) (d : D) → trace (get_block node n d).1 ≡ trace d
  unfolding get_block
  get_block_takes n d = c.asking_takes _ d

  get_block_answers :
      (n : ℕ) (d d' : D) (block : Block)
      → 0 < n
      → get_block node n d ≡ (ok (some block), d')
      → block ≡ block_at n
  unfolding get_block
  get_block_answers n d d' block p h = elim (Bool-cases (n == 0)) [
    | inl e ↦ let z = (==_iff n 0).0 e in absurd (omega arith)
    | inr e ↦ c.answers n d d' block p (rw (e, get_block) at h)
  ]

  process_number-Moved :
      (n : ℕ) (d d₀ : D) (handler : Option (Payment → Action D (Unit {0})))
      → 0 < n
      → n + 1 < 2 ^ 64
      → node.transaction_handler d₀ ≡ handler
      → Moved (paid block_at) trace n d (process_number b node parse_uint l n handler d)
  unfolding process_number
  process_number-Moved n d d₀ none p h e = stays n d d refl
  process_number-Moved n d d₀ (some handler) p h e =
      process_fetched-Moved n handler d (get_block node n d) h (c.handler_takes d₀ handler e)
        (get_block_takes n d)
        (λ block f.
          get_block_answers n d (get_block node n d).1 block p
            (ap (λ x. (x, (get_block node n d).1)) f))

  process_ahead-Moved :
      (n : ℕ) (d : D) (r : Result (Option Block) × D)
      → 0 < n
      → n + 1 < 2 ^ 64
      → trace r.1 ≡ trace d
      → Moved (paid block_at) trace n d (process_ahead b node parse_uint l n r)
  unfolding process_ahead
  process_ahead-Moved n d (err e, d') p h t = stays n d d' t
  process_ahead-Moved n d (ok none, d') p h t = stays n d d' t
  process_ahead-Moved n d (ok (some ahead), d') p h t = elim (Bool-cases (ahead.number == 0)) [
    | inl e ↦ rw e (stays n d d' t)
    | inr e ↦ rw e (since d d' n t _ (process_number-Moved n d' d' _ p h refl))
  ]

  process_round-Moved :
      (n : ℕ) (d : D)
      → 0 < n
      → n + 1 < 2 ^ 64
      → Moved (paid block_at) trace n d (process_round b node parse_uint l n d)
  unfolding process_round
  process_round-Moved n d p h =
      let ahead = (n + l.confirmed_block_number) % 2 ^ 64 in
      elim (Bool-cases (node.enabled d)) [
        | inl e ↦
            rw e (process_ahead-Moved n d (get_block node ahead d) p h (get_block_takes ahead d))
        | inr e ↦ rw e tt
      ]

  -- Let the node give one block for each number but 0, and the handler take a payment exactly if
  -- it succeeds. If the listener, at a positive number, has after some rounds come to another one,
  -- with all of them below 2 ^ 64, then the handler took every payment of the blocks from the
  -- first number up to the other one, and nothing else but payments of these blocks and of the one
  -- that it is at, whatever failed on the way.
  pub process_blocks-Passed :
      (rounds n m : ℕ) (d e : D)
      → 0 < n
      → n + rounds < 2 ^ 64
      → process_blocks b node parse_uint l rounds n d ≡ (going m, e)
      → (ts : List Payment) × (trace e ≡ trace d ++ ts) × Passed (paid block_at) n m ts
  unfolding process_blocks
  process_blocks-Passed rounds n m d e p h r =
      iterate-Passed (paid block_at) trace (process_round b node parse_uint l) 1
        0xffff_ffff_ffff_ffff (λ k x a z. process_round-Moved k x a (omega arith)) rounds n m d e p
        (omega arith) r
