-- ===== src/Swap/Ethereum/Served.antt =====
-- swap/ethereum/listener.go: how the listener gets on while nothing fails.
use Prim.Native.String.{String}
use mathlib.Core.List.{append-nil, append_assoc}
use dex_server.Prelude.{
  ℕ, zero, suc, ◌+◌, ◌%◌, ◌^◌, ◌<◌, ◌≤◌, true, false, Bool-cases, ◌==◌, ==_iff, Option, none, some,
  List, [], ◌∷◌, ◌++◌, ◌≡◌, refl, sym, ap, ◌∙◌, inl, inr, arith,
}
use dex_server.Domain.Errors.{Result, ok}
use dex_server.Domain.Deposit.{Chain}
use dex_server.Backend.{Backend}
use dex_server.Backend.Monad.{Action}
use dex_server.Daos.Config.{save_last_processed_block}
use dex_server.Swap.Rounds.{going, to_int64, iterate}
use dex_server.Swap.Ethereum.{
  Payment, EthereumTransaction, Block, Node, Listener, get_block, handle_transaction,
  process_transactions, process_block, conclude_round, process_fetched, process_number,
  process_ahead, process_round, process_blocks,
}
use dex_server.Swap.Ethereum.Passed.{payment_of, payments, paid}

-- The listener is enabled and has a handler, which takes each payment; the node has the blocks of a
-- chain up to its tip.
pub record IsServing {D : Type 0} (b : Backend D) (node : Node D) (parse_uint : String → Result ℕ)
    (block_at : ℕ → Block) (tip : ℕ) (handler : Payment → Action D (Unit {0}))
    (trace : D → List Payment) : Type 0 where
  pub enabled : (d : D) → node.enabled d ≡ true
  pub numbered : (n : ℕ) → (block_at n).number ≡ n
  pub serves :
      (n : ℕ) (d : D)
      → 0 < n
      → n ≤ tip
      → (d' : D) × (node.block_by_number (some (to_int64 n)) d ≡ (ok (some (block_at n)), d'))
        × (trace d' ≡ trace d)
  pub handles : (d : D) → node.transaction_handler d ≡ some handler
  pub takes :
      (p : Payment) (d : D)
      → (d' : D) × (handler p d ≡ (ok tt, d')) × (trace d' ≡ trace d ++ p ∷ [])
  pub saving_takes :
      (n : ℕ) (d : D)
      → trace (save_last_processed_block b parse_uint Chain.ethereum n d).1 ≡ trace d

-- The payments of so many blocks, from the one of a number on.
abbrev pub paid_from : (ℕ → Block) → ℕ → ℕ → List Payment
paid_from block_at n zero = []
paid_from block_at n (suc rounds) = paid block_at n ++ paid_from block_at (n + 1) rounds

module _ {D : Type 0} (b : Backend D) (node : Node D) (parse_uint : String → Result ℕ)
    (l : Listener) (block_at : ℕ → Block) (tip : ℕ) (handler : Payment → Action D (Unit {0}))
    (trace : D → List Payment) (s : IsServing b node parse_uint block_at tip handler trace) where
  handle_transaction-takes :
      (t : EthereumTransaction) (to : Option ℕ) (d : D)
      → (d' : D) × (handle_transaction node handler t to d ≡ (ok tt, d'))
        × (trace d' ≡ trace d ++ payment_of t to)
  handle_transaction-takes t none d = (d, refl, sym (append-nil (trace d)))
  handle_transaction-takes t (some to) d = s.takes _ d

  process_transactions-takes :
      (ts : List EthereumTransaction) (d : D)
      → (d' : D) × (process_transactions node handler ts d ≡ (ok tt, d'))
        × (trace d' ≡ trace d ++ payments ts)
  unfolding process_transactions
  process_transactions-takes [] d = (d, refl, sym (append-nil (trace d)))
  process_transactions-takes (t ∷ ts) d =
      let (d₁, e₁, t₁) = handle_transaction-takes t t.to d in
      let (d₂, e₂, t₂) = process_transactions-takes ts d₁ in
      (
        d₂,
        rw e₁ e₂,
        t₂
            ∙ ap (λ x. x ++ payments ts) t₁
            ∙ append_assoc (trace d) (payment_of t t.to) (payments ts),
      )

  positive : (n : ℕ) → 0 < n → (n == 0) ≡ false
  positive n p = elim (Bool-cases (n == 0)) [
    | inl e ↦ let z = (==_iff n 0).0 e in absurd (omega arith)
    | inr e ↦ e
  ]

  get_block-serves :
      (n : ℕ) (d : D)
      → 0 < n
      → n ≤ tip
      → (d' : D) × (get_block node n d ≡ (ok (some (block_at n)), d')) × (trace d' ≡ trace d)
  unfolding get_block
  get_block-serves n d p h =
      let (d', e, t) = s.serves n d p h in (d', rw (get_block, positive n p) e, t)

  process_round-takes :
      (n : ℕ) (d : D)
      → 0 < n
      → n + l.confirmed_block_number ≤ tip
      → tip + 1 < 2 ^ 64
      → (d' : D) × (process_round b node parse_uint l n d ≡ (going (n + 1), d'))
        × (trace d' ≡ trace d ++ paid block_at n)
  unfolding process_round process_ahead process_number process_fetched conclude_round process_block
  process_round-takes n d p h k =
      let ahead = n + l.confirmed_block_number in
      let (d₁, e₁, t₁) = get_block-serves ahead d (omega arith) h in
      let (d₂, e₂, t₂) = get_block-serves n d₁ p (omega arith) in
      let (d₃, e₃, t₃) = process_transactions-takes (block_at n).transactions d₂ in
      let fits : ahead % 2 ^ 64 ≡ ahead = omega arith in
      let next : (n + 1) % 2 ^ 64 ≡ n + 1 = omega arith in
      let synced : ((block_at ahead).number == 0) ≡ false =
        rw (s.numbered ahead) (positive ahead (omega arith)) in
      (
        (save_last_processed_block b parse_uint Chain.ethereum n d₃).1,
        rw (s.enabled d, fits, e₁, synced, s.handles d₁, e₂, e₃, s.numbered n, next) refl,
        s.saving_takes n d₃ ∙ t₃ ∙ ap (λ x. x ++ paid block_at n) (t₂ ∙ t₁),
      )

  -- Let the listener be enabled, its handler take every payment, and the node have the blocks of a
  -- chain up to its tip, which is below the largest number. From a positive number on, so many
  -- rounds that the confirmations of the last block are not beyond the tip bring the listener so
  -- many blocks further, and the handler takes exactly the payments of these blocks, once each and
  -- in their order.
  pub process_blocks-paid_from :
      (rounds n : ℕ) (d : D)
      → 0 < n
      → n + rounds + l.confirmed_block_number ≤ tip + 1
      → tip + 1 < 2 ^ 64
      → (d' : D) × (process_blocks b node parse_uint l rounds n d ≡ (going (n + rounds), d'))
        × (trace d' ≡ trace d ++ paid_from block_at n rounds)
  unfolding process_blocks iterate
  process_blocks-paid_from zero n d p h k =
      let count : n ≡ n + zero = omega arith in
      (d, ap (λ m. (going m, d)) count, sym (append-nil (trace d)))
  process_blocks-paid_from (suc rounds) n d p h k =
      let (d₁, e₁, t₁) = process_round-takes n d p (omega arith) k in
      let (d₂, e₂, t₂) = process_blocks-paid_from rounds (n + 1) d₁ (omega arith) (omega arith) k in
      let count : n + 1 + rounds ≡ n + suc rounds = omega arith in
      (
        d₂,
        rw (e₁, ← count) e₂,
        t₂
            ∙ ap (λ x. x ++ paid_from block_at (n + 1) rounds) t₁
            ∙ append_assoc (trace d) (paid block_at n) (paid_from block_at (n + 1) rounds),
      )
