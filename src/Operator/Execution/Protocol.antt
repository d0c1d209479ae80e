-- ===== src/Operator/Execution/Protocol.antt =====
-- The messages that operator/txqueue.go sends while it executes a batch of trades, in every course
-- that the execution can take.
use mathlib.Core.List.{append-nil, append_assoc}
use dex_server.Prelude.{
  ◌≡◌, refl, subst, sym, ◌∙◌, inl, inr, Bool, List, [], ◌∷◌, ◌++◌, ltb, Bool-cases, ◌==◌, ◌&&◌, ℕ,
}
use dex_server.Domain.Errors.{
  Error, Result, ok, err, Result-cases, reverted_transaction, invalid_trade, could_not_update,
}
use dex_server.Domain.Trade.{Trade}
use dex_server.Domain.Matches.{
  Matches, trade_error, trade_tx_pending, trade_tx_success, trade_invalid,
}
use dex_server.Backend.{Backend, Message, Receipt}
use dex_server.Backend.Monad.{Action, throw, ◌>>◌, ignoring_error}
use dex_server.Daos.Trades.{trade_find_and_modify}
use dex_server.Operator.Execution.{
  message, on_outcome, on_result, sign_trade, send_trade, await_trade, update_pending_trade,
  update_pending, handle_trade_invalid, handle_tx_error, handle_error, handle_tx_success,
  conclude_trade, track_trade, execute_trade,
}

-- `trace` names the messages that are on the queues. Publishing adds one if it succeeds, and
-- nothing else that the execution calls adds any.
pub record TraceLaws {D : Type 0} (b : Backend D) (trace : D → List Message) : Type 0 where
  pub publish_ok :
      (m : Message) (d : D) {u : Unit {0}}
      → (b.publish m d).0 ≡ ok u
      → trace (b.publish m d).1 ≡ trace d ++ m ∷ []
  pub publish_err :
      (m : Message) (d : D) {e : Error}
      → (b.publish m d).0 ≡ err e
      → trace (b.publish m d).1 ≡ trace d
  pub call_keeps : (m : Matches) (w : ℕ) (d : D) → trace (b.call_batch_trades m w d).1 ≡ trace d
  pub nonce_keeps : (w : ℕ) (d : D) → trace (b.pending_nonce_at w d).1 ≡ trace d
  pub execute_keeps :
      (m : Matches) (w g n : ℕ) (d : D) → trace (b.execute_batch_trades m w g n d).1 ≡ trace d
  pub mined_keeps : (tx : ℕ) (d : D) → trace (b.wait_mined tx d).1 ≡ trace d
  pub write_keeps :
      (q : Trade → Bool) (f : Trade → Trade) (new : Trade) (d : D)
      → trace (b.trades.find_and_modify q f new d).1 ≡ trace d

-- The result of an execution with the messages that it sent: none only if the broker fails.
pub data Run (m : Matches) : Result (Unit {0}) → List Message → Type 0 where
  silent : (e : Error) → Run m (err e) []
  rejected : (e : Error) → Run m (err e) (message trade_invalid m "" ∷ [])
  failed : (e : Error) → Run m (err e) (message trade_error m "Server error" ∷ [])
  sent : (m' : Matches) (e : Error) → Run m (err e) (message trade_tx_pending m' "" ∷ [])
  reverted :
      (m' : Matches)
      → Run m
          (err reverted_transaction)
          (message trade_tx_pending m' "" ∷ message trade_error m' "Transaction error" ∷ [])
  settled :
      (m' : Matches)
      → Run m (ok tt) (message trade_tx_pending m' "" ∷ message trade_tx_success m' "" ∷ [])

-- A branch on the error of a call is one of its two branches.
on_result_cases :
    {D A B : Type 0} (P : Result B × D → Type 0) (m : Action D A) (stop : Error → Action D B)
    (done : A → Action D B) (d : D)
    → ((x : Error) → (m d).0 ≡ err x → P (stop x (m d).1))
    → ((a : A) → (m d).0 ≡ ok a → P (done a (m d).1))
    → P (on_result m stop done d)
on_result_cases {D} {A} {B} P m stop done d f g = go (m d).0 f g
  where
    go :
        (r : Result A)
        → ((x : Error) → r ≡ err x → P (stop x (m d).1))
        → ((a : A) → r ≡ ok a → P (done a (m d).1))
        → P (on_outcome r stop done (m d).1)
    go (ok a) f g = g a refl
    go (err x) f g = f x refl

module _ {D : Type 0} (b : Backend D) (trace : D → List Message) (laws : TraceLaws b trace) where
  -- What an execution of `m` that began with the messages `before` has done.
  abbrev pub Ran : Matches → List Message → Result (Unit {0}) × D → Type 0
  Ran m before r = (msgs : List Message) × (trace r.1 ≡ before ++ msgs) × Run m r.0 msgs

  -- A message whose failure is ignored, and then an error.
  give_up :
      (m : Matches) (msg : Message) (x : Error) (d : D)
      → ((e : Error) → Run m (err e) (msg ∷ []))
      → Ran m (trace d) ((ignoring_error (b.publish msg) >> throw x) d)
  give_up m msg x d r = elim (Result-cases (b.publish msg d).0) [
    | inl (u, e) ↦ (msg ∷ [], laws.publish_ok msg d e, r x)
    | inr (y, e) ↦ ([], laws.publish_err msg d e ∙ sym (append-nil (trace d)), silent x)
  ]

  update_pending-trace :
      (ts : List Trade) (tx : ℕ) (d : D) → trace (update_pending b ts tx d).1 ≡ trace d
  unfolding update_pending update_pending_trade trade_find_and_modify
  update_pending-trace [] tx d = refl
  update_pending-trace (t ∷ ts) tx d =
      update_pending-trace ts tx (update_pending_trade b t tx d).1 ∙ laws.write_keeps _ _ _ d

  extends :
      (msg : Message) (d : D) (before : List Message) (told : Message)
      → trace d ≡ before ++ told ∷ []
      → trace (b.publish msg d).1 ≡ trace d ++ msg ∷ []
      → trace (b.publish msg d).1 ≡ before ++ told ∷ msg ∷ []
  extends msg d before told t p = rw (p, t) (append_assoc before (told ∷ []) (msg ∷ []))

  -- Where the messages before are the same, so is what has been done.
  since :
      (m : Matches) (d e : D) (r : Result (Unit {0}) × D)
      → trace e ≡ trace d
      → Ran m (trace e) r
      → Ran m (trace d) r
  since m d e r p h = subst (λ t. Ran m t r) p h

  conclude_trade-Ran :
      (m m' : Matches) (receipt : Receipt) (before : List Message) (d : D)
      → trace d ≡ before ++ message trade_tx_pending m' "" ∷ []
      → Ran m before (conclude_trade b m' receipt d)
  unfolding conclude_trade handle_tx_error handle_tx_success
  conclude_trade-Ran m m' receipt before d t =
      let told = message trade_tx_pending m' "" in
      let problem = message trade_error m' "Transaction error" in
      let news = message trade_tx_success m' "" in
      elim (Bool-cases (receipt.status == 0 && receipt.post_state_length == 0)) [
        | inl c ↦ rw c (elim (Result-cases (b.publish problem d).0) [
          | inl (u, e) ↦ (
            told ∷ problem ∷ [],
            extends problem d before told t (laws.publish_ok problem d e),
            reverted m',
          )
          | inr (x, e) ↦ (told ∷ [], laws.publish_err problem d e ∙ t, sent m' reverted_transaction)
        ])
        | inr c ↦ rw c (elim (Result-cases (b.publish news d).0) [
          | inl (u, e) ↦ (
            told ∷ news ∷ [],
            extends news d before told t (laws.publish_ok news d e),
            rw e (settled m'),
          )
          | inr (x, e) ↦ (told ∷ [], laws.publish_err news d e ∙ t, rw e (sent m' x))
        ])
      ]

  await_trade-Ran : (m m' : Matches) (tx : ℕ) (d : D) → Ran m (trace d) (await_trade b m' tx d)
  unfolding await_trade
  await_trade-Ran m m' tx d =
      let told = message trade_tx_pending m' "" in
      on_result_cases (Ran m (trace d)) (b.publish told) (λ x. throw could_not_update)
        (λ u. on_result (b.wait_mined tx) throw (conclude_trade b m')) d
        (λ x p.
          ([], laws.publish_err told d p ∙ sym (append-nil (trace d)), silent could_not_update))
        λ u p.
          let e = (b.publish told d).1 in
          let t = laws.mined_keeps tx e ∙ laws.publish_ok told d p in
          on_result_cases (Ran m (trace d)) (b.wait_mined tx) throw (conclude_trade b m') e
            (λ x q. (told ∷ [], t, sent m' x))
            λ receipt q. conclude_trade-Ran m m' receipt (trace d) (b.wait_mined tx e).1 t

  track_trade-Ran : (m : Matches) (tx : ℕ) (d : D) → Ran m (trace d) (track_trade b m tx d)
  unfolding track_trade
  track_trade-Ran m tx d =
      let e = (update_pending b m.trades tx d).1 in
      let m' : Matches = record m { trades = (update_pending b m.trades tx d).0 } in
      since m d e (await_trade b m' tx e) (update_pending-trace m.trades tx d)
        (await_trade-Ran m m' tx e)

  send_trade-Ran :
      (wallet : ℕ) (m : Matches) (gas nonce : ℕ) (d : D)
      → Ran m (trace d) (send_trade b wallet m gas nonce d)
  unfolding send_trade handle_error
  send_trade-Ran wallet m gas nonce d =
      let e = (b.execute_batch_trades m wallet gas nonce d).1 in
      let k = laws.execute_keeps m wallet gas nonce d in
      on_result_cases (Ran m (trace d)) (b.execute_batch_trades m wallet gas nonce)
        (λ x. handle_error b m >> throw x) (track_trade b m) d
        (λ x p.
          since m d e ((handle_error b m >> throw x) e) k
            (give_up m (message trade_error m "Server error") x e failed))
        λ tx p. since m d e (track_trade b m tx e) k (track_trade-Ran m tx e)

  sign_trade-Ran :
      (wallet : ℕ) (m : Matches) (gas : ℕ) (d : D) → Ran m (trace d) (sign_trade b wallet m gas d)
  unfolding sign_trade handle_trade_invalid handle_error
  sign_trade-Ran wallet m gas d =
      let e = (b.pending_nonce_at wallet d).1 in
      let k = laws.nonce_keeps wallet d in
      elim (Bool-cases (ltb gas 140000)) [
        | inl low ↦ rw low (give_up m (message trade_invalid m "") invalid_trade d rejected)
        | inr high ↦ rw high (
            on_result_cases (Ran m (trace d)) (b.pending_nonce_at wallet)
              (λ x. handle_error b m >> throw x) (send_trade b wallet m gas) d
              (λ x p.
                since m d e ((handle_error b m >> throw x) e) k
                  (give_up m (message trade_error m "Server error") x e failed))
              λ nonce p.
                since m d e (send_trade b wallet m gas nonce e) k
                  (send_trade-Ran wallet m gas nonce e))
      ]

  -- Let publishing add a message exactly if it succeeds, and the other calls add none. Then
  -- whatever the node, the database and the broker answer, an execution adds the messages of one
  -- of the courses of `Run` and ends with that course's result: it succeeds only if the
  -- transaction was announced and then its success.
  pub execute_trade-Ran :
      (wallet : ℕ) (m : Matches) (d : D) → Ran m (trace d) (execute_trade b wallet m d)
  unfolding execute_trade handle_trade_invalid
  execute_trade-Ran wallet m d =
      let e = (b.call_batch_trades m wallet d).1 in
      let k = laws.call_keeps m wallet d in
      on_result_cases (Ran m (trace d)) (b.call_batch_trades m wallet)
        (λ x. handle_trade_invalid b m >> throw x) (sign_trade b wallet m) d
        (λ x p.
          since m d e ((handle_trade_invalid b m >> throw x) e) k
            (give_up m (message trade_invalid m "") x e rejected))
        λ gas p. since m d e (sign_trade b wallet m gas e) k (sign_trade-Ran wallet m gas e)
