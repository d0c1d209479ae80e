-- ===== src/Swap/Configurator/Courses.antt =====
-- swap/tomochain/account_configurator.go: which transactions the configuration of an account submits.
use Prim.Native.String.{String}
use dex_server.Prelude.{
  ℕ, zero, suc, Bool, true, false, Bool-cases, ◌==◌, Option, some, List, [], ◌∷◌, ◌++◌, ◌≡◌, ◌≢◌,
  refl, sym, ap, ◌∙◌, ◌⊎◌, inl, inr, arith,
}
use mathlib.Core.List.{append-nil, append_assoc}
use dex_server.Domain.Errors.{Error, Result, ok, err}
use dex_server.Domain.Deposit.{
  Chain, AssetCode, eth, btc, AddressAssociation, DepositTransaction, AssociationTransaction,
  TransactionType, create_offer, remove_signer,
}
use dex_server.Backend.Monad.{Action, pure, lift, andthen, ◌>>=◌}
use dex_server.Swap.Passing.{taken}
use dex_server.Swap.Configurator.{
  Configurator, creating_account, waiting_for_signer, configuring_account, set_account_status,
  Progress, failed, done, Work, build_transaction, submit_transaction, token_price,
  configure_account_transaction, remove_temporary_signer, build_unlock_account_transaction,
  load_with, load_account, get_account, create_unless_there, create_round, signer_found,
  signer_round, until, exchanged, exchanged_timelocked, after_removal, after_unlock, release,
  after_offer, send_offer, after_signer, await_signer, after_creation, configure_account,
}

-- `trace` are the transactions that were submitted. The handler adds a transaction exactly if it
-- succeeds, and the other handlers add none.
pub record SubmissionLaws {D : Type 0} (ac : Configurator D)
    (submit : Chain → ℕ → AssociationTransaction → Action D (Unit {0}))
    (trace : D → List AssociationTransaction) : Type 0 where
  pub given : ac.on_submit_transaction ≡ some submit
  pub submitting :
      (c : Chain) (user : ℕ) (t : AssociationTransaction) (d : D)
      → trace (submit c user t d).1 ≡ trace d ++ taken (submit c user t d).0 t
  pub loading :
      (c : Chain) (user : ℕ) (d : D)
      → trace (load_with ac ac.load_account_handler c user d).1 ≡ trace d
  pub creating :
      (x : DepositTransaction) (d : D) → trace (exchanged ac x ac.on_account_created d) ≡ trace d
  pub exchanging :
      (x : DepositTransaction) (d : D) → trace (exchanged ac x ac.on_exchanged d) ≡ trace d
  pub unlocking :
      (x : DepositTransaction) (t : AssociationTransaction) (d : D)
      → trace (exchanged_timelocked ac x ac.on_exchanged_timelocked t d) ≡ trace d

-- The offer for a deposit, which is one of ether.
pub record IsOffer {D : Type 0} (ac : Configurator D) (x : DepositTransaction)
    (t : AssociationTransaction) : Type 0 where
  pub of_ether : x.asset_code ≡ eth
  pub by_user : t.source ≡ x.associated_address
  pub offers : t.transaction_type ≡ create_offer
  pub terms : t.params ≡ x.amount ∷ ac.token_price_eth ∷ x.pair_name ∷ []

-- The courses of a configuration: what it submits, and how it ends.
pub data Course {D : Type 0} (ac : Configurator D) (x : DepositTransaction) (p : Progress)
    (ts : List AssociationTransaction) : Type 0 where
  idle : ts ≡ [] → p ≢ done → Course ac x p ts
  stuck :
      (o : AssociationTransaction) → IsOffer ac x o → ts ≡ o ∷ [] → p ≡ failed → Course ac x p ts
  locked :
      (o : AssociationTransaction)
      → IsOffer ac x o
      → ts ≡ o ∷ []
      → p ≡ done
      → (ac.lock_unix_timestamp == 0) ≡ false
      → Course ac x p ts
  released :
      (o r : AssociationTransaction)
      → IsOffer ac x o
      → r.source ≡ x.associated_address
      → r.transaction_type ≡ remove_signer
      → ts ≡ o ∷ r ∷ []
      → p ≡ done
      → (ac.lock_unix_timestamp == 0) ≡ true
      → Course ac x p ts

module _ {D : Type 0} (ac : Configurator D)
    (submit : Chain → ℕ → AssociationTransaction → Action D (Unit {0}))
    (trace : D → List AssociationTransaction) (l : SubmissionLaws ac submit trace) where
  -- A call that fails and submits nothing, or succeeds and submits the built transaction.
  abbrev Sends : (AssociationTransaction → Type 0) → D → Result (Unit {0}) × D → Type 0
  Sends P d r =
      ((e : Error) × (r.0 ≡ err e) × (trace r.1 ≡ trace d))
      ⊎ ((t : AssociationTransaction) × P t × (r.0 ≡ ok tt) × (trace r.1 ≡ trace d ++ t ∷ []))

  submitted-Sends :
      (P : AssociationTransaction → Type 0) (t : AssociationTransaction) (d : D)
      → P t
      → (r : Result (Unit {0}) × D) → trace r.1 ≡ trace d ++ taken r.0 t
      → Sends P d r
  submitted-Sends P t d p (ok u, e) h = inr (t, p, refl, h)
  submitted-Sends P t d p (err y, e) h = inl (y, refl, h ∙ append-nil (trace d))

  submit_transaction-Sends :
      (P : AssociationTransaction → Type 0) (c : Chain) (user : ℕ) (t : AssociationTransaction)
      → P t
      → (d : D) → Sends P d (submit_transaction ac c user t d)
  unfolding submit_transaction
  submit_transaction-Sends P c user t p d =
      rw l.given (submitted-Sends P t d p (submit c user t d) (l.submitting c user t d))

  built-Sends :
      (P : AssociationTransaction → Type 0) (c : Chain) (user : ℕ)
      (r : Result AssociationTransaction)
      → ((t : AssociationTransaction) → r ≡ ok t → P t)
      → (d : D) → Sends P d ((lift r >>= submit_transaction ac c user) d)
  built-Sends P c user (ok t) p d = submit_transaction-Sends P c user t (p t refl) d
  built-Sends P c user (err e) p d = inl (e, refl, refl)

  build_transaction-eq-ok :
      (source : ℕ) (type : TransactionType) (params : List String) {t : AssociationTransaction}
      → build_transaction ac source type params ≡ ok t
      → (t.source ≡ source) × (t.transaction_type ≡ type) × (t.params ≡ params)
  unfolding build_transaction
  build_transaction-eq-ok source type params h = ground arith

  ether :
      (c : AssetCode) (price : String)
      → token_price ac c ≡ ok price
      → (c ≡ eth) × (price ≡ ac.token_price_eth)
  unfolding token_price
  ether eth price h = (refl, cc)
  ether btc price h = cc
  ether (AssetCode.other s) price h = cc

  IsOffer-Sends :
      (x : DepositTransaction) (d : D)
      → Sends (IsOffer ac x) d (configure_account_transaction ac x d)
  unfolding configure_account_transaction
  IsOffer-Sends x d = priced x.asset_code refl (token_price ac x.asset_code) refl
    where
      priced :
          (c : AssetCode)
          → x.asset_code ≡ c
          → (r : Result String) → token_price ac c ≡ r
          → Sends (IsOffer ac x) d (
              (lift r >>= λ price.
              lift (
                build_transaction ac x.associated_address create_offer
                  (x.amount ∷ price ∷ x.pair_name ∷ []))
              >>= submit_transaction ac x.chain x.associated_address)
                d)
      priced c e (err y) h = inl (y, refl, refl)
      priced c e (ok price) h =
          built-Sends (IsOffer ac x) x.chain x.associated_address _
            (λ t k.
              let (by, offers, terms) =
                build_transaction-eq-ok x.associated_address create_offer _ k in
              let (is_eth, is_price) = ether c price h in
              record {
                of_ether = e ∙ is_eth;
                by_user = by;
                offers = offers;
                terms = terms ∙ ap (λ s. x.amount ∷ s ∷ x.pair_name ∷ []) is_price;
              })
            d

  removal-Sends :
      (x : DepositTransaction) (d : D)
      → Sends
          (λ t. (t.source ≡ x.associated_address) × (t.transaction_type ≡ remove_signer))
          d
          (remove_temporary_signer ac x.chain x.associated_address d)
  unfolding remove_temporary_signer
  removal-Sends x d =
      built-Sends _ x.chain x.associated_address _
        (λ t k.
          let e = build_transaction-eq-ok x.associated_address remove_signer [] k in (e.0, e.1))
        d

  until_keeps :
      (round : D → Bool × D)
      → ((d : D) → trace (round d).1 ≡ trace d)
      → (n : ℕ) (d : D) → trace (until n round d).1 ≡ trace d
  unfolding until
  until_keeps round keeps zero d = refl
  until_keeps round keeps (suc n) d = elim (Bool-cases (round d).0) [
    | inl e ↦ rw e (keeps d)
    | inr e ↦ rw e (until_keeps round keeps n (round d).1 ∙ keeps d)
  ]

  load_keeps : (c : Chain) (user : ℕ) (d : D) → trace (load_account ac c user d).1 ≡ trace d
  unfolding load_account
  load_keeps c user d = l.loading c user d

  signer_found_keeps : (r : Result (Option AddressAssociation) × D) → (signer_found ac r).1 ≡ r.1
  signer_found_keeps (ok a, d) = refl
  signer_found_keeps (err e, d) = refl

  signer_round_keeps : (c : Chain) (user : ℕ) (d : D) → trace (signer_round ac c user d).1 ≡ trace d
  unfolding signer_round
  signer_round_keeps c user d = elim (Bool-cases (ac.enabled d)) [
    | inl e ↦ rw e (ap trace (signer_found_keeps (load_account ac c user d)) ∙ load_keeps c user d)
    | inr e ↦ rw e refl
  ]

  -- The account exists as far as the code is concerned: no transaction creates one.
  create_round_keeps : (c : Chain) (user : ℕ) (d : D) → trace (create_round ac c user d).1 ≡ trace d
  unfolding create_round get_account
  create_round_keeps c user d = elim (Bool-cases (ac.enabled d)) [
    | inl e ↦ rw e (go (load_account ac c user d) (load_keeps c user d))
    | inr e ↦ rw e refl
  ]
    where
      go :
          (r : Result (Option AddressAssociation) × D)
          → trace r.1 ≡ trace d
          → trace (create_unless_there ac c user (andthen r.0 r.1 (λ a. pure (a, true)))).1
            ≡ trace d
      go (ok a, d') h = h
      go (err e, d') h = h

  -- What the work from a world on submits, and the course that this and what was submitted before
  -- make.
  abbrev Runs : DepositTransaction → List AssociationTransaction → D → Progress × Work D → Type 0
  Runs x before d r =
      (ts : List AssociationTransaction) × (trace r.1.world ≡ trace d ++ ts)
      × Course ac x r.0 (before ++ ts)

  after_removal-Runs :
      (x : DepositTransaction) (o : AssociationTransaction) (w : Work D) (d : D)
      → IsOffer ac x o
      → (ac.lock_unix_timestamp == 0) ≡ true
      → (r : Result (Unit {0}) × D)
      → Sends (λ t. (t.source ≡ x.associated_address) × (t.transaction_type ≡ remove_signer)) d r
      → Runs x (o ∷ []) d (after_removal ac x w r)
  after_removal-Runs x o w d p u (ok v, e) (inl (y, f, k)) = absurd (cc)
  after_removal-Runs x o w d p u (err y, e) (inl (y', f, k)) =
      ([], k ∙ sym (append-nil (trace d)), stuck o p refl refl)
  after_removal-Runs x o w d p u (err y, e) (inr (t, q, f, k)) = absurd (cc)
  after_removal-Runs x o w d p u (ok v, e) (inr (t, q, f, k)) =
      (t ∷ [], l.exchanging x e ∙ k, released o t p q.0 q.1 refl refl u)

  after_unlock-Runs :
      (x : DepositTransaction) (o : AssociationTransaction) (w : Work D)
      → IsOffer ac x o
      → (ac.lock_unix_timestamp == 0) ≡ false
      → (r : Result AssociationTransaction) → Runs x (o ∷ []) w.world (after_unlock ac x w r)
  after_unlock-Runs x o w p u (err e) = ([], sym (append-nil (trace w.world)), stuck o p refl refl)
  after_unlock-Runs x o w p u (ok t) =
      ([], l.unlocking x t w.world ∙ sym (append-nil (trace w.world)), locked o p refl refl u)

  release-Runs :
      (x : DepositTransaction) (o : AssociationTransaction) (w : Work D)
      → IsOffer ac x o
      → Runs x (o ∷ []) w.world (release ac x w)
  unfolding release
  release-Runs x o w p = elim (Bool-cases (ac.lock_unix_timestamp == 0)) [
    | inl e ↦ rw e (
        after_removal-Runs x o w w.world p e
          (remove_temporary_signer ac x.chain x.associated_address w.world)
          (removal-Sends x w.world))
    | inr e ↦
        rw e
          (after_unlock-Runs x o w p e (build_unlock_account_transaction ac x.associated_address))
  ]

  after_offer-Runs :
      (x : DepositTransaction) (w : Work D) (d : D) (r : Result (Unit {0}) × D)
      → Sends (IsOffer ac x) d r
      → Runs x [] d (after_offer ac x w r)
  after_offer-Runs x w d (ok v, e) (inl (y, f, k)) = absurd (cc)
  after_offer-Runs x w d (err y, e) (inl (y', f, k)) =
      ([], k ∙ sym (append-nil (trace d)), idle refl (λ g. cc))
  after_offer-Runs x w d (err y, e) (inr (o, p, f, k)) = absurd (cc)
  after_offer-Runs x w d (ok v, e) (inr (o, p, f, k)) =
      let (ts, t, course) = release-Runs x o _ p in
      (o ∷ ts, t ∙ ap (λ us. us ++ ts) k ∙ append_assoc (trace d) (o ∷ []) ts, course)

  send_offer-Runs : (x : DepositTransaction) (w : Work D) → Runs x [] w.world (send_offer ac x w)
  unfolding send_offer
  send_offer-Runs x w =
      after_offer-Runs x (set_account_status x.associated_address (some configuring_account) w)
        w.world (configure_account_transaction ac x w.world) (IsOffer-Sends x w.world)

  -- Work that begins after calls that submit nothing.
  Runs-since :
      (x : DepositTransaction) (d d' : D) (r : Progress × Work D)
      → trace d' ≡ trace d
      → Runs x [] d' r
      → Runs x [] d r
  Runs-since x d d' r h (ts, t, course) = (ts, t ∙ ap (λ us. us ++ ts) h, course)

  after_signer-Runs :
      (x : DepositTransaction) (w : Work D) (d : D) (r : Bool × D)
      → trace r.1 ≡ trace d
      → Runs x [] d (after_signer ac x w r)
  after_signer-Runs x w d (true, e) h =
      Runs-since x d e (send_offer ac x (record w { world = e })) h
        (send_offer-Runs x (record w { world = e }))
  after_signer-Runs x w d (false, e) h = ([], h ∙ sym (append-nil (trace d)), idle refl (λ g. cc))

  await_signer-Runs :
      (x : DepositTransaction) (rounds : ℕ) (w : Work D)
      → Runs x [] w.world (await_signer ac x rounds w)
  unfolding await_signer
  await_signer-Runs x rounds w =
      after_signer-Runs x (set_account_status x.associated_address (some waiting_for_signer) w)
        w.world (until rounds (signer_round ac x.chain x.associated_address) w.world)
        (until_keeps _ (signer_round_keeps x.chain x.associated_address) rounds w.world)

  after_creation-Runs :
      (x : DepositTransaction) (rounds : ℕ) (w : Work D) (d : D) (r : Bool × D)
      → trace r.1 ≡ trace d
      → Runs x [] d (after_creation ac x rounds w r)
  after_creation-Runs x rounds w d (true, e) h =
      let w' = record w { world = exchanged ac x ac.on_account_created e } in
      Runs-since x d w'.world (await_signer ac x rounds w') (l.creating x e ∙ h)
        (await_signer-Runs x rounds w')
  after_creation-Runs x rounds w d (false, e) h =
      ([], h ∙ sym (append-nil (trace d)), idle refl (λ g. cc))

  -- Let the handler of a submission note a transaction exactly if it succeeds, and the other
  -- handlers none. However many rounds its loops are given, a configuration submits nothing and is
  -- not done; or it submits the offer, for a deposit of ether, and fails; or it submits the offer
  -- and is done, where a lock is set; or it submits the offer and then the removal of the user's
  -- signer and is done, where none is.
  pub configure_account-Course :
      (x : DepositTransaction) (rounds : ℕ) (w : Work D)
      → (ts : List AssociationTransaction) × (trace (configure_account ac x rounds w).1.world
          ≡ trace w.world ++ ts)
        × Course ac x (configure_account ac x rounds w).0 ts
  unfolding configure_account
  configure_account-Course x rounds w =
      after_creation-Runs x rounds
        (set_account_status x.associated_address (some creating_account) w) w.world
        (until rounds (create_round ac x.chain x.associated_address) w.world)
        (until_keeps _ (create_round_keeps x.chain x.associated_address) rounds w.world)
