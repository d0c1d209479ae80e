-- ===== src/Endpoints/Deposits/Queueing.antt =====
-- endpoints/deposit.go: which payments on Ethereum are queued.
use dex_server.Prelude.{Bool, true, false, none, some, List, [], ◌∷◌, ◌++◌, ◌≡◌, ◌⊎◌}
use dex_server.Numbers.{is_strictly_smaller_than}
use dex_server.Domain.Errors.{Error, Result, ok, err}
use dex_server.Domain.Deposit.{Chain, eth, Association, is_success, DepositTransaction}
use dex_server.Backend.{Backend, Message, deposit}
use dex_server.Codec.{Texts}
use dex_server.Swap.Ethereum.{Payment}
use dex_server.Swap.Passing.{taken}
use dex_server.Daos.Associations.{get_association_by_chain_address}
use dex_server.Services.Deposits.{Outside}
use dex_server.Endpoints.Deposits.{Gateway, deposit_of}

-- `trace` are the messages that were published. Publishing adds a message exactly if it succeeds,
-- and the calls of the associations add none.
pub record MessageLaws {D : Type 0} (b : Backend D) (trace : D → List Message) : Type 0 where
  pub looking_up :
      (q : Association → Bool) (n : _) (d : D) → trace (b.associations.get q n d).1 ≡ trace d
  pub updating :
      (q : Association → Bool) (f : Association → Association) (d : D)
      → trace (b.associations.update q f d).1 ≡ trace d
  pub publishing :
      (m : Message) (d : D) → trace (b.publish m d).1 ≡ trace d ++ taken (b.publish m d).0 m

-- What became of a payment: nothing was queued, and then, if there was no error, for one of four
-- reasons; or exactly the deposit was, for an association that is not done.
pub record IsSkipped {D : Type 0} (b : Backend D) (trace : D → List Message) (g : Gateway D)
    (p : Payment) (d : D) (r : Result (Unit {0}) × D) : Type 0 where
  pub silent : trace r.1 ≡ trace d
  pub reason :
      r.0 ≡ ok tt
      → (is_strictly_smaller_than p.value_wei g.minimum_value_wei ≡ true)
        ⊎ (((e : Error) × ((get_association_by_chain_address b Chain.ethereum p.to d).0 ≡ err e))
            ⊎ (((get_association_by_chain_address b Chain.ethereum p.to d).0 ≡ ok none)
                ⊎ ((a : Association) × ((get_association_by_chain_address b Chain.ethereum p.to d).0
                      ≡ ok (some a))
                    × (is_success a.status ≡ true))))

pub record IsQueued {D : Type 0} (b : Backend D) (x : Outside D) (trace : D → List Message)
    (g : Gateway D) (t : Texts) (p : Payment) (d : D) (r : Result (Unit {0}) × D) : Type 0 where
  pub a : Association
  pub enough : is_strictly_smaller_than p.value_wei g.minimum_value_wei ≡ false
  pub found : (get_association_by_chain_address b Chain.ethereum p.to d).0 ≡ ok (some a)
  pub unsettled : is_success a.status ≡ false
  pub succeeded : r.0 ≡ ok tt
  pub queued :
      trace r.1
      ≡ trace d
        ++ deposit (deposit_of b x Chain.ethereum p.hash eth (t.print_int p.value_wei) a) ∷ []

-- A call that published nothing, and then, if there was no error, because of the test; or exactly
-- one deposit, though the test failed.
abbrev Posts :
    {D : Type 0}
    → (D → List Message)
    → DepositTransaction
    → Bool
    → D
    → Result (Unit {0}) × D
    → Type 0
Posts trace m test d r =
    ((trace r.1 ≡ trace d) × (r.0 ≡ ok tt → test ≡ true))
    ⊎ ((test ≡ false) × (r.0 ≡ ok tt) × (trace r.1 ≡ trace d ++ deposit m ∷ []))

module _ {D : Type 0} (b : Backend D) (x : Outside D) (trace : D → List Message)
    (l : MessageLaws b trace) where
  -- What was looked up, and what follows.
  abbrev Settled : Gateway D → Texts → Payment → D → Result (Unit {0}) × D → Type 0
  Settled g t p d r = IsSkipped b trace g p d r ⊎ IsQueued b x trace g t p d r
