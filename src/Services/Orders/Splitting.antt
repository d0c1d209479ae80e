-- ===== src/Services/Orders/Splitting.antt =====
-- services/order.go: which matches `handleEngineOrderMatched` keeps.
use mathlib.Core.List.{append-nil, append_assoc}
use dex_server.Prelude.{ℕ, ◌≡◌, refl, ap, subst, ◌∙◌, inl, inr, List, [], ◌∷◌, ◌++◌, arith}
use dex_server.Domain.Errors.{Error, ok, err, Result-cases}
use dex_server.Domain.Order.{Order}
use dex_server.Domain.Trade.{Trade}
use dex_server.Domain.Matches.{Matches, append_match}
use dex_server.Backend.{Backend}
use dex_server.Services.Validator.{validate_balance}
use dex_server.Services.Orders.Responses.{split_matches}

-- The given orders and trades, begun in one state and ended in another, are the kept and the dropped
-- ones in their order: one is kept exactly if its order's balance is validated at its turn.
pub data Parted {D : Type 0} (b : Backend D) (exchange : ℕ)
    : D
      → D
      → List Order
      → List Trade
      → List Order
      → List Trade
      → List Order
      → List Trade
      → Type 0 where
  done : (d : D) → Parted b exchange d d [] [] [] [] [] []
  kept :
      {d d' : D} {mos kos dos : List Order} {ts kts dts : List Trade} (mo : Order) (t : Trade)
      → (validate_balance b exchange mo d).0 ≡ ok tt
      → Parted b exchange (validate_balance b exchange mo d).1 d' mos ts kos kts dos dts
      → Parted b exchange d d' (mo ∷ mos) (t ∷ ts) (mo ∷ kos) (t ∷ kts) dos dts
  dropped :
      {d d' : D} {mos kos dos : List Order} {ts kts dts : List Trade} (mo : Order) (t : Trade)
      (x : Error)
      → (validate_balance b exchange mo d).0 ≡ err x
      → Parted b exchange (validate_balance b exchange mo d).1 d' mos ts kos kts dos dts
      → Parted b exchange d d' (mo ∷ mos) (t ∷ ts) kos kts (mo ∷ dos) (t ∷ dts)

module _ {D : Type 0} (b : Backend D) (exchange : ℕ) where
  -- If the split succeeds, then each match was kept if the balance behind its maker order was
  -- validated at its turn, and dropped if not, its order and its trade together and in their
  -- order, after the ones of before; the kept maker orders are appended to the orders to
  -- broadcast. Only the first maker orders are read, one for each trade.
  pub split_matches-Parted :
      (valid invalid : Matches) (os mos : List Order) (ts : List Trade) (d : D)
      {valid' invalid' : Matches} {os' : List Order} {d' : D}
      → split_matches b exchange valid invalid os mos ts d ≡ (ok (valid', invalid', os'), d')
      → (kos : List Order) × (kts : List Trade) × (dos : List Order) × (dts : List Trade)
        × (read : List Order) × (rest : List Order) × (mos ≡ read ++ rest)
        × Parted b exchange d d' read ts kos kts dos dts
        × (valid'.maker_orders ≡ valid.maker_orders ++ kos)
        × (valid'.trades ≡ valid.trades ++ kts)
        × (invalid'.maker_orders ≡ invalid.maker_orders ++ dos)
        × (invalid'.trades ≡ invalid.trades ++ dts)
        × (os' ≡ os ++ kos)
  unfolding split_matches append_match
  split_matches-Parted valid invalid os mos [] d h = (
    [],
    [],
    [],
    [],
    [],
    mos,
    refl,
    subst (λ e. Parted b exchange d e [] [] [] [] [] []) (ap (λ r. r.1) h) (done d),
    ground (arith, append-nil valid.maker_orders),
    ground (arith, append-nil valid.trades),
    ground (arith, append-nil invalid.maker_orders),
    ground (arith, append-nil invalid.trades),
    ground (arith, append-nil os),
  )
  split_matches-Parted valid invalid os [] (t ∷ ts) d h = cc
  split_matches-Parted valid invalid os (mo ∷ mos) (t ∷ ts) d h =
      elim (Result-cases (validate_balance b exchange mo d).0) [
        | inl (u, e) ↦
            let (kos, kts, dos, dts, read, rest, a, p, v₁, v₂, i₁, i₂, o) =
              split_matches-Parted (append_match valid mo t) invalid (os ++ mo ∷ []) mos ts
                (validate_balance b exchange mo d).1 (rw (e, split_matches) at h) in
            (
              mo ∷ kos,
              t ∷ kts,
              dos,
              dts,
              mo ∷ read,
              rest,
              ap (λ l. mo ∷ l) a,
              kept mo t e p,
              v₁ ∙ append_assoc valid.maker_orders (mo ∷ []) kos,
              v₂ ∙ append_assoc valid.trades (t ∷ []) kts,
              i₁,
              i₂,
              o ∙ append_assoc os (mo ∷ []) kos,
            )
        | inr (x, e) ↦
            let (kos, kts, dos, dts, read, rest, a, p, v₁, v₂, i₁, i₂, o) =
              split_matches-Parted valid (append_match invalid mo t) os mos ts
                (validate_balance b exchange mo d).1 (rw (e, split_matches) at h) in
            (
              kos,
              kts,
              mo ∷ dos,
              t ∷ dts,
              mo ∷ read,
              rest,
              ap (λ l. mo ∷ l) a,
              dropped mo t x e p,
              v₁,
              v₂,
              i₁ ∙ append_assoc invalid.maker_orders (mo ∷ []) dos,
              i₂ ∙ append_assoc invalid.trades (t ∷ []) dts,
              o,
            )
      ]
