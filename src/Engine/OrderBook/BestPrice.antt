-- ===== src/Engine/OrderBook/BestPrice.antt =====
-- A whole incoming order of engine/orderbook.go: the orders that it is matched with, and its report.
use dex_server.Prelude.{ℕ, ◌≡◌, ◌⊎◌, true, some, List, [], ◌∷◌}
use dex_server.Prelude.Int.{pos}
use dex_server.Domain.Order.{Order, open_order}
use dex_server.Domain.Matches.{EngineResponse, order_added}
use dex_server.Backend.{Backend}
use dex_server.Backend.Laws.{OrderLaws}
use dex_server.Daos.Orders.Queries.{is_live}
use dex_server.Engine.OrderBook.Fills.{IsOpen}
use dex_server.Engine.OrderBook.Orders.{Reports}
use dex_server.Engine.OrderBook.Serving.{IsSame, Stores}
use dex_server.Engine.OrderBook.Settling.{Settles}

module _ {D : Type 0} (b : Backend D) (keccak : ℕ → ℕ → ℕ) (docs : D → List Order)
    (laws : OrderLaws b docs) where
  open laws.collection use {aggregate_perm, aggregate_keeps}

  -- What is said to a new order by the orders that it met, and what is stored: it is added to the
  -- book, open, if there is none, and else it takes from them.
  abbrev pub Answers : Order → List Order → EngineResponse → D → D → Type 0
  Answers o [] res d d' =
      (res.status ≡ order_added)
      × (o' : Order) × (res.order ≡ some o')
      × IsSame o o'
      × (o'.status ≡ open_order)
      × (o'.filled_amount ≡ pos 0)
      × (Stores o' (docs d) (docs d') ⊎ (docs d' ≡ docs d))
  Answers o (mo ∷ mos) res d d' =
      Reports b keccak o (mo ∷ mos) res × Settles b keccak docs laws o (mo ∷ mos) res d d'

  -- A stored order that is live has something left.
  abbrev pub HasRest : Order → Type 0
  HasRest m = is_live m.status ≡ true → IsOpen m
