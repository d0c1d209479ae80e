-- ===== src/Daos/Orders/Depth/Levels.antt =====
-- daos/order.go: what the order book by price says of the orders.
use dex_server.Prelude.{Bool, true, List, [], ◌∷◌, All, ◌≡◌, ◌⊎◌}
use dex_server.Prelude.Int.{ℤ}
use dex_server.Domain.Order.{Order}
use dex_server.Domain.Pair.{Pair}
use dex_server.Backend.{Backend}
use dex_server.Backend.Laws.{select, Sorted, Contained}
use dex_server.Daos.Orders.Depth.Amounts.{depth_at, left_at}

-- There is a level for the price of each order, also where nothing is left of it.
abbrev pub HasLevel : ℤ → List (ℤ × ℤ) → Type 0
HasLevel q [] = ⊥
HasLevel q ((p, a) ∷ ls) = (q ≡ p) ⊎ HasLevel q ls

-- Each price is before those that follow, so that there is one level for a price.
abbrev pub IsOrdered : (ℤ → ℤ → Bool) → List (ℤ × ℤ) → Type 0
IsOrdered before = Sorted (λ x y. before x.0 y.0)

-- Each price of the wanted orders, and no other, has one level, which gives what is left of them.
pub record IsDepth (wanted : Order → Bool) (before : ℤ → ℤ → Bool) (docs : List Order)
    (ls : List (ℤ × ℤ)) : Type 0 where
  pub amounts : (q : ℤ) → depth_at q ls ≡ left_at q (select wanted docs)
  pub priced : All (λ o. wanted o ≡ true → HasLevel o.pricepoint ls) docs
  pub traced :
      All (λ l. (o : Order) × Contained o docs × (wanted o ≡ true) × (o.pricepoint ≡ l.0)) ls
  pub ordered : IsOrdered before ls
