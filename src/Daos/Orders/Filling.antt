-- ===== src/Daos/Orders/Filling.antt =====
-- What daos/order.go makes of the filled amounts of orders.
use dex_server.Prelude.{◌≤◌, ◌≡◌, refl, ◌⊎◌, List, [], ◌∷◌, ◌++◌, length, arith}
use dex_server.Prelude.Int.{ℤ, pos, ◌≤ℤ◌, ◌<ℤ◌}
use dex_server.Numbers.{is_equal_or_smaller_than-cases, is_equal_or_greater_than-cases}
use dex_server.Domain.Order.{Order, open_order, partial_filled, filled}
use dex_server.Backend.{Backend}
use dex_server.Daos.Orders.Updates.{refilled, refill, refill_loop}

-- For an order with a positive amount, the filled amount that is written lies between 0 and the
-- amount; the status says whether it is nothing, all or a part, and a number strictly in between
-- is written as it is.
refilled_lem :
    (new amount : ℤ)
    → pos 0 <ℤ amount
    → let (written, status) = refilled new amount in
      (pos 0 ≤ℤ written)
      × (written ≤ℤ amount)
      × (((status ≡ open_order) × (written ≡ pos 0) × (new ≤ℤ pos 0))
          ⊎ ((status ≡ filled) × (written ≡ amount) × (amount ≤ℤ new))
          ⊎ ((status ≡ partial_filled) × (written ≡ new) × (pos 0 <ℤ new) × (new <ℤ amount)))
unfolding refilled
refilled_lem new amount h =
    ground
      (arith, is_equal_or_smaller_than-cases new (pos 0), is_equal_or_greater_than-cases new amount)

module _ {D : Type 0} (b : Backend D) where
  -- Amounts past the number of the orders that were found make no difference: where there are at
  -- least as many amounts as orders, further ones are not used.
  refill_loop-append :
      (os : List Order) (amounts more : List ℤ) (d : D)
      → length os ≤ length amounts
      → refill_loop b os (amounts ++ more) d ≡ refill_loop b os amounts d
  unfolding refill_loop
  refill_loop-append [] amounts more d h = refl
  refill_loop-append (o ∷ os) [] more d h = absurd (omega arith)
  refill_loop-append (o ∷ os) (a ∷ amounts) more d h =
      ground (arith, refill_loop-append os amounts more (refill b o a d).1)
