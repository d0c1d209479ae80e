-- ===== src/Engine/OrderBook/Orders.antt =====
-- engine/orderbook.go: what `buyOrder` and `sellOrder` report of an order.
use Prim.Native.Nat.{min}
use dex_server.Prelude.{
  ℕ, ◌≤◌, ◌<◌, ◌≡◌, refl, ◌⊎◌, inl, inr, Bool, true, false, some, List, [], ◌∷◌, map, All, arith,
  leb, ap, sym, ◌∙◌, if◌then◌else◌,
}
use dex_server.Prelude.Int.{ℤ, pos, pos_part, ◌<ℤ◌}
use dex_server.Numbers.{numbers}
use dex_server.Domain.Errors.{ok}
use dex_server.Domain.Order.{Order, remaining_amount, filled, partial_filled}
use dex_server.Domain.Matches.{
  Matches, EngineResponse, empty_response, order_filled, order_partially_filled,
}
use dex_server.Backend.{Backend}
use dex_server.Backend.Monad.{>>=-eq-ok}
use dex_server.Daos.Orders.Updates.{find_and_modify}
use dex_server.Engine.OrderBook.{save, match_loop, conclude, fill_buy}
use dex_server.Engine.OrderBook.Allocation.{allocate, sum}
use dex_server.Engine.OrderBook.Fills.{
  IsOpen, rest_of, rests, amounts, match_loop-allocate, Allocates,
}

abbrev pub entering : Order → Matches
entering o = record { maker_orders = []; taker_order = o; trades = [] }

whole_min :
    (a : ℤ) (there : ℕ)
    → pos 0 <ℤ a
    → leb (pos_part a) there ≡ true
    → a ≡ pos (min (pos_part a) there)
whole_min a there p h = ground arith

module _ {D : Type 0} (b : Backend D) (keccak : ℕ → ℕ → ℕ) where
  -- The incoming order as it is written and reported after the loop.
  abbrev pub finished : Matches → Bool → D → Order
  finished m done d =
      if done
      then record m.taker_order {
        filled_amount = m.taker_order.amount;
        has_filled_amount = true;
        status = filled;
        updated_at = b.now d;
      }
      else record m.taker_order { status = partial_filled; updated_at = b.now d }

  abbrev pub report : Matches → Bool → D → EngineResponse
  report m done d = record empty_response {
    status = if done then order_filled else order_partially_filled;
    order = some (finished m done d);
    matches = some (record m { taker_order = finished m done d });
  }

  pub conclude-eq-ok :
      (m : Matches) (done : Bool) (d : D) {res : EngineResponse} {d' : D}
      → conclude b keccak (m, done) d ≡ (ok res, d')
      → res ≡ report m done d
  unfolding conclude save find_and_modify
  conclude-eq-ok m true d h = ground arith
  conclude-eq-ok m false d h = ground arith

  -- A successful match with at least one order is a successful run of the loop, and its report.
  pub fill_buy-eq-ok :
      (o mo : Order) (mos : List Order) (d : D) {res : EngineResponse} {d' : D}
      → fill_buy b keccak o (mo ∷ mos) d ≡ (ok res, d')
      → (m : Matches) × (done : Bool) × (e : D) × (match_loop b keccak
            (entering o)
            o.amount
            (mo ∷ mos)
            d
          ≡ (ok (m, done), e))
        × (res ≡ report m done e)
  unfolding fill_buy
  fill_buy-eq-ok o mo mos d h =
      let ((m, done), run, last) =
        >>=-eq-ok (match_loop b keccak (entering o) o.amount (mo ∷ mos)) (conclude b keccak) d h in
      (
        m,
        done,
        (match_loop b keccak (entering o) o.amount (mo ∷ mos) d).1,
        run,
        conclude-eq-ok m done _ last,
      )

  -- What is reported of an incoming order `o` that was matched with the waiting orders `mos`.
  abbrev pub Reports : Order → List Order → EngineResponse → Type 0
  Reports o mos res =
      let wanted = pos_part o.amount in
      let there = sum (rests mos) in
      (m : Matches) × (o' : Order) × (res.matches ≡ some m)
      × (res.order ≡ some o')
      × (m.taker_order ≡ o')
      × (amounts m ≡ map pos (allocate wanted (rests mos)))
      × (o'.amount ≡ o.amount)
      × (o'.filled_amount ≡ pos (min wanted there))
      × (((wanted ≤ there) × (res.status ≡ order_filled) × (o'.status ≡ filled))
          ⊎ ((there < wanted)
              × (res.status ≡ order_partially_filled)
              × (o'.status ≡ partial_filled)))

  report-Reports :
      (o : Order) (mos : List Order) (m : Matches) (done : Bool) (e : D)
      → rest_of o ≡ pos_part o.amount
      → o.filled_amount ≡ pos 0
      → pos 0 <ℤ o.amount
      → Allocates b keccak (entering o) mos m done
      → Reports o mos (report m done e)
  report-Reports o mos m true e w f p l = (
    record m { taker_order = finished m true e },
    finished m true e,
    refl,
    refl,
    refl,
    ground (arith, w, l.0),
    l.3,
    l.3 ∙ whole_min o.amount (sum (rests mos)) p (ground (arith, w, l.1)),
    inl (ground (arith, w, l.1), refl, refl),
  )
  report-Reports o mos m false e w f p l = (
    record m { taker_order = finished m false e },
    finished m false e,
    refl,
    refl,
    refl,
    ground (arith, w, l.0),
    l.3,
    l.2 ∙ rw (w, f) (grind numbers),
    inr (ground (arith, w, l.1), refl, refl),
  )

  -- If an order with nothing filled and a positive amount is matched with at least one waiting
  -- order, all of them open, and this succeeds, then it takes from each in turn as much as is left
  -- to take, by the specification `allocate`; it is filled, and reported so, exactly if they hold
  -- enough.
  pub fill_buy-Reports :
      (o mo : Order) (mos : List Order) (d : D) {res : EngineResponse} {d' : D}
      → o.filled_amount ≡ pos 0
      → pos 0 <ℤ o.amount
      → All IsOpen (mo ∷ mos)
      → fill_buy b keccak o (mo ∷ mos) d ≡ (ok res, d')
      → Reports o (mo ∷ mos) res
  unfolding remaining_amount
  fill_buy-Reports o mo mos d f p ms h =
      let (m, done, e, run, eq) = fill_buy-eq-ok o mo mos d h in
      let fresh : o.amount ≡ remaining_amount o = grind (numbers, f) in
      let l =
        match_loop-allocate b keccak (entering o) o.amount (mo ∷ mos) d fresh (grind numbers) ms
          run in
      rw eq (report-Reports o (mo ∷ mos) m done e (ap pos_part (sym fresh)) f p l)
