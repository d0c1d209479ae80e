-- ===== src/Engine/OrderBook/Resumed.antt =====
-- An order that enters the engine a second time, already filled in part (engine/orderbook.go): the
-- loop counts down from the whole amount, not from what is left of it.
use Prim.Native.Nat.{min}
use dex_server.Prelude.{
  ℕ, ◌-◌, ◌≡◌, refl, inl, inr, Bool, false, List, [], ◌∷◌, some, All, arith, ap, ◌∙◌,
}
use dex_server.Prelude.Int.{ℤ, pos, ◌≤ℤ◌, ◌<ℤ◌}
use dex_server.Numbers.{add, sub, is_zero, is_zero-cases, numbers}
use dex_server.Domain.Errors.{ok}
use dex_server.Domain.Order.{Order, remaining_amount, partial_filled}
use dex_server.Domain.Matches.{Matches, append_match, EngineResponse, order_partially_filled}
use dex_server.Backend.{Backend}
use dex_server.Engine.OrderBook.{settle, filled_by, save, match_loop, fill_buy}
use dex_server.Engine.OrderBook.Allocation.{sum}
use dex_server.Engine.OrderBook.Fills.{
  IsOpen, IsBounded, rest_of, rests, settle_lem, match_loop-round, after_round, add_shares,
}
use dex_server.Engine.OrderBook.Orders.{fill_buy-eq-ok, entering, report, finished}

-- One match of an order that is counted down from more than is left of it.
counts_on :
    (taker maker : Order) (left : ℤ)
    → IsBounded taker
    → IsOpen maker
    → remaining_amount taker <ℤ left
    → let a = (settle taker maker).0 in
      (is_zero (sub left a) ≡ false)
      × (remaining_amount (filled_by taker a) <ℤ sub left a)
      × IsBounded (filled_by taker a)
      × (rest_of (filled_by taker a) ≡ rest_of taker - rest_of maker)
      × (a ≡ pos (min (rest_of taker) (rest_of maker)))
unfolding remaining_amount filled_by
counts_on taker maker left t m h =
    let e = (settle_lem taker maker t m).0 in
    elim (is_zero-cases (sub left (settle taker maker).0)) [
      | inl (_, z) ↦ absurd (grind (numbers, e, z))
      | inr (f, _) ↦ (f, grind (numbers, e), grind (numbers, e), grind (numbers, e), e)
    ]

module _ {D : Type 0} (b : Backend D) (keccak : ℕ → ℕ → ℕ) where
  match_loop-resumed :
      (m : Matches) (left : ℤ) (mos : List Order) (d : D) {m' : Matches} {done : Bool} {d' : D}
      → remaining_amount m.taker_order <ℤ left
      → IsBounded m.taker_order
      → All IsOpen mos
      → match_loop b keccak m left mos d ≡ (ok (m', done), d')
      → (done ≡ false)
        × (m'.taker_order.filled_amount
            ≡ add m.taker_order.filled_amount (pos (min (rest_of m.taker_order) (sum (rests mos)))))
        × (m'.taker_order.amount ≡ m.taker_order.amount)
  unfolding match_loop append_match filled_by
  match_loop-resumed m left [] d g t ms h = (ground arith, grind numbers, ground arith)
  match_loop-resumed m left (mo ∷ mos) d g t ms h =
      let on = counts_on m.taker_order mo left t ms.0 g in
      elim (match_loop-round b keccak m left mo mos d h) [
        | inl (z, _, _) ↦ cc
        | inr (z, rest) ↦
            let ih =
              match_loop-resumed (after_round b keccak m mo d)
                (sub left (settle m.taker_order mo).0) mos (save b (settle m.taker_order mo).1 d).1
                on.1 on.2 ms.1 rest in
            (
              ih.0,
              ih.1
                  ∙ rw (on.3, on.4)
                      (add_shares m.taker_order.filled_amount (rest_of m.taker_order) (rest_of mo)
                        (sum (rests mos))),
              ih.2,
            )
      ]

  -- If an order that enters with a positive filled amount, of at most its amount, is matched with
  -- at least one waiting order, all of them open, and this succeeds, then it is credited with all
  -- that they hold for what is left of it, but is reported as partially filled even where nothing
  -- is left of it.
  pub fill_buy-resumed :
      (o mo : Order) (mos : List Order) (d : D) {res : EngineResponse} {d' : D}
      → pos 0 <ℤ o.filled_amount
      → o.filled_amount ≤ℤ o.amount
      → All IsOpen (mo ∷ mos)
      → fill_buy b keccak o (mo ∷ mos) d ≡ (ok res, d')
      → (o' : Order) × (res.status ≡ order_partially_filled)
        × (res.order ≡ some o')
        × (o'.status ≡ partial_filled)
        × (o'.amount ≡ o.amount)
        × (o'.filled_amount ≡ add o.filled_amount (pos (min (rest_of o) (sum (rests (mo ∷ mos))))))
  unfolding remaining_amount
  fill_buy-resumed o mo mos d f p ms h =
      let (m, done, e, run, eq) = fill_buy-eq-ok b keccak o mo mos d h in
      let l =
        match_loop-resumed (entering o) o.amount (mo ∷ mos) d (grind numbers) (grind numbers) ms
          run in
      let report_eq = eq ∙ ap (λ x. report b keccak m x e) l.0 in
      (
        finished b keccak m false e,
        ap (λ x. x.status) report_eq,
        ap (λ x. x.order) report_eq,
        refl,
        l.2,
        l.1,
      )
