-- ===== src/Engine/OrderBook/Stored.antt =====
-- engine/orderbook.go: the filled amounts of the stored orders under the engine's writes.
use dex_server.Prelude.{
  ℕ, ◌≡◌, refl, inl, inr, Bool, true, false, List, [], ◌∷◌, All, arith, subst, sym,
}
use dex_server.Prelude.Int.{ℤ}
use dex_server.Numbers.{sub, is_strictly_greater_than-cases, numbers}
use dex_server.Domain.Errors.{Result, ok, err, Result-cases}
use dex_server.Domain.Order.{
  Order, Status, remaining_amount, cancelled, Side, buy, sell, open_order,
}
use dex_server.Domain.Matches.{Matches, append_match, EngineResponse}
use dex_server.Backend.{Backend}
use dex_server.Backend.Monad.{Action, ◌>>=◌, andthen, >>=-keeps, >>=-pure}
use dex_server.Backend.Laws.{
  OrderLaws, All-upsert, All-change_first, All-contained, All-map, Contained,
}
use dex_server.Daos.Orders.Updates.{
  find_and_modify, set_fields, inserted, update_order_status, has_hash,
}
use dex_server.Daos.Orders.Queries.{
  get_matching_buy_orders, get_matching_sell_orders, matches_ask, matches_bid, ask_before,
  bid_before,
}
use dex_server.Engine.OrderBook.{
  settle, filled_by, opened, save, written, add_order, match_loop, conclude, fill_buy, fill_sell,
  buy_order, sell_order, respond_to, new_order_on_book, cancel_order_on_book,
}
use dex_server.Engine.OrderBook.Fills.{IsBounded, match_loop_cases, after_round}
use dex_server.Engine.OrderBook.Orders.{entering}

-- An order whose filled amount is set and in range.
abbrev pub IsWhole : Order → Type 0
IsWhole o = (o.has_filled_amount ≡ true) × IsBounded o

settle-IsWhole :
    (taker maker : Order)
    → IsWhole taker
    → IsBounded maker
    → IsWhole (settle taker maker).1 × IsWhole (filled_by taker (settle taker maker).0)
unfolding settle filled_by remaining_amount
settle-IsWhole taker maker t m =
    elim (is_strictly_greater_than-cases (remaining_amount maker) (remaining_amount taker)) [
      | inl (e, g) ↦ rw e (grind numbers)
      | inr (e, g) ↦ rw e (grind numbers)
    ]

set_fields-IsBounded :
    (o : Order) (now : ℕ) (old : Order) → IsWhole o → IsBounded (set_fields o now old)
unfolding set_fields
set_fields-IsBounded o now old w = ground arith

inserted-IsBounded : (o : Order) (id now : ℕ) → IsWhole o → IsBounded (inserted o id now)
unfolding inserted
inserted-IsBounded o id now w = ground arith

module _ {D : Type 0} (b : Backend D) (keccak : ℕ → ℕ → ℕ) (docs : D → List Order)
    (laws : OrderLaws b docs) where
  open laws.collection use {
    find_and_modify_ok, find_and_modify_err, update_ok, update_err, aggregate_keeps,
    aggregate_sound,
  }

  -- Every stored order is in range.
  abbrev pub IsSound : D → Type 0
  IsSound d = All IsBounded (docs d)

  written-IsSound : (o : Order) (d : D) → IsWhole o → IsSound d → IsSound (written b o d).1
  written-IsSound o d w s = elim (Result-cases (written b o d).0) [
    | inl (x, e) ↦ rw (find_and_modify_ok (has_hash o.hash) (set_fields o (b.now d)) _ d e) (
        All-upsert IsBounded (has_hash o.hash) (set_fields o (b.now d))
          (inserted o (b.new_object_id d) (b.now d)) (docs d)
          (λ old _ _. set_fields-IsBounded o (b.now d) old w)
          (inserted-IsBounded o (b.new_object_id d) (b.now d) w) s)
    | inr (x, e) ↦ rw (find_and_modify_err (has_hash o.hash) (set_fields o (b.now d)) _ d e) s
  ]

  save-state : (o : Order) (d : D) → (save b o d).1 ≡ (written b o d).1
  unfolding save find_and_modify
  save-state o d = ground arith

  save-IsSound : (o : Order) (d : D) → IsWhole o → IsSound d → IsSound (save b o d).1
  save-IsSound o d w s = rw (save-state o d) (written-IsSound o d w s)

  -- What the loop leaves: sound orders, and if it succeeds a taker order that is in range.
  abbrev Leaves : Result (Matches × Bool) × D → Type 0
  Leaves (ok (m, done), d) = IsWhole m.taker_order × IsSound d
  Leaves (err e, d) = IsSound d

  match_loop-Leaves :
      (m : Matches) (left : ℤ) (mos : List Order) (d : D)
      → IsWhole m.taker_order
      → All IsBounded mos
      → IsSound d
      → Leaves (match_loop b keccak m left mos d)
  unfolding match_loop append_match
  match_loop-Leaves m left [] d t ms s = (t, s)
  match_loop-Leaves m left (mo ∷ mos) d t ms s =
      let w = settle-IsWhole m.taker_order mo t ms.0 in
      let s' = written-IsSound (settle m.taker_order mo).1 d w.0 s in
      match_loop_cases b keccak Leaves m left mo mos d (λ _ _. s') (w.1, s')
        (match_loop-Leaves (after_round b keccak m mo d) (sub left (settle m.taker_order mo).0) mos
          (written b (settle m.taker_order mo).1 d).1 w.1 ms.1 s')

  conclude-IsSound :
      (m : Matches) (done : Bool) (d : D)
      → IsWhole m.taker_order
      → IsSound d
      → IsSound (conclude b keccak (m, done) d).1
  unfolding conclude
  conclude-IsSound m true d t s =
      subst IsSound (sym (>>=-pure (save b _) _ d)) (save-IsSound _ d (refl, omega arith) s)
  conclude-IsSound m false d t s =
      subst IsSound (sym (>>=-pure (save b _) _ d)) (save-IsSound _ d t s)

  opened-IsWhole : (o : Order) → IsWhole o → IsWhole (opened o)
  unfolding opened
  opened-IsWhole o w = ground arith

  loop-IsSound :
      (o : Order) (mos : List Order) (d : D)
      → IsWhole o
      → All IsBounded mos
      → IsSound d
      → (r : Result (Matches × Bool) × D) → Leaves r
      → IsSound (andthen r.0 r.1 (conclude b keccak)).1
  loop-IsSound o mos d w ms s (ok (m, done), e) l = conclude-IsSound m done e l.0 l.1
  loop-IsSound o mos d w ms s (err x, e) l = l

  fill_buy-IsSound :
      (o : Order) (mos : List Order) (d : D)
      → IsWhole o
      → All IsBounded mos
      → IsSound d
      → IsSound (fill_buy b keccak o mos d).1
  unfolding fill_buy add_order
  fill_buy-IsSound o [] d w ms s = save-IsSound (opened o) d (opened-IsWhole o w) s
  fill_buy-IsSound o (mo ∷ mos) d w ms s =
      loop-IsSound o (mo ∷ mos) d w ms s (match_loop b keccak (entering o) o.amount (mo ∷ mos) d)
        (match_loop-Leaves (entering o) o.amount (mo ∷ mos) d w ms s)

  fill_sell-IsSound :
      (o : Order) (mos : List Order) (d : D)
      → IsWhole o
      → All IsBounded mos
      → IsSound d
      → IsSound (fill_sell b keccak o mos d).1
  unfolding fill_sell
  fill_sell-IsSound o [] d w ms s = fill_buy-IsSound (record o { status = open_order }) [] d w tt s
  fill_sell-IsSound o (mo ∷ mos) d w ms s = fill_buy-IsSound o (mo ∷ mos) d w ms s

  found-IsBounded :
      (d : D) (r : List Order) (q : Order → Bool)
      → IsSound d
      → All (λ x. Contained x (docs d) × (q x ≡ true)) r
      → All IsBounded r
  found-IsBounded d r q s h =
      All-map (λ x. Contained x (docs d) × (q x ≡ true)) IsBounded r
        (λ x k. All-contained IsBounded (docs d) s k.0) h

  matched-IsSound :
      (q : Order → Bool) (before : Order → Order → Bool)
      (fill : List Order → Action D EngineResponse) (d : D)
      → IsSound d
      → ((r : List Order) (e : D) → All IsBounded r → IsSound e → IsSound (fill r e).1)
      → IsSound ((b.orders.aggregate q before >>= fill) d).1
  matched-IsSound q before fill d s k =
      let s' : IsSound (b.orders.aggregate q before d).1 = rw (aggregate_keeps q before d) s in
      >>=-keeps IsSound (b.orders.aggregate q before) fill d s'
        λ r h. k r _ (found-IsBounded d r q s (aggregate_sound q before d h)) s'

  respond_to-IsSound :
      (side : Side) (o : Order) (d : D)
      → IsWhole o
      → IsSound d
      → IsSound (respond_to b keccak side o d).1
  unfolding respond_to buy_order sell_order get_matching_buy_orders get_matching_sell_orders
  respond_to-IsSound buy o d w s =
      matched-IsSound (matches_ask o) ask_before (fill_buy b keccak o) d s
        λ r e. fill_buy-IsSound o r e w
  respond_to-IsSound sell o d w s =
      matched-IsSound (matches_bid o) bid_before (fill_sell b keccak o) d s
        λ r e. fill_sell-IsSound o r e w
  respond_to-IsSound (Side.other x) o d w s = s

  -- Let the database keep its laws. If the filled amounts of a new order and of every stored order
  -- lie between 0 and the order's amount, then those of the stored orders still do after the order
  -- was handled, whatever it met and whether or not a call failed halfway.
  pub new_order_on_book-IsSound :
      (o : Order) (d : D) → IsWhole o → IsSound d → IsSound (new_order_on_book b keccak o d).1
  unfolding new_order_on_book
  new_order_on_book-IsSound o d w s =
      >>=-keeps IsSound (respond_to b keccak o.side o) _ d (respond_to-IsSound o.side o d w s)
        λ r h. rw (laws.publish_keeps _ _) (respond_to-IsSound o.side o d w s)

  update_order_status-IsSound :
      (h : ℕ) (status : Status) (d : D) → IsSound d → IsSound (update_order_status b h status d).1
  unfolding update_order_status
  update_order_status-IsSound h status d s =
      let change : Order → Order = λ old. record old { status = status } in
      elim (Result-cases (b.orders.update (has_hash h) change d).0) [
        | inl (x, e) ↦
            rw (update_ok (has_hash h) change d e)
              (All-change_first IsBounded (has_hash h) change (docs d) (λ old _ k. k) s)
        | inr (x, e) ↦ rw (update_err (has_hash h) change d e) s
      ]

  -- Let the database keep its laws. If the filled amount of every stored order lies between 0 and
  -- the order's amount, it still does after an order was cancelled, whether or not a call failed.
  cancel_order_on_book-IsSound :
      (o : Order) (d : D) → IsSound d → IsSound (cancel_order_on_book b keccak o d).1
  unfolding cancel_order_on_book
  cancel_order_on_book-IsSound o d s =
      let s' = update_order_status-IsSound o.hash cancelled d s in
      >>=-keeps IsSound (update_order_status b o.hash cancelled) _ d s'
        λ r h. rw (laws.publish_keeps _ _) s'
