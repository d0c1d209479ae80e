-- ===== src/Engine/OrderBook/Rounds.antt =====
-- engine/orderbook.go: all rounds of the matching loop.
use Prim.Native.Nat.{min}
use mathlib.Core.List.{append-nil, append_assoc}
use dex_server.Prelude.{
  ℕ, ◌-◌, ◌≤◌, ◌<◌, ◌≡◌, refl, inl, inr, Bool, true, List, [], ◌∷◌, ◌++◌, All, arith, ap, sym,
  subst, ◌∙◌,
}
use dex_server.Prelude.Int.{ℤ}
use dex_server.Numbers.{sub, numbers}
use dex_server.Domain.Errors.{ok}
use dex_server.Domain.Order.{Order, remaining_amount}
use dex_server.Domain.Trade.{Trade}
use dex_server.Domain.Matches.{Matches, append_match}
use dex_server.Backend.{Backend}
use dex_server.Backend.Laws.{OrderLaws}
use dex_server.Engine.OrderBook.{settle, filled_by, trade_of, written, match_loop}
use dex_server.Engine.OrderBook.Fills.{
  IsOpen, rest_of, after_round, matched_maker, round_ends, round_goes_on,
}
use dex_server.Engine.OrderBook.Serving.{
  Serves, nobody, nothing, serve, IsSame, settle-IsServed, trade_of-IsTrade, match_loop-written,
  written-Stores, filled_by-IsSame, settle-keeps, Stores,
}

share_left : (r x : ℕ) → x < r → r - x ≡ r - min r x
share_left r x h = omega arith

served_all :
    (o : Order) (mos : List Order) {r x : ℕ} {before after : List Order}
    → r ≤ x
    → before ≡ after
    → Serves o (r - min r x) mos [] [] before after
served_all o mos {r} {x} {before} h e =
    let none_left : 0 ≡ r - min r x = omega arith in
    subst (λ ds. Serves o (r - min r x) mos [] [] before ds) e
      (subst (λ n. Serves o n mos [] [] before before) none_left nothing)

module _ {D : Type 0} (b : Backend D) (keccak : ℕ → ℕ → ℕ) (docs : D → List Order)
    (laws : OrderLaws b docs) where
  -- What the loop adds to the matches, and to the stored orders.
  abbrev pub Adds : Order → Matches → List Order → D → Matches → D → Type 0
  Adds o m mos d m' d' =
      (makers : List Order) × (ts : List Trade) × (m'.maker_orders ≡ m.maker_orders ++ makers)
      × (m'.trades ≡ m.trades ++ ts)
      × Serves o (rest_of m.taker_order) mos makers ts (docs d) (docs d')

  maker-Stores :
      (taker mo : Order) (d : D) {x : Order}
      → (written b (settle taker mo).1 d).0 ≡ ok x
      → Stores
          (matched_maker b keccak taker mo d)
          (docs d)
          (docs (written b (settle taker mo).1 d).1)
  maker-Stores taker mo d w =
      written-Stores b keccak docs laws (settle taker mo).1 d (settle-keeps taker mo).3 w

  after_round-Adds :
      (o : Order) (m : Matches) (mo : Order) (mos : List Order) (d : D) (m' : Matches) (d' : D)
      {x : Order}
      → IsSame o m.taker_order
      → IsOpen m.taker_order
      → IsOpen mo
      → (written b (settle m.taker_order mo).1 d).0 ≡ ok x
      → (makers : List Order) (ts : List Trade)
      → m'.maker_orders ≡ (after_round b keccak m mo d).maker_orders ++ makers
      → m'.trades ≡ (after_round b keccak m mo d).trades ++ ts
      → Serves o
          (rest_of m.taker_order - min (rest_of m.taker_order) (rest_of mo))
          mos
          makers
          ts
          (docs (written b (settle m.taker_order mo).1 d).1)
          (docs d')
      → Adds o m (mo ∷ mos) d m' d'
  unfolding append_match remaining_amount
  after_round-Adds o m mo mos d m' d' same t mk w makers ts em et rest = (
    matched_maker b keccak m.taker_order mo d ∷ makers,
    trade_of keccak m.taker_order (matched_maker b keccak m.taker_order mo d)
          (settle m.taker_order mo).0
        ∷ ts,
    em ∙ append_assoc m.maker_orders _ makers,
    et ∙ append_assoc m.trades _ ts,
    serve (omega numbers) refl (trade_of-IsTrade b keccak o m.taker_order mo d same t mk)
        (settle-IsServed b keccak m.taker_order mo d t mk) (maker-Stores m.taker_order mo d w) rest,
  )

  pub match_loop-Adds :
      (o : Order) (m : Matches) (left : ℤ) (mos : List Order) (d : D) {m' : Matches} {done : Bool}
      {d' : D}
      → IsSame o m.taker_order
      → left ≡ remaining_amount m.taker_order
      → IsOpen m.taker_order
      → All IsOpen mos
      → match_loop b keccak m left mos d ≡ (ok (m', done), d')
      → Adds o m mos d m' d'
  unfolding match_loop append_match
  match_loop-Adds o m left [] d {m'} {d'} same e t ms h =
      let em : m ≡ m' = cc in
      let ed : d ≡ d' = cc in
      (
        [],
        [],
        ap (λ x. x.maker_orders) (sym em) ∙ sym (append-nil m.maker_orders),
        ap (λ x. x.trades) (sym em) ∙ sym (append-nil m.trades),
        subst (λ e. Serves o (rest_of m.taker_order) [] [] [] (docs d) (docs e)) ed nobody,
      )
  match_loop-Adds o m left (mo ∷ mos) d {m'} {done} {d'} same e t ms h =
      let (x, w, next) = match_loop-written b keccak m left mo mos d h in
      elim next [
        | inl (z, em, ed, es) ↦
            let fits = round_ends m.taker_order mo t ms.0 (rw (← e) z) in
            after_round-Adds o m mo mos d m' d' same t ms.0 w [] []
              (ap (λ x. x.maker_orders) em ∙ sym (append-nil _))
              (ap (λ x. x.trades) em ∙ sym (append-nil _))
              (served_all o mos fits (ap docs (sym es)))
        | inr (z, rest) ↦
            let on = round_goes_on m.taker_order mo t ms.0 (rw (← e) z) in
            let (makers, ts, em, et, later) =
              match_loop-Adds o (after_round b keccak m mo d) (sub left (settle m.taker_order mo).0)
                mos _ (filled_by-IsSame o m.taker_order _ same) (rw e on.2) on.1 ms.1 rest in
            after_round-Adds o m mo mos d m' d' same t ms.0 w makers ts em et (
              subst
                (λ n.
                  Serves o n mos makers ts (docs (written b (settle m.taker_order mo).1 d).1)
                    (docs d'))
                (on.3 ∙ share_left _ _ on.0) later)
      ]

  -- The taker order that a round leaves has its filled amount set, and is the same order still.
  abbrev pub IsTaken : Order → Matches → Type 0
  IsTaken o m = IsSame o m.taker_order × (m.taker_order.has_filled_amount ≡ true)

  after_round-IsTaken :
      (o : Order) (m : Matches) (mo : Order) (d : D)
      → IsSame o m.taker_order
      → IsTaken o (after_round b keccak m mo d)
  unfolding append_match filled_by
  after_round-IsTaken o m mo d s = (s, refl)

  pub match_loop-IsTaken :
      (o : Order) (m : Matches) (left : ℤ) (mos : List Order) (d : D) {m' : Matches} {done : Bool}
      {d' : D}
      → IsSame o m.taker_order
      → (mos ≡ [] → m.taker_order.has_filled_amount ≡ true)
      → match_loop b keccak m left mos d ≡ (ok (m', done), d')
      → IsTaken o m'
  unfolding match_loop
  match_loop-IsTaken o m left [] d {m'} s f h =
      let em : m ≡ m' = cc in subst (IsTaken o) em (s, f refl)
  match_loop-IsTaken o m left (mo ∷ mos) d s f h =
      let (x, w, next) = match_loop-written b keccak m left mo mos d h in
      let t' = after_round-IsTaken o m mo d s in
      elim next [
        | inl (z, em, ed, es) ↦ subst (IsTaken o) (sym em) t'
        | inr (z, rest) ↦
            match_loop-IsTaken o (after_round b keccak m mo d) _ mos _ t'.0 (λ _. t'.1) rest
      ]
