-- ===== src/Engine/OrderBook/Settling.antt =====
-- engine/orderbook.go: the order that is stored after the matching loop, and the whole change.
use dex_server.Prelude.{
  ℕ, ◌≡◌, refl, ◌⊎◌, inl, inr, Bool, true, false, some, List, ◌∷◌, All, ap, sym, subst, ◌∙◌,
}
use dex_server.Prelude.Int.{pos, ◌<ℤ◌, pos_part}
use dex_server.Numbers.{numbers}
use dex_server.Domain.Errors.{ok, Result-cases}
use dex_server.Domain.Order.{Order, remaining_amount, filled, partial_filled}
use dex_server.Domain.Matches.{Matches, EngineResponse}
use dex_server.Backend.{Backend}
use dex_server.Backend.Monad.{>>=-eq-ok}
use dex_server.Backend.Laws.{OrderLaws}
use dex_server.Daos.Orders.Updates.{find_and_modify, has_hash, set_fields}
use dex_server.Engine.OrderBook.{save, written, match_loop, conclude, fill_buy}
use dex_server.Engine.OrderBook.Fills.{IsOpen}
use dex_server.Engine.OrderBook.Orders.{entering, finished, conclude-eq-ok}
use dex_server.Engine.OrderBook.Serving.{Serves, IsSame, written-Stores, Stores}
use dex_server.Engine.OrderBook.Rounds.{match_loop-Adds, match_loop-IsTaken}

module _ {D : Type 0} (b : Backend D) (keccak : ℕ → ℕ → ℕ) (docs : D → List Order)
    (laws : OrderLaws b docs) where
  -- A successful write stores the order.
  save-Stores :
      (o : Order) (d : D) {r : Order} {d' e : D}
      → o.has_filled_amount ≡ true
      → save b o d ≡ (ok r, d')
      → d' ≡ e
      → Stores o (docs d) (docs e)
  unfolding save find_and_modify
  save-Stores o d {r} {d'} f h last = elim (Result-cases (written b o d).0) [
    | inl (x, e) ↦
        let k = rw e at h in
        let same : (written b o d).1 ≡ d' = cc in
        subst (Stores o (docs d)) (ap docs (same ∙ last))
          (written-Stores b keccak docs laws o d f e)
    | inr (x, e) ↦ let k = rw e at h in absurd (cc)
  ]

  conclude-Stores :
      (m : Matches) (done : Bool) (d : D) {res : EngineResponse} {d' : D}
      → m.taker_order.has_filled_amount ≡ true
      → conclude b keccak (m, done) d ≡ (ok res, d')
      → Stores (finished b keccak m done d) (docs d) (docs d')
  unfolding conclude
  conclude-Stores m true d f h =
      let taker = m.taker_order in
      let whole : Order = record taker {
        filled_amount = taker.amount;
        has_filled_amount = true;
        status = filled;
      } in
      let (o, e, k) = >>=-eq-ok (save b whole) _ d h in save-Stores whole d refl e (ap (λ r. r.1) k)
  conclude-Stores m false d f h =
      let part : Order = record m.taker_order { status = partial_filled } in
      let (o, e, k) = >>=-eq-ok (save b part) _ d h in save-Stores part d f e (ap (λ r. r.1) k)

  finished-IsSame :
      (o : Order) (m : Matches) (done : Bool) (d : D)
      → IsSame o m.taker_order
      → IsSame o (finished b keccak m done d)
  finished-IsSame o m true d s = s
  finished-IsSame o m false d s = s

  -- What an incoming order `o` does to the stored orders and the report, where it was matched with
  -- the orders in line: it serves itself from them, and is then stored as it is reported.
  abbrev pub Settles : Order → List Order → EngineResponse → D → D → Type 0
  Settles o mos res d d' =
      (m : Matches) × (o' : Order) × (between : List Order) × (res.matches ≡ some m)
      × (res.order ≡ some o')
      × IsSame o o'
      × Serves o (pos_part o.amount) mos m.maker_orders m.trades (docs d) between
      × Stores o' between (docs d')

  pub fill_buy-Settles :
      (o mo : Order) (mos : List Order) (d : D) {res : EngineResponse} {d' : D}
      → o.filled_amount ≡ pos 0
      → pos 0 <ℤ o.amount
      → All IsOpen (mo ∷ mos)
      → fill_buy b keccak o (mo ∷ mos) d ≡ (ok res, d')
      → Settles o (mo ∷ mos) res d d'
  unfolding fill_buy remaining_amount
  fill_buy-Settles o mo mos d {res} {d'} f p ms h =
      let ((m, done), run, last) =
        >>=-eq-ok (match_loop b keccak (entering o) o.amount (mo ∷ mos)) (conclude b keccak) d h in
      let e = (match_loop b keccak (entering o) o.amount (mo ∷ mos) d).1 in
      let fresh : o.amount ≡ remaining_amount o = grind (numbers, f) in
      let eq = conclude-eq-ok b keccak m done e last in
      let (makers, ts, em, et, serves) =
        match_loop-Adds b keccak docs laws o (entering o) o.amount (mo ∷ mos) d
          (refl, refl, refl, refl, refl) fresh (grind numbers) ms run in
      let (same, set) =
        match_loop-IsTaken b keccak docs laws o (entering o) o.amount (mo ∷ mos) d
          (refl, refl, refl, refl, refl) (λ none. absurd (cc)) run in
      (
        record m { taker_order = finished b keccak m done e },
        finished b keccak m done e,
        docs e,
        ap (λ r. r.matches) eq,
        ap (λ r. r.order) eq,
        finished-IsSame o m done e same,
        subst (λ xs. Serves o (pos_part o.amount) (mo ∷ mos) xs m.trades (docs d) (docs e)) (sym em)
            (subst (λ xs. Serves o (pos_part o.amount) (mo ∷ mos) makers xs (docs d) (docs e))
              (sym et)
              (subst (λ n. Serves o (pos_part n) (mo ∷ mos) makers ts (docs d) (docs e)) (sym fresh)
                serves)),
        conclude-Stores m done e set last,
      )

  -- An order that meets no other is stored, unless the write fails: its error is dropped.
  pub save_cases :
      (o : Order) (d : D)
      → o.has_filled_amount ≡ true
      → Stores o (docs d) (docs (save b o d).1) ⊎ (docs (save b o d).1 ≡ docs d)
  unfolding save find_and_modify
  save_cases o d f = elim (Result-cases (written b o d).0) [
    | inl (x, e) ↦ inl (rw e (written-Stores b keccak docs laws o d f e))
    | inr (x, e) ↦ inr (
        rw e (laws.collection.find_and_modify_err (has_hash o.hash) (set_fields o (b.now d)) _ d e))
  ]
