-- ===== src/Engine/OrderBook/Serving.antt =====
-- engine/orderbook.go: the maker orders, the trades and the stored orders that the matching loop
-- leaves.
use Prim.Native.Nat.{min}
use dex_server.Prelude.{
  ℕ, ◌-◌, ◌<◌, ◌≡◌, refl, ◌⊎◌, inl, inr, Bool, true, false, List, [], ◌∷◌, Bool-cases, arith, ap,
  ◌∙◌, ◌==◌,
}
use dex_server.Prelude.Int.{ℤ, pos, ◌<ℤ◌}
use dex_server.Numbers.{add, sub, is_zero, is_strictly_greater_than}
use dex_server.Domain.Errors.{ok, Result-cases}
use dex_server.Domain.Order.{Order, remaining_amount, filled, partial_filled}
use dex_server.Domain.Trade.{Trade, pending}
use dex_server.Domain.Matches.{Matches}
use dex_server.Backend.{Backend}
use dex_server.Backend.Laws.{OrderLaws, upsert}
use dex_server.Daos.Orders.Updates.{find_and_modify, set_fields, inserted, has_hash}
use dex_server.Engine.OrderBook.{settle, filled_by, trade_of, save, written, execute, match_loop}
use dex_server.Engine.OrderBook.Fills.{IsOpen, rest_of, settle_lem, after_round, matched_maker}

-- A trade of a share of the taker order with a maker order, at the price of the taker order.
pub record IsTrade (taker maker : Order) (share : ℕ) (t : Trade) : Type 0 where
  pub maker_address : t.maker ≡ maker.user_address
  pub taker_address : t.taker ≡ taker.user_address
  pub maker_order_hash : t.maker_order_hash ≡ maker.hash
  pub taker_order_hash : t.taker_order_hash ≡ taker.hash
  pub tokens : (t.base_token ≡ taker.base_token) × (t.quote_token ≡ taker.quote_token)
  pub pricepoint : t.pricepoint ≡ taker.pricepoint
  pub amount : t.amount ≡ pos share
  pub status : t.status ≡ pending

-- A maker order after a share of it was taken.
pub record IsServed (maker : Order) (share : ℕ) (maker' : Order) : Type 0 where
  pub hash : maker'.hash ≡ maker.hash
  pub user : maker'.user_address ≡ maker.user_address
  pub amount : maker'.amount ≡ maker.amount
  pub price : maker'.pricepoint ≡ maker.pricepoint
  pub filled_amount : maker'.filled_amount ≡ add maker.filled_amount (pos share)
  pub status :
      ((maker'.status ≡ filled) × (maker'.filled_amount ≡ maker'.amount))
      ⊎ ((maker'.status ≡ partial_filled) × (maker'.filled_amount <ℤ maker'.amount))

-- The stored order of the hash of `o`, or a new one where there is none, has what `o` has.
abbrev pub Stores : Order → List Order → List Order → Type 0
Stores o before after =
    (change : Order → Order) × (new : Order) × (after
      ≡ upsert (λ old. old.hash == o.hash) change new before)
    × ((old : Order)
        → ((change old).hash ≡ old.hash)
          × ((change old).filled_amount ≡ o.filled_amount)
          × ((change old).amount ≡ o.amount)
          × ((change old).pricepoint ≡ o.pricepoint)
          × ((change old).status ≡ o.status))
    × (new.hash ≡ o.hash)
    × (new.filled_amount ≡ o.filled_amount)
    × (new.amount ≡ o.amount)
    × (new.pricepoint ≡ o.pricepoint)
    × (new.status ≡ o.status)

-- The orders in line are served one after another, each with as much as it has, while something is
-- left to take. Each that is served has one trade, is among the maker orders, and is stored.
pub data Serves (taker : Order)
    : ℕ → List Order → List Order → List Trade → List Order → List Order → Type 0 where
  nobody : {left : ℕ} {docs : List Order} → Serves taker left [] [] [] docs docs
  nothing : {waiting docs : List Order} → Serves taker 0 waiting [] [] docs docs
  serve :
      {left share : ℕ} {mo mo' : Order} {t : Trade} {mos makers : List Order} {ts : List Trade}
      {docs between docs' : List Order}
      → 0 < left
      → share ≡ min left (rest_of mo)
      → IsTrade taker mo share t
      → IsServed mo share mo'
      → Stores mo' docs between
      → Serves taker (left - share) mos makers ts between docs'
      → Serves taker left (mo ∷ mos) (mo' ∷ makers) (t ∷ ts) docs docs'

-- What of an order its matches leave as it is.
abbrev pub IsSame : Order → Order → Type 0
IsSame o o' =
    (o'.user_address ≡ o.user_address)
    × (o'.hash ≡ o.hash)
    × (o'.base_token ≡ o.base_token)
    × (o'.quote_token ≡ o.quote_token)
    × (o'.pricepoint ≡ o.pricepoint)

pub settle-keeps :
    (taker mo : Order)
    → let mo' = (settle taker mo).1 in
      (mo'.hash ≡ mo.hash)
      × (mo'.user_address ≡ mo.user_address)
      × (mo'.pricepoint ≡ mo.pricepoint)
      × (mo'.has_filled_amount ≡ true)
unfolding settle
settle-keeps taker mo =
    elim (Bool-cases (is_strictly_greater_than (remaining_amount mo) (remaining_amount taker))) [
      | inl e ↦ rw e (refl, refl, refl, refl)
      | inr e ↦ rw e (refl, refl, refl, refl)
    ]

pub filled_by-IsSame : (o taker : Order) (a : ℤ) → IsSame o taker → IsSame o (filled_by taker a)
unfolding filled_by
filled_by-IsSame o taker a s = s

set_fields-filled :
    (o : Order) (now : ℕ) (old : Order)
    → o.has_filled_amount ≡ true
    → (set_fields o now old).filled_amount ≡ o.filled_amount
unfolding set_fields
set_fields-filled o now old h = rw h refl

inserted-filled :
    (o : Order) (id now : ℕ)
    → o.has_filled_amount ≡ true
    → (inserted o id now).filled_amount ≡ o.filled_amount
unfolding inserted
inserted-filled o id now h = rw h refl

module _ {D : Type 0} (b : Backend D) (keccak : ℕ → ℕ → ℕ) where
  pub settle-IsServed :
      (taker mo : Order) (d : D)
      → IsOpen taker
      → IsOpen mo
      → IsServed mo (min (rest_of taker) (rest_of mo)) (matched_maker b keccak taker mo d)
  settle-IsServed taker mo d t m =
      let (hash, user, price, _) = settle-keeps taker mo in
      let (share, credited, amount, _, status) = settle_lem taker mo (omega arith) m in
      record {
        hash = hash;
        user = user;
        amount = amount;
        price = price;
        filled_amount = credited ∙ ap (add mo.filled_amount) share;
        status = status;
      }

  pub trade_of-IsTrade :
      (o taker mo : Order) (d : D)
      → IsSame o taker
      → IsOpen taker
      → IsOpen mo
      → IsTrade o mo
          (min (rest_of taker) (rest_of mo))
          (trade_of keccak taker (matched_maker b keccak taker mo d) (settle taker mo).0)
  unfolding trade_of
  trade_of-IsTrade o taker mo d s t m =
      let (user, hash, base, quote, price) = s in
      let (maker_hash, maker_user, _, _) = settle-keeps taker mo in
      record {
        maker_address = maker_user;
        taker_address = user;
        maker_order_hash = maker_hash;
        taker_order_hash = hash;
        tokens = (base, quote);
        pricepoint = price;
        amount = (settle_lem taker mo (omega arith) m).0;
        status = refl;
      }

  -- A round that succeeds has written the maker order.
  pub match_loop-written :
      (m : Matches) (left : ℤ) (mo : Order) (mos : List Order) (d : D) {m' : Matches} {done : Bool}
      {d' : D}
      → match_loop b keccak m left (mo ∷ mos) d ≡ (ok (m', done), d')
      → let next = sub left (settle m.taker_order mo).0 in
        let e = (written b (settle m.taker_order mo).1 d).1 in
        (x : Order) × ((written b (settle m.taker_order mo).1 d).0 ≡ ok x)
        × (((is_zero next ≡ true) × (m' ≡ after_round b keccak m mo d) × (done ≡ true) × (d' ≡ e))
            ⊎ ((is_zero next ≡ false)
                × (match_loop b keccak (after_round b keccak m mo d) next mos e
                    ≡ (ok (m', done), d'))))
  unfolding match_loop execute save find_and_modify trade_of
  match_loop-written m left mo mos d h =
      elim (Result-cases (written b (settle m.taker_order mo).1 d).0) [
        | inl (x, e) ↦ elim (Bool-cases (is_zero (sub left (settle m.taker_order mo).0))) [
          | inl z ↦ let k = rw (e, z) at h in (x, e, inl (z, cc, cc, cc))
          | inr z ↦ let k = rw (e, z) at h in (x, e, inr (z, k))
        ]
        | inr (x, e) ↦ let k = rw e at h in absurd (cc)
      ]

  module _ (docs : D → List Order) (laws : OrderLaws b docs) where
    open laws.collection use {find_and_modify_ok, find_and_modify_err}

    pub written-Stores :
        (o : Order) (d : D) {x : Order}
        → o.has_filled_amount ≡ true
        → (written b o d).0 ≡ ok x
        → Stores o (docs d) (docs (written b o d).1)
    unfolding set_fields inserted
    written-Stores o d h e = (
      set_fields o (b.now d),
      inserted o (b.new_object_id d) (b.now d),
      find_and_modify_ok (has_hash o.hash) (set_fields o (b.now d)) _ d e,
      λ old. (refl, set_fields-filled o (b.now d) old h, refl, refl, refl),
      refl,
      inserted-filled o (b.new_object_id d) (b.now d) h,
      refl,
      refl,
      refl,
    )
