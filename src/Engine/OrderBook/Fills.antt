-- ===== src/Engine/OrderBook/Fills.antt =====
-- engine/orderbook.go: the amounts of the matching loop.
use Prim.Native.Nat.{min}
use mathlib.Core.List.{append-nil, append_assoc, map-append}
use dex_server.Prelude.{
  ℕ, ◌+◌, ◌-◌, ◌≤◌, ◌<◌, ◌≡◌, refl, ◌⊎◌, inl, inr, Bool, true, false, List, [], ◌∷◌, ◌++◌, map, All,
  Bool-cases, arith, leb, ap, ◌∙◌,
}
use dex_server.Prelude.Int.{ℤ, pos, pos_part, ◌≤ℤ◌, ◌<ℤ◌}
use dex_server.Numbers.{add, sub, is_zero, is_zero-cases, is_strictly_greater_than-cases, numbers}
use dex_server.Domain.Errors.{Error, Result, ok, err, Result-cases}
use dex_server.Domain.Order.{Order, remaining_amount, filled, partial_filled}
use dex_server.Domain.Matches.{Matches, append_match}
use dex_server.Backend.{Backend}
use dex_server.Daos.Orders.Updates.{find_and_modify}
use dex_server.Engine.OrderBook.{settle, filled_by, trade_of, save, written, execute, match_loop}
use dex_server.Engine.OrderBook.Allocation.{allocate, sum}

-- The filled amount lies between nothing and the whole.
abbrev pub IsBounded : Order → Type 0
IsBounded o = (pos 0 ≤ℤ o.filled_amount) × (o.filled_amount ≤ℤ o.amount)

-- And something is left.
abbrev pub IsOpen : Order → Type 0
IsOpen o = (pos 0 ≤ℤ o.filled_amount) × (o.filled_amount <ℤ o.amount)

-- What is left of an order, as a natural number.
abbrev pub rest_of : Order → ℕ
rest_of o = pos_part (remaining_amount o)

-- Let the taker order's filled amount be in range and the maker order have something left. Then
-- the trade is for the smaller of what is left of the two; the maker order is credited with it,
-- stays within its amount, and is FILLED with nothing left or PARTIAL_FILLED with something left.
pub settle_lem :
    (taker maker : Order)
    → IsBounded taker
    → IsOpen maker
    → let (amount, maker') = settle taker maker in
      (amount ≡ pos (min (rest_of taker) (rest_of maker)))
      × (maker'.filled_amount ≡ add maker.filled_amount amount)
      × (maker'.amount ≡ maker.amount)
      × IsBounded maker'
      × ((maker'.status ≡ filled) × (maker'.filled_amount ≡ maker'.amount)
          ⊎ (maker'.status ≡ partial_filled) × (maker'.filled_amount <ℤ maker'.amount))
unfolding settle remaining_amount
settle_lem taker maker t m =
    elim (is_strictly_greater_than-cases (remaining_amount maker) (remaining_amount taker)) [
      | inl (e, g) ↦ rw e (grind numbers)
      | inr (e, g) ↦ rw e (grind numbers)
    ]

-- Whether the loop goes on after a match, by what is left of the two orders.
pub round_ends :
    (taker maker : Order)
    → IsOpen taker
    → IsOpen maker
    → is_zero (sub (remaining_amount taker) (settle taker maker).0) ≡ true
    → rest_of taker ≤ rest_of maker
unfolding remaining_amount
round_ends taker maker t m h =
    let e = (settle_lem taker maker (omega arith) m).0 in
    elim (is_zero-cases (sub (remaining_amount taker) (settle taker maker).0)) [
      | inl (_, z) ↦ grind (numbers, e, z)
      | inr (f, _) ↦ cc
    ]

pub round_goes_on :
    (taker maker : Order)
    → IsOpen taker
    → IsOpen maker
    → is_zero (sub (remaining_amount taker) (settle taker maker).0) ≡ false
    → let taker' = filled_by taker (settle taker maker).0 in
      (rest_of maker < rest_of taker)
      × IsOpen taker'
      × (sub (remaining_amount taker) (settle taker maker).0 ≡ remaining_amount taker')
      × (rest_of taker' ≡ rest_of taker - rest_of maker)
unfolding remaining_amount filled_by
round_goes_on taker maker t m h =
    let e = (settle_lem taker maker (omega arith) m).0 in
    elim (is_zero-cases (sub (remaining_amount taker) (settle taker maker).0)) [
      | inl (f, _) ↦ cc
      | inr (_, z) ↦ grind (numbers, e, z)
    ]

pub add_shares :
    (f : ℤ) (r x s : ℕ)
    → add (add f (pos (min r x))) (pos (min (r - x) s)) ≡ add f (pos (min r (x + s)))
add_shares f r x s = omega numbers

abbrev pub amounts : Matches → List ℤ
amounts m = map (λ t. t.amount) m.trades

abbrev pub rests : List Order → List ℕ
rests = map rest_of

module _ {D : Type 0} (b : Backend D) (keccak : ℕ → ℕ → ℕ) where
  -- The maker order after its match, as it is written and reported.
  abbrev pub matched_maker : Order → Order → D → Order
  matched_maker taker mo d = record (settle taker mo).1 { updated_at = b.now d }

  -- The matches after one round of the loop.
  abbrev pub after_round : Matches → Order → D → Matches
  after_round m mo d =
      let maker = matched_maker m.taker_order mo d in
      let amount = (settle m.taker_order mo).0 in
      append_match (record m { taker_order = filled_by m.taker_order amount }) maker
        (trade_of keccak m.taker_order maker amount)

  -- A round that does not fail ends the loop, or hands the next state to the rest of it.
  pub match_loop-round :
      (m : Matches) (left : ℤ) (mo : Order) (mos : List Order) (d : D) {m' : Matches} {done : Bool}
      {d' : D}
      → match_loop b keccak m left (mo ∷ mos) d ≡ (ok (m', done), d')
      → let next = sub left (settle m.taker_order mo).0 in
        ((is_zero next ≡ true) × (m' ≡ after_round m mo d) × (done ≡ true))
        ⊎ ((is_zero next ≡ false)
            × (match_loop b keccak
                  (after_round m mo d)
                  next
                  mos
                  (save b (settle m.taker_order mo).1 d).1
                ≡ (ok (m', done), d')))
  unfolding match_loop execute save find_and_modify trade_of
  match_loop-round m left mo mos d h =
      elim (Bool-cases (is_zero (sub left (settle m.taker_order mo).0))) [
        | inl z ↦ inl (z, ground arith, ground arith)
        | inr z ↦ inr (z, ground arith)
      ]

  -- The three ways in which the loop goes on from a match: the write fails, the loop stops, or it
  -- goes round.
  pub match_loop_cases :
      (P : Result (Matches × Bool) × D → Type 0) (m : Matches) (left : ℤ) (mo : Order)
      (mos : List Order) (d : D)
      → let e = (written b (settle m.taker_order mo).1 d).1 in
        ((x : Error) → (written b (settle m.taker_order mo).1 d).0 ≡ err x → P (err x, e))
        → P (ok (after_round m mo d, true), e)
        → P (match_loop b keccak (after_round m mo d) (sub left (settle m.taker_order mo).0) mos e)
        → P (match_loop b keccak m left (mo ∷ mos) d)
  unfolding match_loop execute save find_and_modify trade_of
  match_loop_cases P m left mo mos d failed stopped round =
      elim (Result-cases (written b (settle m.taker_order mo).1 d).0) [
        | inl (x, e) ↦ elim (Bool-cases (is_zero (sub left (settle m.taker_order mo).0))) [
          | inl z ↦ rw (e, z) stopped
          | inr z ↦ rw (e, z) round
        ]
        | inr (x, e) ↦ rw e (failed x e)
      ]

  amounts-after_round :
      (m : Matches) (mo : Order) (d : D)
      → amounts (after_round m mo d) ≡ amounts m ++ (settle m.taker_order mo).0 ∷ []
  unfolding append_match trade_of
  amounts-after_round m mo d = map-append _ m.trades _

  taker-after_round :
      (m : Matches) (mo : Order) (d : D)
      → (after_round m mo d).taker_order ≡ filled_by m.taker_order (settle m.taker_order mo).0
  unfolding append_match
  taker-after_round m mo d = refl

  -- The loop's outcome by the specification: its trades, whether it stopped by itself, and the taker
  -- order.
  abbrev pub Allocates : Matches → List Order → Matches → Bool → Type 0
  Allocates m mos m' done =
      let r = rest_of m.taker_order in
      (amounts m' ≡ amounts m ++ map pos (allocate r (rests mos)))
      × (done ≡ leb r (sum (rests mos)))
      × (m'.taker_order.filled_amount
          ≡ add m.taker_order.filled_amount (pos (min r (sum (rests mos)))))
      × (m'.taker_order.amount ≡ m.taker_order.amount)

  -- If the loop succeeds, begun with what is left of the taker order, which is open, over open
  -- orders, then it adds trades of the amounts that the specification `allocate` gives, credits
  -- the taker order with as much as there is for it, and stops by itself exactly if the waiting
  -- orders hold enough.
  pub match_loop-allocate :
      (m : Matches) (left : ℤ) (mos : List Order) (d : D) {m' : Matches} {done : Bool} {d' : D}
      → left ≡ remaining_amount m.taker_order
      → IsOpen m.taker_order
      → All IsOpen mos
      → match_loop b keccak m left mos d ≡ (ok (m', done), d')
      → Allocates m mos m' done
  unfolding match_loop allocate remaining_amount append_match filled_by
  match_loop-allocate m left [] d e t ms h =
      (ground (arith, append-nil (amounts m)), grind numbers, grind numbers, ground arith)
  match_loop-allocate m left (mo ∷ mos) d e t ms h = elim (match_loop-round m left mo mos d h) [
    | inl (z, em, ed) ↦
        let fits = round_ends m.taker_order mo t ms.0 (rw (← e) z) in
        let a = (settle_lem m.taker_order mo (omega arith) ms.0).0 in
        let same : min (rest_of m.taker_order) (rest_of mo)
            ≡ min (rest_of m.taker_order) (rest_of mo + sum (rests mos)) =
          omega arith in
        (
          ground (arith, amounts-after_round m mo d, a, fits),
          ground (arith, fits),
          ap (λ x. x.taker_order.filled_amount) em
              ∙ ap (add m.taker_order.filled_amount) (a ∙ ap pos same),
          ap (λ x. x.taker_order.amount) em,
        )
    | inr (z, rest) ↦
        let on = round_goes_on m.taker_order mo t ms.0 (rw (← e) z) in
        let a = (settle_lem m.taker_order mo (omega arith) ms.0).0 in
        let ih =
          match_loop-allocate (after_round m mo d) (sub left (settle m.taker_order mo).0) mos
            (save b (settle m.taker_order mo).1 d).1 (rw e on.2) on.1 ms.1 rest in
        (
          ground (
            arith,
            amounts-after_round m mo d,
            a,
            on.0,
            on.3,
            ih.0,
            append_assoc (amounts m) (pos (rest_of mo) ∷ [])
                (map pos (allocate (rest_of m.taker_order - rest_of mo) (rests mos))),
          ),
          ground (arith, on.0, on.3, ih.1),
          ih.2
              ∙ rw (on.3, a)
                  (add_shares m.taker_order.filled_amount (rest_of m.taker_order) (rest_of mo)
                    (sum (rests mos))),
          ih.3,
        )
  ]
