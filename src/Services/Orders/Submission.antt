-- ===== src/Services/Orders/Submission.antt =====
-- services/order.go: what an accepted submission and an accepted cancellation have passed.
use dex_server.Prelude.{
  ℕ, ◌≡◌, refl, ap, ◌⊎◌, inl, inr, Bool, true, false, not, Option, none, some, arith, Bool-cases,
  if◌then◌else◌, List, [], ◌∷◌, All, ==_iff,
}
use dex_server.Prelude.Int.{ℤ, pos, ◌≤ℤ◌}
use dex_server.Numbers.{
  sub, is_equal, is_equal-eq, is_strictly_smaller_than, is_strictly_smaller_than-cases,
}
use dex_server.Domain.Errors.{
  Error, Result, ok, err, order_not_found, cannot_cancel, amount_too_low,
}
use dex_server.Domain.Order.{
  Order, Status, unset, open_order, partial_filled, filled, cancelled, invalidated, quote_amount,
  sell_token, total_required_sell_amount,
}
use dex_server.Domain.Order.Validation.{
  Crypto, validate, verify_signature, hashed, process, IsAcceptable, validate-IsAcceptable,
}
use dex_server.Domain.Pair.{Pair, name, min_quote_amount}
use dex_server.Backend.{Backend, new_order, cancel_order}
use dex_server.Backend.Laws.{Contained, CollectionLaws}
use dex_server.Daos.Orders.Updates.{has_hash}
use dex_server.Backend.Monad.{pure, lift, >>=-eq-ok, andthen}
use dex_server.Daos.Orders.Queries.{first, get_by_hash, get_user_locked_balance}
use dex_server.Services.Validator.{get_by_token_address, validate_available_balance, funds, deref}
use dex_server.Services.Validator.Checks.{check_available_iff}
use dex_server.Services.Orders.{
  throw_if, submit, submit_found, submit_order, cancel_found, request_cancel, is_final, checked,
}

deref-eq-ok :
    {D A : Type 0} (found : Option A) (d : D) {a : A} {d' : D}
    → deref found d ≡ (ok a, d')
    → found ≡ some a
deref-eq-ok none d h = cc
deref-eq-ok (some x) d h = ground arith

-- An order that is done with in one of three ways.
abbrev pub IsFinal : Status → Type 0
IsFinal s = (s ≡ filled) ⊎ ((s ≡ Status.error) ⊎ (s ≡ cancelled))

is_final-cases :
    (s : Status) → ((is_final s ≡ true) × IsFinal s) ⊎ ((is_final s ≡ false) × ¬ IsFinal s)
unfolding is_final
is_final-cases unset = inr (refl, ground arith)
is_final-cases open_order = inr (refl, ground arith)
is_final-cases partial_filled = inr (refl, ground arith)
is_final-cases filled = inl (refl, inl refl)
is_final-cases cancelled = inl (refl, inr (inr refl))
is_final-cases invalidated = inr (refl, ground arith)
is_final-cases Status.error = inl (refl, inr (inl refl))
is_final-cases (Status.other t) = inr (refl, ground arith)

-- What `Process` has tested and written.
process-eq-ok :
    (now : ℕ) (p : Pair) (o : Order) {sent : Order}
    → process now p o ≡ ok sent
    → (o.make_fee ≡ p.make_fee)
      × (o.take_fee ≡ p.take_fee)
      × (sent ≡ record o {
        filled_amount = if o.has_filled_amount then o.filled_amount else pos 0;
        has_filled_amount = true;
        pair_name = name p;
        created_at = now;
        updated_at = now;
      })
unfolding process
process-eq-ok now p o h = elim (Bool-cases (is_equal o.make_fee p.make_fee)) [
  | inl e ↦ elim (Bool-cases (is_equal o.take_fee p.take_fee)) [
    | inl f ↦
        let k = rw (e, f) at h in
        (is_equal-eq o.make_fee p.make_fee e, is_equal-eq o.take_fee p.take_fee f, cc)
    | inr f ↦ let k = rw (e, f) at h in absurd (cc)
  ]
  | inr e ↦ let k = rw e at h in absurd (cc)
]

module _ {D : Type 0} (b : Backend D) where
  -- An order that is covered has passed against a pair of its tokens, the owner's balance and
  -- allowance, and what is locked: it needs no more than is there and not locked.
  abbrev pub IsCovered : ℕ → Order → D → Type 0
  IsCovered exchange o d =
      (p : Pair) × (balance : ℤ) × (allowance : ℤ) × (locked : ℤ) × (d₁ : D) × (d₂ : D) × (d₃ : D)
      × (get_by_token_address b o.base_token o.quote_token d ≡ (ok (some p), d₁))
      × (funds b exchange o d₁ ≡ (ok (balance, allowance), d₂))
      × (get_user_locked_balance b o.user_address (sell_token o) p d₂ ≡ (ok locked, d₃))
      × (total_required_sell_amount o p ≤ℤ balance)
      × (total_required_sell_amount o p ≤ℤ sub balance locked)
      × (total_required_sell_amount o p ≤ℤ allowance)
      × (total_required_sell_amount o p ≤ℤ sub allowance locked)

  -- If the check of the available balance succeeds, then a pair of the order's tokens was found,
  -- the owner's balance, allowance and locked amount were read, and the order needs no more than
  -- the balance and the allowance, each also less what is locked.
  validate_available_balance-IsCovered :
      (exchange : ℕ) (o : Order) (d : D) {d' : D}
      → validate_available_balance b exchange o d ≡ (ok tt, d')
      → IsCovered exchange o d
  unfolding validate_available_balance
  validate_available_balance-IsCovered exchange o d h =
      let (found, e₁, k₁) = >>=-eq-ok (get_by_token_address b o.base_token o.quote_token) _ d h in
      let d₁ = (get_by_token_address b o.base_token o.quote_token d).1 in
      let (p, e₂, k₂) = >>=-eq-ok (deref found) _ d₁ k₁ in
      let there = deref-eq-ok found d₁ e₂ in
      let ((balance, allowance), e₃, k₃) = >>=-eq-ok (funds b exchange o) _ d₁ (rw there at k₂) in
      let d₂ = (funds b exchange o d₁).1 in
      let (locked, e₄, k₄) =
        >>=-eq-ok (get_user_locked_balance b o.user_address (sell_token o) p) _ d₂ k₃ in
      let needed = total_required_sell_amount o p in
      let fits = (check_available_iff balance allowance locked needed).0 (ap (λ r. r.0) k₄) in
      (
        p,
        balance,
        allowance,
        locked,
        d₁,
        d₂,
        (get_user_locked_balance b o.user_address (sell_token o) p d₂).1,
        rw (← there) e₁,
        e₃,
        e₄,
        fits.0,
        fits.1,
        fits.2,
        fits.3,
      )

  -- What has been established of a submitted order `o` when it is published as `sent`.
  abbrev pub IsSubmitted : Crypto → ℕ → Order → D → D → Type 0
  IsSubmitted c exchange o d d' =
      IsAcceptable c exchange o
      × (p : Pair) × (sent : Order) × (d₁ : D) × (d₂ : D) × (get_by_token_address b o.base_token
            o.quote_token d
          ≡ (ok (some p), d₁))
      × (min_quote_amount p ≤ℤ quote_amount o p)
      × (o.make_fee ≡ p.make_fee)
      × (o.take_fee ≡ p.take_fee)
      × (sent ≡ record (hashed c o) {
        filled_amount = if o.has_filled_amount then o.filled_amount else pos 0;
        has_filled_amount = true;
        pair_name = name p;
        created_at = b.now d₁;
        updated_at = b.now d₁;
      })
      × IsCovered exchange sent d₁
      × (b.publish (new_order sent) d₂ ≡ (ok tt, d'))

  throw_if-eq-ok :
      (t : Bool) (e : Error) (d : D) {d' : D} → throw_if b t e d ≡ (ok tt, d') → t ≡ false
  throw_if-eq-ok true e d h = cc
  throw_if-eq-ok false e d h = refl

  submit-eq-ok :
      (exchange : ℕ) (o : Order) (p : Pair) (d : D) {d' : D}
      → submit b exchange o p d ≡ (ok tt, d')
      → (min_quote_amount p ≤ℤ quote_amount o p)
        × (sent : Order) × (d₂ : D) × (process (b.now d) p o ≡ ok sent)
        × IsCovered exchange sent d
        × (b.publish (new_order sent) d₂ ≡ (ok tt, d'))
  unfolding submit
  submit-eq-ok exchange o p d h =
      let low = is_strictly_smaller_than (quote_amount o p) (min_quote_amount p) in
      let (u, e₁, k₁) = >>=-eq-ok (throw_if b low amount_too_low) _ d h in
      let enough = throw_if-eq-ok low amount_too_low d e₁ in
      let (sent, e₂, k₂) = >>=-eq-ok (lift (process (b.now d) p o)) _ d (rw enough at k₁) in
      let (u', e₃, k₃) = >>=-eq-ok (validate_available_balance b exchange sent) _ d k₂ in
      (
        ground
            (arith, is_strictly_smaller_than-cases (quote_amount o p) (min_quote_amount p), enough),
        sent,
        (validate_available_balance b exchange sent d).1,
        ap (λ r. r.0) e₂,
        validate_available_balance-IsCovered exchange sent d e₃,
        k₃,
      )

  submit_found-eq-ok :
      (exchange : ℕ) (o : Order) (found : Option Pair) (d : D) {d' : D}
      → submit_found b exchange o found d ≡ (ok tt, d')
      → (p : Pair) × (found ≡ some p) × (submit b exchange o p d ≡ (ok tt, d'))
  unfolding submit_found
  submit_found-eq-ok exchange o none d h = cc
  submit_found-eq-ok exchange o (some p) d h = (p, refl, h)

  -- If a submission succeeds, then the order is acceptable, a pair of its tokens was found, its
  -- quote amount is at least the pair's minimum and its two fees are the pair's, and the order
  -- that is sent, which is the given one with its hash, the name of the pair, the time, and a
  -- filled amount of 0 if it had none, is covered by its owner's funds, and its publication ended
  -- the call.
  pub submit_order-IsSubmitted :
      (c : Crypto) (exchange : ℕ) (o : Order) (d : D) {d' : D}
      → submit_order b c exchange o d ≡ (ok tt, d')
      → IsSubmitted c exchange o d d'
  unfolding submit_order hashed quote_amount
  submit_order-IsSubmitted c exchange o d h =
      let (u, e₁, k₁) = >>=-eq-ok (lift (validate c exchange o)) _ d h in
      let good = (validate-IsAcceptable c exchange o).0 (ap (λ r. r.0) e₁) in
      let bad = not (checked (verify_signature c (hashed c o))) in
      let (u', e₂, k₂) = >>=-eq-ok (throw_if b bad _) _ d k₁ in
      let (found, e₃, k₃) =
        >>=-eq-ok (get_by_token_address b o.base_token o.quote_token) _ d
          (rw (throw_if-eq-ok bad _ d e₂) at k₂) in
      let d₁ = (get_by_token_address b o.base_token o.quote_token d).1 in
      let (p, y, k₄) = submit_found-eq-ok exchange (hashed c o) found d₁ k₃ in
      let (enough, sent, d₂, e₄, covered, done) = submit-eq-ok exchange (hashed c o) p d₁ k₄ in
      let (make, take, written) = process-eq-ok (b.now d₁) p (hashed c o) e₄ in
      (good, p, sent, d₁, d₂, rw (← y) e₃, enough, make, take, written, covered, done)

  -- An order that is found by a hash is stored and has the hash.
  get_by_hash-Contained :
      (docs : D → List Order)
      → CollectionLaws b.orders docs
      → (h : ℕ) (d : D) {o : Order} → (get_by_hash b h d).0 ≡ ok (some o)
      → Contained o (docs d) × (o.hash ≡ h)
  unfolding get_by_hash
  get_by_hash-Contained docs laws h d {o} e =
      let d' = (get_by_hash b h d).1 in
      let (r, p, q) =
        >>=-eq-ok (b.orders.get (has_hash h) 1) (λ r. pure (first r)) d (ap (λ x. (x, d')) e) in
      go r (laws.get_sound (has_hash h) 1 d p) cc
    where
      go :
          (r : List Order)
          → All (λ x. Contained x (docs d) × (has_hash h x ≡ true)) r
          → first r ≡ some o
          → Contained o (docs d) × (o.hash ≡ h)
      go [] k f = cc
      go (x ∷ r) k f = let s : x ≡ o = cc in rw (← s) (k.0.0, (==_iff x.hash h).0 k.0.1)

  -- Let the database keep its laws for the orders. A request to cancel an order by its hash fails
  -- with the lookup's error, or is refused because there is no such order; or else a stored order
  -- of this hash was found, and the request is refused if its status is FILLED, ERROR or
  -- CANCELLED, and publishes the order for cancellation if it is not.
  pub request_cancel_cases :
      (docs : D → List Order)
      → CollectionLaws b.orders docs
      → (h : ℕ) (d : D)
      → let (found, d₁) = get_by_hash b h d in
        ((x : Error) × (found ≡ err x) × (request_cancel b h d ≡ (err x, d₁)))
        ⊎ ((found ≡ ok none) × (request_cancel b h d ≡ (err order_not_found, d₁)))
        ⊎ ((o : Order) × Contained o (docs d)
            × (o.hash ≡ h)
            × ((IsFinal o.status × (request_cancel b h d ≡ (err cannot_cancel, d₁)))
                ⊎ ((¬ IsFinal o.status) × (request_cancel b h d ≡ b.publish (cancel_order o) d₁))))
  unfolding request_cancel cancel_found
  request_cancel_cases docs laws h d =
      go (get_by_hash b h d).0 (get_by_hash b h d).1 λ o e. get_by_hash-Contained docs laws h d e
    where
      go :
          (r : Result (Option Order)) (d₁ : D)
          → ((o : Order) → r ≡ ok (some o) → Contained o (docs d) × (o.hash ≡ h))
          → let out = andthen r d₁ (cancel_found b) in
            ((x : Error) × (r ≡ err x) × (out ≡ (err x, d₁)))
            ⊎ ((r ≡ ok none) × (out ≡ (err order_not_found, d₁)))
            ⊎ ((o : Order) × Contained o (docs d)
                × (o.hash ≡ h)
                × ((IsFinal o.status × (out ≡ (err cannot_cancel, d₁)))
                    ⊎ ((¬ IsFinal o.status) × (out ≡ b.publish (cancel_order o) d₁))))
      go (err x) d₁ k = inl (x, refl, refl)
      go (ok none) d₁ k = inr (inl (refl, refl))
      go (ok (some o)) d₁ k = elim (is_final-cases o.status) [
        | inl (e, s) ↦ inr (inr (o, (k o refl).0, (k o refl).1, inl (s, rw e refl)))
        | inr (e, s) ↦ inr (inr (o, (k o refl).0, (k o refl).1, inr (s, rw e refl)))
      ]
