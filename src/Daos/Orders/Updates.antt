-- ===== src/Daos/Orders/Updates.antt =====
-- daos/order.go: the methods that write orders, and the update document of types/order.go.
use dex_server.Prelude.{
  ℕ, Bool, true, false, Option, none, some, List, [], ◌∷◌, ◌==◌, if◌then◌else◌, contains,
}
use dex_server.Prelude.Int.{ℤ, pos}
use dex_server.Numbers.{add, sub, is_equal_or_smaller_than, is_equal_or_greater_than}
use dex_server.Domain.Errors.{Result, ok, err, runtime_panic}
use dex_server.Domain.Order.{
  Order, Status, unset, open_order, partial_filled, filled, Side, Signature,
}
use dex_server.Backend.{Backend}
use dex_server.Backend.Monad.{Action, pure, throw, ◌>>=◌, ◌>>◌}

-- `bson.M{"hash": h.Hex()}`
abbrev pub has_hash : ℕ → Order → Bool
has_hash h o = o.hash == h

-- `bson.M{"hash": bson.M{"$in": hexes}}`
abbrev pub has_hash_in : List ℕ → Order → Bool
has_hash_in hs o = contains o.hash hs

abbrev or_else : Option Signature → Option Signature → Option Signature
or_else none old = old
or_else (some s) old = some s

-- The `$set` of `OrderBSONUpdate`: all fields but `_id`, `hash` and `createdAt`; the filled amount
-- and the signature only if they are not nil.
unfoldable pub set_fields : Order → ℕ → Order → Order
set_fields o now old = record old {
  pair_name = o.pair_name;
  exchange_address = o.exchange_address;
  user_address = o.user_address;
  base_token = o.base_token;
  quote_token = o.quote_token;
  status = o.status;
  side = o.side;
  pricepoint = o.pricepoint;
  amount = o.amount;
  nonce = o.nonce;
  make_fee = o.make_fee;
  take_fee = o.take_fee;
  updated_at = now;
  filled_amount = if o.has_filled_amount then o.filled_amount else old.filled_amount;
  signature = or_else o.signature old.signature;
}

-- The document that an upsert inserts: the `$set` with the `$setOnInsert`. A filled amount that is
-- not there is read back as 0.
unfoldable pub inserted : Order → ℕ → ℕ → Order
inserted o object_id now = record o {
  id = object_id;
  created_at = now;
  updated_at = now;
  filled_amount = if o.has_filled_amount then o.filled_amount else pos 0;
  has_filled_amount = true;
}

-- The amount and the status that `UpdateOrderFilledAmount(s)` writes, by the new filled amount.
unfoldable pub refilled : ℤ → ℤ → ℤ × Status
refilled filled_amount amount =
    if is_equal_or_smaller_than filled_amount (pos 0)
    then (pos 0, open_order)
    else if is_equal_or_greater_than filled_amount amount
    then (amount, filled)
    else (filled_amount, partial_filled)

abbrev pub set_filled : ℤ × Status → Order → Order
set_filled r o = record o { status = r.1; filled_amount = r.0; has_filled_amount = true }

-- What the upsert of `UpdateOrderFilledAmounts` would insert: a document with the hash of the query.
abbrev pub blank : ℕ → ℕ → ℤ × Status → Order
blank object_id h r = record {
  id = object_id;
  user_address = 0;
  exchange_address = 0;
  base_token = 0;
  quote_token = 0;
  status = r.1;
  side = Side.other "";
  hash = h;
  signature = none;
  pricepoint = pos 0;
  amount = pos 0;
  filled_amount = r.0;
  nonce = pos 0;
  make_fee = pos 0;
  take_fee = pos 0;
  given = record {
    nonce = true;
    make_fee = true;
    take_fee = true;
    amount = false;
    pricepoint = false;
  };
  has_filled_amount = true;
  pair_name = "";
  created_at = 0;
  updated_at = 0;
}

abbrev pub set_status : Status → ℕ → Order → Order
set_status status now old = record old { updated_at = now; status = status }

abbrev pub nil_on_error : {D A : Type 0} → Result (List A) × D → Result (List A) × D
nil_on_error (ok os, d) = (ok os, d)
nil_on_error (err e, d) = (ok [], d)

module _ {D : Type 0} (b : Backend D) where
  -- `Create`; the order's status is OPEN if it has none.
  unfoldable pub create : Order → Action D (Unit {0})
  create o d = b.orders.insert (some stored ∷ []) d
    where
      stored : Order
      stored = record o {
        id = b.new_object_id d;
        created_at = b.now d;
        updated_at = b.now d;
        status = elim o.status [ unset ↦ open_order | s ↦ s ];
      }

  -- The document after the change, and the argument, whose `UpdatedAt` the call sets.
  unfoldable pub find_and_modify : ℕ → Order → Action D (Order × Order)
  find_and_modify h o d =
      (do
        updated ←
            b.orders.find_and_modify (has_hash h) (set_fields o (b.now d))
              (inserted o (b.new_object_id d) (b.now d))
        pure (updated, record o { updated_at = b.now d }))
        d

  unfoldable pub upsert_by_hash : ℕ → Order → Action D (Unit {0})
  upsert_by_hash h o d =
      (do
        _ ←
            b.orders.find_and_modify (has_hash h) (set_fields o (b.now d))
              (inserted o (b.new_object_id d) (b.now d))
        pure tt)
        d

  unfoldable pub update_all_by_hash : ℕ → Order → Action D (Unit {0})
  update_all_by_hash h o d = b.orders.update (has_hash h) (λ _. record o { updated_at = b.now d }) d

  unfoldable pub update_by_hash : ℕ → Order → Action D (Unit {0})
  update_by_hash h o d = b.orders.update (has_hash h) change d
    where
      change : Order → Order
      change old = record old {
        pricepoint = o.pricepoint;
        amount = o.amount;
        status = o.status;
        filled_amount = o.filled_amount;
        has_filled_amount = true;
        make_fee = o.make_fee;
        take_fee = o.take_fee;
        updated_at = b.now d;
      }

  unfoldable pub update_order_status : ℕ → Status → Action D (Unit {0})
  update_order_status h status =
      b.orders.update (has_hash h) (λ old. record old { status = status })

  -- Errors of the two calls are logged, and the result is then nil with no error.
  unfoldable pub update_order_statuses_by_hashes : Status → List ℕ → Action D (List Order)
  update_order_statuses_by_hashes status hs d = nil_on_error (
      (b.orders.update_all (has_hash_in hs) (set_status status (b.now d))
          >> b.orders.get (has_hash_in hs) 0)
        d)

  -- One round of the loop of `UpdateOrderFilledAmounts`.
  unfoldable pub refill : Order → ℤ → Action D Order
  refill o a d =
      let r : ℤ × Status = refilled (sub o.filled_amount a) o.amount in
      b.orders.find_and_modify (has_hash o.hash) (set_filled r) (blank (b.new_object_id d) o.hash r)
        d

  -- The loop: the i-th order that was found loses the i-th amount, `amount[i]`.
  unfoldable pub refill_loop : List Order → List ℤ → Action D (List Order)
  refill_loop [] amounts = pure []
  refill_loop (o ∷ os) [] = throw runtime_panic
  refill_loop (o ∷ os) (a ∷ amounts) = do
    updated ← refill o a
    rest ← refill_loop os amounts
    pure (updated ∷ rest)

  unfoldable pub update_order_filled_amounts : List ℕ → List ℤ → Action D (List Order)
  unfolding refill_loop
  update_order_filled_amounts hs amounts = do
    orders ← b.orders.get (has_hash_in hs) 0
    refill_loop orders amounts

  -- `UpdateOrderFilledAmount`, once the order is looked up: without one, an index out of range.
  unfoldable pub fill_by : ℕ → ℤ → List Order → Action D (Unit {0})
  unfolding refilled
  fill_by h value [] = throw runtime_panic
  fill_by h value (o ∷ os) =
      b.orders.update (has_hash h) (set_filled (refilled (add o.filled_amount value) o.amount))

  -- `UpdateOrderFilledAmount` adds to the filled amount, where the other one subtracts.
  unfoldable pub update_order_filled_amount : ℕ → ℤ → Action D (Unit {0})
  unfolding fill_by
  update_order_filled_amount h value = b.orders.get (has_hash h) 1 >>= fill_by h value
