-- ===== src/Engine/Dispatch.antt =====
-- engine/engine.go: the order books of the engine and the messages that they are given, with the
-- codes of pairs and orders of types/pair.go and types/order.go. A message is what its JSON decodes
-- to, or the error of that; `hex` writes an address.
use Prim.Native.String.{String, ◌++◌}
use text.Mathlib.Text.{◌==◌ as str_eq}
use text.Mathlib.TextPositions.{eq_refl}
use dex_server.Prelude.{
  ℕ, ◌≡◌, refl, inl, inr, Bool, true, false, ◌||◌, List, [], ◌∷◌, map, if◌then◌else◌, arith,
}
use dex_server.Domain.Errors.{Error, Result, ok, err, pair_name_required, orderbook_error}
use dex_server.Domain.Order.{Order}
use dex_server.Domain.Order.Validation.{process}
use dex_server.Domain.Pair.{Pair, name}
use dex_server.Domain.Matches.{Matches}
use dex_server.Backend.{Backend}
use dex_server.Backend.Monad.{Action, pure, throw, lift, ◌>>=◌}
use dex_server.Backend.Laws.{Contained}
use dex_server.Engine.OrderBook.{
  add_order, new_order_on_book, cancel_order_on_book, invalidate_maker_orders,
  invalidate_taker_orders,
}

pub data EngineMessage : Type 0 where
  new_order add_order_message cancel_order : Result Order → EngineMessage
  invalidate_makers invalidate_takers : Result Matches → EngineMessage
  unknown : EngineMessage

abbrev joined : (ℕ → String) → String → ℕ → ℕ → String
joined hex n base quote = n ++ ("::" ++ (hex base ++ ("::" ++ hex quote)))

-- `Pair.Code`
unfoldable pub code : (ℕ → String) → Pair → String
unfolding name
code hex p = joined hex (name p) p.base_token_address p.quote_token_address

-- `Order.PairCode`
unfoldable pub pair_code : (ℕ → String) → Order → Result String
pair_code hex o =
    if str_eq o.pair_name ""
    then err pair_name_required
    else ok (joined hex o.pair_name o.base_token o.quote_token)

unfoldable pub matches_pair_code : (ℕ → String) → Matches → Result String
unfolding pair_code
matches_pair_code hex m = pair_code hex m.taker_order

-- Whether the map of order books has an entry.
abbrev pub has_book : List String → String → Bool
has_book [] c = false
has_book (k ∷ ks) c = str_eq k c || has_book ks c

-- The keys of the map that `NewEngine` makes.
unfoldable pub new_engine : (ℕ → String) → List Pair → List String
unfolding code
new_engine hex ps = map (code hex) ps

module _ {D : Type 0} (b : Backend D) (keccak : ℕ → ℕ → ℕ) (hex : ℕ → String)
    (books : List String) where
  -- The order book is a nil pointer if there is none for the code.
  abbrev pub with_book : String → Error → Action D (Unit {0}) → Action D (Unit {0})
  with_book c missing run = if has_book books c then run else throw missing

  unfoldable pub handle_add_order : Result Order → Action D (Unit {0})
  handle_add_order decoded = do
    o ← lift decoded
    c ← lift (pair_code hex o)
    with_book c orderbook_error (do _ ← add_order b o; pure tt)

  unfoldable pub handle_new_order : Result Order → Action D (Unit {0})
  handle_new_order decoded = do
    o ← lift decoded
    c ← lift (pair_code hex o)
    with_book c orderbook_error (new_order_on_book b keccak o)

  unfoldable pub handle_cancel_order : Result Order → Action D (Unit {0})
  handle_cancel_order decoded = do
    o ← lift decoded
    c ← lift (pair_code hex o)
    with_book c orderbook_error (cancel_order_on_book b keccak o)

  unfoldable pub handle_invalidate_maker_orders : Result Matches → Action D (Unit {0})
  unfolding matches_pair_code
  handle_invalidate_maker_orders decoded = do
    m ← lift decoded
    c ← lift (matches_pair_code hex m)
    with_book c orderbook_error (invalidate_maker_orders b keccak m)

  -- With no order book this handler returns the error of the code, which is nil there.
  unfoldable pub handle_invalidate_taker_orders : Result Matches → Action D (Unit {0})
  unfolding matches_pair_code
  handle_invalidate_taker_orders decoded = do
    m ← lift decoded
    c ← lift (matches_pair_code hex m)
    if has_book books c then invalidate_taker_orders b keccak m else pure tt

  unfoldable pub handle_orders : EngineMessage → Action D (Unit {0})
  unfolding handle_add_order handle_new_order handle_cancel_order handle_invalidate_maker_orders
      handle_invalidate_taker_orders
  handle_orders (new_order o) = handle_new_order o
  handle_orders (add_order_message o) = handle_add_order o
  handle_orders (cancel_order o) = handle_cancel_order o
  handle_orders (invalidate_makers m) = handle_invalidate_maker_orders m
  handle_orders (invalidate_takers m) = handle_invalidate_taker_orders m
  handle_orders unknown = pure tt

pub has_book-code :
    (hex : ℕ → String) (p : Pair) (ps : List Pair)
    → Contained p ps
    → has_book (map (code hex) ps) (code hex p) ≡ true
has_book-code hex p [] c = absurd c
has_book-code hex p (q ∷ ps) (inl e) = rw (← e, eq_refl (code hex p)) refl
has_book-code hex p (q ∷ ps) (inr c) = rw (has_book-code hex p ps c) (or_true _)
  where
    or_true : (x : Bool) → (x || true) ≡ true
    or_true x = ground arith

process-pair_code :
    (hex : ℕ → String) (now : ℕ) (p : Pair) (o : Order) {o' : Order}
    → process now p o ≡ ok o'
    → o.base_token ≡ p.base_token_address
    → o.quote_token ≡ p.quote_token_address
    → str_eq (name p) "" ≡ false
    → pair_code hex o' ≡ ok (code hex p)
unfolding process pair_code code
process-pair_code hex now p o h base quote named = ground arith

module _ {D : Type 0} (b : Backend D) (keccak : ℕ → ℕ → ℕ) (hex : ℕ → String) where
  -- Let a pair be among the engine's and its name not be empty. An order with the pair's tokens
  -- that was processed for it reaches an order book, and is handled there, when it arrives as a
  -- new order.
  handle_orders-process :
      (now : ℕ) (p : Pair) (ps : List Pair) (o o' : Order) (d : D)
      → Contained p ps
      → str_eq (name p) "" ≡ false
      → o.base_token ≡ p.base_token_address
      → o.quote_token ≡ p.quote_token_address
      → process now p o ≡ ok o'
      → handle_orders b keccak hex (new_engine hex ps) (new_order (ok o')) d
        ≡ new_order_on_book b keccak o' d
  unfolding handle_orders handle_new_order new_engine
  handle_orders-process now p ps o o' d c named base quote h =
      rw (process-pair_code hex now p o h base quote named, has_book-code hex p ps c) refl
