-- ===== src/Daos/Pairs.antt =====
-- daos/pair.go: the pairs collection. `split` cuts a text at a separator, which no part has.
use Prim.Native.String.{String}
use text.Mathlib.Text.{◌==◌ as str_eq}
use dex_server.Prelude.{true, Option, none, some, List, [], ◌∷◌, ◌&&◌}
use dex_server.Domain.Errors.{runtime_panic}
use dex_server.Domain.Pair.{Pair}
use dex_server.Backend.{Backend}
use dex_server.Backend.Monad.{Action, pure, throw, ◌>>=◌}
use dex_server.Daos.Orders.Queries.{first}

-- An empty slice is nil.
abbrev pub nil_if_empty : {A : Type 0} → List A → Option (List A)
nil_if_empty [] = none
nil_if_empty (x ∷ xs) = some (x ∷ xs)

module _ {D : Type 0} (b : Backend D) where
  unfoldable pub get_all_pairs : Action D (List Pair)
  get_all_pairs = b.pairs.get (λ p. true) 0

  unfoldable pub get_active_pairs : Action D (Option (List Pair))
  get_active_pairs = do res ← b.pairs.get (λ p. p.active) 0; pure (nil_if_empty res)

  unfoldable pub get_by_token_symbols : String → String → Action D (Option Pair)
  get_by_token_symbols base quote = do
    res ← b.pairs.get (λ p. str_eq p.base_token_symbol base && str_eq p.quote_token_symbol quote) 1
    pure (first res)

  -- The two symbols are the first two parts of the name; with fewer, an index is out of range.
  unfoldable pub get_by_symbols : List String → Action D (Option Pair)
  unfolding get_by_token_symbols
  get_by_symbols [] = throw runtime_panic
  get_by_symbols (base ∷ []) = throw runtime_panic
  get_by_symbols (base ∷ quote ∷ rest) = get_by_token_symbols base quote

  unfoldable pub get_by_name : (String → String → List String) → String → Action D (Option Pair)
  unfolding get_by_symbols
  get_by_name split name = get_by_symbols (split name "/")
