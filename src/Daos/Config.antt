-- ===== src/Daos/Config.antt =====
-- daos/config.go: the counters of the swap, under their keys.
use Prim.Native.String.{String}
use text.Mathlib.Text.{◌==◌ as str_eq}
use dex_server.Prelude.{ℕ, ◌-◌, ◌%◌, ◌^◌, Bool, List, [], ◌∷◌, ◌≡◌, refl}
use dex_server.Prelude.Int.{ℤ, pos, negsuc}
use dex_server.Numbers.{add}
use dex_server.Domain.Errors.{Result, ok, err, invalid_chain, value_not_found, bad_value}
use dex_server.Domain.Deposit.{Chain, ethereum, bitcoin, Value, number, string, anything, KeyValue}
use dex_server.Backend.{Backend}
use dex_server.Backend.Monad.{Action, pure, lift, ◌>>=◌, ◌>>◌}

abbrev pub schema_version_key : String
schema_version_key = "swap_schema_version"

unfoldable pub get_address_index_key : Chain → Result String
get_address_index_key ethereum = ok "ethereum_address_index"
get_address_index_key bitcoin = ok "bitcoin_address_index"
get_address_index_key (Chain.other s) = err invalid_chain

-- The `switch` of `GetBlockToProcess` and of `SaveLastProcessedBlock`.
unfoldable pub get_last_block_key : Chain → Result String
get_last_block_key ethereum = ok "ethereum_last_block"
get_last_block_key bitcoin = ok "bitcoin_last_block"
get_last_block_key (Chain.other s) = err invalid_chain

abbrev pub has_key : String → KeyValue → Bool
has_key k x = str_eq x.key k

-- `uint64(v)` of an `int` or an `int64`.
unfoldable pub to_uint64 : ℤ → ℕ
to_uint64 (pos n) = n % 2 ^ 64
to_uint64 (negsuc n) = 2 ^ 64 - 1 - n % 2 ^ 64

-- The `switch` of `getUint64ValueFromKey`; the parser is the one of the package strconv.
unfoldable pub as_uint64 : (String → Result ℕ) → Value → Result ℕ
unfolding to_uint64
as_uint64 parse_uint (number z) = ok (to_uint64 z)
as_uint64 parse_uint (string s) = parse_uint s
as_uint64 parse_uint anything = err bad_value

-- `$inc`, where the value is a number.
abbrev pub increment : KeyValue → KeyValue
unfolding add
increment x = record x {
  value = elim x.value [ number z ↦ number (add z (pos 1)) | other ↦ other ];
}

abbrev found_value : {D : Type 0} → Result (List KeyValue) → D → Result Value × D
found_value (ok []) d = (err value_not_found, d)
found_value (ok (x ∷ xs)) d = (ok x.value, d)
found_value (err e) d = (err value_not_found, d)

module _ {D : Type 0} (b : Backend D) (parse_uint : String → Result ℕ) where
  -- Any error of the query is reported as a missing value.
  unfoldable pub get_value_from_key : String → Action D Value
  get_value_from_key k d = let (r, d') = b.config.get (has_key k) 1 d in found_value r d'

  -- The reading of a value does to the world what the query does.
  pub get_value_from_key-keeps :
      (k : String) (d : D) → (get_value_from_key k d).1 ≡ (b.config.get (has_key k) 1 d).1
  unfolding get_value_from_key
  get_value_from_key-keeps k d = go (b.config.get (has_key k) 1 d)
    where
      go : (r : Result (List KeyValue) × D) → (found_value r.0 r.1).1 ≡ r.1
      go (ok [], e) = refl
      go (ok (x ∷ xs), e) = refl
      go (err y, e) = refl

  unfoldable pub get_uint64_value_from_key : String → Action D ℕ
  unfolding get_value_from_key as_uint64
  get_uint64_value_from_key k = do value ← get_value_from_key k; lift (as_uint64 parse_uint value)

  unfoldable pub get_address_index : Chain → Action D ℕ
  unfolding get_uint64_value_from_key get_address_index_key
  get_address_index c = do key ← lift (get_address_index_key c); get_uint64_value_from_key key

  unfoldable pub increment_address_index : Chain → Action D (Unit {0})
  unfolding get_address_index_key
  increment_address_index c = do
    key ← lift (get_address_index_key c)
    b.config.update (has_key key) increment

  unfoldable pub get_block_to_process : Chain → Action D ℕ
  unfolding get_uint64_value_from_key get_last_block_key
  get_block_to_process c = do key ← lift (get_last_block_key c); get_uint64_value_from_key key

  unfoldable pub save_last_processed_block : Chain → ℕ → Action D (Unit {0})
  unfolding get_last_block_key
  save_last_processed_block c block = do
    key ← lift (get_last_block_key c)
    _ ←
        b.config.find_and_modify (has_key key) (λ x. record x { value = number (pos block) })
          (record { key = key; value = number (pos block) })
    pure tt

  -- A version that cannot be read is 0.
  unfoldable pub get_schema_version : D → ℕ × D
  unfolding get_uint64_value_from_key
  get_schema_version d =
      let (r, d') = get_uint64_value_from_key schema_version_key d in
      (elim r [ ok n ↦ n | err e ↦ 0 ], d')

  unfoldable pub reset_block_counters : Action D (Unit {0})
  unfolding save_last_processed_block
  reset_block_counters = do
    save_last_processed_block ethereum 0
    save_last_processed_block bitcoin 0
