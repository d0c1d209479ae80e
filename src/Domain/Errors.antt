-- ===== src/Domain/Errors.antt =====
-- The errors that the code returns, one constructor for each message, and the pair (value, error)
-- that a Go function returns. `external` is an error of MongoDB, RabbitMQ or the Ethereum node.
use dex_server.Prelude.{ℕ, ◌≡◌, ◌⊎◌, inl, inr, refl, Bool, true, false}

pub data Error : Type 0 where
  external : ℕ → Error
  -- an index out of range, or a nil pointer: the code stops with a panic
  runtime_panic : Error
  bad_exchange_address user_address_required nonce_required base_token_required : Error
  quote_token_required make_fee_required take_fee_required amount_required : Error
  pricepoint_required bad_side signature_required nonce_not_positive : Error
  amount_not_positive pricepoint_not_positive recovered_address_incorrect : Error
  signature_invalid invalid_make_fee invalid_take_fee pair_name_required : Error
  taker_required maker_required taker_order_hash_required maker_order_hash_required : Error
  json_error account_blocked account_exists hash_required order_hash_required no_connection bad_hash
        no_trades no_maker_orders taker_order_required :
      Error
  pair_exists base_token_not_found quote_token_not_found quote_token_invalid : Error
  invalid_chain value_not_found bad_value not_a_number invalid_precision : Error
  minimum_not_positive no_listener invalid_network_id block_not_found : Error
  association_nil wrong_pair_name zero_pricepoint invalid_asset_code invalid_public_key : Error
  not_connected not_transferred wrong_event loading_account : Error
  base_token_invalid internal_server_error : Error
  pair_not_found amount_too_low invalid_signature : Error
  insufficient_balance insufficient_available : Error
  insufficient_allowance insufficient_allowance_available : Error
  order_not_found cannot_cancel orderbook_error queue_full : Error
  invalid_trade could_not_update reverted_transaction : Error

unfoldable pub is_panic : Error → Bool
is_panic runtime_panic = true
is_panic _ = false

pub data Result {ℓ} (A : Type ℓ) : Type ℓ where
  ok : A → Result A
  err : Error → Result A

pub Result-cases {ℓ} :
    {A : Type ℓ} (r : Result A) → ((a : A) × (r ≡ ok a)) ⊎ ((e : Error) × (r ≡ err e))
Result-cases (ok a) = inl (a, refl)
Result-cases (err e) = inr (e, refl)

-- A chain of checks with no effect.
infixl 5 ◌>>=◌ ◌>>◌
abbrev pub ◌>>=◌ {ℓ κ} : {A : Type ℓ} {B : Type κ} → Result A → (A → Result B) → Result B
err x >>= next = err x
ok value >>= next = next value

abbrev pub ◌>>◌ {κ} : {B : Type κ} → Result (Unit {0}) → Result B → Result B
check >> next = check >>= λ _. next

-- `if c { return errors.New(e) }`
abbrev pub fail_if : Bool → Error → Result (Unit {0})
fail_if true e = err e
fail_if false e = ok tt
