-- ===== src/Domain/Order/Validation.antt =====
-- types/order.go and types/signature.go: the hash of an order, its signature, and the checks on it.
use dex_server.Prelude.{
  ℕ, ◌+◌, ◌-◌, ◌%◌, Bool, true, false, not, ◌||◌, Option, none, some, List, [], ◌∷◌, ◌++◌, ◌==◌,
  if◌then◌else◌, ◌≡◌, ◌≢◌, ◌↔◌, ◌⊎◌, arith,
}
use dex_server.Prelude.Int.{ℤ, pos, ◌<ℤ◌}
use dex_server.Numbers.{
  is_equal, is_smaller_than, is_equal_or_smaller_than, is_smaller_than-cases,
  is_equal_or_smaller_than-cases,
}
use dex_server.Domain.Errors.{
  Result, ok, err, ◌>>=◌, ◌>>◌, fail_if, bad_exchange_address, user_address_required,
  nonce_required, base_token_required, quote_token_required, make_fee_required, take_fee_required,
  amount_required, pricepoint_required, bad_side, signature_required, nonce_not_positive,
  amount_not_positive, pricepoint_not_positive, recovered_address_incorrect, signature_invalid,
  invalid_make_fee, invalid_take_fee, runtime_panic,
}
use dex_server.Domain.Order.{Order, buy, sell, Signature, is_buy, is_sell, encoded_side}
use dex_server.Domain.Pair.{Pair, name}

-- go-ethereum: Keccak-256 over bytes, the bytes of an address, a hash and a big integer, and the
-- recovery of a public key from a message hash and the 65 bytes of a signature.
pub record Crypto : Type 0 where
  pub keccak : List ℕ → ℕ
  pub address_bytes : ℕ → List ℕ
  pub hash_bytes : ℕ → List ℕ
  pub big_to_hash_bytes : ℤ → List ℕ
  pub sig_to_pub : ℕ → List ℕ → Result ℕ
  pub pubkey_to_address : ℕ → ℕ

-- The bytes of "\x19Ethereum Signed Message:\n32".
abbrev pub message_prefix : List ℕ
message_prefix =
    0x19 ∷ b'E' ∷ b't' ∷ b'h' ∷ b'e' ∷ b'r' ∷ b'e' ∷ b'u' ∷ b'm' ∷ b' ' ∷ b'S' ∷ b'i' ∷ b'g' ∷ b'n'
    ∷ b'e' ∷ b'd' ∷ b' ' ∷ b'M' ∷ b'e' ∷ b's' ∷ b's' ∷ b'a' ∷ b'g' ∷ b'e' ∷ b':' ∷ 10 ∷ b'3' ∷ b'2'
    ∷ []

abbrev pub is_some : {A : Type 0} → Option A → Bool
is_some none = false
is_some (some a) = true

module _ (c : Crypto) where
  -- `MarshalSignature`: R, S and V - 27, which wraps as a byte.
  unfoldable pub marshal_signature : Signature → List ℕ
  marshal_signature s = c.hash_bytes s.r ++ (c.hash_bytes s.s ++ ((s.v + 256 - 27) % 256) ∷ [])

  -- `Signature.Verify`
  unfoldable pub recover : Signature → ℕ → Result ℕ
  unfolding marshal_signature
  recover s hash = do
    pub_key ← c.sig_to_pub hash (marshal_signature s)
    ok (c.pubkey_to_address pub_key)

  unfoldable pub compute_hash : Order → ℕ
  compute_hash o = c.keccak (
      c.address_bytes o.exchange_address
      ++ (c.address_bytes o.user_address
          ++ (c.address_bytes o.base_token
              ++ (c.address_bytes o.quote_token
                  ++ (c.big_to_hash_bytes o.amount
                      ++ (c.big_to_hash_bytes o.pricepoint
                          ++ (c.big_to_hash_bytes (encoded_side o)
                              ++ (c.big_to_hash_bytes o.nonce
                                  ++ (c.big_to_hash_bytes o.take_fee
                                      ++ c.big_to_hash_bytes o.make_fee)))))))))

  -- `VerifySignature` writes the hash into the order.
  unfoldable pub hashed : Order → Order
  hashed o = record o { hash = compute_hash o }

  -- The message that the owner of an order signs.
  abbrev pub signed_message : Order → ℕ
  signed_message o = c.keccak (message_prefix ++ c.hash_bytes (compute_hash o))

  unfoldable pub verify_signature : Order → Result Bool
  verify_signature o = elim o.signature [
    | none ↦ err runtime_panic
    | some s ↦ do
      address ← recover s (signed_message o)
      fail_if (not (address == o.user_address)) recovered_address_incorrect
      ok true
  ]

  -- `Order.Validate`, given the exchange address of the configuration.
  unfoldable pub validate : ℕ → Order → Result (Unit {0})
  validate exchange o = do
    fail_if (not (o.exchange_address == exchange)) bad_exchange_address
    fail_if (o.user_address == 0) user_address_required
    fail_if (not o.given.nonce) nonce_required
    fail_if (o.base_token == 0) base_token_required
    fail_if (o.quote_token == 0) quote_token_required
    fail_if (not o.given.make_fee) make_fee_required
    fail_if (not o.given.take_fee) take_fee_required
    fail_if (not o.given.amount) amount_required
    fail_if (not o.given.pricepoint) pricepoint_required
    fail_if (not (is_buy o.side || is_sell o.side)) bad_side
    fail_if (not (is_some o.signature)) signature_required
    fail_if (is_smaller_than o.nonce (pos 0)) nonce_not_positive
    fail_if (is_equal_or_smaller_than o.amount (pos 0)) amount_not_positive
    fail_if (is_equal_or_smaller_than o.pricepoint (pos 0)) pricepoint_not_positive
    valid ← verify_signature o
    fail_if (not valid) signature_invalid

-- `Process`, given the time.
unfoldable pub process : ℕ → Pair → Order → Result Order
process now p o =
    if not (is_equal o.make_fee p.make_fee)
    then err invalid_make_fee
    else if not (is_equal o.take_fee p.take_fee)
    then err invalid_take_fee
    else ok (record o {
      filled_amount = if o.has_filled_amount then o.filled_amount else pos 0;
      has_filled_amount = true;
      pair_name = name p;
      created_at = now;
      updated_at = now;
    })

-- What an order must be to be accepted, its signature included.
pub record IsAcceptable (c : Crypto) (exchange : ℕ) (o : Order) : Type 0 where
  pub for_exchange : o.exchange_address ≡ exchange
  pub has_user : o.user_address ≢ 0
  pub has_base : o.base_token ≢ 0
  pub has_quote : o.quote_token ≢ 0
  pub complete :
      (o.given.nonce ≡ true)
      × (o.given.make_fee ≡ true)
      × (o.given.take_fee ≡ true)
      × (o.given.amount ≡ true)
      × (o.given.pricepoint ≡ true)
  pub sided : (o.side ≡ buy) ⊎ (o.side ≡ sell)
  pub nonce_positive : pos 0 <ℤ o.nonce
  pub amount_positive : pos 0 <ℤ o.amount
  pub price_positive : pos 0 <ℤ o.pricepoint
  pub signed : verify_signature c o ≡ ok true

verify_signature-some :
    (c : Crypto) (o : Order) → verify_signature c o ≡ ok true → is_some o.signature ≡ true
unfolding verify_signature
verify_signature-some c o h = ground arith

verify_signature-true : (c : Crypto) (o : Order) (v : Bool) → verify_signature c o ≡ ok v → v ≡ true
unfolding verify_signature
verify_signature-true c o v h = ground arith

-- `Validate` accepts exactly the orders for this exchange that have a user, two tokens, all their
-- numbers and a side, whose nonce, amount and price are positive, and whose signature is checked
-- with success.
pub validate-IsAcceptable :
    (c : Crypto) (exchange : ℕ) (o : Order)
    → (validate c exchange o ≡ ok tt) ↔ IsAcceptable c exchange o
unfolding validate
validate-IsAcceptable c exchange o = (
  λ h. ground (
    arith,
    is_smaller_than-cases o.nonce (pos 0),
    is_equal_or_smaller_than-cases o.amount (pos 0),
    is_equal_or_smaller_than-cases o.pricepoint (pos 0),
    verify_signature-true c o true,
  ),
  λ a. ground (
    arith,
    is_smaller_than-cases o.nonce (pos 0),
    is_equal_or_smaller_than-cases o.amount (pos 0),
    is_equal_or_smaller_than-cases o.pricepoint (pos 0),
    verify_signature-some c o a.signed,
  ),
)

-- A signature is checked with success exactly if it is there and the address that it recovers to,
-- for the message with the hash of this order, is the order's user.
verify_signature_iff :
    (c : Crypto) (o : Order)
    → (verify_signature c o ≡ ok true) ↔ (
        (s : Signature) × (o.signature ≡ some s)
        × (recover c s (signed_message c o) ≡ ok o.user_address))
unfolding verify_signature
verify_signature_iff c o = (λ h. ground arith, λ h. ground arith)
