-- ===== src/Domain/OrderCancel.antt =====
-- types/order_cancel.go: the request to cancel an order, and its signature.
use dex_server.Prelude.{ℕ, Bool, true, not, ◌==◌, Option, none, some, ◌++◌, ◌≡◌, ◌↔◌, arith}
use dex_server.Domain.Errors.{
  Result, ok, err, ◌>>=◌, ◌>>◌, fail_if, recovered_address_incorrect, runtime_panic,
}
use dex_server.Domain.Order.{Order, Signature}
use dex_server.Domain.Order.Validation.{Crypto, message_prefix, recover}

pub record OrderCancel : Type 0 where
  pub order_hash : ℕ
  pub hash : ℕ
  pub signature : Option Signature

module _ (c : Crypto) where
  -- `GetSenderAddress`: the address of whoever signed the hash that the request states.
  unfoldable pub get_sender_address : OrderCancel → Result ℕ
  get_sender_address oc = elim oc.signature [
    | none ↦ err runtime_panic
    | some s ↦ recover c s (c.keccak (message_prefix ++ c.hash_bytes oc.hash))
  ]

  -- `OrderCancel.VerifySignature`, given an order that may be nil.
  unfoldable pub verify_signature : OrderCancel → Option Order → Result Bool
  verify_signature oc none = err recovered_address_incorrect
  verify_signature oc (some o) = elim oc.signature [
    | none ↦ err runtime_panic
    | some s ↦ do
      address ← recover c s (c.keccak (message_prefix ++ c.hash_bytes oc.hash))
      fail_if (not (address == o.user_address)) recovered_address_incorrect
      ok true
  ]

  -- `OrderCancel.ComputeHash`
  unfoldable pub compute_hash : OrderCancel → ℕ
  compute_hash oc = c.keccak (c.hash_bytes oc.order_hash)

  -- The signature of a request is verified for an order exactly if the request's sender is the
  -- order's user.
  pub verify_signature-get_sender_address :
      (oc : OrderCancel) (o : Order)
      → (verify_signature oc (some o) ≡ ok true) ↔ (get_sender_address oc ≡ ok o.user_address)
  unfolding verify_signature get_sender_address
  verify_signature-get_sender_address oc o = (λ h. ground arith, λ h. ground arith)
