-- ===== src/Endpoints/Orders/Outcomes.antt =====
-- endpoints/order.go: what becomes of the messages on the order channel.
use dex_server.Prelude.{ℕ, false, [], ◌∷◌, ◌++◌, ◌≡◌, refl, Bool-cases, inl, inr}
use dex_server.Domain.Errors.{
  is_panic, Error, Result, ok, err, runtime_panic, account_blocked, Result-cases,
}
use dex_server.Domain.Account.{Account}
use dex_server.Domain.Order.{Order}
use dex_server.Domain.Order.Validation.{Crypto, hashed}
use dex_server.Domain.OrderCancel.{OrderCancel, get_sender_address}
use dex_server.Backend.{Backend}
use dex_server.Backend.Monad.{Action, andthen, ◌>>=◌}
use dex_server.Codec.{Json, Texts}
use dex_server.Codec.Cancels.{unmarshal_order_cancel}
use dex_server.Services.Accounts.{find_or_create}
use dex_server.Services.Orders.{submit_order, request_cancel}
use dex_server.Ws.OrderConnections.{register_order_connection}
use dex_server.Endpoints.Orders.{
  order_error_message, error_message, Session, outcome, call, evaluate, register, decode_order,
  zero_cancel, check_account, report, handle_decoded, handle_new_order, handle_request,
  handle_cancel_order,
}

module _ {D : Type 0} (b : Backend D) (c : Crypto) (t : Texts) (exchange client : ℕ) where
  -- The last call of a handler and its report leave the world of the call.
  call-report :
      (hash : ℕ) (r : Result (Unit {0})) (d : D) (s : Session D)
      → (andthen (outcome r d s).0 (outcome r d s).1 (report b c t exchange client hash)).1.world
        ≡ d
  unfolding outcome report
  call-report hash (ok u) d s = refl
  call-report hash (err e) d s = elim (Bool-cases (is_panic e)) [
    | inl p ↦ rw p refl
    | inr p ↦ rw p refl
  ]

  last_call :
      (m : Action D (Unit {0})) (hash : ℕ) (s : Session D)
      → ((call m >>= report b c t exchange client hash) s).1.world ≡ (m s.world).1
  unfolding call
  last_call m hash s = call-report hash (m s.world).0 (m s.world).1 s

  -- Where a request is decoded and the recovery of its sender does not panic, what the handler
  -- does to the world is to request the cancellation of the order that the request names, whoever
  -- has signed it.
  pub handle_cancel_order-request_cancel :
      (payload : Json) (oc : OrderCancel) (s : Session D)
      → unmarshal_order_cancel t payload zero_cancel ≡ ok oc
      → ((x : Error) → get_sender_address c oc ≡ err x → is_panic x ≡ false)
      → (handle_cancel_order b c t exchange client payload s).1.world
        ≡ (request_cancel b oc.order_hash s.world).1
  unfolding handle_cancel_order handle_request evaluate call outcome report
  handle_cancel_order-request_cancel payload oc s h n =
      rw h (elim (Result-cases (get_sender_address c oc)) [
        | inl (a, e) ↦ rw e (
            last_call (request_cancel b oc.order_hash) oc.hash
              (record s { connections = register_order_connection a client s.connections }))
        | inr (x, e) ↦
            rw (e, n x e)
              (last_call (request_cancel b oc.order_hash) oc.hash (record s {
                connections = register_order_connection 0 client s.connections;
                replies = s.replies ++ order_error_message x oc.hash ∷ [];
              }))
      ])

  -- A request whose decoding fails without a panic is answered with the error, and then the
  -- handler panics; nothing else changes.
  handle_cancel_order_undecoded :
      (payload : Json) (e : Error) (s : Session D)
      → unmarshal_order_cancel t payload zero_cancel ≡ err e
      → is_panic e ≡ false
      → handle_cancel_order b c t exchange client payload s
        ≡ (err runtime_panic, record s { replies = s.replies ++ order_error_message e 0 ∷ [] })
  unfolding handle_cancel_order handle_request evaluate call outcome is_panic get_sender_address
  handle_cancel_order_undecoded payload e s h p = rw (h, p) refl

  -- Where an order is decoded and its account found or made, what the handler does to the world
  -- from then on is to submit the order with its hash, whether or not the account is blocked.
  pub handle_new_order-submit_order :
      (payload : Json) (o : Order) (a : Account) (d₁ : D) (s : Session D)
      → decode_order t payload ≡ ok o
      → find_or_create b o.user_address s.world ≡ (ok a, d₁)
      → (handle_new_order b c t exchange client payload s).1.world
        ≡ (submit_order b c exchange (hashed c o) d₁).1
  unfolding handle_new_order handle_decoded check_account evaluate call outcome hashed register
  handle_new_order-submit_order payload o a d₁ s h f =
      let registered : Session D = record {
        world = d₁;
        connections = register_order_connection o.user_address client s.connections;
        replies = s.replies;
      } in
      rw (h, f)
        (elim (Bool-cases a.is_blocked) [
          | inl e ↦ rw e (
              last_call (submit_order b c exchange (hashed c o)) (hashed c o).hash
                (record registered { replies = s.replies ++ error_message account_blocked ∷ [] }))
          | inr e ↦
              rw e (last_call (submit_order b c exchange (hashed c o)) (hashed c o).hash registered)
        ])
