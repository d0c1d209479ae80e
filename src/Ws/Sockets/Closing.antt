-- ===== src/Ws/Sockets/Closing.antt =====
-- ws/client.go and ws/connection.go: what a client that closes leaves behind.
use Prim.Native.String.{String}
use text.Mathlib.Text.{◌==◌ as str_eq}
use dex_server.Prelude.{
  ℕ, Bool, true, false, not, ◌&&◌, ◌||◌, ◌==◌, ==_iff, List, [], ◌∷◌, ◌≡◌, sym, ◌∙◌, Bool-cases,
  inl, inr, arith,
}
use dex_server.Domain.Errors.{ok}
use dex_server.Ws.Sockets.{
  new_socket, entries, Server, list_of, entry, subscribe, subscribe_client, register_handler,
  unsubscribe_channel, unsubscribe_channels, unsubscribe, close_connection,
}
use dex_server.Ws.Sockets.Table.{IsUnique}
use dex_server.Ws.Sockets.Relation.{
  is_subscribed, listed, listed-append, joined, joined-IsUnique, all_listed,
  unsubscribe_channels-IsUnique, unsubscribe_channels-narrows, joined-is_subscribed,
  unsubscribe_channels-is_subscribed,
}

-- The servers that subscribing and unsubscribing through the services make.
pub data Serving : Server → Type 0 where
  start : Serving (record { socket = new_socket; unsubscribe_handlers = λ c. [] })
  after_subscribe_client :
      (id : String) (c : ℕ) (s s' : Server)
      → Serving s
      → subscribe_client id c s ≡ ok s'
      → Serving s'
  after_unsubscribe_channel :
      (id : String) (c : ℕ) (s : Server)
      → Serving s
      → Serving (record s { socket = unsubscribe_channel id c s.socket })
  after_unsubscribe :
      (c : ℕ) (s : Server) → Serving s → Serving (record s { socket = unsubscribe c s.socket })
  after_close_connection :
      (order : List String) (c : ℕ) (s : Server) → Serving s → Serving (close_connection order c s)

-- Every subscription has its handler.
pub record IsHandled (s : Server) : Type 0 where
  pub handled :
      (id : String) (c : ℕ)
      → is_subscribed s.socket id c ≡ true
      → listed id (s.unsubscribe_handlers c) ≡ true
  pub unique : (id : String) → IsUnique (entries s.socket id)

start-IsHandled : IsHandled (record { socket = new_socket; unsubscribe_handlers = λ c. [] })
unfolding entry
start-IsHandled = record { handled = λ id c h. cc; unique = λ id. tt }

-- What a registration adds.
register_handler-listed :
    (id x : String) (c c' : ℕ) (s : Server)
    → listed x ((register_handler c id s).unsubscribe_handlers c')
      ≡ ((str_eq id x && (c == c')) || listed x (s.unsubscribe_handlers c'))
unfolding register_handler
register_handler-listed id x c c' s = elim (Bool-cases (c == c')) [
  | inl e ↦
      rw (e, listed-append x id (s.unsubscribe_handlers c), (==_iff c c').0 e)
        (swap (listed x (s.unsubscribe_handlers c')) (str_eq id x))
  | inr e ↦ rw e (off (listed x (s.unsubscribe_handlers c')) (str_eq id x))
]
  where
    swap : (l a : Bool) → (l || a) ≡ ((a && true) || l)
    swap l a = ground arith

    off : (l a : Bool) → l ≡ ((a && false) || l)
    off l a = ground arith

subscribe_client-joined :
    (id : String) (c : ℕ) (s s' : Server)
    → subscribe_client id c s ≡ ok s'
    → s' ≡ register_handler c id (record s { socket = joined id c s.socket })
unfolding subscribe_client subscribe
subscribe_client-joined id c s s' h = cc

joined-IsHandled :
    (id : String) (c : ℕ) (s : Server)
    → IsHandled s
    → IsHandled (register_handler c id (record s { socket = joined id c s.socket }))
unfolding register_handler
joined-IsHandled id c s k = record {
  unique = joined-IsUnique id c s.socket k.unique;
  handled = λ x c' h.
      register_handler-listed id x c c' s
      ∙ carry _ _ _ (sym (joined-is_subscribed id x c c' s.socket) ∙ h) (k.handled x c');
}
  where
    carry : (a b l : Bool) → (a || b) ≡ true → (b ≡ true → l ≡ true) → (a || l) ≡ true
    carry a b l h k = ground arith

ended-IsHandled :
    (ids : List String) (c : ℕ) (s : Server)
    → IsHandled s
    → IsHandled (record s { socket = unsubscribe_channels ids c s.socket })
ended-IsHandled ids c s k = record {
  unique = unsubscribe_channels-IsUnique ids c s.socket k.unique;
  handled = λ x c' h. k.handled x c' (unsubscribe_channels-narrows ids x c c' s.socket k.unique h);
}

Serving-IsHandled : (s : Server) → Serving s → IsHandled s
unfolding unsubscribe_channels unsubscribe close_connection
Serving-IsHandled s start = start-IsHandled
Serving-IsHandled s (after_subscribe_client id c old s' r h) =
    rw (subscribe_client-joined id c old s h) (joined-IsHandled id c old (Serving-IsHandled old r))
Serving-IsHandled s (after_unsubscribe_channel id c old r) =
    ended-IsHandled (id ∷ []) c old (Serving-IsHandled old r)
Serving-IsHandled s (after_unsubscribe c old r) =
    ended-IsHandled (list_of old.socket c) c old (Serving-IsHandled old r)
Serving-IsHandled s (after_close_connection order c old r) =
    ended-IsHandled order c old (Serving-IsHandled old r)

-- On a server that subscribing, unsubscribing and closing make: when a connection closes and at
-- least all the handlers that it has registered run, in any order, it is subscribed to nothing any
-- more, and the subscriptions of the other clients are what they were.
pub close_connection-is_subscribed :
    (order : List String) (id : String) (c c' : ℕ) (s : Server)
    → Serving s
    → ((x : String) → listed x (s.unsubscribe_handlers c) ≡ true → listed x order ≡ true)
    → is_subscribed (close_connection order c s).socket id c'
      ≡ (not (c == c') && is_subscribed s.socket id c')
unfolding close_connection
close_connection-is_subscribed order id c c' s r run =
    let k = Serving-IsHandled s r in
    unsubscribe_channels-is_subscribed order id c c' s.socket k.unique
    ∙ all_listed _ (c == c') _ (λ e b. run id (k.handled id c (rw ((==_iff c c').0 e) b)))
