-- ===== src/Ws/Sockets/Refinement.antt =====
-- ws/orderbook.go: what the operations of a socket do to its relation.
use Prim.Native.String.{String}
use text.Mathlib.Text.{◌==◌ as str_eq}
use dex_server.Prelude.{
  ℕ, Bool, true, false, not, ◌&&◌, ◌||◌, ◌==◌, ==_iff, if◌then◌else◌, some, List, [], ◌∷◌, ◌≡◌,
  refl, sym, ◌∙◌, Bool-cases, inl, inr, arith,
}
use dex_server.Domain.Errors.{ok}
use dex_server.Ws.Sockets.{
  entry, Socket, new_socket, entries, list_of, subscribe, unsubscribe_channel, unsubscribe_channels,
  unsubscribe, broadcast_message,
}
use dex_server.Ws.Sockets.Relation.{
  is_subscribed, listed, listed-append, joined-IsUnique, all_listed, unsubscribe_channels-IsUnique,
  unsubscribe_channels-narrows, joined, subscribe-joined, joined-is_subscribed,
  unsubscribe_channel-is_subscribed, unsubscribe_channels-is_subscribed,
}
use dex_server.Ws.Sockets.Table.{IsUnique, count, count-active_clients}

-- The sockets that the operations make.
pub data Reachable : Socket → Type 0 where
  start : Reachable new_socket
  after_subscribe :
      (id : String) (c : ℕ) (s s' : Socket)
      → Reachable s
      → subscribe id (some c) s ≡ ok s'
      → Reachable s'
  after_unsubscribe_channel :
      (id : String) (c : ℕ) (s : Socket) → Reachable s → Reachable (unsubscribe_channel id c s)
  after_unsubscribe : (c : ℕ) (s : Socket) → Reachable s → Reachable (unsubscribe c s)

-- The tables of a socket: no client is in one twice, and the channels of a client are on its list.
pub record IsSocket (s : Socket) : Type 0 where
  pub unique : (id : String) → IsUnique (entries s id)
  pub recorded :
      (id : String) (c : ℕ) → is_subscribed s id c ≡ true → listed id (list_of s c) ≡ true

new_socket-IsSocket : IsSocket new_socket
unfolding entry
new_socket-IsSocket = record { unique = λ id. tt; recorded = λ id c h. cc }

-- Whoever was or has become subscribed is on the list.
joined-recorded :
    (id : String) (c : ℕ) (s : Socket)
    → IsSocket s
    → (id' : String) (c' : ℕ) → is_subscribed (joined id c s) id' c' ≡ true
    → listed id' (list_of (joined id c s) c') ≡ true
joined-recorded id c s k id' c' h =
    let step = sym (joined-is_subscribed id id' c c' s) ∙ h in
    elim (Bool-cases (c == c')) [
      | inl e ↦
          rw (e, listed-append id' id (list_of s c))
            (or_lem _ _ _ _ step (λ b. k.recorded id' c (rw ((==_iff c c').0 e) b)))
      | inr e ↦ rw e (k.recorded id' c' (other _ _ _ e step))
    ]
  where
    or_lem : (x y n l : Bool) → ((x && y) || n) ≡ true → (n ≡ true → l ≡ true) → (l || x) ≡ true
    or_lem x y n l h k = ground arith

    other : (x y n : Bool) → y ≡ false → ((x && y) || n) ≡ true → n ≡ true
    other x y n e h = ground arith

joined-IsSocket : (id : String) (c : ℕ) (s : Socket) → IsSocket s → IsSocket (joined id c s)
joined-IsSocket id c s k = record {
  unique = joined-IsUnique id c s k.unique;
  recorded = joined-recorded id c s k;
}

unsubscribe_channels-list :
    (ids : List String) (c : ℕ) (s : Socket)
    → (unsubscribe_channels ids c s).subscriptions_list ≡ s.subscriptions_list
unfolding unsubscribe_channels unsubscribe_channel
unsubscribe_channels-list [] c s = refl
unsubscribe_channels-list (id ∷ ids) c s =
    unsubscribe_channels-list ids c (unsubscribe_channel id c s) ∙ ground arith

unsubscribe_channels-IsSocket :
    (ids : List String) (c : ℕ) (s : Socket) → IsSocket s → IsSocket (unsubscribe_channels ids c s)
unsubscribe_channels-IsSocket ids c s k = record {
  unique = unsubscribe_channels-IsUnique ids c s k.unique;
  recorded = λ id' c' h.
      rw (unsubscribe_channels-list ids c s)
        (k.recorded id' c' (unsubscribe_channels-narrows ids id' c c' s k.unique h));
}

-- In a socket that the operations make, no client is in a channel's table twice, and every channel
-- that a client is subscribed to is on the client's list.
pub Reachable-IsSocket : (s : Socket) → Reachable s → IsSocket s
unfolding unsubscribe unsubscribe_channels
Reachable-IsSocket s start = new_socket-IsSocket
Reachable-IsSocket s (after_subscribe id c old s' r h) =
    rw (subscribe-joined id c old s h) (joined-IsSocket id c old (Reachable-IsSocket old r))
Reachable-IsSocket s (after_unsubscribe_channel id c old r) =
    unsubscribe_channels-IsSocket (id ∷ []) c old (Reachable-IsSocket old r)
Reachable-IsSocket s (after_unsubscribe c old r) =
    unsubscribe_channels-IsSocket (list_of old c) c old (Reachable-IsSocket old r)

-- On a socket that the operations make: subscribing succeeds and adds one pair of a channel and a
-- client to the relation, ending a subscription takes that pair away, and unsubscribing a client
-- takes all its pairs away; no other pair changes.
pub Reachable-is_subscribed :
    (id id' : String) (c c' : ℕ) (s : Socket)
    → Reachable s
    → ((s' : Socket) × (subscribe id (some c) s ≡ ok s')
        × (is_subscribed s' id' c' ≡ ((str_eq id id' && (c == c')) || is_subscribed s id' c')))
      × (is_subscribed (unsubscribe_channel id c s) id' c'
          ≡ (not (str_eq id id' && (c == c')) && is_subscribed s id' c'))
      × (is_subscribed (unsubscribe c s) id' c' ≡ (not (c == c') && is_subscribed s id' c'))
unfolding subscribe unsubscribe
Reachable-is_subscribed id id' c c' s r =
    let k = Reachable-IsSocket s r in
    (
      (joined id c s, refl, joined-is_subscribed id id' c c' s),
      unsubscribe_channel-is_subscribed id id' c c' s (k.unique id),
      unsubscribe_channels-is_subscribed (list_of s c) id' c c' s k.unique
          ∙ all_listed _ (c == c') _ (λ e b. k.recorded id' c (rw ((==_iff c c').0 e) b)),
    )

-- In a socket that the operations make, a message to a channel is sent once to every client that
-- is subscribed to the channel, and to no other.
pub Reachable-broadcast_message :
    (id : String) (c : ℕ) (s : Socket)
    → Reachable s
    → count c (broadcast_message id s) ≡ (if is_subscribed s id c then 1 else 0)
unfolding broadcast_message
Reachable-broadcast_message id c s r =
    count-active_clients c (entries s id) ((Reachable-IsSocket s r).unique id)
