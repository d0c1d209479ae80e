-- ===== src/Ws/OrderConnections.antt =====
-- ws/orders.go, of which ws/deposit.go is a copy, and ws/main.go: the connections of an address.
pub mod Removal
pub mod Refinement
use dex_server.Prelude.{
  ℕ, zero, suc, ◌+◌, ◌-◌, Bool, true, false, ◌==◌, leb, if◌then◌else◌, Option, none, some, List, [],
  ◌∷◌, ◌++◌, length, take, drop,
}
use dex_server.Domain.Errors.{Result, ok, err, ◌>>=◌, runtime_panic}

-- `orderConnections`, by address; a missing key is nil, which an empty slice is not.
abbrev pub Connections : Type 0
Connections = ℕ → Option (List ℕ)

-- `isClientConnected`
unfoldable pub is_client_connected : List ℕ → ℕ → Bool
is_client_connected [] client = false
is_client_connected (c ∷ cs) client = if c == client then true else is_client_connected cs client

abbrev pub set_connections : ℕ → Option (List ℕ) → Connections → Connections
set_connections a cs m x = if a == x then cs else m x

-- The first test of `RegisterOrderConnection`, and the second.
abbrev pub connect_first : Option (List ℕ) → ℕ → Option (List ℕ)
connect_first none c = some (c ∷ [])
connect_first (some cs) c = some cs

abbrev pub connect : Option (List ℕ) → ℕ → Option (List ℕ)
unfolding is_client_connected
connect none c = none
connect (some cs) c = if is_client_connected cs c then some cs else some (cs ++ c ∷ [])

-- `RegisterOrderConnection`
unfoldable pub register_order_connection : ℕ → ℕ → Connections → Connections
unfolding connect
register_order_connection a c m = set_connections a (connect (connect_first (m a) c) c) m

-- `append(s[:i], s[i+1:]...)` on the array from i on: the entries behind i that the slice has, which
-- are `live` many, move forward, and the rest of the array stays as it is.
abbrev pub shifted : ℕ → ℕ → List ℕ → List ℕ
shifted live x xs = take live xs ++ drop live (x ∷ xs)

-- The loop of the handler, which ranges over the array while it removes from it. The third argument
-- is the array before the index i, the next the array from i on, and `len` is the length of the
-- slice that is left. The fuel is the number of indices that are left.
unfoldable pub remove_client : ℕ → ℕ → List ℕ → List ℕ → ℕ → Result (List ℕ)
remove_client fuel client done [] len = ok (take len done)
remove_client zero client done (x ∷ xs) len = ok (take len (done ++ x ∷ xs))
remove_client (suc fuel) client done (x ∷ xs) len =
    let live = len - suc (length done) in
    let moved = shifted live x xs in
    let removed = remove_client fuel client (done ++ take 1 moved) (drop 1 moved) (len - 1) in
    let kept = remove_client fuel client (done ++ x ∷ []) xs len in
    if x == client
    then (if leb (suc (length done)) len then removed else err runtime_panic)
    else kept

-- The removal of a client from the connections of one address, which may be nil.
unfoldable pub removal : ℕ → Option (List ℕ) → Result (Option (List ℕ))
unfolding remove_client
removal client none = ok none
removal client (some cs) = do
  left ← remove_client (length cs) client [] cs (length cs)
  ok (some left)

-- `OrderSocketUnsubscribeHandler`
unfoldable pub unsubscribe_handler : ℕ → ℕ → Connections → Result Connections
unfolding removal
unsubscribe_handler a client m = do left ← removal client (m a); ok (set_connections a left m)

-- The loop over a slice that may be nil.
abbrev pub clients_of : Option (List ℕ) → List ℕ
clients_of none = []
clients_of (some cs) = cs

-- `SendOrderMessage`: the clients that the message is sent to, in turn.
unfoldable pub send_order_message : ℕ → Connections → List ℕ
send_order_message a m = clients_of (m a)
