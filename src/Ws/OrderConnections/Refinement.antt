-- ===== src/Ws/OrderConnections/Refinement.antt =====
-- ws/orders.go: whom the messages to an address reach.
use dex_server.Prelude.{
  ℕ, ◌+◌, Bool, true, false, ◌&&◌, ◌==◌, ==_iff, ==_refl, if◌then◌else◌, Option, none, some, List,
  [], ◌∷◌, ◌++◌, length, All, ◌≡◌, refl, sym, ◌∙◌, Bool-cases, inl, inr, arith,
}
use dex_server.Domain.Errors.{ok}
use dex_server.Ws.OrderConnections.{
  Connections, connect, connect_first, set_connections, clients_of, removal, is_client_connected,
  register_order_connection, unsubscribe_handler, send_order_message,
}
use dex_server.Ws.OrderConnections.Removal.{
  IsDistinct, IsAbsent, IsAbsent-append, without, remove_client-without,
}
use dex_server.Ws.Sockets.Table.{count}

-- The connections that registering and unsubscribing make.
pub data Reachable : Connections → Type 0 where
  start : Reachable (λ a. none)
  after_register :
      (a c : ℕ) (m : Connections) → Reachable m → Reachable (register_order_connection a c m)
  after_unsubscribe :
      (a c : ℕ) (m m' : Connections)
      → Reachable m
      → unsubscribe_handler a c m ≡ ok m'
      → Reachable m'

unconnected : (c : ℕ) (cs : List ℕ) → is_client_connected cs c ≡ false → count c cs ≡ 0
unfolding is_client_connected count
unconnected c [] h = refl
unconnected c (x ∷ xs) h = ground (arith, unconnected c xs)

absent-count : (c : ℕ) (xs : List ℕ) → All (λ y. (y == c) ≡ false) xs → count c xs ≡ 0
unfolding count
absent-count c [] h = refl
absent-count c (x ∷ xs) h = ground (arith, absent-count c xs h.1)

connected : (c : ℕ) (cs : List ℕ) → IsDistinct cs → is_client_connected cs c ≡ true → count c cs ≡ 1
unfolding is_client_connected count
connected c [] d h = cc
connected c (x ∷ xs) d h = ground (arith, connected c xs d.1, absent-count x xs d.0)

count-append : (c : ℕ) (xs ys : List ℕ) → count c (xs ++ ys) ≡ count c xs + count c ys
unfolding count
count-append c [] ys = ground arith
count-append c (x ∷ xs) ys = ground (arith, count-append c xs ys)

count-without :
    (c x : ℕ) (cs : List ℕ) → count x (without c cs) ≡ (if c == x then 0 else count x cs)
unfolding count without
count-without c x [] = ground arith
count-without c x (y ∷ cs) = ground (arith, count-without c x cs)

-- Registering a client adds it to a list of distinct clients, unless it is there.
count-connect :
    (c x : ℕ) (cs : Option (List ℕ))
    → IsDistinct (clients_of cs)
    → count x (clients_of (connect (connect_first cs c) c))
      ≡ (if c == x then 1 else count x (clients_of cs))
unfolding count connect is_client_connected
count-connect c x none d = rw (==_refl c) (ground arith)
count-connect c x (some cs) d = elim (Bool-cases (is_client_connected cs c)) [
  | inl e ↦ rw e (ground (arith, connected c cs d e))
  | inr e ↦ rw e (ground (arith, count-append x cs (c ∷ []), unconnected c cs e))
]

IsDistinct-append :
    (c : ℕ) (cs : List ℕ)
    → IsDistinct cs
    → is_client_connected cs c ≡ false
    → IsDistinct (cs ++ c ∷ [])
unfolding is_client_connected
IsDistinct-append c [] d h = (tt, tt)
IsDistinct-append c (x ∷ cs) d h = elim (Bool-cases (x == c)) [
  | inl e ↦ absurd (none_connected (x == c) _ e h)
  | inr e ↦ (
    IsAbsent-append x cs (c ∷ []) d.0 (swapped x c e, tt),
    IsDistinct-append c cs d.1 (later (x == c) _ e h),
  )
]
  where
    none_connected : (b y : Bool) → b ≡ true → (if b then true else y) ≡ false → ⊥
    none_connected b y e h = ground arith

    later : (b y : Bool) → b ≡ false → (if b then true else y) ≡ false → y ≡ false
    later b y e h = ground arith

    swapped : (x c : ℕ) → (x == c) ≡ false → (c == x) ≡ false
    swapped x c e = ground arith

connect-IsDistinct :
    (c : ℕ) (cs : Option (List ℕ))
    → IsDistinct (clients_of cs)
    → IsDistinct (clients_of (connect (connect_first cs c) c))
unfolding connect is_client_connected
connect-IsDistinct c none d = rw (==_refl c) (tt, tt)
connect-IsDistinct c (some cs) d = elim (Bool-cases (is_client_connected cs c)) [
  | inl e ↦ rw e d
  | inr e ↦ rw e (IsDistinct-append c cs d e)
]

IsAbsent-without : (x c : ℕ) (cs : List ℕ) → IsAbsent x cs → IsAbsent x (without c cs)
unfolding without
IsAbsent-without x c [] h = tt
IsAbsent-without x c (y ∷ cs) h = elim (Bool-cases (y == c)) [
  | inl e ↦ rw e (IsAbsent-without x c cs h.1)
  | inr e ↦ rw e (h.0, IsAbsent-without x c cs h.1)
]

without-IsDistinct : (c : ℕ) (cs : List ℕ) → IsDistinct cs → IsDistinct (without c cs)
unfolding without
without-IsDistinct c [] d = tt
without-IsDistinct c (x ∷ cs) d = elim (Bool-cases (x == c)) [
  | inl e ↦ rw e (without-IsDistinct c cs d.1)
  | inr e ↦ rw e (IsAbsent-without x c cs d.0, without-IsDistinct c cs d.1)
]

-- The handler on distinct connections.
abbrev left : ℕ → Option (List ℕ) → Option (List ℕ)
left c none = none
left c (some cs) = some (without c cs)

removal-left :
    (c : ℕ) (cs : Option (List ℕ)) → IsDistinct (clients_of cs) → removal c cs ≡ ok (left c cs)
unfolding removal
removal-left c none d = refl
removal-left c (some cs) d = rw (remove_client-without c [] cs (length cs) d (omega arith)) refl

handler-left :
    (a c : ℕ) (m : Connections)
    → IsDistinct (clients_of (m a))
    → unsubscribe_handler a c m ≡ ok (set_connections a (left c (m a)) m)
unfolding unsubscribe_handler
handler-left a c m d = rw (removal-left c (m a) d) refl

left-IsDistinct :
    (c : ℕ) (cs : Option (List ℕ))
    → IsDistinct (clients_of cs)
    → IsDistinct (clients_of (left c cs))
left-IsDistinct c none d = tt
left-IsDistinct c (some cs) d = without-IsDistinct c cs d

-- The connections of one address change.
set-IsDistinct :
    (a : ℕ) (cs : Option (List ℕ)) (m : Connections)
    → IsDistinct (clients_of cs)
    → ((x : ℕ) → IsDistinct (clients_of (m x)))
    → (x : ℕ) → IsDistinct (clients_of (set_connections a cs m x))
set-IsDistinct a cs m new old x = elim (Bool-cases (a == x)) [
  | inl e ↦ rw e new
  | inr e ↦ rw e (old x)
]

-- No client is connected twice for an address.
pub Reachable-IsDistinct : (m : Connections) → Reachable m → (a : ℕ) → IsDistinct (clients_of (m a))
unfolding register_order_connection
Reachable-IsDistinct m start = λ a. tt
Reachable-IsDistinct m (after_register a c old r) =
    let d = Reachable-IsDistinct old r in
    set-IsDistinct a _ old (connect-IsDistinct c (old a) (d a)) d
Reachable-IsDistinct m (after_unsubscribe a c old m' r h) =
    let d = Reachable-IsDistinct old r in
    let e : m ≡ set_connections a (left c (old a)) old =
      same (sym h ∙ handler-left a c old (d a)) in
    rw e (set-IsDistinct a _ old (left-IsDistinct c (old a) (d a)) d)
  where
    same : {x y : Connections} → ok x ≡ ok y → x ≡ y
    same h = cc

count-left :
    (c x : ℕ) (cs : Option (List ℕ))
    → count x (clients_of (left c cs)) ≡ (if c == x then 0 else count x (clients_of cs))
unfolding count
count-left c x none = ground arith
count-left c x (some cs) = count-without c x cs

-- The count at one address, after the connections of an address were set.
count-set :
    (a a' x : ℕ) (cs : Option (List ℕ)) (m : Connections) (n : ℕ) (b : Bool)
    → count x (clients_of cs) ≡ (if b then n else count x (clients_of (m a)))
    → count x (send_order_message a' (set_connections a cs m))
      ≡ (if (a == a') && b then n else count x (send_order_message a' m))
unfolding send_order_message
count-set a a' x cs m n b h = elim (Bool-cases (a == a')) [
  | inl e ↦ rw (e, ← (==_iff a a').0 e) h
  | inr e ↦ rw e refl
]

-- On connections that the operations make: after a client is registered for an address, a message
-- to the address reaches it once; the handler of its closing does not panic, and after it none
-- reaches it; what reaches the other clients and addresses stays the same.
pub Reachable-send_order_message :
    (a a' c c' : ℕ) (m : Connections)
    → Reachable m
    → (count c' (send_order_message a' (register_order_connection a c m))
        ≡ (if (a == a') && (c == c') then 1 else count c' (send_order_message a' m)))
      × ((m' : Connections) × (unsubscribe_handler a c m ≡ ok m')
          × (count c' (send_order_message a' m')
              ≡ (if (a == a') && (c == c') then 0 else count c' (send_order_message a' m))))
unfolding register_order_connection
Reachable-send_order_message a a' c c' m r =
    let d = Reachable-IsDistinct m r a in
    (
      count-set a a' c' _ m _ (c == c') (count-connect c c' (m a) d),
      (_, handler-left a c m d, count-set a a' c' _ m _ (c == c') (count-left c c' (m a))),
    )
