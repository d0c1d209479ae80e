-- ===== src/Ws/Sockets/Relation.antt =====
-- ws/orderbook.go: a socket is a relation between channels and clients.
use Prim.Native.String.{String}
use text.Mathlib.Text.{◌==◌ as str_eq}
use text.Mathlib.TextEquality.{eq_iff}
use dex_server.Prelude.{
  ℕ, Bool, true, false, not, ◌&&◌, ◌||◌, ◌==◌, if◌then◌else◌, some, List, [], ◌∷◌, ◌++◌, ◌≡◌, refl,
  sym, ◌∙◌, Bool-cases, inl, inr, arith,
}
use dex_server.Domain.Errors.{ok}
use dex_server.Ws.Sockets.{
  Entries, entry, put, delete, Socket, entries, list_of, get_or, set_at, subscribe,
  unsubscribe_channel, unsubscribe_channels,
}
use dex_server.Ws.Sockets.Table.{
  IsUnique, entry-put, put-IsUnique, delete-IsUnique, entry-removed, entry-kept,
}

-- The relation that a socket stands for.
abbrev pub is_subscribed : Socket → String → ℕ → Bool
is_subscribed s id c = entry (entries s id) c

unfoldable pub listed : String → List String → Bool
listed id [] = false
listed id (x ∷ xs) = str_eq x id || listed id xs

pub listed-append :
    (id x : String) (xs : List String) → listed id (xs ++ x ∷ []) ≡ (listed id xs || str_eq x id)
unfolding listed
listed-append id x [] = or_false (str_eq x id)
  where
    or_false : (b : Bool) → (b || false) ≡ b
    or_false b = ground arith
listed-append id x (y ∷ ys) =
    rw (listed-append id x ys) (assoc (str_eq y id) (listed id ys) (str_eq x id))
  where
    assoc : (a b c : Bool) → (a || (b || c)) ≡ ((a || b) || c)
    assoc a b c = ground arith

-- What follows a successful `Subscribe`.
abbrev pub joined : String → ℕ → Socket → Socket
joined id c s = record {
  subscriptions = set_at str_eq id (put c true (entries s id)) s.subscriptions;
  subscriptions_list = set_at (λ a b. a == b) c (list_of s c ++ id ∷ []) s.subscriptions_list;
}

pub subscribe-joined :
    (id : String) (c : ℕ) (s s' : Socket) → subscribe id (some c) s ≡ ok s' → s' ≡ joined id c s
unfolding subscribe
subscribe-joined id c s s' h = cc

-- A table that is written, at any channel.
written :
    (P : Entries → Type 0) (m : Entries) (id id' : String) (s : Socket)
    → (id ≡ id' → P m)
    → P (entries s id')
    → P (get_or [] (set_at str_eq id m s.subscriptions id'))
written P m id id' s new old = elim (Bool-cases (str_eq id id')) [
  | inl e ↦ rw e (new ((eq_iff id id').0 e))
  | inr e ↦ rw e old
]

if-or : (x y : Bool) → (if x then true else y) ≡ (x || y)
if-or true y = refl
if-or false y = refl

pub joined-is_subscribed :
    (id id' : String) (c c' : ℕ) (s : Socket)
    → is_subscribed (joined id c s) id' c'
      ≡ ((str_eq id id' && (c == c')) || is_subscribed s id' c')
joined-is_subscribed id id' c c' s = elim (Bool-cases (str_eq id id')) [
  | inl e ↦ rw (e, (eq_iff id id').0 e, entry-put c c' true (entries s id')) (if-or (c == c') _)
  | inr e ↦ rw e refl
]

pub unsubscribe_channel-is_subscribed :
    (id id' : String) (c c' : ℕ) (s : Socket)
    → IsUnique (entries s id)
    → is_subscribed (unsubscribe_channel id c s) id' c'
      ≡ (not (str_eq id id' && (c == c')) && is_subscribed s id' c')
unfolding unsubscribe_channel
unsubscribe_channel-is_subscribed id id' c c' s u = elim (Bool-cases (entry (entries s id) c)) [
  | inl b ↦ elim (Bool-cases (str_eq id id')) [
    | inl e ↦ rw (b, e, ← (eq_iff id id').0 e) (entry-removed c c' (entries s id) u)
    | inr e ↦ rw (b, e) refl
  ]
  | inr b ↦ elim (Bool-cases (str_eq id id')) [
    | inl e ↦ rw (b, e, ← (eq_iff id id').0 e) (entry-kept c c' (entries s id) b)
    | inr e ↦ rw (b, e) refl
  ]
]

-- The channels of a list end one after the other.
unsubscribe_channel-IsUnique :
    (id : String) (c : ℕ) (s : Socket)
    → ((x : String) → IsUnique (entries s x))
    → (x : String) → IsUnique (entries (unsubscribe_channel id c s) x)
unfolding unsubscribe_channel
unsubscribe_channel-IsUnique id c s u x = elim (Bool-cases (entry (entries s id) c)) [
  | inl b ↦ rw b (
      written IsUnique (delete c (put c false (entries s id))) id x s
        (λ e. delete-IsUnique c _ (put-IsUnique c false _ (u id))) (u x))
  | inr b ↦ rw b (u x)
]

pub unsubscribe_channels-is_subscribed :
    (ids : List String) (id' : String) (c c' : ℕ) (s : Socket)
    → ((id : String) → IsUnique (entries s id))
    → is_subscribed (unsubscribe_channels ids c s) id' c'
      ≡ (not (listed id' ids && (c == c')) && is_subscribed s id' c')
unfolding listed unsubscribe_channels
unsubscribe_channels-is_subscribed [] id' c c' s u = refl
unsubscribe_channels-is_subscribed (id ∷ ids) id' c c' s u =
    rw
      (
        unsubscribe_channels-is_subscribed ids id' c c' (unsubscribe_channel id c s)
            (unsubscribe_channel-IsUnique id c s u),
        unsubscribe_channel-is_subscribed id id' c c' s (u id),
      )
      (both (listed id' ids) (str_eq id id') (c == c') _)
  where
    both : (l e x y : Bool) → (not (l && x) && (not (e && x) && y)) ≡ (not ((e || l) && x) && y)
    both l e x y = ground arith

pub joined-IsUnique :
    (id : String) (c : ℕ) (s : Socket)
    → ((x : String) → IsUnique (entries s x))
    → (x : String) → IsUnique (entries (joined id c s) x)
joined-IsUnique id c s u x =
    written IsUnique (put c true (entries s id)) id x s (λ e. put-IsUnique c true _ (u id)) (u x)

pub unsubscribe_channels-IsUnique :
    (ids : List String) (c : ℕ) (s : Socket)
    → ((x : String) → IsUnique (entries s x))
    → (x : String) → IsUnique (entries (unsubscribe_channels ids c s) x)
unfolding unsubscribe_channels
unsubscribe_channels-IsUnique [] c s u = u
unsubscribe_channels-IsUnique (id ∷ ids) c s u =
    unsubscribe_channels-IsUnique ids c (unsubscribe_channel id c s)
      (unsubscribe_channel-IsUnique id c s u)

-- Ending subscriptions adds none.
pub unsubscribe_channels-narrows :
    (ids : List String) (id' : String) (c c' : ℕ) (s : Socket)
    → ((id : String) → IsUnique (entries s id))
    → is_subscribed (unsubscribe_channels ids c s) id' c' ≡ true
    → is_subscribed s id' c' ≡ true
unsubscribe_channels-narrows ids id' c c' s u h =
    was _ _ (sym (unsubscribe_channels-is_subscribed ids id' c c' s u) ∙ h)
  where
    was : (x y : Bool) → (not x && y) ≡ true → y ≡ true
    was x y h = ground arith

-- A client whose channels are all listed loses them all.
pub all_listed :
    (l x y : Bool) → (x ≡ true → y ≡ true → l ≡ true) → (not (l && x) && y) ≡ (not x && y)
all_listed l x y h = ground arith
