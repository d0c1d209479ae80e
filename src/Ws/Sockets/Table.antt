-- ===== src/Ws/Sockets/Table.antt =====
-- ws/orderbook.go: the clients of one channel.
use dex_server.Prelude.{
  ℕ, ◌+◌, Bool, true, false, not, ◌&&◌, ◌==◌, if◌then◌else◌, List, [], ◌∷◌, All, ◌≡◌, refl,
  Bool-cases, inl, inr, arith,
}
use dex_server.Ws.Sockets.{Entries, entry, put, delete, active_clients}

-- No key occurs twice.
abbrev pub IsUnique : Entries → Type 0
IsUnique [] = Unit
IsUnique ((k, v) ∷ m) = All (λ e. (e.0 == k) ≡ false) m × IsUnique m

pub entry-put :
    (c x : ℕ) (v : Bool) (m : Entries) → entry (put c v m) x ≡ (if c == x then v else entry m x)
unfolding entry put
entry-put c x v [] = refl
entry-put c x v ((k, w) ∷ m) = ground (arith, entry-put c x v m)

entry-absent : (c : ℕ) (m : Entries) → All (λ e. (e.0 == c) ≡ false) m → entry m c ≡ false
unfolding entry
entry-absent c [] h = refl
entry-absent c ((k, w) ∷ m) h = rw h.0 (entry-absent c m h.1)

pub entry-delete :
    (c x : ℕ) (m : Entries)
    → IsUnique m
    → entry (delete c m) x ≡ (if c == x then false else entry m x)
unfolding entry delete
entry-delete c x [] u = ground arith
entry-delete c x ((k, w) ∷ m) u = ground (arith, entry-delete c x m u.1, entry-absent k m u.0)

All-put :
    (c k : ℕ) (v : Bool) (m : Entries)
    → (c == k) ≡ false
    → All (λ e. (e.0 == k) ≡ false) m
    → All (λ e. (e.0 == k) ≡ false) (put c v m)
unfolding put
All-put c k v [] n h = (n, tt)
All-put c k v ((j, w) ∷ m) n h = elim (Bool-cases (j == c)) [
  | inl e ↦ rw e h
  | inr e ↦ rw e (h.0, All-put c k v m n h.1)
]

pub put-IsUnique : (c : ℕ) (v : Bool) (m : Entries) → IsUnique m → IsUnique (put c v m)
unfolding put
put-IsUnique c v [] u = (tt, tt)
put-IsUnique c v ((k, w) ∷ m) u = elim (Bool-cases (k == c)) [
  | inl e ↦ rw e u
  | inr e ↦ rw e (All-put c k v m (ground arith) u.0, put-IsUnique c v m u.1)
]

All-delete :
    (c k : ℕ) (m : Entries)
    → All (λ e. (e.0 == k) ≡ false) m
    → All (λ e. (e.0 == k) ≡ false) (delete c m)
unfolding delete
All-delete c k [] h = tt
All-delete c k ((j, w) ∷ m) h = elim (Bool-cases (j == c)) [
  | inl e ↦ rw e h.1
  | inr e ↦ rw e (h.0, All-delete c k m h.1)
]

pub delete-IsUnique : (c : ℕ) (m : Entries) → IsUnique m → IsUnique (delete c m)
unfolding delete
delete-IsUnique c [] u = tt
delete-IsUnique c ((k, w) ∷ m) u = elim (Bool-cases (k == c)) [
  | inl e ↦ rw e u.1
  | inr e ↦ rw e (All-delete c k m u.0, delete-IsUnique c m u.1)
]

-- How often a client is in a list of clients.
unfoldable pub count : ℕ → List ℕ → ℕ
count c [] = 0
count c (x ∷ xs) = (if x == c then 1 else 0) + count c xs

count-absent :
    (c : ℕ) (m : Entries) → All (λ e. (e.0 == c) ≡ false) m → count c (active_clients m) ≡ 0
unfolding count
count-absent c [] h = refl
count-absent c ((k, true) ∷ m) h = rw (h.0, count-absent c m h.1) refl
count-absent c ((k, false) ∷ m) h = count-absent c m h.1

pub count-active_clients :
    (c : ℕ) (m : Entries) → IsUnique m → count c (active_clients m) ≡ (if entry m c then 1 else 0)
unfolding count entry
count-active_clients c [] u = refl
count-active_clients c ((k, true) ∷ m) u =
    ground (arith, count-active_clients c m u.1, count-absent k m u.0)
count-active_clients c ((k, false) ∷ m) u =
    ground (arith, count-active_clients c m u.1, count-absent k m u.0)

-- What `UnsubscribeChannel` does to a table, and why it may leave alone one that does not have the
-- client.
pub entry-removed :
    (c x : ℕ) (m : Entries)
    → IsUnique m
    → entry (delete c (put c false m)) x ≡ (not (c == x) && entry m x)
entry-removed c x m u =
    ground
      (arith, entry-delete c x (put c false m) (put-IsUnique c false m u), entry-put c x false m)

pub entry-kept :
    (c x : ℕ) (m : Entries) → entry m c ≡ false → entry m x ≡ (not (c == x) && entry m x)
entry-kept c x m h = ground arith
