-- ===== src/Endpoints/Deposits/Waits.antt =====
-- endpoints/deposit.go: associations that wait for a payment, as documents.
use text.Mathlib.TextPositions.{eq_refl}
use dex_server.Prelude.{
  ℕ, ==_refl, Bool, true, false, Bool-cases, List, [], ◌∷◌, All, ◌≡◌, refl, inl, inr,
}
use dex_server.Domain.Deposit.{Chain, ethereum, bitcoin, is_chain, Association, is_pending}
use dex_server.Backend.Laws.{Contained, upsert, All-map, All-contained}
use dex_server.Daos.Associations.{for_user, set_association, inserted_association}

-- At most one document passes the test: the unique index on the chain and the user.
abbrev pub AtMostOne : (Association → Bool) → List Association → Type 0
AtMostOne q [] = Unit
AtMostOne q (a ∷ xs) = (q a ≡ true → All (λ x. q x ≡ false) xs) × AtMostOne q xs

is_chain_refl : (c : Chain) → is_chain c c ≡ true
unfolding is_chain
is_chain_refl ethereum = refl
is_chain_refl bitcoin = refl
is_chain_refl (Chain.other s) = eq_refl s

for_user_set :
    (r old : Association) → for_user r.chain r.associated_address (set_association r old) ≡ true
unfolding set_association
for_user_set r old = rw (is_chain_refl r.chain, ==_refl r.associated_address) refl

for_user_inserted :
    (r : Association) (id : ℕ)
    → for_user r.chain r.associated_address (inserted_association r id) ≡ true
unfolding inserted_association
for_user_inserted r id = rw (is_chain_refl r.chain, ==_refl r.associated_address) refl

pub set_waits :
    (r : Association)
    → is_pending r.status ≡ true
    → (old : Association)
    → (for_user r.chain r.associated_address (set_association r old) ≡ true)
      × (is_pending (set_association r old).status ≡ true)
      × ((set_association r old).address ≡ r.address)
unfolding set_association
set_waits r p old = (for_user_set r old, p, refl)

pub inserted_waits :
    (r : Association) (id : ℕ)
    → is_pending r.status ≡ true
    → (for_user r.chain r.associated_address (inserted_association r id) ≡ true)
      × (is_pending (inserted_association r id).status ≡ true)
      × ((inserted_association r id).address ≡ r.address)
unfolding inserted_association
inserted_waits r id p = (for_user_inserted r id, p, refl)

-- The user's association waits for a payment to the address, and there is one.
abbrev pub Waits : (Association → Bool) → ℕ → List Association → Type 0
Waits q address xs =
    All (λ a. q a ≡ true → (is_pending a.status ≡ true) × (a.address ≡ address)) xs
    × ((a : Association) × (q a ≡ true) × Contained a xs)

pub upsert-Waits :
    (q : Association → Bool) (f : Association → Association) (new : Association) (address : ℕ)
    → ((y : Association)
        → (q (f y) ≡ true) × (is_pending (f y).status ≡ true) × ((f y).address ≡ address))
    → (q new ≡ true) × (is_pending new.status ≡ true) × (new.address ≡ address)
    → (xs : List Association) → AtMostOne q xs
    → Waits q address (upsert q f new xs)
upsert-Waits q f new address changed inserted [] h =
    (((λ e. (inserted.1, inserted.2)), tt), (new, inserted.0, inl refl))
upsert-Waits q f new address changed inserted (y ∷ xs) h = elim (Bool-cases (q y)) [
  | inl e ↦ rw e (
    (
      (λ g. ((changed y).1, (changed y).2)),
      All-map (λ z. q z ≡ false) _ xs (λ z k g. absurd (cc)) (h.0 e),
    ),
    (f y, (changed y).0, inl refl),
  )
  | inr e ↦
      let (all, (a, p, c)) = upsert-Waits q f new address changed inserted xs h.1 in
      rw e (((λ g. absurd (cc)), all), (a, p, inr c))
]

-- What is passed later is not passed first.
not_first :
    {P : Type 0} (q : Association → Bool) (a y : Association) (xs : List Association)
    → AtMostOne q (y ∷ xs)
    → q a ≡ true
    → Contained a xs
    → q y ≡ true
    → P
not_first q a y xs h e c g = let k = All-contained (λ z. q z ≡ false) xs (h.0 g) c in absurd (cc)

-- If a document waits and at most one passes the test, all that pass it wait for its address.
pub one-Waits :
    (q : Association → Bool) (a : Association) (xs : List Association)
    → AtMostOne q xs
    → q a ≡ true
    → is_pending a.status ≡ true
    → Contained a xs
    → Waits q a.address xs
one-Waits q a [] h e p c = absurd c
one-Waits q a (y ∷ xs) h e p (inl f) = (
  (
    (λ g. (rw (← f) p, rw f refl)),
    All-map (λ z. q z ≡ false) _ xs (λ z k g. absurd (cc)) (h.0 (rw (← f) e)),
  ),
  (a, e, inl f),
)
one-Waits q a (y ∷ xs) h e p (inr c) =
    let (all, rest) = one-Waits q a xs h.1 e p c in ((not_first q a y xs h e c, all), (a, e, inr c))
