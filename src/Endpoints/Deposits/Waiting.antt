-- ===== src/Endpoints/Deposits/Waiting.antt =====
-- endpoints/deposit.go: a user who is waiting for a payment is given the same address again.
use dex_server.Prelude.{
  ℕ, Bool, true, false, Bool-cases, Option, none, some, List, [], ◌∷◌, All, ◌≡◌, refl, sym, ap,
  subst, ◌∙◌, ◌⊎◌, inl, inr,
}
use dex_server.Domain.Errors.{Result, ok, err}
use dex_server.Domain.Deposit.{Chain, Association, is_pending, PairAddresses, KeyValue}
use dex_server.Backend.{Backend}
use dex_server.Backend.Laws.{Contained, upsert, All-contained}
use dex_server.Backend.Monad.{pure, lift, >>=-eq-ok, >>=-keeps, >>=-pure}
use dex_server.Daos.Associations.{
  for_user, set_association, inserted_association, save_association,
  get_association_by_chain_associated_address,
}
use dex_server.Daos.Orders.Queries.{first}
use dex_server.Daos.Config.{
  get_address_index_key, has_key, increment, as_uint64, get_value_from_key,
  get_value_from_key-keeps, get_uint64_value_from_key, get_address_index, increment_address_index,
}
use dex_server.Services.Deposits.{
  Outside, generate, waiting, generate_address, save_association_by_chain_address,
}
use dex_server.Endpoints.Deposits.{
  waiting_address, store_address, new_address, address_unless_waiting, deposit_address,
}
use dex_server.Endpoints.Deposits.Waits.{
  AtMostOne, Waits, set_waits, inserted_waits, upsert-Waits, one-Waits,
}

-- A query for one document finds one that matches, if there is one; an upsert that succeeds makes
-- its change; the counters are in another collection.
pub record AssociationLaws {D : Type 0} (b : Backend D) (docs : D → List Association) : Type 0 where
  pub get_one :
      (q : Association → Bool) (d d' : D) (r : List Association)
      → b.associations.get q 1 d ≡ (ok r, d')
      → ((r ≡ []) × All (λ y. q y ≡ false) (docs d))
        ⊎ ((a : Association) × (r ≡ a ∷ []) × (q a ≡ true) × Contained a (docs d))
  pub get_keeps : (q : Association → Bool) (d : D) → docs (b.associations.get q 1 d).1 ≡ docs d
  pub upserting :
      (q : Association → Bool) (f : Association → Association) (new : Association) (d : D)
      (a : Association)
      → (b.associations.find_and_modify q f new d).0 ≡ ok a
      → docs (b.associations.find_and_modify q f new d).1 ≡ upsert q f new (docs d)
  pub reading : (q : KeyValue → Bool) (n : ℕ) (d : D) → docs (b.config.get q n d).1 ≡ docs d
  pub counting :
      (q : KeyValue → Bool) (f : KeyValue → KeyValue) (d : D)
      → docs (b.config.update q f d).1 ≡ docs d

module _ {D : Type 0} (b : Backend D) (x : Outside D) (docs : D → List Association)
    (l : AssociationLaws b docs) where
  index_keeps : (c : Chain) (d : D) → docs (get_address_index b x.parse_uint c d).1 ≡ docs d
  unfolding get_address_index get_uint64_value_from_key
  index_keeps c d =
      >>=-keeps (λ e. docs e ≡ docs d) (lift (get_address_index_key c))
        (get_uint64_value_from_key b x.parse_uint) d refl
        (λ k e.
          >>=-keeps (λ y. docs y ≡ docs d) (get_value_from_key b x.parse_uint k)
            (λ v. lift (as_uint64 x.parse_uint v)) d
            (ap docs (get_value_from_key-keeps b x.parse_uint k d) ∙ l.reading _ 1 d)
            (λ v f. ap docs (get_value_from_key-keeps b x.parse_uint k d) ∙ l.reading _ 1 d))

  increment_keeps :
      (c : Chain) (d : D) → docs (increment_address_index b x.parse_uint c d).1 ≡ docs d
  unfolding increment_address_index
  increment_keeps c d =
      >>=-keeps (λ e. docs e ≡ docs d) (lift (get_address_index_key c))
        (λ k. b.config.update (has_key k) increment) d refl (λ k e. l.counting _ _ d)

  generate_keeps : (c : Chain) (d : D) → docs (generate_address b x c d).1 ≡ docs d
  unfolding generate_address
  generate_keeps c d =
      let e = (increment_address_index b x.parse_uint c d).1 in
      let k = index_keeps c e ∙ increment_keeps c d in
      >>=-keeps (λ y. docs y ≡ docs d) (increment_address_index b x.parse_uint c) _ d
        (increment_keeps c d)
        (λ u f.
          >>=-keeps (λ y. docs y ≡ docs d) (get_address_index b x.parse_uint c) _ e k
            (λ n g. ap docs (>>=-pure (lift (generate x.child_address n)) (λ a. (a, n)) _) ∙ k))

  lookup_keeps :
      (c : Chain) (user : ℕ) (d : D)
      → docs (get_association_by_chain_associated_address b c user d).1 ≡ docs d
  unfolding get_association_by_chain_associated_address
  lookup_keeps c user d =
      ap docs (>>=-pure (b.associations.get (for_user c user) 1) first d) ∙ l.get_keeps _ d

  lookup_cases :
      (c : Chain) (user : ℕ) (d : D) {o : Option Association} {d' : D}
      → get_association_by_chain_associated_address b c user d ≡ (ok o, d')
      → ((o ≡ none) × All (λ y. for_user c user y ≡ false) (docs d))
        ⊎ ((a : Association) × (o ≡ some a) × (for_user c user a ≡ true) × Contained a (docs d))
  unfolding get_association_by_chain_associated_address
  lookup_cases c user d {o} h =
      let (r, p, q) =
        >>=-eq-ok (b.associations.get (for_user c user) 1) (λ r. pure (first r)) d h in
      let e : first r ≡ o = cc in
      elim (l.get_one (for_user c user) d _ r p) [
        | inl (k, all) ↦ inl (sym e ∙ ap first k, all)
        | inr (a, k, g, m) ↦ inr (a, sym e ∙ ap first k, g, m)
      ]

  save_association-Waits :
      (r : Association) (d : D) {d' : D}
      → is_pending r.status ≡ true
      → AtMostOne (for_user r.chain r.associated_address) (docs d)
      → save_association b r d ≡ (ok tt, d')
      → Waits (for_user r.chain r.associated_address) r.address (docs d')
  unfolding save_association
  save_association-Waits r d {d'} p h k =
      let q = for_user r.chain r.associated_address in
      let new = inserted_association r (b.new_object_id d) in
      let (a, e, k') =
        >>=-eq-ok (b.associations.find_and_modify q (set_association r) new) (λ a. pure tt) d k in
      let stored : (b.associations.find_and_modify q (set_association r) new d).1 ≡ d' = cc in
      subst (λ y. Waits q r.address (docs y)) stored
        (rw (l.upserting q (set_association r) new d a (ap (λ y. y.0) e)) (
          upsert-Waits q (set_association r) new r.address (set_waits r p)
            (inserted_waits r (b.new_object_id d) p) (docs d) h))

  store_address-Waits :
      (c : Chain) (user : ℕ) (p : PairAddresses) (i : ℕ × ℕ) (d : D) {a : ℕ} {d' : D}
      → AtMostOne (for_user c user) (docs d)
      → store_address b x c user p i d ≡ (ok a, d')
      → Waits (for_user c user) a (docs d')
  unfolding store_address save_association_by_chain_address is_pending
  store_address-Waits c user p (address, index) d {a} {d'} h k =
      let (u, e, k') =
        >>=-eq-ok (save_association_by_chain_address b x c address index user p) (λ u. pure address)
          d k in
      let same : address ≡ a = cc in
      let stored : (save_association_by_chain_address b x c address index user p d).1 ≡ d' = cc in
      subst (λ y. Waits (for_user c user) y (docs d')) same
        (subst (λ y. Waits (for_user c user) address (docs y)) stored
          (save_association-Waits (waiting (b.new_object_id d) c address index user p) d refl h e))

  new_address-Waits :
      (c : Chain) (user : ℕ) (p : PairAddresses) (d : D) {a : ℕ} {d' : D}
      → AtMostOne (for_user c user) (docs d)
      → new_address b x c user p d ≡ (ok a, d')
      → Waits (for_user c user) a (docs d')
  unfolding new_address
  new_address-Waits c user p d {a} {d'} h k =
      let (i, e, k') = >>=-eq-ok (generate_address b x c) (store_address b x c user p) d k in
      store_address-Waits c user p i (generate_address b x c d).1 (rw (generate_keeps c d) h) k'

  deposit_address-Waits :
      (c : Chain) (user : ℕ) (p : PairAddresses) (d : D) {a : ℕ} {d' : D}
      → AtMostOne (for_user c user) (docs d)
      → deposit_address b x c user p d ≡ (ok a, d')
      → Waits (for_user c user) a (docs d')
  unfolding deposit_address
  deposit_address-Waits c user p d {a} {d'} h k =
      go (get_association_by_chain_associated_address b c user d).0 refl k
    where
      e : D
      e = (get_association_by_chain_associated_address b c user d).1

      renewed : new_address b x c user p e ≡ (ok a, d') → Waits (for_user c user) a (docs d')
      renewed k = new_address-Waits c user p e (rw (lookup_keeps c user d) h) k

      waits :
          (y : Association)
          → (get_association_by_chain_associated_address b c user d).0 ≡ ok (some y)
          → is_pending y.status ≡ true
          → ◌≡◌ {A = Result ℕ × D} (ok y.address, e) (ok a, d')
          → Waits (for_user c user) a (docs d')
      waits y f w k = elim (lookup_cases c user d {o = some y} (ap (λ z. (z, e)) f)) [
        | inl (n, all) ↦ absurd (cc)
        | inr (z, n, g, m) ↦
            let same : y ≡ z = cc in
            let answer : y.address ≡ a = cc in
            let stored : docs d ≡ docs d' = sym (lookup_keeps c user d) ∙ ap (λ r. docs r.1) k in
            subst (λ y. Waits (for_user c user) y (docs d')) answer
              (rw (← stored, same) (one-Waits (for_user c user) z (docs d) h g (rw (← same) w) m))
      ]

      go :
          (r : Result (Option Association))
          → (get_association_by_chain_associated_address b c user d).0 ≡ r
          → address_unless_waiting b x c user p (waiting_address r) e ≡ (ok a, d')
          → Waits (for_user c user) a (docs d')
      go (err y) f k = renewed k
      go (ok none) f k = renewed k
      go (ok (some y)) f k = elim (Bool-cases (is_pending y.status)) [
        | inl w ↦ waits y f w (rw w at k)
        | inr w ↦ renewed (rw w at k)
      ]

  -- A user who waits is given the address once more, and nothing is stored.
  again :
      (c : Chain) (user address : ℕ) (p : PairAddresses) (d : D) {o : Option Association}
      → Waits (for_user c user) address (docs d)
      → (get_association_by_chain_associated_address b c user d).0 ≡ ok o
      → deposit_address b x c user p d
        ≡ (ok address, (get_association_by_chain_associated_address b c user d).1)
  unfolding deposit_address
  again c user address p d {o} (all, (a, g, m)) k =
      let r = get_association_by_chain_associated_address b c user d in
      elim (lookup_cases c user d {o = o} (ap (λ y. (y, r.1)) k)) [
        | inl (f, none_of) ↦
            let z : for_user c user a ≡ false = All-contained _ (docs d) none_of m in absurd (cc)
        | inr (y, f, q, c') ↦ let w = All-contained _ (docs d) all c' q in rw (k, f, w.0, w.1) refl
      ]

  -- Let the database keep its laws and hold at most one association of the user on the chain. If
  -- the user was given an address, and then the lookup of the association succeeds, a request of
  -- the user on the chain, also with another pair, is answered with the same address, and does
  -- nothing but the lookup.
  pub deposit_address_again :
      (c : Chain) (user : ℕ) (p₁ p₂ : PairAddresses) (d : D) {a : ℕ} {d' : D}
      {o : Option Association}
      → AtMostOne (for_user c user) (docs d)
      → deposit_address b x c user p₁ d ≡ (ok a, d')
      → (get_association_by_chain_associated_address b c user d').0 ≡ ok o
      → deposit_address b x c user p₂ d'
        ≡ (ok a, (get_association_by_chain_associated_address b c user d').1)
  deposit_address_again c user p₁ p₂ d {a} {d'} h k =
      again c user a p₂ d' (deposit_address-Waits c user p₁ d h k)
