-- ===== src/Endpoints/Deposits/Settlement.antt =====
-- endpoints/deposit.go: when an offer is settled.
use Prim.Native.String.{String}
use dex_server.Prelude.{
  ℕ, ◌==◌, ==_iff, Bool-cases, Option, none, some, List, [], ◌∷◌, ◌≡◌, refl, sym, ap, subst, ◌∙◌,
  inl, inr,
}
use dex_server.Prelude.Int.{ℤ}
use dex_server.Numbers.{is_equal, is_equal-eq}
use dex_server.Domain.Errors.{Error, Result, ok, err, not_connected, not_transferred, not_a_number}
use dex_server.Domain.Deposit.{success, Chain, Association, AssociationTransaction, create_offer}
use dex_server.Backend.{Backend}
use dex_server.Backend.Monad.{Action, lift, ◌>>=◌, >>=-eq-ok}
use dex_server.Daos.Associations.{
  get_association_by_chain_associated_address, save_deposit_transaction,
}
use dex_server.Services.Deposits.{
  Outside, save_association_status_by_chain_address, get_base_token_amount,
}
use dex_server.Endpoints.Deposits.{
  Gateway, instead, check_events, call_token, confirm_transfer, token_amount,
  process_token_transaction, fail_association, note_outcome, transfer_amount, settle_transaction,
  after_saving, save_encoded, submit_for, on_submit_transaction,
}

instead-eq-ok :
    {D A : Type 0} (e : Error) (r : Result A × D) {a : A} {d' : D}
    → instead e r ≡ (ok a, d')
    → r ≡ (ok a, d')
instead-eq-ok e (ok a, d) h = h
instead-eq-ok e (err x, d) h = cc

-- A run from the world `d` to `d'`: the token is connected to, the amount of the other coin is
-- exchanged, and after the tokens are transferred they are seen to have been.
pub record IsTransferred {D : Type 0} (b : Backend D) (x : Outside D) (g : Gateway D)
    (a : Association) (quote_amount : ℤ) (d d' : D) : Type 0 where
  pub amount : ℤ
  pub d₁ : D
  pub d₂ : D
  pub d₃ : D
  pub d₄ : D
  pub connected : g.connect_token a.base_token_address d ≡ (ok tt, d₁)
  pub exchanged : get_base_token_amount b x a.pair_name quote_amount d₁ ≡ (ok amount, d₂)
  pub listening : g.listen_to_transfer_events a.base_token_address d₂ ≡ (ok tt, d₃)
  pub sent : g.transfer a.base_token_address a.associated_address amount d₃ ≡ (ok tt, d₄)
  pub seen : g.transferred a.base_token_address d₄ ≡ (ok ((a.associated_address, amount) ∷ []), d')

check_events-eq-ok :
    (receiver : ℕ) (amount : ℤ) (events : List (ℕ × ℤ))
    → check_events receiver amount events ≡ ok tt
    → events ≡ (receiver, amount) ∷ []
check_events-eq-ok receiver amount [] h = cc
check_events-eq-ok receiver amount ((to, value) ∷ []) h = elim (Bool-cases (to == receiver)) [
  | inl e ↦ elim (Bool-cases (is_equal value amount)) [
    | inl f ↦
        let p = (==_iff to receiver).0 e in let q = is_equal-eq value amount f in rw (p, q) refl
    | inr f ↦ let k = rw (e, f) at h in cc
  ]
  | inr e ↦ let k = rw e at h in cc
]
check_events-eq-ok receiver amount ((to, value) ∷ more ∷ events) h = cc

module _ {D : Type 0} (b : Backend D) (x : Outside D) (g : Gateway D) where
  fail_association-not-ok :
      (a : Association) (e : Error) (d : D) → (fail_association b x a e d).0 ≡ err e
  unfolding fail_association
  fail_association-not-ok a e d = refl

  process_token_transaction-IsTransferred :
      (a : Association) (quote_amount : ℤ) (d : D) {d' : D}
      → process_token_transaction b x g a quote_amount d ≡ (ok tt, d')
      → IsTransferred b x g a quote_amount d d'
  unfolding process_token_transaction confirm_transfer
  process_token_transaction-IsTransferred a quote_amount d {d'} h =
      let token = a.base_token_address in
      let user = a.associated_address in
      let connect = call_token b x not_connected (g.connect_token token) in
      let listen = call_token b x not_connected (g.listen_to_transfer_events token) in
      let check : List (ℕ × ℤ) → ℤ → Action D (Unit {0}) =
        λ events amount. lift (check_events user amount events) in
      let (u, e₁, h₁) =
        >>=-eq-ok connect (λ u. token_amount b x a quote_amount >>= confirm_transfer b x g a) d h in
      let (amount, e₂, h₂) =
        >>=-eq-ok (token_amount b x a quote_amount) (confirm_transfer b x g a) (connect d).1 h₁ in
      let send = call_token b x not_transferred (g.transfer token user amount) in
      let (v, e₃, h₃) =
        >>=-eq-ok listen (λ u. send >>= λ v. g.transferred token >>= λ events. check events amount)
          _ h₂ in
      let (w, e₄, h₄) =
        >>=-eq-ok send (λ v. g.transferred token >>= λ events. check events amount) _ h₃ in
      let (events, e₅, h₅) = >>=-eq-ok (g.transferred token) (λ events. check events amount) _ h₄ in
      let one = check_events-eq-ok user amount events (ap (λ y. y.0) h₅) in
      record {
        amount = amount;
        d₁ = (connect d).1;
        d₂ = (token_amount b x a quote_amount (connect d).1).1;
        d₃ = (listen (token_amount b x a quote_amount (connect d).1).1).1;
        d₄ = (send (listen (token_amount b x a quote_amount (connect d).1).1).1).1;
        connected = instead-eq-ok not_connected _ e₁;
        exchanged = instead-eq-ok not_a_number _ e₂;
        listening = instead-eq-ok not_connected _ e₃;
        sent = instead-eq-ok not_transferred _ e₄;
        seen = e₅ ∙ rw one (ap (λ y. (ok ((user, amount) ∷ []), y)) (ap (λ y. y.1) h₅));
      }

  note_outcome-eq-ok :
      (a : Association) (r : Result (Unit {0}) × D) {d' : D}
      → note_outcome b x a r ≡ (ok tt, d')
      → (r ≡ (ok tt, r.1))
        × (d' ≡ (save_association_status_by_chain_address b x (some a) success r.1).1)
  note_outcome-eq-ok a (ok u, d) h = (refl, sym (ap (λ y. y.1) h))
  note_outcome-eq-ok a (err e, d) h =
      let k = fail_association-not-ok a e d in let j = ap (λ y. y.0) h in absurd (cc)

  -- What is known of an offer that was settled, from the world `d` on: its amount was transferred,
  -- and then the association was marked.
  abbrev pub Settles : Association → List String → D → D → Type 0
  Settles a params d d' =
      (amount : String) × (rest : List String) × (quote_amount : ℤ) × (e : D) × (params
        ≡ amount ∷ rest)
      × (x.read_int amount ≡ some quote_amount)
      × IsTransferred b x g a quote_amount d e
      × (d' ≡ (save_association_status_by_chain_address b x (some a) success e).1)

  transfer_amount-Settles :
      (a : Association) (amount : String) (rest : List String) (q : Option ℤ) (d : D) {d' : D}
      → x.read_int amount ≡ q
      → transfer_amount b x g a q d ≡ (ok tt, d')
      → Settles a (amount ∷ rest) d d'
  transfer_amount-Settles a amount rest none d e h =
      let k = fail_association-not-ok a not_a_number d in let j = ap (λ y. y.0) h in absurd (cc)
  transfer_amount-Settles a amount rest (some q) d e h =
      let (done, noted) = note_outcome-eq-ok a (process_token_transaction b x g a q d) h in
      (
        amount,
        rest,
        q,
        (process_token_transaction b x g a q d).1,
        refl,
        e,
        process_token_transaction-IsTransferred a q d done,
        noted,
      )

  settle_transaction-Settles :
      (a : Association) (params : List String) (d : D) {d' : D}
      → settle_transaction b x g a create_offer params d ≡ (ok tt, d')
      → Settles a params d d'
  unfolding settle_transaction
  settle_transaction-Settles a [] d h = cc
  settle_transaction-Settles a (amount ∷ rest) d h =
      transfer_amount-Settles a amount rest (x.read_int amount) d refl h

  -- The encoded transaction is saved first.
  abbrev pub Saves : Chain → Association → AssociationTransaction → D → D → Type 0
  Saves c a t d d' =
      (text : String) × (d₁ : D) × (g.encode t ≡ ok text)
      × (save_deposit_transaction b c a.address text d ≡ (ok tt, d₁))
      × Settles a t.params d₁ d'

  after_saving-Settles :
      (a : Association) (t : AssociationTransaction) (r : Result (Unit {0}) × D) {d' : D}
      → t.transaction_type ≡ create_offer
      → after_saving b x g a t r ≡ (ok tt, d')
      → (r ≡ (ok tt, r.1)) × Settles a t.params r.1 d'
  after_saving-Settles a t (err e, d) o k =
      let f = fail_association-not-ok a e d in let j = ap (λ y. y.0) k in absurd (cc)
  after_saving-Settles a t (ok u, d) {d'} o k = (
    refl,
    settle_transaction-Settles a t.params d
        (subst (λ y. settle_transaction b x g a y t.params d ≡ (ok tt, d')) o k),
  )

  save_encoded-Saves :
      (c : Chain) (a : Association) (t : AssociationTransaction) (s : Result String) (d : D)
      {d' : D}
      → t.transaction_type ≡ create_offer
      → g.encode t ≡ s
      → save_encoded b x g c a t s d ≡ (ok tt, d')
      → Saves c a t d d'
  save_encoded-Saves c a t (err e) d o q h =
      let k = fail_association-not-ok a e d in let j = ap (λ y. y.0) h in absurd (cc)
  save_encoded-Saves c a t (ok s) d o q h =
      let (saved, settled) =
        after_saving-Settles a t (save_deposit_transaction b c a.address s d) o h in
      (s, (save_deposit_transaction b c a.address s d).1, q, saved, settled)

  -- If an offer is submitted with success, then the lookup of the user's association found one,
  -- and `Saves` holds of the run from the world after it: the offer's first parameter is an
  -- integer, the token is connected to, the amount is exchanged, the events are listened to, the
  -- tokens are transferred to the user with success, and after that the one transfer event that is
  -- seen is of this amount to this user; the calls follow one another in this order, each from the
  -- world that the one before left, and the association is marked at the end.
  pub on_submit_transaction-Settles :
      (c : Chain) (destination : ℕ) (t : AssociationTransaction) (d : D) {d' : D}
      → t.transaction_type ≡ create_offer
      → on_submit_transaction b x g c destination t d ≡ (ok tt, d')
      → (a : Association) × (e : D) × (get_association_by_chain_associated_address b c destination d
          ≡ (ok (some a), e))
        × Saves c a t e d'
  unfolding on_submit_transaction
  on_submit_transaction-Settles c destination t d {d'} o h =
      let (found, e, k) =
        >>=-eq-ok (get_association_by_chain_associated_address b c destination)
          (submit_for b x g c t) d h in
      go found _ e k
    where
      go :
          (found : Option Association) (e : D)
          → get_association_by_chain_associated_address b c destination d ≡ (ok found, e)
          → submit_for b x g c t found e ≡ (ok tt, d')
          → (a : Association) × (e : D) × (get_association_by_chain_associated_address b c
                destination d
              ≡ (ok (some a), e))
            × Saves c a t e d'
      go none e p k = absurd (cc)
      go (some a) e p k = (a, e, p, save_encoded-Saves c a t (g.encode t) e o refl k)
