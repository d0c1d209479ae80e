-- ===== src/Services/Pairs.antt =====
-- services/pair.go with daos/pair.go: the creation of a pair. The pair's identifier and times are not
-- in the model.
use dex_server.Prelude.{
  ℕ, true, Option, none, some, List, [], ◌∷◌, ◌==◌, if◌then◌else◌, All, ==_iff, ◌≡◌, refl,
  Bool-cases, inl, inr,
}
use dex_server.Domain.Errors.{
  ok, pair_exists, base_token_not_found, quote_token_not_found, quote_token_invalid,
}
use dex_server.Domain.Account.{Token}
use dex_server.Domain.Pair.{Pair}
use dex_server.Backend.{Backend}
use dex_server.Backend.Laws.{IsSelective}
use dex_server.Backend.Monad.{Action, pure, throw, ◌>>=◌, ◌>>◌, >>=-eq-ok}
use dex_server.Daos.Orders.Queries.{first}
use dex_server.Daos.Tokens.{get_token}
use dex_server.Services.Validator.{get_by_token_address}

abbrev pub described : Token → Token → Pair → Pair
described bt st p = record p {
  quote_token_symbol = st.symbol;
  quote_token_address = st.contract_address;
  quote_token_decimals = st.decimals;
  base_token_symbol = bt.symbol;
  base_token_address = bt.contract_address;
  base_token_decimals = bt.decimals;
}

module _ {D : Type 0} (b : Backend D) where
  -- `PairDao.Create`, with the pair as it is then.
  unfoldable pub insert_pair : Pair → Action D Pair
  insert_pair p = do b.pairs.insert (some p ∷ []); pure p

  -- `PairService.Create`, from the test of the quote token on.
  unfoldable pub create_between : Pair → Token → Option Token → Action D Pair
  unfolding insert_pair
  create_between p bt none = throw quote_token_not_found
  create_between p bt (some st) =
      if st.quote then insert_pair (described bt st p) else throw quote_token_invalid

  -- From the test of the base token on.
  unfoldable pub create_on : Pair → Option Token → Action D Pair
  unfolding create_between get_token
  create_on p none = throw base_token_not_found
  create_on p (some bt) = get_token b p.quote_token_address >>= create_between p bt

  -- From the test of the pair that was looked up on.
  unfoldable pub create_absent : Pair → Option Pair → Action D Pair
  unfolding create_on get_token
  create_absent p (some old) = throw pair_exists
  create_absent p none = get_token b p.base_token_address >>= create_on p

  -- `PairService.Create`
  unfoldable pub create_pair : Pair → Action D Pair
  unfolding create_absent get_by_token_address
  create_pair p =
      get_by_token_address b p.base_token_address p.quote_token_address >>= create_absent p

-- What a creation has read, and how it ended: from the world `d` to the world `d'`, with `q`.
pub record IsCreated {D : Type 0} (b : Backend D) (p q : Pair) (d d' : D) : Type 0 where
  pub d₁ : D
  pub d₂ : D
  pub d₃ : D
  pub bt : Token
  pub st : Token
  pub absent : get_by_token_address b p.base_token_address p.quote_token_address d ≡ (ok none, d₁)
  pub base : get_token b p.base_token_address d₁ ≡ (ok (some bt), d₂)
  pub quote : get_token b p.quote_token_address d₂ ≡ (ok (some st), d₃)
  pub quoting : st.quote ≡ true
  pub base_kept : q.base_token_address ≡ p.base_token_address
  pub quote_kept : q.quote_token_address ≡ p.quote_token_address
  pub told : q ≡ record p {
    base_token_symbol = bt.symbol;
    base_token_address = bt.contract_address;
    base_token_decimals = bt.decimals;
    quote_token_symbol = st.symbol;
    quote_token_address = st.contract_address;
    quote_token_decimals = st.decimals;
  }
  pub inserted : b.pairs.insert (some q ∷ []) d₃ ≡ (ok tt, d')

module _ {D : Type 0} (b : Backend D) (selective : IsSelective b.tokens) where
  -- A token that is found has the address that was looked for.
  get_token-address :
      (address : ℕ) (d : D) {t : Token} {d' : D}
      → get_token b address d ≡ (ok (some t), d')
      → t.contract_address ≡ address
  unfolding get_token
  get_token-address address d {t} h =
      let (found, p, q) =
        >>=-eq-ok (b.tokens.get (λ t. t.contract_address == address) 1) (λ r. pure (first r)) d h in
      go found (selective _ 1 d _ found p) cc
    where
      go :
          (r : List Token)
          → All (λ x. (x.contract_address == address) ≡ true) r
          → first r ≡ some t
          → t.contract_address ≡ address
      go [] k e = cc
      go (x ∷ r) k e = let s : x ≡ t = cc in rw (← s) ((==_iff _ _).0 k.0)

  insert_pair_lem :
      (p : Pair) (d : D) {q : Pair} {d' : D}
      → insert_pair b p d ≡ (ok q, d')
      → (q ≡ p) × (b.pairs.insert (some q ∷ []) d ≡ (ok tt, d'))
  unfolding insert_pair
  insert_pair_lem p d {q} {d'} h =
      let (u, i, k) = >>=-eq-ok (b.pairs.insert (some p ∷ [])) (λ _. pure p) d h in
      let e : q ≡ p = cc in (e, rw e cc)

  create_between_lem :
      (p : Pair) (bt : Token) (o : Option Token) (d : D) {q : Pair} {d' : D}
      → create_between b p bt o d ≡ (ok q, d')
      → (st : Token) × (o ≡ some st)
        × (st.quote ≡ true)
        × (q ≡ described bt st p)
        × (b.pairs.insert (some q ∷ []) d ≡ (ok tt, d'))
  unfolding create_between
  create_between_lem p bt none d h = cc
  create_between_lem p bt (some st) d {q} {d'} h = elim (Bool-cases st.quote) [
    | inl e ↦ let (k, i) = insert_pair_lem (described bt st p) d (rw e at h) in (st, refl, e, k, i)
    | inr e ↦ let k = rw e at h in cc
  ]

  -- Let a query for tokens find only what matches it. If the creation of a pair succeeds, then no
  -- pair of the two addresses was found, a token was found for each of them, the quote one being
  -- marked as such, and the pair that was inserted is of these addresses, with the symbol and the
  -- decimals of the base token for its base, those of the quote token for its quote, and otherwise
  -- as given.
  pub create_pair-IsCreated :
      (p : Pair) (d : D) {q : Pair} {d' : D} → create_pair b p d ≡ (ok q, d') → IsCreated b p q d d'
  unfolding create_pair create_absent create_on
  create_pair-IsCreated p d {q} {d'} h =
      let (old, e₁, h₁) =
        >>=-eq-ok (get_by_token_address b p.base_token_address p.quote_token_address)
          (create_absent b p) d h in
      from_pair old e₁ h₁
    where
      from_base :
          (found : Option Token) (d₁ d₂ : D)
          → get_by_token_address b p.base_token_address p.quote_token_address d ≡ (ok none, d₁)
          → get_token b p.base_token_address d₁ ≡ (ok found, d₂)
          → create_on b p found d₂ ≡ (ok q, d')
          → IsCreated b p q d d'
      from_base none d₁ d₂ e₁ e₂ h₂ = cc
      from_base (some bt) d₁ d₂ e₁ e₂ h₂ =
          let (o, e₃, h₃) =
            >>=-eq-ok (get_token b p.quote_token_address) (create_between b p bt) d₂ h₂ in
          let (st, e, quoting, told, inserted) = create_between_lem p bt o _ h₃ in
          let e₄ = rw e at e₃ in
          record {
            d₁ = d₁;
            d₂ = d₂;
            d₃ = (get_token b p.quote_token_address d₂).1;
            bt = bt;
            st = st;
            absent = e₁;
            base = e₂;
            quote = e₄;
            quoting = quoting;
            base_kept = rw told (get_token-address p.base_token_address d₁ e₂);
            quote_kept = rw told (get_token-address p.quote_token_address d₂ e₄);
            told = told;
            inserted = inserted;
          }

      from_pair :
          (old : Option Pair)
          → get_by_token_address b p.base_token_address p.quote_token_address d
            ≡ (ok old, (get_by_token_address b p.base_token_address p.quote_token_address d).1)
          → create_absent b p old
              (get_by_token_address b p.base_token_address p.quote_token_address d).1
            ≡ (ok q, d')
          → IsCreated b p q d d'
      from_pair (some x) e₁ h₁ = cc
      from_pair none e₁ h₁ =
          let (found, e₂, h₂) = >>=-eq-ok (get_token b p.base_token_address) (create_on b p) _ h₁ in
          from_base found _ _ e₁ e₂ h₂
