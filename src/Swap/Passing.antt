-- ===== src/Swap/Passing.antt =====
-- Passing over the blocks of a chain: what both listeners promise.
use dex_server.Prelude.{
  ℕ, zero, suc, ◌+◌, ◌≤◌, ◌<◌, ◌≡◌, refl, sym, ap, subst, ◌∙◌, ◌⊎◌, inl, inr, List, [], ◌∷◌, ◌++◌,
  All, arith,
}
use native.Mathlib.Decide.{dec_le}
use native.Mathlib.Nat.{le_trans, le-add_right}
use mathlib.Core.List.{append_assoc, append-nil}
use dex_server.Swap.Rounds.{Round, going, stopped, panicked, carry_on, iterate}
use dex_server.Domain.Errors.{Result, ok, err}
use dex_server.Backend.Monad.{Action, pure, andthen}
use dex_server.Backend.Laws.{Contained, All-map}

module _ {A : Type 0} where
  Contained-left : (x : A) (xs ys : List A) → Contained x xs → Contained x (xs ++ ys)
  Contained-left x [] ys c = absurd c
  Contained-left x (y ∷ xs) ys (inl e) = inl e
  Contained-left x (y ∷ xs) ys (inr c) = inr (Contained-left x xs ys c)

  Contained-right : (x : A) (xs ys : List A) → Contained x ys → Contained x (xs ++ ys)
  Contained-right x [] ys c = c
  Contained-right x (y ∷ xs) ys c = inr (Contained-right x xs ys c)

  All-self : (xs : List A) → All (λ x. Contained x xs) xs
  All-self [] = tt
  All-self (x ∷ xs) = (
    inl refl,
    All-map (λ y. Contained y xs) (λ y. Contained y (x ∷ xs)) xs (λ y c. inr c) (All-self xs),
  )

  All-append : (P : A → Type 0) (xs ys : List A) → All P xs → All P ys → All P (xs ++ ys)
  All-append P [] ys h k = k
  All-append P (x ∷ xs) ys h k = (h.0, All-append P xs ys h.1 k)

  -- What was taken from block n up to block m, which is not passed yet: all that the blocks before
  -- m hold, and nothing but what these blocks and m hold.
  pub record Passed (paid : ℕ → List A) (n m : ℕ) (ts : List A) : Type 0 where
    pub forward : n ≤ m
    pub complete : (k : ℕ) → n ≤ k → k < m → All (λ p. Contained p ts) (paid k)
    pub sound : All (λ p. (k : ℕ) × (n ≤ k) × (k ≤ m) × Contained p (paid k)) ts

module _ {A : Type 0} (paid : ℕ → List A) where
  pub Passed-nothing : (n : ℕ) → Passed paid n n []
  Passed-nothing n = record {
    forward = omega arith;
    complete = λ k h g. absurd (omega arith);
    sound = tt;
  }

  -- Some of the block is taken, before it is tried again.
  pub Passed-again :
      (n m : ℕ) (ts us : List A)
      → All (λ p. Contained p (paid n)) ts
      → Passed paid n m us
      → Passed paid n m (ts ++ us)
  Passed-again n m ts us h p = record {
    forward = p.forward;
    complete = λ k a c.
        All-map (λ x. Contained x us) (λ x. Contained x (ts ++ us)) (paid k)
          (λ x g. Contained-right x ts us g) (p.complete k a c);
    sound =
        All-append _ ts us
          (All-map (λ x. Contained x (paid n)) _ ts (λ x g. (n, omega arith, p.forward, g)) h)
          p.sound;
  }

  -- The block is taken whole, and the next one is begun.
  pub Passed-next :
      (n m : ℕ) (us : List A) → Passed paid (n + 1) m us → Passed paid n m (paid n ++ us)
  Passed-next n m us p =
      let forward = p.forward in
      record {
        forward = omega arith;
        complete = λ k a c. elim (dec_le (n + 1) k) [
          | yes later ↦
              All-map (λ x. Contained x us) (λ x. Contained x (paid n ++ us)) (paid k)
                (λ x g. Contained-right x (paid n) us g) (p.complete k later c)
          | no now ↦
              let e : n ≡ k = omega arith in
              subst (λ j. All (λ x. Contained x (paid n ++ us)) (paid j)) e
                (All-map (λ x. Contained x (paid n)) (λ x. Contained x (paid n ++ us)) (paid n)
                  (λ x g. Contained-left x (paid n) us g) (All-self (paid n)))
        ];
        sound =
            All-append _ (paid n) us
              (All-map (λ x. Contained x (paid n)) _ (paid n)
                (λ x g. (n, omega arith, omega arith, g)) (All-self (paid n)))
              (All-map (λ x. (k : ℕ) × (n + 1 ≤ k) × (k ≤ m) × Contained x (paid k)) _ us
                (λ x g. (g.0, le_trans (le-add_right n 1) g.1, g.2, g.3)) p.sound);
      }

-- What one round adds to what was taken: it stays at the number and takes some of the block, or it
-- comes to the next number and takes all of it.
abbrev pub Moved : {A D : Type 0} → (ℕ → List A) → (D → List A) → ℕ → D → Round × D → Type 0
Moved paid trace n d (going m, e) =
    (ts : List _) × (trace e ≡ trace d ++ ts)
    × (((m ≡ n) × All (λ p. Contained p (paid n)) ts) ⊎ ((m ≡ n + 1) × (ts ≡ paid n)))
Moved paid trace n d (stopped, e) = Unit
Moved paid trace n d (panicked, e) = Unit

module _ {A D : Type 0} (paid : ℕ → List A) (trace : D → List A) (round : ℕ → D → Round × D)
    (low high : ℕ)
    (moves : (n : ℕ) (d : D) → low ≤ n → n < high → Moved paid trace n d (round n d)) where
  pub iterate-Passed :
      (rounds n m : ℕ) (d e : D)
      → low ≤ n
      → n + rounds ≤ high
      → iterate round rounds n d ≡ (going m, e)
      → (ts : List A) × (trace e ≡ trace d ++ ts) × Passed paid n m ts
  unfolding iterate
  iterate-Passed zero n m d e p h r =
      let s : ◌≡◌ {A = Round × D} (going n, d) (going m, e) = r in
      let f : n ≡ m = cc in
      let g : d ≡ e = cc in
      (
        [],
        ap trace (sym g) ∙ sym (append-nil (trace d)),
        subst (λ k. Passed paid n k []) f (Passed-nothing paid n),
      )
  iterate-Passed (suc rounds) n m d e p h r =
      go (round n d) (moves n d p (omega arith)) (λ k d' q. iterate-Passed rounds k m d' e q) r
    where
      go :
          (x : Round × D)
          → Moved paid trace n d x
          → ((k : ℕ) (d' : D)
              → low ≤ k
              → k + rounds ≤ high
              → iterate round rounds k d' ≡ (going m, e)
              → (ts : List A) × (trace e ≡ trace d' ++ ts) × Passed paid k m ts)
          → carry_on (iterate round rounds) x ≡ (going m, e)
          → (ts : List A) × (trace e ≡ trace d ++ ts) × Passed paid n m ts
      go (going k, d') (ts, t, inl (f, some_of)) rest r =
          let (us, u, passed) = rest k d' (omega arith) (omega arith) r in
          (
            ts ++ us,
            u ∙ ap (λ x. x ++ us) t ∙ append_assoc (trace d) ts us,
            Passed-again paid n m ts us some_of (subst (λ j. Passed paid j m us) f passed),
          )
      go (going k, d') (ts, t, inr (f, all)) rest r =
          let (us, u, passed) = rest k d' (omega arith) (omega arith) r in
          (
            paid n ++ us,
            u
                ∙ ap (λ x. x ++ us) (t ∙ ap (λ x. trace d ++ x) all)
                ∙ append_assoc (trace d) (paid n) us,
            Passed-next paid n m us (subst (λ j. Passed paid j m us) f passed),
          )
      go (stopped, d') k rest r = cc
      go (panicked, d') k rest r = cc

-- What a call of a handler adds to what was taken.
abbrev pub taken : {A : Type 0} → Result (Unit {0}) → A → List A
taken (ok u) p = p ∷ []
taken (err e) p = []

-- What a call added to what was taken, by its result: all of a list if it succeeded, and only such
-- in any case.
abbrev pub Took : {A D : Type 0} → (D → List A) → List A → D → Result (Unit {0}) × D → Type 0
Took trace ps d r =
    (ts : List _) × (trace r.1 ≡ trace d ++ ts)
    × (r.0 ≡ ok tt → ts ≡ ps)
    × All (λ p. Contained p ps) ts

module _ {A D : Type 0} (trace : D → List A) where
  pub Took-nothing : (d : D) → Took trace [] d (pure tt d)
  Took-nothing d = ([], sym (append-nil (trace d)), λ f. refl, tt)

  pub Took-one :
      (p : A) (d : D) (r : Result (Unit {0}) × D)
      → trace r.1 ≡ trace d ++ taken r.0 p
      → Took trace (p ∷ []) d r
  Took-one p d (ok u, d') h = (p ∷ [], h, λ f. refl, (inl refl, tt))
  Took-one p d (err e, d') h = ([], h, λ f. cc, tt)

  -- A call and what follows if it succeeds.
  pub Took-append :
      (ps qs : List A) (d : D) (r : Result (Unit {0}) × D) (next : Action D (Unit {0}))
      → Took trace ps d r
      → ((d' : D) → Took trace qs d' (next d'))
      → Took trace (ps ++ qs) d (andthen r.0 r.1 (λ u. next))
  Took-append ps qs d (err e, d') next (ts, t, all, some_of) rest = (
    ts,
    t,
    λ f. cc,
    All-map (λ x. Contained x ps) (λ x. Contained x (ps ++ qs)) ts (λ x g. Contained-left x ps qs g)
        some_of,
  )
  Took-append ps qs d (ok tt, d') next (ts, t, all, some_of) rest =
      let (us, u, all', some_of') = rest d' in
      (
        ts ++ us,
        u ∙ ap (λ x. x ++ us) t ∙ append_assoc (trace d) ts us,
        λ f. ap (λ x. x ++ us) (all refl) ∙ ap (λ x. ps ++ x) (all' f),
        All-append _ ts us
            (All-map (λ x. Contained x ps) (λ x. Contained x (ps ++ qs)) ts
              (λ x g. Contained-left x ps qs g) some_of)
            (All-map (λ x. Contained x qs) (λ x. Contained x (ps ++ qs)) us
              (λ x g. Contained-right x ps qs g) some_of'),
      )
