-- ===== src/Backend/Monad.antt =====
-- A Go function that returns (value, error) and acts on the world. What it did before it returned
-- an error stays done.
use dex_server.Prelude.{◌≡◌, refl, ap, arith}
use dex_server.Domain.Errors.{Error, Result, ok, err}

abbrev pub Action : Type 0 → Type 0 → Type 0
Action D A = D → Result A × D

abbrev pub pure : {D A : Type 0} → A → Action D A
pure a d = (ok a, d)

abbrev pub throw : {D A : Type 0} → Error → Action D A
throw e d = (err e, d)

-- A chain of checks, which leaves the world alone.
abbrev pub lift : {D A : Type 0} → Result A → Action D A
lift r d = (r, d)

-- What follows a call, by how the call ended: `if err != nil { return err }`.
abbrev pub andthen : {D A B : Type 0} → Result A → D → (A → Action D B) → Result B × D
andthen (ok a) d f = f a d
andthen (err e) d f = (err e, d)

infixl 5 ◌>>=◌ ◌>>◌
abbrev pub ◌>>=◌ : {D A B : Type 0} → Action D A → (A → Action D B) → Action D B
◌>>=◌ m f d = let (r, d') = m d in andthen r d' f

abbrev pub ◌>>◌ : {D B : Type 0} → Action D (Unit {0}) → Action D B → Action D B
m >> k = m >>= λ _. k

-- A call whose error is logged and otherwise ignored.
abbrev pub ignoring_error : {D A : Type 0} → Action D A → Action D (Unit {0})
ignoring_error m d = (ok tt, (m d).1)

-- What a successful chain tells of its first call.
pub >>=-eq-ok :
    {D A B : Type 0} (m : Action D A) (f : A → Action D B) (d : D) {b : B} {d' : D}
    → (m >>= f) d ≡ (ok b, d')
    → (a : A) × (m d ≡ (ok a, (m d).1)) × (f a (m d).1 ≡ (ok b, d'))
>>=-eq-ok m f d {b} {d'} h = go (m d).0 (m d).1 refl h
  where
    go :
        (r : Result _) (e : _)
        → m d ≡ (r, e)
        → andthen r e f ≡ (ok b, d')
        → (a : _) × (m d ≡ (ok a, (m d).1)) × (f a (m d).1 ≡ (ok b, d'))
    go (ok a) e p q = (a, rw p, rw p q)
    go (err x) e p q = cc

-- What holds of the world after a call, and after what follows if it succeeds, holds after both.
pub >>=-keeps :
    {D A B : Type 0} (P : D → Type 0) (m : Action D A) (f : A → Action D B) (d : D)
    → P (m d).1
    → ((a : A) → m d ≡ (ok a, (m d).1) → P (f a (m d).1).1)
    → P ((m >>= f) d).1
>>=-keeps {D} {A} {B} P m f d h k = go (m d).0 refl
  where
    go : (r : Result A) → (m d).0 ≡ r → P (andthen (m d).0 (m d).1 f).1
    go (ok a) e = rw e (k a (ap (λ x. (x, (m d).1)) e))
    go (err x) e = rw e h

-- A pure last step leaves the world as it is.
pub >>=-pure :
    {D A B : Type 0} (m : Action D A) (f : A → B) (d : D) → ((m >>= λ a. pure (f a)) d).1 ≡ (m d).1
>>=-pure m f d = ground arith
