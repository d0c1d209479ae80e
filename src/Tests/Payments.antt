-- ===== src/Tests/Payments.antt =====
-- A memory that keeps the payments that a listener's handler took.
use Prim.Native.String.{String}
use dex_server.Prelude.{ℕ, ◌≡◌, refl, ap, List, [], ◌∷◌, ◌++◌}
use dex_server.Domain.Errors.{Result, ok}
use dex_server.Domain.Trade.{Trade}
use dex_server.Backend.Memory.{Memory}

abbrev pub no_number : String → Result ℕ
no_number s = ok 0

-- The payments that were taken are kept among the trades.
abbrev pub logged : {A : Type 0} → (Trade → A) → List Trade → List A
logged f [] = []
logged f (t ∷ ts) = f t ∷ logged f ts

pub logged-append :
    {A : Type 0} (f : Trade → A) (ts : List Trade) (t : Trade)
    → logged f (ts ++ t ∷ []) ≡ logged f ts ++ f t ∷ []
logged-append f [] t = refl
logged-append f (x ∷ ts) t = ap (λ xs. f x ∷ xs) (logged-append f ts t)

abbrev pub put : Trade → Memory → Result (Unit {0}) × Memory
put t d = (ok tt, record d { trades = d.trades ++ t ∷ [] })
