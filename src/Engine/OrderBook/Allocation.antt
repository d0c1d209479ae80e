-- ===== src/Engine/OrderBook/Allocation.antt =====
-- The specification of a fill, with no state and no database: an incoming amount is given to the
-- waiting amounts in their order, each in full while it lasts.
use dex_server.Prelude.{ℕ, ◌+◌, ◌-◌, ◌≤◌, ◌<◌, ◌≡◌, List, [], ◌∷◌, All, arith, leb, if◌then◌else◌}
use Prim.Native.Nat.{min}

unfoldable pub allocate : ℕ → List ℕ → List ℕ
allocate r [] = []
allocate r (x ∷ xs) = let rest = allocate (r - x) xs in if leb r x then r ∷ [] else x ∷ rest

abbrev pub sum : List ℕ → ℕ
sum [] = 0
sum (x ∷ xs) = x + sum xs

-- All that is asked for is given, or all that is there.
pub sum-allocate : (r : ℕ) (xs : List ℕ) → sum (allocate r xs) ≡ min r (sum xs)
unfolding allocate
sum-allocate r [] = omega arith
sum-allocate r (x ∷ xs) = ground (arith, sum-allocate (r - x) xs)

-- Nobody gets more than he waits for.
abbrev pub Within : List ℕ → List ℕ → Type 0
Within [] xs = Unit
Within (a ∷ rest) [] = ⊥
Within (a ∷ rest) (x ∷ xs) = (a ≤ x) × Within rest xs

pub allocate-Within : (r : ℕ) (xs : List ℕ) → Within (allocate r xs) xs
unfolding allocate
allocate-Within r [] = tt
allocate-Within r (x ∷ xs) = ground (arith, allocate-Within (r - x) xs)

-- Every share is positive, where something is asked for and everybody waits for something.
pub allocate-positive :
    (r : ℕ) (xs : List ℕ) → 0 < r → All (λ x. 0 < x) xs → All (λ a. 0 < a) (allocate r xs)
unfolding allocate
allocate-positive r [] h p = tt
allocate-positive r (x ∷ xs) h p = ground (arith, allocate-positive (r - x) xs)
